-- ===== src/RevertProtection/Bundles.antt =====
-- What a request of `eth_sendBundle` hands to the pool.
use op_rbuilder.Base.{
  ℕ, ◌+◌, ◌<◌, ◌≡◌, ◌⊎◌, inl, inr, some, [], arith, u64_mod, unwrap_or, ok, err, ok_or,
  Result-cases,
}
use op_rbuilder.Transactions.{FbPooledTransaction}
use op_rbuilder.Bundle.{Bundle, max_block_range_blocks, conditional}
use op_rbuilder.Bundle.Ranges.{RangeIsValid, conditional_of, conditional-ok}
use op_rbuilder.RevertProtection.{EthApiError, pool_error, Node, prepare_bundle, send_bundle}

-- The transaction `t` carries what the bundle `b` asks for at the block after `last`.
pub record Carries (b : Bundle) (last : ℕ) (t : FbPooledTransaction) : Type 0 where
  pub range : RangeIsValid b last
  pub reverting : t.reverted_hashes ≡ some (unwrap_or b.reverting_hashes [])
  pub min : t.flashblock_number_min ≡ b.flashblock_number_min
  pub max : t.flashblock_number_max ≡ b.flashblock_number_max
  pub condition : t.inner.conditional ≡ some (conditional_of b last).transaction_conditional

module _ (node : Node) (last : ℕ) (at_last : node.best_block_number ≡ some last)
    (fits : last + max_block_range_blocks < u64_mod) where
  prepare_bundle-Carries :
      (b : Bundle) {t : FbPooledTransaction} → prepare_bundle node b ≡ ok t → Carries b last t
  unfolding prepare_bundle
  prepare_bundle-Carries b e = elim (Result-cases (conditional b last)) [
    | inl (c, accepted) ↦
        let (range, same) = conditional-ok b last fits accepted in
        record {
          range = range;
          reverting = ground arith;
          min = ground arith;
          max = ground arith;
          condition = ground arith;
        }
    | inr (e', refused) ↦ absurd (ground arith)
  ]

  -- With the node at a block whose number is not within ten of 2^64, a request of a bundle is
  -- refused and leaves the pool as it was, or it hands the pool one transaction that carries the
  -- bundle's bounds and keeps the rules of its ranges, and then answers with the pool's own
  -- outcome.
  pub send_bundle_cases :
      (pool : node.Pool) (b : Bundle)
      → ((e : EthApiError) × (send_bundle node pool b ≡ (err e, pool)))
        ⊎ ((t : FbPooledTransaction) × Carries b last t
            × (send_bundle node pool b ≡ (
              ok_or pool_error (node.add_transaction pool t).0,
              (node.add_transaction pool t).1,
            )))
  unfolding send_bundle
  send_bundle_cases pool b = elim (Result-cases (prepare_bundle node b)) [
    | inl (t, prepared) ↦ inr (t, prepare_bundle-Carries b prepared, rw (prepared, send_bundle))
    | inr (e, refused) ↦ inl (e, rw (refused, send_bundle))
  ]
