-- ===== src/BuilderTxs/Within.antt =====
-- How much gas and data `add_builder_txs` adds to a block.
use op_rbuilder.Base.{
  ℕ, ◌+◌, ◌≤◌, ◌≡◌, Bool, List, [], ◌∷◌, arith, inl, inr, differ, if◌then◌else◌, Result-cases, ok,
}
use op_rbuilder.Evm.{Evm, BuilderCtx, MeteredEvm}
use op_rbuilder.Context.{Info, append, charge}
use op_rbuilder.BuilderTxs.{
  BuilderTransactionCtx, Adding, skip_signer, commit_builder_tx, add_builder_tx, add_from, Simulate,
  add_builder_txs, simulated,
}

-- The sum over the transactions for one end of the block
abbrev pub total_at : (BuilderTransactionCtx → ℕ) → Bool → List BuilderTransactionCtx → ℕ
total_at f top [] = 0
total_at f top (t ∷ ts) = (if differ t.is_top_of_block top then 0 else f t) + total_at f top ts

abbrev pub gas_limit_of : BuilderTransactionCtx → ℕ
gas_limit_of t = t.signed_tx.gas_limit

abbrev pub da_size_of : BuilderTransactionCtx → ℕ
da_size_of t = t.da_size

module _ (evm : Evm) (ctx : BuilderCtx) {cap : ℕ} (meter : MeteredEvm evm cap) where
  -- At most so much more gas and data
  pub record AddsAtMost (gas da : ℕ) (info info' : Info evm ctx) : Type 0 where
    pub gas_le : info'.cumulative_gas_used ≤ info.cumulative_gas_used + gas
    pub da_le : info'.cumulative_da_bytes_used ≤ info.cumulative_da_bytes_used + da

  abbrev round : (BuilderTransactionCtx → ℕ) → Bool → BuilderTransactionCtx → ℕ
  round f top t = if differ t.is_top_of_block top then 0 else f t

  add_builder_tx-AddsAtMost :
      (top : Bool) (t : BuilderTransactionCtx) (a a' : Adding evm ctx)
      → add_builder_tx evm ctx top a t ≡ ok a'
      → AddsAtMost (round gas_limit_of top t) (round da_size_of top t) a.info a'.info
  unfolding add_builder_tx skip_signer commit_builder_tx append charge
  add_builder_tx-AddsAtMost top t a a' e = elim (Result-cases (evm.transact a.db t.signed_tx)) [
    | inl (r, ran) ↦ let used = meter.metered a.db t.signed_tx r ran in ground arith
    | inr (x, bad) ↦ ground arith
  ]

  add_from-AddsAtMost :
      (top : Bool) (a : Adding evm ctx) (ts : List BuilderTransactionCtx)
      → AddsAtMost
          (total_at gas_limit_of top ts)
          (total_at da_size_of top ts)
          a.info
          (add_from evm ctx top a ts).1.info
  unfolding add_from
  add_from-AddsAtMost top a [] = record { gas_le = omega arith; da_le = omega arith }
  add_from-AddsAtMost top a (t ∷ ts) = elim (Result-cases (add_builder_tx evm ctx top a t)) [
    | inl (a', ran) ↦
        let one = add_builder_tx-AddsAtMost top t a a' ran in
        let rest = add_from-AddsAtMost top a' ts in
        rw (ran, add_from)
          (record {
            gas_le = omega (arith, one.gas_le, rest.gas_le);
            da_le = omega (arith, one.da_le, rest.da_le);
          })
    | inr (x, bad) ↦ rw (bad, add_from) (record { gas_le = omega arith; da_le = omega arith })
  ]

  -- The gas that is added is at most the gas limits of the transactions for the place.
  pub add_builder_txs-AddsAtMost :
      (simulate : Simulate evm ctx) (info : Info evm ctx) (db : evm.Db) (top : Bool)
      → let ts = simulated (simulate info db top) in
        AddsAtMost
          (total_at gas_limit_of top ts)
          (total_at da_size_of top ts)
          info
          (add_builder_txs evm ctx simulate info db top).1.0
  unfolding add_builder_txs
  add_builder_txs-AddsAtMost simulate info db top = elim (Result-cases (simulate info db top)) [
    | inl (ts, e) ↦
        rw (e, add_builder_txs)
          (add_from-AddsAtMost top (record { info = info; db = db; invalid = [] }) ts)
    | inr (x, e) ↦ rw (e, add_builder_txs) (record { gas_le = omega arith; da_le = omega arith })
  ]
