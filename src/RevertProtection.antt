-- ===== src/RevertProtection.antt =====
-- crates/op-rbuilder/src/revert_protection.rs: `eth_sendBundle` and `eth_getTransactionReceipt`.
-- The pool, the provider, the recovery of raw transactions and the receipts are the node's, and
-- stand as the fields of `Node`. The metrics are left out.
pub mod Bundles
use op_rbuilder.Base.{
  ℕ, Bool, Option, none, some, List, [], ◌∷◌, if◌then◌else◌, unwrap_or, contains, Result, ok, err,
  ◌>>=◌, map_err, ok_or,
}
use op_rbuilder.Transactions.{
  Hash, OpPooledTransaction, FbPooledTransaction, from_inner, with_reverted_hashes,
  with_flashblock_number_min, with_flashblock_number_max, with_conditional,
}
use op_rbuilder.Bundle.{Bundle, BundleConditional, BundleConditionalError, conditional}

-- `unwrap` on a failed lookup of a receipt panics.
pub data EthApiError : Type 0 where
  internal_eth_error no_transaction several_transactions : EthApiError
  conditional_error : BundleConditionalError → EthApiError
  recover_error pool_error dropped_from_pool panicked : EthApiError

-- `recover_raw_transaction` includes `OpPooledTransaction::from_pooled`.
pub record Node : Type 1 where
  pub Pool : Type 0
  pub Receipt : Type 0
  pub best_block_number : Option ℕ
  pub recover_raw_transaction : ℕ → Option OpPooledTransaction
  pub add_transaction : Pool → FbPooledTransaction → Option Hash × Pool
  pub transaction_receipt : Hash → Option (Option Receipt)

-- The only transaction of the bundle.
unfoldable pub single_transaction : List ℕ → Result EthApiError ℕ
single_transaction [] = err no_transaction
single_transaction (tx ∷ []) = ok tx
single_transaction (tx ∷ other ∷ txs) = err several_transactions

-- What is put into the pool for a bundle.
unfoldable pub pool_transaction :
    Bundle → BundleConditional → OpPooledTransaction → FbPooledTransaction
unfolding from_inner with_reverted_hashes with_flashblock_number_min with_flashblock_number_max
    with_conditional
pool_transaction b c recovered = with_conditional c.transaction_conditional (
    with_flashblock_number_max c.flashblock_number_max (
      with_flashblock_number_min c.flashblock_number_min
        (with_reverted_hashes (unwrap_or b.reverting_hashes []) (from_inner recovered))))

module _ (node : Node) where
  open node use {Pool, Receipt, best_block_number, recover_raw_transaction, add_transaction}

  -- `send_bundle_inner` up to the call of the pool
  unfoldable pub prepare_bundle : Bundle → Result EthApiError FbPooledTransaction
  unfolding single_transaction pool_transaction
  prepare_bundle b = do
    last_block_number ← ok_or internal_eth_error best_block_number
    bundle_transaction ← single_transaction b.transactions
    c ← map_err conditional_error (conditional b last_block_number)
    recovered ← ok_or recover_error (recover_raw_transaction bundle_transaction)
    ok (pool_transaction b c recovered)

  -- `send_bundle_inner`; `send_bundle` adds metrics only
  unfoldable pub send_bundle : Pool → Bundle → Result EthApiError Hash × Pool
  unfolding prepare_bundle
  send_bundle pool b = elim (prepare_bundle b) [
    | err e ↦ (err e, pool)
    | ok tx ↦ let (outcome, pool') = add_transaction pool tx in (ok_or pool_error outcome, pool')
  ]

  -- `reverted_cache` holds the hashes of the transactions that were dropped.
  unfoldable pub get_receipt : List Hash → Hash → Result EthApiError (Option Receipt)
  get_receipt reverted_cache hash = elim (node.transaction_receipt hash) [
    | none ↦ err panicked
    | some (some receipt) ↦ ok (some receipt)
    | some none ↦ if contains reverted_cache hash then err dropped_from_pool else ok none
  ]
