-- ===== src/Context/Best.antt =====
-- `execute_best_transactions`: the pool's transactions in the order of the iterator.
use op_rbuilder.Base.{
  ℕ, zero, suc, ◌+◌, ◌%◌, ◌^◌, Bool, true, false, not, ◌&&◌, ◌||◌, Option, none, some, ltb,
  if◌then◌else◌, is_some, is_some_and, contains, ok, err,
}
use op_rbuilder.Transactions.{Tx, FbPooledTransaction}
use op_rbuilder.Execution.{BlockLimits, is_tx_over_limits}
use op_rbuilder.GasLimiter.{AddressGasLimiter, consume_gas}
use op_rbuilder.BestTxs.{PayloadTransactions}
use op_rbuilder.Evm.{
  Evm, BuilderCtx, ExecutionResult, ResultAndState, nonce_too_low, invalid_tx, fatal_error,
}
use op_rbuilder.Context.{
  PayloadBuilderError, evm_execution_error, panicked, Info, charge, add_fees, append,
}

-- The counters of the loop, which go to the metrics. `reverted_gas_used` is an `i32`, kept as its
-- bit pattern.
pub record TxCounts : Type 0 where
  pub considered : ℕ
  pub simulated : ℕ
  pub success : ℕ
  pub fail : ℕ
  pub bundles_reverted : ℕ
  pub reverted_gas_used : ℕ

abbrev pub no_counts : TxCounts
no_counts = record {
  considered = 0;
  simulated = 0;
  success = 0;
  fail = 0;
  bundles_reverted = 0;
  reverted_gas_used = 0;
}

-- A transaction of a bundle that does not list its hash must not revert.
unfoldable pub exclude_reverting_txs : FbPooledTransaction → Bool
exclude_reverting_txs pooled = elim pooled.reverted_hashes [
  | none ↦ false
  | some hashes ↦ not (contains hashes pooled.inner.consensus.tx_hash)
]

-- The counts after a result of a simulation.
unfoldable pub count_result : FbPooledTransaction → Bool → ℕ → TxCounts → TxCounts
count_result pooled true gas_used c = record c { success = c.success + 1 }
count_result pooled false gas_used c = record c {
  fail = c.fail + 1;
  reverted_gas_used = (c.reverted_gas_used + gas_used) % 2 ^ 32;
  bundles_reverted =
      if is_some pooled.reverted_hashes then c.bundles_reverted + 1 else c.bundles_reverted;
}

-- What one call of the loop is given and does not change: the EVM and the context, the iterator's
-- operations, and the limits.
pub record BestCall : Type 1 where
  pub evm : Evm
  pub ctx : BuilderCtx
  pub txs : PayloadTransactions
  pub block_gas_limit : ℕ
  pub block_da_limit : Option ℕ
  pub block_da_footprint_limit : Option ℕ

module _ (call : BestCall) where
  open call use {evm, ctx, txs, block_gas_limit, block_da_limit, block_da_footprint_limit}
  open call.evm use {Db, Changes, Logs}

  -- The variables that the loop changes.
  pub record Build : Type 0 where
    pub info : Info evm ctx
    pub db : Db
    pub best_txs : txs.Txs
    pub limiter : AddressGasLimiter
    pub counts : TxCounts

  -- How a round of the loop, and the loop, end.
  pub data Flow : Type 0 where
    go_on : Build → Flow
    was_cancelled : Build → Flow
    failed : PayloadBuilderError → Build → Flow

  pub data Outcome : Type 0 where
    done : Build → Outcome
    cancelled_at : Build → Outcome
    failed_at : PayloadBuilderError → Build → Outcome
    out_of_fuel : Outcome

  abbrev pub limits : BlockLimits
  limits = record {
    block_gas_limit = block_gas_limit;
    tx_data_limit = ctx.max_da_tx_size;
    block_data_limit = block_da_limit;
    block_da_footprint_limit = block_da_footprint_limit;
  }

  -- `best_txs.mark_invalid(tx.signer(), tx.nonce())`
  unfoldable pub reject : Build → Tx → Build
  reject b tx = record b { best_txs = txs.mark_invalid b.best_txs tx.signer tx.nonce }

  -- From the charge of the block to the end of the round
  unfoldable pub include : Build → FbPooledTransaction → ExecutionResult Logs → Changes → Flow
  include b pooled result state =
      let tx = pooled.inner.consensus in
      let charged = record b {
        info = charge evm ctx b.info tx pooled.inner.estimated_da_size result;
        db = evm.commit b.db state;
      } in
      elim (tx.tip ctx.base_fee) [
        | none ↦ failed panicked charged
        | some miner_fee ↦ go_on (record charged {
          info = append evm ctx (add_fees evm ctx charged.info miner_fee result.gas_used) tx;
        })
      ]

  -- From the test of the result to the test of the gas of one transaction
  unfoldable pub settle : Build → FbPooledTransaction → ExecutionResult Logs → Changes → Flow
  settle b pooled result state =
      let tx = pooled.inner.consensus in
      let counted = record b {
        counts = count_result pooled result.is_success result.gas_used b.counts;
      } in
      if not result.is_success && exclude_reverting_txs pooled
      then go_on (reject counted tx)
      else if is_some_and (λ max. ltb max result.gas_used) ctx.max_gas_per_txn
      then go_on (reject counted tx)
      else include counted pooled result state

  -- A simulated transaction is charged to its signer's bucket, whatever its result.
  unfoldable pub on_simulated : Build → FbPooledTransaction → ResultAndState Logs Changes → Flow
  on_simulated b pooled r =
      let tx = pooled.inner.consensus in
      let (limiter, grant) = consume_gas b.limiter tx.signer r.result.gas_used in
      let simulated = record b {
        counts = record b.counts { simulated = b.counts.simulated + 1 };
        limiter = limiter;
      } in
      elim grant [
        | err _ ↦ go_on (reject simulated tx)
        | ok _ ↦ settle simulated pooled r.result r.state
      ]

  unfoldable pub simulate : Build → FbPooledTransaction → Flow
  simulate b pooled = elim (evm.transact b.db pooled.inner.consensus) [
    | err nonce_too_low ↦ go_on b
    | err invalid_tx ↦ go_on (reject b pooled.inner.consensus)
    | err fatal_error ↦ failed evm_execution_error b
    | ok r ↦ on_simulated b pooled r
  ]

  -- From the test of the transaction's type on
  unfoldable pub on_fitting : Build → FbPooledTransaction → Flow
  on_fitting b pooled =
      let tx = pooled.inner.consensus in
      if tx.is_eip4844 || tx.is_deposit
      then go_on (reject b tx)
      else if ctx.cancelled b.counts.considered
      then was_cancelled b
      else simulate b pooled

  -- The two tests on when the transaction may be included
  unfoldable pub misses_conditional : FbPooledTransaction → Bool
  misses_conditional pooled =
      is_some_and (λ c. not (ctx.matches_block_attributes c ctx.block_number ctx.timestamp))
        pooled.inner.conditional

  unfoldable pub misses_interop : FbPooledTransaction → Bool
  misses_interop pooled =
      ctx.interop
      && is_some_and (λ d. not (ctx.is_valid_interop d ctx.timestamp)) pooled.inner.interop_deadline

  -- One round of the loop
  unfoldable pub consider : Build → FbPooledTransaction → Flow
  consider b0 pooled =
      let tx = pooled.inner.consensus in
      let b = record b0 { counts = record b0.counts { considered = b0.counts.considered + 1 } } in
      if misses_conditional pooled
      then go_on (reject b tx)
      else if misses_interop pooled
      then go_on (reject b tx)
      else elim (is_tx_over_limits b.info pooled.inner.estimated_da_size tx.gas_limit
          b.info.da_footprint_scalar limits) [
            | err _ ↦ go_on (reject b tx)
            | ok _ ↦ on_fitting b pooled
          ]

  -- After a round the loop goes on, or returns.
  abbrev pub resume : (Build → Outcome) → Flow → Outcome
  resume loop (go_on b) = loop b
  resume loop (was_cancelled b) = cancelled_at b
  resume loop (failed e b) = failed_at e b

  -- The loop on fuel
  unfoldable pub execute_from : ℕ → Build → Outcome
  execute_from zero b = out_of_fuel
  execute_from (suc fuel) b =
      let (tx, best_txs) = txs.next b.best_txs in
      let handed = record b { best_txs = best_txs } in
      elim tx [
        | none ↦ done handed
        | some pooled ↦ resume (execute_from fuel) (consider handed pooled)
      ]

  -- Each round takes a transaction from the iterator, so its bound is enough fuel.
  unfoldable pub execute_best_transactions : Build → Outcome
  execute_best_transactions b =
      execute_from (suc (txs.remaining b.best_txs)) (record b { counts = no_counts })
