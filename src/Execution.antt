-- ===== src/Execution.antt =====
-- crates/op-rbuilder/src/primitives/reth/execution.rs: what a build has executed so far, and
-- the test that a transaction still fits into the block. `ExecutionInfo` is generic in its
-- `extra` field; both builders that are modelled use it with `FlashblocksExecutionInfo`.
pub mod Limits
pub mod Bounded
use op_rbuilder.Base.{
  ℕ, ◌+◌, ◌*◌, Bool, true, false, Option, none, some, List, [], ltb, if◌then◌else◌, is_some_and,
  unwrap_or, add_u64, saturating_add_u64, saturating_mul_u64, Result, ok, err,
}

-- `InternalError` carries the EVM's error, which is only printed.
pub data TxnExecutionResult : Type 0 where
  transaction_da_limit_exceeded : TxnExecutionResult
  block_da_limit_exceeded : ℕ → ℕ → ℕ → TxnExecutionResult
  transaction_gas_limit_exceeded : ℕ → ℕ → ℕ → TxnExecutionResult
  sequencer_transaction nonce_too_low interop_failed : TxnExecutionResult
  internal_error evm_error success reverted : TxnExecutionResult
  reverted_and_excluded max_gas_usage_exceeded : TxnExecutionResult

-- `FlashblocksExecutionInfo` of builders/flashblocks/payload.rs
pub record FlashblocksExecutionInfo : Type 0 where
  pub last_flashblock_index : ℕ

-- `Tx` and `Receipt` are the transactions and receipts of the node's library.
pub record ExecutionInfo (Tx Receipt : Type 0) : Type 0 where
  pub executed_transactions : List Tx
  pub executed_senders : List ℕ
  pub receipts : List Receipt
  pub cumulative_gas_used : ℕ
  pub cumulative_da_bytes_used : ℕ
  pub total_fees : ℕ
  pub extra : FlashblocksExecutionInfo
  pub da_footprint_scalar : Option ℕ
  pub optional_blob_fields : Option (Option ℕ × Option ℕ)

-- A capacity allocates slots and shows in no value.
unfoldable pub with_capacity : {Tx Receipt : Type 0} → ℕ → ExecutionInfo Tx Receipt
with_capacity capacity = record {
  executed_transactions = [];
  executed_senders = [];
  receipts = [];
  cumulative_gas_used = 0;
  cumulative_da_bytes_used = 0;
  total_fees = 0;
  extra = record { last_flashblock_index = 0 };
  da_footprint_scalar = none;
  optional_blob_fields = none;
}

-- The limits that one call of `is_tx_over_limits` is given beside the transaction's sizes.
pub record BlockLimits : Type 0 where
  pub block_gas_limit : ℕ
  pub tx_data_limit : Option ℕ
  pub block_data_limit : Option ℕ
  pub block_da_footprint_limit : Option ℕ

-- The last of the four tests, on gas.
unfoldable pub check_gas_limit : ℕ → ℕ → ℕ → Result TxnExecutionResult (Unit {0})
check_gas_limit cumulative_gas_used tx_gas_limit block_gas_limit =
    if ltb block_gas_limit (add_u64 cumulative_gas_used tx_gas_limit)
    then err (transaction_gas_limit_exceeded cumulative_gas_used tx_gas_limit block_gas_limit)
    else ok tt

-- The test on the DA footprint, made only with a scalar, that is after Jovian.
unfoldable pub check_da_footprint : ℕ → ℕ → Option ℕ → ℕ → Result TxnExecutionResult (Unit {0})
check_da_footprint total_da_bytes_used tx_da_size none limit = ok tt
check_da_footprint total_da_bytes_used tx_da_size (some scalar) limit =
    let tx_da_footprint = saturating_mul_u64 total_da_bytes_used scalar in
    if ltb limit tx_da_footprint
    then err (block_da_limit_exceeded total_da_bytes_used tx_da_size tx_da_footprint)
    else ok tt

-- `ExecutionInfo::is_tx_over_limits`, on the two counters of the record that it reads
unfoldable pub is_tx_over_limits :
    {Tx Receipt : Type 0}
    → ExecutionInfo Tx Receipt
    → (tx_da_size tx_gas_limit : ℕ) (da_footprint_gas_scalar : Option ℕ) → BlockLimits
    → Result TxnExecutionResult (Unit {0})
is_tx_over_limits info tx_da_size tx_gas_limit scalar limits =
    let total = saturating_add_u64 info.cumulative_da_bytes_used tx_da_size in
    if is_some_and (λ da_limit. ltb da_limit tx_da_size) limits.tx_data_limit
    then err transaction_da_limit_exceeded
    else if is_some_and (λ da_limit. ltb da_limit total) limits.block_data_limit
    then err (
        block_da_limit_exceeded info.cumulative_da_bytes_used tx_da_size
          (unwrap_or limits.block_data_limit 0))
    else elim (check_da_footprint total tx_da_size scalar
        (unwrap_or limits.block_da_footprint_limit limits.block_gas_limit)) [
          | err e ↦ err e
          | ok _ ↦ check_gas_limit info.cumulative_gas_used tx_gas_limit limits.block_gas_limit
        ]
