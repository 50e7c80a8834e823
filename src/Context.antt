-- ===== src/Context.antt =====
-- crates/op-rbuilder/src/builders/context.rs: executing transactions on top of a block. What
-- the three loops of `OpPayloadBuilderCtx` share is here, each loop is a child.
pub mod Best
pub mod Aligned
pub mod Grows
pub mod Sequencer
pub mod Sidecar
pub mod Included
pub mod Loop
pub mod Block
pub mod Entries
pub mod Filled
pub mod Uncancelled
use op_rbuilder.Base.{
  ℕ, ◌+◌, ◌*◌, ◌%◌, Bool, Option, none, some, List, [], ◌∷◌, ◌++◌, if◌then◌else◌, add_u64, u256_mod,
}
use op_rbuilder.Transactions.{Address, Tx}
use op_rbuilder.Execution.{ExecutionInfo, TxnExecutionResult}
use op_rbuilder.Evm.{Evm, BuilderCtx, ExecutionResult, ReceiptCtx, DepositReceipt}

-- `SidecarError` of sidecar/types.rs; texts are left out.
pub data SidecarError : Type 0 where
  http : SidecarError
  hold_timeout : ℕ → SidecarError
  not_configured decode_error signature_recovery_failed invalid_transaction_type : SidecarError
  limits_exceeded : TxnExecutionResult → SidecarError
  execution_failed transaction_reverted : SidecarError

-- `panicked` is an `expect` that fails.
pub data PayloadBuilderError : Type 0 where
  blob_transaction_rejected transaction_ec_recover_failed : PayloadBuilderError
  account_load_failed : Address → PayloadBuilderError
  evm_execution_error : PayloadBuilderError
  sidecar_error : SidecarError → PayloadBuilderError
  panicked : PayloadBuilderError
  block_number_mismatch : ℕ → ℕ → PayloadBuilderError
  other : PayloadBuilderError

module _ (evm : Evm) (ctx : BuilderCtx) where
  open evm use {Logs, Receipt}

  abbrev pub Info : Type 0
  Info = ExecutionInfo Tx Receipt

  -- `OpPayloadBuilderCtx::build_receipt`
  unfoldable pub build_receipt : ReceiptCtx Logs → Option ℕ → Receipt
  build_receipt c deposit_nonce = elim (evm.build_receipt c) [
    | some receipt ↦ receipt
    | none ↦ evm.build_deposit_receipt (record {
      status = c.result.is_success;
      cumulative_gas_used = c.cumulative_gas_used;
      logs = c.result.logs;
      deposit_nonce = deposit_nonce;
      deposit_receipt_version = if ctx.is_canyon_active then some 1 else none;
    })
  ]

  -- The gas and the receipt of an executed transaction.
  unfoldable pub charge_gas : Info → Tx → ExecutionResult Logs → Option ℕ → Info
  charge_gas info tx result deposit_nonce =
      let cumulative = add_u64 info.cumulative_gas_used result.gas_used in
      let receipt =
        build_receipt (record { tx = tx; result = result; cumulative_gas_used = cumulative })
          deposit_nonce in
      record info { cumulative_gas_used = cumulative; receipts = info.receipts ++ receipt ∷ [] }

  -- `info.cumulative_da_bytes_used += da_size`
  unfoldable pub charge_da : Info → ℕ → Info
  charge_da info da_size = record info {
    cumulative_da_bytes_used = add_u64 info.cumulative_da_bytes_used da_size;
  }

  -- Both, for a transaction that is not the sequencer's
  unfoldable pub charge : Info → Tx → ℕ → ExecutionResult Logs → Info
  unfolding charge_gas charge_da
  charge info tx da_size result = charge_da (charge_gas info tx result none) da_size

  -- `info.total_fees += U256::from(miner_fee) * U256::from(gas_used)`
  unfoldable pub add_fees : Info → ℕ → ℕ → Info
  add_fees info miner_fee gas_used = record info {
    total_fees = (info.total_fees + miner_fee * gas_used) % u256_mod;
  }

  -- The sender and the transaction go to their lists last.
  unfoldable pub append : Info → Tx → Info
  append info tx = record info {
    executed_senders = info.executed_senders ++ tx.signer ∷ [];
    executed_transactions = info.executed_transactions ++ tx ∷ [];
  }
