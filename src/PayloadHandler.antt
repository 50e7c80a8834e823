-- ===== src/PayloadHandler.antt =====
-- crates/op-rbuilder/src/builders/flashblocks/{payload_handler,ctx}.rs: executing a block that
-- another builder has sent, to the same block or to an error.
pub mod Replays
pub mod Agrees
pub mod Capped
pub mod Accepted
use op_rbuilder.Base.{
  ℕ, ◌+◌, ◌*◌, Bool, true, not, Option, none, some, List, [], ◌∷◌, ◌++◌, if◌then◌else◌, ltb, ◌==◌,
  length, drop, is_some_and, checked_add_u64, Result, ok, err, ◌>>=◌, ◌>>◌, map_err, ok_or,
}
use op_rbuilder.Transactions.{Address, Hash, Tx}
use op_rbuilder.Execution.{ExecutionInfo, with_capacity}
use op_rbuilder.Evm.{Evm, BuilderCtx, ResultAndState}
use op_rbuilder.Context.{PayloadBuilderError, Info, build_receipt, append}
use op_rbuilder.Context.Sequencer.{depositor_nonce, fetch_scalar}
use op_rbuilder.Context.Sidecar.{ensure}
use op_rbuilder.Flashblocks.Headers.{Header, SealCtx}
use op_rbuilder.Flashblocks.Outputs.{Sealer, BuiltPayload, FlashblockPayload}
use op_rbuilder.Flashblocks.Sealing.{build_block}

-- Texts are left out.
pub data HandlerError : Type 0 where
  parent_not_found validation_failed pre_execution_failed extra_data_length : HandlerError
  recover_failed depositor_nonce_failed execution_failed max_gas_exceeded : HandlerError
  gas_overflow gas_limit_exceeded scalar_missing hash_mismatch : HandlerError
  build_failed : PayloadBuilderError → HandlerError

-- `u64::from_be_bytes`, on eight bytes
unfoldable pub from_be_bytes : ℕ → List ℕ → ℕ
from_be_bytes n [] = n
from_be_bytes n (byte ∷ bytes) = from_be_bytes (n * 256 + byte) bytes

abbrev pub take : ℕ → List ℕ → List ℕ
take ℕ.zero bytes = []
take (ℕ.suc n) [] = []
take (ℕ.suc n) (b ∷ bytes) = b ∷ take n bytes

-- The EIP-1559 parameters and the least base fee of a block's extra data, by the fork
unfoldable pub parse_extra_data :
    Bool → Bool → List ℕ → Result HandlerError (Option (List ℕ) × Option ℕ)
parse_extra_data is_jovian is_holocene extra_data =
    if is_jovian
    then (if not (length extra_data == 17)
        then err extra_data_length
        else ok (some (take 8 (drop 1 extra_data)), some (from_be_bytes 0 (drop 9 extra_data))))
    else if is_holocene
    then (if not (length extra_data == 9)
        then err extra_data_length
        else ok (some (drop 1 extra_data), none))
    else if not (length extra_data == 0)
    then err extra_data_length
    else ok (none, none)

module _ (evm : Evm) (ctx : BuilderCtx) where
  open evm use {Db, Changes, Logs}

  abbrev pub Progress : Type 0
  Progress = Info evm ctx × Db

  -- The receipt of a transaction, by the same steps as the builder's, at the checked sum of the gas
  unfoldable pub record_receipt :
      Info evm ctx → Tx → ResultAndState Logs Changes → Option ℕ → ℕ → Info evm ctx
  record_receipt info tx r nonce cumulative = record info {
    cumulative_gas_used = cumulative;
    receipts =
        info.receipts
        ++ build_receipt evm ctx
            (record { tx = tx; result = r.result; cumulative_gas_used = cumulative }) nonce
          ∷ [];
  }

  -- One round of the loop; the argument is what `try_clone_into_recovered` gives.
  unfoldable pub execute_transaction : ℕ → Progress → Option Tx → Result HandlerError Progress
  execute_transaction gas_limit p t = do
    tx ← ok_or recover_failed t
    nonce ← map_err (λ _. depositor_nonce_failed) (depositor_nonce evm ctx p.1 tx)
    r ← map_err (λ _. execution_failed) (evm.transact p.1 tx)
    ensure (not (is_some_and (λ max. ltb max r.result.gas_used) ctx.max_gas_per_txn))
        max_gas_exceeded
    cumulative ← ok_or gas_overflow (checked_add_u64 p.0.cumulative_gas_used r.result.gas_used)
    ensure (not (ltb gas_limit cumulative)) gas_limit_exceeded
    ok (append evm ctx (record_receipt p.0 tx r nonce cumulative) tx, evm.commit p.1 r.state)

  unfoldable pub execute_each : ℕ → Progress → List (Option Tx) → Result HandlerError Progress
  execute_each gas_limit p [] = ok p
  execute_each gas_limit p (t ∷ ts) =
      execute_transaction gas_limit p t >>= λ next. execute_each gas_limit next ts

  -- `execute_transactions`
  unfoldable pub execute_transactions :
      ℕ → Progress → List (Option Tx) → Result HandlerError Progress
  execute_transactions gas_limit p ts = do
    q ← execute_each gas_limit p ts
    scalar ← map_err (λ _. scalar_missing) (fetch_scalar evm ctx q.1)
    ok (record q.0 { da_footprint_scalar = scalar }, q.1)

-- What the handler has of a payload that it receives: its header, the bytes of the header's extra
-- data, its hash and its transactions, each recovered if it can be.
pub record Received : Type 0 where
  pub header : Header
  pub extra_data : List ℕ
  pub block_hash : Hash
  pub transactions : List (Option Tx)

-- What the handler takes from the node: whether it has the parent's header and state, whether the
-- consensus rules hold, and the state after the pre-execution changes; and the context of the
-- payload, from the parameters of the extra data.
pub record HandlerNode (evm : Evm) : Type 1 where
  pub has_parent : Bool
  pub validates : Bool
  pub state : Option evm.Db
  pub is_holocene : Bool
  pub ctx : BuilderCtx
  pub seal_ctx : Option (List ℕ) × Option ℕ → SealCtx

module _ (evm : Evm) (sealer : Sealer evm) (node : HandlerNode evm) where
  abbrev pub Executed : Type 0
  Executed = BuiltPayload evm sealer × FlashblockPayload evm sealer

  -- `ExecutionInfo` before the first transaction, with the blob fields of the header
  unfoldable pub received_info : Received → Info evm node.ctx
  received_info payload = record (with_capacity (length payload.transactions)) {
    optional_blob_fields = some (payload.header.excess_blob_gas, payload.header.blob_gas_used);
  }

  -- From the end of `build_block` on
  unfoldable pub check_hash : Received → Executed → Result HandlerError Executed
  check_hash payload built =
      if built.0.block.block_hash == payload.block_hash then ok built else err hash_mismatch

  -- `execute_flashblock`
  unfoldable pub execute_flashblock : Received → Result HandlerError Executed
  unfolding received_info check_hash
  execute_flashblock payload = do
    ensure node.has_parent parent_not_found
    ensure node.validates validation_failed
    db ← ok_or pre_execution_failed node.state
    params ← parse_extra_data node.ctx.is_jovian_active node.is_holocene payload.extra_data
    (info, db') ←
        execute_transactions evm node.ctx payload.header.gas_used (received_info payload, db)
          payload.transactions
    (built, (message, info')) ←
        map_err HandlerError.build_failed
          (build_block evm sealer (node.seal_ctx params) db' info true)
    check_hash payload (built, message)
