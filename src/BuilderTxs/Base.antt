-- ===== src/BuilderTxs/Base.antt =====
-- `BuilderTxBase`, `get_nonce`, `sign_tx` and `simulate_call` of builders/builder_tx.rs: the builder's
-- plain transaction, and calls of contracts.
use op_rbuilder.Base.{
  ℕ, ◌/◌, Bool, true, false, not, Option, none, some, List, [], ◌∷◌, if◌then◌else◌, contains,
  mul_u64, Result, ok, err, ◌>>=◌, ok_or, map_err,
}
use op_rbuilder.Transactions.{Address, Hash, Tx}
use op_rbuilder.Evm.{Evm}
use op_rbuilder.TxSigner.{Bytes, Signature, eip1559, Crypto, Signer, SignedTx, sign_tx}
use op_rbuilder.Flashblocks.Headers.{SealCtx, block_gas_limit}
use op_rbuilder.BuilderTxs.{
  BuilderTransactionCtx, BuilderTransactionError, account_load_failed, signing_error,
  invalid_contract, transaction_halted, transaction_reverted, invalid_transaction_error,
  evm_execution_error, estimate_builder_tx_gas,
}

-- The calls of contracts that the builder makes: of the flashblock number's, of the registry and of
-- the policy, in the order of their interfaces
pub data SolCall : Type 0 where
  flashblock_number : SolCall
  increment_flashblock_number : SolCall
  permit_increment_flashblock_number : ℕ → Signature → SolCall
  number_struct_hash : ℕ → SolCall
  number_hash_typed_data_v4 : Hash → SolCall
  permit_register_tee_service : Bytes → Bytes → ℕ → ℕ → Signature → SolCall
  registry_struct_hash : Bytes → Bytes → ℕ → ℕ → SolCall
  registry_hash_typed_data_v4 : Hash → SolCall
  get_registration_status : Address → SolCall
  permit_verify_block_builder_proof : Hash → ℕ → ℕ → Signature → SolCall
  policy_struct_hash : ℕ → Hash → ℕ → SolCall
  get_hashed_type_data_v4 : Hash → SolCall
  nonces : Address → SolCall

-- `OpTransactionRequest`, as it is filled in
pub record CallRequest : Type 0 where
  pub gas_limit : ℕ
  pub max_fee_per_gas : ℕ
  pub to : Address
  pub from : Address
  pub nonce : ℕ
  pub input : SolCall

-- What `modify_cfg` turns off for a simulation
pub record CallCfg : Type 0 where
  pub disable_balance_check : Bool
  pub disable_nonce_check : Bool
  pub disable_block_gas_limit : Bool

pub data CallError : Type 0 where
  invalid_call fatal_call : CallError

-- `ExecutionResult` of a call: what it returned, the gas, and the topics of its logs
pub data CallResult : Type 0 where
  success : Bytes → ℕ → List Hash → CallResult
  revert halt : CallResult

-- What the builder's transactions need of the libraries. `tx_of` is what the builder reads of a
-- signed transaction; the decoders are those of what a call returns.
pub record Calls (evm : Evm) : Type 1 where
  pub crypto : Crypto
  pub tx_of : SignedTx crypto → Tx
  pub is_convertible : CallRequest → Bool
  pub transact_call : CallCfg → evm.Db → CallRequest → Result CallError (CallResult × evm.Changes)
  pub abi_encode : SolCall → Bytes
  pub decode_unit : Bytes → Option (Unit {0})
  pub decode_word : Bytes → Option ℕ
  pub decode_bool : Bytes → Option Bool
  pub block_number_message : ℕ → Bytes
  pub flashblock_incremented : Hash
  pub tee_service_registered : Hash
  pub block_builder_proof_verified : Hash

module _ {evm : Evm} (calls : Calls evm) (ctx : SealCtx) where
  open calls use {crypto}

  -- `get_nonce`
  unfoldable pub get_nonce : evm.Db → Address → Result BuilderTransactionError ℕ
  get_nonce db address = ok_or (account_load_failed address) (evm.account_nonce db address)

  -- `BuilderTransactions::sign_tx`: a 63rd more gas than was used
  unfoldable pub sign_call :
      Address → Signer crypto → ℕ → SolCall → evm.Db → Result BuilderTransactionError Tx
  unfolding get_nonce
  sign_call to from gas_used call db = do
    nonce ← get_nonce db from.address
    signed ←
        map_err (λ _. signing_error)
          (sign_tx crypto from (
            eip1559 (record {
              chain_id = ctx.chain_id;
              nonce = nonce;
              gas_limit = mul_u64 gas_used 64 / 63;
              max_fee_per_gas = ctx.builder.base_fee;
              max_priority_fee_per_gas = 0;
              to = to;
              input = calls.abi_encode call;
            })))
    ok (calls.tx_of signed)

  -- `SimulationSuccessResult`
  pub record SimulationSuccess (Output : Type 0) : Type 0 where
    pub gas_used : ℕ
    pub output : Output
    pub state_changes : evm.Changes

  unfoldable pub all_contained : List Hash → List Hash → Bool
  all_contained topics [] = true
  all_contained topics (expected ∷ rest) =
      let others = all_contained topics rest in if contains topics expected then others else false

  unfoldable pub on_success :
      {Output : Type 0}
      → (Bytes → Option Output)
      → List Hash
      → CallResult × evm.Changes
      → Result BuilderTransactionError (SimulationSuccess Output)
  unfolding all_contained
  on_success decode expected_logs (success output gas_used topics, changes) =
      if not (all_contained topics expected_logs)
      then err invalid_contract
      else (ok_or invalid_contract (decode output) >>= λ value.
          ok (record { gas_used = gas_used; output = value; state_changes = changes }))
  on_success decode expected_logs (revert, changes) = err transaction_reverted
  on_success decode expected_logs (halt, changes) = err transaction_halted

  unfoldable pub on_call :
      {Output : Type 0}
      → (Bytes → Option Output)
      → List Hash
      → Result CallError (CallResult × evm.Changes)
      → Result BuilderTransactionError (SimulationSuccess Output)
  unfolding on_success
  on_call decode expected_logs (err invalid_call) = err invalid_transaction_error
  on_call decode expected_logs (err fatal_call) = err evm_execution_error
  on_call decode expected_logs (ok r) = on_success decode expected_logs r

  -- `BuilderTransactions::simulate_call`
  unfoldable pub simulate_call :
      {Output : Type 0}
      → (Bytes → Option Output)
      → CallCfg
      → evm.Db
      → CallRequest
      → List Hash
      → Result BuilderTransactionError (SimulationSuccess Output)
  unfolding on_call
  simulate_call decode cfg db tx expected_logs =
      if not (calls.is_convertible tx)
      then err evm_execution_error
      else on_call decode expected_logs (calls.transact_call cfg db tx)

  -- The request of a call, `from` the signer
  unfoldable pub call_request :
      Address → Address → SolCall → evm.Db → Result BuilderTransactionError CallRequest
  unfolding get_nonce
  call_request to from call db = do
    nonce ← get_nonce db from
    ok (record {
      gas_limit = block_gas_limit ctx;
      max_fee_per_gas = ctx.builder.base_fee;
      to = to;
      from = from;
      nonce = nonce;
      input = call;
    })

  -- `BuilderTxBase::signed_builder_tx`
  unfoldable pub signed_builder_tx :
      evm.Db → Signer crypto → ℕ → Bytes → Result BuilderTransactionError Tx
  unfolding get_nonce
  signed_builder_tx db signer gas_used message = do
    nonce ← get_nonce db signer.address
    signed ←
        map_err (λ _. signing_error)
          (sign_tx crypto signer (
            eip1559 (record {
              chain_id = ctx.chain_id;
              nonce = nonce;
              gas_limit = gas_used;
              max_fee_per_gas = ctx.builder.base_fee;
              max_priority_fee_per_gas = 0;
              to = 0;
              input = message;
            })))
    ok (calls.tx_of signed)

  -- `BuilderTxBase::simulate_builder_tx`
  unfoldable pub simulate_builder_tx :
      Option (Signer crypto)
      → evm.Db
      → Result BuilderTransactionError (Option BuilderTransactionCtx)
  unfolding signed_builder_tx
  simulate_builder_tx none db = ok none
  simulate_builder_tx (some signer) db = do
    let message = calls.block_number_message ctx.builder.block_number
    let gas_used = estimate_builder_tx_gas message
    signed_tx ← signed_builder_tx db signer gas_used message
    ok (
        some (record {
          gas_used = gas_used;
          da_size = signed_tx.estimated_size;
          signed_tx = signed_tx;
          is_top_of_block = false;
        }))

  -- A call that `sign_call` signed
  abbrev pub called : ℕ → Bool → Tx → BuilderTransactionCtx
  called gas_used top signed_tx = record {
    gas_used = gas_used;
    da_size = signed_tx.estimated_size;
    signed_tx = signed_tx;
    is_top_of_block = top;
  }
