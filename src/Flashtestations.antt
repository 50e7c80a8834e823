-- ===== src/Flashtestations.antt =====
-- crates/op-rbuilder/src/flashtestations/builder_tx.rs: the transactions that register the builder
-- and prove its blocks.
pub mod Permits
pub mod Registered
use op_rbuilder.Base.{
  ℕ, Bool, true, false, not, Option, none, some, List, [], ◌∷◌, ◌++◌, map, if◌then◌else◌, ◌==◌,
  Result, ok, err, ◌>>=◌, map_err,
}
use op_rbuilder.Transactions.{Address, Hash, Tx}
use op_rbuilder.Evm.{Evm}
use op_rbuilder.Context.{Info}
use op_rbuilder.TxSigner.{Bytes, Signature, Signer, sign_message}
use op_rbuilder.Flashblocks.Headers.{SealCtx}
use op_rbuilder.BuilderTxs.{BuilderTransactionCtx, BuilderTransactionError, signing_error, other}
use op_rbuilder.BuilderTxs.Base.{
  SolCall, permit_register_tee_service, registry_struct_hash, registry_hash_typed_data_v4,
  get_registration_status, permit_verify_block_builder_proof, policy_struct_hash,
  get_hashed_type_data_v4, nonces, CallCfg, Calls, SimulationSuccess, simulate_call, call_request,
  sign_call, called,
}

-- `BlockData`
pub record BlockData : Type 0 where
  pub parent_hash : Hash
  pub block_number : ℕ
  pub timestamp : ℕ
  pub transaction_hashes : List Hash

-- Hashes of the library, over the encodings: of a transaction and of a block's data
pub record Hashes : Type 0 where
  pub hash_tx : Tx → Hash
  pub hash_block_data : BlockData → Hash

-- The environment in which the status of the registration is read
abbrev pub status_cfg : CallCfg
status_cfg = record {
  disable_balance_check = true;
  disable_nonce_check = true;
  disable_block_gas_limit = false;
}

-- The environment of the simulations
abbrev pub simulation_cfg : CallCfg
simulation_cfg = record {
  disable_balance_check = true;
  disable_nonce_check = false;
  disable_block_gas_limit = true;
}

module _ {evm : Evm} (calls : Calls evm) (hashes : Hashes) (ctx : SealCtx) where
  open calls use {crypto}

  -- `FlashtestationsBuilderTx`, less the flag `registered`, which changes
  pub record FlashtestationsBuilderTx : Type 0 where
    pub attestation : Bytes
    pub extra_registration_data : Bytes
    pub tee_service_signer : Signer crypto
    pub registry_address : Address
    pub builder_policy_address : Address
    pub builder_proof_version : ℕ
    pub enable_block_proofs : Bool
    pub builder_signer : Signer crypto

  unfoldable pub compute_block_content_hash : List Tx → Hash
  compute_block_content_hash transactions = hashes.hash_block_data (record {
    parent_hash = ctx.parent_hash;
    block_number = ctx.builder.block_number;
    timestamp = ctx.builder.timestamp;
    transaction_hashes = map hashes.hash_tx transactions;
  })

  module _ (f : FlashtestationsBuilderTx) where
    unfoldable pub flashtestations_call :
        {Output : Type 0}
        → (Bytes → Option Output)
        → CallCfg
        → Address
        → SolCall
        → List Hash
        → evm.Db
        → Result BuilderTransactionError (SimulationSuccess calls ctx Output)
    flashtestations_call decode cfg contract_address call expected_topics db =
        call_request calls ctx contract_address f.builder_signer.address call db >>= λ tx_req.
        if contract_address == f.registry_address
        then simulate_call calls ctx decode cfg db tx_req expected_topics
        else if contract_address == f.builder_policy_address
        then simulate_call calls ctx decode cfg db tx_req expected_topics
        else err other

    -- `flashtestations_contract_read`, and the output of it
    unfoldable pub contract_read :
        {Output : Type 0}
        → (Bytes → Option Output)
        → CallCfg
        → Address
        → SolCall
        → evm.Db
        → Result BuilderTransactionError Output
    unfolding flashtestations_call
    contract_read decode cfg contract_address call db = do
      r ← flashtestations_call decode cfg contract_address call [] db
      ok r.output

    -- The registry's answer about the signer, on the state before the block; the flag is set by it.
    unfoldable pub set_registered : evm.Db → Bool → Result BuilderTransactionError Bool
    unfolding contract_read
    set_registered committed registered = do
      is_valid ←
          contract_read calls.decode_bool status_cfg f.registry_address
            (get_registration_status f.tee_service_signer.address) committed
      ok (if is_valid then true else registered)

    unfoldable pub get_permit_nonce : Address → evm.Db → Result BuilderTransactionError ℕ
    unfolding contract_read
    get_permit_nonce contract_address db =
        contract_read calls.decode_word simulation_cfg contract_address
          (nonces f.tee_service_signer.address) db

    unfoldable pub registration_permit_signature :
        ℕ → evm.Db → Result BuilderTransactionError Signature
    unfolding contract_read
    registration_permit_signature permit_nonce db = do
      struct_hash ←
          contract_read calls.decode_word simulation_cfg f.registry_address
            (registry_struct_hash f.attestation f.extra_registration_data permit_nonce
              ctx.builder.timestamp)
            db
      typed_hash ←
          contract_read calls.decode_word simulation_cfg f.registry_address
            (registry_hash_typed_data_v4 struct_hash) db
      map_err (λ _. signing_error) (sign_message crypto f.tee_service_signer typed_hash)

    -- The transaction, and the state with its changes, on which the proof is simulated
    unfoldable pub signed_registration_permit_tx :
        evm.Db → Result BuilderTransactionError (BuilderTransactionCtx × evm.Db)
    unfolding get_permit_nonce registration_permit_signature flashtestations_call
    signed_registration_permit_tx db = do
      permit_nonce ← get_permit_nonce f.registry_address db
      signature ← registration_permit_signature permit_nonce db
      let calldata =
          permit_register_tee_service f.attestation f.extra_registration_data permit_nonce
            ctx.builder.timestamp signature
      r ←
          flashtestations_call calls.decode_unit simulation_cfg f.registry_address calldata
            (calls.tee_service_registered ∷ []) db
      signed_tx ← sign_call calls ctx f.registry_address f.builder_signer r.gas_used calldata db
      ok (called calls ctx r.gas_used false signed_tx, evm.commit db r.state_changes)

    unfoldable pub block_proof_permit_signature :
        ℕ → Hash → evm.Db → Result BuilderTransactionError Signature
    unfolding contract_read
    block_proof_permit_signature permit_nonce block_content_hash db = do
      struct_hash ←
          contract_read calls.decode_word simulation_cfg f.builder_policy_address
            (policy_struct_hash f.builder_proof_version block_content_hash permit_nonce) db
      typed_hash ←
          contract_read calls.decode_word simulation_cfg f.builder_policy_address
            (get_hashed_type_data_v4 struct_hash) db
      map_err (λ _. signing_error) (sign_message crypto f.tee_service_signer typed_hash)

    unfoldable pub signed_block_proof_permit_tx :
        List Tx → evm.Db → Result BuilderTransactionError BuilderTransactionCtx
    unfolding get_permit_nonce block_proof_permit_signature flashtestations_call
        compute_block_content_hash
    signed_block_proof_permit_tx transactions db = do
      permit_nonce ← get_permit_nonce f.builder_policy_address db
      let block_content_hash = compute_block_content_hash transactions
      signature ← block_proof_permit_signature permit_nonce block_content_hash db
      let calldata =
          permit_verify_block_builder_proof block_content_hash permit_nonce f.builder_proof_version
            signature
      r ←
          flashtestations_call calls.decode_unit simulation_cfg f.builder_policy_address calldata
            (calls.block_builder_proof_verified ∷ []) db
      signed_tx ←
          sign_call calls ctx f.builder_policy_address f.builder_signer r.gas_used calldata db
      ok (called calls ctx r.gas_used false signed_tx)

    -- `registered`, read again if it is not set yet
    unfoldable pub refresh_registered : evm.Db → Bool → Result BuilderTransactionError Bool
    unfolding set_registered
    refresh_registered committed true = ok true
    refresh_registered committed false = set_registered committed false

    unfoldable pub register_if_new :
        Bool → evm.Db → Result BuilderTransactionError (List BuilderTransactionCtx × evm.Db)
    unfolding signed_registration_permit_tx
    register_if_new true db = ok ([], db)
    register_if_new false db = do
      (register_tx, db') ← signed_registration_permit_tx db
      ok (register_tx ∷ [], db')

    -- A proof that fails is logged, and takes no other transaction with it.
    unfoldable pub add_proof :
        List BuilderTransactionCtx
        → Result BuilderTransactionError BuilderTransactionCtx
        → List BuilderTransactionCtx
    add_proof builder_txs (ok block_proof_tx) = builder_txs ++ block_proof_tx ∷ []
    add_proof builder_txs (err e) = builder_txs

    unfoldable pub prove_block :
        List Tx → List BuilderTransactionCtx × evm.Db → List BuilderTransactionCtx
    unfolding add_proof signed_block_proof_permit_tx
    prove_block transactions (builder_txs, db) =
        if f.enable_block_proofs
        then add_proof builder_txs (signed_block_proof_permit_tx transactions db)
        else builder_txs

    -- `simulate_builder_txs`, on the state before the block, the block's state and the flag
    -- `registered`: the transactions, and the flag.
    unfoldable pub simulate_flashtestations :
        evm.Db
        → Info evm ctx.builder
        → evm.Db
        → Bool
        → Result BuilderTransactionError (List BuilderTransactionCtx) × Bool
    unfolding refresh_registered register_if_new prove_block
    simulate_flashtestations committed info db registered =
        elim (refresh_registered committed registered) [
          | err e ↦ (err e, registered)
          | ok registered' ↦ (
            register_if_new registered' db >>= λ r. ok (prove_block info.executed_transactions r),
            registered',
          )
        ]
