-- ===== src/Flashtestations/Permits.antt =====
-- The two calls of contracts that flashtestations makes: on which state, to whom and with what.
use op_rbuilder.Base.{
  map, ◌/◌, ◌≡◌, refl, false, List, [], ◌∷◌, arith, inl, inr, mul_u64, Result-cases, ok, bind-first,
  ℕ,
}
use op_rbuilder.Transactions.{Tx, Address, Hash}
use op_rbuilder.TxSigner.{Signature}
use op_rbuilder.Evm.{Evm}
use op_rbuilder.Flashblocks.Headers.{SealCtx}
use op_rbuilder.BuilderTxs.{BuilderTransactionCtx}
use op_rbuilder.BuilderTxs.Base.{SimulationSuccess, sign_call, called, Calls, SolCall, called}
use op_rbuilder.TxSigner.{Bytes}
use op_rbuilder.BuilderTxs.Base.{
  CallRequest, success, revert, halt, invalid_call, fatal_call, get_nonce, call_request,
  simulate_call, on_call, on_success, nonces,
}
use op_rbuilder.BuilderTxs.Signed.{ReadsSigned, Signed, sign_call-Signed}
use op_rbuilder.BuilderTxs.Base.{permit_register_tee_service, permit_verify_block_builder_proof}
use op_rbuilder.Flashtestations.{
  get_permit_nonce, registration_permit_signature, block_proof_permit_signature,
  flashtestations_call, simulation_cfg, compute_block_content_hash, Hashes,
  FlashtestationsBuilderTx, contract_read, signed_registration_permit_tx,
  signed_block_proof_permit_tx,
}

module _ {evm : Evm} (calls : Calls evm) (hashes : Hashes) (ctx : SealCtx)
    (reader : ReadsSigned calls) (f : FlashtestationsBuilderTx calls hashes ctx) where
  -- The call of the contract by the builder's key, for the end of the block, on that state
  pub record IsOwn (db : evm.Db) (to : Address) (call : SolCall) (t : BuilderTransactionCtx)
      : Type 0 where
    pub at_end : t.is_top_of_block ≡ false
    pub signed :
        Signed calls ctx reader f.builder_signer db
          (mul_u64 t.gas_used 64 / 63)
          to
          (calls.abi_encode call)
          t.signed_tx

  -- The call that registers the key
  abbrev registering : ℕ → Signature → SolCall
  registering permit_nonce signature =
      permit_register_tee_service f.attestation f.extra_registration_data permit_nonce
        ctx.builder.timestamp signature

  -- The contract's nonce for a permit of the key
  abbrev Answers : evm.Db → Address → ℕ → Type 0
  Answers db to permit_nonce =
      contract_read calls hashes ctx f calls.decode_word simulation_cfg to
        (nonces f.tee_service_signer.address) db
      ≡ ok permit_nonce

  -- The EVM's call of the contract for the builder's key, with its gas and its changes
  pub record IsCalled (db : evm.Db) (to : Address) (call : SolCall) : Type 0 where
    pub request : CallRequest
    pub request_to : request.to ≡ to
    pub request_from : request.from ≡ f.builder_signer.address
    pub request_input : request.input ≡ call
    pub output : Bytes
    pub gas_used : ℕ
    pub logs : List Hash
    pub changes : evm.Changes
    pub ran :
        calls.transact_call simulation_cfg db request ≡ ok (success output gas_used logs, changes)

  -- A registration on the first state, and its changes in the second
  pub record IsRegistration (db : evm.Db) (t : BuilderTransactionCtx) (db' : evm.Db) : Type 0 where
    pub permit_nonce : ℕ
    pub signature : Signature
    pub asked : Answers db f.registry_address permit_nonce
    pub own : IsOwn db f.registry_address (registering permit_nonce signature) t
    pub run : IsCalled db f.registry_address (registering permit_nonce signature)
    pub gas : t.gas_used ≡ run.gas_used
    pub state : db' ≡ evm.commit db run.changes

  -- A proof of the block's transactions on the state
  pub record IsProof (transactions : List Tx) (db : evm.Db) (t : BuilderTransactionCtx)
      : Type 0 where
    pub permit_nonce : ℕ
    pub signature : Signature
    pub asked : Answers db f.builder_policy_address permit_nonce
    pub own :
        IsOwn db f.builder_policy_address
          (permit_verify_block_builder_proof
            (hashes.hash_block_data (record {
              parent_hash = ctx.parent_hash;
              block_number = ctx.builder.block_number;
              timestamp = ctx.builder.timestamp;
              transaction_hashes = map hashes.hash_tx transactions;
            }))
            permit_nonce
            f.builder_proof_version
            signature)
          t

  call-IsOwn :
      (to : Address) (gas_used : ℕ) (call : SolCall) (db : evm.Db) (tx : Tx)
      (t : BuilderTransactionCtx)
      → sign_call calls ctx to f.builder_signer gas_used call db ≡ ok tx
      → t ≡ called calls ctx gas_used false tx
      → IsOwn db to call t
  call-IsOwn to gas_used call db tx t signed same = rw same (record {
    at_end = refl;
    signed = sign_call-Signed calls ctx reader to f.builder_signer gas_used call db tx signed;
  })

  simulated-IsCalled :
      (request : CallRequest) (expected : List Hash) (db : evm.Db)
      (r : SimulationSuccess calls ctx (Unit {0}))
      → simulate_call calls ctx calls.decode_unit simulation_cfg db request expected ≡ ok r
      → (output : Bytes) × (logs : List Hash) × (calls.transact_call simulation_cfg db request
          ≡ ok (success output r.gas_used logs, r.state_changes))
  unfolding simulate_call on_call on_success
  simulated-IsCalled request expected db r e =
      elim (Result-cases (calls.transact_call simulation_cfg db request)) [
        | inl ((success output gas_used logs, changes), ran) ↦
            let gas : gas_used ≡ r.gas_used = ground arith in
            let same : changes ≡ r.state_changes = ground arith in
            (output, logs, rw (gas, same) at ran)
        | inl ((revert, changes), ran) ↦ absurd (ground arith)
        | inl ((halt, changes), ran) ↦ absurd (ground arith)
        | inr (invalid_call, bad) ↦ absurd (ground arith)
        | inr (fatal_call, bad) ↦ absurd (ground arith)
      ]

  run-IsCalled :
      (to : Address) (call : SolCall) (expected : List Hash) (db : evm.Db)
      (r : SimulationSuccess calls ctx (Unit {0}))
      → flashtestations_call calls hashes ctx f calls.decode_unit simulation_cfg to call expected db
        ≡ ok r
      → (c : IsCalled db to call) × (c.gas_used ≡ r.gas_used) × (c.changes ≡ r.state_changes)
  unfolding flashtestations_call call_request get_nonce
  run-IsCalled to call expected db r e =
      let (request, asked, e1) =
        bind-first (call_request calls ctx to f.builder_signer.address call db) _ _ e in
      let simulated : simulate_call calls ctx calls.decode_unit simulation_cfg db request expected
          ≡ ok r =
        ground arith in
      let (output, logs, ran) = simulated-IsCalled request expected db r simulated in
      (
        record {
          request = request;
          request_to = ground arith;
          request_from = ground arith;
          request_input = ground arith;
          output = output;
          gas_used = r.gas_used;
          logs = logs;
          changes = r.state_changes;
          ran = ran;
        },
        refl,
        refl,
      )

  pub permit_tx-IsRegistration :
      (db : evm.Db) (t : BuilderTransactionCtx) (next : evm.Db)
      → signed_registration_permit_tx calls hashes ctx f db ≡ ok (t, next)
      → IsRegistration db t next
  unfolding signed_registration_permit_tx get_permit_nonce
  permit_tx-IsRegistration db t next e =
      let (permit_nonce, ok_nonce, e1) =
        bind-first (get_permit_nonce calls hashes ctx f f.registry_address db) _ _ e in
      let (signature, ok_signature, e2) =
        bind-first (registration_permit_signature calls hashes ctx f permit_nonce db) _ _ e1 in
      let calldata : SolCall =
        permit_register_tee_service f.attestation f.extra_registration_data permit_nonce
          ctx.builder.timestamp signature in
      let (r, ran, e3) =
        bind-first
          (flashtestations_call calls hashes ctx f calls.decode_unit simulation_cfg
            f.registry_address calldata (calls.tee_service_registered ∷ []) db)
          _ _ e2 in
      let (tx, signed, e4) =
        bind-first (sign_call calls ctx f.registry_address f.builder_signer r.gas_used calldata db)
          _ _ e3 in
      let (run, same_gas, same_changes) = run-IsCalled f.registry_address calldata _ db r ran in
      record {
        permit_nonce = permit_nonce;
        signature = signature;
        asked = ok_nonce;
        own = call-IsOwn f.registry_address r.gas_used calldata db tx t signed (ground arith);
        run = run;
        gas = ground arith;
        state = ground arith;
      }

  pub permit_tx-IsProof :
      (transactions : List Tx) (db : evm.Db) (t : BuilderTransactionCtx)
      → signed_block_proof_permit_tx calls hashes ctx f transactions db ≡ ok t
      → IsProof transactions db t
  unfolding signed_block_proof_permit_tx get_permit_nonce compute_block_content_hash
  permit_tx-IsProof transactions db t e =
      let (permit_nonce, ok_nonce, e1) =
        bind-first (get_permit_nonce calls hashes ctx f f.builder_policy_address db) _ _ e in
      let content = compute_block_content_hash calls hashes ctx transactions in
      let (signature, ok_signature, e2) =
        bind-first (block_proof_permit_signature calls hashes ctx f permit_nonce content db) _ _
          e1 in
      let calldata : SolCall =
        permit_verify_block_builder_proof content permit_nonce f.builder_proof_version signature in
      let (r, ran, e3) =
        bind-first
          (flashtestations_call calls hashes ctx f calls.decode_unit simulation_cfg
            f.builder_policy_address calldata (calls.block_builder_proof_verified ∷ []) db)
          _ _ e2 in
      let (tx, signed, e4) =
        bind-first
          (sign_call calls ctx f.builder_policy_address f.builder_signer r.gas_used calldata db) _ _
          e3 in
      record {
        permit_nonce = permit_nonce;
        signature = signature;
        asked = ok_nonce;
        own = call-IsOwn f.builder_policy_address r.gas_used calldata db tx t signed (ground arith);
      }
