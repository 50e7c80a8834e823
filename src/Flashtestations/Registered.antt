-- ===== src/Flashtestations/Registered.antt =====
-- Which transactions flashtestations adds, and when the builder counts as registered.
use op_rbuilder.Base.{
  ◌≡◌, refl, sym, ◌⊎◌, Bool, true, false, List, [], ◌∷◌, ◌++◌, arith, inl, inr, Bool-cases,
  Result-cases, ok, append-nil,
}
use op_rbuilder.Transactions.{Tx}
use op_rbuilder.Evm.{Evm}
use op_rbuilder.Context.{Info}
use op_rbuilder.Flashblocks.Headers.{SealCtx}
use op_rbuilder.BuilderTxs.{BuilderTransactionCtx}
use op_rbuilder.BuilderTxs.Base.{Calls, get_registration_status}
use op_rbuilder.BuilderTxs.Signed.{ReadsSigned}
use op_rbuilder.Flashtestations.Permits.{
  IsRegistration, IsProof, permit_tx-IsRegistration, permit_tx-IsProof,
}
use op_rbuilder.Flashtestations.{
  Hashes, status_cfg, FlashtestationsBuilderTx, contract_read, set_registered, refresh_registered,
  signed_registration_permit_tx, register_if_new, signed_block_proof_permit_tx, add_proof,
  prove_block, simulate_flashtestations,
}

module _ {evm : Evm} (calls : Calls evm) (hashes : Hashes) (ctx : SealCtx)
    (reader : ReadsSigned calls) (f : FlashtestationsBuilderTx calls hashes ctx) where
  -- The registry says of the state that the key is registered.
  abbrev pub IsRegistered : evm.Db → Type 0
  IsRegistered committed =
      contract_read calls hashes ctx f calls.decode_bool status_cfg f.registry_address
        (get_registration_status f.tee_service_signer.address) committed
      ≡ ok true

  -- The registration, if it is missing, and the state with it
  abbrev pub Registration : evm.Db → Bool → List BuilderTransactionCtx → evm.Db → Type 0
  Registration db true txs db' = (txs ≡ []) × (db' ≡ db)
  Registration db false txs db' =
      (t : BuilderTransactionCtx) × (txs ≡ t ∷ [])
      × IsRegistration calls hashes ctx reader f db t db'

  -- At most one proof, on the state with the registration
  abbrev pub Proof : List Tx → evm.Db → List BuilderTransactionCtx → Type 0
  Proof transactions db txs =
      (txs ≡ [])
      ⊎ ((f.enable_block_proofs ≡ true)
          × ((t : BuilderTransactionCtx) × (txs ≡ t ∷ [])
              × IsProof calls hashes ctx reader f transactions db t))

  -- What a simulation adds, where the flag was `before` and is `after`
  pub record Registers (committed : evm.Db) (transactions : List Tx) (db : evm.Db)
      (before after : Bool) (txs : List BuilderTransactionCtx) : Type 0 where
    pub kept : before ≡ true → after ≡ true
    pub learned : before ≡ false → after ≡ true → IsRegistered committed
    pub registrations : List BuilderTransactionCtx
    pub db' : evm.Db
    pub registration : Registration db after registrations db'
    pub proofs : List BuilderTransactionCtx
    pub proof : Proof transactions db' proofs
    pub in_order : txs ≡ registrations ++ proofs

  refresh_registered-keeps :
      (committed : evm.Db) (before after : Bool)
      → refresh_registered calls hashes ctx f committed before ≡ ok after
      → (before ≡ true → after ≡ true) × (before ≡ false → after ≡ true → IsRegistered committed)
  unfolding refresh_registered set_registered
  refresh_registered-keeps committed true after e = (λ q. ground arith, λ q. absurd (ground arith))
  refresh_registered-keeps committed false after e = (
    λ q. absurd (ground arith),
    λ q is_set.
        elim (Result-cases (
          contract_read calls hashes ctx f calls.decode_bool status_cfg f.registry_address
            (get_registration_status f.tee_service_signer.address) committed)) [
              | inl (true, good) ↦ good
              | inl (false, good) ↦ absurd (ground arith)
              | inr (x, bad) ↦ absurd (ground arith)
            ],
  )

  register_if_new-Registration :
      (after : Bool) (db db' : evm.Db) (txs : List BuilderTransactionCtx)
      → register_if_new calls hashes ctx f after db ≡ ok (txs, db')
      → Registration db after txs db'
  unfolding register_if_new
  register_if_new-Registration true db db' txs e = (ground arith, ground arith)
  register_if_new-Registration false db db' txs e =
      elim (Result-cases (signed_registration_permit_tx calls hashes ctx f db)) [
        | inl ((t, next), good) ↦
            let same : next ≡ db' = ground arith in
            (
              t,
              ground arith,
              rw same at (permit_tx-IsRegistration calls hashes ctx reader f db t next good),
            )
        | inr (x, bad) ↦ absurd (ground arith)
      ]

  -- What `prove_block` appends
  prove_block-Proof :
      (transactions : List Tx) (txs : List BuilderTransactionCtx) (db : evm.Db)
      → (proofs : List BuilderTransactionCtx) × Proof transactions db proofs
        × (prove_block calls hashes ctx f transactions (txs, db) ≡ txs ++ proofs)
  unfolding prove_block add_proof
  prove_block-Proof transactions txs db = elim (Bool-cases f.enable_block_proofs) [
    | inr off ↦ ([], inl refl, rw off (sym (append-nil txs)))
    | inl on ↦
        elim (Result-cases (signed_block_proof_permit_tx calls hashes ctx f transactions db)) [
          | inl (t, good) ↦ (
            t ∷ [],
            inr (on, (t, refl, permit_tx-IsProof calls hashes ctx reader f transactions db t good)),
            rw (on, good, add_proof) refl,
          )
          | inr (x, bad) ↦ ([], inl refl, rw (on, bad, add_proof) (sym (append-nil txs)))
        ]
  ]

  pub simulate_flashtestations-Registers :
      (committed : evm.Db) (info : Info evm ctx.builder) (db : evm.Db) (before after : Bool)
      (txs : List BuilderTransactionCtx)
      → simulate_flashtestations calls hashes ctx f committed info db before ≡ (ok txs, after)
      → Registers committed info.executed_transactions db before after txs
  unfolding simulate_flashtestations
  simulate_flashtestations-Registers committed info db before after txs e =
      elim (Result-cases (refresh_registered calls hashes ctx f committed before)) [
        | inr (x, bad) ↦ absurd (ground arith)
        | inl (now, refreshed) ↦ elim (Result-cases (register_if_new calls hashes ctx f now db)) [
          | inr (x, bad) ↦ absurd (ground arith)
          | inl ((registrations, db'), registered) ↦
              let same : now ≡ after = ground arith in
              let (proofs, proof, appended) =
                prove_block-Proof info.executed_transactions registrations db' in
              let (kept, learned) =
                refresh_registered-keeps committed before after (rw same at refreshed) in
              record {
                kept = kept;
                learned = learned;
                registrations = registrations;
                db' = db';
                registration =
                    register_if_new-Registration after db db' registrations (rw same at registered);
                proofs = proofs;
                proof = proof;
                in_order = ground (arith, appended);
              }
        ]
      ]
