-- ===== src/BuilderTxs/Own.antt =====
-- The transaction of its own that `FlashblocksNumberBuilderTx` makes for a flashblock.
use op_rbuilder.Base.{
  ◌==◌, ◌≡◌, refl, Bool, true, false, not, Option, none, some, [], ◌∷◌, arith, inl, inr, Bool-cases,
  Result-cases, Result, ok, err, bind-first,
}
use op_rbuilder.Evm.{Evm}
use op_rbuilder.Flashblocks.Headers.{SealCtx}
use op_rbuilder.Flashblocks.Batches.{FlashblocksExtraCtx}
use op_rbuilder.BuilderTxs.{BuilderTransactionCtx, BuilderTransactionError, set_top_of_block}
use op_rbuilder.BuilderTxs.Base.{
  SolCall, increment_flashblock_number, permit_increment_flashblock_number, flashblock_number,
  Calls, sign_call, called, simulate_builder_tx,
}
use op_rbuilder.BuilderTxs.Signed.{ReadsSigned, sign_call-Signed, simulate_builder_tx-IsBase}
use op_rbuilder.BuilderTxs.Makers.{as_list, is_first_flashblock, Txs, Flashtestations}
use op_rbuilder.BuilderTxs.Number.{
  FlashblocksNumberBuilderTx, simulate_flashblocks_call, readonly_call, increment_flashblocks_tx,
  signed_increment_flashblocks_tx, increment_flashblocks_permit_signature,
  signed_increment_flashblocks_permit_tx, flashblocks_num_tx, or_fallback, own_txs,
}
use op_rbuilder.Flashtestations.{Hashes}

module _ {evm : Evm} (calls : Calls evm) (hashes : Hashes) (ctx : SealCtx)
    (reader : ReadsSigned calls) (n : FlashblocksNumberBuilderTx calls hashes ctx) where
  -- A transaction of the builder's key, at the top of the block or at its end
  pub record IsPlaced (top : Bool) (db : evm.Db) (t : BuilderTransactionCtx) : Type 0 where
    pub place : t.is_top_of_block ≡ top
    pub by : t.signed_tx.signer ≡ n.signer.address
    pub next_nonce : evm.account_nonce db n.signer.address ≡ some t.signed_tx.nonce

  increment-IsPlaced :
      (call : SolCall) (db : evm.Db) (t : BuilderTransactionCtx)
      → increment_flashblocks_tx calls hashes ctx n call db ≡ ok t
      → IsPlaced true db t
  unfolding increment_flashblocks_tx
  increment-IsPlaced call db t e =
      let (r, ran, e1) =
        bind-first
          (simulate_flashblocks_call calls hashes ctx n calls.decode_unit call
            (calls.flashblock_incremented ∷ []) db)
          _ _ e in
      let (tx, signed, e2) =
        bind-first (sign_call calls ctx n.flashblock_number_address n.signer r.gas_used call db) _ _
          e1 in
      let same : t ≡ called calls ctx r.gas_used true tx = ground arith in
      let s =
        sign_call-Signed calls ctx reader n.flashblock_number_address n.signer r.gas_used call db tx
          signed in
      rw same (record { place = refl; by = s.by; next_nonce = s.next_nonce })

  permit-IsPlaced :
      (f : Flashtestations calls hashes ctx) (db : evm.Db) (t : BuilderTransactionCtx)
      → signed_increment_flashblocks_permit_tx calls hashes ctx n f.tee_service_signer db ≡ ok t
      → IsPlaced true db t
  unfolding signed_increment_flashblocks_permit_tx
  permit-IsPlaced f db t e =
      let (current, ok_current, e1) =
        bind-first (readonly_call calls hashes ctx n flashblock_number db) _ _ e in
      let (signature, ok_signature, e2) =
        bind-first
          (increment_flashblocks_permit_signature calls hashes ctx n f.tee_service_signer current
            db)
          _ _ e1 in
      increment-IsPlaced (permit_increment_flashblock_number current signature) db t e2

  num_tx-IsPlaced :
      (o : Option (Flashtestations calls hashes ctx)) (db : evm.Db) (t : BuilderTransactionCtx)
      → flashblocks_num_tx calls hashes ctx n o db ≡ ok t
      → IsPlaced true db t
  unfolding flashblocks_num_tx signed_increment_flashblocks_tx
  num_tx-IsPlaced none db t e = increment-IsPlaced increment_flashblock_number db t e
  num_tx-IsPlaced (some f) db t e = elim (Bool-cases n.use_permit) [
    | inl permit ↦ permit-IsPlaced f db t (ground arith)
    | inr plain ↦ increment-IsPlaced increment_flashblock_number db t (ground arith)
  ]

  -- Exactly one transaction, at its place
  abbrev pub One : Bool → evm.Db → Txs calls hashes ctx → Type 0
  One top db txs = (t : BuilderTransactionCtx) × (txs ≡ t ∷ []) × IsPlaced top db t

  or_fallback-One :
      (db : evm.Db) (r : Result BuilderTransactionError BuilderTransactionCtx)
      → ((t : BuilderTransactionCtx) → r ≡ ok t → IsPlaced true db t)
      → (txs : Txs calls hashes ctx) → or_fallback calls hashes ctx n db r ≡ ok txs
      → One true db txs
  unfolding or_fallback set_top_of_block
  or_fallback-One db (ok t) h txs e = (t, ground arith, h t refl)
  or_fallback-One db (err x) h txs e =
      elim (Result-cases (simulate_builder_tx calls ctx (some n.signer) db)) [
        | inr (y, bad) ↦ absurd (ground arith)
        | inl (o, ran) ↦
            let (t, same, base) = simulate_builder_tx-IsBase calls ctx reader n.signer db o ran in
            (
              record t { is_top_of_block = true },
              ground arith,
              record { place = refl; by = base.signed.by; next_nonce = base.signed.next_nonce },
            )
      ]

  base-One :
      (db : evm.Db) (txs : Txs calls hashes ctx) (o : Option BuilderTransactionCtx)
      → simulate_builder_tx calls ctx (some n.signer) db ≡ ok o
      → txs ≡ as_list o
      → One false db txs
  base-One db txs o ran e =
      let (t, same, base) = simulate_builder_tx-IsBase calls ctx reader n.signer db o ran in
      (
        t,
        ground arith,
        record { place = base.at_end; by = base.signed.by; next_nonce = base.signed.next_nonce },
      )

  pub own_txs-One :
      (extra : FlashblocksExtraCtx) (db : evm.Db) (txs : Txs calls hashes ctx)
      → own_txs calls hashes ctx n extra db ≡ ok txs
      → One (not (extra.flashblock_index == 0)) db txs
  unfolding own_txs is_first_flashblock
  own_txs-One extra db txs e = elim (Bool-cases (extra.flashblock_index == 0)) [
    | inl first ↦ elim (Result-cases (simulate_builder_tx calls ctx (some n.signer) db)) [
      | inr (y, bad) ↦ absurd (ground arith)
      | inl (o, ran) ↦ rw first (base-One db txs o ran (ground arith))
    ]
    | inr later ↦ rw later (
        or_fallback-One db (flashblocks_num_tx calls hashes ctx n n.flashtestations_builder_tx db)
          (num_tx-IsPlaced n.flashtestations_builder_tx db) txs (ground arith))
  ]

  -- The contract's call may fail: only the base transaction must be made.
  pub own_txs-err :
      (extra : FlashblocksExtraCtx) (db : evm.Db) (e : BuilderTransactionError)
      → own_txs calls hashes ctx n extra db ≡ err e
      → simulate_builder_tx calls ctx (some n.signer) db ≡ err e
  unfolding own_txs is_first_flashblock or_fallback
  own_txs-err extra db e h = elim (Bool-cases (extra.flashblock_index == 0)) [
    | inl first ↦ elim (Result-cases (simulate_builder_tx calls ctx (some n.signer) db)) [
      | inl (o, ran) ↦ absurd (ground arith)
      | inr (x, bad) ↦ ground arith
    ]
    | inr later ↦
        elim (Result-cases
          (flashblocks_num_tx calls hashes ctx n n.flashtestations_builder_tx db)) [
            | inl (t, called_it) ↦ absurd (ground arith)
            | inr (y, failed) ↦
                elim (Result-cases (simulate_builder_tx calls ctx (some n.signer) db)) [
                  | inl (o, ran) ↦ absurd (ground arith)
                  | inr (x, bad) ↦ ground arith
                ]
          ]
  ]
