-- ===== src/BuilderTxs/Number.antt =====
-- `FlashblocksNumberBuilderTx` of builders/flashblocks/builder_tx.rs: the transactions that keep a
-- contract's number of flashblocks.
use op_rbuilder.Base.{
  ℕ, Bool, true, Option, none, some, List, [], ◌∷◌, if◌then◌else◌, differ, Result, ok, err, ◌>>=◌,
  map_err,
}
use op_rbuilder.Transactions.{Address, Hash, Tx}
use op_rbuilder.Evm.{Evm}
use op_rbuilder.Context.{Info}
use op_rbuilder.TxSigner.{Bytes, Signature, Signer, sign_message}
use op_rbuilder.Flashblocks.Headers.{SealCtx}
use op_rbuilder.Flashblocks.Batches.{FlashblocksExtraCtx}
use op_rbuilder.BuilderTxs.{
  BuilderTransactionCtx, BuilderTransactionError, signing_error, set_top_of_block, commit_txs,
}
use op_rbuilder.BuilderTxs.Base.{
  SolCall, flashblock_number, increment_flashblock_number, permit_increment_flashblock_number,
  number_struct_hash, number_hash_typed_data_v4, Calls, SimulationSuccess, simulate_call,
  call_request, sign_call, simulate_builder_tx, called,
}
use op_rbuilder.BuilderTxs.Makers.{
  as_list, is_first_flashblock, is_last_flashblock, Txs, Simulated, Flashtestations,
  add_flashtestations,
}
use op_rbuilder.Flashtestations.{Hashes, simulation_cfg}

module _ {evm : Evm} (calls : Calls evm) (hashes : Hashes) (ctx : SealCtx) where
  open calls use {crypto}

  pub record FlashblocksNumberBuilderTx : Type 0 where
    pub signer : Signer crypto
    pub flashblock_number_address : Address
    pub use_permit : Bool
    pub flashtestations_builder_tx : Option (Flashtestations calls hashes ctx)

  module _ (n : FlashblocksNumberBuilderTx) where
    unfoldable pub simulate_flashblocks_call :
        {Output : Type 0}
        → (Bytes → Option Output)
        → SolCall
        → List Hash
        → evm.Db
        → Result BuilderTransactionError (SimulationSuccess calls ctx Output)
    simulate_flashblocks_call decode call expected_logs db = do
      tx_req ← call_request calls ctx n.flashblock_number_address n.signer.address call db
      simulate_call calls ctx decode simulation_cfg db tx_req expected_logs

    -- `simulate_flashblocks_readonly_call` of a word, and the output of it
    unfoldable pub readonly_call : SolCall → evm.Db → Result BuilderTransactionError ℕ
    unfolding simulate_flashblocks_call
    readonly_call call db = do
      r ← simulate_flashblocks_call calls.decode_word call [] db
      ok r.output

    unfoldable pub increment_flashblocks_tx :
        SolCall → evm.Db → Result BuilderTransactionError BuilderTransactionCtx
    unfolding simulate_flashblocks_call
    increment_flashblocks_tx call db = do
      r ← simulate_flashblocks_call calls.decode_unit call (calls.flashblock_incremented ∷ []) db
      signed_tx ← sign_call calls ctx n.flashblock_number_address n.signer r.gas_used call db
      ok (called calls ctx r.gas_used true signed_tx)

    unfoldable pub signed_increment_flashblocks_tx :
        evm.Db → Result BuilderTransactionError BuilderTransactionCtx
    unfolding increment_flashblocks_tx
    signed_increment_flashblocks_tx db = increment_flashblocks_tx increment_flashblock_number db

    unfoldable pub increment_flashblocks_permit_signature :
        Signer crypto → ℕ → evm.Db → Result BuilderTransactionError Signature
    unfolding readonly_call
    increment_flashblocks_permit_signature flashtestations_signer current db = do
      struct_hash ← readonly_call (number_struct_hash current) db
      typed_hash ← readonly_call (number_hash_typed_data_v4 struct_hash) db
      map_err (λ _. signing_error) (sign_message crypto flashtestations_signer typed_hash)

    unfoldable pub signed_increment_flashblocks_permit_tx :
        Signer crypto → evm.Db → Result BuilderTransactionError BuilderTransactionCtx
    unfolding increment_flashblocks_permit_signature increment_flashblocks_tx
    signed_increment_flashblocks_permit_tx flashtestations_signer db = do
      current ← readonly_call flashblock_number db
      signature ← increment_flashblocks_permit_signature flashtestations_signer current db
      increment_flashblocks_tx (permit_increment_flashblock_number current signature) db

    -- By a permit of flashtestations' key, if there is one and the configuration says so
    unfoldable pub flashblocks_num_tx :
        Option (Flashtestations calls hashes ctx)
        → evm.Db
        → Result BuilderTransactionError BuilderTransactionCtx
    unfolding signed_increment_flashblocks_tx signed_increment_flashblocks_permit_tx
    flashblocks_num_tx none db = signed_increment_flashblocks_tx db
    flashblocks_num_tx (some f) db =
        if n.use_permit
        then signed_increment_flashblocks_permit_tx f.tee_service_signer db
        else signed_increment_flashblocks_tx db

    abbrev pub map_option : {A B : Type 0} → (A → B) → Option A → Option B
    map_option f none = none
    map_option f (some a) = some (f a)

    -- Where the contract's call fails, the base transaction at the top of the block
    unfoldable pub or_fallback :
        evm.Db
        → Result BuilderTransactionError BuilderTransactionCtx
        → Result BuilderTransactionError (Txs calls hashes ctx)
    or_fallback db (ok tx) = ok (tx ∷ [])
    or_fallback db (err e) = simulate_builder_tx calls ctx (some n.signer) db >>= λ tx.
        ok (as_list (map_option set_top_of_block tx))

    -- The transactions before those of flashtestations
    unfoldable pub own_txs :
        FlashblocksExtraCtx → evm.Db → Result BuilderTransactionError (Txs calls hashes ctx)
    unfolding flashblocks_num_tx or_fallback
    own_txs extra db =
        if is_first_flashblock extra
        then (simulate_builder_tx calls ctx (some n.signer) db >>= λ tx. ok (as_list tx))
        else or_fallback db (flashblocks_num_tx n.flashtestations_builder_tx db)

    -- `filter(|tx| tx.is_top_of_block == top_of_block)`
    unfoldable pub placed_at : Bool → Txs calls hashes ctx → List Tx
    placed_at top [] = []
    placed_at top (t ∷ ts) =
        let rest = placed_at top ts in
        if differ t.is_top_of_block top then rest else t.signed_tx ∷ rest

    unfoldable pub on_own :
        Option (Flashtestations calls hashes ctx)
        → FlashblocksExtraCtx
        → evm.Db
        → Info evm ctx.builder
        → evm.Db
        → Bool
        → Bool
        → Result BuilderTransactionError (Txs calls hashes ctx)
        → Simulated calls hashes ctx
    unfolding placed_at
    on_own f extra committed info db registered top (err e) = (err e, registered)
    on_own none extra committed info db registered top (ok txs) = (ok txs, registered)
    on_own (some f) extra committed info db registered top (ok txs) =
        if is_last_flashblock extra
        then add_flashtestations calls hashes ctx f committed info registered txs
            (commit_txs evm ctx.builder (placed_at top txs) db)
        else (ok txs, registered)

    -- `simulate_builder_txs`
    unfoldable pub simulate_number :
        FlashblocksExtraCtx
        → evm.Db
        → Info evm ctx.builder
        → evm.Db
        → Bool
        → Bool
        → Simulated calls hashes ctx
    unfolding own_txs on_own
    simulate_number extra committed info db registered top =
        on_own n.flashtestations_builder_tx extra committed info db registered top
          (own_txs extra db)
