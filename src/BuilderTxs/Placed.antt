-- ===== src/BuilderTxs/Placed.antt =====
-- The transactions that `FlashblocksNumberBuilderTx` makes for a flashblock.
use op_rbuilder.Base.{
  ◌==◌, differ, List, ◌≡◌, refl, ◌⊎◌, Bool, not, Option, none, some, [], ◌∷◌, arith, inl, inr,
  Bool-cases, Result-cases, Result, ok, err,
}
use op_rbuilder.Evm.{Evm, ResultAndState, TransactError}
use op_rbuilder.Transactions.{Tx}
use op_rbuilder.Context.{Info}
use op_rbuilder.Flashblocks.Headers.{SealCtx}
use op_rbuilder.Flashblocks.Batches.{FlashblocksExtraCtx}
use op_rbuilder.BuilderTxs.{BuilderTransactionCtx, BuilderTransactionError, commit_txs}
use op_rbuilder.BuilderTxs.Base.{Calls}
use op_rbuilder.BuilderTxs.Signed.{ReadsSigned}
use op_rbuilder.BuilderTxs.Base.{simulate_builder_tx}
use op_rbuilder.BuilderTxs.Makers.{
  is_last_flashblock, Txs, Simulated, Flashtestations, extend_with, add_flashtestations,
}
use op_rbuilder.BuilderTxs.Own.{IsPlaced, own_txs-One, own_txs-err}
use op_rbuilder.BuilderTxs.Chosen.{differ-eq, differ-ne}
use op_rbuilder.BuilderTxs.Number.{
  FlashblocksNumberBuilderTx, own_txs, placed_at, on_own, simulate_number,
}
use op_rbuilder.Flashtestations.{Hashes, simulate_flashtestations}
use op_rbuilder.Flashtestations.Registered.{Registers, simulate_flashtestations-Registers}

module _ {evm : Evm} (calls : Calls evm) (hashes : Hashes) (ctx : SealCtx)
    (reader : ReadsSigned calls) (n : FlashblocksNumberBuilderTx calls hashes ctx) where
  -- The state after the transaction, if it is for the place, and else as it was
  abbrev After : Bool → BuilderTransactionCtx → evm.Db → evm.Db → Type 0
  After top own db db' =
      ((own.is_top_of_block ≡ top)
        × ((r : ResultAndState evm.Logs evm.Changes) × (evm.transact db own.signed_tx ≡ ok r)
            × (db' ≡ evm.commit db r.state)))
      ⊎ ((own.is_top_of_block ≡ not top) × (db' ≡ db))

  -- What flashtestations adds, on that state
  pub record Extended (f : Flashtestations calls hashes ctx) (committed : evm.Db)
      (transactions : List Tx) (db : evm.Db) (top : Bool) (own : BuilderTransactionCtx)
      (before after : Bool) (more : Txs calls hashes ctx) : Type 0 where
    pub db' : evm.Db
    pub after_own : After top own db db'
    pub registers : Registers calls hashes ctx reader f committed transactions db' before after more

  -- One own transaction, and nothing more but what flashtestations adds in the last flashblock
  pub record Placed (extra : FlashblocksExtraCtx) (committed : evm.Db) (transactions : List Tx)
      (db : evm.Db) (top before after : Bool) (txs : Txs calls hashes ctx) : Type 0 where
    pub own : BuilderTransactionCtx
    pub placed : IsPlaced calls hashes ctx reader n (not (extra.flashblock_index == 0)) db own
    pub more : Txs calls hashes ctx
    pub in_order : txs ≡ own ∷ more
    pub only_last :
        (more ≡ [])
        ⊎ ((extra.flashblock_index ≡ extra.target_flashblock_count)
            × ((f : Flashtestations calls hashes ctx) × (n.flashtestations_builder_tx ≡ some f)
                × Extended f committed transactions db top own before after more))

  -- The transaction, for the place, cannot be executed.
  abbrev Unexecuted : Bool → BuilderTransactionCtx → evm.Db → Type 0
  Unexecuted top own db =
      (own.is_top_of_block ≡ top) × ((x : TransactError) × (evm.transact db own.signed_tx ≡ err x))

  -- How the simulation ends: an error is that of the base transaction, or the own transaction of
  -- the last flashblock cannot be executed.
  abbrev pub Ends :
      FlashblocksExtraCtx
      → evm.Db
      → List Tx
      → evm.Db
      → Bool
      → Bool
      → Simulated calls hashes ctx
      → Type 0
  Ends extra committed transactions db top before (ok txs, after) =
      Placed extra committed transactions db top before after txs
  Ends extra committed transactions db top before (err e, after) =
      (simulate_builder_tx calls ctx (some n.signer) db ≡ err e)
      ⊎ ((extra.flashblock_index ≡ extra.target_flashblock_count)
          × ((own : BuilderTransactionCtx) × IsPlaced calls hashes ctx reader n
                (not (extra.flashblock_index == 0)) db own
              × Unexecuted top own db))

  -- The copy of the state after the own transaction
  commit_own :
      (top : Bool) (own : BuilderTransactionCtx) (db db' : evm.Db)
      → commit_txs evm ctx.builder (placed_at calls hashes ctx n top (own ∷ [])) db ≡ (ok tt, db')
      → After top own db db'
  unfolding commit_txs placed_at
  commit_own top own db db' e = elim (Bool-cases (differ own.is_top_of_block top)) [
    | inl other ↦ inr (differ-ne _ _ other, ground arith)
    | inr here ↦ elim (Result-cases (evm.transact db own.signed_tx)) [
      | inl (r, ran) ↦ inl (differ-eq _ _ here, (r, ran, ground arith))
      | inr (x, bad) ↦ absurd (ground arith)
    ]
  ]

  commit_own-err :
      (top : Bool) (own : BuilderTransactionCtx) (db db' : evm.Db) (x : BuilderTransactionError)
      → commit_txs evm ctx.builder (placed_at calls hashes ctx n top (own ∷ [])) db ≡ (err x, db')
      → Unexecuted top own db
  unfolding commit_txs placed_at
  commit_own-err top own db db' x e = elim (Bool-cases (differ own.is_top_of_block top)) [
    | inl other ↦ absurd (ground arith)
    | inr here ↦ elim (Result-cases (evm.transact db own.signed_tx)) [
      | inl (r, ran) ↦ absurd (ground arith)
      | inr (y, bad) ↦ (differ-eq _ _ here, (y, bad))
    ]
  ]

  module _ (extra : FlashblocksExtraCtx) (committed : evm.Db) (info : Info evm ctx.builder)
      (db : evm.Db) (top before : Bool) (own : BuilderTransactionCtx)
      (placed : IsPlaced calls hashes ctx reader n (not (extra.flashblock_index == 0)) db own) where
    alone :
        (after : Bool)
        → Placed extra committed info.executed_transactions db top before after (own ∷ [])
    alone after = record {
      own = own;
      placed = placed;
      more = [];
      in_order = refl;
      only_last = inl refl;
    }

    module _ (last : extra.flashblock_index ≡ extra.target_flashblock_count)
        (f : Flashtestations calls hashes ctx) (found : n.flashtestations_builder_tx ≡ some f) where
      extend_with-Ends :
          (db' : evm.Db)
          → After top own db db'
          → (r : Simulated calls hashes ctx)
          → simulate_flashtestations calls hashes ctx f committed info db' before ≡ r
          → Ends extra committed info.executed_transactions db top before
              (extend_with calls hashes ctx (own ∷ []) r)
      unfolding extend_with
      extend_with-Ends db' done (ok more, now) ran = record {
        own = own;
        placed = placed;
        more = more;
        in_order = refl;
        only_last = inr (
          last,
          (
            f,
            found,
            record {
              db' = db';
              after_own = done;
              registers =
                  simulate_flashtestations-Registers calls hashes ctx reader f committed info db'
                    before now more ran;
            },
          ),
        );
      }
      extend_with-Ends db' done (err x, now) ran = alone now

      add_flashtestations-Ends :
          (r : Result BuilderTransactionError (Unit {0}) × evm.Db)
          → commit_txs evm ctx.builder (placed_at calls hashes ctx n top (own ∷ [])) db ≡ r
          → Ends extra committed info.executed_transactions db top before
              (add_flashtestations calls hashes ctx f committed info before (own ∷ []) r)
      unfolding add_flashtestations
      add_flashtestations-Ends (err x, db') ran =
          inr (last, (own, placed, commit_own-err top own db db' x ran))
      add_flashtestations-Ends (ok u, db') ran =
          extend_with-Ends db' (commit_own top own db db' ran) _ refl

    on_own-Ends :
        (o : Option (Flashtestations calls hashes ctx))
        → n.flashtestations_builder_tx ≡ o
        → Ends extra committed info.executed_transactions db top before
            (on_own calls hashes ctx n o extra committed info db before top (ok (own ∷ [])))
    unfolding on_own is_last_flashblock
    on_own-Ends none found = alone before
    on_own-Ends (some f) found =
        elim (Bool-cases (extra.flashblock_index == extra.target_flashblock_count)) [
          | inr middle ↦ rw (middle, on_own, is_last_flashblock) (alone before)
          | inl last ↦
              rw (last, on_own, is_last_flashblock)
                (add_flashtestations-Ends (ground arith) f found _ refl)
        ]

  -- If a signed transaction is read as it was signed, a simulation of FlashblocksNumberBuilderTx
  -- that returns begins with exactly one transaction of the builder's key, with the nonce of the
  -- key's account: for the end of the first flashblock, and for the top of every other one. More
  -- follows only in the last flashblock, from flashtestations, which is simulated on the state
  -- after that transaction if it is for the place that is asked for, and on the given state if
  -- not. The simulation fails only with the error of the base transaction, so not where just the
  -- contract cannot be called, or in the last flashblock where its transaction is for the place
  -- and cannot be executed.
  pub simulate_number-Placed :
      (extra : FlashblocksExtraCtx) (committed db : evm.Db) (info : Info evm ctx.builder)
      (top before : Bool)
      → Ends extra committed info.executed_transactions db top before
          (simulate_number calls hashes ctx n extra committed info db before top)
  unfolding simulate_number
  simulate_number-Placed extra committed db info top before =
      elim (Result-cases (own_txs calls hashes ctx n extra db)) [
        | inr (x, bad) ↦
            rw (bad, on_own) (inl (own_txs-err calls hashes ctx reader n extra db x bad))
        | inl (own, ran) ↦
            let (t, one, placed) = own_txs-One calls hashes ctx reader n extra db own ran in
            rw (ran, one)
              (on_own-Ends extra committed info db top before t placed n.flashtestations_builder_tx
                refl)
      ]
