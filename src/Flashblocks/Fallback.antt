-- ===== src/Flashblocks/Fallback.antt =====
-- The first payload of `build_payload`, and the message about it.
use op_rbuilder.Base.{
  ℕ, ◌≡◌, refl, ap, sym, ◌∙◌, Bool, false, some, [], ◌∷◌, ◌++◌, drop, length, map, append-nil,
  arith, inl, inr, Result, ok, err, Bool-cases, Result-cases, Option-cases, not,
}
use op_rbuilder.Context.{PayloadBuilderError, Info}
use op_rbuilder.Context.Aligned.{Aligned}
use op_rbuilder.Context.Grows.{Grows-Aligned}
use op_rbuilder.Context.Sequencer.{execute_sequencer_transactions}
use op_rbuilder.Context.Sequencer.Laws.{execute_sequencer_transactions-ok}
use op_rbuilder.Flashblocks.Slices.{take_slice, IsPublished}
use op_rbuilder.Flashblocks.Outputs.{BuiltPayload, FlashblockPayload}
use op_rbuilder.Flashblocks.Sealing.{build_block}
use op_rbuilder.Flashblocks.Sealed.{Sliced, build_block-Sliced, build_block-index}
use op_rbuilder.Flashblocks.Building.{Chain, FlashblockError, ctx, Site}
use op_rbuilder.Flashblocks.Growth.{add_own-Later}
use op_rbuilder.Flashblocks.Told.{Ready}
use op_rbuilder.Flashblocks.Timing.{flashblocks_per_block}
use op_rbuilder.Flashblocks.Blocks.{
  Job, initial, execute_pre_steps, prepare, add_first_builder_txs, on_fallback, send_fallback,
}

module _ (chain : Chain) (count : ℕ) where
  open chain use {evm, sealer, seal_ctx}

  -- Nothing is published yet, and the block is ready for its first message.
  pub record Fresh (s : Site chain) : Type 0 where
    aligned : Aligned s.info
    index : s.info.extra.last_flashblock_index ≡ 0
    published : s.published ≡ []

  initial-Fresh :
      (j : Job chain) (db : evm.Db) (p : Info evm (ctx chain) × evm.Db)
      → execute_sequencer_transactions evm (ctx chain) db j.transactions ≡ ok p
      → Fresh (initial chain j p.0 p.1)
  unfolding initial
  initial-Fresh j db p e =
      let (_, aligned, _, index) =
        execute_sequencer_transactions-ok evm (ctx chain) db j.transactions p e in
      record { aligned = aligned; index = index; published = refl }

  execute_pre_steps-Fresh :
      (j : Job chain) (s : Site chain) → execute_pre_steps chain j ≡ ok s → Fresh s
  unfolding execute_pre_steps
  execute_pre_steps-Fresh j s e = elim (Option-cases (j.pre_execution j.db)) [
    | inl none_left ↦ absurd (ground arith)
    | inr (db, ran) ↦
        elim (Result-cases (execute_sequencer_transactions evm (ctx chain) db j.transactions)) [
          | inl (p, done) ↦
              let same : s ≡ initial chain j p.0 p.1 = ground arith in
              rw same (initial-Fresh j db p done)
          | inr (x, lost) ↦ absurd (ground arith)
        ]
  ]

  pub prepare-Fresh : (j : Job chain) (s : Site chain) → prepare chain j ≡ ok s → Fresh s
  unfolding prepare
  prepare-Fresh j s e = elim (Option-cases (flashblocks_per_block j.timing)) [
    | inl panic ↦ absurd (ground arith)
    | inr (n, counted) ↦ execute_pre_steps-Fresh j s (ground (arith, counted, e))
  ]

  pub add_first_builder_txs-Fresh :
      (j : Job chain) (s : Site chain) → Fresh s → Fresh (add_first_builder_txs chain j s)
  unfolding add_first_builder_txs
  add_first_builder_txs-Fresh j s h = elim (Bool-cases (not seal_ctx.no_tx_pool)) [
    | inr syncing ↦ rw syncing h
    | inl building ↦
        let own = add_own-Later chain false j.simulate s in
        rw building (record {
          aligned = Grows-Aligned own.grown.0 own.grown.1 h.aligned;
          index = ap (λ x. x.last_flashblock_index) own.grown.1.same_extra ∙ h.index;
          published = own.unmoved.published ∙ h.published;
        })
  ]

  -- How the first payload's part ends
  abbrev pub FallbackEnds : Result FlashblockError (Unit {0}) × Site chain → Type 0
  FallbackEnds (ok u, s) = Ready chain count s × (length s.published ≡ 1)
  FallbackEnds (err e, s) = s.published ≡ []

  send_fallback-cases :
      (P : Result FlashblockError (Unit {0}) × Site chain → Type 0) (j : Job chain)
      (payload : BuiltPayload evm sealer) (message : FlashblockPayload evm sealer) (s : Site chain)
      → seal_ctx.no_tx_pool ≡ false
      → ((e : FlashblockError) (s' : Site chain) → s'.published ≡ s.published → P (err e, s'))
      → P (
        ok tt,
        record s {
          published = s.published ++ message ∷ [];
          sent = s.sent ++ payload ∷ [];
          best = some payload;
        },
      )
      → P (send_fallback chain j payload message s)
  unfolding send_fallback
  send_fallback-cases P j payload message s building unsent through = elim (Bool-cases j.sends) [
    | inr lost ↦ rw lost (unsent _ _ refl)
    | inl sends ↦ elim (Bool-cases j.publishes) [
      | inr off ↦ rw (sends, building, off) (unsent _ _ refl)
      | inl heard ↦ rw (sends, building, heard) through
    ]
  ]

  module _ (j : Job chain) (s : Site chain) (fresh : Fresh s) where
    moved-IsPublished : IsPublished (take_slice s.info).1
    unfolding take_slice
    moved-IsPublished = record {
      all_transactions = refl;
      all_receipts = sym fresh.aligned.receipts;
    }

    moved-Aligned : Aligned (take_slice s.info).1
    unfolding take_slice
    moved-Aligned = record { senders = fresh.aligned.senders; receipts = fresh.aligned.receipts }

    moved-transactions : (take_slice s.info).1.executed_transactions ≡ s.info.executed_transactions
    unfolding take_slice
    moved-transactions = refl

    whole-slice : (take_slice s.info).0.new_transactions ≡ s.info.executed_transactions
    unfolding take_slice
    whole-slice = ap (λ n. drop n s.info.executed_transactions) fresh.index

    first-Ready :
        (payload : BuiltPayload evm sealer) (message : FlashblockPayload evm sealer)
        (info' : Info evm (ctx chain))
        → Sliced evm sealer seal_ctx s.info payload message info'
        → message.index ≡ 0
        → Ready chain count (record s {
          info = info';
          published = message ∷ [];
          sent = s.sent ++ payload ∷ [];
          best = some payload;
        })
    first-Ready payload message info' seals first = record {
      told = record {
        payload = payload;
        is_best = refl;
        transactions =
            append-nil _
            ∙ (seals.news ∙ ap (map sealer.encoded_2718) (whole-slice ∙ sym seals.transactions));
        numbered = ap (λ n. n ∷ []) first;
        within = omega arith;
        latest = ap some seals.same_hash;
        senders =
            seals.senders
            ∙ (fresh.aligned.senders ∙ sym (ap (map (λ tx. tx.signer)) seals.transactions));
        receipts =
            omega (
              arith,
              ap length seals.receipts,
              ap length seals.transactions,
              fresh.aligned.receipts,
            );
      };
      same_block =
          seals.transactions
          ∙ (sym moved-transactions ∙ ap (λ i. i.executed_transactions) (sym seals.moved));
      all_published = rw seals.moved moved-IsPublished;
      aligned = rw seals.moved moved-Aligned;
    }

    pub on_fallback-Ends :
        (calculate : Bool)
        → seal_ctx.no_tx_pool ≡ false
        → (r : Result PayloadBuilderError
            (BuiltPayload evm sealer × (FlashblockPayload evm sealer × Info evm (ctx chain))))
        → build_block evm sealer seal_ctx s.db s.info calculate ≡ r
        → FallbackEnds (on_fallback chain j s r)
    unfolding on_fallback
    on_fallback-Ends calculate building (err x) e = fresh.published
    on_fallback-Ends calculate building (ok (payload, (message, info'))) e =
        let seals =
          build_block-Sliced evm sealer seal_ctx s.db s.info calculate payload message info' e in
        let first =
          build_block-index evm sealer seal_ctx s.db s.info calculate payload message info' e in
        send_fallback-cases FallbackEnds j payload message (record s { info = info' }) building
          (λ x s' same. same ∙ fresh.published)
          (rw fresh.published (first-Ready payload message info' seals first, refl))
