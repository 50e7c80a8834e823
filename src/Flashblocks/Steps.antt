-- ===== src/Flashblocks/Steps.antt =====
-- The last step of `build_next_flashblock`, from `build_block` to `best_payload.set`.
use mathlib.Core.List.{map-append}
use op_rbuilder.Base.{
  ℕ, suc, ◌≤◌, ◌≡◌, refl, ap, sym, ◌∙◌, Bool, none, some, List, [], ◌∷◌, ◌++◌, map, length,
  length-snoc, arith, inl, inr, Result, ok, err, Bool-cases,
}
use op_rbuilder.Transactions.{Tx}
use op_rbuilder.Context.{Info, PayloadBuilderError}
use op_rbuilder.Context.Aligned.{Aligned}
use op_rbuilder.Context.Grows.{Grows, Grows-Aligned}
use op_rbuilder.Flashblocks.Batches.{FlashblocksExtraCtx}
use op_rbuilder.Flashblocks.Slices.{
  Slice, take_slice, IsPublished, Adds, take_slice-Adds, take_slice-IsPublished,
}
use op_rbuilder.Flashblocks.Outputs.{BuiltPayload, FlashblockPayload}
use op_rbuilder.Flashblocks.Sealing.{build_block}
use op_rbuilder.Flashblocks.Sealed.{Sliced, build_block-Sliced}
use op_rbuilder.Flashblocks.Told.{
  count_up, all_transactions, all_transactions-snoc, last_hash-snoc, Told, ToldAt, Ready, Follows,
}
use op_rbuilder.Flashblocks.Building.{
  Chain, publish_failed, send_failed, ctx, Trigger, Site, Stop, stopped, failed, on_built, publish,
  seal_and_publish,
}

module _ (chain : Chain) (count : ℕ) where
  open chain use {evm, sealer, seal_ctx}

  module _ (s0 s : Site chain) (ready : Ready chain count s0) (txs : List Tx)
      (grows : Grows s0.info txs s.info) (same_published : s.published ≡ s0.published)
      (same_best : s.best ≡ s0.best) where
    told : ToldAt chain count s
    told = rw (same_published, same_best) ready.told

    abbrev slice : Slice evm.Receipt
    slice = record { new_transactions = txs; new_receipts = grows.new_receipts }

    adds : Adds s0.info slice s.info
    adds = record {
      same_extra = grows.same_extra;
      transactions = grows.transactions;
      receipts = grows.receipts;
      as_many = grows.as_many;
    }

    aligned : Aligned s.info
    aligned = Grows-Aligned txs grows ready.aligned

    publish-cases :
        (P : Result (Stop chain) (Site chain) → Type 0) (t : Trigger chain)
        (payload : BuiltPayload evm sealer) (message : FlashblockPayload evm sealer)
        (s : Site chain)
        → P (err (stopped s))
        → P (err (failed publish_failed s))
        → ((s' : Site chain) → P (err (failed send_failed s')))
        → P (
            ok (record s {
              published = s.published ++ message ∷ [];
              sent = s.sent ++ payload ∷ [];
              best = some payload;
            }))
        → P (publish chain t payload message s)
    unfolding publish
    publish-cases P t payload message s late unheard unsent through =
        elim (Bool-cases t.cancelled_late) [
          | inl stop ↦ rw stop late
          | inr runs ↦ elim (Bool-cases t.publishes) [
            | inr off ↦ rw (runs, off) unheard
            | inl on ↦ elim (Bool-cases t.sends) [
              | inr lost ↦ rw (runs, on, lost) (unsent _)
              | inl sent ↦ rw (runs, on, sent) through
            ]
          ]
        ]

    before :
        all_transactions evm sealer s.published
        ≡ map sealer.encoded_2718 s0.info.executed_transactions
    before =
        ap (all_transactions evm sealer) same_published
        ∙ (ready.told.transactions ∙ ap (map sealer.encoded_2718) ready.same_block)

    -- With one more message, and its payload
    published-Told :
        (payload : BuiltPayload evm sealer) (message : FlashblockPayload evm sealer)
        (info' : Info evm (ctx chain))
        → Sliced evm sealer seal_ctx s.info payload message info'
        → message.index ≡ length s0.published
        → length s0.published ≤ count
        → (t : Told evm sealer count (some payload) (s.published ++ message ∷ [])) × (t.payload
            ≡ payload)
    published-Told payload message info' seals numbered below = (
      record {
        payload = payload;
        is_best = refl;
        transactions =
            all_transactions-snoc evm sealer s.published message
            ∙ (ap (λ l. l ++ message.diff.transactions) before
                ∙ (ap (λ l. map sealer.encoded_2718 s0.info.executed_transactions ++ l)
                      (seals.news
                        ∙ ap (λ (n : Slice evm.Receipt). map sealer.encoded_2718 n.new_transactions)
                            (take_slice-Adds s0.info slice s.info ready.all_published adds))
                    ∙ (sym (map-append sealer.encoded_2718 s0.info.executed_transactions txs)
                        ∙ ap (map sealer.encoded_2718)
                            (sym grows.transactions ∙ sym seals.transactions))));
        numbered =
            map-append (λ m. m.index) s.published (message ∷ [])
            ∙ (ap (λ l. l ++ message.index ∷ []) told.numbered
                ∙ (ap (λ n. count_up (length s.published) ++ n ∷ [])
                      (numbered ∙ sym (ap length same_published))
                    ∙ ap count_up (sym (length-snoc s.published message))));
        within = omega (arith, below, length-snoc s.published message, ap length same_published);
        latest = last_hash-snoc evm sealer none s.published message ∙ ap some seals.same_hash;
        senders =
            seals.senders ∙ (aligned.senders ∙ sym (ap (map (λ tx. tx.signer)) seals.transactions));
        receipts =
            omega (arith, ap length seals.receipts, ap length seals.transactions, aligned.receipts);
      },
      refl,
    )

    moved-IsPublished : IsPublished (take_slice s.info).1
    moved-IsPublished = take_slice-IsPublished s0.info slice s.info ready.all_published adds

    moved-Aligned : Aligned (take_slice s.info).1
    unfolding take_slice
    moved-Aligned = record { senders = aligned.senders; receipts = aligned.receipts }

    moved-transactions : (take_slice s.info).1.executed_transactions ≡ s.info.executed_transactions
    unfolding take_slice
    moved-transactions = refl

    sent-Ready :
        (payload : BuiltPayload evm sealer) (message : FlashblockPayload evm sealer)
        (info' : Info evm (ctx chain))
        → Sliced evm sealer seal_ctx s.info payload message info'
        → message.index ≡ length s0.published
        → length s0.published ≤ count
        → Ready chain count (record s {
          info = info';
          published = s.published ++ message ∷ [];
          sent = s.sent ++ payload ∷ [];
          best = some payload;
        })
    sent-Ready payload message info' seals numbered below =
        let (said, same) = published-Told payload message info' seals numbered below in
        record {
          told = said;
          same_block =
              ap (λ (p : BuiltPayload evm sealer). p.block.transactions) same
              ∙ (seals.transactions
                  ∙ (sym moved-transactions ∙ ap (λ i. i.executed_transactions) (sym seals.moved)));
          all_published = rw seals.moved moved-IsPublished;
          aligned = rw seals.moved moved-Aligned;
        }

    on_built-Follows :
        (extra : FlashblocksExtraCtx) (t : Trigger chain) (calculate : Bool)
        → extra.flashblock_index ≡ length s0.published
        → length s0.published ≤ count
        → (r : Result PayloadBuilderError
            (BuiltPayload evm sealer × (FlashblockPayload evm sealer × Info evm (ctx chain))))
        → build_block evm sealer seal_ctx s.db s.info calculate ≡ r
        → Follows chain count (length s0.published) (on_built chain extra t s r)
    unfolding on_built
    on_built-Follows extra t calculate numbered below (err x) e = inr told
    on_built-Follows extra t calculate numbered below (ok (payload, (message, info'))) e =
        let seals =
          build_block-Sliced evm sealer seal_ctx s.db s.info calculate payload message info' e in
        let marked : FlashblockPayload evm sealer = record message {
          index = extra.flashblock_index;
          base = none;
        } in
        let seals' : Sliced evm sealer seal_ctx s.info payload marked info' = record {
          transactions = seals.transactions;
          senders = seals.senders;
          receipts = seals.receipts;
          gas_used = seals.gas_used;
          fees = seals.fees;
          number = seals.number;
          hashed = seals.hashed;
          same_hash = seals.same_hash;
          same_gas = seals.same_gas;
          news = seals.news;
          moved = seals.moved;
        } in
        publish-cases (Follows chain count (length s0.published)) t payload marked
          (record s { info = info' }) told (inr told) (λ s'. inl refl)
          (
            sent-Ready payload marked info' seals' numbered below,
            length-snoc s.published marked ∙ ap (λ l. suc (length l)) same_published,
          )

    pub seal_and_publish-Follows :
        (extra : FlashblocksExtraCtx) (t : Trigger chain)
        → extra.flashblock_index ≡ length s0.published
        → length s0.published ≤ count
        → Follows chain count (length s0.published) (seal_and_publish chain extra t s)
    unfolding seal_and_publish
    seal_and_publish-Follows extra t numbered below =
        on_built-Follows extra t _ numbered below _ refl
