-- ===== src/Flashblocks/Payload.antt =====
-- `build_payload` as a whole: what is published against the best payload, at each end of it.
use op_rbuilder.Base.{
  ℕ, ◌+◌, ◌<◌, ◌≡◌, refl, sym, ◌∙◌, Bool, false, Option, some, List, [], length, arith, ◌⊎◌, inl,
  inr, Result, ok, err, bind-ok, Option-cases, u64_mod,
}
use op_rbuilder.Flashblocks.Batches.{FlashblocksExtraCtx, first_ctx}
use op_rbuilder.Flashblocks.Headers.{block_gas_limit}
use op_rbuilder.Flashblocks.Building.{Chain, FlashblockError, send_failed, Trigger, Site}
use op_rbuilder.Flashblocks.Told.{ToldAt, Ready}
use op_rbuilder.Flashblocks.Telling.{EndsTold, build_flashblocks-EndsTold}
use op_rbuilder.Flashblocks.Blocks.{
  Job, flashblock_count, prepare, add_first_builder_txs, build_fallback, on_first, build_rest,
  build_payload,
}
use op_rbuilder.Flashblocks.Fallback.{
  FallbackEnds, prepare-Fresh, add_first_builder_txs-Fresh, on_fallback-Ends,
}

module _ (chain : Chain) (count : ℕ) where
  open chain use {evm, sealer, seal_ctx}

  -- What is known however the block ends: an error leaves nothing published, or the last message
  -- ahead where its payload could not be sent, or both in step.
  abbrev pub Tells : Result FlashblockError (Unit {0}) × Site chain → Type 0
  Tells (ok u, s) = ToldAt chain count s
  Tells (err e, s) = (e ≡ send_failed) ⊎ ((s.published ≡ []) ⊎ ToldAt chain count s)

  EndsTold-Tells :
      (r : Result FlashblockError (Unit {0}) × Site chain) → EndsTold chain count r → Tells r
  EndsTold-Tells (ok u, s) h = h
  EndsTold-Tells (err e, s) (inl lost) = inl lost
  EndsTold-Tells (err e, s) (inr told) = inr (inr told)

  first_ctx-index :
      (limit : ℕ) (da scalar : Option ℕ) (off : Bool) (extra : FlashblocksExtraCtx)
      → first_ctx limit da scalar off count ≡ some extra
      → (extra.flashblock_index ≡ 1) × (extra.target_flashblock_count ≡ count)
  unfolding first_ctx
  first_ctx-index limit da scalar off extra e = (ground arith, ground arith)

  build_rest-Tells :
      (j : Job chain) (ts : List (Trigger chain)) (s : Site chain)
      → flashblock_count chain j ≡ some count
      → count + 1 < u64_mod
      → Ready chain count s
      → length s.published ≡ 1
      → Tells (build_rest chain j ts s)
  unfolding build_rest
  build_rest-Tells j ts s counted fits ready one =
      elim (Option-cases (
        first_ctx (block_gas_limit seal_ctx) j.max_da_block_size s.info.da_footprint_scalar
          j.disable_state_root count)) [
            | inl nothing ↦ rw (counted, nothing, build_rest, Tells) (inr (inr ready.told))
            | inr (extra, begun) ↦
                let (index, target) = first_ctx-index _ _ _ _ extra begun in
                rw (counted, begun, build_rest)
                  (EndsTold-Tells _ (
                    build_flashblocks-EndsTold chain count fits extra ts s ready (index ∙ sym one)
                      target))
          ]

  on_first-Tells :
      (j : Job chain) (ts : List (Trigger chain))
      → flashblock_count chain j ≡ some count
      → count + 1 < u64_mod
      → seal_ctx.no_tx_pool ≡ false
      → (r : Result FlashblockError (Unit {0}) × Site chain) → FallbackEnds chain count r
      → Tells (on_first chain j ts r)
  unfolding on_first
  on_first-Tells j ts counted fits building (err e, s) h = inr (inl h)
  on_first-Tells j ts counted fits building (ok u, s) (ready, one) =
      rw building (build_rest-Tells j ts s counted fits ready one)

  -- If the flashblocks of a block can be counted, their count and one more is below 2^64, the pool
  -- is used and the steps before the first payload succeed, build_payload, for every sequence of
  -- triggers, pool, sidecar and cancellations, ends in step: the messages put together hold the
  -- encodings of the best payload's transactions once and in order, they are numbered from 0 on
  -- and at most the count after the first, the last has the payload's block hash, and the payload
  -- has a sender and a receipt for each transaction; except that an error may come before anything
  -- is published, or from a payload that could not be sent.
  pub build_payload-Tells :
      (j : Job chain) (ts : List (Trigger chain))
      (end : Result FlashblockError (Unit {0}) × Site chain)
      → flashblock_count chain j ≡ some count
      → count + 1 < u64_mod
      → seal_ctx.no_tx_pool ≡ false
      → build_payload chain j ts ≡ ok end
      → Tells end
  unfolding build_payload build_fallback
  build_payload-Tells j ts end counted fits building e =
      let run = λ (s : Site chain).
        on_first chain j ts (build_fallback chain j (add_first_builder_txs chain j s)) in
      let (s, ran, same) = bind-ok (prepare chain j) run end e in
      let first = add_first_builder_txs chain j s in
      let fresh = add_first_builder_txs-Fresh chain count j s (prepare-Fresh chain count j s ran) in
      rw same (
        on_first-Tells j ts counted fits building _
          (on_fallback-Ends chain count j first fresh _ building _ refl))
