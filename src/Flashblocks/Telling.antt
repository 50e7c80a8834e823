-- ===== src/Flashblocks/Telling.antt =====
-- `build_next_flashblock` and the loop of `build_payload`: what is published against the best payload.
use op_rbuilder.Base.{
  ℕ, suc, ◌+◌, ◌≤◌, ◌<◌, ◌≡◌, refl, ◌∙◌, Bool, true, false, List, [], ◌∷◌, length, arith, ◌⊎◌, inl,
  inr, Result, ok, err, ◌>>=◌, Bool-cases, Result-cases, add_u64, u64_mod,
}
use op_rbuilder.Context.Sidecar.{ensure}
use op_rbuilder.Flashblocks.Batches.{FlashblocksExtraCtx, next, next_extra_ctx, is_finished}
use op_rbuilder.Flashblocks.Told.{ToldAt, Ready, Follows}
use op_rbuilder.Flashblocks.Growth.{
  Unmoved, Later, Stays, Later-trans, add_own-Later, fill_from_pool-Stays, add_from_sidecar-Stays,
}
use op_rbuilder.Flashblocks.Steps.{seal_and_publish-Follows}
use op_rbuilder.Flashblocks.Building.{
  Chain, FlashblockError, send_failed, Trigger, Site, Stop, stopped, failed, add_own,
  seal_and_publish, build_next_flashblock,
}
use op_rbuilder.Flashblocks.Blocks.{build_flashblocks}

module _ (chain : Chain) (count : ℕ) where
  -- How `build_next_flashblock` ends, for flashblock number `n`
  abbrev pub Next :
      FlashblocksExtraCtx → ℕ → Result (Stop chain) (FlashblocksExtraCtx × Site chain) → Type 0
  Next extra n (ok (extra', s)) =
      Ready chain count s
      × (length s.published ≡ suc n)
      × (extra'.flashblock_index ≡ add_u64 extra.flashblock_index 1)
      × (extra'.target_flashblock_count ≡ extra.target_flashblock_count)
  Next extra n (err (stopped s)) = ToldAt chain count s
  Next extra n (err (failed e s)) = (e ≡ send_failed) ⊎ ToldAt chain count s

  Unmoved-Told :
      {s s' : Site chain} → Unmoved chain s s' → ToldAt chain count s → ToldAt chain count s'
  Unmoved-Told u told = rw (u.published, u.best) told

  Unmoved-trans : {r s t : Site chain} → Unmoved chain r s → Unmoved chain s t → Unmoved chain r t
  Unmoved-trans h k = record { published = k.published ∙ h.published; best = k.best ∙ h.best }

  module _ (extra : FlashblocksExtraCtx) (n : ℕ) (s0 : Site chain)
      (ready : Ready chain count s0) where
    Stays-bind :
        (s : Site chain) (r : Result (Stop chain) (Site chain))
        (k : Site chain → Result (Stop chain) (FlashblocksExtraCtx × Site chain))
        → Later chain s0 s
        → Stays chain s r
        → ((s' : Site chain) → Later chain s0 s' → Next extra n (k s'))
        → Next extra n (r >>= k)
    Stays-bind s (ok s') k l h f = f s' (Later-trans chain l h)
    Stays-bind s (err (stopped s')) k l h f = Unmoved-Told (Unmoved-trans l.unmoved h) ready.told
    Stays-bind s (err (failed e s')) k l h f =
        inr (Unmoved-Told (Unmoved-trans l.unmoved h) ready.told)

    ensure-bind :
        (s : Site chain) (b : Bool) (k : Result (Stop chain) (FlashblocksExtraCtx × Site chain))
        → Later chain s0 s
        → Next extra n k
        → Next extra n (ensure b (stopped s) >>= λ _. k)
    ensure-bind s true k l h = h
    ensure-bind s false k l h = Unmoved-Told l.unmoved ready.told

  Follows-bind :
      (extra extra' : FlashblocksExtraCtx) (n : ℕ) (r : Result (Stop chain) (Site chain))
      → extra'.flashblock_index ≡ add_u64 extra.flashblock_index 1
      → extra'.target_flashblock_count ≡ extra.target_flashblock_count
      → Follows chain count n r
      → Next extra n (r >>= λ built. ok (extra', built))
  Follows-bind extra extra' n (ok s) index target (h, more) = (h, more, index, target)
  Follows-bind extra extra' n (err (stopped s)) index target h = h
  Follows-bind extra extra' n (err (failed e s)) index target h = h

  build_next_flashblock-Next :
      (extra : FlashblocksExtraCtx) (t : Trigger chain) (s : Site chain)
      → Ready chain count s
      → extra.flashblock_index ≡ length s.published
      → length s.published ≤ count
      → Next extra (length s.published) (build_next_flashblock chain extra t s)
  unfolding build_next_flashblock next_extra_ctx next
  build_next_flashblock-Next extra t s ready numbered below =
      let n = length s.published in
      let topped = (add_own chain true t.simulate s).1 in
      Stays-bind extra n s ready topped _ _ (add_own-Later chain true t.simulate s)
        (fill_from_pool-Stays chain extra _ t topped)
        (λ filled l1. ensure-bind extra n s ready filled _ _ l1 (
          Stays-bind extra n s ready filled _ _ l1 (add_from_sidecar-Stays chain extra _ t _ filled)
            (λ joined l2.
              let own = (add_own chain false t.simulate joined).1 in
              let l3 = Later-trans chain l2 (add_own-Later chain false t.simulate joined) in
              Follows-bind extra _ n (seal_and_publish chain extra t own) refl refl (
                seal_and_publish-Follows chain count s own ready l3.grown.0 l3.grown.1
                  l3.unmoved.published l3.unmoved.best extra t numbered below))))

  -- How the block ends
  abbrev pub EndsTold : Result FlashblockError (Unit {0}) × Site chain → Type 0
  EndsTold (ok u, s) = ToldAt chain count s
  EndsTold (err e, s) = (e ≡ send_failed) ⊎ ToldAt chain count s

  pub build_flashblocks-EndsTold :
      count + 1 < u64_mod
      → (extra : FlashblocksExtraCtx) (ts : List (Trigger chain)) (s : Site chain)
      → Ready chain count s
      → extra.flashblock_index ≡ length s.published
      → extra.target_flashblock_count ≡ count
      → EndsTold (build_flashblocks chain extra ts s)
  unfolding build_flashblocks is_finished
  build_flashblocks-EndsTold fits extra [] s ready numbered target = ready.told
  build_flashblocks-EndsTold fits extra (t ∷ ts) s ready numbered target =
      elim (Bool-cases (is_finished extra)) [
        | inl over ↦ rw (over, build_flashblocks, EndsTold) ready.told
        | inr more ↦
            let below : length s.published ≤ count = ground (arith, more, numbered, target) in
            let step = build_next_flashblock-Next extra t s ready numbered below in
            elim (Result-cases (build_next_flashblock chain extra t s)) [
              | inl ((extra', s'), e) ↦
                  let (ready', longer, index, kept) = rw e at step in
                  rw (more, e, build_flashblocks)
                    (build_flashblocks-EndsTold fits extra' ts s' ready'
                      (omega (arith, index, numbered, longer, below, fits)) (kept ∙ target))
              | inr (stopped s', e) ↦ rw (more, e, build_flashblocks) (rw e at step)
              | inr (failed x s', e) ↦ rw (more, e, build_flashblocks) (rw e at step)
            ]
      ]
