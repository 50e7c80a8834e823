-- ===== src/Flashblocks/Fueled.antt =====
-- The fuel of the pool's loop and of the sidecar's poll, in the flashblocks of a block.
use mathlib.Core.Path.{subst}
use op_rbuilder.Base.{
  ℕ, suc, ◌+◌, ◌<◌, ◌≡◌, ◌≢◌, sym, Bool, true, false, Option, none, some, List, [], ◌∷◌, arith, inl,
  inr, Result, ok, err, ◌>>=◌, Bool-cases, Result-cases, not,
}
use op_rbuilder.Context.{PayloadBuilderError, Info}
use op_rbuilder.Context.Best.{Outcome, done, cancelled_at, failed_at, out_of_fuel}
use op_rbuilder.Context.Loop.{Ends, execute_best_transactions-Ends}
use op_rbuilder.Context.Sidecar.{ensure}
use op_rbuilder.SidecarClient.{PollResponse, Polled, is_enabled, poll_transactions, u32_mod}
use op_rbuilder.SidecarClient.Polls.{poll_transactions-Ends}
use op_rbuilder.Flashblocks.Batches.{FlashblocksExtraCtx, Targets, is_finished}
use op_rbuilder.Flashblocks.Outputs.{BuiltPayload, FlashblockPayload}
use op_rbuilder.Flashblocks.Building.{
  Chain, stuck, ctx, Trigger, Site, Stop, stopped, failed, add_own, best_call, begin, on_outcome,
  fill_from_pool, on_executed, execute_polled, on_polled, add_from_sidecar, publish, on_built,
  seal_and_publish, build_next_flashblock,
}
use op_rbuilder.Flashblocks.Blocks.{build_flashblocks}

module _ (chain : Chain) where
  open chain use {evm, sealer, seal_ctx, sidecar}

  abbrev NotStuck : {A : Type 0} → Result (Stop chain) A → Type 0
  NotStuck (ok a) = Unit
  NotStuck (err (stopped s)) = Unit
  NotStuck (err (failed e s)) = e ≢ stuck

  bind-NotStuck :
      {A B : Type 0} (r : Result (Stop chain) A) (k : A → Result (Stop chain) B)
      → NotStuck r
      → ((a : A) → NotStuck (k a))
      → NotStuck (r >>= k)
  bind-NotStuck (ok a) k h f = f a
  bind-NotStuck (err (stopped s)) k h f = tt
  bind-NotStuck (err (failed e s)) k h f = h

  ensure-NotStuck : (b : Bool) (s : Site chain) → NotStuck (ensure b (stopped s))
  ensure-NotStuck true s = tt
  ensure-NotStuck false s = tt

  on_outcome-NotStuck :
      (targets : Targets) (t : Trigger chain) (s : Site chain)
      (it : (best_call chain targets t).txs.Txs) (o : Outcome (best_call chain targets t))
      → Ends (best_call chain targets t) s.info s.db it o
      → NotStuck (on_outcome chain targets t s o)
  unfolding on_outcome
  on_outcome-NotStuck targets t s it (done b) h = tt
  on_outcome-NotStuck targets t s it (cancelled_at b) h = tt
  on_outcome-NotStuck targets t s it (failed_at e b) h = λ q. absurd (ground arith)
  on_outcome-NotStuck targets t s it out_of_fuel h = absurd h

  on_executed-NotStuck :
      (r : Result PayloadBuilderError (Unit {0})) (s : Site chain)
      → NotStuck (on_executed chain r s)
  unfolding on_executed
  on_executed-NotStuck (ok u) s = tt
  on_executed-NotStuck (err e) s = λ q. absurd (ground arith)

  on_polled-NotStuck :
      (targets : Targets) (s : Site chain) (p : Polled)
      → NotStuck (on_polled chain targets s (some p))
  unfolding on_polled execute_polled
  on_polled-NotStuck targets s (ok (some (ext ∷ exts)), waits) = on_executed-NotStuck _ _
  on_polled-NotStuck targets s (ok (some []), waits) = tt
  on_polled-NotStuck targets s (ok none, waits) = tt
  on_polled-NotStuck targets s (err e, waits) = tt

  polls :
      sidecar.max_retries + 1 < u32_mod
      → (response : ℕ → Option PollResponse)
      → (p : Polled) × (poll_transactions sidecar response (suc sidecar.max_retries) ≡ some p)
  unfolding poll_transactions
  polls small response = elim (Bool-cases (is_enabled sidecar)) [
    | inl on ↦
        let (p, ends, same, short) = poll_transactions-Ends sidecar response on small in (p, same)
    | inr off ↦ ((ok none, []), ground arith)
  ]

  add_from_sidecar-NotStuck :
      sidecar.max_retries + 1 < u32_mod
      → (extra : FlashblocksExtraCtx) (targets : Targets) (t : Trigger chain) (gas_before : ℕ)
        (s : Site chain)
      → NotStuck (add_from_sidecar chain extra targets t gas_before s)
  unfolding add_from_sidecar
  add_from_sidecar-NotStuck small extra targets t gas_before s =
      let (p, same) = polls small (t.response s.db _) in
      subst (λ (o : Option Polled). NotStuck (on_polled chain targets s o)) (sym same)
        (on_polled-NotStuck targets s p)

  publish-NotStuck :
      (t : Trigger chain) (payload : BuiltPayload evm sealer)
      (message : FlashblockPayload evm sealer) (s : Site chain)
      → NotStuck (publish chain t payload message s)
  unfolding publish
  publish-NotStuck t payload message s = elim (Bool-cases t.cancelled_late) [
    | inl late ↦ rw (late, publish, NotStuck) tt
    | inr runs ↦ elim (Bool-cases t.publishes) [
      | inr off ↦ rw (runs, off, publish, NotStuck) (λ q. absurd (ground arith))
      | inl on ↦ elim (Bool-cases t.sends) [
        | inr lost ↦ rw (runs, on, lost, publish, NotStuck) (λ q. absurd (ground arith))
        | inl sent ↦ rw (runs, on, sent, publish, NotStuck) tt
      ]
    ]
  ]

  on_built-NotStuck :
      (extra : FlashblocksExtraCtx) (t : Trigger chain) (s : Site chain)
      (r : Result PayloadBuilderError
        (BuiltPayload evm sealer × (FlashblockPayload evm sealer × Info evm (ctx chain))))
      → NotStuck (on_built chain extra t s r)
  unfolding on_built
  on_built-NotStuck extra t s (err e) = λ q. absurd (ground arith)
  on_built-NotStuck extra t s (ok (payload, (message, info))) = publish-NotStuck t payload _ _

  fill_from_pool-NotStuck :
      (extra : FlashblocksExtraCtx) (targets : Targets) (t : Trigger chain) (s : Site chain)
      → NotStuck (fill_from_pool chain extra targets t s)
  unfolding fill_from_pool
  fill_from_pool-NotStuck extra targets t s =
      on_outcome-NotStuck targets t s _ _
        (execute_best_transactions-Ends (best_call chain targets t) (begin chain extra targets t s))

  seal_and_publish-NotStuck :
      (extra : FlashblocksExtraCtx) (t : Trigger chain) (s : Site chain)
      → NotStuck (seal_and_publish chain extra t s)
  unfolding seal_and_publish
  seal_and_publish-NotStuck extra t s = on_built-NotStuck extra t s _

  build_next_flashblock-NotStuck :
      sidecar.max_retries + 1 < u32_mod
      → (extra : FlashblocksExtraCtx) (t : Trigger chain) (s : Site chain)
      → NotStuck (build_next_flashblock chain extra t s)
  unfolding build_next_flashblock
  build_next_flashblock-NotStuck small extra t s =
      let topped = (add_own chain true t.simulate s).1 in
      bind-NotStuck (fill_from_pool chain extra _ t topped) _
        (fill_from_pool-NotStuck extra _ t topped)
        (λ filled.
          bind-NotStuck (ensure (not t.cancelled_early) (stopped filled)) _
            (ensure-NotStuck (not t.cancelled_early) filled)
            (λ u.
              bind-NotStuck (add_from_sidecar chain extra _ t _ filled) _
                (add_from_sidecar-NotStuck small extra _ t _ filled)
                (λ joined.
                  let own = (add_own chain false t.simulate joined).1 in
                  bind-NotStuck (seal_and_publish chain extra t own) _
                    (seal_and_publish-NotStuck extra t own) (λ built. tt))))

  pub build_flashblocks-fueled :
      sidecar.max_retries + 1 < u32_mod
      → (extra : FlashblocksExtraCtx) (ts : List (Trigger chain)) (s : Site chain)
      → (build_flashblocks chain extra ts s).0 ≢ err stuck
  unfolding build_flashblocks
  build_flashblocks-fueled small extra [] s = λ q. absurd (ground arith)
  build_flashblocks-fueled small extra (t ∷ ts) s = elim (Bool-cases (is_finished extra)) [
    | inl over ↦ rw (over, build_flashblocks) (λ q. absurd (ground arith))
    | inr more ↦
        let step = build_next_flashblock-NotStuck small extra t s in
        elim (Result-cases (build_next_flashblock chain extra t s)) [
          | inl ((extra', s'), e) ↦
              rw (more, e, build_flashblocks) (build_flashblocks-fueled small extra' ts s')
          | inr (stopped s', e) ↦ rw (more, e, build_flashblocks) (λ q. absurd (ground arith))
          | inr (failed x s', e) ↦
              let fine : x ≢ stuck = rw e at step in
              rw (more, e, build_flashblocks) (λ q. fine (ground arith))
        ]
  ]
