-- ===== src/Standard/Outcomes.antt =====
-- How the standard builder's calls end.
use op_rbuilder.Base.{
  ℕ, ◌≡◌, ◌≢◌, refl, Bool, true, false, Option, none, some, if◌then◌else◌, Result, ok, err,
}
use op_rbuilder.BestTxs.{PayloadTransactions}
use op_rbuilder.GasLimiter.{AddressGasLimiter}
use op_rbuilder.Context.{PayloadBuilderError}
use op_rbuilder.Context.Best.{
  Outcome, done, cancelled_at, failed_at, out_of_fuel, execute_best_transactions,
}
use op_rbuilder.Context.Loop.{Ends, execute_best_transactions-Ends}
use op_rbuilder.Context.Uncancelled.{execute_best_transactions-ne-cancelled_at}
use op_rbuilder.Context.Sequencer.{Progress}
use op_rbuilder.Flashblocks.Outputs.{BuiltPayload}
use op_rbuilder.Standard.{
  Node, StandardError, payload_error, missing_payload, stuck, BuildOutcomeKind, better, freeze,
  aborted, cancelled, Room, Job, Site, Run, ctx, finish, best_call, begin, on_outcome, fill,
  on_sequenced, on_attributes, on_started, execute,
}
use op_rbuilder.Standard.Sealing.{seal, kind_of, on_sealed, on_executed, build}
use op_rbuilder.Standard.Payload.{prepare, on_state, on_prepared, build_payload, try_build}

module _ (node : Node) where
  open node use {evm, sealer, seal_ctx}

  -- A payload that is kept if it is of the attributes alone, and built again otherwise, or an error
  -- of the build itself
  abbrev pub Concludes : {P : Type 0} → Result StandardError (BuildOutcomeKind P) → Type 0
  Concludes (ok (better p)) = seal_ctx.no_tx_pool ≡ false
  Concludes (ok (freeze p)) = seal_ctx.no_tx_pool ≡ true
  Concludes (ok (aborted fees)) = ⊥
  Concludes (ok cancelled) = ⊥
  Concludes (err (payload_error e)) = Unit
  Concludes (err missing_payload) = ⊥
  Concludes (err stuck) = ⊥

  -- `execute` gives no payload to be kept.
  abbrev Executes : Result StandardError (BuildOutcomeKind (Site node)) → Type 0
  Executes (ok (better s)) = Unit
  Executes (ok (freeze s)) = ⊥
  Executes (ok (aborted fees)) = ⊥
  Executes (ok cancelled) = ⊥
  Executes (err (payload_error e)) = Unit
  Executes (err missing_payload) = ⊥
  Executes (err stuck) = ⊥

  kind_of-Concludes :
      (payload : BuiltPayload evm sealer) (syncing : Bool)
      → seal_ctx.no_tx_pool ≡ syncing
      → Concludes (ok (if syncing then freeze payload else better payload))
  kind_of-Concludes payload true e = e
  kind_of-Concludes payload false e = e

  on_sealed-Concludes :
      (r : Result PayloadBuilderError (BuiltPayload evm sealer)) → Concludes (on_sealed node r)
  unfolding on_sealed kind_of
  on_sealed-Concludes (ok payload) = kind_of-Concludes payload seal_ctx.no_tx_pool refl
  on_sealed-Concludes (err e) = tt

  on_executed-Concludes :
      (run : Run node (Site node)) → Executes run.0 → Concludes (on_executed node run).0
  unfolding on_executed
  on_executed-Concludes (ok (better s), limiter) h = on_sealed-Concludes (seal node s)
  on_executed-Concludes (ok (freeze s), limiter) h = absurd h
  on_executed-Concludes (ok (aborted fees), limiter) h = absurd h
  on_executed-Concludes (ok cancelled, limiter) h = absurd h
  on_executed-Concludes (err (payload_error e), limiter) h = tt
  on_executed-Concludes (err missing_payload, limiter) h = absurd h
  on_executed-Concludes (err stuck, limiter) h = absurd h

  module _ (txs : PayloadTransactions) (pool : txs.Txs) (j : Job node) where
    abbrev never : ℕ → Bool
    never n = false

    on_outcome-Executes :
        (room : Room) (s : Site node) (o : Outcome (best_call node txs pool never room))
        → Ends (best_call node txs pool never room) s.info s.db pool o
        → ((b : op_rbuilder.Context.Best.Build (best_call node txs pool never room))
            → o ≢ cancelled_at b)
        → Executes (on_outcome node txs pool never j room o s).0
    unfolding on_outcome finish
    on_outcome-Executes room s (done b) e h = tt
    on_outcome-Executes room s (cancelled_at b) e h = absurd (h b refl)
    on_outcome-Executes room s (failed_at x b) e h = tt
    on_outcome-Executes room s out_of_fuel e h = absurd e

    by_mode-Executes :
        (syncing : Bool) (room : Room) (s : Site node)
        → Executes
            (if syncing
              then finish node j s
              else on_outcome node txs pool never j room
                  (execute_best_transactions
                    (best_call node txs pool never room)
                    (begin node txs pool never room s))
                  s).0
    unfolding finish
    by_mode-Executes true room s = tt
    by_mode-Executes false room s =
        on_outcome-Executes room s _
          (execute_best_transactions-Ends (best_call node txs pool never room)
            (begin node txs pool never room s))
          (execute_best_transactions-ne-cancelled_at (best_call node txs pool never room)
            (λ n. refl) _)

    on_attributes-Executes :
        (limiter : AddressGasLimiter) (r : Result PayloadBuilderError (Progress evm (ctx node)))
        → Executes (on_attributes node txs pool never j limiter r).0
    unfolding on_attributes on_sequenced fill
    on_attributes-Executes limiter (err e) = tt
    on_attributes-Executes limiter (ok (info, db)) = by_mode-Executes seal_ctx.no_tx_pool _ _

    on_started-Executes :
        (limiter : AddressGasLimiter) (r : Option evm.Db)
        → Executes (on_started node txs pool never j limiter r).0
    unfolding on_started
    on_started-Executes limiter none = tt
    on_started-Executes limiter (some db) = on_attributes-Executes limiter _

    on_state-Concludes :
        (limiter : AddressGasLimiter) (r : Option evm.Db)
        → Concludes (on_state node txs pool never j limiter r).0
    unfolding on_state build execute
    on_state-Concludes limiter none = tt
    on_state-Concludes limiter (some db) =
        on_executed-Concludes _ (on_started-Executes limiter (j.pre_execution db))

    on_prepared-Concludes :
        (r : Result PayloadBuilderError (Unit {0}))
        → Concludes (on_prepared node txs pool never j r).0
    unfolding on_prepared
    on_prepared-Concludes (err e) = tt
    on_prepared-Concludes (ok u) = on_state-Concludes _ j.state

    -- try_build ends with a payload, which is kept exactly if the attributes ask for no
    -- transactions of the pool, or with an error of the build itself: it is never cancelled or
    -- aborted, and its loop over the pool never runs out of fuel.
    pub try_build-Concludes : Concludes (try_build node txs pool j).0
    unfolding try_build build_payload
    try_build-Concludes = on_prepared-Concludes (prepare node j)
