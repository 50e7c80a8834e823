-- ===== src/Flashblocks/Growth.antt =====
-- What each step of `build_next_flashblock` before the message does to the block.
use op_rbuilder.Base.{
  ℕ, ◌≡◌, refl, ◌∙◌, Bool, Option, some, none, List, [], ◌∷◌, ◌++◌, Result, ok, err,
}
use op_rbuilder.Transactions.{Tx, FbPooledTransaction}
use op_rbuilder.Evm.{Evm, BuilderCtx}
use op_rbuilder.Execution.{ExecutionInfo, BlockLimits}
use op_rbuilder.BuilderTxs.{Simulate}
use op_rbuilder.BuilderTxs.Rounds.{add_builder_txs-AddsTo}
use op_rbuilder.Context.{Info, PayloadBuilderError, append, charge, add_fees}
use op_rbuilder.Context.Grows.{Grows, Grows-refl, Grows-trans, Extends-Grows}
use op_rbuilder.Context.Best.{BestCall, Outcome, done, cancelled_at, failed_at, out_of_fuel}
use op_rbuilder.Context.Filled.{Builds-Grows}
use op_rbuilder.Context.Loop.{Builds, Ends, execute_best_transactions-Ends}
use op_rbuilder.Context.Sidecar.{ExternalTransaction, Progress, execute_sidecar_transactions}
use op_rbuilder.Context.Sidecar.Rounds.{
  Taken, finished, took, passed_over, failed_on, execute_sidecar_transactions-Ends,
}
use op_rbuilder.SidecarClient.{Polled}
use op_rbuilder.Flashblocks.Batches.{FlashblocksExtraCtx, Targets}
use op_rbuilder.Flashblocks.Building.{
  Chain, ctx, Trigger, Site, Stop, stopped, failed, add_own, best_call, begin, mark_new, on_outcome,
  fill_from_pool, sidecar_limits, on_executed, execute_polled, on_polled, add_from_sidecar,
}

-- A block that grows by some transactions
abbrev pub Grown : {Receipt : Type 0} → ExecutionInfo Tx Receipt → ExecutionInfo Tx Receipt → Type 0
Grown info info' = (txs : List Tx) × Grows info txs info'

Grown-trans :
    {Receipt : Type 0} {info mid info' : ExecutionInfo Tx Receipt}
    → Grown info mid
    → Grown mid info'
    → Grown info info'
Grown-trans (us, g) (vs, h) = (us ++ vs, Grows-trans us vs g h)

Builds-Grown :
    (call : BestCall) {info' : Info call.evm call.ctx} {db' : call.evm.Db}
    {ps : List FbPooledTransaction} {info : Info call.evm call.ctx} {db : call.evm.Db}
    {it : call.txs.Txs}
    → Builds call info' db' ps info db it
    → Grown info info'
Builds-Grown call h = (_, Builds-Grows call h)

module _ (evm : Evm) (ctx : BuilderCtx) (limits : BlockLimits) where
  Ends-Grown :
      {exts : List ExternalTransaction} {p : Progress evm ctx limits}
      {end : Result PayloadBuilderError (Unit {0}) × Progress evm ctx limits}
      → op_rbuilder.Context.Sidecar.Rounds.Ends evm ctx limits exts p end
      → Grown p.0 end.1.0
  Ends-Grown (finished {p}) = ([], Grows-refl p.0)
  Ends-Grown (took t rest) = Grown-trans (_, Extends-Grows t.extends) (Ends-Grown rest)
  Ends-Grown (passed_over off rest) = Ends-Grown rest
  Ends-Grown {p} (failed_on on e) = ([], Grows-refl p.0)

module _ (chain : Chain) where
  -- Nothing was published since, and the best payload is the same.
  pub record Unmoved (s s' : Site chain) : Type 0 where
    pub published : s'.published ≡ s.published
    pub best : s'.best ≡ s.best

  pub record Later (s s' : Site chain) : Type 0 where
    pub unmoved : Unmoved s s'
    pub grown : Grown s.info s'.info

  abbrev pub Stays : Site chain → Result (Stop chain) (Site chain) → Type 0
  Stays s (ok s') = Later s s'
  Stays s (err (stopped s')) = Unmoved s s'
  Stays s (err (failed e s')) = Unmoved s s'

  pub Later-trans : {r s t : Site chain} → Later r s → Later s t → Later r t
  Later-trans h k = record {
    unmoved = record {
      published = k.unmoved.published ∙ h.unmoved.published;
      best = k.unmoved.best ∙ h.unmoved.best;
    };
    grown = Grown-trans h.grown k.grown;
  }

  same : {s s' : Site chain} → s'.published ≡ s.published → s'.best ≡ s.best → Unmoved s s'
  same p b = record { published = p; best = b }

  pub add_own-Later :
      (top : Bool) (simulate : Simulate chain.evm (ctx chain)) (s : Site chain)
      → Later s (add_own chain top simulate s).1
  unfolding add_own
  add_own-Later top simulate s =
      let a = add_builder_txs-AddsTo chain.evm (ctx chain) simulate s.info s.db top in
      record { unmoved = same refl refl; grown = (a.txs, a.grows) }

  on_outcome-Stays :
      (targets : Targets) (t : Trigger chain) (s : Site chain)
      (it : (best_call chain targets t).txs.Txs) (o : Outcome (best_call chain targets t))
      → Ends (best_call chain targets t) s.info s.db it o
      → Stays s (on_outcome chain targets t s o)
  unfolding on_outcome mark_new
  on_outcome-Stays targets t s it (done b) (ps, h) = record {
    unmoved = same refl refl;
    grown = Builds-Grown _ h;
  }
  on_outcome-Stays targets t s it (cancelled_at b) (ps, h) = record {
    unmoved = same refl refl;
    grown = Builds-Grown _ h;
  }
  on_outcome-Stays targets t s it (failed_at e b) h = same refl refl
  on_outcome-Stays targets t s it out_of_fuel h = same refl refl

  pub fill_from_pool-Stays :
      (extra : FlashblocksExtraCtx) (targets : Targets) (t : Trigger chain) (s : Site chain)
      → Stays s (fill_from_pool chain extra targets t s)
  unfolding fill_from_pool
  fill_from_pool-Stays extra targets t s =
      on_outcome-Stays targets t s _ _
        (execute_best_transactions-Ends (best_call chain targets t) (begin chain extra targets t s))

  on_executed-Stays :
      (r : Result PayloadBuilderError (Unit {0})) (s s' : Site chain)
      → Later s s'
      → Stays s (on_executed chain r s')
  unfolding on_executed
  on_executed-Stays (ok u) s s' h = h
  on_executed-Stays (err e) s s' h = h.unmoved

  execute_polled-Stays :
      (targets : Targets) (s : Site chain) (exts : List ExternalTransaction)
      → Stays s (execute_polled chain targets s exts)
  unfolding execute_polled
  execute_polled-Stays targets s exts = on_executed-Stays _ s _ (record {
    unmoved = same refl refl;
    grown = Ends-Grown _ _ _ (
        execute_sidecar_transactions-Ends chain.evm (ctx chain) (sidecar_limits chain targets)
          (s.info, s.db) exts);
  })

  stays : (s : Site chain) → Later s s
  stays s = record { unmoved = same refl refl; grown = ([], Grows-refl s.info) }

  on_polled-Stays :
      (targets : Targets) (s : Site chain) (o : Option Polled)
      → Stays s (on_polled chain targets s o)
  unfolding on_polled
  on_polled-Stays targets s none = same refl refl
  on_polled-Stays targets s (some (ok (some (ext ∷ exts)), waits)) =
      execute_polled-Stays targets s (ext ∷ exts)
  on_polled-Stays targets s (some (ok (some []), waits)) = stays s
  on_polled-Stays targets s (some (ok none, waits)) = stays s
  on_polled-Stays targets s (some (err e, waits)) = stays s

  pub add_from_sidecar-Stays :
      (extra : FlashblocksExtraCtx) (targets : Targets) (t : Trigger chain) (gas_before : ℕ)
      (s : Site chain)
      → Stays s (add_from_sidecar chain extra targets t gas_before s)
  unfolding add_from_sidecar
  add_from_sidecar-Stays extra targets t gas_before s = on_polled-Stays targets s _
