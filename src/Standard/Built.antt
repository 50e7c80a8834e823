-- ===== src/Standard/Built.antt =====
-- What `build_payload` of the standard builder returns a payload for.
use op_rbuilder.Base.{ℕ, ◌≡◌, refl, Bool, Option, none, some, arith, Result, ok, err}
use op_rbuilder.BestTxs.{PayloadTransactions}
use op_rbuilder.GasLimiter.{AddressGasLimiter}
use op_rbuilder.Context.{PayloadBuilderError}
use op_rbuilder.Context.Sequencer.{Progress, execute_sequencer_transactions}
use op_rbuilder.Flashblocks.Outputs.{BuiltPayload}
use op_rbuilder.Standard.{
  Node, BuildOutcomeKind, better, freeze, aborted, cancelled, Job, Site, Run, ctx, on_sequenced,
  on_attributes, on_started, execute,
}
use op_rbuilder.Standard.Sealing.{seal, kind_of, on_sealed, on_executed, build}
use op_rbuilder.Standard.Payload.{into_payload, prepare, on_state, on_prepared, build_payload}
use op_rbuilder.Standard.Steps.{Steps, Makes, on_sequenced-Makes}

module _ (node : Node) (txs : PayloadTransactions) (pool : txs.Txs) (cancel : ℕ → Bool) where
  open node use {evm, sealer, seal_ctx}

  -- A payload, with the steps that it comes from
  pub record Built (j : Job node) (kind : BuildOutcomeKind (BuiltPayload evm sealer))
      (payload : BuiltPayload evm sealer) : Type 0 where
    pub db : evm.Db
    pub found : j.state ≡ some db
    pub db0 : evm.Db
    pub started : j.pre_execution db ≡ some db0
    pub site : Site node
    pub sequenced :
        execute_sequencer_transactions evm (ctx node) db0 j.transactions ≡ ok (site.info, site.db)
    pub final : Site node
    pub steps : Steps node txs pool cancel j site final
    pub sealed : seal node final ≡ ok payload
    pub same_kind : kind ≡ kind_of node payload

  module _ (j : Job node) (kind : BuildOutcomeKind (BuiltPayload evm sealer))
      (payload : BuiltPayload evm sealer) where
    -- The payload is that of a block after the steps.
    abbrev Seals : Site node → Type 0
    Seals s =
        (final : Site node) × Steps node txs pool cancel j s final
        × (seal node final ≡ ok payload)
        × (kind ≡ kind_of node payload)

    kind-payload :
        (p : BuiltPayload evm sealer)
        → kind ≡ kind_of node p
        → into_payload node kind ≡ some payload
        → p ≡ payload
    unfolding kind_of
    kind-payload p e h = ground arith

    on_sealed-Seals :
        (s final : Site node)
        → Steps node txs pool cancel j s final
        → (r : Result PayloadBuilderError (BuiltPayload evm sealer)) → seal node final ≡ r
        → on_sealed node r ≡ ok kind
        → into_payload node kind ≡ some payload
        → Seals s
    unfolding on_sealed
    on_sealed-Seals s final steps (ok p) e h q =
        let same : p ≡ payload = kind-payload p (ground arith) q in
        (final, steps, rw (← same) e, ground arith)
    on_sealed-Seals s final steps (err x) e h q = absurd (ground arith)

    on_executed-Seals :
        (s : Site node) (run : Run node (Site node))
        → Makes node txs pool cancel j s run
        → (on_executed node run).0 ≡ ok kind
        → into_payload node kind ≡ some payload
        → Seals s
    unfolding on_executed
    on_executed-Seals s (ok (better s'), limiter) steps h q =
        on_sealed-Seals s s' steps (seal node s') refl h q
    on_executed-Seals s (ok (freeze s'), limiter) m h q = absurd m
    on_executed-Seals s (ok (aborted fees), limiter) m h q = absurd m
    on_executed-Seals s (ok cancelled, limiter) m h q = absurd (ground arith)
    on_executed-Seals s (err e, limiter) m h q = absurd (ground arith)

    on_attributes-Built :
        (db db0 : evm.Db) (limiter : AddressGasLimiter)
        → j.state ≡ some db
        → j.pre_execution db ≡ some db0
        → (r : Result PayloadBuilderError (Progress evm (ctx node)))
        → execute_sequencer_transactions evm (ctx node) db0 j.transactions ≡ r
        → (on_executed node (on_attributes node txs pool cancel j limiter r)).0 ≡ ok kind
        → into_payload node kind ≡ some payload
        → Built j kind payload
    unfolding on_executed on_attributes
    on_attributes-Built db db0 limiter found started (err x) ran h q = absurd (ground arith)
    on_attributes-Built db db0 limiter found started (ok (info, db1)) ran h q =
        let s : Site node = record { info = info; db = db1; limiter = limiter } in
        let (final, steps, sealed, same) =
          on_executed-Seals s (on_sequenced node txs pool cancel j s)
            (on_sequenced-Makes node txs pool cancel j s) h q in
        record {
          db = db;
          found = found;
          db0 = db0;
          started = started;
          site = s;
          sequenced = ran;
          final = final;
          steps = steps;
          sealed = sealed;
          same_kind = same;
        }

    on_started-Built :
        (db : evm.Db) (limiter : AddressGasLimiter)
        → j.state ≡ some db
        → (r : Option evm.Db) → j.pre_execution db ≡ r
        → (on_executed node (on_started node txs pool cancel j limiter r)).0 ≡ ok kind
        → into_payload node kind ≡ some payload
        → Built j kind payload
    unfolding on_executed on_started
    on_started-Built db limiter found none started h q = absurd (ground arith)
    on_started-Built db limiter found (some db0) started h q =
        on_attributes-Built db db0 limiter found started _ refl h q

    on_state-Built :
        (limiter : AddressGasLimiter) (r : Option evm.Db)
        → j.state ≡ r
        → (on_state node txs pool cancel j limiter r).0 ≡ ok kind
        → into_payload node kind ≡ some payload
        → Built j kind payload
    unfolding on_state build execute
    on_state-Built limiter none found h q = absurd (ground arith)
    on_state-Built limiter (some db) found h q = on_started-Built db limiter found _ refl h q

    on_prepared-Built :
        (r : Result PayloadBuilderError (Unit {0}))
        → (on_prepared node txs pool cancel j r).0 ≡ ok kind
        → into_payload node kind ≡ some payload
        → Built j kind payload
    unfolding on_prepared
    on_prepared-Built (err x) h q = absurd (ground arith)
    on_prepared-Built (ok u) h q = on_state-Built _ j.state refl h q

    pub build_payload-Built :
        (build_payload node txs pool cancel j).0 ≡ ok kind
        → into_payload node kind ≡ some payload
        → Built j kind payload
    unfolding build_payload
    build_payload-Built = on_prepared-Built (prepare node j)
