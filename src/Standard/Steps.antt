-- ===== src/Standard/Steps.antt =====
-- The steps behind a payload of the standard builder.
use op_rbuilder.Base.{
  ℕ, ◌≡◌, refl, ap, ◌∙◌, Bool, true, false, List, [], arith, if◌then◌else◌, ok, err,
}
use op_rbuilder.Transactions.{FbPooledTransaction}
use op_rbuilder.BestTxs.{PayloadTransactions}
use op_rbuilder.BuilderTxs.{simulated}
use op_rbuilder.BuilderTxs.Rounds.{AddsTo, add_builder_txs-AddsTo}
use op_rbuilder.Context.Best.{
  Outcome, done, cancelled_at, failed_at, out_of_fuel, execute_best_transactions,
}
use op_rbuilder.Context.Loop.{Builds, built, Ends, execute_best_transactions-Ends}
use op_rbuilder.Flashblocks.Headers.{block_gas_limit}
use op_rbuilder.Standard.{
  Node, better, freeze, aborted, cancelled, Room, room_for, Job, Site, Run, ctx, add_own, finish,
  best_call, begin, on_outcome, fill, on_sequenced,
}

module _ (node : Node) where
  open node use {evm, sealer, seal_ctx}

  -- A call of `add_own`
  pub record Owned (top : Bool) (j : Job node) (s s' : Site node) : Type 0 where
    pub same : s' ≡ (add_own node top j.simulate s).1
    pub adds :
        AddsTo evm
          (ctx node)
          top
          (simulated (j.simulate s.info s.db top))
          (s.info, s.db)
          (s'.info, s'.db)

  pub add_own-Owned :
      (top : Bool) (j : Job node) (s : Site node) → Owned top j s (add_own node top j.simulate s).1
  unfolding add_own
  add_own-Owned top j s = record {
    same = refl;
    adds = add_builder_txs-AddsTo evm (ctx node) j.simulate s.info s.db top;
  }

  -- The block with the builder's transactions at its top, and the room that is left in it
  abbrev pub topped_site : Job node → Site node → Site node
  topped_site j s = (add_own node true j.simulate s).1

  abbrev pub room_of : Job node → Site node → Room
  room_of j s =
      room_for (block_gas_limit seal_ctx) j.max_da_block_size
        (topped_site j s).info.da_footprint_scalar (add_own node true j.simulate s).0

  module _ (txs : PayloadTransactions) (pool : txs.Txs) (cancel : ℕ → Bool) where
    -- From the block of the attributes to the block that is sealed: the builder's transactions at
    -- the top, those of the pool, and the builder's at the end.
    pub record Steps (j : Job node) (s s' : Site node) : Type 0 where
      pub topped : Site node
      pub top : Owned true j s topped
      pub room : Room
      pub room_left :
          room
          ≡ room_for
              (block_gas_limit seal_ctx)
              j.max_da_block_size
              topped.info.da_footprint_scalar
              (add_own node true j.simulate s).0
      pub filled : Site node
      pub taken : List FbPooledTransaction
      pub from_pool :
          Builds
            (best_call node txs pool cancel room)
            filled.info
            filled.db
            taken
            topped.info
            topped.db
            pool
      pub only_attributes : seal_ctx.no_tx_pool ≡ true → taken ≡ []
      pub bottom : Owned false j filled s'

    pub Steps-room :
        {j : Job node} {s s' : Site node} (steps : Steps j s s') → steps.room ≡ room_of j s
    Steps-room {j} {s} steps =
        steps.room_left
        ∙ ap
            (λ (t : Site node).
              room_for (block_gas_limit seal_ctx) j.max_da_block_size t.info.da_footprint_scalar
                (add_own node true j.simulate s).0)
            steps.top.same

    -- What `execute` makes of the block of the attributes
    abbrev pub Makes : Job node → Site node → Run node (Site node) → Type 0
    Makes j s (ok (better s'), limiter) = Steps j s s'
    Makes j s (ok (freeze s'), limiter) = ⊥
    Makes j s (ok (aborted fees), limiter) = ⊥
    Makes j s (ok cancelled, limiter) = Unit
    Makes j s (err e, limiter) = Unit

    module _ (j : Job node) (s : Site node) where
      finish-Makes :
          (filled : Site node) (taken : List FbPooledTransaction)
          → Builds
              (best_call node txs pool cancel (room_of j s))
              filled.info
              filled.db
              taken
              (topped_site j s).info
              (topped_site j s).db
              pool
          → (seal_ctx.no_tx_pool ≡ true → taken ≡ [])
          → Makes j s (finish node j filled)
      unfolding finish
      finish-Makes filled taken from_pool only = record {
        topped = (topped_site j s);
        top = add_own-Owned true j s;
        room = (room_of j s);
        room_left = refl;
        filled = filled;
        taken = taken;
        from_pool = from_pool;
        only_attributes = only;
        bottom = add_own-Owned false j filled;
      }

      on_outcome-Makes :
          (o : Outcome (best_call node txs pool cancel (room_of j s)))
          → Ends
              (best_call node txs pool cancel (room_of j s))
              (topped_site j s).info
              (topped_site j s).db
              pool
              o
          → seal_ctx.no_tx_pool ≡ false
          → Makes j s (on_outcome node txs pool cancel j (room_of j s) o (topped_site j s))
      unfolding on_outcome
      on_outcome-Makes (done b) (ps, h) pooled =
          finish-Makes (record { info = b.info; db = b.db; limiter = b.limiter }) ps h
            (λ q. absurd (ground arith))
      on_outcome-Makes (cancelled_at b) h pooled = tt
      on_outcome-Makes (failed_at e b) h pooled = tt
      on_outcome-Makes out_of_fuel h pooled = tt

      by_mode :
          (syncing : Bool)
          → seal_ctx.no_tx_pool ≡ syncing
          → Makes j s (
              if syncing
              then finish node j (topped_site j s)
              else on_outcome node txs pool cancel j
                  (room_of j s)
                  (execute_best_transactions
                    (best_call node txs pool cancel (room_of j s))
                    (begin node txs pool cancel (room_of j s) (topped_site j s)))
                  (topped_site j s))
      by_mode true syncing = finish-Makes (topped_site j s) [] (built refl refl) (λ q. refl)
      by_mode false building =
          on_outcome-Makes _
            (execute_best_transactions-Ends (best_call node txs pool cancel (room_of j s))
              (begin node txs pool cancel (room_of j s) (topped_site j s)))
            building

      pub on_sequenced-Makes : Makes j s (on_sequenced node txs pool cancel j s)
      unfolding on_sequenced fill
      on_sequenced-Makes = by_mode seal_ctx.no_tx_pool refl
