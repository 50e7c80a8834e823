-- ===== src/Flashblocks/Building.antt =====
-- `build_next_flashblock` of builders/flashblocks/payload.rs: one flashblock, from the builder's own
-- transactions to the message that is published.
use op_rbuilder.Base.{
  ℕ, suc, min, Bool, true, false, not, ◌||◌, Option, none, some, List, [], ◌∷◌, ◌++◌, if◌then◌else◌,
  saturating_sub, Result, ok, err, ◌>>=◌, ◌>>◌,
}
use op_rbuilder.Execution.{BlockLimits}
use op_rbuilder.Evm.{Evm, BuilderCtx}
use op_rbuilder.GasLimiter.{AddressGasLimiter}
use op_rbuilder.BestTxs.{PayloadTransactions, BestFlashblocksTxs, refresh_iterator, mark_commited}
use op_rbuilder.BestTxs.Finite.{flashblock_txs}
use op_rbuilder.BuilderTxs.{BuilderTransactionCtx, Simulate, add_builder_txs, simulated}
use op_rbuilder.Context.{PayloadBuilderError, Info}
use op_rbuilder.Context.Best.{
  BestCall, Build, Outcome, done, cancelled_at, failed_at, out_of_fuel, no_counts,
  execute_best_transactions,
}
use op_rbuilder.Context.Sidecar.{ExternalTransaction, execute_sidecar_transactions, ensure}
use op_rbuilder.SidecarClient.{SidecarConfig, PollRequest, PollResponse, Polled, poll_transactions}
use op_rbuilder.Flashblocks.Batches.{FlashblocksExtraCtx, Targets, reserve, next_extra_ctx}
use op_rbuilder.Flashblocks.Slices.{new_hashes}
use op_rbuilder.Flashblocks.Headers.{SealCtx, block_gas_limit}
use op_rbuilder.Flashblocks.Outputs.{Sealer, BuiltPayload, FlashblockPayload}
use op_rbuilder.Flashblocks.Sealing.{build_block}

-- What a build of a block has to do with, and does not change
pub record Chain : Type 1 where
  pub evm : Evm
  pub sealer : Sealer evm
  pub txs : PayloadTransactions
  pub seal_ctx : SealCtx
  pub sidecar : SidecarConfig

-- Why a flashblock is not built. The last cannot be: the fuel is enough.
pub data FlashblockError : Type 0 where
  best_failed sidecar_failed build_failed : PayloadBuilderError → FlashblockError
  publish_failed send_failed stuck : FlashblockError

module _ (chain : Chain) where
  open chain use {evm, sealer, txs, seal_ctx, sidecar}

  abbrev pub ctx : BuilderCtx
  ctx = seal_ctx.builder

  -- What comes from outside while one flashblock is built: the answers of its cancellation token,
  -- the simulation of the builder's transactions, the pool's best transactions, whether the block
  -- is cancelled before the sidecar is asked and before the message is published, the sidecar's
  -- answers, which may depend on the database as the overrides do, and whether the subscribers'
  -- channel and the payload's take what they are given.
  pub record Trigger : Type 0 where
    pub cancelled : ℕ → Bool
    pub simulate : Simulate evm ctx
    pub pool : txs.Txs
    pub cancelled_early : Bool
    pub cancelled_late : Bool
    pub response : evm.Db → PollRequest → ℕ → Option PollResponse
    pub publishes : Bool
    pub sends : Bool

  -- What a build changes: its own variables, the messages that were published and the payloads
  -- sent, the first of them first, and the content of `best_payload`.
  pub record Site : Type 0 where
    pub info : Info evm ctx
    pub db : evm.Db
    pub best_txs : BestFlashblocksTxs txs
    pub limiter : AddressGasLimiter
    pub published : List (FlashblockPayload evm sealer)
    pub sent : List (BuiltPayload evm sealer)
    pub best : Option (BuiltPayload evm sealer)

  -- The build of the block ends: without an error since the block was cancelled, or with one.
  pub data Stop : Type 0 where
    stopped : Site → Stop
    failed : FlashblockError → Site → Stop

  -- The builder's transactions; an error is logged, and then none are reserved for.
  unfoldable pub add_own : Bool → Simulate evm ctx → Site → List BuilderTransactionCtx × Site
  add_own top simulate s =
      let (result, (info, db)) = add_builder_txs evm ctx simulate s.info s.db top in
      (simulated result, record s { info = info; db = db })

  abbrev pub gas_target : Targets → ℕ
  gas_target targets = min targets.gas (block_gas_limit seal_ctx)

  abbrev pub best_call : Targets → Trigger → BestCall
  best_call targets t = record {
    evm = evm;
    ctx = record ctx { cancelled = t.cancelled };
    txs = flashblock_txs txs;
    block_gas_limit = gas_target targets;
    block_da_limit = targets.da;
    block_da_footprint_limit = targets.da_footprint;
  }

  abbrev pub begin :
      (extra : FlashblocksExtraCtx) (targets : Targets) (t : Trigger)
      → Site
      → Build (best_call targets t)
  begin extra targets t s = record {
    info = s.info;
    db = s.db;
    best_txs = refresh_iterator txs s.best_txs t.pool extra.flashblock_index;
    limiter = s.limiter;
    counts = no_counts;
  }

  -- The variables as the loop left them
  abbrev pub after : (targets : Targets) (t : Trigger) → Site → Build (best_call targets t) → Site
  after targets t s b = record s {
    info = b.info;
    db = b.db;
    best_txs = b.best_txs;
    limiter = b.limiter;
  }

  -- `best_txs.mark_commited(new_transactions)`
  unfoldable pub mark_new : Site → Site
  mark_new s = record s { best_txs = mark_commited txs s.best_txs (new_hashes s.info) }

  unfoldable pub on_outcome :
      (targets : Targets) (t : Trigger) → Site → Outcome (best_call targets t) → Result Stop Site
  on_outcome targets t s (done b) = ok (mark_new (after targets t s b))
  on_outcome targets t s (cancelled_at b) = ok (mark_new (after targets t s b))
  on_outcome targets t s (failed_at e b) = err (failed (best_failed e) (after targets t s b))
  on_outcome targets t s out_of_fuel = err (failed stuck s)

  unfoldable pub fill_from_pool : FlashblocksExtraCtx → Targets → Trigger → Site → Result Stop Site
  unfolding on_outcome
  fill_from_pool extra targets t s =
      on_outcome targets t s
        (execute_best_transactions (best_call targets t) (begin extra targets t s))

  abbrev pub sidecar_limits : Targets → BlockLimits
  sidecar_limits targets = record {
    block_gas_limit = gas_target targets;
    tx_data_limit = ctx.max_da_tx_size;
    block_data_limit = targets.da;
    block_da_footprint_limit = targets.da_footprint;
  }

  unfoldable pub poll_request : FlashblocksExtraCtx → Targets → ℕ → Site → PollRequest
  poll_request extra targets gas_before s =
      let pool_gas_used = saturating_sub s.info.cumulative_gas_used gas_before in
      record {
        chain_id = seal_ctx.chain_id;
        block_number = ctx.block_number;
        flashblock_index = extra.flashblock_index;
        state_root = seal_ctx.parent_state_root;
        timestamp = ctx.timestamp;
        gas_limit = saturating_sub targets.gas pool_gas_used;
      }

  -- `if let Err(err)` of the call
  unfoldable pub on_executed : Result PayloadBuilderError (Unit {0}) → Site → Result Stop Site
  on_executed (ok _) s = ok s
  on_executed (err e) s = err (failed (sidecar_failed e) s)

  unfoldable pub execute_polled : Targets → Site → List ExternalTransaction → Result Stop Site
  unfolding on_executed
  execute_polled targets s exts =
      let (result, (info, db)) =
        execute_sidecar_transactions evm ctx (sidecar_limits targets) (s.info, s.db) exts in
      on_executed result (record s { info = info; db = db })

  -- A poll that fails is logged, and adds nothing, as one without transactions.
  unfoldable pub on_polled : Targets → Site → Option Polled → Result Stop Site
  on_polled targets s none = err (failed stuck s)
  on_polled targets s (some (ok (some (ext ∷ exts)), _)) = execute_polled targets s (ext ∷ exts)
  on_polled targets s (some (ok (some []), _)) = ok s
  on_polled targets s (some (ok none, _)) = ok s
  on_polled targets s (some (err e, _)) = ok s

  -- The poll's fuel is for one request more than the retries.
  unfoldable pub add_from_sidecar :
      FlashblocksExtraCtx → Targets → Trigger → ℕ → Site → Result Stop Site
  unfolding on_polled poll_request
  add_from_sidecar extra targets t gas_before s = on_polled targets s (
      poll_transactions sidecar (t.response s.db (poll_request extra targets gas_before s))
        (suc sidecar.max_retries))

  -- From the check of the cancellation to `best_payload.set`
  unfoldable pub publish :
      Trigger → BuiltPayload evm sealer → FlashblockPayload evm sealer → Site → Result Stop Site
  publish t payload message s =
      let published = record s { published = s.published ++ message ∷ [] } in
      if t.cancelled_late
      then err (stopped s)
      else if not t.publishes
      then err (failed publish_failed s)
      else if not t.sends
      then err (failed send_failed published)
      else ok (record published { sent = s.sent ++ payload ∷ []; best = some payload })

  -- `match build_result`
  unfoldable pub on_built :
      FlashblocksExtraCtx
      → Trigger
      → Site
      → Result PayloadBuilderError
          (BuiltPayload evm sealer × (FlashblockPayload evm sealer × Info evm ctx))
      → Result Stop Site
  unfolding publish
  on_built extra t s (err e) = err (failed (build_failed e) s)
  on_built extra t s (ok (payload, (message, info))) =
      publish t payload (record message { index = extra.flashblock_index; base = none })
        (record s { info = info })

  unfoldable pub seal_and_publish : FlashblocksExtraCtx → Trigger → Site → Result Stop Site
  unfolding on_built
  seal_and_publish extra t s = on_built extra t s (
      build_block evm sealer seal_ctx s.db s.info
        (not extra.disable_state_root || seal_ctx.no_tx_pool))

  -- `build_next_flashblock`
  unfoldable pub build_next_flashblock :
      FlashblocksExtraCtx → Trigger → Site → Result Stop (FlashblocksExtraCtx × Site)
  build_next_flashblock extra t s =
      let (builder_txs, topped) = add_own true t.simulate s in
      let targets = reserve extra builder_txs topped.info.da_footprint_scalar in
      do
        filled ← fill_from_pool extra targets t topped
        ensure (not t.cancelled_early) (stopped filled)
        joined ← add_from_sidecar extra targets t topped.info.cumulative_gas_used filled
        built ← seal_and_publish extra t (add_own false t.simulate joined).1
        ok (next_extra_ctx extra targets, built)
