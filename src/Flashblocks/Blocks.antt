-- ===== src/Flashblocks/Blocks.antt =====
-- `build_payload` of builders/flashblocks/payload.rs: the first flashblock, which holds the
-- transactions of the attributes, and then one flashblock for each trigger.
use op_rbuilder.Base.{
  ℕ, Bool, true, false, not, ◌||◌, Option, none, some, List, [], ◌∷◌, ◌++◌, if◌then◌else◌, Result,
  ok, err, ◌>>=◌, ok_or,
}
use op_rbuilder.GasLimiter.{AddressGasLimiter, refresh}
use op_rbuilder.BuilderTxs.{Simulate}
use op_rbuilder.Context.{PayloadBuilderError, other, panicked, Info}
use op_rbuilder.Context.Sequencer.{SequencerTx, execute_sequencer_transactions}
use op_rbuilder.Flashblocks.Batches.{FlashblocksExtraCtx, first_ctx, is_finished}
use op_rbuilder.Flashblocks.Timing.{
  TimingConfig, flashblocks_per_block, calculate_flashblocks, calculate_flashblocks_timing,
}
use op_rbuilder.Flashblocks.Headers.{block_gas_limit}
use op_rbuilder.Flashblocks.Outputs.{BuiltPayload, FlashblockPayload}
use op_rbuilder.Flashblocks.Sealing.{build_block}
use op_rbuilder.Flashblocks.Building.{
  Chain, FlashblockError, build_failed, publish_failed, send_failed, ctx, Trigger, Site, stopped,
  failed, add_own, build_next_flashblock,
}

module _ (chain : Chain) where
  open chain use {evm, sealer, txs, seal_ctx, sidecar}

  -- The loop of `build_payload`: a flashblock for each trigger, until the triggers end or the
  -- context's index is above the count. The block ends with an error, or without.
  unfoldable pub build_flashblocks :
      FlashblocksExtraCtx
      → List (Trigger chain)
      → Site chain
      → Result FlashblockError (Unit {0}) × Site chain
  build_flashblocks extra [] s = (ok tt, s)
  build_flashblocks extra (t ∷ ts) s = elim (is_finished extra) [
    | true ↦ (ok tt, s)
    | false ↦ elim (build_next_flashblock chain extra t s) [
      | ok (extra', s') ↦ build_flashblocks extra' ts s'
      | err (stopped s') ↦ (ok tt, s')
      | err (failed e s') ↦ (err e, s')
    ]
  ]

  -- What `build_payload` is given: the time, the configuration, the state of the parent block, and
  -- what comes from outside before the first trigger. `pre_execution` is the library's
  -- `apply_pre_execution_changes`, none where it fails; `pool` is the iterator over the pool's
  -- transactions with which `best_txs` begins.
  pub record Job : Type 0 where
    pub timing : TimingConfig
    pub build_at_interval_end : Bool
    pub now : ℕ
    pub disable_state_root : Bool
    pub max_da_block_size : Option ℕ
    pub transactions : List SequencerTx
    pub db : evm.Db
    pub pre_execution : evm.Db → Option evm.Db
    pub simulate : Simulate evm (ctx chain)
    pub limiter : AddressGasLimiter
    pub pool : txs.Txs
    pub publishes : Bool
    pub sends : Bool

  abbrev pub map_fst : {A B : Type 0} → Option (A × B) → Option A
  map_fst none = none
  map_fst (some (a, b)) = some a

  -- How many flashblocks there are to be; none is a panic.
  unfoldable pub flashblock_count : Job → Option ℕ
  flashblock_count j =
      if j.build_at_interval_end
      then elim (calculate_flashblocks_timing j.timing (ctx chain).timestamp j.now) [
        | none ↦ none
        | some timing ↦ some timing.flashblocks_per_block
      ]
      else map_fst (calculate_flashblocks j.timing (ctx chain).timestamp j.now)

  -- Before anything is executed
  unfoldable pub initial : Job → Info evm (ctx chain) → evm.Db → Site chain
  initial j info db = record {
    info = info;
    db = db;
    best_txs = record { inner = j.pool; current_flashblock_number = 0; commited_transactions = [] };
    limiter = refresh j.limiter (ctx chain).block_number;
    published = [];
    sent = [];
    best = none;
  }

  -- `execute_pre_steps`, and the builder's transactions after it
  unfoldable pub execute_pre_steps : Job → Result PayloadBuilderError (Site chain)
  unfolding initial
  execute_pre_steps j = elim (j.pre_execution j.db) [
    | none ↦ err other
    | some db ↦ elim (execute_sequencer_transactions evm (ctx chain) db j.transactions) [
      | err e ↦ err e
      | ok (info, db') ↦ ok (initial j info db')
    ]
  ]

  -- The first context takes the configured number of flashblocks, a division that may panic.
  unfoldable pub prepare : Job → Result PayloadBuilderError (Site chain)
  prepare j = ok_or panicked (flashblocks_per_block j.timing) >>= λ _. execute_pre_steps j

  unfoldable pub add_first_builder_txs : Job → Site chain → Site chain
  add_first_builder_txs j s =
      if not seal_ctx.no_tx_pool then (add_own chain false j.simulate s).1 else s

  -- From `try_send` of the first payload to the publication of its message
  unfoldable pub send_fallback :
      Job
      → BuiltPayload evm sealer
      → FlashblockPayload evm sealer
      → Site chain
      → Result FlashblockError (Unit {0}) × Site chain
  send_fallback j payload message s =
      let sent = record s { sent = s.sent ++ payload ∷ []; best = some payload } in
      if not j.sends
      then (err send_failed, s)
      else if seal_ctx.no_tx_pool
      then (ok tt, sent)
      else if not j.publishes
      then (err publish_failed, sent)
      else (ok tt, record sent { published = s.published ++ message ∷ [] })

  unfoldable pub on_fallback :
      Job
      → Site chain
      → Result PayloadBuilderError
          (BuiltPayload evm sealer × (FlashblockPayload evm sealer × Info evm (ctx chain)))
      → Result FlashblockError (Unit {0}) × Site chain
  unfolding send_fallback
  on_fallback j s (err e) = (err (build_failed e), s)
  on_fallback j s (ok (payload, (message, info))) =
      send_fallback j payload message (record s { info = info })

  unfoldable pub build_fallback : Job → Site chain → Result FlashblockError (Unit {0}) × Site chain
  unfolding on_fallback
  build_fallback j s = on_fallback j s (
      build_block evm sealer seal_ctx s.db s.info (not j.disable_state_root || seal_ctx.no_tx_pool))

  -- The flashblocks of the block, after the first
  unfoldable pub build_rest :
      Job → List (Trigger chain) → Site chain → Result FlashblockError (Unit {0}) × Site chain
  unfolding flashblock_count
  build_rest j triggers s = elim (flashblock_count j) [
    | none ↦ (err (build_failed panicked), s)
    | some per_block ↦
        elim (first_ctx (block_gas_limit seal_ctx) j.max_da_block_size s.info.da_footprint_scalar
          j.disable_state_root per_block) [
            | none ↦ (err (build_failed panicked), s)
            | some extra ↦ build_flashblocks extra triggers s
          ]
  ]

  -- After the first payload
  unfoldable pub on_first :
      Job
      → List (Trigger chain)
      → Result FlashblockError (Unit {0}) × Site chain
      → Result FlashblockError (Unit {0}) × Site chain
  unfolding build_rest
  on_first j triggers (err e, s) = (err e, s)
  on_first j triggers (ok _, s) =
      if seal_ctx.no_tx_pool then (ok tt, s) else build_rest j triggers s

  -- `build_payload`, with what the build leaves; an error of the first steps comes alone.
  unfoldable pub build_payload :
      Job
      → List (Trigger chain)
      → Result PayloadBuilderError (Result FlashblockError (Unit {0}) × Site chain)
  unfolding on_first build_fallback add_first_builder_txs
  build_payload j triggers =
      prepare j >>= λ s. ok (on_first j triggers (build_fallback j (add_first_builder_txs j s)))
