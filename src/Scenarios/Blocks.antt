-- ===== src/Scenarios/Blocks.antt =====
-- A block of the small node: the first message, and two flashblocks with transactions of the pool,
-- of a sidecar and of the builder.
use op_rbuilder.Base.{
  ℕ, ◌+◌, ◌≡◌, ◌≢◌, refl, true, false, none, some, [], ◌∷◌, length, arith, Result, ok, err,
}
use op_rbuilder.Flashblocks.Timing.{TimingConfig}
use op_rbuilder.Flashblocks.Headers.{SealCtx, blob_fields, extra_data}
use op_rbuilder.Flashblocks.Slices.{take_slice}
use op_rbuilder.Flashblocks.Sealed.{Seals, build_block-Seals}
use op_rbuilder.Transactions.{Tx}
use op_rbuilder.Execution.{ExecutionInfo}
use op_rbuilder.Flashblocks.Outputs.{Sealer}
use op_rbuilder.Flashblocks.Sealing.{
  Parts, build_block, parts, state_root, withdrawals_fields, is_in_range, payload_of, flashblock_of,
}
use op_rbuilder.Flashblocks.Building.{Chain, FlashblockError, stuck, Trigger, Site}
use op_rbuilder.Flashblocks.Blocks.{
  Job, flashblock_count, initial, add_first_builder_txs, build_fallback, on_first, build_payload,
}
use op_rbuilder.Flashblocks.Ending.{build_payload-fueled}
use op_rbuilder.Flashblocks.Payload.{Tells, build_payload-Tells}
use op_rbuilder.Scenarios.{evm, ctx, txs, tx, pooled}
use op_rbuilder.Scenarios.Adding.{given}
use op_rbuilder.Scenarios.Attributes.{attributes, sequenced, attributes-sequenced}
use op_rbuilder.Scenarios.Cutting.{config}

abbrev pub sealer : Sealer evm
sealer = record {
  Bundle = ℕ;
  Trie = Unit;
  Hashed = ℕ;
  default_trie = tt;
  default_hashed = 0;
  bundle_of = λ db. db;
  receipts_root = λ time rs. some (length rs);
  logs_bloom = λ rs. some 0;
  hashed_post_state = λ b. b;
  state_root_with_updates = λ h. some (h, tt);
  withdrawals_root = λ b. some b;
  transactions_root = λ ts. length ts;
  empty_ommer_root_hash = 1;
  empty_requests_hash = 2;
  empty_withdrawals = 3;
  hash_slow = λ h. h.transactions_root + h.state_root;
  encoded_2718 = λ t. t.tx_hash;
  balances = λ b. [];
}

abbrev pub seal_ctx : SealCtx
seal_ctx = record {
  builder = ctx;
  parent_hash = 7;
  parent_number = 4;
  parent_state_root = 8;
  chain_id = 10;
  payload_id = 1;
  beneficiary = 2;
  suggested_fee_recipient = 2;
  prev_randao = 3;
  parent_beacon_block_root = some 4;
  attributes_withdrawals = [];
  attributes_gas_limit = some 8000000;
  no_tx_pool = false;
  env_gas_limit = 2000000;
  gas_limit_config = none;
  jovian_extra_data = some 5;
  holocene_extra_data = some 5;
  is_shanghai_active = true;
  is_ecotone_active = true;
  is_holocene_active = true;
  is_isthmus_active = true;
}

abbrev chain : Chain
chain = record {
  evm = evm;
  sealer = sealer;
  txs = txs;
  seal_ctx = seal_ctx;
  sidecar = record { endpoint = 104 ∷ []; poll_timeout = 100; max_retries = 3 };
}

abbrev job : Job chain
job = record {
  timing = config;
  build_at_interval_end = true;
  now = 999100000000;
  disable_state_root = false;
  max_da_block_size = some 100000;
  transactions = attributes;
  db = 0;
  pre_execution = λ db. some db;
  simulate = λ info db top. ok given;
  limiter = record { inner = none };
  pool = [];
  publishes = true;
  sends = true;
}

-- A pool of two transactions, one of which reverts, and a sidecar that sends one
abbrev trigger : Trigger chain
trigger = record {
  cancelled = λ n. false;
  simulate = λ info db top. ok given;
  pool = pooled (tx 4 6 100000) ∷ pooled (tx 5 7 100000) ∷ [];
  cancelled_early = false;
  cancelled_late = false;
  response = λ db request n. some (record {
    hold = false;
    poll_after_ms = none;
    transactions =
        record { raw = some (some (tx 7 0 100000)); required = true; instance_id = none } ∷ [];
  });
  publishes = true;
  sends = true;
}

abbrev ended : Result FlashblockError (Unit {0}) × Site chain
ended = on_first chain job (trigger ∷ trigger ∷ []) (
    build_fallback chain job
      (add_first_builder_txs chain job (initial chain job sequenced.0 sequenced.1)))

job-ended : build_payload chain job (trigger ∷ trigger ∷ []) ≡ ok ended
unfolding build_payload op_rbuilder.Flashblocks.Blocks.prepare
    op_rbuilder.Flashblocks.Blocks.execute_pre_steps
    op_rbuilder.Flashblocks.Timing.flashblocks_per_block
job-ended =
    rw
      (
        attributes-sequenced, build_payload, op_rbuilder.Flashblocks.Blocks.prepare,
        op_rbuilder.Flashblocks.Blocks.execute_pre_steps,
      )
      refl

build_payload-Tells_example : Tells chain 4 ended
unfolding flashblock_count op_rbuilder.Flashblocks.Timing.calculate_flashblocks_timing
    op_rbuilder.Flashblocks.Timing.target_time op_rbuilder.Flashblocks.Timing.time_until
    op_rbuilder.Flashblocks.Timing.divide
build_payload-Tells_example =
    build_payload-Tells chain 4 job (trigger ∷ trigger ∷ []) ended refl (omega arith) refl job-ended

build_payload-fueled_example : ended.0 ≢ err stuck
build_payload-fueled_example =
    build_payload-fueled chain (omega arith) job (trigger ∷ trigger ∷ []) ended job-ended

abbrev first_parts : Parts evm sealer
first_parts = record {
  receipts_root = 2;
  logs_bloom = 0;
  state_root = 3;
  trie_output = tt;
  hashed_state = 3;
  requests_hash = some 2;
  withdrawals_root = some 3;
  excess_blob_gas = some 0;
  blob_gas_used = some 200;
  extra_data = 5;
  parent_beacon_block_root = 4;
}

-- A block with nothing published yet
abbrev first_info : ExecutionInfo Tx ℕ
first_info = sequenced.0

build_block-Seals_example :
    Seals evm sealer seal_ctx first_info
      (payload_of evm sealer seal_ctx 3 first_info first_parts)
      (flashblock_of evm sealer seal_ctx 3 first_info first_parts)
      (take_slice first_info).1
unfolding build_block parts state_root withdrawals_fields is_in_range blob_fields extra_data
build_block-Seals_example =
    build_block-Seals evm sealer seal_ctx 3 first_info true
      (payload_of evm sealer seal_ctx 3 first_info first_parts)
      (flashblock_of evm sealer seal_ctx 3 first_info first_parts) (take_slice first_info).1 refl
