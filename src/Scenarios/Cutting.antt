-- ===== src/Scenarios/Cutting.antt =====
-- A block of one second cut into flashblocks of a quarter of it, 900 milliseconds before its end.
use op_rbuilder.Base.{ℕ, ◌≡◌, refl, true, false, some, List, [], ◌∷◌, arith}
use op_rbuilder.Transactions.{Tx}
use op_rbuilder.Execution.{ExecutionInfo}
use op_rbuilder.Flashblocks.Timing.{
  TimingConfig, FlashblocksTiming, Duration, as_millis, calculate_flashblocks,
  calculate_flashblocks_timing,
}
use op_rbuilder.Flashblocks.Tiling.{
  TimingConfigIsValid, Tiles, remaining_of, calculate_flashblocks-Tiles,
}
use op_rbuilder.Flashblocks.Ticks.{Triggers, calculate_flashblocks_timing-Triggers}
use op_rbuilder.Flashblocks.Batches.{FlashblocksExtraCtx, first_ctx, ctx_after}
use op_rbuilder.BuilderTxs.{BuilderTransactionCtx}
use op_rbuilder.Flashblocks.Targets.{OnPlan, ctx_after-OnPlan}
use op_rbuilder.Flashblocks.Slices.{
  Slice, take_slice, Adds, ended, published, IsPublished, concat, Published-concat,
}
use op_rbuilder.Scenarios.{tx, empty_info}

abbrev pub config : TimingConfig
config = record {
  block_time = 1000000000;
  interval = 250000000;
  leeway_time = 50000000;
  fixed = false;
  send_offset_ms = record { is_negative = false; unsigned_abs = 10 };
  end_buffer_ms = 20;
}

config-TimingConfigIsValid : TimingConfigIsValid config
config-TimingConfigIsValid = omega arith

calculate_flashblocks-Tiles_example :
    (count : ℕ) × ((offset : Duration) × (calculate_flashblocks config 100 99100000000
        ≡ some (count, offset))
      × Tiles (remaining_of config 850000000) (as_millis config.interval) count offset)
unfolding op_rbuilder.Flashblocks.Timing.target_time op_rbuilder.Flashblocks.Timing.time_until
calculate_flashblocks-Tiles_example =
    calculate_flashblocks-Tiles config 100 99100000000 100000000000 850000000
      config-TimingConfigIsValid refl refl refl

calculate_flashblocks_timing-Triggers_example :
    (timing : FlashblocksTiming) × (calculate_flashblocks_timing config 100 99100000000
      ≡ some timing)
    × Triggers config timing
unfolding op_rbuilder.Flashblocks.Timing.target_time op_rbuilder.Flashblocks.Timing.time_until
calculate_flashblocks_timing-Triggers_example =
    calculate_flashblocks_timing-Triggers config 100 99100000000 100000000000 900000000
      config-TimingConfigIsValid refl (omega arith) refl (omega arith) refl refl refl

-- One transaction of the builder in each flashblock
abbrev builder_txs : List BuilderTransactionCtx
builder_txs =
    record { gas_used = 22000; da_size = 100; signed_tx = tx 8 0 22000; is_top_of_block = false }
    ∷ []

ctx_after-OnPlan_example :
    (ctx : FlashblocksExtraCtx) × (first_ctx 30000000 (some 400000) (some 400) true 4 ≡ some ctx)
    × OnPlan 30000000 4 3 (some 400000) (ctx_after ctx (some 400) (builder_txs ∷ builder_txs ∷ []))
ctx_after-OnPlan_example =
    ctx_after-OnPlan 30000000 4 (some 400000) (some 400) true (builder_txs ∷ builder_txs ∷ [])
      (omega arith) (omega arith) (omega arith) (omega arith)

-- A transaction is added, and published.
abbrev slice : Slice ℕ
slice = record { new_transactions = tx 4 6 100000 ∷ []; new_receipts = 100000 ∷ [] }

abbrev grown : ExecutionInfo Tx ℕ
grown = record empty_info { executed_transactions = tx 4 6 100000 ∷ []; receipts = 100000 ∷ [] }

grown-Adds : Adds empty_info slice grown
grown-Adds = record { same_extra = refl; transactions = refl; receipts = refl; as_many = refl }

empty-IsPublished : IsPublished empty_info
empty-IsPublished = record { all_transactions = refl; all_receipts = refl }

Published-concat_example :
    (grown.executed_transactions ≡ concat (λ s. s.new_transactions) ((take_slice grown).0 ∷ []))
    × (grown.receipts ≡ concat (λ s. s.new_receipts) ((take_slice grown).0 ∷ []))
    × IsPublished (take_slice grown).1
unfolding take_slice
Published-concat_example =
    Published-concat empty_info ((take_slice grown).0 ∷ []) (take_slice grown).1 empty-IsPublished
      (published grown-Adds ended)
