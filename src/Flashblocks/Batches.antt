-- ===== src/Flashblocks/Batches.antt =====
-- What each flashblock may use of the block's gas and data: `FlashblocksExtraCtx`, its start in
-- `build_payload` and its change in `build_next_flashblock`.
use op_rbuilder.Base.{
  ℕ, ◌/◌, Bool, Option, none, some, List, [], ◌∷◌, if◌then◌else◌, ltb, ◌==◌, add_u64,
  saturating_sub, saturating_mul_u64,
}
use op_rbuilder.BuilderTxs.{BuilderTransactionCtx}

pub record FlashblocksExtraCtx : Type 0 where
  pub flashblock_index : ℕ
  pub target_flashblock_count : ℕ
  pub target_gas_for_batch : ℕ
  pub target_da_for_batch : Option ℕ
  pub target_da_footprint_for_batch : Option ℕ
  pub gas_per_batch : ℕ
  pub da_per_batch : Option ℕ
  pub da_footprint_per_batch : Option ℕ
  pub disable_state_root : Bool

-- The targets of one flashblock
pub record Targets : Type 0 where
  pub gas : ℕ
  pub da : Option ℕ
  pub da_footprint : Option ℕ

-- `FlashblocksExtraCtx::next`
unfoldable pub next : FlashblocksExtraCtx → Targets → FlashblocksExtraCtx
next ctx targets = record ctx {
  flashblock_index = add_u64 ctx.flashblock_index 1;
  target_gas_for_batch = targets.gas;
  target_da_for_batch = targets.da;
  target_da_footprint_for_batch = targets.da_footprint;
}

abbrev pub map_option : {A B : Type 0} → (A → B) → Option A → Option B
map_option f none = none
map_option f (some a) = some (f a)

-- The first flashblock's context; none is a division by zero.
unfoldable pub first_ctx : ℕ → Option ℕ → Option ℕ → Bool → ℕ → Option FlashblocksExtraCtx
first_ctx block_gas_limit max_da_block_size da_footprint_scalar disable_state_root per_block =
    if per_block == 0
    then none
    else let gas_per_batch = block_gas_limit / per_block in
      let da_per_batch = map_option (λ da_limit. da_limit / per_block) max_da_block_size in
      let da_footprint_per_batch =
        map_option (λ _. block_gas_limit / per_block) da_footprint_scalar in
      some (record {
        flashblock_index = 1;
        target_flashblock_count = per_block;
        target_gas_for_batch = gas_per_batch;
        target_da_for_batch = da_per_batch;
        gas_per_batch = gas_per_batch;
        da_per_batch = da_per_batch;
        da_footprint_per_batch = da_footprint_per_batch;
        disable_state_root = disable_state_root;
        target_da_footprint_for_batch = da_footprint_per_batch;
      })

-- The sum over the builder's transactions that are not committed yet
unfoldable pub uncommitted : (BuilderTransactionCtx → ℕ) → ℕ → List BuilderTransactionCtx → ℕ
uncommitted f acc [] = acc
uncommitted f acc (tx ∷ txs) =
    uncommitted f (if tx.is_top_of_block then acc else add_u64 acc (f tx)) txs

-- The targets less what is kept for the builder's transactions
unfoldable pub reserve : FlashblocksExtraCtx → List BuilderTransactionCtx → Option ℕ → Targets
reserve ctx builder_txs da_footprint_scalar =
    let builder_tx_gas = uncommitted (λ tx. tx.gas_used) 0 builder_txs in
    let builder_tx_da_size = uncommitted (λ tx. tx.da_size) 0 builder_txs in
    record {
      gas = saturating_sub ctx.target_gas_for_batch builder_tx_gas;
      da =
          map_option (λ da_limit. saturating_sub da_limit builder_tx_da_size)
            ctx.target_da_for_batch;
      da_footprint = elim da_footprint_scalar [
        | none ↦ ctx.target_da_footprint_for_batch
        | some scalar ↦
            map_option
              (λ footprint. saturating_sub footprint (saturating_mul_u64 builder_tx_da_size scalar))
              ctx.target_da_footprint_for_batch
      ];
    }

-- `*target += per_batch`, where both are there
unfoldable pub grow : Option ℕ → Option ℕ → Option ℕ
grow none per_batch = none
grow (some target) none = some target
grow (some target) (some per_batch) = some (add_u64 target per_batch)

-- The context of the next flashblock, from the targets that the last was built with
unfoldable pub next_extra_ctx : FlashblocksExtraCtx → Targets → FlashblocksExtraCtx
unfolding next grow
next_extra_ctx ctx targets = next ctx (record {
  gas = add_u64 ctx.target_gas_for_batch ctx.gas_per_batch;
  da = grow targets.da ctx.da_per_batch;
  da_footprint = grow targets.da_footprint ctx.da_footprint_per_batch;
})

-- `build_payload` stops when the index is above the count.
unfoldable pub is_finished : FlashblocksExtraCtx → Bool
is_finished ctx = ltb ctx.target_flashblock_count ctx.flashblock_index

-- The contexts of the flashblocks of a block, each with the builder's transactions that
-- `add_builder_txs` returned for it
unfoldable pub ctx_after :
    FlashblocksExtraCtx → Option ℕ → List (List BuilderTransactionCtx) → FlashblocksExtraCtx
unfolding reserve next_extra_ctx
ctx_after ctx scalar [] = ctx
ctx_after ctx scalar (txs ∷ rest) =
    ctx_after (next_extra_ctx ctx (reserve ctx txs scalar)) scalar rest
