-- ===== src/Flashblocks/Targets.antt =====
-- The targets over the flashblocks of a block.
use mathlib.Core.Path.{subst}
use native.Mathlib.Nat.{suc-mul, div-le_self, mul-le-mul_right, mod-add-div'}
use op_rbuilder.Base.{
  ℕ, suc, ◌+◌, ◌-◌, ◌*◌, ◌/◌, ◌≤◌, ◌<◌, ◌≡◌, refl, Bool, true, Option, none, some, List, [], ◌∷◌,
  u64_mod, arith, length, ◌↔◌,
}
use op_rbuilder.BuilderTxs.{BuilderTransactionCtx}
use op_rbuilder.Flashblocks.Batches.{
  FlashblocksExtraCtx, next, map_option, first_ctx, reserve, grow, next_extra_ctx, is_finished,
  ctx_after,
}

-- A target for `k` flashblocks of at most `k` shares
pub data Share (k : ℕ) : Option ℕ → Option ℕ → Type 0 where
  no_limit : Share k none none
  limited : {target per_batch : ℕ} → target ≤ k * per_batch → Share k (some target) (some per_batch)

-- The context of flashblock number `k` of `count`
pub record Planned (gas count k : ℕ) (da : Option ℕ) (ctx : FlashblocksExtraCtx) : Type 0 where
  pub index : ctx.flashblock_index ≡ k
  pub target_count : ctx.target_flashblock_count ≡ count
  pub per_batch : ctx.gas_per_batch ≡ gas
  pub da_per_batch : ctx.da_per_batch ≡ da
  pub target_gas : ctx.target_gas_for_batch ≡ k * gas
  pub target_da : Share k ctx.target_da_for_batch da

Share-grow :
    {k : ℕ} {target da : Option ℕ} (kept : ℕ)
    → Share k target da
    → Share (suc k) (grow (map_option (λ limit. limit - kept) target) da) da
unfolding grow
Share-grow kept no_limit = no_limit
Share-grow {k} kept (limited {target} {per_batch} h) =
    limited (omega (arith, suc-mul k per_batch, h))

next_extra_ctx-Planned :
    {gas count k : ℕ} {da : Option ℕ} (ctx : FlashblocksExtraCtx) (txs : List BuilderTransactionCtx)
    (scalar : Option ℕ)
    → suc k < u64_mod
    → suc k * gas < u64_mod
    → Planned gas count k da ctx
    → Planned gas count (suc k) da (next_extra_ctx ctx (reserve ctx txs scalar))
unfolding next_extra_ctx next reserve
next_extra_ctx-Planned {gas} {k} {da} ctx txs scalar index_fits gas_fits h = record {
  index = omega (arith, h.index, index_fits);
  target_count = h.target_count;
  per_batch = h.per_batch;
  da_per_batch = h.da_per_batch;
  target_gas = omega (arith, h.target_gas, h.per_batch, suc-mul k gas, gas_fits);
  target_da = rw h.da_per_batch (Share-grow _ h.target_da);
}

ctx_after-Planned :
    {gas count : ℕ} {da : Option ℕ} (k n : ℕ) (ctx : FlashblocksExtraCtx) (scalar : Option ℕ)
    (batches : List (List BuilderTransactionCtx))
    → k + length batches ≡ n
    → n < u64_mod
    → n * gas < u64_mod
    → Planned gas count k da ctx
    → Planned gas count n da (ctx_after ctx scalar batches)
unfolding ctx_after
ctx_after-Planned {gas} {count} {da} k n ctx scalar [] e i g h =
    let same : k ≡ n = omega (arith, e) in subst (λ (m : ℕ). Planned gas count m da ctx) same h
ctx_after-Planned {gas} k n ctx scalar (txs ∷ rest) e i g h =
    let below : suc k * gas ≤ n * gas = mul-le-mul_right gas (omega (arith, e)) in
    ctx_after-Planned (suc k) n _ scalar rest (omega (arith, e)) i g
      (next_extra_ctx-Planned ctx txs scalar (omega (arith, e, i)) (omega (arith, below, g)) h)

share_of_all : (limit count : ℕ) → count * (limit / count) ≤ limit
share_of_all limit count = grind (arith, mod-add-div' limit count)

double_share : (n limit count : ℕ) → n ≤ suc count → n * (limit / count) ≤ limit + limit
double_share n limit count h =
    let below : n * (limit / count) ≤ suc count * (limit / count) = mul-le-mul_right _ h in
    let share : limit / count ≤ limit = div-le_self limit count in
    omega (arith, below, share, suc-mul count (limit / count), share_of_all limit count)

Share-first : (da : Option ℕ) → Share 1 da da
Share-first none = no_limit
Share-first (some m) = limited (omega arith)

-- The context of flashblock number `k` of a block with these limits: its gas target is `k` shares
-- of the block's gas limit, its DA target is at most `k` shares of the block's DA limit, and the
-- loop stops at it if it is one too many.
pub record OnPlan (limit per_block k : ℕ) (max_da : Option ℕ) (ctx : FlashblocksExtraCtx)
    : Type 0 where
  pub index : ctx.flashblock_index ≡ k
  pub finished : (is_finished ctx ≡ true) ↔ (per_block < k)
  pub target_gas : ctx.target_gas_for_batch ≡ k * (limit / per_block)
  pub target_da : Share k ctx.target_da_for_batch (map_option (λ m. m / per_block) max_da)

Planned-OnPlan :
    {limit per_block k : ℕ} {max_da : Option ℕ} {ctx : FlashblocksExtraCtx}
    → Planned (limit / per_block) per_block k (map_option (λ m. m / per_block) max_da) ctx
    → OnPlan limit per_block k max_da ctx
unfolding is_finished
Planned-OnPlan h = record {
  index = h.index;
  finished = (
    λ over. ground (arith, h.index, h.target_count, over),
    λ over. ground (arith, h.index, h.target_count, over),
  );
  target_gas = h.target_gas;
  target_da = h.target_da;
}

-- With a block gas limit of at most half a word and a count of flashblocks above zero and below
-- the largest word, the block starts, and after at most so many flashblocks, whatever was kept in
-- each for the builder's transactions, its context is on plan: each flashblock raises the number
-- by one and the gas target by one share, the DA target is at most the shares so far, and the loop
-- stops after the whole count.
pub ctx_after-OnPlan :
    (limit per_block : ℕ) (max_da scalar : Option ℕ) (off : Bool)
    (batches : List (List BuilderTransactionCtx))
    → 0 < per_block
    → per_block + 1 < u64_mod
    → limit + limit < u64_mod
    → length batches ≤ per_block
    → (ctx : FlashblocksExtraCtx) × (first_ctx limit max_da scalar off per_block ≡ some ctx)
      × OnPlan limit per_block (suc (length batches)) max_da (ctx_after ctx scalar batches)
unfolding first_ctx
ctx_after-OnPlan limit per_block max_da scalar off batches some_block fits small short = (
  record {
    flashblock_index = 1;
    target_flashblock_count = per_block;
    target_gas_for_batch = limit / per_block;
    target_da_for_batch = map_option (λ m. m / per_block) max_da;
    target_da_footprint_for_batch = map_option (λ _. limit / per_block) scalar;
    gas_per_batch = limit / per_block;
    da_per_batch = map_option (λ m. m / per_block) max_da;
    da_footprint_per_batch = map_option (λ _. limit / per_block) scalar;
    disable_state_root = off;
  },
  ground arith,
  Planned-OnPlan (
      ctx_after-Planned 1 (suc (length batches)) _ scalar batches (omega arith)
        (omega (arith, fits, short))
        (omega (
          arith,
          double_share (suc (length batches)) limit per_block (omega (arith, short)),
          small,
        ))
        (record {
          index = refl;
          target_count = refl;
          per_batch = refl;
          da_per_batch = refl;
          target_gas = omega arith;
          target_da = Share-first _;
        })),
)

-- The gas target of a flashblock on plan, up to the last of the block, is within the block's limit.
pub OnPlan-within :
    (limit per_block k : ℕ) (max_da : Option ℕ) (ctx : FlashblocksExtraCtx)
    → OnPlan limit per_block k max_da ctx
    → k ≤ per_block
    → ctx.target_gas_for_batch ≤ limit
OnPlan-within limit per_block k max_da ctx h le =
    let below : k * (limit / per_block) ≤ per_block * (limit / per_block) = mul-le-mul_right _ le in
    omega (arith, below, h.target_gas, share_of_all limit per_block)
