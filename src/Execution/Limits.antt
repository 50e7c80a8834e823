-- ===== src/Execution/Limits.antt =====
-- What a transaction that `is_tx_over_limits` lets through satisfies, and when it is refused.
use op_rbuilder.Base.{
  ℕ, zero, suc, min, ◌+◌, ◌*◌, ◌≤◌, ◌<◌, ◌≡◌, ◌↔◌, refl, Option, none, some, arith, unwrap_or,
  u64_mod, u64_max, saturating_add_u64, add_u64, ok,
}
use op_rbuilder.Execution.{
  ExecutionInfo, BlockLimits, is_tx_over_limits, check_gas_limit, check_da_footprint,
}

-- A limit that is absent admits everything.
abbrev pub WithinLimit : ℕ → Option ℕ → Type 0
WithinLimit n none = Unit {0}
WithinLimit n (some limit) = n ≤ limit

abbrev pub WithinFootprint : ℕ → Option ℕ → ℕ → Type 0
WithinFootprint total none limit = Unit {0}
WithinFootprint total (some scalar) limit = total * scalar ≤ limit

pub WithinLimit-of :
    (n : ℕ) (o : Option ℕ) → ((limit : ℕ) → o ≡ some limit → n ≤ limit) → WithinLimit n o
WithinLimit-of n none h = tt
WithinLimit-of n (some limit) h = h limit refl

pub WithinFootprint-of :
    (total : ℕ) (scalar : Option ℕ) (limit : ℕ)
    → ((k : ℕ) → scalar ≡ some k → total * k ≤ limit)
    → WithinFootprint total scalar limit
WithinFootprint-of total none limit h = tt
WithinFootprint-of total (some k) limit h = h k refl

-- The mathematical statement that the transaction fits, with no machine word in it.
pub record Fits {Tx Receipt : Type 0} (info : ExecutionInfo Tx Receipt) (size gas : ℕ)
    (scalar : Option ℕ) (limits : BlockLimits) : Type 0 where
  pub tx_da : WithinLimit size limits.tx_data_limit
  pub block_da : WithinLimit (info.cumulative_da_bytes_used + size) limits.block_data_limit
  pub footprint :
      WithinFootprint
        (info.cumulative_da_bytes_used + size)
        scalar
        (unwrap_or limits.block_da_footprint_limit limits.block_gas_limit)
  pub block_gas : info.cumulative_gas_used + gas ≤ limits.block_gas_limit

-- The machine words hold the sums: no counter reaches 2^64 with this transaction, and the
-- footprint limit is not the largest word, at which the saturating product cannot exceed it.
pub record InRange {Tx Receipt : Type 0} (info : ExecutionInfo Tx Receipt) (size gas : ℕ)
    (limits : BlockLimits) : Type 0 where
  pub da_range : info.cumulative_da_bytes_used + size < u64_mod
  pub gas_range : info.cumulative_gas_used + gas < u64_mod
  pub footprint_range : unwrap_or limits.block_da_footprint_limit limits.block_gas_limit < u64_max

saturating_add-exact : (a b : ℕ) → a + b < u64_mod → saturating_add_u64 a b ≡ a + b
saturating_add-exact a b h = omega arith

check_gas_limit_iff :
    (used gas limit : ℕ)
    → used + gas < u64_mod
    → (check_gas_limit used gas limit ≡ ok tt) ↔ (used + gas ≤ limit)
unfolding check_gas_limit
check_gas_limit_iff used gas limit h = (λ e. ground arith, λ e. ground arith)

check_da_footprint_iff :
    (total size : ℕ) (scalar : Option ℕ) (limit : ℕ)
    → limit < u64_max
    → (check_da_footprint total size scalar limit ≡ ok tt) ↔ WithinFootprint total scalar limit
unfolding check_da_footprint
check_da_footprint_iff total size none limit h = (λ e. tt, λ e. refl)
check_da_footprint_iff total size (some k) limit h = (λ e. ground arith, λ e. ground arith)

module _ {Tx Receipt : Type 0} (info : ExecutionInfo Tx Receipt) (size gas : ℕ) (scalar : Option ℕ)
    (limits : BlockLimits) where
  footprint_passed :
      InRange info size gas limits
      → is_tx_over_limits info size gas scalar limits ≡ ok tt
      → check_da_footprint
          (info.cumulative_da_bytes_used + size)
          size
          scalar
          (unwrap_or limits.block_da_footprint_limit limits.block_gas_limit)
        ≡ ok tt
  unfolding is_tx_over_limits
  footprint_passed r e =
      rw (← saturating_add-exact info.cumulative_da_bytes_used size r.da_range) (ground arith)

  is_tx_over_limits-Fits :
      InRange info size gas limits
      → is_tx_over_limits info size gas scalar limits ≡ ok tt
      → Fits info size gas scalar limits
  unfolding is_tx_over_limits
  is_tx_over_limits-Fits r e = record {
    tx_da = ground arith;
    block_da = ground arith;
    footprint = (check_da_footprint_iff _ size scalar _ r.footprint_range).0 (footprint_passed r e);
    block_gas =
        ground (arith, check_gas_limit_iff info.cumulative_gas_used gas limits.block_gas_limit);
  }

  Fits-is_tx_over_limits :
      InRange info size gas limits
      → Fits info size gas scalar limits
      → is_tx_over_limits info size gas scalar limits ≡ ok tt
  unfolding is_tx_over_limits
  Fits-is_tx_over_limits r e = rw (saturating_add-exact _ size r.da_range) (
      ground (
        arith,
        check_gas_limit_iff info.cumulative_gas_used gas limits.block_gas_limit,
        check_da_footprint_iff (info.cumulative_da_bytes_used + size) size scalar
            (unwrap_or limits.block_da_footprint_limit limits.block_gas_limit),
      ))

  -- Where no counter reaches 2^64 with the transaction and the footprint limit is not the largest
  -- word, is_tx_over_limits passes a transaction exactly when its DA size is within the limit on
  -- one transaction, the block's DA bytes, DA footprint and gas with it are within the block's
  -- limits, over the numbers themselves.
  pub is_tx_over_limits_iff :
      InRange info size gas limits
      → (is_tx_over_limits info size gas scalar limits ≡ ok tt) ↔ Fits info size gas scalar limits
  is_tx_over_limits_iff r = (is_tx_over_limits-Fits r, Fits-is_tx_over_limits r)

-- A product that stays below the largest word is not of a saturated sum.
saturated_mul-le : (t k limit : ℕ) → limit < u64_max → min t u64_max * k ≤ limit → t * k ≤ limit
saturated_mul-le t zero limit h e = omega arith
saturated_mul-le t (suc k) limit h e =
    let small : t ≤ u64_max = grind arith in
    let same : min t u64_max ≡ t = omega arith in rw same at e

footprint-le :
    (total size limit : ℕ) (scalar : Option ℕ) {k : ℕ}
    → scalar ≡ some k
    → check_da_footprint total size scalar limit ≡ ok tt
    → limit < u64_max
    → total * k ≤ limit
unfolding check_da_footprint
footprint-le total size limit none e c h = cc
footprint-le total size limit (some j) {k} e c h = ground arith

le-mul : (m n k limit : ℕ) → m ≤ n → n * k ≤ limit → m * k ≤ limit
le-mul m n k limit le h = grind arith

-- A counter that wraps has no larger footprint than its sum.
pub wrapped-footprint : (a b k limit : ℕ) → (a + b) * k ≤ limit → add_u64 a b * k ≤ limit
wrapped-footprint a b k limit h = le-mul (add_u64 a b) (a + b) k limit (omega arith) h

-- What passing the tests says of the words themselves, with no assumption on their sums.
module _ {Tx Receipt : Type 0} (info : ExecutionInfo Tx Receipt) (size gas : ℕ) (scalar : Option ℕ)
    (limits : BlockLimits) (passed : is_tx_over_limits info size gas scalar limits ≡ ok tt) where
  pub passed-gas : add_u64 info.cumulative_gas_used gas ≤ limits.block_gas_limit
  unfolding is_tx_over_limits check_gas_limit check_da_footprint
  passed-gas = ground arith

  pub passed-block_data :
      {limit : ℕ}
      → limits.block_data_limit ≡ some limit
      → limit < u64_max
      → info.cumulative_da_bytes_used + size ≤ limit
  unfolding is_tx_over_limits
  passed-block_data e h = ground arith

  pub passed-footprint :
      {k : ℕ}
      → scalar ≡ some k
      → unwrap_or limits.block_da_footprint_limit limits.block_gas_limit < u64_max
      → (info.cumulative_da_bytes_used + size) * k
        ≤ unwrap_or limits.block_da_footprint_limit limits.block_gas_limit
  unfolding is_tx_over_limits
  passed-footprint {k} e h =
      let checked : check_da_footprint (saturating_add_u64 info.cumulative_da_bytes_used size) size
            scalar (unwrap_or limits.block_da_footprint_limit limits.block_gas_limit)
          ≡ ok tt =
        ground arith in
      saturated_mul-le (info.cumulative_da_bytes_used + size) k _ h
        (footprint-le _ size _ scalar e checked h)
