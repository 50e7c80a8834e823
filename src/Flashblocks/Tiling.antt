-- ===== src/Flashblocks/Tiling.antt =====
-- `calculate_flashblocks` and the time that is left of the block.
use native.Mathlib.Nat.{suc-mul, mod-eq_of_lt, mod-lt, mod-add-div'}
use op_rbuilder.Base.{
  ℕ, zero, suc, refl, ap, inl, inr, Bool-cases, ◌+◌, ◌-◌, ◌*◌, ◌%◌, ◌/◌, ◌<◌, ◌≤◌, ◌≡◌, min, false,
  some, ◌==◌, u64_mod, arith,
}
use op_rbuilder.Flashblocks.Timing.{
  Duration, as_millis, from_millis, TimingConfig, divide, time_until, target_time,
  calculate_flashblocks,
}

-- `count` flashblocks, the first of `offset` and each other of `interval`, take `remaining`; the
-- times but `offset` are in milliseconds.
pub record Tiles (remaining interval count : ℕ) (offset : Duration) : Type 0 where
  pub at_least_one : 0 < count
  pub first : ℕ
  pub offset_eq : offset ≡ from_millis first
  pub not_empty : 0 < first
  pub not_longer : first ≤ interval
  pub total : (count - 1) * interval + first ≡ remaining

-- One flashblock of an interval each, where the division is perfect
exact-total : (q r i d : ℕ) → r + q * i ≡ d → r ≡ 0 → 0 < q → (q - 1) * i + i ≡ d
exact-total zero r i d e z p = absurd (omega arith)
exact-total (suc q) r i d e z p =
    let less : suc q - 1 ≡ q = omega arith in
    let more : suc q * i ≡ q * i + i = suc-mul q i in
    omega (arith, ap (λ n. n * i) less, more, e, z)

rest-total : (q r i d : ℕ) → r + q * i ≡ d → (q + 1 - 1) * i + r ≡ d
rest-total q r i d e =
    let less : q + 1 - 1 ≡ q = omega arith in omega (arith, ap (λ n. n * i) less, e)

whole_count : (q r i : ℕ) → 0 < r + q * i → r ≡ 0 → 0 < q
whole_count zero r i p z = absurd (omega arith)
whole_count (suc q) r i p z = omega arith

pub divide-Tiles :
    (remaining interval : ℕ)
    → 0 < interval
    → 0 < remaining
    → (count : ℕ) × ((offset : Duration) × (divide remaining interval ≡ some (count, offset))
        × Tiles remaining interval count offset)
unfolding divide
divide-Tiles remaining interval i r =
    let total = mod-add-div' remaining interval in
    elim (Bool-cases (remaining % interval == 0)) [
      | inl perfect ↦
          let no_rest : remaining % interval ≡ 0 = ground arith in
          let some_count =
            whole_count (remaining / interval) (remaining % interval) interval (rw total r)
              no_rest in
          (
            remaining / interval,
            (
              from_millis interval,
              ground arith,
              record {
                at_least_one = some_count;
                first = interval;
                offset_eq = refl;
                not_empty = i;
                not_longer = omega arith;
                total = exact-total _ _ _ _ total no_rest some_count;
              },
            ),
          )
      | inr rest ↦ (
        remaining / interval + 1,
        (
          from_millis (remaining % interval),
          ground arith,
          record {
            at_least_one = omega arith;
            first = remaining % interval;
            offset_eq = refl;
            not_empty = ground arith;
            not_longer = omega (arith, mod-lt remaining i);
            total = rest-total _ _ _ _ total;
          },
        ),
      )
    ]

-- The block time and the interval are a millisecond at least, and their milliseconds fit a word.
pub record TimingConfigIsValid (config : TimingConfig) : Type 0 where
  pub some_interval : 0 < as_millis config.interval
  pub some_time : 0 < as_millis config.block_time
  pub interval_fits : as_millis config.interval < u64_mod
  pub time_fits : as_millis config.block_time < u64_mod

-- The milliseconds that are left of a block time, of which `until` is the time to its end
unfoldable pub remaining_of : TimingConfig → Duration → ℕ
remaining_of config until = as_millis (min until config.block_time)

time_until-positive :
    (target now : ℕ) {until : Duration} → time_until target now ≡ some until → 0 < as_millis until
unfolding time_until
time_until-positive target now e = ground arith

pub remaining_of-bounds :
    (config : TimingConfig) (target now : ℕ) {until : Duration}
    → TimingConfigIsValid config
    → time_until target now ≡ some until
    → (0 < remaining_of config until) × (remaining_of config until < u64_mod)
unfolding remaining_of
remaining_of-bounds config target now h e =
    (omega (arith, time_until-positive target now e, h.some_time), omega (arith, h.time_fits))

-- With the dynamic number of flashblocks, milliseconds of the interval and of the block time that
-- are above zero and fit a word, and the end of the block less the leeway still a millisecond or
-- more ahead, calculate_flashblocks returns at least one flashblock and an offset above zero and
-- at most an interval, which together with an interval for each other flashblock is the time that
-- is left of the block.
pub calculate_flashblocks-Tiles :
    (config : TimingConfig) (timestamp now target : ℕ) (until : Duration)
    → TimingConfigIsValid config
    → config.fixed ≡ false
    → target_time timestamp ≡ some target
    → time_until (target - config.leeway_time) now ≡ some until
    → (count : ℕ) × ((offset : Duration) × (calculate_flashblocks config timestamp now
          ≡ some (count, offset))
        × Tiles (remaining_of config until) (as_millis config.interval) count offset)
unfolding calculate_flashblocks remaining_of
calculate_flashblocks-Tiles config timestamp now target until h dynamic set ahead =
    let (some_left, fits) = remaining_of-bounds config _ now h ahead in
    let (count, (offset, same, tiles)) =
      divide-Tiles (remaining_of config until) (as_millis config.interval) h.some_interval
        some_left in
    let left_fits : remaining_of config until % u64_mod ≡ remaining_of config until =
      mod-eq_of_lt fits in
    let interval_fits : as_millis config.interval % u64_mod ≡ as_millis config.interval =
      mod-eq_of_lt h.interval_fits in
    (count, (offset, ground arith, tiles))
