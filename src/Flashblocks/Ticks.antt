-- ===== src/Flashblocks/Ticks.antt =====
-- The timer that triggers a flashblock at each interval's end, and its deadline.
use native.Mathlib.Nat.{suc-mul, mul-le-mul_right, mod-eq_of_lt}
use op_rbuilder.Base.{
  ℕ, zero, suc, ◌+◌, ◌-◌, ◌*◌, ◌%◌, ◌<◌, ◌≤◌, ◌≡◌, ap, false, some, u64_mod, arith,
}
use op_rbuilder.Flashblocks.Timing.{
  Duration, duration_max, as_millis, from_millis, TimingConfig, FlashblocksTiming, time_until,
  target_time, send_offset, calculate_flashblocks_timing,
}
use op_rbuilder.Flashblocks.Tiling.{
  TimingConfigIsValid, remaining_of, remaining_of-bounds, divide-Tiles,
}

-- `tokio::time::interval_at` ticks at the offset, and then after each interval.
abbrev pub tick : TimingConfig → FlashblocksTiming → ℕ → Duration
tick config timing k = timing.first_flashblock_offset + k * config.interval

-- Of the ticks, all but the last of the flashblocks come before the deadline, and the last does
-- not: the deadline itself triggers the last flashblock.
pub record Triggers (config : TimingConfig) (timing : FlashblocksTiming) : Type 0 where
  pub some_flashblock : 0 < timing.flashblocks_per_block
  pub last : timing.flashblocks_deadline ≤ tick config timing (timing.flashblocks_per_block - 1)
  pub earlier :
      (k : ℕ)
      → k + 1 < timing.flashblocks_per_block
      → tick config timing k < timing.flashblocks_deadline

-- A sent time stays ahead by what it was ahead.
abbrev pub later : TimingConfig → Duration → Duration
later config time = time + from_millis config.send_offset_ms.unsigned_abs

send_offset-later :
    (config : TimingConfig) (time : Duration)
    → config.send_offset_ms.is_negative ≡ false
    → later config time ≤ duration_max
    → send_offset config time ≡ later config time
unfolding send_offset
send_offset-later config time up fits = ground arith

scale : (c i : ℕ) → c * (i * 1000000) ≡ c * i * 1000000
scale zero i = omega arith
scale (suc c) i = omega (arith, suc-mul c (i * 1000000), suc-mul c i, scale c i)

last_tick :
    (c i first remaining buffer delta : ℕ)
    → (c - 1) * i + first ≡ remaining
    → from_millis (remaining - buffer) + delta ≤ from_millis first + delta + (c - 1) * from_millis i
last_tick c i first remaining buffer delta e = omega (arith, scale (c - 1) i, e)

earlier_tick :
    (c i first remaining buffer delta k : ℕ)
    → (c - 1) * i + first ≡ remaining
    → buffer < i
    → k + 1 < c
    → from_millis first + delta + k * from_millis i < from_millis (remaining - buffer) + delta
earlier_tick c i first remaining buffer delta k e small lt =
    let below : suc k * i ≤ (c - 1) * i = mul-le-mul_right i (omega arith) in
    omega (arith, scale k i, below, suc-mul k i, e)

-- With the dynamic number of flashblocks, milliseconds of the interval and of the block time that
-- are above zero and fit a word, the block's end a millisecond or more ahead, an interval of whole
-- milliseconds that is longer than the end's buffer, and an offset that sends later and fits,
-- calculate_flashblocks_timing returns a count, an offset and a deadline with which the timer
-- triggers all flashblocks but the last before the deadline, and the deadline comes no later than
-- the last tick.
pub calculate_flashblocks_timing-Triggers :
    (config : TimingConfig) (timestamp now target : ℕ) (until : Duration)
    → TimingConfigIsValid config
    → config.interval ≡ from_millis (as_millis config.interval)
    → config.end_buffer_ms < as_millis config.interval
    → config.send_offset_ms.is_negative ≡ false
    → later config (config.interval + config.block_time) ≤ duration_max
    → config.fixed ≡ false
    → target_time timestamp ≡ some target
    → time_until target now ≡ some until
    → (timing : FlashblocksTiming) × (calculate_flashblocks_timing config timestamp now
        ≡ some timing)
      × Triggers config timing
unfolding calculate_flashblocks_timing remaining_of
calculate_flashblocks_timing-Triggers config timestamp now target until h whole buffer up fits
      dynamic set ahead =
    let (some_left, left_fits) = remaining_of-bounds config _ now h ahead in
    let (count, (offset, same, tiles)) =
      divide-Tiles (remaining_of config until) (as_millis config.interval) h.some_interval
        some_left in
    let left : remaining_of config until % u64_mod ≡ remaining_of config until =
      mod-eq_of_lt left_fits in
    let interval : as_millis config.interval % u64_mod ≡ as_millis config.interval =
      mod-eq_of_lt h.interval_fits in
    let deadline : Duration = from_millis (remaining_of config until - config.end_buffer_ms) in
    let small : later config deadline ≤ duration_max = omega (arith, fits) in
    let small_offset : later config offset ≤ duration_max =
      omega (arith, fits, tiles.offset_eq, tiles.not_longer) in
    let sent = send_offset-later config deadline up small in
    let sent_offset = send_offset-later config offset up small_offset in
    (
      record {
        flashblocks_per_block = count;
        first_flashblock_offset = later config offset;
        flashblocks_deadline = later config deadline;
      },
      ground arith,
      record {
        some_flashblock = tiles.at_least_one;
        last = omega (
          arith,
          ap (λ (d : Duration). (count - 1) * d) whole,
          tiles.offset_eq,
          last_tick count (as_millis config.interval) tiles.first (remaining_of config until)
              config.end_buffer_ms (from_millis config.send_offset_ms.unsigned_abs) tiles.total,
        );
        earlier = λ k lt. omega (
          arith,
          ap (λ (d : Duration). k * d) whole,
          tiles.offset_eq,
          earlier_tick count (as_millis config.interval) tiles.first (remaining_of config until)
              config.end_buffer_ms (from_millis config.send_offset_ms.unsigned_abs) k tiles.total
              buffer lt,
        );
      },
    )
