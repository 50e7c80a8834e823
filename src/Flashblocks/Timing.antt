-- ===== src/Flashblocks/Timing.antt =====
-- `calculate_flashblocks` and `calculate_flashblocks_timing`. A value of none is a panic: a
-- division by zero, a difference of durations below zero, or a time that does not fit.
use op_rbuilder.Base.{
  ℕ, ◌+◌, ◌-◌, ◌*◌, ◌%◌, ◌/◌, min, Bool, Option, none, some, if◌then◌else◌, ltb, ◌==◌, u64_mod,
}

-- What follows a panic does not run.
infixl 5 ◌>>=◌
abbrev pub ◌>>=◌ : {A B : Type 0} → Option A → (A → Option B) → Option B
none >>= f = none
some a >>= f = f a

-- A `Duration`, in nanoseconds
abbrev pub Duration : Type 0
Duration = ℕ

-- `Duration::MAX`
abbrev pub duration_max : Duration
duration_max = 18446744073709551615999999999

abbrev pub as_millis : Duration → ℕ
as_millis d = d / 1000000

abbrev pub from_millis : ℕ → Duration
from_millis ms = ms * 1000000

abbrev pub saturating_add : Duration → Duration → Duration
saturating_add a b = min (a + b) duration_max

-- The sign and the size of `send_offset_ms`
pub record Offset : Type 0 where
  pub is_negative : Bool
  pub unsigned_abs : ℕ

-- What the calculations read of `BuilderConfig<FlashblocksConfig>`
pub record TimingConfig : Type 0 where
  pub block_time : Duration
  pub interval : Duration
  pub leeway_time : Duration
  pub fixed : Bool
  pub send_offset_ms : Offset
  pub end_buffer_ms : ℕ

pub record FlashblocksTiming : Type 0 where
  pub flashblocks_per_block : ℕ
  pub first_flashblock_offset : Duration
  pub flashblocks_deadline : Duration

-- `FlashBlocksConfigExt::flashblocks_per_block`
unfoldable pub flashblocks_per_block : TimingConfig → Option ℕ
flashblocks_per_block config =
    if as_millis config.block_time == 0
    then some 0
    else if as_millis config.interval == 0
    then none
    else some (as_millis config.block_time / as_millis config.interval % u64_mod)

-- `UNIX_EPOCH + Duration::from_secs(timestamp)`, in nanoseconds, of which the seconds are signed
unfoldable pub target_time : ℕ → Option ℕ
target_time timestamp =
    if ltb timestamp 9223372036854775808 then some (timestamp * 1000000000) else none

-- `target_time.duration_since(now).ok()`, if that is a millisecond at least
unfoldable pub time_until : ℕ → ℕ → Option Duration
time_until target now =
    if ltb target now
    then none
    else if ltb 0 (as_millis (target - now))
    then some (target - now)
    else none

-- The number of flashblocks in the time that is left, and the time to the end of the first; both
-- arguments are in milliseconds.
unfoldable pub divide : ℕ → ℕ → Option (ℕ × Duration)
divide remaining interval =
    if interval == 0
    then none
    else if remaining % interval == 0
    then some (remaining / interval, from_millis interval)
    else some (remaining / interval + 1, from_millis (remaining % interval))

-- `OpPayloadBuilder::calculate_flashblocks`, with `now` the system's time since the epoch
unfoldable pub calculate_flashblocks : TimingConfig → ℕ → ℕ → Option (ℕ × Duration)
calculate_flashblocks config timestamp now =
    if config.fixed
    then (do
      per_block ← flashblocks_per_block config
      if ltb config.interval config.leeway_time
          then none
          else some (per_block, config.interval - config.leeway_time))
    else do
      target ← target_time timestamp
      elim (time_until (target - config.leeway_time) now) [
        | none ↦ do per_block ← flashblocks_per_block config; some (per_block, config.interval)
        | some time_drift ↦
            divide (as_millis (min time_drift config.block_time) % u64_mod)
              (as_millis config.interval % u64_mod)
      ]

-- `block_time.saturating_sub(Duration::from_millis(end_buffer_ms))`
unfoldable pub deadline_of : TimingConfig → Duration → Duration
deadline_of config time = time - from_millis config.end_buffer_ms

-- The offset and the deadline, moved by `send_offset_ms`
unfoldable pub send_offset : TimingConfig → Duration → Duration
send_offset config time =
    if config.send_offset_ms.is_negative
    then time - from_millis config.send_offset_ms.unsigned_abs
    else saturating_add time (from_millis config.send_offset_ms.unsigned_abs)

-- `OpPayloadBuilder::calculate_flashblocks_timing`; where the offset is 0 both of its branches
-- leave the interval as it is.
unfoldable pub calculate_flashblocks_timing : TimingConfig → ℕ → ℕ → Option FlashblocksTiming
unfolding deadline_of send_offset
calculate_flashblocks_timing config timestamp now =
    if config.fixed
    then (do
      per_block ← flashblocks_per_block config
      some (record {
        flashblocks_per_block = per_block;
        first_flashblock_offset = send_offset config config.interval;
        flashblocks_deadline = deadline_of config config.block_time;
      }))
    else do
      target ← target_time timestamp
      elim (time_until target now) [
        | none ↦ do
          per_block ← flashblocks_per_block config
          some (record {
            flashblocks_per_block = per_block;
            first_flashblock_offset = config.interval;
            flashblocks_deadline = deadline_of config config.block_time;
          })
        | some remaining_time ↦
            let remaining = as_millis (min remaining_time config.block_time) % u64_mod in
            do
              (per_block, offset) ← divide remaining (as_millis config.interval % u64_mod)
              some (record {
                flashblocks_per_block = per_block;
                first_flashblock_offset = send_offset config offset;
                flashblocks_deadline =
                    send_offset config (from_millis (remaining - config.end_buffer_ms));
              })
      ]
