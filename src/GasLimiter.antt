-- ===== src/GasLimiter.antt =====
-- crates/op-rbuilder/src/gas_limiter/{mod,args,error}.rs: a token bucket for each address, from
-- which the gas of its simulated transactions is taken and which every block refills.
-- The `DashMap` is shared by reference; a method returns the map that it leaves behind.
-- The durations and counters handed to the metrics are left out.
pub mod Bounds
pub mod Rate
use op_rbuilder.Base.{
  ℕ, ◌-◌, ◌%◌, min, not, Bool, true, false, Option, none, some, [], ltb, leb, ◌==◌, if◌then◌else◌,
  add_u64, sub_u64, is_some, unwrap_or, length, Result, ok, err, Map, lookup, insert, map_values,
  retain,
}

pub record GasLimiterArgs : Type 0 where
  pub gas_limiter_enabled : Bool
  pub max_gas_per_address : ℕ
  pub refill_rate_per_block : ℕ
  pub cleanup_interval : ℕ

pub record TokenBucket : Type 0 where
  pub capacity : ℕ
  pub available : ℕ

pub record AddressGasLimiterInner : Type 0 where
  pub config : GasLimiterArgs
  pub address_buckets : Map TokenBucket

pub record AddressGasLimiter : Type 0 where
  pub inner : Option AddressGasLimiterInner

pub record GasLimitError : Type 0 where
  pub address : ℕ
  pub requested : ℕ
  pub available : ℕ

-- `TokenBucket::new`
unfoldable pub new_bucket : ℕ → TokenBucket
new_bucket capacity = record { capacity = capacity; available = capacity }

unfoldable pub try_new : GasLimiterArgs → Option AddressGasLimiterInner
try_new config =
    if config.gas_limiter_enabled
    then some (record { config = config; address_buckets = [] })
    else none

-- `AddressGasLimiter::new`
unfoldable pub new_limiter : GasLimiterArgs → AddressGasLimiter
unfolding try_new
new_limiter config = record { inner = try_new config }

-- The value that `entry(address).or_insert_with(..)` refers to.
unfoldable pub bucket_of : AddressGasLimiterInner → ℕ → TokenBucket
unfolding new_bucket
bucket_of l address =
    unwrap_or (lookup address l.address_buckets) (new_bucket l.config.max_gas_per_address)

-- A new bucket stays in the map also where the request is refused. The subtraction is of
-- numbers with `gas_requested <= available`, so it does not wrap.
unfoldable pub consume_gas_inner :
    AddressGasLimiterInner → ℕ → ℕ → AddressGasLimiterInner × Result GasLimitError Bool
unfolding bucket_of
consume_gas_inner l address gas_requested =
    let bucket = bucket_of l address in
    let created_new_bucket = not (is_some (lookup address l.address_buckets)) in
    if ltb bucket.available gas_requested
    then (
      record l { address_buckets = insert address bucket l.address_buckets },
      err (record { address = address; requested = gas_requested; available = bucket.available }),
    )
    else (
      record l {
        address_buckets =
            insert address (record bucket { available = bucket.available - gas_requested })
              l.address_buckets;
      },
      ok created_new_bucket,
    )

-- `u64::is_multiple_of`
unfoldable pub is_multiple_of : ℕ → ℕ → Bool
is_multiple_of n m = if m == 0 then n == 0 else n % m == 0

unfoldable pub refill : ℕ → TokenBucket → TokenBucket
refill rate bucket = record bucket {
  available = min bucket.capacity (add_u64 bucket.available rate);
}

-- The buckets after the refill and the clean-up, and how many the clean-up has removed.
unfoldable pub refresh_inner : AddressGasLimiterInner → ℕ → AddressGasLimiterInner × ℕ
unfolding refill is_multiple_of
refresh_inner l block_number =
    let refilled = map_values (refill l.config.refill_rate_per_block) l.address_buckets in
    let kept =
      if is_multiple_of block_number l.config.cleanup_interval
      then retain (λ bucket. leb bucket.available bucket.capacity) refilled
      else refilled in
    (record l { address_buckets = kept }, length l.address_buckets - length kept)

-- `AddressGasLimiter::consume_gas`: a limiter that is not enabled admits everything.
unfoldable pub consume_gas :
    AddressGasLimiter → ℕ → ℕ → AddressGasLimiter × Result GasLimitError (Unit {0})
consume_gas l address gas_requested = elim l.inner [
  | none ↦ (l, ok tt)
  | some inner ↦
      let (inner', result) = consume_gas_inner inner address gas_requested in
      (record { inner = some inner' }, elim result [ ok _ ↦ ok tt | err e ↦ err e ])
]

-- `AddressGasLimiter::refresh`
unfoldable pub refresh : AddressGasLimiter → ℕ → AddressGasLimiter
refresh l block_number = elim l.inner [
  | none ↦ l
  | some inner ↦ record { inner = some (refresh_inner inner block_number).0 }
]
