-- ===== src/GasLimiter/Bounds.antt =====
-- One call of the limiter: what is granted, what stays, and what the clean-up removes.
use mathlib.Core.Option
use op_rbuilder.Base.{
  ℕ, ◌+◌, ◌-◌, ◌≤◌, ◌<◌, ◌≡◌, refl, ◌⊎◌, inl, inr, true, arith, u64_mod, Bool-cases, ap, ◌∙◌, Map,
  All-trivial, min, lookup-map_values, ltb, leb, lookup, map_values, retain, AllValues,
  lookup-insert, lookup-AllValues, insert-AllValues, map_values-AllValues, retain-all,
  length-map_values, if◌then◌else◌, ◌==◌, Result, ok, err, Option-cases,
}
use op_rbuilder.GasLimiter.{
  TokenBucket, AddressGasLimiterInner, bucket_of, consume_gas_inner, refill, refresh_inner,
}

-- What an address may still use before the next block.
abbrev pub available : AddressGasLimiterInner → ℕ → ℕ
available l address = (bucket_of l address).available

abbrev pub BucketIsValid : ℕ → TokenBucket → Type 0
BucketIsValid max_gas b = (b.capacity ≡ max_gas) × (b.available ≤ b.capacity)

-- Every bucket has the configured capacity and holds no more than that.
abbrev pub IsValid : AddressGasLimiterInner → Type 0
IsValid l = AllValues (BucketIsValid l.config.max_gas_per_address) l.address_buckets

pub bucket_of-IsValid :
    (l : AddressGasLimiterInner) (a : ℕ)
    → IsValid l
    → BucketIsValid l.config.max_gas_per_address (bucket_of l a)
unfolding bucket_of
bucket_of-IsValid l a h = elim (Option-cases (lookup a l.address_buckets)) [
  | inl e ↦ rw e (refl, omega arith)
  | inr (b, e) ↦
      rw e (lookup-AllValues (BucketIsValid l.config.max_gas_per_address) a l.address_buckets h e)
]

pub consume_gas_inner-IsValid :
    (l : AddressGasLimiterInner) (a gas : ℕ) → IsValid l → IsValid (consume_gas_inner l a gas).0
unfolding consume_gas_inner
consume_gas_inner-IsValid l a gas h =
    let bucket_valid = bucket_of-IsValid l a h in
    elim (Bool-cases (ltb (bucket_of l a).available gas)) [
      | inl refused ↦
          rw refused (insert-AllValues _ a (bucket_of l a) l.address_buckets h bucket_valid)
      | inr granted ↦ rw granted (insert-AllValues _ a _ l.address_buckets h (ground arith))
    ]

-- What a request has been granted.
abbrev pub granted : {E A : Type 0} → Result E A → ℕ → ℕ
granted (ok _) gas = gas
granted (err _) gas = 0

pub consume_gas_inner_iff :
    (l : AddressGasLimiterInner) (a gas : ℕ)
    → (granted (consume_gas_inner l a gas).1 gas ≡ gas) × (gas ≤ available l a)
      ⊎ (granted (consume_gas_inner l a gas).1 gas ≡ 0) × (available l a < gas)
unfolding consume_gas_inner
consume_gas_inner_iff l a gas = ground arith

pub available-consume_gas_inner :
    (l : AddressGasLimiterInner) (a b gas : ℕ)
    → let (l', r) = consume_gas_inner l a gas in
      available l' b + (if a == b then granted r gas else 0) ≡ available l b
unfolding consume_gas_inner bucket_of
available-consume_gas_inner l a b gas = ground (
  arith,
  lookup-insert b a (bucket_of l a) l.address_buckets,
  lookup-insert b a (record (bucket_of l a) { available = available l a - gas }) l.address_buckets,
)

-- A refilled bucket passes the clean-up's test, whatever it held.
refill-kept :
    (rate : ℕ) (b : TokenBucket) → leb (refill rate b).available (refill rate b).capacity ≡ true
unfolding refill
refill-kept rate b = ground arith

retain-refilled :
    (rate : ℕ) (m : Map TokenBucket)
    → retain (λ b. leb b.available b.capacity) (map_values (refill rate) m)
      ≡ map_values (refill rate) m
retain-refilled rate m = retain-all _ _ (
    map_values-AllValues (λ b. Unit {0}) (λ b. leb b.available b.capacity ≡ true) (refill rate)
      (λ b _. refill-kept rate b) m (All-trivial m))

-- The clean-up of a refresh removes no bucket at any block: the refreshed limiter has the same
-- addresses, each with its bucket refilled, and the number of removed addresses is 0.
pub refresh_inner_removes_nothing :
    (l : AddressGasLimiterInner) (n : ℕ)
    → ((refresh_inner l n).0.address_buckets
        ≡ map_values (refill l.config.refill_rate_per_block) l.address_buckets)
      × ((refresh_inner l n).1 ≡ 0)
unfolding refresh_inner
refresh_inner_removes_nothing l n = ground (
  arith,
  retain-refilled l.config.refill_rate_per_block l.address_buckets,
  length-map_values (refill l.config.refill_rate_per_block) l.address_buckets,
)

refill-IsValid :
    (rate max_gas : ℕ) (b : TokenBucket)
    → BucketIsValid max_gas b
    → BucketIsValid max_gas (refill rate b)
unfolding refill
refill-IsValid rate max_gas b h = ground arith

pub refresh_inner-config :
    (l : AddressGasLimiterInner) (n : ℕ) → (refresh_inner l n).0.config ≡ l.config
unfolding refresh_inner
refresh_inner-config l n = refl

pub consume_gas_inner-config :
    (l : AddressGasLimiterInner) (a gas : ℕ) → (consume_gas_inner l a gas).0.config ≡ l.config
unfolding consume_gas_inner
consume_gas_inner-config l a gas = ground arith

pub refresh_inner-IsValid :
    (l : AddressGasLimiterInner) (n : ℕ) → IsValid l → IsValid (refresh_inner l n).0
refresh_inner-IsValid l n h =
    rw (refresh_inner-config l n, (refresh_inner_removes_nothing l n).0)
      (map_values-AllValues _ _ (refill l.config.refill_rate_per_block)
        (refill-IsValid l.config.refill_rate_per_block l.config.max_gas_per_address)
        l.address_buckets h)

lookup-refresh_inner :
    (l : AddressGasLimiterInner) (n a : ℕ)
    → lookup a (refresh_inner l n).0.address_buckets
      ≡ Option.map (refill l.config.refill_rate_per_block) (lookup a l.address_buckets)
lookup-refresh_inner l n a =
    ap (lookup a) (refresh_inner_removes_nothing l n).0 ∙ lookup-map_values _ a l.address_buckets

-- If the capacity and the refill together fit a word, a refresh of a valid limiter at any block,
-- with or without a clean-up, gives every address the refill, up to the configured capacity.
pub available-refresh_inner :
    (l : AddressGasLimiterInner) (n a : ℕ)
    → IsValid l
    → l.config.max_gas_per_address + l.config.refill_rate_per_block < u64_mod
    → available (refresh_inner l n).0 a
      ≡ min l.config.max_gas_per_address (available l a + l.config.refill_rate_per_block)
unfolding bucket_of refill
available-refresh_inner l n a h fits =
    ground (arith, lookup-refresh_inner l n a, refresh_inner-config l n, bucket_of-IsValid l a h)

pub available-refresh_inner-le :
    (l : AddressGasLimiterInner) (n a : ℕ)
    → available (refresh_inner l n).0 a ≤ available l a + l.config.refill_rate_per_block
unfolding bucket_of refill
available-refresh_inner-le l n a =
    ground (arith, lookup-refresh_inner l n a, refresh_inner-config l n)
