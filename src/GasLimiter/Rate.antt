-- ===== src/GasLimiter/Rate.antt =====
-- The limiter over any sequence of requests and new blocks.
use op_rbuilder.Base.{ℕ, ◌+◌, ◌≤◌, ◌≡◌, ap, List, [], ◌∷◌, arith, if◌then◌else◌, ◌==◌}
use op_rbuilder.GasLimiter.{AddressGasLimiterInner, consume_gas_inner, refresh_inner}
use op_rbuilder.GasLimiter.Bounds.{
  available, granted, IsValid, bucket_of-IsValid, consume_gas_inner-IsValid, refresh_inner-IsValid,
  available-consume_gas_inner, available-refresh_inner-le, refresh_inner-config,
  consume_gas_inner-config,
}

-- A call of the limiter: a request of an address, or a new block.
pub data Call : Type 0 where
  consume : ℕ → ℕ → Call
  new_block : ℕ → Call

abbrev pub after : AddressGasLimiterInner → Call → AddressGasLimiterInner
after l (consume a gas) = (consume_gas_inner l a gas).0
after l (new_block n) = (refresh_inner l n).0

-- What one call grants the address `b`.
abbrev pub grant : ℕ → AddressGasLimiterInner → Call → ℕ
grant b l (consume a gas) = if a == b then granted (consume_gas_inner l a gas).1 gas else 0
grant b l (new_block n) = 0

-- The refill that one call adds.
abbrev pub refills : ℕ → Call → ℕ
refills rate (consume a gas) = 0
refills rate (new_block n) = rate

pub run : AddressGasLimiterInner → List Call → AddressGasLimiterInner
run l [] = l
run l (c ∷ cs) = run (after l c) cs

pub total_granted : ℕ → AddressGasLimiterInner → List Call → ℕ
total_granted b l [] = 0
total_granted b l (c ∷ cs) = grant b l c + total_granted b (after l c) cs

pub total_refills : ℕ → List Call → ℕ
total_refills rate [] = 0
total_refills rate (c ∷ cs) = refills rate c + total_refills rate cs

after-config : (l : AddressGasLimiterInner) (c : Call) → (after l c).config ≡ l.config
after-config l (consume a gas) = consume_gas_inner-config l a gas
after-config l (new_block n) = refresh_inner-config l n

after-IsValid : (l : AddressGasLimiterInner) (c : Call) → IsValid l → IsValid (after l c)
after-IsValid l (consume a gas) h = consume_gas_inner-IsValid l a gas h
after-IsValid l (new_block n) h = refresh_inner-IsValid l n h

after-available :
    (b : ℕ) (l : AddressGasLimiterInner) (c : Call)
    → grant b l c + available (after l c) b
      ≤ available l b + refills l.config.refill_rate_per_block c
after-available b l (consume a gas) = omega (arith, available-consume_gas_inner l a b gas)
after-available b l (new_block n) = omega (arith, available-refresh_inner-le l n b)

-- The invariant of the buckets holds after any calls.
pub run-IsValid : (l : AddressGasLimiterInner) (cs : List Call) → IsValid l → IsValid (run l cs)
unfolding run
run-IsValid l [] h = h
run-IsValid l (c ∷ cs) h = run-IsValid (after l c) cs (after-IsValid l c h)

-- Over any calls, what an address is granted and what it is left with is at most what it had
-- at the start and the refills in between.
pub total_granted-le :
    (b : ℕ) (l : AddressGasLimiterInner) (cs : List Call)
    → total_granted b l cs + available (run l cs) b
      ≤ available l b + total_refills l.config.refill_rate_per_block cs
unfolding run total_granted total_refills
total_granted-le b l [] = omega arith
total_granted-le b l (c ∷ cs) = omega (
  arith,
  after-available b l c,
  total_granted-le b (after l c) cs,
  ap (λ k. total_refills k.refill_rate_per_block cs) (after-config l c),
)

-- From a valid limiter, no sequence of requests and new blocks grants an address more than its
-- bucket's capacity and one refill for each block.
pub total_granted_bounded :
    (b : ℕ) (l : AddressGasLimiterInner) (cs : List Call)
    → IsValid l
    → total_granted b l cs
      ≤ l.config.max_gas_per_address + total_refills l.config.refill_rate_per_block cs
total_granted_bounded b l cs h = omega (arith, total_granted-le b l cs, bucket_of-IsValid l b h)
