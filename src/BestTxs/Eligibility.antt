-- ===== src/BestTxs/Eligibility.antt =====
-- The three tests of `next` on one transaction, and what each verdict says of it.
use op_rbuilder.Base.{
  ℕ, ◌<◌, ◌≤◌, ◌≡◌, ◌⊎◌, inl, inr, true, false, Option, none, some, List, arith, contains,
  Option-cases, Bool-cases,
}
use op_rbuilder.Transactions.{Hash, FbPooledTransaction}
use op_rbuilder.BestTxs.{take, skip, drop, verdict}

abbrev pub AtLeast : ℕ → Option ℕ → Type 0
AtLeast n none = Unit {0}
AtLeast n (some min) = min ≤ n

abbrev pub NotAbove : ℕ → Option ℕ → Type 0
NotAbove n none = Unit {0}
NotAbove n (some max) = n ≤ max

-- A transaction that may go into flashblock `n`.
pub record Eligible (n : ℕ) (commited : List Hash) (tx : FbPooledTransaction) : Type 0 where
  pub fresh : contains commited tx.inner.consensus.tx_hash ≡ false
  pub min_reached : AtLeast n tx.flashblock_number_min
  pub max_kept : NotAbove n tx.flashblock_number_max

pub verdict-take :
    (n : ℕ) (c : List Hash) (tx : FbPooledTransaction) → verdict n c tx ≡ take → Eligible n c tx
unfolding verdict
verdict-take n c tx e = ground arith

pub Eligible-verdict :
    (n : ℕ) (c : List Hash) (tx : FbPooledTransaction) → Eligible n c tx → verdict n c tx ≡ take
unfolding verdict
Eligible-verdict n c tx e = ground arith

pub verdict-skip :
    (n : ℕ) (c : List Hash) (tx : FbPooledTransaction)
    → verdict n c tx ≡ skip
    → (contains c tx.inner.consensus.tx_hash ≡ true)
      ⊎ ((min : ℕ) × (tx.flashblock_number_min ≡ some min) × (n < min))
unfolding verdict
verdict-skip n c tx e = elim (Option-cases tx.flashblock_number_min) [
  | inl unbounded ↦ inl (ground arith)
  | inr (min, bound) ↦ elim (Bool-cases (contains c tx.inner.consensus.tx_hash)) [
    | inl old ↦ inl old
    | inr new ↦ inr (min, bound, ground arith)
  ]
]

pub verdict-drop :
    (n : ℕ) (c : List Hash) (tx : FbPooledTransaction)
    → verdict n c tx ≡ drop
    → (max : ℕ) × (tx.flashblock_number_max ≡ some max) × (max < n)
unfolding verdict
verdict-drop n c tx e = elim (Option-cases tx.flashblock_number_max) [
  | inl unbounded ↦ absurd (ground arith)
  | inr (max, bound) ↦ (max, bound, ground arith)
]
