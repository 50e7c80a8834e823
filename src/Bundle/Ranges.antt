-- ===== src/Bundle/Ranges.antt =====
-- When a bundle is accepted, with which block range, and what each refusal means.
use op_rbuilder.Base.{
  ℕ, ◌+◌, ◌≤◌, ◌<◌, ◌≡◌, ◌↔◌, Option, none, some, arith, u64_mod, unwrap_or, ok, err,
}
use op_rbuilder.Bundle.{
  Bundle, BundleConditional, BundleConditionalError, min_greater_than_max, max_block_in_past,
  max_block_too_high, min_too_high_for_default_range, flashblock_min_greater_than_max,
  max_block_range_blocks, conditional,
}

abbrev pub AtMost : Option ℕ → ℕ → Type 0
AtMost none n = Unit {0}
AtMost (some m) n = m ≤ n

-- Both ends of a range, where they are given, are in order.
abbrev pub InOrder : Option ℕ → Option ℕ → Type 0
InOrder min none = Unit {0}
InOrder min (some max) = AtMost min max

-- The last block in which the bundle may go: its own maximum, or the furthest one allowed.
abbrev pub last_block_of : Bundle → ℕ → ℕ
last_block_of b last = unwrap_or b.block_number_max (last + max_block_range_blocks)

-- The documented rules, over the numbers themselves.
pub record RangeIsValid (b : Bundle) (last : ℕ) : Type 0 where
  pub ordered : AtMost b.block_number_min (last_block_of b last)
  pub not_past : last < last_block_of b last
  pub not_far : last_block_of b last ≤ last + max_block_range_blocks
  pub flashblocks : InOrder b.flashblock_number_min b.flashblock_number_max

abbrev pub conditional_of : Bundle → ℕ → BundleConditional
conditional_of b last = record {
  transaction_conditional = record {
    block_number_min = b.block_number_min;
    block_number_max = some (last_block_of b last);
    timestamp_min = b.min_timestamp;
    timestamp_max = b.max_timestamp;
  };
  flashblock_number_min = b.flashblock_number_min;
  flashblock_number_max = b.flashblock_number_max;
}

-- What each refusal says of the bundle.
abbrev pub Explains : Bundle → ℕ → BundleConditionalError → Type 0
Explains b last (min_greater_than_max min max) =
    (b.block_number_min ≡ some min) × (b.block_number_max ≡ some max) × (max < min)
Explains b last (max_block_in_past max current) =
    (b.block_number_max ≡ some max) × (current ≡ last) × (max ≤ last)
Explains b last (max_block_too_high max current max_allowed) =
    (b.block_number_max ≡ some max)
    × (current ≡ last)
    × (max_allowed ≡ last + max_block_range_blocks)
    × (max_allowed < max)
Explains b last (min_too_high_for_default_range min max_allowed) =
    (b.block_number_min ≡ some min)
    × (b.block_number_max ≡ none)
    × (max_allowed ≡ last + max_block_range_blocks)
    × (max_allowed < min)
Explains b last (flashblock_min_greater_than_max min max) =
    (b.flashblock_number_min ≡ some min) × (b.flashblock_number_max ≡ some max) × (max < min)

module _ (b : Bundle) (last : ℕ) (fits : last + max_block_range_blocks < u64_mod) where
  -- A bundle that keeps the rules is accepted, with the range that they give.
  pub conditional-eq-ok : RangeIsValid b last → conditional b last ≡ ok (conditional_of b last)
  unfolding conditional
  conditional-eq-ok v = ground arith

  conditional-RangeIsValid :
      {c : BundleConditional} → conditional b last ≡ ok c → RangeIsValid b last
  unfolding conditional
  conditional-RangeIsValid e = ground arith

  -- If the last block's number is not within ten of 2^64, conditional accepts a bundle with the
  -- range that the documented rules give exactly when the bundle keeps those rules.
  pub conditional_iff : (conditional b last ≡ ok (conditional_of b last)) ↔ RangeIsValid b last
  conditional_iff = (conditional-RangeIsValid, conditional-eq-ok)

  -- Whatever is accepted keeps the rules and has that range.
  pub conditional-ok :
      {c : BundleConditional}
      → conditional b last ≡ ok c
      → RangeIsValid b last × (c ≡ conditional_of b last)
  unfolding conditional
  conditional-ok e = (conditional-RangeIsValid e, ground arith)

  -- If the last block's number is not within ten of 2^64, every refusal of conditional states a
  -- rule that the bundle breaks, with the bundle's own numbers.
  pub conditional-Explains :
      {e : BundleConditionalError} → conditional b last ≡ err e → Explains b last e
  unfolding conditional
  conditional-Explains {e = min_greater_than_max min max} h = ground arith
  conditional-Explains {e = max_block_in_past max current} h = ground arith
  conditional-Explains {e = max_block_too_high max current allowed} h = ground arith
  conditional-Explains {e = min_too_high_for_default_range min allowed} h = ground arith
  conditional-Explains {e = flashblock_min_greater_than_max min max} h = ground arith
