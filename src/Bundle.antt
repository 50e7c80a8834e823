-- ===== src/Bundle.antt =====
-- crates/op-rbuilder/src/primitives/bundle.rs: a bundle, and the ranges of block and flashblock
-- numbers under which its transaction may be included.
pub mod Ranges
use op_rbuilder.Base.{
  ℕ, Bool, Option, none, some, List, ltb, leb, if◌then◌else◌, is_some_and, add_u64, Result, ok, err,
  ◌>>=◌, ◌>>◌,
}
use op_rbuilder.Transactions.{Hash, TransactionConditional}

-- `MAX_BLOCK_RANGE_BLOCKS`
abbrev pub max_block_range_blocks : ℕ
max_block_range_blocks = 10

-- A transaction is raw bytes, a number here.
pub record Bundle : Type 0 where
  pub transactions : List ℕ
  pub reverting_hashes : Option (List Hash)
  pub block_number_min : Option ℕ
  pub block_number_max : Option ℕ
  pub flashblock_number_min : Option ℕ
  pub flashblock_number_max : Option ℕ
  pub min_timestamp : Option ℕ
  pub max_timestamp : Option ℕ

pub data BundleConditionalError : Type 0 where
  min_greater_than_max : ℕ → ℕ → BundleConditionalError
  max_block_in_past : ℕ → ℕ → BundleConditionalError
  max_block_too_high : ℕ → ℕ → ℕ → BundleConditionalError
  min_too_high_for_default_range : ℕ → ℕ → BundleConditionalError
  flashblock_min_greater_than_max : ℕ → ℕ → BundleConditionalError

pub record BundleConditional : Type 0 where
  pub transaction_conditional : TransactionConditional
  pub flashblock_number_min : Option ℕ
  pub flashblock_number_max : Option ℕ

-- `if let Some(min) = min && min > max { return Err(e(min, max)) }`
unfoldable pub check_min :
    Option ℕ → ℕ → (ℕ → ℕ → BundleConditionalError) → Result BundleConditionalError (Unit {0})
check_min none max e = ok tt
check_min (some min) max e = if ltb max min then err (e min max) else ok tt

-- The branch with an explicit maximum: the maximum that the bundle gets, or an error.
unfoldable pub checked_max : Option ℕ → ℕ → ℕ → Result BundleConditionalError ℕ
unfolding check_min
checked_max block_number_min max last_block_number = do
  check_min block_number_min max min_greater_than_max
  let max_allowed = add_u64 last_block_number max_block_range_blocks
  if leb max last_block_number
      then err (max_block_in_past max last_block_number)
      else if ltb max_allowed max
      then err (max_block_too_high max last_block_number max_allowed)
      else ok max

-- The branch with no maximum.
unfoldable pub default_max : Option ℕ → ℕ → Result BundleConditionalError ℕ
unfolding check_min
default_max block_number_min last_block_number = do
  let default = add_u64 last_block_number max_block_range_blocks
  check_min block_number_min default min_too_high_for_default_range
  ok default

unfoldable pub block_max : Option ℕ → Option ℕ → ℕ → Result BundleConditionalError ℕ
unfolding checked_max default_max
block_max block_number_min (some max) last_block_number =
    checked_max block_number_min max last_block_number
block_max block_number_min none last_block_number = default_max block_number_min last_block_number

unfoldable pub check_flashblocks : Option ℕ → Option ℕ → Result BundleConditionalError (Unit {0})
unfolding check_min
check_flashblocks min none = ok tt
check_flashblocks min (some max) = check_min min max flashblock_min_greater_than_max

-- `Bundle::conditional`
unfoldable pub conditional : Bundle → ℕ → Result BundleConditionalError BundleConditional
unfolding block_max check_flashblocks
conditional b last_block_number = do
  max ← block_max b.block_number_min b.block_number_max last_block_number
  check_flashblocks b.flashblock_number_min b.flashblock_number_max
  ok (record {
    transaction_conditional = record {
      block_number_min = b.block_number_min;
      block_number_max = some max;
      timestamp_min = b.min_timestamp;
      timestamp_max = b.max_timestamp;
    };
    flashblock_number_min = b.flashblock_number_min;
    flashblock_number_max = b.flashblock_number_max;
  })
