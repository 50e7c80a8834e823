-- ===== src/Flashblocks/Headers.antt =====
-- The header of a block and the parts of a flashblock's message, and the methods of
-- `OpPayloadBuilderCtx` in builders/context.rs that give their fields.
use op_rbuilder.Base.{
  ℕ, Bool, Option, none, some, List, if◌then◌else◌, mul_u64, unwrap_or, Result, ok, err, ok_or,
}
use op_rbuilder.Transactions.{Address, Hash, Tx}
use op_rbuilder.Execution.{ExecutionInfo}
use op_rbuilder.Evm.{BuilderCtx}
use op_rbuilder.Context.{PayloadBuilderError, panicked, other}

-- Hashes, roots, blooms and bytes are numbers, as in the other files; the number 0 is the hash of
-- zeros, and the empty bytes.
pub record Header : Type 0 where
  pub parent_hash : Hash
  pub ommers_hash : Hash
  pub beneficiary : Address
  pub state_root : Hash
  pub transactions_root : Hash
  pub receipts_root : Hash
  pub withdrawals_root : Option Hash
  pub logs_bloom : ℕ
  pub timestamp : ℕ
  pub mix_hash : Hash
  pub base_fee_per_gas : Option ℕ
  pub number : ℕ
  pub gas_limit : ℕ
  pub gas_used : ℕ
  pub extra_data : ℕ
  pub parent_beacon_block_root : Option Hash
  pub blob_gas_used : Option ℕ
  pub excess_blob_gas : Option ℕ
  pub requests_hash : Option Hash

-- `OpFlashblockPayloadBase`
pub record FlashblockBase : Type 0 where
  pub parent_beacon_block_root : Hash
  pub parent_hash : Hash
  pub fee_recipient : Address
  pub prev_randao : Hash
  pub block_number : ℕ
  pub gas_limit : ℕ
  pub timestamp : ℕ
  pub extra_data : ℕ
  pub base_fee_per_gas : ℕ

-- `OpFlashblockPayloadDelta`
pub record FlashblockDelta : Type 0 where
  pub state_root : Hash
  pub receipts_root : Hash
  pub logs_bloom : ℕ
  pub gas_used : ℕ
  pub block_hash : Hash
  pub transactions : List ℕ
  pub withdrawals : List ℕ
  pub withdrawals_root : Hash
  pub blob_gas_used : Option ℕ

-- The rest of `OpPayloadBuilderCtx`, for the header: `builder` is what execution reads, the other
-- fields are of the parent, the attributes, the chain specification and the configuration.
pub record SealCtx : Type 0 where
  pub builder : BuilderCtx
  pub parent_hash : Hash
  pub parent_number : ℕ
  pub parent_state_root : Hash
  pub chain_id : ℕ
  pub payload_id : ℕ
  pub beneficiary : Address
  pub suggested_fee_recipient : Address
  pub prev_randao : Hash
  pub parent_beacon_block_root : Option Hash
  pub attributes_withdrawals : List ℕ
  pub attributes_gas_limit : Option ℕ
  pub no_tx_pool : Bool
  pub env_gas_limit : ℕ
  pub gas_limit_config : Option ℕ
  pub jovian_extra_data : Option ℕ
  pub holocene_extra_data : Option ℕ
  pub is_shanghai_active : Bool
  pub is_ecotone_active : Bool
  pub is_holocene_active : Bool
  pub is_isthmus_active : Bool

-- `OpPayloadBuilderCtx::block_gas_limit`
unfoldable pub block_gas_limit : SealCtx → ℕ
block_gas_limit c = unwrap_or c.gas_limit_config (unwrap_or c.attributes_gas_limit c.env_gas_limit)

-- `OpPayloadBuilderCtx::withdrawals`
unfoldable pub withdrawals : SealCtx → Option (List ℕ)
withdrawals c = if c.is_shanghai_active then some c.attributes_withdrawals else none

-- `OpPayloadBuilderCtx::extra_data`
unfoldable pub extra_data : SealCtx → Result PayloadBuilderError ℕ
extra_data c =
    if c.builder.is_jovian_active
    then ok_or other c.jovian_extra_data
    else if c.is_holocene_active
    then ok_or other c.holocene_extra_data
    else ok 0

-- `OpPayloadBuilderCtx::blob_fields`: the excess blob gas, and the blob gas used
unfoldable pub blob_fields :
    {Receipt : Type 0}
    → SealCtx
    → ExecutionInfo Tx Receipt
    → Result PayloadBuilderError (Option ℕ × Option ℕ)
blob_fields c info = elim info.optional_blob_fields [
  | some fields ↦ ok fields
  | none ↦
      if c.builder.is_jovian_active
      then elim info.da_footprint_scalar [
        | none ↦ err panicked
        | some scalar ↦ ok (some 0, some (mul_u64 info.cumulative_da_bytes_used scalar))
      ]
      else if c.is_ecotone_active
      then ok (some 0, some 0)
      else ok (none, none)
]
