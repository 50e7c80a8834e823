-- ===== src/Transactions.antt =====
-- Transactions as the builder sees them. `Tx` stands for a recovered transaction of the node's
-- library: one field for each method of it that the builder calls. `FBPooledTransaction` and
-- its methods are those of crates/op-rbuilder/src/tx.rs.
use op_rbuilder.Base.{ℕ, Bool, Option, none, some, List}

-- Addresses, hashes and raw bytes are only compared or passed on, and are numbers here.
abbrev pub Address : Type 0
Address = ℕ

abbrev pub Hash : Type 0
Hash = ℕ

-- `tip base_fee` is `effective_tip_per_gas(base_fee)`, and `estimated_size` is
-- `tx_estimated_size_fjord_bytes` of the encoding.
pub record Tx : Type 0 where
  pub tx_hash : Hash
  pub signer : Address
  pub nonce : ℕ
  pub gas_limit : ℕ
  pub is_eip4844 : Bool
  pub is_deposit : Bool
  pub tip : ℕ → Option ℕ
  pub estimated_size : ℕ

-- The fields of `TransactionConditional` that the builder fills; `known_accounts` keeps its default.
pub record TransactionConditional : Type 0 where
  pub block_number_min : Option ℕ
  pub block_number_max : Option ℕ
  pub timestamp_min : Option ℕ
  pub timestamp_max : Option ℕ

-- What the builder reads of the node's `OpPooledTransaction`.
pub record OpPooledTransaction : Type 0 where
  pub consensus : Tx
  pub conditional : Option TransactionConditional
  pub interop_deadline : Option ℕ
  pub estimated_da_size : ℕ

pub record FbPooledTransaction : Type 0 where
  pub inner : OpPooledTransaction
  pub reverted_hashes : Option (List Hash)
  pub flashblock_number_min : Option ℕ
  pub flashblock_number_max : Option ℕ

-- `From<OpPooledTransaction>`
unfoldable pub from_inner : OpPooledTransaction → FbPooledTransaction
from_inner tx = record {
  inner = tx;
  reverted_hashes = none;
  flashblock_number_min = none;
  flashblock_number_max = none;
}

unfoldable pub with_reverted_hashes : List Hash → FbPooledTransaction → FbPooledTransaction
with_reverted_hashes hashes tx = record tx { reverted_hashes = some hashes }

unfoldable pub with_flashblock_number_min : Option ℕ → FbPooledTransaction → FbPooledTransaction
with_flashblock_number_min n tx = record tx { flashblock_number_min = n }

unfoldable pub with_flashblock_number_max : Option ℕ → FbPooledTransaction → FbPooledTransaction
with_flashblock_number_max n tx = record tx { flashblock_number_max = n }

unfoldable pub with_conditional : TransactionConditional → FbPooledTransaction → FbPooledTransaction
with_conditional c tx = record tx { inner = record tx.inner { conditional = some c } }
