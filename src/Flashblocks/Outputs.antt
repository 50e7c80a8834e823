-- ===== src/Flashblocks/Outputs.antt =====
-- What build_block of builders/flashblocks/payload.rs calls of the node's libraries, and the types of
-- the payload and of the message.
use op_rbuilder.Base.{ℕ, Option, List, Map}
use op_rbuilder.Transactions.{Address, Hash, Tx}
use op_rbuilder.Evm.{Evm}
use op_rbuilder.Flashblocks.Headers.{Header, FlashblockBase, FlashblockDelta}

-- What `build_block` calls of the node's libraries. `bundle_of` is the bundle that
-- `merge_transitions` makes of the state; an option is none where the call fails.
pub record Sealer (evm : Evm) : Type 1 where
  pub Bundle : Type 0
  pub Trie : Type 0
  pub Hashed : Type 0
  pub default_trie : Trie
  pub default_hashed : Hashed
  pub bundle_of : evm.Db → Bundle
  pub receipts_root : ℕ → List evm.Receipt → Option Hash
  pub logs_bloom : List evm.Receipt → Option ℕ
  pub hashed_post_state : Bundle → Hashed
  pub state_root_with_updates : Hashed → Option (Hash × Trie)
  pub withdrawals_root : Bundle → Option Hash
  pub transactions_root : List Tx → Hash
  pub empty_ommer_root_hash : Hash
  pub empty_requests_hash : Hash
  pub empty_withdrawals : Hash
  pub hash_slow : Header → Hash
  pub encoded_2718 : Tx → ℕ
  pub balances : Bundle → Map ℕ

module _ (evm : Evm) (sealer : Sealer evm) where
  open evm use {Db, Receipt}
  open sealer use {Bundle, Trie, Hashed}

  -- The block, with its hash and the senders of its transactions
  pub record SealedBlock : Type 0 where
    pub header : Header
    pub transactions : List Tx
    pub withdrawals : Option (List ℕ)
    pub senders : List Address
    pub block_hash : Hash

  -- `BlockExecutionOutput` with its result
  pub record ExecutionOutput : Type 0 where
    pub state : Bundle
    pub receipts : List Receipt
    pub gas_used : ℕ
    pub blob_gas_used : ℕ

  -- `OpBuiltPayload`
  pub record BuiltPayload : Type 0 where
    pub id : ℕ
    pub block : SealedBlock
    pub fees : ℕ
    pub execution_output : ExecutionOutput
    pub trie_updates : Trie
    pub hashed_state : Hashed

  -- `OpFlashblockPayload`, with the fields of its metadata
  pub record FlashblockPayload : Type 0 where
    pub payload_id : ℕ
    pub index : ℕ
    pub base : Option FlashblockBase
    pub diff : FlashblockDelta
    pub receipts : Map Receipt
    pub new_account_balances : Map ℕ
    pub block_number : ℕ
