-- ===== src/Flashblocks/Sealing.antt =====
-- `build_block` of builders/flashblocks/payload.rs: the payload of all that is executed so far, and
-- the message about what was added since the last one.
use op_rbuilder.Base.{
  ℕ, Bool, not, Option, none, some, List, [], ◌∷◌, map, if◌then◌else◌, ltb, ◌==◌, add_u64, length,
  unwrap_or, Map, insert, Result, ok, ◌>>=◌, ◌>>◌, ok_or, ◌&&◌,
}
use op_rbuilder.Transactions.{Hash, Tx}
use op_rbuilder.Execution.{ExecutionInfo}
use op_rbuilder.Evm.{Evm}
use op_rbuilder.Context.{PayloadBuilderError, panicked, block_number_mismatch, other}
use op_rbuilder.Context.Sidecar.{ensure}
use op_rbuilder.Flashblocks.Headers.{
  Header, FlashblockBase, SealCtx, block_gas_limit, withdrawals, extra_data, blob_fields,
}
use op_rbuilder.Flashblocks.Outputs.{Sealer, BuiltPayload, FlashblockPayload}
use op_rbuilder.Flashblocks.Slices.{take_slice}

module _ (evm : Evm) (sealer : Sealer evm) where
  open evm use {Db, Receipt}
  open sealer use {Bundle, Trie, Hashed}

  -- `zip` and `collect` of the receipts by their transactions' hashes
  unfoldable pub receipts_by_hash : Map Receipt → List Tx → List Receipt → Map Receipt
  receipts_by_hash m (tx ∷ txs) (r ∷ rs) = receipts_by_hash (insert tx.tx_hash r m) txs rs
  receipts_by_hash m txs rs = m

  unfoldable pub state_root : Bool → Bundle → Result PayloadBuilderError (Hash × (Trie × Hashed))
  state_root calculate bundle =
      if calculate
      then (let hashed_state = sealer.hashed_post_state bundle in
          ok_or other (sealer.state_root_with_updates hashed_state) >>= λ root.
          ok (root.0, (root.1, hashed_state)))
      else ok (0, (sealer.default_trie, sealer.default_hashed))

  -- The hash of the requests, and the root of the withdrawals
  unfoldable pub withdrawals_fields :
      SealCtx → Bundle → Result PayloadBuilderError (Option Hash × Option Hash)
  withdrawals_fields c bundle =
      if c.is_isthmus_active
      then (ok_or other (sealer.withdrawals_root bundle) >>= λ root.
          ok (some sealer.empty_requests_hash, some root))
      else if c.builder.is_canyon_active
      then ok (none, some sealer.empty_withdrawals)
      else ok (none, none)

  -- What `build_block` computes from the state and the chain
  pub record Parts : Type 0 where
    pub receipts_root : Hash
    pub logs_bloom : ℕ
    pub state_root : Hash
    pub trie_output : Trie
    pub hashed_state : Hashed
    pub requests_hash : Option Hash
    pub withdrawals_root : Option Hash
    pub excess_blob_gas : Option ℕ
    pub blob_gas_used : Option ℕ
    pub extra_data : ℕ
    pub parent_beacon_block_root : Hash

  -- The slices from the last flashblock's index on are within their lists.
  unfoldable pub is_in_range : ExecutionInfo Tx Receipt → Bool
  is_in_range info =
      not (ltb (length info.executed_transactions) info.extra.last_flashblock_index)
      && not (ltb (length info.receipts) info.extra.last_flashblock_index)

  -- Every failure of `build_block`, in the order of the code
  unfoldable pub parts :
      SealCtx → Bool → Bundle → ExecutionInfo Tx Receipt → Result PayloadBuilderError Parts
  parts c calculate_state_root bundle info =
      let expected = add_u64 c.parent_number 1 in
      do
        ensure (c.builder.block_number == expected)
            (block_number_mismatch expected c.builder.block_number)
        receipts_root ← ok_or other (sealer.receipts_root c.builder.timestamp info.receipts)
        logs_bloom ← ok_or other (sealer.logs_bloom info.receipts)
        (root, (trie, hashed)) ← state_root calculate_state_root bundle
        (requests_hash, withdrawals_root) ← withdrawals_fields c bundle
        (excess_blob_gas, blob_gas_used) ← blob_fields c info
        extra ← extra_data c
        ensure (is_in_range info) panicked
        parent_beacon_block_root ← ok_or other c.parent_beacon_block_root
        ok (record {
          receipts_root = receipts_root;
          logs_bloom = logs_bloom;
          state_root = root;
          trie_output = trie;
          hashed_state = hashed;
          requests_hash = requests_hash;
          withdrawals_root = withdrawals_root;
          excess_blob_gas = excess_blob_gas;
          blob_gas_used = blob_gas_used;
          extra_data = extra;
          parent_beacon_block_root = parent_beacon_block_root;
        })

  unfoldable pub header_of : SealCtx → ExecutionInfo Tx Receipt → Parts → Header
  header_of c info p = record {
    parent_hash = c.parent_hash;
    ommers_hash = sealer.empty_ommer_root_hash;
    beneficiary = c.beneficiary;
    state_root = p.state_root;
    transactions_root = sealer.transactions_root info.executed_transactions;
    receipts_root = p.receipts_root;
    withdrawals_root = p.withdrawals_root;
    logs_bloom = p.logs_bloom;
    timestamp = c.builder.timestamp;
    mix_hash = c.prev_randao;
    base_fee_per_gas = some c.builder.base_fee;
    number = add_u64 c.parent_number 1;
    gas_limit = block_gas_limit c;
    gas_used = info.cumulative_gas_used;
    extra_data = p.extra_data;
    parent_beacon_block_root = c.parent_beacon_block_root;
    blob_gas_used = p.blob_gas_used;
    excess_blob_gas = p.excess_blob_gas;
    requests_hash = p.requests_hash;
  }

  unfoldable pub payload_of :
      SealCtx → Bundle → ExecutionInfo Tx Receipt → Parts → BuiltPayload evm sealer
  unfolding header_of
  payload_of c bundle info p = record {
    id = c.payload_id;
    block = record {
      header = header_of c info p;
      transactions = info.executed_transactions;
      withdrawals = withdrawals c;
      senders = info.executed_senders;
      block_hash = sealer.hash_slow (header_of c info p);
    };
    fees = info.total_fees;
    execution_output = record {
      state = bundle;
      receipts = info.receipts;
      gas_used = info.cumulative_gas_used;
      blob_gas_used = unwrap_or p.blob_gas_used 0;
    };
    trie_updates = p.trie_output;
    hashed_state = p.hashed_state;
  }

  unfoldable pub base_of : SealCtx → Parts → FlashblockBase
  base_of c p = record {
    parent_beacon_block_root = p.parent_beacon_block_root;
    parent_hash = c.parent_hash;
    fee_recipient = c.suggested_fee_recipient;
    prev_randao = c.prev_randao;
    block_number = add_u64 c.parent_number 1;
    gas_limit = block_gas_limit c;
    timestamp = c.builder.timestamp;
    extra_data = p.extra_data;
    base_fee_per_gas = c.builder.base_fee;
  }

  unfoldable pub flashblock_of :
      SealCtx → Bundle → ExecutionInfo Tx Receipt → Parts → FlashblockPayload evm sealer
  unfolding header_of base_of
  flashblock_of c bundle info p =
      let slice = (take_slice info).0 in
      record {
        payload_id = c.payload_id;
        index = 0;
        base = some (base_of c p);
        diff = record {
          state_root = p.state_root;
          receipts_root = p.receipts_root;
          logs_bloom = p.logs_bloom;
          gas_used = info.cumulative_gas_used;
          block_hash = sealer.hash_slow (header_of c info p);
          transactions = map sealer.encoded_2718 slice.new_transactions;
          withdrawals = unwrap_or (withdrawals c) [];
          withdrawals_root = unwrap_or p.withdrawals_root 0;
          blob_gas_used = p.blob_gas_used;
        };
        receipts = receipts_by_hash [] slice.new_transactions slice.new_receipts;
        new_account_balances = sealer.balances bundle;
        block_number = add_u64 c.parent_number 1;
      }

  -- `build_block`: the payload, the message, and the block with its index moved. The state is put
  -- back as it was; where the call fails no one uses the state or the block again.
  unfoldable pub build_block :
      SealCtx
      → Db
      → ExecutionInfo Tx Receipt
      → Bool
      → Result PayloadBuilderError
          (BuiltPayload evm sealer × (FlashblockPayload evm sealer × ExecutionInfo Tx Receipt))
  build_block c db info calculate_state_root =
      let bundle = sealer.bundle_of db in
      parts c calculate_state_root bundle info >>= λ p.
      ok (payload_of c bundle info p, (flashblock_of c bundle info p, (take_slice info).1))
