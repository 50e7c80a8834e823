-- ===== src/Standard/Sealing.antt =====
-- `OpBuilder::build` of builders/standard/payload.rs: the payload of an executed block.
use op_rbuilder.Base.{
  Bool, Option, none, some, if◌then◌else◌, add_u64, unwrap_or, Result, ok, err, ◌>>=◌, ok_or, ℕ,
}
use op_rbuilder.Transactions.{Hash, Tx}
use op_rbuilder.BestTxs.{PayloadTransactions}
use op_rbuilder.GasLimiter.{AddressGasLimiter}
use op_rbuilder.Execution.{ExecutionInfo}
use op_rbuilder.Context.{PayloadBuilderError, panicked, other}
use op_rbuilder.Flashblocks.Headers.{Header, block_gas_limit, withdrawals, extra_data, blob_fields}
use op_rbuilder.Flashblocks.Outputs.{BuiltPayload}
use op_rbuilder.Standard.{
  Node, StandardError, payload_error, BuildOutcomeKind, better, freeze, aborted, cancelled, Job,
  Site, Run, execute,
}

module _ (node : Node) where
  open node use {evm, sealer, seal_ctx}
  open node.evm use {Db, Receipt}
  open node.sealer use {Bundle, Trie, Hashed}

  -- What `build` computes from the state and the chain
  pub record Parts : Type 0 where
    pub excess_blob_gas : Option ℕ
    pub blob_gas_used : Option ℕ
    pub receipts_root : Hash
    pub logs_bloom : ℕ
    pub hashed_state : Hashed
    pub state_root : Hash
    pub trie_output : Trie
    pub withdrawals_root : Option Hash
    pub requests_hash : Option Hash
    pub extra_data : ℕ

  -- The root of the withdrawals, and the hash of the requests
  unfoldable pub withdrawals_fields :
      Bundle → Result PayloadBuilderError (Option Hash × Option Hash)
  withdrawals_fields bundle =
      if seal_ctx.is_isthmus_active
      then (ok_or other (sealer.withdrawals_root bundle) >>= λ root.
          ok (some root, some sealer.empty_requests_hash))
      else if seal_ctx.builder.is_canyon_active
      then ok (some sealer.empty_withdrawals, none)
      else ok (none, none)

  -- Every failure of `build`, in the order of the code; the two that `expect` are panics.
  unfoldable pub parts : Bundle → ExecutionInfo Tx Receipt → Result PayloadBuilderError Parts
  parts bundle info = do
    (excess_blob_gas, blob_gas_used) ← blob_fields seal_ctx info
    receipts_root ← ok_or panicked (sealer.receipts_root seal_ctx.builder.timestamp info.receipts)
    logs_bloom ← ok_or panicked (sealer.logs_bloom info.receipts)
    let hashed_state = sealer.hashed_post_state bundle
    (state_root, trie_output) ← ok_or other (sealer.state_root_with_updates hashed_state)
    (withdrawals_root, requests_hash) ← withdrawals_fields bundle
    extra ← extra_data seal_ctx
    ok (record {
      excess_blob_gas = excess_blob_gas;
      blob_gas_used = blob_gas_used;
      receipts_root = receipts_root;
      logs_bloom = logs_bloom;
      hashed_state = hashed_state;
      state_root = state_root;
      trie_output = trie_output;
      withdrawals_root = withdrawals_root;
      requests_hash = requests_hash;
      extra_data = extra;
    })

  unfoldable pub header_of : ExecutionInfo Tx Receipt → Parts → Header
  header_of info p = record {
    parent_hash = seal_ctx.parent_hash;
    ommers_hash = sealer.empty_ommer_root_hash;
    beneficiary = seal_ctx.beneficiary;
    state_root = p.state_root;
    transactions_root = sealer.transactions_root info.executed_transactions;
    receipts_root = p.receipts_root;
    withdrawals_root = p.withdrawals_root;
    logs_bloom = p.logs_bloom;
    timestamp = seal_ctx.builder.timestamp;
    mix_hash = seal_ctx.prev_randao;
    base_fee_per_gas = some seal_ctx.builder.base_fee;
    number = add_u64 seal_ctx.parent_number 1;
    gas_limit = block_gas_limit seal_ctx;
    gas_used = info.cumulative_gas_used;
    extra_data = p.extra_data;
    parent_beacon_block_root = seal_ctx.parent_beacon_block_root;
    blob_gas_used = p.blob_gas_used;
    excess_blob_gas = p.excess_blob_gas;
    requests_hash = p.requests_hash;
  }

  unfoldable pub payload_of : Bundle → ExecutionInfo Tx Receipt → Parts → BuiltPayload evm sealer
  unfolding header_of
  payload_of bundle info p = record {
    id = seal_ctx.payload_id;
    block = record {
      header = header_of info p;
      transactions = info.executed_transactions;
      withdrawals = withdrawals seal_ctx;
      senders = info.executed_senders;
      block_hash = sealer.hash_slow (header_of info p);
    };
    fees = info.total_fees;
    execution_output = record {
      state = bundle;
      receipts = info.receipts;
      gas_used = info.cumulative_gas_used;
      blob_gas_used = unwrap_or p.blob_gas_used 0;
    };
    trie_updates = p.trie_output;
    hashed_state = p.hashed_state;
  }

  -- From the merge of the state's transitions to the payload
  unfoldable pub seal : Site node → Result PayloadBuilderError (BuiltPayload evm sealer)
  seal s =
      let bundle = sealer.bundle_of s.db in
      parts bundle s.info >>= λ p. ok (payload_of bundle s.info p)

  -- A payload of the attributes alone is not built again.
  unfoldable pub kind_of : BuiltPayload evm sealer → BuildOutcomeKind (BuiltPayload evm sealer)
  kind_of payload = if seal_ctx.no_tx_pool then freeze payload else better payload

  unfoldable pub on_sealed :
      Result PayloadBuilderError (BuiltPayload evm sealer)
      → Result StandardError (BuildOutcomeKind (BuiltPayload evm sealer))
  unfolding kind_of
  on_sealed (ok payload) = ok (kind_of payload)
  on_sealed (err e) = err (payload_error e)

  unfoldable pub on_executed : Run node (Site node) → Run node (BuiltPayload evm sealer)
  unfolding on_sealed
  on_executed (ok (better s), limiter) = (on_sealed (seal s), limiter)
  on_executed (ok (freeze s), limiter) = (on_sealed (seal s), limiter)
  on_executed (ok (aborted fees), limiter) = (ok (aborted fees), limiter)
  on_executed (ok cancelled, limiter) = (ok cancelled, limiter)
  on_executed (err e, limiter) = (err e, limiter)

  -- `OpBuilder::build`
  unfoldable pub build :
      (txs : PayloadTransactions)
      → txs.Txs
      → (ℕ → Bool)
      → Job node
      → Db
      → AddressGasLimiter
      → Run node (BuiltPayload evm sealer)
  unfolding on_executed
  build txs pool cancel j db limiter = on_executed (execute node txs pool cancel j db limiter)
