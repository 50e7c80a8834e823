-- ===== src/Scenarios/Agreeing.antt =====
-- A block of the attributes alone, by both builders, and the standard builder's own transaction.
use op_rbuilder.Base.{
  ◌≤◌, ◌≡◌, refl, true, false, none, some, [], ◌∷◌, ok, err, Result, arith, List, map,
}
use op_rbuilder.Flashblocks.Headers.{SealCtx}
use op_rbuilder.Flashblocks.Building.{Chain, FlashblockError, Site}
use op_rbuilder.Flashblocks.Blocks.{Job, initial, build_fallback, build_payload, prepare}
use op_rbuilder.Flashblocks.Outputs.{BuiltPayload}
use op_rbuilder.BuilderTxs.{BuilderTransactionCtx, simulated}
use op_rbuilder.BuilderTxs.Base.{simulate_builder_tx}
use op_rbuilder.BuilderTxs.Within.{total_at, gas_limit_of}
use op_rbuilder.Transactions.{Tx}
use op_rbuilder.Standard.{StandardError, BuildOutcomeKind, better, freeze, aborted, cancelled}
use op_rbuilder.Standard.Payload.{try_build}
use op_rbuilder.Standard.Agrees.{node_of, job_of, try_build-Agrees}
use op_rbuilder.Standard.Reserved.{reserved_gas}
use op_rbuilder.Standard.Keeps.{plain, with_plain, reserved_gas-covers}
use op_rbuilder.Scenarios.{evm, txs, tx}
use op_rbuilder.Scenarios.Adding.{given}
use op_rbuilder.Scenarios.Attributes.{deposit, attributes, sequenced, attributes-sequenced}
use op_rbuilder.Scenarios.Blocks.{sealer, seal_ctx}
use op_rbuilder.Scenarios.Cutting.{config}
use op_rbuilder.Scenarios.Signing.{calls, hashes, signer, reader}
use op_rbuilder.Scenarios.Whole
use op_rbuilder.Scenarios.Limits

abbrev chain : Chain
chain = record {
  evm = evm;
  sealer = sealer;
  txs = txs;
  seal_ctx = record seal_ctx { no_tx_pool = true };
  sidecar = record { endpoint = []; poll_timeout = 100; max_retries = 3 };
}

abbrev job : Job chain
job = record {
  timing = config;
  build_at_interval_end = true;
  now = 999100000000;
  disable_state_root = false;
  max_da_block_size = some 100000;
  transactions = attributes;
  db = 0;
  pre_execution = λ db. some db;
  simulate = λ info db top. ok given;
  limiter = record { inner = none };
  pool = [];
  publishes = true;
  sends = true;
}

abbrev ended : Result FlashblockError (Unit {0}) × Site chain
ended = build_fallback chain job (initial chain job sequenced.0 sequenced.1)

job-ended : build_payload chain job [] ≡ ok ended
unfolding build_payload prepare op_rbuilder.Flashblocks.Blocks.execute_pre_steps
    op_rbuilder.Flashblocks.Timing.flashblocks_per_block op_rbuilder.Flashblocks.Sealing.build_block
    op_rbuilder.Flashblocks.Sealing.parts op_rbuilder.Flashblocks.Sealing.state_root
    op_rbuilder.Flashblocks.Sealing.withdrawals_fields op_rbuilder.Flashblocks.Headers.blob_fields
    op_rbuilder.Flashblocks.Headers.extra_data op_rbuilder.Flashblocks.Sealing.is_in_range
job-ended =
    rw
      (
        attributes-sequenced, build_payload, prepare,
        op_rbuilder.Flashblocks.Blocks.execute_pre_steps,
      )
      refl

abbrev kept : BuiltPayload evm sealer
kept = record {
  id = 1;
  block = record {
    header = record {
      parent_hash = 7;
      ommers_hash = 1;
      beneficiary = 2;
      state_root = 2;
      transactions_root = 2;
      receipts_root = 2;
      withdrawals_root = some 2;
      logs_bloom = 0;
      timestamp = 1000;
      mix_hash = 3;
      base_fee_per_gas = some 10;
      number = 5;
      gas_limit = 8000000;
      gas_used = 110000;
      extra_data = 5;
      parent_beacon_block_root = some 4;
      blob_gas_used = some 200;
      excess_blob_gas = some 0;
      requests_hash = some 2;
    };
    transactions = deposit ∷ tx 3 0 60000 ∷ [];
    withdrawals = some [];
    senders = 1 ∷ 3 ∷ [];
    block_hash = 4;
  };
  fees = 0;
  execution_output = record {
    state = 2;
    receipts = 50000 ∷ 110000 ∷ [];
    gas_used = 110000;
    blob_gas_used = 200;
  };
  trie_updates = tt;
  hashed_state = 2;
}

best-kept : ended.1.best ≡ some kept
unfolding build_fallback op_rbuilder.Flashblocks.Sealing.build_block
    op_rbuilder.Flashblocks.Sealing.parts op_rbuilder.Flashblocks.Sealing.state_root
    op_rbuilder.Flashblocks.Sealing.withdrawals_fields op_rbuilder.Flashblocks.Headers.blob_fields
    initial op_rbuilder.Flashblocks.Headers.extra_data op_rbuilder.Flashblocks.Sealing.is_in_range
    op_rbuilder.Flashblocks.Sealing.payload_of op_rbuilder.Flashblocks.Headers.block_gas_limit
    op_rbuilder.Flashblocks.Headers.withdrawals
best-kept = refl

try_build-Agrees_example :
    (try_build (node_of chain) txs (Whole.pool) (job_of chain job)).0 ≡ ok (freeze kept)
try_build-Agrees_example =
    try_build-Agrees chain refl txs Whole.pool job [] ended kept job-ended best-kept

abbrev base : BuilderTransactionCtx
base = record { gas_used = 21080; da_size = 100; signed_tx = tx 8 0 21080; is_top_of_block = false }

based : simulate_builder_tx calls seal_ctx (some signer) 2 ≡ ok (some base)
unfolding op_rbuilder.BuilderTxs.estimate_builder_tx_gas simulate_builder_tx
    op_rbuilder.TxSigner.sign_tx
based = refl

reserved_gas-covers_example :
    total_at gas_limit_of false
      (simulated (plain Whole.node calls hashes signer 0 sequenced.0 4 false))
    ≤ reserved_gas Whole.node
        (with_plain Whole.node calls hashes signer 0 Whole.job)
        (Limits.site (record { inner = none }))
unfolding op_rbuilder.BuilderTxs.estimate_builder_tx_gas
reserved_gas-covers_example =
    reserved_gas-covers Whole.node calls hashes signer 0 reader Whole.job
      (Limits.site (record { inner = none }))
      (record { info = sequenced.0; db = 4; limiter = record { inner = none } }) (some base)
      (omega arith) based

abbrev transactions_of : Result StandardError (BuildOutcomeKind (BuiltPayload evm sealer)) → List Tx
transactions_of (ok (better p)) = p.block.transactions
transactions_of (ok (freeze p)) = p.block.transactions
transactions_of (ok (aborted fees)) = []
transactions_of (ok cancelled) = []
transactions_of (err e) = []

-- The builder's own transactions are in a block of the attributes alone too.
synced :
    map
      (λ (t : Tx). t.signer)
      (transactions_of
        (try_build
          (node_of chain)
          txs
          Whole.pool
          (record (job_of chain job) { simulate = λ info db top. ok given })).0)
    ≡ 1 ∷ 3 ∷ 8 ∷ 9 ∷ []
unfolding try_build op_rbuilder.Flashblocks.Headers.extra_data op_rbuilder.Standard.Sealing.build
    op_rbuilder.Standard.execute op_rbuilder.Context.Sequencer.execute_sequencer_transactions
    op_rbuilder.Context.Sequencer.execute_all op_rbuilder.Context.Sequencer.execute_sequencer_tx
    op_rbuilder.Context.Sequencer.execute_recovered op_rbuilder.Context.Sequencer.depositor_nonce
    op_rbuilder.Context.Sequencer.on_error op_rbuilder.Context.Sequencer.fetch_scalar
    op_rbuilder.Standard.Sealing.seal op_rbuilder.Standard.Sealing.parts
    op_rbuilder.Flashblocks.Headers.blob_fields op_rbuilder.BuilderTxs.add_builder_txs
    op_rbuilder.BuilderTxs.add_from op_rbuilder.BuilderTxs.add_builder_tx op_rbuilder.Context.append
    op_rbuilder.Context.charge op_rbuilder.Context.Sequencer.commit_result
    op_rbuilder.Context.Sequencer.charge_sequencer_da op_rbuilder.Execution.with_capacity
    op_rbuilder.Standard.Sealing.withdrawals_fields op_rbuilder.Standard.Sealing.payload_of
synced = refl
