-- ===== src/Scenarios/Whole.antt =====
-- Whole blocks of the standard builder, on the small node.
use op_rbuilder.Base.{◌≡◌, refl, true, false, none, some, [], ◌∷◌, ok, List}
use op_rbuilder.Standard.{Node, Job, better, freeze}
use op_rbuilder.Standard.Payload.{try_build, build_payload}
use op_rbuilder.Standard.Contents.{Contents}
use op_rbuilder.Standard.Outcomes.{Concludes, try_build-Concludes}
use op_rbuilder.Flashblocks.Outputs.{BuiltPayload}
use op_rbuilder.Scenarios.{evm, txs, tx, pooled}
use op_rbuilder.Scenarios.Adding.{given}
use op_rbuilder.Scenarios.Attributes.{deposit, attributes}
use op_rbuilder.Scenarios.Blocks.{sealer, seal_ctx}
use op_rbuilder.Transactions.{FbPooledTransaction}

abbrev pub node : Node
node = record { evm = evm; sealer = sealer; seal_ctx = seal_ctx }

abbrev pub job : Job node
job = record {
  max_da_block_size = some 100000;
  transactions = attributes;
  has_evm_env = true;
  state = some 0;
  pre_execution = λ db. some db;
  simulate = λ info db top. ok given;
  limiter = record { inner = none };
}

abbrev pub pool : List FbPooledTransaction
pool = pooled (tx 4 6 100000) ∷ pooled (tx 5 7 100000) ∷ []

try_build-Concludes_example : Concludes node (try_build node txs pool job).0
try_build-Concludes_example = try_build-Concludes node txs pool job

-- The deposit and a plain transaction of the attributes, one of the builder's at the top, two of the
-- pool, and one of the builder's at the end
abbrev pub whole : BuiltPayload evm sealer
whole = record {
  id = 1;
  block = record {
    header = record {
      parent_hash = 7;
      ommers_hash = 1;
      beneficiary = 2;
      state_root = 6;
      transactions_root = 6;
      receipts_root = 6;
      withdrawals_root = some 6;
      logs_bloom = 0;
      timestamp = 1000;
      mix_hash = 3;
      base_fee_per_gas = some 10;
      number = 5;
      gas_limit = 8000000;
      gas_used = 410000;
      extra_data = 5;
      parent_beacon_block_root = some 4;
      blob_gas_used = some 1000;
      excess_blob_gas = some 0;
      requests_hash = some 2;
    };
    transactions =
        deposit ∷ tx 3 0 60000 ∷ tx 8 0 50000 ∷ tx 4 6 100000 ∷ tx 5 7 100000 ∷ tx 9 0 50000 ∷ [];
    withdrawals = some [];
    senders = 1 ∷ 3 ∷ 8 ∷ 4 ∷ 5 ∷ 9 ∷ [];
    block_hash = 12;
  };
  fees = 400000;
  execution_output = record {
    state = 6;
    receipts = 50000 ∷ 110000 ∷ 160000 ∷ 260000 ∷ 360000 ∷ 410000 ∷ [];
    gas_used = 410000;
    blob_gas_used = 1000;
  };
  trie_updates = tt;
  hashed_state = 6;
}

pub built : (build_payload node txs pool (λ n. false) job).0 ≡ ok (better whole)
unfolding build_payload op_rbuilder.Flashblocks.Headers.extra_data
    op_rbuilder.Standard.Sealing.build op_rbuilder.Standard.execute
    op_rbuilder.Context.Sequencer.execute_sequencer_transactions
    op_rbuilder.Context.Sequencer.execute_all op_rbuilder.Context.Sequencer.execute_sequencer_tx
    op_rbuilder.Context.Sequencer.execute_recovered op_rbuilder.Context.Sequencer.depositor_nonce
    op_rbuilder.Context.Sequencer.on_error op_rbuilder.Context.Sequencer.fetch_scalar
    op_rbuilder.Context.Best.execute_best_transactions op_rbuilder.Context.Best.execute_from
    op_rbuilder.Context.Best.consider op_rbuilder.Context.Best.misses_conditional
    op_rbuilder.Context.Best.misses_interop op_rbuilder.Execution.is_tx_over_limits
    op_rbuilder.Standard.room_for op_rbuilder.Standard.fold_txs
    op_rbuilder.BuilderTxs.add_builder_txs op_rbuilder.BuilderTxs.add_from
    op_rbuilder.BuilderTxs.add_builder_tx op_rbuilder.Context.append op_rbuilder.Context.charge
    op_rbuilder.Context.Sequencer.commit_result op_rbuilder.Context.Sequencer.charge_sequencer_da
    op_rbuilder.Execution.with_capacity op_rbuilder.Execution.check_da_footprint
    op_rbuilder.Flashblocks.Headers.block_gas_limit op_rbuilder.Execution.check_gas_limit
    op_rbuilder.Context.Best.on_fitting op_rbuilder.Context.Best.simulate
    op_rbuilder.Context.Best.on_simulated op_rbuilder.GasLimiter.consume_gas
    op_rbuilder.GasLimiter.refresh op_rbuilder.Context.Best.settle op_rbuilder.Context.Best.include
    op_rbuilder.Context.add_fees op_rbuilder.Context.Best.exclude_reverting_txs
    op_rbuilder.Standard.Sealing.seal op_rbuilder.Standard.Sealing.parts
    op_rbuilder.Flashblocks.Headers.blob_fields op_rbuilder.Standard.Sealing.withdrawals_fields
    op_rbuilder.Standard.Sealing.payload_of op_rbuilder.Flashblocks.Headers.withdrawals
    op_rbuilder.Context.build_receipt
built = refl
