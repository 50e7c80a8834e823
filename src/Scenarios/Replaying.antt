-- ===== src/Scenarios/Replaying.antt =====
-- A block of two transactions that another builder has sent.
use op_rbuilder.Base.{ℕ, ◌≡◌, refl, true, false, none, some, List, [], ◌∷◌, map, arith, ok}
use op_rbuilder.Transactions.{Tx}
use op_rbuilder.Execution.{ExecutionInfo, with_capacity}
use op_rbuilder.Context.Sequencer.{
  SequencerTx, execute_sequencer_tx, commit_result, execute_sequencer_transactions,
}
use op_rbuilder.Flashblocks.Headers.{Header}
use op_rbuilder.Flashblocks.Outputs.{BuiltPayload}
use op_rbuilder.Flashblocks.Sealing.{Parts, header_of, payload_of, flashblock_of}
use op_rbuilder.PayloadHandler.{
  execute_each, Progress, Received, HandlerNode, execute_transactions, execute_flashblock,
}
use op_rbuilder.PayloadHandler.Agrees.{Agree, execute_transactions-Agree}
use op_rbuilder.PayloadHandler.Capped.{Differ, over_cap-refused}
use op_rbuilder.PayloadHandler.Accepted.{Accepts, execute_flashblock-Accepts}
use op_rbuilder.Scenarios.{evm, ctx, tx}
use op_rbuilder.Scenarios.Attributes.{deposit}
use op_rbuilder.Scenarios.Blocks.{sealer, seal_ctx}

abbrev sent : List SequencerTx
sent =
    record { is_eip4844 = false; recovered = some deposit }
    ∷ record { is_eip4844 = false; recovered = some (tx 3 0 60000) }
    ∷ []

abbrev replayed : Progress evm ctx
replayed = (
  record {
    executed_transactions = deposit ∷ tx 3 0 60000 ∷ [];
    executed_senders = 1 ∷ 3 ∷ [];
    receipts = 50000 ∷ 110000 ∷ [];
    cumulative_gas_used = 110000;
    cumulative_da_bytes_used = 0;
    total_fees = 0;
    extra = record { last_flashblock_index = 0 };
    da_footprint_scalar = some 2;
    optional_blob_fields = none;
  },
  2,
)

sent-replayed :
    execute_transactions evm ctx 110000 (with_capacity 2, 0) (map (λ t. t.recovered) sent)
    ≡ ok replayed
unfolding execute_transactions with_capacity op_rbuilder.PayloadHandler.execute_each
    op_rbuilder.PayloadHandler.execute_transaction op_rbuilder.Context.Sequencer.depositor_nonce
    op_rbuilder.Context.append op_rbuilder.PayloadHandler.record_receipt
    op_rbuilder.Context.Sequencer.fetch_scalar op_rbuilder.Context.build_receipt
sent-replayed = refl

execute_transactions-Agree_example :
    (b : ExecutionInfo Tx ℕ) × (execute_sequencer_transactions evm ctx 0 sent ≡ ok (b, 2))
    × Agree evm ctx 110000 replayed.0 b
execute_transactions-Agree_example =
    execute_transactions-Agree evm ctx 110000 sent (with_capacity 2) 0 replayed (refl, (refl, tt))
      (record { transactions = refl; senders = refl; receipts = refl; gas = refl }) sent-replayed

abbrev parts : Parts evm sealer
parts = record {
  receipts_root = 2;
  logs_bloom = 0;
  state_root = 2;
  trie_output = tt;
  hashed_state = 2;
  requests_hash = some 2;
  withdrawals_root = some 2;
  excess_blob_gas = some 0;
  blob_gas_used = some 200;
  extra_data = 5;
  parent_beacon_block_root = 4;
}

abbrev block_info : ExecutionInfo Tx ℕ
block_info = record replayed.0 { optional_blob_fields = some (some 0, some 200) }

abbrev received : Received
received = record {
  header = header_of evm sealer seal_ctx block_info parts;
  extra_data = 0 ∷ 0 ∷ 0 ∷ 0 ∷ 0 ∷ 0 ∷ 0 ∷ 0 ∷ 0 ∷ 0 ∷ 0 ∷ 0 ∷ 0 ∷ 0 ∷ 0 ∷ 0 ∷ 0 ∷ [];
  block_hash = 4;
  transactions = map (λ t. t.recovered) sent;
}

abbrev node : HandlerNode evm
node = record {
  has_parent = true;
  validates = true;
  state = some 0;
  is_holocene = true;
  ctx = ctx;
  seal_ctx = λ params. seal_ctx;
}

abbrev executed : BuiltPayload evm sealer
executed = payload_of evm sealer seal_ctx 2 block_info parts

received-executed :
    execute_flashblock evm sealer node received
    ≡ ok (executed, flashblock_of evm sealer seal_ctx 2 block_info parts)
unfolding execute_flashblock execute_transactions with_capacity header_of payload_of
    op_rbuilder.PayloadHandler.parse_extra_data op_rbuilder.PayloadHandler.execute_each
    op_rbuilder.PayloadHandler.execute_transaction op_rbuilder.Context.Sequencer.depositor_nonce
    op_rbuilder.Context.append op_rbuilder.PayloadHandler.record_receipt
    op_rbuilder.Context.Sequencer.fetch_scalar op_rbuilder.Flashblocks.Sealing.build_block
    op_rbuilder.Flashblocks.Sealing.parts op_rbuilder.Flashblocks.Sealing.state_root
    op_rbuilder.Flashblocks.Sealing.withdrawals_fields op_rbuilder.Flashblocks.Headers.blob_fields
    op_rbuilder.Flashblocks.Headers.extra_data op_rbuilder.Flashblocks.Sealing.is_in_range
    op_rbuilder.Context.build_receipt
received-executed = refl

execute_flashblock-Accepts_example : Accepts evm sealer node received executed
execute_flashblock-Accepts_example =
    execute_flashblock-Accepts evm sealer node received executed
      (flashblock_of evm sealer seal_ctx 2 block_info parts) received-executed

-- A deposit above the cap of 500000
abbrev large_deposit : SequencerTx
large_deposit = record {
  is_eip4844 = false;
  recovered = some (record (tx 1 0 600000) { is_deposit = true });
}

-- The block with the deposit that comes first
abbrev begun : Progress evm ctx
begun = (
  record {
    executed_transactions = deposit ∷ [];
    executed_senders = 1 ∷ [];
    receipts = 50000 ∷ [];
    cumulative_gas_used = 50000;
    cumulative_da_bytes_used = 0;
    total_fees = 0;
    extra = record { last_flashblock_index = 0 };
    da_footprint_scalar = none;
    optional_blob_fields = none;
  },
  1,
)

abbrev first_sent : List SequencerTx
first_sent = record { is_eip4844 = false; recovered = some deposit } ∷ []

begins : execute_each evm ctx 1000000 (with_capacity 2, 0) (some deposit ∷ []) ≡ ok begun
unfolding execute_each op_rbuilder.PayloadHandler.execute_transaction
    op_rbuilder.Context.Sequencer.depositor_nonce with_capacity op_rbuilder.Context.append
    op_rbuilder.PayloadHandler.record_receipt op_rbuilder.Context.build_receipt
begins = refl

over_cap-refused_example :
    Differ evm ctx 1000000
      (with_capacity 2)
      0
      first_sent
      large_deposit
      []
      begun
      (record (tx 1 0 600000) { is_deposit = true })
      (record { result = record { is_success = true; gas_used = 600000; logs = 0 }; state = 1 })
unfolding op_rbuilder.Context.Sequencer.depositor_nonce op_rbuilder.Context.Sequencer.fetch_scalar
over_cap-refused_example =
    over_cap-refused evm ctx 1000000 (with_capacity 2) 0 first_sent large_deposit [] begun
      (record (tx 1 0 600000) { is_deposit = true }) (some 0)
      (record { result = record { is_success = true; gas_used = 600000; logs = 0 }; state = 1 })
      500000 (some 2) (refl, tt) refl
      (record { transactions = refl; senders = refl; receipts = refl; gas = refl }) begins refl refl
      refl refl (omega arith) refl
