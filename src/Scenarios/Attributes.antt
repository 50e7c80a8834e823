-- ===== src/Scenarios/Attributes.antt =====
-- The transactions of the payload attributes and those of a sidecar, on the small node.
use op_rbuilder.Base.{ℕ, ◌≡◌, ◌≢◌, refl, true, false, none, some, List, [], ◌∷◌, arith, ok, err}
use op_rbuilder.Transactions.{Tx}
use op_rbuilder.Context.Aligned.{Aligned}
use op_rbuilder.Execution.{with_capacity}
use op_rbuilder.Execution.Bounded.{Bounded}
use op_rbuilder.Evm.{fatal_error}
use op_rbuilder.Context.Sequencer.{SequencerTx, Progress, execute_sequencer_transactions}
use op_rbuilder.Context.Sequencer.Laws.{Sequenced, execute_sequencer_transactions-ok}
use op_rbuilder.Context.Sequencer.Returns.{IsRunnable, execute_sequencer_transactions-returns}
use op_rbuilder.Context.Sidecar.{ExternalTransaction, execute_sidecar_transactions}
use op_rbuilder.Context.Sidecar.Required.{Means, execute_sidecar_transactions-Means}
use op_rbuilder.Context.Sidecar.Blocks.{
  execute_sidecar_transactions-Aligned, execute_sidecar_transactions-Bounded,
}
use op_rbuilder.Scenarios.{
  evm, ctx, evm-metered, limits, tx, empty_info, limits-SmallLimits, empty-Bounded,
}

abbrev pub deposit : Tx
deposit = record (tx 1 0 50000) { is_deposit = true }

-- A deposit, a transaction that is skipped since it is too large, and a plain one.
abbrev pub attributes : List SequencerTx
attributes =
    record { is_eip4844 = false; recovered = some deposit }
    ∷ record { is_eip4844 = false; recovered = some (tx 2 0 2000000) }
    ∷ record { is_eip4844 = false; recovered = some (tx 3 0 60000) }
    ∷ []

transact-not-fatal : (db : ℕ) (t : Tx) → evm.transact db t ≢ err fatal_error
transact-not-fatal db t e = ground arith

attributes-IsRunnable : IsRunnable evm ctx attributes
attributes-IsRunnable = record {
  no_blobs = ((refl, (_, refl)), ((refl, (_, refl)), ((refl, (_, refl)), tt)));
  loads = λ db a. (0, refl);
  reads = λ db. (2, refl);
  no_fatal = transact-not-fatal;
}

execute_sequencer_transactions-returns_example :
    (p : Progress evm ctx) × (execute_sequencer_transactions evm ctx 0 attributes ≡ ok p)
execute_sequencer_transactions-returns_example =
    execute_sequencer_transactions-returns evm ctx 0 attributes attributes-IsRunnable

abbrev pub sequenced : Progress evm ctx
sequenced = (
  record empty_info {
    executed_transactions = deposit ∷ tx 3 0 60000 ∷ [];
    executed_senders = 1 ∷ 3 ∷ [];
    receipts = 50000 ∷ 110000 ∷ [];
    cumulative_gas_used = 110000;
    cumulative_da_bytes_used = 100;
  },
  2,
)

pub attributes-sequenced : execute_sequencer_transactions evm ctx 0 attributes ≡ ok sequenced
unfolding execute_sequencer_transactions with_capacity op_rbuilder.Context.Sequencer.execute_all
    op_rbuilder.Context.Sequencer.execute_sequencer_tx
    op_rbuilder.Context.Sequencer.execute_recovered op_rbuilder.Context.Sequencer.depositor_nonce
    op_rbuilder.Context.Sequencer.on_error op_rbuilder.Context.Sequencer.fetch_scalar
    op_rbuilder.Context.Sequencer.commit_result op_rbuilder.Context.Sequencer.charge_sequencer_da
    op_rbuilder.Context.append op_rbuilder.Context.charge_gas op_rbuilder.Context.build_receipt
    op_rbuilder.Context.charge_da
attributes-sequenced = refl

execute_sequencer_transactions-ok_example :
    Sequenced attributes sequenced.0.executed_transactions
    × Aligned sequenced.0
    × (sequenced.0.total_fees ≡ 0)
    × (sequenced.0.extra.last_flashblock_index ≡ 0)
execute_sequencer_transactions-ok_example =
    execute_sequencer_transactions-ok evm ctx 0 attributes sequenced attributes-sequenced

-- An optional transaction that reverts, a required one, and an optional one that is malformed.
abbrev external : List ExternalTransaction
external =
    record { raw = some (some (tx 4 7 100000)); required = false; instance_id = none }
    ∷ record { raw = some (some (tx 5 0 100000)); required = true; instance_id = some 1 }
    ∷ record { raw = none; required = false; instance_id = none }
    ∷ []

execute_sidecar_transactions-Means_example :
    Means evm ctx limits external
      (empty_info, 0)
      (execute_sidecar_transactions evm ctx limits (empty_info, 0) external)
execute_sidecar_transactions-Means_example =
    execute_sidecar_transactions-Means evm ctx limits (empty_info, 0) external

execute_sidecar_transactions-Aligned_example :
    Aligned (execute_sidecar_transactions evm ctx limits (empty_info, 0) external).1.0
execute_sidecar_transactions-Aligned_example =
    execute_sidecar_transactions-Aligned evm ctx limits (empty_info, 0) external
      (record { senders = refl; receipts = refl })

execute_sidecar_transactions-Bounded_example :
    Bounded limits (execute_sidecar_transactions evm ctx limits (empty_info, 0) external).1.0
execute_sidecar_transactions-Bounded_example =
    execute_sidecar_transactions-Bounded evm ctx limits (empty_info, 0) external evm-metered
      limits-SmallLimits empty-Bounded
