-- ===== src/Scenarios/Adding.antt =====
-- The builder's transactions, on the small node.
use op_rbuilder.Base.{◌+◌, ◌*◌, ◌≡◌, true, false, List, [], ◌∷◌, ok}
use op_rbuilder.BuilderTxs.{
  BuilderTransactionCtx, Simulate, add_builder_txs, estimate_builder_tx_gas,
}
use op_rbuilder.BuilderTxs.Rounds.{
  AddsTo, add_builder_txs-AddsTo, estimate_builder_tx_gas-eq_floor, zeros, nonzeros,
}
use op_rbuilder.Scenarios.{evm, ctx, tx, empty_info}

-- One for the top of the block, one of a signer that reverts, its next one, and one of another.
abbrev pub given : List BuilderTransactionCtx
given =
    record { gas_used = 50000; da_size = 100; signed_tx = tx 8 0 50000; is_top_of_block = true }
    ∷ record { gas_used = 50000; da_size = 100; signed_tx = tx 6 7 50000; is_top_of_block = false }
    ∷ record { gas_used = 50000; da_size = 100; signed_tx = tx 6 8 50000; is_top_of_block = false }
    ∷ record { gas_used = 50000; da_size = 100; signed_tx = tx 9 0 50000; is_top_of_block = false }
    ∷ []

abbrev simulate : Simulate evm ctx
simulate info db top_of_block = ok given

add_builder_txs-AddsTo_example :
    AddsTo evm ctx false given
      (empty_info, 0)
      (add_builder_txs evm ctx simulate empty_info 0 false).1
add_builder_txs-AddsTo_example = add_builder_txs-AddsTo evm ctx simulate empty_info 0 false

estimate_builder_tx_gas-eq_floor_example :
    estimate_builder_tx_gas (0 ∷ 66 ∷ 0 ∷ 5 ∷ [])
    ≡ 21000 + 10 * zeros (0 ∷ 66 ∷ 0 ∷ 5 ∷ []) + 40 * nonzeros (0 ∷ 66 ∷ 0 ∷ 5 ∷ [])
estimate_builder_tx_gas-eq_floor_example = estimate_builder_tx_gas-eq_floor (0 ∷ 66 ∷ 0 ∷ 5 ∷ [])
