-- ===== src/Scenarios/Building.antt =====
-- Blocks that are built on the small node.
use op_rbuilder.Base.{map, ◌≡◌, ◌↔◌, refl, inl, none, some, List, [], ◌∷◌, arith, All, ok}
use op_rbuilder.Execution.{ExecutionInfo, is_tx_over_limits, with_capacity}
use op_rbuilder.Execution.Limits.{Fits, InRange, is_tx_over_limits_iff}
use op_rbuilder.Execution.Bounded.{Bounded}
use op_rbuilder.Context.Best.{Build, done, execute_best_transactions, no_counts}
use op_rbuilder.Context.Loop.{Ends, execute_best_transactions-Ends}
use op_rbuilder.Context.Block.{Returns, best-Bounded}
use op_rbuilder.Context.Entries.{Entry, Lawful, Handed, Executed, InWords, Accounts, best-Accounts}
use op_rbuilder.Scenarios.{
  call, evm-metered, limits, pooled, tx, empty_info, limits-SmallLimits, empty-Bounded,
}

-- Signer 4 has two transactions, of which the second reverts; that of signer 5 is too large.
abbrev start : Build call
start = record {
  info = empty_info;
  db = 0;
  best_txs = pooled (tx 4 6 100000) ∷ pooled (tx 4 7 100000) ∷ pooled (tx 5 0 2000000) ∷ [];
  limiter = record { inner = none };
  counts = no_counts;
}

abbrev after : Build call
after = record {
  info = record empty_info {
    executed_transactions = tx 4 6 100000 ∷ tx 4 7 100000 ∷ [];
    executed_senders = 4 ∷ 4 ∷ [];
    receipts = 100000 ∷ 200000 ∷ [];
    cumulative_gas_used = 200000;
    cumulative_da_bytes_used = 200;
    total_fees = 400000;
  };
  db = 2;
  best_txs = [];
  limiter = record { inner = none };
  counts = record {
    considered = 3;
    simulated = 2;
    success = 1;
    fail = 1;
    bundles_reverted = 0;
    reverted_gas_used = 100000;
  };
}

start-Returns : Returns call start after
unfolding execute_best_transactions op_rbuilder.Context.Best.execute_from
    op_rbuilder.Context.Best.consider op_rbuilder.Context.Best.misses_conditional
    op_rbuilder.Context.Best.misses_interop op_rbuilder.Context.Best.on_fitting
    op_rbuilder.Context.Best.simulate op_rbuilder.Context.Best.on_simulated
    op_rbuilder.Context.Best.settle op_rbuilder.Context.Best.include
    op_rbuilder.Context.Best.exclude_reverting_txs op_rbuilder.Context.Best.count_result
    op_rbuilder.Context.Best.reject is_tx_over_limits op_rbuilder.Execution.check_da_footprint
    op_rbuilder.Execution.check_gas_limit op_rbuilder.GasLimiter.consume_gas
    op_rbuilder.Context.append op_rbuilder.Context.add_fees op_rbuilder.Context.charge
    op_rbuilder.Context.build_receipt op_rbuilder.Context.charge_da op_rbuilder.Context.charge_gas
start-Returns = inl refl

empty-InWords : InWords call empty_info
empty-InWords = record { gas = omega arith; da = omega arith; fees = omega arith }

best-Accounts_example :
    (es : List Entry) × All (Lawful call) es
    × Handed call (map (λ e. e.pooled) es) start.best_txs
    × Executed call es 0 after.db
    × Accounts call es empty_info after.info
best-Accounts_example = best-Accounts call start after empty-InWords start-Returns

best-Bounded_example : Bounded limits after.info
best-Bounded_example =
    best-Bounded call start after evm-metered limits-SmallLimits empty-Bounded start-Returns

execute_best_transactions-Ends_example :
    Ends call empty_info 0 start.best_txs (execute_best_transactions call start)
execute_best_transactions-Ends_example = execute_best_transactions-Ends call start

in_range : InRange empty_info 100 100000 limits
in_range = record { da_range = omega arith; gas_range = omega arith; footprint_range = omega arith }

is_tx_over_limits_iff_example :
    (is_tx_over_limits empty_info 100 100000 (some 2) limits ≡ ok tt)
    ↔ Fits empty_info 100 100000 (some 2) limits
is_tx_over_limits_iff_example = is_tx_over_limits_iff empty_info 100 100000 (some 2) limits in_range
