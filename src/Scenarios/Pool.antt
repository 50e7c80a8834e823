-- ===== src/Scenarios/Pool.antt =====
-- The gas limiter, the iterator, the bundles and the sidecar's polls on small inputs.
use op_rbuilder.Base.{
  ℕ, ◌+◌, ◌≤◌, ◌≡◌, ◌≢◌, ◌↔◌, ◌⊎◌, refl, true, false, Option, none, some, List, [], ◌∷◌, arith, ok,
  err, ok_or, length, min, map_values,
}
use op_rbuilder.Transactions.{OpPooledTransaction, FbPooledTransaction}
use op_rbuilder.GasLimiter.{AddressGasLimiterInner, refill, refresh_inner}
use op_rbuilder.GasLimiter.Bounds.{
  available, IsValid, available-refresh_inner, refresh_inner_removes_nothing,
}
use op_rbuilder.GasLimiter.Rate.{
  Call, consume, new_block, total_granted, total_refills, total_granted_bounded,
}
use op_rbuilder.BestTxs.{BestFlashblocksTxs, next, refresh_iterator, mark_commited}
use op_rbuilder.BestTxs.Iterator.{Yields, next-Yields}
use op_rbuilder.BestTxs.Finite.{committed_never_returned}
use op_rbuilder.Bundle.{Bundle, min_greater_than_max, conditional}
use op_rbuilder.Bundle.Ranges.{
  RangeIsValid, conditional_of, Explains, conditional_iff, conditional-Explains,
}
use op_rbuilder.RevertProtection.{Node, EthApiError, pool_error, send_bundle}
use op_rbuilder.RevertProtection.Bundles.{Carries, send_bundle_cases}
use op_rbuilder.SidecarClient.{SidecarConfig, PollResponse, Polled, poll_transactions}
use op_rbuilder.SidecarClient.Polls.{Ends, poll_transactions-Ends}
use op_rbuilder.Scenarios.{txs, tx, pooled}

-- The address 9 has used most of its gas, and 8 is not known yet.
abbrev limiter : AddressGasLimiterInner
limiter = record {
  config = record {
    gas_limiter_enabled = true;
    max_gas_per_address = 1000;
    refill_rate_per_block = 50;
    cleanup_interval = 2;
  };
  address_buckets = (9, record { capacity = 1000; available = 10 }) ∷ [];
}

limiter-IsValid : IsValid limiter
limiter-IsValid = ((refl, omega arith), tt)

abbrev calls : List Call
calls = consume 9 10 ∷ consume 9 1 ∷ new_block 4 ∷ consume 9 50 ∷ consume 8 1000 ∷ []

total_granted_bounded_example : total_granted 9 limiter calls ≤ 1000 + total_refills 50 calls
total_granted_bounded_example = total_granted_bounded 9 limiter calls limiter-IsValid

available-refresh_inner_example :
    available (refresh_inner limiter 4).0 9 ≡ min 1000 (available limiter 9 + 50)
available-refresh_inner_example = available-refresh_inner limiter 4 9 limiter-IsValid (omega arith)

refresh_inner_removes_nothing_example :
    ((refresh_inner limiter 4).0.address_buckets ≡ map_values (refill 50) limiter.address_buckets)
    × ((refresh_inner limiter 4).1 ≡ 0)
refresh_inner_removes_nothing_example = refresh_inner_removes_nothing limiter 4

-- The first is committed, the second is for later flashblocks, and the third is returned.
abbrev best : BestFlashblocksTxs txs
best = record {
  inner =
      pooled (tx 4 6 100)
      ∷ record (pooled (tx 5 0 100)) { flashblock_number_min = some 3 }
      ∷ pooled (tx 6 1 100)
      ∷ [];
  current_flashblock_number = 2;
  commited_transactions = 10 ∷ [];
}

next-Yields_example : Yields txs (next txs best).0 (next txs best).1 best
next-Yields_example = next-Yields txs best

committed_never_returned_example :
    (next txs (refresh_iterator txs (mark_commited txs best (7 ∷ [])) best.inner 3)).0
    ≢ some (pooled (tx 6 1 100))
committed_never_returned_example =
    committed_never_returned txs best (7 ∷ []) best.inner 3 (pooled (tx 6 1 100)) refl

abbrev bundle : Bundle
bundle = record {
  transactions = 77 ∷ [];
  reverting_hashes = none;
  block_number_min = some 101;
  block_number_max = some 105;
  flashblock_number_min = some 1;
  flashblock_number_max = some 3;
  min_timestamp = none;
  max_timestamp = none;
}

conditional_iff_example :
    (conditional bundle 100 ≡ ok (conditional_of bundle 100)) ↔ RangeIsValid bundle 100
conditional_iff_example = conditional_iff bundle 100 (omega arith)

abbrev backwards : Bundle
backwards = record bundle { block_number_min = some 106 }

conditional-Explains_example : Explains backwards 100 (min_greater_than_max 106 105)
unfolding conditional
conditional-Explains_example = conditional-Explains backwards 100 (omega arith) refl

abbrev recovered : OpPooledTransaction
recovered = (pooled (tx 4 6 100)).inner

-- The pool is the list of what was added.
abbrev node : Node
node = record {
  Pool = List FbPooledTransaction;
  Receipt = ℕ;
  best_block_number = some 100;
  recover_raw_transaction = λ raw. some recovered;
  add_transaction = λ pool t. (some 10, t ∷ pool);
  transaction_receipt = λ hash. some none;
}

send_bundle_cases_example :
    ((e : EthApiError) × (send_bundle node [] bundle ≡ (err e, [])))
    ⊎ ((t : FbPooledTransaction) × Carries bundle 100 t
        × (send_bundle node [] bundle ≡ (ok_or pool_error (some 10), t ∷ [])))
send_bundle_cases_example = send_bundle_cases node 100 refl (omega arith) [] bundle

abbrev sidecar : SidecarConfig
sidecar = record { endpoint = 104 ∷ []; poll_timeout = 200; max_retries = 2 }

-- The first request is held, the second is answered.
abbrev respond : ℕ → Option PollResponse
respond ℕ.zero = some (record { hold = true; poll_after_ms = some 20; transactions = [] })
respond (ℕ.suc n) = some (record { hold = false; poll_after_ms = none; transactions = [] })

poll_transactions-Ends_example :
    (end : Polled) × Ends sidecar respond 0 2 end
    × (poll_transactions sidecar respond 3 ≡ some end)
    × (length end.1 ≤ 2)
unfolding op_rbuilder.SidecarClient.is_enabled
poll_transactions-Ends_example = poll_transactions-Ends sidecar respond refl (omega arith)
