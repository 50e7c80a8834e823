-- ===== src/Context/Uncancelled.antt =====
-- `execute_best_transactions` under a token that no one cancels.
use op_rbuilder.Base.{ℕ, zero, suc, ◌+◌, ◌≡◌, ◌≢◌, refl, false, arith, inl, inr, Option-cases}
use op_rbuilder.Transactions.{FbPooledTransaction}
use op_rbuilder.Context.Best.{
  BestCall, Build, Flow, go_on, was_cancelled, failed, cancelled_at, resume, reject, include,
  settle, on_simulated, simulate, on_fitting, consider, no_counts, execute_from,
  execute_best_transactions,
}

module _ (call : BestCall) (never : (n : ℕ) → call.ctx.cancelled n ≡ false) where
  open call use {txs}

  consider-ne-was_cancelled :
      (b b' : Build call) (p : FbPooledTransaction) → consider call b p ≢ was_cancelled b'
  unfolding consider on_fitting simulate on_simulated settle include reject
  consider-ne-was_cancelled b b' p e = ground (arith, never (b.counts.considered + 1))

  resume-ne-cancelled_at :
      (fuel : ℕ) (flow : Flow call)
      → ((b : Build call) → flow ≢ was_cancelled b)
      → ((b b' : Build call) → execute_from call fuel b ≢ cancelled_at b')
      → (b' : Build call) → resume call (execute_from call fuel) flow ≢ cancelled_at b'
  resume-ne-cancelled_at fuel (go_on b) h ih b' e = ih b b' e
  resume-ne-cancelled_at fuel (was_cancelled b) h ih b' e = h b refl
  resume-ne-cancelled_at fuel (failed x b) h ih b' e = absurd (ground arith)

  execute_from-ne-cancelled_at :
      (fuel : ℕ) (b b' : Build call) → execute_from call fuel b ≢ cancelled_at b'
  unfolding execute_from
  execute_from-ne-cancelled_at zero b b' = λ e. absurd (ground arith)
  execute_from-ne-cancelled_at (suc fuel) b b' = elim (Option-cases (txs.next b.best_txs).0) [
    | inl nothing ↦ rw (nothing, execute_from) (λ e. absurd (ground arith))
    | inr (p, handed) ↦
        rw (handed, execute_from)
          (resume-ne-cancelled_at fuel _ (λ c. consider-ne-was_cancelled _ c p)
            (execute_from-ne-cancelled_at fuel) b')
  ]

  pub execute_best_transactions-ne-cancelled_at :
      (b b' : Build call) → execute_best_transactions call b ≢ cancelled_at b'
  unfolding execute_best_transactions
  execute_best_transactions-ne-cancelled_at b b' =
      execute_from-ne-cancelled_at (suc (txs.remaining b.best_txs))
        (record b { counts = no_counts }) b'
