-- ===== src/SidecarClient/Polls.antt =====
-- How the loop of `poll_transactions` ends.
use op_rbuilder.Base.{
  ℕ, zero, suc, ◌+◌, ◌%◌, ◌<◌, ◌≤◌, ◌≡◌, inl, inr, true, false, Option, none, some, [], ◌∷◌,
  unwrap_or, arith, length, Bool-cases, Option-cases, ok, err,
}
use op_rbuilder.Context.{http, hold_timeout}
use op_rbuilder.SidecarClient.{
  u32_mod, SidecarConfig, is_enabled, PollResponse, Polled, poll, poll_transactions,
}

module _ (config : SidecarConfig) (response : ℕ → Option PollResponse) where
  -- What follows from the requests from number `n` on, of which `left` may be answered by a hold
  -- before the sidecar's time is up.
  pub data Ends : ℕ → ℕ → Polled → Type 0 where
    failed : {n left : ℕ} → response n ≡ none → Ends n left (err http, [])
    answered :
        {n left : ℕ} {r : PollResponse}
        → response n ≡ some r
        → r.hold ≡ false
        → Ends n left (ok (some r.transactions), [])
    timed_out :
        {n : ℕ} {r : PollResponse}
        → response n ≡ some r
        → r.hold ≡ true
        → Ends n 0 (err (hold_timeout config.max_retries), [])
    held :
        {n left : ℕ} {r : PollResponse} {end : Polled}
        → response n ≡ some r
        → r.hold ≡ true
        → Ends (suc n) left end
        → Ends n (suc left) (end.0, unwrap_or r.poll_after_ms 50 ∷ end.1)

  poll-Ends :
      (left n retries : ℕ)
      → retries + left ≡ config.max_retries
      → config.max_retries + 1 < u32_mod
      → (end : Polled) × Ends n left end × (poll config response (suc left) n retries ≡ some end)
  unfolding poll
  poll-Ends zero n retries budget small = elim (Option-cases (response n)) [
    | inl lost ↦ ((err http, []), failed lost, ground arith)
    | inr (r, came) ↦ elim (Bool-cases r.hold) [
      | inl on ↦ ((err (hold_timeout config.max_retries), []), timed_out came on, ground arith)
      | inr off ↦ ((ok (some r.transactions), []), answered came off, ground arith)
    ]
  ]
  poll-Ends (suc left) n retries budget small = elim (Option-cases (response n)) [
    | inl lost ↦ ((err http, []), failed lost, ground arith)
    | inr (r, came) ↦ elim (Bool-cases r.hold) [
      | inl on ↦
          let (end, ends, same) =
            poll-Ends left (suc n) ((retries + 1) % u32_mod) (omega arith) small in
          ((end.0, unwrap_or r.poll_after_ms 50 ∷ end.1), held came on ends, ground arith)
      | inr off ↦ ((ok (some r.transactions), []), answered came off, ground arith)
    ]
  ]

  Ends-length : {n left : ℕ} {end : Polled} → Ends n left end → length end.1 ≤ left
  Ends-length (failed lost) = omega arith
  Ends-length (answered came off) = omega arith
  Ends-length (timed_out came on) = omega arith
  Ends-length (held came on rest) = omega (arith, Ends-length rest)

  -- With the sidecar enabled and fewer than 2^32 - 1 retries allowed, poll_transactions ends with
  -- fuel for one request more than the retries and sleeps at most as often as there are retries:
  -- each request but the last was answered by a hold, the last by the transactions returned, by an
  -- HTTP error, or, after as many sleeps as there are retries, by one hold too many.
  pub poll_transactions-Ends :
      is_enabled config ≡ true
      → config.max_retries + 1 < u32_mod
      → (end : Polled) × Ends 0 config.max_retries end
        × (poll_transactions config response (suc config.max_retries) ≡ some end)
        × (length end.1 ≤ config.max_retries)
  unfolding poll_transactions
  poll_transactions-Ends enabled small =
      let (end, ends, same) = poll-Ends config.max_retries 0 0 (omega arith) small in
      (end, ends, ground arith, Ends-length ends)
