-- ===== src/Context/Sequencer/Returns.antt =====
-- When `execute_sequencer_transactions` returns a block.
use op_rbuilder.Base.{
  ℕ, ◌≡◌, ◌≢◌, refl, ap, ◌∙◌, inl, inr, false, ◌&&◌, Option, none, some, List, [], ◌∷◌, arith, All,
  length, Bool-cases, ok, err, Result-cases,
}
use op_rbuilder.Transactions.{Address, Tx}
use op_rbuilder.Execution.{with_capacity}
use op_rbuilder.Evm.{Evm, BuilderCtx, TransactError, nonce_too_low, invalid_tx, fatal_error}
use op_rbuilder.Context.Sequencer.{
  SequencerTx, Progress, depositor_nonce, commit_result, on_error, execute_recovered,
  execute_sequencer_tx, execute_all, fetch_scalar, execute_sequencer_transactions,
}

module _ (evm : Evm) (ctx : BuilderCtx) where
  -- Every transaction of the attributes is no blob and has a signer, the database answers, and
  -- the EVM has no fatal error.
  pub record IsRunnable (ts : List SequencerTx) : Type 0 where
    pub no_blobs : All (λ t. (t.is_eip4844 ≡ false) × ((tx : Tx) × (t.recovered ≡ some tx))) ts
    pub loads : (db : evm.Db) (a : Address) → ((n : ℕ) × (evm.account_nonce db a ≡ some n))
    pub reads : (db : evm.Db) → ((n : ℕ) × (evm.fetch_da_footprint_gas_scalar db ≡ some n))
    pub no_fatal : (db : evm.Db) (tx : Tx) → evm.transact db tx ≢ err fatal_error

  on_error-ok :
      (p : Progress evm ctx) (x : TransactError)
      → x ≢ fatal_error
      → (p' : Progress evm ctx) × (on_error evm ctx p x ≡ ok p')
  unfolding on_error
  on_error-ok p nonce_too_low h = (p, refl)
  on_error-ok p invalid_tx h = (p, refl)
  on_error-ok p fatal_error h = absurd (h refl)

  depositor_nonce-ok :
      (ts : List SequencerTx) (db : evm.Db) (tx : Tx)
      → IsRunnable ts
      → (n : Option ℕ) × (depositor_nonce evm ctx db tx ≡ ok n)
  unfolding depositor_nonce
  depositor_nonce-ok ts db tx h = elim (Bool-cases (ctx.is_regolith_active && tx.is_deposit)) [
    | inl on ↦ let (n, loaded) = h.loads db tx.signer in (some n, ground arith)
    | inr off ↦ (none, ground arith)
  ]

  execute_recovered-ok :
      (ts : List SequencerTx) (p : Progress evm ctx) (tx : Tx)
      → IsRunnable ts
      → (p' : Progress evm ctx) × (execute_recovered evm ctx p tx ≡ ok p')
  unfolding execute_recovered
  execute_recovered-ok ts p tx h =
      let (n, at_n) = depositor_nonce-ok ts p.1 tx h in
      elim (Result-cases (evm.transact p.1 tx)) [
        | inl (r, ran) ↦ (commit_result evm ctx p tx n r, ground arith)
        | inr (x, failed) ↦
            let (p', same) = on_error-ok p x (λ fatal. h.no_fatal p.1 tx (failed ∙ ap err fatal)) in
            (p', ground arith)
      ]

  execute_all-ok :
      (p : Progress evm ctx) (ts : List SequencerTx)
      → IsRunnable ts
      → (p' : Progress evm ctx) × (execute_all evm ctx p ts ≡ ok p')
  unfolding execute_all execute_sequencer_tx
  execute_all-ok p [] h = (p, refl)
  execute_all-ok p (t ∷ ts) h =
      let (no_blob, (tx, found)) = h.no_blobs.0 in
      let (next, ran) = execute_recovered-ok (t ∷ ts) p tx h in
      let (p', done) = execute_all-ok next ts (record {
        no_blobs = h.no_blobs.1;
        loads = h.loads;
        reads = h.reads;
        no_fatal = h.no_fatal;
      }) in
      (p', ground arith)

  -- A block is returned by execute_sequencer_transactions if no transaction of the attributes is a
  -- blob transaction or lacks a signer, the database answers every read and the EVM has no fatal
  -- error: transactions that fail to execute end no attempt.
  pub execute_sequencer_transactions-returns :
      (db : evm.Db) (ts : List SequencerTx)
      → IsRunnable ts
      → (p : Progress evm ctx) × (execute_sequencer_transactions evm ctx db ts ≡ ok p)
  unfolding execute_sequencer_transactions fetch_scalar
  execute_sequencer_transactions-returns db ts h =
      let (q, ran) = execute_all-ok (with_capacity (length ts), db) ts h in
      let (n, read) = h.reads q.1 in
      elim (Bool-cases ctx.is_jovian_active) [
        | inl on ↦ ((record q.0 { da_footprint_scalar = some n }, q.1), ground arith)
        | inr off ↦ ((record q.0 { da_footprint_scalar = none }, q.1), ground arith)
      ]
