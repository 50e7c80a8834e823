-- ===== src/PayloadHandler/Replays.antt =====
-- The rounds of `execute_transactions` of the payload handler.
use op_rbuilder.Base.{
  ℕ, ◌≤◌, ◌≡◌, refl, ap, sym, ◌∙◌, false, Option, some, List, [], ◌∷◌, ◌++◌, map, append-nil, arith,
  inl, inr, ok, Result-cases, Option-cases, is_some_and, ltb, checked_add_u64,
}
use op_rbuilder.Transactions.{Tx}
use op_rbuilder.Evm.{Evm, BuilderCtx, ResultAndState}
use op_rbuilder.Context.{append}
use op_rbuilder.Context.Aligned.{Aligned, Extends, Extends-Aligned, Extends-append}
use op_rbuilder.Context.Sequencer.{fetch_scalar, depositor_nonce}
use op_rbuilder.PayloadHandler.{
  Progress, record_receipt, execute_transaction, execute_each, execute_transactions,
}

module _ (evm : Evm) (ctx : BuilderCtx) (gas_limit : ℕ) where
  -- A round that the handler accepts
  pub record Replayed (p : Progress evm ctx) (t : Option Tx) (p' : Progress evm ctx) : Type 0 where
    pub tx : Tx
    pub nonce : Option ℕ
    pub r : ResultAndState evm.Logs evm.Changes
    pub cumulative : ℕ
    pub recovered : t ≡ some tx
    pub loaded : depositor_nonce evm ctx p.1 tx ≡ ok nonce
    pub ran : evm.transact p.1 tx ≡ ok r
    pub summed : checked_add_u64 p.0.cumulative_gas_used r.result.gas_used ≡ some cumulative
    pub within : cumulative ≤ gas_limit
    pub result : p' ≡ (
      append evm ctx (record_receipt evm ctx p.0 tx r nonce cumulative) tx,
      evm.commit p.1 r.state,
    )

  pub execute_transaction-Replayed :
      (p : Progress evm ctx) (t : Option Tx) (p' : Progress evm ctx)
      → execute_transaction evm ctx gas_limit p t ≡ ok p'
      → Replayed p t p'
  unfolding execute_transaction
  execute_transaction-Replayed p t p' e = elim (Option-cases t) [
    | inl lost ↦ absurd (ground arith)
    | inr (tx, found) ↦ elim (Result-cases (depositor_nonce evm ctx p.1 tx)) [
      | inr (x, unread) ↦ absurd (ground arith)
      | inl (nonce, loaded) ↦ elim (Result-cases (evm.transact p.1 tx)) [
        | inr (x, unrun) ↦ absurd (ground arith)
        | inl (r, ran) ↦
            let capped : is_some_and (λ max. ltb max r.result.gas_used) ctx.max_gas_per_txn
                ≡ false =
              ground arith in
            elim (Option-cases (checked_add_u64 p.0.cumulative_gas_used r.result.gas_used)) [
              | inl over ↦ absurd (ground arith)
              | inr (cumulative, summed) ↦
                  let within : cumulative ≤ gas_limit = ground arith in
                  record {
                    tx = tx;
                    nonce = nonce;
                    r = r;
                    cumulative = cumulative;
                    recovered = found;
                    loaded = loaded;
                    ran = ran;
                    summed = summed;
                    within = within;
                    result = ground arith;
                  }
            ]
      ]
    ]
  ]

  Replayed-Extends :
      {p p' : Progress evm ctx} {t : Option Tx} (h : Replayed p t p') → Extends p.0 h.tx p'.0
  unfolding append record_receipt
  Replayed-Extends h = rw h.result (record {
    receipt = _;
    transactions = refl;
    senders = refl;
    receipts = refl;
    same_extra = refl;
    same_scalar = refl;
    same_blob_fields = refl;
  })

  -- What the loop makes of a block that was within the limit
  pub record Checked (p : Progress evm ctx) (ts : List (Option Tx)) (p' : Progress evm ctx)
      : Type 0 where
    pub txs : List Tx
    pub every : ts ≡ map some txs
    pub transactions : p'.0.executed_transactions ≡ p.0.executed_transactions ++ txs
    pub is_aligned : Aligned p'.0
    pub within : p'.0.cumulative_gas_used ≤ gas_limit

  execute_each-Checked :
      (p : Progress evm ctx) (ts : List (Option Tx)) (p' : Progress evm ctx)
      → Aligned p.0
      → p.0.cumulative_gas_used ≤ gas_limit
      → execute_each evm ctx gas_limit p ts ≡ ok p'
      → Checked p ts p'
  unfolding execute_each append record_receipt
  execute_each-Checked p [] p' aligned below e =
      let same : p ≡ p' = ground arith in
      rw (← same) (record {
        txs = [];
        every = refl;
        transactions = sym (append-nil _);
        is_aligned = aligned;
        within = below;
      })
  execute_each-Checked p (t ∷ ts) p' aligned below e =
      elim (Result-cases (execute_transaction evm ctx gas_limit p t)) [
        | inr (x, stopped) ↦ absurd (ground arith)
        | inl (next, ran) ↦
            let h = execute_transaction-Replayed p t next ran in
            let extends = Replayed-Extends h in
            let gas : next.0.cumulative_gas_used ≡ h.cumulative =
              ap (λ q. q.0.cumulative_gas_used) h.result in
            let rest =
              execute_each-Checked next ts p' (Extends-Aligned extends aligned)
                (omega (arith, gas, h.within)) (ground arith) in
            record {
              txs = h.tx ∷ rest.txs;
              every = ap (λ x. x ∷ ts) h.recovered ∙ ap (λ l. some h.tx ∷ l) rest.every;
              transactions = Extends-append rest.txs extends rest.transactions;
              is_aligned = rest.is_aligned;
              within = rest.within;
            }
      ]

  -- With the scalar that is read after the loop
  pub execute_transactions-Checked :
      (p : Progress evm ctx) (ts : List (Option Tx)) (p' : Progress evm ctx)
      → Aligned p.0
      → p.0.cumulative_gas_used ≤ gas_limit
      → execute_transactions evm ctx gas_limit p ts ≡ ok p'
      → Checked p ts p'
  unfolding execute_transactions
  execute_transactions-Checked p ts p' aligned below e =
      elim (Result-cases (execute_each evm ctx gas_limit p ts)) [
        | inr (x, stopped) ↦ absurd (ground arith)
        | inl (q, ran) ↦ elim (Result-cases (fetch_scalar evm ctx q.1)) [
          | inr (x, unread) ↦ absurd (ground arith)
          | inl (scalar, read) ↦
              let same : p' ≡ (record q.0 { da_footprint_scalar = scalar }, q.1) = ground arith in
              let c = execute_each-Checked p ts q aligned below ran in
              rw same (record {
                txs = c.txs;
                every = c.every;
                transactions = c.transactions;
                is_aligned = record {
                  senders = c.is_aligned.senders;
                  receipts = c.is_aligned.receipts;
                };
                within = c.within;
              })
        ]
      ]
