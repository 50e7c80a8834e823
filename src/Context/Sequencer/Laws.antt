-- ===== src/Context/Sequencer/Laws.antt =====
-- The block that `execute_sequencer_transactions` returns.
use mathlib.Core.Path.{subst}
use op_rbuilder.Base.{
  none, ℕ, ◌≡◌, refl, ap, ◌∙◌, sym, ◌⊎◌, inl, inr, false, Option, some, List, [], ◌∷◌, ◌++◌, arith,
  append-nil, length, Option-cases, ok, Result-cases, add_u64,
}
use op_rbuilder.Transactions.{Tx}
use op_rbuilder.Execution.{with_capacity}
use op_rbuilder.Evm.{
  Evm, BuilderCtx, TransactError, ResultAndState, nonce_too_low, invalid_tx, fatal_error,
}
use op_rbuilder.Context.{build_receipt, charge_gas, charge_da, append}
use op_rbuilder.Context.Aligned.{Aligned, Extends, Extends-Aligned, Extends-append}
use op_rbuilder.Context.Sequencer.{
  SequencerTx, Progress, depositor_nonce, charge_sequencer_da, commit_result, on_error,
  execute_recovered, execute_sequencer_tx, execute_all, fetch_scalar,
  execute_sequencer_transactions,
}

-- The transactions of the block are those of the attributes, in their order, less some that
-- were skipped; none of the attributes is a blob transaction.
pub data Sequenced : List SequencerTx → List Tx → Type 0 where
  all_done : Sequenced [] []
  executed :
      {t : SequencerTx} {tx : Tx} {ts : List SequencerTx} {txs : List Tx}
      → t.is_eip4844 ≡ false
      → t.recovered ≡ some tx
      → Sequenced ts txs
      → Sequenced (t ∷ ts) (tx ∷ txs)
  skipped :
      {t : SequencerTx} {tx : Tx} {ts : List SequencerTx} {txs : List Tx}
      → t.is_eip4844 ≡ false
      → t.recovered ≡ some tx
      → Sequenced ts txs
      → Sequenced (t ∷ ts) txs

module _ (evm : Evm) (ctx : BuilderCtx) where
  -- What one round does to the block: it keeps it, or adds the transaction, with no fee.
  abbrev Step : Tx → Progress evm ctx → Progress evm ctx → Type 0
  Step tx p p' =
      (p' ≡ p)
      ⊎ (Extends p.0 tx p'.0
          × (p'.0.total_fees ≡ p.0.total_fees)
          × (p'.0.extra ≡ p.0.extra)
          × (p'.0.optional_blob_fields ≡ p.0.optional_blob_fields))

  commit_result-Step :
      (p : Progress evm ctx) (tx : Tx) (nonce : Option ℕ) (r : ResultAndState evm.Logs evm.Changes)
      → Step tx p (commit_result evm ctx p tx nonce r)
  unfolding commit_result charge_sequencer_da charge_gas charge_da append
  commit_result-Step p tx nonce r = inr (
    record {
      receipt =
          build_receipt evm ctx
            (record {
              tx = tx;
              result = r.result;
              cumulative_gas_used = add_u64 p.0.cumulative_gas_used r.result.gas_used;
            })
            nonce;
      transactions = ground arith;
      senders = ground arith;
      receipts = ground arith;
      same_extra = ground arith;
      same_scalar = ground arith;
      same_blob_fields = ground arith;
    },
    ground arith,
    ground arith,
    ground arith,
  )

  -- An error that does not end the attempt leaves the block as it was.
  on_error-unchanged :
      (p : Progress evm ctx) (x : TransactError) {p' : Progress evm ctx}
      → on_error evm ctx p x ≡ ok p'
      → p' ≡ p
  unfolding on_error
  on_error-unchanged p nonce_too_low e = ground arith
  on_error-unchanged p invalid_tx e = ground arith
  on_error-unchanged p fatal_error e = absurd (ground arith)

  execute_recovered-Step :
      (p : Progress evm ctx) (tx : Tx) {p' : Progress evm ctx}
      → execute_recovered evm ctx p tx ≡ ok p'
      → Step tx p p'
  unfolding execute_recovered
  execute_recovered-Step p tx {p'} e = elim (Result-cases (depositor_nonce evm ctx p.1 tx)) [
    | inl (nonce, at_nonce) ↦ elim (Result-cases (evm.transact p.1 tx)) [
      | inl (r, ran) ↦
          let same : p' ≡ commit_result evm ctx p tx nonce r = ground arith in
          rw same (commit_result-Step p tx nonce r)
      | inr (x, failed) ↦ inl (on_error-unchanged p x (ground arith))
    ]
    | inr (x, failed) ↦ absurd (ground arith)
  ]

  execute_sequencer_tx-Step :
      (p : Progress evm ctx) (t : SequencerTx) {p' : Progress evm ctx}
      → execute_sequencer_tx evm ctx p t ≡ ok p'
      → (t.is_eip4844 ≡ false) × ((tx : Tx) × (t.recovered ≡ some tx) × Step tx p p')
  unfolding execute_sequencer_tx
  execute_sequencer_tx-Step p t e = elim (Option-cases t.recovered) [
    | inl lost ↦ absurd (ground arith)
    | inr (tx, found) ↦ (ground arith, (tx, found, execute_recovered-Step p tx (ground arith)))
  ]

  -- A block grown by some of the transactions of the attributes
  pub record Grown (p : Progress evm ctx) (ts : List SequencerTx) (p' : Progress evm ctx)
      : Type 0 where
    pub txs : List Tx
    pub in_order : Sequenced ts txs
    pub transactions : p'.0.executed_transactions ≡ p.0.executed_transactions ++ txs
    pub is_aligned : Aligned p'.0
    pub fees : p'.0.total_fees ≡ p.0.total_fees
    pub same_extra : p'.0.extra ≡ p.0.extra
    pub same_blob_fields : p'.0.optional_blob_fields ≡ p.0.optional_blob_fields

  Step-Grown :
      {p p' p'' : Progress evm ctx} {t : SequencerTx} {ts : List SequencerTx} {tx : Tx}
      → t.is_eip4844 ≡ false
      → t.recovered ≡ some tx
      → Step tx p p'
      → Grown p' ts p''
      → Grown p (t ∷ ts) p''
  Step-Grown {p} no_blob found (inl same) g = record {
    txs = g.txs;
    in_order = skipped no_blob found g.in_order;
    transactions = g.transactions ∙ ap (λ q. q.0.executed_transactions ++ g.txs) same;
    is_aligned = g.is_aligned;
    fees = g.fees ∙ ap (λ q. q.0.total_fees) same;
    same_extra = g.same_extra ∙ ap (λ q. q.0.extra) same;
    same_blob_fields = g.same_blob_fields ∙ ap (λ q. q.0.optional_blob_fields) same;
  }
  Step-Grown {p} {tx} no_blob found (inr (e, fees, extra, _)) g = record {
    txs = tx ∷ g.txs;
    in_order = executed no_blob found g.in_order;
    transactions = Extends-append g.txs e g.transactions;
    is_aligned = g.is_aligned;
    fees = g.fees ∙ fees;
    same_extra = g.same_extra ∙ extra;
    same_blob_fields = g.same_blob_fields ∙ e.same_blob_fields;
  }

  Step-Aligned : {p p' : Progress evm ctx} {tx : Tx} → Step tx p p' → Aligned p.0 → Aligned p'.0
  Step-Aligned (inl same) h = rw same h
  Step-Aligned (inr (e, _, _, _)) h = Extends-Aligned e h

  execute_all-Grown :
      (p : Progress evm ctx) (ts : List SequencerTx) {p' : Progress evm ctx}
      → execute_all evm ctx p ts ≡ ok p'
      → Aligned p.0
      → Grown p ts p'
  unfolding execute_all
  execute_all-Grown p [] {p'} e h =
      let same : p' ≡ p = ground arith in
      record {
        txs = [];
        in_order = all_done;
        transactions = ap (λ q. q.0.executed_transactions) same ∙ sym (append-nil _);
        is_aligned = rw same h;
        fees = ap (λ q. q.0.total_fees) same;
        same_extra = ap (λ q. q.0.extra) same;
        same_blob_fields = ap (λ q. q.0.optional_blob_fields) same;
      }
  execute_all-Grown p (t ∷ ts) e h = elim (Result-cases (execute_sequencer_tx evm ctx p t)) [
    | inl (next, ran) ↦
        let (no_blob, (tx, found, step)) = execute_sequencer_tx-Step p t ran in
        Step-Grown no_blob found step
          (execute_all-Grown next ts (ground arith) (Step-Aligned step h))
    | inr (x, failed) ↦ absurd (ground arith)
  ]

  -- Where execute_sequencer_transactions returns a block, its transactions are those of the
  -- attributes in their order, less skipped ones; none of the attributes' transactions is a blob
  -- transaction and each has a signer; the block has a sender and a receipt for each of its
  -- transactions, no fees, and nothing that counts as published.
  pub execute_sequencer_transactions-ok :
      (db : evm.Db) (ts : List SequencerTx) (p : Progress evm ctx)
      → execute_sequencer_transactions evm ctx db ts ≡ ok p
      → Sequenced ts p.0.executed_transactions
        × Aligned p.0
        × (p.0.total_fees ≡ 0)
        × (p.0.extra.last_flashblock_index ≡ 0)
  unfolding execute_sequencer_transactions with_capacity
  execute_sequencer_transactions-ok db ts p e =
      elim (Result-cases (execute_all evm ctx (with_capacity (length ts), db) ts)) [
        | inl (q, ran) ↦
            let g = execute_all-Grown _ ts ran (record { senders = refl; receipts = refl }) in
            elim (Result-cases (fetch_scalar evm ctx q.1)) [
              | inl (scalar, read) ↦
                  let same : p ≡ (record q.0 { da_footprint_scalar = scalar }, q.1) =
                    ground arith in
                  rw same (
                    subst (λ (l : List Tx). Sequenced ts l) (sym g.transactions) g.in_order,
                    record { senders = g.is_aligned.senders; receipts = g.is_aligned.receipts },
                    g.fees,
                    ap (λ x. x.last_flashblock_index) g.same_extra,
                  )
              | inr (x, failed) ↦ absurd (ground arith)
            ]
        | inr (x, failed) ↦ absurd (ground arith)
      ]

  pub execute_sequencer_transactions-no_blob_fields :
      (db : evm.Db) (ts : List SequencerTx) (p : Progress evm ctx)
      → execute_sequencer_transactions evm ctx db ts ≡ ok p
      → p.0.optional_blob_fields ≡ none
  unfolding execute_sequencer_transactions with_capacity
  execute_sequencer_transactions-no_blob_fields db ts p e =
      elim (Result-cases (execute_all evm ctx (with_capacity (length ts), db) ts)) [
        | inl (q, ran) ↦
            let g = execute_all-Grown _ ts ran (record { senders = refl; receipts = refl }) in
            elim (Result-cases (fetch_scalar evm ctx q.1)) [
              | inl (scalar, read) ↦
                  let same : p.0.optional_blob_fields ≡ q.0.optional_blob_fields = ground arith in
                  same ∙ g.same_blob_fields
              | inr (x, failed) ↦ absurd (ground arith)
            ]
        | inr (x, failed) ↦ absurd (ground arith)
      ]
