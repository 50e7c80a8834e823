-- ===== src/PayloadHandler/Agrees.antt =====
-- `execute_transactions` of the payload handler against the builder's loop over the attributes.
use op_rbuilder.Base.{
  ℕ, ◌≡◌, refl, ap, ◌∙◌, false, Option, some, List, [], ◌∷◌, ◌++◌, map, arith, inl, inr, ok,
  Result-cases, checked_add_u64, length, All, add_u64,
}
use op_rbuilder.Transactions.{Tx}
use op_rbuilder.Evm.{Evm, BuilderCtx, ResultAndState}
use op_rbuilder.Execution.{with_capacity}
use op_rbuilder.Context.{Info, build_receipt, append, charge_gas, charge_da}
use op_rbuilder.Context.Sequencer.{
  SequencerTx, charge_sequencer_da, commit_result, execute_recovered, execute_sequencer_tx,
  fetch_scalar, execute_all, execute_sequencer_transactions,
}
use op_rbuilder.PayloadHandler.{
  Progress, record_receipt, execute_transaction, execute_each, execute_transactions,
}
use op_rbuilder.PayloadHandler.Replays.{Replayed, execute_transaction-Replayed}

module _ (evm : Evm) (ctx : BuilderCtx) (gas_limit : ℕ) where
  -- Two blocks with the same transactions, senders, receipts and gas
  pub record Agree (a b : Info evm ctx) : Type 0 where
    pub transactions : b.executed_transactions ≡ a.executed_transactions
    pub senders : b.executed_senders ≡ a.executed_senders
    pub receipts : b.receipts ≡ a.receipts
    pub gas : b.cumulative_gas_used ≡ a.cumulative_gas_used

  -- The sum of the gas that the handler checks is the one that the builder wraps.
  summed-add : (a g c : ℕ) → checked_add_u64 a g ≡ some c → add_u64 a g ≡ c
  summed-add a g c e = ground arith

  -- The DA size goes to a counter that the handler does not keep.
  pub charge_sequencer_da-Agree :
      (b : Info evm ctx) (tx : Tx) → Agree b (charge_sequencer_da evm ctx b tx)
  unfolding charge_sequencer_da charge_da
  charge_sequencer_da-Agree b tx = record {
    transactions = ground arith;
    senders = ground arith;
    receipts = ground arith;
    gas = ground arith;
  }

  charge_gas-Agree :
      (a b : Info evm ctx) (tx : Tx) (depositor : Option ℕ)
      (r : ResultAndState evm.Logs evm.Changes) (cumulative : ℕ)
      → Agree a b
      → checked_add_u64 a.cumulative_gas_used r.result.gas_used ≡ some cumulative
      → Agree
          (record_receipt evm ctx a tx r depositor cumulative)
          (charge_gas evm ctx b tx r.result depositor)
  unfolding record_receipt charge_gas
  charge_gas-Agree a b tx depositor r cumulative h summed =
      let gas : add_u64 b.cumulative_gas_used r.result.gas_used ≡ cumulative =
        ap (λ n. add_u64 n r.result.gas_used) h.gas ∙ summed-add _ _ _ summed in
      rw gas (record {
        transactions = h.transactions;
        senders = h.senders;
        receipts =
            ap
              (λ l.
                l
                ++ build_receipt evm ctx
                    (record { tx = tx; result = r.result; cumulative_gas_used = cumulative })
                    depositor
                  ∷ [])
              h.receipts;
        gas = refl;
      })

  append-Agree :
      (a b : Info evm ctx) (tx : Tx) → Agree a b → Agree (append evm ctx a tx) (append evm ctx b tx)
  unfolding append
  append-Agree a b tx h = record {
    transactions = ap (λ l. l ++ tx ∷ []) h.transactions;
    senders = ap (λ l. l ++ tx.signer ∷ []) h.senders;
    receipts = h.receipts;
    gas = h.gas;
  }

  Agree-trans : {a b c : Info evm ctx} → Agree a b → Agree b c → Agree a c
  Agree-trans h k = record {
    transactions = k.transactions ∙ h.transactions;
    senders = k.senders ∙ h.senders;
    receipts = k.receipts ∙ h.receipts;
    gas = k.gas ∙ h.gas;
  }

  -- The builder's round on a transaction that the handler accepted
  attributes-round :
      (a b : Info evm ctx) (db : evm.Db) (t : SequencerTx) (p' : Progress evm ctx)
      → t.is_eip4844 ≡ false
      → Agree a b
      → Replayed evm ctx gas_limit (a, db) t.recovered p'
      → (b' : Info evm ctx) × (execute_sequencer_tx evm ctx (b, db) t ≡ ok (b', p'.1))
        × Agree p'.0 b'
  unfolding execute_sequencer_tx execute_recovered commit_result
  attributes-round a b db t p' no_blob agree h = (
    append evm ctx (charge_sequencer_da evm ctx (charge_gas evm ctx b h.tx h.r.result h.nonce) h.tx)
        h.tx,
    ground (arith, no_blob, h.recovered, h.loaded, h.ran, ap (λ q. q.1) h.result),
    rw (ap (λ q. q.0) h.result) (
        append-Agree _ _ h.tx (
          Agree-trans (charge_gas-Agree a b h.tx h.nonce h.r h.cumulative agree h.summed)
            (charge_sequencer_da-Agree _ h.tx))),
  )

  pub execute_all-Agree :
      (ts : List SequencerTx) (p p' : Progress evm ctx) (b : Info evm ctx)
      → All (λ t. t.is_eip4844 ≡ false) ts
      → Agree p.0 b
      → execute_each evm ctx gas_limit p (map (λ t. t.recovered) ts) ≡ ok p'
      → (b' : Info evm ctx) × (execute_all evm ctx (b, p.1) ts ≡ ok (b', p'.1)) × Agree p'.0 b'
  unfolding execute_each execute_all
  execute_all-Agree [] p p' b no_blobs agree e =
      let same : p ≡ p' = ground arith in rw (← same) (b, refl, agree)
  execute_all-Agree (t ∷ ts) p p' b no_blobs agree e =
      elim (Result-cases (execute_transaction evm ctx gas_limit p t.recovered)) [
        | inr (x, stopped) ↦ absurd (ground arith)
        | inl (next, ran) ↦
            let h = execute_transaction-Replayed evm ctx gas_limit p t.recovered next ran in
            let (b1, first, agree1) = attributes-round p.0 b p.1 t next no_blobs.0 agree h in
            let (b2, rest, agree2) =
              execute_all-Agree ts next p' b1 no_blobs.1 agree1 (ground arith) in
            (b2, ground (arith, first, rest), agree2)
      ]

  -- For transactions none of which is a blob transaction and a block without any, if
  -- execute_transactions of the payload handler accepts them, execute_sequencer_transactions of
  -- the builder returns from the same database with the same database, transactions, senders,
  -- receipts and gas.
  pub execute_transactions-Agree :
      (ts : List SequencerTx) (a : Info evm ctx) (db : evm.Db) (p' : Progress evm ctx)
      → All (λ t. t.is_eip4844 ≡ false) ts
      → Agree a (with_capacity (length ts))
      → execute_transactions evm ctx gas_limit (a, db) (map (λ t. t.recovered) ts) ≡ ok p'
      → (b' : Info evm ctx) × (execute_sequencer_transactions evm ctx db ts ≡ ok (b', p'.1))
        × Agree p'.0 b'
  unfolding execute_transactions execute_sequencer_transactions
  execute_transactions-Agree ts a db p' no_blobs agree e =
      elim (Result-cases (execute_each evm ctx gas_limit (a, db) (map (λ t. t.recovered) ts))) [
        | inr (x, stopped) ↦ absurd (ground arith)
        | inl (q, ran) ↦ elim (Result-cases (fetch_scalar evm ctx q.1)) [
          | inr (x, unread) ↦ absurd (ground arith)
          | inl (scalar, read) ↦
              let (b, all, same) =
                execute_all-Agree ts (a, db) q (with_capacity (length ts)) no_blobs agree ran in
              let kept : p' ≡ (record q.0 { da_footprint_scalar = scalar }, q.1) = ground arith in
              rw kept (
                record b { da_footprint_scalar = scalar },
                rw (all, read) refl,
                record {
                  transactions = same.transactions;
                  senders = same.senders;
                  receipts = same.receipts;
                  gas = same.gas;
                },
              )
        ]
      ]
