-- ===== src/PayloadHandler/Capped.antt =====
-- A transaction of the attributes above max_gas_per_txn, in the builder's loop over the attributes and
-- in the payload handler's.
use op_rbuilder.Base.{
  ℕ, ◌<◌, ◌≡◌, refl, ap, ◌∙◌, false, Option, some, List, [], ◌∷◌, ◌++◌, map, arith, inl, inr, ok,
  err, Result-cases, All, add_u64, length,
}
use op_rbuilder.Transactions.{Tx}
use op_rbuilder.Evm.{Evm, BuilderCtx, ResultAndState}
use op_rbuilder.Execution.{with_capacity}
use op_rbuilder.Context.{Info, append, charge_gas}
use op_rbuilder.Context.Sequencer.{
  SequencerTx, depositor_nonce, commit_result, execute_recovered, execute_sequencer_tx,
  fetch_scalar, execute_all, execute_sequencer_transactions,
}
use op_rbuilder.PayloadHandler.{
  HandlerError, max_gas_exceeded, Progress, execute_transaction, execute_each, execute_transactions,
}
use op_rbuilder.PayloadHandler.Agrees.{Agree, execute_all-Agree, charge_sequencer_da-Agree}

module _ (evm : Evm) (ctx : BuilderCtx) (gas_limit : ℕ) where
  execute_each-stops :
      (ts more : List (Option Tx)) (t : Option Tx) (p q : Progress evm ctx) (e : HandlerError)
      → execute_each evm ctx gas_limit p ts ≡ ok q
      → execute_transaction evm ctx gas_limit q t ≡ err e
      → execute_each evm ctx gas_limit p (ts ++ t ∷ more) ≡ err e
  unfolding execute_each
  execute_each-stops [] more t p q e h bad = let same : p ≡ q = ground arith in rw (same, bad) refl
  execute_each-stops (u ∷ ts) more t p q e h bad =
      elim (Result-cases (execute_transaction evm ctx gas_limit p u)) [
        | inr (x, stopped) ↦ absurd (ground arith)
        | inl (next, ran) ↦ rw ran (execute_each-stops ts more t next q e (rw ran at h) bad)
      ]

  execute_all-snoc :
      (ts : List SequencerTx) (t : SequencerTx) (p q q' : Progress evm ctx)
      → execute_all evm ctx p ts ≡ ok q
      → execute_sequencer_tx evm ctx q t ≡ ok q'
      → execute_all evm ctx p (ts ++ t ∷ []) ≡ ok q'
  unfolding execute_all
  execute_all-snoc [] t p q q' h last = let same : p ≡ q = ground arith in rw (same, last) refl
  execute_all-snoc (u ∷ ts) t p q q' h last =
      elim (Result-cases (execute_sequencer_tx evm ctx p u)) [
        | inr (x, stopped) ↦ absurd (ground arith)
        | inl (next, ran) ↦ rw ran (execute_all-snoc ts t next q q' (rw ran at h) last)
      ]

  -- The block of the handler before the transaction, and the builder's block with it
  pub record Includes (tx : Tx) (gas_used : ℕ) (a b : Info evm ctx) : Type 0 where
    pub transactions : b.executed_transactions ≡ a.executed_transactions ++ tx ∷ []
    pub senders : b.executed_senders ≡ a.executed_senders ++ tx.signer ∷ []
    pub gas : b.cumulative_gas_used ≡ add_u64 a.cumulative_gas_used gas_used

  commit_result-Includes :
      (a b : Info evm ctx) (db : evm.Db) (tx : Tx) (depositor : Option ℕ)
      (r : ResultAndState evm.Logs evm.Changes)
      → Agree evm ctx gas_limit a b
      → Includes tx r.result.gas_used a (commit_result evm ctx (b, db) tx depositor r).0
  unfolding commit_result append charge_gas
  commit_result-Includes a b db tx depositor r h =
      let da =
        charge_sequencer_da-Agree evm ctx gas_limit (charge_gas evm ctx b tx r.result depositor)
          tx in
      record {
        transactions = ap (λ l. l ++ tx ∷ []) (da.transactions ∙ h.transactions);
        senders = ap (λ l. l ++ tx.signer ∷ []) (da.senders ∙ h.senders);
        gas = da.gas ∙ ap (λ n. add_u64 n r.result.gas_used) h.gas;
      }

  -- What the handler and the builder make of the transaction after those before it
  pub record Differ (a : Info evm ctx) (db : evm.Db) (ts : List SequencerTx) (t : SequencerTx)
      (more : List (Option Tx)) (p : Progress evm ctx) (tx : Tx)
      (r : ResultAndState evm.Logs evm.Changes) : Type 0 where
    pub refused :
        execute_transactions evm ctx gas_limit
          (a, db)
          (map (λ u. u.recovered) ts ++ t.recovered ∷ more)
        ≡ err max_gas_exceeded
    pub block : Info evm ctx
    pub built :
        execute_sequencer_transactions evm ctx db (ts ++ t ∷ [])
        ≡ ok (block, evm.commit p.1 r.state)
    pub includes : Includes tx r.result.gas_used p.0 block

  module _ (t : SequencerTx) (tx : Tx) (depositor : Option ℕ)
      (r : ResultAndState evm.Logs evm.Changes) (p : Progress evm ctx)
      (found : t.recovered ≡ some tx) (loaded : depositor_nonce evm ctx p.1 tx ≡ ok depositor)
      (ran : evm.transact p.1 tx ≡ ok r) where
    refuses :
        (max : ℕ)
        → ctx.max_gas_per_txn ≡ some max
        → max < r.result.gas_used
        → execute_transaction evm ctx gas_limit p t.recovered ≡ err max_gas_exceeded
    unfolding execute_transaction
    refuses max capped over = ground (arith, found, loaded, ran, capped, over)

    accepts :
        (b : Info evm ctx)
        → t.is_eip4844 ≡ false
        → execute_sequencer_tx evm ctx (b, p.1) t
          ≡ ok (commit_result evm ctx (b, p.1) tx depositor r)
    unfolding execute_sequencer_tx execute_recovered
    accepts b no_blob = ground (arith, no_blob, found, loaded, ran)

  -- If the payload handler accepts transactions of the attributes, none of them a blob
  -- transaction, and the next one, no blob transaction either, has a signer and, for a deposit, a
  -- readable nonce, and runs with more gas than max_gas_per_txn, then the handler refuses every
  -- block that goes on with it, and the builder, from the same database and configuration, returns
  -- a block for the attributes up to it: with the transactions, senders and gas of those before
  -- and its own, if the scalar of the DA footprint can be read after it.
  pub over_cap-refused :
      (a : Info evm ctx) (db : evm.Db) (ts : List SequencerTx) (t : SequencerTx)
      (more : List (Option Tx)) (p : Progress evm ctx) (tx : Tx) (depositor : Option ℕ)
      (r : ResultAndState evm.Logs evm.Changes) (max : ℕ) (scalar : Option ℕ)
      → All (λ u. u.is_eip4844 ≡ false) ts
      → t.is_eip4844 ≡ false
      → Agree evm ctx gas_limit a (with_capacity (length (ts ++ t ∷ [])))
      → execute_each evm ctx gas_limit (a, db) (map (λ u. u.recovered) ts) ≡ ok p
      → t.recovered ≡ some tx
      → depositor_nonce evm ctx p.1 tx ≡ ok depositor
      → evm.transact p.1 tx ≡ ok r
      → ctx.max_gas_per_txn ≡ some max
      → max < r.result.gas_used
      → fetch_scalar evm ctx (evm.commit p.1 r.state) ≡ ok scalar
      → Differ a db ts t more p tx r
  unfolding execute_transactions execute_sequencer_transactions commit_result
  over_cap-refused a db ts t more p tx depositor r max scalar no_blobs no_blob same before found
        loaded ran capped over read =
      let stop = refuses t tx depositor r p found loaded ran max capped over in
      let (b, all, agree) =
        execute_all-Agree evm ctx gas_limit ts (a, db) p (with_capacity (length (ts ++ t ∷ [])))
          no_blobs same before in
      let whole =
        execute_all-snoc ts t (with_capacity (length (ts ++ t ∷ [])), db) (b, p.1) _ all
          (accepts t tx depositor r p found loaded ran b no_blob) in
      let included = commit_result-Includes p.0 b p.1 tx depositor r agree in
      record {
        refused =
            rw
              (execute_each-stops (map (λ u. u.recovered) ts) more t.recovered (a, db) p
                max_gas_exceeded before stop)
              refl;
        block = record (commit_result evm ctx (b, p.1) tx depositor r).0 {
          da_footprint_scalar = scalar;
        };
        built = rw (whole, read) refl;
        includes = record {
          transactions = included.transactions;
          senders = included.senders;
          gas = included.gas;
        };
      }
