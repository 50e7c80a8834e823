-- ===== src/Context/Loop.antt =====
-- `execute_best_transactions` over the whole iterator.
use op_rbuilder.Base.{
  ℕ, zero, suc, some, ◌∙◌, ◌<◌, ◌≤◌, ◌≡◌, refl, ◌⊎◌, inl, inr, List, [], ◌∷◌, arith, Option-cases,
}
use op_rbuilder.Transactions.{FbPooledTransaction}
use op_rbuilder.Context.{panicked, Info}
use op_rbuilder.Context.Best.{
  BestCall, Build, Flow, go_on, was_cancelled, failed, Outcome, done, cancelled_at, failed_at,
  out_of_fuel, resume, reject, include, settle, on_simulated, simulate, on_fitting, consider,
  no_counts, execute_from, execute_best_transactions,
}
use op_rbuilder.Context.Included.{Included, Leaves, Means, consider-Means}

module _ (call : BestCall) where
  open call use {evm, ctx, txs}

  -- From the block and the iterator of the indices, including the listed transactions in order
  -- gives the block of the parameters; each is the one that the iterator hands out next, after
  -- those that are left out.
  pub data Builds (info' : Info evm ctx) (db' : evm.Db)
      : List FbPooledTransaction → Info evm ctx → evm.Db → txs.Txs → Type 0 where
    built :
        {info : Info evm ctx} {db : evm.Db} {it : txs.Txs}
        → info' ≡ info
        → db' ≡ db
        → Builds info' db' [] info db it
    next_built :
        {info mid_info : Info evm ctx} {db mid_db : evm.Db} {p : FbPooledTransaction}
        {ps : List FbPooledTransaction} {it : txs.Txs}
        → (txs.next it).0 ≡ some p
        → Included call info db p mid_info mid_db
        → Builds info' db' ps mid_info mid_db (txs.next it).1
        → Builds info' db' (p ∷ ps) info db it
    next_left :
        {info : Info evm ctx} {db : evm.Db} {p : FbPooledTransaction}
        {ps : List FbPooledTransaction} {it left_it : txs.Txs}
        → (txs.next it).0 ≡ some p
        → Leaves call p (txs.next it).1 left_it
        → Builds info' db' ps info db left_it
        → Builds info' db' ps info db it

  -- How the loop may end, started at the block and the iterator.
  abbrev pub Ends : Info evm ctx → evm.Db → txs.Txs → Outcome call → Type 0
  Ends info db it (done b) = (ps : List FbPooledTransaction) × Builds b.info b.db ps info db it
  Ends info db it (cancelled_at b) =
      (ps : List FbPooledTransaction) × Builds b.info b.db ps info db it
  Ends info db it (failed_at e b) =
      (e ≡ panicked) ⊎ ((ps : List FbPooledTransaction) × Builds b.info b.db ps info db it)
  Ends info db it out_of_fuel = ⊥

  consider-remaining :
      (b : Build call) (p : FbPooledTransaction) {b' : Build call}
      → consider call b p ≡ go_on b'
      → txs.remaining b'.best_txs ≤ txs.remaining b.best_txs
  unfolding consider on_fitting simulate on_simulated settle include reject
  consider-remaining b p e = ground (
    arith,
    txs.mark_invalid_remaining b.best_txs p.inner.consensus.signer p.inner.consensus.nonce,
  )

  next_Ends :
      (p : FbPooledTransaction) (info : Info evm ctx) (db : evm.Db) {mid_info : Info evm ctx}
      {mid_db : evm.Db} (it mid_it : txs.Txs)
      → (txs.next it).0 ≡ some p
      → mid_it ≡ (txs.next it).1
      → Included call info db p mid_info mid_db
      → (o : Outcome call) → Ends mid_info mid_db mid_it o
      → Ends info db it o
  next_Ends p info db it mid_it e m inc (done b) (ps, h) = (p ∷ ps, next_built e inc (rw m at h))
  next_Ends p info db it mid_it e m inc (cancelled_at b) (ps, h) =
      (p ∷ ps, next_built e inc (rw m at h))
  next_Ends p info db it mid_it e m inc (failed_at x b) (inl panic) = inl panic
  next_Ends p info db it mid_it e m inc (failed_at x b) (inr (ps, h)) =
      inr (p ∷ ps, next_built e inc (rw m at h))
  next_Ends p info db it mid_it e m inc out_of_fuel h = h

  left_Ends :
      (p : FbPooledTransaction) (info : Info evm ctx) (db : evm.Db) (it left_it : txs.Txs)
      → (txs.next it).0 ≡ some p
      → Leaves call p (txs.next it).1 left_it
      → (o : Outcome call) → Ends info db left_it o
      → Ends info db it o
  left_Ends p info db it left_it e l (done b) (ps, h) = (ps, next_left e l h)
  left_Ends p info db it left_it e l (cancelled_at b) (ps, h) = (ps, next_left e l h)
  left_Ends p info db it left_it e l (failed_at x b) (inl panic) = inl panic
  left_Ends p info db it left_it e l (failed_at x b) (inr (ps, h)) = inr (ps, next_left e l h)
  left_Ends p info db it left_it e l out_of_fuel h = h

  after_round :
      (fuel : ℕ) (b : Build call) (p : FbPooledTransaction) (it : txs.Txs)
      → (txs.next it).0 ≡ some p
      → b.best_txs ≡ (txs.next it).1
      → ((b' : Build call)
          → txs.remaining b'.best_txs ≤ txs.remaining b.best_txs
          → Ends b'.info b'.db b'.best_txs (execute_from call fuel b'))
      → (flow : Flow call) → consider call b p ≡ flow
      → Means call b.info b.db b.best_txs p flow
      → Ends b.info b.db it (resume call (execute_from call fuel) flow)
  after_round fuel b p it n at ih (go_on b') e (inl (kept, left)) =
      left_Ends p b.info b.db it b'.best_txs n (rw at at left) _
        (rw (← kept.0, ← kept.1) (ih b' (consider-remaining b p e)))
  after_round fuel b p it n at ih (go_on b') e (inr (inc, same)) =
      next_Ends p b.info b.db it b'.best_txs n (same ∙ at) inc _ (ih b' (consider-remaining b p e))
  after_round fuel b p it n at ih (was_cancelled b') e kept = ([], built kept.0 kept.1)
  after_round fuel b p it n at ih (failed error b') e (inl panic) = inl panic
  after_round fuel b p it n at ih (failed error b') e (inr kept) = inr ([], built kept.0 kept.1)

  execute_from-Ends :
      (fuel : ℕ) (b : Build call)
      → txs.remaining b.best_txs < fuel
      → Ends b.info b.db b.best_txs (execute_from call fuel b)
  unfolding execute_from
  execute_from-Ends zero b h = elim h [ ]
  execute_from-Ends (suc fuel) b h = elim (Option-cases (txs.next b.best_txs).0) [
    | inl nothing ↦ rw (nothing, execute_from) ([], built refl refl)
    | inr (p, handed) ↦
        let fewer = txs.next_remaining b.best_txs p handed in
        let handed_b : Build call = record b { best_txs = (txs.next b.best_txs).1 } in
        rw (handed, execute_from)
          (after_round fuel handed_b p b.best_txs handed refl
            (λ b' le. execute_from-Ends fuel b' (omega arith)) _ refl
            (consider-Means call handed_b p))
  ]

  -- execute_best_transactions ends with the fuel that it takes. The block and the database are
  -- left as including some transactions, one after the other, makes them; each is the one that the
  -- iterator then hands out, after those that are left out, and has passed the conditional,
  -- interop, limit, type, execution, revert and gas tests on the block before it. Where a failed
  -- expect ends the call nothing more is said.
  pub execute_best_transactions-Ends :
      (b : Build call) → Ends b.info b.db b.best_txs (execute_best_transactions call b)
  unfolding execute_best_transactions
  execute_best_transactions-Ends b =
      execute_from-Ends (suc (txs.remaining b.best_txs)) (record b { counts = no_counts })
        (omega arith)
