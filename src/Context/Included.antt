-- ===== src/Context/Included.antt =====
-- One round of `execute_best_transactions`: the tests that an included transaction has passed.
use op_rbuilder.Base.{
  List, Bool, contains, ℕ, ◌≡◌, refl, ◌⊎◌, inl, inr, true, false, not, ◌&&◌, ◌||◌, Option, none,
  some, arith, ltb, is_some_and, Bool-cases, Option-cases, Result-cases, ok, err,
}
use op_rbuilder.Transactions.{Hash, TransactionConditional, FbPooledTransaction}
use op_rbuilder.Execution.{is_tx_over_limits}
use op_rbuilder.Execution.Limits.{WithinLimit}
use op_rbuilder.GasLimiter.{consume_gas}
use op_rbuilder.Evm.{TransactError, ResultAndState, nonce_too_low, invalid_tx, fatal_error}
use op_rbuilder.Context.{panicked, Info, charge, add_fees, append}
use op_rbuilder.Context.Best.{
  BestCall, Build, Flow, go_on, was_cancelled, failed, limits, exclude_reverting_txs, reject,
  include, settle, on_simulated, simulate, on_fitting, misses_conditional, misses_interop, consider,
}

module _ (call : BestCall) where
  open call use {evm, ctx, txs}

  -- The conditions of the transaction hold for the block, if it has any.
  abbrev pub Matches : Option TransactionConditional → Type 0
  Matches none = Unit
  Matches (some c) = ctx.matches_block_attributes c ctx.block_number ctx.timestamp ≡ true

  -- Its interop deadline is valid, if it has one.
  abbrev pub InTime : Option ℕ → Type 0
  InTime none = Unit
  InTime (some d) = ctx.is_valid_interop d ctx.timestamp ≡ true

  -- It is of no bundle, or its bundle lists its hash.
  abbrev pub MayRevert : Hash → Option (List Hash) → Type 0
  MayRevert hash none = Unit
  MayRevert hash (some hashes) = contains hashes hash ≡ true

  met-Matches :
      (p : FbPooledTransaction) → misses_conditional call p ≡ false → Matches p.inner.conditional
  unfolding misses_conditional
  met-Matches p h = elim (Option-cases p.inner.conditional) [
    | inl nothing ↦ rw nothing tt
    | inr (c, found) ↦ rw found (ground (arith, found))
  ]

  met-InTime :
      (p : FbPooledTransaction)
      → misses_interop call p ≡ false
      → (ctx.interop ≡ false) ⊎ InTime p.inner.interop_deadline
  unfolding misses_interop
  met-InTime p h = elim (Bool-cases ctx.interop) [
    | inr off ↦ inl off
    | inl on ↦ elim (Option-cases p.inner.interop_deadline) [
      | inl nothing ↦ inr (rw nothing tt)
      | inr (d, found) ↦ inr (rw found (ground (arith, found)))
    ]
  ]

  excluded-MayRevert :
      (p : FbPooledTransaction)
      → exclude_reverting_txs p ≡ false
      → MayRevert p.inner.consensus.tx_hash p.reverted_hashes
  unfolding exclude_reverting_txs
  excluded-MayRevert p h = elim (Option-cases p.reverted_hashes) [
    | inl nothing ↦ rw nothing tt
    | inr (hashes, found) ↦ rw found (ground (arith, found))
  ]

  -- The tests that are made before and by the simulation.
  pub record Admitted (info : Info evm ctx) (db : evm.Db) (pooled : FbPooledTransaction)
      (r : ResultAndState evm.Logs evm.Changes) : Type 0 where
    pub fits :
        is_tx_over_limits info pooled.inner.estimated_da_size pooled.inner.consensus.gas_limit
          info.da_footprint_scalar
          (limits call)
        ≡ ok tt
    pub conditional_met : Matches pooled.inner.conditional
    pub interop_met : (ctx.interop ≡ false) ⊎ InTime pooled.inner.interop_deadline
    pub no_blob : pooled.inner.consensus.is_eip4844 ≡ false
    pub no_deposit : pooled.inner.consensus.is_deposit ≡ false
    pub ran : evm.transact db pooled.inner.consensus ≡ ok r

  -- The transaction passed every test and was included: the new block is the old one with its
  -- charge, its fee and its place in the lists, and the database has its changes.
  pub record Included (info : Info evm ctx) (db : evm.Db) (pooled : FbPooledTransaction)
      (info' : Info evm ctx) (db' : evm.Db) : Type 0 where
    pub r : ResultAndState evm.Logs evm.Changes
    pub miner_fee : ℕ
    pub admitted : Admitted info db pooled r
    pub may_revert :
        (r.result.is_success ≡ true)
        ⊎ MayRevert pooled.inner.consensus.tx_hash pooled.reverted_hashes
    pub gas_capped : WithinLimit r.result.gas_used ctx.max_gas_per_txn
    pub priced : pooled.inner.consensus.tip ctx.base_fee ≡ some miner_fee
    pub new_info :
        info'
        ≡ append evm ctx
            (add_fees evm ctx
              (charge evm ctx info pooled.inner.consensus pooled.inner.estimated_da_size r.result)
              miner_fee
              r.result.gas_used)
            pooled.inner.consensus
    pub new_db : db' ≡ evm.commit db r.state

  -- Neither the block nor the database has changed.
  abbrev pub Kept : Info evm ctx → evm.Db → Info evm ctx → evm.Db → Type 0
  Kept info db info' db' = (info' ≡ info) × (db' ≡ db)

  -- The iterator after a transaction that is left out: as it was, or with the transaction marked.
  abbrev pub Leaves : FbPooledTransaction → txs.Txs → txs.Txs → Type 0
  Leaves p it it' =
      (it' ≡ it) ⊎ (it' ≡ txs.mark_invalid it p.inner.consensus.signer p.inner.consensus.nonce)

  abbrev pub Means : Info evm ctx → evm.Db → txs.Txs → FbPooledTransaction → Flow call → Type 0
  Means info db it pooled (go_on b) =
      (Kept info db b.info b.db × Leaves pooled it b.best_txs)
      ⊎ (Included info db pooled b.info b.db × (b.best_txs ≡ it))
  Means info db it pooled (was_cancelled b) = Kept info db b.info b.db
  Means info db it pooled (failed e b) = (e ≡ panicked) ⊎ Kept info db b.info b.db

  include-Means :
      (b : Build call) (pooled : FbPooledTransaction) (r : ResultAndState evm.Logs evm.Changes)
      → Admitted b.info b.db pooled r
      → (r.result.is_success ≡ true)
        ⊎ MayRevert pooled.inner.consensus.tx_hash pooled.reverted_hashes
      → WithinLimit r.result.gas_used ctx.max_gas_per_txn
      → Means b.info b.db b.best_txs pooled (include call b pooled r.result r.state)
  unfolding include
  include-Means b pooled r a m c = elim (Option-cases (pooled.inner.consensus.tip ctx.base_fee)) [
    | inl unpriced ↦ rw (unpriced, include) (inl refl)
    | inr (miner_fee, priced) ↦
        rw (priced, include)
          (inr (
            record {
              r = r;
              miner_fee = miner_fee;
              admitted = a;
              may_revert = m;
              gas_capped = c;
              priced = priced;
              new_info = refl;
              new_db = refl;
            },
            refl,
          ))
  ]

  under-WithinLimit :
      (gas : ℕ) (max : Option ℕ)
      → is_some_and (λ max. ltb max gas) max ≡ false
      → WithinLimit gas max
  under-WithinLimit gas none h = tt
  under-WithinLimit gas (some max) h = ground arith

  kept-succeeds :
      (p : FbPooledTransaction) (success : Bool)
      → (not success && exclude_reverting_txs p) ≡ false
      → (success ≡ true) ⊎ MayRevert p.inner.consensus.tx_hash p.reverted_hashes
  kept-succeeds p true h = inl refl
  kept-succeeds p false h = inr (excluded-MayRevert p (ground arith))

  settle-Means :
      (b : Build call) (pooled : FbPooledTransaction) (r : ResultAndState evm.Logs evm.Changes)
      → Admitted b.info b.db pooled r
      → Means b.info b.db b.best_txs pooled (settle call b pooled r.result r.state)
  unfolding settle reject
  settle-Means b pooled r a =
      elim (Bool-cases (not r.result.is_success && exclude_reverting_txs pooled)) [
        | inl excluded ↦ rw (excluded, settle) (inl ((refl, refl), inr refl))
        | inr kept ↦
            elim (Bool-cases (is_some_and (λ max. ltb max r.result.gas_used) ctx.max_gas_per_txn)) [
              | inl over ↦ rw (kept, over, settle) (inl ((refl, refl), inr refl))
              | inr under ↦
                  rw (kept, under, settle)
                    (include-Means _ pooled r a (kept-succeeds pooled r.result.is_success kept)
                      (under-WithinLimit _ _ under))
            ]
      ]

  on_simulated-Means :
      (b : Build call) (pooled : FbPooledTransaction) (r : ResultAndState evm.Logs evm.Changes)
      → Admitted b.info b.db pooled r
      → Means b.info b.db b.best_txs pooled (on_simulated call b pooled r)
  unfolding on_simulated reject
  on_simulated-Means b pooled r a =
      elim (Result-cases
        (consume_gas b.limiter pooled.inner.consensus.signer r.result.gas_used).1) [
          | inl (granted, e) ↦ rw (e, on_simulated) (settle-Means _ pooled r a)
          | inr (refused, e) ↦ rw (e, on_simulated) (inl ((refl, refl), inr refl))
        ]

  on_error-Means :
      (b : Build call) (pooled : FbPooledTransaction) (e : TransactError)
      → evm.transact b.db pooled.inner.consensus ≡ err e
      → Means b.info b.db b.best_txs pooled (simulate call b pooled)
  unfolding simulate reject
  on_error-Means b pooled nonce_too_low h = rw (h, simulate) (inl ((refl, refl), inl refl))
  on_error-Means b pooled invalid_tx h = rw (h, simulate) (inl ((refl, refl), inr refl))
  on_error-Means b pooled fatal_error h = rw (h, simulate) (inr (refl, refl))

  simulate-Means :
      (b : Build call) (pooled : FbPooledTransaction)
      → ((r : ResultAndState evm.Logs evm.Changes)
          → evm.transact b.db pooled.inner.consensus ≡ ok r
          → Admitted b.info b.db pooled r)
      → Means b.info b.db b.best_txs pooled (simulate call b pooled)
  unfolding simulate
  simulate-Means b pooled admit = elim (Result-cases (evm.transact b.db pooled.inner.consensus)) [
    | inl (r, ran) ↦ rw (ran, simulate) (on_simulated-Means b pooled r (admit r ran))
    | inr (e, h) ↦ on_error-Means b pooled e h
  ]

  on_fitting-Means :
      (b : Build call) (pooled : FbPooledTransaction)
      → is_tx_over_limits b.info pooled.inner.estimated_da_size pooled.inner.consensus.gas_limit
          b.info.da_footprint_scalar
          (limits call)
        ≡ ok tt
      → misses_conditional call pooled ≡ false
      → misses_interop call pooled ≡ false
      → Means b.info b.db b.best_txs pooled (on_fitting call b pooled)
  unfolding on_fitting reject
  on_fitting-Means b pooled fits met valid =
      let tx = pooled.inner.consensus in
      elim (Bool-cases (tx.is_eip4844 || tx.is_deposit)) [
        | inl special ↦ rw (special, on_fitting) (inl ((refl, refl), inr refl))
        | inr plain ↦ elim (Bool-cases (ctx.cancelled b.counts.considered)) [
          | inl stop ↦ rw (plain, stop, on_fitting) (refl, refl)
          | inr running ↦
              rw (plain, running, on_fitting)
                (simulate-Means b pooled (λ r ran. record {
                  fits = fits;
                  conditional_met = met-Matches pooled met;
                  interop_met = met-InTime pooled valid;
                  no_blob = ground arith;
                  no_deposit = ground arith;
                  ran = ran;
                }))
        ]
      ]

  -- Every round keeps the block or includes the transaction.
  pub consider-Means :
      (b : Build call) (pooled : FbPooledTransaction)
      → Means b.info b.db b.best_txs pooled (consider call b pooled)
  unfolding consider reject
  consider-Means b pooled = elim (Bool-cases (misses_conditional call pooled)) [
    | inl unmet ↦ rw (unmet, consider) (inl ((refl, refl), inr refl))
    | inr met ↦ elim (Bool-cases (misses_interop call pooled)) [
      | inl invalid ↦ rw (met, invalid, consider) (inl ((refl, refl), inr refl))
      | inr valid ↦
          elim (Result-cases (
            is_tx_over_limits b.info pooled.inner.estimated_da_size pooled.inner.consensus.gas_limit
              b.info.da_footprint_scalar (limits call))) [
                | inl (_, fits) ↦
                    rw (met, valid, fits, consider) (on_fitting-Means _ pooled fits met valid)
                | inr (_, over) ↦ rw (met, valid, over, consider) (inl ((refl, refl), inr refl))
              ]
    ]
  ]
