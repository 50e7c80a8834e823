-- ===== src/BuilderTxs/Rounds.antt =====
-- The rounds of `add_builder_txs`, and the estimate of a builder transaction's gas.
use op_rbuilder.Base.{
  ℕ, suc, ◌+◌, ◌*◌, ◌≡◌, refl, Bool, true, false, List, [], ◌∷◌, arith, inl, inr, contains, differ,
  if◌then◌else◌, ◌==◌, Bool-cases, Result-cases, ok, err, not,
}
use op_rbuilder.Transactions.{Tx}
use op_rbuilder.Evm.{Evm, BuilderCtx, ResultAndState, nonce_too_low, invalid_tx, fatal_error}
use op_rbuilder.Context.{Info, append, charge}
use op_rbuilder.Context.Aligned.{Extends}
use op_rbuilder.Context.Grows.{Grows, Grows-refl, Grows-trans, Extends-Grows}
use op_rbuilder.BuilderTxs.{
  BuilderTransactionError, BuilderTransactionCtx, count_bytes, estimate_builder_tx_gas, Adding,
  skip_signer, commit_builder_tx, add_builder_tx, add_from, Simulate, add_builder_txs, simulated,
}
use op_rbuilder.BuilderTxs.Chosen.{
  Fails, Chosen, ended, cut, elsewhere, distrusted, outdated, failed, chosen, differ-eq, differ-ne,
}

module _ (evm : Evm) (ctx : BuilderCtx) where
  -- What a round does
  data Step (top_of_block : Bool) (t : BuilderTransactionCtx) (a a' : Adding evm ctx) : Type 0 where
    put_off : t.is_top_of_block ≡ not top_of_block → a' ≡ a → Step top_of_block t a a'
    skipped : contains a.invalid t.signed_tx.signer ≡ true → a' ≡ a → Step top_of_block t a a'
    too_late : evm.transact a.db t.signed_tx ≡ err nonce_too_low → a' ≡ a → Step top_of_block t a a'
    marked :
        t.is_top_of_block ≡ top_of_block
        → Fails evm ctx a.db t.signed_tx
        → a' ≡ skip_signer evm ctx a t.signed_tx
        → Step top_of_block t a a'
    added :
        (r : ResultAndState evm.Logs evm.Changes)
        → t.is_top_of_block ≡ top_of_block
        → contains a.invalid t.signed_tx.signer ≡ false
        → evm.transact a.db t.signed_tx ≡ ok r
        → r.result.is_success ≡ true
        → a' ≡ commit_builder_tx evm ctx a t r
        → Step top_of_block t a a'

  run-Step :
      (top_of_block : Bool) (t : BuilderTransactionCtx) (a a' : Adding evm ctx)
      → differ t.is_top_of_block top_of_block ≡ false
      → contains a.invalid t.signed_tx.signer ≡ false
      → add_builder_tx evm ctx top_of_block a t ≡ ok a'
      → Step top_of_block t a a'
  unfolding add_builder_tx
  run-Step top t a a' here trusted e = elim (Result-cases (evm.transact a.db t.signed_tx)) [
    | inl (r, ran) ↦ elim (Bool-cases r.result.is_success) [
      | inl good ↦ added r (differ-eq _ _ here) trusted ran good (ground arith)
      | inr bad ↦ marked (differ-eq _ _ here) (inr (r, ran, bad)) (ground arith)
    ]
    | inr (nonce_too_low, ran) ↦ too_late ran (ground arith)
    | inr (invalid_tx, ran) ↦ marked (differ-eq _ _ here) (inl ran) (ground arith)
    | inr (fatal_error, ran) ↦ absurd (ground arith)
  ]

  add_builder_tx-Step :
      (top_of_block : Bool) (t : BuilderTransactionCtx) (a a' : Adding evm ctx)
      → add_builder_tx evm ctx top_of_block a t ≡ ok a'
      → Step top_of_block t a a'
  unfolding add_builder_tx
  add_builder_tx-Step top t a a' e = elim (Bool-cases (differ t.is_top_of_block top)) [
    | inl other ↦ put_off (differ-ne _ _ other) (ground arith)
    | inr here ↦ elim (Bool-cases (contains a.invalid t.signed_tx.signer)) [
      | inl distrust ↦ skipped distrust (ground arith)
      | inr trusted ↦ run-Step top t a a' here trusted e
    ]
  ]

  -- Only a fatal error ends the loop.
  record Stops (top_of_block : Bool) (t : BuilderTransactionCtx) (a : Adding evm ctx) : Type 0 where
    here : t.is_top_of_block ≡ top_of_block
    trusted : contains a.invalid t.signed_tx.signer ≡ false
    fatal : evm.transact a.db t.signed_tx ≡ err fatal_error

  add_builder_tx-Stops :
      (top_of_block : Bool) (t : BuilderTransactionCtx) (a : Adding evm ctx)
      (e : BuilderTransactionError)
      → add_builder_tx evm ctx top_of_block a t ≡ err e
      → Stops top_of_block t a
  unfolding add_builder_tx
  add_builder_tx-Stops top t a x e = elim (Bool-cases (differ t.is_top_of_block top)) [
    | inl other ↦ absurd (ground arith)
    | inr here ↦ elim (Bool-cases (contains a.invalid t.signed_tx.signer)) [
      | inl distrust ↦ absurd (ground arith)
      | inr trusted ↦ record { here = differ-eq _ _ here; trusted = trusted; fatal = grind arith }
    ]
  ]

  -- What the loop does to the block: the chosen transactions are added, with no fees.
  pub record Adds (top_of_block : Bool) (ts : List BuilderTransactionCtx) (a a' : Adding evm ctx)
      : Type 0 where
    pub txs : List Tx
    pub in_order : Chosen evm ctx top_of_block a'.db a.invalid a.db ts txs
    pub grows : Grows a.info txs a'.info
    pub fees : a'.info.total_fees ≡ a.info.total_fees

  commit-Extends :
      (a : Adding evm ctx) (t : BuilderTransactionCtx) (r : ResultAndState evm.Logs evm.Changes)
      → Extends a.info t.signed_tx (commit_builder_tx evm ctx a t r).info
  unfolding commit_builder_tx append charge
  commit-Extends a t r = record {
    receipt = _;
    transactions = refl;
    senders = refl;
    receipts = refl;
    same_extra = refl;
    same_scalar = refl;
    same_blob_fields = refl;
  }

  -- A round that changes neither the block nor the database
  extend :
      {top : Bool} {t : BuilderTransactionCtx} {ts : List BuilderTransactionCtx}
      {a a' : Adding evm ctx}
      → ((txs : List Tx)
          → Chosen evm ctx top a'.db a.invalid a.db ts txs
          → Chosen evm ctx top a'.db a.invalid a.db (t ∷ ts) txs)
      → Adds top ts a a'
      → Adds top (t ∷ ts) a a'
  extend more h = record {
    txs = h.txs;
    grows = h.grows;
    in_order = more h.txs h.in_order;
    fees = h.fees;
  }

  Step-Adds :
      {top : Bool} {t : BuilderTransactionCtx} {ts : List BuilderTransactionCtx}
      {a a' a'' : Adding evm ctx}
      → Step top t a a'
      → Adds top ts a' a''
      → Adds top (t ∷ ts) a a''
  unfolding skip_signer commit_builder_tx append charge
  Step-Adds (put_off other e) h = extend (λ txs c. elsewhere other c) (rw e at h)
  Step-Adds (skipped distrust e) h = extend (λ txs c. distrusted distrust c) (rw e at h)
  Step-Adds (too_late ran e) h = extend (λ txs c. outdated ran c) (rw e at h)
  Step-Adds {top} {t} {ts} {a} {a''} (marked here fails e) h =
      let rest : Adds top ts (skip_signer evm ctx a t.signed_tx) a'' = rw e at h in
      record {
        txs = rest.txs;
        grows = rest.grows;
        in_order = failed here fails rest.in_order;
        fees = rest.fees;
      }
  Step-Adds {top} {t} {ts} {a} {a''} (added r here trusted ran good e) h =
      let rest : Adds top ts (commit_builder_tx evm ctx a t r) a'' = rw e at h in
      record {
        txs = t.signed_tx ∷ rest.txs;
        grows =
            Grows-trans (t.signed_tx ∷ []) rest.txs (Extends-Grows (commit-Extends a t r))
              rest.grows;
        in_order = chosen r here trusted ran good rest.in_order;
        fees = rest.fees;
      }

  add_from-Adds :
      (top : Bool) (a : Adding evm ctx) (ts : List BuilderTransactionCtx)
      → Adds top ts a (add_from evm ctx top a ts).1
  unfolding add_from
  add_from-Adds top a [] = record {
    txs = [];
    grows = Grows-refl a.info;
    in_order = ended refl;
    fees = refl;
  }
  add_from-Adds top a (t ∷ ts) = elim (Result-cases (add_builder_tx evm ctx top a t)) [
    | inl (a', ran) ↦
        rw (ran, add_from)
          (Step-Adds (add_builder_tx-Step top t a a' ran) (add_from-Adds top a' ts))
    | inr (e, stopped) ↦
        let s = add_builder_tx-Stops top t a e stopped in
        rw (stopped, add_from)
          (record {
            txs = [];
            grows = Grows-refl a.info;
            in_order = cut s.here s.trusted s.fatal refl;
            fees = refl;
          })
  ]

  -- What a call does to the block, for the transactions that the simulation gave
  pub record AddsTo (top_of_block : Bool) (ts : List BuilderTransactionCtx)
      (p p' : Info evm ctx × evm.Db) : Type 0 where
    pub txs : List Tx
    pub in_order : Chosen evm ctx top_of_block p'.1 [] p.1 ts txs
    pub grows : Grows p.0 txs p'.0
    pub fees : p'.0.total_fees ≡ p.0.total_fees

  -- A call of add_builder_txs, also one that fails, adds to the block, of the simulated
  -- transactions for the place that it is given, in their order, each that is executed with
  -- success on the database that those before it leave, but none of a signer of whom an earlier
  -- one for the place was invalid or reverted; one whose nonce is too low is passed over without
  -- such a mark, and a fatal error ends the call. Each is added with its sender and a receipt, and
  -- no fees.
  pub add_builder_txs-AddsTo :
      (simulate : Simulate evm ctx) (info : Info evm ctx) (db : evm.Db) (top : Bool)
      → AddsTo top
          (simulated (simulate info db top))
          (info, db)
          (add_builder_txs evm ctx simulate info db top).1
  unfolding add_builder_txs
  add_builder_txs-AddsTo simulate info db top = elim (Result-cases (simulate info db top)) [
    | inl (ts, e) ↦
        let a = add_from-Adds top (record { info = info; db = db; invalid = [] }) ts in
        rw (e, add_builder_txs)
          (record { txs = a.txs; in_order = a.in_order; grows = a.grows; fees = a.fees })
    | inr (x, e) ↦
        rw (e, add_builder_txs)
          (record { txs = []; in_order = ended refl; grows = Grows-refl info; fees = refl })
  ]

-- The bytes of a message that are zero, and those that are not
abbrev pub zeros : List ℕ → ℕ
zeros [] = 0
zeros (b ∷ bs) = let rest = zeros bs in if b == 0 then suc rest else rest

abbrev pub nonzeros : List ℕ → ℕ
nonzeros [] = 0
nonzeros (b ∷ bs) = let rest = nonzeros bs in if b == 0 then rest else suc rest

count_bytes-from : (z n : ℕ) (bs : List ℕ) → count_bytes (z, n) bs ≡ (z + zeros bs, n + nonzeros bs)
unfolding count_bytes
count_bytes-from z n [] = ground arith
count_bytes-from z n (b ∷ bs) =
    ground (arith, count_bytes-from (z + 1) n bs, count_bytes-from z (n + 1) bs)

-- The estimate of a builder transaction's gas is EIP-7623's floor for every message: 21000, 10 for
-- each zero byte and 40 for each other one.
pub estimate_builder_tx_gas-eq_floor :
    (input : List ℕ)
    → estimate_builder_tx_gas input ≡ 21000 + 10 * zeros input + 40 * nonzeros input
unfolding estimate_builder_tx_gas
estimate_builder_tx_gas-eq_floor input = ground (arith, count_bytes-from 0 0 input)
