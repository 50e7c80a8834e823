-- ===== src/Context/Sidecar/Rounds.antt =====
-- The rounds of the loop, and how it ends.
use mathlib.Core.Path.{subst}
use op_rbuilder.Base.{
  ◌≡◌, refl, sym, inl, inr, true, false, some, List, [], ◌∷◌, arith, Bool-cases, Option-cases,
  Result, ok, err, Result-cases,
}
use op_rbuilder.Transactions.{Tx}
use op_rbuilder.Execution.{BlockLimits, is_tx_over_limits}
use op_rbuilder.Execution.Bounded.{Charged}
use op_rbuilder.Evm.{Evm, BuilderCtx, ResultAndState}
use op_rbuilder.Context.{SidecarError, PayloadBuilderError, sidecar_error, Info, charge, append}
use op_rbuilder.Context.Aligned.{Extends}
use op_rbuilder.Context.Sidecar.{
  ExternalTransaction, Progress, accept, run, attempt, execute_sidecar_transactions,
}

module _ (evm : Evm) (ctx : BuilderCtx) (limits : BlockLimits) where
  -- A transaction that passed the tests
  pub record Accepted (info : Info evm ctx) (ext : ExternalTransaction) (tx : Tx) : Type 0 where
    pub decoded : ext.raw ≡ some (some tx)
    pub no_blob : tx.is_eip4844 ≡ false
    pub no_deposit : tx.is_deposit ≡ false
    pub fits :
        is_tx_over_limits info tx.estimated_size tx.gas_limit info.da_footprint_scalar limits
        ≡ ok tt

  decoded-Accepted :
      (info : Info evm ctx) (ext : ExternalTransaction) (tx' tx : Tx)
      → ext.raw ≡ some (some tx')
      → accept evm ctx limits info ext ≡ ok tx
      → Accepted info ext tx
  unfolding accept
  decoded-Accepted info ext tx' tx found e = elim (Bool-cases tx'.is_eip4844) [
    | inl on ↦ absurd (ground arith)
    | inr off ↦ elim (Bool-cases tx'.is_deposit) [
      | inl on ↦ absurd (ground arith)
      | inr non ↦
          elim (Result-cases (
            is_tx_over_limits info tx'.estimated_size tx'.gas_limit info.da_footprint_scalar
              limits)) [
                | inl (_, fits) ↦
                    let same : tx ≡ tx' = ground arith in
                    rw same
                      (record { decoded = found; no_blob = off; no_deposit = non; fits = fits })
                | inr (x, over) ↦ absurd (ground arith)
              ]
    ]
  ]

  accept-Accepted :
      (info : Info evm ctx) (ext : ExternalTransaction) (tx : Tx)
      → accept evm ctx limits info ext ≡ ok tx
      → Accepted info ext tx
  unfolding accept
  accept-Accepted info ext tx e = elim (Option-cases ext.raw) [
    | inl lost ↦ absurd (ground arith)
    | inr (decoded, found) ↦ elim (Option-cases decoded) [
      | inl lost ↦ absurd (ground arith)
      | inr (tx', recovered) ↦ decoded-Accepted info ext tx' tx (ground arith) e
    ]
  ]

  run-succeeds :
      (db : evm.Db) (tx : Tx) (r : ResultAndState evm.Logs evm.Changes)
      → run evm ctx limits db tx ≡ ok r
      → (evm.transact db tx ≡ ok r) × (r.result.is_success ≡ true)
  unfolding run
  run-succeeds db tx r e = elim (Result-cases (evm.transact db tx)) [
    | inl (r', ran) ↦ elim (Bool-cases r'.result.is_success) [
      | inl good ↦ let same : r ≡ r' = ground arith in rw same (ran, good)
      | inr bad ↦ absurd (ground arith)
    ]
    | inr (x, failed) ↦ absurd (ground arith)
  ]

  -- A round that adds the transaction to the block
  pub record Taken (p : Progress evm ctx limits) (ext : ExternalTransaction)
      (p' : Progress evm ctx limits) : Type 0 where
    pub tx : Tx
    pub r : ResultAndState evm.Logs evm.Changes
    pub accepted : Accepted p.0 ext tx
    pub ran : evm.transact p.1 tx ≡ ok r
    pub extends : Extends p.0 tx p'.0
    pub charged : Charged p.0 tx.estimated_size r.result.gas_used p'.0

  attempt-Taken :
      (p : Progress evm ctx limits) (ext : ExternalTransaction) (p' : Progress evm ctx limits)
      → attempt evm ctx limits p ext ≡ ok p'
      → Taken p ext p'
  unfolding attempt append charge
  attempt-Taken p ext p' e = elim (Result-cases (accept evm ctx limits p.0 ext)) [
    | inl (tx, accepted) ↦ elim (Result-cases (run evm ctx limits p.1 tx)) [
      | inl (r, good) ↦
          let same : p' ≡ (
            append evm ctx (charge evm ctx p.0 tx tx.estimated_size r.result) tx,
            evm.commit p.1 r.state,
          ) =
            ground arith in
          rw same (record {
            tx = tx;
            r = r;
            accepted = accept-Accepted p.0 ext tx accepted;
            ran = (run-succeeds p.1 tx r good).0;
            extends = record {
              receipt = _;
              transactions = refl;
              senders = refl;
              receipts = refl;
              same_extra = refl;
              same_scalar = refl;
              same_blob_fields = refl;
            };
            charged = record { gas = refl; da = refl; scalar = refl };
          })
      | inr (x, failed) ↦ absurd (ground arith)
    ]
    | inr (x, failed) ↦ absurd (ground arith)
  ]

  -- The end of the call: the transactions that the block gained, and why it failed if it did.
  pub data Ends
      : List ExternalTransaction
        → Progress evm ctx limits
        → Result PayloadBuilderError (Unit {0}) × Progress evm ctx limits
        → Type 0 where
    finished : {p : Progress evm ctx limits} → Ends [] p (ok tt, p)
    took :
        {ext : ExternalTransaction} {exts : List ExternalTransaction}
        {p p' : Progress evm ctx limits}
        {end : Result PayloadBuilderError (Unit {0}) × Progress evm ctx limits}
        → Taken p ext p'
        → Ends exts p' end
        → Ends (ext ∷ exts) p end
    passed_over :
        {ext : ExternalTransaction} {exts : List ExternalTransaction} {p : Progress evm ctx limits}
        {end : Result PayloadBuilderError (Unit {0}) × Progress evm ctx limits}
        → ext.required ≡ false
        → Ends exts p end
        → Ends (ext ∷ exts) p end
    failed_on :
        {ext : ExternalTransaction} {exts : List ExternalTransaction} {p : Progress evm ctx limits}
        {e : SidecarError}
        → ext.required ≡ true
        → attempt evm ctx limits p ext ≡ err e
        → Ends (ext ∷ exts) p (err (sidecar_error e), p)

  pub execute_sidecar_transactions-Ends :
      (p : Progress evm ctx limits) (exts : List ExternalTransaction)
      → Ends exts p (execute_sidecar_transactions evm ctx limits p exts)
  unfolding execute_sidecar_transactions
  execute_sidecar_transactions-Ends p [] = finished
  execute_sidecar_transactions-Ends p (ext ∷ exts) =
      elim (Result-cases (attempt evm ctx limits p ext)) [
        | inl (p', ran) ↦
            rw (ran, execute_sidecar_transactions)
              (took (attempt-Taken p ext p' ran) (execute_sidecar_transactions-Ends p' exts))
        | inr (e, failed) ↦ elim (Bool-cases ext.required) [
          | inl on ↦
              let same : execute_sidecar_transactions evm ctx limits p (ext ∷ exts)
                  ≡ (err (sidecar_error e), p) =
                ground arith in
              subst (λ end. Ends (ext ∷ exts) p end) (sym same) (failed_on on failed)
          | inr off ↦
              let same : execute_sidecar_transactions evm ctx limits p (ext ∷ exts)
                  ≡ execute_sidecar_transactions evm ctx limits p exts =
                ground arith in
              subst (λ end. Ends (ext ∷ exts) p end) (sym same)
                (passed_over off (execute_sidecar_transactions-Ends p exts))
        ]
      ]
