-- ===== src/Context/Sidecar/Required.antt =====
-- Which of the sidecar's transactions a block contains, and which failure ends the call.
use op_rbuilder.Base.{
  ◌≡◌, refl, ap, sym, true, false, some, List, [], ◌∷◌, ◌++◌, append-nil, Result, ok, err,
}
use op_rbuilder.Transactions.{Tx}
use op_rbuilder.Execution.{BlockLimits}
use op_rbuilder.Evm.{Evm, BuilderCtx}
use op_rbuilder.Context.{SidecarError, PayloadBuilderError, sidecar_error}
use op_rbuilder.Context.Aligned.{Extends-append}
use op_rbuilder.Context.Sidecar.{
  ExternalTransaction, Progress, attempt, execute_sidecar_transactions,
}
use op_rbuilder.Context.Sidecar.Rounds.{
  Taken, Ends, finished, took, passed_over, failed_on, execute_sidecar_transactions-Ends,
}

-- The transactions that the block gains: each required one, some of the optional ones, in the
-- sidecar's order, and none of them a blob transaction or a deposit.
pub data Kept : List ExternalTransaction → List Tx → Type 0 where
  all_done : Kept [] []
  included :
      {ext : ExternalTransaction} {exts : List ExternalTransaction} {tx : Tx} {txs : List Tx}
      → ext.raw ≡ some (some tx)
      → tx.is_eip4844 ≡ false
      → tx.is_deposit ≡ false
      → Kept exts txs
      → Kept (ext ∷ exts) (tx ∷ txs)
  left_out :
      {ext : ExternalTransaction} {exts : List ExternalTransaction} {txs : List Tx}
      → ext.required ≡ false
      → Kept exts txs
      → Kept (ext ∷ exts) txs

module _ (evm : Evm) (ctx : BuilderCtx) (limits : BlockLimits) where
  -- What a call without an error makes of the block
  pub record Completes (exts : List ExternalTransaction) (p p' : Progress evm ctx limits)
      : Type 0 where
    pub txs : List Tx
    pub kept : Kept exts txs
    pub gained : p'.0.executed_transactions ≡ p.0.executed_transactions ++ txs

  -- What a call with an error says: a required transaction failed, after the list before it was
  -- completed.
  pub record FailsOn (exts : List ExternalTransaction) (p : Progress evm ctx limits)
      (e : PayloadBuilderError) (p' : Progress evm ctx limits) : Type 0 where
    pub before : List ExternalTransaction
    pub ext : ExternalTransaction
    pub after : List ExternalTransaction
    pub why : SidecarError
    pub split : exts ≡ before ++ ext ∷ after
    pub required : ext.required ≡ true
    pub failed : attempt evm ctx limits p' ext ≡ err why
    pub told : e ≡ sidecar_error why
    pub completed : Completes before p p'

  -- The one or the other
  pub data Means (exts : List ExternalTransaction) (p : Progress evm ctx limits)
      : Result PayloadBuilderError (Unit {0}) × Progress evm ctx limits → Type 0 where
    completes : {p' : Progress evm ctx limits} → Completes exts p p' → Means exts p (ok tt, p')
    fails_on :
        {e : PayloadBuilderError} {p' : Progress evm ctx limits}
        → FailsOn exts p e p'
        → Means exts p (err e, p')

  took-Completes :
      {ext : ExternalTransaction} {exts : List ExternalTransaction}
      {p p' p'' : Progress evm ctx limits}
      → Taken evm ctx limits p ext p'
      → Completes exts p' p''
      → Completes (ext ∷ exts) p p''
  took-Completes t c = record {
    txs = t.tx ∷ c.txs;
    kept = included t.accepted.decoded t.accepted.no_blob t.accepted.no_deposit c.kept;
    gained = Extends-append c.txs t.extends c.gained;
  }

  passed_over-Completes :
      {ext : ExternalTransaction} {exts : List ExternalTransaction} {p p' : Progress evm ctx limits}
      → ext.required ≡ false
      → Completes exts p p'
      → Completes (ext ∷ exts) p p'
  passed_over-Completes off c = record {
    txs = c.txs;
    kept = left_out off c.kept;
    gained = c.gained;
  }

  nothing-Completes : (p : Progress evm ctx limits) → Completes [] p p
  nothing-Completes p = record { txs = []; kept = all_done; gained = sym (append-nil _) }

  later-FailsOn :
      {exts : List ExternalTransaction} {q p : Progress evm ctx limits} {e : PayloadBuilderError}
      {p' : Progress evm ctx limits} (ext : ExternalTransaction) (f : FailsOn exts q e p')
      → Completes (ext ∷ f.before) p p'
      → FailsOn (ext ∷ exts) p e p'
  later-FailsOn ext f c = record {
    before = ext ∷ f.before;
    ext = f.ext;
    after = f.after;
    why = f.why;
    split = ap (λ l. ext ∷ l) f.split;
    required = f.required;
    failed = f.failed;
    told = f.told;
    completed = c;
  }

  took-Means :
      {ext : ExternalTransaction} {exts : List ExternalTransaction} {p p' : Progress evm ctx limits}
      {end : Result PayloadBuilderError (Unit {0}) × Progress evm ctx limits}
      → Taken evm ctx limits p ext p'
      → Means exts p' end
      → Means (ext ∷ exts) p end
  took-Means t (completes c) = completes (took-Completes t c)
  took-Means t (fails_on f) = fails_on (later-FailsOn _ f (took-Completes t f.completed))

  passed_over-Means :
      {ext : ExternalTransaction} {exts : List ExternalTransaction} {p : Progress evm ctx limits}
      {end : Result PayloadBuilderError (Unit {0}) × Progress evm ctx limits}
      → ext.required ≡ false
      → Means exts p end
      → Means (ext ∷ exts) p end
  passed_over-Means off (completes c) = completes (passed_over-Completes off c)
  passed_over-Means off (fails_on f) =
      fails_on (later-FailsOn _ f (passed_over-Completes off f.completed))

  Ends-Means :
      {exts : List ExternalTransaction} {p : Progress evm ctx limits}
      {end : Result PayloadBuilderError (Unit {0}) × Progress evm ctx limits}
      → Ends evm ctx limits exts p end
      → Means exts p end
  Ends-Means finished = completes (nothing-Completes _)
  Ends-Means (took t rest) = took-Means t (Ends-Means rest)
  Ends-Means (passed_over off rest) = passed_over-Means off (Ends-Means rest)
  Ends-Means {exts = ext ∷ exts} (failed_on {e} on failed) = fails_on (record {
    before = [];
    ext = ext;
    after = exts;
    why = e;
    split = refl;
    required = on;
    failed = failed;
    told = refl;
    completed = nothing-Completes _;
  })

  -- execute_sidecar_transactions returns without an error, and then the block has gained every
  -- required transaction and some optional ones in the sidecar's order; or it returns the error of
  -- a required transaction, and then the block has gained so much of the list before it.
  pub execute_sidecar_transactions-Means :
      (p : Progress evm ctx limits) (exts : List ExternalTransaction)
      → Means exts p (execute_sidecar_transactions evm ctx limits p exts)
  execute_sidecar_transactions-Means p exts =
      Ends-Means (execute_sidecar_transactions-Ends evm ctx limits p exts)
