-- ===== src/Context/Sidecar.antt =====
-- `execute_sidecar_transactions`: the transactions that the sidecar sends. A required one that
-- fails ends the build, an optional one is left out.
pub mod Rounds
pub mod Blocks
pub mod Required
use op_rbuilder.Base.{
  ℕ, Bool, true, false, not, ◌||◌, Option, none, some, List, [], ◌∷◌, if◌then◌else◌, Result, ok,
  err, ◌>>=◌, ◌>>◌, map_err, ok_or,
}
use op_rbuilder.Transactions.{Tx}
use op_rbuilder.Execution.{BlockLimits, is_tx_over_limits}
use op_rbuilder.Evm.{Evm, BuilderCtx, ResultAndState}
use op_rbuilder.Context.{
  SidecarError, decode_error, signature_recovery_failed, invalid_transaction_type, limits_exceeded,
  execution_failed, transaction_reverted, PayloadBuilderError, sidecar_error, Info, charge, append,
}

-- `ExternalTransaction` of sidecar/types.rs. `raw` is what `decode_2718` makes of the bytes: a
-- transaction of which the signer may not be recoverable, or nothing.
pub record ExternalTransaction : Type 0 where
  pub raw : Option (Option Tx)
  pub required : Bool
  pub instance_id : Option ℕ

-- `if condition { return Err(e) }`
abbrev pub ensure : {E : Type 0} → Bool → E → Result E (Unit {0})
ensure true e = ok tt
ensure false e = err e

module _ (evm : Evm) (ctx : BuilderCtx) (limits : BlockLimits) where
  open evm use {Db, Changes, Logs}

  -- The block and the database, as the loop changes them.
  abbrev pub Progress : Type 0
  Progress = Info evm ctx × Db

  -- The transaction to execute, or the first test that it fails
  unfoldable pub accept : Info evm ctx → ExternalTransaction → Result SidecarError Tx
  accept info ext = do
    decoded ← ok_or decode_error ext.raw
    tx ← ok_or signature_recovery_failed decoded
    ensure (not (tx.is_eip4844 || tx.is_deposit)) invalid_transaction_type
    map_err limits_exceeded
        (is_tx_over_limits info tx.estimated_size tx.gas_limit info.da_footprint_scalar limits)
    ok tx

  unfoldable pub run : Db → Tx → Result SidecarError (ResultAndState Logs Changes)
  run db tx = do
    r ← map_err (λ _. execution_failed) (evm.transact db tx)
    ensure r.result.is_success transaction_reverted
    ok r

  -- One round of the loop, up to the first failure
  unfoldable pub attempt : Progress → ExternalTransaction → Result SidecarError Progress
  attempt p ext = do
    tx ← accept p.0 ext
    r ← run p.1 tx
    ok (
      append evm ctx (charge evm ctx p.0 tx tx.estimated_size r.result) tx,
      evm.commit p.1 r.state,
    )

  -- The result of the call, and what it leaves, also where it fails. `max_da_tx_size` is the
  -- limit on one transaction.
  unfoldable pub execute_sidecar_transactions :
      Progress → List ExternalTransaction → Result PayloadBuilderError (Unit {0}) × Progress
  execute_sidecar_transactions p [] = (ok tt, p)
  execute_sidecar_transactions p (ext ∷ exts) = elim (attempt p ext) [
    | ok next ↦ execute_sidecar_transactions next exts
    | err e ↦
        let rest = execute_sidecar_transactions p exts in
        if ext.required then (err (sidecar_error e), p) else rest
  ]
