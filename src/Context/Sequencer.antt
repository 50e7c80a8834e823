-- ===== src/Context/Sequencer.antt =====
-- `execute_sequencer_transactions`: the transactions of the payload attributes, in their order.
pub mod Laws
pub mod Returns
use op_rbuilder.Base.{
  ℕ, Bool, true, false, ◌&&◌, Option, none, some, List, [], ◌∷◌, if◌then◌else◌, length, Result, ok,
  err, ◌>>=◌,
}
use op_rbuilder.Transactions.{Tx}
use op_rbuilder.Execution.{with_capacity}
use op_rbuilder.Evm.{
  Evm, BuilderCtx, TransactError, ResultAndState, nonce_too_low, invalid_tx, fatal_error,
}
use op_rbuilder.Context.{
  PayloadBuilderError, blob_transaction_rejected, transaction_ec_recover_failed,
  account_load_failed, evm_execution_error, panicked, Info, charge_gas, charge_da, append,
}

-- A transaction of the attributes: whether it is a blob transaction, and what
-- `try_clone_into_recovered` makes of it.
pub record SequencerTx : Type 0 where
  pub is_eip4844 : Bool
  pub recovered : Option Tx

module _ (evm : Evm) (ctx : BuilderCtx) where
  open evm use {Db, Changes, Logs}

  -- The block and the database, as the loop changes them.
  abbrev pub Progress : Type 0
  Progress = Info evm ctx × Db

  -- The depositor's nonce before the transaction, for deposits after Regolith
  unfoldable pub depositor_nonce : Db → Tx → Result PayloadBuilderError (Option ℕ)
  depositor_nonce db tx =
      if ctx.is_regolith_active && tx.is_deposit
      then elim (evm.account_nonce db tx.signer) [
        | none ↦ err (account_load_failed tx.signer)
        | some nonce ↦ ok (some nonce)
      ]
      else ok none

  -- A deposit has no DA size.
  unfoldable pub charge_sequencer_da : Info evm ctx → Tx → Info evm ctx
  unfolding charge_da
  charge_sequencer_da info tx =
      if tx.is_deposit then info else charge_da evm ctx info tx.estimated_size

  unfoldable pub commit_result : Progress → Tx → Option ℕ → ResultAndState Logs Changes → Progress
  commit_result (info, db) tx nonce r = (
    append evm ctx (charge_sequencer_da (charge_gas evm ctx info tx r.result nonce) tx) tx,
    evm.commit db r.state,
  )

  -- An invalid transaction is skipped, any other error ends the attempt.
  unfoldable pub on_error : Progress → TransactError → Result PayloadBuilderError Progress
  on_error p nonce_too_low = ok p
  on_error p invalid_tx = ok p
  on_error p fatal_error = err evm_execution_error

  unfoldable pub execute_recovered : Progress → Tx → Result PayloadBuilderError Progress
  execute_recovered p tx = do
    nonce ← depositor_nonce p.1 tx
    elim (evm.transact p.1 tx) [ ok r ↦ ok (commit_result p tx nonce r) | err e ↦ on_error p e ]

  -- One round of the loop
  unfoldable pub execute_sequencer_tx : Progress → SequencerTx → Result PayloadBuilderError Progress
  execute_sequencer_tx p t =
      if t.is_eip4844 then err blob_transaction_rejected else elim t.recovered [
        | none ↦ err transaction_ec_recover_failed
        | some tx ↦ execute_recovered p tx
      ]

  unfoldable pub execute_all : Progress → List SequencerTx → Result PayloadBuilderError Progress
  execute_all p [] = ok p
  execute_all p (t ∷ ts) = execute_sequencer_tx p t >>= λ next. execute_all next ts

  -- The scalar of the DA footprint, read after the loop
  unfoldable pub fetch_scalar : Db → Result PayloadBuilderError (Option ℕ)
  fetch_scalar db =
      if ctx.is_jovian_active
      then elim (evm.fetch_da_footprint_gas_scalar db) [
        | none ↦ err panicked
        | some scalar ↦ ok (some scalar)
      ]
      else ok none

  unfoldable pub execute_sequencer_transactions :
      Db → List SequencerTx → Result PayloadBuilderError Progress
  execute_sequencer_transactions db ts = do
    p ← execute_all (with_capacity (length ts), db) ts
    scalar ← fetch_scalar p.1
    ok (record p.0 { da_footprint_scalar = scalar }, p.1)
