-- ===== src/Standard/Keeps.antt =====
-- The standard builder with the plain transaction of builders/standard/builder_tx.rs: what it keeps
-- room for, and what it adds.
use op_rbuilder.Base.{
  ◌≤◌, ◌<◌, ◌≡◌, refl, ap, ◌∙◌, Bool, true, false, none, some, [], ◌∷◌, Option, arith, inl, inr,
  u64_mod, Result, ok, err, Result-cases,
}
use op_rbuilder.BuilderTxs.{
  BuilderTransactionCtx, BuilderTransactionError, Simulate, add_builder_tx, add_from,
  add_builder_txs, simulated,
}
use op_rbuilder.BuilderTxs.Base.{Calls, simulate_builder_tx}
use op_rbuilder.BuilderTxs.Makers.{on_base, simulate_standard}
use op_rbuilder.BuilderTxs.Signed.{ReadsSigned, base_gas, IsBase, simulate_builder_tx-IsBase}
use op_rbuilder.BuilderTxs.Within.{total_at, gas_limit_of}
use op_rbuilder.Flashtestations.{Hashes}
use op_rbuilder.TxSigner.{Signer}
use op_rbuilder.Standard.{Node, Job, Site, fold_txs, add_own, ctx}
use op_rbuilder.Standard.Reserved.{reserved_gas}

module _ (node : Node) (calls : Calls node.evm) (hashes : Hashes) (signer : Signer calls.crypto)
    (committed : node.evm.Db) where
  open node use {evm, seal_ctx}

  -- `StandardBuilderTx` without flashtestations, which no flag concerns
  abbrev pub plain : Simulate evm (ctx node)
  plain info db top =
      (simulate_standard calls hashes seal_ctx (some signer) none committed info db false).0

  abbrev pub with_plain : Job node → Job node
  with_plain j = record j { simulate = plain }

  module _ (reader : ReadsSigned calls) where
    abbrev Base : evm.Db → BuilderTransactionCtx → Type 0
    Base = IsBase calls seal_ctx reader signer

    -- At the top of the block the transaction is left for the end, and room is kept for it.
    skips :
        (s : Site node) (t : BuilderTransactionCtx)
        → t.is_top_of_block ≡ false
        → plain s.info s.db true ≡ ok (t ∷ [])
        → (add_own node true plain s).0 ≡ t ∷ []
    unfolding add_own add_builder_txs add_from add_builder_tx simulate_standard on_base
    skips s t place e = rw (e, add_builder_txs, place) refl

    on_base-one :
        (s : Site node) (r : Result BuilderTransactionError (Option BuilderTransactionCtx))
        (t : BuilderTransactionCtx)
        → r ≡ ok (some t)
        → (on_base calls hashes seal_ctx none committed s.info s.db false [] r).0 ≡ ok (t ∷ [])
    unfolding on_base
    on_base-one s r t e = rw e refl

    on_base-err :
        (s : Site node) (r : Result BuilderTransactionError (Option BuilderTransactionCtx))
        (x : BuilderTransactionError)
        → r ≡ err x
        → simulated (on_base calls hashes seal_ctx none committed s.info s.db false [] r).0 ≡ []
    unfolding on_base
    on_base-err s r x e = rw e refl

    plain-one :
        (s : Site node) (top : Bool) (o : Option BuilderTransactionCtx)
        → simulate_builder_tx calls seal_ctx (some signer) s.db ≡ ok o
        → (t : BuilderTransactionCtx) × (plain s.info s.db top ≡ ok (t ∷ [])) × Base s.db t
    unfolding simulate_standard
    plain-one s top o ran =
        let (t, same, base) = simulate_builder_tx-IsBase calls seal_ctx reader signer s.db o ran in
        (t, on_base-one s _ t (ran ∙ ap ok same), base)

    -- If the builder's account can be read and its key signs on the block of the attributes, a
    -- signed transaction is read as it was signed and its estimate is a word, then the gas limits
    -- of the standard builder's own transactions at the end of the block, with no flashtestations,
    -- are within the gas that was kept for them at its top.
    pub reserved_gas-covers :
        (j : Job node) (s s' : Site node) (o : Option BuilderTransactionCtx)
        → base_gas calls seal_ctx reader < u64_mod
        → simulate_builder_tx calls seal_ctx (some signer) s.db ≡ ok o
        → total_at gas_limit_of false (simulated (plain s'.info s'.db false))
          ≤ reserved_gas node (with_plain j) s
    unfolding fold_txs simulate_standard
    reserved_gas-covers j s s' o small ran =
        let (t, one, base) = plain-one s true o ran in
        let kept : (add_own node true plain s).0 ≡ t ∷ [] = skips s t base.at_end one in
        elim (Result-cases (simulate_builder_tx calls seal_ctx (some signer) s'.db)) [
          | inr (x, bad) ↦ rw (on_base-err s' _ x bad) (omega arith)
          | inl (o', ran') ↦
              let (t', one', base') = plain-one s' false o' ran' in
              rw (one', kept, base'.at_end) (omega (arith, base.gas_used, base'.signed.gas))
        ]
