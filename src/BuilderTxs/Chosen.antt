-- ===== src/BuilderTxs/Chosen.antt =====
-- Which of the simulated transactions a call of `add_builder_txs` is to add.
use op_rbuilder.Base.{
  ◌≡◌, refl, sym, Bool, true, false, List, [], ◌∷◌, contains, differ, ok, err, not, ◌⊎◌,
}
use op_rbuilder.Transactions.{Address, Tx}
use op_rbuilder.Evm.{Evm, BuilderCtx, ResultAndState, nonce_too_low, invalid_tx, fatal_error}
use op_rbuilder.BuilderTxs.{BuilderTransactionCtx}

pub differ-eq : (a b : Bool) → differ a b ≡ false → a ≡ b
differ-eq true true h = refl
differ-eq true false h = h
differ-eq false true h = sym h
differ-eq false false h = refl

pub differ-ne : (a b : Bool) → differ a b ≡ true → a ≡ not b
differ-ne true true h = sym h
differ-ne true false h = refl
differ-ne false true h = refl
differ-ne false false h = h

module _ (evm : Evm) (ctx : BuilderCtx) where
  -- A transaction that is invalid, or reverts
  abbrev pub Fails : evm.Db → Tx → Type 0
  Fails db tx =
      (evm.transact db tx ≡ err invalid_tx)
      ⊎ ((r : ResultAndState evm.Logs evm.Changes) × (evm.transact db tx ≡ ok r)
          × (r.result.is_success ≡ false))

  -- Which transactions are added, from the first database to the second: of those for the place, in
  -- their order, each that is executed with success, but none of a signer of whom one was invalid or
  -- reverted before. A nonce that is too low is no such failure, and a fatal error ends it.
  pub data Chosen (top_of_block : Bool) (db' : evm.Db)
      : List Address → evm.Db → List BuilderTransactionCtx → List Tx → Type 0 where
    ended :
        {invalid : List Address} {db : evm.Db} → db' ≡ db → Chosen top_of_block db' invalid db [] []
    cut :
        {invalid : List Address} {db : evm.Db} {t : BuilderTransactionCtx}
        {ts : List BuilderTransactionCtx}
        → t.is_top_of_block ≡ top_of_block
        → contains invalid t.signed_tx.signer ≡ false
        → evm.transact db t.signed_tx ≡ err fatal_error
        → db' ≡ db
        → Chosen top_of_block db' invalid db (t ∷ ts) []
    elsewhere :
        {invalid : List Address} {db : evm.Db} {t : BuilderTransactionCtx}
        {ts : List BuilderTransactionCtx} {txs : List Tx}
        → t.is_top_of_block ≡ not top_of_block
        → Chosen top_of_block db' invalid db ts txs
        → Chosen top_of_block db' invalid db (t ∷ ts) txs
    distrusted :
        {invalid : List Address} {db : evm.Db} {t : BuilderTransactionCtx}
        {ts : List BuilderTransactionCtx} {txs : List Tx}
        → contains invalid t.signed_tx.signer ≡ true
        → Chosen top_of_block db' invalid db ts txs
        → Chosen top_of_block db' invalid db (t ∷ ts) txs
    outdated :
        {invalid : List Address} {db : evm.Db} {t : BuilderTransactionCtx}
        {ts : List BuilderTransactionCtx} {txs : List Tx}
        → evm.transact db t.signed_tx ≡ err nonce_too_low
        → Chosen top_of_block db' invalid db ts txs
        → Chosen top_of_block db' invalid db (t ∷ ts) txs
    failed :
        {invalid : List Address} {db : evm.Db} {t : BuilderTransactionCtx}
        {ts : List BuilderTransactionCtx} {txs : List Tx}
        → t.is_top_of_block ≡ top_of_block
        → Fails db t.signed_tx
        → Chosen top_of_block db' (t.signed_tx.signer ∷ invalid) db ts txs
        → Chosen top_of_block db' invalid db (t ∷ ts) txs
    chosen :
        {invalid : List Address} {db : evm.Db} {t : BuilderTransactionCtx}
        {ts : List BuilderTransactionCtx} {txs : List Tx} (r : ResultAndState evm.Logs evm.Changes)
        → t.is_top_of_block ≡ top_of_block
        → contains invalid t.signed_tx.signer ≡ false
        → evm.transact db t.signed_tx ≡ ok r
        → r.result.is_success ≡ true
        → Chosen top_of_block db' invalid (evm.commit db r.state) ts txs
        → Chosen top_of_block db' invalid db (t ∷ ts) (t.signed_tx ∷ txs)
