-- ===== src/BestTxs/Finite.antt =====
-- `BestFlashblocksTxs` as an iterator itself, and the transactions marked as committed.
use op_rbuilder.Base.{
  ℕ, ◌<◌, ◌≤◌, ◌≡◌, ◌≢◌, ap, true, Option, some, List, arith, contains, ◌++◌, [], ◌∷◌,
}
use op_rbuilder.Transactions.{Address, Hash, FbPooledTransaction}
use op_rbuilder.BestTxs.{
  PayloadTransactions, BestFlashblocksTxs, refresh_iterator, mark_commited, mark_invalid, next,
}
use op_rbuilder.BestTxs.Iterator.{
  Yields, at_end, at_tx, later, Passed-remaining, handed-remaining, next-Yields, next-Eligible,
}

module _ (txs : PayloadTransactions) where
  pub Yields-remaining :
      {r : Option FbPooledTransaction} {s' s : BestFlashblocksTxs txs}
      → Yields txs r s' s
      → (txs.remaining s'.inner ≤ txs.remaining s.inner)
        × ((tx : FbPooledTransaction)
            → r ≡ some tx
            → txs.remaining s'.inner < txs.remaining s.inner)
  Yields-remaining {s} (at_end {i} h e f) =
      rw f (rw (ap (λ p. p.1) h) at (txs.next_end s.inner), λ tx q. absurd (ground arith))
  Yields-remaining {s} (at_tx h _ e f) =
      rw f (omega (arith, handed-remaining txs s h), λ tx q. handed-remaining txs s h)
  Yields-remaining {s} (later p y) =
      let (weak, strict) = Yields-remaining y in
      (omega (arith, Passed-remaining txs p), λ tx q. omega (arith, Passed-remaining txs p))

  pub mark_invalid-remaining :
      (s : BestFlashblocksTxs txs) (a : Address) (n : ℕ)
      → txs.remaining (mark_invalid txs s a n).inner ≤ txs.remaining s.inner
  unfolding mark_invalid
  mark_invalid-remaining s a n = txs.mark_invalid_remaining s.inner a n

  -- `BestFlashblocksTxs` is such an iterator itself.
  abbrev pub flashblock_txs : PayloadTransactions
  flashblock_txs = record {
    Txs = BestFlashblocksTxs txs;
    next = next txs;
    mark_invalid = mark_invalid txs;
    remaining = λ s. txs.remaining s.inner;
    next_remaining = λ s tx e. (Yields-remaining (next-Yields txs s)).1 tx e;
    next_end = λ s. (Yields-remaining (next-Yields txs s)).0;
    mark_invalid_remaining = mark_invalid-remaining;
  }

contains-append :
    (xs ys : List Hash) (a : Hash) → contains xs a ≡ true → contains (xs ++ ys) a ≡ true
contains-append [] ys a h = cc
contains-append (x ∷ xs) ys a h = ground (arith, contains-append xs ys a)

-- A transaction that was marked as committed is not returned by next after a refresh of the
-- iterator, whatever inner iterator and flashblock number the refresh brings.
pub committed_never_returned :
    (txs : PayloadTransactions) (s : BestFlashblocksTxs txs) (hashes : List Hash) (inner : txs.Txs)
    (n : ℕ) (tx : FbPooledTransaction)
    → contains hashes tx.inner.consensus.tx_hash ≡ true
    → (next txs (refresh_iterator txs (mark_commited txs s hashes) inner n)).0 ≢ some tx
unfolding refresh_iterator mark_commited
committed_never_returned txs s hashes inner n tx h e = cc (
  (next-Eligible txs (refresh_iterator txs (mark_commited txs s hashes) inner n) tx e).fresh,
  contains-append hashes s.commited_transactions _ h,
)
