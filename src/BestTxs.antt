-- ===== src/BestTxs.antt =====
-- crates/op-rbuilder/src/builders/flashblocks/best_txs.rs: the pool's transactions in their order,
-- less those that are in the block already and those whose bounds exclude this flashblock.
pub mod Eligibility
pub mod Iterator
pub mod Finite
use op_rbuilder.Base.{
  ℕ, suc, zero, ◌<◌, ◌≤◌, ◌≡◌, Bool, Option, none, some, List, ◌++◌, ltb, if◌then◌else◌,
  is_some_and, contains,
}
use op_rbuilder.Transactions.{Address, Hash, FbPooledTransaction}

-- `PayloadTransactions` of the node's library: an iterator that can be told to skip what depends
-- on a transaction. It hands out finitely many transactions: `remaining` bounds those to come.
pub record PayloadTransactions : Type 1 where
  pub Txs : Type 0
  pub next : Txs → Option FbPooledTransaction × Txs
  pub mark_invalid : Txs → Address → ℕ → Txs
  pub remaining : Txs → ℕ
  pub next_remaining :
      (s : Txs) (tx : FbPooledTransaction)
      → (next s).0 ≡ some tx
      → remaining (next s).1 < remaining s
  pub next_end : (s : Txs) → remaining (next s).1 ≤ remaining s
  pub mark_invalid_remaining :
      (s : Txs) (a : Address) (n : ℕ) → remaining (mark_invalid s a n) ≤ remaining s

-- What `next` does with a transaction of the inner iterator.
pub data Verdict : Type 0 where
  take skip drop : Verdict

-- The three tests of `next`, in their order
unfoldable pub verdict : ℕ → List Hash → FbPooledTransaction → Verdict
verdict current commited tx =
    if contains commited tx.inner.consensus.tx_hash
    then skip
    else if is_some_and (λ min. ltb current min) tx.flashblock_number_min
    then skip
    else if is_some_and (λ max. ltb max current) tx.flashblock_number_max
    then drop
    else take

module _ (txs : PayloadTransactions) where
  open txs use {Txs}

  pub record BestFlashblocksTxs : Type 0 where
    pub inner : Txs
    pub current_flashblock_number : ℕ
    pub commited_transactions : List Hash

  abbrev pub with_inner : BestFlashblocksTxs → Txs → BestFlashblocksTxs
  with_inner s i = record s { inner = i }

  unfoldable pub refresh_iterator : BestFlashblocksTxs → Txs → ℕ → BestFlashblocksTxs
  refresh_iterator s inner n = record s { inner = inner; current_flashblock_number = n }

  unfoldable pub mark_commited : BestFlashblocksTxs → List Hash → BestFlashblocksTxs
  mark_commited s hashes = record s { commited_transactions = hashes ++ s.commited_transactions }

  unfoldable pub mark_invalid : BestFlashblocksTxs → Address → ℕ → BestFlashblocksTxs
  mark_invalid s a n = with_inner s (txs.mark_invalid s.inner a n)

  -- One round of the loop of `next`: the transaction to return, or none to go on.
  pub data Round : Type 0 where
    ended : BestFlashblocksTxs → Round
    found : FbPooledTransaction → BestFlashblocksTxs → Round
    again : BestFlashblocksTxs → Round

  unfoldable pub on_verdict : BestFlashblocksTxs → FbPooledTransaction → Verdict → Round
  unfolding mark_invalid
  on_verdict s tx take = found tx s
  on_verdict s tx skip = again s
  on_verdict s tx drop = again (mark_invalid s tx.inner.consensus.signer tx.inner.consensus.nonce)

  unfoldable pub on_next : BestFlashblocksTxs → Option FbPooledTransaction → Round
  unfolding on_verdict
  on_next s none = ended s
  on_next s (some tx) =
      on_verdict s tx (verdict s.current_flashblock_number s.commited_transactions tx)

  unfoldable pub round : BestFlashblocksTxs → Round
  unfolding on_next
  round s = let (tx, i) = txs.next s.inner in on_next (with_inner s i) tx

  -- The loop on fuel
  unfoldable pub next_from :
      ℕ → BestFlashblocksTxs → Option FbPooledTransaction × BestFlashblocksTxs
  next_from zero s = (none, s)
  next_from (suc fuel) s = elim (round s) [
    | ended s' ↦ (none, s')
    | found tx s' ↦ (some tx, s')
    | again s' ↦ next_from fuel s'
  ]

  -- `next`: every round takes a transaction from the inner iterator, so its bound is enough fuel.
  unfoldable pub next : BestFlashblocksTxs → Option FbPooledTransaction × BestFlashblocksTxs
  next s = next_from (suc (txs.remaining s.inner)) s
