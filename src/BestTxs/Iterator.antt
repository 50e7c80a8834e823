-- ===== src/BestTxs/Iterator.antt =====
-- `next` against its specification.
use mathlib.Core.Path.{subst}
use op_rbuilder.Base.{
  ℕ, zero, suc, ◌<◌, ◌≡◌, refl, ap, inl, inr, true, Option, none, some, arith, contains,
}
use op_rbuilder.Transactions.{FbPooledTransaction}
use op_rbuilder.BestTxs.{
  PayloadTransactions, Verdict, take, skip, drop, verdict, BestFlashblocksTxs, with_inner, Round,
  ended, found, again, on_verdict, on_next, round, next_from, next,
}
use op_rbuilder.BestTxs.Eligibility.{Eligible, verdict-take, verdict-skip, verdict-drop}

module _ (txs : PayloadTransactions) where
  -- The inner iterator hands `s` the answer `r` and goes on as `i`.
  abbrev pub Hands : BestFlashblocksTxs txs → Option FbPooledTransaction → txs.Txs → Type 0
  Hands s r i = (txs.next s.inner ≡ (r, i))

  -- A transaction that is passed over, and why; only one past its maximum is marked.
  pub data Passed (s : BestFlashblocksTxs txs) : BestFlashblocksTxs txs → Type 0 where
    commited :
        {tx : FbPooledTransaction} {i : txs.Txs} {s' : BestFlashblocksTxs txs}
        → Hands s (some tx) i
        → contains s.commited_transactions tx.inner.consensus.tx_hash ≡ true
        → s' ≡ with_inner txs s i
        → Passed s s'
    early :
        {tx : FbPooledTransaction} {i : txs.Txs} {min : ℕ} {s' : BestFlashblocksTxs txs}
        → Hands s (some tx) i
        → tx.flashblock_number_min ≡ some min
        → s.current_flashblock_number < min
        → s' ≡ with_inner txs s i
        → Passed s s'
    late :
        {tx : FbPooledTransaction} {i : txs.Txs} {max : ℕ} {s' : BestFlashblocksTxs txs}
        → Hands s (some tx) i
        → tx.flashblock_number_max ≡ some max
        → max < s.current_flashblock_number
        → s'
          ≡ with_inner txs s (txs.mark_invalid i tx.inner.consensus.signer tx.inner.consensus.nonce)
        → Passed s s'

  -- Started in the state of the index, the answer is `r` and the state left is `s'`: after
  -- transactions that are passed over comes the first eligible one, or the inner iterator's end.
  pub data Yields (r : Option FbPooledTransaction) (s' : BestFlashblocksTxs txs)
      : BestFlashblocksTxs txs → Type 0 where
    at_end :
        {s : BestFlashblocksTxs txs} {i : txs.Txs}
        → Hands s none i
        → r ≡ none
        → s' ≡ with_inner txs s i
        → Yields r s' s
    at_tx :
        {s : BestFlashblocksTxs txs} {tx : FbPooledTransaction} {i : txs.Txs}
        → Hands s (some tx) i
        → Eligible s.current_flashblock_number s.commited_transactions tx
        → r ≡ some tx
        → s' ≡ with_inner txs s i
        → Yields r s' s
    later : {s t : BestFlashblocksTxs txs} → Passed s t → Yields r s' t → Yields r s' s

  -- What a round's outcome says.
  abbrev Means : BestFlashblocksTxs txs → Round txs → Type 0
  Means s (ended s') = Yields none s' s
  Means s (found tx s') = Yields (some tx) s' s
  Means s (again s') = Passed s s'

  on_verdict-Means :
      (s : BestFlashblocksTxs txs) (tx : FbPooledTransaction) (i : txs.Txs)
      → Hands s (some tx) i
      → (v : Verdict) → verdict s.current_flashblock_number s.commited_transactions tx ≡ v
      → Means s (on_verdict txs (with_inner txs s i) tx v)
  unfolding on_verdict
  on_verdict-Means s tx i h take e =
      at_tx h (verdict-take s.current_flashblock_number s.commited_transactions tx e) refl refl
  on_verdict-Means s tx i h skip e =
      elim (verdict-skip s.current_flashblock_number s.commited_transactions tx e) [
        | inl old ↦ commited h old refl
        | inr (min, bound, below) ↦ early h bound below refl
      ]
  on_verdict-Means s tx i h drop e =
      let (max, bound, above) =
        verdict-drop s.current_flashblock_number s.commited_transactions tx e in
      late h bound above refl

  on_next-Means :
      (s : BestFlashblocksTxs txs) (r : Option FbPooledTransaction) (i : txs.Txs)
      → Hands s r i
      → Means s (on_next txs (with_inner txs s i) r)
  unfolding on_next
  on_next-Means s none i h = at_end h refl refl
  on_next-Means s (some tx) i h = on_verdict-Means s tx i h _ refl

  round-Means : (s : BestFlashblocksTxs txs) → Means s (round txs s)
  unfolding round
  round-Means s = on_next-Means s (txs.next s.inner).0 (txs.next s.inner).1 refl

  pub handed-remaining :
      (s : BestFlashblocksTxs txs) {tx : FbPooledTransaction} {i : txs.Txs}
      → Hands s (some tx) i
      → txs.remaining i < txs.remaining s.inner
  handed-remaining s {tx} {i} h =
      rw (ap (λ p. p.1) h) at (txs.next_remaining s.inner tx (ap (λ p. p.0) h))

  pub Passed-remaining :
      {s s' : BestFlashblocksTxs txs} → Passed s s' → txs.remaining s'.inner < txs.remaining s.inner
  Passed-remaining {s} (commited h _ e) = rw e (handed-remaining s h)
  Passed-remaining {s} (early h _ _ e) = rw e (handed-remaining s h)
  Passed-remaining {s} (late {tx} {i} h _ _ e) = rw e (
      omega (
        arith,
        handed-remaining s h,
        txs.mark_invalid_remaining i tx.inner.consensus.signer tx.inner.consensus.nonce,
      ))

  next_from-Yields :
      (fuel : ℕ) (s : BestFlashblocksTxs txs)
      → txs.remaining s.inner < fuel
      → Yields (next_from txs fuel s).0 (next_from txs fuel s).1 s
  unfolding next_from
  next_from-Yields zero s h = elim h [ ]
  next_from-Yields (suc fuel) s h = go (round txs s) (round-Means s) (next_from-Yields fuel)
    where
      go :
          (r : Round txs)
          → Means s r
          → ((t : BestFlashblocksTxs txs)
              → txs.remaining t.inner < fuel
              → Yields (next_from txs fuel t).0 (next_from txs fuel t).1 t)
          → let out : Option FbPooledTransaction × BestFlashblocksTxs txs = elim r [
            | ended s' ↦ (none, s')
            | found tx s' ↦ (some tx, s')
            | again s' ↦ next_from txs fuel s'
          ] in
            Yields out.0 out.1 s
      go (ended s') m ih = m
      go (found tx s') m ih = m
      go (again s') m ih = later m (ih s' (omega (arith, Passed-remaining m)))

  -- next always ends, and answers as its specification says: it passes over the inner iterator's
  -- transactions that are committed, too early or past their maximum, marking only the last kind
  -- as invalid, and returns the first other one, or none at the inner iterator's end.
  pub next-Yields : (s : BestFlashblocksTxs txs) → Yields (next txs s).0 (next txs s).1 s
  unfolding next
  next-Yields s = next_from-Yields (suc (txs.remaining s.inner)) s (omega arith)

  pub Passed-keeps :
      {s s' : BestFlashblocksTxs txs}
      → Passed s s'
      → (s'.current_flashblock_number ≡ s.current_flashblock_number)
        × (s'.commited_transactions ≡ s.commited_transactions)
  Passed-keeps (commited _ _ e) = rw e (refl, refl)
  Passed-keeps (early _ _ _ e) = rw e (refl, refl)
  Passed-keeps (late _ _ _ e) = rw e (refl, refl)

  Yields-Eligible :
      (tx : FbPooledTransaction) {r : Option FbPooledTransaction} {s' s : BestFlashblocksTxs txs}
      → Yields r s' s
      → r ≡ some tx
      → Eligible s.current_flashblock_number s.commited_transactions tx
  Yields-Eligible tx (at_end h e _) q = absurd (ground arith)
  Yields-Eligible tx {s} (at_tx {tx = t} h ok e _) q =
      subst (Eligible s.current_flashblock_number s.commited_transactions) (ground arith) ok
  Yields-Eligible tx {s} (later p y) q =
      rw (← (Passed-keeps p).0, ← (Passed-keeps p).1) (Yields-Eligible tx y q)

  -- What `next` returns may go into the current flashblock.
  pub next-Eligible :
      (s : BestFlashblocksTxs txs) (tx : FbPooledTransaction)
      → (next txs s).0 ≡ some tx
      → Eligible s.current_flashblock_number s.commited_transactions tx
  next-Eligible s tx e = Yields-Eligible tx (next-Yields s) e
