-- ===== src/Flashblocks/Slices.antt =====
-- Which transactions and receipts each flashblock publishes: those since the last one, in
-- `build_block`, and those that `build_next_flashblock` marks as committed.
use op_rbuilder.Base.{
  ℕ, ◌≡◌, refl, ap, sym, ◌∙◌, List, [], ◌∷◌, ◌++◌, map, append_assoc, append-nil, length, drop,
  drop-length-append, length-append, arith,
}
use op_rbuilder.Transactions.{Tx, Hash}
use op_rbuilder.Execution.{ExecutionInfo}

-- What a flashblock publishes
pub record Slice (Receipt : Type 0) : Type 0 where
  pub new_transactions : List Tx
  pub new_receipts : List Receipt

dropped : {A : Type 0} (n : ℕ) (xs ys zs : List A) → n ≡ length xs → zs ≡ xs ++ ys → drop n zs ≡ ys
dropped n xs ys zs e z = rw (e, z) (drop-length-append xs ys)

module _ {Receipt : Type 0} where
  -- `info.executed_transactions[last_flashblock_index..]`, its receipts, and the index moved to the
  -- end. Out of range the code panics, and this is the empty slice.
  unfoldable pub take_slice : ExecutionInfo Tx Receipt → Slice Receipt × ExecutionInfo Tx Receipt
  take_slice info = (
    record {
      new_transactions = drop info.extra.last_flashblock_index info.executed_transactions;
      new_receipts = drop info.extra.last_flashblock_index info.receipts;
    },
    record info { extra = record { last_flashblock_index = length info.executed_transactions } },
  )

  -- The hashes for `mark_commited`
  unfoldable pub new_hashes : ExecutionInfo Tx Receipt → List Hash
  new_hashes info =
      map (λ tx. tx.tx_hash) (drop info.extra.last_flashblock_index info.executed_transactions)

  -- The index is within both lists, which are as long as each other: every transaction before it
  -- has been published, and its receipt.
  pub record IsPublished (info : ExecutionInfo Tx Receipt) : Type 0 where
    pub all_transactions : info.extra.last_flashblock_index ≡ length info.executed_transactions
    pub all_receipts : info.extra.last_flashblock_index ≡ length info.receipts

  -- Execution adds transactions and receipts at the ends, as many of each.
  pub record Adds (info : ExecutionInfo Tx Receipt) (slice : Slice Receipt)
      (info' : ExecutionInfo Tx Receipt) : Type 0 where
    pub same_extra : info'.extra ≡ info.extra
    pub transactions :
        info'.executed_transactions ≡ info.executed_transactions ++ slice.new_transactions
    pub receipts : info'.receipts ≡ info.receipts ++ slice.new_receipts
    pub as_many : length slice.new_receipts ≡ length slice.new_transactions

  -- A flashblock publishes what was added since the last.
  pub take_slice-Adds :
      (info : ExecutionInfo Tx Receipt) (slice : Slice Receipt) (info' : ExecutionInfo Tx Receipt)
      → IsPublished info
      → Adds info slice info'
      → (take_slice info').0 ≡ slice
  unfolding take_slice
  take_slice-Adds info slice info' h a =
      let index = ap (λ e. e.last_flashblock_index) a.same_extra in
      let txs = dropped _ _ _ _ (index ∙ h.all_transactions) a.transactions in
      let receipts = dropped _ _ _ _ (index ∙ h.all_receipts) a.receipts in rw (txs, receipts) refl

  pub take_slice-IsPublished :
      (info : ExecutionInfo Tx Receipt) (slice : Slice Receipt) (info' : ExecutionInfo Tx Receipt)
      → IsPublished info
      → Adds info slice info'
      → IsPublished (take_slice info').1
  unfolding take_slice
  take_slice-IsPublished info slice info' h a = record {
    all_transactions = refl;
    all_receipts = omega (
      arith,
      ap length a.transactions,
      ap length a.receipts,
      a.as_many,
      h.all_transactions,
      h.all_receipts,
      length-append info.executed_transactions slice.new_transactions,
      length-append info.receipts slice.new_receipts,
    );
  }

  -- A block as it grows: what its flashblocks publish, each after some transactions were added.
  pub data Published
      : ExecutionInfo Tx Receipt → List (Slice Receipt) → ExecutionInfo Tx Receipt → Type 0 where
    ended : {info : ExecutionInfo Tx Receipt} → Published info [] info
    published :
        {info info' end : ExecutionInfo Tx Receipt} {slice : Slice Receipt}
        {rest : List (Slice Receipt)}
        → Adds info slice info'
        → Published (take_slice info').1 rest end
        → Published info ((take_slice info').0 ∷ rest) end

  abbrev pub concat : {A : Type 0} → (Slice Receipt → List A) → List (Slice Receipt) → List A
  concat f [] = []
  concat f (x ∷ xs) = f x ++ concat f xs

  -- From a block all of which is published, the flashblocks of the block, put together, publish
  -- every transaction that was added since, once and in order, and its receipt; and afterwards
  -- nothing is left to publish.
  pub Published-concat :
      (info : ExecutionInfo Tx Receipt) (slices : List (Slice Receipt))
      (end : ExecutionInfo Tx Receipt)
      → IsPublished info
      → Published info slices end
      → (end.executed_transactions
          ≡ info.executed_transactions ++ concat (λ s. s.new_transactions) slices)
        × (end.receipts ≡ info.receipts ++ concat (λ s. s.new_receipts) slices)
        × IsPublished end
  unfolding take_slice
  Published-concat info slices end h ended = (sym (append-nil _), sym (append-nil _), h)
  Published-concat info slices end h (published {info'} {slice} {rest} a more) =
      let (txs, receipts, left) =
        Published-concat _ rest end (take_slice-IsPublished info slice info' h a) more in
      let same = take_slice-Adds info slice info' h a in
      (
        txs
            ∙ (ap (λ l. l ++ concat (λ s. s.new_transactions) rest) a.transactions
                ∙ (append_assoc info.executed_transactions slice.new_transactions
                      (concat (λ s. s.new_transactions) rest)
                    ∙ ap
                        (λ (s : Slice Receipt).
                          info.executed_transactions
                          ++ (s.new_transactions ++ concat (λ s. s.new_transactions) rest))
                        (sym same))),
        receipts
            ∙ (ap (λ l. l ++ concat (λ s. s.new_receipts) rest) a.receipts
                ∙ (append_assoc info.receipts slice.new_receipts (concat (λ s. s.new_receipts) rest)
                    ∙ ap
                        (λ (s : Slice Receipt).
                          info.receipts ++ (s.new_receipts ++ concat (λ s. s.new_receipts) rest))
                        (sym same))),
        left,
      )

  -- What `build_next_flashblock` marks as committed are the hashes of the transactions that were
  -- added since the last flashblock.
  pub new_hashes-Adds :
      (info : ExecutionInfo Tx Receipt) (slice : Slice Receipt) (info' : ExecutionInfo Tx Receipt)
      → IsPublished info
      → Adds info slice info'
      → new_hashes info' ≡ map (λ tx. tx.tx_hash) slice.new_transactions
  unfolding new_hashes
  new_hashes-Adds info slice info' h a = ap (map (λ (tx : Tx). tx.tx_hash)) (
      dropped _ _ _ _ (ap (λ e. e.last_flashblock_index) a.same_extra ∙ h.all_transactions)
        a.transactions)
