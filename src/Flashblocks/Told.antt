-- ===== src/Flashblocks/Told.antt =====
-- What the subscribers of a block have been told, compared with the best payload.
use op_rbuilder.Base.{
  ℕ, suc, zero, ◌≤◌, ◌≡◌, refl, ap, sym, ◌∙◌, Option, none, some, List, [], ◌∷◌, ◌++◌, map,
  append-nil, append_assoc, length, ◌⊎◌, Result, ok, err,
}
use op_rbuilder.Evm.{Evm}
use op_rbuilder.Context.Aligned.{Aligned}
use op_rbuilder.Flashblocks.Slices.{IsPublished}
use op_rbuilder.Flashblocks.Outputs.{Sealer, BuiltPayload, FlashblockPayload}
use op_rbuilder.Flashblocks.Building.{Chain, send_failed, Site, Stop, stopped, failed}

-- 0, 1, 2 and so on, so many
abbrev pub count_up : ℕ → List ℕ
count_up zero = []
count_up (suc n) = count_up n ++ n ∷ []

module _ (evm : Evm) (sealer : Sealer evm) where
  abbrev pub all_transactions : List (FlashblockPayload evm sealer) → List ℕ
  all_transactions [] = []
  all_transactions (m ∷ ms) = m.diff.transactions ++ all_transactions ms

  abbrev pub last_hash : Option ℕ → List (FlashblockPayload evm sealer) → Option ℕ
  last_hash hash [] = hash
  last_hash hash (m ∷ ms) = last_hash (some m.diff.block_hash) ms

  pub all_transactions-snoc :
      (ms : List (FlashblockPayload evm sealer)) (m : FlashblockPayload evm sealer)
      → all_transactions (ms ++ m ∷ []) ≡ all_transactions ms ++ m.diff.transactions
  all_transactions-snoc [] m = append-nil _
  all_transactions-snoc (x ∷ ms) m =
      ap (λ l. x.diff.transactions ++ l) (all_transactions-snoc ms m)
      ∙ sym (append_assoc x.diff.transactions (all_transactions ms) m.diff.transactions)

  pub last_hash-snoc :
      (hash : Option ℕ) (ms : List (FlashblockPayload evm sealer))
      (m : FlashblockPayload evm sealer)
      → last_hash hash (ms ++ m ∷ []) ≡ some m.diff.block_hash
  last_hash-snoc hash [] m = refl
  last_hash-snoc hash (x ∷ ms) m = last_hash-snoc (some x.diff.block_hash) ms m

  -- The messages, put together, hold the transactions of the best payload, once and in order; they
  -- are numbered from 0 on, at most `count` after the first, and the last one has the payload's
  -- hash. The payload has a sender and a receipt for each of its transactions.
  pub record Told (count : ℕ) (best : Option (BuiltPayload evm sealer))
      (published : List (FlashblockPayload evm sealer)) : Type 0 where
    pub payload : BuiltPayload evm sealer
    pub is_best : best ≡ some payload
    pub transactions :
        all_transactions published ≡ map sealer.encoded_2718 payload.block.transactions
    pub numbered : map (λ m. m.index) published ≡ count_up (length published)
    pub within : length published ≤ suc count
    pub latest : last_hash none published ≡ some payload.block.block_hash
    pub senders : payload.block.senders ≡ map (λ tx. tx.signer) payload.block.transactions
    pub receipts : length payload.execution_output.receipts ≡ length payload.block.transactions

module _ (chain : Chain) (count : ℕ) where
  open chain use {evm, sealer, seal_ctx}

  abbrev pub ToldAt : Site chain → Type 0
  ToldAt s = Told evm sealer count s.best s.published

  -- Between two flashblocks: all of the block is published, and the best payload is of the block.
  pub record Ready (s : Site chain) : Type 0 where
    pub told : ToldAt s
    pub same_block : told.payload.block.transactions ≡ s.info.executed_transactions
    pub all_published : IsPublished s.info
    pub aligned : Aligned s.info

  -- How a step from such a state ends; a message may be ahead of the payload only where the
  -- payload could not be sent.
  abbrev pub Follows : ℕ → Result (Stop chain) (Site chain) → Type 0
  Follows n (ok s) = Ready s × (length s.published ≡ suc n)
  Follows n (err (stopped s)) = ToldAt s
  Follows n (err (failed e s)) = (e ≡ send_failed) ⊎ ToldAt s
