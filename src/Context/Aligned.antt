-- ===== src/Context/Aligned.antt =====
-- The three lists of a block: transactions, senders and receipts.
use mathlib.Core.List.{map-append}
use op_rbuilder.Base.{
  ◌≡◌, ap, sym, ◌∙◌, List, [], ◌∷◌, ◌++◌, map, arith, length, length-snoc, append_assoc,
}
use op_rbuilder.Transactions.{Tx}
use op_rbuilder.Execution.{ExecutionInfo}

pub record Aligned {Receipt : Type 0} (info : ExecutionInfo Tx Receipt) : Type 0 where
  pub senders : info.executed_senders ≡ map (λ tx. tx.signer) info.executed_transactions
  pub receipts : length info.receipts ≡ length info.executed_transactions

-- `info'` is `info` with one transaction and its receipt at the ends of the lists; what has been
-- published, the footprint's scalar and the blob fields stay.
pub record Extends {Receipt : Type 0} (info : ExecutionInfo Tx Receipt) (tx : Tx)
    (info' : ExecutionInfo Tx Receipt) : Type 0 where
  pub receipt : Receipt
  pub transactions : info'.executed_transactions ≡ info.executed_transactions ++ tx ∷ []
  pub senders : info'.executed_senders ≡ info.executed_senders ++ tx.signer ∷ []
  pub receipts : info'.receipts ≡ info.receipts ++ receipt ∷ []
  pub same_extra : info'.extra ≡ info.extra
  pub same_scalar : info'.da_footprint_scalar ≡ info.da_footprint_scalar
  pub same_blob_fields : info'.optional_blob_fields ≡ info.optional_blob_fields

pub Extends-Aligned :
    {Receipt : Type 0} {info info' : ExecutionInfo Tx Receipt} {tx : Tx}
    → Extends info tx info'
    → Aligned info
    → Aligned info'
Extends-Aligned {info} {info'} {tx} e h = record {
  senders =
      e.senders
      ∙ (ap (λ l. l ++ tx.signer ∷ []) h.senders
          ∙ (sym (map-append (λ t. t.signer) info.executed_transactions (tx ∷ []))
              ∙ sym (ap (map (λ t. t.signer)) e.transactions)));
  receipts = omega (
    arith,
    ap length e.receipts,
    ap length e.transactions,
    length-snoc info.receipts e.receipt,
    length-snoc info.executed_transactions tx,
    h.receipts,
  );
}

-- Transactions that follow the first are at the end of the list too.
pub Extends-append :
    {Receipt : Type 0} {info info' : ExecutionInfo Tx Receipt} {tx : Tx} {all : List Tx}
    (txs : List Tx)
    → Extends info tx info'
    → all ≡ info'.executed_transactions ++ txs
    → all ≡ info.executed_transactions ++ tx ∷ txs
Extends-append {info} {tx} txs e h =
    h ∙ (ap (λ l. l ++ txs) e.transactions ∙ append_assoc info.executed_transactions (tx ∷ []) txs)
