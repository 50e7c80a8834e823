-- ===== src/Context/Grows.antt =====
-- A block that grows by several transactions, each with its sender and receipt.
use mathlib.Core.List.{map-append}
use op_rbuilder.Base.{
  ◌≡◌, refl, ap, sym, ◌∙◌, List, [], ◌∷◌, ◌++◌, map, arith, length, length-append, append-nil,
  append_assoc,
}
use op_rbuilder.Transactions.{Tx}
use op_rbuilder.Execution.{ExecutionInfo}
use op_rbuilder.Context.Aligned.{Aligned, Extends}

-- `info'` is `info` with transactions, and as many receipts, at the ends of the lists; what has been
-- published, the footprint's scalar and the blob fields stay.
pub record Grows {Receipt : Type 0} (info : ExecutionInfo Tx Receipt) (txs : List Tx)
    (info' : ExecutionInfo Tx Receipt) : Type 0 where
  pub new_receipts : List Receipt
  pub transactions : info'.executed_transactions ≡ info.executed_transactions ++ txs
  pub senders : info'.executed_senders ≡ info.executed_senders ++ map (λ tx. tx.signer) txs
  pub receipts : info'.receipts ≡ info.receipts ++ new_receipts
  pub as_many : length new_receipts ≡ length txs
  pub same_extra : info'.extra ≡ info.extra
  pub same_scalar : info'.da_footprint_scalar ≡ info.da_footprint_scalar
  pub same_blob_fields : info'.optional_blob_fields ≡ info.optional_blob_fields

join :
    {A : Type 0} (xs us vs : List A) {ys zs : List A}
    → ys ≡ xs ++ us
    → zs ≡ ys ++ vs
    → zs ≡ xs ++ (us ++ vs)
join xs us vs p q = q ∙ (ap (λ l. l ++ vs) p ∙ append_assoc xs us vs)

module _ {Receipt : Type 0} where
  pub Grows-refl : (info : ExecutionInfo Tx Receipt) → Grows info [] info
  Grows-refl info = record {
    new_receipts = [];
    transactions = sym (append-nil _);
    senders = sym (append-nil _);
    receipts = sym (append-nil _);
    as_many = refl;
    same_extra = refl;
    same_scalar = refl;
    same_blob_fields = refl;
  }

  pub Extends-Grows :
      {info info' : ExecutionInfo Tx Receipt} {tx : Tx}
      → Extends info tx info'
      → Grows info (tx ∷ []) info'
  Extends-Grows {tx} e = record {
    new_receipts = e.receipt ∷ [];
    transactions = e.transactions;
    senders = e.senders;
    receipts = e.receipts;
    as_many = refl;
    same_extra = e.same_extra;
    same_scalar = e.same_scalar;
    same_blob_fields = e.same_blob_fields;
  }

  pub Grows-trans :
      {info mid info' : ExecutionInfo Tx Receipt} (us vs : List Tx)
      → Grows info us mid
      → Grows mid vs info'
      → Grows info (us ++ vs) info'
  Grows-trans {info} us vs g h = record {
    new_receipts = g.new_receipts ++ h.new_receipts;
    transactions = join _ us vs g.transactions h.transactions;
    senders =
        join _ _ _ g.senders h.senders
        ∙ ap (λ l. info.executed_senders ++ l) (sym (map-append (λ tx. tx.signer) us vs));
    receipts = join _ g.new_receipts h.new_receipts g.receipts h.receipts;
    as_many = omega (
      arith,
      g.as_many,
      h.as_many,
      length-append us vs,
      length-append g.new_receipts h.new_receipts,
    );
    same_extra = h.same_extra ∙ g.same_extra;
    same_scalar = h.same_scalar ∙ g.same_scalar;
    same_blob_fields = h.same_blob_fields ∙ g.same_blob_fields;
  }

  pub Grows-Aligned :
      {info info' : ExecutionInfo Tx Receipt} (txs : List Tx)
      → Grows info txs info'
      → Aligned info
      → Aligned info'
  Grows-Aligned {info} {info'} txs g h = record {
    senders =
        g.senders
        ∙ (ap (λ l. l ++ map (λ tx. tx.signer) txs) h.senders
            ∙ (sym (map-append (λ tx. tx.signer) info.executed_transactions txs)
                ∙ sym (ap (map (λ tx. tx.signer)) g.transactions)));
    receipts = omega (
      arith,
      ap length g.receipts,
      ap length g.transactions,
      length-append info.receipts g.new_receipts,
      length-append info.executed_transactions txs,
      g.as_many,
      h.receipts,
    );
  }
