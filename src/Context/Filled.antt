-- ===== src/Context/Filled.antt =====
-- A block that grows by the transactions of the pool that it includes.
use op_rbuilder.Base.{refl, List, [], ◌∷◌, map}
use op_rbuilder.Transactions.{Tx, FbPooledTransaction}
use op_rbuilder.Context.{Info, append, charge, add_fees}
use op_rbuilder.Context.Aligned.{Extends}
use op_rbuilder.Context.Grows.{Grows, Grows-refl, Grows-trans, Extends-Grows}
use op_rbuilder.Context.Best.{BestCall}
use op_rbuilder.Context.Included.{Included}
use op_rbuilder.Context.Loop.{Builds, built, next_built, next_left}

abbrev pub consensus_tx : FbPooledTransaction → Tx
consensus_tx p = p.inner.consensus

module _ (call : BestCall) where
  open call use {evm, ctx}

  Included-Extends :
      {info info' : Info evm ctx} {db db' : evm.Db} {p : FbPooledTransaction}
      → Included call info db p info' db'
      → Extends info p.inner.consensus info'
  unfolding append add_fees charge
  Included-Extends inc = rw inc.new_info (record {
    receipt = _;
    transactions = refl;
    senders = refl;
    receipts = refl;
    same_extra = refl;
    same_scalar = refl;
    same_blob_fields = refl;
  })

  pub Builds-Grows :
      {info' : Info evm ctx} {db' : evm.Db} {ps : List FbPooledTransaction} {info : Info evm ctx}
      {db : evm.Db} {it : call.txs.Txs}
      → Builds call info' db' ps info db it
      → Grows info (map consensus_tx ps) info'
  Builds-Grows {info} (built e _) = rw e (Grows-refl info)
  Builds-Grows (next_built {p} {ps} _ inc rest) =
      Grows-trans (consensus_tx p ∷ []) (map consensus_tx ps) (Extends-Grows (Included-Extends inc))
        (Builds-Grows rest)
  Builds-Grows (next_left _ _ rest) = Builds-Grows rest
