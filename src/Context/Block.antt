-- ===== src/Context/Block.antt =====
-- The block that `execute_best_transactions` leaves: its limits, its lists and its transactions.
use op_rbuilder.Base.{ℕ, ◌≡◌, ◌⊎◌, inl, inr, List, ap}
use op_rbuilder.Transactions.{FbPooledTransaction}
use op_rbuilder.Execution.Bounded.{Bounded, SmallLimits, Charged, Charged-Bounded}
use op_rbuilder.Evm.{MeteredEvm}
use op_rbuilder.Context.{Info, charge, add_fees, append}
use op_rbuilder.Context.Best.{
  BestCall, Build, done, cancelled_at, limits, execute_best_transactions,
}
use op_rbuilder.Context.Included.{Included}
use op_rbuilder.Context.Loop.{Builds, built, next_built, next_left, execute_best_transactions-Ends}

module _ (call : BestCall) where
  open call use {evm, ctx}

  Included-Charged :
      {p : FbPooledTransaction} {info info' : Info evm ctx} {db db' : evm.Db}
      (inc : Included call info db p info' db')
      → Charged info p.inner.estimated_da_size inc.r.result.gas_used info'
  unfolding append add_fees charge
  Included-Charged inc = record {
    gas = ap (λ i. i.cumulative_gas_used) inc.new_info;
    da = ap (λ i. i.cumulative_da_bytes_used) inc.new_info;
    scalar = ap (λ i. i.da_footprint_scalar) inc.new_info;
  }

  module _ {cap : ℕ} (meter : MeteredEvm evm cap) (small : SmallLimits (limits call) cap) where
    Included-Bounded :
        {p : FbPooledTransaction} {info info' : Info evm ctx} {db db' : evm.Db}
        → Included call info db p info' db'
        → Bounded (limits call) info
        → Bounded (limits call) info'
    Included-Bounded {p} {db} inc h =
        let (used, capped) = meter.metered db p.inner.consensus inc.r inc.admitted.ran in
        Charged-Bounded p.inner.consensus.gas_limit small inc.admitted.fits used capped
          (Included-Charged inc) h

    pub Builds-Bounded :
        {info' : Info evm ctx} {db' : evm.Db} {ps : List FbPooledTransaction} {info : Info evm ctx}
        {db : evm.Db} {it : call.txs.Txs}
        → Builds call info' db' ps info db it
        → Bounded (limits call) info
        → Bounded (limits call) info'
    Builds-Bounded (built e _) h = rw e h
    Builds-Bounded (next_built _ inc rest) h = Builds-Bounded rest (Included-Bounded inc h)
    Builds-Bounded (next_left _ _ rest) h = Builds-Bounded rest h

  -- The call returned with the block of `b'`: it came to the iterator's end, or was cancelled.
  abbrev pub Returns : Build call → Build call → Type 0
  Returns b b' =
      (execute_best_transactions call b ≡ done b')
      ⊎ (execute_best_transactions call b ≡ cancelled_at b')

  pub Returns-Builds :
      (b b' : Build call)
      → Returns b b'
      → (ps : List FbPooledTransaction) × Builds call b'.info b'.db ps b.info b.db b.best_txs
  Returns-Builds b b' (inl e) = rw e at (execute_best_transactions-Ends call b)
  Returns-Builds b b' (inr e) = rw e at (execute_best_transactions-Ends call b)

  -- A block within its gas, DA and DA footprint limits is within them still when
  -- execute_best_transactions returns, if the EVM uses at most a transaction's gas limit and the
  -- limits are small enough for machine words.
  pub best-Bounded :
      {cap : ℕ} (b b' : Build call)
      → MeteredEvm evm cap
      → SmallLimits (limits call) cap
      → Bounded (limits call) b.info
      → Returns b b'
      → Bounded (limits call) b'.info
  best-Bounded b b' meter small h ret = Builds-Bounded meter small (Returns-Builds b b' ret).1 h
