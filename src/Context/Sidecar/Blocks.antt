-- ===== src/Context/Sidecar/Blocks.antt =====
-- What a failure leaves: the limits and the lists of the block.
use op_rbuilder.Base.{ℕ, List, Result}
use op_rbuilder.Execution.{BlockLimits}
use op_rbuilder.Execution.Bounded.{Bounded, SmallLimits, Charged-Bounded}
use op_rbuilder.Evm.{Evm, BuilderCtx, MeteredEvm}
use op_rbuilder.Context.{PayloadBuilderError}
use op_rbuilder.Context.Aligned.{Aligned, Extends-Aligned}
use op_rbuilder.Context.Sidecar.{ExternalTransaction, Progress, execute_sidecar_transactions}
use op_rbuilder.Context.Sidecar.Rounds.{
  Ends, finished, took, passed_over, failed_on, execute_sidecar_transactions-Ends,
}

module _ (evm : Evm) (ctx : BuilderCtx) (limits : BlockLimits) where
  Ends-Aligned :
      {exts : List ExternalTransaction} {p : Progress evm ctx limits}
      {end : Result PayloadBuilderError (Unit {0}) × Progress evm ctx limits}
      → Ends evm ctx limits exts p end
      → Aligned p.0
      → Aligned end.1.0
  Ends-Aligned finished h = h
  Ends-Aligned (took t rest) h = Ends-Aligned rest (Extends-Aligned t.extends h)
  Ends-Aligned (passed_over off rest) h = Ends-Aligned rest h
  Ends-Aligned (failed_on on failed) h = h

  -- After execute_sidecar_transactions, also where it failed, a block that had a sender and a
  -- receipt for each of its transactions has them still.
  pub execute_sidecar_transactions-Aligned :
      (p : Progress evm ctx limits) (exts : List ExternalTransaction)
      → Aligned p.0
      → Aligned (execute_sidecar_transactions evm ctx limits p exts).1.0
  execute_sidecar_transactions-Aligned p exts h =
      Ends-Aligned (execute_sidecar_transactions-Ends evm ctx limits p exts) h

  Ends-Bounded :
      {exts : List ExternalTransaction} {p : Progress evm ctx limits} {cap : ℕ}
      {end : Result PayloadBuilderError (Unit {0}) × Progress evm ctx limits}
      → Ends evm ctx limits exts p end
      → MeteredEvm evm cap
      → SmallLimits limits cap
      → Bounded limits p.0
      → Bounded limits end.1.0
  Ends-Bounded finished meter small h = h
  Ends-Bounded {p} (took t rest) meter small h =
      let (used, capped) = meter.metered p.1 t.tx t.r t.ran in
      Ends-Bounded rest meter small
        (Charged-Bounded t.tx.gas_limit small t.accepted.fits used capped t.charged h)
  Ends-Bounded (passed_over off rest) meter small h = Ends-Bounded rest meter small h
  Ends-Bounded (failed_on on failed) meter small h = h

  -- After execute_sidecar_transactions, also where it failed, a block within its gas, DA and DA
  -- footprint limits is within them still, if the EVM uses at most a transaction's gas limit and
  -- the limits are small enough for machine words.
  pub execute_sidecar_transactions-Bounded :
      {cap : ℕ} (p : Progress evm ctx limits) (exts : List ExternalTransaction)
      → MeteredEvm evm cap
      → SmallLimits limits cap
      → Bounded limits p.0
      → Bounded limits (execute_sidecar_transactions evm ctx limits p exts).1.0
  execute_sidecar_transactions-Bounded p exts meter small h =
      Ends-Bounded (execute_sidecar_transactions-Ends evm ctx limits p exts) meter small h
