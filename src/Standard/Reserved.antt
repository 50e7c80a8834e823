-- ===== src/Standard/Reserved.antt =====
-- The room that the standard builder keeps for its own transactions.
use mathlib.Core.Path.{subst}
use op_rbuilder.Context.Filled.{Builds-Grows}
use op_rbuilder.Context.Loop.{Builds}
use op_rbuilder.Base.{
  ℕ, ◌+◌, ◌-◌, ◌*◌, ◌≤◌, ◌<◌, ◌≡◌, ap, sym, ◌∙◌, Bool, true, false, Option, some, unwrap_or, arith,
  ok, saturating_mul_u64, u64_max,
}
use op_rbuilder.BestTxs.{PayloadTransactions}
use op_rbuilder.BuilderTxs.{simulated}
use op_rbuilder.BuilderTxs.Within.{
  total_at, gas_limit_of, da_size_of, AddsAtMost, add_builder_txs-AddsAtMost,
}
use op_rbuilder.Evm.{MeteredEvm}
use op_rbuilder.Execution.Bounded.{Bounded, SmallLimits}
use op_rbuilder.Execution.Limits.{WithinFootprint, WithinFootprint-of}
use op_rbuilder.Context.{Info}
use op_rbuilder.Context.Best.{limits}
use op_rbuilder.Context.Block.{Builds-Bounded}
use op_rbuilder.Context.Sequencer.{execute_sequencer_transactions}
use op_rbuilder.Flashblocks.Headers.{block_gas_limit}
use op_rbuilder.Standard.{Node, Job, Site, fold_txs, room_for, best_call, add_own, ctx}
use op_rbuilder.Standard.Steps.{Steps-room, Owned, Steps, topped_site, room_of}

module _ (node : Node) where
  open node use {evm, sealer, seal_ctx}

  -- `s` is the block of the attributes.
  abbrev pub Starts : Job node → Site node → Type 0
  Starts j s =
      (db db0 : evm.Db) × (j.state ≡ some db)
      × (j.pre_execution db ≡ some db0)
      × (execute_sequencer_transactions evm (ctx node) db0 j.transactions ≡ ok (s.info, s.db))

  -- The sums that room is kept for
  abbrev pub reserved_gas : Job node → Site node → ℕ
  reserved_gas j s = fold_txs (λ tx. tx.gas_used) 0 (add_own node true j.simulate s).0

  abbrev pub reserved_da : Job node → Site node → ℕ
  reserved_da j s = fold_txs (λ tx. tx.da_size) 0 (add_own node true j.simulate s).0

  -- The builder's transactions at the end are within the room that is kept for them, which is
  -- within the block's limit.
  pub record Reserves (j : Job node) (s : Site node) : Type 0 where
    pub gas_kept :
        (s' : Site node)
        → total_at gas_limit_of false (simulated (j.simulate s'.info s'.db false))
          ≤ reserved_gas j s
    pub da_kept :
        (s' : Site node)
        → total_at da_size_of false (simulated (j.simulate s'.info s'.db false)) ≤ reserved_da j s
    pub gas_fits : reserved_gas j s ≤ block_gas_limit seal_ctx
    pub da_fits :
        (scalar : ℕ)
        → (topped_site node j s).info.da_footprint_scalar ≡ some scalar
        → reserved_da j s * scalar ≤ block_gas_limit seal_ctx
    pub small : block_gas_limit seal_ctx < u64_max

  -- What the hypotheses say of the block of the attributes
  pub record Fits (cap : ℕ) (txs : PayloadTransactions) (pool : txs.Txs) (cancel : ℕ → Bool)
      (j : Job node) (s : Site node) : Type 0 where
    pub reserves : Reserves j s
    pub small : SmallLimits (limits (best_call node txs pool cancel (room_of node j s))) cap
    pub within :
        Bounded
          (limits (best_call node txs pool cancel (room_of node j s)))
          (topped_site node j s).info

  gas_sum :
      (filled kept reserved limit : ℕ)
      → filled ≤ limit - reserved
      → kept ≤ reserved
      → reserved ≤ limit
      → filled + kept ≤ limit
  gas_sum filled kept reserved limit a b c = omega arith

  le-mul : (a b k limit : ℕ) → a ≤ b → b * k ≤ limit → a * k ≤ limit
  le-mul a b k limit h e = grind arith

  sum-mul : (a b k : ℕ) → (a + b) * k ≡ a * k + b * k
  sum-mul a b k = grind arith

  footprint_sum :
      (filled da kept reserved limit k : ℕ)
      → filled * k ≤ limit - saturating_mul_u64 reserved k
      → kept ≤ reserved
      → reserved * k ≤ limit
      → limit < u64_max
      → da ≤ filled + kept
      → da * k ≤ limit
  footprint_sum filled da kept reserved limit k a b c d e =
      le-mul da (filled + kept) k limit e (
        omega (arith, sum-mul filled kept k, le-mul kept reserved k (reserved * k) b (omega arith)))

  -- The footprint's limit, as a number
  at-room :
      (j : Job node) (s : Site node) (total : ℕ) {scalar : Option ℕ} (k : ℕ)
      → scalar ≡ some k
      → (topped_site node j s).info.da_footprint_scalar ≡ some k
      → WithinFootprint total scalar
          (unwrap_or (room_of node j s).block_da_footprint (room_of node j s).block_gas_limit)
      → total * k ≤ block_gas_limit seal_ctx - saturating_mul_u64 (reserved_da j s) k
  unfolding room_for
  at-room j s total k at_filled at_topped h = rw (at_filled, at_topped) at h

  -- A call of `add_own` adds at most what its transactions may use.
  Owned-AddsAtMost :
      {cap : ℕ} (meter : MeteredEvm evm cap) {j : Job node} {s s' : Site node}
      → Owned node false j s s'
      → AddsAtMost evm
          (ctx node)
          meter
          (total_at gas_limit_of false (simulated (j.simulate s.info s.db false)))
          (total_at da_size_of false (simulated (j.simulate s.info s.db false)))
          s.info
          s'.info
  unfolding add_own
  Owned-AddsAtMost meter {j} {s} o =
      rw o.same (add_builder_txs-AddsAtMost evm (ctx node) meter j.simulate s.info s.db false)

  module _ {cap : ℕ} (meter : MeteredEvm evm cap) (txs : PayloadTransactions) (pool : txs.Txs)
      (cancel : ℕ → Bool) where
    -- The gas and the footprint, with the footprint's scalar, of a block
    pub record Sound (info : Info evm (ctx node)) : Type 0 where
      pub gas : info.cumulative_gas_used ≤ block_gas_limit seal_ctx
      pub footprint :
          WithinFootprint info.cumulative_da_bytes_used info.da_footprint_scalar
            (block_gas_limit seal_ctx)

    pub Steps-Sound :
        {j : Job node} {s s' : Site node}
        → Fits cap txs pool cancel j s
        → Steps node txs pool cancel j s s'
        → Sound s'.info
    unfolding room_for
    Steps-Sound {j} {s} {s'} fits steps =
        let room : steps.room ≡ room_of node j s = Steps-room node txs pool cancel steps in
        let filled : Bounded (limits (best_call node txs pool cancel (room_of node j s)))
            steps.filled.info =
          Builds-Bounded _ meter fits.small
            (subst
              (λ r.
                Builds (best_call node txs pool cancel r) steps.filled.info steps.filled.db
                  steps.taken (topped_site node j s).info (topped_site node j s).db pool)
              room
              (subst
                (λ (t : Site node).
                  Builds (best_call node txs pool cancel steps.room) steps.filled.info
                    steps.filled.db steps.taken t.info t.db pool)
                steps.top.same steps.from_pool))
            fits.within in
        let more = Owned-AddsAtMost meter steps.bottom in
        let scalars : s'.info.da_footprint_scalar
            ≡ (topped_site node j s).info.da_footprint_scalar =
          steps.bottom.adds.grows.same_scalar
          ∙ ((Builds-Grows _ steps.from_pool).same_scalar
              ∙ ap (λ t. t.info.da_footprint_scalar) steps.top.same) in
        record {
          gas = omega (
            arith,
            gas_sum _ _ _ _ filled.gas (fits.reserves.gas_kept steps.filled) fits.reserves.gas_fits,
            more.gas_le,
          );
          footprint = WithinFootprint-of _ _ _ (λ k e.
              footprint_sum steps.filled.info.cumulative_da_bytes_used
                s'.info.cumulative_da_bytes_used _ (reserved_da j s) _ k
                (at-room j s _ k (sym steps.bottom.adds.grows.same_scalar ∙ e) (sym scalars ∙ e)
                  filled.footprint)
                (fits.reserves.da_kept steps.filled) (fits.reserves.da_fits k (sym scalars ∙ e))
                fits.reserves.small more.da_le);
        }
