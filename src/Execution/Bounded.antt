-- ===== src/Execution/Bounded.antt =====
-- A block within its limits.
use op_rbuilder.Base.{ℕ, ◌+◌, ◌≤◌, ◌<◌, ◌≡◌, some, arith, unwrap_or, u64_mod, u64_max, add_u64, ok}
use op_rbuilder.Execution.{ExecutionInfo, BlockLimits, is_tx_over_limits}
use op_rbuilder.Execution.Limits.{
  WithinLimit, WithinFootprint, WithinLimit-of, WithinFootprint-of, passed-gas, passed-block_data,
  passed-footprint, wrapped-footprint,
}

pub record Bounded {Tx Receipt : Type 0} (limits : BlockLimits) (info : ExecutionInfo Tx Receipt)
    : Type 0 where
  pub gas : info.cumulative_gas_used ≤ limits.block_gas_limit
  pub da : WithinLimit info.cumulative_da_bytes_used limits.block_data_limit
  pub footprint :
      WithinFootprint info.cumulative_da_bytes_used info.da_footprint_scalar
        (unwrap_or limits.block_da_footprint_limit limits.block_gas_limit)

-- The limits are not the largest word, and the block's gas limit and `cap`, a bound on the gas
-- limit of a transaction, together fit a word.
pub record SmallLimits (limits : BlockLimits) (cap : ℕ) : Type 0 where
  pub gas_fits : limits.block_gas_limit + cap < u64_mod
  pub da_small : (limit : ℕ) → limits.block_data_limit ≡ some limit → limit < u64_max
  pub footprint_small : unwrap_or limits.block_da_footprint_limit limits.block_gas_limit < u64_max

-- `info'` is `info` with the gas used and the DA size of one transaction.
pub record Charged {Tx Receipt : Type 0} (info : ExecutionInfo Tx Receipt) (size gas_used : ℕ)
    (info' : ExecutionInfo Tx Receipt) : Type 0 where
  pub gas : info'.cumulative_gas_used ≡ add_u64 info.cumulative_gas_used gas_used
  pub da : info'.cumulative_da_bytes_used ≡ add_u64 info.cumulative_da_bytes_used size
  pub scalar : info'.da_footprint_scalar ≡ info.da_footprint_scalar

pub Charged-Bounded :
    {Tx Receipt : Type 0} {limits : BlockLimits} {cap : ℕ} {info info' : ExecutionInfo Tx Receipt}
    {size gas_used : ℕ} (gas_limit : ℕ)
    → SmallLimits limits cap
    → is_tx_over_limits info size gas_limit info.da_footprint_scalar limits ≡ ok tt
    → gas_used ≤ gas_limit
    → gas_limit ≤ cap
    → Charged info size gas_used info'
    → Bounded limits info
    → Bounded limits info'
Charged-Bounded {limits} {info} {info'} {size} gas_limit small passed used capped charged h =
    record {
      gas =
          omega
            (arith, charged.gas, small.gas_fits, passed-gas info size gas_limit _ limits passed);
      da = WithinLimit-of _ _ (λ limit e. omega (
        arith,
        charged.da,
        passed-block_data info size gas_limit _ limits passed e (small.da_small limit e),
      ));
      footprint =
          rw (charged.scalar, charged.da)
            (WithinFootprint-of _ _ _ (λ k e.
              wrapped-footprint info.cumulative_da_bytes_used size k _
                (passed-footprint info size gas_limit _ limits passed e small.footprint_small)));
    }
