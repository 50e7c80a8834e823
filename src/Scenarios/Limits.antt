-- ===== src/Scenarios/Limits.antt =====
-- The limits of a whole block, on the small node.
use mathlib.Core.Path.{subst}
use op_rbuilder.Base.{ℕ, ◌≡◌, refl, sym, ap, ◌∙◌, false, some, arith, ok, Result}
use op_rbuilder.GasLimiter.{AddressGasLimiter}
use op_rbuilder.Context.Sequencer.{Progress, execute_sequencer_transactions}
use op_rbuilder.Standard.{Site, better, add_own, fold_txs, room_for}
use op_rbuilder.Standard.Reserved.{Starts, Fits}
use op_rbuilder.Standard.Within.{KeepsLimits, build_payload-Within}
use op_rbuilder.Scenarios.{evm, ctx, txs, evm-metered}
use op_rbuilder.Scenarios.Attributes.{attributes, sequenced, attributes-sequenced}
use op_rbuilder.Scenarios.Whole.{node, job, pool, whole, built}

abbrev pub site : AddressGasLimiter → Site node
site l = record { info = sequenced.0; db = sequenced.1; limiter = l }

from-ok : {E A : Type 0} {a b : A} → ◌≡◌ {A = Result E A} (ok a) (ok b) → a ≡ b
from-ok e = cc

from-some : {A : Type 0} {a b : A} → some a ≡ some b → a ≡ b
from-some e = cc

Starts-site : (s : Site node) → Starts node job s → site s.limiter ≡ s
Starts-site s (db, db0, found, started, ran) =
    let at : 0 ≡ db0 = from-some found ∙ from-some started in
    let e : execute_sequencer_transactions evm ctx 0 attributes ≡ ok (s.info, s.db) =
      subst (λ (d : ℕ). execute_sequencer_transactions evm ctx d attributes ≡ ok (s.info, s.db))
        (sym at) ran in
    let same : sequenced ≡ (s.info, s.db) = from-ok (sym attributes-sequenced ∙ e) in
    ap (λ (p : Progress evm ctx). record { info = p.0; db = p.1; limiter = s.limiter }) same

site-Fits : (l : AddressGasLimiter) → Fits node 1000000 txs pool (λ n. false) job (site l)
unfolding add_own fold_txs room_for op_rbuilder.BuilderTxs.add_builder_txs
    op_rbuilder.BuilderTxs.add_from op_rbuilder.BuilderTxs.add_builder_tx
    op_rbuilder.BuilderTxs.skip_signer op_rbuilder.BuilderTxs.commit_builder_tx
    op_rbuilder.Context.append op_rbuilder.Context.charge op_rbuilder.Context.charge_gas
    op_rbuilder.Context.charge_da op_rbuilder.Context.build_receipt
    op_rbuilder.Flashblocks.Headers.block_gas_limit
site-Fits l = record {
  reserves = record {
    gas_kept = λ s. omega arith;
    da_kept = λ s. omega arith;
    gas_fits = omega arith;
    da_fits = λ k e. omega (arith, from-some e);
    small = omega arith;
  };
  small = record {
    gas_fits = omega arith;
    da_small = λ limit e. ground arith;
    footprint_small = omega arith;
  };
  within = record { gas = omega arith; da = omega arith; footprint = omega arith };
}

build_payload-Within_example : KeepsLimits node whole.block.header
build_payload-Within_example =
    build_payload-Within node evm-metered txs pool (λ n. false) job (better whole) whole
      (λ s starts.
        subst (Fits node 1000000 txs pool (λ n. false) job) (Starts-site s starts)
          (site-Fits s.limiter))
      built refl
