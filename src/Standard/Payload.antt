-- ===== src/Standard/Payload.antt =====
-- `build_payload`, `try_build` and `build_empty_payload` of builders/standard/payload.rs.
use op_rbuilder.Base.{
  ℕ, Bool, false, Option, none, some, if◌then◌else◌, Result, ok, err, ◌>>=◌, ok_or,
}
use op_rbuilder.BestTxs.{PayloadTransactions}
use op_rbuilder.GasLimiter.{AddressGasLimiter, refresh}
use op_rbuilder.Context.{PayloadBuilderError, other}
use op_rbuilder.Flashblocks.Headers.{extra_data}
use op_rbuilder.Flashblocks.Outputs.{BuiltPayload}
use op_rbuilder.Standard.{
  Node, StandardError, payload_error, missing_payload, BuildOutcomeKind, better, freeze, aborted,
  cancelled, Job, Run, ctx,
}
use op_rbuilder.Standard.Sealing.{build}

module _ (node : Node) where
  open node use {evm, sealer, seal_ctx}

  -- `BuildOutcomeKind::into_payload` of the node's library
  abbrev pub into_payload : {P : Type 0} → BuildOutcomeKind P → Option P
  into_payload (better p) = some p
  into_payload (freeze p) = some p
  into_payload (aborted fees) = none
  into_payload cancelled = none

  -- The environment of the block, before the limiter is refreshed
  unfoldable pub prepare : Job node → Result PayloadBuilderError (Unit {0})
  prepare j = extra_data seal_ctx >>= λ _. if j.has_evm_env then ok tt else err other

  module _ (txs : PayloadTransactions) (pool : txs.Txs) (cancel : ℕ → Bool) where
    -- `state_by_block_hash` and the build
    unfoldable pub on_state :
        Job node → AddressGasLimiter → Option evm.Db → Run node (BuiltPayload evm sealer)
    on_state j limiter none = (err (payload_error other), limiter)
    on_state j limiter (some db) = build node txs pool cancel j db limiter

    -- From the refresh of the limiter on
    unfoldable pub on_prepared :
        Job node → Result PayloadBuilderError (Unit {0}) → Run node (BuiltPayload evm sealer)
    unfolding on_state
    on_prepared j (err e) = (err (payload_error e), j.limiter)
    on_prepared j (ok _) = on_state j (refresh j.limiter (ctx node).block_number) j.state

    unfoldable pub build_payload : Job node → Run node (BuiltPayload evm sealer)
    unfolding on_prepared prepare
    build_payload j = on_prepared j (prepare j)

  -- `try_build`: the token that it makes is cancelled by no one.
  unfoldable pub try_build :
      (txs : PayloadTransactions) → txs.Txs → Job node → Run node (BuiltPayload evm sealer)
  unfolding build_payload
  try_build txs pool j = build_payload txs pool (λ _. false) j

  -- `build_empty_payload`, with the library's iterator without transactions
  unfoldable pub build_empty_payload :
      (noop : PayloadTransactions)
      → noop.Txs
      → Job node
      → Result StandardError (BuiltPayload evm sealer) × AddressGasLimiter
  unfolding build_payload
  build_empty_payload noop nothing j =
      let (result, limiter) = build_payload noop nothing (λ _. false) j in
      (result >>= λ kind. ok_or missing_payload (into_payload kind), limiter)
