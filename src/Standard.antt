-- ===== src/Standard.antt =====
-- crates/op-rbuilder/src/builders/standard/payload.rs: the builder of whole blocks. This file is
-- `OpBuilder::execute`, what goes into a block; the children seal it and hand it out.
pub mod Sealing
pub mod Payload
pub mod Steps
pub mod Built
pub mod Contents
pub mod Reserved
pub mod Keeps
pub mod Within
pub mod Outcomes
pub mod Agrees
use op_rbuilder.Base.{
  ℕ, Bool, true, false, Option, none, some, List, [], ◌∷◌, if◌then◌else◌, add_u64, saturating_sub,
  saturating_mul_u64, Result, ok, err,
}
use op_rbuilder.Evm.{Evm, BuilderCtx}
use op_rbuilder.GasLimiter.{AddressGasLimiter}
use op_rbuilder.BestTxs.{PayloadTransactions}
use op_rbuilder.BuilderTxs.{BuilderTransactionCtx, Simulate, add_builder_txs, simulated}
use op_rbuilder.Context.{PayloadBuilderError, other, Info}
use op_rbuilder.Context.Best.{
  BestCall, Build, Outcome, done, cancelled_at, failed_at, out_of_fuel, no_counts,
  execute_best_transactions,
}
use op_rbuilder.Context.Sequencer.{SequencerTx, execute_sequencer_transactions}
use op_rbuilder.Flashblocks.Headers.{SealCtx, block_gas_limit}
use op_rbuilder.Flashblocks.Outputs.{Sealer}

-- What a build of a block does not change
pub record Node : Type 1 where
  pub evm : Evm
  pub sealer : Sealer evm
  pub seal_ctx : SealCtx

-- The last cannot be: the fuel is enough.
pub data StandardError : Type 0 where
  payload_error : PayloadBuilderError → StandardError
  missing_payload stuck : StandardError

-- `BuildOutcomeKind` of the node's library
pub data BuildOutcomeKind (P : Type 0) : Type 0 where
  better freeze : P → BuildOutcomeKind P
  aborted : ℕ → BuildOutcomeKind P
  cancelled : BuildOutcomeKind P

-- What is left for the pool's transactions
pub record Room : Type 0 where
  pub block_gas_limit : ℕ
  pub block_da_limit : Option ℕ
  pub block_da_footprint : Option ℕ

abbrev pub map_option : {A B : Type 0} → (A → B) → Option A → Option B
map_option f none = none
map_option f (some a) = some (f a)

-- `fold(0, |acc, tx| acc + ...)`
unfoldable pub fold_txs : (BuilderTransactionCtx → ℕ) → ℕ → List BuilderTransactionCtx → ℕ
fold_txs f acc [] = acc
fold_txs f acc (tx ∷ txs) = fold_txs f (add_u64 acc (f tx)) txs

-- The limits less what is kept for the builder's transactions
unfoldable pub room_for : ℕ → Option ℕ → Option ℕ → List BuilderTransactionCtx → Room
room_for gas_limit max_da_block_size da_footprint_scalar builder_txs =
    let builder_tx_gas = fold_txs (λ tx. tx.gas_used) 0 builder_txs in
    let builder_tx_da_size = fold_txs (λ tx. tx.da_size) 0 builder_txs in
    record {
      block_gas_limit = saturating_sub gas_limit builder_tx_gas;
      block_da_limit =
          map_option (λ da_limit. saturating_sub da_limit builder_tx_da_size) max_da_block_size;
      block_da_footprint =
          map_option
            (λ scalar. saturating_sub gas_limit (saturating_mul_u64 builder_tx_da_size scalar))
            da_footprint_scalar;
    }

-- What one build is given: the configuration, the attributes' transactions, whether the EVM's
-- environment of the block can be made, the state of the parent block if it is found, the library's
-- `apply_pre_execution_changes`, none where it fails, and the simulation of the builder's
-- transactions, at the top of the block and at its end.
pub record Job (node : Node) : Type 0 where
  pub max_da_block_size : Option ℕ
  pub transactions : List SequencerTx
  pub has_evm_env : Bool
  pub state : Option node.evm.Db
  pub pre_execution : node.evm.Db → Option node.evm.Db
  pub simulate : Simulate node.evm node.seal_ctx.builder
  pub limiter : AddressGasLimiter

module _ (node : Node) where
  open node use {evm, seal_ctx}

  abbrev pub ctx : BuilderCtx
  ctx = seal_ctx.builder

  -- The variables of `execute`; with its `info` it is an `ExecutedPayload`.
  pub record Site : Type 0 where
    pub info : Info evm ctx
    pub db : evm.Db
    pub limiter : AddressGasLimiter

  -- The limiter is shared, and keeps its changes where a build fails.
  abbrev pub Run : Type 0 → Type 0
  Run A = Result StandardError (BuildOutcomeKind A) × AddressGasLimiter

  -- An error of `add_builder_txs` is logged; then no transactions are kept room for.
  unfoldable pub add_own : Bool → Simulate evm ctx → Site → List BuilderTransactionCtx × Site
  add_own top simulate s =
      let (result, (info, db)) = add_builder_txs evm ctx simulate s.info s.db top in
      (simulated result, record s { info = info; db = db })

  -- The builder's transactions at the end of the block
  unfoldable pub finish : Job node → Site → Run Site
  unfolding add_own
  finish j s = let s' = (add_own false j.simulate s).1 in (ok (better s'), s'.limiter)

  -- The transactions of the pool: its iterator, where it stands, and the token's answers.
  module _ (txs : PayloadTransactions) (pool : txs.Txs) (cancel : ℕ → Bool) where
    abbrev pub best_call : Room → BestCall
    best_call room = record {
      evm = evm;
      ctx = record ctx { cancelled = cancel };
      txs = txs;
      block_gas_limit = room.block_gas_limit;
      block_da_limit = room.block_da_limit;
      block_da_footprint_limit = room.block_da_footprint;
    }

    abbrev pub begin : (room : Room) → Site → Build (best_call room)
    begin room s = record {
      info = s.info;
      db = s.db;
      best_txs = pool;
      limiter = s.limiter;
      counts = no_counts;
    }

    unfoldable pub on_outcome :
        (j : Job node) (room : Room) → Outcome (best_call room) → Site → Run Site
    unfolding finish
    on_outcome j room (done b) s =
        finish j (record { info = b.info; db = b.db; limiter = b.limiter })
    on_outcome j room (cancelled_at b) s = (ok cancelled, b.limiter)
    on_outcome j room (failed_at e b) s = (err (payload_error e), b.limiter)
    on_outcome j room out_of_fuel s = (err stuck, s.limiter)

    -- `if !ctx.attributes().no_tx_pool`
    unfoldable pub fill : Job node → Room → Site → Run Site
    unfolding on_outcome
    fill j room s =
        if seal_ctx.no_tx_pool
        then finish j s
        else on_outcome j room (execute_best_transactions (best_call room) (begin room s)) s

    -- From the builder's transactions at the top of the block on
    unfoldable pub on_sequenced : Job node → Site → Run Site
    unfolding fill
    on_sequenced j s =
        let (builder_txs, topped) = add_own true j.simulate s in
        fill j
          (room_for (block_gas_limit seal_ctx) j.max_da_block_size topped.info.da_footprint_scalar
            builder_txs)
          topped

    unfoldable pub on_attributes :
        Job node → AddressGasLimiter → Result PayloadBuilderError (Info evm ctx × evm.Db) → Run Site
    unfolding on_sequenced
    on_attributes j limiter (err e) = (err (payload_error e), limiter)
    on_attributes j limiter (ok (info, db)) =
        on_sequenced j (record { info = info; db = db; limiter = limiter })

    unfoldable pub on_started : Job node → AddressGasLimiter → Option evm.Db → Run Site
    unfolding on_attributes
    on_started j limiter none = (err (payload_error other), limiter)
    on_started j limiter (some db) =
        on_attributes j limiter (execute_sequencer_transactions evm ctx db j.transactions)

    -- `OpBuilder::execute`
    unfoldable pub execute : Job node → evm.Db → AddressGasLimiter → Run Site
    unfolding on_started
    execute j db limiter = on_started j limiter (j.pre_execution db)
