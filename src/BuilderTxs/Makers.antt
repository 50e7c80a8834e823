-- ===== src/BuilderTxs/Makers.antt =====
-- builders/standard/builder_tx.rs and builders/flashblocks/builder_tx.rs: which transactions the
-- builder makes for a block, and for a flashblock.
use op_rbuilder.Base.{
  Bool, Option, none, some, List, [], ◌∷◌, ◌++◌, map, if◌then◌else◌, ◌==◌, Result, ok, err, ◌>>=◌,
}
use op_rbuilder.Evm.{Evm}
use op_rbuilder.Context.{Info}
use op_rbuilder.TxSigner.{Signer}
use op_rbuilder.Flashblocks.Headers.{SealCtx}
use op_rbuilder.Flashblocks.Batches.{FlashblocksExtraCtx}
use op_rbuilder.BuilderTxs.{BuilderTransactionCtx, BuilderTransactionError, commit_txs}
use op_rbuilder.BuilderTxs.Base.{Calls, simulate_builder_tx}
use op_rbuilder.Flashtestations.{Hashes, FlashtestationsBuilderTx, simulate_flashtestations}

-- `Vec::extend` with an option
abbrev pub as_list : {A : Type 0} → Option A → List A
as_list none = []
as_list (some a) = a ∷ []

-- `FlashblocksExtraCtx::is_first_flashblock` and `is_last_flashblock`
unfoldable pub is_first_flashblock : FlashblocksExtraCtx → Bool
is_first_flashblock extra = extra.flashblock_index == 0

unfoldable pub is_last_flashblock : FlashblocksExtraCtx → Bool
is_last_flashblock extra = extra.flashblock_index == extra.target_flashblock_count

module _ {evm : Evm} (calls : Calls evm) (hashes : Hashes) (ctx : SealCtx) where
  open calls use {crypto}

  abbrev pub Txs : Type 0
  Txs = List BuilderTransactionCtx

  -- The transactions, and the flag `registered`
  abbrev pub Simulated : Type 0
  Simulated = Result BuilderTransactionError Txs × Bool

  abbrev pub Flashtestations : Type 0
  Flashtestations = FlashtestationsBuilderTx calls hashes ctx

  -- An error of flashtestations is logged.
  unfoldable pub extend_with : Txs → Simulated → Simulated
  extend_with builder_txs (ok more, registered) = (ok (builder_txs ++ more), registered)
  extend_with builder_txs (err e, registered) = (ok builder_txs, registered)

  -- Commit what comes before, and add the transactions of flashtestations.
  unfoldable pub add_flashtestations :
      Flashtestations
      → evm.Db
      → Info evm ctx.builder
      → Bool
      → Txs
      → Result BuilderTransactionError (Unit {0}) × evm.Db
      → Simulated
  unfolding extend_with
  add_flashtestations f committed info registered builder_txs (err e, db) = (err e, registered)
  add_flashtestations f committed info registered builder_txs (ok _, db) =
      extend_with builder_txs
        (simulate_flashtestations calls hashes ctx f committed info db registered)

  -- The end of a block: the base transaction after `before`, and flashtestations'
  unfoldable pub on_base :
      Option Flashtestations
      → evm.Db
      → Info evm ctx.builder
      → evm.Db
      → Bool
      → Txs
      → Result BuilderTransactionError (Option BuilderTransactionCtx)
      → Simulated
  unfolding add_flashtestations
  on_base flashtestations committed info db registered before (err e) = (err e, registered)
  on_base none committed info db registered before (ok base_tx) =
      (ok (before ++ as_list base_tx), registered)
  on_base (some f) committed info db registered before (ok base_tx) =
      add_flashtestations f committed info registered (before ++ as_list base_tx)
        (commit_txs evm ctx.builder (map (λ tx. tx.signed_tx) (as_list base_tx)) db)

  -- `StandardBuilderTx::simulate_builder_txs`
  unfoldable pub simulate_standard :
      Option (Signer crypto)
      → Option Flashtestations
      → evm.Db
      → Info evm ctx.builder
      → evm.Db
      → Bool
      → Simulated
  unfolding on_base
  simulate_standard signer flashtestations committed info db registered =
      on_base flashtestations committed info db registered []
        (simulate_builder_tx calls ctx signer db)

  unfoldable pub on_first :
      FlashblocksExtraCtx
      → Option (Signer crypto)
      → Option Flashtestations
      → evm.Db
      → Info evm ctx.builder
      → evm.Db
      → Bool
      → Result BuilderTransactionError Txs
      → Simulated
  unfolding on_base
  on_first extra signer flashtestations committed info db registered (err e) = (err e, registered)
  on_first extra signer flashtestations committed info db registered (ok first) =
      if is_last_flashblock extra
      then on_base flashtestations committed info db registered first
          (simulate_builder_tx calls ctx signer db)
      else (ok first, registered)

  -- `FlashblocksBuilderTx::simulate_builder_txs`
  unfoldable pub simulate_flashblocks :
      FlashblocksExtraCtx
      → Option (Signer crypto)
      → Option Flashtestations
      → evm.Db
      → Info evm ctx.builder
      → evm.Db
      → Bool
      → Simulated
  unfolding on_first is_first_flashblock is_last_flashblock
  simulate_flashblocks extra signer flashtestations committed info db registered =
      on_first extra signer flashtestations committed info db registered (
        if is_first_flashblock extra
        then (simulate_builder_tx calls ctx signer db >>= λ tx. ok (as_list tx))
        else ok [])
