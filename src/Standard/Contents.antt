-- ===== src/Standard/Contents.antt =====
-- The transactions of a block that the standard builder builds.
use op_rbuilder.Base.{ℕ, ◌≡◌, Bool, true, false, some, List, [], ◌++◌, map, length, ok}
use op_rbuilder.Transactions.{Tx, FbPooledTransaction}
use op_rbuilder.BestTxs.{PayloadTransactions}
use op_rbuilder.BuilderTxs.{simulated}
use op_rbuilder.BuilderTxs.Chosen.{Chosen}
use op_rbuilder.Context.Grows.{Grows, Grows-trans}
use op_rbuilder.Context.Filled.{consensus_tx, Builds-Grows}
use op_rbuilder.Context.Loop.{Builds}
use op_rbuilder.Context.Sequencer.Laws.{Sequenced}
use op_rbuilder.Context.Sequencer.{execute_sequencer_transactions}
use op_rbuilder.Flashblocks.Outputs.{BuiltPayload}
use op_rbuilder.Standard.{Node, Job, Site, best_call, ctx}
use op_rbuilder.Standard.Steps.{Steps, topped_site, room_of}

module _ (node : Node) (txs : PayloadTransactions) (pool : txs.Txs) (cancel : ℕ → Bool) where
  open node use {evm, sealer, seal_ctx}

  -- The block in its four parts: the transactions of the attributes, the builder's at the top, the
  -- pool's and the builder's at the end, and the site after each of the first three.
  pub record Contents (j : Job node) (payload : BuiltPayload evm sealer) : Type 0 where
    pub parent_db : evm.Db
    pub found : j.state ≡ some parent_db
    pub db0 : evm.Db
    pub started : j.pre_execution parent_db ≡ some db0
    pub attributes : List Tx
    pub from_attributes : Sequenced j.transactions attributes
    pub sequenced : Site node
    pub executed :
        execute_sequencer_transactions evm (ctx node) db0 j.transactions
        ≡ ok (sequenced.info, sequenced.db)
    pub topped : Site node
    pub at_top : List Tx
    pub top_chosen :
        Chosen evm
          (ctx node)
          true
          topped.db
          []
          sequenced.db
          (simulated (j.simulate sequenced.info sequenced.db true))
          at_top
    pub topped_is : topped ≡ topped_site node j sequenced
    pub filled : Site node
    pub taken : List FbPooledTransaction
    pub from_pool :
        Builds
          (best_call node txs pool cancel (room_of node j sequenced))
          filled.info
          filled.db
          taken
          topped.info
          topped.db
          pool
    pub only_attributes : seal_ctx.no_tx_pool ≡ true → taken ≡ []
    pub at_end : List Tx
    pub final_db : evm.Db
    pub end_chosen :
        Chosen evm
          (ctx node)
          false
          final_db
          []
          filled.db
          (simulated (j.simulate filled.info filled.db false))
          at_end
    pub transactions :
        payload.block.transactions ≡ attributes ++ (at_top ++ (map consensus_tx taken ++ at_end))
    pub senders : payload.block.senders ≡ map (λ tx. tx.signer) payload.block.transactions
    pub receipts : length payload.execution_output.receipts ≡ length payload.block.transactions
    pub no_fees_before : topped.info.total_fees ≡ 0
    pub fees : payload.fees ≡ filled.info.total_fees

  -- The payload holds the block's lists and fees.
  record Holds (s : Site node) (payload : BuiltPayload evm sealer) : Type 0 where
    transactions : payload.block.transactions ≡ s.info.executed_transactions
    senders : payload.block.senders ≡ s.info.executed_senders
    receipts : payload.execution_output.receipts ≡ s.info.receipts
    fees : payload.fees ≡ s.info.total_fees

  pub Steps-Grows :
      {j : Job node} {s s' : Site node} (steps : Steps node txs pool cancel j s s')
      → Grows s.info
          (steps.top.adds.txs ++ (map consensus_tx steps.taken ++ steps.bottom.adds.txs))
          s'.info
  Steps-Grows steps = Grows-trans steps.top.adds.txs _ steps.top.adds.grows (
      Grows-trans (map consensus_tx steps.taken) steps.bottom.adds.txs
        (Builds-Grows _ steps.from_pool) steps.bottom.adds.grows)
