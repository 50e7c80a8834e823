-- ===== src/Standard/Agrees.antt =====
-- Blocks of the attributes alone, built by the standard builder and by the flashblocks builder.
use op_rbuilder.Base.{
  ◌≡◌, refl, ◌∙◌, ap, sym, Bool, true, false, none, some, List, [], arith, inl, inr, ok, err,
  Result, Result-cases, Option-cases,
}
use op_rbuilder.Transactions.{Tx}
use op_rbuilder.Execution.{ExecutionInfo}
use op_rbuilder.BestTxs.{PayloadTransactions}
use op_rbuilder.BuilderTxs.{add_builder_txs, add_from}
use op_rbuilder.Flashblocks.Headers.{extra_data}
use op_rbuilder.Flashblocks.Outputs.{BuiltPayload}
use op_rbuilder.Flashblocks.Sealing
use op_rbuilder.Flashblocks.Building
use op_rbuilder.Flashblocks.Building.{Chain}
use op_rbuilder.Flashblocks.Blocks
use op_rbuilder.Flashblocks.Timing.{flashblocks_per_block}
use op_rbuilder.Context.Sequencer.{execute_sequencer_transactions}
use op_rbuilder.Standard
use op_rbuilder.GasLimiter.{AddressGasLimiter}
use op_rbuilder.Standard.Payload
use op_rbuilder.Standard.Payload.{try_build}
use op_rbuilder.Standard.{Node, Job, better, freeze}
use op_rbuilder.Standard.Sealing.{
  Parts, parts, withdrawals_fields, header_of, payload_of, seal, on_sealed, on_executed, build,
}

module _ (node : Node) where
  open node use {evm, sealer, seal_ctx}

  -- The parts that both compute
  abbrev shared_parts : Sealing.Parts evm sealer → Parts node
  shared_parts p = record {
    excess_blob_gas = p.excess_blob_gas;
    blob_gas_used = p.blob_gas_used;
    receipts_root = p.receipts_root;
    logs_bloom = p.logs_bloom;
    hashed_state = p.hashed_state;
    state_root = p.state_root;
    trie_output = p.trie_output;
    withdrawals_root = p.withdrawals_root;
    requests_hash = p.requests_hash;
    extra_data = p.extra_data;
  }

  parts-shared_parts :
      (bundle : sealer.Bundle) (info : ExecutionInfo Tx evm.Receipt) (p : Sealing.Parts evm sealer)
      → Sealing.parts evm sealer seal_ctx true bundle info ≡ ok p
      → parts node bundle info ≡ ok (shared_parts p)
  unfolding parts withdrawals_fields Sealing.parts Sealing.state_root Sealing.withdrawals_fields
  parts-shared_parts bundle info p e = ground arith

  payload_of-shared_parts :
      (bundle : sealer.Bundle) (info : ExecutionInfo Tx evm.Receipt) (p : Sealing.Parts evm sealer)
      → payload_of node bundle info (shared_parts p)
        ≡ Sealing.payload_of evm sealer seal_ctx bundle info p
  unfolding payload_of header_of Sealing.payload_of Sealing.header_of
  payload_of-shared_parts bundle info p = refl

module _ (chain : Chain) where
  open chain use {evm, sealer, seal_ctx}

  -- The node of the standard builder, and its job, without transactions of the builder's own
  abbrev pub node_of : Node
  node_of = record { evm = evm; sealer = sealer; seal_ctx = seal_ctx }

  abbrev pub job_of : Blocks.Job chain → Job node_of
  job_of j = record {
    max_da_block_size = j.max_da_block_size;
    transactions = j.transactions;
    has_evm_env = true;
    state = some j.db;
    pre_execution = j.pre_execution;
    simulate = λ info db top. ok [];
    limiter = j.limiter;
  }

  -- The steps of the flashblocks builder before its payload
  record Started (j : Blocks.Job chain) (s : Building.Site chain) : Type 0 where
    db0 : evm.Db
    pre : j.pre_execution j.db ≡ some db0
    ran :
        execute_sequencer_transactions evm (Building.ctx chain) db0 j.transactions
        ≡ ok (s.info, s.db)
    none_yet : s.best ≡ none

  prepare-Started :
      (j : Blocks.Job chain) (s : Building.Site chain) → Blocks.prepare chain j ≡ ok s → Started j s
  unfolding Blocks.prepare Blocks.execute_pre_steps Blocks.initial
  prepare-Started j s e = elim (Option-cases (flashblocks_per_block j.timing)) [
    | inl bad ↦ absurd (ground arith)
    | inr (n, counted) ↦ elim (Option-cases (j.pre_execution j.db)) [
      | inl bad ↦ absurd (ground arith)
      | inr (db0, pre) ↦
          elim (Result-cases
            (execute_sequencer_transactions evm (Building.ctx chain) db0 j.transactions)) [
              | inl ((info, db), ran) ↦
                  let same : s ≡ Blocks.initial chain j info db = ground arith in
                  rw same (record { db0 = db0; pre = pre; ran = ran; none_yet = refl })
              | inr (x, bad) ↦ absurd (ground arith)
            ]
    ]
  ]

  module _ (syncing : seal_ctx.no_tx_pool ≡ true) where
    -- What is sent is what `build_block` built.
    fallback-built :
        (j : Blocks.Job chain) (s : Building.Site chain) (p : BuiltPayload evm sealer)
        → s.best ≡ none
        → (Blocks.build_fallback chain j s).1.best ≡ some p
        → (q : Sealing.Parts evm sealer) × (Sealing.parts evm sealer seal_ctx true
              (sealer.bundle_of s.db)
              s.info
            ≡ ok q)
          × (p ≡ Sealing.payload_of evm sealer seal_ctx (sealer.bundle_of s.db) s.info q)
    unfolding Blocks.build_fallback Blocks.on_fallback Blocks.send_fallback Sealing.build_block
    fallback-built j s p nothing best =
        elim (Result-cases
          (Sealing.parts evm sealer seal_ctx true (sealer.bundle_of s.db) s.info)) [
            | inl (q, ran) ↦ (q, ran, ground arith)
            | inr (x, bad) ↦ absurd (ground arith)
          ]

    on_first-best :
        (j : Blocks.Job chain) (ts : List (Building.Trigger chain))
        (r : Result Building.FlashblockError (Unit {0}) × Building.Site chain)
        → (Blocks.on_first chain j ts r).1.best ≡ r.1.best
    unfolding Blocks.on_first
    on_first-best j ts (err e, s) = refl
    on_first-best j ts (ok u, s) = rw syncing refl

    -- The standard builder adds nothing of its own here.
    add_own-nothing :
        (top : Bool) (j : Blocks.Job chain) (s : Standard.Site node_of)
        → Standard.add_own node_of top (job_of j).simulate s ≡ ([], s)
    unfolding Standard.add_own add_builder_txs add_from
    add_own-nothing top j s = refl

    fill-finishes :
        (txs : PayloadTransactions) (pool : txs.Txs) (j : Blocks.Job chain) (room : Standard.Room)
        (s : Standard.Site node_of)
        → Standard.fill node_of txs pool (λ _. false) (job_of j) room s ≡ (ok (better s), s.limiter)
    unfolding Standard.fill Standard.finish Standard.add_own add_builder_txs add_from
    fill-finishes txs pool j room s = rw syncing refl

    execute-better :
        (txs : PayloadTransactions) (pool : txs.Txs) (j : Blocks.Job chain)
        (limiter : AddressGasLimiter) (s : Building.Site chain)
        → Started j s
        → Standard.execute node_of txs pool (λ _. false) (job_of j) j.db limiter
          ≡ (ok (better (record { info = s.info; db = s.db; limiter = limiter })), limiter)
    unfolding Standard.execute Standard.on_started Standard.on_attributes Standard.on_sequenced
        add_builder_txs add_from
    execute-better txs pool j limiter s st =
        rw (st.pre, Standard.on_started, st.ran, Standard.on_attributes)
          (fill-finishes txs pool j _ _)

    prepare-ok :
        (j : Blocks.Job chain) (s : Building.Site chain) (q : Sealing.Parts evm sealer)
        → Sealing.parts evm sealer seal_ctx true (sealer.bundle_of s.db) s.info ≡ ok q
        → Payload.prepare node_of (job_of j) ≡ ok tt
    unfolding Payload.prepare Sealing.parts
    prepare-ok j s q e = elim (Result-cases (extra_data seal_ctx)) [
      | inl (extra, good) ↦ rw good refl
      | inr (x, bad) ↦ absurd (ground arith)
    ]

    standard-freezes :
        (txs : PayloadTransactions) (pool : txs.Txs) (j : Blocks.Job chain)
        (s : Building.Site chain) (q : Sealing.Parts evm sealer)
        → Started j s
        → Sealing.parts evm sealer seal_ctx true (sealer.bundle_of s.db) s.info ≡ ok q
        → (try_build node_of txs pool (job_of j)).0
          ≡ ok (freeze (Sealing.payload_of evm sealer seal_ctx (sealer.bundle_of s.db) s.info q))
    unfolding try_build Payload.build_payload Payload.on_prepared Payload.on_state build on_executed
        seal on_sealed Sealing.payload_of payload_of
    standard-freezes txs pool j s q st sealed =
        rw (prepare-ok j s q sealed, Payload.on_prepared)
          (rw (execute-better txs pool j _ s st, on_executed)
            (rw (parts-shared_parts node_of (sealer.bundle_of s.db) s.info q sealed)
              (rw syncing refl)))

    -- If the attributes ask for no transactions of the pool and the flashblocks builder comes to a
    -- best payload, the standard builder, with no transactions of its own, returns the same
    -- payload from the same attributes and state, and keeps it.
    pub try_build-Agrees :
        (txs : PayloadTransactions) (pool : txs.Txs) (j : Blocks.Job chain)
        (ts : List (Building.Trigger chain))
        (end : Result Building.FlashblockError (Unit {0}) × Building.Site chain)
        (payload : BuiltPayload evm sealer)
        → Blocks.build_payload chain j ts ≡ ok end
        → end.1.best ≡ some payload
        → (try_build node_of txs pool (job_of j)).0 ≡ ok (freeze payload)
    unfolding Blocks.build_payload Blocks.add_first_builder_txs
    try_build-Agrees txs pool j ts end payload e best =
        elim (Result-cases (Blocks.prepare chain j)) [
          | inr (x, bad) ↦ absurd (ground arith)
          | inl (s, prepared) ↦
              let same : end
                  ≡ Blocks.on_first chain j ts
                      (Blocks.build_fallback chain j (Blocks.add_first_builder_txs chain j s)) =
                ground arith in
              let unchanged : Blocks.add_first_builder_txs chain j s ≡ s = rw syncing refl in
              let st = prepare-Started j s prepared in
              let (q, ran, built) = fallback-built j s payload st.none_yet (
                sym (ap (λ t. (Blocks.build_fallback chain j t).1.best) unchanged)
                ∙ (sym (
                      on_first-best j ts
                        (Blocks.build_fallback chain j (Blocks.add_first_builder_txs chain j s)))
                    ∙ (sym (ap (λ r. r.1.best) same) ∙ best))) in
              rw built (standard-freezes txs pool j s q st ran)
        ]
