-- ===== src/PayloadHandler/Accepted.antt =====
-- What `execute_flashblock` returns.
use op_rbuilder.Base.{
  ℕ, ◌≤◌, ◌≡◌, refl, ap, sym, ◌∙◌, true, some, Option, List, map, arith, inl, inr, ok, Result-cases,
  Option-cases,
}
use op_rbuilder.Evm.{Evm}
use op_rbuilder.Execution.{with_capacity}
use op_rbuilder.Context.{Info}
use op_rbuilder.Flashblocks.Outputs.{Sealer, BuiltPayload, FlashblockPayload}
use op_rbuilder.Flashblocks.Sealing.{build_block}
use op_rbuilder.Flashblocks.Sealed.{build_block-Sliced}
use op_rbuilder.PayloadHandler.{
  Received, HandlerNode, received_info, check_hash, execute_flashblock, parse_extra_data,
  execute_transactions,
}
use op_rbuilder.PayloadHandler.Replays.{execute_transactions-Checked}

module _ (evm : Evm) (sealer : Sealer evm) (node : HandlerNode evm) where
  -- The block that was built has the hash, the transactions, each with its signer and a receipt,
  -- and at most the gas of the block that was received.
  pub record Accepts (received : Received) (payload : BuiltPayload evm sealer) : Type 0 where
    pub hash : payload.block.block_hash ≡ received.block_hash
    pub hashed : payload.block.block_hash ≡ sealer.hash_slow payload.block.header
    pub transactions : received.transactions ≡ map some payload.block.transactions
    pub senders : payload.block.senders ≡ map (λ tx. tx.signer) payload.block.transactions
    pub gas : payload.block.header.gas_used ≤ received.header.gas_used

  sealed-Accepts :
      (received : Received) (db : evm.Db) (q : Info evm node.ctx × evm.Db)
      (params : Option (List ℕ) × Option ℕ) (payload : BuiltPayload evm sealer)
      (message : FlashblockPayload evm sealer) (info' : Info evm node.ctx)
      → execute_transactions evm node.ctx received.header.gas_used
          (received_info evm sealer node received, db)
          received.transactions
        ≡ ok q
      → build_block evm sealer (node.seal_ctx params) q.1 q.0 true ≡ ok (payload, (message, info'))
      → payload.block.block_hash ≡ received.block_hash
      → Accepts received payload
  unfolding received_info with_capacity
  sealed-Accepts received db q params payload message info' ran built hash =
      let c =
        execute_transactions-Checked evm node.ctx received.header.gas_used _ received.transactions q
          (record { senders = refl; receipts = refl }) (omega arith) ran in
      let seals =
        build_block-Sliced evm sealer (node.seal_ctx params) q.1 q.0 true payload message info'
          built in
      let all : payload.block.transactions ≡ c.txs = seals.transactions ∙ c.transactions in
      record {
        hash = hash;
        hashed = seals.hashed;
        transactions = c.every ∙ ap (map some) (sym all);
        senders =
            seals.senders
            ∙ (c.is_aligned.senders ∙ sym (ap (map (λ tx. tx.signer)) seals.transactions));
        gas = omega (arith, seals.gas_used, c.within);
      }

  -- Where execute_flashblock returns a payload, it has the hash of the received block, which is
  -- that of its own header, exactly the received transactions in their order, each recovered and
  -- with its sender, and at most the received block's gas.
  pub execute_flashblock-Accepts :
      (received : Received) (payload : BuiltPayload evm sealer)
      (message : FlashblockPayload evm sealer)
      → execute_flashblock evm sealer node received ≡ ok (payload, message)
      → Accepts received payload
  unfolding execute_flashblock check_hash
  execute_flashblock-Accepts received payload message e = elim (Option-cases node.state) [
    | inl lost ↦ absurd (ground arith)
    | inr (db, found) ↦
        elim (Result-cases
          (parse_extra_data node.ctx.is_jovian_active node.is_holocene received.extra_data)) [
            | inr (x, bad) ↦ absurd (ground arith)
            | inl (params, parsed) ↦
                elim (Result-cases (
                  execute_transactions evm node.ctx received.header.gas_used
                    (received_info evm sealer node received, db) received.transactions)) [
                      | inr (x, bad) ↦ absurd (ground arith)
                      | inl (q, ran) ↦
                          elim (Result-cases
                            (build_block evm sealer (node.seal_ctx params) q.1 q.0 true)) [
                              | inr (x, bad) ↦ absurd (ground arith)
                              | inl ((payload', (message', info')), built) ↦
                                  let same : payload ≡ payload' = ground arith in
                                  let hash : payload'.block.block_hash ≡ received.block_hash =
                                    ground arith in
                                  rw same (
                                    sealed-Accepts received db q params payload' message' info' ran
                                      built hash)
                            ]
                    ]
          ]
  ]
