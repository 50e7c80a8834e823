-- ===== src/Flashblocks/Sealed.antt =====
-- What `build_block` returns, for the block that it is given.
use op_rbuilder.Base.{
  split_at, ◌≤◌, some, List, ◌++◌, length, drop, ◌≡◌, refl, ap, Bool, map, ok, inl, inr,
  Result-cases, arith, add_u64,
}
use op_rbuilder.Transactions.{Tx}
use op_rbuilder.Evm.{Evm}
use op_rbuilder.Execution.{ExecutionInfo}
use op_rbuilder.Flashblocks.Headers.{SealCtx, FlashblockBase}
use op_rbuilder.Flashblocks.Slices.{take_slice}
use op_rbuilder.Flashblocks.Outputs.{Sealer, BuiltPayload, FlashblockPayload}
use op_rbuilder.Flashblocks.Sealing.{
  Parts, parts, is_in_range, base_of, header_of, payload_of, flashblock_of, build_block,
}

module _ (evm : Evm) (sealer : Sealer evm) (c : SealCtx) where
  -- The payload is of the whole block, with the header that hashes to its hash, and the message is
  -- about its end, with the same hash.
  pub record Sliced (info : ExecutionInfo Tx evm.Receipt) (payload : BuiltPayload evm sealer)
      (message : FlashblockPayload evm sealer) (info' : ExecutionInfo Tx evm.Receipt) : Type 0 where
    pub transactions : payload.block.transactions ≡ info.executed_transactions
    pub senders : payload.block.senders ≡ info.executed_senders
    pub receipts : payload.execution_output.receipts ≡ info.receipts
    pub gas_used : payload.block.header.gas_used ≡ info.cumulative_gas_used
    pub fees : payload.fees ≡ info.total_fees
    pub number : payload.block.header.number ≡ c.builder.block_number
    pub hashed : payload.block.block_hash ≡ sealer.hash_slow payload.block.header
    pub same_hash : message.diff.block_hash ≡ payload.block.block_hash
    pub same_gas : message.diff.gas_used ≡ info.cumulative_gas_used
    pub news :
        message.diff.transactions ≡ map sealer.encoded_2718 (take_slice info).0.new_transactions
    pub moved : info' ≡ (take_slice info).1

  parts-number :
      (calculate : Bool) (db : evm.Db) (info : ExecutionInfo Tx evm.Receipt) (p : Parts evm sealer)
      → parts evm sealer c calculate (sealer.bundle_of db) info ≡ ok p
      → add_u64 c.parent_number 1 ≡ c.builder.block_number
  unfolding parts
  parts-number calculate db info p e = ground arith

  parts-in_range :
      (calculate : Bool) (db : evm.Db) (info : ExecutionInfo Tx evm.Receipt) (p : Parts evm sealer)
      → parts evm sealer c calculate (sealer.bundle_of db) info ≡ ok p
      → info.extra.last_flashblock_index ≤ length info.executed_transactions
  unfolding parts is_in_range
  parts-in_range calculate db info p e = ground arith

  pub build_block-Sliced :
      (db : evm.Db) (info : ExecutionInfo Tx evm.Receipt) (calculate : Bool)
      (payload : BuiltPayload evm sealer) (message : FlashblockPayload evm sealer)
      (info' : ExecutionInfo Tx evm.Receipt)
      → build_block evm sealer c db info calculate ≡ ok (payload, (message, info'))
      → Sliced info payload message info'
  unfolding build_block payload_of flashblock_of header_of
  build_block-Sliced db info calculate payload message info' e =
      elim (Result-cases (parts evm sealer c calculate (sealer.bundle_of db) info)) [
        | inr (x, failed) ↦ absurd (ground arith)
        | inl (p, good) ↦
            let bundle = sealer.bundle_of db in
            let one : payload ≡ payload_of evm sealer c bundle info p = ground arith in
            let two : message ≡ flashblock_of evm sealer c bundle info p = ground arith in
            let three : info' ≡ (take_slice info).1 = ground arith in
            rw (one, two)
              (record {
                transactions = refl;
                senders = refl;
                receipts = refl;
                gas_used = refl;
                fees = refl;
                number = parts-number calculate db info p good;
                hashed = refl;
                same_hash = refl;
                same_gas = refl;
                news = refl;
                moved = three;
              })
      ]

  pub build_block-index :
      (db : evm.Db) (info : ExecutionInfo Tx evm.Receipt) (calculate : Bool)
      (payload : BuiltPayload evm sealer) (message : FlashblockPayload evm sealer)
      (info' : ExecutionInfo Tx evm.Receipt)
      → build_block evm sealer c db info calculate ≡ ok (payload, (message, info'))
      → message.index ≡ 0
  unfolding build_block flashblock_of
  build_block-index db info calculate payload message info' e =
      elim (Result-cases (parts evm sealer c calculate (sealer.bundle_of db) info)) [
        | inr (x, failed) ↦ absurd (ground arith)
        | inl (p, good) ↦
            let two : message ≡ flashblock_of evm sealer c (sealer.bundle_of db) info p =
              ground arith in
            ap (λ (m : FlashblockPayload evm sealer). m.index) two
      ]

  -- The payload is of the whole block, under a header that agrees with the message; the message is
  -- about what comes after the first transactions, as many as the index says, and the index moves.
  pub record Seals (info : ExecutionInfo Tx evm.Receipt) (payload : BuiltPayload evm sealer)
      (message : FlashblockPayload evm sealer) (info' : ExecutionInfo Tx evm.Receipt) : Type 0 where
    pub transactions : payload.block.transactions ≡ info.executed_transactions
    pub senders : payload.block.senders ≡ info.executed_senders
    pub receipts : payload.execution_output.receipts ≡ info.receipts
    pub gas_used : payload.block.header.gas_used ≡ info.cumulative_gas_used
    pub fees : payload.fees ≡ info.total_fees
    pub number : payload.block.header.number ≡ c.builder.block_number
    pub hashed : payload.block.block_hash ≡ sealer.hash_slow payload.block.header
    pub same_hash : message.diff.block_hash ≡ payload.block.block_hash
    pub same_gas : message.diff.gas_used ≡ payload.block.header.gas_used
    pub before : List Tx
    pub since : List Tx
    pub split : info.executed_transactions ≡ before ++ since
    pub up_to_index : length before ≡ info.extra.last_flashblock_index
    pub encodes_since : message.diff.transactions ≡ map sealer.encoded_2718 since
    pub index_at_end : info' ≡ record info {
      extra = record { last_flashblock_index = length info.executed_transactions };
    }
    pub rooted :
        payload.block.header.transactions_root ≡ sealer.transactions_root info.executed_transactions
    pub base_of_header :
        (base : FlashblockBase) × (message.base ≡ some base)
        × (base.block_number ≡ payload.block.header.number)
        × (base.gas_limit ≡ payload.block.header.gas_limit)
        × (base.extra_data ≡ payload.block.header.extra_data)
        × (base.parent_hash ≡ payload.block.header.parent_hash)

  -- Where build_block returns, the payload has the block's transactions, senders, receipts, gas
  -- and fees, their root, the number of the EVM's block and the hash of its header. The message
  -- has the same hash and gas, a base with the number, gas limit, extra data and parent of that
  -- header, and the encodings of exactly the transactions after the first ones, as many as the
  -- last flashblock's index says; nothing of the block changes but that index, which is then the
  -- number of its transactions.
  pub build_block-Seals :
      (db : evm.Db) (info : ExecutionInfo Tx evm.Receipt) (calculate : Bool)
      (payload : BuiltPayload evm sealer) (message : FlashblockPayload evm sealer)
      (info' : ExecutionInfo Tx evm.Receipt)
      → build_block evm sealer c db info calculate ≡ ok (payload, (message, info'))
      → Seals info payload message info'
  unfolding build_block payload_of flashblock_of header_of base_of take_slice
  build_block-Seals db info calculate payload message info' e =
      elim (Result-cases (parts evm sealer c calculate (sealer.bundle_of db) info)) [
        | inr (x, failed) ↦ absurd (ground arith)
        | inl (p, good) ↦
            let bundle = sealer.bundle_of db in
            let one : payload ≡ payload_of evm sealer c bundle info p = ground arith in
            let two : message ≡ flashblock_of evm sealer c bundle info p = ground arith in
            let three : info' ≡ (take_slice info).1 = ground arith in
            let (before, whole, long) =
              split_at info.extra.last_flashblock_index info.executed_transactions
                (parts-in_range calculate db info p good) in
            rw (one, two)
              (record {
                transactions = refl;
                senders = refl;
                receipts = refl;
                gas_used = refl;
                fees = refl;
                number = parts-number calculate db info p good;
                hashed = refl;
                same_hash = refl;
                same_gas = refl;
                before = before;
                since = drop info.extra.last_flashblock_index info.executed_transactions;
                split = whole;
                up_to_index = long;
                encodes_since = refl;
                index_at_end = three;
                rooted = refl;
                base_of_header = (_, refl, refl, refl, refl, refl);
              })
      ]
