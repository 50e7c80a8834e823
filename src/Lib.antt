-- ===== src/Lib.antt =====
-- op-rbuilder, a block builder for OP-stack chains: the logic with which it fills a block.
--
-- A payload job (builders/generator.rs) starts a build, which is that of flashblocks
-- (builders/flashblocks/payload.rs) or the standard one (builders/standard/payload.rs). Both execute
-- the transactions of the payload attributes first, and both add the builder's own transactions, for
-- which they keep gas and size. The standard builder then executes transactions of the pool once. The
-- other cuts the time that is left of the block into flashblocks: each executes transactions of the
-- pool, in the order of an iterator, and transactions that a sidecar sends, and publishes what was
-- added since the last. The pool's and the sidecar's transactions are held to the same limits. All
-- paths are from the repository's root, below crates/op-rbuilder/src unless they begin with crates/.
--
-- The files, and what they model:
--   Base: shared names, words of 64 bits with their wrap-around, results, association lists
--   Transactions: tx.rs, FBPooledTransaction (here FbPooledTransaction) and its setters
--   Evm: what the node's EVM, database and receipts do, as the fields of a record; BuilderCtx is the
--     part of OpPayloadBuilderCtx that execution reads
--   Execution: primitives/reth/execution.rs, ExecutionInfo and is_tx_over_limits
--   GasLimiter: gas_limiter, the token buckets
--   BestTxs: builders/flashblocks/best_txs.rs, over an abstract iterator of the pool
--   Bundle: primitives/bundle.rs, Bundle::conditional
--   RevertProtection: revert_protection.rs, eth_sendBundle over an abstract node
--   Context: builders/context.rs; Context.Sequencer, Context.Best and Context.Sidecar are its three
--     execution loops, Context.Grows what each of them may do to a block, Context.Filled and
--     Context.Uncancelled how the loop of the pool's transactions ends
--   TxSigner: tx_signer.rs, over the curve and the hash of libraries
--   BuilderTxs: builders/builder_tx.rs, which of the builder's transactions are added; Base is the
--     base transaction and the calls of contracts, Makers and Number are
--     builders/standard/builder_tx.rs and builders/flashblocks/builder_tx.rs; Chosen, Rounds, Signed,
--     Own, Placed and Within are about what these return
--   Flashtestations: flashtestations/builder_tx.rs, the registration of the machine and the proofs of
--     its blocks; Permits is about the two calls, Registered about the flag that remembers one
--   SidecarClient: sidecar/client.rs, the loop of poll_transactions
--   Flashblocks: builders/flashblocks/payload.rs and config.rs: Timing is the two calculations of the
--     number of flashblocks, Batches what each may use, Slices which transactions each publishes,
--     Headers, Outputs and Sealing build_block, Building build_next_flashblock, Blocks build_payload
--     and its loop; Growth, Told, Steps, Telling, Fallback and Payload compare what is published with
--     the best payload, Fueled and Ending are about the fuel of its loops
--   Standard: builders/standard/payload.rs: execute and its steps; Sealing is the header and the
--     payload, Payload is build and the two calls of the node. Built says of a block that is returned
--     what each step did, Contents what stands in it, Within and Reserved are about its limits, Keeps
--     about the gas that is kept, Outcomes about the results, Agrees compares it with
--     Flashblocks.Sealing
--   Generator: builders/generator.rs, jobs, their tokens and cells
--   PayloadHandler: builders/flashblocks/payload_handler.rs, the execution of a block that a peer
--     sends; Agrees and Capped compare it with the builder's
--   Scenarios: a small node, and each theorem at an input
--
-- Numbers are naturals; a u64 that can wrap has its wrap-around written out (add_u64), as the release
-- build computes it. A division by zero, a failed expect and a negative duration are values: none, or
-- the error panicked. The Merkle roots, the hashes, the curve and the encodings of calls are the
-- libraries', and are fields of records that the definitions take (Crypto, Calls, Hashes and those of
-- Evm); a theorem that relies on one of them has it as a hypothesis.
--
-- Fuel: the loops of execute_best_transactions and of the iterator take one transaction of the inner
-- iterator in each round, and the iterator's bound on those to come is their fuel; poll_transactions
-- takes fuel for one request more than its retries. The loop of build_payload is over the list of the
-- timer's triggers.
--
-- Not modelled: metrics, logging, the wiring of services and the command line, which compute nothing
-- that a block depends on; the p2p protocol (crates/p2p) and the HTTP servers, which are libraries';
-- the hardware quotes, and the start of the service that asks for them (flashtestations/service.rs);
-- the drawing of a signer's key. The websocket publisher (builders/flashblocks/wspub.rs) sends the
-- messages that build_payload lists and changes nothing in them. The state overrides
-- (sidecar/overrides.rs) are part of a request to the sidecar, whose answer here is any function of
-- the database. Of builders/flashblocks/payload_handler.rs the task that receives and forwards is
-- left out, and of builders/generator.rs the cache of reads.
pub mod Base
pub mod Execution
pub mod GasLimiter
pub mod Transactions
pub mod Bundle
pub mod RevertProtection
pub mod BestTxs
pub mod Evm
pub mod Context
pub mod SidecarClient
pub mod TxSigner
pub mod Flashtestations
pub mod BuilderTxs
pub mod Flashblocks
pub mod Standard
pub mod PayloadHandler
pub mod Generator
pub mod Scenarios
