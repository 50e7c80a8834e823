-- ===== src/Evm.antt =====
-- What the builder takes from the node's libraries when it executes a transaction: the EVM, its
-- database, and the receipts. `Evm` has one field for each call; `transact` returns the changes
-- of state and leaves the database alone, and `commit` writes them.
use op_rbuilder.Base.{ℕ, ◌≤◌, ◌≡◌, Bool, Option, Result, ok}
use op_rbuilder.Transactions.{Address, Tx, TransactionConditional}

-- The three ways in which the code tells the EVM's errors apart.
pub data TransactError : Type 0 where
  nonce_too_low invalid_tx fatal_error : TransactError

pub record ExecutionResult (Logs : Type 0) : Type 0 where
  pub is_success : Bool
  pub gas_used : ℕ
  pub logs : Logs

-- `ResultAndState`
pub record ResultAndState (Logs Changes : Type 0) : Type 0 where
  pub result : ExecutionResult Logs
  pub state : Changes

-- `ReceiptBuilderCtx`, as far as the builder fills it in
pub record ReceiptCtx (Logs : Type 0) : Type 0 where
  pub tx : Tx
  pub result : ExecutionResult Logs
  pub cumulative_gas_used : ℕ

-- `OpDepositReceipt` with its inner receipt
pub record DepositReceipt (Logs : Type 0) : Type 0 where
  pub status : Bool
  pub cumulative_gas_used : ℕ
  pub logs : Logs
  pub deposit_nonce : Option ℕ
  pub deposit_receipt_version : Option ℕ

-- `build_receipt` has no value for a deposit. `account_nonce` is the nonce of an account in the
-- database's cache, 0 for one that does not exist.
pub record Evm : Type 1 where
  pub Db : Type 0
  pub Changes : Type 0
  pub Logs : Type 0
  pub Receipt : Type 0
  pub transact : Db → Tx → Result TransactError (ResultAndState Logs Changes)
  pub commit : Db → Changes → Db
  pub build_receipt : ReceiptCtx Logs → Option Receipt
  pub build_deposit_receipt : DepositReceipt Logs → Receipt
  pub account_nonce : Db → Address → Option ℕ
  pub fetch_da_footprint_gas_scalar : Db → Option ℕ

-- The part of `OpPayloadBuilderCtx` that execution reads: values of the configuration and of the
-- chain specification at the block's timestamp, and two tests of the node's libraries.
-- `cancelled n` is what the cancellation token answers when the n-th transaction is considered.
pub record BuilderCtx : Type 0 where
  pub base_fee : ℕ
  pub block_number : ℕ
  pub timestamp : ℕ
  pub max_gas_per_txn : Option ℕ
  pub max_da_tx_size : Option ℕ
  pub is_regolith_active : Bool
  pub is_canyon_active : Bool
  pub is_jovian_active : Bool
  pub interop : Bool
  pub matches_block_attributes : TransactionConditional → ℕ → ℕ → Bool
  pub is_valid_interop : ℕ → ℕ → Bool
  pub cancelled : ℕ → Bool

-- The node's EVM uses no more gas than the transaction's limit, and runs no transaction whose
-- limit is above that of the block's environment.
pub record MeteredEvm (evm : Evm) (env_gas_limit : ℕ) : Type 0 where
  pub metered :
      (db : evm.Db) (tx : Tx) (r : ResultAndState evm.Logs evm.Changes)
      → evm.transact db tx ≡ ok r
      → (r.result.gas_used ≤ tx.gas_limit) × (tx.gas_limit ≤ env_gas_limit)
