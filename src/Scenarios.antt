-- ===== src/Scenarios.antt =====
-- A small node for the tests: an EVM that uses all of a transaction's gas and reverts those with
-- nonce 7, a pool that is a list, and some transactions.
pub mod Building
pub mod Pool
pub mod Attributes
pub mod Cutting
pub mod Adding
pub mod Blocks
pub mod Replaying
pub mod Jobs
pub mod Whole
pub mod Limits
pub mod Signing
pub mod Agreeing
use op_rbuilder.Base.{
  ℕ, ◌≤◌, ◌<◌, ◌≡◌, Bool, true, false, not, Option, none, some, List, [], ◌∷◌, ◌==◌, ltb,
  if◌then◌else◌, arith, length, Result, ok, err, ◌+◌,
}
use op_rbuilder.Transactions.{Address, Tx, FbPooledTransaction}
use op_rbuilder.Execution.{ExecutionInfo, BlockLimits}
use op_rbuilder.Execution.Bounded.{Bounded, SmallLimits}
use op_rbuilder.GasLimiter.{AddressGasLimiter}
use op_rbuilder.Evm.{
  Evm, BuilderCtx, TransactError, ResultAndState, invalid_tx, MeteredEvm, ReceiptCtx,
  DepositReceipt,
}
use op_rbuilder.BestTxs.{PayloadTransactions}
use op_rbuilder.Context.Best.{BestCall, Build, no_counts}

abbrev pub transact : ℕ → Tx → Result TransactError (ResultAndState ℕ ℕ)
transact db tx =
    if ltb 1000000 tx.gas_limit
    then err invalid_tx
    else ok (record {
      result = record { is_success = not (tx.nonce == 7); gas_used = tx.gas_limit; logs = 0 };
      state = 1;
    })

-- The database counts the commits, a receipt is its cumulative gas.
abbrev pub evm : Evm
evm = record {
  Db = ℕ;
  Changes = ℕ;
  Logs = ℕ;
  Receipt = ℕ;
  transact = transact;
  commit = λ db state. db + state;
  build_receipt = λ c. if c.tx.is_deposit then none else some c.cumulative_gas_used;
  build_deposit_receipt = λ d. d.cumulative_gas_used;
  account_nonce = λ db a. some 0;
  fetch_da_footprint_gas_scalar = λ db. some 2;
}

pub evm-metered : MeteredEvm evm 1000000
evm-metered = record { metered = λ db tx r e. ground arith }

abbrev pub ctx : BuilderCtx
ctx = record {
  base_fee = 10;
  block_number = 5;
  timestamp = 1000;
  max_gas_per_txn = some 500000;
  max_da_tx_size = some 300;
  is_regolith_active = true;
  is_canyon_active = true;
  is_jovian_active = true;
  interop = false;
  matches_block_attributes = λ c n t. true;
  is_valid_interop = λ d t. true;
  cancelled = λ n. false;
}

abbrev pub without : Address → List FbPooledTransaction → List FbPooledTransaction
without a [] = []
without a (t ∷ ts) =
    let rest = without a ts in if t.inner.consensus.signer == a then rest else t ∷ rest

pub without-length :
    (a : Address) (ts : List FbPooledTransaction) → length (without a ts) ≤ length ts
without-length a [] = omega arith
without-length a (t ∷ ts) = ground (arith, without-length a ts)

abbrev pub next : List FbPooledTransaction → Option FbPooledTransaction × List FbPooledTransaction
next [] = (none, [])
next (t ∷ ts) = (some t, ts)

pub next-fewer :
    (ts : List FbPooledTransaction) (t : FbPooledTransaction)
    → (next ts).0 ≡ some t
    → length (next ts).1 < length ts
next-fewer [] t e = absurd (ground arith)
next-fewer (x ∷ ts) t e = omega arith

pub next-le : (ts : List FbPooledTransaction) → length (next ts).1 ≤ length ts
next-le [] = omega arith
next-le (x ∷ ts) = omega arith

abbrev pub txs : PayloadTransactions
txs = record {
  Txs = List FbPooledTransaction;
  next = next;
  mark_invalid = λ ts a n. without a ts;
  remaining = λ ts. length ts;
  next_remaining = next-fewer;
  next_end = next-le;
  mark_invalid_remaining = λ ts a n. without-length a ts;
}

abbrev pub limits : BlockLimits
limits = record {
  block_gas_limit = 1000000;
  tx_data_limit = some 300;
  block_data_limit = some 1000;
  block_da_footprint_limit = none;
}

abbrev pub call : BestCall
call = record {
  evm = evm;
  ctx = ctx;
  txs = txs;
  block_gas_limit = 1000000;
  block_da_limit = some 1000;
  block_da_footprint_limit = none;
}

-- A transaction by its signer, nonce and gas
abbrev pub tx : ℕ → ℕ → ℕ → Tx
tx signer nonce gas = record {
  tx_hash = signer + nonce;
  signer = signer;
  nonce = nonce;
  gas_limit = gas;
  is_eip4844 = false;
  is_deposit = false;
  tip = λ base_fee. some 2;
  estimated_size = 100;
}

abbrev pub pooled : Tx → FbPooledTransaction
pooled t = record {
  inner = record {
    consensus = t;
    conditional = none;
    interop_deadline = none;
    estimated_da_size = t.estimated_size;
  };
  reverted_hashes = none;
  flashblock_number_min = none;
  flashblock_number_max = none;
}

abbrev pub empty_info : ExecutionInfo Tx ℕ
empty_info = record {
  executed_transactions = [];
  executed_senders = [];
  receipts = [];
  cumulative_gas_used = 0;
  cumulative_da_bytes_used = 0;
  total_fees = 0;
  extra = record { last_flashblock_index = 0 };
  da_footprint_scalar = some 2;
  optional_blob_fields = none;
}

pub limits-SmallLimits : SmallLimits limits 1000000
limits-SmallLimits = record {
  gas_fits = omega arith;
  da_small = λ limit e. ground arith;
  footprint_small = omega arith;
}

pub empty-Bounded : Bounded limits empty_info
empty-Bounded = record { gas = omega arith; da = omega arith; footprint = omega arith }
