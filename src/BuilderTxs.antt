-- ===== src/BuilderTxs.antt =====
-- crates/op-rbuilder/src/builders/builder_tx.rs: the builder's own transactions. Which ones there
-- are is up to an implementation of `simulate_builder_txs`, which is a parameter here.
pub mod Chosen
pub mod Rounds
pub mod Within
pub mod Base
pub mod Makers
pub mod Number
pub mod Signed
pub mod Own
pub mod Placed
use op_rbuilder.Base.{
  ℕ, ◌+◌, ◌*◌, Bool, not, Option, none, some, List, [], ◌∷◌, ◌++◌, if◌then◌else◌, ◌==◌, contains,
  ltb, differ, Result, ok, err, ◌>>=◌, ok_or, map_err,
}
use op_rbuilder.Transactions.{Address, Tx}
use op_rbuilder.Evm.{
  Evm, BuilderCtx, ExecutionResult, ResultAndState, nonce_too_low, invalid_tx, fatal_error,
}
use op_rbuilder.Context.{Info, charge, append}

pub record BuilderTransactionCtx : Type 0 where
  pub gas_used : ℕ
  pub da_size : ℕ
  pub signed_tx : Tx
  pub is_top_of_block : Bool

-- Texts and the errors' payloads, but for the address, are left out.
pub data BuilderTransactionError : Type 0 where
  account_load_failed : Address → BuilderTransactionError
  signing_error invalid_contract transaction_halted transaction_reverted : BuilderTransactionError
  invalid_transaction_error evm_execution_error other : BuilderTransactionError

-- `BuilderTransactionCtx::set_top_of_block`
unfoldable pub set_top_of_block : BuilderTransactionCtx → BuilderTransactionCtx
set_top_of_block tx = record tx { is_top_of_block = Bool.true }

-- The zero bytes of a message, and the others
unfoldable pub count_bytes : ℕ × ℕ → List ℕ → ℕ × ℕ
count_bytes counts [] = counts
count_bytes (zeros, nonzeros) (byte ∷ bytes) =
    count_bytes (if byte == 0 then (zeros + 1, nonzeros) else (zeros, nonzeros + 1)) bytes

-- `estimate_builder_tx_gas`; the message is a few bytes, so that no sum wraps.
-- `TOTAL_COST_FLOOR_PER_TOKEN` of EIP-7623 is 10.
unfoldable pub estimate_builder_tx_gas : List ℕ → ℕ
unfolding count_bytes
estimate_builder_tx_gas input =
    let (zero_bytes, nonzero_bytes) = count_bytes (0, 0) input in
    let zero_cost = zero_bytes * 4 in
    let nonzero_cost = nonzero_bytes * 16 in
    let tokens_in_calldata = zero_bytes + nonzero_bytes * 4 in
    let floor_gas = 21000 + tokens_in_calldata * 10 in
    let gas = zero_cost + nonzero_cost + 21000 in if ltb floor_gas gas then gas else floor_gas

-- The transactions of a result, and none where it is an error
abbrev pub simulated :
    Result BuilderTransactionError (List BuilderTransactionCtx) → List BuilderTransactionCtx
simulated (ok ts) = ts
simulated (err e) = []

module _ (evm : Evm) (ctx : BuilderCtx) where
  open evm use {Db, Changes, Logs}

  -- The variables of the loop of `add_builder_txs`; `invalid` holds the signers to skip.
  pub record Adding : Type 0 where
    pub info : Info evm ctx
    pub db : Db
    pub invalid : List Address

  unfoldable pub skip_signer : Adding → Tx → Adding
  skip_signer a tx = record a { invalid = tx.signer ∷ a.invalid }

  unfoldable pub commit_builder_tx :
      Adding → BuilderTransactionCtx → ResultAndState Logs Changes → Adding
  commit_builder_tx a t r = record a {
    info = append evm ctx (charge evm ctx a.info t.signed_tx t.da_size r.result) t.signed_tx;
    db = evm.commit a.db r.state;
  }

  -- One round of the loop
  unfoldable pub add_builder_tx :
      Bool → Adding → BuilderTransactionCtx → Result BuilderTransactionError Adding
  unfolding skip_signer commit_builder_tx
  add_builder_tx top_of_block a t =
      if differ t.is_top_of_block top_of_block
      then ok a
      else if contains a.invalid t.signed_tx.signer
      then ok a
      else elim (evm.transact a.db t.signed_tx) [
        | err nonce_too_low ↦ ok a
        | err invalid_tx ↦ ok (skip_signer a t.signed_tx)
        | err fatal_error ↦ err evm_execution_error
        | ok r ↦
            if not r.result.is_success
            then ok (skip_signer a t.signed_tx)
            else ok (commit_builder_tx a t r)
      ]

  -- The loop: its result, and what it leaves, also where it fails.
  unfoldable pub add_from :
      Bool
      → Adding
      → List BuilderTransactionCtx
      → Result BuilderTransactionError (Unit {0}) × Adding
  add_from top_of_block a [] = (ok tt, a)
  add_from top_of_block a (t ∷ ts) = elim (add_builder_tx top_of_block a t) [
    | ok a' ↦ add_from top_of_block a' ts
    | err e ↦ (err e, a)
  ]

  -- `simulate_builder_txs_with_state_copy`, on the block, the database and the place; it works on a
  -- copy of the state, and its implementations leave the block alone.
  abbrev pub Simulate : Type 0
  Simulate = Info evm ctx → Db → Bool → Result BuilderTransactionError (List BuilderTransactionCtx)

  -- `BuilderTransactions::add_builder_txs`
  unfoldable pub add_builder_txs :
      Simulate
      → Info evm ctx
      → Db
      → Bool
      → Result BuilderTransactionError (List BuilderTransactionCtx) × (Info evm ctx × Db)
  add_builder_txs simulate info db top_of_block = elim (simulate info db top_of_block) [
    | err e ↦ (err e, (info, db))
    | ok builder_txs ↦
        let (result, a) =
          add_from top_of_block (record { info = info; db = db; invalid = [] }) builder_txs in
        (result >>= λ _. ok builder_txs, (a.info, a.db))
  ]

  -- `commit_txs`, on the copy of the state that a simulation works on: its result, and the state
  -- it leaves, also where it fails.
  unfoldable pub commit_txs : List Tx → Db → Result BuilderTransactionError (Unit {0}) × Db
  commit_txs [] db = (ok tt, db)
  commit_txs (tx ∷ txs) db = elim (evm.transact db tx) [
    | ok r ↦ commit_txs txs (evm.commit db r.state)
    | err _ ↦ (err evm_execution_error, db)
  ]
