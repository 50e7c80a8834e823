-- ===== src/Context/Entries.antt =====
-- The transactions that `execute_best_transactions` adds to the block, and its lists and counters.
use op_rbuilder.Base.{
  ℕ, ◌+◌, ◌*◌, ◌%◌, ◌<◌, ◌≡◌, refl, ap, ◌∙◌, ◌⊎◌, true, false, some, List, [], ◌∷◌, ◌++◌, map,
  arith, u64_mod, u256_mod, length, All, append-nil, append_assoc, Bool, sym, length-snoc, add_u64,
  none, ok,
}
use op_rbuilder.Transactions.{Tx, FbPooledTransaction}
use op_rbuilder.Execution.Limits.{WithinLimit}
use op_rbuilder.Evm.{ResultAndState}
use op_rbuilder.Context.{Info, build_receipt, charge, add_fees, append}
use op_rbuilder.Context.Best.{BestCall, Build}
use op_rbuilder.Context.Included.{Matches, InTime, MayRevert, Included, Leaves}
use op_rbuilder.Context.Loop.{Builds, built, next_built, next_left}
use op_rbuilder.Context.Block.{Returns, Returns-Builds}

-- A transaction that was included, with what it was charged.
pub record Entry : Type 0 where
  pub pooled : FbPooledTransaction
  pub is_success : Bool
  pub gas_used : ℕ
  pub miner_fee : ℕ

abbrev pub tx_of : Entry → Tx
tx_of e = e.pooled.inner.consensus

abbrev pub total : (Entry → ℕ) → List Entry → ℕ
total f [] = 0
total f (e ∷ es) = f e + total f es

module _ (call : BestCall) where
  open call use {evm, ctx, txs}

  -- What a sequencer's block may take from the pool.
  pub record Lawful (e : Entry) : Type 0 where
    pub no_blob : (tx_of e).is_eip4844 ≡ false
    pub no_deposit : (tx_of e).is_deposit ≡ false
    pub conditional_met : Matches call e.pooled.inner.conditional
    pub interop_met : (ctx.interop ≡ false) ⊎ InTime call e.pooled.inner.interop_deadline
    pub may_revert :
        (e.is_success ≡ true) ⊎ MayRevert call (tx_of e).tx_hash e.pooled.reverted_hashes
    pub gas_capped : WithinLimit e.gas_used ctx.max_gas_per_txn
    pub priced : (tx_of e).tip ctx.base_fee ≡ some e.miner_fee

  -- The counters are words.
  pub record InWords (info : Info evm ctx) : Type 0 where
    pub gas : info.cumulative_gas_used < u64_mod
    pub da : info.cumulative_da_bytes_used < u64_mod
    pub fees : info.total_fees < u256_mod

  -- `info'` is `info` with the entries: in the three lists in the same order, and in the three
  -- counters, which wrap.
  pub record Accounts (es : List Entry) (info info' : Info evm ctx) : Type 0 where
    pub transactions : info'.executed_transactions ≡ info.executed_transactions ++ map tx_of es
    pub senders : info'.executed_senders ≡ info.executed_senders ++ map (λ e. (tx_of e).signer) es
    pub receipts : length info'.receipts ≡ length info.receipts + length es
    pub gas :
        info'.cumulative_gas_used
        ≡ (info.cumulative_gas_used + total (λ e. e.gas_used) es) % u64_mod
    pub da :
        info'.cumulative_da_bytes_used
        ≡ (info.cumulative_da_bytes_used + total (λ e. e.pooled.inner.estimated_da_size) es)
          % u64_mod
    pub fees :
        info'.total_fees ≡ (info.total_fees + total (λ e. e.miner_fee * e.gas_used) es) % u256_mod
    pub scalar : info'.da_footprint_scalar ≡ info.da_footprint_scalar
    pub last_flashblock : info'.extra ≡ info.extra

  -- The iterator hands out the transactions in this order, and may hand out others between them,
  -- which are left out.
  pub data Handed : List FbPooledTransaction → txs.Txs → Type 0 where
    handed_none : {it : txs.Txs} → Handed [] it
    handed_next :
        {it : txs.Txs} {p : FbPooledTransaction} {ps : List FbPooledTransaction}
        → (txs.next it).0 ≡ some p
        → Handed ps (txs.next it).1
        → Handed (p ∷ ps) it
    handed_left :
        {it left_it : txs.Txs} {p : FbPooledTransaction} {ps : List FbPooledTransaction}
        → (txs.next it).0 ≡ some p
        → Leaves call p (txs.next it).1 left_it
        → Handed ps left_it
        → Handed ps it

  -- Executing the entries' transactions one after the other, from the first database to the second,
  -- has the results that the entries hold.
  abbrev pub Executed : List Entry → evm.Db → evm.Db → Type 0
  Executed [] db db' = db' ≡ db
  Executed (e ∷ es) db db' =
      (r : ResultAndState evm.Logs evm.Changes) × (evm.transact db (tx_of e) ≡ ok r)
      × (e.is_success ≡ r.result.is_success)
      × (e.gas_used ≡ r.result.gas_used)
      × Executed es (evm.commit db r.state) db'

  module _ {p : FbPooledTransaction} {info info' : Info evm ctx} {db db' : evm.Db}
      (inc : Included call info db p info' db') where
    entry : Entry
    entry = record {
      pooled = p;
      is_success = inc.r.result.is_success;
      gas_used = inc.r.result.gas_used;
      miner_fee = inc.miner_fee;
    }

    entry-Lawful : Lawful entry
    unfolding entry
    entry-Lawful = record {
      no_blob = inc.admitted.no_blob;
      no_deposit = inc.admitted.no_deposit;
      conditional_met = inc.admitted.conditional_met;
      interop_met = inc.admitted.interop_met;
      may_revert = inc.may_revert;
      gas_capped = inc.gas_capped;
      priced = inc.priced;
    }

    -- The entries that follow are accounted for on top of this one.
    entry-Accounts :
        (es : List Entry) (info'' : Info evm ctx)
        → Accounts es info' info''
        → Accounts (entry ∷ es) info info''
    unfolding entry append add_fees charge
    entry-Accounts es info'' rest = record {
      transactions =
          rest.transactions
          ∙ (ap (λ i. i.executed_transactions ++ map tx_of es) inc.new_info
              ∙ append_assoc info.executed_transactions (p.inner.consensus ∷ []) (map tx_of es));
      senders =
          rest.senders
          ∙ (ap (λ i. i.executed_senders ++ map (λ e. (tx_of e).signer) es) inc.new_info
              ∙ append_assoc info.executed_senders (p.inner.consensus.signer ∷ [])
                  (map (λ e. (tx_of e).signer) es));
      receipts = omega (
        arith,
        rest.receipts,
        ap (λ i. length i.receipts) inc.new_info,
        length-snoc info.receipts (
            build_receipt evm ctx
              (record {
                tx = p.inner.consensus;
                result = inc.r.result;
                cumulative_gas_used = add_u64 info.cumulative_gas_used inc.r.result.gas_used;
              })
              none),
      );
      gas = omega (arith, rest.gas, ap (λ i. i.cumulative_gas_used) inc.new_info);
      da = omega (arith, rest.da, ap (λ i. i.cumulative_da_bytes_used) inc.new_info);
      fees = omega (arith, rest.fees, ap (λ i. i.total_fees) inc.new_info);
      scalar = rest.scalar ∙ ap (λ i. i.da_footprint_scalar) inc.new_info;
      last_flashblock = rest.last_flashblock ∙ ap (λ i. i.extra) inc.new_info;
    }

  no_entries : (info : Info evm ctx) → InWords info → Accounts [] info info
  no_entries info w = record {
    transactions = sym (append-nil _);
    senders = sym (append-nil _);
    receipts = omega arith;
    gas = omega arith;
    da = omega arith;
    fees = omega arith;
    scalar = refl;
    last_flashblock = refl;
  }

  entry-InWords :
      {p : FbPooledTransaction} {info info' : Info evm ctx} {db db' : evm.Db}
      → Included call info db p info' db'
      → InWords info'
  unfolding append add_fees charge
  entry-InWords inc = record {
    gas = omega (arith, ap (λ i. i.cumulative_gas_used) inc.new_info);
    da = omega (arith, ap (λ i. i.cumulative_da_bytes_used) inc.new_info);
    fees = omega (arith, ap (λ i. i.total_fees) inc.new_info);
  }

  Builds-Accounts :
      {info' : Info evm ctx} {db' : evm.Db} {ps : List FbPooledTransaction} {info : Info evm ctx}
      {db : evm.Db} {it : txs.Txs}
      → Builds call info' db' ps info db it
      → InWords info
      → (es : List Entry) × All Lawful es
        × Handed (map (λ e. e.pooled) es) it
        × Executed es db db'
        × Accounts es info info'
  unfolding entry
  Builds-Accounts {info} (built e d) w = ([], tt, handed_none, d, rw e (no_entries info w))
  Builds-Accounts (next_left n left rest) w =
      let (es, lawful, handed, executed, accounts) = Builds-Accounts rest w in
      (es, lawful, handed_left n left handed, executed, accounts)
  Builds-Accounts {db'} (next_built n inc rest) w =
      let (es, lawful, handed, executed, accounts) = Builds-Accounts rest (entry-InWords inc) in
      (
        entry inc ∷ es,
        (entry-Lawful inc, lawful),
        handed_next n handed,
        (inc.r, inc.admitted.ran, refl, refl, rw inc.new_db at executed),
        entry-Accounts inc es _ accounts,
      )

  -- When execute_best_transactions returns, a block whose counters were words has gained entries,
  -- whose transactions the iterator handed out in this order, others between them being left out.
  -- Executing them one after the other leads from the old database to the new with the entries'
  -- results; each is no blob or deposit transaction, has passed the conditional and interop tests,
  -- has a priority fee, is within the cap on gas, and has succeeded unless it may revert. They
  -- stand in the same order in the lists of transactions and senders, with as many receipts, and
  -- the gas, DA and fee counters are the old ones plus theirs, modulo the word.
  pub best-Accounts :
      (b b' : Build call)
      → InWords b.info
      → Returns call b b'
      → (es : List Entry) × All Lawful es
        × Handed (map (λ e. e.pooled) es) b.best_txs
        × Executed es b.db b'.db
        × Accounts es b.info b'.info
  best-Accounts b b' w ret = Builds-Accounts (Returns-Builds call b b' ret).1 w
