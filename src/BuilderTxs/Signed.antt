-- ===== src/BuilderTxs/Signed.antt =====
-- Who signed the builder's transactions, with which nonce and for how much gas.
use op_rbuilder.Base.{
  ℕ, ◌/◌, ◌≡◌, refl, ◌∙◌, false, Option, some, arith, inl, inr, mul_u64, Option-cases, Result-cases,
  ok, ◌>>=◌, map_err,
}
use op_rbuilder.Transactions.{Address, Tx}
use op_rbuilder.Evm.{Evm}
use op_rbuilder.TxSigner.{
  Bytes, TxEip1559, eip1559, Signer, SignedTx, hash_to_sign, sign_message, sign_tx,
}
use op_rbuilder.Flashblocks.Headers.{SealCtx}
use op_rbuilder.BuilderTxs.{BuilderTransactionCtx, signing_error, estimate_builder_tx_gas}
use op_rbuilder.BuilderTxs.Base.{
  SolCall, Calls, get_nonce, sign_call, signed_builder_tx, simulate_builder_tx,
}

-- The builder reads of a signed transaction what was signed.
pub record ReadsSigned {evm : Evm} (calls : Calls evm) : Type 0 where
  pub reads :
      (signed : SignedTx calls.crypto) (t : TxEip1559)
      → signed.tx ≡ eip1559 t
      → ((calls.tx_of signed).signer ≡ signed.signer)
        × ((calls.tx_of signed).nonce ≡ t.nonce)
        × ((calls.tx_of signed).gas_limit ≡ t.gas_limit)

module _ {evm : Evm} (calls : Calls evm) (ctx : SealCtx) (reader : ReadsSigned calls) where
  open calls use {crypto}

  -- A transaction of the signer to the address, with the nonce of its account, so much gas and the
  -- input
  pub record Signed (from : Signer crypto) (db : evm.Db) (gas_limit : ℕ) (to : Address)
      (input : Bytes) (tx : Tx) : Type 0 where
    pub by : tx.signer ≡ from.address
    pub next_nonce : evm.account_nonce db from.address ≡ some tx.nonce
    pub gas : tx.gas_limit ≡ gas_limit
    pub signed : SignedTx crypto
    pub unsigned : TxEip1559
    pub read_of : tx ≡ calls.tx_of signed
    pub is_of : signed.tx ≡ eip1559 unsigned
    pub sent_to : unsigned.to ≡ to
    pub with_input : unsigned.input ≡ input

  sign_tx-Signed :
      (from : Signer crypto) (db : evm.Db) (t : TxEip1559) (signed : SignedTx crypto)
      → evm.account_nonce db from.address ≡ some t.nonce
      → sign_tx crypto from (eip1559 t) ≡ ok signed
      → Signed from db t.gas_limit t.to t.input (calls.tx_of signed)
  unfolding sign_tx
  sign_tx-Signed from db t signed nonce e =
      elim (Result-cases (sign_message crypto from (hash_to_sign crypto (eip1559 t)))) [
        | inl (signature, good) ↦
            let (by, at, gas) = reader.reads signed t (ground arith) in
            let signer : signed.signer ≡ from.address = ground arith in
            record {
              by = by ∙ signer;
              next_nonce = rw at nonce;
              gas = gas;
              signed = signed;
              unsigned = t;
              read_of = refl;
              is_of = ground arith;
              sent_to = refl;
              with_input = refl;
            }
        | inr (x, bad) ↦ absurd (ground arith)
      ]

  -- Any call that reads the nonce of the account and signs a transaction with it
  signed_at_nonce-Signed :
      (from : Signer crypto) (db : evm.Db) (make : ℕ → TxEip1559) (gas_limit : ℕ) (to : Address)
      (input : Bytes) (tx : Tx)
      → ((nonce : ℕ) → (make nonce).nonce ≡ nonce)
      → ((nonce : ℕ) → (make nonce).gas_limit ≡ gas_limit)
      → ((nonce : ℕ) → (make nonce).to ≡ to)
      → ((nonce : ℕ) → (make nonce).input ≡ input)
      → (get_nonce calls ctx db from.address >>= λ nonce.
          map_err (λ _. signing_error) (sign_tx crypto from (eip1559 (make nonce))) >>= λ signed.
          ok (calls.tx_of signed))
        ≡ ok tx
      → Signed from db gas_limit to input tx
  unfolding get_nonce
  signed_at_nonce-Signed from db make gas_limit to input tx at gas goes_to has_input e =
      elim (Option-cases (evm.account_nonce db from.address)) [
        | inl missing ↦ absurd (ground arith)
        | inr (nonce, found) ↦ elim (Result-cases (sign_tx crypto from (eip1559 (make nonce)))) [
          | inl (signed, good) ↦
              let same : tx ≡ calls.tx_of signed = ground arith in
              let s = sign_tx-Signed from db (make nonce) signed (rw at found) good in
              rw same (record {
                by = s.by;
                next_nonce = s.next_nonce;
                gas = s.gas ∙ gas nonce;
                signed = s.signed;
                unsigned = s.unsigned;
                read_of = s.read_of;
                is_of = s.is_of;
                sent_to = s.sent_to ∙ goes_to nonce;
                with_input = s.with_input ∙ has_input nonce;
              })
          | inr (x, bad) ↦ absurd (ground arith)
        ]
      ]

  pub sign_call-Signed :
      (to : Address) (from : Signer crypto) (gas_used : ℕ) (call : SolCall) (db : evm.Db) (tx : Tx)
      → sign_call calls ctx to from gas_used call db ≡ ok tx
      → Signed from db (mul_u64 gas_used 64 / 63) to (calls.abi_encode call) tx
  unfolding sign_call
  sign_call-Signed to from gas_used call db tx e =
      signed_at_nonce-Signed from db
        (λ nonce. record {
          chain_id = ctx.chain_id;
          nonce = nonce;
          gas_limit = mul_u64 gas_used 64 / 63;
          max_fee_per_gas = ctx.builder.base_fee;
          max_priority_fee_per_gas = 0;
          to = to;
          input = calls.abi_encode call;
        })
        (mul_u64 gas_used 64 / 63) to (calls.abi_encode call) tx (λ nonce. refl) (λ nonce. refl)
        (λ nonce. refl) (λ nonce. refl) e

  signed_builder_tx-Signed :
      (db : evm.Db) (from : Signer crypto) (gas_used : ℕ) (message : Bytes) (tx : Tx)
      → signed_builder_tx calls ctx db from gas_used message ≡ ok tx
      → Signed from db gas_used 0 message tx
  unfolding signed_builder_tx
  signed_builder_tx-Signed db from gas_used message tx e =
      signed_at_nonce-Signed from db
        (λ nonce. record {
          chain_id = ctx.chain_id;
          nonce = nonce;
          gas_limit = gas_used;
          max_fee_per_gas = ctx.builder.base_fee;
          max_priority_fee_per_gas = 0;
          to = 0;
          input = message;
        })
        gas_used 0 message tx (λ nonce. refl) (λ nonce. refl) (λ nonce. refl) (λ nonce. refl) e

  -- The gas of the base transaction of the block
  abbrev pub base_gas : ℕ
  base_gas = estimate_builder_tx_gas (calls.block_number_message ctx.builder.block_number)

  -- The base transaction, for the end of the block
  pub record IsBase (from : Signer crypto) (db : evm.Db) (t : BuilderTransactionCtx) : Type 0 where
    pub at_end : t.is_top_of_block ≡ false
    pub gas_used : t.gas_used ≡ base_gas
    pub da_size : t.da_size ≡ t.signed_tx.estimated_size
    pub signed :
        Signed from db base_gas 0 (calls.block_number_message ctx.builder.block_number) t.signed_tx

  pub simulate_builder_tx-IsBase :
      (from : Signer crypto) (db : evm.Db) (o : Option BuilderTransactionCtx)
      → simulate_builder_tx calls ctx (some from) db ≡ ok o
      → (t : BuilderTransactionCtx) × (o ≡ some t) × IsBase from db t
  unfolding simulate_builder_tx
  simulate_builder_tx-IsBase from db o e =
      let message = calls.block_number_message ctx.builder.block_number in
      elim (Result-cases (signed_builder_tx calls ctx db from base_gas message)) [
        | inl (tx, good) ↦
            let t : BuilderTransactionCtx = record {
              gas_used = base_gas;
              da_size = tx.estimated_size;
              signed_tx = tx;
              is_top_of_block = false;
            } in
            (
              t,
              ground arith,
              record {
                at_end = refl;
                gas_used = refl;
                da_size = refl;
                signed = signed_builder_tx-Signed db from base_gas message tx good;
              },
            )
        | inr (x, bad) ↦ absurd (ground arith)
      ]
