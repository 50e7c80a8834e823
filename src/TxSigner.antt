-- ===== src/TxSigner.antt =====
-- crates/op-rbuilder/src/tx_signer.rs: a key, its address, and what it signs. The curve, the hash and
-- the encodings are the libraries', the fields of a record.
pub mod Recovers
use op_rbuilder.Base.{
  ℕ, zero, suc, Bool, true, false, not, Option, none, some, List, [], ◌∷◌, drop, ◌==◌, Result, ok,
  err, ◌>>=◌, ok_or,
}
use op_rbuilder.Transactions.{Address, Hash}

abbrev pub Bytes : Type 0
Bytes = List ℕ

-- `&v[..n]`
abbrev pub take {ℓ} : {A : Type ℓ} → ℕ → List A → List A
take zero xs = []
take (suc n) [] = []
take (suc n) (x ∷ xs) = x ∷ take n xs

-- `Signature::new(r, s, odd_y_parity)`
pub record Signature : Type 0 where
  pub r : ℕ
  pub s : ℕ
  pub odd_y_parity : Bool

-- `TxEip1559`, less what keeps its default
pub record TxEip1559 : Type 0 where
  pub chain_id : ℕ
  pub nonce : ℕ
  pub gas_limit : ℕ
  pub max_fee_per_gas : ℕ
  pub max_priority_fee_per_gas : ℕ
  pub to : Address
  pub input : Bytes

-- `OpTypedTransaction`; the builder makes only the third kind, the others are their encodings.
pub data OpTypedTransaction : Type 0 where
  legacy eip2930 : Bytes → OpTypedTransaction
  eip1559 : TxEip1559 → OpTypedTransaction
  eip7702 deposit : Bytes → OpTypedTransaction

-- What the code calls of its libraries; an option is none where the call fails. A signature is
-- serialized as its recovery id and bytes.
pub record Crypto : Type 1 where
  pub SecretKey : Type 0
  pub PublicKey : Type 0
  pub secret_from_slice : Bytes → Option SecretKey
  pub public_key : SecretKey → PublicKey
  pub serialize_uncompressed : PublicKey → Bytes
  pub keccak256 : Bytes → Bytes
  pub address_from_slice : Bytes → Address
  pub digest_from_slice : Hash → Option Hash
  pub sign_ecdsa_recoverable : Hash → SecretKey → ℕ × Bytes
  pub from_be_slice : Bytes → ℕ
  pub signature_hash : OpTypedTransaction → Hash

pub data SignError : Type 0 where
  secp256k1_error : SignError

module _ (crypto : Crypto) where
  open crypto use {SecretKey, PublicKey}

  pub record Signer : Type 0 where
    pub address : Address
    pub pubkey : PublicKey
    pub secret : SecretKey

  -- `Recovered<OpTransactionSigned>`
  pub record SignedTx : Type 0 where
    pub tx : OpTypedTransaction
    pub signature : Signature
    pub signer : Address

  -- Without the first byte, the last 20 bytes of the hash of the 64 that follow
  unfoldable pub public_key_to_address : PublicKey → Address
  public_key_to_address public_key =
      let pubkey_bytes = crypto.serialize_uncompressed public_key in
      let hash = crypto.keccak256 (take 64 (drop 1 pubkey_bytes)) in
      crypto.address_from_slice (take 20 (drop 12 hash))

  unfoldable pub try_from_secret : Bytes → Result SignError Signer
  unfolding public_key_to_address
  try_from_secret secret = do
    key ← ok_or secp256k1_error (crypto.secret_from_slice secret)
    let pubkey = crypto.public_key key
    ok (record { address = public_key_to_address pubkey; pubkey = pubkey; secret = key })

  unfoldable pub sign_message : Signer → Hash → Result SignError Signature
  sign_message signer message = do
    digest ← ok_or secp256k1_error (crypto.digest_from_slice message)
    let (rec_id, bytes) = crypto.sign_ecdsa_recoverable digest signer.secret
    ok (record {
      r = crypto.from_be_slice (take 32 bytes);
      s = crypto.from_be_slice (take 32 (drop 32 bytes));
      odd_y_parity = not (rec_id == 0);
    })

  -- A deposit is not signed, and has the hash of zeros.
  unfoldable pub hash_to_sign : OpTypedTransaction → Hash
  hash_to_sign (legacy tx) = crypto.signature_hash (legacy tx)
  hash_to_sign (eip2930 tx) = crypto.signature_hash (eip2930 tx)
  hash_to_sign (eip1559 tx) = crypto.signature_hash (eip1559 tx)
  hash_to_sign (eip7702 tx) = crypto.signature_hash (eip7702 tx)
  hash_to_sign (deposit tx) = 0

  unfoldable pub sign_tx : Signer → OpTypedTransaction → Result SignError SignedTx
  unfolding sign_message hash_to_sign
  sign_tx signer tx = do
    signature ← sign_message signer (hash_to_sign tx)
    ok (record { tx = tx; signature = signature; signer = signer.address })
