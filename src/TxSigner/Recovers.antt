-- ===== src/TxSigner/Recovers.antt =====
-- The sender of a signed transaction, recovered from its signature.
use op_rbuilder.Base.{
  zero, suc, ◌≤◌, [], ◌∷◌, ◌++◌, length, ap, sym, ◌∙◌, length-append, split_at, ℕ, ◌<◌, ◌≡◌, refl,
  Option, none, some, arith, inl, inr, drop, not, ◌==◌, Option-cases, ok,
}
use op_rbuilder.Transactions.{Address, Hash}
use op_rbuilder.TxSigner.{
  Bytes, take, Signature, OpTypedTransaction, legacy, eip2930, eip1559, eip7702, deposit, Crypto,
  Signer, SignedTx, public_key_to_address, try_from_secret, sign_message, hash_to_sign, sign_tx,
}

-- What a node does with a signature and a key: the libraries', with what they are for. It is told the
-- parity of the recovery id, so the law of `recover` is about the ids 0 and 1. The address of a key
-- is the last 20 bytes of the hash of the 64 that follow the first of its serialization.
pub record Recovery (crypto : Crypto) : Type 0 where
  pub recover : Hash → Signature → Option crypto.PublicKey
  pub recover_sign :
      (digest : Hash) (key : crypto.SecretKey)
      → let (rec_id, bytes) = crypto.sign_ecdsa_recoverable digest key in
        rec_id < 2
        → recover digest (record {
          r = crypto.from_be_slice (take 32 bytes);
          s = crypto.from_be_slice (take 32 (drop 32 bytes));
          odd_y_parity = rec_id == 1;
        })
          ≡ some (crypto.public_key key)
  pub address_of : crypto.PublicKey → Address
  pub length-serialize : (key : crypto.PublicKey) → length (crypto.serialize_uncompressed key) ≡ 65
  pub length-keccak256 : (bytes : Bytes) → length bytes ≡ 64 → length (crypto.keccak256 bytes) ≡ 32
  pub address_of-last :
      (key : crypto.PublicKey) (head : ℕ) (point front last : Bytes)
      → crypto.serialize_uncompressed key ≡ head ∷ point
      → crypto.keccak256 point ≡ front ++ last
      → length last ≡ 20
      → address_of key ≡ crypto.address_from_slice last

take-all : (n : ℕ) (bytes : Bytes) → length bytes ≤ n → take n bytes ≡ bytes
take-all zero [] h = refl
take-all zero (b ∷ bs) h = absurd (omega arith)
take-all (suc n) [] h = refl
take-all (suc n) (b ∷ bs) h = ap (λ l. b ∷ l) (take-all n bs (omega arith))

-- A transaction that has a signature; the sender of a deposit is a field of it.
abbrev pub HasSignature : OpTypedTransaction → Type 0
HasSignature (legacy tx) = Unit
HasSignature (eip2930 tx) = Unit
HasSignature (eip1559 tx) = Unit
HasSignature (eip7702 tx) = Unit
HasSignature (deposit tx) = ⊥

module _ (crypto : Crypto) (recovery : Recovery crypto) where
  -- The sender that a node recovers from the hash of the transaction that it is to sign
  pub recover_signer : SignedTx crypto → Option Address
  recover_signer t = elim (crypto.digest_from_slice (crypto.signature_hash t.tx)) [
    | none ↦ none
    | some digest ↦ elim (recovery.recover digest t.signature) [
      | none ↦ none
      | some key ↦ some (recovery.address_of key)
    ]
  ]

  signs_hash :
      (tx : OpTypedTransaction)
      → HasSignature tx
      → hash_to_sign crypto tx ≡ crypto.signature_hash tx
  unfolding hash_to_sign
  signs_hash (legacy tx) h = refl
  signs_hash (eip2930 tx) h = refl
  signs_hash (eip1559 tx) h = refl
  signs_hash (eip7702 tx) h = refl
  signs_hash (deposit tx) h = absurd h

  address_of_point :
      (key : crypto.PublicKey) (bytes : Bytes)
      → crypto.serialize_uncompressed key ≡ bytes
      → length bytes ≡ 65
      → crypto.address_from_slice (take 20 (drop 12 (crypto.keccak256 (take 64 (drop 1 bytes)))))
        ≡ recovery.address_of key
  address_of_point key [] e long = absurd (omega arith)
  address_of_point key (head ∷ point) e long =
      let whole : take 64 point ≡ point = take-all 64 point (omega arith) in
      let hash = crypto.keccak256 point in
      let long_hash = recovery.length-keccak256 point (omega arith) in
      let (front, parts, twelve) = split_at 12 hash (omega arith) in
      let twenty : length (drop 12 hash) ≡ 20 =
        omega (arith, ap length parts, length-append front (drop 12 hash)) in
      let last : take 20 (drop 12 hash) ≡ drop 12 hash = take-all 20 (drop 12 hash) (omega arith) in
      rw (whole, last)
        (sym (recovery.address_of-last key head point front (drop 12 hash) e parts twenty))

  address_of-derived :
      (key : crypto.PublicKey) → public_key_to_address crypto key ≡ recovery.address_of key
  unfolding public_key_to_address
  address_of-derived key = address_of_point key _ refl (recovery.length-serialize key)

  parity : (n : ℕ) → n < 2 → not (n == 0) ≡ (n == 1)
  parity n h = ground arith

  try_from_secret-address :
      (secret : Bytes) (signer : Signer crypto)
      → try_from_secret crypto secret ≡ ok signer
      → signer.address ≡ recovery.address_of (crypto.public_key signer.secret)
  unfolding try_from_secret
  try_from_secret-address secret signer e = elim (Option-cases (crypto.secret_from_slice secret)) [
    | inl bad ↦ absurd (ground arith)
    | inr (key, good) ↦
        let made : signer.address ≡ public_key_to_address crypto (crypto.public_key signer.secret) =
          ground arith in
        made ∙ address_of-derived (crypto.public_key signer.secret)
  ]

  -- What `sign_message` makes of a digest
  abbrev signature_of : Signer crypto → Hash → Signature
  signature_of signer digest =
      let (rec_id, bytes) = crypto.sign_ecdsa_recoverable digest signer.secret in
      record {
        r = crypto.from_be_slice (take 32 bytes);
        s = crypto.from_be_slice (take 32 (drop 32 bytes));
        odd_y_parity = not (rec_id == 0);
      }

  recover-signature_of :
      (signer : Signer crypto) (digest : Hash)
      → (crypto.sign_ecdsa_recoverable digest signer.secret).0 < 2
      → recovery.recover digest (signature_of signer digest)
        ≡ some (crypto.public_key signer.secret)
  recover-signature_of signer digest small =
      rw (parity (crypto.sign_ecdsa_recoverable digest signer.secret).0 small)
        (recovery.recover_sign digest signer.secret small)

  -- For a signer made by try_from_secret and a transaction that is no deposit, if the libraries
  -- recover a key from a signature of the transaction's signature hash, serialize a key to 65
  -- bytes and take an address from the last 20 bytes of the 32 of the point's hash, and the
  -- recovery id is 0 or 1, sign_tx returns the transaction that it was given with the signer's
  -- address as its sender, and the sender that a node recovers from the signature and the
  -- signature hash is that one.
  pub recover_signer-sign_tx :
      (secret : Bytes) (signer : Signer crypto) (tx : OpTypedTransaction) (signed : SignedTx crypto)
      → HasSignature tx
      → try_from_secret crypto secret ≡ ok signer
      → sign_tx crypto signer tx ≡ ok signed
      → ((digest : Hash)
          → crypto.digest_from_slice (crypto.signature_hash tx) ≡ some digest
          → (crypto.sign_ecdsa_recoverable digest signer.secret).0 < 2)
      → (signed.tx ≡ tx)
        × (signed.signer ≡ signer.address)
        × (recover_signer signed ≡ some signed.signer)
  unfolding sign_tx sign_message recover_signer
  recover_signer-sign_tx secret signer tx signed has made e small =
      let hash = signs_hash tx has in
      elim (Option-cases (crypto.digest_from_slice (crypto.signature_hash tx))) [
        | inl bad ↦ absurd (ground arith)
        | inr (digest, good) ↦
            let same : signed ≡ record {
              tx = tx;
              signature = signature_of signer digest;
              signer = signer.address;
            } =
              ground arith in
            rw same (
              refl,
              refl,
              rw
                  (
                    good,
                    recover_signer,
                    recover-signature_of signer digest (small digest good),
                    ← try_from_secret-address secret signer made,
                  )
                  refl,
            )
      ]
