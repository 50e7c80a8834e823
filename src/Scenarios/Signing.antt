-- ===== src/Scenarios/Signing.antt =====
-- Keys of the small node, contracts that answer every call, and the transactions that the builder
-- makes with them.
use op_rbuilder.Base.{
  ◌++◌, length, ap, sym, ◌∙◌, ℕ, ◌+◌, ◌≡◌, refl, Bool, true, false, Option, none, some, [], ◌∷◌,
  arith, ok,
}
use op_rbuilder.Transactions.{Tx}
use op_rbuilder.TxSigner.{
  Bytes, OpTypedTransaction, eip1559, legacy, eip2930, eip7702, deposit, Crypto, Signer, SignedTx,
  try_from_secret, sign_tx, public_key_to_address, sign_message, hash_to_sign,
}
use op_rbuilder.TxSigner.Recovers.{Recovery, recover_signer, recover_signer-sign_tx}
use op_rbuilder.BuilderTxs.{BuilderTransactionCtx}
use op_rbuilder.BuilderTxs.Base.{Calls, success, simulate_builder_tx}
use op_rbuilder.BuilderTxs.Signed.{ReadsSigned}
use op_rbuilder.BuilderTxs.Number.{FlashblocksNumberBuilderTx, simulate_number}
use op_rbuilder.BuilderTxs.Placed.{Ends, simulate_number-Placed}
use op_rbuilder.Flashtestations.{Hashes, FlashtestationsBuilderTx, simulate_flashtestations}
use op_rbuilder.Flashblocks.Batches.{FlashblocksExtraCtx}
use op_rbuilder.Scenarios.{evm, tx, empty_info}
use op_rbuilder.Scenarios.Blocks.{seal_ctx}

abbrev head_or_zero : Bytes → ℕ
head_or_zero [] = 0
head_or_zero (b ∷ bs) = b

abbrev first : Bytes → Option ℕ
first [] = none
first (b ∷ bs) = some b

abbrev copies : ℕ → ℕ → Bytes
copies ℕ.zero b = []
copies (ℕ.suc n) b = let rest = copies n b in b ∷ rest

abbrev rest_of : Bytes → Bytes
rest_of [] = []
rest_of (b ∷ bs) = bs

head-copies :
    (n b m : ℕ) (front last : Bytes)
    → copies n b ≡ front ++ last
    → length last ≡ m + 1
    → head_or_zero last ≡ b
head-copies ℕ.zero b m [] [] e h = absurd (omega arith)
head-copies ℕ.zero b m [] (x ∷ last) e h = absurd (omega (arith, ap length e))
head-copies ℕ.zero b m (x ∷ front) last e h = absurd (omega (arith, ap length e))
head-copies (ℕ.suc n) b m [] last e h = sym (ap head_or_zero e)
head-copies (ℕ.suc n) b m (x ∷ front) last e h = head-copies n b m front last (ap rest_of e) h

-- A key is a number, its public key the next one; a signature is the key.
abbrev pub crypto : Crypto
crypto = record {
  SecretKey = ℕ;
  PublicKey = ℕ;
  secret_from_slice = first;
  public_key = λ key. key + 1;
  serialize_uncompressed = λ key. 4 ∷ copies 64 key;
  keccak256 = λ bytes. copies 32 (head_or_zero bytes);
  address_from_slice = head_or_zero;
  digest_from_slice = λ h. some h;
  sign_ecdsa_recoverable = λ digest key. (1, key ∷ []);
  from_be_slice = head_or_zero;
  signature_hash = λ t. 9;
}

abbrev recovery : Recovery crypto
recovery = record {
  recover = λ digest s. some (s.r + 1);
  recover_sign = λ digest key small. refl;
  address_of = λ key. key;
  length-serialize = λ key. refl;
  length-keccak256 = λ bytes long. refl;
  address_of-last = λ key head point front last e h long. sym (
      head-copies 32 (head_or_zero point) 19 front last h long
      ∙ sym (ap (λ l. head_or_zero (rest_of l)) e));
}

abbrev pub signer : Signer crypto
signer = record { address = 8; pubkey = 8; secret = 7 }

abbrev message : OpTypedTransaction
message = eip1559 (record {
  chain_id = 10;
  nonce = 0;
  gas_limit = 21000;
  max_fee_per_gas = 10;
  max_priority_fee_per_gas = 0;
  to = 0;
  input = 66 ∷ [];
})

abbrev signed : SignedTx crypto
signed = record {
  tx = message;
  signature = record { r = 7; s = 0; odd_y_parity = true };
  signer = 8;
}

made : try_from_secret crypto (7 ∷ []) ≡ ok signer
unfolding try_from_secret public_key_to_address
made = refl

signs : sign_tx crypto signer message ≡ ok signed
unfolding sign_tx sign_message hash_to_sign
signs = refl

recover_signer-sign_tx_example :
    (signed.tx ≡ message)
    × (signed.signer ≡ signer.address)
    × (recover_signer crypto recovery signed ≡ some signed.signer)
recover_signer-sign_tx_example =
    recover_signer-sign_tx crypto recovery (7 ∷ []) signer message signed tt made signs
      (λ digest e. omega arith)

abbrev read : ℕ → OpTypedTransaction → Tx
read by (eip1559 t) = tx by t.nonce t.gas_limit
read by (legacy bytes) = tx by 0 0
read by (eip2930 bytes) = tx by 0 0
read by (eip7702 bytes) = tx by 0 0
read by (deposit bytes) = tx by 0 0

-- Each call succeeds with 30000 of gas; the registry knows no key.
abbrev pub calls : Calls evm
calls = record {
  crypto = crypto;
  tx_of = λ t. read t.signer t.tx;
  is_convertible = λ r. true;
  transact_call = λ cfg db r. ok (success (5 ∷ []) 30000 (21 ∷ 22 ∷ 23 ∷ []), 1);
  abi_encode = λ call. 1 ∷ [];
  decode_unit = λ bytes. some tt;
  decode_word = first;
  decode_bool = λ bytes. some false;
  block_number_message = λ n. 66 ∷ n ∷ [];
  flashblock_incremented = 21;
  tee_service_registered = 22;
  block_builder_proof_verified = 23;
}

pub reader : ReadsSigned calls
reader = record { reads = λ s t e. rw e (refl, refl, refl) }

abbrev pub hashes : Hashes
hashes = record { hash_tx = λ t. t.tx_hash; hash_block_data = λ d. d.block_number }

abbrev flashtestations : FlashtestationsBuilderTx calls hashes seal_ctx
flashtestations = record {
  attestation = 1 ∷ [];
  extra_registration_data = [];
  tee_service_signer = signer;
  registry_address = 31;
  builder_policy_address = 32;
  builder_proof_version = 1;
  enable_block_proofs = true;
  builder_signer = signer;
}

abbrev number : FlashblocksNumberBuilderTx calls hashes seal_ctx
number = record {
  signer = signer;
  flashblock_number_address = 33;
  use_permit = true;
  flashtestations_builder_tx = some flashtestations;
}

-- The last of four flashblocks
abbrev extra : FlashblocksExtraCtx
extra = record {
  flashblock_index = 4;
  target_flashblock_count = 4;
  target_gas_for_batch = 1000000;
  target_da_for_batch = none;
  target_da_footprint_for_batch = none;
  gas_per_batch = 250000;
  da_per_batch = none;
  da_footprint_per_batch = none;
  disable_state_root = false;
}

-- A call of a contract, signed, at the top of the block or at its end
abbrev contract_call : Bool → BuilderTransactionCtx
contract_call top = record {
  gas_used = 30000;
  da_size = 100;
  signed_tx = tx 8 0 30476;
  is_top_of_block = top;
}

numbering :
    simulate_number calls hashes seal_ctx number extra 0 empty_info 0 false true
    ≡ (ok (contract_call true ∷ contract_call false ∷ contract_call false ∷ []), false)
unfolding simulate_number op_rbuilder.BuilderTxs.Makers.is_first_flashblock
    op_rbuilder.BuilderTxs.Base.call_request op_rbuilder.BuilderTxs.Base.simulate_call sign_message
    op_rbuilder.BuilderTxs.Base.sign_call sign_tx op_rbuilder.BuilderTxs.Makers.is_last_flashblock
    op_rbuilder.BuilderTxs.Makers.add_flashtestations op_rbuilder.BuilderTxs.commit_txs
    simulate_flashtestations
numbering = refl

simulate_number-Placed_example :
    Ends calls hashes seal_ctx reader number extra 0 [] 0 true false
      (simulate_number calls hashes seal_ctx number extra 0 empty_info 0 false true)
simulate_number-Placed_example =
    simulate_number-Placed calls hashes seal_ctx reader number extra 0 0 empty_info true false
