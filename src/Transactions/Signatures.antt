-- ===== src/Transactions/Signatures.antt =====
-- A signed transaction gives back the chain id and the signer.
use py_evm.Prelude.{
  ℕ, ◌+◌, ◌*◌, ◌≤◌, ◌≡◌, refl, ap, ◌∙◌, ◌↔◌, ◌⊎◌, inl, inr, true, false, Option, none, some, [],
  ◌∷◌, ◌++◌, arith, leb, if◌then◌else◌, Option-cases,
}
use mathlib.Core.Option
use py_evm.Prelude.Int.{ℤ, pos, sub_ℕ}
use py_evm.Prelude.Exec.{ok}
use py_evm.Numeric.{Bytes, int_to_big_endian}
use py_evm.Transactions.{
  Crypto, UnsignedTransaction, Transaction, given, unsigned_parts, as_signed_transaction,
  get_message_for_signing, validate_transaction_signature, extract_transaction_sender, chain_id,
  create_transaction_signature, is_even, Transaction, v_min, v_max, extract_chain_id,
  extract_signature_v, is_eip_155_signed_transaction,
}

-- A `v` is in the range from `v_min` up to `v_max` of its transaction just if it is 27, 28 or at
-- least 35.
pub v_range :
    (t : Transaction)
    → ((v_min t ≤ t.v) × (t.v ≤ v_max t)) ↔ ((t.v ≡ 27) ⊎ ((t.v ≡ 28) ⊎ (35 ≤ t.v)))
unfolding v_min v_max is_eip_155_signed_transaction extract_chain_id
v_range t = ground arith

signed_v :
    (canonical_v id : ℕ)
    → canonical_v ≤ 1
    → (leb 35 (canonical_v + id * 2 + 35) ≡ true)
      × (extract_chain_id (canonical_v + id * 2 + 35) ≡ pos id)
      × (extract_signature_v (canonical_v + id * 2 + 35) ≡ canonical_v + 27)
unfolding extract_chain_id extract_signature_v
signed_v canonical_v id h = (ground arith, ground arith, ground arith)

module _ {Key Public : Type 0} (lib : Crypto Key Public) where
  -- What `eth_keys` documents: a private key has a public key, the `v` of a signature is 0 or 1,
  -- and the public key is recovered from a signature and verifies it.
  pub record Signs : Type 0 where
    pub public_key : Key → Public
    pub canonical : (k : Key) (m : Bytes) → (lib.sign_msg k m).0 ≤ 1
    pub recovers :
        (k : Key) (m : Bytes)
        → let (v, r, s) = lib.sign_msg k m in
          lib.recover_public_key_from_msg (pos v, r, s) m ≡ some (public_key k)
    pub verifies :
        (k : Key) (m : Bytes)
        → let (v, r, s) = lib.sign_msg k m in lib.verify_msg (pos v, r, s) m (public_key k) ≡ true

  -- The signature of a message, and the transaction with it and `v`.
  abbrev with_v : UnsignedTransaction → Key → Bytes → ℕ → Transaction
  with_v t k m v = record {
    unsigned = t;
    v = v;
    r = (lib.sign_msg k m).1;
    s = (lib.sign_msg k m).2;
  }

  abbrev chain_message : UnsignedTransaction → ℕ → Bytes
  chain_message t n = lib.encode (unsigned_parts lib t ++ int_to_big_endian n ∷ [] ∷ [] ∷ [])

  -- What the getters say of a transaction that `private_key` signed.
  pub record IsSigned (signs : Signs) (private_key : Key) (id : Option ℤ) (t : Transaction)
      : Type 0 where
    pub sender :
        extract_transaction_sender lib t
        ≡ some (lib.to_canonical_address (signs.public_key private_key))
    pub valid : validate_transaction_signature lib t ≡ ok tt
    pub chain : chain_id t ≡ id

  back : (n : ℕ) → sub_ℕ (n + 27) 27 ≡ pos n
  back n = ground arith

  -- It is enough that the getters find the message and the `v` that were signed.
  IsSigned-with_v :
      (signs : Signs) (k : Key) (id : Option ℤ) (u : UnsignedTransaction) (m : Bytes) (v : ℕ)
      → get_message_for_signing lib (with_v u k m v) ≡ m
      → (if leb 35 v then extract_signature_v v else v) ≡ (lib.sign_msg k m).0 + 27
      → chain_id (with_v u k m v) ≡ id
      → IsSigned signs k id (with_v u k m v)
  unfolding extract_transaction_sender validate_transaction_signature is_eip_155_signed_transaction
      extract_signature_v
  IsSigned-with_v signs k id u m v found same chain = record {
    sender =
        let e : sub_ℕ (if leb 35 v then (if is_even v then 28 else 27) else v) 27
            ≡ pos (lib.sign_msg k m).0 =
          ap (λ n. sub_ℕ n 27) same ∙ back (lib.sign_msg k m).0 in
        rw (e, found, signs.recovers k m, extract_transaction_sender) refl;
    valid =
        let e : sub_ℕ (if leb 35 v then (if is_even v then 28 else 27) else v) 27
            ≡ pos (lib.sign_msg k m).0 =
          ap (λ n. sub_ℕ n 27) same ∙ back (lib.sign_msg k m).0 in
        rw
          (
            e,
            found,
            signs.recovers k m,
            e,
            found,
            signs.verifies k m,
            validate_transaction_signature,
          )
          refl;
    chain = chain;
  }

  without_chain :
      (u : UnsignedTransaction) (k : Key) (m : Bytes) (v : ℕ)
      → leb 35 v ≡ false
      → (get_message_for_signing lib (with_v u k m v) ≡ lib.encode (unsigned_parts lib u))
        × (chain_id (with_v u k m v) ≡ none)
  unfolding get_message_for_signing chain_id is_eip_155_signed_transaction
  without_chain u k m v h = (rw h refl, rw h refl)

  with_chain :
      (u : UnsignedTransaction) (k : Key) (m : Bytes) (v n : ℕ)
      → leb 35 v ≡ true
      → extract_chain_id v ≡ pos n
      → (get_message_for_signing lib (with_v u k m v) ≡ chain_message u n)
        × (chain_id (with_v u k m v) ≡ some (pos n))
  unfolding get_message_for_signing chain_id is_eip_155_signed_transaction
  with_chain u k m v n h e = (rw (h, e, get_message_for_signing) refl, rw (h, e, chain_id) refl)

  as_signed_transaction-none :
      (u : UnsignedTransaction) (k : Key) (id : Option ℕ)
      → given id ≡ none
      → let m = lib.encode (unsigned_parts lib u) in
        as_signed_transaction lib u k id ≡ with_v u k m ((lib.sign_msg k m).0 + 27)
  unfolding as_signed_transaction create_transaction_signature
  as_signed_transaction-none u k id h =
      rw (h, as_signed_transaction, create_transaction_signature) refl

  as_signed_transaction-some :
      (u : UnsignedTransaction) (k : Key) (id : Option ℕ) (n : ℕ)
      → given id ≡ some n
      → let m = chain_message u n in
        as_signed_transaction lib u k id ≡ with_v u k m ((lib.sign_msg k m).0 + n * 2 + 35)
  unfolding as_signed_transaction create_transaction_signature
  as_signed_transaction-some u k id n h =
      rw (h, as_signed_transaction, create_transaction_signature) refl

  -- A transaction that a private key signed, with or without a chain id: the sender that is
  -- extracted is the address of the key's public key, the signature is valid, and the chain id is the
  -- one that was signed for, or none if that was `None` or 0.
  pub as_signed_transaction_lem :
      (signs : Signs) (u : UnsignedTransaction) (k : Key) (id : Option ℕ)
      → IsSigned signs k (Option.map pos (given id)) (as_signed_transaction lib u k id)
  as_signed_transaction_lem signs u k id = elim (Option-cases (given id)) [
    | inl missing ↦
        let m = lib.encode (unsigned_parts lib u) in
        let small = signs.canonical k m in
        let v = (lib.sign_msg k m).0 + 27 in
        let below : leb 35 v ≡ false = ground arith in
        let (found, chain) = without_chain u k m v below in
        rw (missing, as_signed_transaction-none u k id missing)
          (IsSigned-with_v signs k none u m v found (rw below refl) chain)
    | inr (n, there) ↦
        let m = chain_message u n in
        let v = (lib.sign_msg k m).0 + n * 2 + 35 in
        let (above, same_id, same_v) = signed_v (lib.sign_msg k m).0 n (signs.canonical k m) in
        let (found, chain) = with_chain u k m v n above same_id in
        rw (there, as_signed_transaction-some u k id n there)
          (IsSigned-with_v signs k (some (pos n)) u m v found (rw above same_v) chain)
  ]
