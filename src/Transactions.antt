-- ===== src/Transactions.antt =====
-- evm/utils/transactions.py, and the transactions of evm/vm/forks/{frontier,homestead,
-- spurious_dragon}/transactions.py that call it: signatures, senders and intrinsic gas.
pub mod Signatures
use py_evm.Prelude.{
  ℕ, ◌+◌, ◌-◌, ◌*◌, ◌/◌, ◌%◌, Bool, not, Option, none, some, List, [], ◌∷◌, ◌++◌, length, take, leb,
  ◌==◌, if◌then◌else◌,
}
use py_evm.Prelude.Int.{ℤ, pos, negsuc, pos_part, sub_ℕ}
use py_evm.Prelude.Exec.{Result, ok, err}
use py_evm.Exceptions.{Exception, validation_error}
use py_evm.Constants.{gas_tx, gas_txcreate, gas_txdatazero, gas_txdatanonzero}
use py_evm.Numeric.{Bytes, int_to_big_endian}

-- The libraries that the code calls: `rlp` (the encoding of a list of strings, and that of a
-- number) and `eth_keys`. A signature is (v, r, s); `recover_public_key_from_msg` may raise
-- `BadSignature`, which is `none`.
pub record Crypto (Key Public : Type 0) : Type 0 where
  pub encode : List Bytes → Bytes
  pub encode_int : ℕ → Bytes
  pub sign_msg : Key → Bytes → ℕ × ℕ × ℕ
  pub recover_public_key_from_msg : ℤ × ℕ × ℕ → Bytes → Option Public
  pub verify_msg : ℤ × ℕ × ℕ → Bytes → Public → Bool
  pub to_canonical_address : Public → Bytes

pub record UnsignedTransaction : Type 0 where
  pub nonce : ℕ
  pub gas_price : ℕ
  pub gas : ℕ
  pub to : Bytes
  pub value : ℕ
  pub «data» : Bytes

pub record Transaction : Type 0 where
  pub unsigned : UnsignedTransaction
  pub v : ℕ
  pub r : ℕ
  pub s : ℕ

abbrev pub eip155_chain_id_offset : ℕ
eip155_chain_id_offset = 35

abbrev pub v_offset : ℕ
v_offset = 27

-- `n // 2` of a Python integer, which rounds down.
abbrev pub half : ℤ → ℤ
half (pos n) = pos (n / 2)
half (negsuc n) = negsuc (n / 2)

abbrev pub is_even : ℕ → Bool
is_even value = value % 2 == 0

-- `is_eip_155_signed_transaction`
unfoldable pub is_eip_155_signed_transaction : Transaction → Bool
is_eip_155_signed_transaction transaction = leb eip155_chain_id_offset transaction.v

unfoldable pub extract_chain_id : ℕ → ℤ
extract_chain_id v =
    if is_even v
    then half (sub_ℕ v (eip155_chain_id_offset + 1))
    else half (sub_ℕ v eip155_chain_id_offset)

unfoldable pub extract_signature_v : ℕ → ℕ
extract_signature_v v = if is_even v then v_offset + 1 else v_offset

-- `if chain_id`: neither `None` nor 0.
unfoldable pub given : Option ℕ → Option ℕ
given none = none
given (some id) = if id == 0 then none else some id

-- `SpuriousDragonTransaction.chain_id`
unfoldable pub chain_id : Transaction → Option ℤ
unfolding is_eip_155_signed_transaction
chain_id transaction =
    if is_eip_155_signed_transaction transaction
    then some (extract_chain_id transaction.v)
    else none

-- `SpuriousDragonTransaction.v_min` and `v_max`. No chain id is read below the offset, so none is
-- negative.
unfoldable pub v_min : Transaction → ℕ
unfolding is_eip_155_signed_transaction extract_chain_id
v_min transaction =
    if is_eip_155_signed_transaction transaction
    then 35 + 2 * pos_part (extract_chain_id transaction.v)
    else 27

unfoldable pub v_max : Transaction → ℕ
unfolding is_eip_155_signed_transaction extract_chain_id
v_max transaction =
    if is_eip_155_signed_transaction transaction
    then 36 + 2 * pos_part (extract_chain_id transaction.v)
    else 28

abbrev count_zero : Bytes → ℕ
count_zero [] = 0
count_zero (b ∷ bs) = (if b == 0 then 1 else 0) + count_zero bs

-- `_get_frontier_intrinsic_gas`
unfoldable pub get_frontier_intrinsic_gas : Bytes → ℕ
get_frontier_intrinsic_gas transaction_data =
    let num_zero_bytes = count_zero transaction_data in
    let num_non_zero_bytes = length transaction_data - num_zero_bytes in
    gas_tx + num_zero_bytes * gas_txdatazero + num_non_zero_bytes * gas_txdatanonzero

-- `_get_homestead_intrinsic_gas`
unfoldable pub get_homestead_intrinsic_gas : UnsignedTransaction → ℕ
get_homestead_intrinsic_gas transaction =
    let num_zero_bytes = count_zero transaction.«data» in
    let num_non_zero_bytes = length transaction.«data» - num_zero_bytes in
    let create_cost = (if length transaction.to == 0 then gas_txcreate else 0) in
    gas_tx + num_zero_bytes * gas_txdatazero + num_non_zero_bytes * gas_txdatanonzero + create_cost

module _ {Key Public : Type 0} (lib : Crypto Key Public) where
  -- `rlp.decode(rlp.encode(transaction))`: the serialized fields.
  abbrev pub unsigned_parts : UnsignedTransaction → List Bytes
  unsigned_parts t =
      lib.encode_int t.nonce
      ∷ lib.encode_int t.gas_price
      ∷ lib.encode_int t.gas
      ∷ t.to
      ∷ lib.encode_int t.value
      ∷ t.«data»
      ∷ []

  abbrev pub transaction_parts : Transaction → List Bytes
  transaction_parts t =
      unsigned_parts t.unsigned ++ lib.encode_int t.v ∷ lib.encode_int t.r ∷ lib.encode_int t.s ∷ []

  -- `create_transaction_signature`
  unfoldable pub create_transaction_signature : UnsignedTransaction → Key → Option ℕ → ℕ × ℕ × ℕ
  create_transaction_signature unsigned_txn private_key id = elim (given id) [
    | some n ↦
        let message =
          lib.encode (unsigned_parts unsigned_txn ++ int_to_big_endian n ∷ [] ∷ [] ∷ []) in
        let (canonical_v, r, s) = lib.sign_msg private_key message in
        (canonical_v + n * 2 + eip155_chain_id_offset, r, s)
    | none ↦
        let (canonical_v, r, s) =
          lib.sign_msg private_key (lib.encode (unsigned_parts unsigned_txn)) in
        (canonical_v + v_offset, r, s)
  ]

  -- `SpuriousDragonUnsignedTransaction.as_signed_transaction`
  unfoldable pub as_signed_transaction : UnsignedTransaction → Key → Option ℕ → Transaction
  unfolding create_transaction_signature
  as_signed_transaction t private_key id =
      let (v, r, s) = create_transaction_signature t private_key id in
      record { unsigned = t; v = v; r = r; s = s }

  -- `SpuriousDragonTransaction.get_message_for_signing`
  unfoldable pub get_message_for_signing : Transaction → Bytes
  unfolding is_eip_155_signed_transaction
  get_message_for_signing t =
      let parts = transaction_parts t in
      if is_eip_155_signed_transaction t
      then lib.encode (
          take (length parts - 3) parts
          ++ int_to_big_endian (pos_part (extract_chain_id t.v)) ∷ [] ∷ [] ∷ [])
      else lib.encode (unsigned_parts t.unsigned)

  -- `validate_transaction_signature`
  unfoldable pub validate_transaction_signature : Transaction → Result Exception Unit
  validate_transaction_signature t =
      let v = (if is_eip_155_signed_transaction t then extract_signature_v t.v else t.v) in
      let vrs : ℤ × ℕ × ℕ = (sub_ℕ v 27, t.r, t.s) in
      let message = get_message_for_signing t in
      elim (lib.recover_public_key_from_msg vrs message) [
        | none ↦ err validation_error
        | some public_key ↦
            if not (lib.verify_msg vrs message public_key) then err validation_error else ok tt
      ]

  -- `extract_transaction_sender`; `none` is the `BadSignature` of the library.
  unfoldable pub extract_transaction_sender : Transaction → Option Bytes
  extract_transaction_sender t =
      let v = (if is_eip_155_signed_transaction t then (if is_even t.v then 28 else 27) else t.v) in
      let vrs : ℤ × ℕ × ℕ = (sub_ℕ v 27, t.r, t.s) in
      elim (lib.recover_public_key_from_msg vrs (get_message_for_signing t)) [
        | none ↦ none
        | some public_key ↦ some (lib.to_canonical_address public_key)
      ]
