-- ===== src/Vm/Precompiles.antt =====
-- evm/precompiles: the contracts at the first addresses, which run instead of code, and
-- FRONTIER_PRECOMPILES of evm/vm/forks/frontier/computation.py.
pub mod ModExp
use py_evm.Numeric.{bytes_eq, Bytes, ceil32, rjust, ljust, slice, big_endian_to_int}
use py_evm.Prelude.{
  ℕ, ◌+◌, ◌-◌, ◌*◌, ◌/◌, ◌&&◌, Option, none, some, [], ◌∷◌, length, take, ltb, leb, if◌then◌else◌,
}
use py_evm.Prelude.Exec.{gets, pure, ◌>>=◌, ◌>>◌}
use py_evm.Constants.{
  gas_sha256, gas_sha256word, gas_ripemd160, gas_ripemd160word, gas_identity, gas_identityword,
  gas_ecrecover, secpk1_n,
}
use py_evm.Vm.Message.{force_bytes_to_address}
use py_evm.Vm.Computation.{Action, consume_gas, set_output}
use py_evm.Vm.Run.{Precompiles}

-- What the contracts take from libraries: the hash functions of `hashlib`, and of `eth_keys` the
-- recovery of a public key, which fails on a bad signature, and its address.
pub record Cryptography (Public : Type 0) : Type 0 where
  pub sha256 : Bytes → Bytes
  pub ripemd160 : Bytes → Bytes
  pub recover_public_key_from_msg_hash : ℕ × ℕ × ℕ → Bytes → Option Public
  pub to_canonical_address : Public → Bytes

-- The fee of a contract that is paid by the word of its input.
unfoldable pub word_fee : ℕ → ℕ → Bytes → ℕ
word_fee base per_word input = base + ceil32 (length input) / 32 * per_word

-- The signature in the input: `canonical_v`, `r` and `s`, if they are in range.
unfoldable pub signature_of : Bytes → Option (ℕ × ℕ × ℕ)
signature_of input =
    let v = big_endian_to_int (ljust 32 (slice 32 32 input)) in
    let r = big_endian_to_int (ljust 32 (slice 64 32 input)) in
    let s = big_endian_to_int (ljust 32 (slice 96 32 input)) in
    if ltb r secpk1_n && ltb s secpk1_n && leb v 28 && leb 27 v then some (v - 27, r, s) else none

module _ {W : Type 0} where
  unfoldable pub identity : Action W Unit
  unfolding word_fee
  identity = do
    input ← gets (λ c. c.msg.contents)
    consume_gas (word_fee gas_identity gas_identityword input)
    set_output input

-- The address that signed, if there is one.
unfoldable pub recover : {Public : Type 0} → Cryptography Public → Bytes → Option Bytes
unfolding signature_of
recover lib input = elim (signature_of input) [
  | none ↦ none
  | some vrs ↦ elim (lib.recover_public_key_from_msg_hash vrs (ljust 32 (take 32 input))) [
    | none ↦ none
    | some public_key ↦ some (lib.to_canonical_address public_key)
  ]
]

module _ {W Public : Type 0} (lib : Cryptography Public) where
  unfoldable pub sha256 : Action W Unit
  unfolding word_fee
  sha256 = do
    input ← gets (λ c. c.msg.contents)
    consume_gas (word_fee gas_sha256 gas_sha256word input)
    set_output (lib.sha256 input)

  unfoldable pub ripemd160 : Action W Unit
  unfolding word_fee
  ripemd160 = do
    input ← gets (λ c. c.msg.contents)
    consume_gas (word_fee gas_ripemd160 gas_ripemd160word input)
    set_output (rjust 32 (lib.ripemd160 input))

  unfoldable pub ecrecover : Action W Unit
  unfolding recover
  ecrecover = do
    consume_gas gas_ecrecover
    input ← gets (λ c. c.msg.contents)
    elim (recover lib input) [ none ↦ pure tt | some found ↦ set_output (rjust 32 found) ]

  -- FRONTIER_PRECOMPILES
  unfoldable pub frontier_precompiles : Precompiles W
  unfolding ecrecover sha256 ripemd160
  frontier_precompiles address =
      if bytes_eq address (force_bytes_to_address (1 ∷ []))
      then some ecrecover
      else if bytes_eq address (force_bytes_to_address (2 ∷ []))
      then some sha256
      else if bytes_eq address (force_bytes_to_address (3 ∷ []))
      then some ripemd160
      else if bytes_eq address (force_bytes_to_address (4 ∷ []))
      then some identity
      else none
