-- ===== src/Vm/Message.antt =====
-- evm/vm/message.py: `class Message`. An address is its 20 bytes.
use py_evm.Prelude.{
  ◌≡◌, ◌<◌, All, ℕ, Bool, true, false, ◌&&◌, ◌||◌, Option, none, some, [], ◌∷◌, length, leb, ◌==◌,
  if◌then◌else◌,
}
use py_evm.Prelude.Exec.{Result, ok, err}
use py_evm.Constants.{uint_256_max}
use py_evm.Exceptions.{Exception, validation_error}
use py_evm.Numeric.{Bytes, rjust, last_bytes}

abbrev pub Address : Type 0
Address = Bytes

-- The constant CREATE_CONTRACT_ADDRESS, and the test for it.
abbrev pub create_contract_address : Address
create_contract_address = []

abbrev pub is_create_address : Address → Bool
is_create_address [] = true
is_create_address (_ ∷ _) = false

pub record Message : Type 0 where
  pub gas : ℕ
  pub to : Address
  pub sender : Address
  pub value : ℕ
  pub contents : Bytes
  pub code : Bytes
  pub depth : ℕ
  pub create_address : Option Address
  pub given_code_address : Option Address
  pub should_transfer_value : Bool
  pub is_static : Bool

or_else : Option Address → Address → Address
or_else none default = default
or_else (some address) default = address

unfoldable pub code_address : Message → Address
unfolding or_else
code_address m = or_else m.given_code_address m.to

unfoldable pub storage_address : Message → Address
unfolding or_else
storage_address m = or_else m.create_address m.to

unfoldable pub is_create : Message → Bool
is_create m = is_create_address m.to

-- evm/validation.py: `validate_canonical_address` of a byte string.
abbrev pub is_canonical : Address → Bool
is_canonical address = length address == 20

-- The addresses of the program: 20 bytes.
abbrev pub IsAddress : Address → Type 0
IsAddress address = (is_canonical address ≡ true) × All (λ b. b < 256) address

abbrev pub is_canonical_or_none : Option Address → Bool
is_canonical_or_none none = true
is_canonical_or_none (some address) = is_canonical address

-- `Message.__init__`: the checks on its arguments. The others are on Python types.
unfoldable pub build : Message → Result Exception Message
build m =
    if leb m.gas uint_256_max
      && (is_create_address m.to || is_canonical m.to)
      && is_canonical m.sender
      && leb m.value uint_256_max
      && is_canonical_or_none m.create_address
      && is_canonical_or_none m.given_code_address
    then ok m
    else err validation_error

-- evm/utils/address.py
abbrev pub force_bytes_to_address : Bytes → Address
force_bytes_to_address value = rjust 20 (last_bytes 20 value)
