-- ===== src/Numeric.antt =====
-- evm/utils/numeric.py, evm/utils/padding.py and the bytes of a number. A byte string is the list
-- of its bytes; Python's `int` is ℕ where the code has no negative value, else ℤ.
pub mod Ceil
pub mod Endian
pub mod Equal
pub mod Signed
use py_evm.Prelude.{
  Bool, true, false, ◌&&◌, ℕ, zero, suc, ◌+◌, ◌-◌, ◌*◌, ◌/◌, ◌%◌, List, [], ◌∷◌, ◌++◌, length,
  replicate, drop, take, leb, ◌==◌, if◌then◌else◌,
}
use py_evm.Prelude.Int.{ℤ, pos, negsuc, sub_ℕ}
use py_evm.Constants.{uint_256_ceiling, uint_255_max}

abbrev pub Bytes : Type 0
Bytes = List ℕ

-- `ceilXX`
unfoldable pub ceil_xx : ℕ → ℕ → ℕ
ceil_xx value ceiling =
    let remainder = value % ceiling in if remainder == 0 then value else value + ceiling - remainder

unfoldable pub ceil32 : ℕ → ℕ
unfolding ceil_xx
ceil32 value = ceil_xx value 32

unfoldable pub ceil8 : ℕ → ℕ
unfolding ceil_xx
ceil8 value = ceil_xx value 8

-- `int.bit_length`: the halvings that bring a number to 0; as much fuel as the number is enough.
bit_length_from : ℕ → ℕ → ℕ
bit_length_from zero value = 0
bit_length_from (suc fuel) value =
    let rest = bit_length_from fuel (value / 2) in if value == 0 then 0 else rest + 1

unfoldable pub bit_length : ℕ → ℕ
unfolding bit_length_from
bit_length value = bit_length_from value value

-- `int.to_bytes(count, 'big')`: the low `count` bytes, the highest first.
unfoldable pub to_bytes : ℕ → ℕ → Bytes
to_bytes zero value = []
to_bytes (suc count) value = to_bytes count (value / 256) ++ value % 256 ∷ []

-- `math.ceil(value.bit_length() / 8)`
unfoldable pub byte_length : ℕ → ℕ
unfolding bit_length
byte_length value = (bit_length value + 7) / 8

unfoldable pub int_to_big_endian : ℕ → Bytes
unfolding to_bytes byte_length
int_to_big_endian value = to_bytes (byte_length value) value

big_endian_from : ℕ → Bytes → ℕ
big_endian_from acc [] = acc
big_endian_from acc (b ∷ bs) = big_endian_from (acc * 256 + b) bs

-- `int.from_bytes(value, 'big')`
unfoldable pub big_endian_to_int : Bytes → ℕ
unfolding big_endian_from
big_endian_to_int value = big_endian_from 0 value

unfoldable pub unsigned_to_signed : ℕ → ℤ
unsigned_to_signed value =
    if leb value uint_255_max then pos value else sub_ℕ value uint_256_ceiling

-- Of a value below 0, as much as 2 ** 256 below at most, the result is not negative.
unfoldable pub signed_to_unsigned : ℤ → ℕ
signed_to_unsigned (pos value) = value
signed_to_unsigned (negsuc n) = uint_256_ceiling - suc n

-- `bytes.rjust(size, b'\x00')`
abbrev pub rjust : ℕ → Bytes → Bytes
rjust size value = replicate (size - length value) 0 ++ value

-- `bytes.ljust(size, b'\x00')`
abbrev pub ljust : ℕ → Bytes → Bytes
ljust size value = value ++ replicate (size - length value) 0

-- `value[-size:]`
abbrev pub last_bytes : ℕ → Bytes → Bytes
last_bytes size value = drop (length value - size) value

-- `value[start:start + size]`
abbrev pub slice : ℕ → ℕ → Bytes → Bytes
slice start size value = take size (drop start value)

-- `value.lstrip(b'\x00')`
abbrev pub lstrip : Bytes → Bytes
lstrip [] = []
lstrip (b ∷ bs) = if b == 0 then lstrip bs else b ∷ bs

-- Equal byte strings.
abbrev pub bytes_eq : Bytes → Bytes → Bool
bytes_eq [] [] = true
bytes_eq [] (b ∷ bs) = false
bytes_eq (a ∷ as') [] = false
bytes_eq (a ∷ as') (b ∷ bs) = a == b && bytes_eq as' bs
