-- ===== src/Vm/Logic/Words.antt =====
-- The arithmetic of the opcodes of evm/vm/logic/arithmetic.py and comparison.py, on words: the code
-- between a pop and a push. `& UINT_256_MAX` keeps the remainder by 2 ** 256.
pub mod Laws
use Prim.Native.Nat.{bit_and, bit_or, bit_xor}
use py_evm.Prelude.{ℕ, zero, suc, ◌+◌, ◌-◌, ◌*◌, ◌/◌, ◌%◌, ◌^◌, Bool, ltb, leb, ◌==◌, if◌then◌else◌}
use py_evm.Prelude.Int.{ℤ, pos, negsuc, pos_part, neg_part, ltb_ℤ}
use py_evm.Constants.{uint_256_max, uint_256_ceiling}
use py_evm.Numeric.{unsigned_to_signed, signed_to_unsigned, bit_length, ceil8}

unfoldable pub add_word : ℕ → ℕ → ℕ
add_word left right = (left + right) % uint_256_ceiling

unfoldable pub addmod_word : ℕ → ℕ → ℕ → ℕ
addmod_word left right modulus = if modulus == 0 then 0 else (left + right) % modulus

-- Python's `-` is negative where `right` is larger; the mask then adds 2 ** 256.
unfoldable pub sub_word : ℕ → ℕ → ℕ
sub_word left right = (left + uint_256_ceiling - right) % uint_256_ceiling

unfoldable pub mod_word : ℕ → ℕ → ℕ
mod_word value modulus = if modulus == 0 then 0 else value % modulus

unfoldable pub mul_word : ℕ → ℕ → ℕ
mul_word left right = (left * right) % uint_256_ceiling

unfoldable pub mulmod_word : ℕ → ℕ → ℕ → ℕ
mulmod_word left right modulus = if modulus == 0 then 0 else (left * right) % modulus

unfoldable pub div_word : ℕ → ℕ → ℕ
div_word numerator denominator =
    if denominator == 0 then 0 else (numerator / denominator) % uint_256_ceiling

abbrev pub abs : ℤ → ℕ
abs z = pos_part z + neg_part z

abbrev pub is_negative : ℤ → Bool
is_negative z = ltb_ℤ z (pos 0)

-- `-1 * n`
abbrev pub negate : ℕ → ℤ
negate zero = pos 0
negate (suc n) = negsuc n

-- `result & UINT_256_MAX` of an integer.
abbrev pub mask : ℤ → ℕ
mask (pos n) = n % uint_256_ceiling
mask (negsuc n) = (uint_256_ceiling - suc n % uint_256_ceiling) % uint_256_ceiling

unfoldable pub smod_signed : ℤ → ℤ → ℕ
smod_signed value modulus =
    if abs modulus == 0
    then 0
    else mask (
        if is_negative value
        then negate (abs value % abs modulus)
        else pos (abs value % abs modulus))

unfoldable pub smod_word : ℕ → ℕ → ℕ
unfolding unsigned_to_signed signed_to_unsigned smod_signed
smod_word value modulus =
    signed_to_unsigned (pos (smod_signed (unsigned_to_signed value) (unsigned_to_signed modulus)))

-- `numerator * denominator < 0`
abbrev pub opposite_signs : ℤ → ℤ → Bool
opposite_signs a b = ltb 0 (pos_part a * neg_part b + neg_part a * pos_part b)

unfoldable pub sdiv_signed : ℤ → ℤ → ℤ
sdiv_signed numerator denominator =
    if abs denominator == 0
    then pos 0
    else if opposite_signs numerator denominator
    then negate (abs numerator / abs denominator)
    else pos (abs numerator / abs denominator)

unfoldable pub sdiv_word : ℕ → ℕ → ℕ
unfolding unsigned_to_signed signed_to_unsigned sdiv_signed
sdiv_word numerator denominator =
    signed_to_unsigned (sdiv_signed (unsigned_to_signed numerator) (unsigned_to_signed denominator))

-- `pow(base, exponent, UINT_256_CEILING)`
unfoldable pub exp_word : ℕ → ℕ → ℕ
exp_word base exponent = if base == 0 then 0 else base ^ exponent % uint_256_ceiling

-- The bytes of the exponent that EXP charges for.
unfoldable pub exp_byte_size : ℕ → ℕ
unfolding ceil8 bit_length
exp_byte_size exponent = ceil8 (bit_length exponent) / 8

unfoldable pub signextend_word : ℕ → ℕ → ℕ
signextend_word bits value =
    let sign_bit = 2 ^ (bits * 8 + 7) in
    if leb bits 31
    then if bit_and value sign_bit == 0
      then bit_and value (sign_bit - 1)
      else bit_or value (uint_256_ceiling - sign_bit)
    else value

abbrev pub flag : Bool → ℕ
flag b = if b then 1 else 0

unfoldable pub lt_word : ℕ → ℕ → ℕ
lt_word left right = flag (ltb left right)

unfoldable pub gt_word : ℕ → ℕ → ℕ
gt_word left right = flag (ltb right left)

unfoldable pub slt_word : ℕ → ℕ → ℕ
unfolding unsigned_to_signed
slt_word left right = flag (ltb_ℤ (unsigned_to_signed left) (unsigned_to_signed right))

unfoldable pub sgt_word : ℕ → ℕ → ℕ
unfolding unsigned_to_signed
sgt_word left right = flag (ltb_ℤ (unsigned_to_signed right) (unsigned_to_signed left))

unfoldable pub eq_word : ℕ → ℕ → ℕ
eq_word left right = flag (left == right)

unfoldable pub iszero_word : ℕ → ℕ
iszero_word value = flag (value == 0)

unfoldable pub and_word : ℕ → ℕ → ℕ
and_word left right = bit_and left right

unfoldable pub or_word : ℕ → ℕ → ℕ
or_word left right = bit_or left right

unfoldable pub xor_word : ℕ → ℕ → ℕ
xor_word left right = bit_xor left right

unfoldable pub not_word : ℕ → ℕ
not_word value = uint_256_max - value

unfoldable pub byte_word : ℕ → ℕ → ℕ
byte_word position value = if leb 32 position then 0 else (value / 256 ^ (31 - position)) % 256
