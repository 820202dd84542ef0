-- ===== src/Numeric/Signed.antt =====
-- Two's complement.
use py_evm.Prelude.{ℕ, ◌+◌, ◌≤◌, ◌<◌, ◌≡◌, arith}
use py_evm.Prelude.Int.{ℤ, pos_part, neg_part}
use py_evm.Constants.{uint_256_ceiling, uint_255_max}
use py_evm.Numeric.{unsigned_to_signed, signed_to_unsigned}

-- A word read as a signed number and written back is the same word.
pub signed_to_unsigned-unsigned_to_signed :
    (value : ℕ) → value < uint_256_ceiling → signed_to_unsigned (unsigned_to_signed value) ≡ value
unfolding signed_to_unsigned unsigned_to_signed
signed_to_unsigned-unsigned_to_signed value h = ground arith

-- A signed number of 256 bits, written as a word and read back, is the same number.
pub unsigned_to_signed-signed_to_unsigned :
    (z : ℤ)
    → pos_part z ≤ uint_255_max
    → neg_part z ≤ uint_255_max + 1
    → unsigned_to_signed (signed_to_unsigned z) ≡ z
unfolding signed_to_unsigned unsigned_to_signed
unsigned_to_signed-signed_to_unsigned z h k = ground arith
