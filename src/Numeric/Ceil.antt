-- ===== src/Numeric/Ceil.antt =====
-- `ceil32` and `ceil8` round up.
use py_evm.Prelude.{ℕ, ◌+◌, ◌%◌, ◌≤◌, ◌<◌, ◌≡◌, arith}
use py_evm.Numeric.{ceil32, ceil8}

-- `ceil32` returns the least multiple of 32 that is not below its argument.
pub ceil32_least :
    (value : ℕ) → (value ≤ ceil32 value) × (ceil32 value < value + 32) × (ceil32 value % 32 ≡ 0)
unfolding ceil32
ceil32_least value = ground arith

pub ceil8_least :
    (value : ℕ) → (value ≤ ceil8 value) × (ceil8 value < value + 8) × (ceil8 value % 8 ≡ 0)
unfolding ceil8
ceil8_least value = ground arith
