-- ===== src/Vm/Memory.antt =====
-- evm/vm/memory.py: `class Memory`.
pub mod Laws
use py_evm.Prelude.{
  ℕ, ◌+◌, ◌-◌, [], ◌∷◌, ◌++◌, length, replicate, set, leb, ltb, ◌==◌, if◌then◌else◌, not,
}
use py_evm.Prelude.Exec.{◌>>=◌, ◌>>◌, Exec, ok, raise_if, modify}
use py_evm.Constants.{uint_256_max}
use py_evm.Exceptions.{Exception, validation_error}
use py_evm.Numeric.{Bytes, ceil32, slice}

-- The field `_bytes`.
pub record Memory : Type 0 where
  pub content : Bytes

abbrev pub empty : Memory
empty = record { content = [] }

abbrev pub Action : Type 0 → Type 0
Action = Exec Exception Memory

-- `Memory.extend`
unfoldable pub extend : ℕ → ℕ → Memory → Memory
extend start_position size m =
    if size == 0
    then m
    else if leb (ceil32 (start_position + size)) (length m.content)
    then m
    else record {
      content = m.content ++ replicate (ceil32 (start_position + size) - length m.content) 0;
    }

-- evm/validation.py: `validate_uint256` of a number that is not negative.
abbrev pub validate_uint256 : {S : Type 0} → ℕ → Exec Exception S Unit
validate_uint256 value = raise_if (ltb uint_256_max value) validation_error

-- `for idx, v in enumerate(value): self._bytes[start_position + idx] = v`
unfoldable pub write_bytes : ℕ → Bytes → Bytes → Bytes
write_bytes position [] content = content
write_bytes position (v ∷ value) content = write_bytes (position + 1) value (set content position v)

-- `Memory.write`. After the last check the content is long enough, so the `if` that would extend it
-- is not taken.
unfoldable pub write : ℕ → ℕ → Bytes → Action Unit
unfolding write_bytes
write start_position size value m =
    if size == 0
    then (ok tt, m)
    else (do
      validate_uint256 start_position
      validate_uint256 size
      raise_if (not (length value == size)) validation_error
      raise_if (ltb (length m.content) (start_position + size)) validation_error
      modify (λ m. record { content = write_bytes start_position value m.content }))
        m

-- `Memory.read`
unfoldable pub read : ℕ → ℕ → Memory → Bytes
read start_position size m = slice start_position size m.content
