-- ===== src/Vm/Precompiles/ModExp.antt =====
-- evm/precompiles/modexp.py
use py_evm.Prelude.{
  ℕ, ◌+◌, ◌-◌, ◌*◌, ◌/◌, ◌%◌, ◌^◌, min, max, ◌&&◌, ◌||◌, length, take, leb, ◌==◌, if◌then◌else◌,
}
use py_evm.Prelude.Exec.{gets, ◌>>=◌, ◌>>◌}
use py_evm.Constants.{gas_mod_exp_quadratic_denominator}
use py_evm.Numeric.{Bytes, rjust, ljust, slice, big_endian_to_int, int_to_big_endian, bit_length}
use py_evm.Vm.Computation.{Action, consume_gas, set_output}

-- `get_highest_bit_index` of evm/utils/numeric.py
unfoldable pub get_highest_bit_index : ℕ → ℕ
get_highest_bit_index value = bit_length (value / 2)

-- `_compute_adjusted_exponent_length`
unfoldable pub compute_adjusted_exponent_length : ℕ → Bytes → ℕ
unfolding get_highest_bit_index
compute_adjusted_exponent_length exponent_length first_32_exponent_bytes =
    let exponent = big_endian_to_int first_32_exponent_bytes in
    if leb exponent_length 32 && (exponent == 0)
    then 0
    else if leb exponent_length 32
    then get_highest_bit_index exponent
    else 8 * (exponent_length - 32) + get_highest_bit_index exponent

-- `_compute_complexity`
unfoldable pub compute_complexity : ℕ → ℕ
compute_complexity length =
    if leb length 64
    then length ^ 2
    else if leb length 1024
    then length ^ 2 / 4 + 96 * length - 3072
    else 2 ^ 2 / 16 + 480 * length - 199680

-- `_extract_lengths`: of the base, the exponent and the modulus.
unfoldable pub extract_lengths : Bytes → ℕ × ℕ × ℕ
extract_lengths input = (
  big_endian_to_int (ljust 32 (take 32 input)),
  big_endian_to_int (ljust 32 (slice 32 32 input)),
  big_endian_to_int (ljust 32 (slice 64 32 input)),
)

-- `_compute_modexp_gas_fee`
unfoldable pub compute_modexp_gas_fee : Bytes → ℕ
unfolding extract_lengths compute_adjusted_exponent_length compute_complexity
compute_modexp_gas_fee input =
    let (base_length, exponent_length, modulus_length) = extract_lengths input in
    let first_32_exponent_bytes =
      take 32 (ljust (min exponent_length 32) (slice (96 + base_length) exponent_length input)) in
    let adjusted_exponent_length =
      compute_adjusted_exponent_length exponent_length first_32_exponent_bytes in
    let complexity = compute_complexity (max modulus_length base_length) in
    complexity * max adjusted_exponent_length 1 / gas_mod_exp_quadratic_denominator

-- `_modexp`
unfoldable pub modexp_value : Bytes → ℕ
unfolding extract_lengths
modexp_value input =
    let (base_length, exponent_length, modulus_length) = extract_lengths input in
    let base_end_idx = 96 + base_length in
    let exponent_end_idx = base_end_idx + exponent_length in
    let modulus =
      big_endian_to_int (ljust modulus_length (slice exponent_end_idx modulus_length input)) in
    let base = big_endian_to_int (ljust base_length (slice 96 base_length input)) in
    let exponent =
      big_endian_to_int (ljust exponent_length (slice base_end_idx exponent_length input)) in
    if (base_length == 0) || (modulus_length == 0) || (modulus == 0)
    then 0
    else base ^ exponent % modulus

module _ {W : Type 0} where
  unfoldable pub modexp : Action W Unit
  unfolding compute_modexp_gas_fee modexp_value
  modexp = do
    input ← gets (λ c. c.msg.contents)
    consume_gas (compute_modexp_gas_fee input)
    let (base_length, exponent_length, modulus_length) = extract_lengths input
    set_output (rjust modulus_length (int_to_big_endian (modexp_value input)))
