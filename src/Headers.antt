-- ===== src/Headers.antt =====
-- evm/utils/headers.py, evm/validation.py (`validate_gas_limit`) and the difficulty rules of
-- evm/vm/forks/{frontier,homestead,byzantium}/headers.py: what a header takes from its parent.
pub mod GasLimit
pub mod Difficulty
use py_evm.Prelude.{ℕ, ◌+◌, ◌-◌, ◌*◌, ◌/◌, ◌^◌, min, max, not, ltb, leb, ◌==◌, if◌then◌else◌}
use py_evm.Prelude.Int.{ℤ, pos, pos_part, sub_ℕ, ◌+ℤ◌, ◌*ℤ◌, max_ℤ, ltb_ℤ, negsuc}
use py_evm.Prelude.Exec.{Result, ok, err}
use py_evm.Numeric.{Bytes}
use py_evm.Vm.Message.{Address}
use py_evm.Exceptions.{Exception, validation_error, value_error}
use py_evm.Constants.{
  gas_limit_ema_denominator, gas_limit_adjustment_factor, gas_limit_minimum, gas_limit_maximum,
  gas_limit_usage_adjustment_numerator, gas_limit_usage_adjustment_denominator,
  difficulty_adjustment_denominator, difficulty_minimum, bomb_exponential_period,
  bomb_exponential_free_periods, empty_uncle_hash,
}

-- The fields of `BlockHeader` that the rules and the databases read; a hash is the number of its bytes.
pub record BlockHeader : Type 0 where
  pub parent_hash : ℕ
  pub difficulty : ℕ
  pub block_number : ℕ
  pub gas_limit : ℕ
  pub gas_used : ℕ
  pub timestamp : ℕ
  pub uncles_hash : ℕ
  pub transaction_root : ℕ
  pub state_root : ℕ
  pub coinbase : Address
  pub extra_data : Bytes

-- `compute_gas_limit_bounds`
unfoldable pub compute_gas_limit_bounds : BlockHeader → ℕ × ℕ
compute_gas_limit_bounds parent =
    let boundary_range = parent.gas_limit / gas_limit_adjustment_factor in
    let upper_bound = parent.gas_limit + boundary_range in
    let lower_bound = max gas_limit_minimum (parent.gas_limit - boundary_range) in
    (lower_bound, upper_bound)

-- `compute_gas_limit`
unfoldable pub compute_gas_limit : BlockHeader → ℕ → Result Exception ℕ
compute_gas_limit parent gas_limit_floor =
    let decay = parent.gas_limit / gas_limit_ema_denominator in
    let usage_increase =
      (if parent.gas_used == 0
        then 0
        else parent.gas_used * gas_limit_usage_adjustment_numerator
          / gas_limit_usage_adjustment_denominator / gas_limit_ema_denominator) in
    let gas_limit = max gas_limit_minimum (parent.gas_limit - decay + usage_increase) in
    if ltb gas_limit_floor gas_limit_minimum
    then err value_error
    else if ltb gas_limit gas_limit_minimum
    then ok gas_limit_minimum
    else if ltb gas_limit gas_limit_floor
    then ok (parent.gas_limit + decay)
    else ok gas_limit

-- `validate_gas_limit`. The difference is an integer: below the parent it is negative.
unfoldable pub validate_gas_limit : ℕ → ℕ → Result Exception Unit
validate_gas_limit gas_limit parent_gas_limit =
    if ltb gas_limit gas_limit_minimum
    then err validation_error
    else if ltb gas_limit_maximum gas_limit
    then err validation_error
    else if ltb_ℤ (pos (parent_gas_limit / gas_limit_adjustment_factor))
        (sub_ℕ gas_limit parent_gas_limit)
    then err validation_error
    else ok tt

abbrev frontier_difficulty_adjustment_cutoff : ℕ
frontier_difficulty_adjustment_cutoff = 13

abbrev homestead_difficulty_adjustment_cutoff : ℕ
homestead_difficulty_adjustment_cutoff = 10

abbrev byzantium_difficulty_adjustment_cutoff : ℕ
byzantium_difficulty_adjustment_cutoff = 9

-- The difficulty bomb from the number of periods with the free ones: the end of each rule.
unfoldable pub add_bomb : ℕ → ℕ → ℕ
add_bomb periods difficulty =
    if leb bomb_exponential_free_periods periods
    then max (difficulty + 2 ^ (periods - bomb_exponential_free_periods)) difficulty_minimum
    else difficulty

-- `compute_frontier_difficulty`
unfoldable pub compute_frontier_difficulty : BlockHeader → ℕ → Result Exception ℕ
unfolding add_bomb
compute_frontier_difficulty parent timestamp =
    let offset = parent.difficulty / difficulty_adjustment_denominator in
    let least = min parent.difficulty difficulty_minimum in
    let base_difficulty =
      (if ltb (timestamp - parent.timestamp) frontier_difficulty_adjustment_cutoff
        then max (parent.difficulty + offset) least
        else max (parent.difficulty - offset) least) in
    if leb timestamp parent.timestamp
    then err validation_error
    else ok (add_bomb ((parent.block_number + 1) / bomb_exponential_period) base_difficulty)

-- `parent.difficulty + offset * factor`, not under `least`. The factor is an integer.
unfoldable pub adjusted : ℕ → ℕ → ℤ → ℕ → ℕ
adjusted difficulty offset factor least =
    pos_part (max_ℤ (pos difficulty +ℤ pos offset *ℤ factor) (pos least))

-- `compute_homestead_difficulty`
unfoldable pub compute_homestead_difficulty : BlockHeader → ℕ → Result Exception ℕ
unfolding add_bomb adjusted
compute_homestead_difficulty parent timestamp =
    let offset = parent.difficulty / difficulty_adjustment_denominator in
    let sign =
      max_ℤ (sub_ℕ 1 ((timestamp - parent.timestamp) / homestead_difficulty_adjustment_cutoff))
        (negsuc 98) in
    let difficulty =
      adjusted parent.difficulty offset sign (min parent.difficulty difficulty_minimum) in
    if leb timestamp parent.timestamp
    then err validation_error
    else ok (add_bomb ((parent.block_number + 1) / bomb_exponential_period) difficulty)

-- `compute_byzantium_difficulty`. Here the bomb is delayed by three million blocks.
unfoldable pub compute_byzantium_difficulty : BlockHeader → ℕ → Result Exception ℕ
unfolding add_bomb adjusted
compute_byzantium_difficulty parent timestamp =
    let offset = parent.difficulty / difficulty_adjustment_denominator in
    let has_uncles = not (parent.uncles_hash == empty_uncle_hash) in
    let adj_factor =
      max_ℤ
        (sub_ℕ (if has_uncles then 2 else 1)
          ((timestamp - parent.timestamp) / byzantium_difficulty_adjustment_cutoff))
        (negsuc 98) in
    let difficulty =
      adjusted parent.difficulty offset adj_factor (min parent.difficulty difficulty_minimum) in
    if leb timestamp parent.timestamp
    then err validation_error
    else ok (add_bomb ((parent.block_number + 1 - 3000000) / bomb_exponential_period) difficulty)
