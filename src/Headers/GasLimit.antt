-- ===== src/Headers/GasLimit.antt =====
-- The gas limit of a block and that of its parent.
use py_evm.Prelude.{ℕ, ◌+◌, ◌-◌, ◌*◌, ◌/◌, ◌≤◌, max, ◌≡◌, ◌↔◌, inl, inr, arith, ltb, Bool-cases}
use py_evm.Prelude.Exec.{ok}
use py_evm.Constants.{gas_limit_adjustment_factor, gas_limit_minimum, gas_limit_maximum}
use py_evm.Headers.{BlockHeader, compute_gas_limit, compute_gas_limit_bounds, validate_gas_limit}

-- With a floor that is allowed, from a parent whose limit is at least the minimum and whose
-- transactions used no more gas than its limit: a gas limit is computed, and it is within the bounds
-- of `compute_gas_limit_bounds`.
pub compute_gas_limit_bounded :
    (parent : BlockHeader) (gas_limit_floor : ℕ)
    → gas_limit_minimum ≤ gas_limit_floor
    → gas_limit_minimum ≤ parent.gas_limit
    → parent.gas_used ≤ parent.gas_limit
    → (limit : ℕ) × (compute_gas_limit parent gas_limit_floor ≡ ok limit)
      × ((compute_gas_limit_bounds parent).0 ≤ limit)
      × (limit ≤ (compute_gas_limit_bounds parent).1)
unfolding compute_gas_limit compute_gas_limit_bounds
compute_gas_limit_bounded parent gas_limit_floor f p u =
    let decay = parent.gas_limit / 1024 in
    let limit = max 5000 (parent.gas_limit - decay + parent.gas_used * 3 / 2 / 1024) in
    elim (Bool-cases (ltb limit gas_limit_floor)) [
      | inl low ↦ (parent.gas_limit + decay, ground arith, ground arith, ground arith)
      | inr high ↦ (limit, ground arith, ground arith, ground arith)
    ]

-- What `validate_gas_limit` accepts: the limits from the minimum up to the maximum and up to a
-- 1024th above the parent's. How far a limit is below the parent's is not tested.
pub validate_gas_limit_iff :
    (gas_limit parent_gas_limit : ℕ)
    → (validate_gas_limit gas_limit parent_gas_limit ≡ ok tt) ↔ (
        (gas_limit_minimum ≤ gas_limit)
        × (gas_limit ≤ gas_limit_maximum)
        × (gas_limit ≤ parent_gas_limit + parent_gas_limit / gas_limit_adjustment_factor))
unfolding validate_gas_limit
validate_gas_limit_iff gas_limit parent_gas_limit = ground arith

-- With a floor that is at least the minimum, from a parent whose limit is at least the minimum and, with a
-- 1024th more, at most the maximum, and whose transactions used no more gas than its limit, a gas limit is
-- computed, and it passes the validation against that of the parent.
pub compute_gas_limit_valid :
    (parent : BlockHeader) (gas_limit_floor : ℕ)
    → gas_limit_minimum ≤ gas_limit_floor
    → gas_limit_minimum ≤ parent.gas_limit
    → parent.gas_used ≤ parent.gas_limit
    → parent.gas_limit + parent.gas_limit / gas_limit_adjustment_factor ≤ gas_limit_maximum
    → (limit : ℕ) × (compute_gas_limit parent gas_limit_floor ≡ ok limit)
      × (validate_gas_limit limit parent.gas_limit ≡ ok tt)
unfolding compute_gas_limit_bounds
compute_gas_limit_valid parent gas_limit_floor f p u room =
    let (limit, e, low, high) = compute_gas_limit_bounded parent gas_limit_floor f p u in
    let valid = (validate_gas_limit_iff limit parent.gas_limit).1 in
    (limit, e, valid (omega arith, omega arith, omega arith))
