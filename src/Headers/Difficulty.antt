-- ===== src/Headers/Difficulty.antt =====
-- The difficulty of a block and the time since its parent.
use py_evm.Prelude.{
  ℕ, ◌+◌, ◌-◌, ◌*◌, ◌/◌, ◌≤◌, ◌<◌, min, max, ◌≡◌, refl, ◌⊎◌, inl, inr, false, not, arith, ltb, leb,
  ◌==◌, if◌then◌else◌, Bool-cases,
}
use py_evm.Prelude.Int.{ℤ, pos, negsuc, pos_part, neg_part, sub_ℕ, ◌+ℤ◌, ◌*ℤ◌, ◌≤ℤ◌, max_ℤ}
use native.Mathlib.Nat.{mul-le-mul_left}
use py_evm.Prelude.Exec.{ok, err}
use py_evm.Exceptions.{validation_error}
use py_evm.Constants.{
  empty_uncle_hash, difficulty_minimum, difficulty_adjustment_denominator, bomb_exponential_period,
}
use py_evm.Headers.{
  BlockHeader, add_bomb, adjusted, compute_frontier_difficulty, compute_homestead_difficulty,
  compute_byzantium_difficulty,
}

adjusted_parts :
    (difficulty offset : ℕ) (factor : ℤ) (least : ℕ)
    → adjusted difficulty offset factor least
      ≡ max (difficulty + offset * pos_part factor - offset * neg_part factor) least
unfolding adjusted ◌+ℤ◌ ◌*ℤ◌
adjusted_parts difficulty offset (pos n) least = ground arith
adjusted_parts difficulty offset (negsuc n) least = ground arith

adjusted_mono :
    (difficulty offset : ℕ) (f g : ℤ) (least : ℕ)
    → f ≤ℤ g
    → adjusted difficulty offset f least ≤ adjusted difficulty offset g least
adjusted_mono difficulty offset f g least h =
    let up = mul-le-mul_left offset (positive f g h) in
    let down = mul-le-mul_left offset (negative f g h) in
    grind (
      arith,
      adjusted_parts difficulty offset f least,
      adjusted_parts difficulty offset g least,
      up,
      down,
    )
  where
    positive : (f g : ℤ) → f ≤ℤ g → pos_part f ≤ pos_part g
    positive f g h = ground arith

    negative : (f g : ℤ) → f ≤ℤ g → neg_part g ≤ neg_part f
    negative f g h = ground arith

add_bomb_mono : (periods a b : ℕ) → a ≤ b → add_bomb periods a ≤ add_bomb periods b
unfolding add_bomb
add_bomb_mono periods a b h = ground arith

add_bomb_least :
    (periods a b : ℕ) → min a difficulty_minimum ≤ b → min a difficulty_minimum ≤ add_bomb periods b
unfolding add_bomb
add_bomb_least periods a b h = ground arith

-- A factor within its bounds bounds the step.
adjusted_bounds :
    (difficulty offset : ℕ) (factor : ℤ) (least top : ℕ)
    → least ≤ difficulty
    → negsuc 98 ≤ℤ factor
    → factor ≤ℤ pos top
    → (least ≤ adjusted difficulty offset factor least)
      × (difficulty ≤ adjusted difficulty offset factor least + 99 * offset)
      × (adjusted difficulty offset factor least ≤ difficulty + top * offset)
adjusted_bounds difficulty offset factor least top l low high =
    let up : offset * pos_part factor ≤ offset * top =
      mul-le-mul_left offset (positive factor top high) in
    let down : offset * neg_part factor ≤ offset * 99 =
      mul-le-mul_left offset (negative factor low) in
    let whole = adjusted_parts difficulty offset factor least in
    (grind (arith, whole), grind (arith, whole, down), grind (arith, whole, up))
  where
    positive : (f : ℤ) (n : ℕ) → f ≤ℤ pos n → pos_part f ≤ n
    positive f n h = ground arith

    negative : (f : ℤ) → negsuc 98 ≤ℤ f → neg_part f ≤ 99
    negative f h = ground arith

factor_bounds :
    (top n : ℕ)
    → (negsuc 98 ≤ℤ max_ℤ (sub_ℕ top n) (negsuc 98)) × (max_ℤ (sub_ℕ top n) (negsuc 98) ≤ℤ pos top)
factor_bounds top n = (ground arith, ground arith)

factor_antitone :
    (top m n : ℕ) → m ≤ n → max_ℤ (sub_ℕ top n) (negsuc 98) ≤ℤ max_ℤ (sub_ℕ top m) (negsuc 98)
factor_antitone top m n h = ground arith

-- The difficulty before the bomb, from the largest factor and the seconds to a step.
abbrev base : BlockHeader → ℕ → ℕ → ℕ → ℕ
base parent top cutoff timestamp =
    adjusted parent.difficulty (parent.difficulty / difficulty_adjustment_denominator)
      (max_ℤ (sub_ℕ top ((timestamp - parent.timestamp) / cutoff)) (negsuc 98))
      (min parent.difficulty difficulty_minimum)

base_bounds :
    (parent : BlockHeader) (top cutoff timestamp : ℕ)
    → (min parent.difficulty difficulty_minimum ≤ base parent top cutoff timestamp)
      × (parent.difficulty
          ≤ base parent top cutoff timestamp
            + 99 * (parent.difficulty / difficulty_adjustment_denominator))
      × (base parent top cutoff timestamp
          ≤ parent.difficulty + top * (parent.difficulty / difficulty_adjustment_denominator))
base_bounds parent top cutoff timestamp =
    let (low, high) = factor_bounds top ((timestamp - parent.timestamp) / cutoff) in
    adjusted_bounds parent.difficulty (parent.difficulty / difficulty_adjustment_denominator)
      (max_ℤ (sub_ℕ top ((timestamp - parent.timestamp) / cutoff)) (negsuc 98))
      (min parent.difficulty difficulty_minimum) top (omega arith) low high

base_antitone :
    (parent : BlockHeader) (top cutoff t u : ℕ)
    → (t - parent.timestamp) / cutoff ≤ (u - parent.timestamp) / cutoff
    → base parent top cutoff u ≤ base parent top cutoff t
base_antitone parent top cutoff t u h =
    adjusted_mono parent.difficulty (parent.difficulty / difficulty_adjustment_denominator)
      (max_ℤ (sub_ℕ top ((u - parent.timestamp) / cutoff)) (negsuc 98))
      (max_ℤ (sub_ℕ top ((t - parent.timestamp) / cutoff)) (negsuc 98))
      (min parent.difficulty difficulty_minimum)
      (factor_antitone top ((t - parent.timestamp) / cutoff) ((u - parent.timestamp) / cutoff) h)

-- The largest factor of the byzantium rule.
abbrev byzantium_top : BlockHeader → ℕ
byzantium_top parent = if not (parent.uncles_hash == empty_uncle_hash) then 2 else 1

compute_homestead_difficulty_ok :
    (parent : BlockHeader) (timestamp : ℕ)
    → parent.timestamp < timestamp
    → compute_homestead_difficulty parent timestamp
      ≡ ok (
          add_bomb
            ((parent.block_number + 1) / bomb_exponential_period)
            (base parent 1 10 timestamp))
unfolding compute_homestead_difficulty
compute_homestead_difficulty_ok parent timestamp h =
    let later : leb timestamp parent.timestamp ≡ false = ground arith in rw later refl

compute_byzantium_difficulty_ok :
    (parent : BlockHeader) (timestamp : ℕ)
    → parent.timestamp < timestamp
    → compute_byzantium_difficulty parent timestamp
      ≡ ok (
          add_bomb
            ((parent.block_number + 1 - 3000000) / bomb_exponential_period)
            (base parent (byzantium_top parent) 9 timestamp))
unfolding compute_byzantium_difficulty
compute_byzantium_difficulty_ok parent timestamp h =
    let later : leb timestamp parent.timestamp ≡ false = ground arith in rw later refl

-- For timestamps after the parent's the homestead rule gives a difficulty, and a later timestamp
-- never gives a higher one.
pub compute_homestead_difficulty_antitone :
    (parent : BlockHeader) (t u : ℕ)
    → parent.timestamp < t
    → t ≤ u
    → (d : ℕ) × (e : ℕ) × (compute_homestead_difficulty parent t ≡ ok d)
      × (compute_homestead_difficulty parent u ≡ ok e)
      × (e ≤ d)
compute_homestead_difficulty_antitone parent t u h k = (
  _,
  _,
  compute_homestead_difficulty_ok parent t h,
  compute_homestead_difficulty_ok parent u (omega arith),
  add_bomb_mono ((parent.block_number + 1) / bomb_exponential_period) (base parent 1 10 u)
      (base parent 1 10 t) (base_antitone parent 1 10 t u (omega arith)),
)

-- The byzantium rule too: for timestamps after the parent's it gives a difficulty, and a later
-- timestamp never gives a higher one.
pub compute_byzantium_difficulty_antitone :
    (parent : BlockHeader) (t u : ℕ)
    → parent.timestamp < t
    → t ≤ u
    → (d : ℕ) × (e : ℕ) × (compute_byzantium_difficulty parent t ≡ ok d)
      × (compute_byzantium_difficulty parent u ≡ ok e)
      × (e ≤ d)
compute_byzantium_difficulty_antitone parent t u h k =
    let top = byzantium_top parent in
    (
      _,
      _,
      compute_byzantium_difficulty_ok parent t h,
      compute_byzantium_difficulty_ok parent u (omega arith),
      add_bomb_mono ((parent.block_number + 1 - 3000000) / bomb_exponential_period)
          (base parent top 9 u) (base parent top 9 t)
          (base_antitone parent top 9 t u (omega arith)),
    )

-- A homestead difficulty is, before the bomb, at least the lower of the parent's and the minimum,
-- at most 99 steps of a 2048th below the parent's and at most one step above; a timestamp that is
-- not after the parent's raises.
pub compute_homestead_difficulty_bounds :
    (parent : BlockHeader) (timestamp : ℕ)
    → ((timestamp ≤ parent.timestamp)
        × (compute_homestead_difficulty parent timestamp ≡ err validation_error))
      ⊎ ((parent.timestamp < timestamp)
          × (d : ℕ) × (compute_homestead_difficulty parent timestamp
              ≡ ok (add_bomb ((parent.block_number + 1) / bomb_exponential_period) d))
          × (min parent.difficulty difficulty_minimum ≤ d)
          × (parent.difficulty ≤ d + 99 * (parent.difficulty / difficulty_adjustment_denominator))
          × (d ≤ parent.difficulty + parent.difficulty / difficulty_adjustment_denominator))
compute_homestead_difficulty_bounds parent timestamp =
    elim (Bool-cases (leb timestamp parent.timestamp)) [
      | inl late ↦ inl (ground arith, unfold compute_homestead_difficulty in rw late refl)
      | inr later ↦
          let (low, far, high) = base_bounds parent 1 10 timestamp in
          inr (
            ground arith,
            base parent 1 10 timestamp,
            compute_homestead_difficulty_ok parent timestamp (ground arith),
            low,
            far,
            omega arith,
          )
    ]

-- The same of a frontier difficulty, which goes at most one step of a 2048th up or down.
pub compute_frontier_difficulty_bounds :
    (parent : BlockHeader) (timestamp : ℕ)
    → ((timestamp ≤ parent.timestamp)
        × (compute_frontier_difficulty parent timestamp ≡ err validation_error))
      ⊎ ((parent.timestamp < timestamp)
          × (d : ℕ) × (compute_frontier_difficulty parent timestamp
              ≡ ok (add_bomb ((parent.block_number + 1) / bomb_exponential_period) d))
          × (min parent.difficulty difficulty_minimum ≤ d)
          × (parent.difficulty ≤ d + parent.difficulty / difficulty_adjustment_denominator)
          × (d ≤ parent.difficulty + parent.difficulty / difficulty_adjustment_denominator))
unfolding compute_frontier_difficulty
compute_frontier_difficulty_bounds parent timestamp =
    let p = parent.difficulty in
    let least = min p difficulty_minimum in
    elim (Bool-cases (leb timestamp parent.timestamp)) [
      | inl late ↦ inl (ground arith, rw late refl)
      | inr later ↦ elim (Bool-cases (ltb (timestamp - parent.timestamp) 13)) [
        | inl soon ↦ inr (
          ground arith,
          max (p + p / 2048) least,
          rw (later, soon) refl,
          omega arith,
          omega arith,
          omega arith,
        )
        | inr slow ↦ inr (
          ground arith,
          max (p - p / 2048) least,
          rw (later, slow) refl,
          omega arith,
          omega arith,
          omega arith,
        )
      ]
    ]
