-- ===== src/Numeric/Endian.antt =====
-- Numbers and their big-endian bytes.
use native.Mathlib.Nat.{pow-suc, pow-le-pow_right}
use native.Mathlib.Numerals.{add-one, towards_suc}
use py_evm.Prelude.{
  ℕ, zero, suc, ◌+◌, ◌*◌, ◌/◌, ◌%◌, ◌^◌, ◌≤◌, ◌<◌, ◌≡◌, refl, [], ◌∷◌, ◌++◌, length, length-append,
  arith, All, Bool-cases, inl, inr, ◌==◌,
}
use py_evm.Numeric.{
  Bytes, bit_length, bit_length_from, to_bytes, byte_length, int_to_big_endian, big_endian_from,
  big_endian_to_int,
}

pub pow-add_one : (b n : ℕ) → b ^ (n + 1) ≡ b ^ n * b
pow-add_one b n = rw add-one (pow-suc b n)

bit_length_from-bound : (fuel value : ℕ) → value ≤ fuel → value < 2 ^ bit_length_from fuel value
unfolding bit_length_from
bit_length_from-bound zero value h = omega arith
bit_length_from-bound (suc fuel) value h = elim (Bool-cases (value == 0)) [
  | inl done ↦ rw done (ground arith)
  | inr more ↦ rw more (
      ground (
        arith,
        pow-add_one 2 (bit_length_from fuel (value / 2)),
        bit_length_from-bound fuel (value / 2),
      ))
]

pub length-to_bytes : (count value : ℕ) → length (to_bytes count value) ≡ count
unfolding to_bytes
length-to_bytes zero value = refl
length-to_bytes (suc count) value = omega (
  arith,
  length-append (to_bytes count (value / 256)) (value % 256 ∷ []),
  length-to_bytes count (value / 256),
)

big_endian_from-append :
    (acc : ℕ) (xs ys : Bytes)
    → big_endian_from acc (xs ++ ys) ≡ big_endian_from (big_endian_from acc xs) ys
unfolding big_endian_from
big_endian_from-append acc [] ys = refl
big_endian_from-append acc (x ∷ xs) ys = big_endian_from-append (acc * 256 + x) xs ys

div_bound : (count value : ℕ) → value < 256 ^ suc count → value / 256 < 256 ^ count
div_bound count value h = omega (arith, pow-suc 256 count)

big_endian-to_bytes :
    (count value : ℕ) → value < 256 ^ count → big_endian_from 0 (to_bytes count value) ≡ value
unfolding to_bytes big_endian_from
big_endian-to_bytes zero value h = omega arith
big_endian-to_bytes (suc count) value h =
    rw (big_endian_from-append 0 (to_bytes count (value / 256)))
      (ground (arith, big_endian-to_bytes count (value / 256) (div_bound count value h)))

pow-add_eight : (n : ℕ) → 2 ^ (n + 8) ≡ 256 * 2 ^ n
pow-add_eight n = simp towards_suc (omega arith)

pow_two_eight : (k : ℕ) → 2 ^ (8 * k) ≡ 256 ^ k
pow_two_eight zero = refl
pow_two_eight (suc k) =
    let step : 8 * suc k ≡ 8 * k + 8 = omega arith in
    rw step (omega (arith, pow-add_eight (8 * k), pow_two_eight k, pow-suc 256 k))

-- The bytes that `int_to_big_endian` writes are enough for the number.
pub byte_length_enough : (value : ℕ) → value < 256 ^ byte_length value
unfolding byte_length bit_length
byte_length_enough value =
    let n = bit_length_from value value in
    let wide : 2 ^ n ≤ 2 ^ (8 * ((n + 7) / 8)) = pow-le-pow_right (omega arith) (omega arith) in
    omega (arith, bit_length_from-bound value value, wide, pow_two_eight ((n + 7) / 8))

-- Reading back the big-endian bytes of a number gives the number, for every number.
pub big_endian_to_int-int_to_big_endian :
    (value : ℕ) → big_endian_to_int (int_to_big_endian value) ≡ value
unfolding big_endian_to_int int_to_big_endian
big_endian_to_int-int_to_big_endian value =
    big_endian-to_bytes (byte_length value) value (byte_length_enough value)

-- Byte strings of one length are told apart by their numbers.
from_injective :
    (xs ys : Bytes) (a b : ℕ)
    → length xs ≡ length ys
    → All (λ x. x < 256) xs
    → All (λ y. y < 256) ys
    → big_endian_from a xs ≡ big_endian_from b ys
    → (a ≡ b) × (xs ≡ ys)
unfolding big_endian_from
from_injective [] [] a b l p q e = (e, refl)
from_injective [] (y ∷ ys) a b l p q e = absurd (omega (arith, l))
from_injective (x ∷ xs) [] a b l p q e = absurd (omega (arith, l))
from_injective (x ∷ xs) (y ∷ ys) a b l (px, ps) (qy, qs) e =
    let (top, rest) = from_injective xs ys (a * 256 + x) (b * 256 + y) (omega (arith, l)) ps qs e in
    let same : x ≡ y = omega (arith, top, px, qy) in
    (omega (arith, top, px, qy), λ i. same i ∷ rest i)

pub big_endian_to_int-injective :
    (xs ys : Bytes)
    → length xs ≡ length ys
    → All (λ x. x < 256) xs
    → All (λ y. y < 256) ys
    → big_endian_to_int xs ≡ big_endian_to_int ys
    → xs ≡ ys
unfolding big_endian_to_int
big_endian_to_int-injective xs ys l p q e = (from_injective xs ys 0 0 l p q e).1
