-- ===== src/Vm/Logic/Words/Laws.antt =====
-- The word operations against the integers.
use native.Mathlib.Nat.{div-add-mod, div-div-eq-div-mul, pow-succ'}
use py_evm.Prelude.{
  ℕ, zero, suc, ◌-◌, ◌/◌, ◌%◌, ◌^◌, ◌<◌, ◌≡◌, refl, sym, ◌≢◌, inl, inr, [], ◌∷◌, ◌++◌, arith,
  length, get_or, ltb, leb, ◌==◌, if◌then◌else◌, Bool-cases,
}
use py_evm.Prelude.Int.{ℤ, pos, negsuc, ◌+ℤ◌, ◌*ℤ◌, ◌≤ℤ◌}
use py_evm.Constants.{uint_256_ceiling}
use py_evm.Numeric.{to_bytes, Bytes}
use py_evm.Numeric.Endian.{length-to_bytes}
use py_evm.Vm.Logic.Words.{
  add_word, sub_word, not_word, sdiv_signed, smod_signed, byte_word, abs, negate, mask, is_negative,
}

-- SUB undoes ADD, on words.
pub sub_word-add_word :
    (a b : ℕ) → a < uint_256_ceiling → b < uint_256_ceiling → sub_word (add_word a b) b ≡ a
unfolding add_word sub_word
sub_word-add_word a b ha hb = omega arith

-- SUB from zero is the complement plus one: two's complement negation.
pub negation : (a : ℕ) → a < uint_256_ceiling → sub_word 0 a ≡ add_word (not_word a) 1
unfolding add_word sub_word not_word
negation a ha = omega arith

-- The remainder of the signed division, with the sign of the dividend.
abbrev signed_remainder : ℤ → ℤ → ℤ
signed_remainder n d = if is_negative n then negate (abs n % abs d) else pos (abs n % abs d)

-- `q` is the quotient of `n` by `d` rounded towards zero: what is left is smaller than `d` and does
-- not have the other sign.
pub record IsQuotient (n d q r : ℤ) : Type 0 where
  pub sum : q *ℤ d +ℤ r ≡ n
  pub small : abs r < abs d
  pub sign : (pos 0 ≤ℤ n → pos 0 ≤ℤ r) × (n ≤ℤ pos 0 → r ≤ℤ pos 0)

IsQuotient-signed_remainder :
    (n d : ℤ) → abs d ≢ 0 → IsQuotient n d (sdiv_signed n d) (signed_remainder n d)
unfolding sdiv_signed ◌*ℤ◌ ◌+ℤ◌
IsQuotient-signed_remainder (pos n) (pos d) h = record {
  sum = grind (arith, div-add-mod n d);
  small = ground arith;
  sign = ground arith;
}
IsQuotient-signed_remainder (pos n) (negsuc d) h = record {
  sum = grind (arith, div-add-mod n (suc d));
  small = ground arith;
  sign = ground arith;
}
IsQuotient-signed_remainder (negsuc n) (pos d) h = record {
  sum = grind (arith, div-add-mod (suc n) d);
  small = ground arith;
  sign = ground arith;
}
IsQuotient-signed_remainder (negsuc n) (negsuc d) h = record {
  sum = grind (arith, div-add-mod (suc n) (suc d));
  small = ground arith;
  sign = ground arith;
}

smod_signed-signed_remainder : (n d : ℤ) → abs d ≢ 0 → smod_signed n d ≡ mask (signed_remainder n d)
unfolding smod_signed
smod_signed-signed_remainder n d h = ground arith

-- For every dividend and every divisor but zero, what SDIV computes is the quotient of the division that
-- rounds towards zero, and what SMOD computes is the remainder of that division, as a word.
pub sdiv_signed-IsQuotient :
    (n d : ℤ)
    → abs d ≢ 0
    → (r : ℤ) × (smod_signed n d ≡ mask r) × IsQuotient n d (sdiv_signed n d) r
sdiv_signed-IsQuotient n d h =
    (signed_remainder n d, smod_signed-signed_remainder n d h, IsQuotient-signed_remainder n d h)

get_or-append :
    (xs : Bytes) (b i : ℕ)
    → get_or (xs ++ b ∷ []) i 0
      ≡ (if ltb i (length xs) then get_or xs i 0 else if i == length xs then b else 0)
get_or-append [] b zero = refl
get_or-append [] b (suc i) = ground arith
get_or-append (x ∷ xs) b zero = ground arith
get_or-append (x ∷ xs) b (suc i) = ground (arith, get_or-append xs b i)

get_or-to_bytes :
    (count value i : ℕ)
    → get_or (to_bytes count value) i 0
      ≡ (if leb count i then 0 else value / 256 ^ (count - 1 - i) % 256)
unfolding to_bytes
get_or-to_bytes zero value i = ground arith
get_or-to_bytes (suc count) value i = elim (Bool-cases (ltb i count)) [
  | inl inside ↦
      let e : ℕ = count - 1 - i in
      let exponent : suc count - 1 - i ≡ suc e = ground arith in
      let place : value / 256 ^ suc e ≡ value / 256 / 256 ^ e =
        rw (pow-succ' 256 e) (sym (div-div-eq-div-mul value 256 (256 ^ e))) in
      rw (get_or-append, length-to_bytes, exponent, place)
        (ground (arith, get_or-to_bytes count (value / 256) i))
  | inr outside ↦ elim (Bool-cases (i == count)) [
    | inl last ↦
        let exponent : suc count - 1 - i ≡ 0 = ground arith in
        rw (get_or-append, length-to_bytes, exponent) (ground arith)
    | inr beyond ↦ rw (get_or-append, length-to_bytes) (ground arith)
  ]
]

-- BYTE picks a byte of the word's 32, the highest at position 0, and 0 behind the last.
pub byte_word-eq-byte :
    (position value : ℕ) → byte_word position value ≡ get_or (to_bytes 32 value) position 0
unfolding byte_word
byte_word-eq-byte position value = rw get_or-to_bytes (ground arith)
