-- ===== src/Numeric/Equal.antt =====
-- The test for equal byte strings.
use py_evm.Prelude.{◌≡◌, refl, true, false, inl, inr, [], ◌∷◌, arith, ◌==◌, ==_iff, Bool-cases}
use py_evm.Numeric.{Bytes, bytes_eq}

pub bytes_eq_self : (a : Bytes) → bytes_eq a a ≡ true
bytes_eq_self [] = refl
bytes_eq_self (b ∷ bs) = ground (arith, bytes_eq_self bs)

pub bytes_eq-eq : (a b : Bytes) → bytes_eq a b ≡ true → a ≡ b
bytes_eq-eq [] [] e = refl
bytes_eq-eq [] (y ∷ ys) e = cc
bytes_eq-eq (x ∷ xs) [] e = cc
bytes_eq-eq (x ∷ xs) (y ∷ ys) e = elim (Bool-cases (x == y)) [
  | inl same ↦
      let tail : bytes_eq xs ys ≡ true = rw same at e in
      let top = (==_iff x y).0 same in let rest = bytes_eq-eq xs ys tail in cc
  | inr other ↦ let e' : false ≡ true = rw other at e in cc
]
