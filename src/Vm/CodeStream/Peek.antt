-- ===== src/Vm/CodeStream/Peek.antt =====
-- A look at the byte that a seek went to.
use py_evm.Prelude.{refl, ℕ, zero, suc, min, ◌≡◌, refl, [], ◌∷◌, arith, length, get_or, take, drop}
use py_evm.Numeric.{Bytes}
use py_evm.Vm.CodeStream.{CodeStream, stop, read, next, seek, peek, first_or_stop}

first-take :
    (code : Bytes) (d : ℕ)
    → first_or_stop (take 1 (drop (min d (length code)) code)) ≡ get_or code d stop
unfolding first_or_stop
first-take [] d = ground arith
first-take (b ∷ code) zero = let same : min 0 (suc (length code)) ≡ 0 = omega arith in rw same refl
first-take (b ∷ code) (suc d) =
    let same : min (suc d) (suc (length code)) ≡ suc (min d (length code)) = omega arith in
    rw same (first-take code d)

pub peek-seek : (d : ℕ) (c : CodeStream) → peek (seek d c) ≡ (get_or c.code d stop, seek d c)
unfolding peek next read seek
peek-seek d c =
    let there : min (min d (length c.code)) (length c.code) ≡ min d (length c.code) = omega arith in
    rw (first-take c.code d, there) refl
