-- ===== src/Vm/CodeStream/Walk.antt =====
-- Which positions of a code hold an opcode: an independent description, by walking the code from
-- the start and stepping over the bytes that belong to a PUSH.
use Prim.Native.Nat.add
use py_evm.Prelude.{
  ℕ, zero, suc, ◌+◌, ◌<◌, ◌≤◌, ◌≡◌, refl, [], ◌∷◌, Bool, true, false, length, arith,
}
use py_evm.Numeric.{Bytes}
use py_evm.Vm.CodeStream.{byte_at, push_size}

-- The walk at a code of which the first `skip` bytes belong to the PUSH before it.
unfoldable pub opcode_at : ℕ → Bytes → ℕ → Bool
opcode_at skip [] p = false
opcode_at zero (b ∷ bs) zero = true
opcode_at (suc skip) (b ∷ bs) zero = false
opcode_at zero (b ∷ bs) (suc p) = opcode_at (push_size b) bs p
opcode_at (suc skip) (b ∷ bs) (suc p) = opcode_at skip bs p

opcode_at-skipped : (skip : ℕ) (bs : Bytes) (j : ℕ) → j < skip → opcode_at skip bs j ≡ false
unfolding opcode_at
opcode_at-skipped zero bs j h = elim h [ ]
opcode_at-skipped (suc skip) [] j h = refl
opcode_at-skipped (suc skip) (b ∷ bs) zero h = refl
opcode_at-skipped (suc skip) (b ∷ bs) (suc j) h = opcode_at-skipped skip bs j (omega arith)

opcode_at-after : (skip : ℕ) (bs : Bytes) → skip < length bs → opcode_at skip bs skip ≡ true
unfolding opcode_at
opcode_at-after zero [] h = elim h [ ]
opcode_at-after zero (b ∷ bs) h = refl
opcode_at-after (suc skip) [] h = elim h [ ]
opcode_at-after (suc skip) (b ∷ bs) h = opcode_at-after skip bs (omega arith)

-- The bytes of a PUSH hold no opcode.
pub opcode_at-inside :
    (skip : ℕ) (bs : Bytes) (i j : ℕ)
    → opcode_at skip bs i ≡ true
    → j < push_size (byte_at bs i)
    → opcode_at skip bs (suc (i + j)) ≡ false
unfolding opcode_at
opcode_at-inside skip [] i j h k = cc
opcode_at-inside zero (b ∷ bs) zero j h k = rw add.zero (opcode_at-skipped (push_size b) bs j k)
opcode_at-inside (suc skip) (b ∷ bs) zero j h k = cc
opcode_at-inside zero (b ∷ bs) (suc i) j h k =
    rw add.suc (opcode_at-inside (push_size b) bs i j h k)
opcode_at-inside (suc skip) (b ∷ bs) (suc i) j h k = rw add.suc (opcode_at-inside skip bs i j h k)

-- The next opcode stands right behind them, unless the code ends there.
pub opcode_at-behind :
    (skip : ℕ) (bs : Bytes) (i : ℕ)
    → opcode_at skip bs i ≡ true
    → suc (i + push_size (byte_at bs i)) < length bs
    → opcode_at skip bs (suc (i + push_size (byte_at bs i))) ≡ true
unfolding opcode_at
opcode_at-behind skip [] i h k = cc
opcode_at-behind zero (b ∷ bs) zero h k =
    rw add.zero (opcode_at-after (push_size b) bs (omega arith))
opcode_at-behind (suc skip) (b ∷ bs) zero h k = cc
opcode_at-behind zero (b ∷ bs) (suc i) h k =
    rw add.suc (opcode_at-behind (push_size b) bs i h (omega arith))
opcode_at-behind (suc skip) (b ∷ bs) (suc i) h k =
    rw add.suc (opcode_at-behind skip bs i h (omega arith))

-- The first byte of a code is an opcode.
pub opcode_at-start : (bs : Bytes) → 0 < length bs → opcode_at 0 bs 0 ≡ true
unfolding opcode_at
opcode_at-start bs h = opcode_at-after 0 bs h

pub opcode_at-beyond : (skip : ℕ) (bs : Bytes) (i : ℕ) → length bs ≤ i → opcode_at skip bs i ≡ false
unfolding opcode_at
opcode_at-beyond skip [] i h = refl
opcode_at-beyond skip (b ∷ bs) zero h = absurd (omega arith)
opcode_at-beyond zero (b ∷ bs) (suc i) h = opcode_at-beyond (push_size b) bs i (omega arith)
opcode_at-beyond (suc skip) (b ∷ bs) (suc i) h = opcode_at-beyond skip bs i (omega arith)
