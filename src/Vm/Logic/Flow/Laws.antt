-- ===== src/Vm/Logic/Flow/Laws.antt =====
-- Where a jump may go.
use py_evm.Prelude.{
  ℕ, ◌≡◌, refl, inl, inr, true, not, arith, length, get_or, leb, ◌==◌, if◌then◌else◌, Bool-cases,
}
use py_evm.Prelude.Exec.{Result, ok, err}
use py_evm.Exceptions.{Exception, vm_error, invalid_jump_destination, invalid_instruction}
use py_evm.Numeric.{Bytes}
use py_evm.Vm.CodeStream.{CodeStream, stop, jumpdest, seek}
use py_evm.Vm.CodeStream.Peek.{peek-seek}
use py_evm.Vm.CodeStream.Walk.{opcode_at, opcode_at-beyond}
use py_evm.Vm.CodeStream.Jumps.{IsCache, is_valid_opcode-Answers}
use py_evm.Vm.Computation.{Computation}
use py_evm.Vm.Logic.Flow.{jump_to, set_pc}

IsCache-seek : (d : ℕ) (s : CodeStream) → IsCache s → IsCache (seek d s)
unfolding seek
IsCache-seek d s h = record { knows = h.knows; depth = h.depth }

-- What the code says of a jump to `d`: the byte there, or STOP behind the end, must be a JUMPDEST,
-- and it must be an opcode and no data of a PUSH.
abbrev pub outcome : Bytes → ℕ → Result Exception Unit
outcome code d =
    if not (get_or code d stop == jumpdest)
    then err (vm_error invalid_jump_destination)
    else if opcode_at 0 code d
    then ok tt
    else err (vm_error invalid_instruction)

-- An opcode is in range, so a seek to it goes there.
landed :
    (d : ℕ) (s : CodeStream) (position : ℕ)
    → opcode_at 0 s.code d ≡ true
    → position ≡ (seek d s).position
    → position ≡ d
unfolding seek
landed d s position opcode same = elim (Bool-cases (leb (length s.code) d)) [
  | inl out ↦ let beyond = opcode_at-beyond 0 s.code d (ground arith) in cc
  | inr inside ↦ ground arith
]

module _ {W : Type 0} where
  -- A jump to `d` from any cache of the valid positions: it succeeds or raises as the code says, a
  -- jump that succeeds leaves the program counter at `d`, and the code and its cache stay right.
  pub jump_to_lem :
      (d : ℕ) (c : Computation W)
      → IsCache c.code
      → ((jump_to d c).0 ≡ outcome c.code.code d)
        × ((jump_to d c).0 ≡ ok tt → (jump_to d c).1.code.position ≡ d)
        × ((jump_to d c).1.code.code ≡ c.code.code)
        × IsCache (jump_to d c).1.code
  unfolding jump_to set_pc opcode_at seek
  jump_to_lem d c h =
      let code = c.code.code in
      let at : IsCache (seek d c.code) = IsCache-seek d c.code h in
      let a = is_valid_opcode-Answers d (seek d c.code) at in
      elim (Bool-cases (get_or code d stop == jumpdest)) [
        | inr other ↦ rw (peek-seek d c.code, other) (refl, λ e. cc, refl, at)
        | inl there ↦ elim (Bool-cases (opcode_at 0 code d)) [
          | inr inside_push ↦
              rw (peek-seek d c.code, there, a.right, inside_push)
                (refl, λ e. cc, a.same_code, a.cache)
          | inl opcode ↦
              rw (peek-seek d c.code, there, a.right, opcode)
                (refl, λ e. landed d c.code _ opcode a.same_position, a.same_code, a.cache)
        ]
      ]
