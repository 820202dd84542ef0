-- ===== src/Vm/Logic/Flow.antt =====
-- evm/vm/logic/flow.py and invalid.py.
pub mod Laws
use py_evm.Prelude.{ℕ, ◌-◌, Bool, false, not, Option, none, some, ◌==◌, if◌then◌else◌}
use py_evm.Prelude.Exec.{◌>>=◌, ◌>>◌, pure, raise, gets, raise_if}
use py_evm.Exceptions.{
  VmError, vm_error, halt, invalid_jump_destination, invalid_instruction, burns_gas,
}
use py_evm.Vm.Stack.{int, uint256}
use py_evm.Vm.CodeStream
use py_evm.Vm.CodeStream.{CodeStream, jumpdest}
use py_evm.Vm.Computation.{Action, Computation, on_code, stack_pop, stack_pop2, stack_push}

-- The test of `should_burn_gas`.
abbrev pub burned : Option VmError → Bool
burned none = false
burned (some e) = burns_gas e

module _ {W : Type 0} where
  unfoldable pub stop : Action W Unit
  stop = raise halt

  -- `computation.code.pc = value`
  unfoldable pub set_pc : ℕ → Action W Unit
  set_pc value = on_code (λ c. (tt, CodeStream.seek value c))

  -- The body that `jump` and `jumpi` share.
  unfoldable pub jump_to : ℕ → Action W Unit
  unfolding set_pc
  jump_to jump_dest = do
    set_pc jump_dest
    next_opcode ← on_code CodeStream.peek
    raise_if (not (next_opcode == jumpdest)) (vm_error invalid_jump_destination)
    is_valid ← on_code (CodeStream.is_valid_opcode jump_dest)
    raise_if (not is_valid) (vm_error invalid_instruction)

  unfoldable pub jump : Action W Unit
  unfolding jump_to
  jump = do jump_dest ← stack_pop uint256; jump_to jump_dest

  unfoldable pub jumpi : Action W Unit
  unfolding jump_to
  jumpi = do
    (jump_dest, check_value) ← stack_pop2 uint256
    if check_value == 0 then pure tt else jump_to jump_dest

  unfoldable pub jumpdest_op : Action W Unit
  jumpdest_op = pure tt

  unfoldable pub pc : Action W Unit
  pc = do position ← gets (λ c. c.code.position - 1); stack_push (int position)

  -- `get_gas_remaining`
  unfoldable pub get_gas_remaining : Computation W → ℕ
  get_gas_remaining c = if burned c.error then 0 else c.gas_meter.gas_remaining

  unfoldable pub gas : Action W Unit
  unfolding get_gas_remaining
  gas = do gas_remaining ← gets get_gas_remaining; stack_push (int gas_remaining)

  unfoldable pub invalid_opcode : Action W Unit
  invalid_opcode = raise (vm_error invalid_instruction)
