-- ===== src/Vm/Steady/Forks/Tables.antt =====
-- Every opcode of the tables of the later forks falls.
use py_evm.Vm.Precompiles.ModExp.{modexp}
use py_evm.Prelude.Exec.{gets, raise_if}
use py_evm.Prelude.{ℕ, suc, ◌+◌, ◌≤◌}
use py_evm.Exceptions.{vm_error, write_protection}
use py_evm.Vm.Steady.Parts.{Steady-raise_if, vm_error_ne, steady}
use py_evm.Vm.Steady.{Steady-bind, Steady-gets, Steady}
use py_evm.Vm.Accounts.{Accounts, Library}
use py_evm.Vm.Computation.{Action}
use py_evm.Vm.Logic.Copy
use py_evm.Vm.Opcodes.{as_opcode}
use py_evm.Vm.Forks.{
  ensure_no_static, homestead_opcodes, tangerine_whistle_opcodes, spurious_dragon_opcodes,
  byzantium_opcodes,
}
use py_evm.Vm.Steady.Opcodes.{Steady-exp, Steady-push_int, Steady-returndatacopy}
use py_evm.Vm.Steady.World.{
  Uncut, Steady-log_xx, Steady-balance, Steady-extcodesize, Steady-extcodecopy, Steady-sload,
  Steady-selfdestruct_eip150, Steady-selfdestruct_eip161,
}
use py_evm.Vm.Steady.Calls.{Steady-call_op}
use py_evm.Vm.Steady.Creates.{Steady-create_op}
use py_evm.Vm.Steady.Falling.{Falls, Fall, Falls-as_opcode, Falls-rest, Falls-raise}
use py_evm.Vm.Steady.Table.{positive, Falls-sstore, Fall-frontier_opcodes}

module _ {W : Type 0} {d : ℕ} where
  pub Steady-modexp : Steady {W = W} d 0 modexp
  unfolding modexp
  Steady-modexp = search steady depth 9

  Falls-revert_op : Falls {W = W} d Copy.revert_op
  unfolding Copy.revert_op
  Falls-revert_op = search (steady, Falls-rest, Falls-raise) depth 14

  Steady-ensure_no_static : (f : Action W Unit) → Steady d 0 f → Steady d 0 (ensure_no_static f)
  unfolding ensure_no_static
  Steady-ensure_no_static f k =
      Steady-bind (gets (λ c. c.msg.is_static)) _ (Steady-gets _) (λ is_static.
        Steady-bind (raise_if is_static (vm_error write_protection)) (λ _. f)
          (Steady-raise_if is_static (vm_error write_protection) (vm_error_ne write_protection))
          (λ _. k))

  Falls-ensure_no_static : (f : Action W Unit) → Falls d f → Falls d (ensure_no_static f)
  unfolding ensure_no_static
  Falls-ensure_no_static f k = search (steady, Falls-rest, k) depth 9

module _ {W : Type 0} (d : ℕ) (lib : Library) (db : Accounts W) (run : Action W Unit)
    (uncut : Uncut db) (child : d + 1 ≤ 1024 → Steady (suc d) 0 run) where
  pub Fall-homestead : Fall d (homestead_opcodes lib db run)
  unfolding homestead_opcodes
  Fall-homestead =
      search
        (
          Falls-as_opcode,
          positive,
          Steady-call_op,
          child,
          Fall-frontier_opcodes d lib db run uncut child,
        )
        depth 12

  pub Fall-tangerine_whistle : Fall d (tangerine_whistle_opcodes lib db run)
  unfolding tangerine_whistle_opcodes
  Fall-tangerine_whistle =
      search
        (
          Falls-as_opcode, positive, Steady-call_op, Steady-create_op, child, uncut, Fall-homestead,
          Steady-balance, Steady-extcodesize, Steady-extcodecopy, Steady-sload,
          Steady-selfdestruct_eip150,
        )
        depth 20

  pub Fall-spurious_dragon : Fall d (spurious_dragon_opcodes lib db run)
  unfolding spurious_dragon_opcodes
  Fall-spurious_dragon =
      search
        (
          Falls-as_opcode, positive, Steady-call_op, child, uncut, Fall-tangerine_whistle,
          Steady-exp, Steady-selfdestruct_eip161,
        )
        depth 20

  pub Fall-byzantium : Fall d (byzantium_opcodes lib db run)
  unfolding byzantium_opcodes as_opcode
  Fall-byzantium =
      search
        (
          Falls-as_opcode, positive, Steady-call_op, Steady-create_op, child, uncut,
          Fall-spurious_dragon, Steady-selfdestruct_eip161, Falls-revert_op, Steady-push_int,
          Steady-returndatacopy, Steady-log_xx, Steady-ensure_no_static, Falls-ensure_no_static,
          Falls-sstore,
        )
        depth 24
