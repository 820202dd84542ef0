-- ===== src/Vm/Steady/Table.antt =====
-- Every opcode of the Frontier table falls, given the computation of a child.
use py_evm.Prelude.{ℕ, suc, ◌+◌, ◌≤◌, ◌<◌, arith}
use py_evm.Vm.Opcodes.{
  arithmetic_opcodes, comparison_opcodes, environment_opcodes, block_opcodes, flow_opcodes,
  push_opcodes, dup_opcodes, swap_opcodes, log_opcodes, system_opcodes, frontier_opcodes, as_opcode,
}
use py_evm.Vm.Steady.{Steady}
use py_evm.Vm.Steady.Opcodes.{
  Steady-unary_op, Steady-binary_op, Steady-ternary_op, Steady-exp, Steady-pop, Steady-push_xx,
  Steady-dup_xx, Steady-swap_xx, Steady-mstore, Steady-mstore8, Steady-mload, Steady-msize,
  Steady-push_int, Steady-push_bytes, Steady-calldataload, Steady-calldatacopy, Steady-codecopy,
  Steady-sha3,
}
use py_evm.Vm.Steady.World.{
  Uncut, Steady-log_xx, Steady-jump, Steady-jumpi, Steady-jumpdest_op, Steady-pc, Steady-gas,
  Steady-blockhash, Steady-balance, Steady-extcodesize, Steady-extcodecopy, Steady-sload,
  Steady-register_account_for_deletion,
}
use py_evm.Vm.Steady.Calls.{Steady-call_op}
use py_evm.Vm.Steady.Creates.{Steady-create_op}
use py_evm.Vm.Steady.Falling.{
  Falls, Fall, Fall-append, Fall-family, Falls-as_opcode, Falls-first, Falls-rest, Falls-raise,
  Falls-consume_gas,
}
use py_evm.Vm.Accounts.{Accounts, Library}
use py_evm.Vm.Computation.{consume_gas, Action}
use py_evm.Exceptions.{halt}
use py_evm.Vm.Logic.Flow
use py_evm.Vm.Logic.Copy
use py_evm.Vm.Logic.World
use py_evm.Vm.Steady.Parts.{halt_ne, steady}

sstore_gas_pos : (current_value value : ℕ) → 0 < World.sstore_gas current_value value
unfolding World.sstore_gas
sstore_gas_pos current_value value = ground arith

pub positive : (n : ℕ) → 0 < suc n
positive n = omega arith

module _ (W : Type 0) (d : ℕ) where
  Fall-push : Fall {W = W} d push_opcodes
  unfolding push_opcodes
  Fall-push = Fall-family 0x60 1 3 32 _ (positive 2) Steady-push_xx

  Fall-dup : Fall {W = W} d dup_opcodes
  unfolding dup_opcodes
  Fall-dup = Fall-family 0x80 1 3 16 _ (positive 2) Steady-dup_xx

  Fall-swap : Fall {W = W} d swap_opcodes
  unfolding swap_opcodes
  Fall-swap = Fall-family 0x90 1 3 16 _ (positive 2) Steady-swap_xx

  Fall-log : Fall {W = W} d log_opcodes
  unfolding log_opcodes
  Fall-log = Fall-family 0xa0 0 375 5 _ (positive 374) Steady-log_xx

module _ {W : Type 0} {d : ℕ} where
  Steady-coinbase : Steady {W = W} d 0 World.coinbase
  Steady-coinbase = search steady

  Falls-stop : Falls {W = W} d Flow.stop
  unfolding Flow.stop
  Falls-stop = Falls-raise halt halt_ne

  pub Falls-return_op : Falls {W = W} d Copy.return_op
  unfolding Copy.return_op
  Falls-return_op = search (steady, Falls-rest, Falls-raise) depth 14

module _ {W : Type 0} {d : ℕ} (lib : Library) (db : Accounts W) (run : Action W Unit)
    (uncut : Uncut db) where
  pub Falls-sstore : Falls d (World.sstore db)
  unfolding World.sstore
  Falls-sstore = search (steady, Falls-rest, Falls-first, Falls-paid, uncut.set_storage) depth 16
    where
      Falls-paid :
          (current_value value : ℕ)
          → Falls {W = W} d (consume_gas (World.sstore_gas current_value value))
      Falls-paid current_value value = Falls-consume_gas _ (sstore_gas_pos current_value value)

  Falls-selfdestruct : Falls d (World.selfdestruct db)
  unfolding World.selfdestruct World.finish_selfdestruct
  Falls-selfdestruct =
      search
        (steady, Falls-rest, Falls-raise, uncut.set_balance, Steady-register_account_for_deletion)
        depth 20

module _ {W : Type 0} (d : ℕ) (lib : Library) (db : Accounts W) (run : Action W Unit)
    (uncut : Uncut db) where
  Fall-arithmetic : Fall d (arithmetic_opcodes lib db run)
  unfolding arithmetic_opcodes
  Fall-arithmetic =
      search
        (tt, Falls-stop, Falls-as_opcode, positive, Steady-binary_op, Steady-ternary_op, Steady-exp)
        depth 20

  Fall-comparison : Fall d (comparison_opcodes lib db run)
  unfolding comparison_opcodes
  Fall-comparison =
      search (tt, Falls-as_opcode, positive, Steady-unary_op, Steady-binary_op) depth 20

  Fall-environment : Fall d (environment_opcodes lib db run)
  unfolding environment_opcodes
  Fall-environment =
      search
        (
          tt, Falls-as_opcode, positive, Steady-sha3, Steady-push_int, Steady-push_bytes,
          Steady-balance, Steady-calldataload, Steady-calldatacopy, Steady-codecopy,
          Steady-extcodesize, Steady-extcodecopy,
        )
        depth 20

  Fall-block : Fall d (block_opcodes lib db run)
  unfolding block_opcodes
  Fall-block =
      search (tt, Falls-as_opcode, positive, Steady-blockhash, Steady-push_int, Steady-coinbase)
        depth 20

  Fall-flow : Fall d (flow_opcodes lib db run)
  unfolding flow_opcodes as_opcode
  Fall-flow =
      search
        (
          tt, Falls-as_opcode, positive, Steady-pop, Steady-mload, Steady-mstore, Steady-mstore8,
          Steady-sload, Falls-sstore, uncut, Steady-jump, Steady-jumpi, Steady-pc, Steady-msize,
          Steady-gas, Steady-jumpdest_op,
        )
        depth 20

  module _ (child : d + 1 ≤ 1024 → Steady (suc d) 0 run) where
    Fall-system : Fall d (system_opcodes lib db run)
    unfolding system_opcodes as_opcode
    Fall-system =
        search
          (
            tt, Falls-as_opcode, positive, Steady-create_op, Steady-call_op, uncut, child,
            Falls-return_op, Falls-selfdestruct,
          )
          depth 20

    pub Fall-frontier_opcodes : Fall d (frontier_opcodes lib db run)
    unfolding frontier_opcodes
    Fall-frontier_opcodes =
        search
          (
            Fall-append, Fall-arithmetic, Fall-comparison, Fall-environment, Fall-block, Fall-flow,
            Fall-push, Fall-dup, Fall-swap, Fall-log, Fall-system,
          )
          depth 24
