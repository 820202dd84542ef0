-- ===== src/Vm/Opcodes.antt =====
-- evm/vm/forks/frontier/opcodes.py: the opcodes of the Frontier fork with their gas costs, and
-- `as_opcode` and `get_opcode_fn`. `run` is what a fresh computation of a child does.
use py_evm.Prelude.{ℕ, zero, suc, ◌+◌, List, [], ◌∷◌, ◌++◌, ◌==◌, if◌then◌else◌}
use py_evm.Constants.{
  gas_zero, gas_null, gas_base, gas_verylow, gas_low, gas_mid, gas_high, gas_exp, gas_expbyte,
  gas_extcode, gas_balance, gas_sload, gas_jumpdest, gas_create, gas_call, gas_log, gas_sha3,
  gas_blockhash, gas_selfdestruct,
}
use py_evm.Vm.Accounts.{Accounts, Library}
use py_evm.Vm.Computation.{Action, consume_gas}
use py_evm.Prelude.Exec.{◌>>◌}
use py_evm.Vm.Logic.Arithmetic.{
  add, addmod, sub, modulo, smod, mul, mulmod, div, sdiv, exp, signextend,
}
use py_evm.Vm.Logic.Comparison.{
  lt, gt, slt, sgt, eq, iszero, and_op, or_op, xor_op, not_op, byte_op,
}
use py_evm.Vm.Logic.Data.{pop, push_xx, dup_xx, swap_xx, mstore, mstore8, mload, msize}
use py_evm.Vm.Logic.Flow.{stop, jump, jumpi, jumpdest_op, pc, gas, invalid_opcode}
use py_evm.Vm.Logic.Copy.{
  origin, address, caller, callvalue, calldataload, calldatasize, calldatacopy, codesize, codecopy,
  gasprice, sha3, log_xx, return_op,
}
use py_evm.Vm.Logic.World.{
  blockhash, coinbase, timestamp, number, difficulty, gaslimit, balance, extcodesize, extcodecopy,
  sload, sstore, selfdestruct,
}
use py_evm.Vm.Logic.Call.{call, call_code, call_op}
use py_evm.Vm.Logic.Call.Create.{create, create_op}

abbrev pub Table : Type 0 → Type 0
Table W = List (ℕ × Action W Unit)

module _ {W : Type 0} where
  -- `Opcode.as_opcode`: without a cost the function is not wrapped.
  unfoldable pub as_opcode : ℕ → Action W Unit → Action W Unit
  as_opcode zero logic_fn = logic_fn
  as_opcode (suc cost) logic_fn = do consume_gas (suc cost); logic_fn

  -- `count` opcodes in a row, of one function at the indices from `index` on.
  unfoldable pub family : ℕ → ℕ → ℕ → ℕ → (ℕ → Action W Unit) → Table W
  unfolding as_opcode
  family opcode index cost zero logic_fn = []
  family opcode index cost (suc count) logic_fn =
      (opcode, as_opcode cost (logic_fn index))
      ∷ family (opcode + 1) (index + 1) cost count logic_fn

  unfoldable pub push_opcodes : Table W
  unfolding family
  push_opcodes = family 0x60 1 gas_verylow 32 push_xx

  unfoldable pub dup_opcodes : Table W
  unfolding family
  dup_opcodes = family 0x80 1 gas_verylow 16 dup_xx

  unfoldable pub swap_opcodes : Table W
  unfolding family
  swap_opcodes = family 0x90 1 gas_verylow 16 swap_xx

  unfoldable pub log_opcodes : Table W
  unfolding family
  log_opcodes = family 0xa0 0 gas_log 5 log_xx

  -- `get_opcode_fn`: an opcode that is not in the table is an `InvalidOpcode`.
  unfoldable pub get_opcode_fn : Table W → ℕ → Action W Unit
  get_opcode_fn [] opcode = invalid_opcode
  get_opcode_fn ((o, f) ∷ rest) opcode = if o == opcode then f else get_opcode_fn rest opcode

module _ {W : Type 0} (lib : Library) (db : Accounts W) (run : Action W Unit) where
  unfoldable pub arithmetic_opcodes : Table W
  unfolding as_opcode
  arithmetic_opcodes =
      (0x00, as_opcode gas_zero stop)
      ∷ (0x01, as_opcode gas_verylow add)
      ∷ (0x02, as_opcode gas_low mul)
      ∷ (0x03, as_opcode gas_verylow sub)
      ∷ (0x04, as_opcode gas_low div)
      ∷ (0x05, as_opcode gas_low sdiv)
      ∷ (0x06, as_opcode gas_low modulo)
      ∷ (0x07, as_opcode gas_low smod)
      ∷ (0x08, as_opcode gas_mid addmod)
      ∷ (0x09, as_opcode gas_mid mulmod)
      ∷ (0x0a, as_opcode gas_exp (exp gas_expbyte))
      ∷ (0x0b, as_opcode gas_low signextend)
      ∷ []

  unfoldable pub comparison_opcodes : Table W
  unfolding as_opcode
  comparison_opcodes =
      (0x10, as_opcode gas_verylow lt)
      ∷ (0x11, as_opcode gas_verylow gt)
      ∷ (0x12, as_opcode gas_verylow slt)
      ∷ (0x13, as_opcode gas_verylow sgt)
      ∷ (0x14, as_opcode gas_verylow eq)
      ∷ (0x15, as_opcode gas_verylow iszero)
      ∷ (0x16, as_opcode gas_verylow and_op)
      ∷ (0x17, as_opcode gas_verylow or_op)
      ∷ (0x18, as_opcode gas_verylow xor_op)
      ∷ (0x19, as_opcode gas_verylow not_op)
      ∷ (0x1a, as_opcode gas_verylow byte_op)
      ∷ []

  unfoldable pub environment_opcodes : Table W
  unfolding as_opcode
  environment_opcodes =
      (0x20, as_opcode gas_sha3 (sha3 lib))
      ∷ (0x30, as_opcode gas_base address)
      ∷ (0x31, as_opcode gas_balance (balance db))
      ∷ (0x32, as_opcode gas_base origin)
      ∷ (0x33, as_opcode gas_base caller)
      ∷ (0x34, as_opcode gas_base callvalue)
      ∷ (0x35, as_opcode gas_verylow calldataload)
      ∷ (0x36, as_opcode gas_base calldatasize)
      ∷ (0x37, as_opcode gas_verylow calldatacopy)
      ∷ (0x38, as_opcode gas_base codesize)
      ∷ (0x39, as_opcode gas_verylow codecopy)
      ∷ (0x3a, as_opcode gas_base gasprice)
      ∷ (0x3b, as_opcode gas_extcode (extcodesize db))
      ∷ (0x3c, as_opcode gas_extcode (extcodecopy db))
      ∷ []

  unfoldable pub block_opcodes : Table W
  unfolding as_opcode
  block_opcodes =
      (0x40, as_opcode gas_blockhash blockhash)
      ∷ (0x41, as_opcode gas_base coinbase)
      ∷ (0x42, as_opcode gas_base timestamp)
      ∷ (0x43, as_opcode gas_base number)
      ∷ (0x44, as_opcode gas_base difficulty)
      ∷ (0x45, as_opcode gas_base gaslimit)
      ∷ []

  unfoldable pub flow_opcodes : Table W
  unfolding as_opcode
  flow_opcodes =
      (0x50, as_opcode gas_base pop)
      ∷ (0x51, as_opcode gas_verylow mload)
      ∷ (0x52, as_opcode gas_verylow mstore)
      ∷ (0x53, as_opcode gas_verylow mstore8)
      ∷ (0x54, as_opcode gas_sload (sload db))
      ∷ (0x55, as_opcode gas_null (sstore db))
      ∷ (0x56, as_opcode gas_mid jump)
      ∷ (0x57, as_opcode gas_high jumpi)
      ∷ (0x58, as_opcode gas_base pc)
      ∷ (0x59, as_opcode gas_base msize)
      ∷ (0x5a, as_opcode gas_base gas)
      ∷ (0x5b, as_opcode gas_jumpdest jumpdest_op)
      ∷ []

  unfoldable pub system_opcodes : Table W
  unfolding as_opcode
  system_opcodes =
      (0xf0, as_opcode gas_create (create_op lib db run create))
      ∷ (0xf1, as_opcode gas_call (call_op db run call))
      ∷ (0xf2, as_opcode gas_call (call_op db run call_code))
      ∷ (0xf3, as_opcode gas_zero return_op)
      ∷ (0xff, as_opcode gas_selfdestruct (selfdestruct db))
      ∷ []

  -- FRONTIER_OPCODES
  unfoldable pub frontier_opcodes : Table W
  unfolding arithmetic_opcodes comparison_opcodes environment_opcodes block_opcodes flow_opcodes
  frontier_opcodes =
      arithmetic_opcodes
      ++ (comparison_opcodes
          ++ (environment_opcodes
              ++ (block_opcodes
                  ++ (flow_opcodes
                      ++ (push_opcodes
                          ++ (dup_opcodes ++ (swap_opcodes ++ (log_opcodes ++ system_opcodes))))))))
