-- ===== src/Vm/Logic/Data.antt =====
-- evm/vm/logic/stack.py, duplication.py, swap.py and memory.py.
use py_evm.Prelude.{ℕ, Bool, true, ◌&&◌, [], ◌∷◌, length, ◌==◌, if◌then◌else◌}
use py_evm.Prelude.Exec.{pure, gets, ◌>>=◌, ◌>>◌}
use py_evm.Numeric.{Bytes, rjust, ljust, last_bytes}
use py_evm.Vm.Stack.{int, bytes, uint256, any_bytes, any}
use py_evm.Vm.CodeStream
use py_evm.Vm.Computation.{
  Action, on_code, stack_pop, stack_push, stack_swap, stack_dup, extend_memory, memory_read,
  memory_write,
}

-- `not raw_value.strip(b'\x00')`: every byte is zero.
abbrev pub all_zero : Bytes → Bool
all_zero [] = true
all_zero (b ∷ bs) = b == 0 && all_zero bs

module _ {W : Type 0} where
  unfoldable pub pop : Action W Unit
  pop = do stack_pop any; pure tt

  unfoldable pub push_xx : ℕ → Action W Unit
  push_xx size = do
    raw_value ← on_code (CodeStream.read size)
    if all_zero raw_value then stack_push (int 0) else stack_push (bytes (ljust size raw_value))

  unfoldable pub dup_xx : ℕ → Action W Unit
  dup_xx position = stack_dup position

  unfoldable pub swap_xx : ℕ → Action W Unit
  swap_xx position = stack_swap position

  unfoldable pub mstore : Action W Unit
  mstore = do
    start_position ← stack_pop uint256
    value ← stack_pop any_bytes
    extend_memory start_position 32
    memory_write start_position 32 (last_bytes 32 (rjust 32 value))

  unfoldable pub mstore8 : Action W Unit
  mstore8 = do
    start_position ← stack_pop uint256
    value ← stack_pop any_bytes
    extend_memory start_position 1
    memory_write start_position 1 (last_bytes 1 (rjust 1 value))

  unfoldable pub mload : Action W Unit
  mload = do
    start_position ← stack_pop uint256
    extend_memory start_position 32
    value ← memory_read start_position 32
    stack_push (bytes value)

  unfoldable pub msize : Action W Unit
  msize = do size ← gets (λ c. length c.memory.content); stack_push (int size)
