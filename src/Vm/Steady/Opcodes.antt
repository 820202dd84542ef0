-- ===== src/Vm/Steady/Opcodes.antt =====
-- The functions of the opcodes that run no other computation are steady.
use py_evm.Prelude.{ℕ, List}
use py_evm.Vm.Accounts.{Library}
use py_evm.Vm.CodeStream
use py_evm.Vm.CodeStream.{CodeStream}
use py_evm.Vm.Computation.{Computation, on_code}
use py_evm.Vm.Logic.Arithmetic.{unary_op, binary_op, ternary_op, exp}
use py_evm.Vm.Logic.Data
use py_evm.Vm.Logic.Copy
use py_evm.Vm.Steady.{Steady}
use py_evm.Vm.Steady.Parts.{Steady-on_code, steady}

module _ {W : Type 0} {d : ℕ} where
  pub Steady-unary_op : (f : ℕ → ℕ) → Steady {W = W} d 0 (unary_op f)
  unfolding unary_op
  Steady-unary_op f = search steady

  pub Steady-binary_op : (f : ℕ → ℕ → ℕ) → Steady {W = W} d 0 (binary_op f)
  unfolding binary_op
  Steady-binary_op f = search steady

  pub Steady-ternary_op : (f : ℕ → ℕ → ℕ → ℕ) → Steady {W = W} d 0 (ternary_op f)
  unfolding ternary_op
  Steady-ternary_op f = search steady

  pub Steady-exp : (gas_per_byte : ℕ) → Steady {W = W} d 0 (exp gas_per_byte)
  unfolding exp
  Steady-exp gas_per_byte = search steady depth 9

  pub Steady-pop : Steady {W = W} d 0 (Data.pop)
  unfolding Data.pop
  Steady-pop = search steady depth 12

  Steady-read : (size : ℕ) → Steady {W = W} d 0 (on_code (CodeStream.read size))
  unfolding CodeStream.read
  Steady-read size =
      Steady-on_code (CodeStream.read size) (λ s h. record { knows = h.knows; depth = h.depth })

  Steady-read_at :
      (start_position size : ℕ) → Steady {W = W} d 0 (on_code (Copy.read_at start_position size))
  unfolding CodeStream.read CodeStream.seek Copy.read_at
  Steady-read_at start_position size =
      Steady-on_code (Copy.read_at start_position size)
        (λ s h. record { knows = h.knows; depth = h.depth })

  pub Steady-push_xx : (size : ℕ) → Steady {W = W} d 0 (Data.push_xx size)
  unfolding Data.push_xx
  Steady-push_xx size = search (steady, Steady-read) depth 12

  pub Steady-dup_xx : (position : ℕ) → Steady {W = W} d 0 (Data.dup_xx position)
  unfolding Data.dup_xx
  Steady-dup_xx position = search steady depth 12

  pub Steady-swap_xx : (position : ℕ) → Steady {W = W} d 0 (Data.swap_xx position)
  unfolding Data.swap_xx
  Steady-swap_xx position = search steady depth 12

  pub Steady-mstore : Steady {W = W} d 0 (Data.mstore)
  unfolding Data.mstore
  Steady-mstore = search steady depth 12

  pub Steady-mstore8 : Steady {W = W} d 0 (Data.mstore8)
  unfolding Data.mstore8
  Steady-mstore8 = search steady depth 12

  pub Steady-mload : Steady {W = W} d 0 (Data.mload)
  unfolding Data.mload
  Steady-mload = search steady depth 12

  pub Steady-msize : Steady {W = W} d 0 (Data.msize)
  unfolding Data.msize
  Steady-msize = search steady depth 12

  pub Steady-push_int : (f : Computation W → ℕ) → Steady d 0 (Copy.push_int f)
  unfolding Copy.push_int
  Steady-push_int f = search steady

  pub Steady-push_bytes : (f : Computation W → List ℕ) → Steady d 0 (Copy.push_bytes f)
  unfolding Copy.push_bytes
  Steady-push_bytes f = search steady

  pub Steady-calldataload : Steady {W = W} d 0 (Copy.calldataload)
  unfolding Copy.calldataload
  Steady-calldataload = search steady depth 12

  pub Steady-calldatacopy : Steady {W = W} d 0 (Copy.calldatacopy)
  unfolding Copy.calldatacopy Copy.copy_fee
  Steady-calldatacopy = search steady depth 14

  pub Steady-codecopy : Steady {W = W} d 0 (Copy.codecopy)
  unfolding Copy.codecopy Copy.copy_fee
  Steady-codecopy = search (steady, Steady-read_at) depth 14

  pub Steady-returndatacopy : Steady {W = W} d 0 (Copy.returndatacopy)
  unfolding Copy.returndatacopy Copy.copy_fee
  Steady-returndatacopy = search steady depth 16

  pub Steady-sha3 : (lib : Library) → Steady {W = W} d 0 (Copy.sha3 lib)
  unfolding Copy.sha3
  Steady-sha3 lib = search steady depth 12
