-- ===== src/Vm/Logic/Arithmetic.antt =====
-- evm/vm/logic/arithmetic.py: each function pops its operands, computes on words and pushes.
use py_evm.Prelude.{ℕ, ◌*◌}
use py_evm.Prelude.Exec.{◌>>=◌, ◌>>◌}
use py_evm.Vm.Stack.{int, uint256}
use py_evm.Vm.Computation.{Action, consume_gas, stack_pop, stack_pop2, stack_pop3, stack_push}
use py_evm.Vm.Logic.Words.{
  add_word, addmod_word, sub_word, mod_word, smod_word, mul_word, mulmod_word, div_word, sdiv_word,
  exp_word, exp_byte_size, signextend_word,
}

module _ {W : Type 0} where
  -- The shape that the functions of one, two and three operands share.
  unfoldable pub unary_op : (ℕ → ℕ) → Action W Unit
  unary_op f = do value ← stack_pop uint256; stack_push (int (f value))

  unfoldable pub binary_op : (ℕ → ℕ → ℕ) → Action W Unit
  binary_op f = do (left, right) ← stack_pop2 uint256; stack_push (int (f left right))

  unfoldable pub ternary_op : (ℕ → ℕ → ℕ → ℕ) → Action W Unit
  ternary_op f = do
    (left, right, modulus) ← stack_pop3 uint256
    stack_push (int (f left right modulus))

  abbrev pub add : Action W Unit
  add = binary_op add_word

  abbrev pub addmod : Action W Unit
  addmod = ternary_op addmod_word

  abbrev pub sub : Action W Unit
  sub = binary_op sub_word

  abbrev pub modulo : Action W Unit
  modulo = binary_op mod_word

  abbrev pub smod : Action W Unit
  smod = binary_op smod_word

  abbrev pub mul : Action W Unit
  mul = binary_op mul_word

  abbrev pub mulmod : Action W Unit
  mulmod = ternary_op mulmod_word

  abbrev pub div : Action W Unit
  div = binary_op div_word

  abbrev pub sdiv : Action W Unit
  sdiv = binary_op sdiv_word

  unfoldable pub exp : ℕ → Action W Unit
  exp gas_per_byte = do
    (base, exponent) ← stack_pop2 uint256
    consume_gas (gas_per_byte * exp_byte_size exponent)
    stack_push (int (exp_word base exponent))

  abbrev pub signextend : Action W Unit
  signextend = binary_op signextend_word
