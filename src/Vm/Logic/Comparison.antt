-- ===== src/Vm/Logic/Comparison.antt =====
-- evm/vm/logic/comparison.py
use py_evm.Vm.Computation.{Action}
use py_evm.Vm.Logic.Arithmetic.{unary_op, binary_op}
use py_evm.Vm.Logic.Words.{
  lt_word, gt_word, slt_word, sgt_word, eq_word, iszero_word, and_word, or_word, xor_word, not_word,
  byte_word,
}

module _ {W : Type 0} where
  abbrev pub lt : Action W Unit
  lt = binary_op lt_word

  abbrev pub gt : Action W Unit
  gt = binary_op gt_word

  abbrev pub slt : Action W Unit
  slt = binary_op slt_word

  abbrev pub sgt : Action W Unit
  sgt = binary_op sgt_word

  abbrev pub eq : Action W Unit
  eq = binary_op eq_word

  abbrev pub iszero : Action W Unit
  iszero = unary_op iszero_word

  abbrev pub and_op : Action W Unit
  and_op = binary_op and_word

  abbrev pub or_op : Action W Unit
  or_op = binary_op or_word

  abbrev pub xor_op : Action W Unit
  xor_op = binary_op xor_word

  abbrev pub not_op : Action W Unit
  not_op = unary_op not_word

  abbrev pub byte_op : Action W Unit
  byte_op = binary_op byte_word
