-- ===== src/Exceptions.antt =====
-- evm/exceptions.py: the errors that the virtual machine raises, and Python's own.
use py_evm.Prelude.{Bool, true, false}

-- The subclasses of `VMError`.
pub data VmError : Type 0 where
  out_of_gas insufficient_stack full_stack invalid_jump_destination invalid_instruction : VmError
  insufficient_funds stack_depth_limit_error contract_creation_collision : VmError
  incorrect_contract_creation_address revert write_protection out_of_bounds_read : VmError

-- What a call may raise: a `VMError`, `Halt`, or an error that the interpreter does not handle.
-- `fuel_exhausted` is no exception of the program: it marks a run that was cut off.
pub data Exception : Type 0 where
  vm_error : VmError → Exception
  halt validation_error value_error type_error key_error index_error fuel_exhausted : Exception
  attribute_error vm_not_found : Exception
  assertion_error header_not_found canonical_head_not_found parent_not_found transaction_not_found :
      Exception

-- The class attribute `burns_gas`.
abbrev pub burns_gas : VmError → Bool
burns_gas revert = false
burns_gas _ = true

-- The class attribute `erases_return_data`.
abbrev pub erases_return_data : VmError → Bool
erases_return_data revert = false
erases_return_data _ = true
