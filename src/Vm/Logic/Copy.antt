-- ===== src/Vm/Logic/Copy.antt =====
-- evm/vm/logic/context.py (all but the opcodes that read accounts), sha3.py, logging.py, and RETURN
-- and REVERT of system.py.
use py_evm.Prelude.{ℕ, ◌+◌, ◌*◌, ◌/◌, not, List, [], ◌∷◌, ◌++◌, length, ltb}
use py_evm.Prelude.Exec.{raise, gets, ◌>>=◌, ◌>>◌, modify, raise_if}
use py_evm.Constants.{gas_copy, gas_sha3word, gas_logdata, gas_logtopic}
use py_evm.Exceptions.{vm_error, halt, revert, out_of_bounds_read, type_error, validation_error}
use py_evm.Numeric.{Bytes, ceil32, ljust, lstrip, slice}
use py_evm.Vm.Stack.{int, bytes, uint256}
use py_evm.Vm.CodeStream
use py_evm.Vm.CodeStream.{CodeStream}
use py_evm.Vm.Message.{Address, storage_address, is_canonical}
use py_evm.Vm.Accounts.{Library}
use py_evm.Vm.Computation.{
  Action, Computation, on_code, consume_gas, stack_pop, stack_pop2, stack_pop3, stack_pop_list,
  stack_push, extend_memory, memory_read, memory_write, set_output,
}

-- `with code.seek(start): code.read(size)`: the program counter comes back afterwards.
unfoldable pub read_at : ℕ → ℕ → CodeStream → Bytes × CodeStream
read_at start_position size c =
    let (found, c') = CodeStream.read size (CodeStream.seek start_position c) in
    (found, CodeStream.seek c.position c')

module _ {W : Type 0} where
  -- `computation.stack_push` of a value that the computation holds.
  unfoldable pub push_int : (Computation W → ℕ) → Action W Unit
  push_int f = do value ← gets f; stack_push (int value)

  unfoldable pub push_bytes : (Computation W → Bytes) → Action W Unit
  push_bytes f = do value ← gets f; stack_push (bytes value)

  abbrev pub origin : Action W Unit
  origin = push_bytes (λ c. c.context.origin)

  abbrev pub address : Action W Unit
  address = push_bytes (λ c. storage_address c.msg)

  abbrev pub caller : Action W Unit
  caller = push_bytes (λ c. c.msg.sender)

  abbrev pub callvalue : Action W Unit
  callvalue = push_int (λ c. c.msg.value)

  unfoldable pub calldataload : Action W Unit
  calldataload = do
    start_position ← stack_pop uint256
    value ← gets (λ c. slice start_position 32 c.msg.contents)
    stack_push (bytes (lstrip (ljust 32 value)))

  abbrev pub calldatasize : Action W Unit
  calldatasize = push_int (λ c. length c.msg.contents)

  -- The end of the copying opcodes: the fee for the words, and the bytes, filled up with zeros.
  unfoldable pub copy_fee : ℕ → Action W Unit
  copy_fee size = consume_gas (ceil32 size / 32 * gas_copy)

  unfoldable pub calldatacopy : Action W Unit
  unfolding copy_fee
  calldatacopy = do
    (mem_start_position, calldata_start_position, size) ← stack_pop3 uint256
    extend_memory mem_start_position size
    copy_fee size
    value ← gets (λ c. slice calldata_start_position size c.msg.contents)
    memory_write mem_start_position size (ljust size value)

  abbrev pub codesize : Action W Unit
  codesize = push_int (λ c. length c.code.code)

  unfoldable pub codecopy : Action W Unit
  unfolding copy_fee
  codecopy = do
    (mem_start_position, code_start_position, size) ← stack_pop3 uint256
    extend_memory mem_start_position size
    copy_fee size
    code_bytes ← on_code (read_at code_start_position size)
    memory_write mem_start_position size (ljust size code_bytes)

  abbrev pub gasprice : Action W Unit
  gasprice = push_int (λ c. c.context.gas_price)

  abbrev pub returndatasize : Action W Unit
  returndatasize = push_int (λ c. length c.return_data)

  unfoldable pub returndatacopy : Action W Unit
  unfolding copy_fee
  returndatacopy = do
    (mem_start_position, returndata_start_position, size) ← stack_pop3 uint256
    held ← gets (λ c. c.return_data)
    raise_if (ltb (length held) (returndata_start_position + size)) (vm_error out_of_bounds_read)
    extend_memory mem_start_position size
    copy_fee size
    memory_write mem_start_position size (slice returndata_start_position size held)

  unfoldable pub sha3 : Library → Action W Unit
  sha3 lib = do
    (start_position, size) ← stack_pop2 uint256
    extend_memory start_position size
    sha3_bytes ← memory_read start_position size
    consume_gas (gas_sha3word * (ceil32 (length sha3_bytes) / 32))
    stack_push (bytes (lib.keccak sha3_bytes))

  -- `add_log_entry`, with the shared counter of the transaction context.
  unfoldable pub add_log_entry : Address → List ℕ → Bytes → Action W Unit
  add_log_entry account topics contents = do
    raise_if (not (is_canonical account)) validation_error
    modify (λ c. record c {
      log_counter = c.log_counter + 1;
      log_entries =
          c.log_entries
          ++ record {
            counter = c.log_counter;
            account = account;
            topics = topics;
            contents = contents;
          }
            ∷ [];
    })

  unfoldable pub log_xx : ℕ → Action W Unit
  unfolding add_log_entry
  log_xx topic_count = do
    raise_if (ltb 4 topic_count) type_error
    (mem_start_position, size) ← stack_pop2 uint256
    topics ← stack_pop_list topic_count uint256
    consume_gas (gas_logdata * size + gas_logtopic * topic_count)
    extend_memory mem_start_position size
    log_data ← memory_read mem_start_position size
    account ← gets (λ c. storage_address c.msg)
    add_log_entry account topics log_data

  unfoldable pub return_op : Action W Unit
  return_op = do
    (start_position, size) ← stack_pop2 uint256
    extend_memory start_position size
    output ← memory_read start_position size
    set_output output
    raise halt

  unfoldable pub revert_op : Action W Unit
  revert_op = do
    (start_position, size) ← stack_pop2 uint256
    extend_memory start_position size
    output ← memory_read start_position size
    set_output output
    raise (vm_error revert)
