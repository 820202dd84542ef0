-- ===== src/Vm/Computation.antt =====
-- evm/vm/computation.py: `class BaseComputation`, its state and the calls that change one part of
-- it. `W` is the account database, which all computations of a transaction share: it is handed from
-- one to the next, and so is the counter of log entries.
pub mod Outcome
pub mod Expansion
pub mod Collect
use py_evm.Prelude.{ℕ, ◌+◌, ◌-◌, ◌*◌, ◌/◌, ◌^◌, List, Option, ltb, ◌==◌, length, if◌then◌else◌}
use py_evm.Prelude.Int.{pos}
use py_evm.Prelude.Exec.{◌>>=◌, ◌>>◌, ok, Exec, pure, gets, modify, zoom}
use py_evm.Constants.{gas_memory, gas_memory_quadratic_denominator}
use py_evm.Exceptions.{Exception, VmError}
use py_evm.Numeric.{Bytes, ceil32}
use py_evm.Vm.Stack
use py_evm.Vm.Stack.{Stack, Item, TypeHint, Popped}
use py_evm.Vm.Memory
use py_evm.Vm.Memory.{Memory, validate_uint256}
use py_evm.Vm.GasMeter
use py_evm.Vm.GasMeter.{GasMeter}
use py_evm.Vm.CodeStream
use py_evm.Vm.CodeStream.{CodeStream}
use py_evm.Vm.Message.{Message, Address}

-- The execution context of evm/vm/state.py, and the constant part of the transaction context.
pub record Context : Type 0 where
  pub coinbase : Address
  pub timestamp : ℕ
  pub block_number : ℕ
  pub difficulty : ℕ
  pub gas_limit : ℕ
  pub prev_hashes : List Bytes
  pub gas_price : ℕ
  pub origin : Address

pub record LogEntry : Type 0 where
  pub counter : ℕ
  pub account : Address
  pub topics : List ℕ
  pub contents : Bytes

-- What a computation's getters read of a finished computation: its own part, and its children.
pub record Own : Type 0 where
  pub error : Option VmError
  pub log_entries : List LogEntry
  pub accounts_to_delete : List (Address × Address)
  pub gas_refunded : ℕ

mutual
  pub data Child : Type 0 where
    child : Own → Children → Child

  pub data Children : Type 0 where
    nil : Children
    cons : Child → Children → Children

pub record Computation (W : Type 0) : Type 0 where
  pub accounts : W
  pub log_counter : ℕ
  pub context : Context
  pub msg : Message
  pub memory : Memory
  pub stack : Stack
  pub gas_meter : GasMeter
  pub code : CodeStream
  pub children : Children
  pub output : Bytes
  pub return_data : Bytes
  pub error : Option VmError
  pub log_entries : List LogEntry
  pub accounts_to_delete : List (Address × Address)

abbrev pub Action : Type 0 → Type 0 → Type 0
Action W = Exec Exception (Computation W)

unfoldable pub memory_gas_cost : ℕ → ℕ
memory_gas_cost size_in_bytes =
    let size_in_words = ceil32 size_in_bytes / 32 in
    size_in_words * gas_memory + size_in_words ^ 2 / gas_memory_quadratic_denominator

module _ {W : Type 0} where
  -- The calls that the computation hands on to one of its parts.
  abbrev pub on_stack : {A : Type 0} → Stack.Action A → Action W A
  on_stack = zoom (λ c. c.stack) (λ t c. record c { stack = t })

  abbrev pub on_memory : {A : Type 0} → Memory.Action A → Action W A
  on_memory = zoom (λ c. c.memory) (λ t c. record c { memory = t })

  abbrev pub on_gas : {A : Type 0} → GasMeter.Action A → Action W A
  on_gas = zoom (λ c. c.gas_meter) (λ t c. record c { gas_meter = t })

  abbrev pub on_code : {A : Type 0} → (CodeStream → A × CodeStream) → Action W A
  on_code m c = let (a, t) = m c.code in (ok a, record c { code = t })

  unfoldable pub consume_gas : ℕ → Action W Unit
  consume_gas amount = on_gas (GasMeter.consume_gas (pos amount))

  unfoldable pub return_gas : ℕ → Action W Unit
  return_gas amount = on_gas (GasMeter.return_gas (pos amount))

  unfoldable pub refund_gas : ℕ → Action W Unit
  refund_gas amount = on_gas (GasMeter.refund_gas (pos amount))

  unfoldable pub stack_push : Item → Action W Unit
  stack_push value = on_stack (Stack.push value)

  unfoldable pub stack_pop : (hint : TypeHint) → Action W (Popped hint)
  stack_pop hint = on_stack (Stack.pop hint)

  unfoldable pub stack_pop2 : (hint : TypeHint) → Action W (Popped hint × Popped hint)
  stack_pop2 hint = on_stack (Stack.pop2 hint)

  unfoldable pub stack_pop3 : (hint : TypeHint) → Action W (Popped hint × Popped hint × Popped hint)
  stack_pop3 hint = on_stack (Stack.pop3 hint)

  unfoldable pub stack_pop_list : ℕ → (hint : TypeHint) → Action W (List (Popped hint))
  stack_pop_list count hint = on_stack (Stack.pop_list count hint)

  unfoldable pub stack_swap : ℕ → Action W Unit
  stack_swap position = on_stack (Stack.swap position)

  unfoldable pub stack_dup : ℕ → Action W Unit
  stack_dup position = on_stack (Stack.dup position)

  unfoldable pub memory_read : ℕ → ℕ → Action W Bytes
  memory_read start_position size = gets (λ c. Memory.read start_position size c.memory)

  unfoldable pub memory_write : ℕ → ℕ → Bytes → Action W Unit
  memory_write start_position size value = on_memory (Memory.write start_position size value)

  unfoldable pub pay_expansion : ℕ → ℕ → Action W Unit
  unfolding consume_gas
  pay_expansion before_size after_size =
      if ltb (memory_gas_cost before_size) (memory_gas_cost after_size)
      then consume_gas (memory_gas_cost after_size - memory_gas_cost before_size)
      else pure tt

  unfoldable pub extend_memory : ℕ → ℕ → Action W Unit
  unfolding pay_expansion
  extend_memory start_position size = do
    validate_uint256 start_position
    validate_uint256 size
    before_size ← gets (λ c. ceil32 (length c.memory.content))
    if size == 0 then pure tt else do
      pay_expansion before_size (ceil32 (start_position + size))
      modify (λ c. record c { memory = Memory.extend start_position size c.memory })

  -- The setter of `output`.
  unfoldable pub set_output : Bytes → Action W Unit
  set_output value = modify (λ c. record c { output = value })
