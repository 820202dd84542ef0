-- ===== src/Vm/Computation/Outcome.antt =====
-- evm/vm/computation.py: how a computation begins, the getters that read its outcome, and what a
-- parent takes over from a finished child.
use py_evm.Prelude.{ℕ, ◌+◌, ◌-◌, max, Bool, true, false, Option, none, some, [], if◌then◌else◌}
use py_evm.Prelude.Exec.{ok, err, pure, ◌>>◌, modify}
use py_evm.Exceptions.{VmError, burns_gas, erases_return_data}
use py_evm.Numeric.{Bytes}
use py_evm.Vm.Stack
use py_evm.Vm.Memory
use py_evm.Vm.CodeStream
use py_evm.Vm.Message.{Message, Address, build, storage_address, is_create}
use py_evm.Vm.Computation.{Action, Computation, Context, Own, Child, child, Children, nil, cons}

-- `BaseComputation.__init__`. The gas of a message that was built is in range.
abbrev pub start : {W : Type 0} → W → ℕ → Context → Message → Computation W
start accounts log_counter context msg = record {
  accounts = accounts;
  log_counter = log_counter;
  context = context;
  msg = msg;
  memory = Memory.empty;
  stack = Stack.empty;
  gas_meter = record { start_gas = msg.gas; gas_refunded = 0; gas_remaining = msg.gas };
  code = CodeStream.start msg.code;
  children = nil;
  output = [];
  return_data = [];
  error = none;
  log_entries = [];
  accounts_to_delete = [];
}

-- `is_error`, `should_burn_gas` and `should_erase_return_data`, by the error.
abbrev pub failed : Option VmError → Bool
failed none = false
failed (some _) = true

abbrev pub burns : Option VmError → Bool
burns none = false
burns (some e) = burns_gas e

abbrev pub erases : Option VmError → Bool
erases none = false
erases (some e) = erases_return_data e

module _ {W : Type 0} where
  unfoldable pub is_error : Computation W → Bool
  is_error c = failed c.error

  unfoldable pub should_burn_gas : Computation W → Bool
  should_burn_gas c = burns c.error

  unfoldable pub should_erase_return_data : Computation W → Bool
  should_erase_return_data c = erases c.error

  unfoldable pub get_output : Computation W → Bytes
  unfolding should_erase_return_data
  get_output c = if should_erase_return_data c then [] else c.output

  unfoldable pub get_gas_remaining : Computation W → ℕ
  unfolding should_burn_gas
  get_gas_remaining c = if should_burn_gas c then 0 else c.gas_meter.gas_remaining

  unfoldable pub get_gas_used : Computation W → ℕ
  unfolding should_burn_gas
  get_gas_used c =
      if should_burn_gas c then c.msg.gas else max 0 (c.msg.gas - c.gas_meter.gas_remaining)

  -- What the getters of the parent read of this computation.
  abbrev pub own : Computation W → Own
  own c = record {
    error = c.error;
    log_entries = c.log_entries;
    accounts_to_delete = c.accounts_to_delete;
    gas_refunded = c.gas_meter.gas_refunded;
  }

  abbrev pub as_child : Computation W → Child
  as_child c = child (own c) c.children

-- `children.append`
abbrev pub append_child : Children → Child → Children
append_child nil c = cons c nil
append_child (cons d rest) c = cons d (append_child rest c)

module _ {W : Type 0} where
  -- `prepare_child_message`; without a sender the storage address sends.
  unfoldable pub prepare_child_message : Option Address → Message → Action W Message
  prepare_child_message none m c =
      (build (record m { sender = storage_address c.msg; depth = c.msg.depth + 1 }), c)
  prepare_child_message (some sender) m c =
      (build (record m { sender = sender; depth = c.msg.depth + 1 }), c)

  -- The `return_data` that `add_child_computation` sets.
  unfoldable pub child_return_data : Computation W → Bytes
  unfolding is_error should_burn_gas get_output
  child_return_data d =
      if is_error d
      then if is_create d.msg then get_output d else if should_burn_gas d then [] else get_output d
      else if is_create d.msg
      then []
      else get_output d

  -- `add_child_computation`, and the shared state as the child leaves it.
  unfoldable pub add_child_computation : Computation W → Action W Unit
  unfolding child_return_data
  add_child_computation d = modify (λ c. record c {
    accounts = d.accounts;
    log_counter = d.log_counter;
    return_data = child_return_data d;
    children = append_child c.children (as_child d);
  })

  -- `apply_child_computation`, where `run` is what the class does with a fresh computation
  -- (`generate_child_computation`). An exception of the child's goes on through the parent.
  unfoldable pub apply_child_computation : Action W Unit → Message → Action W (Computation W)
  unfolding add_child_computation
  apply_child_computation run child_msg c =
      let (r, d) = run (start c.accounts c.log_counter c.context child_msg) in
      elim r [
        | ok _ ↦ (add_child_computation d >> pure d) c
        | err e ↦ (err e, record c { accounts = d.accounts; log_counter = d.log_counter })
      ]
