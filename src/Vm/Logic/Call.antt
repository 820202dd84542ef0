-- ===== src/Vm/Logic/Call.antt =====
-- evm/vm/logic/call.py: the classes of the calling opcodes.
pub mod Create
use py_evm.Prelude.{
  ℕ, ◌+◌, ◌-◌, ◌/◌, min, Bool, true, false, ◌&&◌, ◌||◌, not, Option, none, some, [], length, take,
  ltb, ◌==◌, if◌then◌else◌,
}
use py_evm.Prelude.Exec.{pure, gets, ◌>>=◌, ◌>>◌, modify, raise_if}
use py_evm.Constants.{gas_callvalue, gas_callstipend, gas_newaccount, stack_depth_limit}
use py_evm.Exceptions.{vm_error, out_of_gas, write_protection}
use py_evm.Numeric.{Bytes}
use py_evm.Vm.Stack.{int, uint256, any_bytes}
use py_evm.Vm.Message.{Message, Address, storage_address, force_bytes_to_address}
use py_evm.Vm.Accounts.{Accounts}
use py_evm.Vm.Computation.{
  Action, Computation, consume_gas, return_gas, stack_pop, stack_pop2, stack_push, extend_memory,
  memory_read, memory_write,
}
use py_evm.Vm.Computation.Outcome.{
  is_error, should_burn_gas, should_erase_return_data, get_output, get_gas_remaining,
  prepare_child_message, apply_child_computation,
}

-- The subclasses of `BaseCall`.
pub data CallClass : Type 0 where
  call call_code delegate_call : CallClass
  call_eip150 call_code_eip150 delegate_call_eip150 : CallClass
  call_eip161 static_call call_byzantium : CallClass

-- The tuple that `get_call_params` returns.
pub record CallParams : Type 0 where
  pub gas : ℕ
  pub value : ℕ
  pub to : Address
  pub sender : Option Address
  pub code_address : Option Address
  pub input_start : ℕ
  pub input_size : ℕ
  pub output_start : ℕ
  pub output_size : ℕ
  pub should_transfer_value : Bool
  pub is_static : Bool

-- The gas and the address, which every class pops first.
abbrev pub Target : Type 0
Target = ℕ × Address

-- Start and size of the input in memory, and of the output.
abbrev pub Ranges : Type 0
Ranges = ℕ × ℕ × ℕ × ℕ

-- `max_child_gas_eip150`
unfoldable pub max_child_gas_eip150 : ℕ → ℕ
max_child_gas_eip150 gas = gas - gas / 64

-- `constants.GAS_CALLSTIPEND if value else 0`
abbrev pub stipend : ℕ → ℕ
stipend value = if value == 0 then 0 else gas_callstipend

-- `constants.GAS_CALLVALUE if value else 0`
abbrev pub transfer_gas_fee : ℕ → ℕ
transfer_gas_fee value = if value == 0 then 0 else gas_callvalue

module _ {W : Type 0} where
  unfoldable pub pop_target : Action W Target
  pop_target = do
    gas ← stack_pop uint256
    raw ← stack_pop any_bytes
    pure (gas, force_bytes_to_address raw)

  unfoldable pub pop_ranges : Action W Ranges
  pop_ranges = do
    (input_start, input_size) ← stack_pop2 uint256
    (output_start, output_size) ← stack_pop2 uint256
    pure (input_start, input_size, output_start, output_size)

  -- `Call.get_call_params`
  unfoldable pub call_params : Action W CallParams
  unfolding pop_target pop_ranges
  call_params = do
    (gas, to) ← pop_target
    value ← stack_pop uint256
    (input_start, input_size, output_start, output_size) ← pop_ranges
    is_static ← gets (λ c. c.msg.is_static)
    pure (record {
      gas = gas;
      value = value;
      to = to;
      sender = none;
      code_address = none;
      input_start = input_start;
      input_size = input_size;
      output_start = output_start;
      output_size = output_size;
      should_transfer_value = true;
      is_static = is_static;
    })

  -- `CallCode.get_call_params`
  unfoldable pub call_code_params : Action W CallParams
  unfolding pop_target pop_ranges
  call_code_params = do
    (gas, code_address) ← pop_target
    value ← stack_pop uint256
    (input_start, input_size, output_start, output_size) ← pop_ranges
    msg ← gets (λ c. c.msg)
    pure (record {
      gas = gas;
      value = value;
      to = storage_address msg;
      sender = some (storage_address msg);
      code_address = some code_address;
      input_start = input_start;
      input_size = input_size;
      output_start = output_start;
      output_size = output_size;
      should_transfer_value = true;
      is_static = msg.is_static;
    })

  -- `DelegateCall.get_call_params`
  unfoldable pub delegate_call_params : Action W CallParams
  unfolding pop_target pop_ranges
  delegate_call_params = do
    (gas, code_address) ← pop_target
    (input_start, input_size, output_start, output_size) ← pop_ranges
    msg ← gets (λ c. c.msg)
    pure (record {
      gas = gas;
      value = msg.value;
      to = storage_address msg;
      sender = some msg.sender;
      code_address = some code_address;
      input_start = input_start;
      input_size = input_size;
      output_start = output_start;
      output_size = output_size;
      should_transfer_value = false;
      is_static = msg.is_static;
    })

  -- `StaticCall.get_call_params`
  unfoldable pub static_call_params : Action W CallParams
  unfolding pop_target pop_ranges
  static_call_params = do
    (gas, to) ← pop_target
    (input_start, input_size, output_start, output_size) ← pop_ranges
    pure (record {
      gas = gas;
      value = 0;
      to = to;
      sender = none;
      code_address = none;
      input_start = input_start;
      input_size = input_size;
      output_start = output_start;
      output_size = output_size;
      should_transfer_value = false;
      is_static = true;
    })

  -- `CallByzantium.get_call_params`
  unfoldable pub call_byzantium_params : Action W CallParams
  unfolding call_params
  call_byzantium_params = do
    params ← call_params
    is_static ← gets (λ c. c.msg.is_static)
    raise_if (is_static && not (params.value == 0)) (vm_error write_protection)
    pure params

  unfoldable pub get_call_params : CallClass → Action W CallParams
  unfolding call_params call_code_params delegate_call_params static_call_params
      call_byzantium_params
  get_call_params call = call_params
  get_call_params call_code = call_code_params
  get_call_params delegate_call = delegate_call_params
  get_call_params call_eip150 = call_params
  get_call_params call_code_eip150 = call_code_params
  get_call_params delegate_call_eip150 = delegate_call_params
  get_call_params call_eip161 = call_params
  get_call_params static_call = static_call_params
  get_call_params call_byzantium = call_byzantium_params

  -- `compute_eip150_msg_gas`
  unfoldable pub compute_eip150_msg_gas : ℕ → ℕ → ℕ → Action W (ℕ × ℕ)
  compute_eip150_msg_gas gas extra_gas callstipend = do
    remaining ← gets get_gas_remaining
    raise_if (ltb remaining extra_gas) (vm_error out_of_gas)
    let given = min gas (max_child_gas_eip150 (remaining - extra_gas))
    pure (given + callstipend, given + extra_gas)

module _ {W : Type 0} (db : Accounts W) where
  -- `compute_msg_extra_gas` of `Call`, and of `CallEIP161`.
  unfoldable pub call_extra_gas : W → Address → ℕ → ℕ
  call_extra_gas w to value =
      transfer_gas_fee value + (if db.account_exists w to then 0 else gas_newaccount)

  unfoldable pub eip161_extra_gas : W → Address → ℕ → ℕ
  eip161_extra_gas w to value =
      transfer_gas_fee value
      + (if (not (db.account_exists w to) || db.account_is_empty w to) && not (value == 0)
          then gas_newaccount
          else 0)

  unfoldable pub compute_msg_extra_gas : CallClass → W → Address → ℕ → ℕ
  unfolding call_extra_gas eip161_extra_gas
  compute_msg_extra_gas call w to value = call_extra_gas w to value
  compute_msg_extra_gas call_code w to value = transfer_gas_fee value
  compute_msg_extra_gas delegate_call w to value = 0
  compute_msg_extra_gas call_eip150 w to value = call_extra_gas w to value
  compute_msg_extra_gas call_code_eip150 w to value = transfer_gas_fee value
  compute_msg_extra_gas delegate_call_eip150 w to value = 0
  compute_msg_extra_gas call_eip161 w to value = eip161_extra_gas w to value
  compute_msg_extra_gas static_call w to value = eip161_extra_gas w to value
  compute_msg_extra_gas call_byzantium w to value = eip161_extra_gas w to value

  -- `compute_msg_gas`: the gas of the child's message, and the fee of the caller.
  unfoldable pub compute_msg_gas : CallClass → ℕ → Address → ℕ → Action W (ℕ × ℕ)
  unfolding compute_msg_extra_gas compute_eip150_msg_gas
  compute_msg_gas call gas to value = do
    extra_gas ← gets (λ c. compute_msg_extra_gas call c.accounts to value)
    pure (gas + stipend value, gas + extra_gas)
  compute_msg_gas call_code gas to value = do
    extra_gas ← gets (λ c. compute_msg_extra_gas call_code c.accounts to value)
    pure (gas + stipend value, gas + extra_gas)
  compute_msg_gas delegate_call gas to value = pure (gas, gas)
  compute_msg_gas delegate_call_eip150 gas to value = do
    extra_gas ← gets (λ c. compute_msg_extra_gas delegate_call_eip150 c.accounts to value)
    compute_eip150_msg_gas gas extra_gas 0
  compute_msg_gas cls gas to value = do
    extra_gas ← gets (λ c. compute_msg_extra_gas cls c.accounts to value)
    compute_eip150_msg_gas gas extra_gas (stipend value)

  -- The message of the child; `prepare_child_message` fills in the sender and the depth.
  unfoldable pub call_message : CallParams → ℕ → Bytes → W → Message
  call_message p child_msg_gas call_data w = record {
    gas = child_msg_gas;
    to = p.to;
    sender = [];
    value = p.value;
    contents = call_data;
    code = elim p.code_address [ none ↦ db.get_code w p.to | some a ↦ db.get_code w a ];
    depth = 0;
    create_address = none;
    given_code_address = p.code_address;
    should_transfer_value = p.should_transfer_value;
    is_static = p.is_static;
  }

  -- What the caller does when the child has finished.
  unfoldable pub finish_call : CallParams → Computation W → Action W Unit
  finish_call p d = do
    stack_push (int (if is_error d then 0 else 1))
    let actual_output_size = min p.output_size (length (get_output d))
    if should_erase_return_data d
        then pure tt
        else memory_write p.output_start actual_output_size (take actual_output_size (get_output d))
    if should_burn_gas d then pure tt else return_gas (get_gas_remaining d)

  unfoldable pub make_call : Action W Unit → CallParams → ℕ → Bytes → Action W Unit
  unfolding call_message finish_call
  make_call run p child_msg_gas call_data = do
    w ← gets (λ c. c.accounts)
    child_msg ← prepare_child_message p.sender (call_message p child_msg_gas call_data w)
    d ← apply_child_computation run child_msg
    finish_call p d

  -- Insufficient funds, or too deep a stack: the child's gas goes back.
  unfoldable pub refuse_call : ℕ → Action W Unit
  refuse_call child_msg_gas = do
    modify (λ c. record c { return_data = [] })
    return_gas child_msg_gas
    stack_push (int 0)

  -- `BaseCall.__call__`, behind the base cost.
  unfoldable pub call_op : Action W Unit → CallClass → Action W Unit
  unfolding get_call_params compute_msg_gas refuse_call make_call
  call_op run cls = do
    p ← get_call_params cls
    extend_memory p.input_start p.input_size
    extend_memory p.output_start p.output_size
    call_data ← memory_read p.input_start p.input_size
    (child_msg_gas, child_msg_gas_fee) ← compute_msg_gas cls p.gas p.to p.value
    consume_gas child_msg_gas_fee
    sender_balance ← gets (λ c. db.get_balance c.accounts (storage_address c.msg))
    depth ← gets (λ c. c.msg.depth)
    if (p.should_transfer_value && ltb sender_balance p.value) || ltb stack_depth_limit (depth + 1)
        then refuse_call child_msg_gas
        else make_call run p child_msg_gas call_data
