-- ===== src/Vm/Logic/Call/Create.antt =====
-- The classes of CREATE in evm/vm/logic/system.py.
use py_evm.Prelude.{ℕ, ◌+◌, true, false, ◌||◌, none, some, [], ltb, if◌then◌else◌}
use py_evm.Prelude.Exec.{gets, ◌>>=◌, ◌>>◌}
use py_evm.Constants.{stack_depth_limit}
use py_evm.Numeric.{Bytes, last_bytes}
use py_evm.Vm.Stack.{int, bytes, uint256}
use py_evm.Vm.Message.{Message, Address, storage_address, create_contract_address}
use py_evm.Vm.Accounts.{Accounts, Library}
use py_evm.Vm.Computation.{
  Action, consume_gas, return_gas, stack_pop3, stack_push, extend_memory, memory_read,
}
use py_evm.Vm.Computation.Outcome.{
  is_error, get_gas_remaining, prepare_child_message, apply_child_computation,
}
use py_evm.Vm.Logic.World.{on_accounts}
use py_evm.Vm.Logic.Call.{max_child_gas_eip150}

-- The subclasses of `Create`, and `Create` itself.
pub data CreateClass : Type 0 where
  create create_eip150 create_byzantium : CreateClass

unfoldable pub max_child_gas_modifier : CreateClass → ℕ → ℕ
max_child_gas_modifier create gas = gas
max_child_gas_modifier create_eip150 gas = max_child_gas_eip150 gas
max_child_gas_modifier create_byzantium gas = max_child_gas_eip150 gas

-- `generate_contract_address` of evm/utils/address.py
abbrev pub generate_contract_address : Library → Address → ℕ → Address
generate_contract_address lib account nonce =
    last_bytes 20 (lib.keccak (lib.encode_address_nonce account nonce))

abbrev pub create_message : ℕ → ℕ → Bytes → Address → Message
create_message create_msg_gas value call_data contract_address = record {
  gas = create_msg_gas;
  to = create_contract_address;
  sender = [];
  value = value;
  contents = [];
  code = call_data;
  depth = 0;
  create_address = some contract_address;
  given_code_address = none;
  should_transfer_value = true;
  is_static = false;
}

module _ {W : Type 0} (lib : Library) (db : Accounts W) where
  -- The end of `Create.__call__`, from the child's message on.
  unfoldable pub make_create : Action W Unit → Message → Address → Action W Unit
  make_create run msg contract_address = do
    child_msg ← prepare_child_message none msg
    d ← apply_child_computation run child_msg
    if is_error d then stack_push (int 0) else stack_push (bytes contract_address)
    return_gas (get_gas_remaining d)

  -- From the reading of the memory on.
  unfoldable pub start_create : Action W Unit → CreateClass → ℕ → ℕ → ℕ → Action W Unit
  unfolding make_create
  start_create run cls value start_position size = do
    call_data ← memory_read start_position size
    create_msg_gas ← gets (λ c. max_child_gas_modifier cls (get_gas_remaining c))
    consume_gas create_msg_gas
    account ← gets (λ c. storage_address c.msg)
    creation_nonce ← gets (λ c. db.get_nonce c.accounts account)
    on_accounts (db.increment_nonce account)
    let contract_address = generate_contract_address lib account creation_nonce
    is_collision ← gets (λ c. db.account_has_code_or_nonce c.accounts contract_address)
    if is_collision
        then stack_push (int 0)
        else make_create run (create_message create_msg_gas value call_data contract_address)
            contract_address

  -- `Create.__call__`, behind the base cost.
  unfoldable pub create_op : Action W Unit → CreateClass → Action W Unit
  unfolding start_create
  create_op run cls = do
    (value, start_position, size) ← stack_pop3 uint256
    extend_memory start_position size
    balance ← gets (λ c. db.get_balance c.accounts (storage_address c.msg))
    depth ← gets (λ c. c.msg.depth)
    if ltb balance value || ltb stack_depth_limit (depth + 1)
        then stack_push (int 0)
        else start_create run cls value start_position size
