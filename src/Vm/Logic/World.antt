-- ===== src/Vm/Logic/World.antt =====
-- evm/vm/logic/storage.py, block.py, the opcodes of context.py that read accounts, and SELFDESTRUCT
-- of system.py.
use py_evm.Numeric.{bytes_eq, Bytes, ljust, slice}
use py_evm.Prelude.{
  ℕ, ◌+◌, ◌-◌, Bool, false, ◌&&◌, ◌||◌, not, List, [], ◌∷◌, ◌++◌, length, get_or, leb, ◌==◌,
  if◌then◌else◌,
}
use py_evm.Prelude.Exec.{Exec, pure, raise, gets, ◌>>=◌, ◌>>◌, modify, raise_if, zoom}
use py_evm.Constants.{
  gas_sset, gas_sreset, refund_sclear, max_prev_header_depth, gas_selfdestruct_newaccount,
}
use py_evm.Exceptions.{Exception, halt, value_error, validation_error}
use py_evm.Vm.Stack.{int, bytes, uint256, any_bytes}
use py_evm.Vm.Message.{Address, storage_address, force_bytes_to_address, is_canonical}
use py_evm.Vm.Accounts.{Accounts}
use py_evm.Vm.Computation.{
  Action, Context, consume_gas, refund_gas, stack_pop, stack_pop2, stack_pop3, stack_push,
  extend_memory, memory_write,
}
use py_evm.Vm.Logic.Copy.{push_int, copy_fee}

-- `get_ancestor_hash` of evm/vm/state.py. The depth is negative for the current block and later.
unfoldable pub get_ancestor_hash : Context → ℕ → Bytes
get_ancestor_hash context block_number =
    if leb context.block_number block_number
    then []
    else if leb max_prev_header_depth (context.block_number - block_number - 1)
    then []
    else get_or context.prev_hashes (context.block_number - block_number - 1) []

-- The gas and the refund of SSTORE, by the stored value and the new one.
unfoldable pub sstore_gas : ℕ → ℕ → ℕ
sstore_gas current_value value =
    if current_value == 0 && not (value == 0) then gas_sset else gas_sreset

unfoldable pub sstore_refund : ℕ → ℕ → ℕ
sstore_refund current_value value =
    if not (current_value == 0) && value == 0 then refund_sclear else 0

-- `address in accounts_to_delete`
abbrev pub is_registered : Address → List (Address × Address) → Bool
is_registered account [] = false
is_registered account ((a, _) ∷ rest) = bytes_eq account a || is_registered account rest

module _ {W : Type 0} where
  abbrev pub on_accounts : {A : Type 0} → Exec Exception W A → Action W A
  on_accounts = zoom (λ c. c.accounts) (λ w c. record c { accounts = w })

  unfoldable pub blockhash : Action W Unit
  unfolding get_ancestor_hash
  blockhash = do
    block_number ← stack_pop uint256
    block_hash ← gets (λ c. get_ancestor_hash c.context block_number)
    stack_push (bytes block_hash)

  abbrev pub coinbase : Action W Unit
  coinbase = do value ← gets (λ c. c.context.coinbase); stack_push (bytes value)

  abbrev pub timestamp : Action W Unit
  timestamp = push_int (λ c. c.context.timestamp)

  abbrev pub number : Action W Unit
  number = push_int (λ c. c.context.block_number)

  abbrev pub difficulty : Action W Unit
  difficulty = push_int (λ c. c.context.difficulty)

  abbrev pub gaslimit : Action W Unit
  gaslimit = push_int (λ c. c.context.gas_limit)

  -- `register_account_for_deletion`
  unfoldable pub register_account_for_deletion : Address → Action W Unit
  register_account_for_deletion beneficiary = do
    raise_if (not (is_canonical beneficiary)) validation_error
    account ← gets (λ c. storage_address c.msg)
    registered ← gets (λ c. c.accounts_to_delete)
    raise_if (is_registered account registered) value_error
    modify (λ c. record c { accounts_to_delete = registered ++ (account, beneficiary) ∷ [] })

module _ {W : Type 0} (db : Accounts W) where
  unfoldable pub balance : Action W Unit
  balance = do
    raw ← stack_pop any_bytes
    value ← gets (λ c. db.get_balance c.accounts (force_bytes_to_address raw))
    stack_push (int value)

  unfoldable pub extcodesize : Action W Unit
  extcodesize = do
    raw ← stack_pop any_bytes
    code_size ← gets (λ c. length (db.get_code c.accounts (force_bytes_to_address raw)))
    stack_push (int code_size)

  unfoldable pub extcodecopy : Action W Unit
  unfolding copy_fee
  extcodecopy = do
    raw ← stack_pop any_bytes
    (mem_start_position, code_start_position, size) ← stack_pop3 uint256
    extend_memory mem_start_position size
    copy_fee size
    code_bytes ←
        gets (λ c.
          slice code_start_position size (db.get_code c.accounts (force_bytes_to_address raw)))
    memory_write mem_start_position size (ljust size code_bytes)

  unfoldable pub sload : Action W Unit
  sload = do
    slot ← stack_pop uint256
    value ← gets (λ c. db.get_storage c.accounts (storage_address c.msg) slot)
    stack_push (int value)

  unfoldable pub sstore : Action W Unit
  unfolding sstore_gas sstore_refund
  sstore = do
    (slot, value) ← stack_pop2 uint256
    account ← gets (λ c. storage_address c.msg)
    current_value ← gets (λ c. db.get_storage c.accounts account slot)
    consume_gas (sstore_gas current_value value)
    let refund = sstore_refund current_value value
    if refund == 0 then pure tt else refund_gas refund
    on_accounts (db.set_storage account slot value)

  -- `_selfdestruct`
  unfoldable pub finish_selfdestruct : Address → Action W Unit
  unfolding register_account_for_deletion
  finish_selfdestruct beneficiary = do
    account ← gets (λ c. storage_address c.msg)
    local_balance ← gets (λ c. db.get_balance c.accounts account)
    beneficiary_balance ← gets (λ c. db.get_balance c.accounts beneficiary)
    on_accounts (db.set_balance beneficiary (local_balance + beneficiary_balance))
    on_accounts (db.set_balance account 0)
    register_account_for_deletion beneficiary
    raise halt

  unfoldable pub selfdestruct : Action W Unit
  unfolding finish_selfdestruct
  selfdestruct = do raw ← stack_pop any_bytes; finish_selfdestruct (force_bytes_to_address raw)

  unfoldable pub selfdestruct_eip150 : Action W Unit
  unfolding finish_selfdestruct
  selfdestruct_eip150 = do
    raw ← stack_pop any_bytes
    exists ← gets (λ c. db.account_exists c.accounts (force_bytes_to_address raw))
    if exists then pure tt else consume_gas gas_selfdestruct_newaccount
    finish_selfdestruct (force_bytes_to_address raw)

  unfoldable pub selfdestruct_eip161 : Action W Unit
  unfolding finish_selfdestruct
  selfdestruct_eip161 = do
    raw ← stack_pop any_bytes
    let beneficiary = force_bytes_to_address raw
    is_dead ← gets (λ c.
        not (db.account_exists c.accounts beneficiary)
        || db.account_is_empty c.accounts beneficiary)
    local_balance ← gets (λ c. db.get_balance c.accounts (storage_address c.msg))
    if is_dead && not (local_balance == 0) then consume_gas gas_selfdestruct_newaccount else pure tt
    finish_selfdestruct beneficiary
