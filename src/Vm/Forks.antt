-- ===== src/Vm/Forks.antt =====
-- The forks behind Frontier: evm/vm/forks/{homestead,tangerine_whistle,spurious_dragon,byzantium}, their
-- opcodes and how they create contracts.
use py_evm.Prelude.{ℕ, zero, suc, ◌*◌, some, [], ◌∷◌, length, leb, ◌==◌, if◌then◌else◌}
use py_evm.Prelude.Exec.{ok, err, gets, ◌>>=◌, ◌>>◌, raise_if, modify}
use py_evm.Constants.{
  gas_zero, gas_base, gas_verylow, gas_null, gas_log, gas_call, gas_create, gas_codedeposit,
  gas_selfdestruct_eip150, gas_call_eip150, gas_extcode_eip150, gas_balance_eip150,
  gas_sload_eip150, gas_exp_eip160, gas_expbyte_eip160, eip170_code_size_limit,
}
use py_evm.Exceptions.{vm_error, out_of_gas, write_protection, fuel_exhausted}
use py_evm.Numeric.{Bytes, bytes_eq}
use py_evm.Vm.Message.{storage_address, is_create, force_bytes_to_address}
use py_evm.Vm.Accounts.{Accounts, Library, Snapshot}
use py_evm.Vm.Computation.{Action, consume_gas}
use py_evm.Vm.Computation.Outcome.{is_error, get_output}
use py_evm.Vm.Logic.Arithmetic.{exp}
use py_evm.Vm.Logic.Copy.{returndatasize, returndatacopy, log_xx, revert_op}
use py_evm.Vm.Logic.World.{
  on_accounts, balance, extcodesize, extcodecopy, sload, sstore, selfdestruct_eip150,
  selfdestruct_eip161,
}
use py_evm.Vm.Logic.Call.{
  call_op, delegate_call, call_eip150, call_code_eip150, delegate_call_eip150, call_eip161,
  static_call, call_byzantium,
}
use py_evm.Vm.Logic.Call.Create.{create_op, create_eip150, create_byzantium}
use py_evm.Vm.Opcodes.{Table, as_opcode, frontier_opcodes}
use py_evm.Vm.Run.{Precompiles, take_snapshot, apply_message, apply_computation}
use py_evm.Vm.Precompiles.{Cryptography, frontier_precompiles}
use py_evm.Vm.Precompiles.ModExp.{modexp}

module _ {W : Type 0} where
  -- `ensure_no_static`
  unfoldable pub ensure_no_static : Action W Unit → Action W Unit
  ensure_no_static opcode_fn = do
    is_static ← gets (λ c. c.msg.is_static)
    raise_if is_static (vm_error write_protection)
    opcode_fn

module _ {W : Type 0} (lib : Library) (db : Accounts W) (run : Action W Unit) where
  -- HOMESTEAD_OPCODES: `merge` keeps the later of two functions for an opcode.
  unfoldable pub homestead_opcodes : Table W
  unfolding as_opcode
  homestead_opcodes =
      (0xf4, as_opcode gas_call (call_op db run delegate_call)) ∷ frontier_opcodes lib db run

  -- TANGERINE_WHISTLE_OPCODES
  unfoldable pub tangerine_whistle_opcodes : Table W
  unfolding as_opcode homestead_opcodes
  tangerine_whistle_opcodes =
      (0x3b, as_opcode gas_extcode_eip150 (extcodesize db))
      ∷ (0x3c, as_opcode gas_extcode_eip150 (extcodecopy db))
      ∷ (0x31, as_opcode gas_balance_eip150 (balance db))
      ∷ (0x54, as_opcode gas_sload_eip150 (sload db))
      ∷ (0xff, as_opcode gas_selfdestruct_eip150 (selfdestruct_eip150 db))
      ∷ (0xf0, as_opcode gas_create (create_op lib db run create_eip150))
      ∷ (0xf1, as_opcode gas_call_eip150 (call_op db run call_eip150))
      ∷ (0xf2, as_opcode gas_call_eip150 (call_op db run call_code_eip150))
      ∷ (0xf4, as_opcode gas_call_eip150 (call_op db run delegate_call_eip150))
      ∷ homestead_opcodes

  -- SPURIOUS_DRAGON_OPCODES
  unfoldable pub spurious_dragon_opcodes : Table W
  unfolding as_opcode tangerine_whistle_opcodes
  spurious_dragon_opcodes =
      (0x0a, as_opcode gas_exp_eip160 (exp gas_expbyte_eip160))
      ∷ (0xff, as_opcode gas_selfdestruct_eip150 (selfdestruct_eip161 db))
      ∷ (0xf1, as_opcode gas_call_eip150 (call_op db run call_eip161))
      ∷ tangerine_whistle_opcodes

  -- BYZANTIUM_OPCODES. The class of CREATE tests for a static call before it charges its base cost.
  unfoldable pub byzantium_opcodes : Table W
  unfolding as_opcode spurious_dragon_opcodes ensure_no_static
  byzantium_opcodes =
      (0xfd, as_opcode gas_zero revert_op)
      ∷ (0x3d, as_opcode gas_base returndatasize)
      ∷ (0x3e, as_opcode gas_verylow returndatacopy)
      ∷ (0xfa, as_opcode gas_call_eip150 (call_op db run static_call))
      ∷ (0xf1, as_opcode gas_call_eip150 (call_op db run call_byzantium))
      ∷ (0xa0, as_opcode gas_log (ensure_no_static (log_xx 0)))
      ∷ (0xa1, as_opcode gas_log (ensure_no_static (log_xx 1)))
      ∷ (0xa2, as_opcode gas_log (ensure_no_static (log_xx 2)))
      ∷ (0xa3, as_opcode gas_log (ensure_no_static (log_xx 3)))
      ∷ (0xa4, as_opcode gas_log (ensure_no_static (log_xx 4)))
      ∷ (0xf0, ensure_no_static (as_opcode gas_create (create_op lib db run create_byzantium)))
      ∷ (0x55, as_opcode gas_null (ensure_no_static (sstore db)))
      ∷ (0xff, as_opcode gas_selfdestruct_eip150 (ensure_no_static (selfdestruct_eip161 db)))
      ∷ spurious_dragon_opcodes

module _ {W : Type 0} (db : Accounts W) where
  -- `computation._error = ...`, and the state goes back.
  unfoldable pub fail_code : Snapshot → Action W Unit
  fail_code snapshot = do
    modify (λ c. record c { error = some out_of_gas })
    on_accounts (db.revert snapshot)

  -- The fee for the code of a new contract is paid and the code stored; without the gas the
  -- computation fails and the state goes back.
  unfoldable pub store_code : Snapshot → Bytes → Action W Unit
  unfolding fail_code
  store_code snapshot code c =
      let (r, c') = consume_gas (length code * gas_codedeposit) c in
      elim r [
        | ok _ ↦
            (on_accounts (db.set_code (storage_address c'.msg) code)
                >> on_accounts (db.commit snapshot))
              c'
        | err e ↦ elim e [ vm_error out_of_gas ↦ fail_code snapshot c' | other ↦ (err other, c') ]
      ]

  -- `HomesteadComputation.apply_create_message`
  unfoldable pub homestead_create : Action W Unit → Action W Unit
  unfolding store_code fail_code take_snapshot apply_message
  homestead_create body = do
    snapshot ← take_snapshot db
    apply_message db body
    failed ← gets is_error
    code ← gets get_output
    if failed
        then on_accounts (db.revert snapshot)
        else if length code == 0
        then on_accounts (db.commit snapshot)
        else store_code snapshot code

  -- `SpuriousDragonComputation.apply_create_message`
  unfoldable pub spurious_dragon_create : Action W Unit → Action W Unit
  unfolding store_code fail_code take_snapshot apply_message
  spurious_dragon_create body = do
    snapshot ← take_snapshot db
    account ← gets (λ c. storage_address c.msg)
    on_accounts (db.increment_nonce account)
    apply_message db body
    failed ← gets is_error
    code ← gets get_output
    if failed
        then on_accounts (db.revert snapshot)
        else if leb eip170_code_size_limit (length code)
        then fail_code snapshot
        else if length code == 0
        then on_accounts (db.commit snapshot)
        else store_code snapshot code

-- The classes of a fork: its opcodes, given what a child does, its precompiled contracts, and how it
-- runs a message that creates a contract.
pub record Fork (W : Type 0) : Type 0 where
  pub opcodes : Action W Unit → Table W
  pub precompiles : Precompiles W
  pub create : Action W Unit → Action W Unit

module _ {W Public : Type 0} (lib : Library) (crypto : Cryptography Public) (db : Accounts W) where
  -- `HomesteadComputation`, `TangerineWhistleComputation` and `SpuriousDragonComputation`
  abbrev pub homestead : Fork W
  homestead = record {
    opcodes = homestead_opcodes lib db;
    precompiles = frontier_precompiles crypto;
    create = homestead_create db;
  }

  abbrev pub tangerine_whistle : Fork W
  tangerine_whistle = record {
    opcodes = tangerine_whistle_opcodes lib db;
    precompiles = frontier_precompiles crypto;
    create = homestead_create db;
  }

  abbrev pub spurious_dragon : Fork W
  spurious_dragon = record {
    opcodes = spurious_dragon_opcodes lib db;
    precompiles = frontier_precompiles crypto;
    create = spurious_dragon_create db;
  }

  -- BYZANTIUM_PRECOMPILES; the contracts on alt_bn128 are given.
  unfoldable pub byzantium_precompiles :
      Action W Unit → Action W Unit → Action W Unit → Precompiles W
  byzantium_precompiles ecadd ecmul ecpairing address =
      if bytes_eq address (force_bytes_to_address (5 ∷ []))
      then some modexp
      else if bytes_eq address (force_bytes_to_address (6 ∷ []))
      then some ecadd
      else if bytes_eq address (force_bytes_to_address (7 ∷ []))
      then some ecmul
      else if bytes_eq address (force_bytes_to_address (8 ∷ []))
      then some ecpairing
      else frontier_precompiles crypto address

  -- `ByzantiumComputation`
  abbrev pub byzantium : Action W Unit → Action W Unit → Action W Unit → Fork W
  byzantium ecadd ecmul ecpairing = record {
    opcodes = byzantium_opcodes lib db;
    precompiles = byzantium_precompiles ecadd ecmul ecpairing;
    create = spurious_dragon_create db;
  }

-- The machine of a fork, for computations nested at most `levels` deep.
unfoldable pub execute_fork : {W : Type 0} → Accounts W → Fork W → ℕ → Action W Unit
unfolding apply_computation apply_message
execute_fork db fork zero c = (err fuel_exhausted, c)
execute_fork db fork (suc levels) c =
    let body = apply_computation fork.precompiles (fork.opcodes (execute_fork db fork levels)) in
    if is_create c.msg then fork.create body c else apply_message db body c
