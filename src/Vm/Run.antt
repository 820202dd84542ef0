-- ===== src/Vm/Run.antt =====
-- The interpreter: `apply_computation` of evm/vm/computation.py, and `apply_message` and
-- `apply_create_message` of evm/vm/forks/frontier/computation.py.
pub mod Exits
use py_evm.Prelude.{
  ℕ, zero, suc, ◌+◌, ◌*◌, ◌&&◌, not, Option, none, some, [], length, ltb, ◌==◌, if◌then◌else◌,
}
use py_evm.Prelude.Exec.{Result, ok, err, pure, gets, ◌>>=◌, ◌>>◌, raise_if}
use py_evm.Prelude.Int.{pos}
use py_evm.Constants.{stack_depth_limit, gas_codedeposit}
use py_evm.Exceptions.{
  Exception, vm_error, halt, burns_gas, fuel_exhausted, insufficient_funds, stack_depth_limit_error,
  out_of_gas,
}
use py_evm.Vm.CodeStream
use py_evm.Vm.Message.{Address, storage_address, code_address, is_create}
use py_evm.Vm.Accounts.{Accounts, Library, Snapshot, delta_balance}
use py_evm.Vm.Computation.{Action, Computation, on_code, consume_gas, set_output}
use py_evm.Vm.Computation.Outcome.{is_error, get_output}
use py_evm.Vm.Logic.Words.{negate}
use py_evm.Vm.Logic.World.{on_accounts}
use py_evm.Vm.Opcodes.{Table, get_opcode_fn, frontier_opcodes}

-- The function of a precompiled contract, by its address.
abbrev pub Precompiles : Type 0 → Type 0
Precompiles W = Address → Option (Action W Unit)

module _ {W : Type 0} where
  -- One round of the loop over the code.
  unfoldable pub step : Table W → Action W Unit
  step table = do opcode ← on_code CodeStream.next; get_opcode_fn table opcode

  -- The loop: `Halt` ends it, and any other exception goes on. Every round that goes on uses gas.
  unfoldable pub run_loop : ℕ → Action W Unit → Action W Unit
  run_loop zero round c = (err fuel_exhausted, c)
  run_loop (suc fuel) round c =
      let (r, c') = round c in
      elim r [
        | ok _ ↦ run_loop fuel round c'
        | err e ↦ elim e [ halt ↦ (ok tt, c') | other ↦ (err other, c') ]
      ]

  -- `__exit__`: a `VMError` is kept in `_error` and goes no further; if it burns gas, all is burnt.
  unfoldable pub leave :
      Result Exception Unit × Computation W → Result Exception Unit × Computation W
  leave (ok _, c) = (ok tt, c)
  leave (err (vm_error e), c) =
      let c' = record c { error = some e } in
      if burns_gas e then consume_gas c.gas_meter.gas_remaining c' else (ok tt, c')
  leave (err other, c) = (err other, c)

  -- `apply_computation`. One round more than there is gas is enough.
  unfoldable pub apply_computation : Precompiles W → Table W → Action W Unit
  unfolding leave run_loop step
  apply_computation precompiles table c = leave (elim (precompiles (code_address c.msg)) [
    | some precompile ↦ precompile c
    | none ↦ run_loop (c.gas_meter.gas_remaining + 1) (step table) c
  ])

module _ {W : Type 0} (db : Accounts W) where
  -- The transfer of the message's value.
  unfoldable pub transfer_value : Action W Unit
  transfer_value = do
    msg ← gets (λ c. c.msg)
    sender_balance ← gets (λ c. db.get_balance c.accounts msg.sender)
    raise_if (ltb sender_balance msg.value) (vm_error insufficient_funds)
    on_accounts (delta_balance db msg.sender (negate msg.value))
    on_accounts (delta_balance db (storage_address msg) (pos msg.value))

  -- `snapshot` of evm/vm/state.py
  unfoldable pub take_snapshot : Action W Snapshot
  take_snapshot = on_accounts (λ w. let (s, w') = db.snapshot w in (ok s, w'))

  -- `FrontierComputation.apply_message`, where `body` is `apply_computation`.
  unfoldable pub apply_message : Action W Unit → Action W Unit
  unfolding transfer_value take_snapshot
  apply_message body = do
    snapshot ← take_snapshot
    depth ← gets (λ c. c.msg.depth)
    raise_if (ltb stack_depth_limit depth) (vm_error stack_depth_limit_error)
    msg ← gets (λ c. c.msg)
    if msg.should_transfer_value && not (msg.value == 0) then transfer_value else pure tt
    on_accounts (db.touch_account (storage_address msg))
    body
    failed ← gets is_error
    if failed then on_accounts (db.revert snapshot) else on_accounts (db.commit snapshot)

  -- `try: consume_gas ... except OutOfGas`, then the code is stored.
  unfoldable pub deposit_code : Action W Unit
  deposit_code c =
      let code = get_output c in
      let (r, c') = consume_gas (length code * gas_codedeposit) c in
      elim r [
        | ok _ ↦ on_accounts (db.set_code (storage_address c.msg) code) c'
        | err e ↦ elim e [ vm_error out_of_gas ↦ set_output [] c' | other ↦ (err other, c') ]
      ]

  -- `FrontierComputation.apply_create_message`
  unfoldable pub apply_create_message : Action W Unit → Action W Unit
  unfolding apply_message deposit_code
  apply_create_message body = do
    apply_message body
    failed ← gets is_error
    has_code ← gets (λ c. not (length (get_output c) == 0))
    if not failed && has_code then deposit_code else pure tt

  -- `generate_child_computation`, on the fresh computation.
  unfoldable pub run_message : Action W Unit → Action W Unit
  unfolding apply_message apply_create_message
  run_message body c = if is_create c.msg then apply_create_message body c else apply_message body c

module _ {W : Type 0} (lib : Library) (db : Accounts W) (precompiles : Precompiles W) where
  -- The whole machine, for computations nested at most `levels` deep.
  unfoldable pub execute : ℕ → Action W Unit
  unfolding run_message apply_computation
  execute zero c = (err fuel_exhausted, c)
  execute (suc levels) c =
      run_message db (apply_computation precompiles (frontier_opcodes lib db (execute levels))) c
