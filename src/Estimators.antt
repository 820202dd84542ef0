-- ===== src/Estimators.antt =====
-- evm/estimators/gas.py: the search for the gas that a transaction needs. The state is any state with the
-- snapshots of the account database, and the execution of a transaction is an argument.
pub mod Search
use py_evm.Prelude.{ℕ, zero, suc, ◌+◌, ◌-◌, ◌/◌, true, false, Option, none, some, ltb}
use py_evm.Prelude.Exec.{Result, ok, err, Exec, pure, raise, ◌>>=◌, ◌>>◌}
use py_evm.Exceptions.{Exception, VmError, vm_error, fuel_exhausted}
use py_evm.Vm.Accounts.{Accounts, Snapshot}
use py_evm.Vm.Executor.{Submitted}

-- evm/utils/spoof.py: `SpoofTransaction` with another gas, and with a gas price of 0.
abbrev pub spoof_gas : ℕ → Submitted → Submitted
spoof_gas gas t = record t { fields = record t.fields { gas = gas } }

abbrev pub spoof_free : ℕ → Submitted → Submitted
spoof_free gas t = record t { fields = record t.fields { gas = gas; gas_price = 0 } }

-- `if error is not None: raise error`
abbrev pub raise_or : {W : Type 0} → Option VmError → Exec Exception W ℕ → Exec Exception W ℕ
raise_or none rest = rest
raise_or (some e) rest = raise (vm_error e)

-- What follows a trial: without an error, and with one.
abbrev pub after_trial :
    {W : Type 0} → Exec Exception W ℕ → Exec Exception W ℕ → Option VmError → Exec Exception W ℕ
after_trial good bad none = good
after_trial good bad (some _) = bad

module _ {W : Type 0} (db : Accounts W)
    (execute : Submitted → Exec Exception W (Option VmError)) where
  -- The `finally` of `_get_computation_error`: an error of the revert goes before the result.
  finally_revert : Snapshot → Result Exception (Option VmError) → Exec Exception W (Option VmError)
  finally_revert s r w =
      let (reverted, w') = db.revert s w in elim reverted [ err e ↦ (err e, w') | ok _ ↦ (r, w') ]

  -- `_get_computation_error`
  unfoldable pub get_computation_error : Submitted → Exec Exception W (Option VmError)
  unfolding finally_revert
  get_computation_error t w =
      let (s, recorded) = db.snapshot w in
      let (r, done) = execute t recorded in finally_revert s r done

  -- The `while` loop, with fuel.
  unfoldable pub search_loop : ℕ → ℕ → Submitted → ℕ → ℕ → Exec Exception W ℕ
  unfolding get_computation_error
  search_loop zero tolerance t viable failed w = (err fuel_exhausted, w)
  search_loop (suc fuel) tolerance t viable failed w =
      let midpoint = (viable + failed) / 2 in
      elim (ltb tolerance (viable - failed)) [
        | false ↦ (ok viable, w)
        | true ↦
            (get_computation_error (spoof_gas midpoint t)
                >>= after_trial (search_loop fuel tolerance t midpoint failed)
                    (search_loop fuel tolerance t viable midpoint))
              w
      ]

  search_range : ℕ → ℕ → ℕ → Submitted → Exec Exception W ℕ
  unfolding search_loop
  search_range fuel tolerance gas_limit t = do
    error ← get_computation_error (spoof_free gas_limit t)
    raise_or error (search_loop fuel tolerance t gas_limit t.intrinsic_gas)

  -- `binary_gas_search`
  unfoldable pub binary_gas_search : ℕ → ℕ → ℕ → Submitted → Exec Exception W ℕ
  unfolding search_range
  binary_gas_search fuel tolerance gas_limit t = do
    error ← get_computation_error (spoof_free t.intrinsic_gas t)
    after_trial (pure t.intrinsic_gas) (search_range fuel tolerance gas_limit t) error
