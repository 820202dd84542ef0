-- ===== src/Vm/GasMeter.antt =====
-- evm/vm/gas_meter.py: `class GasMeter`. An amount is a Python int, so it may be negative.
pub mod Laws
use py_evm.Prelude.{ℕ, ◌+◌, ◌-◌, ltb, if◌then◌else◌}
use py_evm.Prelude.Int.{ℤ, pos, negsuc}
use py_evm.Prelude.Exec.{Exec, Result, ok, err}
use py_evm.Constants.{uint_256_max}
use py_evm.Exceptions.{Exception, vm_error, out_of_gas, validation_error}

pub record GasMeter : Type 0 where
  pub start_gas : ℕ
  pub gas_refunded : ℕ
  pub gas_remaining : ℕ

abbrev pub Action : Type 0 → Type 0
Action = Exec Exception GasMeter

-- `GasMeter.__init__`
unfoldable pub start : ℕ → Result Exception GasMeter
start start_gas =
    if ltb uint_256_max start_gas
    then err validation_error
    else ok (record { start_gas = start_gas; gas_refunded = 0; gas_remaining = start_gas })

unfoldable pub consume_gas : ℤ → Action Unit
consume_gas (negsuc _) g = (err validation_error, g)
consume_gas (pos amount) g =
    if ltb g.gas_remaining amount
    then (err (vm_error out_of_gas), g)
    else (ok tt, record g { gas_remaining = g.gas_remaining - amount })

unfoldable pub return_gas : ℤ → Action Unit
return_gas (negsuc _) g = (err validation_error, g)
return_gas (pos amount) g = (ok tt, record g { gas_remaining = g.gas_remaining + amount })

unfoldable pub refund_gas : ℤ → Action Unit
refund_gas (negsuc _) g = (err validation_error, g)
refund_gas (pos amount) g = (ok tt, record g { gas_refunded = g.gas_refunded + amount })
