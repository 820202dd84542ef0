-- ===== src/Vm/Run/Exits.antt =====
-- What a computation is after its code: which errors it keeps, and the gas they burn.
use py_evm.Prelude.{◌-◌, ◌≡◌, refl, ◌≢◌, inl, inr, true, false, none, some, arith, ltb, Bool-cases}
use py_evm.Prelude.Exec.{Result, ok, err}
use py_evm.Exceptions.{Exception, VmError, vm_error, burns_gas}
use py_evm.Vm.GasMeter
use py_evm.Vm.GasMeter.{GasMeter}
use py_evm.Vm.Computation.{Computation, consume_gas}
use py_evm.Vm.Computation.Outcome.{burns}
use py_evm.Vm.Run.{leave}

module _ {W : Type 0} where
  -- All the gas that is left can be consumed, and then none is.
  consume_all :
      (c : Computation W)
      → consume_gas c.gas_meter.gas_remaining c
        ≡ (ok tt, record c { gas_meter = record c.gas_meter { gas_remaining = 0 } })
  unfolding consume_gas GasMeter.consume_gas
  consume_all c =
      let enough : ltb c.gas_meter.gas_remaining c.gas_meter.gas_remaining ≡ false = ground arith in
      let nothing : c.gas_meter.gas_remaining - c.gas_meter.gas_remaining ≡ 0 = omega arith in
      rw (enough, nothing) refl

  -- How a computation leaves its code: the errors it keeps, and what they do to its gas.
  pub record Left (r : Result Exception Unit) (c : Computation W)
      (left : Result Exception Unit × Computation W) : Type 0 where
    pub no_vm_error : (e : VmError) → left.0 ≢ err (vm_error e)
    pub kept : (e : VmError) → r ≡ err (vm_error e) → left.1.error ≡ some e
    pub burnt : burns left.1.error ≡ true → left.1.gas_meter.gas_remaining ≡ 0
    pub spared : burns left.1.error ≡ false → left.1.gas_meter ≡ c.gas_meter

  quiet :
      (r : Result Exception Unit) (c : Computation W)
      → c.error ≡ none
      → ((e : VmError) → r ≢ err (vm_error e))
      → Left r c (r, c)
  quiet r c h n = record {
    no_vm_error = n;
    kept = λ e p. absurd (n e p);
    burnt = λ p. let q : burns c.error ≡ false = rw h refl in cc;
    spared = λ p. refl;
  }

  -- However a block of code ended that had no error before: no `VMError` goes on, the one that was
  -- raised is kept as the error, no gas is left under an error that burns gas, and without one the
  -- gas meter is as the code left it.
  pub leave_lem :
      (r : Result Exception Unit) (c : Computation W) → c.error ≡ none → Left r c (leave (r, c))
  unfolding leave
  leave_lem (ok x) c h = quiet (ok x) c h (λ e p. cc)
  leave_lem (err (vm_error e)) c h = elim (Bool-cases (burns_gas e)) [
    | inl hot ↦
        let same = consume_all (record c { error = some e }) in
        rw (hot, same)
          (record {
            no_vm_error = λ e' p. cc;
            kept = λ e' p. cc;
            burnt = λ p. refl;
            spared = λ p. cc;
          })
    | inr cold ↦ rw cold (record {
      no_vm_error = λ e' p. cc;
      kept = λ e' p. cc;
      burnt = λ p. cc;
      spared = λ p. refl;
    })
  ]
  leave_lem (err o) c h = quiet (err o) c h (λ e p. cc)
