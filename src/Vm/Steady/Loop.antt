-- ===== src/Vm/Steady/Loop.antt =====
-- The loop over the code is never cut off, since every round that goes on uses gas, and so are the
-- computations and messages that run it.
use py_evm.Constants.{gas_codedeposit}
use py_evm.Prelude.Int.{ℤ, pos, negsuc}
use py_evm.Vm.Message.{storage_address, Address, is_create, code_address}
use py_evm.Vm.Computation.Outcome.{get_output, is_error}
use py_evm.Vm.Computation.Expansion.{consume_lem}
use py_evm.Vm.Logic.World.{on_accounts}
use py_evm.Vm.Steady.Parts.{Steady-on_accounts, Steady-set_output, Steady-consume_gas, steady}
use py_evm.Prelude.{
  ℕ, zero, suc, ◌+◌, ◌-◌, ◌*◌, ◌<◌, ◌≡◌, refl, ap, ◌∙◌, ◌≢◌, inl, inr, Option, none, some, [],
  arith, length, ltb, Bool-cases, Option-cases, ◌==◌, not, ◌&&◌, if◌then◌else◌,
}
use py_evm.Prelude.Exec.{Result, ok, err, gets, raise_if, pure}
use py_evm.Exceptions.{
  Exception, vm_error, halt, burns_gas, fuel_exhausted, stack_depth_limit_error,
}
use py_evm.Vm.Accounts.{Snapshot, Accounts, delta_balance}
use py_evm.Vm.Computation.{Computation, Action}
use py_evm.Vm.Opcodes.{Table}
use py_evm.Vm.Run.{
  take_snapshot, step, run_loop, leave, apply_computation, apply_message, transfer_value,
  deposit_code, apply_create_message, run_message, Precompiles,
}
use py_evm.Vm.Steady.{Steady-if, Steady-bind, Steady-gets, Steady, Ran, gas_of}
use py_evm.Vm.Steady.World.{Uncut, Steady-next}
use py_evm.Vm.Steady.Falling.{Falls, Fall, Falls-rest, Fall-get_opcode_fn}

module _ {W : Type 0} where
  -- What the loop makes of the outcome of one round.
  go_on :
      (c t : Computation W) (r : Result Exception Unit) (rest : Action W Unit)
      → Ran {A = Unit} 0 c (r, t)
      → (r ≡ ok tt → Ran 0 t (rest t))
      → Ran {A = Unit} 0 c
          (elim r [ ok _ ↦ rest t | err e ↦ elim e [ halt ↦ (ok tt, t) | other ↦ (err other, t) ] ])
  go_on c t (ok u) rest ran more =
      let last = more refl in
      record {
        uncut = last.uncut;
        same_msg = last.same_msg ∙ ran.same_msg;
        gas = omega (arith, last.gas, ran.gas);
        sound = λ s. last.sound (ran.sound s);
      }
  go_on c t (err halt) rest ran more = record {
    uncut = λ e. cc;
    same_msg = ran.same_msg;
    gas = ran.gas;
    sound = ran.sound;
  }
  go_on c t (err o) rest ran more = record {
    uncut = ran.uncut;
    same_msg = ran.same_msg;
    gas = ran.gas;
    sound = ran.sound;
  }

  -- Leaving the code keeps all of it.
  leave-Ran :
      (r : Result Exception Unit) (c t : Computation W)
      → Ran {A = Unit} 0 c (r, t)
      → Ran 0 c (leave (r, t))
  unfolding leave
  leave-Ran (ok u) c t ran = ran
  leave-Ran (err (vm_error e)) c t ran = elim (Bool-cases (burns_gas e)) [
    | inl hot ↦
        let t' = record t { error = some e } in
        let burnt = (Steady-consume_gas {W = W} (gas_of t)).at t' refl in
        rw hot (record {
          uncut = burnt.uncut;
          same_msg = burnt.same_msg ∙ ran.same_msg;
          gas = omega (arith, burnt.gas, ran.gas);
          sound = λ s.
              let whole = ran.sound s in
              burnt.sound
                (record { stack = whole.stack; memory = whole.memory; code = whole.code });
        })
    | inr cold ↦ rw cold (record {
      uncut = λ p. cc;
      same_msg = ran.same_msg;
      gas = ran.gas;
      sound = λ s.
          let whole = ran.sound s in
          record { stack = whole.stack; memory = whole.memory; code = whole.code };
    })
  ]
  leave-Ran (err o) c t ran = ran

module _ {W : Type 0} {d : ℕ} where
  Falls-step : (table : Table W) → Fall d table → Falls d (step table)
  unfolding step
  Falls-step table fall =
      Falls-rest _ _ Steady-next (λ opcode. Fall-get_opcode_fn table opcode fall)

  -- More fuel than gas is enough.
  run_loop-Ran :
      (fuel : ℕ) (round : Action W Unit) (c : Computation W)
      → Falls d round
      → c.msg.depth ≡ d
      → gas_of c < fuel
      → Ran 0 c (run_loop fuel round c)
  unfolding run_loop
  run_loop-Ran zero round c falls h more = absurd (omega (arith, more))
  run_loop-Ran (suc fuel) round c falls h more =
      let ran = falls.steady.at c h in
      go_on c (round c).1 (round c).0 (run_loop fuel round) ran (λ e.
        run_loop-Ran fuel round (round c).1 falls (ap (λ m. m.depth) ran.same_msg ∙ h)
          (omega (arith, more, falls.falls c tt h e)))

  pub Steady-apply_computation :
      (precompiles : Precompiles W) (table : Table W)
      → Fall d table
      → ((a : Address) (m : Action W Unit) → precompiles a ≡ some m → Steady d 0 m)
      → Steady d 0 (apply_computation precompiles table)
  unfolding apply_computation
  Steady-apply_computation precompiles table fall known = record {
    at = λ c h.
        let x : Option (Action W Unit) → Result Exception Unit × Computation W = λ found.
          elim found [
            | some precompile ↦ precompile c
            | none ↦ run_loop (c.gas_meter.gas_remaining + 1) (step table) c
          ] in
        let code = code_address c.msg in
        let ran : Ran 0 c (x (precompiles code)) = elim (Option-cases (precompiles code)) [
          | inl none_here ↦
              rw none_here
                (run_loop-Ran (gas_of c + 1) (step table) c (Falls-step table fall) h (omega arith))
          | inr (m, found) ↦ rw found ((known code m found).at c h)
        ] in
        leave-Ran (x (precompiles code)).0 c (x (precompiles code)).1 ran;
  }

module _ {W : Type 0} (db : Accounts W) (uncut : Uncut db) where
  pub delta_uncut :
      (address : Address) (delta : ℤ) (w : W)
      → (delta_balance db address delta w).0 ≢ err fuel_exhausted
  unfolding delta_balance
  delta_uncut address (pos amount) w e = uncut.set_balance address _ w e
  delta_uncut address (negsuc n) w e = elim (Bool-cases (ltb (db.get_balance w address) (suc n))) [
    | inl poor ↦ let bad = rw poor at e in absurd (cc)
    | inr rich ↦ uncut.set_balance address _ w (rw rich at e)
  ]

module _ {W : Type 0} {d : ℕ} (db : Accounts W) (uncut : Uncut db) where
  Steady-transfer_value : Steady d 0 (transfer_value db)
  unfolding transfer_value
  Steady-transfer_value = search (steady, Steady-delta) depth 14
    where
      Steady-delta :
          (address : Address) (delta : ℤ)
          → Steady d 0 (on_accounts (delta_balance db address delta))
      Steady-delta address delta = Steady-on_accounts _ (delta_uncut db uncut address delta)

  pub Steady-take_snapshot : Steady d 0 (take_snapshot db)
  unfolding take_snapshot
  Steady-take_snapshot = Steady-on_accounts {A = Snapshot} _ (λ w e. cc)

  pub Steady-apply_message :
      (body : Action W Unit) → Steady d 0 body → Steady d 0 (apply_message db body)
  unfolding apply_message
  Steady-apply_message body k = Steady-bind (take_snapshot db) _ Steady-take_snapshot (λ snapshot.
      Steady-bind (gets (λ c. c.msg.depth)) _ (Steady-gets _) (λ depth.
        Steady-bind (raise_if (ltb 1024 depth) (vm_error stack_depth_limit_error)) _ (search steady)
          (λ _. Steady-bind (gets (λ c. c.msg)) _ (Steady-gets _) (λ msg.
            Steady-bind
              (if msg.should_transfer_value && not (msg.value == 0)
                then transfer_value db
                else pure tt)
              _ (search (steady, Steady-transfer_value))
              (λ _.
                Steady-bind (on_accounts (db.touch_account (storage_address msg))) _
                  (search (steady, uncut.touch_account))
                  (λ _. Steady-bind body _ k (λ _.
                    Steady-bind (gets is_error)
                      (λ failed.
                        if failed
                        then on_accounts (db.revert snapshot)
                        else on_accounts (db.commit snapshot))
                      (Steady-gets _)
                      (λ failed.
                        Steady-if failed _ _
                          (Steady-on_accounts (db.revert snapshot) (uncut.revert snapshot))
                          (Steady-on_accounts (db.commit snapshot) (uncut.commit snapshot))))))))))

  Steady-deposit_code : Steady d 0 (deposit_code db)
  unfolding deposit_code
  Steady-deposit_code = record {
    at = λ c h.
        let code = get_output c in
        let fee = length code * gas_codedeposit in
        elim (consume_lem fee c) [
          | inl poor ↦ rw (deposit_code, poor, poor) ((Steady-set_output {d = d} []).at c h)
          | inr (enough, paid) ↦
              let t = record c {
                gas_meter = record c.gas_meter { gas_remaining = gas_of c - fee };
              } in
              let stored = on_accounts (db.set_code (storage_address c.msg) code) in
              let ran =
                (Steady-on_accounts (db.set_code (storage_address c.msg) code)
                    (uncut.set_code (storage_address c.msg) code)).at
                  t h in
              rw (deposit_code, paid, paid)
                (record {
                  uncut = ran.uncut;
                  same_msg = ran.same_msg;
                  gas = omega (arith, ran.gas);
                  sound =
                      λ s. ran.sound (record { stack = s.stack; memory = s.memory; code = s.code });
                })
        ];
  }

  Steady-apply_create_message :
      (body : Action W Unit) → Steady d 0 body → Steady d 0 (apply_create_message db body)
  unfolding apply_create_message
  Steady-apply_create_message body k =
      search (steady, Steady-apply_message, Steady-deposit_code) depth 14

  pub Steady-run_message :
      (body : Action W Unit) → Steady d 0 body → Steady d 0 (run_message db body)
  unfolding run_message
  Steady-run_message body k = record {
    at = λ c h. elim (Bool-cases (is_create c.msg)) [
      | inl new ↦ rw new ((Steady-apply_create_message body k).at c h)
      | inr old ↦ rw old ((Steady-apply_message body k).at c h)
    ];
  }
