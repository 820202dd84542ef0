-- ===== src/Vm/Steady/Forks/Creation.antt =====
-- The creation of contracts of the later forks is steady if the code is.
use py_evm.Constants.{eip170_code_size_limit, gas_codedeposit}
use py_evm.Prelude.Exec.{gets, ◌>>◌, modify}
use py_evm.Vm.Computation.Outcome.{is_error, get_output}
use py_evm.Vm.Run.{take_snapshot, apply_message}
use py_evm.Prelude.{ℕ, ◌-◌, ◌*◌, refl, inl, inr, some, arith, length, leb, ◌==◌, if◌then◌else◌}
use py_evm.Exceptions.{out_of_gas}
use py_evm.Vm.Steady.Parts.{Steady-modify, Steady-on_accounts}
use py_evm.Numeric.{Bytes}
use py_evm.Vm.Message.{Address, storage_address}
use py_evm.Vm.Accounts.{Snapshot, Accounts}
use py_evm.Vm.Computation.Expansion.{consume_lem}
use py_evm.Vm.Logic.World.{on_accounts}
use py_evm.Vm.Forks.{fail_code, store_code, homestead_create, spurious_dragon_create}
use py_evm.Vm.Steady.{gas_of, Steady-bind, Steady-gets, Steady-if, Steady}
use py_evm.Vm.Steady.Loop.{Steady-apply_message, Steady-take_snapshot}
use py_evm.Vm.Computation.{Action}
use py_evm.Vm.Steady.World.{Uncut}

module _ {W : Type 0} {d : ℕ} (db : Accounts W) (uncut : Uncut db) where
  Steady-commit : (s : Snapshot) → Steady d 0 (on_accounts (db.commit s))
  Steady-commit s = Steady-on_accounts (db.commit s) (uncut.commit s)

  Steady-revert : (s : Snapshot) → Steady d 0 (on_accounts (db.revert s))
  Steady-revert s = Steady-on_accounts (db.revert s) (uncut.revert s)

  Steady-fail : Steady {W = W} d 0 (modify (λ c. record c { error = some out_of_gas }))
  Steady-fail = Steady-modify _ (λ c. record {
    uncut = λ e. cc;
    same_msg = refl;
    gas = omega arith;
    sound = λ s. record { stack = s.stack; memory = s.memory; code = s.code };
  })

  Steady-fail_code : (s : Snapshot) → Steady d 0 (fail_code db s)
  unfolding fail_code
  Steady-fail_code s = Steady-bind _ _ Steady-fail (λ _. Steady-revert s)

  Steady-stored :
      (s : Snapshot) (a : Address) (code : Bytes)
      → Steady d 0 (on_accounts (db.set_code a code) >> on_accounts (db.commit s))
  Steady-stored s a code =
      Steady-bind _ _ (Steady-on_accounts (db.set_code a code) (uncut.set_code a code))
        (λ _. Steady-commit s)

  Steady-store_code : (s : Snapshot) (code : Bytes) → Steady d 0 (store_code db s code)
  unfolding store_code
  Steady-store_code s code = record {
    at = λ c h.
        let fee = length code * gas_codedeposit in
        elim (consume_lem fee c) [
          | inl poor ↦ rw (store_code, poor, poor) ((Steady-fail_code s).at c h)
          | inr (enough, paid) ↦
              let t = record c {
                gas_meter = record c.gas_meter { gas_remaining = gas_of c - fee };
              } in
              let ran = (Steady-stored s (storage_address c.msg) code).at t h in
              rw (store_code, paid, paid)
                (record {
                  uncut = ran.uncut;
                  same_msg = ran.same_msg;
                  gas = omega (arith, ran.gas);
                  sound =
                      λ x. ran.sound (record { stack = x.stack; memory = x.memory; code = x.code });
                })
        ];
  }

  Steady-settled :
      (s : Snapshot) (code : Bytes)
      → Steady d 0 (if length code == 0 then on_accounts (db.commit s) else store_code db s code)
  Steady-settled s code =
      Steady-if (length code == 0) _ _ (Steady-commit s) (Steady-store_code s code)

  pub Steady-homestead_create :
      (body : Action W Unit) → Steady d 0 body → Steady d 0 (homestead_create db body)
  unfolding homestead_create
  Steady-homestead_create body k =
      Steady-bind (take_snapshot db) _ (Steady-take_snapshot db uncut) (λ s.
        Steady-bind (apply_message db body) _ (Steady-apply_message db uncut body k) (λ _.
          Steady-bind (gets is_error) _ (Steady-gets is_error) (λ failed.
            Steady-bind (gets get_output)
              (λ code.
                if failed
                then on_accounts (db.revert s)
                else if length code == 0
                then on_accounts (db.commit s)
                else store_code db s code)
              (Steady-gets get_output)
              (λ code. Steady-if failed _ _ (Steady-revert s) (Steady-settled s code)))))

  pub Steady-spurious_dragon_create :
      (body : Action W Unit) → Steady d 0 body → Steady d 0 (spurious_dragon_create db body)
  unfolding spurious_dragon_create
  Steady-spurious_dragon_create body k =
      Steady-bind (take_snapshot db) _ (Steady-take_snapshot db uncut) (λ s.
        Steady-bind (gets (λ c. storage_address c.msg)) _ (Steady-gets _) (λ account.
          Steady-bind (on_accounts (db.increment_nonce account)) _
            (Steady-on_accounts (db.increment_nonce account) (uncut.increment_nonce account))
            (λ _. Steady-bind (apply_message db body) _ (Steady-apply_message db uncut body k) (λ _.
              Steady-bind (gets is_error) _ (Steady-gets is_error) (λ failed.
                Steady-bind (gets get_output)
                  (λ code.
                    if failed
                    then on_accounts (db.revert s)
                    else if leb eip170_code_size_limit (length code)
                    then fail_code db s
                    else if length code == 0
                    then on_accounts (db.commit s)
                    else store_code db s code)
                  (Steady-gets get_output)
                  (λ code. Steady-if failed _ _ (Steady-revert s) (
                    Steady-if (leb eip170_code_size_limit (length code)) _ _ (Steady-fail_code s)
                      (Steady-settled s code))))))))
