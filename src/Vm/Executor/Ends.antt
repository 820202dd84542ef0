-- ===== src/Vm/Executor/Ends.antt =====
-- The execution of a transaction comes to its end, and charges the intrinsic gas at least.
use py_evm.Prelude.{
  ◌+◌, ltb, Bool-cases, ◌&&◌, inl, inr, ◌<◌, leb, ℕ, ◌-◌, ◌≤◌, ◌≡◌, refl, sym, ap, ◌≢◌, Bool, true,
  false, not, List, [], ◌∷◌, arith, ◌==◌,
}
use py_evm.Vm.Computation.{Action, Computation, Context}
use py_evm.Vm.Computation.Outcome.{start, get_gas_remaining}
use py_evm.Vm.Steady.{gas_of, Ran, Steady-bind, Steady, Steady-pure}
use py_evm.Vm.Steady.Children.{get_gas_remaining-le, build_lem}
use py_evm.Vm.Message.{is_create, storage_address, is_canonical, Message, Address, build}
use py_evm.Vm.Steady.Machine.{machine-Ran}
use py_evm.Vm.Run.{execute}
use py_evm.Vm.Precompiles.{Cryptography, frontier_precompiles}
use py_evm.Vm.Executor.{
  build_computation, execute_transaction, Submitted, gas_cost, validate_frontier_transaction,
  validate_transaction, get_transaction_context, message_of, build_evm_message, delete_accounts,
  settle, finalize_computation,
}
use py_evm.Constants.{uint_256_max}
use py_evm.Prelude.Exec.{pure, Result, ok, err, Exec, gets, ◌>>=◌, ◌>>◌, raise_if}
use py_evm.Prelude.Int.{ℤ}
use py_evm.Exceptions.{Exception, fuel_exhausted, validation_error}
use py_evm.Vm.Accounts.{Accounts, Library, delta_balance}
use py_evm.Vm.Logic.World.{on_accounts}
use py_evm.Vm.Logic.Words.{negate}
use py_evm.Vm.Steady.Parts.{Steady-on_accounts, validation_error_ne, steady}
use py_evm.Vm.Steady.World.{Uncut}
use py_evm.Vm.Steady.Loop.{delta_uncut}

-- A step that is not cut off, and whose value has a property.
record Good {S A : Type 0} (P : A → Type 0) (x : Result Exception A × S) : Type 0 where
  uncut : x.0 ≢ err fuel_exhausted
  yields : (a : A) → x.0 ≡ ok a → P a

module _ {S A : Type 0} where
  Good-result :
      (r : Result Exception A) (s : S) → r ≢ err fuel_exhausted → Good (λ a. r ≡ ok a) (r, s)
  Good-result r s n = record { uncut = n; yields = λ a e. e }

module _ {S A : Type 0} where
  Good-ok : (a : A) (s : S) → Good {S = S} (λ _. Unit) (ok a, s)
  Good-ok a s = record { uncut = λ e. cc; yields = λ _ _. tt }

  Good-always : {x : Result Exception A × S} → x.0 ≢ err fuel_exhausted → Good (λ _. Unit) x
  Good-always n = record { uncut = n; yields = λ _ _. tt }

  Good-any : {P : A → Type 0} {x : Result Exception A × S} → Good P x → Good (λ _. Unit) x
  Good-any p = record { uncut = p.uncut; yields = λ _ _. tt }

module _ {S : Type 0} where
  Good-raise_if :
      (b : Bool) (e : Exception) (s : S)
      → e ≢ fuel_exhausted
      → Good (λ _. b ≡ false) (raise_if b e s)
  Good-raise_if true e s n = record { uncut = λ p. n (cc); yields = λ a p. absurd (cc) }
  Good-raise_if false e s n = record { uncut = λ p. cc; yields = λ a p. refl }

module _ {S A B : Type 0} {P : A → Type 0} {Q : B → Type 0} where
  go :
      (r : Result Exception A) (s : S) (f : A → Exec Exception S B)
      → Good P (r, s)
      → ((a : A) (t : S) → P a → Good Q (f a t))
      → Good {S = S} Q (elim r [ ok a ↦ f a s | err e ↦ (err e, s) ])
  go (ok a) s f p k = k a s (p.yields a refl)
  go (err e) s f p k = record { uncut = λ h. p.uncut (cc); yields = λ a h. absurd (cc) }

  Good-bind :
      (m : Exec Exception S A) (f : A → Exec Exception S B) (s : S)
      → Good P (m s)
      → ((a : A) (t : S) → P a → Good Q (f a t))
      → Good Q ((m >>= f) s)
  Good-bind m f s p k = go (m s).0 (m s).1 f p k

module _ {W : Type 0} (db : Accounts W) (uncut : Uncut db) where
  Steady-delete_accounts :
      (d : ℕ) (l : List (Address × Address)) → Steady d 0 (delete_accounts db l)
  unfolding delete_accounts
  Steady-delete_accounts d [] = Steady-pure tt
  Steady-delete_accounts d ((account, beneficiary) ∷ rest) =
      Steady-bind (on_accounts (db.set_balance account 0))
        (λ _. on_accounts (db.delete_account account) >> delete_accounts db rest)
        (Steady-on_accounts (db.set_balance account 0) (uncut.set_balance account 0))
        (λ _.
          Steady-bind (on_accounts (db.delete_account account)) (λ _. delete_accounts db rest)
            (Steady-on_accounts (db.delete_account account) (uncut.delete_account account))
            (λ _. Steady-delete_accounts d rest))

  Steady-delta : {d : ℕ} (a : Address) (n : ℤ) → Steady d 0 (on_accounts (delta_balance db a n))
  Steady-delta a n = Steady-on_accounts (delta_balance db a n) (delta_uncut db uncut a n)

  Steady-finalize_computation : {d : ℕ} (t : Submitted) → Steady d 0 (finalize_computation db t)
  unfolding finalize_computation settle
  Steady-finalize_computation t = search (steady, Steady-delta, Steady-delete_accounts) depth 20

  Good-context :
      (block : Context) (t : Submitted) (w : W)
      → Good (λ _. Unit) (get_transaction_context db block t w)
  unfolding get_transaction_context
  Good-context block t w =
      let sender : W → Result Exception Unit × W =
        raise_if (not (is_canonical t.sender)) validation_error in
      let context = record block { gas_price = t.fields.gas_price; origin = t.sender } in
      Good-bind (raise_if (not (leb t.fields.gas_price uint_256_max)) validation_error)
        (λ _. sender >> pure context) w (Good-raise_if _ validation_error w validation_error_ne)
        (λ _ s _.
          Good-bind sender (λ _. pure context) s
            (Good-raise_if _ validation_error s validation_error_ne) (λ _ s' _. Good-ok context s'))

  Good-frontier : (t : Submitted) (w : W) → Good (λ _. Unit) (validate_frontier_transaction db t w)
  unfolding validate_frontier_transaction
  Good-frontier t w =
      let poor : ℕ → W → Result Exception Unit × W =
        λ n. raise_if (ltb (db.get_balance w t.sender) n) validation_error in
      let nonce : W → Result Exception Unit × W =
        λ s. raise_if (not (db.get_nonce s t.sender == t.fields.nonce)) validation_error s in
      Good-bind (poor (gas_cost t)) (λ _. poor (t.fields.value + gas_cost t) >> nonce) w
        (Good-raise_if _ validation_error w validation_error_ne)
        (λ _ s _.
          Good-bind (poor (t.fields.value + gas_cost t)) (λ _. nonce) s
            (Good-raise_if _ validation_error s validation_error_ne)
            (λ _ s' _. Good-any (Good-raise_if _ validation_error s' validation_error_ne)))

  Good-validate :
      (t : Submitted) (w : W)
      → t.checked ≢ err fuel_exhausted
      → Good (λ _. t.intrinsic_gas ≤ t.fields.gas) (validate_transaction db t w)
  unfolding validate_transaction
  Good-validate t w n =
      let class_checks : W → Result Exception Unit × W = λ s. (t.checked, s) in
      let frontier = validate_frontier_transaction db t in
      Good-bind (raise_if (ltb t.fields.gas t.intrinsic_gas) validation_error)
        (λ _. class_checks >> frontier) w (Good-raise_if _ validation_error w validation_error_ne)
        (λ _ s enough.
          Good-bind class_checks (λ _. frontier) s (Good-result t.checked s n)
            (λ _ s' _. record {
              uncut = (Good-frontier t s').uncut;
              yields = λ _ _. ground (arith, enough);
            }))

  Good-built : (m : Message) (s : W) → Good (λ msg. msg.gas ≡ m.gas) (build m, s)
  Good-built m s = elim (build_lem m) [
    | inl good ↦ record {
      uncut = λ e. cc;
      yields = λ msg e. let same : m ≡ msg = cc in ap (λ x. x.gas) (sym same);
    }
    | inr bad ↦ record { uncut = λ e. validation_error_ne (cc); yields = λ msg e. absurd (cc) }
  ]

  Good-build :
      (lib : Library) (block : Context) (t : Submitted) (w : W)
      → Good (λ msg. msg.gas ≡ t.fields.gas - t.intrinsic_gas) (build_evm_message db lib block t w)
  unfolding build_evm_message message_of
  Good-build lib block t w =
      let context = get_transaction_context db block t in
      let buy = delta_balance db t.sender (negate (gas_cost t)) in
      let bump = db.increment_nonce t.sender in
      let message : Exec Exception W Message = do
        msg ← gets (message_of db lib t)
        λ x. (build msg, x)
      in Good-bind context (λ _. buy >> (bump >> message)) w (Good-context block t w)
        (λ _ s _.
          Good-bind buy (λ _. bump >> message) s
            (Good-always (delta_uncut db uncut t.sender (negate (gas_cost t)) s))
            (λ _ s' _.
              Good-bind bump (λ _. message) s' (Good-always (uncut.increment_nonce t.sender s'))
                (λ _ x _. Good-built (message_of db lib t x) x)))

module _ {W Public : Type 0} (lib : Library) (crypto : Cryptography Public) (db : Accounts W)
    (uncut : Uncut db) (levels : ℕ) (enough : 1024 < levels) where
  abbrev run : Action W Unit
  run = execute lib db (frontier_precompiles crypto) levels

  -- From the start to the end of the computation no gas is gained.
  computed :
      (context : Context) (msg : Message) (w : W)
      → let x = build_computation db run context msg w in
        (x.0 ≢ err fuel_exhausted) × (gas_of x.1 ≤ msg.gas)
  unfolding build_computation
  computed context msg w =
      elim (Bool-cases (is_create msg && db.account_has_code_or_nonce w (storage_address msg))) [
        | inl collides ↦ rw collides (λ e. cc, omega arith)
        | inr fresh ↦
            let ran = machine-Ran lib crypto db uncut levels (start w 0 context msg) enough in
            rw fresh (ran.uncut, omega (arith, ran.gas))
      ]

module _ {W : Type 0} (db : Accounts W) (uncut : Uncut db) where
  -- What is handed out after the finalization.
  handed :
      (c : Computation W) (r : Result Exception Unit) (c' : Computation W)
      → Ran {A = Unit} 0 c (r, c')
      → Good {S = W} {A = Computation W}
          (λ x. get_gas_remaining {W = W} x ≤ gas_of c)
          (elim r [ err e ↦ (err e, c'.accounts) | ok _ ↦ (ok c', c'.accounts) ])
  handed c (ok u) c' ran = record {
    uncut = λ e. cc;
    yields = λ x e.
        let same : c' ≡ x = cc in rw (sym same) (omega (arith, get_gas_remaining-le c', ran.gas));
  }
  handed c (err e) c' ran = record { uncut = λ h. ran.uncut (cc); yields = λ x h. absurd (cc) }

  finished :
      (t : Submitted) (gas : ℕ) (r : Result Exception Unit) (c : Computation W)
      → r ≢ err fuel_exhausted
      → gas_of c ≤ gas
      → Good {S = W} {A = Computation W}
          (λ x. get_gas_remaining {W = W} x ≤ gas)
          (elim r [
            | err e ↦ (err e, c.accounts)
            | ok _ ↦
                let (finalized, c') = finalize_computation db t c in
                elim finalized [ err e ↦ (err e, c'.accounts) | ok _ ↦ (ok c', c'.accounts) ]
          ])
  finished t gas (ok u) c n le =
      let x = finalize_computation db t c in
      let good =
        handed c x.0 x.1 ((Steady-finalize_computation db uncut {d = c.msg.depth} t).at c refl) in
      record { uncut = good.uncut; yields = λ y e. omega (arith, good.yields y e, le) }
  finished t gas (err e) c n le = record { uncut = λ h. n (cc); yields = λ x h. absurd (cc) }

module _ {W Public : Type 0} (lib : Library) (crypto : Cryptography Public) (db : Accounts W)
    (uncut : Uncut db) (levels : ℕ) (enough : 1024 < levels) where
  Good-execute :
      (block : Context) (t : Submitted) (w : W)
      → t.checked ≢ err fuel_exhausted
      → Good
          (λ c. t.intrinsic_gas + get_gas_remaining c ≤ t.fields.gas)
          (execute_transaction db lib (run lib crypto db uncut levels enough) block t w)
  unfolding execute_transaction
  Good-execute block t w n =
      let machine = run lib crypto db uncut levels enough in
      let context = get_transaction_context db block t in
      let message = build_evm_message db lib block t in
      let last : Message → Context → Exec Exception W (Computation W) = λ msg ctx w.
        let (built, c) = build_computation db machine ctx msg w in
        elim built [
          | err e ↦ (err e, c.accounts)
          | ok _ ↦
              let (finalized, c') = finalize_computation db t c in
              elim finalized [ err e ↦ (err e, c'.accounts) | ok _ ↦ (ok c', c'.accounts) ]
        ] in
      Good-bind (validate_transaction db t) (λ _. message >>= (λ msg. context >>= last msg)) w
        (Good-validate db uncut t w n)
        (λ _ s covered.
          Good-bind message (λ msg. context >>= last msg) s (Good-build db uncut lib block t s)
            (λ msg s' gas.
              Good-bind context (last msg) s' (Good-context db uncut block t s') (λ ctx s'' _.
                let (ends, le) = computed lib crypto db uncut levels enough ctx msg s'' in
                let x = build_computation db machine ctx msg s'' in
                let good = finished db uncut t msg.gas x.0 x.1 ends le in
                record {
                  uncut = good.uncut;
                  yields = λ y e. omega (arith, good.yields y e, gas, covered);
                })))

  -- With 1025 levels of calls or more, an account database whose operations are never cut off, and a
  -- transaction class that is not either, the execution of a transaction comes to its end; and if it
  -- returns a computation, the gas that was used is at least the intrinsic gas.
  pub execute_transaction_ends :
      (block : Context) (t : Submitted) (w : W)
      → t.checked ≢ err fuel_exhausted
      → let x =
          execute_transaction db lib
            (execute lib db (frontier_precompiles crypto) levels)
            block
            t
            w in
        (x.0 ≢ err fuel_exhausted)
        × ((c : Computation W) → x.0 ≡ ok c → t.intrinsic_gas + get_gas_remaining c ≤ t.fields.gas)
  execute_transaction_ends block t w n =
      let good = Good-execute block t w n in (good.uncut, good.yields)
