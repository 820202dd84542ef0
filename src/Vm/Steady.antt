-- ===== src/Vm/Steady.antt =====
-- What every step of the interpreter keeps: the message, the gas that is left (it never grows by more
-- than a given amount), and the soundness of the stack, the memory and the code stream. A step is also
-- never cut off for lack of fuel.
pub mod Items
pub mod Parts
pub mod Opcodes
pub mod World
pub mod Children
pub mod Calls
pub mod Creates
pub mod Falling
pub mod Table
pub mod Loop
pub mod Machine
pub mod Forks
use py_evm.Prelude.{ℕ, ◌+◌, ◌≤◌, ◌≡◌, refl, ap, ◌∙◌, ◌≢◌, Bool, true, false, arith, if◌then◌else◌}
use py_evm.Prelude.Exec.{Result, ok, err, pure, raise, gets, ◌>>=◌}
use py_evm.Exceptions.{Exception, fuel_exhausted}
use py_evm.Vm.Stack.Laws.{IsValid}
use py_evm.Vm.Memory.Laws.{IsWhole}
use py_evm.Vm.CodeStream.Jumps.{IsCache}
use py_evm.Vm.Computation.{Computation, Action}

module _ {W : Type 0} where
  -- Valid stack, memory of whole words, right cache of jump destinations.
  pub record IsSound (c : Computation W) : Type 0 where
    pub stack : IsValid c.stack
    pub memory : IsWhole c.memory
    pub code : IsCache c.code

  abbrev pub gas_of : Computation W → ℕ
  gas_of c = c.gas_meter.gas_remaining

  -- The outcome of a step from `c` that gained at most `k` gas.
  pub record Ran {A : Type 0} (k : ℕ) (c : Computation W) (x : Result Exception A × Computation W)
      : Type 0 where
    pub uncut : x.0 ≢ err fuel_exhausted
    pub same_msg : x.1.msg ≡ c.msg
    pub gas : gas_of x.1 ≤ gas_of c + k
    pub sound : IsSound c → IsSound x.1

  -- From every computation of depth `d`.
  pub record Steady {A : Type 0} (d k : ℕ) (m : Action W A) : Type 0 where
    pub at : (c : Computation W) → c.msg.depth ≡ d → Ran k c (m c)

module _ {W A : Type 0} {d : ℕ} where
  pub Steady-pure : (a : A) → Steady {W = W} d 0 (pure a)
  Steady-pure a = record {
    at = λ c h. record { uncut = λ e. cc; same_msg = refl; gas = omega arith; sound = λ s. s };
  }

  pub Steady-raise : (e : Exception) → e ≢ fuel_exhausted → Steady {W = W} {A = A} d 0 (raise e)
  Steady-raise e n = record {
    at = λ c h. record { uncut = λ p. n (cc); same_msg = refl; gas = omega arith; sound = λ s. s };
  }

  pub Steady-gets : (f : Computation W → A) → Steady d 0 (gets f)
  Steady-gets f = record {
    at = λ c h. record { uncut = λ e. cc; same_msg = refl; gas = omega arith; sound = λ s. s };
  }

  pub Steady-if :
      (b : Bool) (m n : Action W A) → Steady d 0 m → Steady d 0 n → Steady d 0 (if b then m else n)
  Steady-if true m n km kn = km
  Steady-if false m n km kn = kn

  pub Steady-weaken : {j k : ℕ} {m : Action W A} → Steady d j m → j ≤ k → Steady d k m
  Steady-weaken km le = record {
    at = λ c h.
        let ran = km.at c h in
        record {
          uncut = ran.uncut;
          same_msg = ran.same_msg;
          gas = omega (arith, ran.gas, le);
          sound = ran.sound;
        };
  }

module _ {W A B : Type 0} {d : ℕ} where
  Ran-bind :
      {j k : ℕ} (c t : Computation W) (r : Result Exception A) (f : A → Action W B)
      → c.msg.depth ≡ d
      → Ran {A = A} j c (r, t)
      → ((a : A) → r ≡ ok a → Steady d k (f a))
      → Ran {A = B} (j + k) c (elim r [ ok a ↦ f a t | err e ↦ (err e, t) ])
  Ran-bind c t (ok a) f h ran kf =
      let rest = (kf a refl).at t (ap (λ m. m.depth) ran.same_msg ∙ h) in
      record {
        uncut = rest.uncut;
        same_msg = rest.same_msg ∙ ran.same_msg;
        gas = omega (arith, rest.gas, ran.gas);
        sound = λ s. rest.sound (ran.sound s);
      }
  Ran-bind c t (err e) f h ran kf = record {
    uncut = λ p. ran.uncut (cc);
    same_msg = ran.same_msg;
    gas = omega (arith, ran.gas);
    sound = ran.sound;
  }

  -- The rest of a block may use what the first part returned.
  pub Steady-bind_with :
      {j k : ℕ} (m : Action W A) (f : A → Action W B)
      → Steady d j m
      → ((a : A) (c : Computation W) → c.msg.depth ≡ d → (m c).0 ≡ ok a → Steady d k (f a))
      → Steady d (j + k) (m >>= f)
  Steady-bind_with m f km kf = record {
    at = λ c h. Ran-bind c (m c).1 (m c).0 f h (km.at c h) (λ a e. kf a c h e);
  }

  pub Steady-bind :
      (m : Action W A) (f : A → Action W B)
      → Steady d 0 m
      → ((a : A) → Steady d 0 (f a))
      → Steady d 0 (m >>= f)
  Steady-bind m f km kf = Steady-bind_with m f km (λ a c h e. kf a)

  -- Only the rest gains gas.
  pub Steady-bind_last :
      {k : ℕ} (m : Action W A) (f : A → Action W B)
      → Steady d 0 m
      → ((a : A) → Steady d k (f a))
      → Steady d k (m >>= f)
  Steady-bind_last m f km kf =
      Steady-weaken (Steady-bind_with m f km (λ a c h e. kf a)) (omega arith)

  pub Steady-bind_last_with :
      {k : ℕ} (m : Action W A) (f : A → Action W B)
      → Steady d 0 m
      → ((a : A) (c : Computation W) → c.msg.depth ≡ d → (m c).0 ≡ ok a → Steady d k (f a))
      → Steady d k (m >>= f)
  Steady-bind_last_with m f km kf = Steady-weaken (Steady-bind_with m f km kf) (omega arith)
