-- ===== src/Vm/Steady/Falling.antt =====
-- Steps that use gas whenever they return. An opcode that costs nothing never returns: it raises.
use py_evm.Prelude.Exec.{Result, ◌>>=◌, ok, err, raise}
use py_evm.Vm.Opcodes.{Table, get_opcode_fn, family, as_opcode}
use py_evm.Vm.Logic.Flow.{invalid_opcode}
use py_evm.Exceptions.{invalid_instruction, Exception, fuel_exhausted}
use py_evm.Vm.Steady.Parts.{vm_error_ne, Steady-consume_gas}
use py_evm.Prelude.{
  zero, [], ◌∷◌, ◌++◌, ap, ◌∙◌, ◌≡◌, inl, inr, refl, Bool-cases, ◌==◌, ◌+◌, ℕ, zero, suc, ◌+◌, ◌≤◌,
  ◌<◌, ◌≡◌, refl, ap, ◌∙◌, ◌≢◌, inl, inr, [], ◌∷◌, ◌++◌, arith, ◌==◌, Bool-cases,
}
use py_evm.Vm.Computation.{Computation, Action, consume_gas}
use py_evm.Vm.Computation.Expansion.{consume_lem}
use py_evm.Vm.Steady.{Steady, gas_of, Steady-raise, Steady-bind}

module _ {W : Type 0} where
  pub record Falls {A : Type 0} (d : ℕ) (m : Action W A) : Type 0 where
    pub steady : Steady d 0 m
    pub falls :
        (c : Computation W) (a : A)
        → c.msg.depth ≡ d
        → (m c).0 ≡ ok a
        → suc (gas_of (m c).1) ≤ gas_of c

module _ {W A : Type 0} {d : ℕ} where
  pub Falls-raise : (e : Exception) → e ≢ fuel_exhausted → Falls {W = W} {A = A} d (raise e)
  Falls-raise e n = record { steady = Steady-raise e n; falls = λ c a h p. absurd (cc) }

module _ {W : Type 0} {d : ℕ} where
  pub Falls-consume_gas : (amount : ℕ) → 0 < amount → Falls {W = W} d (consume_gas amount)
  Falls-consume_gas amount pos = record {
    steady = Steady-consume_gas amount;
    falls = λ c a h p. elim (consume_lem amount c) [
      | inl poor ↦ absurd (let bad = rw poor at p in cc)
      | inr (enough, paid) ↦ rw paid (omega (arith, enough, pos))
    ];
  }

module _ {W A B : Type 0} where
  -- A block that returned: its first part did, and then the rest.
  returned :
      (r : Result Exception A) (t : Computation W) (f : A → Action W B) (b : B)
      → let x : Result Exception B × Computation W = elim r [ ok a ↦ f a t | err e ↦ (err e, t) ] in
        x.0 ≡ ok b → (a : A) × (r ≡ ok a) × ((f a t).0 ≡ ok b) × (x.1 ≡ (f a t).1)
  returned (ok a) t f b p = (a, refl, p, refl)
  returned (err e) t f b p = absurd (cc)

module _ {W A B : Type 0} {d : ℕ} where
  -- The first part falls.
  pub Falls-first :
      (m : Action W A) (f : A → Action W B)
      → Falls d m
      → ((a : A) → Steady d 0 (f a))
      → Falls d (m >>= f)
  Falls-first m f km kf = record {
    steady = Steady-bind m f km.steady kf;
    falls = λ c b h p.
        let (a, first, _, same) = returned (m c).0 (m c).1 f b p in
        let deep = ap (λ m. m.depth) (km.steady.at c h).same_msg ∙ h in
        rw same (omega (arith, km.falls c a h first, ((kf a).at (m c).1 deep).gas));
  }

  -- The rest falls.
  pub Falls-rest :
      (m : Action W A) (f : A → Action W B)
      → Steady d 0 m
      → ((a : A) → Falls d (f a))
      → Falls d (m >>= f)
  Falls-rest m f km kf = record {
    steady = Steady-bind m f km (λ a. (kf a).steady);
    falls = λ c b h p.
        let (a, first, last, same) = returned (m c).0 (m c).1 f b p in
        let deep = ap (λ m. m.depth) (km.at c h).same_msg ∙ h in
        rw same (omega (arith, (kf a).falls (m c).1 b deep last, (km.at c h).gas));
  }

module _ {W : Type 0} {d : ℕ} where
  pub Falls-as_opcode :
      (cost : ℕ) (f : Action W Unit) → 0 < cost → Steady d 0 f → Falls d (as_opcode cost f)
  unfolding as_opcode
  Falls-as_opcode zero f pos k = absurd (omega (arith, pos))
  Falls-as_opcode (suc cost) f pos k = Falls-first _ _ (Falls-consume_gas (suc cost) pos) (λ _. k)

module _ {W : Type 0} where
  -- Every function of a table falls.
  abbrev pub Fall : ℕ → Table W → Type 0
  Fall d [] = Unit
  Fall d ((opcode, f) ∷ rest) = Falls d f × Fall d rest

  pub Fall-append : (d : ℕ) (s t : Table W) → Fall d s → Fall d t → Fall d (s ++ t)
  Fall-append d [] t ks kt = kt
  Fall-append d ((opcode, f) ∷ s) t (k, ks) kt = (k, Fall-append d s t ks kt)

module _ {W : Type 0} {d : ℕ} where
  pub Fall-get_opcode_fn :
      (table : Table W) (opcode : ℕ) → Fall d table → Falls d (get_opcode_fn table opcode)
  unfolding get_opcode_fn invalid_opcode
  Fall-get_opcode_fn [] opcode k = Falls-raise _ (vm_error_ne invalid_instruction)
  Fall-get_opcode_fn ((o, f) ∷ rest) opcode (k, ks) = elim (Bool-cases (o == opcode)) [
    | inl same ↦ rw same k
    | inr other ↦ rw other (Fall-get_opcode_fn rest opcode ks)
  ]

  pub Fall-family :
      (opcode index cost count : ℕ) (f : ℕ → Action W Unit)
      → 0 < cost
      → ((i : ℕ) → Steady d 0 (f i))
      → Fall d (family opcode index cost count f)
  unfolding family
  Fall-family opcode index cost zero f pos k = tt
  Fall-family opcode index cost (suc count) f pos k = (
    Falls-as_opcode cost (f index) pos (k index),
    Fall-family (opcode + 1) (index + 1) cost count f pos k,
  )
