-- ===== src/Vm/Steady/Children.antt =====
-- How a parent runs a child: the message it prepares, what it takes over, and the gas it gives back.
use py_evm.Constants.{stack_depth_limit}
use py_evm.Prelude.{
  ◌+◌, ltb, ◌||◌, ℕ, suc, ◌-◌, ◌≤◌, ◌≡◌, refl, sym, ap, ◌∙◌, ◌≢◌, ◌⊎◌, inl, inr, Bool, true, false,
  Option, none, some, arith, if◌then◌else◌,
}
use py_evm.Prelude.Exec.{◌>>=◌, Result, ok, err, pure, ◌>>=◌, ◌>>◌}
use py_evm.Exceptions.{Exception, fuel_exhausted, validation_error}
use py_evm.Vm.Message.{Message, Address, build}
use py_evm.Vm.Computation.{Computation, Action, consume_gas}
use py_evm.Vm.Computation.Expansion.{consume_lem}
use py_evm.Vm.Computation.Outcome.{
  start, get_gas_remaining, prepare_child_message, add_child_computation, apply_child_computation,
}
use py_evm.Vm.Steady.{Steady-bind_last_with, Steady, Ran, gas_of}

module _ {W : Type 0} where
  pub get_gas_remaining-le : (x : Computation W) → get_gas_remaining x ≤ gas_of x
  unfolding get_gas_remaining
  get_gas_remaining-le x = ground arith

module _ {W A : Type 0} {d : ℕ} where
  -- What was paid before may be given back.
  pub Steady-consume_then :
      (fee k : ℕ) (m : Action W A) → k ≤ fee → Steady d k m → Steady d 0 (consume_gas fee >> m)
  Steady-consume_then fee k m le km = record {
    at = λ c h. elim (consume_lem fee c) [
      | inl poor ↦
          rw (◌>>◌, ◌>>=◌, poor, poor)
            (record { uncut = λ e. cc; same_msg = refl; gas = omega arith; sound = λ s. s })
      | inr (enough, paid) ↦
          let c' = record c { gas_meter = record c.gas_meter { gas_remaining = gas_of c - fee } } in
          let ran = km.at c' h in
          rw (◌>>◌, ◌>>=◌, paid, paid)
            (record {
              uncut = ran.uncut;
              same_msg = ran.same_msg;
              gas = omega (arith, ran.gas, le, enough);
              sound = λ s. ran.sound (record { stack = s.stack; memory = s.memory; code = s.code });
            })
    ];
  }

  pub Steady-if_last :
      {k : ℕ} (b : Bool) (m n : Action W A)
      → (b ≡ true → Steady d k m)
      → (b ≡ false → Steady d k n)
      → Steady d k (if b then m else n)
  Steady-if_last true m n km kn = km refl
  Steady-if_last false m n km kn = kn refl

-- A parent that was not refused has room for a child.
pub has_room :
    (d depth now : ℕ) (poor : Bool)
    → now ≡ d
    → ◌≡◌ {A = Result Exception ℕ} (ok now) (ok depth)
    → (poor || ltb stack_depth_limit (depth + 1)) ≡ false
    → d + 1 ≤ 1024
has_room d depth now true h e p = absurd (cc)
has_room d depth now false h e p = let same : now ≡ depth = cc in ground (arith, same)

if_cases :
    {A : Type 0} (b : Bool) (x y : A) → ((if b then x else y) ≡ x) ⊎ ((if b then x else y) ≡ y)
if_cases true x y = inl refl
if_cases false x y = inr refl

-- A message is built as it is given, or refused.
pub build_lem : (m : Message) → (build m ≡ ok m) ⊎ (build m ≡ err validation_error)
unfolding build
build_lem m = if_cases _ (ok m) (err validation_error)

-- The message of a child.
abbrev pub IsFor : ℕ → ℕ → Message → Type 0
IsFor d gas msg = (msg.gas ≡ gas) × (msg.depth ≡ suc d)

module _ {W : Type 0} where
  built :
      (d : ℕ) (m : Message) (c : Computation W)
      → m.depth ≡ suc d
      → ((x : Message) → build m ≡ ok x → IsFor d m.gas x) × (Ran 0 c (build m, c))
  built d m c h = elim (build_lem m) [
    | inl good ↦ (
      λ x e. let same : m ≡ x = cc in rw (sym same) (refl, h),
      record { uncut = λ e. cc; same_msg = refl; gas = omega arith; sound = λ s. s },
    )
    | inr bad ↦ (
      λ x e. absurd (cc),
      record { uncut = λ e. cc; same_msg = refl; gas = omega arith; sound = λ s. s },
    )
  ]

module _ {W : Type 0} {d : ℕ} where
  -- The message of the child is one level deeper and has the given gas.
  pub prepare_lem :
      (sender : Option Address) (m msg : Message) (c : Computation W)
      → c.msg.depth ≡ d
      → (prepare_child_message sender m c).0 ≡ ok msg
      → IsFor d m.gas msg
  unfolding prepare_child_message
  prepare_lem none m msg c h e = (built d _ c (omega (arith, h))).0 msg e
  prepare_lem (some s) m msg c h e = (built d _ c (omega (arith, h))).0 msg e

  pub Steady-prepare :
      (sender : Option Address) (m : Message) → Steady {W = W} d 0 (prepare_child_message sender m)
  unfolding prepare_child_message
  Steady-prepare none m = record { at = λ c h. (built d _ c (omega (arith, h))).1 }
  Steady-prepare (some s) m = record { at = λ c h. (built d _ c (omega (arith, h))).1 }

  -- What the parent takes over, from the outcome of the child.
  joined :
      (r : Result Exception Unit) (t c : Computation W)
      → t.msg.depth ≡ suc d
      → r ≢ err fuel_exhausted
      → c.msg.depth ≡ d
      → let x : Result Exception (Computation W) × Computation W = elim r [
        | ok _ ↦ (add_child_computation t >> pure t) c
        | err e ↦ (err e, record c { accounts = t.accounts; log_counter = t.log_counter })
      ] in
        Ran 0 c x × ((y : Computation W) → x.0 ≡ ok y → y ≡ t)
  unfolding add_child_computation
  joined (ok _) t c h n hc = (
    record {
      uncut = λ e. cc;
      same_msg = refl;
      gas = omega arith;
      sound = λ s. record { stack = s.stack; memory = s.memory; code = s.code };
    },
    λ y e. cc,
  )
  joined (err e) t c h n hc = (
    record {
      uncut = λ p. n (cc);
      same_msg = refl;
      gas = omega arith;
      sound = λ s. record { stack = s.stack; memory = s.memory; code = s.code };
    },
    λ y p. absurd (cc),
  )

  module _ (run : Action W Unit) (child : Steady (suc d) 0 run) where
    -- A child that returns has no more gas left than its message had.
    pub apply_lem :
        (gas : ℕ) (msg : Message) (c : Computation W)
        → IsFor d gas msg
        → c.msg.depth ≡ d
        → Ran 0 c (apply_child_computation run msg c)
          × ((x : Computation W) → (apply_child_computation run msg c).0 ≡ ok x → gas_of x ≤ gas)
    unfolding apply_child_computation
    apply_lem gas msg c isfor h =
        let fresh = start c.accounts c.log_counter c.context msg in
        let ran = child.at fresh isfor.1 in
        let deep = ap (λ m. m.depth) ran.same_msg ∙ isfor.1 in
        let both = joined (run fresh).0 (run fresh).1 c deep ran.uncut h in
        (both.0, λ x e. let same = both.1 x e in rw same (omega (arith, ran.gas, isfor.0)))

    -- The child's message is prepared, the child runs, and the parent goes on with its outcome.
    pub Steady-run_child :
        (sender : Option Address) (m : Message) (f : Computation W → Action W Unit)
        → ((x : Computation W) → gas_of x ≤ m.gas → Steady d m.gas (f x))
        → Steady d m.gas
            (do msg ← prepare_child_message sender m; x ← apply_child_computation run msg; f x)
    Steady-run_child sender m f kf =
        Steady-bind_last_with _ _ (Steady-prepare sender m) (λ msg c h e.
          let isfor = prepare_lem sender m msg c h e in
          Steady-bind_last_with _ _ (record { at = λ t ht. (apply_lem m.gas msg t isfor ht).0 })
            (λ x t ht et. kf x ((apply_lem m.gas msg t isfor ht).1 x et)))
