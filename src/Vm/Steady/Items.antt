-- ===== src/Vm/Steady/Items.antt =====
-- The calls on the stack that the computation hands on keep it valid, and are never cut off.
use py_evm.Prelude.{ℕ, zero, suc, ◌≢◌, inl, inr, List, [], ◌∷◌, arith, Option-cases}
use py_evm.Prelude.Exec.{Result, ok, err, pure, ◌>>=◌}
use py_evm.Exceptions.{Exception, fuel_exhausted}
use py_evm.Vm.Stack
use py_evm.Vm.Stack.{Action, Item, TypeHint, Popped}
use py_evm.Vm.Stack.Laws.{IsValid, push-IsValid, pop-IsValid, dup-IsValid, swap-IsValid}

pub record Fine {A : Type 0} (m : Action A) : Type 0 where
  pub keeps : (s : Stack.Stack) → IsValid s → IsValid (m s).1
  pub uncut : (s : Stack.Stack) → (m s).0 ≢ err fuel_exhausted

module _ {A : Type 0} where
  Fine-pure : (a : A) → Fine (pure a)
  Fine-pure a = record { keeps = λ s v. v; uncut = λ s e. cc }

module _ {A B : Type 0} where
  after_keeps :
      (t : Stack.Stack) (r : Result Exception A) (f : A → Action B)
      → IsValid t
      → ((a : A) → Fine (f a))
      → let x : Result Exception B × Stack.Stack = elim r [ ok a ↦ f a t | err e ↦ (err e, t) ] in
        IsValid x.1
  after_keeps t (ok a) f v kf = (kf a).keeps t v
  after_keeps t (err e) f v kf = v

  after_uncut :
      (t : Stack.Stack) (r : Result Exception A) (f : A → Action B)
      → r ≢ err fuel_exhausted
      → ((a : A) → Fine (f a))
      → let x : Result Exception B × Stack.Stack = elim r [ ok a ↦ f a t | err e ↦ (err e, t) ] in
        x.0 ≢ err fuel_exhausted
  after_uncut t (ok a) f n kf = (kf a).uncut t
  after_uncut t (err e) f n kf = λ p. n (cc)

  Fine-bind : (m : Action A) (f : A → Action B) → Fine m → ((a : A) → Fine (f a)) → Fine (m >>= f)
  Fine-bind m f km kf = record {
    keeps = λ s v. after_keeps (m s).1 (m s).0 f (km.keeps s v) kf;
    uncut = λ s. after_uncut (m s).1 (m s).0 f (km.uncut s) kf;
  }

pub Fine-push : (x : Item) → Fine (Stack.push x)
unfolding Stack.push
Fine-push x = record { keeps = push-IsValid x; uncut = λ s e. ground arith }

pop_uncut : (hint : TypeHint) (s : Stack.Stack) → (Stack.pop hint s).0 ≢ err fuel_exhausted
unfolding Stack.pop
pop_uncut hint s = go s.values
  where
    go : (values : List Item) → (Stack.pop hint (record { values = values })).0 ≢ err fuel_exhausted
    go [] = λ e. cc
    go (x ∷ xs) = λ e. cc

pub Fine-pop : (hint : TypeHint) → Fine (Stack.pop hint)
Fine-pop hint = record { keeps = pop-IsValid hint; uncut = pop_uncut hint }

pub Fine-pop2 : (hint : TypeHint) → Fine (Stack.pop2 hint)
unfolding Stack.pop2
Fine-pop2 hint = search (Fine-bind, Fine-pure, Fine-pop)

pub Fine-pop3 : (hint : TypeHint) → Fine (Stack.pop3 hint)
unfolding Stack.pop3
Fine-pop3 hint = search (Fine-bind, Fine-pure, Fine-pop) depth 8

pub Fine-pop_list : (count : ℕ) (hint : TypeHint) → Fine (Stack.pop_list count hint)
unfolding Stack.pop_list
Fine-pop_list zero hint = Fine-pure []
Fine-pop_list (suc count) hint =
    let rest = Fine-pop_list count hint in search (Fine-bind, Fine-pure, Fine-pop) depth 8

pub Fine-swap : (position : ℕ) → Fine (Stack.swap position)
unfolding Stack.swap
Fine-swap position = record {
  keeps = swap-IsValid position;
  uncut =
      λ s e. elim (Option-cases (Stack.swap_values position s.values)) [ inl n ↦ cc | inr n ↦ cc ];
}

pub Fine-dup : (position : ℕ) → Fine (Stack.dup position)
unfolding Stack.dup Stack.push
Fine-dup position = record { keeps = dup-IsValid position; uncut = λ s e. ground arith }
