-- ===== src/Prelude/Exec.antt =====
-- A method of a Python object: it changes the object and returns, or raises. What was written
-- before a raise stays written, so the object comes back beside the exception too.
use mathlib.Core.Path.{◌≡◌, refl, ap}
use py_evm.Prelude.{Bool, true, false, Option, none, some, if◌then◌else◌}

pub data Result (E A : Type 0) : Type 0 where
  ok : A → Result E A
  err : E → Result E A

abbrev pub Exec : Type 0 → Type 0 → Type 0 → Type 0
Exec E S A = S → Result E A × S

module _ {E S A : Type 0} where
  abbrev pub pure : A → Exec E S A
  pure a s = (ok a, s)

  abbrev pub raise : E → Exec E S A
  raise e s = (err e, s)

  abbrev pub gets : (S → A) → Exec E S A
  gets f s = (ok (f s), s)

  -- The value of an optional, or the exception.
  abbrev pub or_raise : Option A → E → Exec E S A
  or_raise none e = raise e
  or_raise (some a) e = pure a

infixl 5 ◌>>=◌ ◌>>◌
abbrev pub ◌>>=◌ : {E S A B : Type 0} → Exec E S A → (A → Exec E S B) → Exec E S B
◌>>=◌ m f s = let (r, s') = m s in elim r [ ok a ↦ f a s' | err e ↦ (err e, s') ]

abbrev pub ◌>>◌ : {E S A B : Type 0} → Exec E S A → Exec E S B → Exec E S B
m >> k = m >>= λ _. k

abbrev pub modify : {E S : Type 0} → (S → S) → Exec E S Unit
modify f s = (ok tt, f s)

abbrev pub raise_if : {E S : Type 0} → Bool → E → Exec E S Unit
raise_if c e s = (if c then err e else ok tt, s)

-- A method of a part of the object: read the part, run, write the part back.
abbrev pub zoom : {E S T A : Type 0} → (S → T) → (T → S → S) → Exec E T A → Exec E S A
zoom view put m s = let (r, t) = m (view s) in (r, put t s)

after-ok :
    {E S : Type 0} (x : Result E Unit × S) (k : Exec E S Unit)
    → x.0 ≡ ok tt
    → (elim x.0 [ ok _ ↦ k x.1 | err e ↦ (err e, x.1) ]) ≡ k x.1
after-ok (ok _, s) k e = refl
after-ok (err _, s) k e = cc

-- A step that returned is followed by the rest.
pub >>-ok : {E S : Type 0} (m k : Exec E S Unit) (s : S) → (m s).0 ≡ ok tt → (m >> k) s ≡ k (m s).1
>>-ok m k s e = after-ok (m s) k e

pub >>=-ok :
    {E S A B : Type 0} (m : Exec E S A) (f : A → Exec E S B) (s s' : S) (a : A)
    → m s ≡ (ok a, s')
    → (m >>= f) s ≡ f a s'
>>=-ok {E} {S} {A} {B} m f s s' a e =
    ap
      (λ (x : Result E A × S). elim x.0 as (λ _. Result E B × S) [
        | ok b ↦ f b x.1
        | err d ↦ (err d, x.1)
      ])
      e

-- A result, and what is done with its value.
unfoldable pub and_then : {E A B : Type 0} → Result E A → (A → Result E B) → Result E B
and_then (ok a) k = k a
and_then (err e) k = err e

-- Refused under a condition.
abbrev pub refuse_if : {E : Type 0} → Bool → E → Result E Unit
refuse_if c e = if c then err e else ok tt

pub and_then-ok :
    {E A B : Type 0} (r : Result E A) (k : A → Result E B) (b : B)
    → and_then r k ≡ ok b
    → (a : A) × (r ≡ ok a) × (k a ≡ ok b)
unfolding and_then
and_then-ok (ok a) k b e = (a, refl, e)
and_then-ok (err x) k b e = cc

pub refuse_if-ok : {E : Type 0} (c : Bool) (e : E) → refuse_if c e ≡ ok tt → c ≡ false
refuse_if-ok true e h = cc
refuse_if-ok false e h = refl

pub guarded-ok :
    {E A : Type 0} (c : Bool) (e : E) (r : Result E A) (a : A)
    → (if c then err e else r) ≡ ok a
    → (c ≡ false) × (r ≡ ok a)
guarded-ok true e r a h = cc
guarded-ok false e r a h = (refl, h)

pub ok_inj : {E A : Type 0} (a b : A) → ◌≡◌ {A = Result E A} (ok a) (ok b) → a ≡ b
ok_inj {E} {A} a b e = ap (λ (r : Result E A). elim r [ ok x ↦ x | err _ ↦ a ]) e
