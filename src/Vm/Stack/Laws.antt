-- ===== src/Vm/Stack/Laws.antt =====
-- What the stack keeps, and how its operations undo and select.
use py_evm.Prelude.{
  ℕ, zero, suc, ◌<◌, ◌≤◌, ◌≡◌, refl, sym, ap, ◌≢◌, List, [], ◌∷◌, true, some, length, get_elem?,
  get_elem?-some, Option-cases, inl, inr, get_elem?-set_self, get_elem?-set_ne, set, length-set,
  All, arith,
}
use py_evm.Prelude.Exec.{ok}
use py_evm.Vm.Stack.{
  Item, TypeHint, Stack, is_stack_item, push, pop, convert, swap, swap_values, dup, peek, bottom,
}

-- At most 1024 items, each a word or at most 32 bytes.
pub record IsValid (s : Stack) : Type 0 where
  pub bounded : length s.values ≤ 1024
  pub items : All (λ x. is_stack_item x ≡ true) s.values

pub push-IsValid : (x : Item) (s : Stack) → IsValid s → IsValid (push x s).1
unfolding push
push-IsValid x s v = ground arith

pub pop-IsValid : (hint : TypeHint) (s : Stack) → IsValid s → IsValid (pop hint s).1
unfolding pop
pop-IsValid hint s v = pop_values-IsValid s.values v.bounded v.items
  where
    pop_values-IsValid :
        (xs : List Item)
        → length xs ≤ 1024
        → All (λ x. is_stack_item x ≡ true) xs
        → IsValid (pop hint (record { values = xs })).1
    pop_values-IsValid [] h k = record { bounded = omega arith; items = tt }
    pop_values-IsValid (x ∷ xs) h k = record { bounded = omega arith; items = k.1 }

abbrev Items : List Item → Type 0
Items = All (λ x. is_stack_item x ≡ true)

Items-set :
    (xs : List Item) (i : ℕ) (x : Item) → Items xs → is_stack_item x ≡ true → Items (set xs i x)
Items-set [] i x h k = tt
Items-set (y ∷ xs) zero x h k = (k, h.1)
Items-set (y ∷ xs) (suc i) x h k = (h.0, Items-set xs i x h.1 k)

Items-get :
    (xs : List Item) (i : ℕ) (x : Item)
    → Items xs
    → get_elem? xs i ≡ some x
    → is_stack_item x ≡ true
Items-get [] i x h e = cc
Items-get (y ∷ xs) zero x h e = let same : y ≡ x = cc in rw (← same) h.0
Items-get (y ∷ xs) (suc i) x h e = Items-get xs i x h.1 e

Items-bottom : (xs : List Item) (x : Item) → Items xs → bottom xs ≡ some x → is_stack_item x ≡ true
unfolding bottom
Items-bottom [] x h e = cc
Items-bottom (y ∷ []) x h e = let same : y ≡ x = cc in rw (← same) h.0
Items-bottom (y ∷ z ∷ r) x h e = Items-bottom (z ∷ r) x h.1 e

Items-peek :
    (position : ℕ) (xs : List Item) (x : Item)
    → Items xs
    → peek position xs ≡ some x
    → is_stack_item x ≡ true
unfolding peek
Items-peek zero xs x h e = Items-bottom xs x h e
Items-peek (suc position) xs x h e = Items-get xs position x h e

-- `DUP` pushes the item that it reads.
pub dup-eq-push :
    (position : ℕ) (s : Stack) (x : Item)
    → peek position s.values ≡ some x
    → dup position s ≡ push x s
unfolding dup
dup-eq-push position s x e = rw (e, dup)

pub dup-IsValid : (position : ℕ) (s : Stack) → IsValid s → IsValid (dup position s).1
unfolding dup
dup-IsValid position s v = elim (Option-cases (peek position s.values)) [
  | inl e ↦ rw (e, dup) v
  | inr (x, e) ↦ rw (e, dup) (push-IsValid x s v)
]

swap_values-length :
    (position : ℕ) (xs ys : List Item) → swap_values position xs ≡ some ys → length ys ≡ length xs
unfolding swap_values
swap_values-length position [] ys e = cc
swap_values-length position (x ∷ xs) ys e = elim (Option-cases (get_elem? (x ∷ xs) position)) [
  | inl n ↦ ground arith
  | inr (y, n) ↦ ground (arith, length-set (y ∷ xs) position x)
]

swap_values-Items :
    (position : ℕ) (xs ys : List Item) → Items xs → swap_values position xs ≡ some ys → Items ys
unfolding swap_values
swap_values-Items position [] ys h e = cc
swap_values-Items position (x ∷ xs) ys h e = elim (Option-cases (get_elem? (x ∷ xs) position)) [
  | inl n ↦ ground arith
  | inr (y, n) ↦
      let same : set (y ∷ xs) position x ≡ ys = ground arith in
      rw (← same) (Items-set (y ∷ xs) position x (Items-get (x ∷ xs) position y h n, h.1) h.0)
]

pub swap-IsValid : (position : ℕ) (s : Stack) → IsValid s → IsValid (swap position s).1
unfolding swap
swap-IsValid position s v = elim (Option-cases (swap_values position s.values)) [
  | inl e ↦ rw (e, swap) v
  | inr (ys, e) ↦
      rw (e, swap)
        (record {
          bounded = omega (arith, swap_values-length position s.values ys e);
          items = swap_values-Items position s.values ys v.items e;
        })
]

-- The calls that the interpreter makes of a stack.
pub data Call : Type 0 where
  push_call : Item → Call
  pop_call : TypeHint → Call
  swap_call dup_call : ℕ → Call

abbrev pub call : Call → Stack → Stack
call (push_call x) s = (push x s).1
call (pop_call hint) s = (pop hint s).1
call (swap_call position) s = (swap position s).1
call (dup_call position) s = (dup position s).1

abbrev pub calls : List Call → Stack → Stack
calls [] s = s
calls (c ∷ cs) s = calls cs (call c s)

call-IsValid : (c : Call) (s : Stack) → IsValid s → IsValid (call c s)
call-IsValid (push_call x) s v = push-IsValid x s v
call-IsValid (pop_call hint) s v = pop-IsValid hint s v
call-IsValid (swap_call position) s v = swap-IsValid position s v
call-IsValid (dup_call position) s v = dup-IsValid position s v

-- Whatever sequence of calls is made from a valid stack, refused calls included, the stack never
-- holds more than 1024 items, and every item is a word or at most 32 bytes.
pub calls-IsValid : (cs : List Call) (s : Stack) → IsValid s → IsValid (calls cs s)
calls-IsValid [] s v = v
calls-IsValid (c ∷ cs) s v = calls-IsValid cs (call c s) (call-IsValid c s v)

-- An item that a push accepts is the one that the next pop hands back, converted by its hint, and
-- the stack is then the old one.
pub pop-push :
    (x : Item) (hint : TypeHint) (s t : Stack)
    → push x s ≡ (ok tt, t)
    → pop hint t ≡ (ok (convert hint x), s)
unfolding push pop
pop-push x hint s t h =
    let pushed : (record { values = x ∷ s.values }) ≡ t = ground arith in rw (← pushed)

-- What `swap_values` writes.
Exchanged : ℕ → List Item → List Item → Type 0
Exchanged position xs ys =
    (get_elem? ys 0 ≡ get_elem? xs position)
    × (get_elem? ys position ≡ get_elem? xs 0)
    × ((j : ℕ) → j ≢ 0 → j ≢ position → get_elem? ys j ≡ get_elem? xs j)

swap_values_lem :
    (position : ℕ) (xs : List Item)
    → position < length xs
    → (ys : List Item) × (swap_values position xs ≡ some ys) × Exchanged position xs ys
unfolding swap_values Exchanged
swap_values_lem position [] h = elim h [ ]
swap_values_lem zero (x ∷ xs) h = (x ∷ xs, refl, (refl, refl, λ j a b. refl))
swap_values_lem (suc p) (x ∷ xs) h =
    let (y, e) = get_elem?-some xs p (omega arith) in
    let other : (j : ℕ) → j ≢ 0 → j ≢ suc p → get_elem? (y ∷ set xs p x) j ≡ get_elem? (x ∷ xs) j =
      elim [
        | zero ↦ λ a b. absurd (a refl)
        | suc j ↦ λ a b. get_elem?-set_ne xs p j x (λ q. b (ap suc (sym q)))
      ] in
    (y ∷ set xs p x, rw (e, swap_values), (sym e, get_elem?-set_self xs p x (omega arith), other))

-- A swap at a position below the depth of the stack succeeds, exchanges the top with the item there,
-- and moves no other item.
pub swap_exchanges :
    (position : ℕ) (s : Stack)
    → position < length s.values
    → let (r, t) = swap position s in
      (r ≡ ok tt)
      × (get_elem? t.values 0 ≡ get_elem? s.values position)
      × (get_elem? t.values position ≡ get_elem? s.values 0)
      × ((j : ℕ) → j ≢ 0 → j ≢ position → get_elem? t.values j ≡ get_elem? s.values j)
unfolding swap Exchanged
swap_exchanges position s h =
    let (ys, e, x) = swap_values_lem position s.values h in rw (e, swap) (refl, x.0, x.1, x.2)
