-- ===== src/Vm/Stack.antt =====
-- evm/vm/stack.py: `class Stack`. The head of the list is the end of `self.values`, the top.
pub mod Laws
use py_evm.Prelude.{
  ℕ, zero, suc, List, [], ◌∷◌, Bool, Option, none, some, length, get_elem?, set, ltb, leb,
  if◌then◌else◌,
}
use py_evm.Prelude.Exec.{◌>>=◌, ◌>>◌, Result, ok, err, Exec, pure}
use py_evm.Constants.{uint_256_max}
use py_evm.Exceptions.{Exception, vm_error, insufficient_stack, full_stack, validation_error}
use py_evm.Numeric.{Bytes, int_to_big_endian, big_endian_to_int}

-- `Union[int, Hash32]`. No operation pushes a negative number.
pub data Item : Type 0 where
  int : ℕ → Item
  bytes : Bytes → Item

-- The constants UINT256, BYTES and ANY.
pub data TypeHint : Type 0 where
  uint256 any_bytes any : TypeHint

abbrev pub Popped : TypeHint → Type 0
Popped uint256 = ℕ
Popped any_bytes = Bytes
Popped any = Item

pub record Stack : Type 0 where
  pub values : List Item

abbrev pub empty : Stack
empty = record { values = [] }

abbrev pub Action : Type 0 → Type 0
Action = Exec Exception Stack

-- evm/validation.py: `validate_stack_item`.
abbrev pub is_stack_item : Item → Bool
is_stack_item (int value) = leb value uint_256_max
is_stack_item (bytes value) = leb (length value) 32

unfoldable pub push : Item → Action Unit
push value s =
    if ltb 1023 (length s.values)
    then (err (vm_error full_stack), s)
    else if is_stack_item value
    then (ok tt, record { values = value ∷ s.values })
    else (err validation_error, s)

-- The conversion that `_pop` makes for its `type_hint`.
unfoldable pub convert : (hint : TypeHint) → Item → Popped hint
convert uint256 (int value) = value
convert uint256 (bytes value) = big_endian_to_int value
convert any_bytes (int value) = int_to_big_endian value
convert any_bytes (bytes value) = value
convert any value = value

pop_values : (hint : TypeHint) → List Item → Result Exception (Popped hint) × Stack
unfolding convert
pop_values hint [] = (err (vm_error insufficient_stack), record { values = [] })
pop_values hint (value ∷ rest) = (ok (convert hint value), record { values = rest })

-- One round of `_pop`, with the `IndexError` as `pop` hands it on.
unfoldable pub pop : (hint : TypeHint) → Action (Popped hint)
unfolding pop_values
pop hint s = pop_values hint s.values

-- `pop(num_items, type_hint)` for several items: the generator pops them one by one, so items that
-- it took before it ran out are gone.
unfoldable pub pop2 : (hint : TypeHint) → Action (Popped hint × Popped hint)
unfolding pop
pop2 hint = do a ← pop hint; b ← pop hint; pure (a, b)

unfoldable pub pop3 : (hint : TypeHint) → Action (Popped hint × Popped hint × Popped hint)
unfolding pop
pop3 hint = do a ← pop hint; b ← pop hint; c ← pop hint; pure (a, b, c)

unfoldable pub pop_list : ℕ → (hint : TypeHint) → Action (List (Popped hint))
unfolding pop
pop_list zero hint = pure []
pop_list (suc count) hint = do a ← pop hint; rest ← pop_list count hint; pure (a ∷ rest)

pub swap_values : ℕ → List Item → Option (List Item)
swap_values position [] = none
swap_values position (top ∷ rest) = elim (get_elem? (top ∷ rest) position) [
  | none ↦ none
  | some item ↦ some (set (set (top ∷ rest) 0 item) position top)
]

-- `values[-1 * position - 1]` is `position` places below the top. Both items are read before one is
-- written, so an `IndexError` leaves the stack as it was.
unfoldable pub swap : ℕ → Action Unit
unfolding swap_values
swap position s = elim (swap_values position s.values) [
  | none ↦ (err (vm_error insufficient_stack), s)
  | some values ↦ (ok tt, record { values = values })
]

bottom : List Item → Option Item
bottom [] = none
bottom (x ∷ []) = some x
bottom (x ∷ y ∷ r) = bottom (y ∷ r)

-- `values[-1 * position]`: position 1 is the top, and `values[-0]` is the bottom.
unfoldable pub peek : ℕ → List Item → Option Item
unfolding bottom
peek zero values = bottom values
peek (suc position) values = get_elem? values position

unfoldable pub dup : ℕ → Action Unit
unfolding peek push
dup position s = elim (peek position s.values) [
  | none ↦ (err (vm_error insufficient_stack), s)
  | some value ↦ push value s
]
