-- ===== src/Vm/Memory/Laws.antt =====
-- Reading what was written, and the size of the memory.
use native.Mathlib.Numerals.{add-one}
use py_evm.Prelude.{
  ℕ, zero, suc, ◌+◌, ◌-◌, ◌%◌, ◌<◌, ◌≤◌, ◌≡◌, refl, ap, ◌∙◌, ◌≢◌, [], ◌∷◌, ◌++◌, some, length,
  get_elem?, get_elem?-set_self, get_elem?-set_ne, get_elem?-append_left, set, length-set,
  length-append, length-replicate, replicate, take, drop, arith, Bool-cases, inl, inr, ◌⊎◌, leb,
  ◌==◌,
}
use py_evm.Prelude.Exec.{ok, err}
use py_evm.Constants.{uint_256_max}
use py_evm.Exceptions.{validation_error, fuel_exhausted}
use py_evm.Numeric.{Bytes, ceil32, slice}
use py_evm.Numeric.Ceil.{ceil32_least}
use py_evm.Vm.Memory.{Memory, extend, write, write_bytes, read}

length-write_bytes :
    (position : ℕ) (value content : Bytes)
    → length (write_bytes position value content) ≡ length content
unfolding write_bytes
length-write_bytes position [] content = refl
length-write_bytes position (v ∷ value) content = omega (
  arith,
  length-write_bytes (position + 1) value (set content position v),
  length-set content position v,
)

write_bytes-below :
    (position : ℕ) (value content : Bytes) (i : ℕ)
    → i < position
    → get_elem? (write_bytes position value content) i ≡ get_elem? content i
unfolding write_bytes
write_bytes-below position [] content i h = refl
write_bytes-below position (v ∷ value) content i h = ground (
  arith,
  write_bytes-below (position + 1) value (set content position v) i (omega arith),
  get_elem?-set_ne content position i v (omega arith),
)

write_bytes-above :
    (position : ℕ) (value content : Bytes) (i : ℕ)
    → position + length value ≤ i
    → get_elem? (write_bytes position value content) i ≡ get_elem? content i
unfolding write_bytes
write_bytes-above position [] content i h = refl
write_bytes-above position (v ∷ value) content i h = ground (
  arith,
  write_bytes-above (position + 1) value (set content position v) i (omega arith),
  get_elem?-set_ne content position i v (omega arith),
)

-- Taking a byte off a list that has one.
drop_step : (xs : Bytes) (i v : ℕ) → get_elem? xs i ≡ some v → drop i xs ≡ v ∷ drop (suc i) xs
drop_step [] i v e = cc
drop_step (x ∷ xs) zero v e = ground arith
drop_step (x ∷ xs) (suc i) v e = drop_step xs i v e

slice-write_bytes :
    (position : ℕ) (value content : Bytes)
    → position + length value ≤ length content
    → slice position (length value) (write_bytes position value content) ≡ value
unfolding write_bytes
slice-write_bytes position [] content h = refl
slice-write_bytes position (v ∷ value) content h =
    let content' = set content position v in
    let written = write_bytes (position + 1) value content' in
    let first : get_elem? written position ≡ some v =
      write_bytes-below (position + 1) value content' position (omega arith)
      ∙ get_elem?-set_self content position v (omega arith) in
    let rest : take (length value) (drop (position + 1) written) ≡ value =
      slice-write_bytes (position + 1) value content'
        (omega (arith, length-set content position v)) in
    rw (drop_step written position v first, ← add-one position) (ap (λ t. v ∷ t) rest)

write_ok :
    (start_position size : ℕ) (value : Bytes) (m : Memory)
    → start_position ≤ uint_256_max
    → size ≤ uint_256_max
    → length value ≡ size
    → start_position + size ≤ length m.content
    → write start_position size value m
      ≡ (ok tt, record { content = write_bytes start_position value m.content })
unfolding write write_bytes
write_ok start_position size [] m fits fits' len room = ground arith
write_ok start_position size (v ∷ value) m fits fits' len room = elim (Bool-cases (size == 0)) [
  | inl e ↦ absurd (ground arith)
  | inr e ↦ ground arith
]

-- A write of as many bytes as are announced, inside the memory, at a position and of a size of 256 bits,
-- succeeds, and reading it back gives the value; no other byte changes, and neither does the size.
pub read-write :
    (start_position size : ℕ) (value : Bytes) (m : Memory)
    → start_position ≤ uint_256_max
    → size ≤ uint_256_max
    → length value ≡ size
    → start_position + size ≤ length m.content
    → let (r, t) = write start_position size value m in
      (r ≡ ok tt)
      × (read start_position size t ≡ value)
      × (length t.content ≡ length m.content)
      × ((i : ℕ)
          → (i < start_position) ⊎ (start_position + size ≤ i)
          → get_elem? t.content i ≡ get_elem? m.content i)
read-write start_position size value m fits fits' len room =
    rw (write_ok start_position size value m fits fits' len room, ← len)
      (
        refl,
        unfold read in slice-write_bytes start_position value m.content (omega arith),
        length-write_bytes start_position value m.content,
        λ i outside. elim outside [
          | inl below ↦ write_bytes-below start_position value m.content i below
          | inr above ↦ write_bytes-above start_position value m.content i (omega arith)
        ],
      )

-- A write of at least one byte that reaches beyond the memory, or of a value of another length, raises
-- and changes nothing.
pub write_refused :
    (start_position size : ℕ) (value : Bytes) (m : Memory)
    → 0 < size
    → (length value ≢ size) ⊎ (length m.content < start_position + size)
    → write start_position size value m ≡ (err validation_error, m)
unfolding write
write_refused start_position size value m pos bad = ground arith

-- The memory is a whole number of words.
abbrev pub IsWhole : Memory → Type 0
IsWhole m = length m.content % 32 ≡ 0

-- `itertools.repeat(0, n)`
abbrev zero_bytes : ℕ → Bytes
zero_bytes n = replicate n 0

get_elem?-replicate : (n i : ℕ) → i < n → get_elem? (zero_bytes n) i ≡ some 0
get_elem?-replicate zero i h = elim h [ ]
get_elem?-replicate (suc n) zero h = refl
get_elem?-replicate (suc n) (suc i) h = get_elem?-replicate n i (omega arith)

get_elem?-append_zeros :
    (xs : Bytes) (n i : ℕ)
    → length xs ≤ i
    → i < length xs + n
    → get_elem? (xs ++ zero_bytes n) i ≡ some 0
get_elem?-append_zeros [] n i h k = get_elem?-replicate n i (omega arith)
get_elem?-append_zeros (x ∷ xs) n zero h k = absurd (omega arith)
get_elem?-append_zeros (x ∷ xs) n (suc i) h k =
    get_elem?-append_zeros xs n i (omega arith) (omega arith)

-- What an extension by a number of zero bytes keeps, and what it adds.
pub record Extends (m t : Memory) : Type 0 where
  pub grows : length m.content ≤ length t.content
  pub keeps : (i : ℕ) → i < length m.content → get_elem? t.content i ≡ get_elem? m.content i
  pub zeros : (i : ℕ) → length m.content ≤ i → i < length t.content → get_elem? t.content i ≡ some 0

Extends-refl : (m : Memory) → Extends m m
Extends-refl m = record {
  grows = omega arith;
  keeps = λ i h. refl;
  zeros = λ i h k. absurd (omega arith);
}

Extends-append : (m : Memory) (n : ℕ) → Extends m (record { content = m.content ++ zero_bytes n })
Extends-append m n = record {
  grows = omega (arith, length-append m.content (zero_bytes n));
  keeps = λ i h. get_elem?-append_left m.content (zero_bytes n) i h;
  zeros = λ i h k.
      get_elem?-append_zeros m.content n i h
        (omega (arith, length-append m.content (zero_bytes n), length-replicate n zero));
}

-- From a whole number of words `extend` keeps every byte, adds zero bytes only, leaves a whole number of words, and makes room
-- for what was asked.
pub extend_lem :
    (start_position size : ℕ) (m : Memory)
    → IsWhole m
    → let t = extend start_position size m in
      Extends m t × IsWhole t × (0 < size → start_position + size ≤ length t.content)
unfolding extend
extend_lem start_position size m whole = elim (Bool-cases (size == 0)) [
  | inl e ↦ rw e (Extends-refl m, whole, λ pos. absurd (ground arith))
  | inr e ↦ elim (Bool-cases (leb (ceil32 (start_position + size)) (length m.content))) [
    | inl fits ↦
        rw (e, fits)
          (Extends-refl m, whole, λ pos. ground (arith, ceil32_least (start_position + size)))
    | inr long ↦
        let need = ceil32 (start_position + size) in
        let added = zero_bytes (need - length m.content) in
        let total : length (m.content ++ added) ≡ need = ground (
          arith,
          length-append m.content added,
          length-replicate {0} (need - length m.content) zero,
        ) in
        rw (e, long)
          (
            Extends-append m (need - length m.content),
            rw total (ceil32_least (start_position + size)).2,
            λ pos. rw total (ceil32_least (start_position + size)).0,
          )
  ]
]

pub write_uncut :
    (start_position size : ℕ) (value : Bytes) (m : Memory)
    → (write start_position size value m).0 ≢ err fuel_exhausted
unfolding write
write_uncut start_position size value m = ground arith

pub write-IsWhole :
    (start_position size : ℕ) (value : Bytes) (m : Memory)
    → IsWhole m
    → IsWhole (write start_position size value m).1
unfolding write
write-IsWhole start_position size value m whole =
    ground (arith, length-write_bytes start_position value m.content)
