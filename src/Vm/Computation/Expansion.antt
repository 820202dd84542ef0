-- ===== src/Vm/Computation/Expansion.antt =====
-- What the memory of a computation costs.
use py_evm.Prelude.{
  sym, true, ◌∙◌, List, [], ◌∷◌, ℕ, ◌+◌, ◌-◌, ◌/◌, ◌%◌, ◌≤◌, ◌<◌, max, ◌≡◌, refl, ◌⊎◌, inl, inr,
  arith, length, replicate, length-append, length-replicate, ltb, leb, ◌==◌, Bool-cases,
}
use native.Mathlib.Nat.{pow-le-pow_left}
use py_evm.Prelude.Exec.{◌>>◌, ◌>>=◌, ok, err}
use py_evm.Constants.{uint_256_max}
use py_evm.Exceptions.{vm_error, out_of_gas}
use py_evm.Numeric.{ceil32}
use py_evm.Vm.GasMeter
use py_evm.Vm.Memory.{Memory, extend}
use py_evm.Vm.Memory.Laws.{IsWhole, extend_lem}
use py_evm.Vm.Computation.{Computation, memory_gas_cost, consume_gas, pay_expansion, extend_memory}

length-extend :
    (start_position size : ℕ) (m : Memory)
    → 0 < size
    → length (extend start_position size m).content
      ≡ max (length m.content) (ceil32 (start_position + size))
unfolding extend
length-extend start_position size m h =
    let missing = ceil32 (start_position + size) - length m.content in
    let zeros : List ℕ = replicate missing 0 in
    let more : length zeros ≡ missing = length-replicate missing 0 in
    ground (arith, length-append m.content zeros, more)

extend_nothing :
    (start_position size : ℕ) (m : Memory) → (size == 0) ≡ true → extend start_position size m ≡ m
unfolding extend
extend_nothing start_position size m h = rw h refl

ceil32_mono : (a b : ℕ) → a ≤ b → ceil32 a ≤ ceil32 b
unfolding ceil32
ceil32_mono a b h = ground arith

whole-ceil32 : (a : ℕ) → a % 32 ≡ 0 → ceil32 a ≡ a
unfolding ceil32
whole-ceil32 a h = rw h refl

cost_mono : (a b : ℕ) → a ≤ b → memory_gas_cost a ≤ memory_gas_cost b
unfolding memory_gas_cost
cost_mono a b h =
    let words : ceil32 a / 32 ≤ ceil32 b / 32 = omega (arith, ceil32_mono a b h) in
    omega (arith, words, pow-le-pow_left words 2)

cost_max : (a b : ℕ) → memory_gas_cost (max a b) ≡ max (memory_gas_cost a) (memory_gas_cost b)
cost_max a b = elim (Bool-cases (leb a b)) [
  | inl e ↦
      let same : max a b ≡ b = ground arith in
      let up = cost_mono a b (ground arith) in rw same (omega arith)
  | inr e ↦
      let same : max a b ≡ a = ground arith in
      let up = cost_mono b a (ground arith) in rw same (omega arith)
]

module _ {W : Type 0} where
  -- The gas that is left, and the cost of the memory as it is.
  abbrev pub wealth : Computation W → ℕ
  wealth c = c.gas_meter.gas_remaining + memory_gas_cost (length c.memory.content)

  -- Between `c` and `t` the memory was paid for.
  pub record Paid (c t : Computation W) : Type 0 where
    pub whole : IsWhole t.memory
    pub balance : wealth t ≡ wealth c

  pub consume_lem :
      (amount : ℕ) (c : Computation W)
      → (consume_gas amount c ≡ (err (vm_error out_of_gas), c))
        ⊎ ((amount ≤ c.gas_meter.gas_remaining)
            × (consume_gas amount c ≡ (
              ok tt,
              record c {
                gas_meter = record c.gas_meter {
                  gas_remaining = c.gas_meter.gas_remaining - amount;
                };
              },
            )))
  unfolding consume_gas GasMeter.consume_gas
  consume_lem amount c = elim (Bool-cases (ltb c.gas_meter.gas_remaining amount)) [
    | inl poor ↦ inl (rw poor refl)
    | inr rich ↦ inr (ground arith, rw rich refl)
  ]

  -- A computation that could pay for the memory, or could not.
  pay_expansion_lem :
      (before after : ℕ) (c : Computation W)
      → (pay_expansion before after c ≡ (err (vm_error out_of_gas), c))
        ⊎ ((left : ℕ) × (left + memory_gas_cost (max before after)
              ≡ c.gas_meter.gas_remaining + memory_gas_cost before)
            × (pay_expansion before after c
                ≡ (ok tt, record c { gas_meter = record c.gas_meter { gas_remaining = left } })))
  unfolding pay_expansion
  pay_expansion_lem before after c =
      let both = cost_max before after in
      elim (Bool-cases (ltb (memory_gas_cost before) (memory_gas_cost after))) [
        | inr free ↦ inr (c.gas_meter.gas_remaining, ground arith, rw free refl)
        | inl more ↦ elim (consume_lem (memory_gas_cost after - memory_gas_cost before) c) [
          | inl poor ↦ inl (rw (more, poor) refl)
          | inr (enough, paid) ↦ inr (
            c.gas_meter.gas_remaining - (memory_gas_cost after - memory_gas_cost before),
            ground arith,
            rw (more, paid) refl,
          )
        ]
      ]

  -- From a memory of whole words: the gas that is left and the cost of the memory add up to the same
  -- after `extend_memory`, also when it raises; and where it succeeds the memory is the extended one.
  pub extend_memory_lem :
      (start_position size : ℕ) (c : Computation W)
      → IsWhole c.memory
      → Paid c (extend_memory start_position size c).1
        × ((extend_memory start_position size c).0 ≡ ok tt
            → (extend_memory start_position size c).1.memory ≡ extend start_position size c.memory)
  unfolding extend_memory
  extend_memory_lem start_position size c whole =
      elim (Bool-cases (ltb uint_256_max start_position)) [
        | inl far ↦ rw far (kept, λ e. cc)
        | inr near ↦ elim (Bool-cases (ltb uint_256_max size)) [
          | inl big ↦ rw (near, big) (kept, λ e. cc)
          | inr small ↦ elim (Bool-cases (size == 0)) [
            | inl empty ↦
                rw (near, small, empty)
                  (kept, λ e. sym (extend_nothing start_position size c.memory empty))
            | inr some_size ↦
                elim (pay_expansion_lem (ceil32 (length c.memory.content))
                  (ceil32 (start_position + size)) c) [
                    | inl poor ↦
                        rw (near, small, some_size, ◌>>◌, ◌>>=◌, poor, poor) (kept, λ e. cc)
                    | inr (left, balance, paid) ↦
                        rw (near, small, some_size, ◌>>◌, ◌>>=◌, paid, paid)
                          (extended left (ground arith) balance, λ e. refl)
                  ]
          ]
        ]
      ]
    where
      kept : Paid c c
      kept = record { whole = whole; balance = refl }

      extended :
          (left : ℕ)
          → 0 < size
          → left
              + memory_gas_cost
                  (max (ceil32 (length c.memory.content)) (ceil32 (start_position + size)))
            ≡ c.gas_meter.gas_remaining + memory_gas_cost (ceil32 (length c.memory.content))
          → Paid c (record c {
            gas_meter = record c.gas_meter { gas_remaining = left };
            memory = extend start_position size c.memory;
          })
      extended left h balance =
          let same = whole-ceil32 (length c.memory.content) whole in
          let longer = length-extend start_position size c.memory h in
          record {
            whole = (extend_lem start_position size c.memory whole).1;
            balance = rw longer (rw same at balance);
          }

  -- A row of expansions, each of a start position and a size, also when some raise.
  abbrev pub extend_all : List (ℕ × ℕ) → Computation W → Computation W
  extend_all [] c = c
  extend_all ((start_position, size) ∷ rest) c =
      extend_all rest (extend_memory start_position size c).1

  -- Over any row of memory expansions from a memory of whole words, also when some raise for lack of
  -- gas or for their arguments: the memory stays of whole words, and the gas that is left and the
  -- cost of the memory as it is add up to the same. So what is paid depends on the final size only.
  pub extend_all_lem :
      (calls : List (ℕ × ℕ)) (c : Computation W) → IsWhole c.memory → Paid c (extend_all calls c)
  extend_all_lem [] c whole = record { whole = whole; balance = refl }
  extend_all_lem ((start_position, size) ∷ rest) c whole =
      let first = (extend_memory_lem start_position size c whole).0 in
      let later = extend_all_lem rest (extend_memory start_position size c).1 first.whole in
      record { whole = later.whole; balance = later.balance ∙ first.balance }
