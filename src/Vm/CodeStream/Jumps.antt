-- ===== src/Vm/CodeStream/Jumps.antt =====
-- `is_valid_opcode` agrees with the walk, whatever was asked before.
use py_evm.Prelude.{
  ℕ, zero, suc, ◌+◌, ◌-◌, ◌<◌, ◌≡◌, refl, sym, map, inl, inr, List, [], ◌∷◌, ◌++◌, Bool, true,
  false, ◌||◌, ◌&&◌, not, length, ◌==◌, leb, ltb, contains, Bool-cases, arith,
}
use py_evm.Numeric.{Bytes}
use py_evm.Vm.CodeStream.{
  CodeStream, start, byte_at, push_size, push1, push32, range, scan, is_valid_opcode,
}
use py_evm.Vm.CodeStream.Walk.{
  opcode_at, opcode_at-inside, opcode_at-behind, opcode_at-start, opcode_at-beyond,
}

contains-append :
    (xs ys : List ℕ) (q : ℕ) → contains (xs ++ ys) q ≡ (contains xs q || contains ys q)
contains-append [] ys q = refl
contains-append (x ∷ xs) ys q = ground (arith, contains-append xs ys q)

contains-range :
    (from count q : ℕ) → contains (range from count) q ≡ (leb from q && ltb q (from + count))
contains-range from zero q = ground arith
contains-range from (suc count) q = ground (arith, contains-range (from + 1) count q)

-- What the cache knows of the code below `bound`: everything, and nothing false elsewhere.
pub record Knows (code : Bytes) (invalid : List ℕ) (bound : ℕ) : Type 0 where
  pub sound : (q : ℕ) → contains invalid q ≡ true → opcode_at 0 code q ≡ false
  pub complete :
      (q : ℕ) → q < bound → q < length code → contains invalid q ≡ false → opcode_at 0 code q ≡ true

-- The cache of a code stream: what `depth_processed` promises.
pub record IsCache (c : CodeStream) : Type 0 where
  pub knows : Knows c.code c.invalid_positions (c.depth_processed + 1)
  pub depth : c.depth_processed < length c.code → opcode_at 0 c.code c.depth_processed ≡ true

pub start-IsCache : (code : Bytes) → IsCache (start code)
start-IsCache code = record {
  knows = record {
    sound = λ q h. cc;
    complete = λ q h k n.
        let first : 0 ≡ q = omega arith in rw (← first) (opcode_at-start code (omega arith));
  };
  depth = λ h. opcode_at-start code h;
}

-- An opcode at `i` that is no PUSH: `i` itself is known, and the next position is an opcode.
Knows-other :
    (code : Bytes) (invalid : List ℕ) (i : ℕ)
    → Knows code invalid i
    → opcode_at 0 code i ≡ true
    → Knows code invalid (i + 1)
Knows-other code invalid i k h = record {
  sound = k.sound;
  complete = λ q lt in_code n. elim (Bool-cases (q == i)) [
    | inl e ↦ let same : i ≡ q = ground arith in rw (← same) h
    | inr e ↦ k.complete q (ground arith) in_code n
  ];
}

Knows-push :
    (code : Bytes) (invalid : List ℕ) (i count : ℕ)
    → Knows code invalid i
    → opcode_at 0 code i ≡ true
    → count ≡ push_size (byte_at code i)
    → Knows code (range (i + 1) count ++ invalid) (i + 1 + count)
Knows-push code invalid i count k h e = record {
  sound = λ q m. elim (Bool-cases (contains invalid q)) [
    | inl old ↦ k.sound q old
    | inr new ↦
        let place : suc (i + (q - (i + 1))) ≡ q = ground (
          arith,
          contains-append (range (i + 1) count) invalid q,
          contains-range (i + 1) count q,
        ) in
        let near : q - (i + 1) < push_size (byte_at code i) = rw (← e) (
          ground (
            arith,
            contains-append (range (i + 1) count) invalid q,
            contains-range (i + 1) count q,
          )) in
        rw (← place) (opcode_at-inside 0 code i (q - (i + 1)) h near)
  ];
  complete = λ q lt in_code n. elim (Bool-cases (q == i)) [
    | inl here ↦ let same : i ≡ q = ground arith in rw (← same) h
    | inr other ↦
        k.complete q
          (ground (
            arith,
            contains-append (range (i + 1) count) invalid q,
            contains-range (i + 1) count q,
          ))
          in_code (ground (arith, contains-append (range (i + 1) count) invalid q))
  ];
}

-- The state of the loop of `is_valid_opcode` at `i`.
record Scanning (i : ℕ) (c : CodeStream) : Type 0 where
  cache : IsCache c
  below : Knows c.code c.invalid_positions i
  at : i < length c.code → opcode_at 0 c.code i ≡ true

push_at : ℕ → CodeStream → CodeStream
push_at i c =
    let count = byte_at c.code i - 95 in
    record c { invalid_positions = range (i + 1) count ++ c.invalid_positions }

Scanning-push :
    (i : ℕ) (c : CodeStream)
    → i < length c.code
    → (leb push1 (byte_at c.code i) && leb (byte_at c.code i) push32) ≡ true
    → Scanning i c
    → Scanning (i + 1 + (byte_at c.code i - 95)) (push_at i c)
unfolding push_at
Scanning-push i c h is_push s =
    let count = byte_at c.code i - 95 in
    let size : count ≡ push_size (byte_at c.code i) = rw is_push in
    let wider = Knows-push c.code c.invalid_positions i count s.below (s.at h) size in
    record {
      cache = record {
        knows = record {
          sound = wider.sound;
          complete = λ q lt in_code n.
              s.cache.knows.complete q lt in_code
                (ground (arith, contains-append (range (i + 1) count) c.invalid_positions q));
        };
        depth = s.cache.depth;
      };
      below = wider;
      at = λ k.
          let next : suc (i + push_size (byte_at c.code i)) ≡ i + 1 + count = omega arith in
          rw (← next) (opcode_at-behind 0 c.code i (s.at h) (rw next k));
    }

Scanning-other :
    (i : ℕ) (c : CodeStream)
    → i < length c.code
    → (leb push1 (byte_at c.code i) && leb (byte_at c.code i) push32) ≡ false
    → Scanning i c
    → Scanning (i + 1) (record c { depth_processed = i })
Scanning-other i c h no_push s =
    let wider = Knows-other c.code c.invalid_positions i s.below (s.at h) in
    let size : 0 ≡ push_size (byte_at c.code i) = rw no_push in
    record {
      cache = record { knows = wider; depth = s.at };
      below = wider;
      at = λ k.
          let next : suc (i + push_size (byte_at c.code i)) ≡ i + 1 = omega arith in
          rw (← next) (opcode_at-behind 0 c.code i (s.at h) (rw next k));
    }

-- What the loop leaves: a cache that knows the code up to `position`.
record Scanned (position : ℕ) (c t : CodeStream) : Type 0 where
  same_code : t.code ≡ c.code
  same_position : t.position ≡ c.position
  cache : IsCache t
  knows : Knows t.code t.invalid_positions (position + 1)

Scanned-done :
    (i position : ℕ) (c : CodeStream) → position < i → Scanning i c → Scanned position c c
Scanned-done i position c h s = record {
  same_code = refl;
  same_position = refl;
  cache = s.cache;
  knows = record {
    sound = s.below.sound;
    complete = λ q lt in_code n. s.below.complete q (omega arith) in_code n;
  };
}

Scanned-push :
    (i position : ℕ) (c : CodeStream) {t : CodeStream}
    → Scanned position (push_at i c) t
    → Scanned position c t
unfolding push_at
Scanned-push i position c r = record {
  same_code = r.same_code;
  same_position = r.same_position;
  cache = r.cache;
  knows = r.knows;
}

Scanned-other :
    (i position : ℕ) (c : CodeStream) {t : CodeStream}
    → Scanned position (record c { depth_processed = i }) t
    → Scanned position c t
Scanned-other i position c r = record {
  same_code = r.same_code;
  same_position = r.same_position;
  cache = r.cache;
  knows = r.knows;
}

scan-Scanned :
    (fuel i position : ℕ) (c : CodeStream)
    → position < i + fuel
    → position < length c.code
    → Scanning i c
    → Scanned position c (scan fuel i position c)
unfolding scan push_at
scan-Scanned zero i position c h k s = Scanned-done i position c (omega arith) s
scan-Scanned (suc fuel) i position c h k s = elim (Bool-cases (leb i position)) [
  | inr e ↦ rw e (Scanned-done i position c (ground arith) s)
  | inl e ↦
      let inside : i < length c.code = ground arith in
      elim (Bool-cases (leb push1 (byte_at c.code i) && leb (byte_at c.code i) push32)) [
        | inl p ↦
            rw (e, p)
              (Scanned-push i position c (
                scan-Scanned fuel (i + 1 + (byte_at c.code i - 95)) position (push_at i c)
                  (omega arith) k (Scanning-push i c inside p s)))
        | inr p ↦
            rw (e, p)
              (Scanned-other i position c (
                scan-Scanned fuel (i + 1) position (record c { depth_processed = i }) (omega arith)
                  k (Scanning-other i c inside p s)))
      ]
]

-- What a query gives: the answer of the walk, and a cache of the same code.
pub record Answers (position : ℕ) (c : CodeStream) (answer : Bool × CodeStream) : Type 0 where
  pub right : answer.0 ≡ opcode_at 0 c.code position
  pub cache : IsCache answer.1
  pub same_code : answer.1.code ≡ c.code
  pub same_position : answer.1.position ≡ c.position

Answers-scan :
    (position : ℕ) (c t : CodeStream)
    → position < length c.code
    → Scanned position c t
    → Answers position c (not (contains t.invalid_positions position), t)
Answers-scan position c t inside r = record {
  right = elim (Bool-cases (contains t.invalid_positions position)) [
    | inl bad ↦ rw (bad, ← r.same_code) (sym (r.knows.sound position bad))
    | inr good ↦
        rw (good, ← r.same_code)
          (sym (r.knows.complete position (omega arith) (rw r.same_code inside) good))
  ];
  cache = r.cache;
  same_code = r.same_code;
  same_position = r.same_position;
}

-- From any cache, `is_valid_opcode` says whether the walk over the code meets an opcode at the
-- position, and leaves a cache of the same code at the same program counter.
pub is_valid_opcode-Answers :
    (position : ℕ) (c : CodeStream) → IsCache c → Answers position c (is_valid_opcode position c)
unfolding is_valid_opcode
is_valid_opcode-Answers position c h = elim (Bool-cases (leb (length c.code) position)) [
  | inl e ↦ rw e (unchanged (sym (opcode_at-beyond 0 c.code position (ground arith))))
  | inr e ↦ elim (Bool-cases (contains c.invalid_positions position)) [
    | inl bad ↦ rw (e, bad) (unchanged (sym (h.knows.sound position bad)))
    | inr good ↦ elim (Bool-cases (leb position c.depth_processed)) [
      | inl seen ↦
          rw (e, good, seen)
            (unchanged (sym (h.knows.complete position (ground arith) (ground arith) good)))
      | inr far ↦
          rw (e, good, far)
            (Answers-scan position c (scan (position + 1) c.depth_processed position c)
              (ground arith)
              (scan-Scanned (position + 1) c.depth_processed position c (omega arith) (ground arith)
                initial))
    ]
  ]
]
  where
    unchanged : {b : Bool} → b ≡ opcode_at 0 c.code position → Answers position c (b, c)
    unchanged right = record { right = right; cache = h; same_code = refl; same_position = refl }

    initial : Scanning c.depth_processed c
    initial = record {
      cache = h;
      below = record {
        sound = h.knows.sound;
        complete = λ q lt in_code n. h.knows.complete q (omega arith) in_code n;
      };
      at = h.depth;
    }

-- The answers to a row of queries of one code stream.
pub answers : List ℕ → CodeStream → List Bool
answers [] c = []
answers (p ∷ ps) c = let (b, c') = is_valid_opcode p c in b ∷ answers ps c'

answers-IsCache :
    (ps : List ℕ) (c : CodeStream) → IsCache c → answers ps c ≡ map (opcode_at 0 c.code) ps
unfolding answers
answers-IsCache [] c h = refl
answers-IsCache (p ∷ ps) c h =
    let a = is_valid_opcode-Answers p c h in
    rw (a.right, answers-IsCache ps (is_valid_opcode p c).1 a.cache, a.same_code)

-- Whatever positions a fresh code stream is asked about, and in whatever order, each answer is that
-- of the walk over the code: the cache never changes an answer.
pub answers-start :
    (code : Bytes) (ps : List ℕ) → answers ps (start code) ≡ map (opcode_at 0 code) ps
answers-start code ps = answers-IsCache ps (start code) (start-IsCache code)
