-- ===== src/Db/Header/Numbers.antt =====
-- The new ancestors of a header, and the numbers of the canonical blocks after they are written.
use py_evm.Prelude.{
  ℕ, zero, suc, ◌+◌, ◌≤◌, ◌<◌, ◌≡◌, refl, sym, ap, ◌∙◌, ◌≢◌, ◌⊎◌, inl, inr, true, false, some, List,
  [], ◌∷◌, ◌++◌, reverse, arith, ◌==◌, ==_iff, Bool-cases, Option-cases,
}
use mathlib.Core.List.{reverse-cons}
use mathlib.Core.Path.{subst}
use py_evm.Prelude.Exec.{ok}
use py_evm.Constants.{genesis_parent_hash}
use py_evm.Headers.{BlockHeader}
use py_evm.Db.Dict.{Dict, lookup, insert, lookup-insert}
use py_evm.Db.Header.{
  HeaderDb, is_canonical, find_new_ancestors, add_lookups, get_block_header_by_hash,
  get_canonical_block_hash, get_canonical_block_header_by_number,
}
use py_evm.Db.Header.Store.{IsStore, ==-false, lookup_unique}

module _ (hash_of : BlockHeader → ℕ) where
  -- The headers lead from `h` down to a child of a canonical block, or to the first block.
  abbrev pub Leads : HeaderDb → BlockHeader → List BlockHeader → Type 0
  Leads d h [] = lookup h.block_number d.number_to_hash ≡ some (hash_of h)
  Leads d h (x ∷ xs) =
      (x ≡ h)
      × (((h.parent_hash ≡ genesis_parent_hash) × (h.block_number ≡ 0) × (xs ≡ []))
          ⊎ ((p : BlockHeader) × (lookup h.parent_hash d.headers ≡ some p)
              × (h.block_number ≡ p.block_number + 1)
              × Leads d p xs))

  is_canonical-number :
      (d : HeaderDb) (h : BlockHeader)
      → IsStore hash_of d
      → is_canonical hash_of d h ≡ true
      → lookup h.block_number d.number_to_hash ≡ some (hash_of h)
  unfolding is_canonical get_canonical_block_hash get_block_header_by_hash
      get_canonical_block_header_by_number
  is_canonical-number d h fine c = elim (Option-cases (lookup h.block_number d.number_to_hash)) [
    | inl missing ↦
        let c' : false ≡ true =
          rw (missing, is_canonical, get_canonical_block_header_by_number, get_canonical_block_hash)
            at c in
        cc
    | inr (k, e) ↦ elim (Option-cases (lookup k d.headers)) [
      | inl missing ↦
          let c' : false ≡ true =
            rw
              (
                e, is_canonical, get_canonical_block_header_by_number, get_canonical_block_hash,
                missing, get_block_header_by_hash,
              )
              at c in
          cc
      | inr (orig, at) ↦
          let c' : (hash_of orig == hash_of h) ≡ true =
            rw
              (
                e, is_canonical, get_canonical_block_header_by_number, get_canonical_block_hash, at,
                get_block_header_by_hash,
              )
              at c in
          e ∙ ap some (sym (fine k orig at).at ∙ (==_iff (hash_of orig) (hash_of h)).0 c')
    ]
  ]

  pub find_new_ancestors-Leads :
      (fuel : ℕ) (d : HeaderDb) (h : BlockHeader) (k : ℕ)
      → IsStore hash_of d
      → lookup k d.headers ≡ some h
      → h.block_number < fuel
      → (hs : List BlockHeader) × (find_new_ancestors hash_of fuel h d ≡ ok hs) × Leads d h hs
  unfolding find_new_ancestors get_block_header_by_hash
  find_new_ancestors-Leads zero d h k fine e lt = elim lt [ ]
  find_new_ancestors-Leads (suc fuel) d h k fine e lt =
      elim (Bool-cases (is_canonical hash_of d h)) [
        | inl c ↦ ([], rw c, is_canonical-number d h fine c)
        | inr new ↦ elim ((fine k h e).placed) [
          | inl (first, number, _) ↦ (
            h ∷ [],
            rw (new, (==_iff h.parent_hash genesis_parent_hash).1 first),
            (refl, inl (first, number, refl)),
          )
          | inr next ↦
              let (hs, run, leads) =
                find_new_ancestors-Leads fuel d next.parent h.parent_hash fine next.has_parent.0
                  (omega (arith, next.number)) in
              (
                h ∷ hs,
                rw (
                  new,
                  ==-false h.parent_hash genesis_parent_hash next.not_first,
                  next.has_parent.0,
                  run,
                ),
                (refl, inr (next.parent, next.has_parent.0, next.number, leads)),
              )
        ]
      ]

  pub numbers_after : List BlockHeader → Dict ℕ → Dict ℕ
  numbers_after [] numbers = numbers
  numbers_after (h ∷ hs) numbers = insert h.block_number (hash_of h) (numbers_after hs numbers)

  add_lookups-append :
      (xs ys : List BlockHeader) (d : HeaderDb)
      → add_lookups hash_of (xs ++ ys) d ≡ add_lookups hash_of ys (add_lookups hash_of xs d)
  unfolding add_lookups
  add_lookups-append [] ys d = refl
  add_lookups-append (x ∷ xs) ys d = add_lookups-append xs ys _

  pub add_lookups-reverse :
      (hs : List BlockHeader) (d : HeaderDb)
      → add_lookups hash_of (reverse hs) d
        ≡ record d { number_to_hash = numbers_after hs d.number_to_hash }
  unfolding add_lookups numbers_after
  add_lookups-reverse [] d = refl
  add_lookups-reverse (h ∷ hs) d =
      rw (reverse-cons h hs, add_lookups-append (reverse hs) (h ∷ []) d, add_lookups-reverse hs d)

  -- The canonical block of a number: it is stored, and its parent is canonical too.
  pub record IsLinked (d : HeaderDb) (numbers : Dict ℕ) (n k : ℕ) : Type 0 where
    pub header : BlockHeader
    pub has_header : lookup k d.headers ≡ some header
    pub number : header.block_number ≡ n
    pub below :
        (header.parent_hash ≡ genesis_parent_hash)
        ⊎ ((m : ℕ) × (n ≡ m + 1) × (lookup m numbers ≡ some header.parent_hash))

  abbrev pub IsUpTo : HeaderDb → Dict ℕ → ℕ → Type 0
  IsUpTo d numbers top = (n k : ℕ) → n ≤ top → lookup n numbers ≡ some k → IsLinked d numbers n k

  pub record IsWritten (d : HeaderDb) (h : BlockHeader) (numbers : Dict ℕ) : Type 0 where
    pub head : lookup h.block_number numbers ≡ some (hash_of h)
    pub up_to : IsUpTo d numbers h.block_number
    pub above : (n : ℕ) → h.block_number < n → lookup n numbers ≡ lookup n d.number_to_hash

  insert_other :
      (n m v : ℕ) (numbers : Dict ℕ) → n ≢ m → lookup m (insert n v numbers) ≡ lookup m numbers
  insert_other n m v numbers ne = lookup-insert n m v numbers ∙ rw (==-false n m ne)

  insert_self : (n v : ℕ) (numbers : Dict ℕ) → lookup n (insert n v numbers) ≡ some v
  insert_self n v numbers = lookup-insert n n v numbers ∙ ground arith

  -- A block that is written above linked ones is linked too.
  module _ (d : HeaderDb) (h p : BlockHeader) (k : ℕ) (numbers : Dict ℕ) (fine : IsStore hash_of d)
      (at : lookup k d.headers ≡ some h) (at_p : lookup h.parent_hash d.headers ≡ some p)
      (number : h.block_number ≡ p.block_number + 1) (w : IsWritten d p numbers) where
    top-IsLinked :
        (j : ℕ)
        → lookup h.block_number (insert h.block_number (hash_of h) numbers) ≡ some j
        → IsLinked d (insert h.block_number (hash_of h) numbers) h.block_number j
    top-IsLinked j e =
        let here = lookup_unique (hash_of h) j (insert_self h.block_number (hash_of h) numbers) e in
        let key = sym here ∙ (fine k h at).at in
        record {
          header = h;
          has_header = ap (λ x. lookup x d.headers) key ∙ at;
          number = refl;
          below = inr (
            p.block_number,
            number,
            insert_other h.block_number p.block_number (hash_of h) numbers (omega (arith, number))
                ∙ w.head
                ∙ ap some (fine h.parent_hash p at_p).at,
          );
        }

    lower-IsLinked :
        (n j : ℕ)
        → n ≤ p.block_number
        → lookup n (insert h.block_number (hash_of h) numbers) ≡ some j
        → IsLinked d (insert h.block_number (hash_of h) numbers) n j
    lower-IsLinked n j le e =
        let other = insert_other h.block_number n (hash_of h) numbers (omega (arith, number)) in
        let l = w.up_to n j le (sym other ∙ e) in
        record {
          header = l.header;
          has_header = l.has_header;
          number = l.number;
          below = elim l.below [
            | inl first ↦ inl first
            | inr (m, next, under) ↦ inr (
              m,
              next,
              insert_other h.block_number m (hash_of h) numbers (omega (arith, number)) ∙ under,
            )
          ];
        }

    IsWritten-insert : IsWritten d h (insert h.block_number (hash_of h) numbers)
    IsWritten-insert = record {
      head = insert_self h.block_number (hash_of h) numbers;
      up_to = λ n j le e. elim (Bool-cases (n == h.block_number)) [
        | inl top ↦
            let same = (==_iff n h.block_number).0 top in
            subst (λ x. IsLinked d (insert h.block_number (hash_of h) numbers) x j) (sym same)
              (top-IsLinked j (rw same at e))
        | inr lower ↦ lower-IsLinked n j (ground (arith, number)) e
      ];
      above = λ n lt.
          insert_other h.block_number n (hash_of h) numbers (omega arith)
          ∙ w.above n (omega (arith, number));
    }

  -- After the loop the canonical numbers lead down from `h`, and those above `h` are as before.
  pub numbers_after-IsWritten :
      (d : HeaderDb) (h : BlockHeader) (k : ℕ) (hs : List BlockHeader)
      → IsStore hash_of d
      → ((n j : ℕ) → lookup n d.number_to_hash ≡ some j → IsLinked d d.number_to_hash n j)
      → lookup k d.headers ≡ some h
      → Leads d h hs
      → IsWritten d h (numbers_after hs d.number_to_hash)
  unfolding numbers_after
  numbers_after-IsWritten d h k [] fine linked at leads = record {
    head = leads;
    up_to = λ n j le e. linked n j e;
    above = λ n lt. refl;
  }
  numbers_after-IsWritten d h k (x ∷ xs) fine linked at (x_h, inl (first, number, last)) =
      rw (x_h, last)
        record {
          head = insert_self h.block_number (hash_of h) d.number_to_hash;
          up_to = λ n j le e.
              let zero_n : n ≡ h.block_number = omega (arith, number) in
              let e' =
                lookup_unique (hash_of h) j
                  (insert_self h.block_number (hash_of h) d.number_to_hash)
                  (ap (λ y. lookup y (insert h.block_number (hash_of h) d.number_to_hash))
                      (sym zero_n)
                    ∙ e) in
              record {
                header = h;
                has_header = ap (λ y. lookup y d.headers) (sym e' ∙ (fine k h at).at) ∙ at;
                number = sym zero_n;
                below = inl first;
              };
          above = λ n lt. insert_other h.block_number n (hash_of h) d.number_to_hash (omega arith);
        }
  numbers_after-IsWritten d h k (x ∷ xs) fine linked at (x_h, inr (p, at_p, number, leads)) =
      rw x_h (
        IsWritten-insert d h p k (numbers_after xs d.number_to_hash) fine at at_p number
          (numbers_after-IsWritten d p h.parent_hash xs fine linked at_p leads))
