-- ===== src/Db/Header/Ancestry.antt =====
-- The canonical blocks are the ancestors of the head.
use py_evm.Prelude.{
  ℕ, zero, suc, ◌+◌, ◌-◌, ◌≡◌, sym, ap, ◌∙◌, ◌≢◌, ◌↔◌, inl, inr, some, arith, none-some,
}
use py_evm.Prelude.Exec.{ok}
use py_evm.Constants.{genesis_parent_hash}
use py_evm.Headers.{BlockHeader}
use py_evm.Db.Dict.{lookup}
use py_evm.Db.Header.{HeaderDb, get_canonical_block_hash}
use py_evm.Db.Header.Store.{IsStore, lookup_unique}
use py_evm.Db.Header.Shape.{AreLinked, IsHeaderDb}

-- The way from a header up its parents.
pub data IsAncestor (d : HeaderDb) : ℕ → ℕ → Type 0 where
  here : {k : ℕ} → IsAncestor d k k
  above :
      {k j : ℕ} (h : BlockHeader)
      → lookup k d.headers ≡ some h
      → h.parent_hash ≢ genesis_parent_hash
      → IsAncestor d h.parent_hash j
      → IsAncestor d k j

module _ (hash_of : BlockHeader → ℕ) (d : HeaderDb) (store : IsStore hash_of d)
    (linked : AreLinked hash_of d) where
  ancestor-canonical :
      {k j : ℕ}
      → IsAncestor d k j
      → (n : ℕ) (p : BlockHeader) → lookup n d.number_to_hash ≡ some k
      → lookup j d.headers ≡ some p
      → lookup p.block_number d.number_to_hash ≡ some j
  ancestor-canonical {k} here n p e at =
      let l = linked n k e in
      let same = lookup_unique l.header p l.has_header at in
      ap (λ x. lookup x d.number_to_hash)
        (ap (λ (x : BlockHeader). x.block_number) (sym same) ∙ l.number)
      ∙ e
  ancestor-canonical {k} (above h at_h later way) n p e at =
      let l = linked n k e in
      let same =
        ap (λ (x : BlockHeader). x.parent_hash) (lookup_unique l.header h l.has_header at_h) in
      elim l.below [
        | inl first ↦ absurd (later (sym same ∙ first))
        | inr (m, _, under) ↦ ancestor-canonical way m p (under ∙ ap some same) at
      ]

  -- The first block of a chain has the number 0.
  first-zero :
      (k : ℕ) (h : BlockHeader)
      → lookup k d.headers ≡ some h
      → h.parent_hash ≡ genesis_parent_hash
      → h.block_number ≡ 0
  first-zero k h at first = elim ((store k h at).placed) [
    | inl (_, number, _) ↦ number
    | inr next ↦ absurd (next.not_first first)
  ]

  canonical-IsAncestor :
      (i n m j k : ℕ)
      → m ≡ n + i
      → lookup m d.number_to_hash ≡ some k
      → lookup n d.number_to_hash ≡ some j
      → IsAncestor d k j
  canonical-IsAncestor zero n m j k e top low =
      let same = lookup_unique k j top (ap (λ x. lookup x d.number_to_hash) (omega arith) ∙ low) in
      rw same here
  canonical-IsAncestor (suc i) n m j k e top low =
      let l = linked m k top in
      elim l.below [
        | inl first ↦ absurd (omega (arith, first-zero k l.header l.has_header first, l.number))
        | inr (m', next, under) ↦
            above l.header l.has_header
              (λ first. omega (arith, first-zero k l.header l.has_header first, l.number, next))
              (canonical-IsAncestor i n m' j l.header.parent_hash (omega arith) under low)
      ]

get_canonical_block_hash_iff :
    (d : HeaderDb) (n j : ℕ)
    → (get_canonical_block_hash d n ≡ ok j) ↔ (lookup n d.number_to_hash ≡ some j)
unfolding get_canonical_block_hash
get_canonical_block_hash_iff d n j = ground arith

-- In a well-formed database with a canonical head, a block hash is the canonical one of a number if
-- and only if its block is stored, has that number, and is the head or an ancestor of the head.
pub get_canonical_block_hash-IsAncestor :
    (hash_of : BlockHeader → ℕ) (d : HeaderDb) (head : ℕ) (n j : ℕ)
    → IsHeaderDb hash_of d
    → d.canonical_head_hash ≡ some head
    → (get_canonical_block_hash d n ≡ ok j) ↔ (
        (p : BlockHeader) × (lookup j d.headers ≡ some p)
        × (p.block_number ≡ n)
        × IsAncestor d head j)
get_canonical_block_hash-IsAncestor hash_of d head n j fine at_head = elim fine.head [
  | inl absent ↦ absurd (none-some head (sym absent.no_head ∙ at_head))
  | inr old ↦
      let same = lookup_unique old.key head old.canonical at_head in
      let forward : (get_canonical_block_hash d n ≡ ok j)
          → ((p : BlockHeader) × (lookup j d.headers ≡ some p)
              × (p.block_number ≡ n)
              × IsAncestor d head j) =
        λ e.
          let at = (get_canonical_block_hash_iff d n j).0 e in
          let l = fine.linked n j at in
          (
            l.header,
            l.has_header,
            l.number,
            rw (← same) (
                canonical-IsAncestor hash_of d fine.store fine.linked (old.head.block_number - n) n
                  old.head.block_number j old.key (omega (arith, old.top n j at)) old.on at),
          ) in
      (
        forward,
        λ (p, at, number, way). (get_canonical_block_hash_iff d n j).1 (
            rw (← number) (
              ancestor-canonical hash_of d fine.store fine.linked way old.head.block_number p
                (old.on ∙ ap some same) at)),
      )
]
