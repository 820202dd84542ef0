-- ===== src/Chains/Ancestors.antt =====
-- The canonical blocks below a block, as a chain reads them.
use py_evm.Prelude.{
  ℕ, zero, suc, ◌+◌, ◌-◌, ◌≤◌, ◌<◌, ◌≡◌, sym, ap, ◌∙◌, inl, inr, true, false, Option, none, some,
  List, [], ◌∷◌, map, arith, contains, ◌==◌, ==_iff, Bool-cases, or-true, contains-append,
}
use py_evm.Prelude.Exec.{Result, ok, and_then-ok, ok_inj}
use py_evm.Exceptions.{Exception}
use py_evm.Numeric.{Bytes}
use py_evm.Headers.{BlockHeader}
use py_evm.Db.Dict.{lookup}
use py_evm.Db.Header.{found, get_block_header_by_hash, get_canonical_block_hash}
use py_evm.Db.Header.Store.{IsStore}
use py_evm.Db.Chain.{Block, ChainDb}
use py_evm.Chains.{
  get_block_by_header, get_block_by_hash, get_canonical_block_by_number, blocks_below,
  extract_uncle_hashes, hash_of_block,
}

found-ok : {A : Type 0} (o : Option A) (e : Exception) (a : A) → found o e ≡ ok a → o ≡ some a
found-ok none e a h = cc
found-ok (some b) e a h = ground arith

module _ {V : Type 0} (vm_configuration : List (ℕ × V)) (hash_of : BlockHeader → ℕ)
    (transactions_at : ℕ → Result Exception (List Bytes))
    (check_seal : BlockHeader → Result Exception Unit) where
  abbrev pub block_at : ChainDb → ℕ → Result Exception Block
  block_at = get_canonical_block_by_number vm_configuration hash_of transactions_at check_seal

  get_block_by_header-header :
      (c : ChainDb) (h : BlockHeader) (b : Block)
      → get_block_by_header vm_configuration hash_of transactions_at check_seal c h ≡ ok b
      → b.header ≡ h
  unfolding get_block_by_header
  get_block_by_header-header c h b e =
      let (_, _, e1) = and_then-ok _ _ b e in
      let (_, _, e2) = and_then-ok _ _ b e1 in
      let (_, _, e3) = and_then-ok _ _ b e2 in sym (ap (λ (x : Block). x.header) (ok_inj _ _ e3))

  block_at-hash :
      (c : ChainDb) (n : ℕ) (b : Block)
      → IsStore hash_of c.chain
      → block_at c n ≡ ok b
      → lookup n c.chain.number_to_hash ≡ some (hash_of b.header)
  unfolding get_canonical_block_by_number get_block_by_hash get_canonical_block_hash
      get_block_header_by_hash
  block_at-hash c n b store e =
      let (_, _, e1) = and_then-ok _ _ b e in
      let (k, at, e2) = and_then-ok _ _ b e1 in
      let (h, at_h, e3) = and_then-ok _ _ b e2 in
      let same = get_block_by_header-header c h b e3 in
      found-ok _ _ k at ∙ ap some (sym (store k h (found-ok _ _ h at_h)).at ∙ ap hash_of (sym same))

  abbrev pub below : ChainDb → ℕ → ℕ → Result Exception (List Block)
  below = blocks_below vm_configuration hash_of transactions_at check_seal

  -- The block of a number is among the ones that were read.
  pub record IsRead (c : ChainDb) (bs : List Block) (n : ℕ) : Type 0 where
    pub block : Block
    pub at : block_at c n ≡ ok block
    pub among : contains (map (hash_of_block hash_of) bs) (hash_of block.header) ≡ true
    pub uncles :
        (x : ℕ)
        → contains (extract_uncle_hashes hash_of bs) x ≡ false
        → contains (map hash_of block.uncles) x ≡ false

  pub below-IsRead :
      (c : ChainDb) (count top n : ℕ) (bs : List Block)
      → below c count top ≡ ok bs
      → n < top
      → top ≤ n + count
      → IsRead c bs n
  unfolding blocks_below extract_uncle_hashes
  below-IsRead c zero top n bs e lt le = absurd (omega arith)
  below-IsRead c (suc count) top n bs e lt le =
      let (b, at, e1) = and_then-ok _ _ bs e in
      let (rest, at_rest, e2) = and_then-ok _ _ bs e1 in
      let same = ok_inj (b ∷ rest) bs e2 in
      elim (Bool-cases (n == top - 1)) [
        | inl here ↦ rw (← same) record {
          block = b;
          at = ap (block_at c) ((==_iff n (top - 1)).0 here) ∙ at;
          among = ground arith;
          uncles = λ x h.
              (contains-append (map hash_of b.uncles) (extract_uncle_hashes hash_of rest) x h).0;
        }
        | inr lower ↦
            let r = below-IsRead c count (top - 1) n rest at_rest (ground arith) (omega arith) in
            rw (← same) record {
              block = r.block;
              at = r.at;
              among = or-true _ _ r.among;
              uncles = λ x h.
                  r.uncles x
                    (contains-append (map hash_of b.uncles) (extract_uncle_hashes hash_of rest) x
                      h).1;
            }
      ]

  pub below-canonical :
      (c : ChainDb) (count top x : ℕ) (bs : List Block)
      → IsStore hash_of c.chain
      → count ≤ top
      → below c count top ≡ ok bs
      → contains (map (hash_of_block hash_of) bs) x ≡ true
      → (n : ℕ) × (n < top) × (top ≤ n + count) × (lookup n c.chain.number_to_hash ≡ some x)
  unfolding blocks_below
  below-canonical c zero top x bs store le e among =
      let none_in : false ≡ true = rw (← ok_inj [] bs e) at among in cc
  below-canonical c (suc count) top x bs store le e among =
      let (b, at, e1) = and_then-ok _ _ bs e in
      let (rest, at_rest, e2) = and_then-ok _ _ bs e1 in
      let among' : contains (map (hash_of_block hash_of) (b ∷ rest)) x ≡ true =
        rw (← ok_inj (b ∷ rest) bs e2) at among in
      elim (Bool-cases (x == hash_of b.header)) [
        | inl here ↦ (
          top - 1,
          omega arith,
          omega arith,
          block_at-hash c (top - 1) b store at
              ∙ ap some (sym ((==_iff x (hash_of b.header)).0 here)),
        )
        | inr lower ↦
            let (n, lt, near, at_n) =
              below-canonical c count (top - 1) x rest store (omega arith) at_rest
                (rw lower at among') in
            (n, omega arith, omega arith, at_n)
      ]
