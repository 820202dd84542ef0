-- ===== src/Db/Chain/Index.antt =====
-- The transactions of the new canonical blocks are found at their places.
use py_evm.Prelude.{
  ℕ, zero, suc, ◌+◌, ◌≡◌, refl, ap, ◌∙◌, ◌≢◌, ◌⊎◌, inl, inr, false, Option, some, List, [], ◌∷◌,
  arith, get_elem?, ◌==◌, if◌then◌else◌, ==_iff, Bool-cases,
}
use py_evm.Prelude.Exec.{Result, ok, err}
use py_evm.Exceptions.{Exception}
use py_evm.Headers.{BlockHeader}
use py_evm.Db.Dict.{Dict, lookup, insert, lookup-insert}
use py_evm.Db.Chain.{
  ChainDb, Block, get_transaction_index, add_transactions, index_headers, persist_header,
  persist_block, finish_block, persist_uncles,
}

-- Either the transaction is one of the row, and its place is found, or it is none of them.
data Placing (number i : ℕ) (ts : List ℕ) (t : ℕ) (before after : Option (ℕ × ℕ)) : Type 0 where
  placed :
      (j : ℕ)
      → get_elem? ts j ≡ some t
      → after ≡ some (number, i + j)
      → Placing number i ts t before after
  passed : ((j : ℕ) → get_elem? ts j ≢ some t) → after ≡ before → Placing number i ts t before after

add_transactions-Placing :
    (number i : ℕ) (ts : List ℕ) (t : ℕ) (index : Dict (ℕ × ℕ))
    → Placing number i ts t (lookup t index) (lookup t (add_transactions number i ts index))
unfolding add_transactions
add_transactions-Placing number i [] t index = passed (λ j e. cc) refl
add_transactions-Placing number i (x ∷ xs) t index =
    let written : lookup t (insert x (number, i) index)
        ≡ (if x == t then some (number, i) else lookup t index) =
      lookup-insert x t (number, i) index in
    elim (add_transactions-Placing number (i + 1) xs t (insert x (number, i) index)) [
      | placed j at e ↦ placed (suc j) at (e ∙ ap (λ n. some (number, n)) (omega arith))
      | passed none_of e ↦ elim (Bool-cases (x == t)) [
        | inl same ↦
            placed zero (ap some ((==_iff x t).0 same))
              (e ∙ written ∙ rw same (ap (λ n. some (number, n)) (omega arith)))
        | inr other ↦ passed (not_first x xs t other none_of) (e ∙ written ∙ rw other)
      ]
    ]
  where
    not_first :
        (x : ℕ) (xs : List ℕ) (t : ℕ)
        → (x == t) ≡ false
        → ((j : ℕ) → get_elem? xs j ≢ some t)
        → (j : ℕ) → get_elem? (x ∷ xs) j ≢ some t
    not_first x xs t other h zero e = ground arith
    not_first x xs t other h (suc j) e = h j e

module _ (hash_of : BlockHeader → ℕ) (hash_of_uncles : List BlockHeader → ℕ)
    (transactions_of : ℕ → List ℕ) where
  -- The transaction stands at the position in one of the blocks, which has the number.
  abbrev pub IsAt : List BlockHeader → ℕ → ℕ × ℕ → Type 0
  IsAt [] t p = ⊥
  IsAt (h ∷ hs) t p =
      ((h.block_number ≡ p.0) × (get_elem? (transactions_of h.transaction_root) p.1 ≡ some t))
      ⊎ IsAt hs t p

  index_headers_cases :
      (hs : List BlockHeader) (t : ℕ) (index : Dict (ℕ × ℕ))
      → ((p : ℕ × ℕ) × IsAt hs t p
          × (lookup t (index_headers hash_of hash_of_uncles transactions_of hs index) ≡ some p))
        ⊎ (((p : ℕ × ℕ) → IsAt hs t p → ⊥)
            × (lookup t (index_headers hash_of hash_of_uncles transactions_of hs index)
                ≡ lookup t index))
  unfolding index_headers
  index_headers_cases [] t index = inr (λ p h. h, refl)
  index_headers_cases (h ∷ hs) t index =
      let ts = transactions_of h.transaction_root in
      elim (index_headers_cases hs t (add_transactions h.block_number 0 ts index)) [
        | inl (p, at, e) ↦ inl (p, inr at, e)
        | inr (nowhere, e) ↦ elim (add_transactions-Placing h.block_number 0 ts t index) [
          | placed j at f ↦ inl (
            (h.block_number, j),
            inl (refl, at),
            e ∙ f ∙ ap (λ n. some (h.block_number, n)) (omega arith),
          )
          | passed none_of f ↦
              inr (
                λ p q. elim q [ inl (_, at) ↦ none_of p.1 at | inr there ↦ nowhere p there ],
                e ∙ f,
              )
        ]
      ]

  abbrev pub IsUnique : List BlockHeader → Type 0
  IsUnique hs = (t : ℕ) (p q : ℕ × ℕ) → IsAt hs t p → IsAt hs t q → p ≡ q

  indexed-IsAt :
      (hs : List BlockHeader) (t : ℕ) (p : ℕ × ℕ) (index : Dict (ℕ × ℕ))
      → IsUnique hs
      → IsAt hs t p
      → lookup t (index_headers hash_of hash_of_uncles transactions_of hs index) ≡ some p
  indexed-IsAt hs t p index unique at = elim (index_headers_cases hs t index) [
    | inl (q, there, e) ↦ e ∙ ap some (unique t q p there at)
    | inr (nowhere, e) ↦ absurd (nowhere p at)
  ]

  indexed_other :
      (hs : List BlockHeader) (t : ℕ) (index : Dict (ℕ × ℕ))
      → ((p : ℕ × ℕ) → IsAt hs t p → ⊥)
      → lookup t (index_headers hash_of hash_of_uncles transactions_of hs index) ≡ lookup t index
  indexed_other hs t index nowhere = elim (index_headers_cases hs t index) [
    | inl (q, there, e) ↦ absurd (nowhere q there)
    | inr (_, e) ↦ e
  ]

  persist_block-eq :
      (fuel : ℕ) (block : Block) (c c' : ChainDb) (new : List BlockHeader)
      → persist_header hash_of hash_of_uncles transactions_of fuel block.header c ≡ (ok new, c')
      → persist_block hash_of hash_of_uncles transactions_of fuel block c
        ≡ finish_block hash_of hash_of_uncles transactions_of block new c'
  unfolding persist_block
  persist_block-eq fuel block c c' new e =
      ap
        (λ (x : Result Exception (List BlockHeader) × ChainDb).
          elim x.0 as (λ _. Result Exception Unit × ChainDb) [
            | err d ↦ (err d, x.1)
            | ok hs ↦ finish_block hash_of hash_of_uncles transactions_of block hs x.1
          ])
        e

  -- When the header of a block is persisted, the uncles have the hash that the header names, and no
  -- transaction stands at two places of the new canonical blocks: persist_block succeeds, the index then
  -- gives every transaction of these blocks its number and its position, and for every other transaction
  -- what it gave after the header was persisted.
  pub persist_block_indexes :
      (fuel : ℕ) (block : Block) (c c' : ChainDb) (new : List BlockHeader)
      → persist_header hash_of hash_of_uncles transactions_of fuel block.header c ≡ (ok new, c')
      → hash_of_uncles block.uncles ≡ block.header.uncles_hash
      → IsUnique new
      → let end = persist_block hash_of hash_of_uncles transactions_of fuel block c in
        (end.0 ≡ ok tt)
        × ((t : ℕ) (p : ℕ × ℕ) → IsAt new t p → get_transaction_index end.1 t ≡ ok p)
        × ((t : ℕ)
            → ((p : ℕ × ℕ) → IsAt new t p → ⊥)
            → get_transaction_index end.1 t ≡ get_transaction_index c' t)
  unfolding finish_block persist_uncles get_transaction_index
  persist_block_indexes fuel block c c' new run uncles unique =
      rw (persist_block-eq fuel block c c' new run) (
        rw ((==_iff (hash_of_uncles block.uncles) block.header.uncles_hash).1 uncles),
        λ t p at. rw (indexed-IsAt new t p c'.transactions unique at),
        λ t nowhere. rw (indexed_other new t c'.transactions nowhere),
      )
