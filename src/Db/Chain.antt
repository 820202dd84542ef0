-- ===== src/Db/Chain.antt =====
-- evm/db/chain.py: `class ChainDB`, the headers with an index of the canonical transactions. Its reads of
-- headers are those of evm/db/header.py, which stand in Db.Header. What the trie under a transaction root
-- holds is an argument, as are the hashes.
pub mod Agrees
pub mod Index
use py_evm.Prelude.{ℕ, ◌+◌, ◌&&◌, not, some, List, [], ◌∷◌, reverse, ltb, ◌==◌, if◌then◌else◌}
use py_evm.Prelude.Exec.{Result, ok, err, Exec}
use py_evm.Exceptions.{
  Exception, value_error, canonical_head_not_found, parent_not_found, transaction_not_found,
  assertion_error, header_not_found,
}
use py_evm.Numeric.{Bytes}
use py_evm.Headers.{BlockHeader}
use py_evm.Db.Dict.{Dict, lookup, insert, erase}
use py_evm.Db.Header.{
  HeaderDb, get_canonical_block_hash, get_block_header_by_hash, get_canonical_head, get_score,
  header_exists, is_genesis, score_of, find_new_ancestors, add_lookups, store_header, store_score,
  found,
}

pub record ChainDb : Type 0 where
  pub chain : HeaderDb
  pub transactions : Dict (ℕ × ℕ)
  pub uncles : Dict (List BlockHeader)

-- A block; a transaction is its bytes.
pub record Block : Type 0 where
  pub header : BlockHeader
  pub transactions : List Bytes
  pub uncles : List BlockHeader

-- `get_transaction_index`
unfoldable pub get_transaction_index : ChainDb → ℕ → Result Exception (ℕ × ℕ)
get_transaction_index c transaction_hash =
    found (lookup transaction_hash c.transactions) transaction_not_found

-- `get_block_uncles`
unfoldable pub get_block_uncles : ChainDb → ℕ → Result Exception (List BlockHeader)
get_block_uncles c uncles_hash = found (lookup uncles_hash c.uncles) header_not_found

-- `_remove_transaction_from_canonical_chain`, of each of a row.
unfoldable pub remove_transactions : List ℕ → Dict (ℕ × ℕ) → Dict (ℕ × ℕ)
remove_transactions [] index = index
remove_transactions (t ∷ ts) index = remove_transactions ts (erase t index)

-- `_add_transaction_to_canonical_chain`, of each of a row, from a position on.
unfoldable pub add_transactions : ℕ → ℕ → List ℕ → Dict (ℕ × ℕ) → Dict (ℕ × ℕ)
add_transactions number i [] index = index
add_transactions number i (t ∷ ts) index =
    add_transactions number (i + 1) ts (insert t (number, i) index)

module _ (hash_of : BlockHeader → ℕ) (hash_of_uncles : List BlockHeader → ℕ)
    (transactions_of : ℕ → List ℕ) where
  -- `get_block_transaction_hashes`
  abbrev pub get_block_transaction_hashes : BlockHeader → List ℕ
  get_block_transaction_hashes h = transactions_of h.transaction_root

  -- The first loop of `_set_as_canonical_chain_head`: it stops at a number without a canonical block.
  unfoldable pub remove_old : List BlockHeader → Exec Exception ChainDb Unit
  unfolding remove_transactions get_canonical_block_hash get_block_header_by_hash
  remove_old [] c = (ok tt, c)
  remove_old (h ∷ hs) c = elim (get_canonical_block_hash c.chain h.block_number) [
    | err _ ↦ (ok tt, c)
    | ok old_hash ↦ elim (get_block_header_by_hash c.chain old_hash) [
      | err e ↦ (err e, c)
      | ok old_header ↦ remove_old hs (record c {
        transactions = remove_transactions (get_block_transaction_hashes old_header) c.transactions;
      })
    ]
  ]

  -- The rest of `_set_as_canonical_chain_head`, from the new headers on.
  replace_head : BlockHeader → List BlockHeader → Exec Exception ChainDb (List BlockHeader)
  unfolding remove_old add_lookups
  replace_head header new c =
      let (removed, c') = remove_old new c in
      elim removed [
        | err e ↦ (err e, c')
        | ok _ ↦ (
          ok new,
          record c' {
            chain = record (add_lookups hash_of new c'.chain) {
              canonical_head_hash = some (hash_of header);
            };
          },
        )
      ]

  -- `_set_as_canonical_chain_head`
  unfoldable pub set_as_canonical_chain_head :
      ℕ → BlockHeader → Exec Exception ChainDb (List BlockHeader)
  unfolding replace_head get_block_header_by_hash
  set_as_canonical_chain_head fuel header c =
      elim (get_block_header_by_hash c.chain (hash_of header)) [
        | err _ ↦ (err value_error, c)
        | ok _ ↦ elim (find_new_ancestors hash_of fuel header c.chain) [
          | err e ↦ (err e, c)
          | ok ancestors ↦ replace_head header (reverse ancestors) c
        ]
      ]

  -- The end of `persist_header`.
  unfoldable pub choose_head : ℕ → BlockHeader → ℕ → Exec Exception ChainDb (List BlockHeader)
  unfolding set_as_canonical_chain_head get_canonical_head get_score
  choose_head fuel header score c = elim (get_canonical_head c.chain) [
    | err canonical_head_not_found ↦ set_as_canonical_chain_head fuel header c
    | err e ↦ (err e, c)
    | ok head ↦ elim (get_score c.chain (hash_of head)) [
      | err e ↦ (err e, c)
      | ok head_score ↦
          if ltb head_score score then set_as_canonical_chain_head fuel header c else (ok [], c)
    ]
  ]

  -- `persist_header`
  unfoldable pub persist_header : ℕ → BlockHeader → Exec Exception ChainDb (List BlockHeader)
  unfolding choose_head score_of store_header store_score
  persist_header fuel header c =
      if not (is_genesis header) && not (header_exists c.chain header.parent_hash)
      then (err parent_not_found, c)
      else let stored = store_header hash_of header c.chain in
        elim (score_of header stored) [
          | err e ↦ (err e, record c { chain = stored })
          | ok score ↦
              choose_head fuel header score
                (record c { chain = store_score hash_of header score stored })
        ]

  -- The loop of `persist_block` over the new canonical headers.
  unfoldable pub index_headers : List BlockHeader → Dict (ℕ × ℕ) → Dict (ℕ × ℕ)
  unfolding add_transactions
  index_headers [] index = index
  index_headers (h ∷ hs) index =
      index_headers hs (add_transactions h.block_number 0 (get_block_transaction_hashes h) index)

  -- `persist_uncles`
  unfoldable pub persist_uncles : List BlockHeader → ChainDb → ℕ × ChainDb
  persist_uncles uncles c =
      (hash_of_uncles uncles, record c { uncles = insert (hash_of_uncles uncles) uncles c.uncles })

  -- The end of `persist_block`.
  finish_block : Block → List BlockHeader → Exec Exception ChainDb Unit
  unfolding index_headers persist_uncles
  finish_block block new c =
      let indexed = record c { transactions = index_headers new c.transactions } in
      let (uncles_hash, c') = persist_uncles block.uncles indexed in
      (if uncles_hash == block.header.uncles_hash then ok tt else err assertion_error, c')

  -- `persist_block`
  unfoldable pub persist_block : ℕ → Block → Exec Exception ChainDb Unit
  unfolding persist_header finish_block
  persist_block fuel block c =
      let (new, c') = persist_header fuel block.header c in
      elim new [ err e ↦ (err e, c') | ok headers ↦ finish_block block headers c' ]
