-- ===== src/Db/Header.antt =====
-- evm/db/header.py: `class HeaderDB`. The keys of evm/db/schema.py have a prefix for each kind of entry,
-- so each kind is a dict of its own, with its values decoded. A block hash is the number of its bytes,
-- and the hash of a header is an argument.
pub mod Store
pub mod Numbers
pub mod Shape
pub mod Steps
pub mod Persist
pub mod Ancestry
pub mod Above
use py_evm.Prelude.{
  ℕ, zero, suc, ◌+◌, Bool, true, false, ◌&&◌, not, Option, none, some, List, [], ◌∷◌, reverse, ltb,
  ◌==◌, if◌then◌else◌,
}
use py_evm.Prelude.Exec.{Result, ok, err, Exec}
use py_evm.Exceptions.{
  Exception, value_error, header_not_found, canonical_head_not_found, parent_not_found,
  fuel_exhausted,
}
use py_evm.Constants.{genesis_parent_hash}
use py_evm.Headers.{BlockHeader}
use py_evm.Db.Dict.{Dict, lookup, insert}

pub record HeaderDb : Type 0 where
  pub headers : Dict BlockHeader
  pub scores : Dict ℕ
  pub number_to_hash : Dict ℕ
  pub canonical_head_hash : Option ℕ

abbrev pub empty_header_db : HeaderDb
empty_header_db = record {
  headers = [];
  scores = [];
  number_to_hash = [];
  canonical_head_hash = none;
}

-- The value under a key, or the exception that stands for the `KeyError`.
abbrev pub found : {A : Type 0} → Option A → Exception → Result Exception A
found none e = err e
found (some a) e = ok a

-- `get_canonical_block_hash`
unfoldable pub get_canonical_block_hash : HeaderDb → ℕ → Result Exception ℕ
get_canonical_block_hash d number = found (lookup number d.number_to_hash) header_not_found

-- `get_block_header_by_hash`
unfoldable pub get_block_header_by_hash : HeaderDb → ℕ → Result Exception BlockHeader
get_block_header_by_hash d block_hash = found (lookup block_hash d.headers) header_not_found

-- `get_canonical_block_header_by_number`
unfoldable pub get_canonical_block_header_by_number : HeaderDb → ℕ → Result Exception BlockHeader
unfolding get_canonical_block_hash get_block_header_by_hash
get_canonical_block_header_by_number d number = elim (get_canonical_block_hash d number) [
  | ok block_hash ↦ get_block_header_by_hash d block_hash
  | err e ↦ err e
]

-- `get_canonical_head`
unfoldable pub get_canonical_head : HeaderDb → Result Exception BlockHeader
unfolding get_block_header_by_hash
get_canonical_head d = elim d.canonical_head_hash [
  | none ↦ err canonical_head_not_found
  | some block_hash ↦ get_block_header_by_hash d block_hash
]

-- `get_score`
unfoldable pub get_score : HeaderDb → ℕ → Result Exception ℕ
get_score d block_hash = found (lookup block_hash d.scores) header_not_found

-- `header_exists`
unfoldable pub header_exists : HeaderDb → ℕ → Bool
header_exists d block_hash = elim (lookup block_hash d.headers) [ none ↦ false | some _ ↦ true ]

abbrev pub is_genesis : BlockHeader → Bool
is_genesis header = header.parent_hash == genesis_parent_hash

prepend : BlockHeader → Result Exception (List BlockHeader) → Result Exception (List BlockHeader)
prepend h (ok hs) = ok (h ∷ hs)
prepend h (err e) = err e

-- The score of a header that is stored: its difficulty and the score of the parent.
unfoldable pub score_of : BlockHeader → HeaderDb → Result Exception ℕ
unfolding get_score
score_of header d =
    if is_genesis header then ok header.difficulty else elim (get_score d header.parent_hash) [
      | ok parent_score ↦ ok (parent_score + header.difficulty)
      | err e ↦ err e
    ]

module _ (hash_of : BlockHeader → ℕ) where
  -- The test of `_find_new_ancestors`: the canonical block of this number is this one.
  unfoldable pub is_canonical : HeaderDb → BlockHeader → Bool
  unfolding get_canonical_block_header_by_number
  is_canonical d h = elim (get_canonical_block_header_by_number d h.block_number) [
    | ok orig ↦ hash_of orig == hash_of h
    | err _ ↦ false
  ]

  -- The loop of `_find_new_ancestors`, with fuel.
  unfoldable pub find_new_ancestors :
      ℕ → BlockHeader → HeaderDb → Result Exception (List BlockHeader)
  unfolding is_canonical get_block_header_by_hash prepend
  find_new_ancestors zero h d = err fuel_exhausted
  find_new_ancestors (suc fuel) h d =
      let rest : Result Exception (List BlockHeader) =
        elim (get_block_header_by_hash d h.parent_hash) [
          | ok parent ↦ find_new_ancestors fuel parent d
          | err e ↦ err e
        ] in
      if is_canonical d h then ok [] else if is_genesis h then ok (h ∷ []) else prepend h rest

  -- `_add_block_number_to_hash_lookup`
  unfoldable pub add_block_number_to_hash_lookup : BlockHeader → HeaderDb → HeaderDb
  add_block_number_to_hash_lookup h d = record d {
    number_to_hash = insert h.block_number (hash_of h) d.number_to_hash;
  }

  -- The loop over the new canonical headers.
  unfoldable pub add_lookups : List BlockHeader → HeaderDb → HeaderDb
  unfolding add_block_number_to_hash_lookup
  add_lookups [] d = d
  add_lookups (h ∷ hs) d = add_lookups hs (add_block_number_to_hash_lookup h d)

  -- `_set_as_canonical_chain_head`
  unfoldable pub set_as_canonical_chain_head : ℕ → ℕ → Exec Exception HeaderDb (List BlockHeader)
  unfolding get_block_header_by_hash add_lookups
  set_as_canonical_chain_head fuel block_hash d = elim (get_block_header_by_hash d block_hash) [
    | err _ ↦ (err value_error, d)
    | ok header ↦ elim (find_new_ancestors fuel header d) [
      | err e ↦ (err e, d)
      | ok ancestors ↦ (
        ok (reverse ancestors),
        record (add_lookups (reverse ancestors) d) { canonical_head_hash = some (hash_of header) },
      )
    ]
  ]

  unfoldable pub store_header : BlockHeader → HeaderDb → HeaderDb
  store_header header d = record d { headers = insert (hash_of header) header d.headers }

  unfoldable pub store_score : BlockHeader → ℕ → HeaderDb → HeaderDb
  store_score header score d = record d { scores = insert (hash_of header) score d.scores }

  -- The end of `persist_header`: the comparison with the head.
  unfoldable pub choose_head : ℕ → BlockHeader → ℕ → Exec Exception HeaderDb (List BlockHeader)
  unfolding get_canonical_head get_score
  choose_head fuel header score d = elim (get_canonical_head d) [
    | err canonical_head_not_found ↦ set_as_canonical_chain_head fuel (hash_of header) d
    | err e ↦ (err e, d)
    | ok head ↦ elim (get_score d (hash_of head)) [
      | err e ↦ (err e, d)
      | ok head_score ↦
          if ltb head_score score
          then set_as_canonical_chain_head fuel (hash_of header) d
          else (ok [], d)
    ]
  ]

  -- `persist_header`
  unfoldable pub persist_header : ℕ → BlockHeader → Exec Exception HeaderDb (List BlockHeader)
  unfolding score_of store_header store_score
  persist_header fuel header d =
      if not (is_genesis header) && not (header_exists d header.parent_hash)
      then (err parent_not_found, d)
      else let stored = store_header header d in
        elim (score_of header stored) [
          | err e ↦ (err e, stored)
          | ok score ↦ choose_head fuel header score (store_score header score stored)
        ]
