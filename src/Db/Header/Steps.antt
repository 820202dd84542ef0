-- ===== src/Db/Header/Steps.antt =====
-- The steps of persist_header, one lemma each.
use py_evm.Prelude.{
  ℕ, ◌≡◌, inl, inr, false, ◌&&◌, not, none, some, List, [], reverse, ltb, if◌then◌else◌, ==_iff,
}
use py_evm.Prelude.Exec.{ok, err}
use py_evm.Exceptions.{canonical_head_not_found}
use py_evm.Constants.{genesis_parent_hash}
use py_evm.Headers.{BlockHeader}
use py_evm.Db.Dict.{Dict, lookup}
use py_evm.Db.Header.{
  HeaderDb, is_genesis, get_canonical_head, get_score, find_new_ancestors, get_block_header_by_hash,
  set_as_canonical_chain_head, choose_head, persist_header, header_exists,
}
use py_evm.Db.Header.Store.{IsStore, IsPlaced, NoCollision, stored, score_of-stored, ==-false}
use py_evm.Db.Header.Numbers.{numbers_after, add_lookups-reverse}

module _ (hash_of : BlockHeader → ℕ) where
  abbrev pub after : HeaderDb → ℕ → Dict ℕ → HeaderDb
  after d k numbers = record d { number_to_hash = numbers; canonical_head_hash = some k }

  pub set_as_canonical_chain_head_lem :
      (fuel : ℕ) (d : HeaderDb) (h : BlockHeader) (hs : List BlockHeader)
      → lookup (hash_of h) d.headers ≡ some h
      → find_new_ancestors hash_of fuel h d ≡ ok hs
      → set_as_canonical_chain_head hash_of fuel (hash_of h) d
        ≡ (ok (reverse hs), after d (hash_of h) (numbers_after hash_of hs d.number_to_hash))
  unfolding set_as_canonical_chain_head get_block_header_by_hash
  set_as_canonical_chain_head_lem fuel d h hs at run =
      rw (at, set_as_canonical_chain_head, run, add_lookups-reverse hash_of hs d)

  pub choose_head-none :
      (fuel : ℕ) (h : BlockHeader) (s : ℕ) (d : HeaderDb)
      → get_canonical_head d ≡ err canonical_head_not_found
      → choose_head hash_of fuel h s d ≡ set_as_canonical_chain_head hash_of fuel (hash_of h) d
  unfolding choose_head
  choose_head-none fuel h s d e = rw (e, choose_head)

  pub get_canonical_head-none :
      (d : HeaderDb)
      → d.canonical_head_hash ≡ none
      → get_canonical_head d ≡ err canonical_head_not_found
  unfolding get_canonical_head
  get_canonical_head-none d e = rw (e, get_canonical_head)

  pub get_canonical_head-ok :
      (d : HeaderDb) (k : ℕ) (head : BlockHeader)
      → d.canonical_head_hash ≡ some k
      → lookup k d.headers ≡ some head
      → get_canonical_head d ≡ ok head
  unfolding get_canonical_head get_block_header_by_hash
  get_canonical_head-ok d k head e f = rw (e, get_canonical_head, f)

  pub get_score-ok :
      (d : HeaderDb) (head : BlockHeader) (t : ℕ)
      → lookup (hash_of head) d.scores ≡ some t
      → get_score d (hash_of head) ≡ ok t
  unfolding get_score
  get_score-ok d head t e = rw (e, get_score)

  pub choose_head-some :
      (fuel : ℕ) (h : BlockHeader) (s : ℕ) (d : HeaderDb) (head : BlockHeader) (t : ℕ)
      → get_canonical_head d ≡ ok head
      → lookup (hash_of head) d.scores ≡ some t
      → choose_head hash_of fuel h s d
        ≡ (if ltb t s then set_as_canonical_chain_head hash_of fuel (hash_of h) d else (ok [], d))
  unfolding choose_head get_score
  choose_head-some fuel h s d head t e f = rw (e, choose_head, f)

  pub has_parent-guard :
      (h : BlockHeader) (s : ℕ) (d : HeaderDb)
      → IsPlaced d h s
      → (not (is_genesis h) && not (header_exists d h.parent_hash)) ≡ false
  unfolding header_exists
  has_parent-guard h s d (inl (first, _, _)) =
      rw ((==_iff h.parent_hash genesis_parent_hash).1 first)
  has_parent-guard h s d (inr next) =
      rw (==-false h.parent_hash genesis_parent_hash next.not_first)
        (rw (next.has_parent.0, header_exists))

  -- The guards are passed, and header and score are written.
  pub persist_header-stored :
      (fuel : ℕ) (h : BlockHeader) (s : ℕ) (d : HeaderDb)
      → IsStore hash_of d
      → IsPlaced d h s
      → NoCollision hash_of d h
      → persist_header hash_of fuel h d ≡ choose_head hash_of fuel h s (stored hash_of h s d)
  unfolding persist_header
  persist_header-stored fuel h s d fine placed fresh =
      rw (has_parent-guard h s d placed)
        (rw (score_of-stored hash_of d h s fine placed fresh, persist_header))
