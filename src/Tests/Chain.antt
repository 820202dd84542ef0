-- ===== src/Tests/Chain.antt =====
-- The header database at a fork of two chains. The timestamp of a header serves as its hash.
use py_evm.Prelude.{
  ℕ, zero, suc, ◌<◌, ◌≡◌, refl, sym, ap, ◌∙◌, ◌↔◌, inl, inr, some, List, [], ◌∷◌, arith, get_elem?,
  none-some,
}
use mathlib.Core.Path.{subst}
use py_evm.Prelude.Exec.{Result, ok, err}
use py_evm.Exceptions.{Exception}
use py_evm.Headers.{BlockHeader}
use py_evm.Db.Dict.{lookup, insert}
use py_evm.Db.Header.{
  choose_head, set_as_canonical_chain_head, find_new_ancestors, get_block_header_by_hash,
  header_exists, HeaderDb, empty_header_db, persist_header, get_canonical_block_hash,
  get_canonical_head,
}
use py_evm.Db.Header.Store.{Has, IsPlaced, NoCollision}
use py_evm.Db.Header.Shape.{IsHeaderDb}
use py_evm.Db.Header.Persist.{TakesOverUpwards, persist_header-IsHeaderDb}
use py_evm.Db.Chain
use py_evm.Db.Chain.{ChainDb, Block, remove_old, get_transaction_index}
use py_evm.Db.Chain.Index.{IsAt, IsUnique, persist_block_indexes}
use py_evm.Db.Header.Ancestry.{IsAncestor, get_canonical_block_hash-IsAncestor}
use py_evm.Db.Header.Above.{persist_header_above}

abbrev pub header : ℕ → ℕ → ℕ → ℕ → BlockHeader
header id parent number difficulty = record {
  parent_hash = parent;
  difficulty = difficulty;
  block_number = number;
  gas_limit = 5000;
  gas_used = 0;
  timestamp = id;
  uncles_hash = 0;
  transaction_root = 0;
  state_root = 0;
  coinbase = [];
  extra_data = [];
}

abbrev pub hash_of : BlockHeader → ℕ
hash_of h = h.timestamp

abbrev first : BlockHeader
first = header 10 0 0 1

abbrev second : BlockHeader
second = header 11 10 1 1

abbrev pub third : BlockHeader
third = header 12 11 2 1

-- A block beside `second`, of a high difficulty.
abbrev pub rival : BlockHeader
rival = header 21 10 1 5

abbrev with_first : HeaderDb
with_first = record {
  headers = (10, first) ∷ [];
  scores = (10, 1) ∷ [];
  number_to_hash = (0, 10) ∷ [];
  canonical_head_hash = some 10;
}

abbrev with_second : HeaderDb
with_second = record {
  headers = (10, first) ∷ (11, second) ∷ [];
  scores = (10, 1) ∷ (11, 2) ∷ [];
  number_to_hash = (0, 10) ∷ (1, 11) ∷ [];
  canonical_head_hash = some 11;
}

abbrev pub with_third : HeaderDb
with_third = record {
  headers = (10, first) ∷ (11, second) ∷ (12, third) ∷ [];
  scores = (10, 1) ∷ (11, 2) ∷ (12, 3) ∷ [];
  number_to_hash = (0, 10) ∷ (1, 11) ∷ (2, 12) ∷ [];
  canonical_head_hash = some 12;
}

persist_first : persist_header hash_of 1 first empty_header_db ≡ (ok (first ∷ []), with_first)
unfolding persist_header lookup header_exists choose_head insert set_as_canonical_chain_head
    find_new_ancestors
persist_first = refl

persist_second : persist_header hash_of 2 second with_first ≡ (ok (second ∷ []), with_second)
unfolding persist_header lookup header_exists choose_head insert set_as_canonical_chain_head
    find_new_ancestors
persist_second = refl

persist_third : persist_header hash_of 3 third with_second ≡ (ok (third ∷ []), with_third)
unfolding persist_header lookup header_exists choose_head insert set_as_canonical_chain_head
    find_new_ancestors
persist_third = refl

with_rival : HeaderDb
with_rival = (persist_header hash_of 2 rival with_third).1

-- The rival is the head, with the number 1, and the old head is still canonical at 2.
stale : get_canonical_block_hash with_rival 2 ≡ ok 12
unfolding with_rival persist_header get_canonical_block_hash lookup header_exists choose_head insert
    set_as_canonical_chain_head find_new_ancestors
stale = refl

-- A child of the old head takes over, and the number 1 still names the rival.
broken :
    get_canonical_block_hash (persist_header hash_of 4 (header 13 12 3 9) with_rival).1 1 ≡ ok 21
unfolding with_rival persist_header get_canonical_block_hash lookup header_exists choose_head insert
    set_as_canonical_chain_head find_new_ancestors
broken = refl

empty_fine : IsHeaderDb hash_of empty_header_db
unfolding lookup
empty_fine = record {
  store = λ k h e. cc;
  linked = λ n j e. cc;
  head = inl record { no_head = refl; no_scores = λ j. refl; no_numbers = λ n. refl };
}

first-IsPlaced : IsPlaced empty_header_db first 1
first-IsPlaced = inl (refl, refl, refl)

-- The state after a call that is known to keep the database well formed.
same_state :
    (fuel : ℕ) (h : BlockHeader) (d e : HeaderDb) (hs : List BlockHeader) (s : ℕ)
    → persist_header hash_of fuel h d ≡ (ok hs, e)
    → ((new : List BlockHeader) × (d' : HeaderDb) × (persist_header hash_of fuel h d ≡ (ok new, d'))
        × IsHeaderDb hash_of d'
        × Has d' (hash_of h) h s)
    → IsHeaderDb hash_of e
same_state fuel h d e hs s run (new, d', run', whole, has) =
    subst (IsHeaderDb hash_of) (ap (λ r. r.1) (sym run' ∙ run)) whole

first_fine : IsHeaderDb hash_of with_first
unfolding lookup get_canonical_head
first_fine = same_state 1 first empty_header_db with_first (first ∷ []) 1 persist_first (
    persist_header-IsHeaderDb hash_of 1 empty_header_db first 1 empty_fine first-IsPlaced
      (λ old e. cc) (omega arith) (λ head t e f lt. cc))

second-IsPlaced : IsPlaced with_first second 2
unfolding lookup
second-IsPlaced = inr record {
  not_first = λ e. omega arith;
  parent = first;
  parent_score = 1;
  has_parent = (refl, refl);
  number = refl;
  score_sum = refl;
}

ok_inj : (a b : BlockHeader) → ◌≡◌ {A = Result Exception BlockHeader} (ok a) (ok b) → a ≡ b
ok_inj a b e = ap (λ o. elim o [ ok x ↦ x | err _ ↦ a ]) e

first_head : TakesOverUpwards hash_of with_first second 2
unfolding lookup get_canonical_head get_block_header_by_hash
first_head head t e f lt = rw (← ok_inj first head e) (omega arith)

persist_header-IsHeaderDb_example :
    (new : List BlockHeader) × (d' : HeaderDb) × (persist_header hash_of 2 second with_first
      ≡ (ok new, d'))
    × IsHeaderDb hash_of d'
    × Has d' 11 second 2
unfolding lookup
persist_header-IsHeaderDb_example =
    persist_header-IsHeaderDb hash_of 2 with_first second 2 first_fine second-IsPlaced (λ old e. cc)
      (omega arith) first_head

second_fine : IsHeaderDb hash_of with_second
second_fine =
    same_state 2 second with_first with_second (second ∷ []) 2 persist_second
      persist_header-IsHeaderDb_example

pub third_fine : IsHeaderDb hash_of with_third
unfolding lookup get_canonical_head get_block_header_by_hash
third_fine = same_state 3 third with_second with_third (third ∷ []) 3 persist_third (
    persist_header-IsHeaderDb hash_of 3 with_second third 3 second_fine
      (inr record {
        not_first = λ e. omega arith;
        parent = second;
        parent_score = 2;
        has_parent = (refl, refl);
        number = refl;
        score_sum = refl;
      })
      (λ old e. cc) (omega arith) (λ head t e f lt. rw (← ok_inj second head e) (omega arith)))

get_canonical_block_hash-IsAncestor_example : (get_canonical_block_hash with_third 1 ≡ ok 11) ↔ (
    (p : BlockHeader) × (lookup 11 with_third.headers ≡ some p)
    × (p.block_number ≡ 1)
    × IsAncestor with_third 12 11)
get_canonical_block_hash-IsAncestor_example =
    get_canonical_block_hash-IsAncestor hash_of with_third 12 1 11 third_fine refl

rival-IsPlaced : IsPlaced with_third rival 6
unfolding lookup
rival-IsPlaced = inr record {
  not_first = λ e. omega arith;
  parent = first;
  parent_score = 1;
  has_parent = (refl, refl);
  number = refl;
  score_sum = refl;
}

rival_fresh : NoCollision hash_of with_third rival
unfolding lookup
rival_fresh old e = cc

persist_header_above_example :
    (new : List BlockHeader) × (d' : HeaderDb) × (persist_header hash_of 2 rival with_third
      ≡ (ok new, d'))
    × ((n : ℕ) → 1 < n → get_canonical_block_hash d' n ≡ get_canonical_block_hash with_third n)
persist_header_above_example =
    persist_header_above hash_of 2 with_third rival 6 third_fine rival-IsPlaced rival_fresh
      (omega arith)

abbrev hash_of_uncles : List BlockHeader → ℕ
hash_of_uncles us = 0

-- Every block has the one transaction 100.
abbrev transactions_of : ℕ → List ℕ
transactions_of root = 100 ∷ []

abbrev chain_with_first : ChainDb
chain_with_first = record { chain = with_first; transactions = (100, (0, 0)) ∷ []; uncles = [] }

abbrev chain_with_second : ChainDb
chain_with_second = record { chain = with_second; transactions = (100, (0, 0)) ∷ []; uncles = [] }

persist_second_block :
    Chain.persist_header hash_of hash_of_uncles transactions_of 2 second chain_with_first
    ≡ (ok (second ∷ []), chain_with_second)
unfolding Chain.persist_header Chain.choose_head Chain.set_as_canonical_chain_head remove_old lookup
    header_exists insert find_new_ancestors
persist_second_block = refl

only_zero : (i t : ℕ) → get_elem? (100 ∷ []) i ≡ some t → i ≡ 0
only_zero zero t e = refl
only_zero (suc i) t e = absurd (none-some t e)

second-IsUnique : IsUnique hash_of hash_of_uncles transactions_of (second ∷ [])
second-IsUnique t (n, i) (m, j) (inl (p, q)) (inl (p', q')) =
    λ k. ((sym p ∙ p') k, (only_zero i t q ∙ sym (only_zero j t q')) k)
second-IsUnique t p q (inr none_there) there = absurd none_there
second-IsUnique t p q (inl there) (inr none_there) = absurd none_there

abbrev second_block : Block
second_block = record { header = second; transactions = []; uncles = [] }

persist_block_indexes_example :
    let end =
      Chain.persist_block hash_of hash_of_uncles transactions_of 2 second_block chain_with_first in
    (end.0 ≡ ok tt)
    × ((t : ℕ) (p : ℕ × ℕ)
        → IsAt hash_of hash_of_uncles transactions_of (second ∷ []) t p
        → get_transaction_index end.1 t ≡ ok p)
    × ((t : ℕ)
        → ((p : ℕ × ℕ) → IsAt hash_of hash_of_uncles transactions_of (second ∷ []) t p → ⊥)
        → get_transaction_index end.1 t ≡ get_transaction_index chain_with_second t)
persist_block_indexes_example =
    persist_block_indexes hash_of hash_of_uncles transactions_of 2 second_block chain_with_first
      chain_with_second (second ∷ []) persist_second_block refl second-IsUnique
