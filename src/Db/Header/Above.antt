-- ===== src/Db/Header/Above.antt =====
-- What is written above a persisted header.
use py_evm.Prelude.{ℕ, ◌<◌, ◌≡◌, refl, ap, ◌∙◌, inl, inr, List, [], reverse, ltb, Bool-cases}
use py_evm.Prelude.Exec.{ok}
use py_evm.Headers.{BlockHeader}
use py_evm.Db.Dict.{lookup}
use py_evm.Db.Header.{
  HeaderDb, get_canonical_block_hash, set_as_canonical_chain_head, persist_header, choose_head,
  store_header, store_score,
}
use py_evm.Db.Header.Store.{IsPlaced, NoCollision, stored, Has-stored, Has-keeps, IsStore-stored}
use py_evm.Db.Header.Numbers.{find_new_ancestors-Leads, numbers_after, numbers_after-IsWritten}
use py_evm.Db.Header.Shape.{IsHead, IsHeaderDb, AreLinked-stored}
use py_evm.Db.Header.Steps.{
  after, set_as_canonical_chain_head_lem, choose_head-none, get_canonical_head-none,
  get_canonical_head-ok, choose_head-some, persist_header-stored,
}

module _ (hash_of : BlockHeader → ℕ) (fuel : ℕ) (d : HeaderDb) (h : BlockHeader) (s : ℕ)
    (fine : IsHeaderDb hash_of d) (placed : IsPlaced d h s) (fresh : NoCollision hash_of d h)
    (enough : h.block_number < fuel) where
  abbrev e : HeaderDb
  e = stored hash_of h s d

  abbrev LeavesAbove : HeaderDb → Type 0
  LeavesAbove d' =
      (n : ℕ) → h.block_number < n → lookup n d'.number_to_hash ≡ lookup n d.number_to_hash

  takes_over :
      (new : List BlockHeader) × (d' : HeaderDb) × (set_as_canonical_chain_head hash_of fuel
          (hash_of h)
          e
        ≡ (ok new, d'))
      × LeavesAbove d'
  unfolding store_header store_score
  takes_over =
      let store = IsStore-stored hash_of d h s fine.store placed fresh in
      let has = Has-stored hash_of d h s fine.store placed fresh in
      let (hs, run, leads) =
        find_new_ancestors-Leads hash_of fuel e h (hash_of h) store has.0 enough in
      let w =
        numbers_after-IsWritten hash_of e h (hash_of h) hs store
          (AreLinked-stored hash_of d h s fine placed fresh) has.0 leads in
      (
        reverse hs,
        after hash_of e (hash_of h) (numbers_after hash_of hs d.number_to_hash),
        set_as_canonical_chain_head_lem hash_of fuel e h hs has.0 run,
        w.above,
      )

  compared :
      IsHead hash_of d
      → (new : List BlockHeader) × (d' : HeaderDb) × (choose_head hash_of fuel h s e ≡ (ok new, d'))
        × LeavesAbove d'
  unfolding store_header store_score
  compared old =
      let entry = fine.store old.key old.head old.has.0 in
      let has =
        Has-keeps hash_of d h s fine.store placed fresh old.key old.head old.score old.has in
      let start =
        choose_head-some hash_of fuel h s e old.head old.score
          (get_canonical_head-ok hash_of e old.key old.head old.canonical has.0)
          (ap (λ k. lookup k e.scores) entry.at ∙ has.1) in
      let (new, d', run, above) = takes_over in
      elim (Bool-cases (ltb old.score s)) [
        | inl better ↦ (new, d', start ∙ rw better run, above)
        | inr worse ↦ ([], e, start ∙ rw worse, λ n lt. refl)
      ]

  chosen :
      (new : List BlockHeader) × (d' : HeaderDb) × (choose_head hash_of fuel h s e ≡ (ok new, d'))
      × LeavesAbove d'
  unfolding store_header store_score
  chosen = elim fine.head [
    | inl absent ↦
        let (new, d', run, above) = takes_over in
        (
          new,
          d',
          choose_head-none hash_of fuel h s e (get_canonical_head-none hash_of e absent.no_head)
              ∙ run,
          above,
        )
    | inr old ↦ compared old
  ]

get_canonical_block_hash-same :
    (d d' : HeaderDb) (n : ℕ)
    → lookup n d'.number_to_hash ≡ lookup n d.number_to_hash
    → get_canonical_block_hash d' n ≡ get_canonical_block_hash d n
unfolding get_canonical_block_hash
get_canonical_block_hash-same d d' n e = rw e

-- With more fuel than the number of a header that is the first or follows a stored one, and with no
-- other header of its hash, the call succeeds and changes no canonical hash above the header, also
-- when the header takes over from a head with a higher number.
pub persist_header_above :
    (hash_of : BlockHeader → ℕ) (fuel : ℕ) (d : HeaderDb) (h : BlockHeader) (s : ℕ)
    → IsHeaderDb hash_of d
    → IsPlaced d h s
    → NoCollision hash_of d h
    → h.block_number < fuel
    → (new : List BlockHeader) × (d' : HeaderDb) × (persist_header hash_of fuel h d ≡ (ok new, d'))
      × ((n : ℕ)
          → h.block_number < n
          → get_canonical_block_hash d' n ≡ get_canonical_block_hash d n)
persist_header_above hash_of fuel d h s fine placed fresh enough =
    let (new, d', run, above) = chosen hash_of fuel d h s fine placed fresh enough in
    (
      new,
      d',
      persist_header-stored hash_of fuel h s d fine.store placed fresh ∙ run,
      λ n lt. get_canonical_block_hash-same d d' n (above n lt),
    )
