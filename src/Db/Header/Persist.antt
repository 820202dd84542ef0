-- ===== src/Db/Header/Persist.antt =====
-- A header is persisted: the database stays well formed, and its head has the highest score.
use py_evm.Prelude.{
  ℕ, ◌≤◌, ◌<◌, ◌≡◌, refl, sym, ap, ◌∙◌, inl, inr, some, List, [], reverse, arith, ltb, leb, ◌==◌,
  if◌then◌else◌, ltb→lt, leb→le, Bool-cases, none-some,
}
use py_evm.Prelude.Exec.{ok}
use py_evm.Headers.{BlockHeader}
use py_evm.Db.Dict.{lookup, lookup-insert}
use py_evm.Db.Header.{
  HeaderDb, get_canonical_head, get_score, set_as_canonical_chain_head, persist_header,
  store_header, store_score,
}
use py_evm.Db.Header.Store.{
  Has, IsStore, IsPlaced, NoCollision, stored, Has-stored, Has-keeps, IsStore-stored, lookup_unique,
}
use py_evm.Db.Header.Numbers.{
  Leads, find_new_ancestors-Leads, numbers_after, numbers_after-IsWritten,
}
use py_evm.Db.Header.Shape.{
  AreLinked, IsHead, HasNoHead, IsHeaderDb, IsStore-same, IsLinked-keeps, AreLinked-stored,
}
use py_evm.Db.Header.Steps.{
  after, set_as_canonical_chain_head_lem, choose_head-none, get_canonical_head-none,
  get_canonical_head-ok, get_score-ok, choose_head-some, persist_header-stored,
}

module _ (hash_of : BlockHeader → ℕ) where
  -- The header of the highest score becomes the head.
  module _ (fuel : ℕ) (d : HeaderDb) (h : BlockHeader) (s : ℕ) (fine : IsStore hash_of d)
      (linked : AreLinked hash_of d) (has : Has d (hash_of h) h s)
      (best : (j t : ℕ) → lookup j d.scores ≡ some t → t ≤ s)
      (top : (n j : ℕ) → lookup n d.number_to_hash ≡ some j → n ≤ h.block_number)
      (enough : h.block_number < fuel) where
    IsHeaderDb-after :
        (hs : List BlockHeader)
        → Leads hash_of d h hs
        → IsHeaderDb hash_of
            (after hash_of d (hash_of h) (numbers_after hash_of hs d.number_to_hash))
    IsHeaderDb-after hs leads =
        let w = numbers_after-IsWritten hash_of d h (hash_of h) hs fine linked has.0 leads in
        let numbers = numbers_after hash_of hs d.number_to_hash in
        let low : ((n j : ℕ) → lookup n numbers ≡ some j → n ≤ h.block_number) = λ n j e.
          elim (Bool-cases (leb n h.block_number)) [
            | inl le ↦ leb→le n h.block_number le
            | inr gt ↦ top n j (sym (w.above n (ground arith)) ∙ e)
          ] in
        record {
          store = IsStore-same hash_of d (after hash_of d (hash_of h) numbers) refl refl fine;
          linked = λ n j e.
              IsLinked-keeps hash_of d (after hash_of d (hash_of h) numbers) numbers n j
                (λ i p q. q) (w.up_to n j (low n j e) e);
          head = inr record {
            key = hash_of h;
            head = h;
            score = s;
            canonical = refl;
            has = has;
            best = best;
            on = w.head;
            top = low;
          };
        }

    becomes_head :
        (new : List BlockHeader) × (d' : HeaderDb) × (set_as_canonical_chain_head hash_of fuel
            (hash_of h)
            d
          ≡ (ok new, d'))
        × IsHeaderDb hash_of d'
        × Has d' (hash_of h) h s
    becomes_head =
        let (hs, run, leads) =
          find_new_ancestors-Leads hash_of fuel d h (hash_of h) fine has.0 enough in
        (
          reverse hs,
          after hash_of d (hash_of h) (numbers_after hash_of hs d.number_to_hash),
          set_as_canonical_chain_head_lem hash_of fuel d h hs has.0 run,
          IsHeaderDb-after hs leads,
          has,
        )

  -- The header does not take over from a head with a higher number.
  abbrev pub TakesOverUpwards : HeaderDb → BlockHeader → ℕ → Type 0
  TakesOverUpwards d h s =
      (head : BlockHeader) (t : ℕ)
      → get_canonical_head d ≡ ok head
      → get_score d (hash_of head) ≡ ok t
      → t < s
      → head.block_number ≤ h.block_number

  module _ (fuel : ℕ) (d : HeaderDb) (h : BlockHeader) (s : ℕ) (fine : IsHeaderDb hash_of d)
      (placed : IsPlaced d h s) (fresh : NoCollision hash_of d h) (enough : h.block_number < fuel)
      (upwards : TakesOverUpwards d h s) where
    abbrev e : HeaderDb
    e = stored hash_of h s d

    best_e :
        (b : ℕ)
        → s ≤ b
        → ((j t : ℕ) → lookup j d.scores ≡ some t → t ≤ b)
        → (j t : ℕ) → lookup j e.scores ≡ some t
        → t ≤ b
    unfolding store_header store_score
    best_e b le best j t at =
        let at' : (if hash_of h == j then some s else lookup j d.scores) ≡ some t =
          sym (lookup-insert (hash_of h) j s d.scores) ∙ at in
        elim (Bool-cases (hash_of h == j)) [
          | inl same ↦ omega (arith, lookup_unique s t refl (rw same at at'))
          | inr other ↦ best j t (rw other at at')
        ]

    abbrev Persisted : Type 0
    Persisted =
        (new : List BlockHeader) × (d' : HeaderDb) × (persist_header hash_of fuel h d
          ≡ (ok new, d'))
        × IsHeaderDb hash_of d'
        × Has d' (hash_of h) h s

    e-IsStore : IsStore hash_of e
    e-IsStore = IsStore-stored hash_of d h s fine.store placed fresh

    e-Has : Has e (hash_of h) h s
    e-Has = Has-stored hash_of d h s fine.store placed fresh

    first_head : HasNoHead hash_of d → Persisted
    unfolding store_header store_score
    first_head absent =
        let (new, d', run, whole, has) =
          becomes_head fuel e h s e-IsStore (AreLinked-stored hash_of d h s fine placed fresh) e-Has
            (best_e s (omega arith)
              (λ j t at. absurd (none-some _ (sym (absent.no_scores j) ∙ at))))
            (λ n j at. absurd (none-some _ (sym (absent.no_numbers n) ∙ at))) enough in
        (
          new,
          d',
          persist_header-stored hash_of fuel h s d fine.store placed fresh
              ∙ choose_head-none hash_of fuel h s e
                  (get_canonical_head-none hash_of e absent.no_head)
              ∙ run,
          whole,
          has,
        )

    -- The header is compared with the head.
    next_head : IsHead hash_of d → Persisted
    unfolding store_header store_score
    next_head old =
        let old_entry = fine.store old.key old.head old.has.0 in
        let old_has =
          Has-keeps hash_of d h s fine.store placed fresh old.key old.head old.score old.has in
        let head_e = get_canonical_head-ok hash_of e old.key old.head old.canonical old_has.0 in
        let start =
          persist_header-stored hash_of fuel h s d fine.store placed fresh
          ∙ choose_head-some hash_of fuel h s e old.head old.score head_e
              (ap (λ k. lookup k e.scores) old_entry.at ∙ old_has.1) in
        elim (Bool-cases (ltb old.score s)) [
          | inl better ↦
              let lt = ltb→lt old.score s better in
              let up =
                upwards old.head old.score
                  (get_canonical_head-ok hash_of d old.key old.head old.canonical old.has.0)
                  (get_score-ok hash_of d old.head old.score
                    (ap (λ k. lookup k d.scores) old_entry.at ∙ old.has.1))
                  lt in
              let (new, d', run, whole, has) =
                becomes_head fuel e h s e-IsStore (AreLinked-stored hash_of d h s fine placed fresh)
                  e-Has (best_e s (omega arith) (λ j t at. omega (arith, old.best j t at)))
                  (λ n j at. omega (arith, old.top n j at)) enough in
              (new, d', start ∙ rw better run, whole, has)
          | inr worse ↦ (
            [],
            e,
            start ∙ rw worse,
            record {
              store = e-IsStore;
              linked = (AreLinked-stored hash_of d h s fine placed fresh);
              head = inr record {
                key = old.key;
                head = old.head;
                score = old.score;
                canonical = old.canonical;
                has = old_has;
                best = best_e old.score (ground arith) old.best;
                on = old.on;
                top = old.top;
              };
            },
            e-Has,
          )
        ]

  -- A header that is the first or follows a stored one is persisted.
  pub persist_header-IsHeaderDb :
      (fuel : ℕ) (d : HeaderDb) (h : BlockHeader) (s : ℕ)
      → IsHeaderDb hash_of d
      → IsPlaced d h s
      → NoCollision hash_of d h
      → h.block_number < fuel
      → TakesOverUpwards d h s
      → (new : List BlockHeader) × (d' : HeaderDb) × (persist_header hash_of fuel h d
          ≡ (ok new, d'))
        × IsHeaderDb hash_of d'
        × Has d' (hash_of h) h s
  persist_header-IsHeaderDb fuel d h s fine placed fresh enough upwards = elim fine.head [
    | inl absent ↦ first_head fuel d h s fine placed fresh enough upwards absent
    | inr old ↦ next_head fuel d h s fine placed fresh enough upwards old
  ]
