-- ===== src/Db/Header/Store.antt =====
-- The stored headers and their scores: what a new header keeps.
use py_evm.Prelude.{
  ℕ, ◌+◌, ◌≡◌, sym, ap, ◌∙◌, ◌≢◌, ◌⊎◌, inl, inr, false, Option, some, arith, ◌==◌, if◌then◌else◌,
  ==_iff, Bool-cases, some_inj,
}
use py_evm.Prelude.Exec.{ok}
use py_evm.Constants.{genesis_parent_hash}
use py_evm.Headers.{BlockHeader}
use py_evm.Db.Dict.{lookup, lookup-insert}
use py_evm.Db.Header.{HeaderDb, get_score, score_of, store_header, store_score}

abbrev pub Has : HeaderDb → ℕ → BlockHeader → ℕ → Type 0
Has d k h score = (lookup k d.headers ≡ some h) × (lookup k d.scores ≡ some score)

-- A header with its place: the first one, or the next one after a stored parent.
abbrev pub IsFirst : BlockHeader → ℕ → Type 0
IsFirst h score =
    (h.parent_hash ≡ genesis_parent_hash) × (h.block_number ≡ 0) × (score ≡ h.difficulty)

pub record IsNext (d : HeaderDb) (h : BlockHeader) (score : ℕ) : Type 0 where
  pub not_first : h.parent_hash ≢ genesis_parent_hash
  pub parent : BlockHeader
  pub parent_score : ℕ
  pub has_parent : Has d h.parent_hash parent parent_score
  pub number : h.block_number ≡ parent.block_number + 1
  pub score_sum : score ≡ parent_score + h.difficulty

abbrev pub IsPlaced : HeaderDb → BlockHeader → ℕ → Type 0
IsPlaced d h score = IsFirst h score ⊎ IsNext d h score

pub ==-false : (a b : ℕ) → a ≢ b → (a == b) ≡ false
==-false a b h = ground arith

pub lookup_unique : {A : Type 0} {o : Option A} (a b : A) → o ≡ some a → o ≡ some b → a ≡ b
lookup_unique a b p q = some_inj a b (sym p ∙ q)

pub IsPlaced-unique :
    (d : HeaderDb) (h : BlockHeader) (s t : ℕ) → IsPlaced d h s → IsPlaced d h t → s ≡ t
IsPlaced-unique d h s t (inl (p, _, e)) (inl (_, _, f)) = cc
IsPlaced-unique d h s t (inl (p, _, e)) (inr n) = absurd (n.not_first p)
IsPlaced-unique d h s t (inr n) (inl (p, _, e)) = absurd (n.not_first p)
IsPlaced-unique d h s t (inr n) (inr m) =
    let same = lookup_unique n.parent_score m.parent_score n.has_parent.1 m.has_parent.1 in
    omega (arith, n.score_sum, m.score_sum, same)

module _ (hash_of : BlockHeader → ℕ) where
  -- Every stored header stands under its hash, with its score.
  pub record IsEntry (d : HeaderDb) (k : ℕ) (h : BlockHeader) : Type 0 where
    pub at : hash_of h ≡ k
    pub score : ℕ
    pub has_score : lookup k d.scores ≡ some score
    pub placed : IsPlaced d h score

  abbrev pub IsStore : HeaderDb → Type 0
  IsStore d = (k : ℕ) (h : BlockHeader) → lookup k d.headers ≡ some h → IsEntry d k h

  abbrev pub NoCollision : HeaderDb → BlockHeader → Type 0
  NoCollision d h = (old : BlockHeader) → lookup (hash_of h) d.headers ≡ some old → old ≡ h

  abbrev pub stored : BlockHeader → ℕ → HeaderDb → HeaderDb
  unfolding store_header store_score
  stored h s d = store_score hash_of h s (store_header hash_of h d)

  module _ (d : HeaderDb) (h : BlockHeader) (s : ℕ) (fine : IsStore d) (placed : IsPlaced d h s)
      (fresh : NoCollision d h) where
    pub Has-stored : Has (stored h s d) (hash_of h) h s
    unfolding store_header store_score
    Has-stored = (
      lookup-insert (hash_of h) (hash_of h) h d.headers ∙ ground arith,
      lookup-insert (hash_of h) (hash_of h) s d.scores ∙ ground arith,
    )

    -- A stored header stays, with its score.
    pub Has-keeps : (k : ℕ) (p : BlockHeader) (t : ℕ) → Has d k p t → Has (stored h s d) k p t
    unfolding store_header store_score
    Has-keeps k p t (e, f) = elim (Bool-cases (hash_of h == k)) [
      | inl same ↦
          let at = (==_iff (hash_of h) k).0 same in
          let old = fresh p (ap (λ j. lookup j d.headers) at ∙ e) in
          let entry = fine k p e in
          let placed_here : IsPlaced d h entry.score = rw (← old) entry.placed in
          let score = IsPlaced-unique d h s entry.score placed placed_here in
          (
            lookup-insert (hash_of h) k h d.headers ∙ rw same (ap some (sym old)),
            lookup-insert (hash_of h) k s d.scores
                ∙ rw same (ap some score ∙ sym entry.has_score ∙ f),
          )
      | inr other ↦ (
        lookup-insert (hash_of h) k h d.headers ∙ rw other e,
        lookup-insert (hash_of h) k s d.scores ∙ rw other f,
      )
    ]

    IsPlaced-keeps : (p : BlockHeader) (t : ℕ) → IsPlaced d p t → IsPlaced (stored h s d) p t
    IsPlaced-keeps p t (inl first) = inl first
    IsPlaced-keeps p t (inr n) = inr record {
      not_first = n.not_first;
      parent = n.parent;
      parent_score = n.parent_score;
      has_parent = Has-keeps p.parent_hash n.parent n.parent_score n.has_parent;
      number = n.number;
      score_sum = n.score_sum;
    }

    pub IsStore-stored : IsStore (stored h s d)
    unfolding store_header store_score
    IsStore-stored k p e =
        let e' : (if hash_of h == k then some h else lookup k d.headers) ≡ some p =
          sym (lookup-insert (hash_of h) k h d.headers) ∙ e in
        elim (Bool-cases (hash_of h == k)) [
          | inl same ↦
              let at = (==_iff (hash_of h) k).0 same in
              let new = some_inj h p (rw same at e') in
              record {
                at = ap hash_of (sym new) ∙ at;
                score = s;
                has_score = lookup-insert (hash_of h) k s d.scores ∙ rw same;
                placed = rw (← new) (IsPlaced-keeps h s placed);
              }
          | inr other ↦
              let entry = fine k p (rw other at e') in
              record {
                at = entry.at;
                score = entry.score;
                has_score = lookup-insert (hash_of h) k s d.scores ∙ rw other entry.has_score;
                placed = IsPlaced-keeps p entry.score entry.placed;
              }
        ]

    -- The score that the code computes is the one of the header's place.
    pub score_of-stored : score_of h (store_header hash_of h d) ≡ ok s
    unfolding score_of store_header get_score
    score_of-stored = elim placed [
      | inl (first, _, e) ↦ rw ((==_iff h.parent_hash genesis_parent_hash).1 first, e)
      | inr next ↦ rw (
        ==-false h.parent_hash genesis_parent_hash next.not_first,
        next.has_parent.1,
        next.score_sum,
      )
    ]
