-- ===== src/Db/Header/Shape.antt =====
-- The header databases that are well formed.
use py_evm.Prelude.{ℕ, ◌≤◌, ◌≡◌, ◌⊎◌, inl, inr, none, some}
use py_evm.Headers.{BlockHeader}
use py_evm.Db.Dict.{Dict, lookup}
use py_evm.Db.Header.{HeaderDb, store_header, store_score}
use py_evm.Db.Header.Store.{Has, IsStore, IsPlaced, NoCollision, stored, Has-keeps}
use py_evm.Db.Header.Numbers.{IsLinked}

module _ (hash_of : BlockHeader → ℕ) where
  abbrev pub AreLinked : HeaderDb → Type 0
  AreLinked d =
      (n j : ℕ) → lookup n d.number_to_hash ≡ some j → IsLinked hash_of d d.number_to_hash n j

  pub record IsHead (d : HeaderDb) : Type 0 where
    pub key : ℕ
    pub head : BlockHeader
    pub score : ℕ
    pub canonical : d.canonical_head_hash ≡ some key
    pub has : Has d key head score
    pub best : (j t : ℕ) → lookup j d.scores ≡ some t → t ≤ score
    pub on : lookup head.block_number d.number_to_hash ≡ some key
    pub top : (n j : ℕ) → lookup n d.number_to_hash ≡ some j → n ≤ head.block_number

  pub record HasNoHead (d : HeaderDb) : Type 0 where
    pub no_head : d.canonical_head_hash ≡ none
    pub no_scores : (j : ℕ) → lookup j d.scores ≡ none
    pub no_numbers : (n : ℕ) → lookup n d.number_to_hash ≡ none

  -- Every header stands under its hash, above its parent, with the sum of the difficulties as its
  -- score; the canonical numbers lead down from a head of the highest score to the first block.
  pub record IsHeaderDb (d : HeaderDb) : Type 0 where
    pub store : IsStore hash_of d
    pub linked : AreLinked d
    pub head : HasNoHead d ⊎ IsHead d

  IsPlaced-same :
      (d e : HeaderDb) (h : BlockHeader) (s : ℕ)
      → d.headers ≡ e.headers
      → d.scores ≡ e.scores
      → IsPlaced d h s
      → IsPlaced e h s
  IsPlaced-same d e h s p q (inl first) = inl first
  IsPlaced-same d e h s p q (inr n) = inr record {
    not_first = n.not_first;
    parent = n.parent;
    parent_score = n.parent_score;
    has_parent = (rw (← p) n.has_parent.0, rw (← q) n.has_parent.1);
    number = n.number;
    score_sum = n.score_sum;
  }

  pub IsStore-same :
      (d e : HeaderDb)
      → d.headers ≡ e.headers
      → d.scores ≡ e.scores
      → IsStore hash_of d
      → IsStore hash_of e
  IsStore-same d e p q fine k h at =
      let entry = fine k h (rw p at) in
      record {
        at = entry.at;
        score = entry.score;
        has_score = rw (← q) entry.has_score;
        placed = IsPlaced-same d e h entry.score p q entry.placed;
      }

  pub IsLinked-keeps :
      (d e : HeaderDb) (numbers : Dict ℕ) (n k : ℕ)
      → ((j : ℕ) (p : BlockHeader) → lookup j d.headers ≡ some p → lookup j e.headers ≡ some p)
      → IsLinked hash_of d numbers n k
      → IsLinked hash_of e numbers n k
  IsLinked-keeps d e numbers n k keeps l = record {
    header = l.header;
    has_header = keeps k l.header l.has_header;
    number = l.number;
    below = l.below;
  }

  -- Stored headers stay linked when a header is stored.
  pub AreLinked-stored :
      (d : HeaderDb) (h : BlockHeader) (s : ℕ)
      → IsHeaderDb d
      → IsPlaced d h s
      → NoCollision hash_of d h
      → AreLinked (stored hash_of h s d)
  unfolding store_header store_score
  AreLinked-stored d h s fine placed fresh n j at =
      IsLinked-keeps d (stored hash_of h s d) d.number_to_hash n j
        (λ i p q.
          (Has-keeps hash_of d h s fine.store placed fresh i p (fine.store i p q).score
            (q, (fine.store i p q).has_score)).0)
        (fine.linked n j at)
