-- ===== src/Db/Journal/Restores.antt =====
-- Discarding a changeset takes back all that was done since it was recorded.
use py_evm.Prelude.{
  ℕ, ◌≡◌, refl, sym, ap, ◌∙◌, ◌≢◌, ◌⊎◌, inl, inr, true, false, ◌||◌, some, List, [], ◌∷◌, ◌++◌,
  arith, All, ◌==◌, Bool-cases,
}
use py_evm.Prelude.Exec.{ok}
use py_evm.Db.Dict.{Dict, insert, merge}
use py_evm.Db.Database.{Database}
use py_evm.Db.Journal.{
  Entry, written, deleted, Journal, JournalDb, has_changeset, record_changeset, pop_changeset,
  merge_latest, commit_changeset, journal_set, put, remove, record_state, discard, settle, commit,
}

-- What a caller does between a record and the discard.
pub data Change (V : Type 0) : Type 0 where
  set_key : ℕ → V → Change V
  delete_key : ℕ → Change V
  record_id : ℕ → Change V
  discard_id : ℕ → Change V
  commit_id : ℕ → ℕ → Change V

module _ {V : Type 0} where
  -- The changeset `id` over the changesets `below`, and later ones over it.
  record IsAbove (id : ℕ) (below j : Journal V) : Type 0 where
    later : Journal V
    own : Dict (Entry V)
    shape : j ≡ later ++ (id, own) ∷ below
    once : has_changeset id later ≡ false

  has_changeset-append :
      (i : ℕ) (xs ys : Journal V)
      → has_changeset i (xs ++ ys) ≡ (has_changeset i xs || has_changeset i ys)
  unfolding has_changeset
  has_changeset-append i [] ys = refl
  has_changeset-append i ((k, d) ∷ xs) ys = ground (arith, has_changeset-append i xs ys)

  pop_own :
      (id : ℕ) (later below : Journal V) (own : Dict (Entry V))
      → has_changeset id later ≡ false
      → (changes : Dict (Entry V)) × (pop_changeset id (later ++ (id, own) ∷ below)
          ≡ some (changes, below))
  unfolding pop_changeset has_changeset
  pop_own id [] below own h = (own, ground arith)
  pop_own id ((i, d) ∷ later) below own h =
      let (changes, e) = pop_own id later below own (ground arith) in
      (merge changes d, rw e (ground arith))

  record_once :
      (i id : ℕ) (later : Journal V)
      → i ≢ id
      → has_changeset id later ≡ false
      → has_changeset id ((i, []) ∷ later) ≡ false
  unfolding has_changeset
  record_once i id later n h = ground arith

  own_there :
      (id : ℕ) (later : Journal V) (own : Dict (Entry V)) (below : Journal V)
      → (has_changeset id later || has_changeset id ((id, own) ∷ below)) ≡ true
  unfolding has_changeset
  own_there id later own below = ground arith

  nonempty :
      (later : Journal V) (c : ℕ × Dict (Entry V)) (below : Journal V) → [] ≢ (later ++ c ∷ below)
  nonempty [] c below h = cc
  nonempty (d ∷ later) c below h = cc

  -- A pop of a later changeset leaves `id` where it is.
  pop_later :
      (i id : ℕ) (later tail : Journal V)
      → has_changeset i later ≡ true
      → has_changeset id later ≡ false
      → (changes : Dict (Entry V)) × (rest : Journal V) × (pop_changeset i (later ++ tail)
          ≡ some (changes, rest ++ tail))
        × (has_changeset id rest ≡ false)
  unfolding pop_changeset has_changeset
  pop_later i id [] tail h k = cc
  pop_later i id ((n, d) ∷ later) tail h k = elim (Bool-cases (n == i)) [
    | inl here ↦ (d, later, rw here, ground arith)
    | inr not_here ↦
        let (changes, rest, e, f) = pop_later i id later tail (ground arith) (ground arith) in
        (merge changes d, rest, rw (not_here, e), f)
  ]

  IsAbove-set :
      (k : ℕ) (e : Entry V) (id : ℕ) (below : Journal V) (j : Journal V)
      → IsAbove id below j
      → IsAbove id below (journal_set k e j)
  unfolding journal_set has_changeset
  IsAbove-set k e id below j a = go a.later a.own a.once a.shape
    where
      go :
          (later : Journal V) (own : Dict (Entry V))
          → has_changeset id later ≡ false
          → j ≡ later ++ (id, own) ∷ below
          → IsAbove id below (journal_set k e j)
      go [] own h s = record { later = []; own = insert k e own; shape = rw s; once = refl }
      go ((i, d) ∷ later) own h s = record {
        later = (i, insert k e d) ∷ later;
        own = own;
        shape = rw s;
        once = h;
      }

  IsAbove-record :
      (i id : ℕ) (below j : Journal V)
      → i ≢ id
      → IsAbove id below j
      → IsAbove id below (record_changeset i j)
  unfolding record_changeset
  IsAbove-record i id below j n a = record {
    later = (i, []) ∷ a.later;
    own = a.own;
    shape = ap (λ l. (i, []) ∷ l) a.shape;
    once = record_once i id a.later n a.once;
  }

  IsAbove-merge :
      (changes : Dict (Entry V)) (id : ℕ) (below : Journal V) (later : Journal V)
      (own : Dict (Entry V))
      → has_changeset id later ≡ false
      → IsAbove id below (merge_latest changes (later ++ (id, own) ∷ below))
  unfolding merge_latest has_changeset
  IsAbove-merge changes id below [] own h = record {
    later = [];
    own = merge own changes;
    shape = refl;
    once = refl;
  }
  IsAbove-merge changes id below ((i, d) ∷ later) own h = record {
    later = (i, merge d changes) ∷ later;
    own = own;
    shape = refl;
    once = h;
  }

  -- The ids that a change names are neither `id` nor ids below it.
  abbrev pub Spares : ℕ → Journal V → Change V → Type 0
  Spares id below (set_key k v) = Unit
  Spares id below (delete_key k) = Unit
  Spares id below (record_id i) = i ≢ id
  Spares id below (discard_id i) = (i ≢ id) × (has_changeset i below ≡ false)
  Spares id below (commit_id fresh i) = (i ≢ id) × (has_changeset i below ≡ false)

module _ {D V : Type 0} (db : Database D V) where
  -- A change, whether it raises or not.
  abbrev pub change : Change V → JournalDb D V → JournalDb D V
  change (set_key k v) s = (put db k v s).1
  change (delete_key k) s = (remove db k s).1
  change (record_id i) s = record_state db i s
  change (discard_id i) s = (discard db i s).1
  change (commit_id fresh i) s = (commit db fresh i s).1

  abbrev pub changes : List (Change V) → JournalDb D V → JournalDb D V
  changes [] s = s
  changes (c ∷ cs) s = changes cs (change c s)

  module _ (id : ℕ) (start : JournalDb D V) where
    record Holds (s : JournalDb D V) : Type 0 where
      same_db : s.wrapped_db ≡ start.wrapped_db
      above : IsAbove id start.journal s.journal

    Holds-set :
        (k : ℕ) (e : Entry V) (s : JournalDb D V)
        → Holds s
        → Holds (record s { journal = journal_set k e s.journal })
    Holds-set k e s h = record {
      same_db = h.same_db;
      above = IsAbove-set k e id start.journal s.journal h.above;
    }

    keep_or_delete :
        (k : ℕ) (s : JournalDb D V)
        → ((remove db k s).1 ≡ s)
          ⊎ ((remove db k s).1 ≡ record s { journal = journal_set k deleted s.journal })
    unfolding remove
    keep_or_delete k s = ground arith

    keep_or_put :
        (k : ℕ) (v : V) (s : JournalDb D V)
        → ((put db k v s).1 ≡ s)
          ⊎ ((put db k v s).1 ≡ record s { journal = journal_set k (written v) s.journal })
    unfolding put
    keep_or_put k v s = ground arith

    -- What pops to the changesets over `id` leaves `id` above.
    known_later :
        (i : ℕ) (s : JournalDb D V) (h : Holds s)
        → i ≢ id
        → has_changeset i start.journal ≡ false
        → has_changeset i s.journal ≡ true
        → has_changeset i h.above.later ≡ true
    unfolding has_changeset
    known_later i s h n below known =
        let split = has_changeset-append i h.above.later ((id, h.above.own) ∷ start.journal) in
        let whole = sym (ap (has_changeset i) h.above.shape) ∙ known in
        grind (arith, split, whole, n, below)

    Holds-discard :
        (i : ℕ) (s : JournalDb D V)
        → i ≢ id
        → has_changeset i start.journal ≡ false
        → Holds s
        → Holds (discard db i s).1
    unfolding discard
    Holds-discard i s n below h = elim (Bool-cases (has_changeset i s.journal)) [
      | inr unknown ↦ rw unknown h
      | inl known ↦
          let (changes, rest, e, f) =
            pop_later i id h.above.later ((id, h.above.own) ∷ start.journal)
              (known_later i s h n below known) h.above.once in
          let popped = ap (pop_changeset i) h.above.shape ∙ e in
          rw (known, popped)
            (record {
              same_db = h.same_db;
              above = record { later = rest; own = h.above.own; shape = refl; once = f };
            })
    ]

    Holds-settle :
        (fresh : ℕ) (changes : Dict (Entry V)) (s : JournalDb D V) (rest : Journal V)
        → s.wrapped_db ≡ start.wrapped_db
        → IsAbove id start.journal rest
        → Holds (settle db fresh changes rest s)
    unfolding settle
    Holds-settle fresh changes s [] same a =
        absurd (nonempty a.later (id, a.own) start.journal a.shape)
    Holds-settle fresh changes s (c ∷ rest) same a = record { same_db = same; above = a }

    Holds-commit :
        (fresh i : ℕ) (s : JournalDb D V)
        → i ≢ id
        → has_changeset i start.journal ≡ false
        → Holds s
        → Holds (commit db fresh i s).1
    unfolding commit commit_changeset
    Holds-commit fresh i s n below h = elim (Bool-cases (has_changeset i s.journal)) [
      | inr unknown ↦ rw unknown h
      | inl known ↦
          let (changes, rest, e, f) =
            pop_later i id h.above.later ((id, h.above.own) ∷ start.journal)
              (known_later i s h n below known) h.above.once in
          let popped = ap (pop_changeset i) h.above.shape ∙ e in
          rw (known, popped)
            (Holds-settle fresh changes s
              (merge_latest changes (rest ++ (id, h.above.own) ∷ start.journal)) h.same_db
              (IsAbove-merge changes id start.journal rest h.above.own f))
    ]

    Holds-change :
        (c : Change V) (s : JournalDb D V)
        → Spares id start.journal c
        → Holds s
        → Holds (change c s)
    unfolding record_state
    Holds-change (set_key k v) s n h = elim (keep_or_put k v s) [
      | inl kept ↦ rw kept h
      | inr set_there ↦ rw set_there (Holds-set k (written v) s h)
    ]
    Holds-change (delete_key k) s n h = elim (keep_or_delete k s) [
      | inl kept ↦ rw kept h
      | inr gone ↦ rw gone (Holds-set k deleted s h)
    ]
    Holds-change (record_id i) s n h = record {
      same_db = h.same_db;
      above = IsAbove-record i id start.journal s.journal n h.above;
    }
    Holds-change (discard_id i) s (n, below) h = Holds-discard i s n below h
    Holds-change (commit_id fresh i) s (n, below) h = Holds-commit fresh i s n below h

    Holds-changes :
        (cs : List (Change V)) (s : JournalDb D V)
        → All (Spares id start.journal) cs
        → Holds s
        → Holds (changes cs s)
    Holds-changes [] s n h = h
    Holds-changes (c ∷ cs) s (n, ns) h = Holds-changes cs (change c s) ns (Holds-change c s n h)

    Holds-record : Holds (record_state db id start)
    unfolding record_state record_changeset has_changeset
    Holds-record = record {
      same_db = refl;
      above = record { later = []; own = []; shape = refl; once = refl };
    }

    discard-Holds : (s : JournalDb D V) → Holds s → discard db id s ≡ (ok tt, start)
    unfolding discard
    discard-Holds s h =
        let (changes, e) = pop_own id h.above.later start.journal h.above.own h.above.once in
        let popped = ap (pop_changeset id) h.above.shape ∙ e in
        let known : has_changeset id s.journal ≡ true =
          ap (has_changeset id) h.above.shape
          ∙ has_changeset-append id h.above.later ((id, h.above.own) ∷ start.journal)
          ∙ own_there id h.above.later h.above.own start.journal in
        rw (known, popped, h.same_db) refl

  -- Whatever writes, deletes, records, discards and commits come after a record of the changeset
  -- `id`, so long as none of them names `id` or a changeset below it, also when some raise: the
  -- discard of `id` succeeds and gives back the whole `JournalDB` as it was before the record.
  pub discard_restores :
      (id : ℕ) (s : JournalDb D V) (cs : List (Change V))
      → All (Spares id s.journal) cs
      → discard db id (changes cs (record_state db id s)) ≡ (ok tt, s)
  discard_restores id s cs spared =
      discard-Holds id s (changes cs (record_state db id s))
        (Holds-changes id s cs (record_state db id s) spared (Holds-record id s))

  -- Nor do they write to the wrapped database.
  pub changes-wrapped_db :
      (id : ℕ) (s : JournalDb D V) (cs : List (Change V))
      → All (Spares id s.journal) cs
      → (changes cs (record_state db id s)).wrapped_db ≡ s.wrapped_db
  changes-wrapped_db id s cs spared =
      (Holds-changes id s cs (record_state db id s) spared (Holds-record id s)).same_db

  pub changes-append :
      (xs ys : List (Change V)) (s : JournalDb D V)
      → changes (xs ++ ys) s ≡ changes ys (changes xs s)
  changes-append [] ys s = refl
  changes-append (x ∷ xs) ys s = changes-append xs ys (change x s)
