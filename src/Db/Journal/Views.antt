-- ===== src/Db/Journal/Views.antt =====
-- What a reader of a `JournalDB` sees: writes, and that commits change nothing of it.
use py_evm.Prelude.{
  false, ℕ, ◌≡◌, refl, sym, ap, ◌∙◌, ◌≢◌, inl, inr, true, none, some, [], ◌∷◌, arith, ◌==◌,
  if◌then◌else◌, Bool-cases, Option-cases,
}
use py_evm.Prelude.Exec.{ok, err}
use py_evm.Exceptions.{validation_error}
use py_evm.Db.Dict.{Dict, lookup, merge, first_some, lookup-insert, lookup-merge}
use py_evm.Db.Database.{Database, get-delete}
use py_evm.Db.Journal.{
  Entry, written, deleted, Journal, JournalDb, has_changeset, is_empty, pop_changeset, merge_latest,
  commit_changeset, journal_get, journal_set, resolve, get, put, remove, write_changes, settle,
  commit, open_journal, exists, is_some, journal_exists,
}

module _ {V : Type 0} where
  journal_get-cons :
      (i : ℕ) (d : Dict (Entry V)) (rest : Journal V) (k : ℕ)
      → journal_get ((i, d) ∷ rest) k ≡ first_some (lookup k d) (journal_get rest k)
  unfolding journal_get
  journal_get-cons i d rest k = ground arith

  pub journal_get-journal_set :
      (k j : ℕ) (e : Entry V) (l : Journal V)
      → l ≢ []
      → journal_get (journal_set k e l) j ≡ (if k == j then some e else journal_get l j)
  unfolding journal_get journal_set
  journal_get-journal_set k j e [] h = absurd (h refl)
  journal_get-journal_set k j e ((i, d) ∷ rest) h = ground (arith, lookup-insert k j e d)

  pub not_empty : (l : Journal V) → l ≢ [] → is_empty l ≡ false
  unfolding is_empty
  not_empty [] h = absurd (h refl)
  not_empty (_ ∷ _) h = refl

  pub pop_changeset_known :
      (id : ℕ) (l : Journal V)
      → has_changeset id l ≡ true
      → (changes : Dict (Entry V)) × (rest : Journal V) × (pop_changeset id l
          ≡ some (changes, rest))
  unfolding has_changeset pop_changeset
  pop_changeset_known id [] h = cc
  pop_changeset_known id ((i, d) ∷ rest) h = elim (Bool-cases (i == id)) [
    | inl here ↦ (d, rest, rw here)
    | inr later ↦
        let (changes, r, e) = pop_changeset_known id rest (ground arith) in
        (merge changes d, r, rw (later, e))
  ]

  pub journal_get-pop :
      (id : ℕ) (l : Journal V) (changes : Dict (Entry V)) (rest : Journal V) (k : ℕ)
      → pop_changeset id l ≡ some (changes, rest)
      → journal_get l k ≡ first_some (lookup k changes) (journal_get rest k)
  unfolding pop_changeset
  journal_get-pop id [] changes rest k h = cc
  journal_get-pop id ((i, d) ∷ r) changes rest k h = elim (Option-cases (pop_changeset id r)) [
    | inl gone ↦ ground (arith, journal_get-cons i d r k)
    | inr (p, later) ↦ ground (
      arith,
      journal_get-cons i d r k,
      lookup-merge k p.0 d,
      journal_get-pop id r p.0 p.1 k later,
    )
  ]

  journal_get-merge_latest :
      (changes : Dict (Entry V)) (i : ℕ) (d : Dict (Entry V)) (rest : Journal V) (k : ℕ)
      → journal_get (merge_latest changes ((i, d) ∷ rest)) k
        ≡ first_some (lookup k changes) (journal_get ((i, d) ∷ rest) k)
  unfolding merge_latest journal_get
  journal_get-merge_latest changes i d rest k = ground (arith, lookup-merge k d changes)

module _ {D V : Type 0} (db : Database D V) where
  get-write_changes :
      (changes : Dict (Entry V)) (d : D) (k : ℕ)
      → db.get (write_changes db changes d) k ≡ resolve (lookup k changes) (db.get d k)
  unfolding write_changes lookup
  get-write_changes [] d k = refl
  get-write_changes ((j, written v) ∷ changes) d k =
      ground (arith, db.get-put j k v (write_changes db changes d), get-write_changes changes d k)
  get-write_changes ((j, deleted) ∷ changes) d k =
      ground (arith, get-delete db j k (write_changes db changes d), get-write_changes changes d k)

  -- With a changeset a write succeeds, a read after it gives the written value, and every other key
  -- is as before.
  pub get-put_lem :
      (k j : ℕ) (v : V) (s : JournalDb D V)
      → s.journal ≢ []
      → ((put db k v s).0 ≡ ok tt)
        × (get db (put db k v s).1 j ≡ (if k == j then some v else get db s j))
  unfolding get put
  get-put_lem k j v s h =
      rw (not_empty s.journal h, put)
        (refl, rw (journal_get-journal_set k j (written v) s.journal h) (ground arith))

  -- With a changeset, after a delete that was accepted the key is missing, and every other key is as
  -- before.
  pub get-remove_lem :
      (k j : ℕ) (s : JournalDb D V)
      → s.journal ≢ []
      → (remove db k s).0 ≡ ok tt
      → get db (remove db k s).1 j ≡ (if k == j then none else get db s j)
  unfolding get remove
  get-remove_lem k j s h done =
      ground (arith, journal_get-journal_set k j deleted s.journal h, not_empty s.journal h)

  -- With a changeset, after a delete that was accepted a read finds no value, yet the key still exists
  -- if it does in the wrapped database.
  pub exists-remove_lem :
      (k : ℕ) (s : JournalDb D V)
      → s.journal ≢ []
      → (remove db k s).0 ≡ ok tt
      → (get db (remove db k s).1 k ≡ none)
        × (exists db (remove db k s).1 k ≡ is_some (db.get s.wrapped_db k))
  unfolding get exists remove journal_exists
  exists-remove_lem k s h done =
      let entry = journal_get-journal_set k k deleted s.journal h in
      let there = not_empty s.journal h in
      (ground (arith, entry, there), ground (arith, entry, there))

  get-settle :
      (fresh : ℕ) (changes : Dict (Entry V)) (rest : Journal V) (s : JournalDb D V) (k : ℕ)
      → get db (settle db fresh changes (merge_latest changes rest) s) k
        ≡ resolve (first_some (lookup k changes) (journal_get rest k)) (db.get s.wrapped_db k)
  unfolding get settle open_journal merge_latest lookup journal_get
  get-settle fresh changes [] s k = ground (arith, get-write_changes changes s.wrapped_db k)
  get-settle fresh changes ((i, d) ∷ rest) s k =
      ground (arith, journal_get-merge_latest changes i d rest k, journal_get-cons i d rest k)

  commit_known :
      (fresh id : ℕ) (s : JournalDb D V) (changes : Dict (Entry V)) (rest : Journal V)
      → has_changeset id s.journal ≡ true
      → pop_changeset id s.journal ≡ some (changes, rest)
      → commit db fresh id s ≡ (ok tt, settle db fresh changes (merge_latest changes rest) s)
  unfolding commit commit_changeset
  commit_known fresh id s changes rest known popped = rw (known, popped, commit, commit_changeset)

  -- A commit of a changeset that the journal has succeeds and changes no read, also when it is the base
  -- changeset and all goes to the wrapped database; a commit of another raises and changes no read.
  pub get-commit :
      (fresh id : ℕ) (s : JournalDb D V) (k : ℕ)
      → ((commit db fresh id s).0
          ≡ (if has_changeset id s.journal then ok tt else err validation_error))
        × (get db (commit db fresh id s).1 k ≡ get db s k)
  unfolding commit get commit_changeset
  get-commit fresh id s k = elim (Bool-cases (has_changeset id s.journal)) [
    | inl known ↦
        let (changes, rest, popped) = pop_changeset_known id s.journal known in
        let same : journal_get s.journal k ≡ first_some (lookup k changes) (journal_get rest k) =
          journal_get-pop id s.journal changes rest k popped in
        rw (commit_known fresh id s changes rest known popped) (
          rw known,
          get-settle fresh changes rest s k
              ∙ ap (λ e. resolve e (db.get s.wrapped_db k)) (sym same),
        )
    | inr unknown ↦ rw (unknown, commit) (refl, refl)
  ]
