-- ===== src/Db/Journal.antt =====
-- evm/db/journal.py: `class Journal` and `class JournalDB`, over any database.
pub mod Views
pub mod Restores
use py_evm.Prelude.{
  ℕ, Bool, true, false, ◌&&◌, ◌||◌, not, Option, none, some, List, [], ◌∷◌, ◌==◌, if◌then◌else◌,
}
use py_evm.Prelude.Exec.{ok, err, Exec}
use py_evm.Exceptions.{Exception, key_error, index_error, validation_error}
use py_evm.Db.Dict.{Dict, lookup, insert, merge}
use py_evm.Db.Database.{Database, delete}

-- A journal entry: a written value, or DELETED_ENTRY.
pub data Entry (V : Type 0) : Type 0 where
  written : V → Entry V
  deleted : Entry V

-- The ordered dict of changesets by their ids, the latest one first. The ids are random uuids in the
-- program; here the caller chooses them.
abbrev pub Journal : Type 0 → Type 0
Journal V = List (ℕ × Dict (Entry V))

module _ {V : Type 0} where
  -- `Journal.has_changeset`
  unfoldable pub has_changeset : ℕ → Journal V → Bool
  has_changeset id [] = false
  has_changeset id ((i, d) ∷ rest) = i == id || has_changeset id rest

  -- `Journal.record_changeset`
  unfoldable pub record_changeset : ℕ → Journal V → Journal V
  record_changeset id j = (id, []) ∷ j

  add_later : Dict (Entry V) → Dict (Entry V) × Journal V → Dict (Entry V) × Journal V
  add_later d (e, rest) = (merge e d, rest)

  -- `Journal.pop_changeset`: the changes from the changeset on, later ones first in rank, and the
  -- changesets before it. `none` is the `KeyError`.
  unfoldable pub pop_changeset : ℕ → Journal V → Option (Dict (Entry V) × Journal V)
  unfolding add_later
  pop_changeset id [] = none
  pop_changeset id ((i, d) ∷ rest) =
      let later = pop_changeset id rest in
      if i == id then some (d, rest) else elim later [ none ↦ none | some p ↦ some (add_later d p) ]

  merge_latest : Dict (Entry V) → Journal V → Journal V
  merge_latest changes [] = []
  merge_latest changes ((i, d) ∷ rest) = (i, merge d changes) ∷ rest

  -- `Journal.commit_changeset`
  unfoldable pub commit_changeset : ℕ → Journal V → Option (Dict (Entry V) × Journal V)
  unfolding merge_latest
  commit_changeset id j = elim (pop_changeset id j) [
    | none ↦ none
    | some (changes, rest) ↦ some (changes, merge_latest changes rest)
  ]

  -- `Journal.__getitem__`: the latest changeset that has the key.
  unfoldable pub journal_get : Journal V → ℕ → Option (Entry V)
  journal_get [] k = none
  journal_get ((i, d) ∷ rest) k =
      let older = journal_get rest k in elim (lookup k d) [ some e ↦ some e | none ↦ older ]

  -- `Journal.is_empty`
  unfoldable pub is_empty : Journal V → Bool
  is_empty [] = true
  is_empty (_ ∷ _) = false

  -- `self.latest[key] = value`. Without a changeset `last` raises, which the callers below write out.
  unfoldable pub journal_set : ℕ → Entry V → Journal V → Journal V
  journal_set k e [] = []
  journal_set k e ((i, d) ∷ rest) = (i, insert k e d) ∷ rest

  -- `Journal._exists`
  unfoldable pub journal_exists : Journal V → ℕ → Bool
  unfolding journal_get
  journal_exists j k = elim (journal_get j k) [ some (written _) ↦ true | _ ↦ false ]

pub record JournalDb (D V : Type 0) : Type 0 where
  pub wrapped_db : D
  pub journal : Journal V

abbrev pub is_some {ℓ} : {A : Type ℓ} → Option A → Bool
is_some none = false
is_some (some _) = true

module _ {V : Type 0} where
  -- The value that an entry of the journal stands for, over that of the wrapped database.
  abbrev pub resolve : Option (Entry V) → Option V → Option V
  resolve none below = below
  resolve (some (written v)) below = some v
  resolve (some deleted) below = none

module _ {D V : Type 0} (db : Database D V) where
  -- `JournalDB.__init__`
  unfoldable pub open_journal : ℕ → D → JournalDb D V
  open_journal id wrapped_db = record { wrapped_db = wrapped_db; journal = (id, []) ∷ [] }

  -- `JournalDB.__getitem__`; `none` is the `KeyError`.
  unfoldable pub get : JournalDb D V → ℕ → Option V
  unfolding journal_get
  get s k = resolve (journal_get s.journal k) (db.get s.wrapped_db k)

  -- `JournalDB.__setitem__`
  unfoldable pub put : ℕ → V → Exec Exception (JournalDb D V) Unit
  unfolding is_empty journal_set
  put k v s =
      if is_empty s.journal
      then (err index_error, s)
      else (ok tt, record s { journal = journal_set k (written v) s.journal })

  -- `JournalDB._exists`
  unfoldable pub exists : JournalDb D V → ℕ → Bool
  unfolding journal_exists
  exists s k = journal_exists s.journal k || is_some (db.get s.wrapped_db k)

  -- `JournalDB.__delitem__`
  unfoldable pub remove : ℕ → Exec Exception (JournalDb D V) Unit
  unfolding journal_exists is_empty journal_set
  remove k s =
      if not (journal_exists s.journal k) && not (is_some (db.get s.wrapped_db k))
      then (err key_error, s)
      else if is_empty s.journal
      then (err index_error, s)
      else (ok tt, record s { journal = journal_set k deleted s.journal })

  -- `JournalDB.record`
  unfoldable pub record_state : ℕ → JournalDb D V → JournalDb D V
  unfolding record_changeset
  record_state id s = record s { journal = record_changeset id s.journal }

  -- `JournalDB.discard`
  unfoldable pub discard : ℕ → Exec Exception (JournalDb D V) Unit
  discard id s =
      if not (has_changeset id s.journal)
      then (err validation_error, s)
      else elim (pop_changeset id s.journal) [
        | none ↦ (err key_error, s)
        | some (changes, rest) ↦ (ok tt, record s { journal = rest })
      ]

  write_entry : ℕ → Entry V → D → D
  unfolding delete
  write_entry k (written v) d = db.put k v d
  write_entry k deleted d = delete db k d

  -- The loop of `commit` over the changes. The keys of a dict differ, so the order does not matter.
  unfoldable pub write_changes : Dict (Entry V) → D → D
  unfolding write_entry
  write_changes [] d = d
  write_changes ((k, e) ∷ changes) d = write_entry k e (write_changes changes d)

  settle : ℕ → Dict (Entry V) → Journal V → JournalDb D V → JournalDb D V
  unfolding write_changes open_journal
  settle fresh changes [] s = open_journal fresh (write_changes changes s.wrapped_db)
  settle fresh changes (c ∷ rest) s = record s { journal = c ∷ rest }

  -- `JournalDB.commit`: the base changeset goes to the wrapped database, and the journal starts
  -- anew with the id `fresh`.
  unfoldable pub commit : ℕ → ℕ → Exec Exception (JournalDb D V) Unit
  unfolding settle
  commit fresh id s =
      if not (has_changeset id s.journal)
      then (err validation_error, s)
      else elim (commit_changeset id s.journal) [
        | none ↦ (err key_error, s)
        | some (changes, rest) ↦ (ok tt, settle fresh changes rest s)
      ]

  oldest : Journal V → Option ℕ
  oldest [] = none
  oldest ((i, d) ∷ []) = some i
  oldest ((i, d) ∷ (c ∷ rest)) = oldest (c ∷ rest)

  -- `JournalDB.persist`: `commit` of the root changeset.
  unfoldable pub persist : ℕ → Exec Exception (JournalDb D V) Unit
  unfolding oldest
  persist fresh s = elim (oldest s.journal) [
    | none ↦ (err key_error, s)
    | some root ↦ commit fresh root s
  ]
