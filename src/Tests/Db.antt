-- ===== src/Tests/Db.antt =====
-- The databases at concrete inputs.
use py_evm.Prelude.{arith, ℕ, ◌≡◌, refl, true, false, none, List, [], ◌∷◌, All}
use py_evm.Prelude.Exec.{ok}
use py_evm.Db.Database.{Database, MemoryDb, memory_db, get_item}
use py_evm.Db.Dict.{lookup, insert}
use py_evm.Db.Batch.{BatchDb, inserted, exit_batch, exit_batch_lem}
use py_evm.Db.Batch
use py_evm.Db.Journal.{
  JournalDb, written, get, remove, record_state, discard, commit, exists, is_some, has_changeset,
}
use py_evm.Db.Journal.Views.{exists-remove_lem, get-commit}
use py_evm.Db.Journal.Restores.{
  Change, set_key, delete_key, record_id, discard_id, commit_id, changes, discard_restores, Spares,
}

abbrev db : Database (MemoryDb ℕ) ℕ
db = memory_db

abbrev disk : MemoryDb ℕ
disk = record { kv_store = (1, 10) ∷ (2, 20) ∷ [] }

-- One write over the disk, in the changeset 100.
abbrev journaled : JournalDb (MemoryDb ℕ) ℕ
journaled = record { wrapped_db = disk; journal = (100, (3, written 30) ∷ []) ∷ [] }

abbrev later_changes : List (Change ℕ)
later_changes =
    set_key 1 11
    ∷ record_id 102
    ∷ delete_key 3
    ∷ commit_id 104 102
    ∷ record_id 103
    ∷ delete_key 9
    ∷ discard_id 103
    ∷ []

spared : All (Spares 101 journaled.journal) later_changes
unfolding has_changeset
spared =
    (tt, (omega arith, (tt, ((omega arith, refl), (omega arith, (tt, ((omega arith, refl), tt)))))))

discard_restores_example :
    discard db 101 (changes db later_changes (record_state db 101 journaled)) ≡ (ok tt, journaled)
discard_restores_example = discard_restores db 101 journaled later_changes spared

get-commit_example :
    ((commit db 101 100 journaled).0 ≡ ok tt)
    × (get db (commit db 101 100 journaled).1 3 ≡ get db journaled 3)
unfolding has_changeset
get-commit_example = get-commit db 101 100 journaled 3

removed : (remove db 1 journaled).0 ≡ ok tt
unfolding remove lookup get_item
removed = refl

exists-remove_lem_example :
    (get db (remove db 1 journaled).1 1 ≡ none)
    × (exists db (remove db 1 journaled).1 1 ≡ is_some (db.get disk 1))
exists-remove_lem_example = exists-remove_lem db 1 journaled (λ e. cc) removed

-- So the deleted key exists.
still_there : exists db (remove db 1 journaled).1 1 ≡ true
unfolding exists remove lookup get_item insert
still_there = refl

abbrev batch : BatchDb (MemoryDb ℕ) ℕ
batch = record { wrapped_db = disk; changes = (1, inserted 11) ∷ (2, Batch.deleted) ∷ [] }

exit_batch_lem_example :
    (db.get (exit_batch db false batch).wrapped_db 2 ≡ Batch.get db batch 2)
    × (Batch.get db (exit_batch db false batch) 2 ≡ db.get (exit_batch db false batch).wrapped_db 2)
exit_batch_lem_example = exit_batch_lem db false batch 2
