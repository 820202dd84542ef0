-- ===== src/Db/Account/Calls.antt =====
-- The calls that change an account database, and those allowed above a snapshot.
use py_evm.Prelude.{ℕ, ◌≡◌, ◌≢◌, false, List, [], ◌∷◌}
use py_evm.Numeric.{Bytes}
use py_evm.Vm.Message.{Address}
use py_evm.Db.Database.{Database}
use py_evm.Db.Journal.{has_changeset}
use py_evm.Db.Account.{
  Account, AccountDb, Tries, Checkpoint, set_nonce, increment_nonce, set_balance, set_storage,
  delete_storage, set_code, delete_code, delete_account, touch_account, snapshot, revert,
  commit_snapshot,
}

-- The calls that change an account database.
pub data Call : Type 0 where
  storage_set : Address → ℕ → ℕ → Call
  balance_set nonce_set : Address → ℕ → Call
  storage_deleted nonce_incremented code_deleted account_deleted touched : Address → Call
  code_set : Address → Bytes → Call
  snapshot_taken : ℕ → ℕ → Call
  reverted : Checkpoint → Call
  committed : ℕ → ℕ → Checkpoint → Call

module _ {D T : Type 0} (db : Database D Bytes) (accounts : Database T Account)
    (tries : Tries D T) where
  abbrev pub W : Type 0
  W = AccountDb D T

  -- A call, whether it raises or not.
  abbrev pub call : Call → W → W
  call (storage_set a slot value) w = (set_storage db accounts tries a slot value w).1
  call (balance_set a n) w = (set_balance db accounts tries a n w).1
  call (nonce_set a n) w = (set_nonce db accounts tries a n w).1
  call (storage_deleted a) w = (delete_storage db accounts tries a w).1
  call (nonce_incremented a) w = (increment_nonce db accounts tries a w).1
  call (code_deleted a) w = (delete_code db accounts tries a w).1
  call (account_deleted a) w = (delete_account db accounts tries a w).1
  call (touched a) w = (touch_account db accounts tries a w).1
  call (code_set a code) w = (set_code db accounts tries a code w).1
  call (snapshot_taken i j) w = (snapshot db accounts tries i j w).1
  call (reverted s) w = (revert db accounts tries s w).1
  call (committed f g s) w = (commit_snapshot db accounts tries f g s w).1

  abbrev pub calls : List Call → W → W
  calls [] w = w
  calls (c ∷ cs) w = calls cs (call c w)

  -- From a snapshot of `start` with the ids `id` and `jd`.
  module _ (id jd : ℕ) (start : W) where
    -- The id of a snapshot is neither of the two nor one that was there before.
    abbrev pub IsLater : Checkpoint → Type 0
    IsLater s =
        ((s.db_changeset ≢ id) × (has_changeset s.db_changeset start.journaldb.journal ≡ false))
        × ((s.trie_changeset ≢ jd)
            × (has_changeset s.trie_changeset start.journaltrie.journal ≡ false))

    -- New snapshots have other ids; later ones are reverted and committed, at the same state root.
    abbrev pub Allowed : Call → W → Type 0
    Allowed (snapshot_taken i j) w = (i ≢ id) × (j ≢ jd)
    Allowed (reverted s) w =
        IsLater s
        × (tries.set_root_hash s.state_root w.journaltrie.wrapped_db ≡ w.journaltrie.wrapped_db)
    Allowed (committed f g s) w = IsLater s
    Allowed _ w = Unit

    abbrev pub AllAllowed : List Call → W → Type 0
    AllAllowed [] w = Unit
    AllAllowed (c ∷ cs) w = Allowed c w × AllAllowed cs (call c w)
