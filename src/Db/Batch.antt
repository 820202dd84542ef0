-- ===== src/Db/Batch.antt =====
-- evm/db/batch.py (`class BatchDB`) and evm/db/diff.py (`DBDiffTracker`, `DBDiff`).
use py_evm.Prelude.{
  ℕ, ◌≡◌, refl, Bool, true, false, not, Option, none, some, [], ◌∷◌, arith, if◌then◌else◌,
}
use py_evm.Prelude.Exec.{ok, err, Exec}
use py_evm.Exceptions.{Exception, key_error}
use py_evm.Db.Dict.{Dict, lookup, insert}
use py_evm.Db.Database.{Database, delete, get-delete}

-- A tracked change: a value, or DELETED. A key without one is NEVER_INSERTED.
pub data Change (V : Type 0) : Type 0 where
  inserted : V → Change V
  deleted : Change V

pub record BatchDb (D V : Type 0) : Type 0 where
  pub wrapped_db : D
  pub changes : Dict (Change V)

module _ {V : Type 0} where
  -- A tracked change over the value below it.
  abbrev pub over : Option (Change V) → Option V → Option V
  over none below = below
  over (some (inserted v)) below = some v
  over (some deleted) below = none

module _ {D V : Type 0} (db : Database D V) where
  -- `BatchDB.__getitem__`; `none` is the `KeyError`.
  unfoldable pub get : BatchDb D V → ℕ → Option V
  get s k = over (lookup k s.changes) (db.get s.wrapped_db k)

  -- `BatchDB.__setitem__`
  unfoldable pub put : ℕ → V → BatchDb D V → BatchDb D V
  put k v s = record s { changes = insert k (inserted v) s.changes }

  -- `BatchDB._exists`
  unfoldable pub exists : BatchDb D V → ℕ → Bool
  unfolding get
  exists s k = elim (get s k) [ none ↦ false | some _ ↦ true ]

  -- `BatchDB.__delitem__`
  unfoldable pub remove : ℕ → Exec Exception (BatchDb D V) Unit
  unfolding exists
  remove k s =
      if not (exists s k)
      then (err key_error, s)
      else (ok tt, record s { changes = insert k deleted s.changes })

  -- `BatchDB.clear`
  unfoldable pub clear : BatchDb D V → BatchDb D V
  clear s = record s { changes = [] }

  apply_change : Bool → ℕ → Change V → D → D
  apply_change apply_deletes k (inserted v) d = db.put k v d
  apply_change apply_deletes k deleted d = if apply_deletes then delete db k d else d

  -- `DBDiff.apply_to`. The keys of a dict differ, so the order does not matter.
  unfoldable pub apply_to : Bool → Dict (Change V) → D → D
  unfolding apply_change
  apply_to apply_deletes [] d = d
  apply_to apply_deletes ((k, c) ∷ changes) d =
      apply_change apply_deletes k c (apply_to apply_deletes changes d)

  -- `BatchDB.commit`
  unfoldable pub commit : Bool → BatchDb D V → BatchDb D V
  unfolding clear apply_to
  commit apply_deletes s =
      clear (record s { wrapped_db = apply_to apply_deletes s.changes s.wrapped_db })

  -- `BatchDB.__exit__`, by whether the block raised.
  unfoldable pub exit_batch : Bool → BatchDb D V → BatchDb D V
  unfolding clear commit
  exit_batch raised s = if raised then clear s else commit true s

  get-apply_to :
      (changes : Dict (Change V)) (d : D) (k : ℕ)
      → db.get (apply_to true changes d) k ≡ over (lookup k changes) (db.get d k)
  unfolding apply_to lookup
  get-apply_to [] d k = refl
  get-apply_to ((j, inserted v) ∷ changes) d k =
      ground (arith, db.get-put j k v (apply_to true changes d), get-apply_to changes d k)
  get-apply_to ((j, deleted) ∷ changes) d k =
      ground (arith, get-delete db j k (apply_to true changes d), get-apply_to changes d k)

  -- After the block was left, the wrapped database reads as the batch did, if nothing was raised,
  -- and as it did before the block, if something was; and the batch reads as the wrapped database.
  pub exit_batch_lem :
      (raised : Bool) (s : BatchDb D V) (k : ℕ)
      → (db.get (exit_batch raised s).wrapped_db k
          ≡ (if raised then db.get s.wrapped_db k else get s k))
        × (get (exit_batch raised s) k ≡ db.get (exit_batch raised s).wrapped_db k)
  unfolding exit_batch get lookup
  exit_batch_lem true s k = (refl, refl)
  exit_batch_lem false s k = (get-apply_to s.changes s.wrapped_db k, refl)
