-- ===== src/Db/Database.antt =====
-- evm/db/backends: what a database promises, and the database in memory.
use py_evm.Prelude.{ℕ, ◌≡◌, inl, inr, Option, none, some, arith, ◌==◌, if◌then◌else◌, Option-cases}
use py_evm.Db.Dict.{Dict, lookup, insert, erase, lookup-insert, lookup-erase}

-- The methods of `BaseDB` that a wrapper calls. `none` is a `KeyError`.
pub record Database (D V : Type 0) : Type 0 where
  pub get : D → ℕ → Option V
  pub put : ℕ → V → D → D
  pub remove : ℕ → D → Option D
  pub get-put : (k j : ℕ) (v : V) (d : D) → get (put k v d) j ≡ (if k == j then some v else get d j)
  pub remove_absent : (k : ℕ) (d : D) → get d k ≡ none → remove k d ≡ none
  pub remove_present :
      (k : ℕ) (d : D) {v : V}
      → get d k ≡ some v
      → (e : D) × (remove k d ≡ some e) × ((j : ℕ) → get e j ≡ (if k == j then none else get d j))

module _ {D V : Type 0} (db : Database D V) where
  or_same : D → Option D → D
  or_same d none = d
  or_same d (some e) = e

  -- `BaseDB.delete`: `try: del db[key]`, and a missing key is passed over.
  unfoldable pub delete : ℕ → D → D
  unfolding or_same
  delete k d = or_same d (db.remove k d)

  -- After `delete` the key is missing, whether it was there or not, and the others are as before.
  pub get-delete : (k j : ℕ) (d : D) → db.get (delete k d) j ≡ (if k == j then none else db.get d j)
  unfolding delete
  get-delete k j d = elim (Option-cases (db.get d k)) [
    | inl missing ↦ rw (db.remove_absent k d missing, or_same) (ground arith)
    | inr (v, present) ↦
        let (e, removed, rest) = db.remove_present k d present in rw (removed, or_same) (rest j)
  ]

-- evm/db/backends/memory.py: `class MemoryDB`.
pub record MemoryDb (V : Type 0) : Type 0 where
  pub kv_store : Dict V

module _ {V : Type 0} where
  unfoldable pub get_item : MemoryDb V → ℕ → Option V
  get_item d k = lookup k d.kv_store

  unfoldable pub set_item : ℕ → V → MemoryDb V → MemoryDb V
  set_item k v d = record { kv_store = insert k v d.kv_store }

  unfoldable pub del_item : ℕ → MemoryDb V → Option (MemoryDb V)
  del_item k d = elim (lookup k d.kv_store) [
    | none ↦ none
    | some _ ↦ some (record { kv_store = erase k d.kv_store })
  ]

  pub get_item-set_item :
      (k j : ℕ) (v : V) (d : MemoryDb V)
      → get_item (set_item k v d) j ≡ (if k == j then some v else get_item d j)
  unfolding get_item set_item
  get_item-set_item k j v d = lookup-insert k j v d.kv_store

  pub del_item_absent : (k : ℕ) (d : MemoryDb V) → get_item d k ≡ none → del_item k d ≡ none
  unfolding get_item del_item
  del_item_absent k d h = rw (h, del_item)

  pub del_item_present :
      (k : ℕ) (d : MemoryDb V) {v : V}
      → get_item d k ≡ some v
      → (e : MemoryDb V) × (del_item k d ≡ some e)
        × ((j : ℕ) → get_item e j ≡ (if k == j then none else get_item d j))
  unfolding get_item del_item
  del_item_present k d h =
      (record { kv_store = erase k d.kv_store }, rw (h, del_item), λ j. lookup-erase k j d.kv_store)

  -- The database in memory keeps the promises.
  abbrev pub memory_db : Database (MemoryDb V) V
  memory_db = record {
    get = get_item;
    put = set_item;
    remove = del_item;
    get-put = get_item-set_item;
    remove_absent = del_item_absent;
    remove_present = del_item_present;
  }
