-- ===== src/Db/Account/Traces.antt =====
-- What a call does to the two journals of an account database.
use py_evm.Prelude.{
  ℕ, ◌≡◌, refl, sym, ap, ◌∙◌, inl, inr, Option, none, some, List, [], ◌∷◌, ◌++◌, map, All,
  Bool-cases, All-append,
}
use py_evm.Prelude.Exec.{Result, ok, err, Exec, ◌>>◌}
use py_evm.Constants.{blank_root_hash, empty_sha3}
use py_evm.Exceptions.{Exception}
use py_evm.Numeric.{Bytes}
use py_evm.Vm.Message.{Address, is_canonical}
use py_evm.Db.Database.{Database}
use py_evm.Db.Journal.{JournalDb, put, remove, discard, commit}
use py_evm.Db.Journal.Restores.{
  Change, set_key, delete_key, discard_id, commit_id, change, changes, Spares, changes-append,
}
use py_evm.Db.Account.{
  Account, AccountDb, Tries, Checkpoint, key_of, node_change, get_account, set_account,
  update_account, get_nonce, set_nonce, increment_nonce, set_balance, set_storage, put_storage,
  write_storage, delete_storage, set_code, put_code, delete_code, delete_account, touch_account,
  commit_snapshot, discard_changesets, commit_changesets, set_state_root, on_db, on_trie,
  validate_address, validate_uint256,
}
use py_evm.Db.Account.Calls.{IsLater}

module _ {D T : Type 0} (db : Database D Bytes) (accounts : Database T Account)
    (tries : Tries D T) where
  -- From a snapshot of `start` with the ids `id` and `jd`.
  module _ (id jd : ℕ) (start : AccountDb D T) where
    -- What was done to the two journals.
    pub record Traced (w w' : AccountDb D T) : Type 0 where
      pub on_codes : List (Change Bytes)
      pub on_accounts : List (Change Account)
      pub codes : w'.journaldb ≡ changes db on_codes w.journaldb
      pub states : w'.journaltrie ≡ changes accounts on_accounts w.journaltrie
      pub spares_codes : All (Spares id start.journaldb.journal) on_codes
      pub spares_accounts : All (Spares jd start.journaltrie.journal) on_accounts

    pub Traced-same : (w : AccountDb D T) → Traced w w
    Traced-same w = record {
      on_codes = [];
      on_accounts = [];
      codes = refl;
      states = refl;
      spares_codes = tt;
      spares_accounts = tt;
    }

    abbrev pub Tracing : Exec Exception (AccountDb D T) Unit → Type 0
    Tracing m = (w : AccountDb D T) → Traced w (m w).1

    pub Traced-trans : (u v w : AccountDb D T) → Traced u v → Traced v w → Traced u w
    Traced-trans u v w p q = record {
      on_codes = p.on_codes ++ q.on_codes;
      on_accounts = p.on_accounts ++ q.on_accounts;
      codes =
          q.codes
          ∙ ap (changes db q.on_codes) p.codes
          ∙ sym (changes-append db p.on_codes q.on_codes u.journaldb);
      states =
          q.states
          ∙ ap (changes accounts q.on_accounts) p.states
          ∙ sym (changes-append accounts p.on_accounts q.on_accounts u.journaltrie);
      spares_codes = All-append _ p.on_codes q.on_codes p.spares_codes q.spares_codes;
      spares_accounts =
          All-append _ p.on_accounts q.on_accounts p.spares_accounts q.spares_accounts;
    }

    Traced-next :
        (u : AccountDb D T) (x : Result Exception Unit × AccountDb D T)
        (k : Exec Exception (AccountDb D T) Unit)
        → Traced u x.1
        → Tracing k
        → Traced u
            (elim x.0 as (λ _. Result Exception Unit × AccountDb D T) [
              | ok _ ↦ k x.1
              | err e ↦ (err e, x.1)
            ]).1
    Traced-next u (ok _, v) k p q = Traced-trans u v (k v).1 p (q v)
    Traced-next u (err e, v) k p q = p

    Tracing-then :
        (m k : Exec Exception (AccountDb D T) Unit) → Tracing m → Tracing k → Tracing (m >> k)
    Tracing-then m k p q w = Traced-next w (m w) k (p w) q

    Tracing-codes :
        (c : Change Bytes) (m : Exec Exception (JournalDb D Bytes) Unit)
        → ((s : JournalDb D Bytes) → (m s).1 ≡ change db c s)
        → Spares id start.journaldb.journal c
        → Tracing (on_db db accounts tries m)
    Tracing-codes c m e spare w = record {
      on_codes = c ∷ [];
      on_accounts = [];
      codes = e w.journaldb;
      states = refl;
      spares_codes = (spare, tt);
      spares_accounts = tt;
    }

    Tracing-states :
        (c : Change Account) (m : Exec Exception (JournalDb T Account) Unit)
        → ((s : JournalDb T Account) → (m s).1 ≡ change accounts c s)
        → Spares jd start.journaltrie.journal c
        → Tracing (on_trie db accounts tries m)
    Tracing-states c m e spare w = record {
      on_codes = [];
      on_accounts = c ∷ [];
      codes = refl;
      states = e w.journaltrie;
      spares_codes = tt;
      spares_accounts = (spare, tt);
    }

    Tracing-set_account :
        (a : Address) (account : Account) → Tracing (set_account db accounts tries a account)
    unfolding set_account
    Tracing-set_account a account =
        Tracing-states (set_key (key_of a) account) (put accounts (key_of a) account) (λ s. refl) tt

    Tracing-update_account :
        (a : Address) (f : Account → Account) → Tracing (update_account db accounts tries a f)
    unfolding update_account
    Tracing-update_account a f w = Tracing-set_account a (f (get_account db accounts tries w a)) w

    pub Tracing-delete_account : (a : Address) → Tracing (delete_account db accounts tries a)
    unfolding delete_account
    Tracing-delete_account a =
        Tracing-then (validate_address a) (on_trie db accounts tries (remove accounts (key_of a)))
          (λ w. Traced-same w)
          (Tracing-states (delete_key (key_of a)) (remove accounts (key_of a)) (λ s. refl) tt)

    Tracing-checked :
        (a : Address) (k : Exec Exception (AccountDb D T) Unit)
        → Tracing k
        → Tracing (validate_address a >> k)
    Tracing-checked a k p = Tracing-then (validate_address a) k (λ w. Traced-same w) p

    Tracing-uint :
        (n : ℕ) (k : Exec Exception (AccountDb D T) Unit)
        → Tracing k
        → Tracing (validate_uint256 n >> k)
    Tracing-uint n k p = Tracing-then (validate_uint256 n) k (λ w. Traced-same w) p

    Spares-nodes :
        (writes : List (ℕ × Option Bytes))
        → All (Spares id start.journaldb.journal) (map node_change writes)
    Spares-nodes [] = tt
    Spares-nodes ((k, none) ∷ rest) = (tt, Spares-nodes rest)
    Spares-nodes ((k, some v) ∷ rest) = (tt, Spares-nodes rest)

    Tracing-put_storage :
        (a : Address) (slot value : ℕ) → Tracing (put_storage db accounts tries a slot value)
    unfolding put_storage
    Tracing-put_storage a slot value w =
        let p =
          write_storage db accounts tries (get_account db accounts tries w a).storage_root slot
            value w.journaldb in
        let w' = record w { journaldb = changes db (map node_change p.0) w.journaldb } in
        Traced-trans w w' (put_storage db accounts tries a slot value w).1
          (record {
            on_codes = map node_change p.0;
            on_accounts = [];
            codes = refl;
            states = refl;
            spares_codes = Spares-nodes p.0;
            spares_accounts = tt;
          })
          (Tracing-update_account a (λ account. record account { storage_root = p.1 }) w')

    Tracing-put_code : (a : Address) (code : Bytes) → Tracing (put_code db accounts tries a code)
    unfolding put_code
    Tracing-put_code a code w =
        Tracing-then (on_db db accounts tries (put db (tries.keccak code) code))
          (set_account db accounts tries a
            (record (get_account db accounts tries w a) { code_hash = tries.keccak code }))
          (Tracing-codes (set_key (tries.keccak code) code) (put db (tries.keccak code) code)
            (λ s. refl) tt)
          (Tracing-set_account a _) w

    pub Tracing-set_nonce : (a : Address) (n : ℕ) → Tracing (set_nonce db accounts tries a n)
    unfolding set_nonce
    Tracing-set_nonce a n =
        Tracing-checked a _
          (Tracing-uint n _ (Tracing-update_account a (λ account. record account { nonce = n })))

    pub Tracing-increment_nonce : (a : Address) → Tracing (increment_nonce db accounts tries a)
    unfolding increment_nonce get_nonce
    Tracing-increment_nonce a w = elim (Bool-cases (is_canonical a)) [
      | inl yes_canonical ↦ rw (yes_canonical, increment_nonce) (Tracing-set_nonce a _ w)
      | inr other ↦ rw (other, increment_nonce) (Traced-same w)
    ]

    pub Tracing-discards :
        (s : Checkpoint)
        → IsLater db accounts tries id jd start s
        → Tracing (discard_changesets db accounts tries s.db_changeset s.trie_changeset)
    unfolding discard_changesets
    Tracing-discards s (p, q) =
        Tracing-then (on_db db accounts tries (discard db s.db_changeset))
          (on_trie db accounts tries (discard accounts s.trie_changeset))
          (Tracing-codes (discard_id s.db_changeset) (discard db s.db_changeset) (λ t. refl) p)
          (Tracing-states (discard_id s.trie_changeset) (discard accounts s.trie_changeset)
            (λ t. refl) q)

    pub Tracing-commits :
        (f g : ℕ) (s : Checkpoint)
        → IsLater db accounts tries id jd start s
        → Tracing (commit_snapshot db accounts tries f g s)
    unfolding commit_snapshot commit_changesets
    Tracing-commits f g s (p, q) =
        Tracing-then (on_db db accounts tries (commit db f s.db_changeset))
          (on_trie db accounts tries (commit accounts g s.trie_changeset))
          (Tracing-codes (commit_id f s.db_changeset) (commit db f s.db_changeset) (λ t. refl) p)
          (Tracing-states (commit_id g s.trie_changeset) (commit accounts g s.trie_changeset)
            (λ t. refl) q)

    pub same_root-set :
        (root : ℕ) (w : AccountDb D T)
        → tries.set_root_hash root w.journaltrie.wrapped_db ≡ w.journaltrie.wrapped_db
        → set_state_root db accounts tries root w ≡ w
    unfolding set_state_root
    same_root-set root w e = rw e

    pub Tracing-set_storage :
        (a : Address) (slot value : ℕ) → Tracing (set_storage db accounts tries a slot value)
    unfolding set_storage
    Tracing-set_storage a slot value =
        Tracing-uint value _
          (Tracing-uint slot _ (Tracing-checked a _ (Tracing-put_storage a slot value)))

    pub Tracing-set_balance : (a : Address) (n : ℕ) → Tracing (set_balance db accounts tries a n)
    unfolding set_balance
    Tracing-set_balance a n =
        Tracing-checked a _
          (Tracing-uint n _ (Tracing-update_account a (λ account. record account { balance = n })))

    pub Tracing-set_code :
        (a : Address) (code : Bytes) → Tracing (set_code db accounts tries a code)
    unfolding set_code
    Tracing-set_code a code = Tracing-checked a _ (Tracing-put_code a code)

    pub Tracing-delete_storage : (a : Address) → Tracing (delete_storage db accounts tries a)
    unfolding delete_storage
    Tracing-delete_storage a =
        Tracing-checked a _
          (Tracing-update_account a (λ account. record account { storage_root = blank_root_hash }))

    pub Tracing-delete_code : (a : Address) → Tracing (delete_code db accounts tries a)
    unfolding delete_code
    Tracing-delete_code a =
        Tracing-checked a _
          (Tracing-update_account a (λ account. record account { code_hash = empty_sha3 }))

    pub Tracing-touch_account : (a : Address) → Tracing (touch_account db accounts tries a)
    unfolding touch_account
    Tracing-touch_account a = Tracing-checked a _ (Tracing-update_account a (λ account. account))
