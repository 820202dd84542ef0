-- ===== src/Db/Account/Reads.antt =====
-- What the account database reads after a write.
use py_evm.Prelude.{
  ℕ, ◌≤◌, ◌≡◌, refl, ap, ◌∙◌, ◌≢◌, inl, inr, Bool, true, false, none, some, [], map, arith, ltb,
  ◌==◌, if◌then◌else◌, ==_iff, Bool-cases, sym, true-false,
}
use py_evm.Prelude.Exec.{>>-ok, Result, ok, ◌>>◌}
use py_evm.Exceptions.{Exception}
use py_evm.Constants.{uint_256_max}
use py_evm.Numeric.{Bytes, bytes_eq}
use py_evm.Numeric.Equal.{bytes_eq_self, bytes_eq-eq}
use py_evm.Numeric.Endian.{big_endian_to_int-injective}
use py_evm.Vm.Message.{Address, is_canonical, IsAddress}
use py_evm.Db.Database.{Database}
use py_evm.Db.Journal.{JournalDb, get, put}
use py_evm.Db.Journal.Views.{get-put_lem}
use py_evm.Db.Journal.Restores.{changes}
use py_evm.Db.Account.{
  Account, AccountDb, Tries, key_of, node_change, get_account, set_account, update_account,
  set_balance, set_nonce, get_storage, set_storage, put_storage, write_storage, get_code, set_code,
  put_code, validate_uint256, validate_address, or_zero, on_db,
}

-- What a storage trie keeps: at the new root the written slot has the value, and the others are as at
-- the old root.
pub record AreLawful {D T : Type 0} (db : Database D Bytes) (tries : Tries D T) : Type 0 where
  pub read_write :
      (j : JournalDb D Bytes) (root slot value other : ℕ)
      → value ≢ 0
      → j.journal ≢ []
      → let (writes, root') = tries.write_slot j root slot value in
        tries.read_slot (changes db (map node_change writes) j) root' other
        ≡ (if slot == other then some value else tries.read_slot j root other)
  pub read_delete :
      (j : JournalDb D Bytes) (root slot other : ℕ)
      → j.journal ≢ []
      → let (writes, root') = tries.delete_slot j root slot in
        tries.read_slot (changes db (map node_change writes) j) root' other
        ≡ (if slot == other then none else tries.read_slot j root other)

ok-if :
    (b : Bool) (x y : ℕ)
    → ◌≡◌ {A = Result Exception ℕ} (ok (if b then x else y)) (if b then ok x else ok y)
ok-if true x y = refl
ok-if false x y = refl

pub fits : (n : ℕ) → n ≤ uint_256_max → ltb uint_256_max n ≡ false
fits n le = ground arith

-- The keys of two addresses are equal just if the addresses are.
pub key_of-bytes_eq :
    (a b : Address) → IsAddress a → IsAddress b → (key_of a == key_of b) ≡ bytes_eq a b
key_of-bytes_eq a b (p, ps) (q, qs) = elim (Bool-cases (bytes_eq a b)) [
  | inl same ↦ ap (λ c. key_of a == key_of c) (sym (bytes_eq-eq a b same)) ∙ ground arith ∙ sym same
  | inr other ↦ elim (Bool-cases (key_of a == key_of b)) [
    | inr distinct ↦ distinct ∙ sym other
    | inl same_key ↦
        let equal =
          big_endian_to_int-injective a b (ground arith) ps qs
            ((==_iff (key_of a) (key_of b)).0 same_key) in
        absurd (true-false (sym (bytes_eq_self a) ∙ ap (bytes_eq a) equal ∙ other))
  ]
]

module _ {D T : Type 0} (db : Database D Bytes) (accounts : Database T Account)
    (tries : Tries D T) where
  set_account-ok :
      (w : AccountDb D T) (a : Address) (account : Account)
      → w.journaltrie.journal ≢ []
      → (set_account db accounts tries a account w).0 ≡ ok tt
  unfolding set_account
  set_account-ok w a account started =
      (get-put_lem accounts (key_of a) (key_of a) account w.journaltrie started).0

  get_account-set_account :
      (w : AccountDb D T) (a b : Address) (account : Account)
      → w.journaltrie.journal ≢ []
      → get_account db accounts tries (set_account db accounts tries a account w).1 b
        ≡ (if key_of a == key_of b then account else get_account db accounts tries w b)
  unfolding set_account get_account
  get_account-set_account w a b account started =
      rw ((get-put_lem accounts (key_of a) (key_of b) account w.journaltrie started).1)
        (elim (Bool-cases (key_of a == key_of b)) [ inl same ↦ rw same | inr other ↦ rw other ])

  set_account-db :
      (w : AccountDb D T) (a : Address) (account : Account)
      → (set_account db accounts tries a account w).1.journaldb ≡ w.journaldb
  unfolding set_account
  set_account-db w a account = refl

  update_account_lem :
      (w : AccountDb D T) (a b : Address) (f : Account → Account)
      → w.journaltrie.journal ≢ []
      → IsAddress a
      → IsAddress b
      → ((update_account db accounts tries a f w).0 ≡ ok tt)
        × (get_account db accounts tries (update_account db accounts tries a f w).1 b ≡ (
            if bytes_eq a b
            then f (get_account db accounts tries w a)
            else get_account db accounts tries w b))
  unfolding update_account
  update_account_lem w a b f started address other =
      let account = f (get_account db accounts tries w a) in
      (
        set_account-ok w a account started,
        get_account-set_account w a b account started
            ∙ ap
                (λ c.
                  if c
                  then f (get_account db accounts tries w a)
                  else get_account db accounts tries w b)
                (key_of-bytes_eq a b address other),
      )

  -- With a changeset, two addresses of 20 bytes and a balance of at most 2 ** 256 - 1, set_balance at the
  -- first succeeds; the second then has the balance, and its other fields as before, if it is the same
  -- address, and is as before if it is another one.
  pub set_balance_lem :
      (w : AccountDb D T) (a b : Address) (balance : ℕ)
      → w.journaltrie.journal ≢ []
      → IsAddress a
      → IsAddress b
      → balance ≤ uint_256_max
      → ((set_balance db accounts tries a balance w).0 ≡ ok tt)
        × (get_account db accounts tries (set_balance db accounts tries a balance w).1 b ≡ (
            if bytes_eq a b
            then record (get_account db accounts tries w a) { balance = balance }
            else get_account db accounts tries w b))
  unfolding set_balance
  set_balance_lem w a b balance started (canonical, bytes) other le =
      rw (canonical, fits balance le)
        (update_account_lem w a b (λ account. record account { balance = balance }) started
          (canonical, bytes) other)

  -- The same of set_nonce.
  pub set_nonce_lem :
      (w : AccountDb D T) (a b : Address) (nonce : ℕ)
      → w.journaltrie.journal ≢ []
      → IsAddress a
      → IsAddress b
      → nonce ≤ uint_256_max
      → ((set_nonce db accounts tries a nonce w).0 ≡ ok tt)
        × (get_account db accounts tries (set_nonce db accounts tries a nonce w).1 b ≡ (
            if bytes_eq a b
            then record (get_account db accounts tries w a) { nonce = nonce }
            else get_account db accounts tries w b))
  unfolding set_nonce
  set_nonce_lem w a b nonce started (canonical, bytes) other le =
      rw (canonical, fits nonce le)
        (update_account_lem w a b (λ account. record account { nonce = nonce }) started
          (canonical, bytes) other)

  put_code-eq :
      (w : AccountDb D T) (a : Address) (code : Bytes)
      → w.journaldb.journal ≢ []
      → put_code db accounts tries a code w
        ≡ set_account db accounts tries a
            (record (get_account db accounts tries w a) { code_hash = tries.keccak code })
            (record w { journaldb = (put db (tries.keccak code) code w.journaldb).1 })
  unfolding put_code
  put_code-eq w a code started_db =
      >>-ok (on_db db accounts tries (put db (tries.keccak code) code))
        (set_account db accounts tries a
          (record (get_account db accounts tries w a) { code_hash = tries.keccak code }))
        w (get-put_lem db (tries.keccak code) (tries.keccak code) code w.journaldb started_db).0

  -- With changesets and an address of 20 bytes, set_code succeeds, and get_code reads the code back.
  pub get_code-set_code :
      (w : AccountDb D T) (a : Address) (code : Bytes)
      → w.journaltrie.journal ≢ []
      → w.journaldb.journal ≢ []
      → is_canonical a ≡ true
      → ((set_code db accounts tries a code w).0 ≡ ok tt)
        × (get_code db accounts tries (set_code db accounts tries a code w).1 a ≡ ok code)
  unfolding set_code get_code
  get_code-set_code w a code started started_db canonical =
      let hash = tries.keccak code in
      let account = record (get_account db accounts tries w a) { code_hash = hash } in
      let w' = record w { journaldb = (put db hash code w.journaldb).1 } in
      let read : get db (put db hash code w.journaldb).1 hash ≡ some code =
        (get-put_lem db hash hash code w.journaldb started_db).1 ∙ ground arith in
      let there : get_account db accounts tries (set_account db accounts tries a account w').1 a
          ≡ account =
        get_account-set_account w' a a account started
        ∙ rw ((==_iff (key_of a) (key_of a)).1 refl) in
      rw (canonical, put_code-eq w a code started_db)
        (set_account-ok w' a account started, rw (there, read))

  set_storage-eq :
      (w : AccountDb D T) (a : Address) (slot value : ℕ)
      → is_canonical a ≡ true
      → slot ≤ uint_256_max
      → value ≤ uint_256_max
      → set_storage db accounts tries a slot value w ≡ put_storage db accounts tries a slot value w
  unfolding set_storage
  set_storage-eq w a slot value canonical le_slot le_value =
      >>-ok (validate_uint256 value)
        (validate_uint256 slot
          >> (validate_address a >> put_storage db accounts tries a slot value))
        w (rw (fits value le_value))
      ∙ >>-ok (validate_uint256 slot)
          (validate_address a >> put_storage db accounts tries a slot value) w
          (rw (fits slot le_slot))
      ∙ >>-ok (validate_address a) (put_storage db accounts tries a slot value) w (rw canonical)

  read-write_storage :
      (j : JournalDb D Bytes) (root slot value other : ℕ)
      → AreLawful db tries
      → j.journal ≢ []
      → or_zero (
          tries.read_slot
            (changes db (map node_change (write_storage db accounts tries root slot value j).0) j)
            (write_storage db accounts tries root slot value j).1
            other)
        ≡ (if slot == other then value else or_zero (tries.read_slot j root other))
  unfolding write_storage
  read-write_storage j root slot value other lawful started_db = elim (Bool-cases (value == 0)) [
    | inl gone ↦ rw gone (rw (lawful.read_delete j root slot other started_db) (ground arith))
    | inr kept ↦ rw kept (
        rw (lawful.read_write j root slot value other (λ e. ground arith) started_db)
          (ground arith))
  ]

  -- With changesets, an address of 20 bytes, slots and a value below 2 ** 256 and storage tries that
  -- keep what is written, set_storage succeeds: get_storage reads the value at the slot, and at every
  -- other slot of the account what it read before.
  pub get_storage-set_storage :
      (w : AccountDb D T) (a : Address) (slot value other : ℕ)
      → AreLawful db tries
      → w.journaltrie.journal ≢ []
      → w.journaldb.journal ≢ []
      → is_canonical a ≡ true
      → slot ≤ uint_256_max
      → value ≤ uint_256_max
      → other ≤ uint_256_max
      → ((set_storage db accounts tries a slot value w).0 ≡ ok tt)
        × (get_storage db accounts tries (set_storage db accounts tries a slot value w).1 a other
            ≡ (if slot == other then ok value else get_storage db accounts tries w a other))
  unfolding put_storage get_storage
  get_storage-set_storage w a slot value other lawful started started_db canonical le_slot le_value
        le_other =
      let acc = get_account db accounts tries w a in
      let p = write_storage db accounts tries acc.storage_root slot value w.journaldb in
      let w' = record w { journaldb = changes db (map node_change p.0) w.journaldb } in
      let account = record acc { storage_root = p.1 } in
      let there : get_account db accounts tries (set_account db accounts tries a account w').1 a
          ≡ account =
        get_account-set_account w' a a account started
        ∙ rw ((==_iff (key_of a) (key_of a)).1 refl) in
      rw (set_storage-eq w a slot value canonical le_slot le_value) (
        set_account-ok w' a account started,
        rw (canonical, fits other le_other, there)
            (ap ok
                (read-write_storage w.journaldb acc.storage_root slot value other lawful started_db)
              ∙ ok-if (slot == other) value
                  (or_zero (tries.read_slot w.journaldb acc.storage_root other))),
      )
