-- ===== src/Db/Account.antt =====
-- evm/db/account.py: `class AccountDB`, with the snapshots of evm/vm/state.py. Accounts and code stand in
-- two journals, over any two databases. The state trie and the storage tries are a library's: `Tries` is
-- what the code calls of them. A hash is the number of its bytes, and the cache of the trie, which
-- changes no read, is left out.
pub mod Reads
pub mod Calls
pub mod Traces
pub mod Restores
pub mod Interface
use py_evm.Prelude.{
  ℕ, ◌+◌, Bool, true, false, ◌&&◌, ◌||◌, not, Option, none, some, List, [], map, ltb, ◌==◌,
  if◌then◌else◌,
}
use py_evm.Prelude.Exec.{Result, ok, err, Exec, ◌>>=◌, ◌>>◌, raise_if, zoom}
use py_evm.Exceptions.{Exception, validation_error}
use py_evm.Constants.{uint_256_max, empty_sha3, blank_root_hash}
use py_evm.Numeric.{Bytes, big_endian_to_int}
use py_evm.Vm.Message.{Address, is_canonical}
use py_evm.Db.Database.{Database}
use py_evm.Db.Journal.{JournalDb, get, put, remove, record_state, discard, commit, persist}
use py_evm.Db.Journal.Restores.{Change, changes}

-- evm/rlp/accounts.py
pub record Account : Type 0 where
  pub nonce : ℕ
  pub balance : ℕ
  pub storage_root : ℕ
  pub code_hash : ℕ

abbrev pub blank_account : Account
blank_account = record {
  nonce = 0;
  balance = 0;
  storage_root = blank_root_hash;
  code_hash = empty_sha3;
}

pub record AccountDb (D T : Type 0) : Type 0 where
  pub journaldb : JournalDb D Bytes
  pub journaltrie : JournalDb T Account

-- The hash function and the tries. A storage trie reads a journal, and its writes are changes of that
-- journal, beside a new root.
pub record Tries (D T : Type 0) : Type 0 where
  pub keccak : Bytes → ℕ
  pub read_slot : JournalDb D Bytes → ℕ → ℕ → Option ℕ
  pub write_slot : JournalDb D Bytes → ℕ → ℕ → ℕ → List (ℕ × Option Bytes) × ℕ
  pub delete_slot : JournalDb D Bytes → ℕ → ℕ → List (ℕ × Option Bytes) × ℕ
  pub root_hash : T → ℕ
  pub set_root_hash : ℕ → T → T

-- A snapshot: the state root and the ids of the two changesets.
pub record Checkpoint : Type 0 where
  pub state_root : ℕ
  pub db_changeset : ℕ
  pub trie_changeset : ℕ

-- The writes of a trie as changes: a node, or the removal of one.
abbrev pub node_change : ℕ × Option Bytes → Change Bytes
node_change (key, none) = Change.delete_key key
node_change (key, some node) = Change.set_key key node

-- The key of an account is the address. The databases here are keyed by numbers, and two addresses of 20
-- bytes have the same number only if they are equal (`key_of-bytes_eq` in Reads).
abbrev pub key_of : Address → ℕ
key_of = big_endian_to_int

abbrev pub validate_address : {S : Type 0} → Address → Exec Exception S Unit
validate_address address = raise_if (not (is_canonical address)) validation_error

abbrev pub validate_uint256 : {S : Type 0} → ℕ → Exec Exception S Unit
validate_uint256 value = raise_if (ltb uint_256_max value) validation_error

-- A read that first validates the address.
abbrev pub reading : {A : Type 0} → Address → A → Result Exception A
reading address value = if is_canonical address then ok value else err validation_error

abbrev pub or_blank : Option Account → Account
or_blank none = blank_account
or_blank (some account) = account

abbrev pub or_zero : Option ℕ → ℕ
or_zero none = 0
or_zero (some value) = value

abbrev pub or_empty : Option Bytes → Bytes
or_empty none = []
or_empty (some code) = code

module _ {D T : Type 0} (db : Database D Bytes) (accounts : Database T Account)
    (tries : Tries D T) where
  -- `_get_account`
  unfoldable pub get_account : AccountDb D T → Address → Account
  get_account w address = or_blank (get accounts w.journaltrie (key_of address))

  abbrev pub on_trie :
      {A : Type 0} → Exec Exception (JournalDb T Account) A → Exec Exception (AccountDb D T) A
  on_trie = zoom (λ w. w.journaltrie) (λ t w. record w { journaltrie = t })

  abbrev pub on_db :
      {A : Type 0} → Exec Exception (JournalDb D Bytes) A → Exec Exception (AccountDb D T) A
  on_db = zoom (λ w. w.journaldb) (λ t w. record w { journaldb = t })

  -- `_set_account`
  unfoldable pub set_account : Address → Account → Exec Exception (AccountDb D T) Unit
  set_account address account = on_trie (put accounts (key_of address) account)

  -- `_set_account` of a copy of the account.
  unfoldable pub update_account :
      Address → (Account → Account) → Exec Exception (AccountDb D T) Unit
  unfolding get_account set_account
  update_account address f w = set_account address (f (get_account w address)) w

  unfoldable pub get_storage : AccountDb D T → Address → ℕ → Result Exception ℕ
  get_storage w address slot =
      if is_canonical address
      then (if ltb uint_256_max slot
          then err validation_error
          else ok (or_zero (tries.read_slot w.journaldb (get_account w address).storage_root slot)))
      else err validation_error

  -- The storage trie writes into the journal.
  write_storage : ℕ → ℕ → ℕ → JournalDb D Bytes → List (ℕ × Option Bytes) × ℕ
  write_storage root slot value j =
      if value == 0 then tries.delete_slot j root slot else tries.write_slot j root slot value

  unfoldable pub put_storage : Address → ℕ → ℕ → Exec Exception (AccountDb D T) Unit
  unfolding write_storage update_account
  put_storage address slot value w =
      let (writes, root) =
        write_storage (get_account w address).storage_root slot value w.journaldb in
      update_account address (λ account. record account { storage_root = root })
        (record w { journaldb = changes db (map node_change writes) w.journaldb })

  unfoldable pub set_storage : Address → ℕ → ℕ → Exec Exception (AccountDb D T) Unit
  unfolding put_storage
  set_storage address slot value = do
    validate_uint256 value
    validate_uint256 slot
    validate_address address
    put_storage address slot value

  unfoldable pub delete_storage : Address → Exec Exception (AccountDb D T) Unit
  unfolding update_account
  delete_storage address = do
    validate_address address
    update_account address (λ account. record account { storage_root = blank_root_hash })

  unfoldable pub get_balance : AccountDb D T → Address → Result Exception ℕ
  get_balance w address = reading address (get_account w address).balance

  unfoldable pub set_balance : Address → ℕ → Exec Exception (AccountDb D T) Unit
  unfolding update_account
  set_balance address balance = do
    validate_address address
    validate_uint256 balance
    update_account address (λ account. record account { balance = balance })

  unfoldable pub get_nonce : AccountDb D T → Address → Result Exception ℕ
  get_nonce w address = reading address (get_account w address).nonce

  unfoldable pub set_nonce : Address → ℕ → Exec Exception (AccountDb D T) Unit
  unfolding update_account
  set_nonce address nonce = do
    validate_address address
    validate_uint256 nonce
    update_account address (λ account. record account { nonce = nonce })

  unfoldable pub increment_nonce : Address → Exec Exception (AccountDb D T) Unit
  unfolding set_nonce get_nonce
  increment_nonce address w = elim (get_nonce w address) [
    | err e ↦ (err e, w)
    | ok current_nonce ↦ set_nonce address (current_nonce + 1) w
  ]

  unfoldable pub get_code_hash : AccountDb D T → Address → Result Exception ℕ
  get_code_hash w address = reading address (get_account w address).code_hash

  unfoldable pub get_code : AccountDb D T → Address → Result Exception Bytes
  get_code w address =
      reading address (or_empty (get db w.journaldb (get_account w address).code_hash))

  put_code : Address → Bytes → Exec Exception (AccountDb D T) Unit
  unfolding update_account
  put_code address code w =
      let account = get_account w address in
      (do
        on_db (put db (tries.keccak code) code)
        set_account address (record account { code_hash = tries.keccak code }))
        w

  unfoldable pub set_code : Address → Bytes → Exec Exception (AccountDb D T) Unit
  unfolding put_code
  set_code address code = do validate_address address; put_code address code

  unfoldable pub delete_code : Address → Exec Exception (AccountDb D T) Unit
  unfolding update_account
  delete_code address = do
    validate_address address
    update_account address (λ account. record account { code_hash = empty_sha3 })

  unfoldable pub account_has_code_or_nonce : AccountDb D T → Address → Result Exception Bool
  account_has_code_or_nonce w address = reading address (
      not ((get_account w address).nonce == 0)
      || not ((get_account w address).code_hash == empty_sha3))

  unfoldable pub account_is_empty : AccountDb D T → Address → Result Exception Bool
  account_is_empty w address = reading address (
      (get_account w address).nonce == 0
      && (get_account w address).code_hash == empty_sha3
      && (get_account w address).balance == 0)

  unfoldable pub account_exists : AccountDb D T → Address → Result Exception Bool
  account_exists w address =
      reading address
        (elim (get accounts w.journaltrie (key_of address)) [ none ↦ false | some _ ↦ true ])

  unfoldable pub delete_account : Address → Exec Exception (AccountDb D T) Unit
  delete_account address = do validate_address address; on_trie (remove accounts (key_of address))

  unfoldable pub touch_account : Address → Exec Exception (AccountDb D T) Unit
  unfolding update_account
  touch_account address = do validate_address address; update_account address (λ account. account)

  -- `record`: the ids are random in the program.
  unfoldable pub record_changesets : ℕ → ℕ → AccountDb D T → AccountDb D T
  record_changesets db_id trie_id w = record w {
    journaldb = record_state db db_id w.journaldb;
    journaltrie = record_state accounts trie_id w.journaltrie;
  }

  unfoldable pub discard_changesets : ℕ → ℕ → Exec Exception (AccountDb D T) Unit
  discard_changesets db_id trie_id = do on_db (discard db db_id); on_trie (discard accounts trie_id)

  -- `commit`, with the ids of the journals that start anew.
  unfoldable pub commit_changesets : ℕ → ℕ → ℕ → ℕ → Exec Exception (AccountDb D T) Unit
  commit_changesets fresh_db fresh_trie db_id trie_id = do
    on_db (commit db fresh_db db_id)
    on_trie (commit accounts fresh_trie trie_id)

  unfoldable pub state_root : AccountDb D T → ℕ
  state_root w = tries.root_hash w.journaltrie.wrapped_db

  unfoldable pub set_state_root : ℕ → AccountDb D T → AccountDb D T
  set_state_root root w = record w {
    journaltrie = record w.journaltrie {
      wrapped_db = tries.set_root_hash root w.journaltrie.wrapped_db;
    };
  }

  -- `make_state_root`
  unfoldable pub make_state_root : ℕ → ℕ → Exec Exception (AccountDb D T) ℕ
  unfolding state_root
  make_state_root fresh_db fresh_trie = do
    on_db (persist db fresh_db)
    on_trie (persist accounts fresh_trie)
    λ w. (ok (state_root w), w)

  -- `snapshot` of evm/vm/state.py
  unfoldable pub snapshot : ℕ → ℕ → AccountDb D T → Checkpoint × AccountDb D T
  unfolding state_root record_changesets
  snapshot db_id trie_id w = (
    record { state_root = state_root w; db_changeset = db_id; trie_changeset = trie_id },
    record_changesets db_id trie_id w,
  )

  -- `revert`
  unfoldable pub revert : Checkpoint → Exec Exception (AccountDb D T) Unit
  unfolding set_state_root discard_changesets
  revert s w = discard_changesets s.db_changeset s.trie_changeset (set_state_root s.state_root w)

  -- `commit`
  unfoldable pub commit_snapshot : ℕ → ℕ → Checkpoint → Exec Exception (AccountDb D T) Unit
  unfolding commit_changesets
  commit_snapshot fresh_db fresh_trie s =
      commit_changesets fresh_db fresh_trie s.db_changeset s.trie_changeset
