-- ===== src/Vm/Accounts.antt =====
-- The account database as the interpreter uses it: the methods of evm/db/account.py and the
-- snapshots of evm/vm/state.py, over a state `W`. It is an argument of all that reads accounts.
use py_evm.Prelude.{ℕ, suc, ◌+◌, ◌-◌, Bool, ltb, if◌then◌else◌}
use py_evm.Prelude.Exec.{err, Exec}
use py_evm.Prelude.Int.{ℤ, pos, negsuc}
use py_evm.Exceptions.{Exception, validation_error}
use py_evm.Numeric.{Bytes}
use py_evm.Vm.Message.{Address}

-- A state root, and the ids of the changesets of the two journals.
pub record Snapshot : Type 0 where
  pub state_root : Bytes
  pub db_changeset : ℕ
  pub trie_changeset : ℕ

pub record Accounts (W : Type 0) : Type 0 where
  pub get_storage : W → Address → ℕ → ℕ
  pub set_storage : Address → ℕ → ℕ → Exec Exception W Unit
  pub get_balance : W → Address → ℕ
  pub set_balance : Address → ℕ → Exec Exception W Unit
  pub get_nonce : W → Address → ℕ
  pub increment_nonce : Address → Exec Exception W Unit
  pub get_code : W → Address → Bytes
  pub set_code : Address → Bytes → Exec Exception W Unit
  pub account_has_code_or_nonce : W → Address → Bool
  pub account_exists : W → Address → Bool
  pub account_is_empty : W → Address → Bool
  pub touch_account : Address → Exec Exception W Unit
  pub delete_account : Address → Exec Exception W Unit
  pub snapshot : W → Snapshot × W
  pub revert : Snapshot → Exec Exception W Unit
  pub commit : Snapshot → Exec Exception W Unit

-- What the interpreter takes from libraries: the hash function, and the RLP encoding of the pair of
-- an address and a nonce.
pub record Library : Type 0 where
  pub keccak : Bytes → Bytes
  pub encode_address_nonce : Address → ℕ → Bytes

module _ {W : Type 0} (db : Accounts W) where
  -- `delta_balance`: a balance below zero is refused by `set_balance`.
  unfoldable pub delta_balance : Address → ℤ → Exec Exception W Unit
  delta_balance address (pos amount) w =
      db.set_balance address (db.get_balance w address + amount) w
  delta_balance address (negsuc n) w =
      if ltb (db.get_balance w address) (suc n)
      then (err validation_error, w)
      else db.set_balance address (db.get_balance w address - suc n) w
