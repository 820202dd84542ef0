-- ===== src/Db/Account/Interface.antt =====
-- evm/db/account.py in the place of the interface that the interpreter uses, with its snapshots. A read
-- of an address that is not valid raises in the program and gives a default here. The ids of new
-- changesets, which are random in the program, are chosen by an argument.
use py_evm.Prelude.{
  ℕ, ◌+◌, ◌≤◌, ◌≡◌, refl, sym, ap, ◌∙◌, ◌≢◌, Bool, true, false, [], ◌∷◌, arith, if◌then◌else◌,
}
use py_evm.Prelude.Exec.{Result, ok, err}
use py_evm.Constants.{uint_256_max}
use py_evm.Exceptions.{Exception}
use py_evm.Numeric.{Bytes, int_to_big_endian, big_endian_to_int}
use py_evm.Numeric.Equal.{bytes_eq_self}
use py_evm.Vm.Accounts.{Accounts, Snapshot}
use py_evm.Vm.Message.{Address, IsAddress}
use py_evm.Vm.Executor.Payment.{Lawful}
use py_evm.Db.Database.{Database}
use py_evm.Db.Journal.{put, JournalDb, Journal, Entry, written, journal_set}
use py_evm.Db.Journal.Views.{not_empty}
use py_evm.Db.Account.{
  Account, AccountDb, Tries, Checkpoint, get_account, key_of, update_account, get_storage,
  set_storage, get_balance, set_balance, get_nonce, set_nonce, increment_nonce, get_code, set_code,
  account_has_code_or_nonce, account_exists, account_is_empty, touch_account, delete_account,
  snapshot, revert, commit_snapshot, set_account,
}
use py_evm.Db.Account.Reads.{fits, set_balance_lem, set_nonce_lem}

if_true : {A : Type 0} (c : Bool) (x y : A) → c ≡ true → (if c then x else y) ≡ x
if_true c x y e = rw e

if_false : {A : Type 0} (c : Bool) (x y : A) → c ≡ false → (if c then x else y) ≡ y
if_false c x y e = rw e

abbrev or_default : {A : Type 0} → A → Result Exception A → A
or_default a (ok b) = b
or_default a (err e) = a

abbrev checkpoint_of : Snapshot → Checkpoint
checkpoint_of s = record {
  state_root = big_endian_to_int s.state_root;
  db_changeset = s.db_changeset;
  trie_changeset = s.trie_changeset;
}

abbrev snapshot_of : Checkpoint → Snapshot
snapshot_of s = record {
  state_root = int_to_big_endian s.state_root;
  db_changeset = s.db_changeset;
  trie_changeset = s.trie_changeset;
}

module _ {D T : Type 0} (db : Database D Bytes) (accounts : Database T Account)
    (tries : Tries D T) where
  abbrev pub account_interface : (AccountDb D T → ℕ × ℕ) → Accounts (AccountDb D T)
  account_interface ids = record {
    get_storage = λ w a slot. or_default 0 (get_storage db accounts tries w a slot);
    set_storage = set_storage db accounts tries;
    get_balance = λ w a. or_default 0 (get_balance db accounts tries w a);
    set_balance = set_balance db accounts tries;
    get_nonce = λ w a. or_default 0 (get_nonce db accounts tries w a);
    increment_nonce = increment_nonce db accounts tries;
    get_code = λ w a. or_default [] (get_code db accounts tries w a);
    set_code = set_code db accounts tries;
    account_has_code_or_nonce =
        λ w a. or_default false (account_has_code_or_nonce db accounts tries w a);
    account_exists = λ w a. or_default false (account_exists db accounts tries w a);
    account_is_empty = λ w a. or_default false (account_is_empty db accounts tries w a);
    touch_account = touch_account db accounts tries;
    delete_account = delete_account db accounts tries;
    snapshot =
        λ w. let (s, w') = snapshot db accounts tries (ids w).0 (ids w).1 w in (snapshot_of s, w');
    revert = λ s. revert db accounts tries (checkpoint_of s);
    commit = λ s w. commit_snapshot db accounts tries (ids w).0 (ids w).1 (checkpoint_of s) w;
  }

  -- The journal of the accounts has a changeset.
  abbrev pub IsReady : AccountDb D T → Type 0
  IsReady w = w.journaltrie.journal ≢ []

  journal_set_keeps :
      (k : ℕ) (e : Entry Account) (j : Journal Account) → j ≢ [] → journal_set k e j ≢ []
  unfolding journal_set
  journal_set_keeps k e [] h = absurd (h refl)
  journal_set_keeps k e ((i, d) ∷ rest) h = λ c. cc

  put_keeps :
      (k : ℕ) (v : Account) (j : JournalDb T Account)
      → j.journal ≢ []
      → (put accounts k v j).1.journal ≢ []
  unfolding put
  put_keeps k v j h = rw (not_empty j.journal h, put) (journal_set_keeps k (written v) j.journal h)

  set_balance-IsReady :
      (a : Address) (v : ℕ) (w : AccountDb D T)
      → IsReady w
      → IsAddress a
      → v ≤ uint_256_max
      → IsReady (set_balance db accounts tries a v w).1
  unfolding set_balance update_account set_account
  set_balance-IsReady a v w ready (canonical, _) le =
      rw (canonical, fits v le)
        (put_keeps (key_of a) (record (get_account db accounts tries w a) { balance = v })
          w.journaltrie ready)

  balance-eq :
      (w : AccountDb D T) (a : Address)
      → IsAddress a
      → or_default 0 (get_balance db accounts tries w a)
        ≡ (get_account db accounts tries w a).balance
  unfolding get_balance
  balance-eq w a (canonical, _) = rw canonical

  nonce-eq :
      (w : AccountDb D T) (a : Address)
      → IsAddress a
      → or_default 0 (get_nonce db accounts tries w a) ≡ (get_account db accounts tries w a).nonce
  unfolding get_nonce
  nonce-eq w a (canonical, _) = rw canonical

  get_nonce-ok :
      (w : AccountDb D T) (a : Address)
      → IsAddress a
      → get_nonce db accounts tries w a ≡ ok (get_account db accounts tries w a).nonce
  unfolding get_nonce
  get_nonce-ok w a (canonical, _) = rw canonical

  increment-eq :
      (a : Address) (w : AccountDb D T)
      → IsAddress a
      → increment_nonce db accounts tries a w
        ≡ set_nonce db accounts tries a ((get_account db accounts tries w a).nonce + 1) w
  unfolding increment_nonce
  increment-eq a w address =
      ap
        (λ r. elim r as (λ _. Result Exception Unit × AccountDb D T) [
          | err e ↦ (err e, w)
          | ok current_nonce ↦ set_nonce db accounts tries a (current_nonce + 1) w
        ])
        (get_nonce-ok w a address)

  -- AccountDB, over any databases and tries, keeps what the interpreter and the rewards ask of an account
  -- database, wherever the journal of its accounts has a changeset.
  pub account_interface-Lawful :
      (ids : AccountDb D T → ℕ × ℕ) → Lawful (account_interface ids) IsReady
  account_interface-Lawful ids = record {
    set_ok = λ a v w ready address le. (
      (set_balance_lem db accounts tries w a a v ready address address le).0,
      set_balance-IsReady a v w ready address le,
    );
    get_set = λ a v w ready address le.
        balance-eq (set_balance db accounts tries a v w).1 a address
        ∙ ap (λ (x : Account). x.balance)
            ((set_balance_lem db accounts tries w a a v ready address address le).1
              ∙ if_true _ _ _ (bytes_eq_self a));
    get_other = λ a b v w ready address other le differ.
        balance-eq (set_balance db accounts tries a v w).1 b other
        ∙ ap (λ (x : Account). x.balance)
            ((set_balance_lem db accounts tries w a b v ready address other le).1
              ∙ if_false _ _ _ differ)
        ∙ sym (balance-eq w b other);
    get_nonce_set = λ a v w ready address le.
        nonce-eq (set_balance db accounts tries a v w).1 a address
        ∙ ap (λ (x : Account). x.nonce)
            ((set_balance_lem db accounts tries w a a v ready address address le).1
              ∙ if_true _ _ _ (bytes_eq_self a))
        ∙ sym (nonce-eq w a address);
    nonce_ok = λ a w ready address low.
        ap (λ x. x.0) (increment-eq a w address)
        ∙ (set_nonce_lem db accounts tries w a a _ ready address address
            (omega (arith, low, nonce-eq w a address))).0;
    get_nonced = λ a w ready address low.
        ap (λ x. or_default 0 (get_balance db accounts tries x.1 a)) (increment-eq a w address)
        ∙ balance-eq _ a address
        ∙ ap (λ (x : Account). x.balance)
            ((set_nonce_lem db accounts tries w a a ((get_account db accounts tries w a).nonce + 1)
                ready address address (omega (arith, low, nonce-eq w a address))).1
              ∙ if_true _ _ _ (bytes_eq_self a))
        ∙ sym (balance-eq w a address);
  }
