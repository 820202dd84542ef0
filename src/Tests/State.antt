-- ===== src/Tests/State.antt =====
-- The account database over databases in memory, with a storage trie that keeps each version as one node.
use py_evm.Prelude.{
  ℕ, zero, suc, ◌+◌, ◌<◌, ◌≡◌, refl, ap, ◌∙◌, ◌≢◌, Option, none, some, List, [], ◌∷◌, arith, length,
  replicate, All, ◌==◌, if◌then◌else◌, ==_iff, All-append,
}
use py_evm.Prelude.Exec.{ok}
use py_evm.Numeric.{Bytes, bytes_eq, big_endian_to_int}
use py_evm.Vm.Message.{IsAddress}
use py_evm.Db.Database.{MemoryDb, memory_db, get_item}
use py_evm.Db.Journal.Restores.{change, set_key}
use py_evm.Db.Journal.{has_changeset, JournalDb, get, written, journal_get}
use py_evm.Db.Dict.{lookup}
use py_evm.Tests.Machine.{addr}
use py_evm.Vm.Accounts.{Accounts}
use py_evm.Vm.Executor.Payment.{Lawful}
use py_evm.Db.Account.Interface.{account_interface, account_interface-Lawful, IsReady}
use py_evm.Db.Journal.Views.{get-put_lem}
use py_evm.Db.Account.{
  Account, AccountDb, Tries, get_account, set_balance, set_storage, get_storage, snapshot, revert,
  blank_account, get_balance, get_nonce,
}
use py_evm.Db.Account.Reads.{AreLawful, set_balance_lem, get_storage-set_storage}
use py_evm.Db.Account.Calls.{
  Call, storage_set, balance_set, code_set, snapshot_taken, reverted, account_deleted, calls,
  AllAllowed,
}
use py_evm.Db.Account.Restores.{revert_restores}

abbrev pub Codes : Type 0
Codes = MemoryDb Bytes

abbrev pub States : Type 0
States = MemoryDb Account

-- The slots and values of a node, the last write first; the value 0 stands for a removed slot.
abbrev find_slot : Bytes → ℕ → Option ℕ
find_slot [] slot = none
find_slot (k ∷ []) slot = none
find_slot (k ∷ v ∷ rest) slot =
    if k == slot then (if v == 0 then none else some v) else find_slot rest slot

abbrev node_at : JournalDb Codes Bytes → ℕ → Bytes
node_at j root = elim (get memory_db j root) [ none ↦ [] | some node ↦ node ]

abbrev pub toy : Tries Codes States
toy = record {
  keccak = λ b. length b;
  read_slot = λ j root slot. find_slot (node_at j root) slot;
  write_slot =
      λ j root slot value. ((root + 1, some (slot ∷ value ∷ node_at j root)) ∷ [], root + 1);
  delete_slot = λ j root slot. ((root + 1, some (slot ∷ 0 ∷ node_at j root)) ∷ [], root + 1);
  root_hash = λ t. 5;
  set_root_hash = λ root t. t;
}

node_after :
    (j : JournalDb Codes Bytes) (k : ℕ) (node : Bytes)
    → j.journal ≢ []
    → node_at (change memory_db (set_key k node) j) k ≡ node
node_after j k node started =
    let there : get memory_db (change memory_db (set_key k node) j) k ≡ some node =
      (get-put_lem memory_db k k node j started).1 ∙ rw ((==_iff k k).1 refl) in
    ap (λ o. elim o [ none ↦ [] | some b ↦ b ]) there

toy-AreLawful : AreLawful memory_db toy
toy-AreLawful = record {
  read_write = λ j root slot value other ne started.
      ap (λ b. find_slot b other) (node_after j (root + 1) (slot ∷ value ∷ node_at j root) started)
      ∙ ground arith;
  read_delete = λ j root slot other started.
      ap (λ b. find_slot b other) (node_after j (root + 1) (slot ∷ 0 ∷ node_at j root) started)
      ∙ ground arith;
}

abbrev pub fresh : AccountDb Codes States
fresh = record {
  journaldb = record { wrapped_db = record { kv_store = [] }; journal = (1, []) ∷ [] };
  journaltrie = record { wrapped_db = record { kv_store = [] }; journal = (2, []) ∷ [] };
}

-- The program's account database, with new changesets under two ids.
abbrev pub program : Accounts (AccountDb Codes States)
program = account_interface memory_db memory_db toy (λ w. (31, 32))

pub program-Lawful : Lawful program (IsReady memory_db memory_db toy)
program-Lawful = account_interface-Lawful memory_db memory_db toy (λ w. (31, 32))

-- The address 8 has a balance.
abbrev pub funded : AccountDb Codes States
funded = record fresh {
  journaltrie = record {
    wrapped_db = record { kv_store = [] };
    journal = (2, (8, written (record blank_account { balance = 100000 })) ∷ []) ∷ [];
  };
}

pub funded_balance : program.get_balance funded (addr 8) ≡ 100000
unfolding get_balance get_account get journal_get lookup big_endian_to_int
funded_balance = refl

pub funded_nonce : program.get_nonce funded (addr 8) ≡ 0
unfolding get_nonce get_account get journal_get lookup big_endian_to_int
funded_nonce = refl

pub miner_balance : program.get_balance funded (addr 1) ≡ 0
unfolding get_balance get_account get journal_get lookup big_endian_to_int get_item
miner_balance = refl

zeros : (k : ℕ) → All (λ b. b < 256) (replicate k 0)
zeros zero = tt
zeros (suc k) = (omega arith, zeros k)

pub addr-IsAddress : (n : ℕ) → n < 256 → IsAddress (addr n)
addr-IsAddress n h = (refl, All-append (λ b. b < 256) (replicate 19 0) (n ∷ []) (zeros 19) (h, tt))

set_balance_lem_example :
    ((set_balance memory_db memory_db toy (addr 7) 100 fresh).0 ≡ ok tt)
    × (get_account memory_db memory_db toy
          (set_balance memory_db memory_db toy (addr 7) 100 fresh).1
          (addr 8)
        ≡ (if bytes_eq (addr 7) (addr 8)
            then record (get_account memory_db memory_db toy fresh (addr 7)) { balance = 100 }
            else get_account memory_db memory_db toy fresh (addr 8)))
set_balance_lem_example =
    set_balance_lem memory_db memory_db toy fresh (addr 7) (addr 8) 100 (λ e. cc)
      (addr-IsAddress 7 (omega arith)) (addr-IsAddress 8 (omega arith)) (omega arith)

get_storage-set_storage_example :
    ((set_storage memory_db memory_db toy (addr 7) 3 9 fresh).0 ≡ ok tt)
    × (get_storage memory_db memory_db toy
          (set_storage memory_db memory_db toy (addr 7) 3 9 fresh).1
          (addr 7)
          3
        ≡ (if 3 == 3 then ok 9 else get_storage memory_db memory_db toy fresh (addr 7) 3))
get_storage-set_storage_example =
    get_storage-set_storage memory_db memory_db toy fresh (addr 7) 3 9 3 toy-AreLawful (λ e. cc)
      (λ e. cc) refl (omega arith) (omega arith) (omega arith)

abbrev between : List Call
between =
    balance_set (addr 7) 100
    ∷ snapshot_taken 21 22
    ∷ code_set (addr 8) (0x60 ∷ [])
    ∷ reverted (record { state_root = 5; db_changeset = 21; trie_changeset = 22 })
    ∷ storage_set (addr 7) 3 9
    ∷ account_deleted (addr 9)
    ∷ []

between-Allowed :
    AllAllowed memory_db memory_db toy 11 12 fresh between
      (snapshot memory_db memory_db toy 11 12 fresh).1
unfolding snapshot has_changeset
between-Allowed = (
  tt,
  (
    (λ e. omega arith, λ e. omega arith),
    (tt, (((((λ e. omega arith), refl), ((λ e. omega arith), refl)), refl), (tt, (tt, tt)))),
  ),
)

revert_restores_example :
    revert memory_db memory_db toy
      (snapshot memory_db memory_db toy 11 12 fresh).0
      (calls memory_db memory_db toy between (snapshot memory_db memory_db toy 11 12 fresh).1)
    ≡ (ok tt, fresh)
revert_restores_example =
    revert_restores memory_db memory_db toy 11 12 fresh between refl between-Allowed
