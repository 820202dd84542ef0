-- ===== src/Lib.antt =====
-- The Python Ethereum virtual machine of this repository: its interpreter, its layered databases, and
-- the rules of headers and transactions. The paths below are from the repository's root.
--
-- How the parts interact. A message (evm/vm/message.py) starts a computation
-- (evm/vm/computation.py), which owns a stack, a memory, a gas meter and a code stream
-- (evm/vm/{stack,memory,gas_meter,code_stream}.py). The interpreter reads one opcode after the other
-- from the code stream, looks it up in the table of the fork (evm/vm/forks/frontier/opcodes.py) and
-- runs its function (evm/vm/logic). The calling and creating opcodes start child computations, whose
-- outcome the parent takes over. Accounts are kept in a database that journals its changes
-- (evm/db/account.py, evm/db/journal.py) over a key-value database (evm/db/backends). Headers are kept
-- with their scores, and the best one is the head of the canonical chain (evm/db/header.py).
--
-- The files:
--   * Prelude: Boolean tests, lists, integers, and `Exec`, the methods that change an object and may
--     raise. What was changed before a raise stays changed, as in Python.
--   * Constants, Exceptions, Numeric: evm/constants.py, evm/exceptions.py, evm/utils/numeric.py.
--   * Vm.Stack, Vm.Memory, Vm.GasMeter, Vm.CodeStream, Vm.Message: the modules of these names. The
--     function `push` of Vm.Stack is `Stack.push`, and so on. Their children hold the theorems.
--   * Vm.Computation and Vm.Computation.Outcome: `BaseComputation`; `stack_push`, `memory_write`,
--     `extend_memory`, `add_child_computation` and the others keep their names.
--   * Vm.Logic and its children: every function of evm/vm/logic. Vm.Logic.Words is the arithmetic of
--     the opcodes apart from the stack; a function whose name is taken has `_op` behind it.
--   * Vm.Opcodes: the Frontier table. Vm.Run: the loop, `__exit__` and the messages of
--     evm/vm/forks/frontier/computation.py.
--   * Vm.Precompiles: evm/precompiles, without the contracts on alt_bn128.
--   * Vm.Forks: the opcode tables, precompiled contracts and creation rules of the forks from Homestead
--     to Byzantium.
--   * Vm.Executor: the transaction executor of evm/vm/forks/frontier/state.py with its validation; the
--     refunds, deletions and logs of a tree of computations are in Vm.Computation.Collect.
--   * Vm.Steady and its children: what every function of the Frontier table keeps, opcode by opcode
--     (Items, Parts, Opcodes, World, Calls, Creates), which of them use gas (Falling, Table), the loop
--     (Loop), the whole machine (Machine), and the machines of the later forks (Forks).
--   * Vm.Accounts: what the interpreter asks of evm/db/account.py, as an interface over any state `W`.
--   * Db.Database, Db.Journal, Db.Batch: evm/db/backends, evm/db/journal.py, evm/db/batch.py with
--     evm/db/diff.py. Db.Journal.Views says what is read, Db.Journal.Restores what a discard undoes.
--   * Db.Header: evm/db/header.py. Its children: the stored headers and scores (Store), the canonical
--     numbers (Numbers), `persist_header` with its lemmas (Shape, Steps, Persist), the ancestors of the
--     head (Ancestry), and what is written above a header (Above).
--   * Db.Chain: evm/db/chain.py, with `persist_block`. Agrees compares it with Db.Header, Index is about the
--     index of transactions.
--   * Estimators: evm/estimators/gas.py, over any execution of a transaction.
--   * Db.Account: evm/db/account.py over the journals, and the snapshots of evm/vm/state.py. Reads is
--     about a read after a write; the changes that calls make (Calls, Traces) lead to a revert (Restores).
--     Interface fills Vm.Accounts with it.
--   * Blocks: evm/vm/base.py, the checks of blocks and uncles, the hashes of the blocks before (Hashes),
--     and the rewards in Frontier and Byzantium with their payment (Payment).
--   * Chains: evm/chains/base.py, the checks of a block and the canonical blocks; its children are about
--     the canonical blocks below a block (Ancestors), accepted uncles (Uncles) and what they earn (Rewards).
--   * Headers: evm/utils/headers.py, `validate_gas_limit`, and the difficulty of three forks.
--   * Transactions: evm/utils/transactions.py with the transactions of the forks.
--   * Kademlia: the buckets of p2p/kademlia.py. Kademlia.Bucket is about add and remove_node, and
--     Kademlia.Split and Kademlia.Kept about split: the ranges of the halves, and their nodes.
--   * Tests: runs, and the theorems at concrete inputs.
--
-- Numbers are natural numbers without a bound, as in Python, and words keep the reduction modulo
-- 2 ^ 256 that the code writes. A number that may be negative is an integer of Prelude.Int. A byte is
-- a number, an address is its bytes, and a key of a database is a number, since keys are only
-- compared. A method that only logs is left out.
--
-- Bounds. The scan of `is_valid_opcode` runs for `position + 1` rounds at most, since each round moves
-- on; the theorem about it covers that. The loop of the interpreter is cut off after one round more than
-- there is gas, and nested computations after a number of levels, which the caller chooses; a run that
-- is cut off ends in `fuel_exhausted`, which no other code raises. One round more than there is gas is
-- enough, because every round that goes on uses gas, and 1025 levels are enough for computations of
-- any depth, because none is started at a depth over 1024. The search for new ancestors of a header
-- takes fuel; more than the number of the header is enough, since each parent has a lower number. The gas
-- search takes fuel too: k + 1 rounds are enough for a range of 2 ** k, which each round halves.
--
-- Parameters of the model: the hash function and RLP (`Library` in Vm.Accounts), the signature
-- library (`Crypto` in Transactions, `Cryptography` in Vm.Precompiles), and the account database, of
-- which Vm.Steady assumes in `Uncut` that its operations raise no `fuel_exhausted`; the hash of a header
-- in Db.Header and Db.Chain, with the transactions under a root; the hash function and the tries of
-- Db.Account (`Tries`); the execution of a transaction in Estimators; and in Blocks and Chains the roots of
-- transactions, the read of the transactions under a root, the presence of a state root, and the check of
-- a seal, which a proof of work package does.
--
-- Not modelled: tries, the import and mining of blocks, the later forks' rules for transactions, the contracts
-- on alt_bn128 (they only call a library), proof of work, the rest of p2p and the client in trinity.
pub mod Prelude
pub mod Constants
pub mod Exceptions
pub mod Numeric
pub mod Vm
pub mod Db
pub mod Headers
pub mod Transactions
pub mod Kademlia
pub mod Estimators
pub mod Blocks
pub mod Chains
pub mod Tests
