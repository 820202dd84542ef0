-- ===== src/Vm/Computation/Collect.antt =====
-- evm/vm/computation.py: what a finished computation and its children have collected.
use py_evm.Prelude.{ℕ, ◌+◌, List, [], ◌∷◌, ◌++◌, leb, if◌then◌else◌}
use py_evm.Numeric.{bytes_eq}
use py_evm.Vm.Message.{Address}
use py_evm.Vm.Computation.{Computation, LogEntry, Child, child, Children, nil, cons}
use py_evm.Vm.Computation.Outcome.{failed, as_child}

-- A dictionary from a row of items: a later item replaces the value of an earlier one in its place.
unfoldable pub put_item : Address → Address → List (Address × Address) → List (Address × Address)
put_item k v [] = (k, v) ∷ []
put_item k v ((j, w) ∷ d) = if bytes_eq j k then (k, v) ∷ d else (j, w) ∷ put_item k v d

unfoldable pub put_items :
    List (Address × Address) → List (Address × Address) → List (Address × Address)
unfolding put_item
put_items d [] = d
put_items d ((k, v) ∷ items) = put_items (put_item k v d) items

-- Logs in the order of their counters.
unfoldable pub insert_log : LogEntry → List LogEntry → List LogEntry
insert_log e [] = e ∷ []
insert_log e (f ∷ fs) = if leb e.counter f.counter then e ∷ f ∷ fs else f ∷ insert_log e fs

unfoldable pub sort_logs : List LogEntry → List LogEntry
unfolding insert_log
sort_logs [] = []
sort_logs (e ∷ es) = insert_log e (sort_logs es)

unfoldable mutual
  unfolding put_items

  -- `get_gas_refund`, of a child and of a row of children.
  pub child_refund : Child → ℕ
  child_refund (child o kids) =
      let rest = children_refund kids in if failed o.error then 0 else o.gas_refunded + rest

  pub children_refund : Children → ℕ
  children_refund nil = 0
  children_refund (cons c kids) = child_refund c + children_refund kids

  -- `get_accounts_for_deletion`
  pub child_deletions : Child → List (Address × Address)
  child_deletions (child o kids) =
      let rest = children_deletions kids in
      if failed o.error then [] else put_items [] (o.accounts_to_delete ++ rest)

  pub children_deletions : Children → List (Address × Address)
  children_deletions nil = []
  children_deletions (cons c kids) = child_deletions c ++ children_deletions kids

mutual
  unfolding sort_logs

  -- `_get_log_entries`
  pub child_logs : Child → List LogEntry
  child_logs (child o kids) =
      let rest = children_logs kids in
      if failed o.error then [] else sort_logs (o.log_entries ++ rest)

  pub children_logs : Children → List LogEntry
  children_logs nil = []
  children_logs (cons c kids) = child_logs c ++ children_logs kids

module _ {W : Type 0} where
  abbrev pub get_gas_refund : Computation W → ℕ
  get_gas_refund c = child_refund (as_child c)

  abbrev pub get_accounts_for_deletion : Computation W → List (Address × Address)
  get_accounts_for_deletion c = child_deletions (as_child c)

  abbrev pub get_log_entries : Computation W → List LogEntry
  get_log_entries c = child_logs (as_child c)
