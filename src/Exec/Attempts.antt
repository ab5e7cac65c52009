-- ===== src/Exec/Attempts.antt =====
-- rdb-analyzer/src/data/treewalker/exec.rs: `run_graph`. Between the start of a transaction and its
-- commit others may change the store: `others` says how, attempt by attempt.
pub mod Commits
pub mod Returns
pub mod Checked
use refine_db.Prelude.{ℕ, zero, suc, Option, none, some, List, [], ◌∷◌, Result, ok, err}
use refine_db.Treewalker.Values.{VmValue}
use refine_db.Kv.{KvError, conflict, commit_state_unknown}
use refine_db.Kv.OrderedMap.{OrderedMap}
use refine_db.Kv.MockKv.{Entry, Store, Transaction, begin_transaction, commit}
use refine_db.Exec.Outcome.{Host, Executed, panicked, commit_failed, throw, conflict_after_retries}
use refine_db.Exec.Reduce.{Machine}
use refine_db.Exec.Loop.{Executor, recursively_run_graph, max_recursion_depth}

abbrev pub Others : OrderedMap Entry → Type 0
Others m = List (Store m → Store m)

module _ {m : OrderedMap Entry} where
  abbrev pub interfere : Others m → Store m → Store m
  interfere [] store = store
  interfere (f ∷ others) store = f store

  abbrev pub later : Others m → Others m
  later [] = []
  later (f ∷ others) = others

abbrev pub max_attempts : ℕ
max_attempts = 10

module _ (host : Host) {m : OrderedMap Entry} (ex : Executor) where
  -- The transaction of an attempt, and the run of the graph in it.
  unfoldable pub begin_and_run :
      ℕ → List VmValue → List ℕ → Store m → Executed (Option VmValue × Machine m)
  unfolding recursively_run_graph begin_transaction
  begin_and_run graph_index params choices store =
      recursively_run_graph host ex max_recursion_depth graph_index params
        (record { txn = (begin_transaction m store).0; choices = choices })

  unfoldable pub run_attempts :
      ℕ → ℕ → List VmValue → List ℕ → Others m → Store m → Executed (Option VmValue) × Store m
  unfolding begin_and_run begin_transaction commit
  run_attempts zero graph_index params choices others store = (throw conflict_after_retries, store)
  run_attempts (suc left) graph_index params choices others store =
      let store' = interfere others (begin_transaction m store).1 in
      elim (begin_and_run graph_index params choices store) [
        | err e ↦ (err e, store')
        | ok (ret, s) ↦ elim (commit m s.txn store') [
          | none ↦ (err panicked, store')
          | some (ok _, store'') ↦ (ok ret, store'')
          | some (err commit_state_unknown, store'') ↦
              (err (commit_failed commit_state_unknown), store'')
          | some (err conflict, store'') ↦
              run_attempts left graph_index params s.choices (later others) store''
        ]
      ]

  unfoldable pub run_graph :
      ℕ → List VmValue → List ℕ → Others m → Store m → Executed (Option VmValue) × Store m
  unfolding run_attempts
  run_graph graph_index params choices others store =
      run_attempts max_attempts graph_index params choices others store
