-- ===== src/Exec/Attempts/Returns.antt =====
-- rdb-analyzer/src/data/treewalker/exec.rs: that `run_graph` returns or ends.
use refine_db.Prelude.{
  ℕ, zero, suc, ◌<◌, Option, List, ok, err, ◌≡◌, ◌≢◌, refl, sym, ◌∙◌, ap, arith, inl, inr,
  Ensures-elim,
}
use refine_db.Treewalker.Values.{VmValue}
use refine_db.Kv.OrderedMap.{OrderedMap}
use refine_db.Kv.MockKv.{Entry, Store, Transaction, begin_transaction}
use refine_db.Kv.MockKv.Validity.{read_buffer-run_writes}
use refine_db.Kv.MockKv.Commit.{commit_cases, commit-IsCurrent, IsCurrent}
use refine_db.Exec.Outcome.{Host, Executed, Halt, out_of_fuel}
use refine_db.Exec.Reduce.{Machine}
use refine_db.Exec.Loop.{Executor}
use refine_db.Exec.Attempts.{Others, later, begin_and_run, run_attempts, run_graph, max_attempts}
use refine_db.Exec.Ends.{Ends, Ends-err}
use refine_db.Exec.Ends.Loop.{IsRunnable, recursively_run_graph-Ends}
use refine_db.Exec.Writes.Runs.{recursively_run_graph-Leaves}
use refine_db.Exec.Attempts.Commits.{
  Result-cases, begin_and_run-IsValid, at_commit, later_by, LeavesContents, AlwaysReturns,
}

module _ (host : Host) {m : OrderedMap Entry} (ex : Executor) (graph_index : ℕ)
    (params : List VmValue) where
  -- The snapshot of the run is current where the others left the contents alone.
  run-IsCurrent :
      (choices : List ℕ) (others : Others m) (store : Store m) (ret : Option VmValue)
      (s : Machine m)
      → LeavesContents others
      → begin_and_run host ex graph_index params choices store ≡ ok (ret, s)
      → IsCurrent m s.txn (at_commit others store)
  unfolding begin_and_run begin_transaction
  run-IsCurrent choices others store ret s quiet h k wrote =
      let t = (begin_transaction m store).0 in
      let (ws, written) =
        Ensures-elim
          (recursively_run_graph-Leaves host ex 128 graph_index params
            (record { txn = t; choices = choices }))
          h in
      let snapshot : s.txn.read_buffer ≡ store.contents =
        ap (λ (t : Transaction m). t.read_buffer) (sym written) ∙ read_buffer-run_writes m ws t in
      rw (quiet (begin_transaction m store).1, snapshot) refl

  run_attempts_returns :
      (left k : ℕ) (choices : List ℕ) (others : Others m) (store : Store m)
      → k < left
      → LeavesContents (later_by k others)
      → AlwaysReturns host m ex graph_index params
      → (ret : Option VmValue) × ((run_attempts host ex left graph_index params choices others
            store).0
          ≡ ok ret)
  unfolding run_attempts
  run_attempts_returns zero k choices others store h quiet runs = absurd (omega arith)
  run_attempts_returns (suc left) zero choices others store h quiet runs =
      let (ret, s, ran) = runs choices store in
      let (store', done, _) =
        commit-IsCurrent m s.txn (at_commit others store)
          (begin_and_run-IsValid host ex graph_index params choices store ret s ran)
          (run-IsCurrent choices others store ret s quiet ran) in
      (ret, rw (ran, run_attempts) (rw (done, run_attempts) refl))
  run_attempts_returns (suc left) (suc k) choices others store h quiet runs =
      let (ret, s, ran) = runs choices store in
      elim (commit_cases m s.txn (at_commit others store)
        (begin_and_run-IsValid host ex graph_index params choices store ret s ran)) [
          | inl clash ↦
              let (ret', again) =
                run_attempts_returns left k s.choices (later others) (at_commit others store)
                  (omega arith) quiet runs in
              (ret', rw (ran, run_attempts) (rw (clash, run_attempts) again))
          | inr (store', done) ↦ (ret, rw (ran, run_attempts) (rw (done, run_attempts) refl))
        ]

  -- `run_graph` returns a result where the graph itself does, on any store and in any order of its
  -- futures, and the others leave the contents of the store as they are during one of ten attempts.
  pub run_graph_returns :
      (k : ℕ) (choices : List ℕ) (others : Others m) (store : Store m)
      → k < max_attempts
      → LeavesContents (later_by k others)
      → AlwaysReturns host m ex graph_index params
      → (ret : Option VmValue) × ((run_graph host ex graph_index params choices others store).0
          ≡ ok ret)
  unfolding run_graph
  run_graph_returns k choices others store h quiet runs =
      run_attempts_returns max_attempts k choices others store h quiet runs

  same_error :
      {e : Halt}
      → ◌≡◌ {A = Executed (Option VmValue)} (err e) (err out_of_fuel)
      → ◌≡◌ {A = Executed (Option VmValue × Machine m)} (err e) (err out_of_fuel)
  same_error h = cc

  begin_and_run-Ends :
      IsRunnable ex
      → (choices : List ℕ) (store : Store m)
      → Ends (begin_and_run host ex graph_index params choices store)
  unfolding begin_and_run
  begin_and_run-Ends runnable choices store =
      recursively_run_graph-Ends host ex runnable 128 graph_index params
        (record { txn = (begin_transaction m store).0; choices = choices })

  run_attempts_end :
      IsRunnable ex
      → (left : ℕ) (choices : List ℕ) (others : Others m) (store : Store m)
      → (run_attempts host ex left graph_index params choices others store).0 ≢ err out_of_fuel
  unfolding run_attempts
  run_attempts_end runnable zero choices others store = λ e. cc
  run_attempts_end runnable (suc left) choices others store =
      elim (Result-cases (begin_and_run host ex graph_index params choices store)) [
        | inl (e, h) ↦
            rw (h, run_attempts)
              (λ same. Ends-err (begin_and_run-Ends runnable choices store) (h ∙ same_error same))
        | inr ((ret, s), h) ↦
            elim (commit_cases m s.txn (at_commit others store)
              (begin_and_run-IsValid host ex graph_index params choices store ret s h)) [
                | inl clash ↦
                    rw (h, run_attempts)
                      (rw (clash, run_attempts)
                        (run_attempts_end runnable left s.choices (later others)
                          (at_commit others store)))
                | inr (store', done) ↦ rw (h, run_attempts) (rw (done, run_attempts) (λ e. cc))
              ]
      ]

  -- `run_graph` ends: whatever the choices of the scheduler and the others do, the loops of the graphs
  -- that it runs do not go on beyond their fuel, in a script whose graphs are sorted and whose nodes
  -- name no source twice.
  pub run_graph_ends :
      (choices : List ℕ) (others : Others m) (store : Store m)
      → IsRunnable ex
      → (run_graph host ex graph_index params choices others store).0 ≢ err out_of_fuel
  unfolding run_graph
  run_graph_ends choices others store runnable =
      run_attempts_end runnable max_attempts choices others store
