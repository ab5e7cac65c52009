-- ===== src/Exec/Attempts/Commits.antt =====
-- rdb-analyzer/src/data/treewalker/exec.rs: what `run_graph` leaves of the store.
use refine_db.Prelude.{
  ℕ, zero, suc, ◌<◌, Option, some, List, ok, err, ◌≡◌, refl, subst, arith, inl, inr, ◌⊎◌,
  Ensures-elim,
}
use refine_db.Treewalker.Values.{VmValue}
use refine_db.Kv.OrderedMap.{OrderedMap}
use refine_db.Kv.MockKv.{Entry, Store, begin_transaction, commit}
use refine_db.Kv.MockKv.Validity.{IsValid, transaction-IsValid}
use refine_db.Kv.MockKv.Commit.{commit_cases}
use refine_db.Exec.Outcome.{Host, Executed, Halt, failed, conflict_after_retries}
use refine_db.Kv.{conflict}
use refine_db.Exec.Reduce.{Machine}
use refine_db.Exec.Loop.{Executor}
use refine_db.Exec.Attempts.{
  Others, interfere, later, begin_and_run, run_attempts, run_graph, max_attempts,
}
use refine_db.Exec.Writes.Runs.{recursively_run_graph-Leaves}

pub Result-cases :
    {A : Type 0} (r : Executed A) → ((e : Halt) × (r ≡ err e)) ⊎ ((a : A) × (r ≡ ok a))
Result-cases (err e) = inl (e, refl)
Result-cases (ok a) = inr (a, refl)

module _ {m : OrderedMap Entry} where
  -- The store at the commit of an attempt, and the others behind some attempts.
  abbrev pub at_commit : Others m → Store m → Store m
  at_commit others store = interfere others (begin_transaction m store).1

  abbrev pub later_by : ℕ → Others m → Others m
  later_by zero others = others
  later_by (suc k) others = later_by k (later others)

  -- The others leave the contents of the store as they are.
  abbrev pub LeavesContents : Others m → Type 0
  LeavesContents others = (store : Store m) → (interfere others store).contents ≡ store.contents

-- The graph runs on any store and in any order.
abbrev pub AlwaysReturns : Host → (m : OrderedMap Entry) → Executor → ℕ → List VmValue → Type 0
AlwaysReturns host m ex graph_index params =
    (choices : List ℕ) (store : Store m)
    → (ret : Option VmValue) × (s : Machine m) × (begin_and_run host ex graph_index params choices
          store
        ≡ ok (ret, s))

module _ (host : Host) {m : OrderedMap Entry} (ex : Executor) (graph_index : ℕ)
    (params : List VmValue) where
  -- Attempts in a row, each of which ran the graph and whose commit reported a conflict: they leave
  -- these choices to the scheduler and these others to come, and the store as the others have it.
  pub data Conflicts : ℕ → List ℕ → Others m → Store m → List ℕ → Others m → Store m → Type 0 where
    no_conflict :
        (choices : List ℕ) (others : Others m) (store : Store m)
        → Conflicts 0 choices others store choices others store
    conflict_first :
        {k : ℕ} {choices choices' : List ℕ} {others others' : Others m} {store store' : Store m}
        (ret : Option VmValue) (s : Machine m)
        → begin_and_run host ex graph_index params choices store ≡ ok (ret, s)
        → commit m s.txn (at_commit others store) ≡ some (err conflict, at_commit others store)
        → Conflicts k s.choices (later others) (at_commit others store) choices' others' store'
        → Conflicts (suc k) choices others store choices' others' store'

  -- Behind these conflicts, an attempt ran the graph and committed its transaction.
  pub record IsCommitted (limit : ℕ) (choices : List ℕ) (others : Others m) (store : Store m)
      (ret : Option VmValue) (store' : Store m) : Type 0 where
    pub k : ℕ
    pub in_time : k < limit
    pub choices_then : List ℕ
    pub others_then : Others m
    pub store_then : Store m
    pub conflicts : Conflicts k choices others store choices_then others_then store_then
    pub ran : Machine m
    pub has_run : begin_and_run host ex graph_index params choices_then store_then ≡ ok (ret, ran)
    pub has_committed : commit m ran.txn (at_commit others_then store_then) ≡ some (ok tt, store')

  -- Behind these conflicts, the run of the graph failed, and nothing was committed.
  pub record IsFailed (limit : ℕ) (choices : List ℕ) (others : Others m) (store : Store m)
      (e : Halt) (store' : Store m) : Type 0 where
    pub k : ℕ
    pub in_time : k < limit
    pub choices_then : List ℕ
    pub others_then : Others m
    pub store_then : Store m
    pub conflicts : Conflicts k choices others store choices_then others_then store_then
    pub has_failed : begin_and_run host ex graph_index params choices_then store_then ≡ err e
    pub is_untouched : store' ≡ at_commit others_then store_then

  -- Every attempt ended in a conflict.
  pub record IsExhausted (limit : ℕ) (choices : List ℕ) (others : Others m) (store : Store m)
      (e : Halt) (store' : Store m) : Type 0 where
    pub choices_then : List ℕ
    pub others_then : Others m
    pub conflicts : Conflicts limit choices others store choices_then others_then store'
    pub is_conflict : e ≡ failed conflict_after_retries

  abbrev pub IsAtomic :
      ℕ → List ℕ → Others m → Store m → Executed (Option VmValue) × Store m → Type 0
  IsAtomic limit choices others store (ok ret, store') =
      IsCommitted limit choices others store ret store'
  IsAtomic limit choices others store (err e, store') =
      IsFailed limit choices others store e store' ⊎ IsExhausted limit choices others store e store'

  pub begin_and_run-IsValid :
      (choices : List ℕ) (store : Store m) (ret : Option VmValue) (s : Machine m)
      → begin_and_run host ex graph_index params choices store ≡ ok (ret, s)
      → IsValid m s.txn
  unfolding begin_and_run
  begin_and_run-IsValid choices store ret s h =
      let (ws, written) =
        Ensures-elim
          (recursively_run_graph-Leaves host ex 128 graph_index params
            (record { txn = (begin_transaction m store).0; choices = choices }))
          h in
      subst (IsValid m) written (transaction-IsValid m store ws)

  -- One more conflict before.
  IsAtomic-later :
      (left : ℕ) (choices : List ℕ) (others : Others m) (store : Store m) (ret : Option VmValue)
      (s : Machine m) (r : Executed (Option VmValue) × Store m)
      → begin_and_run host ex graph_index params choices store ≡ ok (ret, s)
      → commit m s.txn (at_commit others store) ≡ some (err conflict, at_commit others store)
      → IsAtomic left s.choices (later others) (at_commit others store) r
      → IsAtomic (suc left) choices others store r
  IsAtomic-later left choices others store ret s (ok ret', store') ran clash h = record {
    k = suc h.k;
    in_time = omega (arith, h.in_time);
    choices_then = h.choices_then;
    others_then = h.others_then;
    store_then = h.store_then;
    conflicts = conflict_first ret s ran clash h.conflicts;
    ran = h.ran;
    has_run = h.has_run;
    has_committed = h.has_committed;
  }
  IsAtomic-later left choices others store ret s (err e, store') ran clash (inl h) = inl (record {
    k = suc h.k;
    in_time = omega (arith, h.in_time);
    choices_then = h.choices_then;
    others_then = h.others_then;
    store_then = h.store_then;
    conflicts = conflict_first ret s ran clash h.conflicts;
    has_failed = h.has_failed;
    is_untouched = h.is_untouched;
  })
  IsAtomic-later left choices others store ret s (err e, store') ran clash (inr h) = inr (record {
    choices_then = h.choices_then;
    others_then = h.others_then;
    conflicts = conflict_first ret s ran clash h.conflicts;
    is_conflict = h.is_conflict;
  })

  run_attempts-IsAtomic :
      (left : ℕ) (choices : List ℕ) (others : Others m) (store : Store m)
      → IsAtomic left choices others store
          (run_attempts host ex left graph_index params choices others store)
  unfolding run_attempts
  run_attempts-IsAtomic zero choices others store = inr (record {
    choices_then = choices;
    others_then = others;
    conflicts = no_conflict choices others store;
    is_conflict = refl;
  })
  run_attempts-IsAtomic (suc left) choices others store =
      elim (Result-cases (begin_and_run host ex graph_index params choices store)) [
        | inl (e, h) ↦
            rw (h, run_attempts)
              (inl (record {
                k = 0;
                in_time = omega arith;
                choices_then = choices;
                others_then = others;
                store_then = store;
                conflicts = no_conflict choices others store;
                has_failed = h;
                is_untouched = refl;
              }))
        | inr ((ret, s), h) ↦
            elim (commit_cases m s.txn (at_commit others store)
              (begin_and_run-IsValid choices store ret s h)) [
                | inl clash ↦
                    rw (h, run_attempts)
                      (rw (clash, run_attempts)
                        (IsAtomic-later left choices others store ret s _ h clash (
                          run_attempts-IsAtomic left s.choices (later others)
                            (at_commit others store))))
                | inr (store', done) ↦
                    rw (h, run_attempts)
                      (rw (done, run_attempts)
                        (record {
                          k = 0;
                          in_time = omega arith;
                          choices_then = choices;
                          others_then = others;
                          store_then = store;
                          conflicts = no_conflict choices others store;
                          ran = s;
                          has_run = h;
                          has_committed = done;
                        }))
              ]
      ]

  -- `run_graph` is atomic. Where it returns, fewer than ten attempts each ran the graph and then ended
  -- in a conflict, which left the store as the others had it; the next one ran the graph with that
  -- result, and the store is what its commit made of it. Where it fails, either fewer than ten attempts
  -- so ended in a conflict and the run of the next one failed with that error, or all ten did and the
  -- error is that for conflicts; the store is as the others have left it.
  pub run_graph-IsAtomic :
      (choices : List ℕ) (others : Others m) (store : Store m)
      → IsAtomic max_attempts choices others store
          (run_graph host ex graph_index params choices others store)
  unfolding run_graph
  run_graph-IsAtomic choices others store = run_attempts-IsAtomic max_attempts choices others store
