-- ===== src/Kv/MockKv/Isolation.antt =====
-- rdb-analyzer/src/data/mock_kv.rs: interleaved transactions. The steps of a store are the begins
-- and the successful commits of any transactions, in any order.
use refine_db.Prelude.{
  ℕ, ◌≤◌, ◌<◌, ◌==◌, ==_iff, Bytes, false, Option, some, List, ◌≡◌, refl, sym, ◌∙◌, ap, arith,
  Bool-cases, Option-cases, inl, inr, Result, ok, err,
}
use refine_db.Kv.{KvError, conflict}
use refine_db.Kv.OrderedMap.{OrderedMap, find}
use refine_db.Kv.MockKv.{
  Entry, Transaction, Store, version_of, has_conflict, commit, begin_transaction, Write, run_writes,
}
use refine_db.Kv.MockKv.Validity.{IsValid, transaction-IsValid, read_buffer-run_writes}
use refine_db.Kv.MockKv.Commit.{
  Wrote, IsCurrent, written_back, has_conflict-true, commit_conflict, commit-IsCurrent,
}

module _ (m : OrderedMap Entry) where
  abbrev pub version_at : Store m → Bytes → ℕ
  version_at s k = version_of m (m.get k s.contents)

  noted-IsCurrent :
      (t : Transaction m) (s : Store m)
      → IsValid m t
      → has_conflict m t.modified s.contents ≡ false
      → IsCurrent m t s
  noted-IsCurrent t s h quiet k (v, e) = elim (Bool-cases (version_at s k == v)) [
    | inl same ↦ (==_iff (version_at s k) v).0 same ∙ sym (h.noted k v e).0
    | inr differ ↦ cc (
      has_conflict-true m t.modified s.contents k v e (λ q. cc ((==_iff (version_at s k) v).1 q)),
      quiet,
    )
  ]

  -- Inversion of a successful commit.
  conflict_free :
      (t : Transaction m) (s s' : Store m)
      → commit m t s ≡ some (ok tt, s')
      → has_conflict m t.modified s.contents ≡ false
  unfolding commit
  conflict_free t s s' done = elim (Bool-cases (has_conflict m t.modified s.contents)) [
    | inl c ↦ absurd (cc (rw c at done))
    | inr quiet ↦ quiet
  ]

  stored_eq :
      {s s' : Store m}
      → ◌≡◌ {A = Option (Result KvError (Unit {0}) × Store m)} (some (ok tt, s)) (some (ok tt, s'))
      → s ≡ s'
  stored_eq e = cc

  committed :
      (t : Transaction m) (s s' : Store m)
      → IsValid m t
      → commit m t s ≡ some (ok tt, s')
      → IsCurrent m t s
        × ((k : Bytes) → m.get k s'.contents ≡ written_back m t.modified t.buffer s.contents k)
  committed t s s' h done =
      let now : IsCurrent m t s = noted-IsCurrent t s h (conflict_free t s s' done) in
      let (u, done', gets) = commit-IsCurrent m t s h now in
      (now, λ k. ap (λ (w : Store m). m.get k w.contents) (stored_eq (sym done ∙ done')) ∙ gets k)

  snapshot :
      (s : Store m) (ws : List (Write m))
      → (run_writes m ws (begin_transaction m s).0).read_buffer ≡ s.contents
  unfolding begin_transaction
  snapshot s ws = read_buffer-run_writes m ws _

  -- A store that comes after another: other transactions begin and commit.
  pub data Later (s : Store m) : Store m → Type 0 where
    unchanged : Later s s
    begun : {u : Store m} → Later s u → Later s (begin_transaction m u).1
    stored :
        {u v : Store m} (t : Transaction m)
        → Later s u
        → IsValid m t
        → commit m t u ≡ some (ok tt, v)
        → Later s v

  -- A commit makes the version of each key that it writes grow.
  version-commit-Wrote :
      (t : Transaction m) (s s' : Store m) (k : Bytes)
      → IsValid m t
      → commit m t s ≡ some (ok tt, s')
      → Wrote m t k
      → version_at s k < version_at s' k
  version-commit-Wrote t s s' k h done (v, e) =
      let (now, gets) = committed t s s' h done in
      ground (arith, gets k, h.noted k v, now k (v, e), e)

  version-commit :
      (t : Transaction m) (s s' : Store m) (k : Bytes)
      → IsValid m t
      → commit m t s ≡ some (ok tt, s')
      → version_at s k ≤ version_at s' k
  version-commit t s s' k h done = elim (Option-cases (find k t.modified)) [
    | inl e ↦ let (now, gets) = committed t s s' h done in ground (arith, gets k, e)
    | inr (v, e) ↦ omega (arith, version-commit-Wrote t s s' k h done (v, e))
  ]

  contents-begin : (s : Store m) → (begin_transaction m s).1.contents ≡ s.contents
  unfolding begin_transaction
  contents-begin s = refl

  version-Later : (s s' : Store m) (k : Bytes) → Later s s' → version_at s k ≤ version_at s' k
  version-Later s s' k unchanged = omega arith
  version-Later s s' k (begun {u} l) = rw (contents-begin u) (version-Later s u k l)
  version-Later s s' k (stored {u} t l h done) =
      omega (arith, version-Later s u k l, version-commit t u s' k h done)

  -- No update is lost. A transaction that began at `s` and wrote `k` cannot commit once another
  -- transaction that wrote `k` has committed, whatever else was committed before and after that.
  pub no_lost_update :
      (s u v w : Store m) (ws : List (Write m)) (other : Transaction m) (k : Bytes)
      → Later s u
      → IsValid m other
      → commit m other u ≡ some (ok tt, v)
      → Later v w
      → Wrote m other k
      → Wrote m (run_writes m ws (begin_transaction m s).0) k
      → commit m (run_writes m ws (begin_transaction m s).0) w ≡ some (err conflict, w)
  no_lost_update s u v w ws other k before h done after wrote mine =
      commit_conflict m (run_writes m ws (begin_transaction m s).0) w k (transaction-IsValid m s ws)
        mine
        (λ same. absurd (
          omega (
            arith,
            version-Later s u k before,
            version-commit-Wrote other u v k h done wrote,
            version-Later v w k after,
            same ∙ ap (λ b. version_of m (m.get k b)) (snapshot s ws),
          )))
