-- ===== src/Kv/MockKv/Commit.antt =====
-- rdb-analyzer/src/data/mock_kv.rs: when `commit` succeeds, what it writes, and no lost updates.
use refine_db.Prelude.{
  ℕ, Bytes, eq_of_bytes_cmp, bytes_cmp_refl, true, false, Option, none, some, List, [], ◌∷◌, ◌≡◌,
  ◌≢◌, refl, sym, ◌∙◌, ap, subst, arith, Result, Option-cases, Bool-cases, ◌⊎◌, inl, inr, ok, err,
}
use refine_db.Kv.{KvError, conflict}
use refine_db.Kv.OrderedMap.{OrderedMap, find}
use refine_db.Kv.MockKv.{Entry, Transaction, Store, version_of, has_conflict, write_back, commit}
use refine_db.Kv.MockKv.Validity.{IsValid, HasUniqueKeys}

module _ (m : OrderedMap Entry) where
  has_conflict-false :
      (l : List (Bytes × ℕ)) (c : m.Map)
      → HasUniqueKeys l
      → ((k : Bytes) (v : ℕ) → find k l ≡ some v → version_of m (m.get k c) ≡ v)
      → has_conflict m l c ≡ false
  unfolding has_conflict
  has_conflict-false [] c u h = refl
  has_conflict-false ((k, v) ∷ l) c u h = ground (
    arith,
    h k v (ground (arith, bytes_cmp_refl k)),
    has_conflict-false l c u.1 (λ j w e. h j w (ground (arith, eq_of_bytes_cmp k j, u.0))),
  )

  pub has_conflict-true :
      (l : List (Bytes × ℕ)) (c : m.Map) (k : Bytes) (v : ℕ)
      → find k l ≡ some v
      → version_of m (m.get k c) ≢ v
      → has_conflict m l c ≡ true
  unfolding has_conflict
  has_conflict-true [] c k v e n = cc
  has_conflict-true ((j, w) ∷ l) c k v e n =
      ground (arith, eq_of_bytes_cmp j k, has_conflict-true l c k v)

  -- What a commit leaves at a key.
  abbrev pub written_back : List (Bytes × ℕ) → m.Map → m.Map → Bytes → Option Entry
  written_back l buffer c k = elim (find k l) [ none ↦ m.get k c | some _ ↦ m.get k buffer ]

  write_back_lem :
      (l : List (Bytes × ℕ)) (buffer c : m.Map)
      → ((k : Bytes) (v : ℕ) → find k l ≡ some v → m.get k buffer ≢ none)
      → HasUniqueKeys l
      → (c' : m.Map) × (write_back m l buffer c ≡ some c')
        × ((k : Bytes) → m.get k c' ≡ written_back l buffer c k)
  unfolding write_back
  write_back_lem [] buffer c h u = (c, refl, λ k. refl)
  write_back_lem ((j, v) ∷ l) buffer c h u = elim (Option-cases (m.get j buffer)) [
    | inl e ↦ absurd (h j v (ground (arith, bytes_cmp_refl j)) e)
    | inr (x, e) ↦
        let (c', done, gets) =
          write_back_lem l buffer (m.insert j x c)
            (λ k w f. h k w (ground (arith, eq_of_bytes_cmp j k, u.0))) u.1 in
        (
          c',
          rw (e, write_back) done,
          λ k. ground (arith, gets k, m.get-insert j k x c, eq_of_bytes_cmp j k, u.0),
        )
  ]

  abbrev pub Wrote : Transaction m → Bytes → Type 0
  Wrote t k = (v : ℕ) × (find k t.modified ≡ some v)

  -- The store has, at every key that the transaction wrote, the version of its snapshot.
  abbrev pub IsCurrent : Transaction m → Store m → Type 0
  IsCurrent t s =
      (k : Bytes)
      → Wrote t k
      → version_of m (m.get k s.contents) ≡ version_of m (m.get k t.read_buffer)

  buffer_has :
      {t : Transaction m}
      → IsValid m t
      → (k : Bytes) (v : ℕ) → find k t.modified ≡ some v
      → m.get k t.buffer ≢ none
  buffer_has h k v e n = ground (arith, h.noted k v)

  -- A commit succeeds where no written key has changed since the snapshot: the written keys then
  -- hold what the transaction wrote, and every other key is as it was.
  pub commit-IsCurrent :
      (t : Transaction m) (s : Store m)
      → IsValid m t
      → IsCurrent t s
      → (s' : Store m) × (commit m t s ≡ some (ok tt, s'))
        × ((k : Bytes) → m.get k s'.contents ≡ written_back t.modified t.buffer s.contents k)
  unfolding commit
  commit-IsCurrent t s h now =
      let quiet : has_conflict m t.modified s.contents ≡ false =
        has_conflict-false t.modified s.contents h.unique
          (λ k v e. now k (v, e) ∙ (h.noted k v e).0) in
      let (c, done, gets) = write_back_lem t.modified t.buffer s.contents (buffer_has h) h.unique in
      (record s { contents = c }, rw (quiet, done), gets)

  -- A commit fails, and leaves the store alone, where some written key has another version than
  -- in the snapshot.
  pub commit_conflict :
      (t : Transaction m) (s : Store m) (k : Bytes)
      → IsValid m t
      → Wrote t k
      → version_of m (m.get k s.contents) ≢ version_of m (m.get k t.read_buffer)
      → commit m t s ≡ some (err conflict, s)
  unfolding commit
  commit_conflict t s k h (v, e) differs =
      rw (has_conflict-true t.modified s.contents k v e (λ q. differs (q ∙ sym (h.noted k v e).0)))

  -- The commit of a valid transaction does not panic: it conflicts or it is done.
  pub commit_cases :
      (t : Transaction m) (s : Store m)
      → IsValid m t
      → (commit m t s ≡ some (err conflict, s))
        ⊎ ((s' : Store m) × (commit m t s ≡ some (ok tt, s')))
  unfolding commit
  commit_cases t s h = elim (Bool-cases (has_conflict m t.modified s.contents)) [
    | inl clash ↦ inl (rw clash)
    | inr quiet ↦
        let (c, done, _) = write_back_lem t.modified t.buffer s.contents (buffer_has h) h.unique in
        inr (record s { contents = c }, rw (quiet, done))
  ]

  -- What a commit that succeeds leaves.
  pub commit-contents :
      (t : Transaction m) (s s' : Store m)
      → IsValid m t
      → commit m t s ≡ some (ok tt, s')
      → (k : Bytes) → m.get k s'.contents ≡ written_back t.modified t.buffer s.contents k
  unfolding commit
  commit-contents t s s' h done k = elim (Bool-cases (has_conflict m t.modified s.contents)) [
    | inl clash ↦ absurd (no_conflict (rw clash at done))
    | inr quiet ↦
        let (c, back, gets) =
          write_back_lem t.modified t.buffer s.contents (buffer_has h) h.unique in
        subst (λ (c' : m.Map). m.get k c' ≡ written_back t.modified t.buffer s.contents k)
          (same_contents (rw quiet (rw back) ∙ done)) (gets k)
  ]
    where
      no_conflict :
          ◌≡◌ {A = Option (Result KvError (Unit {0}) × Store m)}
            (some (err conflict, s))
            (some (ok tt, s'))
          → ⊥
      no_conflict e = cc

      done_store :
          {x y : Store m}
          → ◌≡◌ {A = Option (Result KvError (Unit {0}) × Store m)}
              (some (ok tt, x))
              (some (ok tt, y))
          → x ≡ y
      done_store e = cc

      same_contents :
          {c : m.Map}
          → ◌≡◌ {A = Option (Result KvError (Unit {0}) × Store m)}
              (some (ok tt, record s { contents = c }))
              (some (ok tt, s'))
          → c ≡ s'.contents
      same_contents e = ap (λ (x : Store m). x.contents) (done_store e)
