-- ===== src/Kv/MockKv/Scan.antt =====
-- rdb-analyzer/src/data/mock_kv.rs: what a scan yields, and what `delete_range` deletes.
use Prim.Native.Nat.Ordering.{lt}
use refine_db.Prelude.{
  ℕ, zero, suc, ◌<◌, Bytes, bytes_cmp, bytes_lt, bytes_cmp_trans, false, Option, none, some, List,
  [], ◌∷◌, ◌++◌, length, ◌≡◌, refl, arith,
}
use refine_db.Kv.OrderedMap.{OrderedMap, within, IsBelow, IsAscending}
use refine_db.Kv.MockKv.{Entry, Transaction, Iterator, scan_keys, advance, next}

-- The live keys among some entries.
abbrev pub live_keys : List (Bytes × Entry) → List Bytes
live_keys [] = []
live_keys ((k, (some _, _)) ∷ l) = k ∷ live_keys l
live_keys ((k, (none, _)) ∷ l) = live_keys l

module _ (m : OrderedMap Entry) where
  -- The caller's loop, `while let Some(k) = it.next()`, on fuel.
  drain_step : (Iterator m → Option (List Bytes)) → Option Bytes × Iterator m → Option (List Bytes)
  drain_step again (none, it) = some []
  drain_step again (some k, it) = elim (again it) [ none ↦ none | some keys ↦ some (k ∷ keys) ]

  unfoldable pub drain : ℕ → Iterator m → Option (List Bytes)
  unfolding drain_step
  drain zero it = none
  drain (suc fuel) it = drain_step (drain fuel) (next m it)

-- After `k`, in ascending entries, comes what is from `k ++ 00` on.
after_key : (k j : Bytes) → bytes_lt j (k ++ 0 ∷ []) ≡ false → bytes_cmp k j ≡ lt
unfolding bytes_cmp
after_key [] [] h = cc
after_key [] (y ∷ j) h = refl
after_key (x ∷ k) [] h = cc
after_key (x ∷ k) (y ∷ j) h = ground (arith, after_key k j)

not_before : (k j : Bytes) → bytes_cmp k j ≡ lt → bytes_lt j (k ++ 0 ∷ []) ≡ false
unfolding bytes_cmp
not_before [] [] h = cc
not_before [] (zero ∷ []) h = refl
not_before [] (zero ∷ (z ∷ j)) h = refl
not_before [] (suc y ∷ j) h = ground arith
not_before (x ∷ k) [] h = cc
not_before (x ∷ k) (y ∷ j) h = ground (arith, not_before k j)

lt_after_key : (j k : Bytes) → bytes_cmp j k ≡ lt → bytes_cmp j (k ++ 0 ∷ []) ≡ lt
unfolding bytes_cmp
lt_after_key [] [] h = refl
lt_after_key [] (y ∷ k) h = refl
lt_after_key (x ∷ j) [] h = cc
lt_after_key (x ∷ j) (y ∷ k) h = ground (arith, lt_after_key j k)

self_after_key : (k : Bytes) → bytes_cmp k (k ++ 0 ∷ []) ≡ lt
unfolding bytes_cmp
self_after_key [] = refl
self_after_key (x ∷ k) = ground (arith, self_after_key k)

not_lt_trans : (i k c : Bytes) → bytes_lt k c ≡ false → bytes_cmp k i ≡ lt → bytes_lt i c ≡ false
not_lt_trans i k c h b = ground (arith, bytes_cmp_trans k i c)

-- Above `k` a range from `k ++ 00` and a range from a start that `k` has reached are one.
within_above :
    (start end k : Bytes) (l : List (Bytes × Entry))
    → IsBelow k l
    → bytes_lt k start ≡ false
    → within (k ++ 0 ∷ []) end l ≡ within start end l
within_above start end k [] b h = refl
within_above start end k ((i, w) ∷ l) b h =
    rw (not_before k i b.0, not_lt_trans i k start h b.0, within_above start end k l b.1 h)

first_above :
    (start end j k : Bytes) (x : Entry) (l rest : List (Bytes × Entry))
    → IsBelow j l
    → within start end l ≡ (k, x) ∷ rest
    → bytes_cmp j k ≡ lt
first_above start end j k x [] rest b e = cc
first_above start end j k x ((i, w) ∷ l) rest b e =
    ground (arith, b, first_above start end j k x l rest)

-- What is left of a range behind its first entry.
within_rest :
    (start end k : Bytes) (x : Entry) (l rest : List (Bytes × Entry))
    → IsAscending l
    → within start end l ≡ (k, x) ∷ rest
    → within (k ++ 0 ∷ []) end l ≡ rest
within_rest start end k x [] rest h e = cc
within_rest start end k x ((j, w) ∷ l) rest h e = ground (
  arith,
  self_after_key k,
  within_above start end j l h.0,
  first_above start end j k x l rest h.0,
  lt_after_key j k,
  within_rest start end k x l rest h.1,
)

module _ (m : OrderedMap Entry) where
  abbrev pub left_of : Iterator m → List (Bytes × Entry)
  left_of it = within it.current it.end (m.entries it.map)

  -- The result of a step: no live key is left, or it is the first and the iterator is past it.
  abbrev pub Advanced : List (Bytes × Entry) → Option Bytes × Iterator m → Type 0
  Advanced l (none, it) = live_keys l ≡ []
  Advanced l (some k, it) =
      (live_keys l ≡ k ∷ live_keys (left_of it)) × (length (left_of it) < length l)

  advance-Advanced :
      (l : List (Bytes × Entry)) (it : Iterator m) → left_of it ≡ l → Advanced l (advance m l it)
  unfolding advance
  advance-Advanced [] it e = refl
  advance-Advanced ((k, (some v, n)) ∷ l) it e =
      let rest =
        within_rest it.current it.end k (some v, n) (m.entries it.map) l
          (m.entries-IsAscending it.map) e in
      rw rest (refl, omega arith)
  advance-Advanced ((k, (none, n)) ∷ l) it e =
      let rest =
        within_rest it.current it.end k (none, n) (m.entries it.map) l
          (m.entries-IsAscending it.map) e in
      Advanced-cons k n l (advance m l (record it { current = k ++ 0 ∷ [] }))
        (advance-Advanced l (record it { current = k ++ 0 ∷ [] }) rest)
    where
      Advanced-cons :
          (k : Bytes) (n : ℕ) (l : List (Bytes × Entry)) (r : Option Bytes × Iterator m)
          → Advanced l r
          → Advanced ((k, (none, n)) ∷ l) r
      Advanced-cons k n l (none, it) h = h
      Advanced-cons k n l (some j, it) h = (h.0, omega arith)

  pub next-Advanced : (it : Iterator m) → Advanced (left_of it) (next m it)
  unfolding next
  next-Advanced it =
      rw (m.range_lem it.current it.end it.map) (advance-Advanced (left_of it) it refl)

  drain_step-Advanced :
      (again : Iterator m → Option (List Bytes)) (l : List (Bytes × Entry))
      (r : Option Bytes × Iterator m)
      → Advanced l r
      → ((it : Iterator m)
          → length (left_of it) < length l
          → again it ≡ some (live_keys (left_of it)))
      → drain_step m again r ≡ some (live_keys l)
  unfolding drain_step
  drain_step-Advanced again l (none, it) a ih = rw a
  drain_step-Advanced again l (some k, it) a ih = rw a.0 (rw (drain_step, ih it a.1))

  -- An iterator yields, with enough fuel for the entries ahead, exactly their live keys in order.
  drain_lem :
      (fuel : ℕ) (it : Iterator m)
      → length (left_of it) < fuel
      → drain m fuel it ≡ some (live_keys (left_of it))
  unfolding drain
  drain_lem zero it h = elim h [ ]
  drain_lem (suc fuel) it h =
      drain_step-Advanced (drain m fuel) (left_of it) (next m it) (next-Advanced it)
        (λ it' less. drain_lem fuel it' (omega arith))

  -- A scan, read to its end, yields exactly the keys of the transaction's buffer that lie in the
  -- range and are not deleted, in ascending order; fuel above the number of entries is enough.
  pub drain-scan_keys :
      (fuel : ℕ) (start end : Bytes) (t : Transaction m)
      → length (within start end (m.entries t.buffer)) < fuel
      → drain m fuel (scan_keys m start end t)
        ≡ some (live_keys (within start end (m.entries t.buffer)))
  unfolding scan_keys
  drain-scan_keys fuel start end t h =
      drain_lem fuel (record { map = t.buffer; current = start; end = end }) h
