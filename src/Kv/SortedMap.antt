-- ===== src/Kv/SortedMap.antt =====
-- An implementation of `OrderedMap` by ascending lists: the laws can be met, and tests can run.
use Prim.Native.Nat.Ordering.{lt, eq, gt}
use refine_db.Prelude.{
  Bytes, bytes_cmp, bytes_cmp_refl, eq_of_bytes_cmp, bytes_cmp_trans, bytes_eq, lt_of_bytes_gt,
  Ordering-cases, inl, inr, if◌then◌else◌, some, List, [], ◌∷◌, ◌≡◌, refl, arith,
}
use refine_db.Kv.OrderedMap.{OrderedMap, find, within, IsBelow, IsAscending}

module _ {V : Type 0} where
  unfoldable pub insert_sorted : Bytes → V → List (Bytes × V) → List (Bytes × V)
  insert_sorted k v [] = (k, v) ∷ []
  insert_sorted k v ((j, w) ∷ l) =
      let rest = insert_sorted k v l in
      elim (bytes_cmp k j) [ lt ↦ (k, v) ∷ (j, w) ∷ l | eq ↦ (k, v) ∷ l | gt ↦ (j, w) ∷ rest ]

  IsBelow-trans :
      (i j : Bytes) (l : List (Bytes × V)) → bytes_cmp i j ≡ lt → IsBelow j l → IsBelow i l
  IsBelow-trans i j [] h b = tt
  IsBelow-trans i j ((k, v) ∷ l) h b = (bytes_cmp_trans i j k h b.0, IsBelow-trans i j l h b.1)

  IsBelow-insert_sorted :
      (i k : Bytes) (v : V) (l : List (Bytes × V))
      → bytes_cmp i k ≡ lt
      → IsBelow i l
      → IsBelow i (insert_sorted k v l)
  unfolding insert_sorted
  IsBelow-insert_sorted i k v [] h b = (h, tt)
  IsBelow-insert_sorted i k v ((j, w) ∷ l) h b = ground (arith, IsBelow-insert_sorted i k v l)

  pub insert_sorted-IsAscending :
      (k : Bytes) (v : V) (l : List (Bytes × V)) → IsAscending l → IsAscending (insert_sorted k v l)
  unfolding insert_sorted
  insert_sorted-IsAscending k v [] h = (tt, tt)
  insert_sorted-IsAscending k v ((j, w) ∷ l) h = elim (Ordering-cases (bytes_cmp k j)) [
    | inl e ↦ rw (e, insert_sorted) ((e, IsBelow-trans k j l e h.0), h)
    | inr (inl e) ↦ rw (e, insert_sorted) (rw (eq_of_bytes_cmp k j e) h)
    | inr (inr e) ↦
        rw (e, insert_sorted)
          (
            IsBelow-insert_sorted j k v l (lt_of_bytes_gt k j e) h.0,
            insert_sorted-IsAscending k v l h.1,
          )
  ]

  pub find-insert_sorted :
      (k j : Bytes) (v : V) (l : List (Bytes × V))
      → find j (insert_sorted k v l) ≡ (if bytes_eq k j then some v else find j l)
  unfolding insert_sorted
  find-insert_sorted k j v [] = refl
  find-insert_sorted k j v ((i, w) ∷ l) = ground (
    arith,
    eq_of_bytes_cmp k i,
    eq_of_bytes_cmp k j,
    eq_of_bytes_cmp i j,
    bytes_cmp_refl k,
    bytes_cmp_refl j,
    find-insert_sorted k j v l,
  )

  unfoldable pub sorted_map : OrderedMap V
  sorted_map = record {
    Map = (l : List (Bytes × V)) × IsAscending l;
    entries = λ m. m.0;
    empty = ([], tt);
    get = λ k m. find k m.0;
    insert = λ k v m. (insert_sorted k v m.0, insert_sorted-IsAscending k v m.0 m.1);
    range = λ start end m. within start end m.0;
    entries-IsAscending = λ m. m.1;
    get_lem = λ k m. refl;
    get-empty = λ k. refl;
    get-insert = λ k j v m. find-insert_sorted k j v m.0;
    range_lem = λ start end m. refl;
  }
