-- ===== src/Exec/DeleteSet.antt =====
-- rdb-analyzer/src/data/treewalker/exec.rs: `delete_set` takes away the members of a set.
use refine_db.Prelude.{
  ℕ, ◌+◌, Bytes, bytes_cmp, bytes_cmp_extend, if◌then◌else◌, Bool, true, false, Option, none, [],
  ◌∷◌, ◌++◌, append_assoc, ◌≡◌, refl, ◌∙◌, ap, ok, Ensures, returns, ◌⟫◌, Ensures-elim, arith,
}
use refine_db.Value.{PrimitiveValue, serialize_for_key_component}
use refine_db.PathWalker.{Walker, frame, generate_key, enter_set}
use refine_db.PathWalker.Keys.{set_fast_scan_prefix_lem, set_data_prefix_lem}
use refine_db.PathWalker.Sets.{Below}
use refine_db.Kv.OrderedMap.{OrderedMap, in_range}
use refine_db.Kv.MockKv.{Entry, Transaction, delete_range}
use refine_db.Kv.MockKv.Range.{buffered, buffered-delete_range}
use refine_db.Exec.SetKeys.{key_of_member, element_key, in_range_prefix}
use refine_db.Exec.{delete_set, move_up}

move_up-append : (y : ℕ) (k : Bytes) → move_up (k ++ y ∷ []) ≡ k ++ (y + 1) ∷ []
move_up-append y [] = refl
move_up-append y (b ∷ []) = refl
move_up-append y (b ∷ (c ∷ k)) = ap (◌∷◌ b) (move_up-append y (c ∷ k))

module _ (m : OrderedMap Entry) (w : Walker) where
  -- The keys of the index, and the keys of the data.
  abbrev pub in_index : Bytes → Bool
  in_index k = in_range (generate_key w ++ 1 ∷ []) (generate_key w ++ 2 ∷ []) k

  abbrev pub in_data : Bytes → Bool
  in_data k = in_range (generate_key w ++ 0 ∷ []) (generate_key w ++ 1 ∷ []) k

  abbrev pub after_delete_set : Transaction m → Bytes → Option Bytes
  after_delete_set t k = if in_data k then none else if in_index k then none else buffered m t k

  cleared :
      (t : Transaction m) (i d k : Bytes)
      → i ≡ generate_key w ++ 1 ∷ []
      → d ≡ generate_key w ++ 0 ∷ []
      → buffered m (delete_range m d (move_up d) (delete_range m i (move_up i) t)) k
        ≡ after_delete_set t k
  cleared t i d k e f =
      rw (e, f, move_up-append 1 (generate_key w), move_up-append 0 (generate_key w))
        (ground (
          arith,
          buffered-delete_range m (generate_key w ++ 1 ∷ []) (generate_key w ++ 2 ∷ []) k t,
          buffered-delete_range m (generate_key w ++ 0 ∷ []) (generate_key w ++ 1 ∷ []) k
              (delete_range m (generate_key w ++ 1 ∷ []) (generate_key w ++ 2 ∷ []) t),
        ))

  pub delete_set_lem :
      (t : Transaction m)
      → Ensures (λ t'. (k : Bytes) → buffered m t' k ≡ after_delete_set t k) (delete_set m w t)
  unfolding delete_set
  delete_set_lem t = set_fast_scan_prefix_lem w ⟫ λ i e.
      set_data_prefix_lem w ⟫ λ d f. returns (λ k. cleared t i d k e f)

range_of_byte : (b : ℕ) (r : Bytes) → in_range (b ∷ []) ((b + 1) ∷ []) (b ∷ r) ≡ true
unfolding bytes_cmp
range_of_byte b [] = ground arith
range_of_byte b (x ∷ r) = ground arith

in_data_range :
    (g p r : Bytes) → in_range (g ++ 0 ∷ []) (g ++ 1 ∷ []) (((g ++ 0 ∷ []) ++ p) ++ r) ≡ true
in_data_range g p r =
    rw (append_assoc (g ++ 0 ∷ []) p r, append_assoc g (0 ∷ []) (p ++ r))
      (in_range_prefix g (0 ∷ []) (1 ∷ []) (0 ∷ (p ++ r)) ∙ range_of_byte 0 (p ++ r))

in_index_range : (g p : Bytes) → in_range (g ++ 1 ∷ []) (g ++ 2 ∷ []) ((g ++ 1 ∷ []) ++ p) ≡ true
in_index_range g p =
    rw (append_assoc g (1 ∷ []) p) (in_range_prefix g (1 ∷ []) (2 ∷ []) (1 ∷ p) ∙ range_of_byte 1 p)

-- The key of the set itself is below the ranges of its members.
own_key_not_in_range : (g : Bytes) (b : ℕ) → in_range (g ++ b ∷ []) (g ++ (b + 1) ∷ []) g ≡ false
own_key_not_in_range g b = ground (arith, bytes_cmp_extend g b [], bytes_cmp_extend g (b + 1) [])

module _ (m : OrderedMap Entry) (w : Walker) (t t' : Transaction m) where
  -- Clearing a set that is not flattened takes away, for every primary key, the entry in the index
  -- of keys and every key at or below the element; the key of the set itself stays as it was.
  pub delete_set_removes :
      (v : PrimitiveValue) (e u : Walker)
      → (frame w).should_flatten ≡ false
      → enter_set w v ≡ ok e
      → Below e u
      → delete_set m w t ≡ ok t'
      → (buffered m t' (generate_key u) ≡ none)
        × (buffered m t' (key_of_member w v) ≡ none)
        × (buffered m t' (generate_key w) ≡ buffered m t (generate_key w))
  delete_set_removes v e u kept entered below done =
      let (r, key) = element_key w e u v kept entered below in
      let after = Ensures-elim (delete_set_lem m w t) done in
      (
        after (generate_key u)
            ∙ rw key (rw (in_data_range (generate_key w) (serialize_for_key_component v) (0 ∷ r))),
        after (key_of_member w v)
            ∙ ground (arith, in_index_range (generate_key w) (serialize_for_key_component v)),
        after (generate_key w)
            ∙ rw (own_key_not_in_range (generate_key w) 0, own_key_not_in_range (generate_key w) 1),
      )
