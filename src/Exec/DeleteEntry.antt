-- ===== src/Exec/DeleteEntry.antt =====
-- rdb-analyzer/src/data/treewalker/exec.rs: `delete_entry_from_set` takes away one entry.
use refine_db.Prelude.{
  Bytes, bytes_cmp_refl, bytes_cmp_extend, bytes_cmp_prefix, bytes_eq, if◌then◌else◌, false, Option,
  none, [], ◌∷◌, ◌++◌, append_assoc, ◌≡◌, ◌≢◌, sym, ◌∙◌, ok, Ensures, returns, ◌⟫◌, Ensures-elim,
  arith,
}
use refine_db.Value.{PrimitiveValue, string, get_type, IsRepresentable, serialize_for_key_component}
use refine_db.Value.Delimit.{IsPlain}
use refine_db.PathWalker.{Walker, frame, generate_key, enter_set}
use refine_db.PathWalker.Keys.{set_fast_scan_prefix_lem, set_data_prefix_lem}
use refine_db.PathWalker.Sets.{Below}
use refine_db.Kv.OrderedMap.{OrderedMap, in_range}
use refine_db.Kv.MockKv.{Entry, Transaction, delete, delete_range}
use refine_db.Kv.MockKv.Range.{buffered, buffered-delete, buffered-delete_range}
use refine_db.Exec.SetKeys.{
  data_key, key_of_member, element_key, set_last-append, in_own_range, member_not_data,
  member_not_in_range, other_data_not_in_range, members_differ,
}
use refine_db.Exec.{delete_entry_from_set, fast_scan_key, set_last}

module _ (m : OrderedMap Entry) (w : Walker) (v : PrimitiveValue) where
  fast_scan_key_lem : Ensures (λ k. k ≡ key_of_member w v) (fast_scan_key w v)
  unfolding fast_scan_key
  fast_scan_key_lem = set_fast_scan_prefix_lem w ⟫ λ p e. returns (rw e)

  -- What a key holds after the entry of `v` is deleted.
  abbrev pub after_delete : Transaction m → Bytes → Option Bytes
  after_delete t k =
      if in_range (data_key w v ++ 0 ∷ []) (data_key w v ++ 1 ∷ []) k
      then none
      else if bytes_eq (key_of_member w v) k
      then none
      else buffered m t k

  data_bounds :
      (p : Bytes)
      → p ≡ generate_key w ++ 0 ∷ []
      → p ++ (serialize_for_key_component v ++ 0 ∷ []) ≡ data_key w v ++ 0 ∷ []
  data_bounds p e =
      rw e (sym (append_assoc (generate_key w ++ 0 ∷ []) (serialize_for_key_component v) (0 ∷ [])))

  deleted :
      (t : Transaction m) (start key k : Bytes)
      → start ≡ data_key w v ++ 0 ∷ []
      → key ≡ key_of_member w v
      → buffered m (delete_range m start (set_last 1 start) (delete m key t)) k ≡ after_delete t k
  deleted t start key k e f =
      rw (e, f, set_last-append 1 0 (data_key w v))
        (ground (
          arith,
          buffered-delete_range m (data_key w v ++ 0 ∷ []) (data_key w v ++ 1 ∷ []) k
              (delete m (key_of_member w v) t),
          buffered-delete m (key_of_member w v) k t,
        ))

  delete_entry_from_set_lem :
      (t : Transaction m)
      → Ensures
          (λ t'. (k : Bytes) → buffered m t' k ≡ after_delete t k)
          (delete_entry_from_set m w v t)
  unfolding delete_entry_from_set
  delete_entry_from_set_lem t = fast_scan_key_lem ⟫ λ key e.
      set_data_prefix_lem w ⟫ λ p f. returns (λ k. deleted t _ key k (data_bounds p f) e)

  removed : (t : Transaction m) (k r : Bytes) → k ≡ data_key w v ++ 0 ∷ r → after_delete t k ≡ none
  removed t k r e = rw e (rw (in_own_range (data_key w v) r))

  member_removed : (t : Transaction m) → after_delete t (key_of_member w v) ≡ none
  member_removed t = ground (arith, bytes_cmp_refl (key_of_member w v))

module _ (m : OrderedMap Entry) (w : Walker) (v : PrimitiveValue) (t t' : Transaction m) where
  -- Deleting an entry from a set that is not flattened takes away the entry's key in the index of
  -- keys and every key at or below the element.
  pub delete_entry_removes :
      (e u : Walker)
      → (frame w).should_flatten ≡ false
      → enter_set w v ≡ ok e
      → Below e u
      → delete_entry_from_set m w v t ≡ ok t'
      → (buffered m t' (generate_key u) ≡ none) × (buffered m t' (key_of_member w v) ≡ none)
  delete_entry_removes e u kept entered below done =
      let (r, key) = element_key w e u v kept entered below in
      let after = Ensures-elim (delete_entry_from_set_lem m w v t) done in
      (
        after (generate_key u) ∙ removed m w v t (generate_key u) r key,
        after (key_of_member w v) ∙ member_removed m w v t,
      )

  -- It leaves every key of every other element alone, where both primary keys are values of one
  -- type and no text holds the character NUL.
  pub delete_entry_keeps :
      (x : PrimitiveValue) (e u : Walker)
      → (frame w).should_flatten ≡ false
      → IsRepresentable v
      → IsRepresentable x
      → IsPlain v
      → IsPlain x
      → get_type x ≡ get_type v
      → x ≢ v
      → enter_set w x ≡ ok e
      → Below e u
      → delete_entry_from_set m w v t ≡ ok t'
      → (buffered m t' (generate_key u) ≡ buffered m t (generate_key u))
        × (buffered m t' (key_of_member w x) ≡ buffered m t (key_of_member w x))
  delete_entry_keeps x e u kept hv hx pv px same differ entered below done =
      let (r, key) = element_key w e u x kept entered below in
      let after = Ensures-elim (delete_entry_from_set_lem m w v t) done in
      (
        after (generate_key u)
            ∙ rw key (
                rw (
                  other_data_not_in_range w v x r hx hv px pv same differ,
                  member_not_data w v x r,
                )),
        after (key_of_member w x)
            ∙ rw (member_not_in_range w v x, members_differ w v x hv hx differ),
      )

captured_key :
    (w : Walker) (s rest r : Bytes)
    → data_key w (string (s ++ 0 ∷ rest)) ++ 0 ∷ r ≡ data_key w (string s) ++ 0 ∷ (rest ++ 0 ∷ r)
unfolding serialize_for_key_component
captured_key w s rest r = simp append_assoc

captured_member :
    (w : Walker) (s rest : Bytes)
    → bytes_eq (key_of_member w (string s)) (key_of_member w (string (s ++ 0 ∷ rest))) ≡ false
unfolding serialize_for_key_component
captured_member w s rest = ground (
  arith,
  bytes_cmp_prefix (generate_key w ++ 1 ∷ []) (2 ∷ s) (2 ∷ (s ++ 0 ∷ rest)),
  bytes_cmp_extend (2 ∷ s) 0 rest,
)

module _ (m : OrderedMap Entry) (w : Walker) (s rest : Bytes) (t t' : Transaction m) where
  -- Deleting the entry of a text takes away more: with it go the data, and not the entries in the
  -- index of keys, of every text that continues it behind the character NUL.
  pub delete_entry_captures :
      (e u : Walker)
      → (frame w).should_flatten ≡ false
      → enter_set w (string (s ++ 0 ∷ rest)) ≡ ok e
      → Below e u
      → delete_entry_from_set m w (string s) t ≡ ok t'
      → (buffered m t' (generate_key u) ≡ none)
        × (buffered m t' (key_of_member w (string (s ++ 0 ∷ rest)))
            ≡ buffered m t (key_of_member w (string (s ++ 0 ∷ rest))))
  delete_entry_captures e u kept entered below done =
      let (r, key) = element_key w e u (string (s ++ 0 ∷ rest)) kept entered below in
      let after = Ensures-elim (delete_entry_from_set_lem m w (string s) t) done in
      (
        after (generate_key u)
            ∙ removed m w (string s) t (generate_key u) (rest ++ 0 ∷ r)
                (key ∙ captured_key w s rest r),
        after (key_of_member w (string (s ++ 0 ∷ rest)))
            ∙ rw (
              member_not_in_range w (string s) (string (s ++ 0 ∷ rest)),
              captured_member w s rest,
            ),
      )
