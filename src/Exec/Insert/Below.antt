-- ===== src/Exec/Insert/Below.antt =====
-- rdb-analyzer/src/data/treewalker/exec.rs: walk_and_insert changes no key but those below its walker.
use refine_db.Prelude.{
  ℕ, ◌+◌, Bytes, bytes_cmp, bytes_eq, bytes_eq_iff, true, false, [], ◌∷◌, ◌++◌, append_assoc,
  append-nil, ok, ◌≡◌, ◌≢◌, refl, sym, ◌∙◌, ap, arith, inl, inr, Bool-cases, Ensures, returns,
  fails, ◌⟫◌, Ensures-elim, weaken,
}
use refine_db.PathWalker.{Walker, Walked, Frame, root, linked, generate_key}
use refine_db.PathWalker.Keys.{key_prefix, own_part, generate_key_lem, set_fast_scan_prefix_lem}
use refine_db.PathWalker.Depth.{enter_field-linked, enter_set_raw-ElementOf}
use refine_db.PathWalker.Sets.{IsUnder, LinkedTo-IsUnder, ElementOf-IsUnder}
use refine_db.Treewalker.Values.{
  VmValue, primitive, table, set, bool, map, null, list, resident, fresh, resident_set, fresh_set,
  VmValues, no_value, value, VmMembers, no_member, member,
}
use refine_db.Kv.OrderedMap.{OrderedMap, in_range}
use refine_db.Kv.MockKv.{Entry, Transaction, put}
use refine_db.Kv.MockKv.Range.{buffered, buffered-put, buffered-delete}
use refine_db.Exec.Outcome.{Host, unwrap_walked}
use refine_db.Exec.Insert.{walk_and_insert, insert_members, insert_fields}
use refine_db.Exec.DeleteSet.{delete_set_lem, after_delete_set}
use refine_db.Exec.{delete_set}

abbrev pub IsOutside : Bytes → Bytes → Type 0
IsOutside base k = (r : Bytes) → k ≢ base ++ r

same_head :
    (x y : ℕ) (g g' k : Bytes)
    → in_range (x ∷ g) (x ∷ g') (y ∷ k) ≡ true
    → (y ≡ x) × (in_range g g' k ≡ true)
unfolding bytes_cmp
same_head x y g g' k h = (ground arith, ground arith)

-- What lies between a key with a byte behind it and that key with the next byte begins with it.
in_range_begins :
    (g k : Bytes) (b : ℕ)
    → in_range (g ++ b ∷ []) (g ++ (b + 1) ∷ []) k ≡ true
    → (r : Bytes) × (k ≡ g ++ r)
unfolding bytes_cmp
in_range_begins [] k b h = (k, refl)
in_range_begins (x ∷ g) [] b h = absurd (ground arith)
in_range_begins (x ∷ g) (y ∷ k) b h =
    let (e, h') = same_head x y (g ++ b ∷ []) (g ++ (b + 1) ∷ []) k h in
    let (r, e') = in_range_begins g k b h' in (r, rw (e, e') refl)

outside_range :
    (base g k : Bytes) (b : ℕ)
    → ((r : Bytes) × (g ≡ base ++ r))
    → IsOutside base k
    → in_range (g ++ b ∷ []) (g ++ (b + 1) ∷ []) k ≡ false
outside_range base g k b (r, e) out =
    elim (Bool-cases (in_range (g ++ b ∷ []) (g ++ (b + 1) ∷ []) k)) [
      | inl h ↦
          let (r', e') = in_range_begins g k b h in
          absurd (out (r ++ r') (e' ∙ rw e (append_assoc base r r')))
      | inr h ↦ h
    ]

outside_key :
    (base g k : Bytes) → ((r : Bytes) × (g ≡ base ++ r)) → IsOutside base k → bytes_eq g k ≡ false
outside_key base g k (r, e) out = elim (Bool-cases (bytes_eq g k)) [
  | inl h ↦ absurd (out r (sym ((bytes_eq_iff g k).0 h) ∙ e))
  | inr h ↦ h
]

unwrapped_any :
    {A : Type 0} {P : A → Type 0} {r : Walked A} → Ensures P r → Ensures P (unwrap_walked r)
unwrapped_any (returns h) = returns h
unwrapped_any fails = fails

under_index :
    (base g prefix pk : Bytes)
    → prefix ≡ g ++ 1 ∷ []
    → ((r : Bytes) × (g ≡ base ++ r))
    → (r : Bytes) × (prefix ++ pk ≡ base ++ r)
under_index base g prefix pk e (r, e') =
    ((r ++ 1 ∷ []) ++ pk, ap (λ p. p ++ pk) e ∙ rw e' (simp append_assoc))

module _ (host : Host) (m : OrderedMap Entry) (base k : Bytes) (out : IsOutside base k) where
  -- The key is as it was.
  abbrev Keeps : Transaction m → Transaction m → Type 0
  Keeps t u = buffered m u k ≡ buffered m t k

  put-Keeps :
      (g v : Bytes) (t : Transaction m) → ((r : Bytes) × (g ≡ base ++ r)) → Keeps t (put m g v t)
  put-Keeps g v t h = buffered-put m g k v t ∙ rw (outside_key base g k h out)

  delete_set-Keeps :
      (w : Walker) (t : Transaction m)
      → IsUnder base w
      → Ensures (Keeps t) (unwrap_walked (delete_set m w t))
  delete_set-Keeps w t h = unwrapped (delete_set_lem m w t)
    where
      unwrapped :
          {r : Walked (Transaction m)}
          → Ensures (λ t'. (k : Bytes) → buffered m t' k ≡ after_delete_set m w t k) r
          → Ensures (Keeps t) (unwrap_walked r)
      unwrapped (returns e) = returns (
          e k
          ∙ rw
              (
                outside_range base (generate_key w) k 0 h.1 out,
                outside_range base (generate_key w) k 1 h.1 out,
              )
              refl)
      unwrapped fails = fails

  mutual
    unfolding walk_and_insert insert_members insert_fields

    walk-Keeps :
        (w : Walker) (v : VmValue) (t : Transaction m)
        → IsUnder base w
        → Ensures (Keeps t) (walk_and_insert host m w v t)
    walk-Keeps w (null _) t h =
        returns (
          buffered-delete m (generate_key w) k t ∙ rw (outside_key base (generate_key w) k h.1 out))
    walk-Keeps w (primitive x) t h = returns (put-Keeps (generate_key w) (host.to_vec x) t h.1)
    walk-Keeps w (set _ (fresh_set members)) t h =
        delete_set-Keeps w (put m (generate_key w) [] t) h ⟫ λ t' e.
        weaken (λ u e'. e' ∙ e ∙ put-Keeps (generate_key w) [] t h.1) (members_keep w members t' h)
    walk-Keeps w (set _ (resident_set _)) t h = fails
    walk-Keeps w (table _ (fresh fields)) t h =
        weaken (λ u e. e ∙ put-Keeps (generate_key w) [] t h.1)
          (fields_keep w fields (put m (generate_key w) [] t) h)
    walk-Keeps w (table _ (resident _)) t h = fails
    walk-Keeps w (bool _) t h = fails
    walk-Keeps w (map _) t h = fails
    walk-Keeps w (list _ _) t h = fails

    members_keep :
        (w : Walker) (members : VmMembers) (t : Transaction m)
        → IsUnder base w
        → Ensures (Keeps t) (insert_members host m w members t)
    members_keep w no_member t h = returns refl
    members_keep w (member pk v members) t h =
        unwrapped_any (set_fast_scan_prefix_lem w) ⟫ λ prefix e.
        unwrapped_any (enter_set_raw-ElementOf w pk) ⟫ λ element l.
        walk-Keeps element v (put m (prefix ++ pk) [] t) (ElementOf-IsUnder base w element pk h l)
        ⟫ λ t' e'.
            weaken
              (λ u e''.
                e''
                ∙ e'
                ∙ put-Keeps (prefix ++ pk) [] t (under_index base (generate_key w) prefix pk e h.1))
              (members_keep w members t' h)

    fields_keep :
        (w : Walker) (fields : VmValues) (t : Transaction m)
        → IsUnder base w
        → Ensures (Keeps t) (insert_fields host m w fields t)
    fields_keep w no_value t h = returns refl
    fields_keep w (value name v fields) t h =
        unwrapped_any (enter_field-linked w name) ⟫ λ w' (key, l).
        walk-Keeps w' v t (LinkedTo-IsUnder base w w' key h l) ⟫ λ t' e.
        weaken (λ u e'. e' ∙ e) (fields_keep w fields t' h)

key_part :
    (w : Walker) (f : Frame) (p : Bytes)
    → generate_key w ≡ p ++ f.key
    → (r : Bytes) × (generate_key w ≡ (p ++ own_part f) ++ r)
key_part w f p h = elim (Bool-cases f.should_flatten) [
  | inl e ↦ (f.key, h ∙ rw e (ap (λ q. q ++ f.key) (sym (append-nil p))))
  | inr e ↦ ([], h ∙ rw e (sym (append-nil (p ++ f.key))))
]

-- A walker is under its own prefix.
IsUnder-self : (w : Walker) → IsUnder (key_prefix w) w
unfolding key_prefix
IsUnder-self (root f) =
    (([], sym (append-nil (own_part f))), key_part (root f) f [] (generate_key_lem (root f)))
IsUnder-self (linked f parent) = (
  ([], sym (append-nil (key_prefix parent ++ own_part f))),
  key_part (linked f parent) f (key_prefix parent) (generate_key_lem (linked f parent)),
)

-- Writing a value below a walker, or deleting it, leaves every key as it was that does not begin with
-- the prefix of the walker.
pub walk_and_insert_keeps :
    (host : Host) (m : OrderedMap Entry) (w : Walker) (v : VmValue) (t t' : Transaction m)
    (k : Bytes)
    → IsOutside (key_prefix w) k
    → walk_and_insert host m w v t ≡ ok t'
    → buffered m t' k ≡ buffered m t k
walk_and_insert_keeps host m w v t t' k out done =
    Ensures-elim (walk-Keeps host m (key_prefix w) k out w v t (IsUnder-self w)) done
