-- ===== src/Exec/Writes/Nodes.antt =====
-- rdb-analyzer/src/data/treewalker/exec.rs: the nodes that write.
use refine_db.Prelude.{ℕ, List, [], ◌∷◌, ◌++◌, Ensures, returns, fails, ◌⟫◌, Ensures-any, weaken}
use refine_db.Value.{PrimitiveValue, serialize_for_key_component}
use refine_db.PathWalker.{
  Walker, Walked, generate_key, enter_field, enter_set_raw, set_fast_scan_prefix, set_data_prefix,
}
use refine_db.Treewalker.Values.{
  VmValue, primitive, table, set, bool, map, null, list, resident, fresh, resident_set, fresh_set,
  VmValues, no_value, value, VmMembers, no_member, member, type_of,
}
use refine_db.Treewalker.Types.{set_primary_key}
use refine_db.Treewalker.Access.{unwrap_table, unwrap_set, unwrap_primitive}
use refine_db.Treewalker.Typeck.{TwVm}
use refine_db.Kv.OrderedMap.{OrderedMap}
use refine_db.Kv.MockKv.{Entry, Transaction, put, delete, delete_range}
use refine_db.Exec.Outcome.{Host, unwrap, unwrap_walked}
use refine_db.Exec.Insert.{read_table_element, walk_and_insert, insert_members, insert_fields}
use refine_db.Exec.Compute.{param, ident}
use refine_db.Exec.Effects.{
  as_primitive, as_set, stored_set, stored_table, insert_into_set_of, insert_into_table_of,
  delete_from_set_of,
}
use refine_db.Exec.Writes.{
  IsWritten, IsWritten-refl, IsWritten-trans, IsWritten-bind, put-IsWritten, delete-IsWritten,
  delete_range-IsWritten,
}
use refine_db.Exec.{fast_scan_key, delete_set, delete_entry_from_set, move_up, set_last}

module _ {m : OrderedMap Entry} where
  unwrapped :
      {t : Transaction m} {r : Walked (Transaction m)}
      → Ensures (IsWritten t) r
      → Ensures (IsWritten t) (unwrap_walked r)
  unwrapped (returns h) = returns h
  unwrapped fails = fails

  delete_set-IsWritten : (w : Walker) (t : Transaction m) → Ensures (IsWritten t) (delete_set m w t)
  unfolding delete_set
  delete_set-IsWritten w t = Ensures-any (set_fast_scan_prefix w) ⟫ λ start _.
      Ensures-any (set_data_prefix w) ⟫ λ data_start _.
      let t' = delete_range m start (move_up start) t in
      returns (
        IsWritten-trans t t' _ (delete_range-IsWritten start (move_up start) t)
          (delete_range-IsWritten data_start (move_up data_start) t'))

  delete_entry-IsWritten :
      (w : Walker) (x : PrimitiveValue) (t : Transaction m)
      → Ensures (IsWritten t) (delete_entry_from_set m w x t)
  unfolding delete_entry_from_set
  delete_entry-IsWritten w x t = Ensures-any (fast_scan_key w x) ⟫ λ key _.
      Ensures-any (set_data_prefix w) ⟫ λ prefix _.
      let start = prefix ++ (serialize_for_key_component x ++ 0x00 ∷ []) in
      returns (
        IsWritten-trans t (delete m key t) _ (delete-IsWritten key t)
          (delete_range-IsWritten start (set_last 0x01 start) (delete m key t)))

  pub delete_from_set_of-IsWritten :
      (params : List VmValue) (t : Transaction m)
      → Ensures (IsWritten t) (delete_from_set_of m params t)
  unfolding delete_from_set_of
  delete_from_set_of-IsWritten params t = Ensures-any (param params 0) ⟫ λ p _.
      Ensures-any (as_primitive p) ⟫ λ x _. Ensures-any (param params 1) ⟫ λ q _.
      Ensures-any (as_set q) ⟫ λ (_, kind) _.
      Ensures-any (stored_set kind) ⟫ λ w _. unwrapped (delete_entry-IsWritten w x t)

module _ (host : Host) {m : OrderedMap Entry} where
  mutual
    unfolding walk_and_insert insert_members insert_fields

    walk_and_insert-IsWritten :
        (w : Walker) (v : VmValue) (t : Transaction m)
        → Ensures (IsWritten t) (walk_and_insert host m w v t)
    walk_and_insert-IsWritten w (null _) t = returns (delete-IsWritten (generate_key w) t)
    walk_and_insert-IsWritten w (primitive x) t =
        returns (put-IsWritten (generate_key w) (host.to_vec x) t)
    walk_and_insert-IsWritten w (set _ (fresh_set members)) t =
        IsWritten-bind t
          (weaken (λ u h. IsWritten-trans t _ u (put-IsWritten (generate_key w) [] t) h)
            (unwrapped (delete_set-IsWritten w (put m (generate_key w) [] t))))
          (insert_members-IsWritten w members)
    walk_and_insert-IsWritten w (set _ (resident_set _)) t = fails
    walk_and_insert-IsWritten w (table _ (fresh fields)) t =
        weaken (λ u h. IsWritten-trans t _ u (put-IsWritten (generate_key w) [] t) h)
          (insert_fields-IsWritten w fields (put m (generate_key w) [] t))
    walk_and_insert-IsWritten w (table _ (resident _)) t = fails
    walk_and_insert-IsWritten w (bool _) t = fails
    walk_and_insert-IsWritten w (map _) t = fails
    walk_and_insert-IsWritten w (list _ _) t = fails

    insert_members-IsWritten :
        (w : Walker) (members : VmMembers) (t : Transaction m)
        → Ensures (IsWritten t) (insert_members host m w members t)
    insert_members-IsWritten w no_member t = returns (IsWritten-refl t)
    insert_members-IsWritten w (member k v members) t =
        Ensures-any (unwrap_walked (set_fast_scan_prefix w)) ⟫ λ prefix _.
        Ensures-any (unwrap_walked (enter_set_raw w k)) ⟫ λ element _.
        IsWritten-bind t
          (weaken (λ u h. IsWritten-trans t _ u (put-IsWritten (prefix ++ k) [] t) h)
            (walk_and_insert-IsWritten element v (put m (prefix ++ k) [] t)))
          (insert_members-IsWritten w members)

    insert_fields-IsWritten :
        (w : Walker) (fields : VmValues) (t : Transaction m)
        → Ensures (IsWritten t) (insert_fields host m w fields t)
    insert_fields-IsWritten w no_value t = returns (IsWritten-refl t)
    insert_fields-IsWritten w (value k v fields) t =
        Ensures-any (unwrap_walked (enter_field w k)) ⟫ λ w' _.
        IsWritten-bind t (walk_and_insert-IsWritten w' v t) (insert_fields-IsWritten w fields)

  pub insert_into_set_of-IsWritten :
      (vm : TwVm) (params : List VmValue) (t : Transaction m)
      → Ensures (IsWritten t) (insert_into_set_of host m vm params t)
  unfolding insert_into_set_of
  insert_into_set_of-IsWritten vm params t = Ensures-any (param params 0) ⟫ λ v _.
      Ensures-any (param params 1) ⟫ λ p _.
      Ensures-any (unwrap (set_primary_key vm.schema (type_of p))) ⟫ λ (primary_key, _) _.
      Ensures-any (unwrap (unwrap_table v)) ⟫ λ (ty, kind) _.
      Ensures-any (read_table_element host m vm.schema ty kind primary_key t) ⟫ λ key _.
      Ensures-any (unwrap (unwrap_set p)) ⟫ λ (_, set_kind) _.
      Ensures-any (unwrap (unwrap_primitive key)) ⟫ λ x _.
      Ensures-any (stored_set set_kind) ⟫ λ w _.
      Ensures-any (unwrap_walked (set_fast_scan_prefix w)) ⟫ λ prefix _.
      let k = serialize_for_key_component x in
      Ensures-any (unwrap_walked (enter_set_raw w k)) ⟫ λ element _.
      weaken (λ u h. IsWritten-trans t _ u (put-IsWritten (prefix ++ k) [] t) h)
        (walk_and_insert-IsWritten element v (put m (prefix ++ k) [] t))

  pub insert_into_table_of-IsWritten :
      (vm : TwVm) (i : ℕ) (params : List VmValue) (t : Transaction m)
      → Ensures (IsWritten t) (insert_into_table_of host m vm i params t)
  unfolding insert_into_table_of
  insert_into_table_of-IsWritten vm i params t = Ensures-any (ident vm i) ⟫ λ key _.
      Ensures-any (param params 0) ⟫ λ v _. Ensures-any (param params 1) ⟫ λ p _.
      Ensures-any (unwrap (unwrap_table p)) ⟫ λ (_, kind) _.
      Ensures-any (stored_table kind) ⟫ λ w _.
      Ensures-any (unwrap_walked (enter_field w key)) ⟫ λ w' _. walk_and_insert-IsWritten w' v t
