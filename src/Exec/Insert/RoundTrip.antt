-- ===== src/Exec/Insert/RoundTrip.antt =====
-- rdb-analyzer/src/data/treewalker/exec.rs: a primitive that is written to a field of a stored table,
-- and what a later transaction reads there.
use refine_db.Prelude.{
  ℕ, ◌+◌, String, Bytes, bytes_cmp_refl, Option, none, some, List, [], ◌∷◌, get_elem?, lookup, ok,
  ◌≡◌, refl, sym, ◌∙◌, ap, subst, arith, Option-cases, inl, inr,
}
use refine_db.Value.{PrimitiveType, PrimitiveValue}
use refine_db.Schema.{FieldType, FieldAnnotation, SpecializedType}
use refine_db.Schema
use refine_db.PathWalker.{Walker, generate_key, enter_field}
use refine_db.Treewalker.Bytecode.{insert_into_table, get_field}
use refine_db.Treewalker.Types.{VmType}
use refine_db.Treewalker.Values.{VmValue, primitive, table, resident}
use refine_db.Kv.OrderedMap.{OrderedMap, find}
use refine_db.Kv.MockKv.{
  Entry, Store, Transaction, begin_transaction, commit, put, read, value_of, version_of,
  note_modified,
}
use refine_db.Kv.MockKv.Validity.{IsValid}
use refine_db.Kv.MockKv.Commit.{written_back, commit-contents}
use refine_db.Exec.Outcome.{Host, Executed, untagged}
use refine_db.Exec.Insert.{read_table_element, read_resident, load_primitive, walk_and_insert}
use refine_db.Exec.Effects.{insert_into_table_of, get_field_of, field_of}
use refine_db.Exec.Reduce.{Machine}
use refine_db.Exec.RunNode.{Context, evaluate, run_node}

module _ (m : OrderedMap Entry) where
  -- A put is noted, and is what a commit writes.
  written_back-put :
      (k v : Bytes) (t : Transaction m) (c : m.Map)
      → value_of m (written_back m (put m k v t).modified (put m k v t).buffer c k) ≡ some v
  unfolding put
  written_back-put k v t c = elim (Option-cases (find k t.modified)) [
    | inl e ↦
        rw (e, note_modified)
          (ground (
            arith,
            bytes_cmp_refl k,
            m.get-insert k k (some v, version_of m (m.get k t.buffer) + 1) t.buffer,
          ))
    | inr (_, e) ↦
        rw (e, note_modified)
          (ground (
            arith,
            bytes_cmp_refl k,
            e,
            m.get-insert k k (some v, version_of m (m.get k t.buffer) + 1) t.buffer,
          ))
  ]

  -- What a later transaction reads of a key that was put.
  read-put :
      (k v : Bytes) (t : Transaction m) (store store' : Store m)
      → IsValid m (put m k v t)
      → commit m (put m k v t) store ≡ some (ok tt, store')
      → read m k (begin_transaction m store').0 ≡ some v
  unfolding read begin_transaction
  read-put k v t store store' valid done =
      ap (value_of m) (commit-contents m (put m k v t) store store' valid done k)
      ∙ written_back-put k v t store.contents

module _ (host : Host) (m : OrderedMap Entry) (cx : Context m) (i : ℕ) (key ty : String)
    (specialized_ty : SpecializedType) (p : PrimitiveType) (anns : List FieldAnnotation)
    (w w' : Walker) (x : PrimitiveValue) (named : get_elem? cx.vm.idents i ≡ some key)
    (entered : enter_field w key ≡ ok w') where
  insert_node :
      (type_info : Option VmType) (s : Machine m)
      → run_node host cx
          (insert_into_table i)
          (primitive x ∷ table ty (resident w) ∷ [])
          type_info
          s
        ≡ ok (none, record s { txn = put m (generate_key w') (host.to_vec x) s.txn })
  unfolding run_node insert_into_table_of walk_and_insert
  insert_node type_info s = rw (named, evaluate) (rw (entered, insert_into_table_of) refl)

  load_stored :
      (t : Transaction m)
      → read m (generate_key w') t ≡ some (host.to_vec x)
      → load_primitive host m (Schema.primitive p) w' t ≡ ok (primitive (untagged x))
  unfolding load_primitive
  load_stored t stored = rw (stored, load_primitive) (rw (host.from_slice-to_vec x) refl)

  read_stored :
      (t : Transaction m)
      → lookup ty cx.vm.schema.types ≡ some specialized_ty
      → lookup key specialized_ty.fields ≡ some (Schema.primitive p, anns)
      → read m (generate_key w') t ≡ some (host.to_vec x)
      → read_table_element host m cx.vm.schema ty (resident w) key t ≡ ok (primitive (untagged x))
  unfolding read_table_element read_resident
  read_stored t typed field stored =
      rw (typed, read_table_element)
        (rw (field, read_table_element) (rw (entered, read_table_element) (load_stored t stored)))

  get_node :
      (type_info : Option VmType) (s : Machine m)
      → lookup ty cx.vm.schema.types ≡ some specialized_ty
      → lookup key specialized_ty.fields ≡ some (Schema.primitive p, anns)
      → read m (generate_key w') s.txn ≡ some (host.to_vec x)
      → run_node host cx (get_field i) (table ty (resident w) ∷ []) type_info s
        ≡ ok (some (primitive (untagged x)), s)
  unfolding run_node get_field_of field_of
  get_node type_info s typed field stored =
      rw (named, get_field_of) (rw (read_stored s.txn typed field stored) refl)

  -- A primitive that InsertIntoTable writes to a field of a stored table, in a transaction that is
  -- valid and then commits, is what GetField gives for that field in a transaction that begins after,
  -- but for the reading of an untagged enum: a float whose sign is positive comes back as an integer.
  pub get_field-insert_into_table :
      (type_info type_info' : Option VmType) (s s' : Machine m) (store store' : Store m)
      (choices : List ℕ)
      → lookup ty cx.vm.schema.types ≡ some specialized_ty
      → lookup key specialized_ty.fields ≡ some (Schema.primitive p, anns)
      → IsValid m s'.txn
      → run_node host cx
          (insert_into_table i)
          (primitive x ∷ table ty (resident w) ∷ [])
          type_info
          s
        ≡ ok (none, s')
      → commit m s'.txn store ≡ some (ok tt, store')
      → run_node host cx
          (get_field i)
          (table ty (resident w) ∷ [])
          type_info'
          (record { txn = (begin_transaction m store').0; choices = choices })
        ≡ ok (
          some (primitive (untagged x)),
          record { txn = (begin_transaction m store').0; choices = choices },
        )
  get_field-insert_into_table type_info type_info' s s' store store' choices typed field valid ran
        done =
      let put_ = put m (generate_key w') (host.to_vec x) s.txn in
      let same : put_ ≡ s'.txn = same_txn (sym (insert_node type_info s) ∙ ran) in
      get_node type_info' (record { txn = (begin_transaction m store').0; choices = choices }) typed
        field
        (read-put m (generate_key w') (host.to_vec x) s.txn store store'
          (subst (IsValid m) (sym same) valid) (ap (λ t. commit m t store) same ∙ done))
    where
      same_txn :
          {t : Transaction m}
          → ◌≡◌ {A = Executed (Option VmValue × Machine m)}
              (ok (none, record s { txn = t }))
              (ok (none, s'))
          → t ≡ s'.txn
      same_txn e = ap (λ (q : Machine m). q.txn) (same_state e)
        where
          same_state :
              {a b : Machine m}
              → ◌≡◌ {A = Executed (Option VmValue × Machine m)} (ok (none, a)) (ok (none, b))
              → a ≡ b
          same_state e = cc
