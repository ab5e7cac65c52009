-- ===== src/Schema/WellFormed.antt =====
-- rdb-analyzer/src/schema/compile.rs: the tables of types that the resolution builds.
use refine_db.Prelude.{
  ◌≤◌, true, some, String, str_eq, List, [], ◌∷◌, ◌≡◌, subst, inl, inr, All, lookup, insert,
  lookup-insert, lookup-insert_same, lookup-insert_cases, Bool-cases,
}
use refine_db.Schema.{FieldType, table, primitive, set, FieldAnnotation, any, SpecializedType}
use refine_db.Schema.Resolve.{
  Resolved, Context, Fields, needs_primitive, is_primitive, primary_key_count, bind_args,
}

abbrev pub Defined : Resolved → String → Type 0
Defined st n = (ty : SpecializedType) × (lookup n st ≡ some ty)

-- A type names types of the table only, and the member of a set is a table type.
abbrev pub Refers : Resolved → FieldType → Type 0
Refers st (table n) = Defined st n
Refers st (primitive p) = Unit
Refers st (set (table n)) = Defined st n
Refers st (set _) = ⊥

abbrev pub IsFineField : Resolved → String × (FieldType × List FieldAnnotation) → Type 0
IsFineField st (_, (ty, anns)) =
    Refers st ty × (any needs_primitive anns ≡ true → is_primitive ty ≡ true)

-- A type as the table has it under a name: fields that are indexed are primitive, and at most one
-- is the primary key.
pub record IsFineType (st : Resolved) (n : String) (ty : SpecializedType) : Type 0 where
  pub named : ty.name ≡ n
  pub has_fine_fields : All (IsFineField st) ty.fields
  pub has_one_key : primary_key_count ty.fields ≤ 1

abbrev pub IsWellFormed : Resolved → Type 0
IsWellFormed st = (n : String) (ty : SpecializedType) → lookup n st ≡ some ty → IsFineType st n ty

abbrev pub Grows : Resolved → Resolved → Type 0
Grows st st' = (n : String) → Defined st n → Defined st' n

abbrev pub IsFineContext : Resolved → Context → Type 0
IsFineContext st ctx = (n : String) (x : FieldType) → lookup n ctx ≡ some x → Refers st x

module _ (st st' : Resolved) (grows : Grows st st') where
  pub Refers-Grows : (x : FieldType) → Refers st x → Refers st' x
  Refers-Grows (table n) d = grows n d
  Refers-Grows (primitive p) d = tt
  Refers-Grows (set (table n)) d = grows n d
  Refers-Grows (set (primitive p)) d = d
  Refers-Grows (set (set x)) d = d

  pub IsFineContext-Grows : (ctx : Context) → IsFineContext st ctx → IsFineContext st' ctx
  IsFineContext-Grows ctx h n x e = Refers-Grows x (h n x e)

  pub All-Refers-Grows : (xs : List FieldType) → All (Refers st) xs → All (Refers st') xs
  All-Refers-Grows [] h = tt
  All-Refers-Grows (x ∷ xs) (h, hs) = (Refers-Grows x h, All-Refers-Grows xs hs)

  pub IsFineField-Grows :
      (fields : Fields) → All (IsFineField st) fields → All (IsFineField st') fields
  IsFineField-Grows [] h = tt
  IsFineField-Grows ((k, (ty, anns)) ∷ fields) ((r, i), hs) =
      ((Refers-Grows ty r, i), IsFineField-Grows fields hs)

pub insert-IsFineContext :
    (st : Resolved) (n : String) (x : FieldType) (ctx : Context)
    → Refers st x
    → IsFineContext st ctx
    → IsFineContext st (insert n x ctx)
insert-IsFineContext st n x ctx r h m y e = elim (lookup-insert_cases n m x y ctx e) [
  | inl (_, q) ↦ subst (Refers st) q r
  | inr (_, q) ↦ h m y q
]

pub bind_args-IsFineContext :
    (st : Resolved) (names : List String) (args : List FieldType) (ctx : Context)
    → All (Refers st) args
    → IsFineContext st ctx
    → IsFineContext st (bind_args names args ctx)
unfolding bind_args
bind_args-IsFineContext st [] args ctx hs hc = hc
bind_args-IsFineContext st (x ∷ names) [] ctx hs hc = hc
bind_args-IsFineContext st (x ∷ names) (a ∷ args) ctx (h, hs) hc =
    bind_args-IsFineContext st names args (insert x a ctx) hs (insert-IsFineContext st x a ctx h hc)

module _ (n : String) (ty : SpecializedType) (st : Resolved) where
  pub insert-Grows : Grows st (insert n ty st)
  insert-Grows m (t, e) = elim (Bool-cases (str_eq n m)) [
    | inl p ↦ (ty, rw (lookup-insert n m ty st, p))
    | inr p ↦ (t, rw (lookup-insert n m ty st, p) e)
  ]

  pub insert-Defined : Defined (insert n ty st) n
  insert-Defined = (ty, lookup-insert_same n ty st)

IsFineType-Grows :
    (st st' : Resolved) (n : String) (ty : SpecializedType)
    → Grows st st'
    → IsFineType st n ty
    → IsFineType st' n ty
IsFineType-Grows st st' n ty g h = record {
  named = h.named;
  has_fine_fields = IsFineField-Grows st st' g ty.fields h.has_fine_fields;
  has_one_key = h.has_one_key;
}

-- A table stays well formed when a type that is fine in it is entered.
pub insert-IsWellFormed :
    (st : Resolved) (n : String) (ty : SpecializedType)
    → IsWellFormed st
    → IsFineType st n ty
    → IsWellFormed (insert n ty st)
insert-IsWellFormed st n ty h f m t e = elim (lookup-insert_cases n m ty t st e) [
  | inl (p, q) ↦
      IsFineType-Grows st (insert n ty st) m t (insert-Grows n ty st)
        (subst (λ x. IsFineType st m x) q (subst (λ x. IsFineType st x ty) p f))
  | inr (_, q) ↦ IsFineType-Grows st (insert n ty st) m t (insert-Grows n ty st) (h m t q)
]
