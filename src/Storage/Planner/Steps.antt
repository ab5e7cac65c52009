-- ===== src/Storage/Planner/Steps.antt =====
-- rdb-analyzer/src/storage_plan/planner.rs: what a step of the planner keeps of its state, the stack
-- of recursive types and the keys in use.
use refine_db.Prelude.{
  Bool, true, false, none, some, String, str_eq, List, ◌∷◌, lookup, remove, lookup-insert,
  lookup-remove, Bool-cases, inl, inr, ◌≡◌, refl, sym, ◌∙◌, subst,
}
use refine_db.Prelude.{ap, str_eq_iff, lookup-insert_cases}
use refine_db.Storage.{StorageKey}
use refine_db.Storage.Planner.{PlanState, contains_storage_key}
use refine_db.Storage.Planner.Generate.{push, pop}
use refine_db.Storage.Planner.Provenance.{IsIn}
use refine_db.Storage.Planner.Linked.{IsWithin, IsIn-tail, IsIn-head}

-- A key that was drawn between two states.
abbrev pub IsNew : PlanState → PlanState → StorageKey → Type 0
IsNew st st' k =
    (contains_storage_key k st.used_storage_keys ≡ false)
    × (contains_storage_key k st'.used_storage_keys ≡ true)

-- What every step keeps: the stack, and the keys that are in use.
pub record Steps (st st' : PlanState) : Type 0 where
  pub keeps_stack : (n : String) → lookup n st'.fields_in_stack ≡ lookup n st.fields_in_stack
  pub keeps_used : IsWithin st.used_storage_keys st'.used_storage_keys

pub Steps-refl : (st : PlanState) → Steps st st
Steps-refl st = record { keeps_stack = λ n. refl; keeps_used = λ k h. h }

pub Steps-trans : (a b c : PlanState) → Steps a b → Steps b c → Steps a c
Steps-trans a b c s t = record {
  keeps_stack = λ n. t.keeps_stack n ∙ s.keeps_stack n;
  keeps_used = λ k h. t.keeps_used k (s.keeps_used k h);
}

-- A reference to a type on the stack names a node on the path.
abbrev pub StackIsOn : List StorageKey → PlanState → Type 0
StackIsOn path st =
    (n : String) (k : StorageKey) → lookup n st.fields_in_stack ≡ some k → IsIn k path

pub StackIsOn-Steps :
    (path : List StorageKey) (st st' : PlanState)
    → Steps st st'
    → StackIsOn path st
    → StackIsOn path st'
StackIsOn-Steps path st st' s h n k e = h n k (sym (s.keeps_stack n) ∙ e)

pub not_used : (b c : Bool) → (b ≡ true → c ≡ true) → c ≡ false → b ≡ false
not_used true c h e = cc (h refl)
not_used false c h e = refl

pub push-StackIsOn :
    (b : Bool) (name : String) (k : StorageKey) (path : List StorageKey) (st : PlanState)
    → StackIsOn path st
    → StackIsOn (k ∷ path) (push b name k st)
push-StackIsOn true name k path st h n j e =
    elim (lookup-insert_cases name n k j st.fields_in_stack e) [
      | inl (_, q) ↦ subst (λ x. IsIn x (k ∷ path)) q (IsIn-head k path)
      | inr (_, q) ↦ IsIn-tail k path j (h n j q)
    ]
push-StackIsOn false name k path st h n j e = IsIn-tail k path j (h n j e)

pub pop-Steps :
    (b : Bool) (name : String) (k : StorageKey) (st st' : PlanState)
    → lookup name st.fields_in_stack ≡ none
    → Steps (push b name k st) st'
    → Steps st (pop b name st')
pop-Steps false name k st st' h s = s
pop-Steps true name k st st' h s = record { keeps_stack = λ n. popped n; keeps_used = s.keeps_used }
  where
    popped : (n : String) → lookup n (remove name st'.fields_in_stack) ≡ lookup n st.fields_in_stack
    popped n = elim (Bool-cases (str_eq name n)) [
      | inl e ↦
          rw (lookup-remove name n st'.fields_in_stack, e)
            (sym h ∙ ap (λ x. lookup x st.fields_in_stack) ((str_eq_iff name n).0 e))
      | inr e ↦
          rw (lookup-remove name n st'.fields_in_stack, e)
            (s.keeps_stack n ∙ rw (lookup-insert name n k st.fields_in_stack, e) refl)
    ]
