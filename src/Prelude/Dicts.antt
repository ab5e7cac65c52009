-- ===== src/Prelude/Dicts.antt =====
-- Maps with names for keys (`HashMap<&str, _>`, `BTreeMap<Arc<str>, _>`) as association lists, whose
-- insertion keeps the names in ascending order: the order in which a `BTreeMap` is walked.
use Prim.Native.String.{String}
use mathlib.Core.Path.{◌≡◌, refl, subst}
use mathlib.Core.Option.{Option, none, some}
use mathlib.Core.Logic.{◌⊎◌, inl, inr}
use mathlib.Core.Bool.{Bool, true, false}
use mathlib.Core.List.{List, [], ◌∷◌}
use native.Mathlib.Omega.{arith}
use refine_db.Prelude.Tests.{str_eq, str_eq_iff, str_lt, if◌then◌else◌, Bool-cases}
use refine_db.Prelude.Lists.{All}

same_value {ℓ} : {V : Type ℓ} {v w : V} → some v ≡ some w → v ≡ w
same_value h = cc

abbrev pub Dict {ℓ} : Type ℓ → Type ℓ
Dict V = List (String × V)

module _ {ℓ} {V : Type ℓ} where
  unfoldable pub lookup : String → Dict V → Option V
  lookup k [] = none
  lookup k ((j, v) ∷ d) = if str_eq j k then some v else lookup k d

  unfoldable pub insert : String → V → Dict V → Dict V
  insert k v [] = (k, v) ∷ []
  insert k v ((j, w) ∷ d) =
      if str_eq j k
      then (k, v) ∷ d
      else (if str_lt k j then (k, v) ∷ ((j, w) ∷ d) else (j, w) ∷ insert k v d)

  unfoldable pub remove : String → Dict V → Dict V
  remove k [] = []
  remove k ((j, v) ∷ d) = if str_eq j k then remove k d else (j, v) ∷ remove k d

  unfoldable pub contains_key : String → Dict V → Bool
  contains_key k [] = false
  contains_key k ((j, v) ∷ d) = if str_eq j k then true else contains_key k d

  pub lookup-insert :
      (k j : String) (v : V) (d : Dict V)
      → lookup j (insert k v d) ≡ (if str_eq k j then some v else lookup j d)
  unfolding lookup insert
  lookup-insert k j v [] = refl
  lookup-insert k j v ((i, w) ∷ d) =
      ground (arith, str_eq_iff k j, str_eq_iff i k, str_eq_iff i j, lookup-insert k j v d)

  pub lookup-remove :
      (k j : String) (d : Dict V)
      → lookup j (remove k d) ≡ (if str_eq k j then none else lookup j d)
  unfolding lookup remove
  lookup-remove k j [] = ground arith
  lookup-remove k j ((i, w) ∷ d) =
      ground (arith, str_eq_iff k j, str_eq_iff i k, str_eq_iff i j, lookup-remove k j d)

  pub lookup-insert_same : (k : String) (v : V) (d : Dict V) → lookup k (insert k v d) ≡ some v
  lookup-insert_same k v d = rw (lookup-insert k k v d, (str_eq_iff k k).1 refl)

  -- What a lookup finds after an insertion.
  pub lookup-insert_cases :
      (k j : String) (v w : V) (d : Dict V)
      → lookup j (insert k v d) ≡ some w
      → ((k ≡ j) × (v ≡ w)) ⊎ ((str_eq k j ≡ false) × (lookup j d ≡ some w))
  lookup-insert_cases k j v w d h = elim (Bool-cases (str_eq k j)) [
    | inl e ↦ inl ((str_eq_iff k j).0 e, same_value (rw (lookup-insert k j v d, e) at h))
    | inr e ↦ inr (e, rw (lookup-insert k j v d, e) at h)
  ]

  pub contains_key-lookup :
      (k : String) (d : Dict V) → contains_key k d ≡ true → (v : V) × (lookup k d ≡ some v)
  unfolding contains_key lookup
  contains_key-lookup k [] h = cc
  contains_key-lookup k ((j, v) ∷ d) h = elim (Bool-cases (str_eq j k)) [
    | inl e ↦ (v, rw e)
    | inr e ↦ let (w, p) = contains_key-lookup k d (rw e at h) in (w, rw e p)
  ]

found_pair {ℓ} :
    {V : Type ℓ} {j k : String} {v w : V}
    → j ≡ k
    → some w ≡ some v
    → ◌≡◌ {A = String × V} (j, w) (k, v)
found_pair e h = cc

module _ {ℓ κ} {V : Type ℓ} (P : String × V → Type κ) where
  All-if : (b : Bool) (d e : Dict V) → All P d → All P e → All P (if b then d else e)
  All-if true d e p q = p
  All-if false d e p q = q

  -- What holds of every entry holds after an insertion, and of what a lookup finds.
  pub All-insert : (k : String) (v : V) (d : Dict V) → P (k, v) → All P d → All P (insert k v d)
  unfolding insert
  All-insert k v [] p ps = (p, tt)
  All-insert k v ((j, w) ∷ d) p (q, ps) =
      All-if (str_eq j k) _ _ (p, ps)
        (All-if (str_lt k j) _ _ (p, (q, ps)) (q, All-insert k v d p ps))

  pub All-lookup : (k : String) (v : V) (d : Dict V) → All P d → lookup k d ≡ some v → P (k, v)
  unfolding lookup
  All-lookup k v [] ps h = cc
  All-lookup k v ((j, w) ∷ d) (p, ps) h = elim (Bool-cases (str_eq j k)) [
    | inl e ↦ subst P (found_pair ((str_eq_iff j k).0 e) (rw e at h)) p
    | inr e ↦ All-lookup k v d ps (rw e at h)
  ]
