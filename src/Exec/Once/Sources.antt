-- ===== src/Exec/Once/Sources.antt =====
-- rdb-analyzer/src/data/treewalker/exec.rs: the fire rules of a graph in which no node names a source
-- twice, as two parameters or as a parameter and its precondition.
use refine_db.Prelude.{
  ℕ, suc, ◌+◌, ◌<◌, ◌≤◌, ◌==◌, Option, none, some, List, [], ◌∷◌, ◌++◌, get_elem?, All, ◌≡◌, ◌≢◌,
  refl, ◌∙◌, ap, subst, arith, inl, inr, Bool-cases, ==_iff, append-nil, append_assoc,
}
use refine_db.Treewalker.Bytecode.{TwGraphNode}
use refine_db.Treewalker.Typeck.Graphs.{Node}
use refine_db.Exec.FireRules.{
  FireRuleItem, FireRuleKind, param_dep, precondition, param_rules, precondition_rules, rules_of,
}

abbrev pub IsAbsent : ℕ → List ℕ → Type 0
IsAbsent s es = All (λ e. e ≢ s) es

abbrev pub AreDistinct : List ℕ → Type 0
AreDistinct [] = Unit
AreDistinct (e ∷ es) = IsAbsent e es × AreDistinct es

abbrev pub IsNoParam : Option ℕ → List ℕ → Type 0
IsNoParam none es = Unit
IsNoParam (some e) es = IsAbsent e es

abbrev pub HasDistinctSources : List Node → Type 0
HasDistinctSources [] = Unit
HasDistinctSources ((_, es, p) ∷ nodes) = AreDistinct es × IsNoParam p es × HasDistinctSources nodes

-- The item names an edge or a precondition from `s`.
abbrev pub IsFrom : ℕ → List ℕ → Option ℕ → FireRuleKind → Type 0
IsFrom s es p (param_dep position) = get_elem? es position ≡ some s
IsFrom s es p precondition = p ≡ some s

pub record IsRule (nodes : List Node) (s : ℕ) (x : FireRuleItem) : Type 0 where
  pub n : TwGraphNode
  pub es : List ℕ
  pub p : Option ℕ
  pub is_node : get_elem? nodes x.target_node ≡ some (n, es, p)
  pub is_from : IsFrom s es p x.kind

pub All-append {ℓ κ} :
    {A : Type ℓ} (P : A → Type κ) (xs ys : List A) → All P xs → All P ys → All P (xs ++ ys)
All-append P [] ys h k = k
All-append P (x ∷ xs) ys h k = (h.0, All-append P xs ys h.1 k)

pub All-mono {ℓ κ} :
    {A : Type ℓ} {P Q : A → Type κ} (f : (a : A) → P a → Q a) (xs : List A) → All P xs → All Q xs
All-mono f [] h = tt
All-mono f (x ∷ xs) h = (f x h.0, All-mono f xs h.1)

module _ (nodes : List Node) (s target : ℕ) (n : TwGraphNode) (es : List ℕ) (p : Option ℕ)
    (is_node : get_elem? nodes target ≡ some (n, es, p)) where
  -- The parameters from `position` on, where `later` are the edges left.
  param_rules-IsRule :
      (position : ℕ) (later : List ℕ)
      → ((k : ℕ) → get_elem? es (position + k) ≡ get_elem? later k)
      → All (IsRule nodes s) (param_rules s target position later)
  param_rules-IsRule position [] h = tt
  param_rules-IsRule position (e ∷ later) h = elim (Bool-cases (e == s)) [
    | inl same ↦ rw same (
      record {
        n = n;
        es = es;
        p = p;
        is_node = is_node;
        is_from = ap (get_elem? es) (omega arith) ∙ h 0 ∙ ap some ((==_iff e s).0 same);
      },
      param_rules-IsRule (position + 1) later (λ k. ap (get_elem? es) (omega arith) ∙ h (suc k)),
    )
    | inr other ↦
        rw other (
          param_rules-IsRule (position + 1) later
            (λ k. ap (get_elem? es) (omega arith) ∙ h (suc k)))
  ]

  precondition_rules-IsRule :
      (q : Option ℕ) → p ≡ q → All (IsRule nodes s) (precondition_rules s target q)
  precondition_rules-IsRule none h = tt
  precondition_rules-IsRule (some e) h = elim (Bool-cases (e == s)) [
    | inl same ↦ rw same (
      record {
        n = n;
        es = es;
        p = p;
        is_node = is_node;
        is_from = h ∙ ap some ((==_iff e s).0 same);
      },
      tt,
    )
    | inr other ↦ rw other tt
  ]

rules_of-IsRule_from :
    (nodes : List Node) (s target : ℕ) (later : List Node)
    → ((k : ℕ) → get_elem? nodes (target + k) ≡ get_elem? later k)
    → All (IsRule nodes s) (rules_of s target later)
unfolding rules_of
rules_of-IsRule_from nodes s target [] h = tt
rules_of-IsRule_from nodes s target ((n, es, p) ∷ later) h =
    let is_node : get_elem? nodes target ≡ some (n, es, p) =
      ap (get_elem? nodes) (omega arith) ∙ h 0 in
    All-append (IsRule nodes s) _ _
      (param_rules-IsRule nodes s target n es p is_node 0 es (λ k. ap (get_elem? es) (omega arith)))
      (All-append (IsRule nodes s) _ _
        (precondition_rules-IsRule nodes s target n es p is_node p refl)
        (rules_of-IsRule_from nodes s (target + 1) later
          (λ k. ap (get_elem? nodes) (omega arith) ∙ h (suc k))))

pub rules_of-IsRule : (nodes : List Node) (s : ℕ) → All (IsRule nodes s) (rules_of s 0 nodes)
rules_of-IsRule nodes s =
    rules_of-IsRule_from nodes s 0 nodes (λ k. ap (get_elem? nodes) (omega arith))

-- No two items have one target.
abbrev pub AreAscending : List FireRuleItem → Type 0
AreAscending [] = Unit
AreAscending (x ∷ items) =
    All (λ (y : FireRuleItem). x.target_node < y.target_node) items × AreAscending items

abbrev AreFrom : ℕ → List FireRuleItem → Type 0
AreFrom i items = All (λ (y : FireRuleItem). i ≤ y.target_node) items × AreAscending items

-- No item, or one of the target.
abbrev AtMostOne : ℕ → List FireRuleItem → Type 0
AtMostOne i [] = Unit
AtMostOne i (x ∷ []) = x.target_node ≡ i
AtMostOne i _ = ⊥

param_rules-IsAbsent :
    (s target position : ℕ) (es : List ℕ) → IsAbsent s es → param_rules s target position es ≡ []
param_rules-IsAbsent s target position [] h = refl
param_rules-IsAbsent s target position (e ∷ es) h = elim (Bool-cases (e == s)) [
  | inl same ↦ absurd (h.0 ((==_iff e s).0 same))
  | inr other ↦ rw other (param_rules-IsAbsent s target (position + 1) es h.1)
]

param_rules-AtMostOne :
    (s target position : ℕ) (es : List ℕ)
    → AreDistinct es
    → AtMostOne target (param_rules s target position es)
param_rules-AtMostOne s target position [] h = tt
param_rules-AtMostOne s target position (e ∷ es) h = elim (Bool-cases (e == s)) [
  | inl same ↦
      rw
        (
          same,
          param_rules-IsAbsent s target (position + 1) es
              (subst (λ k. IsAbsent k es) ((==_iff e s).0 same) h.0),
        )
        refl
  | inr other ↦ rw other (param_rules-AtMostOne s target (position + 1) es h.1)
]

chunk-AtMostOne :
    (s target : ℕ) (es : List ℕ) (p : Option ℕ)
    → AreDistinct es
    → IsNoParam p es
    → AtMostOne target (param_rules s target 0 es ++ precondition_rules s target p)
chunk-AtMostOne s target es none h k = rw append-nil (param_rules-AtMostOne s target 0 es h)
chunk-AtMostOne s target es (some e) h k = elim (Bool-cases (e == s)) [
  | inl same ↦
      rw
        (
          same,
          param_rules-IsAbsent s target 0 es (subst (λ k. IsAbsent k es) ((==_iff e s).0 same) k),
        )
        refl
  | inr other ↦ rw (other, append-nil) (param_rules-AtMostOne s target 0 es h)
]

AreFrom-append :
    (i : ℕ) (items rest : List FireRuleItem)
    → AtMostOne i items
    → AreFrom (i + 1) rest
    → AreFrom i (items ++ rest)
AreFrom-append i [] rest h k =
    (All-mono (λ (y : FireRuleItem) (l : i + 1 ≤ y.target_node). omega arith) rest k.0, k.1)
AreFrom-append i (x ∷ []) rest h k = (
  (omega arith, All-mono (λ (y : FireRuleItem) (l : i + 1 ≤ y.target_node). omega arith) rest k.0),
  (All-mono (λ (y : FireRuleItem) (l : i + 1 ≤ y.target_node). omega (arith, h)) rest k.0, k.1),
)
AreFrom-append i (x ∷ (y ∷ items)) rest h k = absurd h

rules_of-AreFrom :
    (s target : ℕ) (nodes : List Node)
    → HasDistinctSources nodes
    → AreFrom target (rules_of s target nodes)
unfolding rules_of
rules_of-AreFrom s target [] h = (tt, tt)
rules_of-AreFrom s target ((_, es, p) ∷ nodes) h =
    rw (← append_assoc (param_rules s target 0 es) (precondition_rules s target p) _) (
      AreFrom-append target (param_rules s target 0 es ++ precondition_rules s target p) _
        (chunk-AtMostOne s target es p h.0 h.1) (rules_of-AreFrom s (target + 1) nodes h.2))

pub rules_of-AreAscending :
    (s : ℕ) (nodes : List Node) → HasDistinctSources nodes → AreAscending (rules_of s 0 nodes)
rules_of-AreAscending s nodes h = (rules_of-AreFrom s 0 nodes h).1
