-- ===== src/Treewalker/Vm/Index.antt =====
-- rdb-analyzer/src/data/treewalker/vm.rs: the index holds the last graph that is exported under a name.
use refine_db.Prelude.{
  ℕ, zero, suc, ◌+◌, ◌≤◌, String, str_eq, str_eq_iff, Bool, true, false, Option, none, some, List,
  [], ◌∷◌, Dict, lookup, insert, lookup-insert, get_elem?, Result, ok, err, ok_or, if◌then◌else◌,
  ◌≡◌, ◌≢◌, refl, sym, ◌∙◌, ap, arith, subst, Ensures, returns, ◌⟫◌, Ensures-any, Ensures-elim,
}
use refine_db.Schema.{CompiledSchema}
use refine_db.Treewalker.Bytecode.{TwGraph}
use refine_db.Treewalker.Vm.{
  TwScript, IndexedVm, VmError, exported_graph_not_found, convert_consts, index_graphs,
  lookup_exported_graph_by_name,
}
use refine_db.Treewalker.Vm

-- The last graph that is exported under the name, if there is one; the first graph has the number `i`.
abbrev pub last_exported : String → ℕ → List TwGraph → Option ℕ
last_exported name i [] = none
last_exported name i (g ∷ graphs) = elim (last_exported name (i + 1) graphs) [
  | some j ↦ some j
  | none ↦ if g.exported then (if str_eq g.name name then some i else none) else none
]

abbrev or_else : Option ℕ → Option ℕ → Option ℕ
or_else (some j) o = some j
or_else none o = o

index_graphs-last_exported :
    (name : String) (i : ℕ) (graphs : List TwGraph) (index : Dict ℕ)
    → lookup name (index_graphs i graphs index)
      ≡ or_else (last_exported name i graphs) (lookup name index)
unfolding index_graphs
index_graphs-last_exported name i [] index = refl
index_graphs-last_exported name i (g ∷ graphs) index =
    index_graphs-last_exported name (i + 1) graphs
      (if g.exported then insert g.name i index else index)
    ∙ inserted (last_exported name (i + 1) graphs) g.exported
  where
    inserted :
        (o : Option ℕ) (b : Bool)
        → or_else o (lookup name (if b then insert g.name i index else index))
          ≡ or_else
              (elim o [
                | some j ↦ some j
                | none ↦ if b then (if str_eq g.name name then some i else none) else none
              ])
              (lookup name index)
    inserted (some j) b = refl
    inserted none true = lookup-insert g.name name i index ∙ ground (arith, str_eq_iff g.name name)
    inserted none false = refl

-- No graph at or behind a position is exported under the name.
abbrev pub IsNotExportedFrom : ℕ → String → List TwGraph → Type 0
IsNotExportedFrom d name graphs =
    (j : ℕ) (g : TwGraph) → d ≤ j → get_elem? graphs j ≡ some g → g.exported ≡ true → g.name ≢ name

pub record IsLastExported (name : String) (graphs : List TwGraph) (k : ℕ) : Type 0 where
  pub graph : TwGraph
  pub is_there : get_elem? graphs k ≡ some graph
  pub is_exported : graph.exported ≡ true
  pub has_name : graph.name ≡ name
  pub is_last : IsNotExportedFrom (k + 1) name graphs

abbrev pub IsFound : String → List TwGraph → Result VmError ℕ → Type 0
IsFound name graphs (ok k) = IsLastExported name graphs k
IsFound name graphs (err e) = (e ≡ exported_graph_not_found name) × IsNotExportedFrom 0 name graphs

abbrev Describes : String → ℕ → List TwGraph → Option ℕ → Type 0
Describes name i graphs none = IsNotExportedFrom 0 name graphs
Describes name i graphs (some k) = (d : ℕ) × (k ≡ i + d) × IsLastExported name graphs d

not_later :
    (d : ℕ) (name : String) (g : TwGraph) (graphs : List TwGraph)
    → IsNotExportedFrom d name graphs
    → IsNotExportedFrom (suc d) name (g ∷ graphs)
not_later d name g graphs h zero f lt there = absurd (omega (arith, lt))
not_later d name g graphs h (suc j) f lt there = h j f (omega (arith, lt)) there

not_at_all :
    (name : String) (g : TwGraph) (graphs : List TwGraph)
    → (g.exported ≡ true → g.name ≢ name)
    → IsNotExportedFrom 0 name graphs
    → IsNotExportedFrom 0 name (g ∷ graphs)
not_at_all name g graphs other h zero f lt there exported named =
    let e : g ≡ f = same_graph there in
    other (ap (λ (h : TwGraph). h.exported) e ∙ exported) (ap (λ (h : TwGraph). h.name) e ∙ named)
  where
    same_graph : {a b : TwGraph} → some a ≡ some b → a ≡ b
    same_graph e = cc
not_at_all name g graphs other h (suc j) f lt there exported named =
    h j f (omega arith) there exported named

bool_clash : true ≡ false → ⊥
bool_clash e = cc

or_else-none : (o : Option ℕ) → or_else o none ≡ o
or_else-none (some j) = refl
or_else-none none = refl

-- The first graph, where no later one is exported under the name.
first-Describes :
    (name : String) (i : ℕ) (g : TwGraph) (graphs : List TwGraph)
    → IsNotExportedFrom 0 name graphs
    → (b c : Bool) → g.exported ≡ b
    → str_eq g.name name ≡ c
    → Describes name i (g ∷ graphs) (if b then (if c then some i else none) else none)
first-Describes name i g graphs rest true true exported named = (
  0,
  omega arith,
  record {
    graph = g;
    is_there = refl;
    is_exported = exported;
    has_name = (str_eq_iff g.name name).0 named;
    is_last = not_later 0 name g graphs rest;
  },
)
first-Describes name i g graphs rest true false exported other =
    not_at_all name g graphs
      (λ _ named. bool_clash (sym ((str_eq_iff g.name name).1 named) ∙ other)) rest
first-Describes name i g graphs rest false c hidden other =
    not_at_all name g graphs (λ shown _. bool_clash (sym shown ∙ hidden)) rest

last_exported-Describes :
    (name : String) (i : ℕ) (graphs : List TwGraph)
    → Describes name i graphs (last_exported name i graphs)
last_exported-Describes name i [] = λ j g lt there. cc
last_exported-Describes name i (g ∷ graphs) =
    step (last_exported name (i + 1) graphs) (last_exported-Describes name (i + 1) graphs)
  where
    step :
        (o : Option ℕ)
        → Describes name (i + 1) graphs o
        → Describes name i (g ∷ graphs) (elim o [
          | some j ↦ some j
          | none ↦ if g.exported then (if str_eq g.name name then some i else none) else none
        ])
    step (some k) (d, e, last) = (
      suc d,
      omega (arith, e),
      record {
        graph = last.graph;
        is_there = last.is_there;
        is_exported = last.is_exported;
        has_name = last.has_name;
        is_last =
            subst (λ n. IsNotExportedFrom n name (g ∷ graphs)) (omega arith)
              (not_later (d + 1) name g graphs last.is_last);
      },
    )
    step none rest = first-Describes name i g graphs rest g.exported (str_eq g.name name) refl refl

IsFound-Describes :
    (name : String) (graphs : List TwGraph) (o : Option ℕ)
    → Describes name 0 graphs o
    → IsFound name graphs (ok_or (exported_graph_not_found name) o)
IsFound-Describes name graphs none h = (refl, h)
IsFound-Describes name graphs (some k) (d, e, last) =
    subst (IsLastExported name graphs) (omega (arith, e)) last

new-index :
    (schema : CompiledSchema) (script : TwScript)
    → Ensures
        (λ vm. vm.exported_graph_name_index ≡ index_graphs 0 script.graphs [])
        (Vm.new schema script)
unfolding Vm.new
new-index schema script =
    Ensures-any (convert_consts schema script.consts) ⟫ λ consts _. returns refl

-- In a machine that was made for a script, looking up an exported graph finds the last graph that the
-- script exports under the name, and fails, with the name, just where it exports none under it.
pub lookup_exported_graph_by_name-IsFound :
    (schema : CompiledSchema) (script : TwScript) (vm : IndexedVm) (name : String)
    → Vm.new schema script ≡ ok vm
    → IsFound name script.graphs (lookup_exported_graph_by_name vm name)
unfolding lookup_exported_graph_by_name lookup
lookup_exported_graph_by_name-IsFound schema script vm name made =
    let index = Ensures-elim (new-index schema script) made in
    let same : lookup name vm.exported_graph_name_index ≡ last_exported name 0 script.graphs =
      ap (lookup name) index
      ∙ index_graphs-last_exported name 0 script.graphs []
      ∙ or_else-none (last_exported name 0 script.graphs) in
    rw same (
      IsFound-Describes name script.graphs (last_exported name 0 script.graphs)
        (last_exported-Describes name 0 script.graphs))
