-- ===== src/Treewalker/Typeck/Script/EveryGraph.antt =====
-- rdb-analyzer/src/data/treewalker/typeck.rs: what `typeck` has checked when it returns.
use refine_db.Prelude.{
  ℕ, suc, ◌<◌, ◌==◌, some, List, [], ◌∷◌, length, get_elem?, All, Result, ok, err, fails,
  Bool-cases, ==_iff, inl, inr, ◌≡◌, refl, ◌∙◌, subst, arith, Ensures, returns, ◌⟫◌, Ensures-any,
  Ensures-elim, ok_or-Ensures, weaken,
}
use refine_db.Prelude.Updates.{set, store_at, store_at-set, get_elem?-set, get_elem?-lt}
use refine_db.Treewalker.Bytecode.{TwGraph}
use refine_db.Treewalker.Typeck.{TwVm, panicked}
use refine_db.Treewalker.Typeck.Calls.{Sink}
use refine_db.Treewalker.Typeck.Graphs.{GraphTypeInfo, typeck_graph}
use refine_db.Treewalker.Typeck.Topology.{IsChecked, typeck_graph-IsChecked}
use refine_db.Treewalker.Typeck.Script.{
  IsMember, IsInSome, CallGraphs, Expected, GlobalTyckContext, call_edges, merge_sink, typeck_scc,
  typeck_sccs, no_infos, typeck,
}
use refine_db.Treewalker.Typeck.Script

-- The graph with this number, if there is one, is checked with its types.
abbrev pub HasChecked : TwVm → List GraphTypeInfo → ℕ → Type 0
HasChecked vm graphs i =
    (g : TwGraph)
    → get_elem? vm.graphs i ≡ some g
    → (info : GraphTypeInfo) × (get_elem? graphs i ≡ some info) × IsChecked g info

abbrev Keeps : TwVm → List GraphTypeInfo → List GraphTypeInfo → Type 0
Keeps vm graphs graphs' = (i : ℕ) → HasChecked vm graphs i → HasChecked vm graphs' i

HasChecked-set :
    (vm : TwVm) (graphs : List GraphTypeInfo) (i : ℕ) (info : GraphTypeInfo)
    → i < length graphs
    → ((g : TwGraph) → get_elem? vm.graphs i ≡ some g → IsChecked g info)
    → HasChecked vm (set graphs i info) i
HasChecked-set vm graphs i info lt checked g there =
    (info, get_elem?-set graphs i i info lt ∙ ground arith, checked g there)

Keeps-set :
    (vm : TwVm) (graphs : List GraphTypeInfo) (i : ℕ) (info : GraphTypeInfo)
    → i < length graphs
    → ((g : TwGraph) → get_elem? vm.graphs i ≡ some g → IsChecked g info)
    → Keeps vm graphs (set graphs i info)
Keeps-set vm graphs i info lt checked j old = elim (Bool-cases (i == j)) [
  | inl same ↦
      subst (HasChecked vm (set graphs i info)) ((==_iff i j).0 same)
        (HasChecked-set vm graphs i info lt checked)
  | inr other ↦ λ g there.
      let (found, is_there, fine) = old g there in
      (found, get_elem?-set graphs i j info lt ∙ rw other is_there, fine)
]

-- What holds of the value for every graph of a kind.
Ensures-every :
    {E A : Type 0} (Q : TwGraph → Type 0) (P : TwGraph → A → Type 0) (r : Result E A)
    → ((g : TwGraph) → Q g → Ensures (P g) r)
    → Ensures (λ a. (g : TwGraph) → Q g → P g a) r
Ensures-every Q P (ok a) h = returns (λ g q. Ensures-elim (h g q) refl)
Ensures-every Q P (err e) h = fails

typeck_scc-Keeps :
    (vm : TwVm) (expected : Expected) (scc : List ℕ) (graphs : List GraphTypeInfo) (sink : Sink)
    → Ensures
        (λ r. Keeps vm graphs r.0 × ((i : ℕ) → IsMember i scc → HasChecked vm r.0 i))
        (typeck_scc vm expected scc graphs sink)
unfolding typeck_scc
typeck_scc-Keeps vm expected [] graphs sink =
    returns {a = (graphs, sink)} (λ i h. h, λ i h. absurd h)
typeck_scc-Keeps vm expected (i ∷ scc) graphs sink =
    Ensures-every (λ g. get_elem? vm.graphs i ≡ some g) (λ g (info, _). IsChecked g info)
      (typeck_graph vm expected i sink) (typeck_graph-IsChecked vm expected i sink)
    ⟫ λ (info, sink') checked. ok_or-Ensures panicked (store_at i info graphs) ⟫ λ graphs' stored.
        let (same, lt) = store_at-set i info graphs stored in
        weaken
          (λ r (keeps, members). (
            λ j h. keeps j (rw same (Keeps-set vm graphs i info lt checked j h)),
            λ j m. elim m [
              | inl here ↦ rw here (keeps i (rw same (HasChecked-set vm graphs i info lt checked)))
              | inr later ↦ members j later
            ],
          ))
          (typeck_scc-Keeps vm expected scc graphs' sink')

typeck_sccs-HasChecked :
    (vm : TwVm) (sccs : List (List ℕ)) (expected : Expected) (graphs : List GraphTypeInfo)
    → Ensures
        (λ r. (i : ℕ) → IsInSome i sccs → HasChecked vm r.0 i)
        (typeck_sccs vm sccs expected graphs)
unfolding typeck_sccs
typeck_sccs-HasChecked vm [] expected graphs = returns {a = (graphs, expected)} (λ i h. absurd h)
typeck_sccs-HasChecked vm (scc ∷ sccs) expected graphs =
    typeck_sccs-HasChecked vm sccs expected graphs ⟫ λ (graphs', expected') others.
    typeck_scc-Keeps vm expected' scc graphs' [] ⟫ λ (graphs'', sink) (keeps, members).
    Ensures-any (merge_sink sink expected') ⟫ λ expected'' _.
    returns {a = (graphs'', expected'')}
      (λ i m. elim m [ inl here ↦ members i here | inr later ↦ keeps i (others i later) ])

pub get_elem?-every :
    (P : TwGraph → Type 0) (graphs : List TwGraph)
    → ((i : ℕ) (g : TwGraph) → get_elem? graphs i ≡ some g → P g)
    → All P graphs
get_elem?-every P [] h = tt
get_elem?-every P (g ∷ graphs) h =
    (h 0 g refl, get_elem?-every P graphs (λ i f there. h (suc i) f there))

-- What the context holds.
record IsContext (vm : TwVm) (context : GlobalTyckContext) : Type 0 where
  same_vm : context.vm ≡ vm
  has_every_graph : (i : ℕ) → i < length vm.graphs → IsInSome i context.scc_post_order

new-IsContext :
    (call_graphs : CallGraphs) (vm : TwVm) → Ensures (IsContext vm) (Script.new call_graphs vm)
unfolding Script.new
new-IsContext call_graphs vm = Ensures-any (call_edges vm 0 vm.graphs) ⟫ λ edges _.
    returns (record {
      same_vm = refl;
      has_every_graph = λ i lt. call_graphs.has_every_node (length vm.graphs) i edges lt;
    })

typeck-Ensures :
    (vm : TwVm) (context : GlobalTyckContext)
    → IsContext vm context
    → Ensures (λ graphs. (i : ℕ) → HasChecked vm graphs i) (typeck context)
unfolding typeck
typeck-Ensures vm context is_context =
    typeck_sccs-HasChecked context.vm context.scc_post_order context.subgraph_expected_param_types
      (no_infos context.vm.graphs)
    ⟫ λ (graphs, expected) checked. returns {a = graphs} (λ i g there.
      let lt = get_elem?-lt vm.graphs i there in
      let h = checked i (is_context.has_every_graph i lt) in (rw is_context.same_vm at h) g there)

-- When a script type checks, every graph of it has types for all its nodes, and is checked: its edges
-- and preconditions name nodes before their own, and its output is one of its nodes.
pub typeck-HasChecked :
    (call_graphs : CallGraphs) (vm : TwVm) (context : GlobalTyckContext)
    (graphs : List GraphTypeInfo) (i : ℕ)
    → Script.new call_graphs vm ≡ ok context
    → typeck context ≡ ok graphs
    → HasChecked vm graphs i
typeck-HasChecked call_graphs vm context graphs i made done =
    Ensures-elim (typeck-Ensures vm context (Ensures-elim (new-IsContext call_graphs vm) made)) done
      i
