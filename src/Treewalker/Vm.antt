-- ===== src/Treewalker/Vm.antt =====
-- rdb-analyzer/src/data/treewalker/vm.rs: TwVm::new and the index of exported graphs. The storage plan,
-- which the machine only passes on, is left out.
pub mod Index
use refine_db.Prelude.{
  ℕ, ◌+◌, String, Bool, Option, none, some, List, [], ◌∷◌, Dict, lookup, insert, Result, ok, ok_or,
  ◌>>=◌, if◌then◌else◌,
}
use refine_db.Schema.{CompiledSchema}
use refine_db.Treewalker.Bytecode.{TwGraph}
use refine_db.Treewalker.Types.{VmType}
use refine_db.Treewalker.Values.{VmValue}
use refine_db.Treewalker.Typeck.{TwVm}
use refine_db.Treewalker.Consts.{VmConst, Converted, from_const}

pub record TwScript : Type 0 where
  pub graphs : List TwGraph
  pub entry : ℕ
  pub consts : List VmConst
  pub idents : List String
  pub types : List VmType

-- `TwVm`, of which the type checker and the executor read the first part.
pub record IndexedVm : Type 0 where
  pub vm : TwVm
  pub exported_graph_name_index : Dict ℕ

pub data VmError : Type 0 where
  exported_graph_not_found : String → VmError

unfoldable pub convert_consts : CompiledSchema → List VmConst → Converted (List VmValue)
unfolding from_const
convert_consts schema [] = ok []
convert_consts schema (c ∷ consts) =
    from_const schema c >>= λ v. convert_consts schema consts >>= λ vs. ok (v ∷ vs)

-- The loop over the graphs, from the one numbered `i` on.
unfoldable pub index_graphs : ℕ → List TwGraph → Dict ℕ → Dict ℕ
index_graphs i [] index = index
index_graphs i (g ∷ graphs) index =
    index_graphs (i + 1) graphs (if g.exported then insert g.name i index else index)

unfoldable pub new : CompiledSchema → TwScript → Converted IndexedVm
unfolding convert_consts index_graphs
new schema script = convert_consts schema script.consts >>= λ consts. ok (record {
  vm = record {
    schema = schema;
    graphs = script.graphs;
    idents = script.idents;
    consts = consts;
    types = script.types;
  };
  exported_graph_name_index = index_graphs 0 script.graphs [];
})

unfoldable pub lookup_exported_graph_by_name : IndexedVm → String → Result VmError ℕ
lookup_exported_graph_by_name vm name =
    ok_or (exported_graph_not_found name) (lookup name vm.exported_graph_name_index)
