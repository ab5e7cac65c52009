-- ===== src/Treewalker/ConstExamples.antt =====
-- A constant set of items, and a script that exports two graphs under one name.
use refine_db.Prelude.{String, true, none, [], ◌∷◌, lookup, insert, ok, ◌≡◌, refl}
use refine_db.Value.{PrimitiveType, PrimitiveValue}
use refine_db.Value
use refine_db.Schema.{CompiledSchema, SpecializedType}
use refine_db.Schema
use refine_db.Treewalker.Bytecode.{TwGraph}
use refine_db.Treewalker.Types.{VmType}
use refine_db.Treewalker.Types
use refine_db.Treewalker.Values.{VmValue, no_value, value, no_member, member, fresh, fresh_set}
use refine_db.Treewalker.Values
use refine_db.Treewalker.Consts.{
  VmConst, no_const_field, const_field, no_const_member, const_member, from_const,
}
use refine_db.Treewalker.Consts
use refine_db.Treewalker.Consts.Typed.{IsTyped, from_const-IsTyped}
use refine_db.Treewalker.Vm.{TwScript, IndexedVm, lookup_exported_graph_by_name}
use refine_db.Treewalker.Vm
use refine_db.Treewalker.Vm.Index.{IsFound, lookup_exported_graph_by_name-IsFound}

abbrev item : SpecializedType
item = record {
  name = "Item";
  fields = ("id", (Schema.primitive PrimitiveType.string, Schema.primary_key ∷ [])) ∷ [];
}

abbrev schema : CompiledSchema
schema = record { types = ("Item", item) ∷ []; exports = [] }

abbrev five : PrimitiveValue
five = Value.string (53 ∷ [])

abbrev one_item : VmConst
one_item = Consts.set "Item" (
    const_member (Consts.table "Item" (const_field "id" (Consts.primitive five) no_const_field))
      no_const_member)

abbrev one_value : VmValue
one_value = Values.set (Types.table "Item") (
    fresh_set (
      member (2 ∷ 53 ∷ [])
        (Values.table "Item" (fresh (value "id" (Values.primitive five) no_value))) no_member))

converts : from_const schema one_item ≡ ok one_value
unfolding from_const lookup Types.find_primary Schema.any Schema.is_primary_annotation
    Types.vm_type_eq
converts = refl

from_const-IsTyped_example : IsTyped schema one_value
from_const-IsTyped_example = from_const-IsTyped schema one_item one_value converts

abbrev graph : String → TwGraph
graph name = record {
  name = name;
  exported = true;
  nodes = [];
  output = none;
  param_types = [];
  output_type = none;
}

abbrev script : TwScript
script = record {
  graphs = graph "main" ∷ graph "get" ∷ graph "main" ∷ [];
  entry = 0;
  consts = [];
  idents = [];
  types = [];
}

abbrev vm : IndexedVm
vm = record {
  vm = record { schema = schema; graphs = script.graphs; idents = []; consts = []; types = [] };
  exported_graph_name_index = ("get", 1) ∷ ("main", 2) ∷ [];
}

makes : Vm.new schema script ≡ ok vm
unfolding Vm.new insert
makes = refl

lookup_exported_graph_by_name-IsFound_example :
    IsFound "main" script.graphs (lookup_exported_graph_by_name vm "main")
lookup_exported_graph_by_name-IsFound_example =
    lookup_exported_graph_by_name-IsFound schema script vm "main" makes
