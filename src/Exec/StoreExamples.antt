-- ===== src/Exec/StoreExamples.antt =====
-- Writing the title of a post, and reading it back; and the loop at nodes that fire twice.
use refine_db.Prelude.{bytes_cmp, true, none, some, [], ◌∷◌, ok, ◌≡◌, refl, lookup}
use refine_db.Value.{PrimitiveType, PrimitiveValue, string}
use refine_db.Schema.{FieldType, SpecializedType}
use refine_db.Schema
use refine_db.PathWalker.{generate_key, enter_field, check_and_add_depth}
use refine_db.Storage.{get_child}
use refine_db.PathWalker.Keys.{key_prefix}
use refine_db.PathWalker.Examples.{post_at, title, fifth_bytes, enter_title}
use refine_db.Treewalker.Bytecode.{insert_into_table, get_field, add, is_select}
use refine_db.Treewalker.Values.{primitive, table, resident}
use refine_db.Treewalker.Typeck.{TwVm}
use refine_db.Kv.OrderedMap.{OrderedMap}
use refine_db.Kv.SortedMap.{sorted_map, insert_sorted}
use refine_db.Kv.MockKv.{Entry, Store, new, begin_transaction, put, commit, put_key}
use refine_db.Kv.MockKv.Validity.{transaction-IsValid}
use refine_db.Kv.MockKv.Range.{buffered}
use refine_db.Exec.Outcome.{untagged, throw, conflict_after_retries}
use refine_db.Exec.Insert.{walk_and_insert}
use refine_db.Exec.Insert.Below.{IsOutside, walk_and_insert_keeps}
use refine_db.Exec.Insert.RoundTrip.{get_field-insert_into_table}
use refine_db.Exec.Reduce.{Machine}
use refine_db.Exec.Progress.{Progress, run_with, all_params, fire_targets}
use refine_db.Exec.Once.Twice.{fire_targets_twice}
use refine_db.Exec.RunNode.{Context, run_node}
use refine_db.Exec.Samples.{host, three, param_rule, double_graph}

abbrev m : OrderedMap Entry
m = sorted_map

abbrev post_type : SpecializedType
post_type = record {
  name = "Post<>";
  fields = ("title", (Schema.primitive PrimitiveType.string, [])) ∷ [];
}

abbrev vm : TwVm
vm = record {
  schema = record { types = ("Post<>", post_type) ∷ []; exports = [] };
  graphs = [];
  idents = "title" ∷ [];
  consts = [];
  types = [];
}

-- No subgraph is run.
abbrev cx : Context m
cx = record { vm = vm; graph_params = []; go = λ g params s. throw conflict_after_retries }

abbrev letter : PrimitiveValue
letter = string (97 ∷ [])

abbrev begun : Machine m
begun = record { txn = (begin_transaction m (new m)).0; choices = [] }

abbrev written : Machine m
written = record begun { txn = put m (generate_key title) (host.to_vec letter) begun.txn }

write_title :
    run_node host cx
      (insert_into_table 0)
      (primitive letter ∷ table "Post<>" (resident (post_at fifth_bytes)) ∷ [])
      none
      begun
    ≡ ok (none, written)
unfolding run_node walk_and_insert enter_field check_and_add_depth get_child
write_title = refl

abbrev stored : Store m
stored = record {
  contents = m.insert (generate_key title) (some (host.to_vec letter), 1) (new m).contents;
  txn_count = 1;
}

title_commits : commit m written.txn (begin_transaction m (new m)).1 ≡ some (ok tt, stored)
unfolding commit begin_transaction put new sorted_map insert_sorted bytes_cmp generate_key
title_commits = refl

get_field-insert_into_table_example :
    run_node host cx
      (get_field 0)
      (table "Post<>" (resident (post_at fifth_bytes)) ∷ [])
      none
      (record { txn = (begin_transaction m stored).0; choices = [] })
    ≡ ok (some (primitive letter), record { txn = (begin_transaction m stored).0; choices = [] })
unfolding lookup untagged
get_field-insert_into_table_example =
    get_field-insert_into_table host m cx 0 "title" "Post<>" post_type PrimitiveType.string []
      (post_at fifth_bytes) title letter refl enter_title none none begun written
      (begin_transaction m (new m)).1 stored [] refl refl
      (transaction-IsValid m (new m) (put_key (generate_key title) (host.to_vec letter) ∷ []))
      write_title title_commits

-- The key 9 lies outside the posts.
IsOutside-title : IsOutside (key_prefix title) (9 ∷ [])
unfolding key_prefix
IsOutside-title r e = cc

walk_and_insert_keeps_example :
    buffered m (put m (generate_key title) (host.to_vec letter) begun.txn) (9 ∷ [])
    ≡ buffered m begun.txn (9 ∷ [])
unfolding walk_and_insert
walk_and_insert_keeps_example =
    walk_and_insert_keeps host m title (primitive letter) begun.txn
      (put m (generate_key title) (host.to_vec letter) begun.txn) (9 ∷ []) IsOutside-title
      insert_letter
  where
    insert_letter :
        walk_and_insert host m title (primitive letter) begun.txn
        ≡ ok (put m (generate_key title) (host.to_vec letter) begun.txn)
    insert_letter = refl

-- `x + x` before its parameter completes for the second time.
abbrev both_there : Progress
both_there = record {
  deps_satisfied = [] ∷ (some three ∷ some three ∷ []) ∷ [];
  precondition_satisfied = true ∷ true ∷ [];
  futures = [];
  ret = none;
}

fire_targets_twice_example :
    (p' : Progress) × (fire_targets double_graph.nodes
        (param_rule 1 0 ∷ param_rule 1 1 ∷ [])
        both_there
      ≡ ok p')
    × (p'.futures
        ≡ record { node = 1; work = run_with (three ∷ three ∷ []) }
          ∷ record { node = 1; work = run_with [] }
          ∷ [])
unfolding all_params is_select
fire_targets_twice_example =
    fire_targets_twice double_graph.nodes 1 add (0 ∷ 0 ∷ []) none refl refl both_there
      (some three ∷ some three ∷ []) (three ∷ three ∷ []) (param_rule 1 0) (param_rule 1 1) refl
      refl refl refl refl
