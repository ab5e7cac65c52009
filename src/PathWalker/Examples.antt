-- ===== src/PathWalker/Examples.antt =====
-- A plan with one set of posts, its walkers, and the theorems on walkers at them.
use refine_db.Prelude.{
  ℕ, Bytes, bytes_cmp, false, true, none, some, [], ◌∷◌, ◌++◌, ◌≡◌, refl, ok, lookup,
}
use refine_db.Prelude.Int.{pos}
use refine_db.Value.{PrimitiveValue, int64, serialize_for_key_component}
use refine_db.Storage
use refine_db.Storage.{
  StorageKey, StorageNode, storage_node, no_set, set_of, no_child, child, StoragePlan, get_child,
}
use refine_db.PathWalker.{
  Walker, root, linked, node, from_export, enter_field, enter_set, enter_set_raw, dynamic_key,
  check_and_add_depth, generate_key, find_reference,
}
use refine_db.PathWalker.Keys.{key_prefix, generate_key-enter_field}
use refine_db.PathWalker.Depth.{IsWalker, HasDepth, IsWalker-HasDepth}
use refine_db.PathWalker.Sets.{Below, Below-element, element_prefix}

abbrev pub storage_key : ℕ → StorageKey
storage_key n = n ∷ 0 ∷ 0 ∷ 0 ∷ 0 ∷ 0 ∷ 0 ∷ 0 ∷ 0 ∷ 0 ∷ 0 ∷ 0 ∷ []

abbrev leaf : ℕ → StorageNode StorageKey
leaf n = storage_node (storage_key n) false none no_set no_child

-- A table of a title and of a reference to the table itself.
abbrev post : StorageNode StorageKey
post = storage_node (storage_key 2) true none no_set (
    child "title" (leaf 3) (
      child "reply" (storage_node (storage_key 4) false (some (storage_key 2)) no_set no_child)
        no_child))

abbrev pub plan : StoragePlan StorageKey
plan = record {
  nodes = ("posts", storage_node (storage_key 1) false none (set_of post) no_child) ∷ [];
}

abbrev pub posts : Walker
posts = root (record {
  node = storage_node (storage_key 1) false none (set_of post) no_child;
  key = storage_key 1;
  depth = 1;
  should_flatten = false;
  is_intermediate = false;
  path_segment = some "posts";
})

abbrev pub fifth : PrimitiveValue
fifth = int64 (pos 5)

abbrev pub fifth_bytes : Bytes
fifth_bytes = 3 ∷ 128 ∷ 0 ∷ 0 ∷ 0 ∷ 0 ∷ 0 ∷ 0 ∷ 5 ∷ []

-- The element with a given encoded primary key.
abbrev pub post_at : Bytes → Walker
post_at pk =
    linked
      (record {
        node = post;
        key = storage_key 2;
        depth = 3;
        should_flatten = true;
        is_intermediate = false;
        path_segment = none;
      })
      (linked
        (record {
          node = post;
          key = dynamic_key pk;
          depth = 2;
          should_flatten = false;
          is_intermediate = true;
          path_segment = none;
        })
        posts)

abbrev pub title : Walker
title =
    linked
      (record {
        node = leaf 3;
        key = storage_key 3;
        depth = 4;
        should_flatten = false;
        is_intermediate = false;
        path_segment = some "title";
      })
      (post_at fifth_bytes)

-- A reply is entered by the reference: with the node of the table and the key of the field.
abbrev reply : Walker
reply =
    linked
      (record {
        node = post;
        key = storage_key 4;
        depth = 4;
        should_flatten = false;
        is_intermediate = false;
        path_segment = some "reply";
      })
      (post_at fifth_bytes)

from_export-posts : from_export plan "posts" ≡ ok posts
unfolding from_export lookup
from_export-posts = refl

pub enter_posts : (pk : Bytes) → enter_set_raw posts pk ≡ ok (post_at pk)
unfolding enter_set_raw check_and_add_depth
enter_posts pk = refl

enter_fifth : enter_set posts fifth ≡ ok (post_at fifth_bytes)
unfolding enter_set check_and_add_depth serialize_for_key_component
enter_fifth = refl

pub enter_title : enter_field (post_at fifth_bytes) "title" ≡ ok title
unfolding enter_field check_and_add_depth get_child
enter_title = refl

enter_reply : enter_field (post_at fifth_bytes) "reply" ≡ ok reply
unfolding enter_field check_and_add_depth get_child find_reference bytes_cmp
enter_reply = refl

key_of_title : generate_key title ≡ storage_key 1 ++ dynamic_key fifth_bytes ++ storage_key 3
unfolding generate_key
key_of_title = refl

found_reply :
    get_child "reply" (Storage.children (node (post_at fifth_bytes)))
    ≡ some (storage_node (storage_key 4) false (some (storage_key 2)) no_set no_child)
unfolding get_child
found_reply = refl

generate_key-enter_field_example :
    generate_key reply ≡ key_prefix (post_at fifth_bytes) ++ storage_key 4
generate_key-enter_field_example =
    generate_key-enter_field (post_at fifth_bytes) reply "reply" found_reply enter_reply

reply-IsWalker : IsWalker plan reply
reply-IsWalker =
    IsWalker.field "reply"
      (IsWalker.element fifth_bytes (IsWalker.export "posts" from_export-posts)
        (enter_posts fifth_bytes))
      enter_reply

IsWalker-HasDepth_example : HasDepth reply
IsWalker-HasDepth_example = IsWalker-HasDepth plan reply reply-IsWalker

Below-element_example : (r : Bytes) × (generate_key title ≡ element_prefix posts fifth_bytes ++ r)
Below-element_example =
    Below-element posts (post_at fifth_bytes) title fifth_bytes (enter_posts fifth_bytes)
      (Below.field "title" Below.here enter_title)
