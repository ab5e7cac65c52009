-- ===== src/Exec/Examples.antt =====
-- Deleting from a stored set of posts.
use refine_db.Prelude.{Bytes, none, [], ◌∷◌, ◌++◌, ◌≡◌, ◌≢◌, refl, ok, arith}
use refine_db.Prelude.Int.{pos}
use refine_db.Value.{PrimitiveValue, string, int64, get_type, serialize_for_key_component}
use refine_db.PathWalker.{enter_set, generate_key, set_fast_scan_prefix, set_data_prefix}
use refine_db.PathWalker.Examples.{posts, post_at, fifth, enter_posts}
use refine_db.PathWalker.Sets.{Below}
use refine_db.Kv.OrderedMap.{OrderedMap}
use refine_db.Kv.SortedMap.{sorted_map}
use refine_db.Kv.MockKv.{
  Entry, Transaction, new, begin_transaction, delete, delete_range, run_writes, put_key,
}
use refine_db.Kv.MockKv.Range.{buffered}
use refine_db.Exec.{delete_entry_from_set, delete_set, fast_scan_key, set_last, move_up}
use refine_db.Exec.SetKeys.{key_of_member}
use refine_db.Exec.DeleteEntry.{delete_entry_removes, delete_entry_keeps, delete_entry_captures}
use refine_db.Exec.DeleteSet.{delete_set_removes}

abbrev m : OrderedMap Entry
m = sorted_map

-- The keys of the fifth post are stored.
abbrev t : Transaction m
t =
    run_writes m
      (put_key (key_of_member posts fifth) []
        ∷ put_key (generate_key (post_at (serialize_for_key_component fifth))) []
        ∷ [])
      (begin_transaction m (new m)).0

enter_value :
    (v : PrimitiveValue) → enter_set posts v ≡ ok (post_at (serialize_for_key_component v))
unfolding enter_set
enter_value v = enter_posts (serialize_for_key_component v)

abbrev data_start : PrimitiveValue → Bytes
data_start v = (generate_key posts ++ 0 ∷ []) ++ (serialize_for_key_component v ++ 0 ∷ [])

-- The transaction after the deletion of an entry.
abbrev without : PrimitiveValue → Transaction m
without v =
    delete_range m (data_start v) (set_last 1 (data_start v)) (delete m (key_of_member posts v) t)

deleted : (v : PrimitiveValue) → delete_entry_from_set m posts v t ≡ ok (without v)
unfolding delete_entry_from_set fast_scan_key set_fast_scan_prefix set_data_prefix
deleted v = refl

delete_entry_removes_example :
    (buffered m (without fifth) (generate_key (post_at (serialize_for_key_component fifth))) ≡ none)
    × (buffered m (without fifth) (key_of_member posts fifth) ≡ none)
delete_entry_removes_example =
    delete_entry_removes m posts fifth t (without fifth)
      (post_at (serialize_for_key_component fifth)) (post_at (serialize_for_key_component fifth))
      refl (enter_value fifth) Below.here (deleted fifth)

abbrev sixth : PrimitiveValue
sixth = int64 (pos 6)

other_value : fifth ≢ sixth
other_value e = ground arith

delete_entry_keeps_example :
    (buffered m (without sixth) (generate_key (post_at (serialize_for_key_component fifth)))
      ≡ buffered m t (generate_key (post_at (serialize_for_key_component fifth))))
    × (buffered m (without sixth) (key_of_member posts fifth)
        ≡ buffered m t (key_of_member posts fifth))
unfolding get_type
delete_entry_keeps_example =
    delete_entry_keeps m posts sixth t (without sixth) fifth
      (post_at (serialize_for_key_component fifth)) (post_at (serialize_for_key_component fifth))
      refl (omega arith) (omega arith) tt tt refl other_value (enter_value fifth) Below.here
      (deleted sixth)

-- The texts "a" and "a\0b".
abbrev letter : Bytes
letter = 97 ∷ []

abbrev longer : PrimitiveValue
longer = string (letter ++ 0 ∷ 98 ∷ [])

delete_entry_captures_example :
    (buffered m
        (without (string letter))
        (generate_key (post_at (serialize_for_key_component longer)))
      ≡ none)
    × (buffered m (without (string letter)) (key_of_member posts longer)
        ≡ buffered m t (key_of_member posts longer))
delete_entry_captures_example =
    delete_entry_captures m posts letter (98 ∷ []) t (without (string letter))
      (post_at (serialize_for_key_component longer)) (post_at (serialize_for_key_component longer))
      refl (enter_value longer) Below.here (deleted (string letter))

abbrev cleared : Transaction m
cleared =
    delete_range m (generate_key posts ++ 0 ∷ []) (move_up (generate_key posts ++ 0 ∷ []))
      (delete_range m (generate_key posts ++ 1 ∷ []) (move_up (generate_key posts ++ 1 ∷ [])) t)

delete_posts : delete_set m posts t ≡ ok cleared
unfolding delete_set set_fast_scan_prefix set_data_prefix
delete_posts = refl

delete_set_removes_example :
    (buffered m cleared (generate_key (post_at (serialize_for_key_component fifth))) ≡ none)
    × (buffered m cleared (key_of_member posts fifth) ≡ none)
    × (buffered m cleared (generate_key posts) ≡ buffered m t (generate_key posts))
delete_set_removes_example =
    delete_set_removes m posts t cleared fifth (post_at (serialize_for_key_component fifth))
      (post_at (serialize_for_key_component fifth)) refl (enter_value fifth) Below.here delete_posts
