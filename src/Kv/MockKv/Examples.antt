-- ===== src/Kv/MockKv/Examples.antt =====
-- Transactions of the in-memory store at concrete keys, over ascending lists.
use refine_db.Prelude.{
  ◌<◌, Bytes, bytes_cmp, none, some, List, [], ◌∷◌, ◌≡◌, ◌≢◌, refl, ok, err, arith, if◌then◌else◌,
}
use refine_db.Kv.{conflict}
use refine_db.Kv.OrderedMap.{OrderedMap, in_range, within}
use refine_db.Kv.SortedMap.{sorted_map, insert_sorted}
use refine_db.Kv.MockKv.{
  Entry, Transaction, Store, new, begin_transaction, commit, put, delete, delete_range, delete_keys,
  Write, put_key, delete_key, delete_keys_in, run_writes, read, value_of, version_of, scan_keys,
  has_conflict, write_back,
}
use refine_db.Kv.MockKv.Validity.{IsValid, transaction-IsValid, read-run_writes}
use refine_db.Kv.MockKv.Commit.{Wrote, IsCurrent, written_back, commit-IsCurrent, commit_conflict}
use refine_db.Kv.MockKv.Isolation.{Later, no_lost_update}
use refine_db.Kv.MockKv.Range.{buffered, buffered-delete_range}
use refine_db.Kv.MockKv.Scan.{drain, live_keys, drain-scan_keys}

abbrev m : OrderedMap Entry
m = sorted_map

abbrev first : Bytes
first = 1 ∷ []

abbrev second : Bytes
second = 2 ∷ []

abbrev start : Store m
start = new m

-- Two transactions that begin together and write the same key.
abbrev mine : List (Write m)
mine = put_key first (10 ∷ []) ∷ put_key second (20 ∷ []) ∷ []

abbrev other : Transaction m
other = run_writes m (put_key first (30 ∷ []) ∷ []) (begin_transaction m start).0

transaction-IsValid_example : IsValid m (run_writes m mine (begin_transaction m start).0)
transaction-IsValid_example = transaction-IsValid m start mine

read-run_writes_example :
    read m first (run_writes m mine (begin_transaction m start).0)
    ≡ value_of m (m.get first start.contents)
read-run_writes_example = read-run_writes m start mine first

other-IsValid : IsValid m other
other-IsValid = transaction-IsValid m start (put_key first (30 ∷ []) ∷ [])

other-IsCurrent : IsCurrent m other start
unfolding put begin_transaction new sorted_map insert_sorted bytes_cmp
other-IsCurrent k w = refl

commit-IsCurrent_example :
    (s' : Store m) × (commit m other start ≡ some (ok tt, s'))
    × ((k : Bytes)
        → m.get k s'.contents ≡ written_back m other.modified other.buffer start.contents k)
commit-IsCurrent_example = commit-IsCurrent m other start other-IsValid other-IsCurrent

abbrev after_other : Store m
after_other = record start { contents = m.insert first (some (30 ∷ []), 1) start.contents }

commit-other : commit m other start ≡ some (ok tt, after_other)
unfolding commit put begin_transaction new sorted_map insert_sorted bytes_cmp
commit-other = refl

mine-Wrote : Wrote m (run_writes m mine (begin_transaction m start).0) first
unfolding put begin_transaction new sorted_map insert_sorted bytes_cmp
mine-Wrote = (0, refl)

other-Wrote : Wrote m other first
unfolding put begin_transaction new sorted_map insert_sorted bytes_cmp
other-Wrote = (0, refl)

no_lost_update_example :
    commit m (run_writes m mine (begin_transaction m start).0) after_other
    ≡ some (err conflict, after_other)
no_lost_update_example =
    no_lost_update m start start after_other after_other mine other first Later.unchanged
      other-IsValid commit-other Later.unchanged other-Wrote mine-Wrote

overtaken :
    version_of m (m.get first after_other.contents)
    ≢ version_of m (m.get first (run_writes m mine (begin_transaction m start).0).read_buffer)
unfolding put begin_transaction new sorted_map insert_sorted bytes_cmp
overtaken = omega arith

commit_conflict_example :
    commit m (run_writes m mine (begin_transaction m start).0) after_other
    ≡ some (err conflict, after_other)
commit_conflict_example =
    commit_conflict m (run_writes m mine (begin_transaction m start).0) after_other first
      transaction-IsValid_example mine-Wrote overtaken

abbrev two_keys : Transaction m
two_keys = run_writes m mine (begin_transaction m start).0

buffered-delete_range_example :
    buffered m (delete_range m first second two_keys) first
    ≡ (if in_range first second first then none else buffered m two_keys first)
buffered-delete_range_example = buffered-delete_range m first second first two_keys

few_entries : 2 < 3
few_entries = omega arith

drain-scan_keys_example :
    drain m 3 (scan_keys m first (9 ∷ []) two_keys)
    ≡ some (live_keys (within first (9 ∷ []) (m.entries two_keys.buffer)))
unfolding put begin_transaction new sorted_map insert_sorted bytes_cmp
drain-scan_keys_example = drain-scan_keys m 3 first (9 ∷ []) two_keys few_entries

deleted_key_is_skipped :
    drain m 3 (scan_keys m first (9 ∷ []) (delete m first two_keys)) ≡ some (second ∷ [])
unfolding drain scan_keys refine_db.Kv.MockKv.next put delete begin_transaction new sorted_map
    insert_sorted bytes_cmp
deleted_key_is_skipped = refl
