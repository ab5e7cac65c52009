-- ===== src/Kv/MockKv.antt =====
-- rdb-analyzer/src/data/mock_kv.rs: the in-memory store with transactions. (rdb-pgsvc's memkv.rs
-- repeats it.) The `rpds` map is the parameter `m`; versions and the transaction count are not
-- bounded. `Arc<Mutex<..>>` of the store is passed explicitly: an operation holds its locks from
-- its start to its end, so operations do not overlap.
pub mod Validity
pub mod Commit
pub mod Isolation
pub mod Range
pub mod Scan
mod Examples
use refine_db.Prelude.{
  ℕ, ◌+◌, Bytes, bytes_eq, bytes_lt, ◌==◌, if◌then◌else◌, Bool, true, false, not, ◌||◌, Option,
  none, some, List, [], ◌∷◌, ◌++◌, map, Result, ok, err,
}
use refine_db.Kv.{KvError, conflict}
use refine_db.Kv.OrderedMap.{OrderedMap, find}

-- The value, or none where it was deleted, and its version.
abbrev pub Entry : Type 0
Entry = Option Bytes × ℕ

module _ (m : OrderedMap Entry) where
  open m use {Map, get, insert, empty, range}

  -- `MockStore`
  pub record Store : Type 0 where
    pub contents : Map
    pub txn_count : ℕ

  -- `MockTransaction`; `modified` is a hash map, as an association list
  pub record Transaction : Type 0 where
    pub id : ℕ
    pub read_buffer : Map
    pub buffer : Map
    pub modified : List (Bytes × ℕ)

  -- `MockKv::new`
  unfoldable pub new : Store
  new = record { contents = empty; txn_count = 0 }

  unfoldable pub begin_transaction : Store → Transaction × Store
  begin_transaction s = (
    record { id = s.txn_count + 1; read_buffer = s.contents; buffer = s.contents; modified = [] },
    record s { txn_count = s.txn_count + 1 },
  )

  abbrev pub value_of : Option Entry → Option Bytes
  value_of none = none
  value_of (some e) = e.0

  -- `.map(|x| x.1).unwrap_or_default()`
  abbrev pub version_of : Option Entry → ℕ
  version_of none = 0
  version_of (some e) = e.1

  unfoldable pub read : Bytes → Transaction → Option Bytes
  read key t = value_of (get key t.read_buffer)

  -- `if !modified.contains_key(key) { modified.insert(..) }`
  abbrev pub note_modified : Bytes → ℕ → List (Bytes × ℕ) → List (Bytes × ℕ)
  note_modified key version modified = elim (find key modified) [
    | none ↦ (key, version) ∷ modified
    | some _ ↦ modified
  ]

  abbrev pub write : Bytes → Option Bytes → Transaction → Transaction
  write key value t =
      let version = version_of (get key t.buffer) in
      record t {
        buffer = insert key (value, version + 1) t.buffer;
        modified = note_modified key version t.modified;
      }

  unfoldable pub put : Bytes → Bytes → Transaction → Transaction
  put key value t = write key (some value) t

  unfoldable pub delete : Bytes → Transaction → Transaction
  delete key t = write key none t

  pub delete_keys : List (Bytes × Entry) → Transaction → Transaction
  unfolding delete
  delete_keys [] t = t
  delete_keys ((k, _) ∷ l) t = delete_keys l (delete k t)

  unfoldable pub delete_range : Bytes → Bytes → Transaction → Transaction
  delete_range start end t = delete_keys (range start end t.buffer) t

  -- `MockIterator`
  pub record Iterator : Type 0 where
    pub map : Map
    pub current : Bytes
    pub end : Bytes

  unfoldable pub scan_keys : Bytes → Bytes → Transaction → Iterator
  scan_keys start end t = record { map = t.buffer; current = start; end = end }

  -- The loop of `next` over what is left of the range.
  pub advance : List (Bytes × Entry) → Iterator → Option Bytes × Iterator
  advance [] it = (none, it)
  advance ((k, (some _, _)) ∷ l) it = (some k, record it { current = k ++ 0x00 ∷ [] })
  advance ((k, (none, _)) ∷ l) it = advance l (record it { current = k ++ 0x00 ∷ [] })

  unfoldable pub next : Iterator → Option Bytes × Iterator
  unfolding advance
  next it = advance (range it.current it.end it.map) it

  pub has_conflict : List (Bytes × ℕ) → Map → Bool
  has_conflict [] contents = false
  has_conflict ((k, initial_version) ∷ l) contents =
      not (version_of (get k contents) == initial_version) || has_conflict l contents

  -- `none` is the panic of `buffer.get(&k).unwrap()`.
  pub write_back : List (Bytes × ℕ) → Map → Map → Option Map
  write_back [] buffer contents = some contents
  write_back ((k, _) ∷ l) buffer contents = elim (get k buffer) [
    | none ↦ none
    | some e ↦ write_back l buffer (insert k e contents)
  ]

  unfoldable pub commit : Transaction → Store → Option (Result KvError (Unit {0}) × Store)
  unfolding has_conflict write_back
  commit t s =
      if has_conflict t.modified s.contents
      then some (err conflict, s)
      else elim (write_back t.modified t.buffer s.contents) [
        | none ↦ none
        | some contents ↦ some (ok tt, record s { contents = contents })
      ]

  -- The operations of a transaction that write.
  pub data Write : Type 0 where
    put_key : Bytes → Bytes → Write
    delete_key : Bytes → Write
    delete_keys_in : Bytes → Bytes → Write

  abbrev pub run_write : Write → Transaction → Transaction
  run_write (put_key k v) t = put k v t
  run_write (delete_key k) t = delete k t
  run_write (delete_keys_in start end) t = delete_range start end t

  abbrev pub run_writes : List Write → Transaction → Transaction
  run_writes [] t = t
  run_writes (w ∷ ws) t = run_writes ws (run_write w t)
