-- ===== src/Kv.antt =====
-- rdb-analyzer/src/data/kv.rs and its in-memory implementation, rdb-analyzer/src/data/mock_kv.rs.
pub mod OrderedMap
pub mod SortedMap
pub mod MockKv

-- kv.rs: the error of `commit`.
pub data KvError : Type 0 where
  conflict commit_state_unknown : KvError
