-- ===== src/Exec/Outcome.antt =====
-- rdb-analyzer/src/data/treewalker/exec.rs: ExecError, and how a piece of a run ends. The functions of
-- other packages that the executor calls are the record `Host`.
use refine_db.Prelude.{
  ℕ, String, Bytes, Option, some, Result, ok, err, ok_or, ◌≡◌, ltb, if◌then◌else◌,
}
use refine_db.Prelude.Int.{pos}
use refine_db.Value.{PrimitiveValue, string, bytes, int64, double, top_bit}
use refine_db.PathWalker.{Walked}
use refine_db.Kv.{KvError}
use refine_db.Treewalker.Bytecode.{TwGraphNode}

-- The text of `NotImplemented`, or the node that it shows.
pub data Missing : Type 0 where
  text : String → Missing
  shown : TwGraphNode → Missing

pub data ExecError : Type 0 where
  not_implemented : Missing → ExecError
  null_unwrapped fresh_table_or_set_not_supported export_type_not_supported : ExecError
  max_recursion_depth_exceeded : ℕ → ExecError
  both_select_candidates_fired : ExecError
  path_integrity_failure : String → ExecError
  conflict_after_retries : ExecError
  script_thrown_error : Bytes → ExecError
  script_thrown_null : ExecError

-- An error of the executor, a stored value that cannot be read, an error of a commit, a panic, or the end of the fuel.
pub data Halt : Type 0 where
  failed : ExecError → Halt
  undecodable : Bytes → Halt
  commit_failed : KvError → Halt
  panicked out_of_fuel : Halt

abbrev pub Executed : Type 0 → Type 0
Executed = Result Halt

abbrev pub throw : {A : Type 0} → ExecError → Executed A
throw e = err (failed e)

-- `unwrap`, `expect` and an index.
abbrev pub unwrap : {A : Type 0} → Option A → Executed A
unwrap o = ok_or panicked o

abbrev pub unwrap_walked : {A : Type 0} → Walked A → Executed A
unwrap_walked (ok a) = ok a
unwrap_walked (err _) = err panicked

-- PrimitiveValue is an untagged enum: `serde` writes the content alone, and reads it as the first of the
-- variants String, Bytes, Int64 and Double that fits. The bits of a float whose sign is positive fit an
-- i64.
unfoldable pub untagged : PrimitiveValue → PrimitiveValue
untagged (string s) = string s
untagged (bytes s) = bytes s
untagged (int64 x) = int64 x
untagged (double n) = if ltb n top_bit then int64 (pos n) else double n

-- `rmp_serde` reads the content of what it wrote, and the sum and difference of floats are given by their bits.
pub record Host : Type 0 where
  pub to_vec : PrimitiveValue → Bytes
  pub from_slice : Bytes → Option PrimitiveValue
  pub from_slice-to_vec : (x : PrimitiveValue) → from_slice (to_vec x) ≡ some (untagged x)
  pub add_double : ℕ → ℕ → ℕ
  pub sub_double : ℕ → ℕ → ℕ
