-- ===== src/Lib.antt =====
-- RefineDB: a typed document database over a transactional key-value store.
--
-- A schema is compiled to tables of fields (rdb-analyzer/src/schema), a storage plan gives every
-- field a key (rdb-analyzer/src/storage_plan), a path walker turns a path through the plan into a key
-- of the store (rdb-analyzer/src/data/pathwalker.rs), and the tree-walking executor
-- (rdb-analyzer/src/data/treewalker) reads and writes those keys in a transaction
-- (rdb-analyzer/src/data/kv.rs). This library models these parts as pure functions; shared and
-- locked state is passed explicitly.
--
-- Parts and files:
--   Prelude      tests on numbers, bytes and names, results, maps with names for keys, integers, bits
--   Value        rdb-analyzer/src/data/value.rs: primitive values and their order-preserving encoding;
--                Value/BigEndian, Escape, Order, Delimit
--   Schema       rdb-analyzer/src/schema/compile.rs: CompiledSchema and its lookups; Schema/Ast is
--                grammar/ast.rs, and Schema/Resolve is `compile` with TypeResolutionContext
--   Storage      rdb-analyzer/src/storage_plan/mod.rs: StorageNode, StoragePlan; Storage/Conversion is
--                conversion.rs, with the functions of the `base64` package as the record `Base64`;
--                Storage/Planner is planner.rs, with collect_special_types in Storage/Planner/Special, and
--                generate_field and generate_plan_for_schema in Storage/Planner/Generate
--   PathWalker   rdb-analyzer/src/data/pathwalker.rs: PathWalker as `Walker`, with from_export,
--                enter_field, enter_set_raw, enter_set, generate_key and the path listings
--   Kv           rdb-analyzer/src/data/kv.rs: KvError; Kv/MockKv is mock_kv.rs: the store, its
--                transactions (begin, get as `read`, put, delete, delete_range, scan_keys, commit) and
--                the iterator. The map of the `rpds` package is the record `Kv.OrderedMap`, its
--                operations and documented laws; Kv/SortedMap shows that the laws can be met
--   Treewalker   rdb-analyzer/src/data/treewalker: Treewalker/Bytecode is bytecode.rs; Treewalker/Types and
--                Treewalker/Values are the types and values of vm_value.rs, with the accessors in
--                Treewalker/Access, the derived equality in Treewalker/Equality and VmConst with
--                from_const in Treewalker/Consts; Treewalker/Vm is vm.rs; Treewalker/Serialize is
--                serialize.rs, with the texts of numbers and base64 as the record `Texts`;
--                Treewalker/Typeck is typeck.rs, with a function for each kind of node, typeck_graph in
--                Typeck/Graphs and GlobalTyckContext in Typeck/Script, over the strongly connected
--                components of the `petgraph` package as the record `CallGraphs`
--   Exec         rdb-analyzer/src/data/treewalker/exec.rs, over a walker and a transaction of Kv/MockKv:
--                delete_set and delete_entry_from_set here; ExecError and the parameters (`Host`) in
--                Exec/Outcome; read_table_element and walk_and_insert in Exec/Insert; run_node in
--                Exec/RunNode, whose nodes are in Exec/Compute (those that only compute), Exec/Effects
--                (those that read or write) and Exec/Reduce; generate_fire_rules in Exec/FireRules; the
--                state of recursively_run_graph in Exec/Progress and its loop, with Executor, in
--                Exec/Loop; run_graph in Exec/Attempts; generate_root_map in Exec/RootMap. The proofs
--                are in Exec/Once (the stages of a node while the loop runs), Exec/Ends, Exec/Writes and
--                the child modules of each part
--
-- Representation: a byte is a number below 256 where a theorem needs it, a string of bytes a list, a
-- Rust `String` that is data its UTF-8 bytes, and a name a native text. Versions and transaction
-- counts (u64) are unbounded numbers. Maps with names for keys are association lists that insertions
-- keep in ascending order, as a BTreeMap is walked. An error of the walker stands, where the
-- executor calls `unwrap`, for the panic.
--
-- Concurrency: the futures of a graph share one transaction, and an operation of the in-memory store does
-- not wait; so a future runs as a whole when it completes, and `select_all` is a choice, read from a list
-- of numbers that a run gets, of which future that is. `Exec.Attempts.Others` is a list of functions on
-- the store: what other transactions do to it between the begin and the commit of each attempt.
--
-- Fuel: the loop of a scan's caller, `Kv.MockKv.Scan.drain`, needs one step for each entry of the
-- range and one to see the end. `compile` takes one step for each type within a type; where no
-- type has parameters, more than the number of items is enough (Schema/Ends). A generic type that
-- specializes itself without end exhausts any fuel, as it does the stack of the program. The
-- planner takes one step for each table or set type within a type, and draws from a list of
-- samples of the clock and the random generator until a key is new, where the program's loop has
-- no bound. The loop over the futures of a graph has fuel for a round for each pair of a node and
-- an edge (`Exec.Loop.loop_fuel`), where one for each node is needed, and the scan of a reduced
-- set for each entry of its range; the depth of calls counts down from 128, as in the program.
--
-- Not modelled: the assembler, the parsers (generated by lalrpop), serialisation by serde, the HTTP and
-- gRPC servers, the SQLite and FoundationDB drivers, the command line, logging and pretty printing.
pub mod Prelude
pub mod Value
pub mod Schema
pub mod Storage
pub mod PathWalker
pub mod Kv
pub mod Treewalker
pub mod Exec
