-- ===== src/Lib.antt =====
-- A model of pg_table_range, a PostgreSQL extension (Rust, pgrx) whose index access method keeps one
-- summary for each partition, so that the planner can leave out partitions that cannot match.
--
-- The parts, and the files that model them (paths from the repository's root):
--   Base, Bytes    shared names, lists, the three outcomes of a call into PostgreSQL (a value, `None`,
--                  an ERROR), machine integers as little-endian bytes, and the UTF-8 test.
--   Summary        `ColSummary` and `IndexSummary` of src/index_storage.rs.
--   Codec          `serialize` and `deserialize` of src/index_storage.rs.
--   Fitting        `encode_fitting` of src/index_storage.rs, which drops bounds until a page has room.
--   Metapage       `page_blob`, `put_blob`, `write_blob`, `replace_blob_if`, `read_blob`,
--                  `write_summary`, `read_summary` of src/index_storage.rs.
--   Server         the helpers of src/prune_hook.rs and src/summary_build.rs that call PostgreSQL:
--                  `datum_cmp`, `btree_cmp_proc`, `text_to_datum`, `datum_to_text`, `spi_value`,
--                  `qualified_type_name`.
--   Widen          `widen_summary`, `widen_column`, `widen_minmax`, `widen_overlap` of src/index_am.rs.
--   StableIo       `with_stable_io` of src/stable_io.rs.
--   Cache          src/summary_cache.rs.
--   Insert         `am_insert` and `widen_on_insert` of src/index_am.rs.
--   Build          src/summary_build.rs and `am_build` of src/index_am.rs: the scan's callback, the
--                  accumulators of each column, and the summary made of them;
--     Memory       the same accumulators on addresses, with `copy_datum` and `free_datum`.
--   Prune          src/prune_hook.rs: `QualSpec::proves_prune` and the typed evaluation;
--     Clause       `extract_qual`, `compare_op` and `clause_proves_prune`; Truth says what a clause means
--                  in SQL;
--     Relation     `table_range_pathlist_hook` and `evaluate_relation`; Rows joins the build, the
--                  inserts and the plan;
--     Planner      `table_range_planner_hook` with the tables of a plan, `load_summary`, and the
--                  evaluation and the hook again as they read and fill these tables.
--   Coherence      backends with transactions, the messages of src/summary_cache.rs between them, and what
--                  each plans with.
--   Samples        concrete data for the tests, which stand in a module Tests of each part.
--
-- How they interact: the build folds every tuple of the heap scan into an accumulator for each
-- column and writes the metapage. After it, an insert reads the metapage's blob, decodes it, widens
-- the summary under pinned output settings, encodes it again, and swaps the blob if it is still the
-- one that was read; other backends may do the same in between. Insert.Concurrent has one step for
-- each access to the metapage, since a buffer lock is held from the read to the write of
-- `replace_blob_if`; a won swap notes its invalidations with the same step. The planner reads the
-- same summary and asks of each clause whether it rules the partition out. Coherence takes each of
-- these steps into a transaction: what a widening has noted is sent when the transaction commits,
-- and the planner of another backend may find an older summary in its cache until it has received
-- it.
--
-- What the source takes from PostgreSQL is a parameter: the record `Server` holds the functions and
-- catalog lookups that are called, `PageApi` the page functions. What is relied on of them are the
-- records `BtreeOrder`, `ExtentOrder` and `OverlapOp` (Widen.Covers), `BatchExtents` (Build.Batch),
-- `Operators` (Prune.Clause.Truth) and `PageLaws` (Metapage); Samples and the tests give instances of
-- the orders, the operators, the batches and the page interface.
--
-- Numbers: a `u16`, `u32` or `i16` is its bit pattern, a Datum and an Oid are numbers, a string is its
-- bytes. Integers of the machine are little-endian. Blocks have at least 1024 and at most 32768 bytes,
-- as PostgreSQL's build allows.
--
-- Fuel: the loop of `encode_fitting` runs on fuel, one round more than there are columns; each round
-- but the last takes the bounds of a column that has some, so that many rounds are enough. The loop of
-- `widen_on_insert` is not run on fuel: each of its turns is a pair of steps of Insert.Concurrent, and
-- a turn that loses the swap goes back to its head.
--
-- Not modelled: the heap scan itself, which belongs to the table's access method and passes its
-- tuples to the callback, and the lifetime of the build's own memory context; subtransactions (a
-- transaction commits or aborts as a whole, in one step); the debug log and the installation of the
-- hooks; the handler, vacuum and cost callbacks (src/index_am.rs) and the settings (src/lib.rs),
-- which are constants and calls into PostgreSQL. PostgreSQL's functions, called in an evaluation,
-- do not plan in between here; Prune.Planner has planner invocations within planning by themselves,
-- and what becomes of the call records that they leave in the memo once their memory is freed.
-- A heap attribute has one index collation here, and a null test is that of a type that is not
-- composite.
pub mod Base
pub mod Bytes
pub mod Summary
pub mod Codec
pub mod Fitting
pub mod Metapage
pub mod Server
pub mod Widen
pub mod StableIo
pub mod Cache
pub mod Insert
pub mod Build
pub mod Prune
pub mod Coherence
pub mod Samples
