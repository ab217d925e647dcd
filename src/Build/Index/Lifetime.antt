-- ===== src/Build/Index/Lifetime.antt =====
-- An index from its build on (src/index_am.rs: `am_build`, then any number of `am_insert`).
use pg_table_range.Base.{ℕ, ◌≡◌, Option, List, Result, known}
use pg_table_range.Bytes.{Bytes}
use pg_table_range.Metapage.{Page, PageApi, PageLaws, read_summary}
use pg_table_range.Server.{Server}
use pg_table_range.StableIo.{Gucs, Session}
use pg_table_range.StableIo.Pinned.{IsStable}
use pg_table_range.Widen.Row.{Row, Table}
use pg_table_range.Insert.Concurrent.{outside, System, Reach, Covered, Reach-Covered}
use pg_table_range.Build.Holds.{with_text_io}
use pg_table_range.Build.Batch.{BatchExtents}
use pg_table_range.Build.Scan.{IsTypedIndex}
use pg_table_range.Build.Index.{IndexBuild, am_build}
use pg_table_range.Build.Index.Covers.{Indexed, input_of, am_build-Indexed}

module _ {sv : Server} (table : Table sv) (ns : List ℕ) (out : ℕ → ℕ → Result (Option Bytes))
    (inp : ℕ → Bytes → ℕ → Result ℕ)
    (batches : (n : ℕ) → BatchExtents (table.orders n).extent out inp)
    (index : IsTypedIndex table ns) (server_of : Gucs → Server)
    (stable : (g : Gucs) → IsStable g → server_of g ≡ sv) (session : Session)
    (scanning : server_of session.gucs ≡ with_text_io sv out inp) (api : PageApi)
    (laws : PageLaws api) where
  -- After `ambuild` of a whole index returns, and then any interleaving of any number of inserts by any
  -- number of backends that starts with none inside `aminsert`, the summary that is stored covers every
  -- tuple of the build's scan and every row whose `aminsert` has returned, or none is readable.
  pub am_build-Reach :
      (rows : List Row) (n : ℕ) (pages : List Page) (b : IndexBuild) (sessions : ℕ → Session)
      (indexoid heapoid : ℕ) (s t : System)
      → am_build server_of session api (input_of table ns rows n) pages ≡ known b
      → s.shared.pages ≡ b.pages
      → s.inserted ≡ rows
      → ((i : ℕ) → s.pc i ≡ outside)
      → Reach table server_of api sessions ns indexoid heapoid s t
      → Covered table server_of api sessions ns indexoid heapoid
          (read_summary api t.shared.pages)
          t.inserted
  am_build-Reach rows n pages b sessions indexoid heapoid s t built at scanned quiet r =
      Reach-Covered table server_of api sessions ns indexoid heapoid laws stable quiet start r
    where
      i : Indexed table ns api rows b.pages
      i =
          (am_build-Indexed table ns out inp batches index server_of stable session scanning api
              laws rows n pages).at
            b built

      start :
          Covered table server_of api sessions ns indexoid heapoid
            (read_summary api s.shared.pages)
            s.inserted
      start = rw (at, scanned, i.reads) (i.sound, i.covers)
