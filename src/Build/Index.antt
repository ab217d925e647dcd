-- ===== src/Build/Index.antt =====
-- `ambuild` (src/index_am.rs, `am_build`).
pub mod Covers
pub mod Ends
pub mod Lifetime
use pg_table_range.Base.{
  ℕ, Bool, Option, none, some, List, if◌then◌else◌, Result, or_raise, Attempt, known, unknown,
  raised, partial_index, ◌>>=◌,
}
use pg_table_range.Metapage.{Page, PageApi, write_summary}
use pg_table_range.Server.{Server}
use pg_table_range.StableIo.{Gucs, Session}
use pg_table_range.Build.{IndexColumn, Tuple}
use pg_table_range.Build.Finish.{build_leaf_summary}

-- The blocks of the new index, and the two fields of `IndexBuildResult`. The tuple counts are floats
-- in the source; the heap's is the one that the scan returns.
pub record IndexBuild : Type 0 where
  pub pages : List Page
  pub heap_tuples : ℕ
  pub index_tuples : ℕ

-- `none` would be an `encode_fitting` that has run out of fuel.
pub written : Option (Result (List Page)) → Attempt (List Page)
written none = unknown
written (some r) = or_raise r

-- What the caller of `ambuild` knows: whether the index is partial, its attributes, and the scan's
-- tuples with the count that it returns.
pub record BuildInput : Type 0 where
  pub is_partial : Bool
  pub attributes : List IndexColumn
  pub tuples : Option (List Tuple)
  pub heap_tuples : ℕ

module _ (server_of : Gucs → Server) (session : Session) (api : PageApi) where
  unfoldable pub am_build : BuildInput → List Page → Attempt IndexBuild
  unfolding build_leaf_summary write_summary written
  am_build input pages = if input.is_partial then raised partial_index else do
    summary ← build_leaf_summary server_of session input.attributes input.tuples
    pages' ← written (write_summary api pages summary)
    known (record { pages = pages'; heap_tuples = input.heap_tuples; index_tuples = 0 })
