-- ===== src/Build/Finish.antt =====
-- From the accumulators to the summary (src/summary_build.rs: `finish`, `build_leaf_summary`).
pub mod Ends
pub mod Rendered
pub mod Covers
use pg_table_range.Base.{
  ℕ, Bool, true, false, ◌&&◌, ◌||◌, Option, none, some, List, ◌∷◌, ltb, ◌==◌, if◌then◌else◌,
  optional, Attempt, known, raised, parallel_mode, no_build_scan, [], ◌>>=◌,
}
use pg_table_range.Bytes.{Bytes}
use pg_table_range.Summary.{ColSummary, IndexSummary, make_unbounded}
use pg_table_range.Server.{Server, datum_to_text}
use pg_table_range.StableIo.{Gucs, Session, with_stable_io}
use pg_table_range.Build.{
  Accumulator, min_max, range, geometry, unsupported, ColumnBuild, IndexColumn, Tuple, plan_columns,
  flush_geometry, index_build_range_scan,
}

-- `overlap`, `min`, `max` and `unbounded` of a column.
pub record Bounds : Type 0 where
  pub overlap : Bool
  pub min : Option Bytes
  pub max : Option Bytes
  pub unbounded : Bool

abbrev pub is_none : {A : Type 0} → Option A → Bool
is_none none = true
is_none (some a) = false

-- A bound that could not be rendered is lost.
unfoldable pub lost_bound : Accumulator → Bounds → Bool
lost_bound (min_max cmp min max) b = is_none b.min || is_none b.max
lost_bound (range merge extent) b = is_none b.min
lost_bound (geometry batch extent) b = false
lost_bound unsupported b = false

unfoldable pub summary_of : ColumnBuild → Bounds → ColSummary
summary_of col b = record {
  attnum = col.attnum;
  overlap = b.overlap;
  type_name = col.type_name;
  collation = col.collation;
  min = b.min;
  max = b.max;
  has_nulls = ltb 0 col.nulls;
  all_nulls = (col.nonnull == 0) && ltb 0 col.nulls;
  unbounded = b.unbounded;
}

module _ (sv : Server) where
  unfoldable pub render : ℕ → Option ℕ → Attempt (Option Bytes)
  render typ none = known none
  render typ (some d) = optional (datum_to_text sv typ d)

  unfoldable pub flushed : ColumnBuild → Accumulator → Attempt Accumulator
  unfolding flush_geometry
  flushed col (min_max cmp min max) = known (min_max cmp min max)
  flushed col (range merge extent) = known (range merge extent)
  flushed col (geometry batch extent) = flush_geometry sv col.type_name col.typ batch extent
  flushed col unsupported = known unsupported

  unfoldable pub bounds_of : ℕ → Accumulator → Attempt Bounds
  unfolding render
  bounds_of typ (min_max cmp min max) = do
    mn ← render typ min
    mx ← render typ max
    known (record { overlap = false; min = mn; max = mx; unbounded = false })
  bounds_of typ (range merge extent) = do
    mn ← render typ extent
    known (record { overlap = true; min = mn; max = none; unbounded = false })
  bounds_of typ (geometry batch extent) =
      known (record { overlap = true; min = extent; max = none; unbounded = false })
  bounds_of typ unsupported =
      known (record { overlap = false; min = none; max = none; unbounded = true })

  -- The body of the loop of `finish`.
  unfoldable pub finish_column : ColumnBuild → Attempt ColSummary
  unfolding flushed bounds_of lost_bound summary_of make_unbounded
  finish_column col = do
    acc ← flushed col col.acc
    b ← bounds_of col.typ acc
    known (
        if b.unbounded || (ltb 0 col.nonnull && lost_bound acc b)
        then make_unbounded (summary_of col b)
        else summary_of col b)

  unfoldable pub finish_columns : List ColumnBuild → Attempt (List ColSummary)
  unfolding finish_column
  finish_columns [] = known []
  finish_columns (c ∷ cs) = do c' ← finish_column c; cs' ← finish_columns cs; known (c' ∷ cs')

  unfoldable pub finish : List ColumnBuild → Attempt IndexSummary
  unfolding finish_columns
  finish cols = do cs ← finish_columns cols; known (record { cols = cs })

-- `unwrap_or_else(|| error!(…))`
abbrev pub or_parallel : Option (Attempt IndexSummary) → Attempt IndexSummary
or_parallel none = raised parallel_mode
or_parallel (some r) = r

-- The scan runs under the session's settings, the rendering of bounds under pinned ones. `none` is a
-- table access method that has no build scan.
unfoldable pub build_leaf_summary :
    (Gucs → Server) → Session → List IndexColumn → Option (List Tuple) → Attempt IndexSummary
unfolding plan_columns index_build_range_scan finish with_stable_io
build_leaf_summary server_of session attributes none = do
  cols ← plan_columns (server_of session.gucs) 0 attributes
  raised no_build_scan
build_leaf_summary server_of session attributes (some tuples) = do
  cols ← plan_columns (server_of session.gucs) 0 attributes
  cols' ← index_build_range_scan (server_of session.gucs) tuples cols
  or_parallel (with_stable_io (λ g. finish (server_of g) cols') session).0
