-- ===== src/Widen.antt =====
-- Widening a summary by an inserted row (src/index_am.rs: `widen_summary` to
-- `geometry_extent_with`). A function that takes `&mut ColSummary` returns the new column.
pub mod Covers
pub mod MinMax
pub mod Extent
pub mod Column
pub mod Row
pub mod Decides
mod Tests
use pg_table_range.Base.{
  ℕ, Bool, true, false, ◌||◌, not, Option, none, some, List, [], ◌∷◌, ◌==◌, if◌then◌else◌, bytes_eq,
  or_raise, try_option, Attempt, known, unknown, raised, ◌>>=◌,
}
use pg_table_range.Bytes.{Bytes}
use pg_table_range.Summary.{ColSummary, IndexSummary, make_unbounded}
use pg_table_range.Server.{
  Server, invalid_oid, is_lt, is_gt, oid_function_call2, datum_cmp, btree_cmp_proc, text_to_datum,
  datum_to_text, spi_value,
}
use pg_table_range.Server.Geometry.{ends_with, dot_geometry, extent_sql}

-- Whether the column changed, and the column.
abbrev pub Widened : Type 0
Widened = Bool × ColSummary

-- The `match (&col.min, &col.max)` of `widen_minmax`.
pub widen_bounds :
    Server → ColSummary → ℕ → ℕ → ℕ → Bytes → Option Bytes → Option Bytes → Attempt Widened
widen_bounds sv col base collation value new_text (some min) (some max) = do
  cmp ← try_option (btree_cmp_proc sv base)
  min_d ← text_to_datum sv base min
  max_d ← text_to_datum sv base max
  below ← datum_cmp sv cmp collation value min_d
  above ← datum_cmp sv cmp collation value max_d
  known (
    is_lt below || is_gt above,
    record col {
      min = if is_lt below then some new_text else some min;
      max = if is_gt above then some new_text else some max;
    },
  )
widen_bounds sv col base collation value new_text none none =
    known (true, record col { min = some new_text; max = some new_text })
widen_bounds sv col base collation value new_text none (some max) = unknown
widen_bounds sv col base collation value new_text (some min) none = unknown

pub widen_minmax : Server → ColSummary → ℕ → ℕ → ℕ → Attempt Widened
widen_minmax sv col typoid collation value = do
  new_text ← datum_to_text sv typoid value
  widen_bounds sv col (sv.get_base_type typoid) collation value new_text col.min col.max

-- `SPI_connect`, the query, `SPI_finish`; the result is an extent, or NULL.
pub geometry_extent_with : Server → ColSummary → ℕ → ℕ → Attempt (Option Bytes)
geometry_extent_with sv col typoid value = do
  new_text ← datum_to_text sv typoid value
  spi_value sv (extent_sql col.type_name new_text col.min)

pub merged_range : Server → ℕ → Option Bytes → ℕ → Attempt ℕ
merged_range sv base none value = known value
merged_range sv base (some ext) value = do
  ext_d ← text_to_datum sv base ext
  oid_function_call2 sv sv.range_merge invalid_oid ext_d value

pub range_extent_with : Server → ColSummary → ℕ → ℕ → Attempt (Option Bytes)
unfolding merged_range
range_extent_with sv col typoid value = do
  merged ← merged_range sv (sv.get_base_type typoid) col.min value
  w ← datum_to_text sv typoid merged
  known (some w)

-- `col.min.as_ref() != Some(&w)`
abbrev pub differs : Option Bytes → Bytes → Bool
differs none w = true
differs (some min) w = not (bytes_eq min w)

pub store_extent : ColSummary → Option Bytes → Widened
store_extent col none = (false, col)
store_extent col (some w) =
    if differs col.min w then (true, record col { min = some w }) else (false, col)

pub widen_overlap : Server → ColSummary → ℕ → ℕ → Attempt Widened
unfolding geometry_extent_with range_extent_with store_extent
widen_overlap sv col typoid value = do
  widened ←
      (if ends_with col.type_name dot_geometry
        then geometry_extent_with sv col typoid value
        else range_extent_with sv col typoid value)
  known (store_extent col widened)

-- The `match widened`: an unknown result drops the bounds.
pub or_unbounded : ColSummary → Bool → Attempt Widened → Attempt Widened
or_unbounded col changed (known (c, col')) = known (changed || c, col')
or_unbounded col changed unknown = known (true, make_unbounded col)
or_unbounded col changed (raised e) = raised e

pub widen_value : Server → ColSummary → ℕ → ℕ → ℕ → Attempt Widened
unfolding widen_minmax widen_overlap or_unbounded widen_bounds
widen_value sv col typoid collation value =
    let changed = col.all_nulls in
    let col1 = record col { all_nulls = false } in
    if col.unbounded
    then known (changed, col1)
    else if col.overlap
    then or_unbounded col1 changed (widen_overlap sv col1 typoid value)
    else or_unbounded col1 changed (widen_minmax sv col1 typoid collation value)

-- `values[i]` and `isnull[i]` are one optional Datum.
unfoldable pub widen_column : Server → ColSummary → ℕ → ℕ → Option ℕ → Attempt Widened
unfolding widen_value
widen_column sv col typoid collation none =
    if col.has_nulls then known (false, col) else known (true, record col { has_nulls = true })
widen_column sv col typoid collation (some value) = widen_value sv col typoid collation value

-- One attribute of the index with the row's value for it: `ii_IndexAttrNumbers[i]`, the type from
-- the tuple descriptor, and `rd_indcollation[i]`, the invalid Oid where that array is missing.
pub record Attribute : Type 0 where
  pub heap_attnum : ℕ
  pub typoid : ℕ
  pub collation : ℕ
  pub value : Option ℕ

-- `summary.cols.iter_mut().find(|c| c.attnum == heap_attnum)`, and the widening of that column.
pub widen_attribute : Server → Attribute → List ColSummary → Attempt (Bool × List ColSummary)
unfolding widen_column
widen_attribute sv a [] = known (false, [])
widen_attribute sv a (c ∷ cs) =
    let rest = widen_attribute sv a cs in
    if c.attnum == a.heap_attnum
    then (do
      (changed, c') ← widen_column sv c a.typoid a.collation a.value
      known (changed, c' ∷ cs))
    else (do (changed, cs') ← rest; known (changed, c ∷ cs'))

pub widen_cols : Server → List Attribute → List ColSummary → Attempt (Bool × List ColSummary)
unfolding widen_attribute
widen_cols sv [] cols = known (false, cols)
widen_cols sv (a ∷ as') cols = do
  (c1, cols1) ← widen_attribute sv a cols
  (c2, cols2) ← widen_cols sv as' cols1
  known (c1 || c2, cols2)

unfoldable pub widen_summary :
    Server → IndexSummary → List Attribute → Attempt (Bool × IndexSummary)
unfolding widen_cols
widen_summary sv s attributes = do
  (changed, cols) ← widen_cols sv attributes s.cols
  known (changed, record { cols = cols })
