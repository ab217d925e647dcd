-- ===== src/Build.antt =====
-- The index build (src/summary_build.rs, and `am_build` of src/index_am.rs). A Datum stands for its
-- value here, so a copy of one is the same number; Memory has the copies and their freeing.
-- The heap scan calls the callback on each tuple; the tuples, in order, are a parameter.
pub mod Ends
pub mod Each
pub mod Bounded
pub mod Tight
pub mod Holds
pub mod Batch
pub mod Scan
pub mod Finish
pub mod Memory
pub mod Index
pub mod Tests
use pg_table_range.Base.{
  ℕ, suc, ◌+◌, Bool, false, ◌||◌, Option, none, some, List, ◌∷◌, ◌++◌, length, leb, ◌==◌,
  if◌then◌else◌, bytes_eq, or_raise, Ordering, Attempt, known, unknown, raised, nul_in_sql,
  spi_failed, unreadable_extent, [], ◌>>=◌,
}
use pg_table_range.Bytes.{Bytes, has_nul}
use pg_table_range.Server.{
  Server, invalid_oid, ascii, i32_sign, is_lt, is_gt, btree_cmp_proc, text_to_datum, first_value,
}
use pg_table_range.Server.Geometry.{batch_sql}
use pg_table_range.Server.Types.{type_name_parts, qualified_type_name}

abbrev pub geometry_batch : ℕ
geometry_batch = 1000

-- A function is known by its call record, `FmgrInfo`.
pub data Accumulator : Type 0 where
  min_max : (cmp : ℕ) (min max : Option ℕ) → Accumulator
  range : (merge : ℕ) (extent : Option ℕ) → Accumulator
  geometry : (batch : List ℕ) (extent : Option Bytes) → Accumulator
  unsupported : Accumulator

-- `ColumnBuild`; the two counts are far below the bound of an `i64`.
pub record ColumnBuild : Type 0 where
  pub index_pos : ℕ
  pub attnum : ℕ
  pub typ : ℕ
  pub type_name : Bytes
  pub collation : ℕ
  pub nonnull : ℕ
  pub nulls : ℕ
  pub acc : Accumulator

-- An attribute of the index: `ii_IndexAttrNumbers[i]`, its type and `rd_indcollation[i]`.
pub record IndexColumn : Type 0 where
  pub heap_attnum : ℕ
  pub typoid : ℕ
  pub collation : ℕ

-- `attnum <= 0`, of the bit pattern of an `i16`: an expression or a system column.
abbrev pub is_expression : ℕ → Bool
is_expression attnum = attnum == 0 || leb 32768 attnum

-- `is_some_and(|(_, name)| name == "geometry")`
abbrev pub is_geometry : Option (Bytes × Bytes) → Bool
is_geometry none = false
is_geometry (some (nsp, name)) = bytes_eq name (ascii "geometry")

-- The values of one tuple by index position; `none` is NULL.
abbrev pub Tuple : Type 0
Tuple = ℕ → Option ℕ

module _ (sv : Server) where
  unfoldable pub min_max_of : Option ℕ → Attempt Accumulator
  min_max_of none = known unsupported
  min_max_of (some proc) = do cmp ← or_raise (sv.fmgr_info proc); known (min_max cmp none none)

  -- The length -2, whose bit pattern is 65534, is that of a C string.
  unfoldable pub new_accumulator : ℕ → Attempt Accumulator
  unfolding min_max_of
  new_accumulator typ =
      let base = sv.get_base_type typ in
      if sv.get_typlen typ == 65534
      then known unsupported
      else if sv.get_typtype base == b'r'
      then (do merge ← or_raise (sv.fmgr_info sv.range_merge); known (range merge none))
      else if is_geometry (type_name_parts sv base)
      then known (geometry [] none)
      else min_max_of (btree_cmp_proc sv base)

  pub plan_column : ℕ → IndexColumn → Attempt ColumnBuild
  unfolding new_accumulator
  plan_column index_pos a = do
    acc ← new_accumulator a.typoid
    type_name ← qualified_type_name sv a.typoid
    known (record {
      index_pos = index_pos;
      attnum = a.heap_attnum;
      typ = a.typoid;
      type_name = type_name;
      collation = a.collation;
      nonnull = 0;
      nulls = 0;
      acc = acc;
    })

  unfoldable pub plan_columns : ℕ → List IndexColumn → Attempt (List ColumnBuild)
  unfolding plan_column
  plan_columns index_pos [] = known []
  plan_columns index_pos (a ∷ as') =
      let rest = plan_columns (suc index_pos) as' in
      if is_expression a.heap_attnum
      then rest
      else (do c ← plan_column index_pos a; cs ← rest; known (c ∷ cs))

  pub call_cmp : ℕ → ℕ → ℕ → ℕ → Attempt Ordering
  unfolding i32_sign
  call_cmp cmp collation a b = do
    d ← or_raise (sv.function_call2 cmp collation a b)
    known (i32_sign d)

  pub add_min_max : ℕ → ℕ → ℕ → Option ℕ → Option ℕ → Attempt Accumulator
  unfolding call_cmp
  add_min_max cmp collation value (some lo) (some hi) = do
    below ← call_cmp cmp collation value lo
    above ← call_cmp cmp collation value hi
    known (
        min_max cmp (if is_lt below then some value else some lo)
          (if is_gt above then some value else some hi))
  add_min_max cmp collation value none hi = known (min_max cmp (some value) (some value))
  add_min_max cmp collation value (some lo) none = known (min_max cmp (some value) (some value))

  -- Whether `range_merge` hands back one of its inputs decides only which copy is kept.
  pub add_range : ℕ → ℕ → Option ℕ → Attempt Accumulator
  add_range merge value none = known (range merge (some value))
  add_range merge value (some old) = do
    merged ← or_raise (sv.function_call2 merge invalid_oid old value)
    known (range merge (some merged))

  -- The extent so far joins the batch.
  pub with_extent : ℕ → List ℕ → Option Bytes → Attempt (List ℕ)
  with_extent typ batch none = known batch
  with_extent typ batch (some text) = elim (text_to_datum sv typ text) [
    | known d ↦ known (batch ++ d ∷ [])
    | unknown ↦ raised unreadable_extent
    | raised e ↦ raised e
  ]

  -- The query, with the array of the batch as its argument.
  pub extent_of_batch : Bytes → ℕ → List ℕ → Attempt (Option Bytes)
  unfolding first_value
  extent_of_batch type_name typ batch =
      let sql = batch_sql type_name in
      if has_nul sql then raised nul_in_sql else do
        r ← or_raise (sv.spi_execute_with_array sql (sv.get_array_type typ) typ batch)
        if r.rc == sv.spi_ok_select then known (first_value r) else raised spi_failed

  pub flush_batch : Bytes → ℕ → Option Bytes → List ℕ → Attempt Accumulator
  unfolding extent_of_batch
  flush_batch type_name typ extent [] = known (geometry [] extent)
  flush_batch type_name typ extent (d ∷ ds) = do
    result ← extent_of_batch type_name typ (d ∷ ds)
    known (geometry [] result)

  unfoldable pub flush_geometry : Bytes → ℕ → List ℕ → Option Bytes → Attempt Accumulator
  unfolding with_extent flush_batch
  flush_geometry type_name typ batch extent = do
    batch' ← with_extent (sv.get_base_type typ) batch extent
    flush_batch type_name (sv.get_base_type typ) extent batch'

  pub add_geometry : Bytes → ℕ → ℕ → List ℕ → Option Bytes → Attempt Accumulator
  unfolding flush_geometry
  add_geometry type_name typ value batch extent =
      let batch' = batch ++ value ∷ [] in
      if leb geometry_batch (length batch')
      then flush_geometry type_name typ batch' extent
      else known (geometry batch' extent)

  pub add_value : Bytes → ℕ → ℕ → ℕ → Accumulator → Attempt Accumulator
  unfolding add_min_max add_range add_geometry
  add_value type_name typ collation value (min_max cmp min max) =
      add_min_max cmp collation value min max
  add_value type_name typ collation value (range merge extent) = add_range merge value extent
  add_value type_name typ collation value (geometry batch extent) =
      add_geometry type_name typ value batch extent
  add_value type_name typ collation value unsupported = known unsupported

  -- One turn of the callback's loop.
  pub fold_value : ColumnBuild → Option ℕ → Attempt ColumnBuild
  unfolding add_value
  fold_value col none = known (record col { nulls = col.nulls + 1 })
  fold_value col (some value) = do
    acc ← add_value col.type_name col.typ col.collation value col.acc
    known (record col { nonnull = col.nonnull + 1; acc = acc })

  unfoldable pub build_callback : Tuple → List ColumnBuild → Attempt (List ColumnBuild)
  unfolding fold_value
  build_callback tuple [] = known []
  build_callback tuple (c ∷ cs) = do
    c' ← fold_value c (tuple c.index_pos)
    cs' ← build_callback tuple cs
    known (c' ∷ cs')

  -- The scan that the table's access method makes.
  unfoldable pub index_build_range_scan : List Tuple → List ColumnBuild → Attempt (List ColumnBuild)
  unfolding build_callback
  index_build_range_scan [] cols = known cols
  index_build_range_scan (t ∷ ts) cols = do
    cols' ← build_callback t cols
    index_build_range_scan ts cols'
