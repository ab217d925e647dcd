-- ===== src/Build/Bounded.antt =====
-- The memory of a geometry column (src/summary_build.rs, `GEOMETRY_BATCH`).
use pg_table_range.Base.{
  ℕ, ◌<◌, Option, none, some, List, [], ◌∷◌, ◌++◌, ◌>>=◌, length, leb, All, Ensures, Ensures-known,
  Ensures-bind, Ensures-if, or_raise, arith,
}
use pg_table_range.Bytes.{Bytes}
use pg_table_range.Server.{Server, invalid_oid}
use pg_table_range.Server.Types.{qualified_type_name}
use pg_table_range.Build.{
  plan_column, plan_columns, new_accumulator, call_cmp, with_extent, extent_of_batch, Accumulator,
  geometry, min_max, range, unsupported, geometry_batch, ColumnBuild, IndexColumn, Tuple,
  flush_batch, flush_geometry, add_min_max, add_range, add_geometry, add_value, fold_value,
  index_build_range_scan,
}
use pg_table_range.Build.Each.{Starts, new_accumulator-Starts, plan_columns-All, IsKeptBy, scan-All}

abbrev pub IsBounded : Accumulator → Type 0
IsBounded (min_max cmp mn mx) = Unit
IsBounded (range merge e) = Unit
IsBounded (geometry batch e) = length batch < geometry_batch
IsBounded unsupported = Unit

module _ (sv : Server) where
  abbrev pub AllBounded : List ColumnBuild → Type 0
  AllBounded = All (λ c. IsBounded c.acc)

  flush_batch-IsBounded :
      (name : Bytes) (typ : ℕ) (e : Option Bytes) (ds : List ℕ)
      → Ensures IsBounded (flush_batch sv name typ e ds)
  unfolding flush_batch
  flush_batch-IsBounded name typ e [] = Ensures-known IsBounded (geometry [] e) (omega arith)
  flush_batch-IsBounded name typ e (d ∷ ds) =
      Ensures-bind (extent_of_batch sv name typ (d ∷ ds)) _
        λ r sent. Ensures-known IsBounded (geometry [] r) (omega arith)

  add_value-IsBounded :
      (name : Bytes) (typ collation value : ℕ) (acc : Accumulator)
      → IsBounded acc
      → Ensures IsBounded (add_value sv name typ collation value acc)
  unfolding add_value add_min_max add_range add_geometry flush_geometry
  add_value-IsBounded name typ collation value (min_max cmp none hi) h =
      Ensures-known IsBounded (min_max cmp (some value) (some value)) tt
  add_value-IsBounded name typ collation value (min_max cmp (some lo) none) h =
      Ensures-known IsBounded (min_max cmp (some value) (some value)) tt
  add_value-IsBounded name typ collation value (min_max cmp (some lo) (some hi)) h =
      Ensures-bind (call_cmp sv cmp collation value lo) _ λ below l.
        Ensures-bind (call_cmp sv cmp collation value hi) _
          λ above m. Ensures-known IsBounded (min_max cmp _ _) tt
  add_value-IsBounded name typ collation value (range merge none) h =
      Ensures-known IsBounded (range merge (some value)) tt
  add_value-IsBounded name typ collation value (range merge (some old)) h =
      Ensures-bind (or_raise (sv.function_call2 merge invalid_oid old value)) _
        λ merged run. Ensures-known IsBounded (range merge (some merged)) tt
  add_value-IsBounded name typ collation value (geometry batch e) h =
      Ensures-if (leb geometry_batch (length (batch ++ value ∷ []))) _ _
        (λ full.
          Ensures-bind (with_extent sv (sv.get_base_type typ) (batch ++ value ∷ []) e) _
            λ ds joined. flush_batch-IsBounded name (sv.get_base_type typ) e ds)
        (λ room. Ensures-known IsBounded (geometry (batch ++ value ∷ []) e) (ground arith))
  add_value-IsBounded name typ collation value unsupported h =
      Ensures-known IsBounded unsupported tt

  fold_value-IsBounded :
      (c : ColumnBuild) (u : Option ℕ)
      → IsBounded c.acc
      → Ensures (λ (d : ColumnBuild). IsBounded d.acc) (fold_value sv c u)
  unfolding fold_value
  fold_value-IsBounded c none h = Ensures-known (λ (d : ColumnBuild). IsBounded d.acc) _ h
  fold_value-IsBounded c (some v) h =
      Ensures-bind (add_value sv c.type_name c.typ c.collation v c.acc) _ λ acc added.
        Ensures-known (λ (d : ColumnBuild). IsBounded d.acc) _
          ((add_value-IsBounded c.type_name c.typ c.collation v c.acc h).at acc added)

  abbrev HasBounded : ColumnBuild → Type 0
  HasBounded c = IsBounded c.acc

  plan_column-IsBounded : (pos : ℕ) (a : IndexColumn) → Ensures HasBounded (plan_column sv pos a)
  unfolding plan_column
  plan_column-IsBounded pos a = Ensures-bind (new_accumulator sv a.typoid) _ λ acc new.
      Ensures-bind (qualified_type_name sv a.typoid) _ λ name named.
        Ensures-known HasBounded _
          ((new_accumulator-Starts sv IsBounded starts a.typoid).at acc new)
    where
      starts : Starts sv IsBounded
      starts = record {
        compared = λ cmp. tt;
        ranged = λ merge. tt;
        measured = omega arith;
        unknown_kind = tt;
      }

  every_tuple : (ts : List Tuple) → All (IsKeptBy sv HasBounded) ts
  every_tuple [] = tt
  every_tuple (t ∷ ts) = (λ c h. fold_value-IsBounded c (t c.index_pos) h, every_tuple ts)

  -- Whatever the index, the tuples scanned so far and the server, fewer geometries than a batch wait in
  -- a column for the next flush.
  pub index_build_range_scan-IsBounded :
      (attributes : List IndexColumn) (ts : List Tuple)
      → Ensures AllBounded (plan_columns sv 0 attributes >>= λ cs. index_build_range_scan sv ts cs)
  index_build_range_scan-IsBounded attributes ts =
      Ensures-bind (plan_columns sv 0 attributes) _ λ cs planned.
        scan-All sv HasBounded ts cs (every_tuple ts)
          ((plan_columns-All sv HasBounded plan_column-IsBounded 0 attributes).at cs planned)
