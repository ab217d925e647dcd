-- ===== src/Build/Tight.antt =====
-- The bounds that the scan finds are values of the column (src/summary_build.rs, `ColumnBuild::add`):
-- with what Build.Scan shows, they are the least and the greatest.
use pg_table_range.Base.{
  ◌≡◌, refl, if◌then◌else◌, Bool, true, false, ◌⊎◌, inl, inr, All-map, ℕ, Option, none, some, List,
  [], ◌∷◌, ◌++◌, ◌>>=◌, length, leb, All, Ensures, Ensures-known, Ensures-bind, Ensures-if,
  or_raise,
}
use pg_table_range.Bytes.{Bytes}
use pg_table_range.Server.{Server, invalid_oid}
use pg_table_range.Server.Types.{qualified_type_name}
use pg_table_range.Build.{
  plan_column, plan_columns, new_accumulator, call_cmp, with_extent, extent_of_batch, Accumulator,
  geometry, min_max, range, unsupported, geometry_batch, ColumnBuild, IndexColumn, Tuple,
  flush_batch, flush_geometry, add_min_max, add_range, add_geometry, add_value, fold_value,
  index_build_range_scan,
}
use pg_table_range.Build.Each.{Starts, new_accumulator-Starts, plan_columns-All, scan-All}

-- A tuple has the value at the position.
abbrev pub IsSeen : ℕ → List Tuple → ℕ → Type 0
IsSeen pos [] v = ⊥
IsSeen pos (t ∷ ts) v = (t pos ≡ some v) ⊎ IsSeen pos ts v

abbrev pub Attained : (ℕ → Type 0) → Option ℕ → Type 0
Attained P none = Unit
Attained P (some v) = P v

abbrev pub Attains : (ℕ → Type 0) → Accumulator → Type 0
Attains P (min_max cmp mn mx) = Attained P mn × Attained P mx
Attains P (range merge e) = Unit
Attains P (geometry batch e) = Unit
Attains P unsupported = Unit

picked :
    (P : ℕ → Type 0) (b : Bool) (v w : ℕ) → P v → P w → Attained P (if b then some v else some w)
picked P true v w h k = h
picked P false v w h k = k

module _ (sv : Server) where
  flush_batch-Attains :
      (P : ℕ → Type 0) (name : Bytes) (typ : ℕ) (e : Option Bytes) (ds : List ℕ)
      → Ensures (Attains P) (flush_batch sv name typ e ds)
  unfolding flush_batch
  flush_batch-Attains P name typ e [] = Ensures-known (Attains P) (geometry [] e) tt
  flush_batch-Attains P name typ e (d ∷ ds) =
      Ensures-bind (extent_of_batch sv name typ (d ∷ ds)) _
        λ r sent. Ensures-known (Attains P) (geometry [] r) tt

  add_value-Attains :
      (P : ℕ → Type 0) (name : Bytes) (typ collation value : ℕ) (acc : Accumulator)
      → P value
      → Attains P acc
      → Ensures (Attains P) (add_value sv name typ collation value acc)
  unfolding add_value add_min_max add_range add_geometry flush_geometry
  add_value-Attains P name typ collation value (min_max cmp none hi) p h =
      Ensures-known (Attains P) (min_max cmp (some value) (some value)) (p, p)
  add_value-Attains P name typ collation value (min_max cmp (some lo) none) p h =
      Ensures-known (Attains P) (min_max cmp (some value) (some value)) (p, p)
  add_value-Attains P name typ collation value (min_max cmp (some lo) (some hi)) p h =
      Ensures-bind (call_cmp sv cmp collation value lo) _ λ below l.
        Ensures-bind (call_cmp sv cmp collation value hi) _ λ above m.
          Ensures-known (Attains P) (min_max cmp _ _)
            (picked P _ value lo p h.0, picked P _ value hi p h.1)
  add_value-Attains P name typ collation value (range merge none) p h =
      Ensures-known (Attains P) (range merge (some value)) tt
  add_value-Attains P name typ collation value (range merge (some old)) p h =
      Ensures-bind (or_raise (sv.function_call2 merge invalid_oid old value)) _
        λ merged go. Ensures-known (Attains P) (range merge (some merged)) tt
  add_value-Attains P name typ collation value (geometry batch e) p h =
      Ensures-if (leb geometry_batch (length (batch ++ value ∷ []))) _ _
        (λ full.
          Ensures-bind (with_extent sv (sv.get_base_type typ) (batch ++ value ∷ []) e) _
            λ ds joined. flush_batch-Attains P name (sv.get_base_type typ) e ds)
        (λ room. Ensures-known (Attains P) (geometry (batch ++ value ∷ []) e) tt)
  add_value-Attains P name typ collation value unsupported p h =
      Ensures-known (Attains P) unsupported tt

  -- Every bound of a column of comparable type is its value in one of the tuples.
  abbrev pub IsTight : List Tuple → ColumnBuild → Type 0
  IsTight ts c = Attains (IsSeen c.index_pos ts) c.acc

  fold_value-IsTight :
      (ts : List Tuple) (c : ColumnBuild) (u : Option ℕ)
      → ((v : ℕ) → u ≡ some v → IsSeen c.index_pos ts v)
      → IsTight ts c
      → Ensures (IsTight ts) (fold_value sv c u)
  unfolding fold_value
  fold_value-IsTight ts c none s h = Ensures-known (IsTight ts) _ h
  fold_value-IsTight ts c (some v) s h =
      Ensures-bind (add_value sv c.type_name c.typ c.collation v c.acc) _ λ acc added.
        Ensures-known (IsTight ts) _ (
          (add_value-Attains (IsSeen c.index_pos ts) c.type_name c.typ c.collation v c.acc
              (s v refl) h).at
            acc added)

  -- The tuple is one of those.
  abbrev IsAmong : List Tuple → Tuple → Type 0
  IsAmong ts t = (pos v : ℕ) → t pos ≡ some v → IsSeen pos ts v

  IsAmong-All : (ts : List Tuple) → All (IsAmong ts) ts
  IsAmong-All [] = tt
  IsAmong-All (t ∷ ts) =
      (λ pos v e. inl e, All-map (λ u h pos v e. inr (h pos v e)) ts (IsAmong-All ts))

  plan_column-IsTight :
      (ts : List Tuple) (pos : ℕ) (a : IndexColumn) → Ensures (IsTight ts) (plan_column sv pos a)
  unfolding plan_column
  plan_column-IsTight ts pos a = Ensures-bind (new_accumulator sv a.typoid) _ λ acc new.
      Ensures-bind (qualified_type_name sv a.typoid) _ λ name named.
        Ensures-known (IsTight ts) _
          ((new_accumulator-Starts sv (Attains (IsSeen pos ts)) starts a.typoid).at acc new)
    where
      starts : Starts sv (Attains (IsSeen pos ts))
      starts = record {
        compared = λ cmp. (tt, tt);
        ranged = λ merge. tt;
        measured = tt;
        unknown_kind = tt;
      }

  -- After the scan of any tuples, each bound of a column of comparable type is the column's value in
  -- one of them: no bound is wider than the data.
  pub index_build_range_scan-IsTight :
      (attributes : List IndexColumn) (ts : List Tuple)
      → Ensures
          (All (IsTight ts))
          (plan_columns sv 0 attributes >>= λ cs. index_build_range_scan sv ts cs)
  index_build_range_scan-IsTight attributes ts =
      Ensures-bind (plan_columns sv 0 attributes) _ λ cs planned.
        scan-All sv (IsTight ts) ts cs
          (All-map (λ t among c h. fold_value-IsTight ts c (t c.index_pos) (among c.index_pos) h) ts
            (IsAmong-All ts))
          ((plan_columns-All sv (IsTight ts) (plan_column-IsTight ts) 0 attributes).at cs planned)
