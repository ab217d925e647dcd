-- ===== src/Build/Each.antt =====
-- A property of a column, or of an accumulator, that every step of the build keeps
-- (src/summary_build.rs: `plan_columns`, `build_callback`).
use pg_table_range.Base.{
  suc, ℕ, Option, none, some, List, [], ◌∷◌, ◌==◌, suc, All, Ensures, Ensures-known, Ensures-bind,
  Ensures-if, or_raise,
}
use pg_table_range.Server.{Server, btree_cmp_proc}
use pg_table_range.Server.Types.{type_name_parts}
use pg_table_range.Build.{
  plan_column, plan_columns, new_accumulator, min_max_of, is_geometry, is_expression, Accumulator,
  geometry, min_max, range, unsupported, ColumnBuild, IndexColumn, Tuple, fold_value,
  build_callback, index_build_range_scan,
}

module _ (sv : Server) (P : Accumulator → Type 0) where
  -- The four accumulators that a column can start with.
  pub record Starts : Type 0 where
    pub compared : (cmp : ℕ) → P (min_max cmp none none)
    pub ranged : (merge : ℕ) → P (range merge none)
    pub measured : P (geometry [] none)
    pub unknown_kind : P unsupported

  pub new_accumulator-Starts : Starts → (typ : ℕ) → Ensures P (new_accumulator sv typ)
  unfolding new_accumulator min_max_of
  new_accumulator-Starts s typ =
      let base = sv.get_base_type typ in
      Ensures-if (sv.get_typlen typ == 65534) _ _ (λ e. Ensures-known P unsupported s.unknown_kind)
        λ e.
          Ensures-if (sv.get_typtype base == 114) _ _
            (λ q.
              Ensures-bind (or_raise (sv.fmgr_info sv.range_merge)) _
                λ merge info. Ensures-known P (range merge none) (s.ranged merge))
            λ q.
              Ensures-if (is_geometry (type_name_parts sv base)) _ _
                (λ g. Ensures-known P (geometry [] none) s.measured)
                (λ g. by_proc (btree_cmp_proc sv base))
    where
      by_proc : (p : Option ℕ) → Ensures P (min_max_of sv p)
      by_proc none = Ensures-known P unsupported s.unknown_kind
      by_proc (some p) =
          Ensures-bind (or_raise (sv.fmgr_info p)) _
            λ cmp info. Ensures-known P (min_max cmp none none) (s.compared cmp)

module _ (sv : Server) (P : ColumnBuild → Type 0) where
  pub plan_columns-All :
      ((pos : ℕ) (a : IndexColumn) → Ensures P (plan_column sv pos a))
      → (pos : ℕ) (cs : List IndexColumn) → Ensures (All P) (plan_columns sv pos cs)
  unfolding plan_columns
  plan_columns-All h pos [] = Ensures-known (All P) [] tt
  plan_columns-All h pos (a ∷ as') =
      let rest = plan_columns-All h (suc pos) as' in
      Ensures-if (is_expression a.heap_attnum) _ _ (λ e. rest)
        λ e. Ensures-bind (plan_column sv pos a) _ λ c made.
          Ensures-bind (plan_columns sv (suc pos) as') _
            λ cs rests. Ensures-known (All P) (c ∷ cs) ((h pos a).at c made, rest.at cs rests)

  -- Folding in the tuple's value keeps the property of every column.
  abbrev pub IsKeptBy : Tuple → Type 0
  IsKeptBy t = (c : ColumnBuild) → P c → Ensures P (fold_value sv c (t c.index_pos))

  build_callback-All :
      (t : Tuple) (cs : List ColumnBuild)
      → IsKeptBy t
      → All P cs
      → Ensures (All P) (build_callback sv t cs)
  unfolding build_callback
  build_callback-All t [] k h = Ensures-known (All P) [] tt
  build_callback-All t (c ∷ cs) k h = Ensures-bind (fold_value sv c (t c.index_pos)) _ λ d folded.
      Ensures-bind (build_callback sv t cs) _ λ ds rest.
        Ensures-known (All P) (d ∷ ds)
          ((k c h.0).at d folded, (build_callback-All t cs k h.1).at ds rest)

  pub scan-All :
      (ts : List Tuple) (cs : List ColumnBuild)
      → All IsKeptBy ts
      → All P cs
      → Ensures (All P) (index_build_range_scan sv ts cs)
  unfolding index_build_range_scan
  scan-All [] cs k h = Ensures-known (All P) cs h
  scan-All (t ∷ ts) cs k h =
      Ensures-bind (build_callback sv t cs) _
        λ ds go. scan-All ts ds k.1 ((build_callback-All t cs k.0 h).at ds go)
