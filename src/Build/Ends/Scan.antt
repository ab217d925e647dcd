-- ===== src/Build/Ends/Scan.antt =====
-- Why the scan of the build raises an ERROR (src/summary_build.rs): every one has its reason in a call
-- of the server.
use pg_table_range.Base.{
  ℕ, suc, ◌≡◌, refl, sym, ap, ◌∙◌, Bool-cases, inl, inr, ◌>>=◌, if◌then◌else◌, ◌==◌, ◌||◌, leb,
  length, Option, none, some, List, [], ◌∷◌, Result, ok, err, or_raise, Attempt, known, unknown,
  raised, Error, ◌++◌, spi_failed, unreadable_extent,
}
use pg_table_range.Bytes.{Bytes, has_nul}
use pg_table_range.Server.{
  Server, SpiResult, first_value, invalid_oid, btree_cmp_proc, text_to_datum,
}
use pg_table_range.Server.Geometry.{batch_sql}
use pg_table_range.Server.Types.{type_name_parts, qualified, qualified_type_name}
use pg_table_range.Build.{
  Accumulator, min_max, range, geometry, unsupported, ColumnBuild, IndexColumn, is_expression,
  is_geometry, geometry_batch, Tuple, min_max_of, new_accumulator, plan_column, plan_columns,
  call_cmp, add_min_max, add_range, with_extent, extent_of_batch, flush_batch, flush_geometry,
  add_geometry, add_value, fold_value, build_callback, index_build_range_scan,
}
use pg_table_range.Build.Ends.{
  CallRaises, lookup_raises, function_raises, input_raises, query_raises, query_fails,
  query_has_nul, extent_has_no_input, type_is_missing, identifier_has_nul, Answered, Answered-bind,
  Answered-if, Answered-or_raise, raised-injective,
}

module _ (sv : Server) where
  min_max_of-Answered : (p : Option ℕ) → Answered sv (min_max_of sv p)
  unfolding min_max_of
  min_max_of-Answered none = tt
  min_max_of-Answered (some p) =
      Answered-bind sv (or_raise (sv.fmgr_info p)) _
        (Answered-or_raise sv (sv.fmgr_info p) (λ e q. lookup_raises p q)) λ cmp. tt

  new_accumulator-Answered : (typ : ℕ) → Answered sv (new_accumulator sv typ)
  unfolding new_accumulator
  new_accumulator-Answered typ =
      let base = sv.get_base_type typ in
      Answered-if sv (sv.get_typlen typ == 65534) _ _ (λ q. tt)
        λ q'.
          Answered-if sv (sv.get_typtype base == 114) _ _
            (λ q.
              Answered-bind sv (or_raise (sv.fmgr_info sv.range_merge)) _
                (Answered-or_raise sv (sv.fmgr_info sv.range_merge)
                  (λ e q. lookup_raises sv.range_merge q))
                λ merge. tt)
            λ q.
              Answered-if sv (is_geometry (type_name_parts sv base)) _ _ (λ q''. tt)
                (λ q''. min_max_of-Answered (btree_cmp_proc sv base))

  qualified-Answered :
      (typ : ℕ) (parts : Option (Bytes × Bytes))
      → type_name_parts sv typ ≡ parts
      → Answered sv (qualified sv parts)
  unfolding qualified
  qualified-Answered typ none e = type_is_missing typ e
  qualified-Answered typ (some (nsp, name)) e =
      Answered-if sv (has_nul nsp || has_nul name) _ _ (λ q. identifier_has_nul typ nsp name e q)
        (λ q. tt)

  pub plan_columns-Answered :
      (pos : ℕ) (cs : List IndexColumn) → Answered sv (plan_columns sv pos cs)
  unfolding plan_columns plan_column qualified_type_name
  plan_columns-Answered pos [] = tt
  plan_columns-Answered pos (c ∷ cs) =
      let rest = plan_columns-Answered (suc pos) cs in
      Answered-if sv (is_expression c.heap_attnum) _ _ (λ q. rest)
        λ q.
          Answered-bind sv (plan_column sv pos c) _
            (Answered-bind sv (new_accumulator sv c.typoid) _ (new_accumulator-Answered c.typoid)
              λ acc.
                Answered-bind sv (qualified_type_name sv c.typoid) _
                  (qualified-Answered c.typoid (type_name_parts sv c.typoid) refl) λ name. tt)
            λ c'. Answered-bind sv (plan_columns sv (suc pos) cs) _ rest λ cs'. tt

  call_cmp-Answered : (cmp collation a b : ℕ) → Answered sv (call_cmp sv cmp collation a b)
  unfolding call_cmp
  call_cmp-Answered cmp collation a b =
      Answered-bind sv (or_raise (sv.function_call2 cmp collation a b)) _
        (Answered-or_raise sv (sv.function_call2 cmp collation a b)
          (λ e q. function_raises cmp collation a b q))
        λ d. tt

  add_min_max-Answered :
      (cmp collation value : ℕ) (lo hi : Option ℕ)
      → Answered sv (add_min_max sv cmp collation value lo hi)
  unfolding add_min_max
  add_min_max-Answered cmp collation value none hi = tt
  add_min_max-Answered cmp collation value (some lo) none = tt
  add_min_max-Answered cmp collation value (some lo) (some hi) =
      Answered-bind sv (call_cmp sv cmp collation value lo) _
        (call_cmp-Answered cmp collation value lo)
        λ below.
          Answered-bind sv (call_cmp sv cmp collation value hi) _
            (call_cmp-Answered cmp collation value hi) λ above. tt

  add_range-Answered :
      (merge value : ℕ) (extent : Option ℕ) → Answered sv (add_range sv merge value extent)
  unfolding add_range
  add_range-Answered merge value none = tt
  add_range-Answered merge value (some old) =
      Answered-bind sv (or_raise (sv.function_call2 merge invalid_oid old value)) _
        (Answered-or_raise sv (sv.function_call2 merge invalid_oid old value)
          (λ e q. function_raises merge invalid_oid old value q))
        λ merged. tt

  text_to_datum-raises :
      (typ : ℕ) (text : Bytes) (e : Error) → text_to_datum sv typ text ≡ raised e → CallRaises sv e
  unfolding text_to_datum
  text_to_datum-raises typ text e h = elim (Bool-cases ((sv.type_input typ).0 == invalid_oid)) [
    | inl none_such ↦ absurd (not_unknown (sym (rw none_such refl) ∙ h))
    | inr found ↦ elim (Bool-cases (has_nul text)) [
      | inl nul ↦ absurd (not_unknown (sym (rw (found, nul) refl) ∙ h))
      | inr clean ↦
          from_call (sv.call_input (sv.type_input typ).0 text (sv.type_input typ).1) refl
            (sym (rw (found, clean) refl) ∙ h)
    ]
  ]
    where
      not_unknown : ◌≡◌ {A = Attempt ℕ} unknown (raised e) → ⊥
      not_unknown q = cc

      from_call :
          (r : Result ℕ)
          → sv.call_input (sv.type_input typ).0 text (sv.type_input typ).1 ≡ r
          → or_raise r ≡ raised e
          → CallRaises sv e
      from_call (ok d) q k = absurd cc
      from_call (err x) q k =
          input_raises (sv.type_input typ).0 text (sv.type_input typ).1
            (q ∙ ap err (raised-injective x e k))

  with_extent-Answered :
      (typ : ℕ) (batch : List ℕ) (e : Option Bytes) → Answered sv (with_extent sv typ batch e)
  unfolding with_extent
  with_extent-Answered typ batch none = tt
  with_extent-Answered typ batch (some text) = go (text_to_datum sv typ text) refl
    where
      input_of_extent : (e : Error) → text_to_datum sv typ text ≡ raised e → CallRaises sv e
      input_of_extent e q = text_to_datum-raises typ text e q

      go :
          (m : Attempt ℕ)
          → text_to_datum sv typ text ≡ m
          → Answered sv (elim m [
            | known d ↦ known (batch ++ d ∷ [])
            | unknown ↦ raised unreadable_extent
            | raised e ↦ raised e
          ])
      go (known d) q = tt
      go unknown q = extent_has_no_input typ text q
      go (raised e) q = input_of_extent e q

  extent_of_batch-Answered :
      (name : Bytes) (typ : ℕ) (batch : List ℕ) → Answered sv (extent_of_batch sv name typ batch)
  unfolding extent_of_batch
  extent_of_batch-Answered name typ batch =
      Answered-if sv (has_nul (batch_sql name)) _ _ (λ q. query_has_nul name q)
        (λ q.
          go (sv.spi_execute_with_array (batch_sql name) (sv.get_array_type typ) typ batch) refl)
    where
      go :
          (r : Result SpiResult)
          → sv.spi_execute_with_array (batch_sql name) (sv.get_array_type typ) typ batch ≡ r
          → Answered sv (
              or_raise r >>= λ r'.
              if r'.rc == sv.spi_ok_select then known (first_value r') else raised spi_failed)
      go (ok r) e =
          Answered-if sv (r.rc == sv.spi_ok_select) _ _ (λ q. tt)
            (λ q. query_fails (batch_sql name) (sv.get_array_type typ) typ batch r e q)
      go (err x) e = query_raises (batch_sql name) (sv.get_array_type typ) typ batch e

  pub flush_geometry-Answered :
      (name : Bytes) (typ : ℕ) (batch : List ℕ) (e : Option Bytes)
      → Answered sv (flush_geometry sv name typ batch e)
  unfolding flush_geometry flush_batch
  flush_geometry-Answered name typ batch e =
      Answered-bind sv (with_extent sv (sv.get_base_type typ) batch e) _
        (with_extent-Answered (sv.get_base_type typ) batch e) go
    where
      go : (ds : List ℕ) → Answered sv (flush_batch sv name (sv.get_base_type typ) e ds)
      go [] = tt
      go (d ∷ ds) =
          Answered-bind sv (extent_of_batch sv name (sv.get_base_type typ) (d ∷ ds)) _
            (extent_of_batch-Answered name (sv.get_base_type typ) (d ∷ ds)) λ result. tt

  add_value-Answered :
      (name : Bytes) (typ collation value : ℕ) (acc : Accumulator)
      → Answered sv (add_value sv name typ collation value acc)
  unfolding add_value add_geometry
  add_value-Answered name typ collation value (min_max cmp mn mx) =
      add_min_max-Answered cmp collation value mn mx
  add_value-Answered name typ collation value (range merge e) = add_range-Answered merge value e
  add_value-Answered name typ collation v (geometry batch e) =
      Answered-if sv (leb geometry_batch (length (batch ++ v ∷ []))) _ _
        (λ q. flush_geometry-Answered name typ (batch ++ v ∷ []) e) (λ q. tt)
  add_value-Answered name typ collation value unsupported = tt

  build_callback-Answered :
      (tuple : Tuple) (cs : List ColumnBuild) → Answered sv (build_callback sv tuple cs)
  unfolding build_callback fold_value
  build_callback-Answered tuple [] = tt
  build_callback-Answered tuple (c ∷ cs) =
      Answered-bind sv (fold_value sv c (tuple c.index_pos)) _ (folds c (tuple c.index_pos)) λ c'.
        Answered-bind sv (build_callback sv tuple cs) _ (build_callback-Answered tuple cs) λ cs'. tt
    where
      folds : (c : ColumnBuild) (u : Option ℕ) → Answered sv (fold_value sv c u)
      folds c none = tt
      folds c (some v) =
          Answered-bind sv (add_value sv c.type_name c.typ c.collation v c.acc) _
            (add_value-Answered c.type_name c.typ c.collation v c.acc) λ acc. tt

  pub scan-Answered :
      (ts : List Tuple) (cs : List ColumnBuild) → Answered sv (index_build_range_scan sv ts cs)
  unfolding index_build_range_scan
  scan-Answered [] cs = tt
  scan-Answered (t ∷ ts) cs =
      Answered-bind sv (build_callback sv t cs) _ (build_callback-Answered t cs)
        λ cs'. scan-Answered ts cs'
