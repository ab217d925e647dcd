-- ===== src/Build/Finish/Covers.antt =====
-- The built summary covers every tuple of the scan (src/summary_build.rs).
use pg_table_range.Base.{
  ℕ, ◌<◌, ◌^◌, ◌≡◌, refl, sym, subst, ◌∙◌, ap, inl, inr, Bool-cases, true, false, ◌||◌, ◌&&◌, ltb,
  Option, none, some, List, [], ◌∷◌, map, All, All-map, if◌then◌else◌, Result, known, Ensures,
  Ensures-known, Ensures-bind, ◌>>=◌, Ensures-raised, parallel_mode, arith,
}
use pg_table_range.Bytes.{Bytes, is_utf8}
use pg_table_range.Summary.{ColSummary, IndexSummary, make_unbounded}
use pg_table_range.Codec.RoundTrip.{IsTyped}
use pg_table_range.Server.{Server}
use pg_table_range.StableIo.{Gucs, Session, with_stable_io}
use pg_table_range.StableIo.Pinned.{IsStable, with_stable_io-IsStable}
use pg_table_range.Widen.Covers.{CoversValue}
use pg_table_range.Widen.Row.{Row, Table, IsIn}
use pg_table_range.Build.{
  Accumulator, min_max, range, geometry, unsupported, ColumnBuild, plan_columns,
  index_build_range_scan, flush_geometry,
}
use pg_table_range.Build.Holds.{with_text_io, Holds, IsRight}
use pg_table_range.Build.Batch.{BatchExtents, IsFlushed, flush_geometry-Holds}
use pg_table_range.Build.Scan.{
  tuple_of, index_column, IsTypedIndex, FoldedIn, Built, index_build_range_scan-Built,
}
use pg_table_range.Build.Scan.Planned.{plan_index-Built}
use pg_table_range.Build.Finish.{
  Bounds, flushed, bounds_of, lost_bound, summary_of, finish_column, finish_columns, finish,
  or_parallel, build_leaf_summary,
}
use pg_table_range.Build.Finish.Rendered.{Renders, bounds_of-Renders}

module _ {sv : Server} (table : Table sv) where
  open table use {type_of, collation_of, orders}

  -- What `finish` promises for a column of an index on `ns`.
  pub record Finished (ns : List ℕ) (rows : List Row) (d : ColSummary) : Type 0 where
    pub typed : IsTyped d
    pub collation : d.collation ≡ collation_of d.attnum
    pub indexed : IsIn d.attnum ns
    pub covers : All (λ (row : Row). CoversValue (orders d.attnum) d (row d.attnum)) rows

  finished_col : ColumnBuild → Accumulator → Bounds → ColSummary
  finished_col c acc b =
      if b.unbounded || (ltb 0 c.nonnull && lost_bound acc b)
      then make_unbounded (summary_of c b)
      else summary_of c b

  finished-covers :
      (c : ColumnBuild) (acc : Accumulator) (b : Bounds) (u : Option ℕ)
      → Renders (orders c.attnum) acc b
      → ((v : ℕ) → Holds (orders c.attnum) c.acc v → Holds (orders c.attnum) acc v)
      → FoldedIn table c u
      → CoversValue (orders c.attnum) (finished_col c acc b) u
  unfolding finished_col make_unbounded summary_of
  finished-covers c acc b none r keeps h = ground arith
  finished-covers c acc b (some v) r keeps h =
      elim (Bool-cases (b.unbounded || (ltb 0 c.nonnull && lost_bound acc b))) [
        | inl lost ↦ rw lost (ground arith, λ e. cc)
        | inr whole ↦ rw whole (ground arith, λ e. r.covers v (kept whole h.0) e (keeps v h.1))
      ]
    where
      kept :
          (b.unbounded || (ltb 0 c.nonnull && lost_bound acc b)) ≡ false
          → 0 < c.nonnull
          → lost_bound acc b ≡ false
      kept whole some_value = ground arith

  finished-attnum :
      (c : ColumnBuild) (acc : Accumulator) (b : Bounds) → (finished_col c acc b).attnum ≡ c.attnum
  unfolding finished_col make_unbounded summary_of
  finished-attnum c acc b = ground arith

  finished-collation :
      (c : ColumnBuild) (acc : Accumulator) (b : Bounds)
      → (finished_col c acc b).collation ≡ c.collation
  unfolding finished_col make_unbounded summary_of
  finished-collation c acc b = ground arith

  finished-IsTyped :
      (c : ColumnBuild) (acc : Accumulator) (b : Bounds)
      → c.attnum < 2 ^ 16
      → c.collation < 2 ^ 32
      → is_utf8 c.type_name ≡ true
      → Renders (orders c.attnum) acc b
      → IsTyped (finished_col c acc b)
  unfolding finished_col make_unbounded summary_of
  finished-IsTyped c acc b small coll name r =
      elim (Bool-cases (b.unbounded || (ltb 0 c.nonnull && lost_bound acc b))) [
        | inl lost ↦
            rw lost
              (record { attnum = small; collation = coll; type_name = name; min = tt; max = tt })
        | inr whole ↦ rw whole (record {
          attnum = small;
          collation = coll;
          type_name = name;
          min = r.min_text;
          max = r.max_text;
        })
      ]

  module _ (out : ℕ → ℕ → Result (Option Bytes)) (inp : ℕ → Bytes → ℕ → Result ℕ)
      (batches : (n : ℕ) → BatchExtents (orders n).extent out inp) where
    -- Under the pinned settings the text of a geometry is the same too.
    pinned_batches : (n : ℕ) → BatchExtents (orders n).extent sv.call_output sv.call_input
    pinned_batches n = record {
      same_text = λ text. refl;
      contains = λ tn w ds d e v q read i x. (batches n).contains tn w ds d e v q read i x;
      null = λ tn ds e v q i x. (batches n).null tn ds e v q i x;
    }

    abbrev Flushed : ℕ → Accumulator → Accumulator → Type 0
    Flushed n acc acc' =
        ((v : ℕ) → Holds (orders n) acc v → Holds (orders n) acc' v)
        × IsRight (orders n) acc'
        × IsFlushed acc'

    flushed-Flushed :
        (c : ColumnBuild) (acc : Accumulator)
        → c.typ ≡ type_of c.attnum
        → IsRight (orders c.attnum) acc
        → Ensures (Flushed c.attnum acc) (flushed sv c acc)
    unfolding flushed
    flushed-Flushed c (min_max cmp mn mx) e r =
        Ensures-known (Flushed c.attnum (min_max cmp mn mx)) _ (λ v h. h, r, tt)
    flushed-Flushed c (range merge x) e r =
        Ensures-known (Flushed c.attnum (range merge x)) _ (λ v h. h, r, tt)
    flushed-Flushed c (geometry ds x) e r = record {
      at = λ acc q.
          flush_geometry-Holds (orders c.attnum) sv.call_output sv.call_input
            (pinned_batches c.attnum) c.type_name ds x acc r
            (subst (λ t. flush_geometry sv c.type_name t ds x ≡ known acc) e q);
    }
    flushed-Flushed c unsupported e r =
        Ensures-known (Flushed c.attnum unsupported) _ (λ v h. h, r, tt)

    module _ (ns : List ℕ) (index : IsTypedIndex table ns) (rows : List Row) where
      finished_col-Finished :
          (c : ColumnBuild) (acc : Accumulator) (bs : Bounds)
          → Built table ns ns rows c
          → Renders (orders c.attnum) acc bs
          → ((v : ℕ) → Holds (orders c.attnum) c.acc v → Holds (orders c.attnum) acc v)
          → Finished ns rows (finished_col c acc bs)
      finished_col-Finished c acc bs b r keeps = record {
        typed =
            finished-IsTyped c acc bs b.small (rw b.collation (index.collations c.attnum)) b.name r;
        collation =
            finished-collation c acc bs
            ∙ b.collation
            ∙ ap collation_of (sym (finished-attnum c acc bs));
        indexed = rw (finished-attnum c acc bs) b.indexed;
        covers =
            subst
              (λ n.
                All (λ (row : Row). CoversValue (orders n) (finished_col c acc bs) (row n)) rows)
              (sym (finished-attnum c acc bs))
              (All-map (λ row h. finished-covers c acc bs (row c.attnum) r keeps h) rows b.folded);
      }

      finish_column-Finished :
          (c : ColumnBuild)
          → Built table ns ns rows c
          → Ensures (Finished ns rows) (finish_column sv c)
      unfolding finish_column finished_col
      finish_column-Finished c b = Ensures-bind (flushed sv c c.acc) _ λ acc fl.
          Ensures-bind (bounds_of sv c.typ acc) _ λ bs rendered.
            let (keeps, right, empty) = (flushed-Flushed c c.acc b.typ b.right).at acc fl in
            let r =
              (bounds_of-Renders (orders c.attnum) acc right empty).at bs
                (subst (λ t. bounds_of sv t acc ≡ known bs) b.typ rendered) in
            Ensures-known (Finished ns rows) (finished_col c acc bs)
              (finished_col-Finished c acc bs b r keeps)

      finish_columns-Finished :
          (cs : List ColumnBuild)
          → All (Built table ns ns rows) cs
          → Ensures (All (Finished ns rows)) (finish_columns sv cs)
      unfolding finish_columns
      finish_columns-Finished [] b = Ensures-known (All (Finished ns rows)) [] tt
      finish_columns-Finished (c ∷ cs) b = Ensures-bind (finish_column sv c) _ λ d go.
          Ensures-bind (finish_columns sv cs) _ λ ds rest.
            Ensures-known (All (Finished ns rows)) (d ∷ ds)
              ((finish_column-Finished c b.0).at d go, (finish_columns-Finished cs b.1).at ds rest)

      abbrev AllFinished : IndexSummary → Type 0
      AllFinished s = All (Finished ns rows) s.cols

      finish-Finished :
          (cs : List ColumnBuild)
          → All (Built table ns ns rows) cs
          → Ensures AllFinished (finish sv cs)
      unfolding finish
      finish-Finished cs b =
          Ensures-bind (finish_columns sv cs) _
            λ ds go. Ensures-known AllFinished _ ((finish_columns-Finished cs b).at ds go)

      module _ (server_of : Gucs → Server) (stable : (g : Gucs) → IsStable g → server_of g ≡ sv)
          (session : Session) (scanning : server_of session.gucs ≡ with_text_io sv out inp) where
        rendered-Finished :
            (cs : List ColumnBuild)
            → All (Built table ns ns rows) cs
            → Ensures AllFinished
                (or_parallel (with_stable_io (λ g. finish (server_of g) cs) session).0)
        rendered-Finished cs b =
            elim (with_stable_io-IsStable (λ g. finish (server_of g) cs) session) [
              | inl (g, ran, st) ↦ rw (ran, stable g st) (finish-Finished cs b)
              | inr (idle, parallel, q) ↦ rw idle (Ensures-raised AllFinished parallel_mode)
            ]

        scanned-Finished : Ensures AllFinished (
            plan_columns (with_text_io sv out inp) 0 (map (index_column table) ns) >>= λ cs.
            index_build_range_scan (with_text_io sv out inp) (map (tuple_of ns) rows) cs >>= λ cs'.
            or_parallel (with_stable_io (λ g. finish (server_of g) cs') session).0)
        scanned-Finished =
            Ensures-bind (plan_columns (with_text_io sv out inp) 0 (map (index_column table) ns)) _
              λ cs planned.
                Ensures-bind
                  (index_build_range_scan (with_text_io sv out inp) (map (tuple_of ns) rows) cs) _
                  λ cs' scanned. rendered-Finished cs' (
                    (index_build_range_scan-Built table out inp batches ns ns rows cs
                        ((plan_index-Built table out inp ns index).at cs planned)).at
                      cs' scanned)

        pub build_leaf_summary-Finished : Ensures AllFinished (
            build_leaf_summary server_of session
              (map (index_column table) ns)
              (some (map (tuple_of ns) rows)))
        unfolding build_leaf_summary
        build_leaf_summary-Finished =
            subst
              (λ z. Ensures AllFinished (
                plan_columns z 0 (map (index_column table) ns) >>= λ cs.
                index_build_range_scan z (map (tuple_of ns) rows) cs >>= λ cs'.
                or_parallel (with_stable_io (λ g. finish (server_of g) cs') session).0))
              (sym scanning) scanned-Finished
