-- ===== src/Build/Finish/Ends.antt =====
-- Why `finish` and `build_leaf_summary` raise an ERROR (src/summary_build.rs): a bound that has no text
-- is not among the reasons.
use pg_table_range.Base.{
  ℕ, ◌≡◌, refl, sym, ap, ◌∙◌, ◌==◌, inl, inr, Bool-cases, Option, none, some, List, [], ◌∷◌, Error,
  Result, ok, err, or_raise, optional, Attempt, known, unknown, raised, no_build_scan,
  parallel_mode, ◌>>=◌, true, arith,
}
use pg_table_range.Bytes.{Bytes}
use pg_table_range.Server.{Server, invalid_oid, text_of_cstr, datum_to_text}
use pg_table_range.StableIo.{Gucs, Session, with_stable_io}
use pg_table_range.StableIo.Pinned.{IsStable, with_stable_io-IsStable}
use pg_table_range.Build.{
  Accumulator, min_max, range, geometry, unsupported, ColumnBuild, IndexColumn, Tuple, plan_columns,
  index_build_range_scan,
}
use pg_table_range.Build.Finish.{
  flushed, render, bounds_of, finish_column, finish_columns, finish, or_parallel,
  build_leaf_summary,
}
use pg_table_range.Build.Ends.Scan.{plan_columns-Answered, flush_geometry-Answered, scan-Answered}
use pg_table_range.Build.Ends.{
  Ends, Ends-bind, Ends-imp, Answered, Answered-bind, CallRaises, output_raises, raised-injective,
}

-- The check of an output function's text raises nothing.
text_of_cstr-returns : (o : Option Bytes) (e : Error) → ¬ (text_of_cstr o ≡ raised e)
unfolding text_of_cstr
text_of_cstr-returns none e q = cc
text_of_cstr-returns (some s) e q = ground arith

module _ (sv : Server) where
  flushed-Answered : (c : ColumnBuild) (acc : Accumulator) → Answered sv (flushed sv c acc)
  unfolding flushed
  flushed-Answered c (min_max cmp mn mx) = tt
  flushed-Answered c (range merge e) = tt
  flushed-Answered c (geometry batch e) = flush_geometry-Answered sv c.type_name c.typ batch e
  flushed-Answered c unsupported = tt

  -- The helper raises only what the output function raises; where it gives no text, the helper gives
  -- `None`, which is no ERROR.
  datum_to_text-raises :
      (typ d : ℕ) (e : Error) → datum_to_text sv typ d ≡ raised e → CallRaises sv e
  unfolding datum_to_text
  datum_to_text-raises typ d e h = elim (Bool-cases (sv.type_output typ == invalid_oid)) [
    | inl none_such ↦ absurd (not_unknown (sym (rw none_such refl) ∙ h))
    | inr found ↦ from_call (sv.call_output (sv.type_output typ) d) refl (sym (rw found refl) ∙ h)
  ]
    where
      not_unknown : ◌≡◌ {A = Attempt Bytes} unknown (raised e) → ⊥
      not_unknown q = cc

      from_call :
          (r : Result (Option Bytes))
          → sv.call_output (sv.type_output typ) d ≡ r
          → (or_raise r >>= text_of_cstr) ≡ raised e
          → CallRaises sv e
      from_call (ok o) q k = absurd (text_of_cstr-returns o e k)
      from_call (err x) q k =
          output_raises (sv.type_output typ) d (q ∙ ap err (raised-injective x e k))

  render-Answered : (typ : ℕ) (d : Option ℕ) → Answered sv (render sv typ d)
  unfolding render
  render-Answered typ none = tt
  render-Answered typ (some d) = go (datum_to_text sv typ d) refl
    where
      go : (m : Attempt Bytes) → datum_to_text sv typ d ≡ m → Answered sv (optional m)
      go (known s) q = tt
      go unknown q = tt
      go (raised e) q = datum_to_text-raises typ d e q

  bounds_of-Answered : (typ : ℕ) (acc : Accumulator) → Answered sv (bounds_of sv typ acc)
  unfolding bounds_of
  bounds_of-Answered typ (min_max cmp mn mx) =
      Answered-bind sv (render sv typ mn) _ (render-Answered typ mn)
        λ lo. Answered-bind sv (render sv typ mx) _ (render-Answered typ mx) λ hi. tt
  bounds_of-Answered typ (range merge e) =
      Answered-bind sv (render sv typ e) _ (render-Answered typ e) λ lo. tt
  bounds_of-Answered typ (geometry batch e) = tt
  bounds_of-Answered typ unsupported = tt

  finish_columns-Answered : (cs : List ColumnBuild) → Answered sv (finish_columns sv cs)
  unfolding finish_columns finish_column
  finish_columns-Answered [] = tt
  finish_columns-Answered (c ∷ cs) =
      Answered-bind sv (finish_column sv c) _
        (Answered-bind sv (flushed sv c c.acc) _ (flushed-Answered c c.acc)
          λ acc. Answered-bind sv (bounds_of sv c.typ acc) _ (bounds_of-Answered c.typ acc) λ b. tt)
        λ c'. Answered-bind sv (finish_columns sv cs) _ (finish_columns-Answered cs) λ cs'. tt

  pub finish-Answered : (cs : List ColumnBuild) → Answered sv (finish sv cs)
  unfolding finish
  finish-Answered cs =
      Answered-bind sv (finish_columns sv cs) _ (finish_columns-Answered cs) λ s. tt

module _ (server_of : Gucs → Server) (session : Session) where
  -- The reasons of the build of a summary: a call's, under the session's settings in the scan and under
  -- pinned ones after it; a table whose access method has no build scan; or settings that cannot be
  -- pinned in parallel mode.
  pub data LeafRaises (tuples : Option (List Tuple)) : Error → Type 0 where
    scan_raises : {e : Error} → CallRaises (server_of session.gucs) e → LeafRaises tuples e
    finish_raises :
        {e : Error} (g : Gucs) → IsStable g → CallRaises (server_of g) e → LeafRaises tuples e
    scan_is_missing : tuples ≡ none → LeafRaises tuples no_build_scan
    settings_are_fixed :
        session.in_parallel_mode ≡ true → ¬ IsStable session.gucs → LeafRaises tuples parallel_mode

  abbrev pub LeafEnds : {A : Type 0} → Option (List Tuple) → Attempt A → Type 0
  LeafEnds tuples m = Ends (LeafRaises tuples) (λ a. Unit) m

  scan-Ends :
      {A : Type 0} (tuples : Option (List Tuple)) (m : Attempt A)
      → Answered (server_of session.gucs) m
      → LeafEnds tuples m
  scan-Ends tuples m h =
      Ends-imp (CallRaises (server_of session.gucs)) (LeafRaises tuples) (λ a. Unit) m
        (λ e r. scan_raises r) h

  rendered-Ends :
      (tuples : Option (List Tuple)) (cs : List ColumnBuild)
      → LeafEnds tuples (or_parallel (with_stable_io (λ g. finish (server_of g) cs) session).0)
  rendered-Ends tuples cs = elim (with_stable_io-IsStable (λ g. finish (server_of g) cs) session) [
    | inl (g, ran, st) ↦ rw ran (
        Ends-imp (CallRaises (server_of g)) (LeafRaises tuples) (λ a. Unit)
          (finish (server_of g) cs) (λ e r. finish_raises g st r)
          (finish-Answered (server_of g) cs))
    | inr (idle, parallel, q) ↦ rw idle (settings_are_fixed parallel q)
  ]

  pub build_leaf_summary-Ends :
      (cs : List IndexColumn) (tuples : Option (List Tuple))
      → LeafEnds tuples (build_leaf_summary server_of session cs tuples)
  unfolding build_leaf_summary
  build_leaf_summary-Ends cs none =
      Ends-bind (LeafRaises none) (λ a. Unit) (λ b. Unit)
        (plan_columns (server_of session.gucs) 0 cs) _
        (scan-Ends none _ (plan_columns-Answered (server_of session.gucs) 0 cs))
        λ cols e u. scan_is_missing refl
  build_leaf_summary-Ends cs (some ts) =
      Ends-bind (LeafRaises (some ts)) (λ a. Unit) (λ b. Unit)
        (plan_columns (server_of session.gucs) 0 cs) _
        (scan-Ends (some ts) _ (plan_columns-Answered (server_of session.gucs) 0 cs))
        λ cols e u.
          Ends-bind (LeafRaises (some ts)) (λ a. Unit) (λ b. Unit)
            (index_build_range_scan (server_of session.gucs) ts cols) _
            (scan-Ends (some ts) _ (scan-Answered (server_of session.gucs) ts cols))
            λ cols' e' u'. rendered-Ends (some ts) cols'
