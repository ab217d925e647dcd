-- ===== src/Prune/Planner/Evaluate/Direct.antt =====
-- The evaluation through the tables of a plan decides as the direct one (src/prune_hook.rs).
use pg_table_range.Base.{
  ℕ, ◌%◌, ◌≡◌, Bool, true, false, not, ◌&&◌, Option, none, some, List, [], ◌∷◌, ◌==◌, or_raise,
  Attempt, known, unknown, Result, Ordering, ◌>>=◌ as bind,
}
use pg_table_range.Bytes.{Bytes}
use pg_table_range.Summary.{ColSummary}
use pg_table_range.Server.{
  Server, is_lt, is_gt, datum_cmp, text_to_datum, call_overlap, oid_function_call2,
}
use pg_table_range.Prune.{
  QualSpec, compare, null, in_list, overlap, extent_of, bounds_of, parsed_bounds, excluded,
  eval_compare, in_range, any_in_range, eval_in_list, eval_extent, eval_overlap, proves_prune,
}
use pg_table_range.Prune.Planner.Memo.{
  fmgr_cached-Answers, cmp_cached-Answers, parse_cached-Answers,
}
use pg_table_range.Prune.Planner.Evaluate.{
  Memo, pure, ◌>>=◌, parse, cmp, bounds_cached, parsed_bounds_cached, excluded_cached,
  eval_compare_cached, in_range_cached, any_in_range_cached, eval_in_list_cached,
  overlap_call_cached, eval_extent_cached, eval_overlap_cached, proves_prune_cached,
}
use pg_table_range.Prune.Planner.Evaluate.Answered.{
  Refines, Refines-lift, Refines-bind, Refines-or_keep, Refines-when,
}

module _ (sv : Server) (input : ℕ → Bytes → ℕ → Result ℕ)
    (oid_input : (infunc ioparam : ℕ) (text : Bytes)
      → or_raise (sv.call_input infunc text ioparam)
        ≡ bind
            (or_raise (sv.fmgr_info infunc))
            (λ finfo. or_raise (input finfo text ioparam))) where
  parse-Refines :
      (typ : ℕ) (text : Bytes)
      → Refines sv input (parse sv input typ text) (text_to_datum sv typ text)
  parse-Refines typ text = record { at = parse_cached-Answers sv input oid_input typ text }

  cmp-Refines : (c l a b : ℕ) → Refines sv input (cmp sv input c l a b) (datum_cmp sv c l a b)
  cmp-Refines c l a b = record { at = cmp_cached-Answers sv input c l a b }

  bounds-Refines :
      (t : ℕ) (unbounded : Bool) (min max : Option Bytes)
      → Refines sv input
          (bounds_cached sv input t unbounded min max)
          (bounds_of sv t unbounded min max)
  unfolding bounds_cached bounds_of
  bounds-Refines t false (some min) (some max) =
      Refines-bind sv input _ _ _ _ (parse-Refines t min) λ a.
        Refines-bind sv input _ _ _ _ (parse-Refines t max)
          λ b. Refines-lift sv input (known (a, b))
  bounds-Refines t false none max = Refines-lift sv input unknown
  bounds-Refines t false (some min) none = Refines-lift sv input unknown
  bounds-Refines t true min max = Refines-lift sv input unknown

  parsed_bounds-Refines :
      (row : ColSummary) (t : ℕ)
      → Refines sv input (parsed_bounds_cached sv input row t) (parsed_bounds sv row t)
  unfolding parsed_bounds_cached parsed_bounds
  parsed_bounds-Refines row t = bounds-Refines t row.unbounded row.min row.max

  module _ (cmp_of : ℕ → Memo Ordering) (direct : ℕ → Attempt Ordering)
      (same : (d : ℕ) → Refines sv input (cmp_of d) (direct d)) where
    test-Refines :
        (d : ℕ) (b : Ordering → Bool)
        → Refines sv input (cmp_of d >>= λ s. pure (b s)) (bind (direct d) (λ s. known (b s)))
    test-Refines d b =
        Refines-bind sv input _ _ _ _ (same d) λ s. Refines-lift sv input (known (b s))

    excluded-Refines :
        (strategy lo hi : ℕ)
        → Refines sv input
            (excluded_cached sv input cmp_of strategy lo hi)
            (excluded direct strategy lo hi)
    unfolding excluded_cached excluded
    excluded-Refines strategy lo hi =
        Refines-when sv input (strategy == 1) _ _ _ _ (test-Refines lo (λ s. not (is_lt s))) (
          Refines-when sv input (strategy == 2) _ _ _ _ (test-Refines lo is_gt) (
            Refines-when sv input (strategy == 3) _ _ _ _
              (Refines-bind sv input _ _ _ _ (same lo) λ s.
                Refines-when sv input (is_gt s) _ _ _ _ (Refines-lift sv input (known true))
                  (test-Refines hi is_lt))
              (Refines-when sv input (strategy == 4) _ _ _ _ (test-Refines hi is_lt) (
                Refines-when sv input (strategy == 5) _ _ _ _ (test-Refines hi (λ t. not (is_gt t)))
                  (Refines-lift sv input (known false))))))

  in_range-Refines :
      (c l lo hi d : ℕ)
      → Refines sv input (in_range_cached sv input c l lo hi d) (in_range sv c l lo hi d)
  unfolding in_range_cached in_range
  in_range-Refines c l lo hi d = Refines-bind sv input _ _ _ _ (cmp-Refines c l lo d) λ s.
      Refines-when sv input (is_gt s) _ _ _ _ (Refines-lift sv input (known false)) (
        Refines-bind sv input _ _ _ _ (cmp-Refines c l hi d)
          λ t. Refines-lift sv input (known (not (is_lt t))))

  any_in_range-Refines :
      (c l lo hi : ℕ) (ds : List ℕ)
      → Refines sv input (any_in_range_cached sv input c l lo hi ds) (any_in_range sv c l lo hi ds)
  unfolding any_in_range_cached any_in_range
  any_in_range-Refines c l lo hi [] = Refines-lift sv input (known false)
  any_in_range-Refines c l lo hi (d ∷ ds) =
      Refines-bind sv input _ _ _ _ (in_range-Refines c l lo hi d) λ found.
        Refines-when sv input found _ _ _ _ (Refines-lift sv input (known true))
          (any_in_range-Refines c l lo hi ds)

  overlap_call-Refines :
      (opfunc l : ℕ) (commuted : Bool) (ext k : ℕ)
      → Refines sv input
          (overlap_call_cached sv input opfunc l commuted ext k)
          (call_overlap sv opfunc l commuted ext k)
  unfolding overlap_call_cached call_overlap oid_function_call2
  overlap_call-Refines opfunc l true ext k =
      Refines-bind sv input _ _ _ _ (record { at = fmgr_cached-Answers sv input opfunc })
        λ finfo. Refines-lift sv input (or_raise (sv.function_call2 finfo l k ext))
  overlap_call-Refines opfunc l false ext k =
      Refines-bind sv input _ _ _ _ (record { at = fmgr_cached-Answers sv input opfunc })
        λ finfo. Refines-lift sv input (or_raise (sv.function_call2 finfo l ext k))

  eval_extent-Refines :
      (t opfunc l k : ℕ) (commuted : Bool) (extent : Option Bytes)
      → Refines sv input
          (eval_extent_cached sv input t opfunc l k commuted extent)
          (eval_extent sv t opfunc l k commuted extent)
  unfolding eval_extent_cached eval_extent
  eval_extent-Refines t opfunc l k commuted none = Refines-lift sv input (known false)
  eval_extent-Refines t opfunc l k commuted (some extent) =
      Refines-or_keep sv input _ _ _ _ (parse-Refines t extent) λ ext.
        Refines-bind sv input _ _ _ _ (overlap_call-Refines opfunc l commuted ext k)
          λ overlaps. Refines-lift sv input (known (overlaps % 256 == 0))

  pub proves_prune-Refines :
      (spec : QualSpec) (row : ColSummary)
      → Refines sv input (proves_prune_cached sv input spec row) (proves_prune sv spec row)
  unfolding proves_prune_cached proves_prune eval_compare_cached eval_compare eval_in_list_cached
      eval_in_list eval_overlap_cached eval_overlap
  proves_prune-Refines (null a is_null) row = Refines-lift sv input _
  proves_prune-Refines (compare a strategy t c l k) row =
      Refines-when sv input (not row.overlap && row.collation == l) _ _ _ _
        (Refines-or_keep sv input _ _ _ _ (parsed_bounds-Refines row t)
          λ b. excluded-Refines _ _ (λ bound. cmp-Refines c l bound k) strategy b.0 b.1)
        (Refines-lift sv input (known false))
  proves_prune-Refines (in_list a t c l es) row =
      Refines-when sv input (not row.overlap && row.collation == l) _ _ _ _
        (Refines-or_keep sv input _ _ _ _ (parsed_bounds-Refines row t) λ b.
          Refines-bind sv input _ _ _ _ (any_in_range-Refines c l b.0 b.1 es)
            λ found. Refines-lift sv input (known (not found)))
        (Refines-lift sv input (known false))
  proves_prune-Refines (overlap a t opfunc l k commuted) row =
      Refines-when sv input row.overlap _ _ _ _
        (eval_extent-Refines t opfunc l k commuted (extent_of row.unbounded row.min))
        (Refines-lift sv input (known false))
