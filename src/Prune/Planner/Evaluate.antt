-- ===== src/Prune/Planner/Evaluate.antt =====
-- The evaluation of clauses through the tables of a plan (src/prune_hook.rs: from `parsed_bounds` to
-- `evaluate_relation_inner`, with `cmp_cached`, `parse_cached`, `fmgr_cached` and `compare_op_cached`
-- where they are called).
pub mod Answered
pub mod Direct
pub mod Clauses
use pg_table_range.Base.{
  ℕ, ◌+◌, ◌%◌, Bool, true, false, not, ◌&&◌, Option, none, some, List, [], ◌∷◌, ltb, ◌==◌,
  if◌then◌else◌, or_raise, try_option, Attempt, known, unknown, raised, Result, Ordering,
}
use pg_table_range.Bytes.{Bytes}
use pg_table_range.Summary.{ColSummary, find_col}
use pg_table_range.Server.{Server, is_lt, is_gt}
use pg_table_range.Prune.{QualSpec, compare, null, in_list, overlap, attnum_of, extent_of}
use pg_table_range.Prune.Clause.{
  Node, Nodes, null_node, bool_expr, op_expr, null_test, array_op, relabel, var, const, other_node,
  nil, cons, and_expr, or_expr, not_expr, is_nil, is_system, CompareOp, comparison_qual,
  strip_relabel, extract_nulltest, in_list_qual,
}
use pg_table_range.Prune.Planner.{
  PlanState, Answer, fmgr_cached, cmp_cached, parse_cached, compare_op_cached,
}

-- What reads and fills the tables.
abbrev pub Memo : Type 0 → Type 0
Memo A = PlanState → Answer A

abbrev pub pure : {A : Type 0} → A → Memo A
pure a st = (known a, st)

abbrev pub lift : {A : Type 0} → Attempt A → Memo A
lift m st = (m, st)

abbrev pub answered : {A B : Type 0} → Answer A → (A → Memo B) → Answer B
answered (known a, st) f = f a st
answered (unknown, st) f = (unknown, st)
answered (raised e, st) f = (raised e, st)

infixl 5 ◌>>=◌
abbrev pub ◌>>=◌ : {A B : Type 0} → Memo A → (A → Memo B) → Memo B
(m >>= f) st = answered (m st) f

abbrev pub kept : {A : Type 0} → Answer A → (A → Memo Bool) → Answer Bool
kept (known a, st) f = f a st
kept (unknown, st) f = (known false, st)
kept (raised e, st) f = (raised e, st)

-- `let Some(x) = … else { return false }`
abbrev pub or_keep_cached : {A : Type 0} → Memo A → (A → Memo Bool) → Memo Bool
or_keep_cached m f st = kept (m st) f

abbrev pub when_else : {A : Type 0} → Bool → Memo A → Memo A → Memo A
when_else b m n st = if b then m st else n st

-- The relation's entry of the plan's table.
abbrev pub rows_or_empty : Option (List ColSummary) → List ColSummary
rows_or_empty none = []
rows_or_empty (some cols) = cols

module _ (sv : Server) (input : ℕ → Bytes → ℕ → Result ℕ) where
  abbrev pub parse : ℕ → Bytes → Memo ℕ
  parse typ text = parse_cached sv input typ text

  abbrev pub cmp : ℕ → ℕ → ℕ → ℕ → Memo Ordering
  cmp cmpproc collation a b = cmp_cached sv input cmpproc collation a b

  pub bounds_cached : ℕ → Bool → Option Bytes → Option Bytes → Memo (ℕ × ℕ)
  unfolding parse_cached
  bounds_cached parse_type false (some min) (some max) = do
    min_d ← parse parse_type min
    max_d ← parse parse_type max
    pure (min_d, max_d)
  bounds_cached parse_type unbounded min max = lift unknown

  pub parsed_bounds_cached : ColSummary → ℕ → Memo (ℕ × ℕ)
  unfolding bounds_cached
  parsed_bounds_cached row parse_type = bounds_cached parse_type row.unbounded row.min row.max

  pub excluded_cached : (ℕ → Memo Ordering) → ℕ → ℕ → ℕ → Memo Bool
  excluded_cached cmp strategy min_d max_d =
      when_else (strategy == 1) (do s ← cmp min_d; pure (not (is_lt s)))
        (when_else (strategy == 2) (do s ← cmp min_d; pure (is_gt s))
          (when_else (strategy == 3)
            (do s ← cmp min_d; when_else (is_gt s) (pure true) (do t ← cmp max_d; pure (is_lt t)))
            (when_else (strategy == 4) (do t ← cmp max_d; pure (is_lt t))
              (when_else (strategy == 5) (do t ← cmp max_d; pure (not (is_gt t))) (pure false)))))

  pub eval_compare_cached : ColSummary → ℕ → ℕ → ℕ → ℕ → ℕ → Memo Bool
  unfolding parsed_bounds_cached excluded_cached cmp_cached
  eval_compare_cached row strategy parse_type cmpproc collation k =
      or_keep_cached (parsed_bounds_cached row parse_type)
        λ b. excluded_cached (λ bound. cmp cmpproc collation bound k) strategy b.0 b.1

  pub in_range_cached : ℕ → ℕ → ℕ → ℕ → ℕ → Memo Bool
  unfolding cmp_cached
  in_range_cached cmpproc collation min_d max_d d = do
    s ← cmp cmpproc collation min_d d
    when_else (is_gt s) (pure false) (do t ← cmp cmpproc collation max_d d; pure (not (is_lt t)))

  pub any_in_range_cached : ℕ → ℕ → ℕ → ℕ → List ℕ → Memo Bool
  unfolding in_range_cached
  any_in_range_cached cmpproc collation min_d max_d [] = pure false
  any_in_range_cached cmpproc collation min_d max_d (d ∷ ds) =
      let rest = any_in_range_cached cmpproc collation min_d max_d ds in
      do found ← in_range_cached cmpproc collation min_d max_d d; when_else found (pure true) rest

  pub eval_in_list_cached : ColSummary → ℕ → ℕ → ℕ → List ℕ → Memo Bool
  unfolding parsed_bounds_cached any_in_range_cached
  eval_in_list_cached row parse_type cmpproc collation elems =
      or_keep_cached (parsed_bounds_cached row parse_type)
        λ b. do found ← any_in_range_cached cmpproc collation b.0 b.1 elems; pure (not found)

  -- `FunctionCall2Coll` with the operands in the clause's order.
  pub overlap_call_cached : ℕ → ℕ → Bool → ℕ → ℕ → Memo ℕ
  unfolding fmgr_cached
  overlap_call_cached opfunc collation commuted ext k = do
    finfo ← fmgr_cached sv input opfunc
    lift (
        or_raise (
          if commuted
          then sv.function_call2 finfo collation k ext
          else sv.function_call2 finfo collation ext k))

  pub eval_extent_cached : ℕ → ℕ → ℕ → ℕ → Bool → Option Bytes → Memo Bool
  unfolding parse_cached overlap_call_cached
  eval_extent_cached parse_type opfunc collation k commuted none = pure false
  eval_extent_cached parse_type opfunc collation k commuted (some extent) =
      or_keep_cached (parse parse_type extent) λ ext. do
        overlaps ← overlap_call_cached opfunc collation commuted ext k
        pure (overlaps % 256 == 0)

  pub eval_overlap_cached : ColSummary → ℕ → ℕ → ℕ → ℕ → Bool → Memo Bool
  unfolding eval_extent_cached
  eval_overlap_cached row parse_type opfunc collation k commuted =
      eval_extent_cached parse_type opfunc collation k commuted (extent_of row.unbounded row.min)

  pub proves_prune_cached : QualSpec → ColSummary → Memo Bool
  unfolding eval_compare_cached eval_in_list_cached eval_overlap_cached
  proves_prune_cached (null a is_null) row =
      pure (if is_null then not row.has_nulls else row.all_nulls)
  proves_prune_cached (compare a strategy parse_type cmpproc collation konst) row =
      when_else (not row.overlap && row.collation == collation)
        (eval_compare_cached row strategy parse_type cmpproc collation konst) (pure false)
  proves_prune_cached (in_list a parse_type cmpproc collation elems) row =
      when_else (not row.overlap && row.collation == collation)
        (eval_in_list_cached row parse_type cmpproc collation elems) (pure false)
  proves_prune_cached (overlap a parse_type opfunc collation konst commuted) row =
      when_else row.overlap (eval_overlap_cached row parse_type opfunc collation konst commuted)
        (pure false)

  abbrev pub looked_up : {A : Type 0} → A × PlanState → Answer A
  looked_up (a, st) = (known a, st)

  abbrev pub op_of : ℕ → Bool → Memo (Option CompareOp)
  op_of opno commuted st = looked_up (compare_op_cached sv input opno commuted st)

  pub opexpr_qual_cached : ℕ → ℕ → ℕ → ℕ → Option ℕ → Bool → Memo QualSpec
  unfolding compare_op_cached
  opexpr_qual_cached opno inputcollid attnum vartype none commuted = lift unknown
  opexpr_qual_cached opno inputcollid attnum vartype (some k) commuted =
      when_else (is_system sv attnum) (lift unknown) (do
        op ← op_of opno commuted
        lift (try_option (comparison_qual sv op opno inputcollid attnum vartype k commuted)))

  pub opexpr_sides_cached : ℕ → ℕ → Node → Node → Memo QualSpec
  unfolding opexpr_qual_cached
  opexpr_sides_cached opno inputcollid (var attnum vartype) (const t value) =
      opexpr_qual_cached opno inputcollid attnum vartype value false
  opexpr_sides_cached opno inputcollid (const t value) (var attnum vartype) =
      opexpr_qual_cached opno inputcollid attnum vartype value true
  opexpr_sides_cached opno inputcollid _ _ = lift unknown

  pub extract_opexpr_cached : ℕ → ℕ → Nodes → Memo QualSpec
  unfolding opexpr_sides_cached strip_relabel
  extract_opexpr_cached opno inputcollid (cons left (cons right nil)) =
      opexpr_sides_cached opno inputcollid (strip_relabel sv left) (strip_relabel sv right)
  extract_opexpr_cached opno inputcollid _ = lift unknown

  pub saop_sides_cached : ℕ → ℕ → Node → Node → Memo QualSpec
  unfolding compare_op_cached
  saop_sides_cached opno inputcollid (var attnum vartype) (const consttype (some value)) =
      when_else (is_system sv attnum) (lift unknown) (do
        op ← op_of opno false
        lift (in_list_qual sv op inputcollid attnum vartype consttype value))
  saop_sides_cached opno inputcollid _ _ = lift unknown

  pub extract_saop_cached : ℕ → ℕ → Bool → Nodes → Memo QualSpec
  unfolding saop_sides_cached strip_relabel
  extract_saop_cached opno inputcollid true (cons left (cons right nil)) =
      saop_sides_cached opno inputcollid (strip_relabel sv left) (strip_relabel sv right)
  extract_saop_cached opno inputcollid _ _ = lift unknown

  pub extract_qual_cached : Node → Memo QualSpec
  unfolding extract_opexpr_cached extract_saop_cached
  extract_qual_cached (op_expr opno inputcollid args) = extract_opexpr_cached opno inputcollid args
  extract_qual_cached (null_test t arg) = lift (try_option (extract_nulltest sv t arg))
  extract_qual_cached (array_op opno inputcollid use_or args) =
      extract_saop_cached opno inputcollid use_or args
  extract_qual_cached _ = lift unknown

  pub row_proves_cached : QualSpec → Option ColSummary → Memo Bool
  unfolding proves_prune_cached
  row_proves_cached spec none = pure false
  row_proves_cached spec (some row) = proves_prune_cached spec row

  pub leaf_proves_cached : Memo QualSpec → List ColSummary → Memo Bool
  unfolding row_proves_cached
  leaf_proves_cached m rows =
      or_keep_cached m λ spec. row_proves_cached spec (find_col (attnum_of spec) rows)

  abbrev pub or_else_cached : Memo Bool → Memo Bool → Memo Bool
  or_else_cached a b = a >>= λ x. when_else x (pure true) b

  abbrev pub and_then_cached : Memo Bool → Memo Bool → Memo Bool
  and_then_cached a b = a >>= λ x. when_else x b (pure false)

  mutual
    unfolding extract_qual_cached leaf_proves_cached

    pub clause_cached : Node → List ColSummary → ℕ → Memo Bool
    clause_cached null_node rows depth = pure false
    clause_cached (bool_expr and_expr args) rows depth =
        let any = any_cached args rows (depth + 1) in when_else (ltb 32 depth) (pure false) any
    clause_cached (bool_expr or_expr args) rows depth =
        let all = all_cached args rows (depth + 1) in
        when_else (ltb 32 depth) (pure false) (when_else (is_nil args) (pure false) all)
    clause_cached (bool_expr not_expr args) rows depth = pure false
    clause_cached node rows depth =
        when_else (ltb 32 depth) (pure false) (leaf_proves_cached (extract_qual_cached node) rows)

    pub any_cached : Nodes → List ColSummary → ℕ → Memo Bool
    any_cached nil rows depth = pure false
    any_cached (cons n ns) rows depth =
        let rest = any_cached ns rows depth in or_else_cached (clause_cached n rows depth) rest

    pub all_cached : Nodes → List ColSummary → ℕ → Memo Bool
    all_cached nil rows depth = pure true
    all_cached (cons n ns) rows depth =
        let rest = all_cached ns rows depth in and_then_cached (clause_cached n rows depth) rest

  pub any_clause_cached : List Node → List ColSummary → Memo Bool
  unfolding clause_cached
  any_clause_cached [] rows = pure false
  any_clause_cached (clause ∷ clauses) rows =
      let rest = any_clause_cached clauses rows in
      clause_cached clause rows 0 >>= λ found. when_else found (pure true) rest

  -- The rows are the relation's entry of the plan's table; none, or an empty one, never prunes.
  pub rows_cached : List Node → Option (List ColSummary) → Memo Bool
  unfolding any_clause_cached
  rows_cached clauses none = pure false
  rows_cached clauses (some []) = pure false
  rows_cached clauses (some (c ∷ cs)) = any_clause_cached clauses (c ∷ cs)
