-- ===== src/Prune/Planner/Evaluate/Clauses.antt =====
-- Clauses are read and judged through the tables of a plan as they are directly (src/prune_hook.rs:
-- `extract_qual`, `clause_proves_prune`, `evaluate_relation_inner`).
use pg_table_range.Base.{
  ℕ, ◌+◌, ◌≡◌, refl, sym, ap, subst, Bool, true, false, Option, none, some, List, [], ◌∷◌, ltb,
  if◌then◌else◌, or_raise, try_option, Attempt, known, unknown, raised, Result, ◌>>=◌ as bind,
}
use pg_table_range.Bytes.{Bytes}
use pg_table_range.Summary.{ColSummary, find_col}
use pg_table_range.Server.{Server}
use pg_table_range.Prune.{QualSpec, attnum_of, or_keep}
use pg_table_range.Prune.Clause.{
  Node, Nodes, null_node, bool_expr, op_expr, null_test, array_op, relabel, var, const, other_node,
  nil, cons, and_expr, or_expr, not_expr, is_nil, is_system, compare_op, comparison_qual,
  strip_relabel, in_list_qual, opexpr_qual, opexpr_sides, extract_opexpr, saop_sides, extract_saop,
  extract_qual, row_proves, leaf_proves, clause_proves_prune, any_proves, all_prove,
}
use pg_table_range.Prune.Relation.{any_clause, evaluate_relation_inner}
use pg_table_range.Prune.Planner.Memo.{compare_op_cached-Answers}
use pg_table_range.Prune.Planner.Evaluate.{
  pure, when_else, op_of, opexpr_qual_cached, opexpr_sides_cached, extract_opexpr_cached,
  saop_sides_cached, extract_saop_cached, extract_qual_cached, row_proves_cached,
  leaf_proves_cached, clause_cached, any_cached, all_cached, any_clause_cached, rows_cached,
  rows_or_empty,
}
use pg_table_range.Prune.Planner.Evaluate.Answered.{
  Refines, Refines-lift, Refines-bind, Refines-or_keep, Refines-when,
}
use pg_table_range.Prune.Planner.Evaluate.Direct.{proves_prune-Refines}

module _ (sv : Server) (input : ℕ → Bytes → ℕ → Result ℕ) where
  op_of-Refines :
      (opno : ℕ) (commuted : Bool)
      → Refines sv input (op_of sv input opno commuted) (known (compare_op sv opno commuted))
  op_of-Refines opno commuted = record {
    at = λ st f.
        let a = compare_op_cached-Answers sv input opno commuted st f in
        record { same = ap known a.same; faithful = a.faithful; depth = a.depth };
  }

  try_option-if :
      {A : Type 0} (b : Bool) (o : Option A)
      → try_option (if b then none else o) ≡ (if b then unknown else try_option o)
  try_option-if true o = refl
  try_option-if false o = refl

  opexpr_qual-Refines :
      (opno l attnum t : ℕ) (value : Option ℕ) (commuted : Bool)
      → Refines sv input
          (opexpr_qual_cached sv input opno l attnum t value commuted)
          (try_option (opexpr_qual sv opno l attnum t value commuted))
  unfolding opexpr_qual_cached opexpr_qual
  opexpr_qual-Refines opno l attnum t none commuted = Refines-lift sv input unknown
  opexpr_qual-Refines opno l attnum t (some k) commuted =
      subst (Refines sv input (opexpr_qual_cached sv input opno l attnum t (some k) commuted))
        (sym (try_option-if (is_system sv attnum) _))
        (Refines-when sv input (is_system sv attnum) _ _ _ _ (Refines-lift sv input unknown) (
          Refines-bind sv input _ _ _
            (λ op. try_option (comparison_qual sv op opno l attnum t k commuted))
            (op_of-Refines opno commuted)
            λ op.
              Refines-lift sv input
                (try_option (comparison_qual sv op opno l attnum t k commuted))))

  -- Operands that are not a column and a constant give nothing.
  opexpr_sides-Refines :
      (opno l : ℕ) (left right : Node)
      → Refines sv input
          (opexpr_sides_cached sv input opno l left right)
          (try_option (opexpr_sides sv opno l left right))
  unfolding opexpr_sides_cached opexpr_sides
  opexpr_sides-Refines opno l (var a t) (const u v) = opexpr_qual-Refines opno l a t v false
  opexpr_sides-Refines opno l (const u v) (var a t) = opexpr_qual-Refines opno l a t v true
  opexpr_sides-Refines opno l (var a t) null_node = Refines-lift sv input unknown
  opexpr_sides-Refines opno l (var a t) (bool_expr b ns) = Refines-lift sv input unknown
  opexpr_sides-Refines opno l (var a t) (op_expr o c ns) = Refines-lift sv input unknown
  opexpr_sides-Refines opno l (var a t) (null_test k n) = Refines-lift sv input unknown
  opexpr_sides-Refines opno l (var a t) (array_op o c u ns) = Refines-lift sv input unknown
  opexpr_sides-Refines opno l (var a t) (relabel n) = Refines-lift sv input unknown
  opexpr_sides-Refines opno l (var a t) (var b u) = Refines-lift sv input unknown
  opexpr_sides-Refines opno l (var a t) other_node = Refines-lift sv input unknown
  opexpr_sides-Refines opno l (const u v) null_node = Refines-lift sv input unknown
  opexpr_sides-Refines opno l (const u v) (bool_expr b ns) = Refines-lift sv input unknown
  opexpr_sides-Refines opno l (const u v) (op_expr o c ns) = Refines-lift sv input unknown
  opexpr_sides-Refines opno l (const u v) (null_test k n) = Refines-lift sv input unknown
  opexpr_sides-Refines opno l (const u v) (array_op o c w ns) = Refines-lift sv input unknown
  opexpr_sides-Refines opno l (const u v) (relabel n) = Refines-lift sv input unknown
  opexpr_sides-Refines opno l (const u v) (const w x) = Refines-lift sv input unknown
  opexpr_sides-Refines opno l (const u v) other_node = Refines-lift sv input unknown
  opexpr_sides-Refines opno l null_node right = Refines-lift sv input unknown
  opexpr_sides-Refines opno l (bool_expr b ns) right = Refines-lift sv input unknown
  opexpr_sides-Refines opno l (op_expr o c ns) right = Refines-lift sv input unknown
  opexpr_sides-Refines opno l (null_test k n) right = Refines-lift sv input unknown
  opexpr_sides-Refines opno l (array_op o c u ns) right = Refines-lift sv input unknown
  opexpr_sides-Refines opno l (relabel n) right = Refines-lift sv input unknown
  opexpr_sides-Refines opno l other_node right = Refines-lift sv input unknown

  extract_opexpr-Refines :
      (opno l : ℕ) (args : Nodes)
      → Refines sv input
          (extract_opexpr_cached sv input opno l args)
          (try_option (extract_opexpr sv opno l args))
  unfolding extract_opexpr_cached extract_opexpr
  extract_opexpr-Refines opno l (cons left (cons right nil)) =
      opexpr_sides-Refines opno l (strip_relabel sv left) (strip_relabel sv right)
  extract_opexpr-Refines opno l nil = Refines-lift sv input unknown
  extract_opexpr-Refines opno l (cons left nil) = Refines-lift sv input unknown
  extract_opexpr-Refines opno l (cons left (cons right (cons n ns))) = Refines-lift sv input unknown

  saop_sides-Refines :
      (opno l : ℕ) (left right : Node)
      → Refines sv input
          (saop_sides_cached sv input opno l left right)
          (saop_sides sv opno l left right)
  unfolding saop_sides_cached saop_sides
  saop_sides-Refines opno l (var a t) (const u (some v)) =
      Refines-when sv input (is_system sv a) _ _ _ _ (Refines-lift sv input unknown) (
        Refines-bind sv input _ _ _ (λ op. in_list_qual sv op l a t u v) (op_of-Refines opno false)
          λ op. Refines-lift sv input (in_list_qual sv op l a t u v))
  saop_sides-Refines opno l (var a t) (const u none) = Refines-lift sv input unknown
  saop_sides-Refines opno l (var a t) null_node = Refines-lift sv input unknown
  saop_sides-Refines opno l (var a t) (bool_expr b ns) = Refines-lift sv input unknown
  saop_sides-Refines opno l (var a t) (op_expr o c ns) = Refines-lift sv input unknown
  saop_sides-Refines opno l (var a t) (null_test k n) = Refines-lift sv input unknown
  saop_sides-Refines opno l (var a t) (array_op o c u ns) = Refines-lift sv input unknown
  saop_sides-Refines opno l (var a t) (relabel n) = Refines-lift sv input unknown
  saop_sides-Refines opno l (var a t) (var b u) = Refines-lift sv input unknown
  saop_sides-Refines opno l (var a t) other_node = Refines-lift sv input unknown
  saop_sides-Refines opno l null_node right = Refines-lift sv input unknown
  saop_sides-Refines opno l (bool_expr b ns) right = Refines-lift sv input unknown
  saop_sides-Refines opno l (op_expr o c ns) right = Refines-lift sv input unknown
  saop_sides-Refines opno l (null_test k n) right = Refines-lift sv input unknown
  saop_sides-Refines opno l (array_op o c u ns) right = Refines-lift sv input unknown
  saop_sides-Refines opno l (relabel n) right = Refines-lift sv input unknown
  saop_sides-Refines opno l (const u v) right = Refines-lift sv input unknown
  saop_sides-Refines opno l other_node right = Refines-lift sv input unknown

  extract_saop-Refines :
      (opno l : ℕ) (use_or : Bool) (args : Nodes)
      → Refines sv input
          (extract_saop_cached sv input opno l use_or args)
          (extract_saop sv opno l use_or args)
  unfolding extract_saop_cached extract_saop
  extract_saop-Refines opno l true (cons left (cons right nil)) =
      saop_sides-Refines opno l (strip_relabel sv left) (strip_relabel sv right)
  extract_saop-Refines opno l false args = Refines-lift sv input unknown
  extract_saop-Refines opno l true nil = Refines-lift sv input unknown
  extract_saop-Refines opno l true (cons left nil) = Refines-lift sv input unknown
  extract_saop-Refines opno l true (cons left (cons right (cons n ns))) =
      Refines-lift sv input unknown

  extract_qual-Refines :
      (node : Node) → Refines sv input (extract_qual_cached sv input node) (extract_qual sv node)
  unfolding extract_qual_cached extract_qual
  extract_qual-Refines (op_expr opno l args) = extract_opexpr-Refines opno l args
  extract_qual-Refines (null_test t arg) = Refines-lift sv input _
  extract_qual-Refines (array_op opno l use_or args) = extract_saop-Refines opno l use_or args
  extract_qual-Refines null_node = Refines-lift sv input unknown
  extract_qual-Refines (bool_expr b ns) = Refines-lift sv input unknown
  extract_qual-Refines (relabel n) = Refines-lift sv input unknown
  extract_qual-Refines (var a t) = Refines-lift sv input unknown
  extract_qual-Refines (const u v) = Refines-lift sv input unknown
  extract_qual-Refines other_node = Refines-lift sv input unknown

  module _
      (oid_input : (infunc ioparam : ℕ) (text : Bytes)
        → or_raise (sv.call_input infunc text ioparam)
          ≡ bind (or_raise (sv.fmgr_info infunc)) (λ finfo. or_raise (input finfo text ioparam)))
      (rows : List ColSummary) where
    row_proves-Refines :
        (spec : QualSpec) (o : Option ColSummary)
        → Refines sv input (row_proves_cached sv input spec o) (row_proves sv spec o)
    unfolding row_proves_cached row_proves
    row_proves-Refines spec none = Refines-lift sv input (known false)
    row_proves-Refines spec (some row) = proves_prune-Refines sv input oid_input spec row

    leaf_or_keep :
        (x : Attempt QualSpec)
        → or_keep x (λ spec. row_proves sv spec (find_col (attnum_of spec) rows))
          ≡ leaf_proves sv x rows
    unfolding leaf_proves
    leaf_or_keep (known spec) = refl
    leaf_or_keep unknown = refl
    leaf_or_keep (raised e) = refl

    -- The test of the depth, and one column's clause below it.
    leaf-Refines :
        (node : Node) (depth : ℕ)
        → Refines sv input
            (when_else
              (ltb 32 depth)
              (pure false)
              (leaf_proves_cached sv input (extract_qual_cached sv input node) rows))
            (if ltb 32 depth then known false else leaf_proves sv (extract_qual sv node) rows)
    unfolding leaf_proves_cached
    leaf-Refines node depth =
        Refines-when sv input (ltb 32 depth) _ _ _ _ (Refines-lift sv input (known false)) (
          subst
            (Refines sv input
              (leaf_proves_cached sv input (extract_qual_cached sv input node) rows))
            (leaf_or_keep (extract_qual sv node))
            (Refines-or_keep sv input _ _ _ _ (extract_qual-Refines node)
              λ spec. row_proves-Refines spec (find_col (attnum_of spec) rows)))

    mutual
      unfolding clause_cached any_cached all_cached clause_proves_prune any_proves all_prove

      clause-Refines :
          (node : Node) (depth : ℕ)
          → Refines sv input
              (clause_cached sv input node rows depth)
              (clause_proves_prune sv node rows depth)
      clause-Refines null_node depth = Refines-lift sv input (known false)
      clause-Refines (bool_expr and_expr args) depth =
          Refines-when sv input (ltb 32 depth) _ _ _ _ (Refines-lift sv input (known false))
            (any-Refines args (depth + 1))
      clause-Refines (bool_expr or_expr args) depth =
          Refines-when sv input (ltb 32 depth) _ _ _ _ (Refines-lift sv input (known false)) (
            Refines-when sv input (is_nil args) _ _ _ _ (Refines-lift sv input (known false))
              (all-Refines args (depth + 1)))
      clause-Refines (bool_expr not_expr args) depth = Refines-lift sv input (known false)
      clause-Refines (op_expr o c ns) depth = leaf-Refines (op_expr o c ns) depth
      clause-Refines (null_test k n) depth = leaf-Refines (null_test k n) depth
      clause-Refines (array_op o c u ns) depth = leaf-Refines (array_op o c u ns) depth
      clause-Refines (relabel n) depth = leaf-Refines (relabel n) depth
      clause-Refines (var a t) depth = leaf-Refines (var a t) depth
      clause-Refines (const u v) depth = leaf-Refines (const u v) depth
      clause-Refines other_node depth = leaf-Refines other_node depth

      any-Refines :
          (ns : Nodes) (depth : ℕ)
          → Refines sv input (any_cached sv input ns rows depth) (any_proves sv ns rows depth)
      any-Refines nil depth = Refines-lift sv input (known false)
      any-Refines (cons n ns) depth = Refines-bind sv input _ _ _ _ (clause-Refines n depth) λ x.
          Refines-when sv input x _ _ _ _ (Refines-lift sv input (known true))
            (any-Refines ns depth)

      all-Refines :
          (ns : Nodes) (depth : ℕ)
          → Refines sv input (all_cached sv input ns rows depth) (all_prove sv ns rows depth)
      all-Refines nil depth = Refines-lift sv input (known true)
      all-Refines (cons n ns) depth = Refines-bind sv input _ _ _ _ (clause-Refines n depth) λ x.
          Refines-when sv input x _ _ _ _ (all-Refines ns depth)
            (Refines-lift sv input (known false))

    pub any_clause-Refines :
        (clauses : List Node)
        → Refines sv input (any_clause_cached sv input clauses rows) (any_clause sv clauses rows)
    unfolding any_clause_cached any_clause
    any_clause-Refines [] = Refines-lift sv input (known false)
    any_clause-Refines (n ∷ ns) = Refines-bind sv input _ _ _ _ (clause-Refines n 0) λ found.
        Refines-when sv input found _ _ _ _ (Refines-lift sv input (known true))
          (any_clause-Refines ns)

  -- A relation without columns proves nothing.
  pub rows_cached-Refines :
      ((infunc ioparam : ℕ) (text : Bytes)
        → or_raise (sv.call_input infunc text ioparam)
          ≡ bind (or_raise (sv.fmgr_info infunc)) (λ finfo. or_raise (input finfo text ioparam)))
      → (clauses : List Node) (rows : Option (List ColSummary))
      → Refines sv input
          (rows_cached sv input clauses rows)
          (evaluate_relation_inner sv clauses (rows_or_empty rows))
  unfolding rows_cached evaluate_relation_inner
  rows_cached-Refines oid clauses none = Refines-lift sv input (known false)
  rows_cached-Refines oid clauses (some []) = Refines-lift sv input (known false)
  rows_cached-Refines oid clauses (some (c ∷ cs)) = any_clause-Refines oid (c ∷ cs) clauses
