-- ===== src/Prune/Clause.antt =====
-- Clause trees and what is read from them (src/prune_hook.rs: `compare_op`, `summary_parse_type`,
-- `clause_proves_prune`, the clause extraction and its helpers).
pub mod Tree
pub mod Commute
pub mod Truth
pub mod Extracted
pub mod Leaves
use pg_table_range.Base.{
  ℕ, ◌+◌, Bool, true, false, not, ◌&&◌, ◌||◌, Option, none, some, List, [], ◌∷◌, ltb, leb, ◌==◌,
  if◌then◌else◌, bytes_eq, or_raise, try_option, Attempt, known, unknown, raised, ◌>>=◌,
}
use pg_table_range.Bytes.{Bytes, is_utf8}
use pg_table_range.Summary.{ColSummary, find_col}
use pg_table_range.Server.{Server, invalid_oid, btorder_proc, default_btree_family, ascii}
use pg_table_range.Prune.{QualSpec, compare, null, in_list, overlap, attnum_of, proves_prune}

pub data BoolOp : Type 0 where
  and_expr or_expr not_expr : BoolOp

pub data NullTestType : Type 0 where
  is_null is_not_null other_test : NullTestType

-- The parse nodes that the code looks into; a null pointer is a node of its own.
mutual
  pub data Node : Type 0 where
    null_node : Node
    bool_expr : BoolOp → Nodes → Node
    op_expr : (opno inputcollid : ℕ) → Nodes → Node
    null_test : NullTestType → Node → Node
    array_op : (opno inputcollid : ℕ) (use_or : Bool) → Nodes → Node
    relabel : Node → Node
    var : (varattno vartype : ℕ) → Node
    -- `none` is a NULL constant.
    const : (consttype : ℕ) (value : Option ℕ) → Node
    other_node : Node

  pub data Nodes : Type 0 where
    nil : Nodes
    cons : Node → Nodes → Nodes

abbrev pub is_nil : Nodes → Bool
is_nil nil = true
is_nil (cons n ns) = false

-- A `CompareOp`: the strategy with the column on the left, the operator's input type on the
-- column's side, and the support function for (column side, constant side).
pub record CompareOp : Type 0 where
  pub strategy : ℕ
  pub var_type : ℕ
  pub cmpproc : ℕ

pub commute_strategy : ℕ → ℕ
commute_strategy s =
    if s == 1
    then 5
    else if s == 2
    then 4
    else if s == 3
    then 3
    else if s == 4
    then 2
    else if s == 5
    then 1
    else s

module _ (sv : Server) where
  pub compare_in_family : ℕ → Bool → ℕ → ℕ → ℕ → Option CompareOp
  unfolding commute_strategy
  compare_in_family opno commuted var_type const_type opfamily =
      let strategy = sv.get_op_opfamily_strategy opno opfamily in
      let cmpproc = sv.get_opfamily_proc opfamily var_type const_type btorder_proc in
      if (leb 1 strategy && leb strategy 5) && not (cmpproc == invalid_oid)
      then some (record {
        strategy = if commuted then commute_strategy strategy else strategy;
        var_type = var_type;
        cmpproc = cmpproc;
      })
      else none

  pub compare_in : ℕ → Bool → ℕ → ℕ → Option ℕ → Option CompareOp
  unfolding compare_in_family
  compare_in opno commuted var_type const_type none = none
  compare_in opno commuted var_type const_type (some opfamily) =
      compare_in_family opno commuted var_type const_type opfamily

  unfoldable pub compare_op : ℕ → Bool → Option CompareOp
  unfolding compare_in
  compare_op opno commuted =
      let (left, right) = sv.op_input_types opno in
      let var_type = if commuted then right else left in
      let const_type = if commuted then left else right in
      compare_in opno commuted var_type const_type (default_btree_family sv var_type)

  -- `b'p'`: a pseudo-type.
  pub summary_parse_type : ℕ → ℕ → ℕ
  summary_parse_type op_var_type vartype =
      if sv.get_typtype op_var_type == b'p' then sv.get_base_type vartype else op_var_type

  unfoldable pub name_of : Option Bytes → Option Bytes
  name_of none = none
  name_of (some s) = if is_utf8 s then some s else none

  unfoldable pub operator_name : ℕ → Option Bytes
  unfolding name_of
  operator_name opno = name_of (sv.get_opname opno)

  abbrev is_overlap_name : Option Bytes → Bool
  is_overlap_name none = false
  is_overlap_name (some s) = bytes_eq s (ascii "&&")

  abbrev is_namespace : Option ℕ → ℕ → Bool
  is_namespace none ns = false
  is_namespace (some n) ns = n == ns

  -- `PG_CATALOG_NAMESPACE` is the fixed Oid 11.
  unfoldable pub is_trusted_overlap_op : ℕ → ℕ → Bool
  unfolding operator_name
  is_trusted_overlap_op opno vartype =
      let ns = sv.get_func_namespace (sv.get_opcode opno) in
      is_overlap_name (operator_name opno)
      && (ns == 11 || is_namespace (sv.type_namespace (sv.get_base_type vartype)) ns)

  unfoldable pub strip_relabel : Node → Node
  strip_relabel (relabel n) = strip_relabel n
  strip_relabel n = n

  -- `attnum <= 0`, of the bit pattern of an `i16`.
  abbrev pub is_system : ℕ → Bool
  is_system attnum = attnum == 0 || leb 32768 attnum

  pub comparison_qual : Option CompareOp → ℕ → ℕ → ℕ → ℕ → ℕ → Bool → Option QualSpec
  unfolding summary_parse_type is_trusted_overlap_op
  comparison_qual (some op) opno inputcollid attnum vartype k commuted =
      some (
        compare attnum op.strategy (summary_parse_type op.var_type vartype) op.cmpproc inputcollid
          k)
  comparison_qual none opno inputcollid attnum vartype k commuted =
      if is_trusted_overlap_op opno vartype
      then some
          (overlap attnum (sv.get_base_type vartype) (sv.get_opcode opno) inputcollid k commuted)
      else none

  unfoldable pub opexpr_qual : ℕ → ℕ → ℕ → ℕ → Option ℕ → Bool → Option QualSpec
  unfolding comparison_qual
  opexpr_qual opno inputcollid attnum vartype none commuted = none
  opexpr_qual opno inputcollid attnum vartype (some k) commuted =
      if is_system attnum
      then none
      else comparison_qual (compare_op opno commuted) opno inputcollid attnum vartype k commuted

  unfoldable pub opexpr_sides : ℕ → ℕ → Node → Node → Option QualSpec
  unfolding opexpr_qual
  opexpr_sides opno inputcollid (var attnum vartype) (const t value) =
      opexpr_qual opno inputcollid attnum vartype value false
  opexpr_sides opno inputcollid (const t value) (var attnum vartype) =
      opexpr_qual opno inputcollid attnum vartype value true
  opexpr_sides opno inputcollid _ _ = none

  unfoldable pub extract_opexpr : ℕ → ℕ → Nodes → Option QualSpec
  unfolding opexpr_sides strip_relabel
  extract_opexpr opno inputcollid (cons left (cons right nil)) =
      opexpr_sides opno inputcollid (strip_relabel left) (strip_relabel right)
  extract_opexpr opno inputcollid _ = none

  pub nulltest_qual : NullTestType → Node → Option QualSpec
  nulltest_qual is_null (var attnum vartype) =
      if is_system attnum then none else some (null attnum true)
  nulltest_qual is_not_null (var attnum vartype) =
      if is_system attnum then none else some (null attnum false)
  nulltest_qual _ _ = none

  pub extract_nulltest : NullTestType → Node → Option QualSpec
  unfolding nulltest_qual strip_relabel
  extract_nulltest t arg = nulltest_qual t (strip_relabel arg)

  -- NULL elements are dropped.
  pub non_null : List (Option ℕ) → List ℕ
  non_null [] = []
  non_null (none ∷ es) = non_null es
  non_null (some d ∷ es) = d ∷ non_null es

  pub array_const_datums : ℕ → ℕ → Attempt (List ℕ)
  unfolding non_null
  array_const_datums consttype value =
      let elem_type = sv.get_element_type consttype in
      if elem_type == invalid_oid
      then unknown
      else do elems ← or_raise (sv.deconstruct_array elem_type value); known (non_null elems)

  pub in_list_qual : Option CompareOp → ℕ → ℕ → ℕ → ℕ → ℕ → Attempt QualSpec
  unfolding array_const_datums summary_parse_type
  in_list_qual none inputcollid attnum vartype consttype value = unknown
  in_list_qual (some op) inputcollid attnum vartype consttype value =
      if op.strategy == 3
      then (do
        elems ← array_const_datums consttype value
        known
            (in_list attnum (summary_parse_type op.var_type vartype) op.cmpproc inputcollid elems))
      else unknown

  unfoldable pub saop_sides : ℕ → ℕ → Node → Node → Attempt QualSpec
  unfolding in_list_qual
  saop_sides opno inputcollid (var attnum vartype) (const consttype (some value)) =
      if is_system attnum
      then unknown
      else in_list_qual (compare_op opno false) inputcollid attnum vartype consttype value
  saop_sides opno inputcollid _ _ = unknown

  unfoldable pub extract_saop : ℕ → ℕ → Bool → Nodes → Attempt QualSpec
  unfolding saop_sides strip_relabel
  extract_saop opno inputcollid true (cons left (cons right nil)) =
      saop_sides opno inputcollid (strip_relabel left) (strip_relabel right)
  extract_saop opno inputcollid _ _ = unknown

  -- `unknown` is `None`; reading an array may raise an ERROR.
  unfoldable pub extract_qual : Node → Attempt QualSpec
  unfolding extract_opexpr extract_nulltest extract_saop
  extract_qual (op_expr opno inputcollid args) = try_option (extract_opexpr opno inputcollid args)
  extract_qual (null_test t arg) = try_option (extract_nulltest t arg)
  extract_qual (array_op opno inputcollid use_or args) = extract_saop opno inputcollid use_or args
  extract_qual _ = unknown

  unfoldable pub row_proves : QualSpec → Option ColSummary → Attempt Bool
  row_proves spec none = known false
  row_proves spec (some row) = proves_prune sv spec row

  unfoldable pub leaf_proves : Attempt QualSpec → List ColSummary → Attempt Bool
  unfolding row_proves
  leaf_proves (known spec) rows = row_proves spec (find_col (attnum_of spec) rows)
  leaf_proves unknown rows = known false
  leaf_proves (raised e) rows = raised e

  -- `any` and `all` stop at the first child that decides.
  abbrev or_else : Attempt Bool → Attempt Bool → Attempt Bool
  or_else a b = a >>= λ x. if x then known true else b

  abbrev and_then : Attempt Bool → Attempt Bool → Attempt Bool
  and_then a b = a >>= λ x. if x then b else known false

  -- Recursion on the tree; `depth` counts up as in the source and stops the descent past 32.
  unfoldable mutual
    unfolding extract_qual leaf_proves

    pub clause_proves_prune : Node → List ColSummary → ℕ → Attempt Bool
    clause_proves_prune null_node rows depth = known false
    clause_proves_prune (bool_expr and_expr args) rows depth =
        let any = any_proves args rows (depth + 1) in if ltb 32 depth then known false else any
    clause_proves_prune (bool_expr or_expr args) rows depth =
        let all = all_prove args rows (depth + 1) in
        if ltb 32 depth then known false else if is_nil args then known false else all
    clause_proves_prune (bool_expr not_expr args) rows depth = known false
    clause_proves_prune node rows depth =
        if ltb 32 depth then known false else leaf_proves (extract_qual node) rows

    pub any_proves : Nodes → List ColSummary → ℕ → Attempt Bool
    any_proves nil rows depth = known false
    any_proves (cons n ns) rows depth =
        let rest = any_proves ns rows depth in or_else (clause_proves_prune n rows depth) rest

    pub all_prove : Nodes → List ColSummary → ℕ → Attempt Bool
    all_prove nil rows depth = known true
    all_prove (cons n ns) rows depth =
        let rest = all_prove ns rows depth in and_then (clause_proves_prune n rows depth) rest
