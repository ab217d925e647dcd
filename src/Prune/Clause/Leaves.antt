-- ===== src/Prune/Clause/Leaves.antt =====
-- A clause on one column that proves the partition has no match is true of no row that the summary
-- covers (src/prune_hook.rs: `extract_qual` with `QualSpec::proves_prune`).
pub mod Operands
pub mod Judged
use pg_table_range.Base.{
  ℕ, zero, suc, ◌≡◌, ◌≢◌, ◌⊎◌, inl, inr, refl, sym, ap, subst, ◌∙◌, Bool, Bool-cases, true, false,
  not, ◌&&◌, Option, none, some, List, [], ◌∷◌, ◌==◌, ==_iff, if◌then◌else◌, Result, ok, err,
  or_raise, or_raise-known, try_option, try_option-known, Attempt, known, known-injective, subst₂,
  unknown, raised, Ensures, Ensures-known, Ensures-unknown, Ensures-bind, Ensures-if, arith,
}
use mathlib.Core.Option.{some-injective}
use pg_table_range.Summary.{ColSummary, find_col}
use pg_table_range.Server.{Server, invalid_oid, call_overlap}
use pg_table_range.Widen.Covers.{BtreeOrder, CoversValue}
use pg_table_range.Widen.Row.{Row, Table, CoversRow}
use pg_table_range.Prune.{QualSpec, compare, null, in_list, overlap, attnum_of, proves_prune}
use pg_table_range.Prune.Sound.{Satisfies}
use pg_table_range.Prune.Verdict.{IsListed, Matches, IsReadAs, proves_prune-Matches}
use pg_table_range.Prune.Clause.{
  Node, Nodes, null_node, bool_expr, op_expr, null_test, array_op, relabel, var, const, other_node,
  nil, cons, NullTestType, is_null, is_not_null, other_test, CompareOp, strip_relabel, is_system,
  summary_parse_type, is_trusted_overlap_op, comparison_qual, opexpr_qual, compare_op,
  extract_opexpr, nulltest_qual, extract_nulltest, non_null, array_const_datums, in_list_qual,
  extract_saop, extract_qual,
}
use pg_table_range.Prune.Clause.Commute.{Relates, commute_strategy-Relates}
use pg_table_range.Prune.Clause.Tree.{LeavesSound}
use pg_table_range.Prune.Clause.Truth.{
  OperatorTrue, Operators, Expressions, BothTrue, SomeTrue, AnyElement, ArrayTrue, LeafTrue,
  TypedSides, TypedLeaf,
}
use pg_table_range.Prune.Clause.Extracted.{
  NullRead, nulltest_qual-some, ReadSides, column_side, const_side, InFamily, compare_op-InFamily,
  opexpr_sides-some, saop_sides-known,
}
use pg_table_range.Prune.Clause.Leaves.Operands.{
  SideTrue, compare-Satisfies, compare-IsReadAs, value-strip_relabel, same_collation,
  same_collation_in, some-IsListed, none-SomeTrue,
}
use pg_table_range.Prune.Clause.Leaves.Judged.{
  Judges, opexpr_qual-Judges, in_list_qual-Judges, null-Judges,
}

module _ {sv : Server} (table : Table sv) (ops : (n : ℕ) → Operators (table.orders n)) where
  open table use {type_of, collation_of, orders}

  module _ {row : Row} (ex : Expressions row) (cols : List ColSummary)
      (collations : (n : ℕ) (c : ColSummary)
        → find_col n cols ≡ some c
        → c.collation ≡ collation_of n)
      (covers : CoversRow table cols row) where
    -- The operator is true of the column and the constant that stand on the sides.
    sides-Judges :
        (opno collation : ℕ) (l r l' r' : Node) (spec : QualSpec)
        → ex.value l ≡ ex.value l'
        → ex.value r ≡ ex.value r'
        → TypedSides table ops opno l' r'
        → (m : Bool) × ReadSides sv m l' r'
            (λ a t v. opexpr_qual sv opno collation a t v m ≡ some spec)
        → Judges table ops ex cols collations covers spec
            (BothTrue sv opno collation (ex.value l) (ex.value r))
    sides-Judges opno collation l r l' r' spec same same' typed (false, (a, t, u, v, el, er, q)) c
          at run h =
        let (of_type, takes) = subst₂ (TypedSides table ops opno) el er typed in
        opexpr_qual-Judges table ops ex cols collations covers a opno collation v false spec takes
          (subst (λ z. opexpr_qual sv opno collation a z v false ≡ some spec) of_type q) c at run
          (subst₂ (λ x y. BothTrue sv opno collation x y) (same ∙ ap ex.value el ∙ ex.value_var a t)
            (same' ∙ ap ex.value er ∙ ex.value_const u v) h)
    sides-Judges opno collation l r l' r' spec same same' typed (true, (a, t, u, v, el, er, q)) c at
          run h =
        let (of_type, takes) = subst₂ (TypedSides table ops opno) el er typed in
        opexpr_qual-Judges table ops ex cols collations covers a opno collation v true spec takes
          (subst (λ z. opexpr_qual sv opno collation a z v true ≡ some spec) of_type q) c at run
          (subst₂ (λ x y. BothTrue sv opno collation x y)
            (same ∙ ap ex.value el ∙ ex.value_const u v) (same' ∙ ap ex.value er ∙ ex.value_var a t)
            h)

    array-Judges :
        (opno collation : ℕ) (whole l l' r' : Node) (spec : QualSpec)
        → ex.value l ≡ ex.value l'
        → TypedSides table ops opno l' r'
        → (a t u v : ℕ) × (l' ≡ var a t)
          × (r' ≡ const u (some v))
          × (is_system sv a ≡ false)
          × (in_list_qual sv (compare_op sv opno false) collation a t u v ≡ known spec)
        → Judges table ops ex cols collations covers spec
            (ArrayTrue sv ex whole opno collation (ex.value l) r')
    array-Judges opno collation whole l l' r' spec same typed (a, t, u, v, el, er, user, q) c at run
          h =
        let (of_type, takes) = subst₂ (TypedSides table ops opno) el er typed in
        (in_list_qual-Judges table ops ex cols collations covers a opno collation u v
            (compare_op sv opno false) takes refl).at
          spec
          (subst (λ z. in_list_qual sv (compare_op sv opno false) collation a z u v ≡ known spec)
            of_type q)
          c at run
          (subst₂ (λ x y. ArrayTrue sv ex whole opno collation x y)
            (same ∙ ap ex.value el ∙ ex.value_var a t) er h)

    leaf-Judges :
        (node : Node) (spec : QualSpec)
        → extract_qual sv node ≡ known spec
        → TypedLeaf table ops node
        → Judges table ops ex cols collations covers spec (LeafTrue sv ex node)
    unfolding extract_qual extract_opexpr extract_nulltest extract_saop LeafTrue TypedLeaf
    leaf-Judges (op_expr opno collation (cons l (cons r nil))) spec e typed =
        sides-Judges opno collation l r (strip_relabel sv l) (strip_relabel sv r) spec
          (value-strip_relabel table ops ex l) (value-strip_relabel table ops ex r) typed
          (opexpr_sides-some sv opno collation (strip_relabel sv l) (strip_relabel sv r) spec
            (try_option-known _ spec e))
    leaf-Judges (op_expr opno collation nil) spec e typed = cc
    leaf-Judges (op_expr opno collation (cons l nil)) spec e typed = cc
    leaf-Judges (op_expr opno collation (cons l (cons r (cons x xs)))) spec e typed = cc
    leaf-Judges (null_test t arg) spec e typed =
        let (a, typ, en, read) =
          nulltest_qual-some sv t (strip_relabel sv arg) spec (try_option-known _ spec e) in
        null-Judges table ops ex cols collations covers t arg a typ spec
          (value-strip_relabel table ops ex arg ∙ ap ex.value en) read
    leaf-Judges (array_op opno collation true (cons l (cons r nil))) spec e typed =
        array-Judges opno collation (array_op opno collation true (cons l (cons r nil))) l
          (strip_relabel sv l) (strip_relabel sv r) spec (value-strip_relabel table ops ex l) typed
          (saop_sides-known sv opno collation (strip_relabel sv l) (strip_relabel sv r) spec e)
    leaf-Judges (array_op opno collation false args) spec e typed = cc
    leaf-Judges (array_op opno collation true nil) spec e typed = cc
    leaf-Judges (array_op opno collation true (cons l nil)) spec e typed = cc
    leaf-Judges (array_op opno collation true (cons l (cons r (cons x xs)))) spec e typed = cc
    leaf-Judges null_node spec e typed = cc
    leaf-Judges (bool_expr b ns) spec e typed = cc
    leaf-Judges (relabel n) spec e typed = cc
    leaf-Judges (var a t) spec e typed = cc
    leaf-Judges (const t v) spec e typed = cc
    leaf-Judges other_node spec e typed = cc

    -- A well-typed clause on one column that the code recognises, and that proves with the column's
    -- summary that the partition has no match, is not true of a row that the summary covers.
    pub extract_qual-LeavesSound :
        LeavesSound sv cols (λ node. TypedLeaf table ops node × LeafTrue sv ex node)
    extract_qual-LeavesSound node spec c e at run (typed, holds) =
        leaf-Judges node spec e typed c at run holds
