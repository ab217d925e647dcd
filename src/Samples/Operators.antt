-- ===== src/Samples/Operators.antt =====
-- The operators of the concrete server, and expressions, for the tests.
use pg_table_range.Base.{ℕ, zero, suc, ◌<◌, ◌≤◌, ◌≡◌, refl, true, Option, none, arith}
use pg_table_range.Server.{default_btree_family, oid_function_call2}
use pg_table_range.Widen.Row.{Row}
use pg_table_range.Samples.Ints.{ints, int_table, int_orders, int_order, call_ints}
use pg_table_range.Prune.Clause.{
  Node, var, const, relabel, is_trusted_overlap_op, operator_name, name_of,
}
use pg_table_range.Prune.Clause.Commute.{Relates}
use pg_table_range.Prune.Clause.Truth.{OperatorTrue, Operators, Expressions}

-- An operator that is true relates its operands as its strategy says.
pub operator_true :
    (opno x y : ℕ)
    → 0 < ints.get_op_opfamily_strategy opno 1
    → OperatorTrue ints opno 0 x y
    → Relates (ints.get_op_opfamily_strategy opno 1) (x ≤ y) (y ≤ x)
unfolding oid_function_call2 call_ints
operator_true zero x y h (z, run, t) = absurd (omega (arith, h))
operator_true (suc zero) x y h (z, run, t) = ground arith
operator_true (suc (suc zero)) x y h (z, run, t) = ground arith
operator_true (suc (suc (suc zero))) x y h (z, run, t) = ground arith
operator_true (suc (suc (suc (suc zero)))) x y h (z, run, t) = ground arith
operator_true (suc (suc (suc (suc (suc zero))))) x y h (z, run, t) = ground arith
operator_true (suc (suc (suc (suc (suc (suc n)))))) x y h (z, run, t) = ground arith

pub no_overlap : (opno typ : ℕ) → ¬ (is_trusted_overlap_op ints opno typ ≡ true)
unfolding is_trusted_overlap_op operator_name name_of
no_overlap opno typ h = cc

unfoldable pub int_operators : (n : ℕ) → Operators (int_table.orders n)
unfolding default_btree_family int_orders int_order
int_operators n = record {
  Takes = λ t. t ≡ 1;
  parses = λ t e. tt;
  compares = λ t u f e fam p. refl;
  relates = λ opno t u f v k e types fam some_strategy h. operator_true opno v k some_strategy h;
  relates_commuted =
      λ opno t u f v k e types fam some_strategy h. operator_true opno k v some_strategy h;
  overlaps = λ opno c m h. absurd (no_overlap opno 1 h);
}

-- Expressions of which only columns and constants have values; a clause of another shape is true.
unfoldable pub value_in : Row → Node → Option ℕ
value_in row (var a t) = row a
value_in row (const t v) = v
value_in row (relabel n) = value_in row n
value_in row n = none

unfoldable pub expressions_of : (row : Row) → Expressions row
unfolding value_in
expressions_of row = record {
  value = value_in row;
  value_var = λ a t. refl;
  value_const = λ t v. refl;
  value_relabel = λ n. refl;
  OtherTrue = λ n. Unit;
}
