-- ===== src/Prune/Tests.antt =====
-- Tests of the clauses, on the bounds 10 to 20 and the value 15.
use mathlib.Core.Option.{some-injective}
use pg_table_range.Base.{
  ◌↔◌, All, false, ℕ, List, sym, ==_iff, ◌∙◌, ◌==◌, inl, inr, Bool-cases, ◌≡◌, ◌≤◌, true, some, [],
  ◌∷◌, refl, subst, arith, known, known-injective,
}
use pg_table_range.Bytes.{has_nul}
use pg_table_range.Summary.{ColSummary, find_col, find_col-head}
use pg_table_range.Server.{default_btree_family, text_to_datum, datum_cmp}
use pg_table_range.StableIo.{pos, Session, with_stable_io}
use pg_table_range.Prune.Relation.{PlannedRel, other_member_rel, pathlist_hook}
use pg_table_range.Prune.Relation.Kept.{pathlist_hook-IsTrue}
use pg_table_range.Widen.Covers.{CoversValue}
use pg_table_range.Prune.{QualSpec, compare, in_list, attnum_of, proves_prune}
use pg_table_range.Prune.Clause.{
  Node, bool_expr, op_expr, var, const, other_node, nil, cons, and_expr, compare_op,
  commute_strategy, extract_qual, clause_proves_prune,
}
use pg_table_range.Prune.Clause.Commute.{Relates, commute_strategy-Relates}
use pg_table_range.Prune.Clause.Tree.{IsTrue, LeavesSound, clause_proves_prune-IsTrue}
use pg_table_range.Prune.Verdict.{IsReadAs, Matches, proves_prune-Matches}
use pg_table_range.Samples.{ten_to_twenty}
use pg_table_range.Samples.Ints.{ints, int_order, int_orders, read_int, call_ints, compare_ints}

-- `column = 30` and `column IN (5, 30)`.
abbrev is_30 : QualSpec
is_30 = compare 1 3 1 1 0 30

abbrev is_5_or_30 : QualSpec
is_5_or_30 = in_list 1 1 1 0 (5 ∷ 30 ∷ [])

pruned : proves_prune ints is_30 ten_to_twenty ≡ known true
unfolding proves_prune text_to_datum datum_cmp read_int call_ints compare_ints has_nul
pruned = refl

list_pruned : proves_prune ints is_5_or_30 ten_to_twenty ≡ known true
unfolding proves_prune text_to_datum datum_cmp read_int call_ints compare_ints has_nul
list_pruned = refl

CoversValue-15 : CoversValue int_orders ten_to_twenty (some 15)
unfolding int_orders int_order text_to_datum read_int has_nul
CoversValue-15 = (
  refl,
  λ u. (
    λ s d p h. subst (λ z. z ≤ 15) (known-injective 10 d h) (omega arith),
    λ s d p h. subst (λ z. 15 ≤ z) (known-injective 20 d h) (omega arith),
  ),
)

proves_prune-Matches_example : ¬ Matches int_orders is_30 1 (some 15)
unfolding int_orders int_order
proves_prune-Matches_example =
    proves_prune-Matches int_orders ten_to_twenty is_30 1 (some 15) refl (tt, refl) CoversValue-15
      pruned

-- `something AND column = 30`.
abbrev clause : Node
clause =
    bool_expr and_expr
      (cons other_node (cons (op_expr 3 0 (cons (var 1 1) (cons (const 1 (some 30)) nil))) nil))

abbrev rows : List ColSummary
rows = ten_to_twenty ∷ []

clause_pruned : clause_proves_prune ints clause rows 0 ≡ known true
unfolding clause_proves_prune attnum_of compare_op default_btree_family find_col proves_prune
    text_to_datum datum_cmp read_int call_ints compare_ints has_nul
clause_pruned = refl

-- A leaf is true of the row if what it is read as matches the value 15.
abbrev TrueAt15 : Node → Type 0
TrueAt15 node =
    (spec : QualSpec) × (extract_qual ints node ≡ known spec)
    × IsReadAs int_orders spec 1
    × Matches int_orders spec 1 (some 15)

only_row : (n : ℕ) (c : ColSummary) → find_col n rows ≡ some c → ten_to_twenty ≡ c
unfolding find_col
only_row n c h = elim (Bool-cases (1 == n)) [
  | inl e ↦ some-injective ten_to_twenty c (
      sym (find_col-head 1 ten_to_twenty [] refl)
      ∙ subst (λ k. find_col k rows ≡ some c) (sym ((==_iff 1 n).0 e)) h)
  | inr e ↦ cc
]

leaves-Matches : LeavesSound ints rows TrueAt15
leaves-Matches node spec c e at run (spec', e', read, m) =
    proves_prune-Matches int_orders ten_to_twenty spec' 1 (some 15) refl read CoversValue-15
      (rw (known-injective spec' spec (sym e' ∙ e), only_row (attnum_of spec) c at) run) m

clause_proves_prune-IsTrue_example : ¬ IsTrue TrueAt15 clause
clause_proves_prune-IsTrue_example =
    clause_proves_prune-IsTrue ints rows TrueAt15 leaves-Matches clause 0 clause_pruned

abbrev part : PlannedRel
part = record { kind = other_member_rel; is_table = true; relid = 5; clauses = clause ∷ [] }

-- The hook pins the settings of this session.
abbrev session : Session
session = record {
  gucs = record { date_style = 3; interval_style = 2; extra_float_digits = pos 0 };
  outer = [];
  in_parallel_mode = false;
}

part_pruned : pathlist_hook (λ g. ints) session false true part rows ≡ true
unfolding pathlist_hook with_stable_io clause_proves_prune attnum_of compare_op default_btree_family
    find_col proves_prune text_to_datum datum_cmp read_int call_ints compare_ints has_nul
part_pruned = refl

pathlist_hook-IsTrue_example : ¬ All (IsTrue TrueAt15) part.clauses
pathlist_hook-IsTrue_example =
    pathlist_hook-IsTrue (λ g. ints) (λ g st. refl) session rows TrueAt15 leaves-Matches false true
      part part_pruned

commute_strategy-Relates_example :
    Relates (commute_strategy 2) (5 ≤ 3) (3 ≤ 5) ↔ Relates 2 (3 ≤ 5) (5 ≤ 3)
commute_strategy-Relates_example = commute_strategy-Relates 2 (3 ≤ 5) (5 ≤ 3) (omega arith)
