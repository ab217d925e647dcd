-- ===== src/Prune/Clause/Tree.antt =====
-- The Boolean structure of `clause_proves_prune` (src/prune_hook.rs). In SQL's three-valued logic a
-- conjunction is true just when all its arguments are, and a disjunction just when one of them is.
use pg_table_range.Base.{
  Ensures-imp, ℕ, ◌+◌, ◌≡◌, refl, ap, ◌∙◌, ◌⊎◌, inl, inr, Bool, true, false, Option, none, some,
  List, ltb, if◌then◌else◌, Attempt, known, unknown, raised, Ensures, Ensures-known, Ensures-raised,
  Ensures-bind, Ensures-if,
}
use pg_table_range.Summary.{ColSummary, find_col}
use pg_table_range.Server.{Server}
use pg_table_range.Prune.{QualSpec, attnum_of, proves_prune}
use pg_table_range.Prune.Sound.{Proves}
use pg_table_range.Prune.Clause.{
  Node, Nodes, null_node, bool_expr, op_expr, null_test, array_op, relabel, var, const, other_node,
  nil, cons, and_expr, or_expr, not_expr, is_nil, row_proves, leaf_proves, extract_qual,
  clause_proves_prune, any_proves, all_prove,
}

-- Whether a clause is true of a row, given whether its parts that are no conjunction or disjunction are.
module _ (LeafTrue : Node → Type 0) where
  unfoldable mutual
    pub IsTrue : Node → Type 0
    IsTrue (bool_expr and_expr args) = AllTrue args
    IsTrue (bool_expr or_expr args) = AnyTrue args
    IsTrue node = LeafTrue node

    pub AllTrue : Nodes → Type 0
    AllTrue nil = Unit
    AllTrue (cons n ns) = IsTrue n × AllTrue ns

    pub AnyTrue : Nodes → Type 0
    AnyTrue nil = ⊥
    AnyTrue (cons n ns) = IsTrue n ⊎ AnyTrue ns

module _ (sv : Server) (rows : List ColSummary) (LeafTrue : Node → Type 0) where
  -- A clause on one column that proves the partition has no match is not true.
  abbrev pub LeavesSound : Type 0
  LeavesSound =
      (node : Node) (spec : QualSpec) (c : ColSummary)
      → extract_qual sv node ≡ known spec
      → find_col (attnum_of spec) rows ≡ some c
      → proves_prune sv spec c ≡ known true
      → ¬ LeafTrue node

  module _ (sound : LeavesSound) where
    leaf-Proves :
        (node : Node)
        → Ensures (Proves (¬ LeafTrue node)) (leaf_proves sv (extract_qual sv node) rows)
    unfolding leaf_proves row_proves
    leaf-Proves node = go (extract_qual sv node) refl
      where
        found :
            (spec : QualSpec)
            → extract_qual sv node ≡ known spec
            → (o : Option ColSummary) → find_col (attnum_of spec) rows ≡ o
            → Ensures (Proves (¬ LeafTrue node)) (row_proves sv spec o)
        found spec e none at = Ensures-known (Proves (¬ LeafTrue node)) false (λ y. cc)
        found spec e (some c) at = record {
          at = λ b run y. sound node spec c e at (run ∙ ap known y);
        }

        go :
            (m : Attempt QualSpec)
            → extract_qual sv node ≡ m
            → Ensures (Proves (¬ LeafTrue node)) (leaf_proves sv m rows)
        go (known spec) e = found spec e (find_col (attnum_of spec) rows) refl
        go unknown e = Ensures-known (Proves (¬ LeafTrue node)) false (λ y. cc)
        go (raised x) e = Ensures-raised (Proves (¬ LeafTrue node)) x

    at_depth :
        {P : Type 0} (depth : ℕ) (m : Attempt Bool)
        → Ensures (Proves P) m
        → Ensures (Proves P) (if ltb 32 depth then known false else m)
    at_depth {P} depth m h =
        Ensures-if (ltb 32 depth) _ _ (λ deep. Ensures-known (Proves P) false (λ y. cc)) (λ near. h)

    mutual
      unfolding clause_proves_prune any_proves all_prove IsTrue AllTrue AnyTrue

      clause-Proves :
          (node : Node) (depth : ℕ)
          → Ensures (Proves (¬ IsTrue LeafTrue node)) (clause_proves_prune sv node rows depth)
      clause-Proves null_node depth = Ensures-known (Proves (¬ LeafTrue null_node)) false (λ y. cc)
      clause-Proves (bool_expr and_expr args) depth = at_depth depth _ (any-Proves args (depth + 1))
      clause-Proves (bool_expr or_expr args) depth = at_depth depth _ (
          Ensures-if (is_nil args) _ _
            (λ y. Ensures-known (Proves (¬ AnyTrue LeafTrue args)) false (λ y. cc))
            (λ n. all-Proves args (depth + 1)))
      clause-Proves (bool_expr not_expr args) depth =
          Ensures-known (Proves (¬ LeafTrue (bool_expr not_expr args))) false (λ y. cc)
      clause-Proves (op_expr o i args) depth = at_depth depth _ (leaf-Proves (op_expr o i args))
      clause-Proves (null_test t n) depth = at_depth depth _ (leaf-Proves (null_test t n))
      clause-Proves (array_op o i u args) depth =
          at_depth depth _ (leaf-Proves (array_op o i u args))
      clause-Proves (relabel n) depth = at_depth depth _ (leaf-Proves (relabel n))
      clause-Proves (var a t) depth = at_depth depth _ (leaf-Proves (var a t))
      clause-Proves (const t v) depth = at_depth depth _ (leaf-Proves (const t v))
      clause-Proves other_node depth = at_depth depth _ (leaf-Proves other_node)

      any-Proves :
          (args : Nodes) (depth : ℕ)
          → Ensures (Proves (¬ AllTrue LeafTrue args)) (any_proves sv args rows depth)
      any-Proves nil depth = Ensures-known (Proves (¬ Unit)) false (λ y. cc)
      any-Proves (cons n ns) depth =
          Ensures-bind (clause_proves_prune sv n rows depth) _ λ found run.
            Ensures-if found _ _
              (λ y.
                Ensures-known (Proves (¬ AllTrue LeafTrue (cons n ns))) true
                  λ y' both. (clause-Proves n depth).at found run y both.0)
              (λ f. Ensures-imp (λ b h y both. h y both.1) (any-Proves ns depth))

      all-Proves :
          (args : Nodes) (depth : ℕ)
          → Ensures (Proves (¬ AnyTrue LeafTrue args)) (all_prove sv args rows depth)
      all-Proves nil depth = Ensures-known (Proves (¬ ⊥)) true (λ y h. h)
      all-Proves (cons n ns) depth =
          Ensures-bind (clause_proves_prune sv n rows depth) _ λ found run.
            Ensures-if found _ _
              (λ y.
                Ensures-imp
                  (λ b h y' one. elim one [
                    | inl here ↦ (clause-Proves n depth).at found run y here
                    | inr later ↦ h y' later
                  ])
                  (all-Proves ns depth))
              (λ f. Ensures-known (Proves (¬ AnyTrue LeafTrue (cons n ns))) false (λ y. cc))

    -- A tree of conjunctions and disjunctions, of any shape and depth, whose parts on one column are
    -- judged soundly, is true of no row that they are judged for where it proves that the partition
    -- has no match.
    pub clause_proves_prune-IsTrue :
        (node : Node) (depth : ℕ)
        → clause_proves_prune sv node rows depth ≡ known true
        → ¬ IsTrue LeafTrue node
    clause_proves_prune-IsTrue node depth run = (clause-Proves node depth).at true run refl
