-- ===== src/Prune/Relation/Kept.antt =====
-- A relation that the pathlist hook leaves out has no row that satisfies its restriction clauses.
use pg_table_range.Base.{
  Ensures-imp, ◌≡◌, refl, ap, ◌∙◌, inl, inr, Bool, true, false, List, [], ◌∷◌, All, Attempt, known,
  unknown, raised, Ensures, Ensures-known, Ensures-bind, Ensures-if, arith,
}
use pg_table_range.Summary.{ColSummary}
use pg_table_range.Server.{Server}
use pg_table_range.StableIo.{Gucs, Session}
use pg_table_range.StableIo.Pinned.{IsStable, with_stable_io-IsStable}
use pg_table_range.Prune.Sound.{Proves}
use pg_table_range.Prune.Clause.{Node, clause_proves_prune}
use pg_table_range.Prune.Clause.Tree.{IsTrue, LeavesSound, clause_proves_prune-IsTrue}
use pg_table_range.Prune.Relation.{
  PlannedRel, any_clause, evaluate_relation_inner, evaluate_relation, caught, pathlist_hook,
}

module _ (sv : Server) (rows : List ColSummary) (LeafTrue : Node → Type 0)
    (sound : LeavesSound sv rows LeafTrue) where
  any_clause-Proves :
      (clauses : List Node)
      → Ensures (Proves (¬ All (IsTrue LeafTrue) clauses)) (any_clause sv clauses rows)
  unfolding any_clause
  any_clause-Proves [] = Ensures-known (Proves (¬ All (IsTrue LeafTrue) [])) false (λ y. cc)
  any_clause-Proves (n ∷ ns) = Ensures-bind (clause_proves_prune sv n rows 0) _ λ found run.
      Ensures-if found _ _
        (λ y. Ensures-known (Proves (¬ All (IsTrue LeafTrue) (n ∷ ns))) true λ y' both.
          clause_proves_prune-IsTrue sv rows LeafTrue sound n 0 (run ∙ ap known y) both.0)
        (λ f. Ensures-imp (λ b h y both. h y both.1) (any_clause-Proves ns))

inner-Proves :
    (sv : Server) (rows : List ColSummary) (LeafTrue : Node → Type 0)
    → LeavesSound sv rows LeafTrue
    → (clauses : List Node)
    → Ensures (Proves (¬ All (IsTrue LeafTrue) clauses)) (evaluate_relation_inner sv clauses rows)
unfolding evaluate_relation_inner
inner-Proves sv [] LeafTrue sound clauses =
    Ensures-known (Proves (¬ All (IsTrue LeafTrue) clauses)) false (λ y. cc)
inner-Proves sv (c ∷ cs) LeafTrue sound clauses =
    any_clause-Proves sv (c ∷ cs) LeafTrue sound clauses

caught-known : (m : Attempt Bool) → caught m ≡ true → m ≡ known true
caught-known (known b) h = ap known h
caught-known unknown h = cc
caught-known (raised e) h = cc

module _ {sv : Server} (server_of : Gucs → Server)
    (stable : (g : Gucs) → IsStable g → server_of g ≡ sv) (session : Session)
    (rows : List ColSummary) (LeafTrue : Node → Type 0) (sound : LeavesSound sv rows LeafTrue) where
  evaluate_relation-Proves :
      (clauses : List Node)
      → Ensures
          (Proves (¬ All (IsTrue LeafTrue) clauses))
          (evaluate_relation server_of session clauses rows)
  unfolding evaluate_relation
  evaluate_relation-Proves clauses =
      elim (with_stable_io-IsStable (λ g. evaluate_relation_inner (server_of g) clauses rows)
        session) [
          | inl (g, ran, st) ↦ rw (ran, stable g st) (inner-Proves sv rows LeafTrue sound clauses)
          | inr (idle, parallel, q) ↦
              rw idle (Ensures-known (Proves (¬ All (IsTrue LeafTrue) clauses)) false (λ y. cc))
        ]

  hook-evaluate :
      (in_hook enable_pruning : Bool) (rel : PlannedRel)
      → pathlist_hook server_of session in_hook enable_pruning rel rows ≡ true
      → caught (evaluate_relation server_of session rel.clauses rows) ≡ true
  unfolding pathlist_hook
  hook-evaluate in_hook enable_pruning rel h = ground arith

  -- If the hook leaves a relation out, then no row for which the clauses on one column are judged
  -- soundly satisfies all its restriction clauses. That holds whatever the session's settings are, the
  -- server's functions being what they are under stable ones, and with every ERROR caught.
  pub pathlist_hook-IsTrue :
      (in_hook enable_pruning : Bool) (rel : PlannedRel)
      → pathlist_hook server_of session in_hook enable_pruning rel rows ≡ true
      → ¬ All (IsTrue LeafTrue) rel.clauses
  pathlist_hook-IsTrue in_hook enable_pruning rel h =
      (evaluate_relation-Proves rel.clauses).at true
        (caught-known _ (hook-evaluate in_hook enable_pruning rel h)) refl
