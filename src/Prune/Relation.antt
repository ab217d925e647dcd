-- ===== src/Prune/Relation.antt =====
-- The pathlist hook's decision on one relation (src/prune_hook.rs: `table_range_pathlist_hook`,
-- `evaluate_relation`, `evaluate_relation_inner`), given the relation's summary. The
-- relation and its entry are not null, and an earlier hook has run before.
pub mod Kept
pub mod Rows
mod Tests
use pg_table_range.Base.{
  ℕ, Bool, true, false, ◌||◌, not, Option, none, some, List, [], ◌∷◌, ◌==◌, if◌then◌else◌, Attempt,
  known, unknown, raised, ◌>>=◌,
}
use pg_table_range.Summary.{ColSummary}
use pg_table_range.Server.{Server, invalid_oid}
use pg_table_range.StableIo.{Gucs, Session, with_stable_io}
use pg_table_range.Prune.Clause.{Node, clause_proves_prune}

pub data RelOptKind : Type 0 where
  base_rel other_member_rel other_kind : RelOptKind

-- What the hook reads of the relation and its range table entry: the kind, whether the entry is a
-- table, its Oid, and `baserestrictinfo`, the clauses that are implicitly conjoined. A null pointer in
-- that list is a null node, which proves nothing.
pub record PlannedRel : Type 0 where
  pub kind : RelOptKind
  pub is_table : Bool
  pub relid : ℕ
  pub clauses : List Node

abbrev pub is_scanned : RelOptKind → Bool
is_scanned base_rel = true
is_scanned other_member_rel = true
is_scanned other_kind = false

-- The loop over the restriction clauses.
unfoldable pub any_clause : Server → List Node → List ColSummary → Attempt Bool
unfolding clause_proves_prune
any_clause sv [] rows = known false
any_clause sv (clause ∷ clauses) rows =
    let rest = any_clause sv clauses rows in
    clause_proves_prune sv clause rows 0 >>= λ found. if found then known true else rest

-- No summary is the empty list, which never prunes.
unfoldable pub evaluate_relation_inner : Server → List Node → List ColSummary → Attempt Bool
unfolding any_clause
evaluate_relation_inner sv clauses [] = known false
evaluate_relation_inner sv clauses (c ∷ cs) = any_clause sv clauses (c ∷ cs)

-- `unwrap_or(false)`
abbrev pub or_false : Option (Attempt Bool) → Attempt Bool
or_false none = known false
or_false (some m) = m

-- `catch_others(|_| false)`; there is no `None` to catch.
abbrev pub caught : Attempt Bool → Bool
caught (known b) = b
caught unknown = false
caught (raised e) = false

module _ (server_of : Gucs → Server) (session : Session) where
  unfoldable pub evaluate_relation : List Node → List ColSummary → Attempt Bool
  unfolding evaluate_relation_inner with_stable_io
  evaluate_relation clauses rows =
      or_false (with_stable_io (λ g. evaluate_relation_inner (server_of g) clauses rows) session).0

  -- Whether the hook marks the relation as empty, given its flag against re-entry and the setting
  -- `enable_pruning`.
  unfoldable pub pathlist_hook : Bool → Bool → PlannedRel → List ColSummary → Bool
  unfolding evaluate_relation
  pathlist_hook in_hook enable_pruning rel rows =
      if in_hook
      then false
      else if not enable_pruning
      then false
      else if not (is_scanned rel.kind)
      then false
      else if not rel.is_table
      then false
      else if rel.relid == invalid_oid
      then false
      else caught (evaluate_relation rel.clauses rows)
