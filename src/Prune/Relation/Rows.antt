-- ===== src/Prune/Relation/Rows.antt =====
-- A relation that the pathlist hook leaves out has no covered row that satisfies its clauses
-- (src/prune_hook.rs), from the parse nodes to the metapage.
use pg_table_range.Base.{
  ℕ, ◌≡◌, inl, inr, Bool, true, Option, none, some, List, [], ◌∷◌, All, All-map, Result, known,
}
use pg_table_range.Bytes.{Bytes}
use pg_table_range.Summary.{ColSummary, IndexSummary, find_col}
use pg_table_range.Metapage.{Page, PageApi, PageLaws, read_summary}
use pg_table_range.Server.{Server}
use pg_table_range.StableIo.{Gucs, Session}
use pg_table_range.StableIo.Pinned.{IsStable}
use pg_table_range.Widen.Row.{Row, Table, CoversRow}
use pg_table_range.Insert.Concurrent.{outside, System, Reach, Covered}
use pg_table_range.Build.Holds.{with_text_io}
use pg_table_range.Build.Batch.{BatchExtents}
use pg_table_range.Build.Scan.{IsTypedIndex}
use pg_table_range.Build.Index.{IndexBuild, am_build}
use pg_table_range.Build.Index.Covers.{input_of}
use pg_table_range.Build.Index.Lifetime.{am_build-Reach}
use pg_table_range.Prune.Clause.{
  Node, Nodes, null_node, bool_expr, op_expr, null_test, array_op, relabel, var, const, other_node,
  nil, cons, and_expr, or_expr, not_expr,
}
use pg_table_range.Prune.Clause.Tree.{IsTrue, AllTrue, AnyTrue}
use pg_table_range.Prune.Clause.Truth.{Operators, Expressions, LeafTrue, TypedLeaf}
use pg_table_range.Prune.Clause.Leaves.{extract_qual-LeavesSound}
use pg_table_range.Prune.Relation.{PlannedRel, pathlist_hook}
use pg_table_range.Prune.Relation.Kept.{pathlist_hook-IsTrue}

module _ {sv : Server} (table : Table sv) (ops : (n : ℕ) → Operators (table.orders n)) where
  open table use {collation_of, orders}

  -- The parser has checked every clause on one column.
  unfoldable mutual
    pub TypedClause : Node → Type 0
    TypedClause (bool_expr and_expr args) = TypedClauses args
    TypedClause (bool_expr or_expr args) = TypedClauses args
    TypedClause node = TypedLeaf table ops node

    pub TypedClauses : Nodes → Type 0
    TypedClauses nil = Unit
    TypedClauses (cons n ns) = TypedClause n × TypedClauses ns

  module _ (L : Node → Type 0) where
    abbrev Typed : Node → Type 0
    Typed node = TypedLeaf table ops node × L node

    mutual
      unfolding TypedClause TypedClauses IsTrue AllTrue AnyTrue

      IsTrue-Typed : (node : Node) → TypedClause node → IsTrue L node → IsTrue Typed node
      IsTrue-Typed (bool_expr and_expr args) t h = AllTrue-Typed args t h
      IsTrue-Typed (bool_expr or_expr args) t h = AnyTrue-Typed args t h
      IsTrue-Typed (bool_expr not_expr args) t h = (t, h)
      IsTrue-Typed null_node t h = (t, h)
      IsTrue-Typed (op_expr o c ns) t h = (t, h)
      IsTrue-Typed (null_test k n) t h = (t, h)
      IsTrue-Typed (array_op o c u ns) t h = (t, h)
      IsTrue-Typed (relabel n) t h = (t, h)
      IsTrue-Typed (var a k) t h = (t, h)
      IsTrue-Typed (const k v) t h = (t, h)
      IsTrue-Typed other_node t h = (t, h)

      AllTrue-Typed : (ns : Nodes) → TypedClauses ns → AllTrue L ns → AllTrue Typed ns
      AllTrue-Typed nil t h = h
      AllTrue-Typed (cons n ns) t h = (IsTrue-Typed n t.0 h.0, AllTrue-Typed ns t.1 h.1)

      AnyTrue-Typed : (ns : Nodes) → TypedClauses ns → AnyTrue L ns → AnyTrue Typed ns
      AnyTrue-Typed nil t h = h
      AnyTrue-Typed (cons n ns) t (inl h) = inl (IsTrue-Typed n t.0 h)
      AnyTrue-Typed (cons n ns) t (inr h) = inr (AnyTrue-Typed ns t.1 h)

    All-Typed : (ns : List Node) → All TypedClause ns → All (IsTrue L) ns → All (IsTrue Typed) ns
    All-Typed [] t h = tt
    All-Typed (n ∷ ns) t h = (IsTrue-Typed n t.0 h.0, All-Typed ns t.1 h.1)

  -- The columns that the planner reads; without a summary there are none.
  abbrev pub cols_of : Option IndexSummary → List ColSummary
  cols_of none = []
  cols_of (some s) = s.cols

  module _ (server_of : Gucs → Server) (stable : (g : Gucs) → IsStable g → server_of g ≡ sv)
      (expressions : (row : Row) → Expressions row) where
    no_col : (n : ℕ) (c : ColSummary) → ¬ (find_col n [] ≡ some c)
    unfolding find_col
    no_col n c e = cc

    -- No row satisfies all the restriction clauses of the relation.
    abbrev pub NoMatch : PlannedRel → List Row → Type 0
    NoMatch rel rows = All (λ row. ¬ All (IsTrue (LeafTrue sv (expressions row))) rel.clauses) rows

    -- If the hook leaves a relation out by columns that cover a row, under the collations of the index,
    -- then that row does not satisfy all the relation's restriction clauses. The clauses are any that
    -- the parser accepts; `ops` says what is relied on of the operators.
    pub pathlist_hook-CoversRow :
        (session : Session) (cols : List ColSummary) (row : Row) (in_hook enable_pruning : Bool)
        (rel : PlannedRel)
        → ((n : ℕ) (c : ColSummary) → find_col n cols ≡ some c → c.collation ≡ collation_of n)
        → CoversRow table cols row
        → All TypedClause rel.clauses
        → pathlist_hook server_of session in_hook enable_pruning rel cols ≡ true
        → ¬ All (IsTrue (LeafTrue sv (expressions row))) rel.clauses
    pathlist_hook-CoversRow session cols row in_hook enable_pruning rel collations covers typed
          pruned holds =
        pathlist_hook-IsTrue server_of stable session cols _
          (extract_qual-LeavesSound table ops (expressions row) cols collations covers) in_hook
          enable_pruning rel pruned
          (All-Typed (LeafTrue sv (expressions row)) rel.clauses typed holds)

    module _ (ns : List ℕ) (out : ℕ → ℕ → Result (Option Bytes)) (inp : ℕ → Bytes → ℕ → Result ℕ)
        (batches : (n : ℕ) → BatchExtents (orders n).extent out inp) (index : IsTypedIndex table ns)
        (session : Session) (scanning : server_of session.gucs ≡ with_text_io sv out inp)
        (api : PageApi) (laws : PageLaws api) where
      -- From `CREATE INDEX` to the plan: after `ambuild` of a whole index returns, and then any
      -- interleaving of inserts that starts with no backend inside `aminsert`, a relation that the hook
      -- leaves out by the summary then stored has no row, among those of the build's scan and those whose
      -- insert has returned, that satisfies all its restriction clauses. The clauses are well typed; the
      -- types, operators and `ST_Extent` are as `table`, `ops` and `batches` say, and text under pinned
      -- settings does not depend on the session.
      pub pathlist_hook-NoMatch :
          (rows : List Row) (n : ℕ) (pages : List Page) (b : IndexBuild) (sessions : ℕ → Session)
          (indexoid heapoid : ℕ) (s t : System) (planning : Session) (in_hook enable_pruning : Bool)
          (rel : PlannedRel)
          → am_build server_of session api (input_of table ns rows n) pages ≡ known b
          → s.shared.pages ≡ b.pages
          → s.inserted ≡ rows
          → ((i : ℕ) → s.pc i ≡ outside)
          → Reach table server_of api sessions ns indexoid heapoid s t
          → All TypedClause rel.clauses
          → pathlist_hook server_of planning in_hook enable_pruning rel
              (cols_of (read_summary api t.shared.pages))
            ≡ true
          → NoMatch rel t.inserted
      pathlist_hook-NoMatch rows n pages b sessions indexoid heapoid s t planning in_hook
            enable_pruning rel built at scanned quiet r typed =
          by_summary (read_summary api t.shared.pages) (
            am_build-Reach table ns out inp batches index server_of stable session scanning api laws
              rows n pages b sessions indexoid heapoid s t built at scanned quiet r)
        where
          by_summary :
              (o : Option IndexSummary)
              → Covered table server_of api sessions ns indexoid heapoid o t.inserted
              → pathlist_hook server_of planning in_hook enable_pruning rel (cols_of o) ≡ true
              → NoMatch rel t.inserted
          by_summary none c pruned = without_summary t.inserted
            where
              without_summary : (rs : List Row) → NoMatch rel rs
              without_summary [] = tt
              without_summary (r ∷ rs) = (
                pathlist_hook-CoversRow planning [] r in_hook enable_pruning rel
                    (λ n c e. absurd (no_col n c e)) (λ n c e. absurd (no_col n c e)) typed pruned,
                without_summary rs,
              )
          by_summary (some z) c pruned =
              All-map
                (λ row covers.
                  pathlist_hook-CoversRow planning z.cols row in_hook enable_pruning rel
                    c.0.collations covers typed pruned)
                t.inserted c.1
