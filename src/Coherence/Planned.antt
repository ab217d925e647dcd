-- ===== src/Coherence/Planned.antt =====
-- What a backend plans with, from its own cache or from the index (src/summary_cache.rs;
-- src/prune_hook.rs: `read_index_summary`, `table_range_pathlist_hook`).
use pg_table_range.Base.{
  ℕ, ◌≡◌, sym, subst, ◌∙◌, refl, inl, inr, Bool, true, false, Option, none, some, List, [], ◌++◌,
  All, All-append, All-map, ==_refl, Result, or_raise, ◌>>=◌ as bind,
}
use pg_table_range.Bytes.{Bytes}
use pg_table_range.Summary.{ColSummary}
use pg_table_range.Metapage.{Page, PageApi, PageLaws, read_summary}
use pg_table_range.Server.{Server}
use pg_table_range.StableIo.{Gucs, Session}
use pg_table_range.StableIo.Pinned.{IsStable}
use pg_table_range.Widen.Row.{Row, Table, CoversRow}
use pg_table_range.Cache.{get}
use pg_table_range.Insert.Concurrent.{outside, Covered}
use pg_table_range.Prune.Planner.{PlanState}
use pg_table_range.Prune.Planner.Summaries.{
  IndexOptInfo, first_index, table_range_am_oid, cols_or_empty,
}
use pg_table_range.Prune.Planner.Summaries.Reads.{
  ReadFrom, read_index_summary-ReadFrom, load_summary-first,
}
use pg_table_range.Prune.Clause.Truth.{Operators, Expressions}
use pg_table_range.Prune.Planner.Memo.{Faithful}
use pg_table_range.Prune.Planner.Evaluate.{rows_or_empty}
use pg_table_range.Prune.Planner.Hook.{hook_run, hook_run-pathlist_hook}
use pg_table_range.Prune.Relation.{PlannedRel, pathlist_hook}
use pg_table_range.Prune.Relation.Rows.{TypedClause, NoMatch, pathlist_hook-CoversRow}
use pg_table_range.Coherence.{Cluster, invalidates, opened, plan_read, Reach}
use pg_table_range.Coherence.Kept.{Collated, Claims, Inv, stored-Covers}
use pg_table_range.Coherence.Steps.{Reach-Inv, stored-Settled, opened-stored}

module _ {sv : Server} (table : Table sv) (server_of : Gucs → Server) (api : PageApi)
    (session : ℕ → Session) (ns : List ℕ) (indexoid heapoid : ℕ) where
  -- No backend is inside `aminsert` or has cached the index's summary, the stored summary covers the
  -- rows, and these are committed.
  pub record Started (s : Cluster) : Type 0 where
    pub idle : (i : ℕ) → s.inserts.pc i ≡ outside
    pub covered :
        Covered table server_of api session ns indexoid heapoid
          (read_summary api s.inserts.shared.pages)
          s.inserts.inserted
    pub cold : (j : ℕ) → get indexoid (s.cache j) ≡ none
    pub all_committed : s.committed ≡ s.inserts.inserted
    pub none_open : (k : ℕ) → s.written k ≡ []

  Started-Inv : (s : Cluster) → Started s → Inv table server_of api session ns indexoid heapoid s
  Started-Inv s st = record {
    turns = record { covered = st.covered; remembers = λ i. rw (st.idle i) tt };
    within = λ cols h. (rw st.all_committed h, λ k. rw (st.none_open k) tt);
    cached = λ j cols h. let empty = st.cold j in absurd cc;
  }

  -- Columns that a backend may plan with: they cover the committed rows, and its own.
  abbrev pub Serves : Cluster → ℕ → List ColSummary → Type 0
  Serves s j cols =
      Collated table server_of api session ns indexoid heapoid cols
      × All (CoversRow table cols) (s.written j ++ s.committed)

  module _ (laws : PageLaws api) (stable : (g : Gucs) → IsStable g → server_of g ≡ sv)
      (get_am_oid : ℕ) (others : ℕ → Option (List Page)) where
    claimed-Serves :
        (t : Cluster) (j : ℕ) (cols : List ColSummary)
        → invalidates indexoid (t.queue j) ≡ false
        → invalidates indexoid (t.current j) ≡ false
        → Claims table server_of api session ns indexoid heapoid t j cols
        → Serves t j cols
    claimed-Serves t j cols received ended (collated, inl q) = absurd cc
    claimed-Serves t j cols received ended (collated, inr fine) = (
      collated,
      elim (fine.written j) [
        | inl u ↦
            let own : invalidates indexoid (t.current j) ≡ true = sym (rw (==_refl j) refl) ∙ u in
            absurd cc
        | inr covers ↦
            All-append (CoversRow table cols) (t.written j) t.committed covers fine.committed
      ],
    )

    no_columns-Serves : (t : Cluster) (j : ℕ) → Serves t j []
    unfolding cols_or_empty
    no_columns-Serves t j =
        stored-Covers table server_of api session ns indexoid heapoid none
          (t.written j ++ t.committed) tt

    abbrev planned_cols : Cluster → ℕ → PlanState → List (Option IndexOptInfo) → List ColSummary
    planned_cols t j st indexlist =
        (plan_read table server_of api session ns indexoid heapoid get_am_oid others t j st
          indexlist).0

    -- The index is the relation's only one of the access method.
    abbrev pub IsIndexOf : Cluster → PlanState → List (Option IndexOptInfo) → Type 0
    IsIndexOf t st indexlist =
        (i : ℕ)
        → first_index
            (table_range_am_oid api get_am_oid
              (opened table server_of api session ns indexoid heapoid get_am_oid others t) st).0
            indexlist
          ≡ some i
        → i ≡ indexoid

    -- A backend plans with columns that cover every counted row of a committed transaction, and of its
    -- own. It has received the messages that were sent to it, its command has applied its own, and the
    -- index is the relation's only one of the access method. The backends start idle, with no summary of
    -- the index cached, and have then inserted, ended commands and transactions, received, missed and
    -- cached in any order. Every row counts whose insert has widened the summary, or has returned while no
    -- other transaction held back or had lost the invalidations of a widening.
    pub plan_read-Serves :
        {s t : Cluster} (j : ℕ) (st : PlanState) (indexlist : List (Option IndexOptInfo))
        → Started s
        → Reach table server_of api session ns indexoid heapoid get_am_oid others s t
        → invalidates indexoid (t.queue j) ≡ false
        → invalidates indexoid (t.current j) ≡ false
        → IsIndexOf t st indexlist
        → Serves t j (planned_cols t j st indexlist)
    plan_read-Serves {s} {t} j st indexlist started r received ended only = from_read _ only (
        read_index_summary-ReadFrom api get_am_oid
          (opened table server_of api session ns indexoid heapoid get_am_oid others t) indexlist st
          (t.cache j))
      where
        v : Inv table server_of api session ns indexoid heapoid t
        v =
            Reach-Inv table server_of api session ns indexoid heapoid laws stable get_am_oid others
              (Started-Inv s started) r

        from_read :
            (index : Option ℕ)
            → ((i : ℕ) → index ≡ some i → i ≡ indexoid)
            → ReadFrom api get_am_oid
                (opened table server_of api session ns indexoid heapoid get_am_oid others t)
                (t.cache j)
                index
                (plan_read table server_of api session ns indexoid heapoid get_am_oid others t j st
                  indexlist)
            → Serves t j (planned_cols t j st indexlist)
        from_read index one (inl (e, same)) = subst (Serves t j) (sym e) (no_columns-Serves t j)
        from_read index one (inr (k, e, inl (found, same))) = claimed-Serves t j _ received ended (
            v.cached j _ (
              subst (λ z. get z (t.cache j) ≡ some (planned_cols t j st indexlist)) (one k e)
                found))
        from_read index one (inr (k, e, inr (read, same))) =
            subst (Serves t j)
              (sym (
                read
                ∙ opened-stored table server_of api session ns indexoid heapoid laws stable
                    get_am_oid others t k (sym (one k e))))
              (claimed-Serves t j _ received ended (
                stored-Settled table server_of api session ns indexoid heapoid laws stable
                  get_am_oid others t j v))

    module _ (ops : (n : ℕ) → Operators (table.orders n))
        (expressions : (row : Row) → Expressions row) where
      -- If a hook is given such columns and leaves the relation out, then no counted row of a committed
      -- transaction, or of the backend's own, satisfies all the restriction clauses.
      plan_read-NoMatch :
          {s t : Cluster} (j : ℕ) (st : PlanState) (indexlist : List (Option IndexOptInfo))
          (planning : Session) (in_hook enable_pruning : Bool) (rel : PlannedRel)
          → Started s
          → Reach table server_of api session ns indexoid heapoid get_am_oid others s t
          → invalidates indexoid (t.queue j) ≡ false
          → invalidates indexoid (t.current j) ≡ false
          → IsIndexOf t st indexlist
          → All (TypedClause table ops) rel.clauses
          → pathlist_hook server_of planning in_hook enable_pruning rel
              (planned_cols t j st indexlist)
            ≡ true
          → NoMatch table ops server_of stable expressions rel (t.written j ++ t.committed)
      plan_read-NoMatch {s} {t} j st indexlist planning in_hook enable_pruning rel started r
            received ended only typed pruned =
          let (collated, covers) = plan_read-Serves j st indexlist started r received ended only in
          All-map
            (λ row c.
              pathlist_hook-CoversRow table ops server_of stable expressions planning
                (planned_cols t j st indexlist) row in_hook enable_pruning rel collated c typed
                pruned)
            (t.written j ++ t.committed) covers

      module _ (input_of : Gucs → ℕ → Bytes → ℕ → Result ℕ) (input : ℕ → Bytes → ℕ → Result ℕ)
          (stable_input : (g : Gucs) → IsStable g → input_of g ≡ input)
          (oid_input : (infunc ioparam : ℕ) (text : Bytes)
            → or_raise (sv.call_input infunc text ioparam)
              ≡ bind
                  (or_raise (sv.fmgr_info infunc))
                  (λ finfo. or_raise (input finfo text ioparam))) where
        -- From the inserts through the caches to the plan. Backends insert, end commands, commit, abort,
        -- receive messages, miss them and cache summaries in any order, from a state in which they are
        -- idle, have none cached, and all rows are committed. A backend that has received what was sent to
        -- it, and whose command has applied its own invalidations, then runs the hook on a relation that
        -- its plan meets for the first time, with whatever faithful tables the plan has; the index is the
        -- relation's only one of the access method, and the clauses are well typed. If the hook leaves the
        -- relation out, no counted row of a committed transaction, or of its own, satisfies all the
        -- restriction clauses. A row counts if its insert has widened the summary, or has returned while no
        -- other transaction held back or had lost the invalidations of a widening.
        pub hook_run-NoMatch :
            {s t : Cluster} (j : ℕ) (st : PlanState) (indexlist : List (Option IndexOptInfo))
            (planning : Session) (in_hook enable_pruning : Bool) (rel : PlannedRel)
            → Started s
            → Reach table server_of api session ns indexoid heapoid get_am_oid others s t
            → invalidates indexoid (t.queue j) ≡ false
            → invalidates indexoid (t.current j) ≡ false
            → IsIndexOf t st indexlist
            → Faithful sv input st
            → get rel.relid st.summaries ≡ none
            → All (TypedClause table ops) rel.clauses
            → (hook_run api get_am_oid
                (opened table server_of api session ns indexoid heapoid get_am_oid others t)
                indexlist
                server_of
                input_of
                planning
                in_hook
                enable_pruning
                rel
                st
                (t.cache j)).0
              ≡ true
            → NoMatch table ops server_of stable expressions rel (t.written j ++ t.committed)
        hook_run-NoMatch {s} {t} j st indexlist planning in_hook enable_pruning rel started r
              received ended only faithful first typed pruned =
            plan_read-NoMatch j st indexlist planning in_hook enable_pruning rel started r received
              ended only typed
              (subst
                (λ z.
                  pathlist_hook server_of planning in_hook enable_pruning rel (rows_or_empty z)
                  ≡ true)
                (load_summary-first api get_am_oid
                  (opened table server_of api session ns indexoid heapoid get_am_oid others t)
                  rel.relid indexlist st (t.cache j) first)
                (sym
                    (hook_run-pathlist_hook api get_am_oid
                      (opened table server_of api session ns indexoid heapoid get_am_oid others t)
                      indexlist server_of input_of (λ g calm. (stable g calm, stable_input g calm))
                      oid_input planning in_hook enable_pruning rel st (t.cache j) faithful).same
                  ∙ pruned))
