-- ===== src/Prune/Planner/Hook.antt =====
-- The pathlist hook with its state (src/prune_hook.rs: `table_range_pathlist_hook`, `evaluate_relation`,
-- `evaluate_relation_inner`): the plan's tables and the backend's cache, read and filled on the way. An
-- ERROR is caught with the tables as they are then. PostgreSQL's functions do not plan in between.
use pg_table_range.Base.{
  ℕ, ◌≡◌, refl, ap, ◌∙◌, ◌⊎◌, inl, inr, Bool, true, false, not, Option, none, some, List, ◌==◌,
  if◌then◌else◌, or_raise, Attempt, Result, ◌>>=◌ as bind,
}
use pg_table_range.Bytes.{Bytes}
use pg_table_range.Summary.{ColSummary}
use pg_table_range.Metapage.{Page, PageApi}
use pg_table_range.Server.{Server, invalid_oid}
use pg_table_range.StableIo.{Gucs, Session, with_stable_io}
use pg_table_range.StableIo.Pinned.{IsStable, with_stable_io-IsStable, with_stable_io-map}
use pg_table_range.Cache.{Cache, get}
use pg_table_range.Prune.Clause.{Node}
use pg_table_range.Prune.Relation.{
  PlannedRel, is_scanned, caught, evaluate_relation_inner, evaluate_relation, pathlist_hook,
}
use pg_table_range.Prune.Planner.{PlanState, Answer}
use pg_table_range.Prune.Planner.Memo.{Faithful}
use pg_table_range.Prune.Planner.Summaries.{IndexOptInfo, load_summary}
use pg_table_range.Prune.Planner.Summaries.Reads.{load_summary-SameTables}
use pg_table_range.Prune.Planner.Evaluate.{rows_cached, rows_or_empty}
use pg_table_range.Prune.Planner.Evaluate.Clauses.{rows_cached-Refines}

abbrev Ran : Type 0
Ran = Attempt Bool × PlanState × Cache

module _ (api : PageApi) (get_am_oid : ℕ) (opened : ℕ → Option (List Page))
    (indexlist : List (Option IndexOptInfo)) where
  abbrev judged : Answer Bool → Cache → Ran
  judged (m, st) cache = (m, st, cache)

  abbrev inner_with : Server → (ℕ → Bytes → ℕ → Result ℕ) → ℕ → List Node → PlanState × Cache → Ran
  inner_with sv input relid clauses (st, cache) =
      judged (rows_cached sv input clauses (get relid st.summaries) st) cache

  pub inner_run : Server → (ℕ → Bytes → ℕ → Result ℕ) → ℕ → List Node → PlanState → Cache → Ran
  inner_run sv input relid clauses st cache =
      inner_with sv input relid clauses
        (load_summary api get_am_oid opened relid indexlist st cache)

  module _ (server_of : Gucs → Server) (input_of : Gucs → ℕ → Bytes → ℕ → Result ℕ) where
    -- `unwrap_or(false)`, and `catch_others(|_| false)`.
    abbrev decided : PlanState → Cache → Option Ran → Bool × PlanState × Cache
    decided st cache none = (false, st, cache)
    decided st cache (some (m, st', cache')) = (caught m, st', cache')

    pub hook_run : Session → Bool → Bool → PlannedRel → PlanState → Cache → Bool × PlanState × Cache
    unfolding inner_run with_stable_io
    hook_run session in_hook enable_pruning rel st cache =
        let evaluated =
          decided st cache
            (with_stable_io
              (λ g. inner_run (server_of g) (input_of g) rel.relid rel.clauses st cache)
              session).0 in
        if in_hook
        then (false, st, cache)
        else if not enable_pruning
        then (false, st, cache)
        else if not (is_scanned rel.kind)
        then (false, st, cache)
        else if not rel.is_table
        then (false, st, cache)
        else if rel.relid == invalid_oid
        then (false, st, cache)
        else evaluated

    -- What a run decides, and what it leaves: faithful tables, the counter, and the cache as it was or
    -- with what it loaded.
    pub record Runs (sv : Server) (input : ℕ → Bytes → ℕ → Result ℕ) (relid : ℕ) (b : Bool)
        (st : PlanState) (cache : Cache) (r : Bool × PlanState × Cache) : Type 0 where
      pub same : r.0 ≡ b
      pub faithful : Faithful sv input r.1
      pub depth : r.1.depth ≡ st.depth
      pub cached :
          (r.2 ≡ cache) ⊎ (r.2 ≡ (load_summary api get_am_oid opened relid indexlist st cache).1)

    module _ {sv : Server} {input : ℕ → Bytes → ℕ → Result ℕ}
        (stable : (g : Gucs) → IsStable g → (server_of g ≡ sv) × (input_of g ≡ input))
        (oid_input : (infunc ioparam : ℕ) (text : Bytes)
          → or_raise (sv.call_input infunc text ioparam)
            ≡ bind
                (or_raise (sv.fmgr_info infunc))
                (λ finfo. or_raise (input finfo text ioparam))) where
      module _ (relid : ℕ) (st : PlanState) (cache : Cache) where
        -- The columns of the relation in the plan's table, once they are loaded.
        abbrev pub loaded_cols : List ColSummary
        loaded_cols =
            rows_or_empty
              (get relid (load_summary api get_am_oid opened relid indexlist st cache).0.summaries)

        abbrev RunsTo : Bool → Bool × PlanState × Cache → Type 0
        RunsTo b r = Runs sv input relid b st cache r

        RunsTo-if :
            (c b b' : Bool) (r r' : Bool × PlanState × Cache)
            → RunsTo b r
            → RunsTo b' r'
            → RunsTo (if c then b else b') (if c then r else r')
        RunsTo-if true b b' r r' h k = h
        RunsTo-if false b b' r r' h k = k

        module _ (f : Faithful sv input st) where
          not_run : RunsTo false (false, st, cache)
          not_run = record { same = refl; faithful = f; depth = refl; cached = inl refl }

          Faithful-loaded :
              Faithful sv input (load_summary api get_am_oid opened relid indexlist st cache).0
          Faithful-loaded =
              let s = load_summary-SameTables api get_am_oid opened relid indexlist st cache in
              record {
                fmgr = rw s.fmgr_memo f.fmgr;
                inputs = rw s.input_info_memo f.inputs;
                ops = rw s.op_memo f.ops;
              }

          decided-inner :
              (clauses : List Node)
              → RunsTo
                  (caught (evaluate_relation_inner sv clauses loaded_cols))
                  (decided st cache (some (inner_run sv input relid clauses st cache)))
          unfolding inner_run
          decided-inner clauses =
              let after = load_summary api get_am_oid opened relid indexlist st cache in
              let s = load_summary-SameTables api get_am_oid opened relid indexlist st cache in
              let a =
                (rows_cached-Refines sv input oid_input clauses (get relid after.0.summaries)).at
                  after.0 Faithful-loaded in
              record {
                same = ap caught a.same;
                faithful = a.faithful;
                depth = a.depth ∙ s.depth;
                cached = inr refl;
              }

          -- The settings are pinned for both, or neither runs.
          decided-evaluate :
              (session : Session) (clauses : List Node)
              → RunsTo (caught (evaluate_relation server_of session clauses loaded_cols)) (
                  decided st cache
                    (with_stable_io
                      (λ g. inner_run (server_of g) (input_of g) relid clauses st cache)
                      session).0)
          unfolding evaluate_relation
          decided-evaluate session clauses =
              rw
                (
                  with_stable_io-map
                      (λ g. inner_run (server_of g) (input_of g) relid clauses st cache) session,
                  with_stable_io-map
                      (λ g. evaluate_relation_inner (server_of g) clauses loaded_cols) session,
                )
                (elim (with_stable_io-IsStable (λ g. g) session) [
                  | inl (g, ran, calm) ↦
                      rw (ran, (stable g calm).0, (stable g calm).1) (decided-inner clauses)
                  | inr (idle, parallel, q) ↦ rw idle not_run
                ])

      -- The hook with its state marks a relation as empty just when the hook does that is given the
      -- relation's columns, as they are in the plan's table once loaded. It leaves the tables of the plan
      -- faithful if they were, the counter as it was, and the backend's cache as it was or with what was
      -- loaded; an ERROR included, and whatever the session's settings are.
      pub hook_run-pathlist_hook :
          (session : Session) (in_hook enable_pruning : Bool) (rel : PlannedRel) (st : PlanState)
          (cache : Cache)
          → Faithful sv input st
          → Runs sv input rel.relid
              (pathlist_hook server_of session in_hook enable_pruning rel
                (loaded_cols rel.relid st cache))
              st
              cache
              (hook_run session in_hook enable_pruning rel st cache)
      unfolding hook_run pathlist_hook
      hook_run-pathlist_hook session in_hook enable_pruning rel st cache f = guard in_hook (
          guard (not enable_pruning) (
            guard (not (is_scanned rel.kind)) (
              guard (not rel.is_table) (
                guard (rel.relid == invalid_oid)
                  (decided-evaluate rel.relid st cache f session rel.clauses)))))
        where
          guard :
              (c : Bool) {b : Bool} {r : Bool × PlanState × Cache}
              → Runs sv input rel.relid b st cache r
              → Runs sv input rel.relid
                  (if c then false else b)
                  st
                  cache
                  (if c then (false, st, cache) else r)
          guard c h =
              RunsTo-if rel.relid st cache c false _ (false, st, cache) _
                (not_run rel.relid st cache f) h
