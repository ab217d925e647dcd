-- ===== src/Coherence/Stale.antt =====
-- How a committed row is missed: what happens where an insert relies on a widening that is not announced
-- (src/summary_cache.rs, `note_widened`; src/index_am.rs, `widen_on_insert`).
use pg_table_range.Base.{
  ℕ, ◌≡◌, refl, sym, subst, Bool, true, false, All, Option, some, List, [], ◌∷◌, ◌++◌, ◌==◌,
  ==_refl, append-nil, known,
}
use pg_table_range.Summary.{ColSummary}
use pg_table_range.Metapage.{Page, PageApi}
use pg_table_range.Server.{Server, invalid_oid}
use pg_table_range.StableIo.{Gucs, Session}
use pg_table_range.Widen.Row.{Row, Table}
use pg_table_range.Cache.{get}
use pg_table_range.Insert.{finished}
use pg_table_range.Insert.Concurrent.{outside, at_read, set_pc, plan_of, return}
use pg_table_range.Prune.Clause.Tree.{IsTrue}
use pg_table_range.Prune.Clause.Truth.{Expressions, LeafTrue}
use pg_table_range.Prune.Relation.{PlannedRel, pathlist_hook}
use pg_table_range.Prune.Planner.{PlanState}
use pg_table_range.Prune.Planner.Summaries.{IndexOptInfo, first_index, table_range_am_oid}
use pg_table_range.Prune.Planner.Summaries.Reads.{read_index_summary-cached}
use pg_table_range.Coherence.{
  Cluster, set_at, invalidates, all_of, Turn, after_turn, opened, plan_read, Reach, here, next,
  work_exposed, commit,
}
use pg_table_range.Coherence.Excuses.{invalidates-append}

module _ {sv : Server} (table : Table sv) (server_of : Gucs → Server) (api : PageApi)
    (session : ℕ → Session) (ns : List ℕ) (indexoid heapoid : ℕ) (get_am_oid : ℕ)
    (others : ℕ → Option (List Page)) (planning : Session) (in_hook enable_pruning : Bool)
    (rel : PlannedRel) (expressions : (row : Row) → Expressions row) where
  abbrev am_oid : Cluster → PlanState → ℕ
  am_oid t st =
      (table_range_am_oid api get_am_oid
        (opened table server_of api session ns indexoid heapoid get_am_oid others t) st).0

  -- Backend `b`'s insert of the row has returned and its transaction has committed, so that the row is
  -- one of the rows of committed transactions. Backend `j` has received every message about the index.
  -- Given the columns that it plans with, the hook leaves the relation out, although the row satisfies
  -- all the restriction clauses.
  pub record Missed (s : Cluster) (b j : ℕ) (row : Row) : Type 0 where
    pub state : Cluster
    pub reached : Reach table server_of api session ns indexoid heapoid get_am_oid others s state
    pub inserted : state.inserts.inserted ≡ row ∷ s.inserts.inserted
    pub left : state.inserts.pc b ≡ outside
    pub committed : state.uncounted ≡ row ∷ (s.exposed b ++ s.uncounted)
    pub ended : state.exposed b ≡ []
    pub sent : all_of state b ≡ []
    pub received : invalidates indexoid (state.queue j) ≡ false
    pub matches : All (IsTrue (LeafTrue sv (expressions row))) rel.clauses
    pub pruned :
        (st : PlanState) (indexlist : List (Option IndexOptInfo))
        → (am_oid state st == invalid_oid) ≡ false
        → first_index (am_oid state st) indexlist ≡ some indexoid
        → pathlist_hook server_of planning in_hook enable_pruning rel
            (plan_read table server_of api session ns indexoid heapoid get_am_oid others state j st
              indexlist).0
          ≡ true

  set_at-same {ℓ} : {A : Type ℓ} (f : ℕ → A) (i : ℕ) (a : A) → set_at f i a i ≡ a
  set_at-same f i a = rw (==_refl i) refl

  -- The counting condition is needed. If an insert finds its row covered by the stored summary while
  -- another backend has cached columns by which the hook leaves the relation out, though the row
  -- satisfies all the restriction clauses, no message about the index is on its way to that backend, and
  -- the insert's transaction has none to send, then the insert returns, its transaction commits, and the
  -- other backend, whenever it plans the relation by this index, still leaves it out: it misses the
  -- committed row.
  pub Reach-Missed :
      (s : Cluster) (b j : ℕ) (row : Row) (cols : List ColSummary)
      → s.inserts.pc b ≡ at_read row
      → plan_of table server_of api session ns indexoid heapoid b row s.inserts.shared.pages
        ≡ known finished
      → get indexoid (s.cache j) ≡ some cols
      → pathlist_hook server_of planning in_hook enable_pruning rel cols ≡ true
      → All (IsTrue (LeafTrue sv (expressions row))) rel.clauses
      → invalidates indexoid (s.queue j) ≡ false
      → invalidates indexoid (all_of s b) ≡ false
      → Missed s b j row
  Reach-Missed s b j row cols at run found prunes holds quiet none_held = record {
    state = t;
    reached = next (next here (work_exposed turn)) (commit b (set_at-same s.inserts.pc b outside));
    inserted = refl;
    left = set_at-same s.inserts.pc b outside;
    committed = rw ==_refl refl;
    ended = rw ==_refl refl;
    matches = holds;
    sent = rw ==_refl refl;
    received =
        rw
          (
            invalidates-append indexoid (s.queue j) (all_of u b),
            set_at-same s.current b (s.current b ++ []),
            append-nil (s.current b),
            quiet,
            none_held,
          )
          refl;
    pruned = λ st indexlist has_am first.
        subst (λ z. pathlist_hook server_of planning in_hook enable_pruning rel z ≡ true)
          (sym (
            read_index_summary-cached api get_am_oid
              (opened table server_of api session ns indexoid heapoid get_am_oid others t) indexlist
              st (s.cache j) indexoid cols has_am first found))
          prunes;
  }
    where
      turn : Turn table server_of api session ns indexoid heapoid s.inserts (record s.inserts {
        pc = set_pc s.inserts.pc b outside;
        inserted = row ∷ s.inserts.inserted;
      })
      turn = return b row at run

      u : Cluster
      u = after_turn table server_of api session ns indexoid heapoid s turn [] (row ∷ [])

      t : Cluster
      t = record u {
        queue = λ k. u.queue k ++ all_of u b;
        prior = set_at u.prior b [];
        current = set_at u.current b [];
        committed = u.written b ++ u.committed;
        written = set_at u.written b [];
        uncounted = u.exposed b ++ u.uncounted;
        exposed = set_at u.exposed b [];
      }
