-- ===== src/Coherence.antt =====
-- Backends with transactions, their inserts into one partition (src/index_am.rs, `widen_on_insert`),
-- the invalidations of src/summary_cache.rs, and the reads of the planner (src/prune_hook.rs,
-- `read_index_summary`). PostgreSQL's part is as documented: a transaction keeps its invalidations,
-- applies them to its own backend at the end of a command, sends them to every backend when it commits,
-- and applies only those of its ended commands when it aborts; a commit is one step.
pub mod Excuses
pub mod Kept
pub mod Turns
pub mod Queue
pub mod Ends
pub mod Steps
pub mod Planned
pub mod Stale
mod Tests
use pg_table_range.Base.{
  ℕ, ◌≡◌, ◌≢◌, Bool, false, ◌||◌, Option, some, List, ◌∷◌, ◌++◌, ◌==◌, if◌then◌else◌, [],
}
use pg_table_range.Summary.{ColSummary}
use pg_table_range.Metapage.{Page, PageApi}
use pg_table_range.Server.{Server}
use pg_table_range.StableIo.{Gucs, Session}
use pg_table_range.Widen.Row.{Row, Table}
use pg_table_range.Cache.{Cache, note_widened, relcache_callback}
use pg_table_range.Cache.Laws.{deliver}
use pg_table_range.Insert.Concurrent.{
  System, outside, begin, return, decide, error, win, lose, refuse, backend_of, Step as InsertStep,
}
use pg_table_range.Prune.Planner.{PlanState}
use pg_table_range.Prune.Planner.Summaries.{IndexOptInfo, read_index_summary}

-- `committed` and `written` are the counted rows of committed transactions and of the open one of each
-- backend, `uncounted` and `exposed` the rows that are not counted;
-- `current` and `prior` its invalidations, of the command that runs and of those that have ended;
-- `dropped` records that a transaction which had widened the summary has aborted.
pub record Cluster : Type 0 where
  pub inserts : System
  pub current : ℕ → List ℕ
  pub prior : ℕ → List ℕ
  pub queue : ℕ → List ℕ
  pub cache : ℕ → Cache
  pub written : ℕ → List Row
  pub committed : List Row
  pub exposed : ℕ → List Row
  pub uncounted : List Row
  pub dropped : Bool

abbrev pub set_at {ℓ} : {A : Type ℓ} → (ℕ → A) → ℕ → A → ℕ → A
set_at f i a j = if i == j then a else f j

-- Whether one of the messages drops the index's entry.
abbrev pub invalidates : ℕ → List ℕ → Bool
invalidates indexoid [] = false
invalidates indexoid (m ∷ ms) = m == 0 || m == indexoid || invalidates indexoid ms

abbrev pub all_of : Cluster → ℕ → List ℕ
all_of s k = s.prior k ++ s.current k

module _ {sv : Server} (table : Table sv) (server_of : Gucs → Server) (api : PageApi)
    (session : ℕ → Session) (ns : List ℕ) (indexoid heapoid : ℕ) where
  abbrev pub Turn : System → System → Type 0
  Turn = InsertStep table server_of api session ns indexoid heapoid

  -- The invalidations of the turn.
  abbrev pub noted : {v w : System} → Turn v w → List ℕ
  noted (begin i row at) = []
  noted (return i row at run) = []
  noted (decide i row before after at run) = []
  noted (error i row e at run) = []
  noted (win i row before after sh at run) = note_widened indexoid heapoid []
  noted (lose i row before after sh at run) = []
  noted (refuse i row before after e sh at run) = []

  -- The row whose `aminsert` returns with the turn.
  abbrev pub returned : {v w : System} → Turn v w → List Row
  returned (begin i row at) = []
  returned (return i row at run) = row ∷ []
  returned (decide i row before after at run) = []
  returned (error i row e at run) = []
  returned (win i row before after sh at run) = row ∷ []
  returned (lose i row before after sh at run) = []
  returned (refuse i row before after e sh at run) = []

  -- No other transaction holds back, or has lost, the invalidations of a widening.
  abbrev pub Announced : Cluster → ℕ → Type 0
  Announced s i =
      (s.dropped ≡ false) × ((k : ℕ) → k ≢ i → invalidates indexoid (all_of s k) ≡ false)

  -- What a turn has to meet for its row to be counted: an insert that finds its row covered already
  -- relies on widenings that are announced, or its own.
  abbrev pub Counts : (s : Cluster) {w : System} → Turn s.inserts w → Type 0
  Counts s (begin i row at) = Unit
  Counts s (return i row at run) = Announced s i
  Counts s (decide i row before after at run) = Unit
  Counts s (error i row e at run) = Unit
  Counts s (win i row before after sh at run) = Unit
  Counts s (lose i row before after sh at run) = Unit
  Counts s (refuse i row before after e sh at run) = Unit

  -- `rows` are counted, `others` not.
  abbrev pub after_turn :
      (s : Cluster) {w : System} → Turn s.inserts w → List Row → List Row → Cluster
  after_turn s {w} turn rows others =
      let i = backend_of table server_of api session ns indexoid heapoid turn in
      record s {
        inserts = w;
        current = set_at s.current i (s.current i ++ noted turn);
        written = set_at s.written i (rows ++ s.written i);
        exposed = set_at s.exposed i (others ++ s.exposed i);
      }

  -- `others` are the blocks of the indexes but this one, and `get_am_oid` the access method's Oid.
  module _ (get_am_oid : ℕ) (others : ℕ → Option (List Page)) where
    abbrev pub opened : Cluster → ℕ → Option (List Page)
    opened s k = if k == indexoid then some s.inserts.shared.pages else others k

    abbrev pub plan_read :
        Cluster → ℕ → PlanState → List (Option IndexOptInfo) → List ColSummary × PlanState × Cache
    plan_read s i st indexlist =
        read_index_summary api get_am_oid (opened s) indexlist st (s.cache i)

    pub data Event (s : Cluster) : Cluster → Type 0 where
      work :
          {w : System} (turn : Turn s.inserts w)
          → Counts s turn
          → Event s (after_turn s turn (returned turn) [])
      -- The row of such a turn is not counted.
      work_exposed :
          {w : System} (turn : Turn s.inserts w) → Event s (after_turn s turn [] (returned turn))
      end_command :
          (i : ℕ)
          → Event s (record s {
            cache = set_at s.cache i (deliver (s.current i) (s.cache i));
            prior = set_at s.prior i (all_of s i);
            current = set_at s.current i [];
          })
      commit :
          (i : ℕ)
          → s.inserts.pc i ≡ outside
          → Event s (record s {
            queue = λ j. s.queue j ++ all_of s i;
            prior = set_at s.prior i [];
            current = set_at s.current i [];
            committed = s.written i ++ s.committed;
            written = set_at s.written i [];
            uncounted = s.exposed i ++ s.uncounted;
            exposed = set_at s.exposed i [];
          })
      abort :
          (i : ℕ)
          → s.inserts.pc i ≡ outside
          → Event s (record s {
            cache = set_at s.cache i (deliver (s.prior i) (s.cache i));
            prior = set_at s.prior i [];
            current = set_at s.current i [];
            written = set_at s.written i [];
            exposed = set_at s.exposed i [];
            dropped = s.dropped || invalidates indexoid (all_of s i);
          })
      -- Invalidations that other commands send.
      notice : (ms : List ℕ) → Event s (record s { queue = λ j. s.queue j ++ ms })
      receive :
          (i m : ℕ) (ms : List ℕ)
          → s.queue i ≡ m ∷ ms
          → Event s (record s {
            queue = set_at s.queue i ms;
            cache = set_at s.cache i (relcache_callback m (s.cache i));
          })
      -- A backend that has fallen behind is told to flush everything.
      reset : (i : ℕ) → Event s (record s { queue = set_at s.queue i (0 ∷ []) })
      load :
          (i : ℕ) (st : PlanState) (indexlist : List (Option IndexOptInfo))
          → Event s (record s { cache = set_at s.cache i (plan_read s i st indexlist).2 })

    pub data Reach (s : Cluster) : Cluster → Type 0 where
      here : Reach s s
      next : {t u : Cluster} → Reach s t → Event t u → Reach s u
