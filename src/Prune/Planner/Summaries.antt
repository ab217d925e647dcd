-- ===== src/Prune/Planner/Summaries.antt =====
-- The summary of a planned relation, through the table of the plan and the cache of the backend
-- (src/prune_hook.rs: `table_range_am_oid`, `load_summary`, `read_index_summary`).
pub mod Reads
pub mod Current
use pg_table_range.Base.{ℕ, Option, none, some, List, ◌∷◌, ◌==◌, if◌then◌else◌, []}
use pg_table_range.Summary.{ColSummary, IndexSummary}
use pg_table_range.Metapage.{Page, PageApi, read_summary}
use pg_table_range.Server.{invalid_oid}
use pg_table_range.Cache.{Cache, get, put}
use pg_table_range.Prune.Planner.{PlanState}

-- An entry of `rel->indexlist`.
pub record IndexOptInfo : Type 0 where
  pub indexoid : ℕ
  pub relam : ℕ

-- The loop's choice: the first index of the access method; null entries are passed over.
unfoldable pub first_index : ℕ → List (Option IndexOptInfo) → Option ℕ
first_index am [] = none
first_index am (none ∷ rest) = first_index am rest
first_index am (some i ∷ rest) = if i.relam == am then some i.indexoid else first_index am rest

unfoldable pub cols_or_empty : Option IndexSummary → List ColSummary
cols_or_empty none = []
cols_or_empty (some s) = s.cols

-- `get_am_oid` is the access method's Oid in the catalog. `opened` gives an index's blocks, and `none`
-- for a partitioned index, which has no storage.
module _ (api : PageApi) (get_am_oid : ℕ) (opened : ℕ → Option (List Page)) where
  abbrev am_found : PlanState → Option ℕ → ℕ × PlanState
  am_found st (some oid) = (oid, st)
  am_found st none = (get_am_oid, record st { am_oid = some get_am_oid })

  unfoldable pub table_range_am_oid : PlanState → ℕ × PlanState
  table_range_am_oid st = am_found st st.am_oid

  -- `read_summary` of an index with storage.
  unfoldable pub stored_cols : Option (List Page) → List ColSummary
  unfolding cols_or_empty read_summary
  stored_cols none = []
  stored_cols (some pages) = cols_or_empty (read_summary api pages)

  abbrev cached_cols : ℕ → Cache → Option (List ColSummary) → List ColSummary × Cache
  cached_cols indexoid cache (some cols) = (cols, cache)
  cached_cols indexoid cache none =
      let cols = stored_cols (opened indexoid) in (cols, put indexoid cols cache)

  abbrev index_cols : Cache → Option ℕ → List ColSummary × Cache
  index_cols cache none = ([], cache)
  index_cols cache (some indexoid) = cached_cols indexoid cache (get indexoid cache)

  abbrev cols_of_am :
      List (Option IndexOptInfo) → Cache → ℕ × PlanState → List ColSummary × PlanState × Cache
  cols_of_am indexlist cache (am, st) =
      if am == invalid_oid
      then ([], st, cache)
      else let (cols, cache') = index_cols cache (first_index am indexlist) in (cols, st, cache')

  unfoldable pub read_index_summary :
      List (Option IndexOptInfo) → PlanState → Cache → List ColSummary × PlanState × Cache
  unfolding table_range_am_oid first_index stored_cols get put
  read_index_summary indexlist st cache = cols_of_am indexlist cache (table_range_am_oid st)

  abbrev remembered : ℕ → List ColSummary × PlanState × Cache → PlanState × Cache
  remembered relid (cols, st, cache) =
      (record st { summaries = put relid cols st.summaries }, cache)

  abbrev loaded :
      ℕ
      → List (Option IndexOptInfo)
      → PlanState
      → Cache
      → Option (List ColSummary)
      → PlanState × Cache
  loaded relid indexlist st cache (some cols) = (st, cache)
  loaded relid indexlist st cache none = remembered relid (read_index_summary indexlist st cache)

  pub load_summary : ℕ → List (Option IndexOptInfo) → PlanState → Cache → PlanState × Cache
  unfolding read_index_summary get put
  load_summary relid indexlist st cache = loaded relid indexlist st cache (get relid st.summaries)
