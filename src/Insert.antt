-- ===== src/Insert.antt =====
-- `aminsert` (src/index_am.rs: `am_insert`, `widen_on_insert`). One turn of the loop has two
-- accesses to the metapage, the read and the compare-and-swap; other backends may run between them.
pub mod Improves
pub mod Swap
pub mod Decides
pub mod Concurrent
mod Tests
use pg_table_range.Base.{
  ℕ, Bool, true, false, Option, none, some, List, Result, ok, err, Attempt, known, unknown, raised,
  Error, parallel_mode, if◌then◌else◌,
}
use pg_table_range.Bytes.{Bytes}
use pg_table_range.Summary.{IndexSummary}
use pg_table_range.Codec.{deserialize}
use pg_table_range.Fitting.{Encoded, encode_fitting}
use pg_table_range.Metapage.{Page, PageApi, read_blob, replace_blob_if}
use pg_table_range.Cache.{note_widened}
use pg_table_range.Server.{Server}
use pg_table_range.StableIo.{Gucs, Session, with_stable_io}
use pg_table_range.Widen.{Attribute, widen_summary}

-- What the code between the two accesses decides: to return, or to swap the blob it has read.
pub data Plan : Type 0 where
  finished : Plan
  swap : Bytes → Bytes → Plan

-- `none` would be an `encode_fitting` that has run out of fuel.
pub plan_swap : Bytes → Option Encoded → Attempt Plan
plan_swap before none = unknown
plan_swap before (some after) = known (swap before after.bytes)

pub plan_changed : ℕ → Bytes → Attempt (Bool × IndexSummary) → Attempt Plan
unfolding plan_swap
plan_changed blcksz before (known (changed, summary)) =
    if changed then plan_swap before (encode_fitting blcksz summary) else known finished
plan_changed blcksz before unknown = unknown
plan_changed blcksz before (raised e) = raised e

-- `unwrap_or_else(|| error!(…))`: the closure was not run.
pub plan_run : ℕ → Bytes → Option (Attempt (Bool × IndexSummary)) → Attempt Plan
unfolding plan_changed
plan_run blcksz before none = raised parallel_mode
plan_run blcksz before (some r) = plan_changed blcksz before r

module _ (server_of : Gucs → Server) (blcksz : ℕ) (session : Session)
    (attributes : List Attribute) where
  pub plan_summary : Bytes → Option IndexSummary → Attempt Plan
  unfolding plan_run
  plan_summary before none = known finished
  plan_summary before (some summary) =
      plan_run blcksz before
        (with_stable_io (λ g. widen_summary (server_of g) summary attributes) session).0

  -- From the blob that was read to the decision.
  unfoldable pub plan_insert : Option Bytes → Attempt Plan
  unfolding plan_summary
  plan_insert none = known finished
  plan_insert (some before) = plan_summary before (deserialize before)

-- What the backends share: the blocks of the index, and the invalidation messages sent.
pub record Shared : Type 0 where
  pub pages : List Page
  pub messages : List ℕ

-- What the compare-and-swap means for the loop: another turn, the end of the insert, or an ERROR.
pub data Swapped : Type 0 where
  again : Swapped
  widened : Swapped
  failed : Error → Swapped

module _ (indexoid heapoid : ℕ) where
  pub after_swap : Shared → Result (Bool × List Page) → Swapped × Shared
  after_swap sh (ok (true, pages)) =
      (widened, record sh { pages = pages; messages = note_widened indexoid heapoid sh.messages })
  after_swap sh (ok (false, pages)) = (again, record sh { pages = pages })
  after_swap sh (err e) = (failed e, sh)

  unfoldable pub swap_blob : PageApi → Shared → Bytes → Bytes → Swapped × Shared
  unfolding after_swap
  swap_blob api sh before after = after_swap sh (replace_blob_if api sh.pages before after)
