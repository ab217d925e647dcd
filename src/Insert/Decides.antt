-- ===== src/Insert/Decides.antt =====
-- A turn of `widen_on_insert` always ends in a decision or an ERROR (src/index_am.rs).
use pg_table_range.Base.{
  ℕ, refl, Bool, true, false, Option, none, some, List, inl, inr, Attempt, known, unknown, raised,
}
use pg_table_range.Bytes.{Bytes}
use pg_table_range.Summary.{IndexSummary}
use pg_table_range.Codec.{deserialize}
use pg_table_range.Fitting.Loop.{encode_fitting-Fits}
use pg_table_range.Server.{Server}
use pg_table_range.StableIo.{Gucs, Session}
use pg_table_range.StableIo.Pinned.{with_stable_io-IsStable}
use pg_table_range.Widen.{Attribute, widen_summary}
use pg_table_range.Widen.Decides.{Decides, widen_summary-Decides}
use pg_table_range.Insert.{plan_swap, plan_changed, plan_run, plan_summary, plan_insert}

module _ (server_of : Gucs → Server) (blcksz : ℕ) (session : Session)
    (attributes : List Attribute) where
  plan_changed-Decides :
      (before : Bytes) (m : Attempt (Bool × IndexSummary))
      → Decides m
      → Decides (plan_changed blcksz before m)
  unfolding plan_changed plan_swap
  plan_changed-Decides before (known (true, s)) h =
      let (e, run, f) = encode_fitting-Fits blcksz s in rw run (λ q. cc)
  plan_changed-Decides before (known (false, s)) h = λ q. cc
  plan_changed-Decides before unknown h = absurd (h refl)
  plan_changed-Decides before (raised x) h = λ q. cc

  plan_summary-Decides :
      (before : Bytes) (o : Option IndexSummary)
      → Decides (plan_summary server_of blcksz session attributes before o)
  unfolding plan_summary plan_run
  plan_summary-Decides before none = λ q. cc
  plan_summary-Decides before (some s) =
      elim (with_stable_io-IsStable (λ g. widen_summary (server_of g) s attributes) session) [
        | inl (g, ran, stable) ↦
            rw ran
              (plan_changed-Decides before _ (widen_summary-Decides (server_of g) s attributes))
        | inr (idle, parallel, q) ↦ rw idle (λ e. cc)
      ]

  -- For every blob that a turn of the loop may have read, it decides to return or to swap, or it
  -- raises an ERROR.
  pub plan_insert-Decides :
      (o : Option Bytes) → Decides (plan_insert server_of blcksz session attributes o)
  unfolding plan_insert
  plan_insert-Decides none = λ q. cc
  plan_insert-Decides (some b) = plan_summary-Decides b (deserialize b)
