-- ===== src/Coherence/Steps.antt =====
-- Every step of the backends keeps what is said of their caches (src/summary_cache.rs).
use pg_table_range.Base.{
  ℕ, ◌≡◌, refl, sym, ap, subst, ◌∙◌, inl, inr, Option, some, List, [], ==_refl,
}
use mathlib.Core.Option.{some-injective}
use pg_table_range.Summary.{ColSummary}
use pg_table_range.Metapage.{Page, PageApi, PageLaws, read_summary}
use pg_table_range.Server.{Server}
use pg_table_range.StableIo.{Gucs, Session}
use pg_table_range.StableIo.Pinned.{IsStable}
use pg_table_range.Widen.Row.{Table}
use pg_table_range.Cache.{Cache, get}
use pg_table_range.Cache.Laws.{get-put}
use pg_table_range.Insert.Concurrent.{System, Inv as TurnInv, Step-Inv as Turn-Inv}
use pg_table_range.Prune.Planner.{PlanState}
use pg_table_range.Prune.Planner.Summaries.{IndexOptInfo, stored_cols}
use pg_table_range.Prune.Planner.Summaries.Reads.{ReadFrom, read_index_summary-ReadFrom}
use pg_table_range.Coherence.{
  Cluster, set_at, returned, Counts, after_turn, opened, plan_read, Event, work, work_exposed,
  end_command, commit, abort, notice, receive, reset, load, Reach, here, next,
}
use pg_table_range.Coherence.Excuses.{set_at-cases}
use pg_table_range.Coherence.Kept.{stored, Claims, Inv, IsTurn, stored-Covers}
use pg_table_range.Coherence.Turns.{Settled-After, counted_rows, within-After}
use pg_table_range.Coherence.Queue.{Settled-Same, receive-Inv, reset-Inv, notice-Inv}
use pg_table_range.Coherence.Ends.{end_command-Inv, commit-Inv, abort-Inv}

module _ {sv : Server} (table : Table sv) (server_of : Gucs → Server) (api : PageApi)
    (session : ℕ → Session) (ns : List ℕ) (indexoid heapoid : ℕ) where
  abbrev Holds : Cluster → Type 0
  Holds = Inv table server_of api session ns indexoid heapoid

  module _ (laws : PageLaws api) (stable : (g : Gucs) → IsStable g → server_of g ≡ sv)
      (get_am_oid : ℕ) (others : ℕ → Option (List Page)) where
    abbrev open_now : Cluster → ℕ → Option (List Page)
    open_now s = opened table server_of api session ns indexoid heapoid get_am_oid others s

    -- The stored columns are a settled entry.
    pub stored-Settled :
        (s : Cluster) (j : ℕ)
        → Holds s
        → Claims table server_of api session ns indexoid heapoid s j
            (stored table server_of api session ns indexoid heapoid s.inserts)
    stored-Settled s j v =
        let (collated, covers) =
          stored-Covers table server_of api session ns indexoid heapoid
            (read_summary api s.inserts.shared.pages) s.inserts.inserted v.turns.covered in
        let within = v.within _ covers in
        (
          collated,
          inr (record { fresh = inl refl; committed = within.0; written = λ k. inr (within.1 k) }),
        )

    pub opened-stored :
        (s : Cluster) (k : ℕ)
        → indexoid ≡ k
        → stored_cols api get_am_oid (open_now s) (open_now s k)
          ≡ stored table server_of api session ns indexoid heapoid s.inserts
    unfolding stored_cols
    opened-stored s k e = rw (← e, ==_refl indexoid) refl

    -- What is said of an entry does not depend on the caches.
    recached :
        (s : Cluster) (caches : ℕ → Cache) (j : ℕ) (cols : List ColSummary)
        → Claims table server_of api session ns indexoid heapoid s j cols
        → Claims table server_of api session ns indexoid heapoid
            (record s { cache = caches })
            j
            cols
    recached s caches j cols (collated, c) = (
      collated,
      elim c [
        | inl q ↦ inl q
        | inr fine ↦ inr (
            Settled-Same table server_of api session ns indexoid heapoid s
              (record s { cache = caches }) j cols (refl, refl, refl, refl) (λ k u. u) fine)
      ],
    )

    load-Inv :
        (s : Cluster) (i : ℕ) (st : PlanState) (indexlist : List (Option IndexOptInfo))
        → Holds s
        → Holds (record s {
          cache =
              set_at s.cache i
                (plan_read table server_of api session ns indexoid heapoid get_am_oid others s i st
                  indexlist).2;
        })
    load-Inv s i st indexlist v = record {
      turns = v.turns;
      within = v.within;
      cached = λ j cols h.
          recached s (set_at s.cache i after) j cols (elim (set_at-cases s.cache i after j) [
            | inl (same, e) ↦
                subst (λ z. Claimed z cols) same
                  (from_read cols _
                    (read_index_summary-ReadFrom api get_am_oid (open_now s) indexlist st
                      (s.cache i))
                    (ap (get indexoid) (sym e) ∙ h))
            | inr (n, e) ↦ v.cached j cols (ap (get indexoid) (sym e) ∙ h)
          ]);
    }
      where
        after : Cache
        after =
            (plan_read table server_of api session ns indexoid heapoid get_am_oid others s i st
              indexlist).2

        Claimed : ℕ → List ColSummary → Type 0
        Claimed = Claims table server_of api session ns indexoid heapoid s

        kept :
            (cols : List ColSummary)
            → after ≡ s.cache i
            → get indexoid after ≡ some cols
            → Claimed i cols
        kept cols e h = v.cached i cols (ap (get indexoid) (sym e) ∙ h)

        from_read :
            (cols : List ColSummary) (index : Option ℕ)
            → ReadFrom api get_am_oid (open_now s) (s.cache i) index (
                plan_read table server_of api session ns indexoid heapoid get_am_oid others s i st
                  indexlist)
            → get indexoid after ≡ some cols
            → Claimed i cols
        from_read cols index (inl (e, same)) h = kept cols same h
        from_read cols index (inr (k, e, inl (found, same))) h = kept cols same h
        from_read cols index (inr (k, e, inr (read, same))) h =
            elim (get-put indexoid k (stored_cols api get_am_oid (open_now s) (open_now s k))
              (s.cache i)) [
                | inl (found_it, q) ↦
                    subst (Claimed i)
                      (some-injective _ cols (
                        ap some (sym (opened-stored s k found_it))
                        ∙ sym q
                        ∙ ap (get indexoid) (sym same)
                        ∙ h))
                      (stored-Settled s i v)
                | inr (other, q) ↦ v.cached i cols (sym q ∙ ap (get indexoid) (sym same) ∙ h)
              ]

    turn-Inv :
        (s : Cluster) {w : System}
        (turn : IsTurn table server_of api session ns indexoid heapoid s.inserts w)
        → Counts table server_of api session ns indexoid heapoid s turn
        → Holds s
        → Holds (
            after_turn table server_of api session ns indexoid heapoid s turn
              (returned table server_of api session ns indexoid heapoid turn)
              [])
    turn-Inv s {w} turn counts v = record {
      turns = after;
      within =
          within-After table server_of api session ns indexoid heapoid laws stable s turn []
            (returned table server_of api session ns indexoid heapoid turn) (λ cols h. h) v.within;
      cached = λ j cols h.
          let (collated, c) = v.cached j cols h in
          (
            collated,
            elim c [
              | inl q ↦ inl q
              | inr fine ↦ inr (
                  Settled-After table server_of api session ns indexoid heapoid laws stable s turn
                    [] (returned table server_of api session ns indexoid heapoid turn) j cols
                    (counted_rows table server_of api session ns indexoid heapoid laws stable s turn
                      [] j cols after.covered counts fine)
                    fine)
            ],
          );
    }
      where
        after : TurnInv table server_of api session ns indexoid heapoid w
        after = Turn-Inv table server_of api session ns indexoid heapoid laws stable turn v.turns

    exposed-Inv :
        (s : Cluster) {w : System}
        (turn : IsTurn table server_of api session ns indexoid heapoid s.inserts w)
        → Holds s
        → Holds (
            after_turn table server_of api session ns indexoid heapoid s turn []
              (returned table server_of api session ns indexoid heapoid turn))
    exposed-Inv s turn v = record {
      turns = Turn-Inv table server_of api session ns indexoid heapoid laws stable turn v.turns;
      within =
          within-After table server_of api session ns indexoid heapoid laws stable s turn
            (returned table server_of api session ns indexoid heapoid turn) [] (λ cols h. tt)
            v.within;
      cached = λ j cols h.
          let (collated, c) = v.cached j cols h in
          (
            collated,
            elim c [
              | inl q ↦ inl q
              | inr fine ↦ inr (
                  Settled-After table server_of api session ns indexoid heapoid laws stable s turn
                    (returned table server_of api session ns indexoid heapoid turn) [] j cols
                    (inr tt) fine)
            ],
          );
    }

    Event-Inv :
        {s t : Cluster}
        → Event table server_of api session ns indexoid heapoid get_am_oid others s t
        → Holds s
        → Holds t
    Event-Inv {s} (work turn counts) v = turn-Inv s turn counts v
    Event-Inv {s} (work_exposed turn) v = exposed-Inv s turn v
    Event-Inv {s} (end_command i) v =
        end_command-Inv table server_of api session ns indexoid heapoid s i v
    Event-Inv {s} (commit i at) v = commit-Inv table server_of api session ns indexoid heapoid s i v
    Event-Inv {s} (abort i at) v = abort-Inv table server_of api session ns indexoid heapoid s i v
    Event-Inv {s} (notice ms) v = notice-Inv table server_of api session ns indexoid heapoid s ms v
    Event-Inv {s} (receive i m ms e) v =
        receive-Inv table server_of api session ns indexoid heapoid s i m ms e v
    Event-Inv {s} (reset i) v = reset-Inv table server_of api session ns indexoid heapoid s i v
    Event-Inv {s} (load i st indexlist) v = load-Inv s i st indexlist v

    pub Reach-Inv :
        {s t : Cluster}
        → Holds s
        → Reach table server_of api session ns indexoid heapoid get_am_oid others s t
        → Holds t
    Reach-Inv v here = v
    Reach-Inv v (next r step) = Event-Inv step (Reach-Inv v r)
