-- ===== src/Coherence/Turns.antt =====
-- A turn of an insert keeps what is said of every backend's cache (src/index_am.rs, `widen_on_insert`;
-- src/summary_cache.rs).
use pg_table_range.Base.{
  ℕ, ◌≡◌, ◌≢◌, refl, sym, ap, subst, ◌∙◌, ◌⊎◌, inl, inr, Bool-cases, true, List, ◌++◌, All,
  All-append, All-split, ◌==◌, ==_iff, arith, append_assoc,
}
use pg_table_range.Summary.{ColSummary}
use pg_table_range.Metapage.{PageApi, PageLaws, read_summary}
use pg_table_range.Server.{Server}
use pg_table_range.StableIo.{Gucs, Session}
use pg_table_range.StableIo.Pinned.{IsStable}
use pg_table_range.Widen.Row.{Row, Table, CoversRow}
use pg_table_range.Insert.Concurrent.{backend_of, System, Covered}
use pg_table_range.Prune.Planner.Summaries.{cols_or_empty}
use pg_table_range.Coherence.{
  Cluster, set_at, invalidates, all_of, noted, returned, Announced, Counts, after_turn,
}
use pg_table_range.Coherence.Excuses.{
  set_at-cases, unseen, invalidates-left, invalidates-right, unseen-all,
}
use pg_table_range.Coherence.Kept.{
  IsTurn, IsNoted, IsUnseen, Settled, stored-Covers, turn-inserted, turn-returned, turn-pages,
}

module _ (indexoid : ℕ) where
  -- With one more message of backend `i`, nothing is seen that was not.
  pub unseen-grows :
      (s t : Cluster) (i j k : ℕ) (ms : List ℕ)
      → ((n : ℕ) → t.prior n ≡ s.prior n)
      → ((n : ℕ) → t.current n ≡ set_at s.current i (s.current i ++ ms) n)
      → invalidates indexoid (unseen s j k) ≡ true
      → invalidates indexoid (unseen t j k) ≡ true
  unseen-grows s t i j k ms p c h = elim (set_at-cases s.current i (s.current i ++ ms) k) [
    | inl (same, e) ↦ elim (Bool-cases (j == k)) [
      | inl own ↦
          rw (own, c k, e, same)
            (invalidates-left indexoid (s.current k) ms (sym (rw own refl) ∙ h))
      | inr other ↦
          rw (other, p k, c k, e, same, ← (append_assoc (s.prior k) (s.current k) ms))
            (invalidates-left indexoid (all_of s k) ms (sym (rw other refl) ∙ h))
    ]
    | inr (n, e) ↦ rw (p k, c k, e) h
  ]

  pub unseen-noted :
      (s t : Cluster) (i j : ℕ) (ms : List ℕ)
      → ((n : ℕ) → t.current n ≡ set_at s.current i (s.current i ++ ms) n)
      → invalidates indexoid ms ≡ true
      → invalidates indexoid (unseen t j i) ≡ true
  unseen-noted s t i j ms c h = elim (set_at-cases s.current i (s.current i ++ ms) i) [
    | inl (same, e) ↦
        let now : invalidates indexoid (t.current i) ≡ true =
          rw (c i, e) (invalidates-right indexoid (s.current i) ms h) in
        elim (Bool-cases (j == i)) [
          | inl own ↦ rw own now
          | inr other ↦ rw other (invalidates-right indexoid (t.prior i) (t.current i) now)
        ]
    | inr (n, e) ↦ absurd (n refl)
  ]

module _ {sv : Server} (table : Table sv) (server_of : Gucs → Server) (api : PageApi)
    (session : ℕ → Session) (ns : List ℕ) (indexoid heapoid : ℕ) (laws : PageLaws api)
    (stable : (g : Gucs) → IsStable g → server_of g ≡ sv) where
  abbrev turner : {v w : System} → IsTurn table server_of api session ns indexoid heapoid v w → ℕ
  turner turn = backend_of table server_of api session ns indexoid heapoid turn

  abbrev turned :
      {v w : System} → IsTurn table server_of api session ns indexoid heapoid v w → List Row
  turned turn = returned table server_of api session ns indexoid heapoid turn

  module _ (s : Cluster) {w : System}
      (turn : IsTurn table server_of api session ns indexoid heapoid s.inserts w)
      (others : List Row) where
    abbrev After : List Row → Cluster
    After rows = after_turn table server_of api session ns indexoid heapoid s turn rows others

    abbrev Noted : Type 0
    Noted = IsNoted table server_of api session ns indexoid heapoid turn

    abbrev Unseen : Cluster → ℕ → ℕ → Type 0
    Unseen t j k = IsUnseen table server_of api session ns indexoid heapoid t j k

    abbrev Claimed : Cluster → ℕ → List ColSummary → Type 0
    Claimed t j cols = Settled table server_of api session ns indexoid heapoid t j cols

    Unseen-After : (rows : List Row) (j k : ℕ) → Unseen s j k → Unseen (After rows) j k
    Unseen-After rows j k h =
        unseen-grows indexoid s (After rows) (turner turn) j k
          (noted table server_of api session ns indexoid heapoid turn) (λ n. refl) (λ n. refl) h

    Unseen-now : (rows : List Row) (j : ℕ) → Noted → Unseen (After rows) j (turner turn)
    Unseen-now rows j h =
        unseen-noted indexoid s (After rows) (turner turn) j
          (noted table server_of api session ns indexoid heapoid turn) (λ n. refl) h

    -- What the turn adds to the backend's rows has to be covered, or to be held back.
    pub Settled-After :
        (rows : List Row) (j : ℕ) (cols : List ColSummary)
        → Unseen (After rows) j (turner turn) ⊎ All (CoversRow table cols) rows
        → Claimed s j cols
        → Claimed (After rows) j cols
    Settled-After rows j cols new c = record {
      fresh = elim (turn-pages table server_of api session ns indexoid heapoid laws turn) [
        | inl same ↦ elim c.fresh [
          | inl e ↦ inl (unfold read_summary in rw same e)
          | inr (inl (k, h)) ↦ inr (inl (k, Unseen-After rows j k h))
          | inr (inr d) ↦ inr (inr d)
        ]
        | inr noted ↦ inr (inl (turner turn, Unseen-now rows j noted))
      ];
      committed = c.committed;
      written = λ k. elim (c.written k) [
        | inl h ↦ inl (Unseen-After rows j k h)
        | inr old ↦
            elim (set_at-cases s.written (turner turn) (rows ++ s.written (turner turn)) k) [
              | inl (same, e) ↦ elim new [
                | inl h ↦ inl (subst (Unseen (After rows) j) same h)
                | inr added ↦ inr (rw (e, same) (All-append _ rows (s.written k) added old))
              ]
              | inr (n, e) ↦ inr (rw e old)
            ]
      ];
    }

    abbrev CoveredNow : Type 0
    CoveredNow =
        Covered table server_of api session ns indexoid heapoid (read_summary api w.shared.pages)
          w.inserted

    -- A row that an insert has found to be covered is covered by an entry that is not held back.
    Announced-After :
        (j : ℕ) (cols : List ColSummary)
        → CoveredNow
        → Announced table server_of api session ns indexoid heapoid s (turner turn)
        → Claimed s j cols
        → Noted ⊎ Unseen s j (turner turn) ⊎ All (CoversRow table cols) (turned turn)
    Announced-After j cols now (kept, quiet) c =
        elim (turn-pages table server_of api session ns indexoid heapoid laws turn) [
          | inl same ↦ elim c.fresh [
            | inl e ↦ inr (
                inr (
                  rw (e ∙ ap (λ z. cols_or_empty (read_summary api z)) (sym same))
                    (All-split _ (turned turn) s.inserts.inserted (
                      subst (All _)
                        (turn-inserted table server_of api session ns indexoid heapoid turn)
                        (stored-Covers table server_of api session ns indexoid heapoid
                          (read_summary api w.shared.pages) w.inserted now).1)).0))
            | inr (inl (k, h)) ↦ inr (inl (held_by k h (dec_eq k)))
            | inr (inr d) ↦ absurd cc
          ]
          | inr noted ↦ inl noted
        ]
      where
        dec_eq : (k : ℕ) → (k ≡ turner turn) ⊎ (k ≢ turner turn)
        dec_eq k = elim (Bool-cases (k == turner turn)) [
          | inl e ↦ inl ((==_iff k (turner turn)).0 e)
          | inr n ↦ inr (λ e. ground arith)
        ]

        held_by :
            (k : ℕ)
            → Unseen s j k
            → (k ≡ turner turn) ⊎ (k ≢ turner turn)
            → Unseen s j (turner turn)
        held_by k h (inl e) = subst (Unseen s j) e h
        held_by k h (inr n) =
            let held = unseen-all indexoid s j k h in let none_held = quiet k n in absurd cc

    pub counted_rows :
        (j : ℕ) (cols : List ColSummary)
        → CoveredNow
        → Counts table server_of api session ns indexoid heapoid s turn
        → Claimed s j cols
        → Unseen (After (turned turn)) j (turner turn) ⊎ All (CoversRow table cols) (turned turn)
    counted_rows j cols now counts c =
        elim (turn-returned table server_of api session ns indexoid heapoid s turn counts) [
          | inl no_row ↦ inr (rw no_row tt)
          | inr (inl noted) ↦ inl (Unseen-now (turned turn) j noted)
          | inr (inr announced) ↦ elim (Announced-After j cols now announced c) [
            | inl noted ↦ inl (Unseen-now (turned turn) j noted)
            | inr (inl h) ↦ inl (Unseen-After (turned turn) j (turner turn) h)
            | inr (inr covers) ↦ inr covers
          ]
        ]

    module _ (rows : List Row)
        (among : (cols : List ColSummary)
          → All (CoversRow table cols) (turned turn)
          → All (CoversRow table cols) rows) where
      pub within-After :
          ((cols : List ColSummary)
            → All (CoversRow table cols) s.inserts.inserted
            → All (CoversRow table cols) s.committed
              × ((k : ℕ) → All (CoversRow table cols) (s.written k)))
          → (cols : List ColSummary) → All (CoversRow table cols) w.inserted
          → All (CoversRow table cols) s.committed
            × ((k : ℕ) → All (CoversRow table cols) ((After rows).written k))
      within-After within cols h =
          let both = All-split _ (turned turn) s.inserts.inserted (
            subst (All _) (turn-inserted table server_of api session ns indexoid heapoid turn) h) in
          let old = within cols both.1 in
          (
            old.0,
            λ k. elim (set_at-cases s.written (turner turn) (rows ++ s.written (turner turn)) k) [
              | inl (same, e) ↦
                  rw (e, same) (All-append _ rows (s.written k) (among cols both.0) (old.1 k))
              | inr (n, e) ↦ rw e (old.1 k)
            ],
          )
