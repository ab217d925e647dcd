-- ===== src/Coherence/Ends.antt =====
-- The end of a command, a commit and an abort keep what is said of the caches (src/summary_cache.rs).
use pg_table_range.Base.{
  ℕ, ◌≡◌, ◌≢◌, refl, sym, ap, subst, ◌∙◌, ◌⊎◌, inl, inr, Bool-cases, true, false, ◌||◌, some, List,
  [], ◌++◌, All, All-append, ◌==◌, ==_iff, arith, append-nil,
}
use pg_table_range.Summary.{ColSummary}
use pg_table_range.Metapage.{PageApi}
use pg_table_range.Server.{Server}
use pg_table_range.StableIo.{Gucs, Session}
use pg_table_range.Widen.Row.{Table, CoversRow}
use pg_table_range.Cache.{get}
use pg_table_range.Cache.Laws.{deliver}
use pg_table_range.Coherence.{Cluster, set_at, invalidates, all_of}
use pg_table_range.Coherence.Excuses.{
  set_at-cases, invalidates-left, invalidates-right, unseen-all, deliver-some,
}
use pg_table_range.Coherence.Kept.{IsUnseen, Settled, Inv}
use pg_table_range.Coherence.Queue.{Settled-Same}

module _ {sv : Server} (table : Table sv) (server_of : Gucs → Server) (api : PageApi)
    (session : ℕ → Session) (ns : List ℕ) (indexoid heapoid : ℕ) where
  abbrev Fine : Cluster → ℕ → List ColSummary → Type 0
  Fine = Settled table server_of api session ns indexoid heapoid

  abbrev Unseen : Cluster → ℕ → ℕ → Type 0
  Unseen = IsUnseen table server_of api session ns indexoid heapoid

  abbrev Holds : Cluster → Type 0
  Holds = Inv table server_of api session ns indexoid heapoid

  abbrev IsCached : Cluster → ℕ → List ColSummary → Type 0
  IsCached s j cols = get indexoid (s.cache j) ≡ some cols

  -- An entry that is still there after an own transaction's messages was not named by them.
  delivered :
      (s : Cluster) (i : ℕ) (ms : List ℕ) (t : Cluster)
      → ((j : ℕ) → t.cache j ≡ set_at s.cache i (deliver ms (s.cache i)) j)
      → (j : ℕ) (cols : List ColSummary) → IsCached t j cols
      → IsCached s j cols × ((i ≡ j) → invalidates indexoid ms ≡ false)
  delivered s i ms t e j cols h = elim (set_at-cases s.cache i (deliver ms (s.cache i)) j) [
    | inl (same, q) ↦
        let (old, quiet) =
          deliver-some indexoid ms (s.cache i) cols (ap (get indexoid) (sym (e j ∙ q)) ∙ h) in
        (subst (λ z. IsCached s z cols) same old, λ y. quiet)
    | inr (n, q) ↦ (ap (get indexoid) (sym (e j ∙ q)) ∙ h, λ y. absurd (n y))
  ]

  pub end_command-Inv :
      (s : Cluster) (i : ℕ)
      → Holds s
      → Holds (record s {
        cache = set_at s.cache i (deliver (s.current i) (s.cache i));
        prior = set_at s.prior i (all_of s i);
        current = set_at s.current i [];
      })
  end_command-Inv s i v = record {
    turns = v.turns;
    within = v.within;
    cached = λ j cols h.
        let (before, quiet) = delivered s i (s.current i) t (λ k. refl) j cols h in
        let (collated, c) = v.cached j cols before in
        (
          collated,
          elim c [
            | inl q ↦ inl q
            | inr fine ↦ inr (
                Settled-Same table server_of api session ns indexoid heapoid s t j cols
                  (refl, refl, refl, refl) (λ k u. seen j k quiet u) fine)
          ],
        );
  }
    where
      t : Cluster
      t = record s {
        cache = set_at s.cache i (deliver (s.current i) (s.cache i));
        prior = set_at s.prior i (all_of s i);
        current = set_at s.current i [];
      }

      seen :
          (j k : ℕ)
          → ((i ≡ j) → invalidates indexoid (s.current i) ≡ false)
          → Unseen s j k
          → Unseen t j k
      seen j k quiet u = elim (Bool-cases (i == k)) [
        | inl e ↦
            let found_it = (==_iff i k).0 e in
            elim (Bool-cases (j == k)) [
              | inl own ↦
                  let held : invalidates indexoid (s.current k) ≡ true = sym (rw own refl) ∙ u in
                  let none_held = quiet (found_it ∙ sym ((==_iff j k).0 own)) in
                  absurd (ground (arith, held, none_held, found_it))
              | inr other ↦
                  rw (other, e, append-nil (all_of s i), found_it) (sym (rw other refl) ∙ u)
            ]
        | inr n ↦ rw (n) u
      ]

  -- The end of a transaction: what is said where its invalidations are sent, or lost.
  module _ (s t : Cluster) (i : ℕ) (prior : (k : ℕ) → t.prior k ≡ set_at s.prior i [] k)
      (current : (k : ℕ) → t.current k ≡ set_at s.current i [] k) where
    Unseen-still : (j k : ℕ) → i ≢ k → Unseen s j k → Unseen t j k
    Unseen-still j k n u = elim (set_at-cases s.prior i [] k) [
      | inl (e, p) ↦ absurd (n e)
      | inr (y, p) ↦ elim (set_at-cases s.current i [] k) [
        | inl (e, c) ↦ absurd (n e)
        | inr (z, c) ↦ rw (prior k, p, current k, c) u
      ]
    ]

    Unseen-ended :
        (j k : ℕ) → Unseen s j k → (invalidates indexoid (all_of s i) ≡ true) ⊎ Unseen t j k
    Unseen-ended j k u = elim (Bool-cases (i == k)) [
      | inl e ↦
          let found_it = (==_iff i k).0 e in
          inl (
            subst (λ z. invalidates indexoid (all_of s z) ≡ true) (sym found_it)
              (unseen-all indexoid s j k u))
      | inr n ↦ inr (Unseen-still j k (λ e. ground arith) u)
    ]

    written_unless_ended :
        (j : ℕ) (cols : List ColSummary)
        → ((k : ℕ) → t.written k ≡ set_at s.written i [] k)
        → ((k : ℕ) → Unseen s j k ⊎ All (CoversRow table cols) (s.written k))
        → (k : ℕ) → Unseen t j k ⊎ All (CoversRow table cols) (t.written k)
    written_unless_ended j cols e h k = elim (set_at-cases s.written i [] k) [
      | inl (same, q) ↦ inr (rw (e k, q) tt)
      | inr (n, q) ↦ elim (h k) [
        | inl u ↦ inl (Unseen-still j k n u)
        | inr covers ↦ inr (rw (e k, q) covers)
      ]
    ]

    within_unless_ended :
        (cols : List ColSummary)
        → ((k : ℕ) → t.written k ≡ set_at s.written i [] k)
        → ((k : ℕ) → All (CoversRow table cols) (s.written k))
        → (k : ℕ) → All (CoversRow table cols) (t.written k)
    within_unless_ended cols e h k = elim (set_at-cases s.written i [] k) [
      | inl (same, q) ↦ rw (e k, q) tt
      | inr (n, q) ↦ rw (e k, q) (h k)
    ]

  pub commit-Inv :
      (s : Cluster) (i : ℕ)
      → Holds s
      → Holds (record s {
        queue = λ j. s.queue j ++ all_of s i;
        prior = set_at s.prior i [];
        current = set_at s.current i [];
        committed = s.written i ++ s.committed;
        written = set_at s.written i [];
        uncounted = s.exposed i ++ s.uncounted;
        exposed = set_at s.exposed i [];
      })
  commit-Inv s i v = record {
    turns = v.turns;
    within = λ cols h.
        let old = v.within cols h in
        (
          All-append (CoversRow table cols) (s.written i) s.committed (old.1 i) old.0,
          within_unless_ended s t i (λ k. refl) (λ k. refl) cols (λ k. refl) old.1,
        );
    cached = λ j cols h.
        let (collated, c) = v.cached j cols h in
        (
          collated,
          elim (Bool-cases (invalidates indexoid (all_of s i))) [
            | inl sent ↦ inl (invalidates-right indexoid (s.queue j) (all_of s i) sent)
            | inr quiet ↦ elim c [
              | inl q ↦ inl (invalidates-left indexoid (s.queue j) (all_of s i) q)
              | inr fine ↦ inr (settled j cols quiet fine)
            ]
          ],
        );
  }
    where
      t : Cluster
      t = record s {
        queue = λ j. s.queue j ++ all_of s i;
        prior = set_at s.prior i [];
        current = set_at s.current i [];
        committed = s.written i ++ s.committed;
        written = set_at s.written i [];
        uncounted = s.exposed i ++ s.uncounted;
        exposed = set_at s.exposed i [];
      }

      settled :
          (j : ℕ) (cols : List ColSummary)
          → invalidates indexoid (all_of s i) ≡ false
          → Fine s j cols
          → Fine t j cols
      settled j cols quiet fine = record {
        fresh = elim fine.fresh [
          | inl e ↦ inl e
          | inr (inl (k, u)) ↦ elim (Unseen-ended s t i (λ k. refl) (λ k. refl) j k u) [
            | inl sent ↦ absurd cc
            | inr still ↦ inr (inl (k, still))
          ]
          | inr (inr d) ↦ inr (inr d)
        ];
        committed = elim (fine.written i) [
          | inl u ↦ let sent = unseen-all indexoid s j i u in absurd cc
          | inr covers ↦
              All-append (CoversRow table cols) (s.written i) s.committed covers fine.committed
        ];
        written =
            written_unless_ended s t i (λ k. refl) (λ k. refl) j cols (λ k. refl) fine.written;
      }

  pub abort-Inv :
      (s : Cluster) (i : ℕ)
      → Holds s
      → Holds (record s {
        cache = set_at s.cache i (deliver (s.prior i) (s.cache i));
        prior = set_at s.prior i [];
        current = set_at s.current i [];
        written = set_at s.written i [];
        exposed = set_at s.exposed i [];
        dropped = s.dropped || invalidates indexoid (all_of s i);
      })
  abort-Inv s i v = record {
    turns = v.turns;
    within = λ cols h.
        let old = v.within cols h in
        (old.0, within_unless_ended s t i (λ k. refl) (λ k. refl) cols (λ k. refl) old.1);
    cached = λ j cols h.
        let (before, quiet) = delivered s i (s.prior i) t (λ k. refl) j cols h in
        let (collated, c) = v.cached j cols before in
        (collated, elim c [ inl q ↦ inl q | inr fine ↦ inr (settled j cols fine) ]);
  }
    where
      t : Cluster
      t = record s {
        cache = set_at s.cache i (deliver (s.prior i) (s.cache i));
        prior = set_at s.prior i [];
        current = set_at s.current i [];
        written = set_at s.written i [];
        exposed = set_at s.exposed i [];
        dropped = s.dropped || invalidates indexoid (all_of s i);
      }

      settled : (j : ℕ) (cols : List ColSummary) → Fine s j cols → Fine t j cols
      settled j cols fine = record {
        fresh = elim fine.fresh [
          | inl e ↦ inl e
          | inr (inl (k, u)) ↦ elim (Unseen-ended s t i (λ k. refl) (λ k. refl) j k u) [
            | inl sent ↦ inr (inr (ground arith))
            | inr still ↦ inr (inl (k, still))
          ]
          | inr (inr d) ↦ inr (inr (ground arith))
        ];
        committed = fine.committed;
        written =
            written_unless_ended s t i (λ k. refl) (λ k. refl) j cols (λ k. refl) fine.written;
      }
