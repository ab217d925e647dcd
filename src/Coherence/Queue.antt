-- ===== src/Coherence/Queue.antt =====
-- Invalidations that backends receive keep what is said of their caches (src/summary_cache.rs).
use pg_table_range.Base.{
  ℕ, ◌≡◌, refl, sym, ap, subst, ◌∙◌, inl, inr, Bool-cases, true, some, List, [], ◌∷◌, ◌++◌, All,
  ◌==◌, ==_iff, arith,
}
use pg_table_range.Summary.{ColSummary}
use pg_table_range.Metapage.{PageApi}
use pg_table_range.Server.{Server}
use pg_table_range.StableIo.{Gucs, Session}
use pg_table_range.Widen.Row.{Row, Table, CoversRow}
use pg_table_range.Cache.{get, relcache_callback}
use pg_table_range.Insert.Concurrent.{System, Inv as TurnInv}
use pg_table_range.Coherence.{Cluster, set_at, invalidates}
use pg_table_range.Coherence.Excuses.{unseen, invalidates-left, callback-some}
use pg_table_range.Coherence.Kept.{stored, IsUnseen, Settled, Inv}

module _ {sv : Server} (table : Table sv) (server_of : Gucs → Server) (api : PageApi)
    (session : ℕ → Session) (ns : List ℕ) (indexoid heapoid : ℕ) where
  abbrev Fine : Cluster → ℕ → List ColSummary → Type 0
  Fine = Settled table server_of api session ns indexoid heapoid

  abbrev Unseen : Cluster → ℕ → ℕ → Type 0
  Unseen = IsUnseen table server_of api session ns indexoid heapoid

  abbrev Holds : Cluster → Type 0
  Holds = Inv table server_of api session ns indexoid heapoid

  abbrev IsQueued : Cluster → ℕ → Type 0
  IsQueued s j = invalidates indexoid (s.queue j) ≡ true

  abbrev IsCached : Cluster → ℕ → List ColSummary → Type 0
  IsCached s j cols = get indexoid (s.cache j) ≡ some cols

  -- A step that leaves the blocks and the rows alone.
  abbrev Same : Cluster → Cluster → Type 0
  Same s t =
      (t.inserts ≡ s.inserts)
      × (t.committed ≡ s.committed)
      × (t.written ≡ s.written)
      × (t.dropped ≡ s.dropped)

  -- Such a step keeps an entry's claim if it hides no invalidation from the backend.
  pub Settled-Same :
      (s t : Cluster) (j : ℕ) (cols : List ColSummary)
      → Same s t
      → ((k : ℕ) → Unseen s j k → Unseen t j k)
      → Fine s j cols
      → Fine t j cols
  Settled-Same s t j cols (ins, same_rows, wr, dr) seen c = record {
    fresh = elim c.fresh [
      | inl e ↦ inl (e ∙ sym (ap (stored table server_of api session ns indexoid heapoid) ins))
      | inr (inl (k, h)) ↦ inr (inl (k, seen k h))
      | inr (inr d) ↦ inr (inr (dr ∙ d))
    ];
    committed = subst (All (CoversRow table cols)) (sym same_rows) c.committed;
    written = λ k. elim (c.written k) [
      | inl h ↦ inl (seen k h)
      | inr h ↦ inr (subst (λ (z : ℕ → List Row). All (CoversRow table cols) (z k)) (sym wr) h)
    ];
  }

  -- A step that only takes messages from queues and entries from caches.
  queue_step :
      (s t : Cluster)
      → Same s t
      → ((j k : ℕ) → unseen t j k ≡ unseen s j k)
      → ((j : ℕ) (cols : List ColSummary)
          → IsCached t j cols
          → IsCached s j cols × (IsQueued s j → IsQueued t j))
      → Holds s
      → Holds t
  queue_step s t same seen cached v = record {
    turns = subst (TurnInv table server_of api session ns indexoid heapoid) (sym same.0) v.turns;
    within = λ cols h.
        let old =
          v.within cols (subst (λ (z : System). All (CoversRow table cols) z.inserted) same.0 h) in
        (
          subst (All (CoversRow table cols)) (sym same.1) old.0,
          λ k.
              subst (λ (z : ℕ → List Row). All (CoversRow table cols) (z k)) (sym same.2) (old.1 k),
        );
    cached = λ j cols h.
        let (before, queued) = cached j cols h in
        let (collated, c) = v.cached j cols before in
        (
          collated,
          elim c [
            | inl q ↦ inl (queued q)
            | inr fine ↦ inr (
                Settled-Same s t j cols same
                  (λ k u. subst (λ z. invalidates indexoid z ≡ true) (sym (seen j k)) u) fine)
          ],
        );
  }

  pub receive-Inv :
      (s : Cluster) (i m : ℕ) (ms : List ℕ)
      → s.queue i ≡ m ∷ ms
      → Holds s
      → Holds (record s {
        queue = set_at s.queue i ms;
        cache = set_at s.cache i (relcache_callback m (s.cache i));
      })
  receive-Inv s i m ms e v = queue_step s _ (refl, refl, refl, refl) (λ j k. refl) cached v
    where
      t : Cluster
      t = record s {
        queue = set_at s.queue i ms;
        cache = set_at s.cache i (relcache_callback m (s.cache i));
      }

      cached :
          (j : ℕ) (cols : List ColSummary)
          → IsCached t j cols
          → IsCached s j cols × (IsQueued s j → IsQueued t j)
      cached j cols h = elim (Bool-cases (i == j)) [
        | inl same ↦
            let found_it = (==_iff i j).0 same in
            let (old, quiet) = callback-some indexoid m (s.cache i) cols (sym (rw same refl) ∙ h) in
            (
              subst (λ z. IsCached s z cols) found_it old,
              λ q. rw same (ground (arith, e, q, found_it, quiet)),
            )
        | inr other ↦ (sym (rw other refl) ∙ h, λ q. rw other q)
      ]

  pub reset-Inv :
      (s : Cluster) (i : ℕ) → Holds s → Holds (record s { queue = set_at s.queue i (0 ∷ []) })
  reset-Inv s i v =
      queue_step s (record s { queue = set_at s.queue i (0 ∷ []) }) (refl, refl, refl, refl)
        (λ j k. refl) (λ j cols h. (h, λ q. ground arith)) v

  pub notice-Inv :
      (s : Cluster) (ms : List ℕ) → Holds s → Holds (record s { queue = λ j. s.queue j ++ ms })
  notice-Inv s ms v =
      queue_step s (record s { queue = λ j. s.queue j ++ ms }) (refl, refl, refl, refl)
        (λ j k. refl) (λ j cols h. (h, λ q. invalidates-left indexoid (s.queue j) ms q)) v
