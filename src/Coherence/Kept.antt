-- ===== src/Coherence/Kept.antt =====
-- What every step of the backends keeps of their caches: an entry that may be too narrow has an
-- invalidation that is on its way, held back or lost (src/summary_cache.rs).
use pg_table_range.Base.{
  ℕ, ◌≡◌, refl, ◌⊎◌, inl, inr, true, Option, none, some, List, [], ◌∷◌, ◌++◌, All,
}
use pg_table_range.Summary.{ColSummary, IndexSummary, find_col}
use pg_table_range.Metapage.{PageApi, PageLaws, read_summary}
use pg_table_range.Server.{Server}
use pg_table_range.StableIo.{Gucs, Session}
use pg_table_range.Widen.Row.{Row, Table, CoversRow}
use pg_table_range.Cache.{get}
use pg_table_range.Insert.{again, failed}
use pg_table_range.Insert.Swap.{swap_blob-kept}
use pg_table_range.Insert.Concurrent.{
  backend_of, System, begin, return, decide, error, win, lose, refuse, Covered, Inv as TurnInv,
}
use pg_table_range.Prune.Planner.Summaries.{cols_or_empty}
use pg_table_range.Coherence.{Cluster, invalidates, Turn, noted, returned, Announced, Counts}
use pg_table_range.Coherence.Excuses.{unseen, invalidates-noted}

module _ {sv : Server} (table : Table sv) (server_of : Gucs → Server) (api : PageApi)
    (session : ℕ → Session) (ns : List ℕ) (indexoid heapoid : ℕ) where
  abbrev pub stored : System → List ColSummary
  stored w = cols_or_empty (read_summary api w.shared.pages)

  abbrev pub Collated : List ColSummary → Type 0
  Collated cols =
      (n : ℕ) (c : ColSummary) → find_col n cols ≡ some c → c.collation ≡ table.collation_of n

  abbrev pub IsUnseen : Cluster → ℕ → ℕ → Type 0
  IsUnseen s j k = invalidates indexoid (unseen s j k) ≡ true

  -- An entry of backend `j`'s cache to which no message is on its way.
  pub record Settled (s : Cluster) (j : ℕ) (cols : List ColSummary) : Type 0 where
    pub fresh : (cols ≡ stored s.inserts) ⊎ ((k : ℕ) × IsUnseen s j k) ⊎ (s.dropped ≡ true)
    pub committed : All (CoversRow table cols) s.committed
    pub written : (k : ℕ) → IsUnseen s j k ⊎ All (CoversRow table cols) (s.written k)

  abbrev pub Claims : Cluster → ℕ → List ColSummary → Type 0
  Claims s j cols = Collated cols × ((invalidates indexoid (s.queue j) ≡ true) ⊎ Settled s j cols)

  pub record Inv (s : Cluster) : Type 0 where
    pub turns : TurnInv table server_of api session ns indexoid heapoid s.inserts
    -- Every counted row's insert has returned.
    pub within :
        (cols : List ColSummary)
        → All (CoversRow table cols) s.inserts.inserted
        → All (CoversRow table cols) s.committed
          × ((k : ℕ) → All (CoversRow table cols) (s.written k))
    pub cached :
        (j : ℕ) (cols : List ColSummary) → get indexoid (s.cache j) ≡ some cols → Claims s j cols

  -- The stored columns cover what the stored summary covers; no summary is no column.
  pub stored-Covers :
      (o : Option IndexSummary) (rows : List Row)
      → Covered table server_of api session ns indexoid heapoid o rows
      → Collated (cols_or_empty o) × All (CoversRow table (cols_or_empty o)) rows
  unfolding cols_or_empty
  stored-Covers none rows h = ((λ n c e. absurd (no_col n c e)), all_rows rows)
    where
      no_col : (n : ℕ) (c : ColSummary) → ¬ (find_col n [] ≡ some c)
      no_col n c e = unfold find_col in cc

      all_rows : (rs : List Row) → All (CoversRow table []) rs
      all_rows [] = tt
      all_rows (r ∷ rs) = ((λ n c e. absurd (no_col n c e)), all_rows rs)
  stored-Covers (some t) rows h = (h.0.collations, h.1)

  abbrev pub IsTurn : System → System → Type 0
  IsTurn = Turn table server_of api session ns indexoid heapoid

  pub turn-inserted :
      {v w : System} (turn : IsTurn v w)
      → w.inserted ≡ returned table server_of api session ns indexoid heapoid turn ++ v.inserted
  turn-inserted (begin i row at) = refl
  turn-inserted (return i row at run) = refl
  turn-inserted (decide i row before after at run) = refl
  turn-inserted (error i row e at run) = refl
  turn-inserted (win i row before after sh at run) = refl
  turn-inserted (lose i row before after sh at run) = refl
  turn-inserted (refuse i row before after e sh at run) = refl

  abbrev pub IsNoted : {v w : System} → IsTurn v w → Type 0
  IsNoted turn =
      invalidates indexoid (noted table server_of api session ns indexoid heapoid turn) ≡ true

  pub turn-returned :
      (s : Cluster) {w : System} (turn : IsTurn s.inserts w)
      → Counts table server_of api session ns indexoid heapoid s turn
      → (returned table server_of api session ns indexoid heapoid turn ≡ [])
        ⊎ IsNoted turn
        ⊎ Announced table server_of api session ns indexoid heapoid s
            (backend_of table server_of api session ns indexoid heapoid turn)
  turn-returned s (begin i row at) c = inl refl
  turn-returned s (return i row at run) c = inr (inr c)
  turn-returned s (decide i row before after at run) c = inl refl
  turn-returned s (error i row e at run) c = inl refl
  turn-returned s (win i row before after sh at run) c =
      inr (inl (invalidates-noted indexoid heapoid))
  turn-returned s (lose i row before after sh at run) c = inl refl
  turn-returned s (refuse i row before after e sh at run) c = inl refl

  module _ (laws : PageLaws api) where
    -- Only a turn that notes a widening changes the blocks.
    pub turn-pages :
        {v w : System} (turn : IsTurn v w) → (w.shared.pages ≡ v.shared.pages) ⊎ IsNoted turn
    turn-pages (begin i row at) = inl refl
    turn-pages (return i row at run) = inl refl
    turn-pages (decide i row before after at run) = inl refl
    turn-pages (error i row e at run) = inl refl
    turn-pages (win i row before after sh at run) = inr (invalidates-noted indexoid heapoid)
    turn-pages {v} (lose i row before after sh at run) =
        inl (swap_blob-kept api before after laws indexoid heapoid v.shared sh again (λ e. cc) run)
    turn-pages {v} (refuse i row before after e sh at run) =
        inl (
          swap_blob-kept api before after laws indexoid heapoid v.shared sh (failed e) (λ q. cc)
            run)
