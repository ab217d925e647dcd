-- ===== src/Insert/Concurrent.antt =====
-- Backends that insert into one partition at the same time (src/index_am.rs, `widen_on_insert`):
-- their accesses to the metapage interleave in any order, and no widening is lost.
pub mod Progress
use pg_table_range.Base.{
  ℕ, ◌≤◌, ◌^◌, ◌≡◌, refl, ap, subst, ◌∙◌, inl, inr, Bool-cases, Option, none, some, List, ◌∷◌,
  length, map, All, All-map, ◌==◌, if◌then◌else◌, Error, Attempt, known, raised, arith,
}
use pg_table_range.Bytes.{Bytes}
use pg_table_range.Summary.{IndexSummary}
use pg_table_range.Codec.{deserialize}
use pg_table_range.Codec.RoundTrip.{deserialize-pos}
use pg_table_range.Fitting.{max_blob_len}
use pg_table_range.Metapage.{Page, PageApi, PageLaws, read_blob, read_summary, deserialized}
use pg_table_range.Server.{Server}
use pg_table_range.StableIo.{Gucs, Session}
use pg_table_range.StableIo.Pinned.{IsStable}
use pg_table_range.Widen.Row.{Row, Table, CoversRow, attribute_of}
use pg_table_range.Insert.{
  Plan, finished, swap, plan_insert, Shared, again, widened, failed, swap_blob,
}
use pg_table_range.Insert.Swap.{fits-of_widened, swap_blob-widened, swap_blob-kept}
use pg_table_range.Insert.Improves.{IsSound, Improves, Right, plan_insert-Right}

-- Where a backend stands: outside `aminsert`, at the head of the loop with its row, or before the
-- compare-and-swap.
pub data Pc : Type 0 where
  outside : Pc
  at_read : Row → Pc
  at_swap : Row → Bytes → Bytes → Pc

-- `inserted` are the rows whose `aminsert` has returned.
pub record System : Type 0 where
  pub shared : Shared
  pub pc : ℕ → Pc
  pub inserted : List Row

abbrev pub set_pc : (ℕ → Pc) → ℕ → Pc → ℕ → Pc
set_pc pc i p j = if i == j then p else pc j

module _ {sv : Server} (table : Table sv) (server_of : Gucs → Server) (api : PageApi)
    (session : ℕ → Session) (ns : List ℕ) (indexoid heapoid : ℕ) where
  open api use {blcksz}

  abbrev pub plan_of : ℕ → Row → List Page → Attempt Plan
  plan_of i row pages =
      plan_insert server_of blcksz (session i) (map (attribute_of table row) ns)
        (read_blob api pages)

  -- One step of backend `i`.
  pub data Step (s : System) : System → Type 0 where
    begin :
        (i : ℕ) (row : Row)
        → s.pc i ≡ outside
        → Step s (record s { pc = set_pc s.pc i (at_read row) })
    return :
        (i : ℕ) (row : Row)
        → s.pc i ≡ at_read row
        → plan_of i row s.shared.pages ≡ known finished
        → Step s (record s { pc = set_pc s.pc i outside; inserted = row ∷ s.inserted })
    decide :
        (i : ℕ) (row : Row) (before after : Bytes)
        → s.pc i ≡ at_read row
        → plan_of i row s.shared.pages ≡ known (swap before after)
        → Step s (record s { pc = set_pc s.pc i (at_swap row before after) })
    error :
        (i : ℕ) (row : Row) (e : Error)
        → s.pc i ≡ at_read row
        → plan_of i row s.shared.pages ≡ raised e
        → Step s (record s { pc = set_pc s.pc i outside })
    win :
        (i : ℕ) (row : Row) (before after : Bytes) (sh : Shared)
        → s.pc i ≡ at_swap row before after
        → swap_blob indexoid heapoid api s.shared before after ≡ (widened, sh)
        → Step s (record s { shared = sh; pc = set_pc s.pc i outside; inserted = row ∷ s.inserted })
    lose :
        (i : ℕ) (row : Row) (before after : Bytes) (sh : Shared)
        → s.pc i ≡ at_swap row before after
        → swap_blob indexoid heapoid api s.shared before after ≡ (again, sh)
        → Step s (record s { shared = sh; pc = set_pc s.pc i (at_read row) })
    refuse :
        (i : ℕ) (row : Row) (before after : Bytes) (e : Error) (sh : Shared)
        → s.pc i ≡ at_swap row before after
        → swap_blob indexoid heapoid api s.shared before after ≡ (failed e, sh)
        → Step s (record s { shared = sh; pc = set_pc s.pc i outside })

  -- The backend whose step it is.
  abbrev pub backend_of : {v w : System} → Step v w → ℕ
  backend_of (begin i row at) = i
  backend_of (return i row at run) = i
  backend_of (decide i row before after at run) = i
  backend_of (error i row e at run) = i
  backend_of (win i row before after sh at run) = i
  backend_of (lose i row before after sh at run) = i
  backend_of (refuse i row before after e sh at run) = i

  pub data Reach (s : System) : System → Type 0 where
    here : Reach s s
    next : {t u : System} → Reach s t → Step t u → Reach s u

  -- A readable summary covers the rows; an unreadable one never prunes.
  abbrev pub Covered : Option IndexSummary → List Row → Type 0
  Covered none rows = Unit
  Covered (some t) rows = IsSound table ns t × All (CoversRow table t.cols) rows

  -- What a backend remembers between its two accesses.
  abbrev pub Remembers : Pc → Type 0
  Remembers outside = Unit
  Remembers (at_read row) = Unit
  Remembers (at_swap row before after) =
      length after ≤ max_blob_len blcksz → Improves table ns row before after

  pub record Inv (s : System) : Type 0 where
    pub covered : Covered (read_summary api s.shared.pages) s.inserted
    pub remembers : (i : ℕ) → Remembers (s.pc i)

  set_pc-Remembers :
      (pc : ℕ → Pc) (i : ℕ) (p : Pc)
      → ((j : ℕ) → Remembers (pc j))
      → Remembers p
      → (j : ℕ) → Remembers (set_pc pc i p j)
  set_pc-Remembers pc i p h k j = elim (Bool-cases (i == j)) [
    | inl same ↦ rw same k
    | inr other ↦ rw other (h j)
  ]

  module _ (laws : PageLaws api) (stable : (g : Gucs) → IsStable g → server_of g ≡ sv) where
    block : blcksz ≤ 2 ^ 16
    block = omega (arith, laws.block_size)

    abbrev RightFor : ℕ → Row → Option Bytes → Plan → Type 0
    RightFor i row = Right table server_of stable blcksz block (session i) ns row

    decision :
        (i : ℕ) (row : Row) (pages : List Page) (p : Plan)
        → plan_of i row pages ≡ known p
        → RightFor i row (read_blob api pages) p
    decision i row pages p run =
        (plan_insert-Right table server_of stable blcksz block (session i) ns row
            (read_blob api pages)).at
          p run

    -- A row for which the insert returns without a write is covered already.
    finished-Covered :
        (i : ℕ) (row : Row) (rows : List Row) (o : Option Bytes)
        → RightFor i row o finished
        → Covered (deserialized o) rows
        → Covered (deserialized o) (row ∷ rows)
    finished-Covered i row rows none r c = tt
    finished-Covered i row rows (some b) r c = with_summary (deserialize b) refl c
      where
        with_summary :
            (z : Option IndexSummary) → deserialize b ≡ z → Covered z rows → Covered z (row ∷ rows)
        with_summary none e k = tt
        with_summary (some t) e k = (k.0, (r t e k.0, k.1))

    -- What the backend has to remember of its decision.
    swap-Remembers :
        (i : ℕ) (row : Row) (rows : List Row) (o : Option Bytes) (before after : Bytes)
        → RightFor i row o (swap before after)
        → Covered (deserialized o) rows
        → Remembers (at_swap row before after)
    swap-Remembers i row rows none before after r c fits = absurd r
    swap-Remembers i row rows (some b) before after r c fits =
        let (s, read) = r.2 in r.1 s read (subst (λ z. Covered z rows) read c).0 fits

    -- After a won swap the new blob covers the row and all the rows that the old one covered.
    widened-Covered :
        (row : Row) (rows : List Row) (sh sh' : Shared) (before after : Bytes)
        → Remembers (at_swap row before after)
        → swap_blob indexoid heapoid api sh before after ≡ (widened, sh')
        → Covered (read_summary api sh.pages) rows
        → Covered (read_summary api sh'.pages) (row ∷ rows)
    unfolding read_summary
    widened-Covered row rows sh sh' before after known_to won c =
        rw (swapped.1, better.reads_new)
          (better.sound, (better.adds, All-map better.keeps rows old.1))
      where
        better : Improves table ns row before after
        better = known_to (fits-of_widened api before after laws indexoid heapoid sh sh' won)

        swapped : (read_blob api sh.pages ≡ some before) × (read_blob api sh'.pages ≡ some after)
        swapped =
            swap_blob-widened api before after laws indexoid heapoid sh sh'
              (deserialize-pos after better.new better.reads_new) won

        old : Covered (some better.old) rows
        old = subst (λ z. Covered z rows) (ap deserialized swapped.0 ∙ better.reads_old) c

    -- Every step of every backend keeps the invariant.
    pub Step-Inv : {s t : System} → Step s t → Inv s → Inv t
    Step-Inv {s} (begin i row at) v = record {
      covered = v.covered;
      remembers = set_pc-Remembers s.pc i (at_read row) v.remembers tt;
    }
    Step-Inv {s} (return i row at run) v = record {
      covered =
          unfold read_summary in
          finished-Covered i row s.inserted (read_blob api s.shared.pages)
            (decision i row s.shared.pages finished run) v.covered;
      remembers = set_pc-Remembers s.pc i outside v.remembers tt;
    }
    Step-Inv {s} (decide i row before after at run) v = record {
      covered = v.covered;
      remembers = set_pc-Remembers s.pc i (at_swap row before after) v.remembers (
          unfold read_summary in
          swap-Remembers i row s.inserted (read_blob api s.shared.pages) before after
            (decision i row s.shared.pages (swap before after) run) v.covered);
    }
    Step-Inv {s} (error i row e at run) v = record {
      covered = v.covered;
      remembers = set_pc-Remembers s.pc i outside v.remembers tt;
    }
    Step-Inv {s} (win i row before after sh at won) v = record {
      covered =
          widened-Covered row s.inserted s.shared sh before after
            (subst Remembers at (v.remembers i)) won v.covered;
      remembers = set_pc-Remembers s.pc i outside v.remembers tt;
    }
    Step-Inv {s} (lose i row before after sh at lost) v = record {
      covered =
          rw
            (swap_blob-kept api before after laws indexoid heapoid s.shared sh again (λ e. cc) lost)
            v.covered;
      remembers = set_pc-Remembers s.pc i (at_read row) v.remembers tt;
    }
    Step-Inv {s} (refuse i row before after e sh at no_room) v = record {
      covered =
          rw
            (swap_blob-kept api before after laws indexoid heapoid s.shared sh (failed e) (λ q. cc)
              no_room)
            v.covered;
      remembers = set_pc-Remembers s.pc i outside v.remembers tt;
    }

    Reach-Inv : {s t : System} → Inv s → Reach s t → Inv t
    Reach-Inv v here = v
    Reach-Inv v (next r st) = Step-Inv st (Reach-Inv v r)

    -- No widening is lost. From a state in which no backend is inside `aminsert` and the stored
    -- summary covers the rows, after any interleaving of any number of inserts, the summary that is
    -- then stored covers these rows and every row whose `aminsert` has returned, or none is readable.
    pub Reach-Covered :
        {s t : System}
        → ((i : ℕ) → s.pc i ≡ outside)
        → Covered (read_summary api s.shared.pages) s.inserted
        → Reach s t
        → Covered (read_summary api t.shared.pages) t.inserted
    Reach-Covered quiet start r =
        (Reach-Inv (record { covered = start; remembers = λ i. rw (quiet i) tt }) r).covered
