-- ===== src/Insert/Concurrent/Progress.antt =====
-- An insert that no other backend disturbs ends (src/index_am.rs, `widen_on_insert`).
use pg_table_range.Base.{
  ℕ, ◌≤◌, ◌^◌, ◌≡◌, refl, sym, ap, ◌∙◌, ◌⊎◌, inl, inr, Option, none, some, List, ◌∷◌, map, ==_refl,
  Error, Attempt, known, unknown, raised, arith,
}
use pg_table_range.Bytes.{Bytes}
use pg_table_range.Metapage.{Page, PageApi, PageLaws, read_blob}
use pg_table_range.Server.{Server}
use pg_table_range.StableIo.{Gucs, Session}
use pg_table_range.StableIo.Pinned.{IsStable}
use pg_table_range.Widen.Row.{Row, Table, attribute_of}
use pg_table_range.Insert.{Plan, finished, swap, Shared, Swapped, again, widened, failed, swap_blob}
use pg_table_range.Insert.Swap.{swap_blob-again, swap_blob-failed}
use pg_table_range.Insert.Decides.{plan_insert-Decides}
use pg_table_range.Insert.Improves.{Right, plan_insert-Right}
use pg_table_range.Insert.Concurrent.{
  outside, at_read, at_swap, Pc, System, set_pc, plan_of, Step, return, decide, error, win, refuse,
  backend_of,
}

set_pc-same : (pc : ℕ → Pc) (i : ℕ) (p : Pc) → set_pc pc i p i ≡ p
set_pc-same pc i p = rw (==_refl i) refl

module _ {sv : Server} (table : Table sv) (server_of : Gucs → Server)
    (stable : (g : Gucs) → IsStable g → server_of g ≡ sv) (api : PageApi) (laws : PageLaws api)
    (session : ℕ → Session) (ns : List ℕ) (indexoid heapoid : ℕ) where
  open api use {blcksz}

  -- The turn raises an ERROR: on the way to its decision, or where the new blob exceeds the page.
  abbrev pub Raises : ℕ → Row → Shared → Type 0
  Raises i row sh =
      (e : Error) × ((plan_of table server_of api session ns indexoid heapoid i row sh.pages
          ≡ raised e)
        ⊎ ((before : Bytes) × (after : Bytes) × (plan_of table server_of api session ns indexoid
                heapoid i row sh.pages
              ≡ known (swap before after))
            × (swap_blob indexoid heapoid api sh before after ≡ (failed e, sh))))

  -- Steps of backend `i` only: the others pause.
  pub data OwnSteps (i : ℕ) (s : System) : System → Type 0 where
    none_yet : OwnSteps i s s
    and_own :
        {t u : System}
        → OwnSteps i s t
        → (step : Step table server_of api session ns indexoid heapoid t u)
        → backend_of table server_of api session ns indexoid heapoid step ≡ i
        → OwnSteps i s u

  -- The insert of the row by backend `i` has returned, or has ended in an ERROR.
  pub record Ended (i : ℕ) (row : Row) (s : System) : Type 0 where
    pub state : System
    pub reached : OwnSteps i s state
    pub left : state.pc i ≡ outside
    pub counted :
        (state.inserted ≡ row ∷ s.inserted)
        ⊎ ((state.inserted ≡ s.inserted) × Raises i row s.shared)

  plan_insert-before :
      (i : ℕ) (row : Row) (pages : List Page) (before after : Bytes)
      → plan_of table server_of api session ns indexoid heapoid i row pages
        ≡ known (swap before after)
      → read_blob api pages ≡ some before
  plan_insert-before i row pages before after run = from_right (read_blob api pages) (
      (plan_insert-Right table server_of stable blcksz block (session i) ns row
          (read_blob api pages)).at
        (swap before after) run)
    where
      block : blcksz ≤ 2 ^ 16
      block = omega (arith, laws.block_size)

      from_right :
          (o : Option Bytes)
          → Right table server_of stable blcksz block (session i) ns row o (swap before after)
          → o ≡ some before
      from_right none r = absurd r
      from_right (some b) r = ap some (sym r.0)

  -- Whatever the state of the system, a backend that is at the head of the loop with a row ends its
  -- insert if the others pause: by steps of its own only a state is reached in which it is outside, and
  -- the row is inserted unless the turn raises an ERROR.
  pub Reach-Ended : (i : ℕ) (row : Row) (s : System) → s.pc i ≡ at_read row → Ended i row s
  Reach-Ended i row s at =
      from_plan (plan_of table server_of api session ns indexoid heapoid i row s.shared.pages) refl
    where
      At : System → Type 0
      At = OwnSteps i s

      decided : Bytes → Bytes → System
      decided before after = record s { pc = set_pc s.pc i (at_swap row before after) }

      swapped :
          (before after : Bytes)
          → read_blob api s.shared.pages ≡ some before
          → plan_of table server_of api session ns indexoid heapoid i row s.shared.pages
            ≡ known (swap before after)
          → At (decided before after)
          → (r : Swapped) (sh : Shared)
          → swap_blob indexoid heapoid api s.shared before after ≡ (r, sh)
          → Ended i row s
      swapped before after read q r widened sh run = record {
        state = record (decided before after) {
          shared = sh;
          pc = set_pc (decided before after).pc i outside;
          inserted = row ∷ s.inserted;
        };
        reached =
            and_own r
              (win i row before after sh (set_pc-same s.pc i (at_swap row before after)) run) refl;
        left = set_pc-same (decided before after).pc i outside;
        counted = inl refl;
      }
      swapped before after read q r again sh run =
          absurd (swap_blob-again api before after indexoid heapoid s.shared sh run read)
      swapped before after read q r (failed e) sh run = record {
        state = record (decided before after) {
          shared = sh;
          pc = set_pc (decided before after).pc i outside;
        };
        reached =
            and_own r
              (refuse i row before after e sh (set_pc-same s.pc i (at_swap row before after)) run)
              refl;
        left = set_pc-same (decided before after).pc i outside;
        counted = inr (refl, (e, inr (before, after, q, refused)));
      }
        where
          refused : swap_blob indexoid heapoid api s.shared before after ≡ (failed e, s.shared)
          refused =
              run
              ∙ ap (λ (z : Shared). let w : Swapped × Shared = (failed e, z) in w)
                  (swap_blob-failed api before after indexoid heapoid s.shared sh e run)

      from_plan :
          (m : Attempt Plan)
          → plan_of table server_of api session ns indexoid heapoid i row s.shared.pages ≡ m
          → Ended i row s
      from_plan (known finished) run = record {
        state = record s { pc = set_pc s.pc i outside; inserted = row ∷ s.inserted };
        reached = and_own none_yet (return i row at run) refl;
        left = set_pc-same s.pc i outside;
        counted = inl refl;
      }
      from_plan (known (swap before after)) run =
          swapped before after (plan_insert-before i row s.shared.pages before after run) run
            (and_own none_yet (decide i row before after at run) refl)
            (swap_blob indexoid heapoid api s.shared before after).0
            (swap_blob indexoid heapoid api s.shared before after).1 refl
      from_plan unknown run = absurd (
          plan_insert-Decides server_of blcksz (session i) (map (attribute_of table row) ns)
            (read_blob api s.shared.pages) run)
      from_plan (raised e) run = record {
        state = record s { pc = set_pc s.pc i outside };
        reached = and_own none_yet (error i row e at run) refl;
        left = set_pc-same s.pc i outside;
        counted = inr (refl, (e, inl run));
      }
