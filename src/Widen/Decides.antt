-- ===== src/Widen/Decides.antt =====
-- Widening never gives `None` (src/index_am.rs): where a helper does, `widen_column` makes the column
-- unbounded.
use pg_table_range.Base.{
  ℕ, ◌≢◌, refl, Bool, true, false, Option, none, some, List, [], ◌∷◌, if◌then◌else◌, ◌==◌, Attempt,
  known, unknown, raised, ◌>>=◌,
}
use pg_table_range.Summary.{ColSummary, IndexSummary}
use pg_table_range.Server.{Server}
use pg_table_range.Widen.{
  Attribute, Widened, or_unbounded, widen_value, widen_column, widen_attribute, widen_cols,
  widen_summary,
}

-- A value or an ERROR, not `None`.
abbrev pub Decides : {A : Type 0} → Attempt A → Type 0
Decides m = m ≢ unknown

pub Decides-known : {A : Type 0} (a : A) → ◌≢◌ {A = Attempt A} (known a) unknown
Decides-known a e = cc

pub Decides-bind :
    {A : Type 0} {B : Type 0} (m : Attempt A) (f : A → Attempt B)
    → Decides m
    → ((a : A) → Decides (f a))
    → Decides (m >>= f)
Decides-bind (known a) f h k = k a
Decides-bind unknown f h k = λ e. h refl
Decides-bind (raised x) f h k = λ e. cc

pub Decides-if :
    {A : Type 0} (b : Bool) (m n : Attempt A) → Decides m → Decides n → Decides (if b then m else n)
Decides-if true m n h k = h
Decides-if false m n h k = k

Decides-or_unbounded :
    (c : ColSummary) (changed : Bool) (m : Attempt Widened) → Decides (or_unbounded c changed m)
unfolding or_unbounded
Decides-or_unbounded c changed (known (x, d)) e = cc
Decides-or_unbounded c changed unknown e = cc
Decides-or_unbounded c changed (raised x) e = cc

module _ (sv : Server) where
  widen_value-Decides :
      (c : ColSummary) (typ collation value : ℕ) → Decides (widen_value sv c typ collation value)
  unfolding widen_value
  widen_value-Decides c typ collation value =
      Decides-if c.unbounded _ _ (Decides-known _)
        (Decides-if c.overlap _ _ (Decides-or_unbounded _ _ _) (Decides-or_unbounded _ _ _))

  widen_column-Decides :
      (c : ColSummary) (typ collation : ℕ) (value : Option ℕ)
      → Decides (widen_column sv c typ collation value)
  unfolding widen_column
  widen_column-Decides c typ collation none =
      Decides-if c.has_nulls _ _ (Decides-known _) (Decides-known _)
  widen_column-Decides c typ collation (some value) = widen_value-Decides c typ collation value

  widen_attribute-Decides :
      (a : Attribute) (cols : List ColSummary) → Decides (widen_attribute sv a cols)
  unfolding widen_attribute
  widen_attribute-Decides a [] = Decides-known _
  widen_attribute-Decides a (c ∷ cs) =
      Decides-if (c.attnum == a.heap_attnum) _ _
        (Decides-bind _ _ (widen_column-Decides c a.typoid a.collation a.value)
          (λ r. Decides-known _))
        (Decides-bind _ _ (widen_attribute-Decides a cs) (λ r. Decides-known _))

  widen_cols-Decides :
      (attributes : List Attribute) (cols : List ColSummary)
      → Decides (widen_cols sv attributes cols)
  unfolding widen_cols
  widen_cols-Decides [] cols = Decides-known _
  widen_cols-Decides (a ∷ rest) cols =
      Decides-bind (widen_attribute sv a cols) _ (widen_attribute-Decides a cols) λ r.
        Decides-bind (widen_cols sv rest r.1) _ (widen_cols-Decides rest r.1) (λ q. Decides-known _)

  -- For every summary and row, `widen_summary` gives a summary or raises an ERROR of the server.
  pub widen_summary-Decides :
      (s : IndexSummary) (attributes : List Attribute) → Decides (widen_summary sv s attributes)
  unfolding widen_summary
  widen_summary-Decides s attributes =
      Decides-bind (widen_cols sv attributes s.cols) _ (widen_cols-Decides attributes s.cols)
        (λ r. Decides-known _)
