-- ===== src/Fitting/Choice.antt =====
-- The column that `encode_fitting` picks.
use pg_table_range.Base.{
  ℕ, zero, suc, ◌+◌, ◌≤◌, ◌<◌, ◌≡◌, refl, inl, inr, Option, none, some, List, [], ◌∷◌, length,
  modify, get_elem?, All, arith, ltb, Bool-cases, drop, if◌then◌else◌, All-map,
}
use pg_table_range.Summary.{ColSummary, bound_len, make_unbounded}
use pg_table_range.Fitting.{Candidate, better, largest_bounds}

-- How many columns have a bound that could be dropped.
pub droppable : List ColSummary → ℕ
droppable [] = 0
droppable (c ∷ cs) = (if ltb 0 (bound_len c) then 1 else 0) + droppable cs

-- What `largest_bounds` promises: nothing is picked when no bound is left, and else a column with
-- bounds, none larger, and those behind it smaller.
abbrev pub Picks : Option Candidate → List ColSummary → Type 0
Picks none cs = All (λ c. bound_len c ≡ 0) cs
Picks (some p) cs =
    (0 < p.key)
    × ((c : ColSummary) × (get_elem? cs p.index ≡ some c) × (bound_len c ≡ p.key))
    × All (λ c. bound_len c ≤ p.key) cs
    × All (λ c. bound_len c < p.key) (drop (suc p.index) cs)

better-Picks :
    (c : ColSummary) (cs : List ColSummary) (o : Option Candidate)
    → Picks o cs
    → Picks (better (bound_len c) o) (c ∷ cs)
unfolding better
better-Picks c cs none h = elim (Bool-cases (ltb 0 (bound_len c))) [
  | inl e ↦ rw e (
    ground arith,
    (c, refl, refl),
    (omega arith, All-map (λ d z. omega arith) cs h),
    All-map (λ d z. ground arith) cs h,
  )
  | inr e ↦ rw e (ground arith, h)
]
better-Picks c cs (some p) h = elim (Bool-cases (ltb p.key (bound_len c))) [
  | inl e ↦ rw e (
    ground arith,
    (c, refl, refl),
    (omega arith, All-map (λ d z. ground arith) cs h.2),
    All-map (λ d z. ground arith) cs h.2,
  )
  | inr e ↦ rw e (h.0, h.1, (ground arith, h.2), h.3)
]

-- For every list of columns: a chosen column has bounds, no column has longer ones, and every later
-- column has shorter ones; none is chosen only if no column has bounds.
pub largest_bounds-Picks : (cs : List ColSummary) → Picks (largest_bounds cs) cs
unfolding largest_bounds
largest_bounds-Picks [] = tt
largest_bounds-Picks (c ∷ cs) = better-Picks c cs (largest_bounds cs) (largest_bounds-Picks cs)

-- Dropping the bounds of a column that has some leaves one column fewer with bounds.
pub droppable-modify :
    (cs : List ColSummary) (i : ℕ) (c : ColSummary)
    → get_elem? cs i ≡ some c
    → 0 < bound_len c
    → droppable (modify i make_unbounded cs) + 1 ≡ droppable cs
unfolding droppable bound_len make_unbounded
droppable-modify [] i c e h = cc
droppable-modify (x ∷ xs) zero c e h = ground arith
droppable-modify (x ∷ xs) (suc i) c e h = ground (arith, droppable-modify xs i c e h)

pub droppable-le : (cs : List ColSummary) → droppable cs ≤ length cs
unfolding droppable
droppable-le [] = omega arith
droppable-le (c ∷ cs) = ground (arith, droppable-le cs)
