-- ===== src/Prune.antt =====
-- What a clause proves of a partition (src/prune_hook.rs: `QualSpec`, `proves_prune` and the typed
-- evaluation). Parsing and comparing go through per-plan memo tables in the source; a memo hit
-- returns what the call would, so the calls stand here. A `u16` or `i16` is a number.
pub mod Clause
pub mod Sound
pub mod Verdict
pub mod Relation
pub mod Planner
mod Tests
use pg_table_range.Base.{
  ℕ, ◌%◌, Ordering, Bool, true, false, not, ◌&&◌, Option, none, some, List, [], ◌∷◌, ◌==◌,
  if◌then◌else◌, Attempt, known, unknown, raised, ◌>>=◌,
}
use pg_table_range.Bytes.{Bytes}
use pg_table_range.Summary.{ColSummary}
use pg_table_range.Server.{Server, is_lt, is_gt, text_to_datum, datum_cmp, call_overlap}

pub data QualSpec : Type 0 where
  compare : (attnum strategy parse_type cmpproc collation konst : ℕ) → QualSpec
  null : (attnum : ℕ) (is_null : Bool) → QualSpec
  in_list : (attnum parse_type cmpproc collation : ℕ) (elems : List ℕ) → QualSpec
  overlap : (attnum parse_type opfunc collation konst : ℕ) (commuted : Bool) → QualSpec

unfoldable pub attnum_of : QualSpec → ℕ
attnum_of (compare a s p f c k) = a
attnum_of (null a n) = a
attnum_of (in_list a p f c es) = a
attnum_of (overlap a p f c k m) = a

-- `None` where there is no usable range.
pub bounds_of : Server → ℕ → Bool → Option Bytes → Option Bytes → Attempt (ℕ × ℕ)
bounds_of sv parse_type false (some min) (some max) = do
  min_d ← text_to_datum sv parse_type min
  max_d ← text_to_datum sv parse_type max
  known (min_d, max_d)
bounds_of sv parse_type unbounded min max = unknown

pub parsed_bounds : Server → ColSummary → ℕ → Attempt (ℕ × ℕ)
unfolding bounds_of
parsed_bounds sv row parse_type = bounds_of sv parse_type row.unbounded row.min row.max

-- `let Some(x) = … else { return false }`
abbrev pub or_keep : {A : Type 0} → Attempt A → (A → Attempt Bool) → Attempt Bool
or_keep (known a) f = f a
or_keep unknown f = known false
or_keep (raised e) f = raised e

-- The match on the strategy; `||` does not compare with the maximum once the minimum decides.
pub excluded : (ℕ → Attempt Ordering) → ℕ → ℕ → ℕ → Attempt Bool
excluded cmp strategy min_d max_d =
    if strategy == 1
    then (do s ← cmp min_d; known (not (is_lt s)))
    else if strategy == 2
    then (do s ← cmp min_d; known (is_gt s))
    else if strategy == 3
    then (do s ← cmp min_d; if is_gt s then known true else (do t ← cmp max_d; known (is_lt t)))
    else if strategy == 4
    then (do t ← cmp max_d; known (is_lt t))
    else if strategy == 5
    then (do t ← cmp max_d; known (not (is_gt t)))
    else known false

unfoldable pub eval_compare : Server → ColSummary → ℕ → ℕ → ℕ → ℕ → ℕ → Attempt Bool
unfolding parsed_bounds excluded
eval_compare sv row strategy parse_type cmpproc collation k =
    or_keep (parsed_bounds sv row parse_type)
      λ b. excluded (λ bound. datum_cmp sv cmpproc collation bound k) strategy b.0 b.1

-- The closure of `eval_in_list`: the listed value lies within the bounds.
pub in_range : Server → ℕ → ℕ → ℕ → ℕ → ℕ → Attempt Bool
in_range sv cmpproc collation min_d max_d d = do
  s ← datum_cmp sv cmpproc collation min_d d
  if is_gt s
      then known false
      else (do t ← datum_cmp sv cmpproc collation max_d d; known (not (is_lt t)))

-- `elems.iter().any(…)`, which stops at the first that is in range.
pub any_in_range : Server → ℕ → ℕ → ℕ → ℕ → List ℕ → Attempt Bool
unfolding in_range
any_in_range sv cmpproc collation min_d max_d [] = known false
any_in_range sv cmpproc collation min_d max_d (d ∷ ds) =
    let rest = any_in_range sv cmpproc collation min_d max_d ds in
    do found ← in_range sv cmpproc collation min_d max_d d; if found then known true else rest

unfoldable pub eval_in_list : Server → ColSummary → ℕ → ℕ → ℕ → List ℕ → Attempt Bool
unfolding parsed_bounds any_in_range
eval_in_list sv row parse_type cmpproc collation elems =
    or_keep (parsed_bounds sv row parse_type)
      λ b. do found ← any_in_range sv cmpproc collation b.0 b.1 elems; known (not found)

-- The extent that `eval_overlap` uses.
pub extent_of : Bool → Option Bytes → Option Bytes
extent_of true min = none
extent_of false min = min

pub eval_extent : Server → ℕ → ℕ → ℕ → ℕ → Bool → Option Bytes → Attempt Bool
eval_extent sv parse_type opfunc collation k commuted none = known false
eval_extent sv parse_type opfunc collation k commuted (some extent) =
    or_keep (text_to_datum sv parse_type extent) λ ext. do
      overlaps ← call_overlap sv opfunc collation commuted ext k
      known (overlaps % 256 == 0)

unfoldable pub eval_overlap : Server → ColSummary → ℕ → ℕ → ℕ → ℕ → Bool → Attempt Bool
unfolding eval_extent extent_of
eval_overlap sv row parse_type opfunc collation k commuted =
    eval_extent sv parse_type opfunc collation k commuted (extent_of row.unbounded row.min)

unfoldable pub proves_prune : Server → QualSpec → ColSummary → Attempt Bool
unfolding eval_compare eval_in_list eval_overlap
proves_prune sv (null a is_null) row = known (if is_null then not row.has_nulls else row.all_nulls)
proves_prune sv (compare a strategy parse_type cmpproc collation konst) row =
    if not row.overlap && row.collation == collation
    then eval_compare sv row strategy parse_type cmpproc collation konst
    else known false
proves_prune sv (in_list a parse_type cmpproc collation elems) row =
    if not row.overlap && row.collation == collation
    then eval_in_list sv row parse_type cmpproc collation elems
    else known false
proves_prune sv (overlap a parse_type opfunc collation konst commuted) row =
    if row.overlap
    then eval_overlap sv row parse_type opfunc collation konst commuted
    else known false
