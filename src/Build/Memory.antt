-- ===== src/Build/Memory.antt =====
-- The memory of the build (src/summary_build.rs: `copy_datum`, `free_datum`, and `ColumnBuild::add`
-- with them). A datum of a type that is passed by reference is an address; reading or freeing an
-- address that is not allocated is a fault. A copy, detoasted or not, has the value of the original.
pub mod Frame
pub mod Added
pub mod Merged
pub mod Batches
pub mod Scanned
mod Tests
use pg_table_range.Base.{
  ℕ, ◌+◌, Bool, true, false, Option, none, some, List, [], ◌∷◌, ◌==◌, if◌then◌else◌, Ordering,
  Attempt, known, unknown, raised, ◌>>=◌ as bind, Result, ok, err, or_raise, unreadable_extent,
  ◌++◌, leb, length,
}
use pg_table_range.Bytes.{Bytes}
use pg_table_range.Server.{Server, invalid_oid, is_lt, is_gt, text_to_datum}
use pg_table_range.Build.{
  Accumulator, min_max, range, geometry, unsupported, call_cmp, geometry_batch, extent_of_batch,
  add_value,
}

-- The addresses from `next` on have never been allocated.
pub record Memory : Type 0 where
  pub next : ℕ
  pub cell : ℕ → Option ℕ

-- `none` is a fault; otherwise a value or an ERROR, and the memory after it.
abbrev pub Act : Type 0 → Type 0
Act A = Memory → Option (Attempt A × Memory)

abbrev pub pure : {A : Type 0} → A → Act A
pure a m = some (known a, m)

abbrev pub acted :
    {A B : Type 0} → Option (Attempt A × Memory) → (A → Act B) → Option (Attempt B × Memory)
acted none k = none
acted (some (known a, m)) k = k a m
acted (some (unknown, m)) k = some (unknown, m)
acted (some (raised e, m)) k = some (raised e, m)

infixl 5 ◌>>=◌
abbrev pub ◌>>=◌ : {A B : Type 0} → Act A → (A → Act B) → Act B
(act >>= k) m = acted (act m) k

abbrev pub set_cell : Memory → ℕ → Option ℕ → Memory
set_cell m a v = record m { cell = λ b. if a == b then v else m.cell b }

-- A new block that holds the value.
abbrev pub allocated : ℕ → Memory → ℕ × Memory
allocated v m = (m.next, record (set_cell m m.next (some v)) { next = m.next + 1 })

abbrev pub copied : Memory → Option ℕ → Option (Attempt ℕ × Memory)
copied m none = none
copied m (some v) = let (d, m') = allocated v m in some (known d, m')

pub copy_datum : ℕ → Bool → Act ℕ
copy_datum value true m = some (known value, m)
copy_datum value false m = copied m (m.cell value)

abbrev pub freed : ℕ → Memory → Option ℕ → Option (Attempt ℕ × Memory)
freed d m none = none
freed d m (some v) = some (known d, set_cell m d none)

pub free_datum : ℕ → Bool → Act ℕ
free_datum d true m = some (known d, m)
free_datum d false m = freed d m (m.cell d)

-- What a function finds in its argument.
abbrev pub content : Bool → ℕ → Memory → Option ℕ
content true d m = some d
content false d m = m.cell d

abbrev pub compared :
    Memory → (ℕ → ℕ → Attempt Ordering) → Option ℕ → Option ℕ → Option (Attempt Ordering × Memory)
compared m f (some x) (some y) = some (f x y, m)
compared m f (some x) none = none
compared m f none y = none

-- Which of its inputs `range_merge` hands back unchanged, if one.
pub data Handed : Type 0 where
  left right neither : Handed

-- The merged range: an input's address, or a new block.
abbrev pub handed : ℕ → ℕ → Memory → Handed → ℕ → Option (Attempt ℕ × Memory)
handed old value m left v = some (known old, m)
handed old value m right v = some (known value, m)
handed old value m neither v = let (d, m') = allocated v m in some (known d, m')

module _ (sv : Server) (hands : ℕ → ℕ → Handed) where
  pub compare_at : ℕ → ℕ → Bool → ℕ → ℕ → Act Ordering
  unfolding call_cmp
  compare_at cmp collation typbyval a b m =
      compared m (call_cmp sv cmp collation) (content typbyval a m) (content typbyval b m)

  -- A bound that gives way is freed before the new one is copied.
  pub replace_bound : Bool → Bool → ℕ → ℕ → Act ℕ
  unfolding copy_datum free_datum
  replace_bound true typbyval old value = do _ ← free_datum old typbyval; copy_datum value typbyval
  replace_bound false typbyval old value = pure old

  pub add_min_max_at : ℕ → ℕ → Bool → ℕ → Option ℕ → Option ℕ → Act Accumulator
  unfolding compare_at replace_bound
  add_min_max_at cmp collation typbyval value (some lo) (some hi) = do
    below ← compare_at cmp collation typbyval value lo
    lo' ← replace_bound (is_lt below) typbyval lo value
    above ← compare_at cmp collation typbyval value hi
    hi' ← replace_bound (is_gt above) typbyval hi value
    pure (min_max cmp (some lo') (some hi'))
  add_min_max_at cmp collation typbyval value _ _ = do
    lo ← copy_datum value typbyval
    hi ← copy_datum value typbyval
    pure (min_max cmp (some lo) (some hi))

  abbrev pub merged_at : ℕ → ℕ → Bool → ℕ → ℕ → Memory → Result ℕ → Option (Attempt ℕ × Memory)
  merged_at x y true old value m (ok v) = some (known v, m)
  merged_at x y false old value m (ok v) = handed old value m (hands x y) v
  merged_at x y typbyval old value m (err e) = some (raised e, m)

  abbrev pub merging : ℕ → Bool → ℕ → ℕ → Memory → Option ℕ → Option ℕ → Option (Attempt ℕ × Memory)
  merging merge typbyval old value m (some x) (some y) =
      merged_at x y typbyval old value m (sv.function_call2 merge invalid_oid x y)
  merging merge typbyval old value m (some x) none = none
  merging merge typbyval old value m none y = none

  pub merge_at : ℕ → Bool → ℕ → ℕ → Act ℕ
  merge_at merge typbyval old value m =
      merging merge typbyval old value m (content typbyval old m) (content typbyval value m)

  -- What is kept of the old extent and the new value, by where the merged one lies.
  pub keep_merged : Bool → Bool → Bool → ℕ → ℕ → ℕ → Act ℕ
  unfolding copy_datum free_datum
  keep_merged true is_old typbyval old value merged = do
    _ ← free_datum old typbyval
    copy_datum value typbyval
  keep_merged false true typbyval old value merged = pure merged
  keep_merged false false typbyval old value merged = do _ ← free_datum old typbyval; pure merged

  pub add_range_at : ℕ → Bool → ℕ → Option ℕ → Act Accumulator
  unfolding copy_datum merge_at keep_merged
  add_range_at merge typbyval value none = do
    d ← copy_datum value typbyval
    pure (range merge (some d))
  add_range_at merge typbyval value (some old) = do
    merged ← merge_at merge typbyval old value
    d ← keep_merged (merged == value) (merged == old) typbyval old value merged
    pure (range merge (some d))

  -- `text_to_datum` makes a new block.
  abbrev pub produced : Bool → Attempt ℕ → Act ℕ
  produced true (known v) m = some (known v, m)
  produced false (known v) m = let (d, m') = allocated v m in some (known d, m')
  produced typbyval unknown m = some (raised unreadable_extent, m)
  produced typbyval (raised e) m = some (raised e, m)

  pub with_extent_at : ℕ → Bool → List ℕ → Option Bytes → Act (List ℕ)
  with_extent_at typ typbyval batch none = pure batch
  with_extent_at typ typbyval batch (some text) = do
    d ← produced typbyval (text_to_datum sv typ text)
    pure (batch ++ d ∷ [])

  abbrev pub contents_found : Option ℕ → Option (List ℕ) → Option (List ℕ)
  contents_found (some v) (some vs) = some (v ∷ vs)
  contents_found (some v) none = none
  contents_found none vs = none

  abbrev pub contents : Bool → List ℕ → Memory → Option (List ℕ)
  contents typbyval [] m = some []
  contents typbyval (d ∷ ds) m = contents_found (content typbyval d m) (contents typbyval ds m)

  abbrev pub array_of : Memory → Option (List ℕ) → Option (Attempt (ℕ × List ℕ) × Memory)
  array_of m none = none
  array_of m (some vs) = let (a, m') = allocated 0 m in some (known (a, vs), m')

  -- `construct_array`: a new block with the values.
  pub construct_array : Bool → List ℕ → Act (ℕ × List ℕ)
  construct_array typbyval batch m = array_of m (contents typbyval batch m)

  pub free_all : Bool → List ℕ → Act (Unit {0})
  unfolding free_datum
  free_all typbyval [] = pure tt
  free_all typbyval (d ∷ ds) = do _ ← free_datum d typbyval; free_all typbyval ds

  abbrev pub lift : {A : Type 0} → Attempt A → Act A
  lift x m = some (x, m)

  pub flush_batch_at : Bytes → ℕ → Bool → Option Bytes → List ℕ → Act Accumulator
  unfolding construct_array extent_of_batch free_all free_datum
  flush_batch_at type_name typ typbyval extent [] = pure (geometry [] extent)
  flush_batch_at type_name typ typbyval extent (d ∷ ds) = do
    array ← construct_array typbyval (d ∷ ds)
    result ← lift (extent_of_batch sv type_name typ array.1)
    _ ← free_all typbyval (d ∷ ds)
    _ ← free_datum array.0 false
    pure (geometry [] result)

  pub flush_geometry_at : Bytes → ℕ → Bool → List ℕ → Option Bytes → Act Accumulator
  unfolding with_extent_at flush_batch_at
  flush_geometry_at type_name typ typbyval batch extent = do
    batch' ← with_extent_at (sv.get_base_type typ) typbyval batch extent
    flush_batch_at type_name (sv.get_base_type typ) typbyval extent batch'

  abbrev pub flush_if : Bool → Act Accumulator → Accumulator → Act Accumulator
  flush_if b flush acc m = if b then flush m else some (known acc, m)

  pub add_geometry_at : Bytes → ℕ → Bool → ℕ → List ℕ → Option Bytes → Act Accumulator
  unfolding copy_datum flush_geometry_at
  add_geometry_at type_name typ typbyval value batch extent = do
    d ← copy_datum value typbyval
    flush_if (leb geometry_batch (length (batch ++ d ∷ [])))
        (flush_geometry_at type_name typ typbyval (batch ++ d ∷ []) extent)
        (geometry (batch ++ d ∷ []) extent)

  pub add_value_at : Bytes → ℕ → ℕ → Bool → ℕ → Accumulator → Act Accumulator
  unfolding add_min_max_at add_range_at add_geometry_at
  add_value_at type_name typ collation typbyval value (min_max cmp min max) =
      add_min_max_at cmp collation typbyval value min max
  add_value_at type_name typ collation typbyval value (range merge extent) =
      add_range_at merge typbyval value extent
  add_value_at type_name typ collation typbyval value (geometry batch extent) =
      add_geometry_at type_name typ typbyval value batch extent
  add_value_at type_name typ collation typbyval value unsupported = pure unsupported

  -- The values of one column, tuple by tuple: each lies in the scan's per-tuple context while it is
  -- added, and that is reset before the next.
  pub adds_at : Bytes → ℕ → ℕ → Bool → List ℕ → Accumulator → Act Accumulator
  unfolding add_value_at
  adds_at type_name typ collation typbyval [] acc m = pure acc m
  adds_at type_name typ collation typbyval (v ∷ vs) acc m =
      acted (add_value_at type_name typ collation typbyval m.next acc (allocated v m).1)
        λ acc' m'. adds_at type_name typ collation typbyval vs acc' (set_cell m' m.next none)

  -- The same on values.
  pub adds : Bytes → ℕ → ℕ → List ℕ → Accumulator → Attempt Accumulator
  unfolding add_value
  adds type_name typ collation [] acc = known acc
  adds type_name typ collation (v ∷ vs) acc =
      bind (add_value sv type_name typ collation v acc) λ acc'. adds type_name typ collation vs acc'
