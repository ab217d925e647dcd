-- ===== src/Build/Memory/Batches.antt =====
-- A batch of geometries on addresses: it is flushed as it is on values, and its copies are freed
-- (src/summary_build.rs: `ColumnBuild::flush_geometry`).
use pg_table_range.Base.{
  ℕ, ◌+◌, ◌≡◌, refl, sym, ap, subst₂, ◌∙◌, Bool, true, false, Option, none, some, List, [], ◌∷◌,
  ◌++◌, unreadable_extent, All, if◌then◌else◌, Attempt, known, unknown, raised, ◌>>=◌ as bind,
  arith, length, leb, append_assoc,
}
use pg_table_range.Bytes.{Bytes}
use pg_table_range.Server.{Server, text_to_datum}
use pg_table_range.Build.{
  Accumulator, geometry, geometry_batch, extent_of_batch, with_extent, flush_batch, flush_geometry,
  add_geometry,
}
use pg_table_range.Build.Memory.{
  Memory, acted, pure, ◌>>=◌, set_cell, allocated, free_datum, Handed, produced, with_extent_at,
  contents, array_of, construct_array, free_all, lift, flush_batch_at, flush_geometry_at, flush_if,
  add_geometry_at,
}
use pg_table_range.Build.Memory.Frame.{
  Owns, Owns-allocated, Owns-swap, Gives, Gives-bind, Gives-moved, copy_datum-Owns, free_datum-Owns,
}
use pg_table_range.Build.Memory.Added.{Stands}

All-past :
    (P : ℕ → Type 0) (a : ℕ) (ds as' : List ℕ) → All P (a ∷ ds ++ as') → All P (ds ++ a ∷ as')
All-past P a [] as' h = h
All-past P a (d ∷ ds) as' h = (h.1.0, All-past P a ds as' (h.0, h.1.1))

module _ (m : Memory) (a x : ℕ) (as' vs : List ℕ) where
  -- An address goes behind the batch.
  Owns-past :
      (ds xs : List ℕ)
      → length ds ≡ length xs
      → Owns m (a ∷ ds ++ as') (x ∷ xs ++ vs)
      → Owns m (ds ++ a ∷ as') (xs ++ x ∷ vs)
  Owns-past [] [] e o = o
  Owns-past [] (y ∷ xs) e o = absurd (omega (arith, e))
  Owns-past (d ∷ ds) [] e o = absurd (omega (arith, e))
  Owns-past (d ∷ ds) (y ∷ xs) e o =
      let s = Owns-swap m a d x y (ds ++ as') (xs ++ vs) o in
      (s.0, s.1, All-past _ a ds as' s.2, Owns-past ds xs (omega (arith, e)) s.3)

contents-Owns :
    (sv : Server) (hands : ℕ → ℕ → Handed) (m : Memory) (ds xs as' vs : List ℕ)
    → length ds ≡ length xs
    → Owns m (ds ++ as') (xs ++ vs)
    → contents sv hands false ds m ≡ some xs
contents-Owns sv hands m [] [] as' vs e o = refl
contents-Owns sv hands m [] (y ∷ xs) as' vs e o = absurd (omega (arith, e))
contents-Owns sv hands m (d ∷ ds) [] as' vs e o = absurd (omega (arith, e))
contents-Owns sv hands m (d ∷ ds) (y ∷ xs) as' vs e o =
    rw (o.0, contents-Owns sv hands m ds xs as' vs (omega (arith, e)) o.3) refl

free_all-Owns :
    (sv : Server) (hands : ℕ → ℕ → Handed) (m : Memory) (ds xs as' vs : List ℕ)
    → length ds ≡ length xs
    → Owns m (ds ++ as') (xs ++ vs)
    → (m' : Memory) × (free_all sv hands false ds m ≡ some (known tt, m')) × Owns m' as' vs
unfolding free_all
free_all-Owns sv hands m [] [] as' vs e o = (m, refl, o)
free_all-Owns sv hands m [] (y ∷ xs) as' vs e o = absurd (omega (arith, e))
free_all-Owns sv hands m (d ∷ ds) [] as' vs e o = absurd (omega (arith, e))
free_all-Owns sv hands m (d ∷ ds) (y ∷ xs) as' vs e o =
    let (ran, kept) = free_datum-Owns m d y (ds ++ as') (xs ++ vs) o in
    let (m', all_ran, left_over) =
      free_all-Owns sv hands (set_cell m d none) ds xs as' vs (omega (arith, e)) kept in
    (m', ap (λ r. acted r (λ z. free_all sv hands false ds)) ran ∙ all_ran, left_over)

length-snoc : (ds : List ℕ) (d : ℕ) → length (ds ++ d ∷ []) ≡ length ds + 1
length-snoc [] d = refl
length-snoc (x ∷ ds) d = omega (arith, length-snoc ds d)

module _ (sv : Server) (hands : ℕ → ℕ → Handed) (rest ws : List ℕ) (value v : ℕ) where
  abbrev Kept : Accumulator → Accumulator → Memory → Type 0
  Kept = Stands sv hands rest ws value v

  abbrev Batched : List ℕ → List ℕ → Memory → Type 0
  Batched ds xs m = (length ds ≡ length xs) × Owns m (value ∷ ds ++ rest) (v ∷ xs ++ ws)

  -- A new block joins the batch.
  Batched-snoc :
      (m : Memory) (d x : ℕ) (ds xs : List ℕ)
      → length ds ≡ length xs
      → Owns m (value ∷ d ∷ ds ++ rest) (v ∷ x ∷ xs ++ ws)
      → Batched (ds ++ d ∷ []) (xs ++ x ∷ []) m
  Batched-snoc m d x ds xs e o = (
    omega (arith, e, length-snoc ds d, length-snoc xs x),
    subst₂ (λ as' vs. Owns m (value ∷ as') (v ∷ vs)) (sym (append_assoc ds (d ∷ []) rest))
        (sym (append_assoc xs (x ∷ []) ws))
        (o.0, o.1, All-past _ d ds rest o.2, Owns-past m d x rest ws ds xs e o.3),
  )

  with_extent-Gives :
      (typ : ℕ) (ds xs : List ℕ) (extent : Option Bytes) (m : Memory)
      → Batched ds xs m
      → Gives Batched (with_extent sv typ xs extent) (with_extent_at sv hands typ false ds extent m)
  unfolding with_extent with_extent_at
  with_extent-Gives typ ds xs none m h = h
  with_extent-Gives typ ds xs (some text) m (e, o) = by_text (text_to_datum sv typ text)
    where
      by_text :
          (r : Attempt ℕ)
          → Gives Batched
              (elim r [
                | known d ↦ known (xs ++ d ∷ [])
                | unknown ↦ raised unreadable_extent
                | raised e ↦ raised e
              ])
              (acted (produced sv hands false r m) λ d. pure (ds ++ d ∷ []))
      by_text (known x) =
          let m1 = (allocated x m).1 in
          Batched-snoc m1 m.next x ds xs e (
            Owns-swap m1 m.next value x v (ds ++ rest) (xs ++ ws)
              (Owns-allocated m x (value ∷ ds ++ rest) (v ∷ xs ++ ws) o))
      by_text unknown = refl
      by_text (raised e) = refl

  -- The query runs on the values of the batch; the copies and the array are freed after it.
  queried-Gives :
      (type_name : Bytes) (typ : ℕ) (extent : Option Bytes) (d x : ℕ) (ds xs : List ℕ) (m : Memory)
      → Batched (d ∷ ds) (x ∷ xs) m
      → Gives Kept
          (flush_batch sv type_name typ extent (x ∷ xs))
          (flush_batch_at sv hands type_name typ false extent (d ∷ ds) m)
  unfolding flush_batch flush_batch_at construct_array
  queried-Gives type_name typ extent d x ds xs m (e, o) =
      Gives-moved Kept (bind (extent_of_batch sv type_name typ (x ∷ xs)) _) _ (m.next, x ∷ xs) m1 _
        (ap (array_of sv hands m) read) (by_result (extent_of_batch sv type_name typ (x ∷ xs)))
    where
      read : contents sv hands false (d ∷ ds) m ≡ some (x ∷ xs)
      read = contents-Owns sv hands m (d ∷ ds) (x ∷ xs) rest ws e o.3

      m1 : Memory
      m1 = (allocated 0 m).1

      made : Owns m1 (m.next ∷ value ∷ d ∷ ds ++ rest) (0 ∷ v ∷ x ∷ xs ++ ws)
      made = Owns-allocated m 0 (value ∷ d ∷ ds ++ rest) (v ∷ x ∷ xs ++ ws) o

      behind : Owns m1 (d ∷ ds ++ m.next ∷ value ∷ rest) (x ∷ xs ++ 0 ∷ v ∷ ws)
      behind = Owns-past m1 m.next 0 (value ∷ rest) (v ∷ ws) (d ∷ ds) (x ∷ xs) e (
        made.0,
        made.1,
        All-past _ value (d ∷ ds) rest made.2,
        Owns-past m1 value v rest ws (d ∷ ds) (x ∷ xs) e made.3,
      )

      by_result :
          (r : Attempt (Option Bytes))
          → Gives Kept (bind r (λ result. known (geometry [] result))) (
              acted (lift sv hands r m1) λ result. free_all sv hands false (d ∷ ds) >>= λ z.
              free_datum m.next false >>= λ z'. pure (geometry [] result))
      by_result (known result) =
          let (m2, all_ran, kept) =
            free_all-Owns sv hands m1 (d ∷ ds) (x ∷ xs) (m.next ∷ value ∷ rest) (0 ∷ v ∷ ws) e
              behind in
          let (ran, left_over) = free_datum-Owns m2 m.next 0 (value ∷ rest) (v ∷ ws) kept in
          Gives-moved Kept (known (geometry [] result)) _ tt m2 _ all_ran (
            Gives-moved Kept (known (geometry [] result)) _ m.next (set_cell m2 m.next none) _ ran
              ((refl, refl), left_over))
      by_result unknown = tt
      by_result (raised e) = refl

  flush_batch-Gives :
      (type_name : Bytes) (typ : ℕ) (extent : Option Bytes) (ds xs : List ℕ) (m : Memory)
      → Batched ds xs m
      → Gives Kept
          (flush_batch sv type_name typ extent xs)
          (flush_batch_at sv hands type_name typ false extent ds m)
  flush_batch-Gives type_name typ extent [] [] m (e, o) =
      unfold flush_batch flush_batch_at in ((refl, refl), o)
  flush_batch-Gives type_name typ extent [] (x ∷ xs) m (e, o) = absurd (omega (arith, e))
  flush_batch-Gives type_name typ extent (d ∷ ds) [] m (e, o) = absurd (omega (arith, e))
  flush_batch-Gives type_name typ extent (d ∷ ds) (x ∷ xs) m h =
      queried-Gives type_name typ extent d x ds xs m h

  flush_geometry-Gives :
      (type_name : Bytes) (typ : ℕ) (extent : Option Bytes) (ds xs : List ℕ) (m : Memory)
      → Batched ds xs m
      → Gives Kept
          (flush_geometry sv type_name typ xs extent)
          (flush_geometry_at sv hands type_name typ false ds extent m)
  unfolding flush_geometry flush_geometry_at
  flush_geometry-Gives type_name typ extent ds xs m h =
      Gives-bind Batched Kept _ _ _ _ (with_extent-Gives (sv.get_base_type typ) ds xs extent m h)
        λ ds' xs' m' h'. flush_batch-Gives type_name (sv.get_base_type typ) extent ds' xs' m' h'

  pub add_geometry-Gives :
      (type_name : Bytes) (typ : ℕ) (ds xs : List ℕ) (extent : Option Bytes) (m : Memory)
      → Batched ds xs m
      → Gives Kept
          (add_geometry sv type_name typ v xs extent)
          (add_geometry_at sv hands type_name typ false value ds extent m)
  unfolding add_geometry add_geometry_at
  add_geometry-Gives type_name typ ds xs extent m (e, o) =
      let (ran, o1) = copy_datum-Owns m value v (ds ++ rest) (xs ++ ws) o in
      let m1 = (allocated v m).1 in
      Gives-moved Kept _ _ m.next m1 _ ran (
        by_size (Batched-snoc m1 m.next v ds xs e o1)
          (leb geometry_batch (length (ds ++ m.next ∷ [])))
          (leb geometry_batch (length (xs ++ v ∷ []))) same_size)
    where
      same_size :
          leb geometry_batch (length (ds ++ m.next ∷ []))
          ≡ leb geometry_batch (length (xs ++ v ∷ []))
      same_size =
          ap (leb geometry_batch)
            (length-snoc ds m.next ∙ ap (λ n. n + 1) e ∙ sym (length-snoc xs v))

      by_size :
          Batched (ds ++ m.next ∷ []) (xs ++ v ∷ []) (allocated v m).1
          → (b b' : Bool) → b ≡ b'
          → Gives Kept
              (if b'
                then flush_geometry sv type_name typ (xs ++ v ∷ []) extent
                else known (geometry (xs ++ v ∷ []) extent))
              (flush_if sv hands b
                (flush_geometry_at sv hands type_name typ false (ds ++ m.next ∷ []) extent)
                (geometry (ds ++ m.next ∷ []) extent)
                (allocated v m).1)
      by_size h true true q =
          flush_geometry-Gives type_name typ extent (ds ++ m.next ∷ []) (xs ++ v ∷ [])
            (allocated v m).1 h
      by_size h false false q = ((refl, h.0), h.1)
      by_size h true false q = cc
      by_size h false true q = cc
