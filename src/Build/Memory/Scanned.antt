-- ===== src/Build/Memory/Scanned.antt =====
-- The scan of a column with its memory gives what it gives on values, without a fault
-- (src/summary_build.rs: `build_callback`, `ColumnBuild::add`).
use pg_table_range.Base.{ℕ, ◌≡◌, refl, subst, false, none, List, [], ◌∷◌, ok}
use pg_table_range.Bytes.{Bytes}
use pg_table_range.Server.{Server, invalid_oid}
use pg_table_range.Build.{
  Accumulator, min_max, range, geometry, unsupported, add_min_max, add_range, add_geometry,
  add_value,
}
use pg_table_range.Build.Memory.{
  Memory, set_cell, allocated, add_min_max_at, Handed, left, right, add_range_at, add_geometry_at,
  add_value_at, adds_at, adds,
}
use pg_table_range.Build.Memory.Frame.{Owns, Owns-allocated, Owns-freed, Gives, Gives-bind}
use pg_table_range.Build.Memory.Added.{Alike, Stands, owned, add_min_max-Gives}
use pg_table_range.Build.Memory.Merged.{add_range-Gives}
use pg_table_range.Build.Memory.Batches.{add_geometry-Gives}

module _ (sv : Server) (hands : ℕ → ℕ → Handed) (rest ws : List ℕ)
    (hands_input : (x y w merge : ℕ)
      → sv.function_call2 merge invalid_oid x y ≡ ok w
      → (hands x y ≡ left → w ≡ x) × (hands x y ≡ right → w ≡ y)) where
  -- One value is added; its block and the rest stay as they were.
  add_value-Gives :
      (type_name : Bytes) (typ collation value v : ℕ) (acc acc' : Accumulator) (m : Memory)
      → Stands sv hands rest ws value v acc acc' m
      → Gives
          (Stands sv hands rest ws value v)
          (add_value sv type_name typ collation v acc')
          (add_value_at sv hands type_name typ collation false value acc m)
  unfolding add_value add_value_at
  add_value-Gives type_name typ collation value v (min_max cmp lo hi) (min_max cmp' x y) m (a, o) =
      subst
        (λ z.
          Gives (Stands sv hands rest ws value v) (add_min_max sv z collation v x y)
            (add_min_max_at sv hands cmp collation false value lo hi m))
        a.0
        (add_min_max-Gives sv hands rest ws value v cmp collation lo hi x y m ((refl, a.1, a.2), o))
  add_value-Gives type_name typ collation value v (range merge extent) (range merge' x) m (a, o) =
      subst
        (λ z.
          Gives (Stands sv hands rest ws value v) (add_range sv z v x)
            (add_range_at sv hands merge false value extent m))
        a.0 (add_range-Gives sv hands rest ws value v hands_input merge extent x m ((refl, a.1), o))
  add_value-Gives type_name typ collation value v (geometry ds extent) (geometry xs extent') m
        (a, o) =
      subst
        (λ z.
          Gives (Stands sv hands rest ws value v) (add_geometry sv type_name typ v xs z)
            (add_geometry_at sv hands type_name typ false value ds extent m))
        a.0 (add_geometry-Gives sv hands rest ws value v type_name typ ds xs extent m (a.1, o))
  add_value-Gives type_name typ collation value v unsupported unsupported m (a, o) = (a, o)
  add_value-Gives type_name typ collation value v (min_max c1 l1 h1) (range g2 e2) m h = absurd h.0
  add_value-Gives type_name typ collation value v (min_max c1 l1 h1) (geometry b2 t2) m h =
      absurd h.0
  add_value-Gives type_name typ collation value v (min_max c1 l1 h1) unsupported m h = absurd h.0
  add_value-Gives type_name typ collation value v (range g1 e1) (min_max c2 l2 h2) m h = absurd h.0
  add_value-Gives type_name typ collation value v (range g1 e1) (geometry b2 t2) m h = absurd h.0
  add_value-Gives type_name typ collation value v (range g1 e1) unsupported m h = absurd h.0
  add_value-Gives type_name typ collation value v (geometry b1 t1) (min_max c2 l2 h2) m h =
      absurd h.0
  add_value-Gives type_name typ collation value v (geometry b1 t1) (range g2 e2) m h = absurd h.0
  add_value-Gives type_name typ collation value v (geometry b1 t1) unsupported m h = absurd h.0
  add_value-Gives type_name typ collation value v unsupported (min_max c2 l2 h2) m h = absurd h.0
  add_value-Gives type_name typ collation value v unsupported (range g2 e2) m h = absurd h.0
  add_value-Gives type_name typ collation value v unsupported (geometry b2 t2) m h = absurd h.0

  -- The same accumulators, their blocks live and apart from the rest.
  abbrev pub Held : Accumulator → Accumulator → Memory → Type 0
  Held acc acc' m = Alike acc acc' × Owns m (owned acc rest) (owned acc' ws)

  -- The build's memory is safe, and what it keeps is right. For a column whose type is passed by
  -- reference, the values of any tuples are added with no read of a block that is not live and none
  -- freed twice; the outcome is that of the model on values, an ERROR included; and the blocks that the
  -- accumulator keeps are live, distinct, outside the reset per-tuple contexts, and hold the values that
  -- the model keeps. Every other live block stays as it was. `hands` says when `range_merge` returns one
  -- of its arguments, which is then its result.
  pub adds_at-Held :
      (type_name : Bytes) (typ collation : ℕ) (vs : List ℕ) (acc acc' : Accumulator) (m : Memory)
      → Held acc acc' m
      → Gives Held
          (adds sv hands type_name typ collation vs acc')
          (adds_at sv hands type_name typ collation false vs acc m)
  unfolding adds adds_at
  adds_at-Held type_name typ collation [] acc acc' m h = h
  adds_at-Held type_name typ collation (v ∷ vs) acc acc' m (a, o) =
      Gives-bind (Stands sv hands rest ws m.next v) Held _ _ _ _
        (add_value-Gives type_name typ collation m.next v acc acc' (allocated v m).1
          (a, Owns-allocated m v _ _ o))
        λ b b' m' h.
          adds_at-Held type_name typ collation vs b b' (set_cell m' m.next none)
            (h.0, Owns-freed m' m.next v _ _ h.1)
