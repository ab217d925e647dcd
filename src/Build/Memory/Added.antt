-- ===== src/Build/Memory/Added.antt =====
-- A minimum and a maximum on addresses are kept as on values, without a fault (src/summary_build.rs:
-- `ColumnBuild::add`).
use pg_table_range.Base.{
  ℕ, ◌≡◌, refl, sym, ap, subst, subst₂, ◌∙◌, Bool, true, false, Option, none, some, List, ◌∷◌, ◌++◌,
  if◌then◌else◌, Attempt, known, unknown, raised, ◌>>=◌ as bind, Ordering, length,
}
use pg_table_range.Server.{Server, is_lt, is_gt}
use pg_table_range.Build.{Accumulator, min_max, range, geometry, unsupported, call_cmp, add_min_max}
use pg_table_range.Build.Memory.{
  Memory, Act, acted, pure, ◌>>=◌, set_cell, allocated, copy_datum, compare_at, replace_bound,
  add_min_max_at, Handed,
}
use pg_table_range.Build.Memory.Frame.{
  Owns, Owns-swap, Owns-swap_next, Gives, Gives-moved, copy_datum-Owns, free_datum-Owns,
}

some-if : (c : Bool) (a b : ℕ) → some (if c then a else b) ≡ (if c then some a else some b)
some-if true a b = refl
some-if false a b = refl

-- The blocks of an accumulator, before others.
abbrev pub opt_list : Option ℕ → List ℕ → List ℕ
opt_list none xs = xs
opt_list (some x) xs = x ∷ xs

abbrev pub owned : Accumulator → List ℕ → List ℕ
owned (min_max cmp min max) xs = opt_list min (opt_list max xs)
owned (range merge extent) xs = opt_list extent xs
owned (geometry batch extent) xs = batch ++ xs
owned unsupported xs = xs

abbrev pub SameShape : Option ℕ → Option ℕ → Type 0
SameShape none none = Unit
SameShape none (some y) = ⊥
SameShape (some x) none = ⊥
SameShape (some x) (some y) = Unit

abbrev pub Alike : Accumulator → Accumulator → Type 0
Alike (min_max cmp min max) (min_max cmp' min' max') =
    (cmp ≡ cmp') × SameShape min min' × SameShape max max'
Alike (range merge extent) (range merge' extent') = (merge ≡ merge') × SameShape extent extent'
Alike (geometry batch extent) (geometry batch' extent') =
    (extent ≡ extent') × (length batch ≡ length batch')
Alike unsupported unsupported = Unit
Alike _ _ = ⊥

module _ (sv : Server) (hands : ℕ → ℕ → Handed) (rest ws : List ℕ) where
  -- What an operation leaves: the value's block and the rest as they were, and the new accumulator's
  -- blocks with the values of the accumulator on values.
  abbrev pub Stands : ℕ → ℕ → Accumulator → Accumulator → Memory → Type 0
  Stands value v acc acc' m = Alike acc acc' × Owns m (value ∷ owned acc rest) (v ∷ owned acc' ws)

  module _ (value v : ℕ) where
    -- A bound is replaced, or stays.
    pub replace_bound-Owns :
        (c : Bool) (m : Memory) (old x : ℕ) (as' vs : List ℕ)
        → Owns m (old ∷ value ∷ as') (x ∷ v ∷ vs)
        → (d : ℕ) × (m' : Memory) × (replace_bound sv hands c false old value m
            ≡ some (known d, m'))
          × Owns m' (d ∷ value ∷ as') ((if c then v else x) ∷ v ∷ vs)
    unfolding replace_bound
    replace_bound-Owns false m old x as' vs o = (old, m, refl, o)
    replace_bound-Owns true m old x as' vs o =
        let (ran, kept) = free_datum-Owns m old x (value ∷ as') (v ∷ vs) o in
        let (made, both) = copy_datum-Owns (set_cell m old none) value v as' vs kept in
        let m' = (allocated v (set_cell m old none)).1 in
        (
          m.next,
          m',
          ap (λ r. acted r (λ z. copy_datum value false)) ran ∙ made,
          Owns-swap m' value m.next v v as' vs both,
        )

    compare_at-known :
        (cmp collation : ℕ) (m : Memory) (b y : ℕ)
        → m.cell value ≡ some v
        → m.cell b ≡ some y
        → compare_at sv hands cmp collation false value b m
          ≡ some (call_cmp sv cmp collation v y, m)
    unfolding compare_at
    compare_at-known cmp collation m b y e h = rw (e, h) refl

    -- What a comparison gives, with the memory as it was.
    compared-Gives :
        {C D : Type 0} (S : C → D → Memory → Type 0) (cmp collation : ℕ) (m : Memory) (b y : ℕ)
        (f : Ordering → Attempt D) (k : Ordering → Act C)
        → m.cell value ≡ some v
        → m.cell b ≡ some y
        → ((o : Ordering) → Gives S (f o) (k o m))
        → Gives S
            (bind (call_cmp sv cmp collation v y) f)
            (acted (compare_at sv hands cmp collation false value b m) k)
    compared-Gives S cmp collation m b y f k e h go =
        subst
          (λ (r : Option (Attempt Ordering × Memory)).
            Gives S (bind (call_cmp sv cmp collation v y) f) (acted r k))
          (sym (compare_at-known cmp collation m b y e h))
          (by_outcome (call_cmp sv cmp collation v y))
      where
        by_outcome : (x : Attempt Ordering) → Gives S (bind x f) (acted (some (x, m)) k)
        by_outcome (known o) = go o
        by_outcome unknown = tt
        by_outcome (raised e) = refl

    abbrev Kept : Accumulator → Accumulator → Memory → Type 0
    Kept = Stands value v

    both_bounds :
        (cmp collation : ℕ) (m : Memory) (lo hi x y : ℕ)
        → Owns m (value ∷ lo ∷ hi ∷ rest) (v ∷ x ∷ y ∷ ws)
        → Gives Kept
            (add_min_max sv cmp collation v (some x) (some y))
            (add_min_max_at sv hands cmp collation false value (some lo) (some hi) m)
    unfolding add_min_max add_min_max_at
    both_bounds cmp collation m lo hi x y o =
        compared-Gives Kept cmp collation m lo x _ _ o.0
          (Owns-swap m value lo v x (hi ∷ rest) (y ∷ ws) o).0
          λ below.
            let (lo', m1, ran, o1) =
              replace_bound-Owns (is_lt below) m lo x (hi ∷ rest) (y ∷ ws)
                (Owns-swap m value lo v x (hi ∷ rest) (y ∷ ws) o) in
            let x' = if is_lt below then v else x in
            let o2 = Owns-swap m1 lo' value x' v (hi ∷ rest) (y ∷ ws) o1 in
            let o3 =
              Owns-swap m1 value hi v y (lo' ∷ rest) (x' ∷ ws)
                (Owns-swap_next m1 value lo' hi v x' y rest ws o2) in
            Gives-moved Kept _ _ lo' m1 _ ran (
              compared-Gives Kept cmp collation m1 hi y _ _ o2.0 o3.0 λ above.
                let (hi', m2, ran2, o4) =
                  replace_bound-Owns (is_gt above) m1 hi y (lo' ∷ rest) (x' ∷ ws) o3 in
                let y' = if is_gt above then v else y in
                let done : Kept (min_max cmp (some lo') (some hi'))
                    (min_max cmp (some x') (some y')) m2 =
                  (
                    (refl, tt, tt),
                    Owns-swap_next m2 value hi' lo' v y' x' rest ws
                        (Owns-swap m2 hi' value y' v (lo' ∷ rest) (x' ∷ ws) o4),
                  ) in
                Gives-moved Kept
                  (known (
                    min_max cmp (if is_lt below then some v else some x)
                      (if is_gt above then some v else some y)))
                  _ hi' m2 _ ran2
                  (subst₂ (λ p q. Kept (min_max cmp (some lo') (some hi')) (min_max cmp p q) m2)
                    (some-if (is_lt below) v x) (some-if (is_gt above) v y) done))

    two_copies :
        (cmp : ℕ) (m : Memory)
        → Owns m (value ∷ rest) (v ∷ ws)
        → Gives Kept (known (min_max cmp (some v) (some v))) (
            (copy_datum value false >>= λ lo.
            copy_datum value false >>= λ hi. pure (min_max cmp (some lo) (some hi)))
              m)
    two_copies cmp m o =
        let (ran, o1) = copy_datum-Owns m value v rest ws o in
        let m1 = (allocated v m).1 in
        let (ran2, o2) = copy_datum-Owns m1 value v (m.next ∷ rest) (v ∷ ws) o1 in
        let m2 = (allocated v m1).1 in
        Gives-moved Kept (known (min_max cmp (some v) (some v))) _ m.next m1 _ ran (
          Gives-moved Kept (known (min_max cmp (some v) (some v))) _ m1.next m2 _ ran2
            ((refl, tt, tt), Owns-swap_next m2 value m1.next m.next v v v rest ws o2))

    pub add_min_max-Gives :
        (cmp collation : ℕ) (min max min' max' : Option ℕ) (m : Memory)
        → Kept (min_max cmp min max) (min_max cmp min' max') m
        → Gives Kept
            (add_min_max sv cmp collation v min' max')
            (add_min_max_at sv hands cmp collation false value min max m)
    add_min_max-Gives cmp collation (some lo) (some hi) (some x) (some y) m (a, o) =
        both_bounds cmp collation m lo hi x y o
    add_min_max-Gives cmp collation none none none none m (a, o) =
        unfold add_min_max add_min_max_at in two_copies cmp m o
    add_min_max-Gives cmp collation none (some hi) none (some y) m (a, o) =
        unfold add_min_max add_min_max_at in two_copies cmp m (Owns-swap m value hi v y rest ws o).3
    add_min_max-Gives cmp collation (some lo) none (some x) none m (a, o) =
        unfold add_min_max add_min_max_at in two_copies cmp m (Owns-swap m value lo v x rest ws o).3
    add_min_max-Gives cmp collation (some lo) max none max' m (a, o) = absurd a.1
    add_min_max-Gives cmp collation none max (some x) max' m (a, o) = absurd a.1
    add_min_max-Gives cmp collation (some lo) (some hi) (some x) none m (a, o) = absurd a.2
    add_min_max-Gives cmp collation (some lo) none (some x) (some y) m (a, o) = absurd a.2
    add_min_max-Gives cmp collation none (some hi) none none m (a, o) = absurd a.2
    add_min_max-Gives cmp collation none none none (some y) m (a, o) = absurd a.2
