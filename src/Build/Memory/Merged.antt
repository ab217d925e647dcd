-- ===== src/Build/Memory/Merged.antt =====
-- The extent of ranges on addresses is kept as on values, without a fault (src/summary_build.rs:
-- `ColumnBuild::add`).
use pg_table_range.Base.{
  ℕ, ◌≡◌, refl, ap, true, false, Option, none, some, List, ◌∷◌, ◌==◌, ==_refl, known, ◌>>=◌ as bind,
  arith, Result, ok, err, or_raise,
}
use pg_table_range.Server.{Server, invalid_oid}
use pg_table_range.Build.{Accumulator, range, add_range}
use pg_table_range.Build.Memory.{
  Memory, acted, pure, ◌>>=◌, set_cell, allocated, copy_datum, replace_bound, Handed, left, right,
  neither, handed, merged_at, merge_at, keep_merged, add_range_at,
}
use pg_table_range.Build.Memory.Frame.{
  Owns, Owns-allocated, Owns-swap, Owns-swap_next, Gives, Gives-moved, copy_datum-Owns,
  free_datum-Owns,
}
use pg_table_range.Build.Memory.Added.{Stands, replace_bound-Owns}

module _ (sv : Server) (hands : ℕ → ℕ → Handed) (rest ws : List ℕ) (value v : ℕ) where
  abbrev Kept : Accumulator → Accumulator → Memory → Type 0
  Kept = Stands sv hands rest ws value v

  module _
      (hands_input : (x y w merge : ℕ)
        → sv.function_call2 merge invalid_oid x y ≡ ok w
        → (hands x y ≡ left → w ≡ x) × (hands x y ≡ right → w ≡ y)) where
    one_copy :
        (merge : ℕ) (m : Memory)
        → Owns m (value ∷ rest) (v ∷ ws)
        → Gives Kept
            (known (range merge (some v)))
            ((copy_datum value false >>= λ d. pure (range merge (some d))) m)
    one_copy merge m o =
        let (ran, o1) = copy_datum-Owns m value v rest ws o in
        Gives-moved Kept (known (range merge (some v))) _ m.next (allocated v m).1 _ ran
          ((refl, tt), o1)

    -- What is kept of the merged extent, wherever it lies.
    handed-Gives :
        (merge old x w : ℕ) (m : Memory) (h : Handed)
        → (h ≡ left → w ≡ x) × (h ≡ right → w ≡ v)
        → Owns m (value ∷ old ∷ rest) (v ∷ x ∷ ws)
        → Gives Kept (known (range merge (some w))) (
            acted (handed old value m h w) λ merged.
              keep_merged sv hands (merged == value) (merged == old) false old value merged >>= λ d.
              pure (range merge (some d)))
    unfolding keep_merged replace_bound
    handed-Gives merge old x w m left (at_left, at_right) o =
        rw (other, ==_refl old) ((refl, tt), rw (at_left refl) o)
      where
        other : (old == value) ≡ false
        other = ground (arith, o.2.0)
    handed-Gives merge old x w m right (at_left, at_right) o =
        rw (==_refl value, at_right refl)
          (let (d, m', ran, o1) =
              replace_bound-Owns sv hands rest ws value v true m old x rest ws
                (Owns-swap m value old v x rest ws o) in
            Gives-moved Kept (known (range merge (some v))) _ d m' _ ran
              ((refl, tt), Owns-swap m' d value v v rest ws o1))
    handed-Gives merge old x w m neither (at_left, at_right) o =
        rw (not_value, not_old)
          (let (ran, o2) = free_datum-Owns m1 old x (m.next ∷ value ∷ rest) (w ∷ v ∷ ws) o1 in
            Gives-moved Kept (known (range merge (some w))) _ m.next (set_cell m1 old none) _
              (ap (λ r. acted r (λ z. pure m.next)) ran)
              ((refl, tt), Owns-swap (set_cell m1 old none) m.next value w v rest ws o2))
      where
        m1 : Memory
        m1 = (allocated w m).1

        not_value : (m.next == value) ≡ false
        not_value = ground (arith, o.1)

        not_old : (m.next == old) ≡ false
        not_old = ground (arith, o.3.1)

        made : Owns m1 (m.next ∷ value ∷ old ∷ rest) (w ∷ v ∷ x ∷ ws)
        made = Owns-allocated m w (value ∷ old ∷ rest) (v ∷ x ∷ ws) o

        o1 : Owns m1 (old ∷ m.next ∷ value ∷ rest) (x ∷ w ∷ v ∷ ws)
        o1 =
            Owns-swap m1 m.next old w x (value ∷ rest) (v ∷ ws)
              (Owns-swap_next m1 m.next value old w v x rest ws made)

    range_extent :
        (merge old x : ℕ) (m : Memory)
        → Owns m (value ∷ old ∷ rest) (v ∷ x ∷ ws)
        → Gives Kept
            (add_range sv merge v (some x))
            (add_range_at sv hands merge false value (some old) m)
    unfolding add_range add_range_at merge_at
    range_extent merge old x m o =
        rw (o.3.0, o.0) (by_result (sv.function_call2 merge invalid_oid x v) refl)
      where
        by_result :
            (r : Result ℕ)
            → sv.function_call2 merge invalid_oid x v ≡ r
            → Gives Kept (bind (or_raise r) (λ w. known (range merge (some w)))) (
                acted (merged_at sv hands x v false old value m r) λ merged.
                  keep_merged sv hands (merged == value) (merged == old) false old value merged
                  >>= λ d. pure (range merge (some d)))
        by_result (ok w) e = handed-Gives merge old x w m (hands x v) (hands_input x v w merge e) o
        by_result (err e) q = refl

    pub add_range-Gives :
        (merge : ℕ) (extent extent' : Option ℕ) (m : Memory)
        → Kept (range merge extent) (range merge extent') m
        → Gives Kept
            (add_range sv merge v extent')
            (add_range_at sv hands merge false value extent m)
    add_range-Gives merge none none m (a, o) = unfold add_range add_range_at in one_copy merge m o
    add_range-Gives merge (some old) (some x) m (a, o) = range_extent merge old x m o
    add_range-Gives merge none (some x) m (a, o) = absurd a.1
    add_range-Gives merge (some old) none m (a, o) = absurd a.1
