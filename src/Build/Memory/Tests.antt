-- ===== src/Build/Memory/Tests.antt =====
-- Tests of the build's memory: the values 15, 12 and 19 of a column of comparable type.
use pg_table_range.Base.{
  ℕ, ◌==◌, if◌then◌else◌, ◌≡◌, refl, none, some, ok, List, [], ◌∷◌, false, arith,
}
use pg_table_range.Build.{Accumulator, min_max}
use pg_table_range.Build.Memory.{Memory, Handed, left, right, neither, adds_at, adds}
use pg_table_range.Build.Memory.Frame.{Gives}
use pg_table_range.Build.Memory.Scanned.{Held, adds_at-Held}
use pg_table_range.Samples.Ints.{ints}
use pg_table_range.Server.{invalid_oid}

abbrev none_handed : ℕ → ℕ → Handed
none_handed x y = neither

none_input :
    (x y w merge : ℕ)
    → ints.function_call2 merge invalid_oid x y ≡ ok w
    → (none_handed x y ≡ left → w ≡ x) × (none_handed x y ≡ right → w ≡ y)
none_input x y w merge e = ((λ h. cc), (λ h. cc))

-- Block 7 belongs to another column and holds 99.
abbrev start : Memory
start = record { next = 8; cell = λ a. if a == 7 then some 99 else none }

abbrev values : List ℕ
values = 15 ∷ 12 ∷ 19 ∷ []

abbrev empty : Accumulator
empty = min_max 1 none none

adds_at-Held_example :
    Gives
      (Held ints none_handed (7 ∷ []) (99 ∷ []) none_input)
      (adds ints none_handed [] 1 0 values empty)
      (adds_at ints none_handed [] 1 0 false values empty start)
adds_at-Held_example =
    adds_at-Held ints none_handed (7 ∷ []) (99 ∷ []) none_input [] 1 0 values empty empty start
      ((refl, tt, tt), (refl, omega arith, tt, tt))
