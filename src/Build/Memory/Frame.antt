-- ===== src/Build/Memory/Frame.antt =====
-- Live blocks with their values, and what allocation and freeing do to them (src/summary_build.rs).
use pg_table_range.Base.{
  ℕ, ◌<◌, ◌≡◌, ◌≢◌, refl, sym, ap, subst, ◌∙◌, inl, inr, Bool-cases, false, Option, none, some,
  List, [], ◌∷◌, All, ◌==◌, ==_iff, ==_refl, Attempt, known, unknown, raised, ◌>>=◌ as bind, arith,
}
use pg_table_range.Build.Memory.{
  Memory, Act, acted, set_cell, allocated, copied, copy_datum, freed, free_datum,
}

abbrev Apart : ℕ → List ℕ → Type 0
Apart a as' = All (λ b. a ≢ b) as'

-- The addresses are live, hold the values, and no two of them are the same.
abbrev pub Owns : Memory → List ℕ → List ℕ → Type 0
Owns m [] [] = Unit
Owns m [] (v ∷ vs) = ⊥
Owns m (a ∷ as') [] = ⊥
Owns m (a ∷ as') (v ∷ vs) = (m.cell a ≡ some v) × (a < m.next) × Apart a as' × Owns m as' vs

Owns-cells :
    (m m' : Memory) (as' vs : List ℕ)
    → All (λ a. (a < m.next → m'.cell a ≡ m.cell a) × (a < m.next → a < m'.next)) as'
    → Owns m as' vs
    → Owns m' as' vs
Owns-cells m m' [] [] h o = tt
Owns-cells m m' [] (v ∷ vs) h o = o
Owns-cells m m' (a ∷ as') [] h o = o
Owns-cells m m' (a ∷ as') (v ∷ vs) h (c, n, apart, rest) =
    ((h.0.0 n) ∙ c, h.0.1 n, apart, Owns-cells m m' as' vs h.1 rest)

cell-other :
    (m : Memory) (a : ℕ) (v : Option ℕ) (b : ℕ) → a ≢ b → (set_cell m a v).cell b ≡ m.cell b
cell-other m a v b n = elim (Bool-cases (a == b)) [
  | inl e ↦ absurd (n ((==_iff a b).0 e))
  | inr e ↦ rw e refl
]

cell-same : (m : Memory) (a : ℕ) (v : Option ℕ) → (set_cell m a v).cell a ≡ v
cell-same m a v = rw (==_refl a) refl

Owns-bounded : (m : Memory) (as' vs : List ℕ) → Owns m as' vs → Apart m.next as'
Owns-bounded m [] vs o = tt
Owns-bounded m (a ∷ as') [] o = absurd o
Owns-bounded m (a ∷ as') (v ∷ vs) (c, n, apart, rest) =
    ((λ e. omega (arith, n, e)), Owns-bounded m as' vs rest)

All-Apart :
    (m m' : Memory) (d : ℕ) (as' : List ℕ)
    → ((b : ℕ) → d ≢ b → m'.cell b ≡ m.cell b)
    → ((b : ℕ) → b < m.next → b < m'.next)
    → Apart d as'
    → All (λ a. (a < m.next → m'.cell a ≡ m.cell a) × (a < m.next → a < m'.next)) as'
All-Apart m m' d [] same later h = tt
All-Apart m m' d (a ∷ as') same later h =
    (((λ q. same a h.0), later a), All-Apart m m' d as' same later h.1)

pub Owns-allocated :
    (m : Memory) (w : ℕ) (as' vs : List ℕ)
    → Owns m as' vs
    → Owns (allocated w m).1 (m.next ∷ as') (w ∷ vs)
Owns-allocated m w as' vs o = (
  cell-same m m.next (some w),
  omega arith,
  Owns-bounded m as' vs o,
  Owns-cells m (allocated w m).1 as' vs
      (All-Apart m (allocated w m).1 m.next as' (λ b n. cell-other m m.next (some w) b n)
        (λ b h. omega (arith, h)) (Owns-bounded m as' vs o))
      o,
)

pub Owns-freed :
    (m : Memory) (d x : ℕ) (as' vs : List ℕ)
    → Owns m (d ∷ as') (x ∷ vs)
    → Owns (set_cell m d none) as' vs
Owns-freed m d x as' vs (c, n, apart, rest) =
    Owns-cells m (set_cell m d none) as' vs
      (All-Apart m (set_cell m d none) d as' (λ b k. cell-other m d none b k) (λ b h. h) apart) rest

pub Owns-swap :
    (m : Memory) (a b x y : ℕ) (as' vs : List ℕ)
    → Owns m (a ∷ b ∷ as') (x ∷ y ∷ vs)
    → Owns m (b ∷ a ∷ as') (y ∷ x ∷ vs)
Owns-swap m a b x y as' vs (ca, na, (ab, apart_a), (cb, nb, apart_b, rest)) =
    (cb, nb, ((λ e. ab (sym e)), apart_b), (ca, na, apart_a, rest))

-- The second and the third change places.
pub Owns-swap_next :
    (m : Memory) (a b c x y z : ℕ) (as' vs : List ℕ)
    → Owns m (a ∷ b ∷ c ∷ as') (x ∷ y ∷ z ∷ vs)
    → Owns m (a ∷ c ∷ b ∷ as') (x ∷ z ∷ y ∷ vs)
Owns-swap_next m a b c x y z as' vs (ca, na, (ab, (ac, apart)), rest) =
    (ca, na, (ac, (ab, apart)), Owns-swap m b c y z as' vs rest)

-- What a run gives against the outcome on values: no fault, the same ERROR, or related results.
abbrev pub Gives :
    {A B : Type 0} → (A → B → Memory → Type 0) → Attempt B → Option (Attempt A × Memory) → Type 0
Gives R x none = ⊥
Gives R (known b) (some (known a, m)) = R a b m
Gives R (known b) (some (unknown, m)) = ⊥
Gives R (known b) (some (raised e, m)) = ⊥
Gives R unknown (some (known a, m)) = ⊥
Gives R unknown (some (unknown, m)) = Unit
Gives R unknown (some (raised e, m)) = ⊥
Gives R (raised e) (some (known a, m)) = ⊥
Gives R (raised e) (some (unknown, m)) = ⊥
Gives R (raised e) (some (raised e', m)) = e' ≡ e

pub Gives-bind :
    {A B C D : Type 0} (R : A → B → Memory → Type 0) (S : C → D → Memory → Type 0) (x : Attempt B)
    (r : Option (Attempt A × Memory)) (f : B → Attempt D) (k : A → Act C)
    → Gives R x r
    → ((a : A) (b : B) (m : Memory) → R a b m → Gives S (f b) (k a m))
    → Gives S (bind x f) (acted r k)
Gives-bind R S x none f k h go = absurd h
Gives-bind R S (known b) (some (known a, m)) f k h go = go a b m h
Gives-bind R S (known b) (some (unknown, m)) f k h go = absurd h
Gives-bind R S (known b) (some (raised e, m)) f k h go = absurd h
Gives-bind R S unknown (some (known a, m)) f k h go = absurd h
Gives-bind R S unknown (some (unknown, m)) f k h go = h
Gives-bind R S unknown (some (raised e, m)) f k h go = absurd h
Gives-bind R S (raised e) (some (known a, m)) f k h go = absurd h
Gives-bind R S (raised e) (some (unknown, m)) f k h go = absurd h
Gives-bind R S (raised e) (some (raised e', m)) f k h go = h

-- An action that only moves memory.
pub Gives-moved :
    {A C D : Type 0} (S : C → D → Memory → Type 0) (y : Attempt D) (r : Option (Attempt A × Memory))
    (a : A) (m : Memory) (k : A → Act C)
    → r ≡ some (known a, m)
    → Gives S y (k a m)
    → Gives S y (acted r k)
Gives-moved {A} S y r a m k e h =
    subst (λ (z : Option (Attempt A × Memory)). Gives S y (acted z k)) (sym e) h

-- A copy of a live block.
pub copy_datum-Owns :
    (m : Memory) (value v : ℕ) (as' vs : List ℕ)
    → Owns m (value ∷ as') (v ∷ vs)
    → (copy_datum value false m ≡ some (known m.next, (allocated v m).1))
      × Owns (allocated v m).1 (value ∷ m.next ∷ as') (v ∷ v ∷ vs)
unfolding copy_datum
copy_datum-Owns m value v as' vs o = (
  ap (copied m) o.0,
  Owns-swap (allocated v m).1 m.next value v v as' vs (Owns-allocated m v (value ∷ as') (v ∷ vs) o),
)

pub free_datum-Owns :
    (m : Memory) (d x : ℕ) (as' vs : List ℕ)
    → Owns m (d ∷ as') (x ∷ vs)
    → (free_datum d false m ≡ some (known d, set_cell m d none)) × Owns (set_cell m d none) as' vs
unfolding free_datum
free_datum-Owns m d x as' vs o = (ap (freed d m) o.0, Owns-freed m d x as' vs o)
