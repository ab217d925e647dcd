-- ===== src/Prune/Sound.antt =====
-- A clause on one column prunes only if no covered value satisfies it (src/prune_hook.rs).
use pg_table_range.Base.{
  Ensures-imp, ℕ, zero, suc, ◌≡◌, ◌<◌, ◌==◌, refl, Ordering, Bool, true, false, not, Option, none,
  some, Attempt, known, unknown, raised, Ensures, Ensures-if, arith, List, [], ◌∷◌, All,
  Ensures-known, Ensures-unknown, Ensures-raised, Ensures-bind,
}
use pg_table_range.Bytes.{Bytes}
use pg_table_range.Summary.{ColSummary}
use pg_table_range.Server.{Server, is_lt, is_gt, text_to_datum, datum_cmp}
use pg_table_range.Widen.Covers.{Agrees, BtreeOrder, Encloses}
use pg_table_range.Prune.{
  bounds_of, parsed_bounds, or_keep, excluded, in_range, any_in_range, eval_compare, eval_in_list,
}

not-false : (b : Bool) → not b ≡ false → b ≡ true
not-false b h = ground arith

not-true : (b : Bool) → not b ≡ true → b ≡ false
not-true b h = ground arith

past_five : (n m : ℕ) → m < 6 → (suc (suc (suc (suc (suc (suc n))))) == m) ≡ false
past_five n m h = ground arith

-- If the verdict is `true`, then `P`.
abbrev pub Proves : Type 0 → Bool → Type 0
Proves P b = b ≡ true → P

pub or_keep-Proves :
    {A : Type 0} {P : Type 0} (m : Attempt A) (f : A → Attempt Bool)
    → ((a : A) → m ≡ known a → Ensures (Proves P) (f a))
    → Ensures (Proves P) (or_keep m f)
or_keep-Proves {P} (known a) f h = h a refl
or_keep-Proves {P} unknown f h = Ensures-known (Proves P) false (λ e. cc)
or_keep-Proves {P} (raised e) f h = Ensures-raised (Proves P) e

module _ {sv : Server} {typ collation : ℕ} (o : BtreeOrder sv typ collation) where
  open o use {Le, le_trans, Compares, cmp_agrees, Parses}

  abbrev base : ℕ
  base = sv.get_base_type typ

  -- What the operator of a strategy says of a column value `v` and a constant `k` of type `t`: the
  -- strategies are `<`, `<=`, `=`, `>=` and `>`.
  abbrev pub Satisfies : ℕ → ℕ → ℕ → ℕ → Type 0
  Satisfies zero t v k = ⊥
  Satisfies (suc zero) t v k = Le base v t k × ¬ Le t k base v
  Satisfies (suc (suc zero)) t v k = Le base v t k
  Satisfies (suc (suc (suc zero))) t v k = Le base v t k × Le t k base v
  Satisfies (suc (suc (suc (suc zero)))) t v k = Le t k base v
  Satisfies (suc (suc (suc (suc (suc zero))))) t v k = Le t k base v × ¬ Le base v t k
  Satisfies (suc (suc (suc (suc (suc (suc n)))))) t v k = ⊥

  -- A value that equals none of the listed constants, of type `t`.
  abbrev pub Differs : ℕ → List ℕ → ℕ → Type 0
  Differs t ds v = All (λ d. ¬ (Le base v t d × Le t d base v)) ds

  -- The bounds as the clause's type reads them.
  abbrev Between : ℕ → ℕ → ℕ → ℕ → Type 0
  Between s lo hi v = Le s lo base v × Le base v s hi

  parsed_bounds-Between :
      (c : ColSummary) (v s : ℕ)
      → (c.unbounded ≡ false → Encloses o c.min c.max v)
      → Parses s
      → Ensures (λ b. Between s b.0 b.1 v) (parsed_bounds sv c s)
  unfolding parsed_bounds
  parsed_bounds-Between c v s covers p = read c.unbounded c.min c.max covers
    where
      read :
          (u : Bool) (mn mx : Option Bytes)
          → (u ≡ false → Encloses o mn mx v)
          → Ensures (λ b. Between s b.0 b.1 v) (bounds_of sv s u mn mx)
      read false (some lo) (some hi) h =
          unfold bounds_of in
          Ensures-bind (text_to_datum sv s lo) _ λ min_d elo.
            Ensures-bind (text_to_datum sv s hi) _ λ max_d ehi.
              Ensures-known _ (min_d, max_d) ((h refl).0 s min_d p elo, (h refl).1 s max_d p ehi)
      read false none mx h = absurd (h refl)
      read false (some lo) none h = absurd (h refl)
      read true mn mx h = unfold bounds_of in Ensures-unknown _

  module _ (p s t : ℕ) (compares : Compares p s t) where
    signs :
        (a b : ℕ) (sign : Ordering)
        → datum_cmp sv p collation a b ≡ known sign
        → Agrees sign (Le s a t b) (Le t b s a)
    signs a b sign = cmp_agrees p s t a b sign compares

    not_lt-le : (sign : Ordering) (x y : Type 0) → Agrees sign x y → not (is_lt sign) ≡ true → y
    not_lt-le Ordering.lt x y g h = cc
    not_lt-le Ordering.eq x y g h = g.1
    not_lt-le Ordering.gt x y g h = g.0

    gt-lt : (sign : Ordering) (x y : Type 0) → Agrees sign x y → is_gt sign ≡ true → y × ¬ x
    gt-lt Ordering.lt x y g h = cc
    gt-lt Ordering.eq x y g h = cc
    gt-lt Ordering.gt x y g h = g

    lt-lt : (sign : Ordering) (x y : Type 0) → Agrees sign x y → is_lt sign ≡ true → x × ¬ y
    lt-lt Ordering.lt x y g h = g
    lt-lt Ordering.eq x y g h = cc
    lt-lt Ordering.gt x y g h = cc

    not_gt-le : (sign : Ordering) (x y : Type 0) → Agrees sign x y → not (is_gt sign) ≡ true → x
    not_gt-le Ordering.lt x y g h = g.0
    not_gt-le Ordering.eq x y g h = g.0
    not_gt-le Ordering.gt x y g h = cc

    -- Where the test of the bounds succeeds, no value between them satisfies the operator.
    excluded-Proves :
        (strategy lo hi v k : ℕ)
        → Between s lo hi v
        → Ensures
            (Proves (¬ Satisfies strategy t v k))
            (excluded (λ b. datum_cmp sv p collation b k) strategy lo hi)
    unfolding excluded
    excluded-Proves zero lo hi v k h = Ensures-known (Proves (¬ ⊥)) false (λ e. cc)
    excluded-Proves (suc zero) lo hi v k h = Ensures-bind (datum_cmp sv p collation lo k) _ λ g run.
        Ensures-known (Proves (¬ Satisfies 1 t v k)) _
          λ yes sat. sat.1 (le_trans t s base k lo v (not_lt-le g _ _ (signs lo k g run) yes) h.0)
    excluded-Proves (suc (suc zero)) lo hi v k h =
        Ensures-bind (datum_cmp sv p collation lo k) _ λ g run.
          Ensures-known (Proves (¬ Satisfies 2 t v k)) _
            λ yes sat. (gt-lt g _ _ (signs lo k g run) yes).1 (le_trans s base t lo v k h.0 sat)
    excluded-Proves (suc (suc (suc zero))) lo hi v k h =
        Ensures-bind (datum_cmp sv p collation lo k) _ λ g run.
          Ensures-if (is_gt g) _ _
            (λ above. Ensures-known (Proves (¬ Satisfies 3 t v k)) _ λ yes sat.
              (gt-lt g _ _ (signs lo k g run) above).1 (le_trans s base t lo v k h.0 sat.0))
            λ below. Ensures-bind (datum_cmp sv p collation hi k) _ λ g' run'.
              Ensures-known (Proves (¬ Satisfies 3 t v k)) _ λ yes sat.
                (lt-lt g' _ _ (signs hi k g' run') yes).1 (le_trans t base s k v hi sat.1 h.1)
    excluded-Proves (suc (suc (suc (suc zero)))) lo hi v k h =
        Ensures-bind (datum_cmp sv p collation hi k) _ λ g run.
          Ensures-known (Proves (¬ Satisfies 4 t v k)) _
            λ yes sat. (lt-lt g _ _ (signs hi k g run) yes).1 (le_trans t base s k v hi sat h.1)
    excluded-Proves (suc (suc (suc (suc (suc zero))))) lo hi v k h =
        Ensures-bind (datum_cmp sv p collation hi k) _ λ g run.
          Ensures-known (Proves (¬ Satisfies 5 t v k)) _
            λ yes sat. sat.1 (le_trans base s t v hi k h.1 (not_gt-le g _ _ (signs hi k g run) yes))
    excluded-Proves (suc (suc (suc (suc (suc (suc n)))))) lo hi v k h =
        rw
          (
            past_five n 1 (omega arith),
            past_five n 2 (omega arith),
            past_five n 3 (omega arith),
            past_five n 4 (omega arith),
            past_five n 5 (omega arith),
          )
          (Ensures-known (Proves (¬ ⊥)) false (λ e. cc))

    in_range-Proves :
        (lo hi v d : ℕ)
        → Between s lo hi v
        → Ensures
            (λ b. b ≡ false → ¬ (Le base v t d × Le t d base v))
            (in_range sv p collation lo hi d)
    unfolding in_range
    in_range-Proves lo hi v d h = Ensures-bind (datum_cmp sv p collation lo d) _ λ g run.
        Ensures-if (is_gt g) _ _
          (λ above.
            Ensures-known (λ b. b ≡ false → ¬ (Le base v t d × Le t d base v)) _
              λ no eq. (gt-lt g _ _ (signs lo d g run) above).1 (le_trans s base t lo v d h.0 eq.0))
          λ below. Ensures-bind (datum_cmp sv p collation hi d) _ λ g' run'.
            Ensures-known (λ b. b ≡ false → ¬ (Le base v t d × Le t d base v)) _
              λ no eq.
                (lt-lt g' _ _ (signs hi d g' run') (not-false (is_lt g') no)).1
                  (le_trans t base s d v hi eq.1 h.1)

    any_in_range-Proves :
        (lo hi v : ℕ) (ds : List ℕ)
        → Between s lo hi v
        → Ensures (λ b. b ≡ false → Differs t ds v) (any_in_range sv p collation lo hi ds)
    unfolding any_in_range
    any_in_range-Proves lo hi v [] h =
        Ensures-known (λ b. b ≡ false → Differs t [] v) false (λ e. tt)
    any_in_range-Proves lo hi v (d ∷ ds) h =
        Ensures-bind (in_range sv p collation lo hi d) _ λ found run.
          Ensures-if found _ _
            (λ yes. Ensures-known (λ b. b ≡ false → Differs t (d ∷ ds) v) true (λ e. cc))
            λ no.
              Ensures-imp (λ b rest e. ((in_range-Proves lo hi v d h).at found run no, rest e))
                (any_in_range-Proves lo hi v ds h)

    -- A clause that compares the column with a constant prunes only if no covered value satisfies it.
    pub eval_compare-Proves :
        (c : ColSummary) (strategy v k : ℕ)
        → Parses s
        → (c.unbounded ≡ false → Encloses o c.min c.max v)
        → Ensures (Proves (¬ Satisfies strategy t v k)) (eval_compare sv c strategy s p collation k)
    unfolding eval_compare
    eval_compare-Proves c strategy v k parses covers =
        or_keep-Proves (parsed_bounds sv c s) _ λ b run.
          excluded-Proves strategy b.0 b.1 v k
            ((parsed_bounds-Between c v s covers parses).at b run)

    pub eval_in_list-Proves :
        (c : ColSummary) (ds : List ℕ) (v : ℕ)
        → Parses s
        → (c.unbounded ≡ false → Encloses o c.min c.max v)
        → Ensures (Proves (Differs t ds v)) (eval_in_list sv c s p collation ds)
    unfolding eval_in_list
    eval_in_list-Proves c ds v parses covers = or_keep-Proves (parsed_bounds sv c s) _ λ b run.
        Ensures-bind (any_in_range sv p collation b.0 b.1 ds) _ λ found search.
          Ensures-known (Proves (Differs t ds v)) _ λ yes.
            (any_in_range-Proves b.0 b.1 v ds
                ((parsed_bounds-Between c v s covers parses).at b run)).at
              found search (not-true found yes)
