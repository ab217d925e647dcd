-- ===== src/Build/Finish/Rendered.antt =====
-- The bounds that are read off an accumulator cover what it holds (src/summary_build.rs, `finish`).
use pg_table_range.Base.{
  ℕ, ◌≡◌, refl, subst, inl, inr, false, ◌||◌, Option, none, some, List, [], Attempt, known, unknown,
  raised, optional, Ensures, Ensures-known, Ensures-bind, Ensures-raised,
}
use pg_table_range.Bytes.{Bytes}
use pg_table_range.Codec.RoundTrip.{IsText}
use pg_table_range.Server.{Server, datum_to_text}
use pg_table_range.Server.Laws.{datum_to_text-is_utf8}
use pg_table_range.Widen.Covers.{Orders, Encloses, Contains, BoundsCover}
use pg_table_range.Widen.Row.{IsIn}
use pg_table_range.Build.{Accumulator, min_max, range, geometry, unsupported}
use pg_table_range.Build.Holds.{Holds, IsRight}
use pg_table_range.Build.Batch.{IsFlushed}
use pg_table_range.Build.Finish.{Bounds, is_none, render, bounds_of, lost_bound}

module _ {sv : Server} {typ collation : ℕ} (o : Orders sv typ collation) where
  abbrev base : ℕ
  base = sv.get_base_type typ

  -- A rendered text is the text of the Datum.
  abbrev IsTextOf : Option ℕ → Option Bytes → Type 0
  IsTextOf d none = Unit
  IsTextOf none (some text) = ⊥
  IsTextOf (some d) (some text) = datum_to_text sv typ d ≡ known text

  optional-IsTextOf :
      (d : ℕ) (m : Attempt Bytes)
      → datum_to_text sv typ d ≡ m
      → Ensures (IsTextOf (some d)) (optional m)
  optional-IsTextOf d (known text) e = Ensures-known (IsTextOf (some d)) (some text) e
  optional-IsTextOf d unknown e = Ensures-known (IsTextOf (some d)) none tt
  optional-IsTextOf d (raised x) e = Ensures-raised (IsTextOf (some d)) x

  render-IsTextOf : (d : Option ℕ) → Ensures (IsTextOf d) (render sv typ d)
  unfolding render
  render-IsTextOf none = Ensures-known (IsTextOf none) none tt
  render-IsTextOf (some d) = optional-IsTextOf d (datum_to_text sv typ d) refl

  IsText-of : (d : Option ℕ) (t : Option Bytes) → IsTextOf d t → IsText t
  IsText-of d none h = tt
  IsText-of none (some text) h = absurd h
  IsText-of (some d) (some text) h = datum_to_text-is_utf8 sv typ d text h

  -- What the bounds of an accumulator promise.
  pub record Renders (acc : Accumulator) (b : Bounds) : Type 0 where
    pub covers :
        (v : ℕ)
        → lost_bound acc b ≡ false
        → b.unbounded ≡ false
        → Holds o acc v
        → BoundsCover o b.overlap b.min b.max v
    pub min_text : IsText b.min
    pub max_text : IsText b.max

  enclosed :
      (mn mx : Option ℕ) (lo hi : Option Bytes) (cmp v : ℕ)
      → IsTextOf mn lo
      → IsTextOf mx hi
      → (is_none lo || is_none hi) ≡ false
      → Holds o (min_max cmp mn mx) v
      → Encloses o.btree lo hi v
  enclosed mn mx none hi cmp v tl th lost h = cc
  enclosed mn mx (some lt') none cmp v tl th lost h = cc
  enclosed none mx (some lt') (some ht) cmp v tl th lost h = absurd tl
  enclosed (some lo) none (some lt') (some ht) cmp v tl th lost h = absurd th
  enclosed (some lo) (some hi) (some lt') (some ht) cmp v tl th lost h = (
    λ s d p read.
        o.btree.le_trans s base base d lo v (o.btree.round_trip s lo d lt' p tl read).0 h.0,
    λ s d p read.
        o.btree.le_trans base base s v hi d h.1 (o.btree.round_trip s hi d ht p th read).1,
  )

  contains :
      (e : Option ℕ) (t : Option Bytes) (merge v : ℕ)
      → IsTextOf e t
      → is_none t ≡ false
      → Holds o (range merge e) v
      → Contains o.extent t v
  contains e none merge v te lost h = cc
  contains none (some t) merge v te lost h = absurd te
  contains (some e) (some t) merge v te lost h =
      inr (λ d read. o.extent.round_trip e v d t te read h)

  extent_only :
      (ds : List ℕ) (e : Option Bytes) (v : ℕ)
      → ds ≡ []
      → Holds o (geometry ds e) v
      → Contains o.extent e v
  extent_only ds e v f (inl inside) = absurd (subst (IsIn inside.0) f inside.1)
  extent_only ds e v f (inr h) = h

  pub bounds_of-Renders :
      (acc : Accumulator)
      → IsRight o acc
      → IsFlushed acc
      → Ensures (Renders acc) (bounds_of sv typ acc)
  unfolding bounds_of lost_bound
  bounds_of-Renders (min_max cmp mn mx) r f = Ensures-bind (render sv typ mn) _ λ lo elo.
      Ensures-bind (render sv typ mx) _ λ hi ehi.
        let tl = (render-IsTextOf mn).at lo elo in
        let th = (render-IsTextOf mx).at hi ehi in
        Ensures-known (Renders (min_max cmp mn mx)) _ (record {
          covers = λ v lost u h. enclosed mn mx lo hi cmp v tl th lost h;
          min_text = IsText-of mn lo tl;
          max_text = IsText-of mx hi th;
        })
  bounds_of-Renders (range merge e) r f = Ensures-bind (render sv typ e) _ λ t et.
      let te = (render-IsTextOf e).at t et in
      Ensures-known (Renders (range merge e)) _ (record {
        covers = λ v lost u h. contains e t merge v te lost h;
        min_text = IsText-of e t te;
        max_text = tt;
      })
  bounds_of-Renders (geometry ds e) r f =
      Ensures-known (Renders (geometry ds e)) _
        (record { covers = λ v lost u h. extent_only ds e v f h; min_text = r; max_text = tt })
  bounds_of-Renders unsupported r f =
      Ensures-known (Renders unsupported) _
        (record { covers = λ v lost u h. cc; min_text = tt; max_text = tt })
