-- ===== src/Widen/Column.antt =====
-- `widen_column` covers the new value and all that was covered (src/index_am.rs).
use pg_table_range.Base.{
  ℕ, ◌≡◌, refl, sym, ap, subst, ◌∙◌, Bool, true, false, ◌||◌, Option, none, some, Attempt, known,
  unknown, raised, Ensures, Ensures-known, Ensures-raised, Ensures-if, arith,
}
use pg_table_range.Summary.{ColSummary, make_unbounded}
use pg_table_range.Codec.RoundTrip.{IsTyped, IsText}
use pg_table_range.Server.{Server}
use pg_table_range.Widen.{
  Widened, widen_minmax, widen_overlap, or_unbounded, widen_value, widen_column,
}
use pg_table_range.Widen.Covers.{Orders, BoundsCover, CoversValue, Widens, SameColumn}
use pg_table_range.Widen.MinMax.{widen_minmax-Widens}
use pg_table_range.Widen.Extent.{widen_overlap-Widens}

pub or_false : (a b : Bool) → (a || b) ≡ false → (a ≡ false) × (b ≡ false)
or_false a b h = ground arith

-- The column once its `all_nulls` flag is cleared.
abbrev seen : ColSummary → ColSummary
seen c = record c { all_nulls = false }

seen_lem : (c : ColSummary) → c.all_nulls ≡ false → seen c ≡ c
seen_lem c e = ground arith

module _ {sv : Server} {typ collation : ℕ} (o : Orders sv typ collation) where
  -- What `widen_column` promises of the column `d` that it leaves.
  pub record WidensColumn (c : ColSummary) (value : Option ℕ) (changed : Bool) (d : ColSummary)
      : Type 0 where
    pub adds : CoversValue o d value
    pub keeps : (u : Option ℕ) → CoversValue o c u → CoversValue o d u
    pub same : SameColumn c d
    pub typed : IsTyped c → IsTyped d
    pub unchanged : changed ≡ false → d ≡ c

  same_bounds :
      (c d : ColSummary) → d ≡ record (seen c) { min = d.min; max = d.max } → SameColumn c d
  same_bounds c d e = record {
    attnum = ap (λ (x : ColSummary). x.attnum) e;
    overlap = ap (λ (x : ColSummary). x.overlap) e;
    type_name = ap (λ (x : ColSummary). x.type_name) e;
    collation = ap (λ (x : ColSummary). x.collation) e;
  }

  IsTyped-bounds :
      (c d : ColSummary)
      → SameColumn c d
      → (IsText c.min → IsText c.max → IsText d.min × IsText d.max)
      → IsTyped c
      → IsTyped d
  IsTyped-bounds c d s texts t = record {
    attnum = rw s.attnum t.attnum;
    collation = rw s.collation t.collation;
    type_name = rw s.type_name t.type_name;
    min = (texts t.min t.max).0;
    max = (texts t.min t.max).1;
  }

  bounded :
      (c : ColSummary) (value : ℕ) (changed : Bool) (d : ColSummary)
      → Widens (BoundsCover o c.overlap) (seen c) value changed d
      → WidensColumn c (some value) (c.all_nulls || changed) d
  bounded c value changed d w = record {
    adds = (all_nulls, λ e. covers value w.adds);
    keeps = keep;
    same = same;
    typed = IsTyped-bounds c d same w.texts;
    unchanged = λ e.
        w.unchanged (or_false c.all_nulls changed e).1
        ∙ seen_lem c (or_false c.all_nulls changed e).0;
  }
    where
      same : SameColumn c d
      same = same_bounds c d w.frame

      all_nulls : d.all_nulls ≡ false
      all_nulls = ap (λ (x : ColSummary). x.all_nulls) w.frame

      unbounded : d.unbounded ≡ c.unbounded
      unbounded = ap (λ (x : ColSummary). x.unbounded) w.frame

      has_nulls : d.has_nulls ≡ c.has_nulls
      has_nulls = ap (λ (x : ColSummary). x.has_nulls) w.frame

      covers :
          (u : ℕ) → BoundsCover o c.overlap d.min d.max u → BoundsCover o d.overlap d.min d.max u
      covers u h = subst (λ b. BoundsCover o b d.min d.max u) (sym same.overlap) h

      keep : (u : Option ℕ) → CoversValue o c u → CoversValue o d u
      keep none h = has_nulls ∙ h
      keep (some u) h = (all_nulls, λ e. covers u (w.keeps u (h.1 (sym unbounded ∙ e))))

  -- Without bounds every value is covered.
  dropped :
      (c : ColSummary) (value : ℕ) → WidensColumn c (some value) true (make_unbounded (seen c))
  unfolding make_unbounded
  dropped c value = record {
    adds = (refl, λ e. cc);
    keeps = keep;
    same = record { attnum = refl; overlap = refl; type_name = refl; collation = refl };
    typed = λ t. record {
      attnum = t.attnum;
      collation = t.collation;
      type_name = t.type_name;
      min = tt;
      max = tt;
    };
    unchanged = λ e. cc;
  }
    where
      keep : (u : Option ℕ) → CoversValue o c u → CoversValue o (make_unbounded (seen c)) u
      keep none h = h
      keep (some u) h = (refl, λ e. cc)

  already :
      (c : ColSummary) (value : ℕ)
      → c.unbounded ≡ true
      → WidensColumn c (some value) c.all_nulls (seen c)
  already c value e = record {
    adds = (refl, λ q. cc);
    keeps = keep;
    same = record { attnum = refl; overlap = refl; type_name = refl; collation = refl };
    typed = λ t. record {
      attnum = t.attnum;
      collation = t.collation;
      type_name = t.type_name;
      min = t.min;
      max = t.max;
    };
    unchanged = λ q. ground arith;
  }
    where
      keep : (u : Option ℕ) → CoversValue o c u → CoversValue o (seen c) u
      keep none h = h
      keep (some u) h = (refl, λ q. cc)

  abbrev pub WidensTo : ColSummary → Option ℕ → Widened → Type 0
  WidensTo c value w = WidensColumn c value w.0 w.1

  or_unbounded-WidensColumn :
      (c : ColSummary) (value : ℕ) (m : Attempt Widened)
      → Ensures (λ w. Widens (BoundsCover o c.overlap) (seen c) value w.0 w.1) m
      → Ensures (WidensTo c (some value)) (or_unbounded (seen c) c.all_nulls m)
  unfolding or_unbounded
  or_unbounded-WidensColumn c value (known (changed, d)) h =
      Ensures-known (WidensTo c (some value)) _ (bounded c value changed d (h.at (changed, d) refl))
  or_unbounded-WidensColumn c value unknown h =
      Ensures-known (WidensTo c (some value)) _ (dropped c value)
  or_unbounded-WidensColumn c value (raised e) h = Ensures-raised _ e

  widen_value-WidensColumn :
      (c : ColSummary) (value : ℕ)
      → Ensures (WidensTo c (some value)) (widen_value sv c typ collation value)
  unfolding widen_value
  widen_value-WidensColumn c value =
      Ensures-if c.unbounded _ _
        (λ e. Ensures-known (WidensTo c (some value)) _ (already c value e))
        λ e.
          Ensures-if c.overlap _ _
            (λ ov. or_unbounded-WidensColumn c value _ (
              subst (λ b. Ensures (Kind b) (widen_overlap sv (seen c) typ value)) (sym ov)
                (widen_overlap-Widens o.extent (seen c) value)))
            (λ mm. or_unbounded-WidensColumn c value _ (
              subst (λ b. Ensures (Kind b) (widen_minmax sv (seen c) typ collation value)) (sym mm)
                (widen_minmax-Widens o.btree (seen c) value)))
    where
      Kind : Bool → Widened → Type 0
      Kind b w = Widens (BoundsCover o b) (seen c) value w.0 w.1

  null_noted : (c : ColSummary) → WidensColumn c none true (record c { has_nulls = true })
  null_noted c = record {
    adds = refl;
    keeps = keep;
    same = record { attnum = refl; overlap = refl; type_name = refl; collation = refl };
    typed = λ t. record {
      attnum = t.attnum;
      collation = t.collation;
      type_name = t.type_name;
      min = t.min;
      max = t.max;
    };
    unchanged = λ e. cc;
  }
    where
      keep : (u : Option ℕ) → CoversValue o c u → CoversValue o (record c { has_nulls = true }) u
      keep none h = refl
      keep (some u) h = h

  null_known : (c : ColSummary) → c.has_nulls ≡ true → WidensColumn c none false c
  null_known c e = record {
    adds = e;
    keeps = λ u h. h;
    same = record { attnum = refl; overlap = refl; type_name = refl; collation = refl };
    typed = λ t. t;
    unchanged = λ q. refl;
  }

  -- A known result of `widen_column`, for a NULL or a value, covers it and all that was covered.
  -- Nothing but flags and bounds changes, and nothing at all if no change is reported.
  pub widen_column-WidensColumn :
      (c : ColSummary) (value : Option ℕ)
      → Ensures (WidensTo c value) (widen_column sv c typ collation value)
  unfolding widen_column
  widen_column-WidensColumn c none =
      Ensures-if c.has_nulls _ _ (λ e. Ensures-known (WidensTo c none) _ (null_known c e))
        (λ e. Ensures-known (WidensTo c none) _ (null_noted c))
  widen_column-WidensColumn c (some value) = widen_value-WidensColumn c value
