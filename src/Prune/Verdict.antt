-- ===== src/Prune/Verdict.antt =====
-- What `QualSpec::proves_prune` promises (src/prune_hook.rs): its clause is true of no covered value.
use pg_table_range.Base.{
  Ensures-imp, ℕ, ◌%◌, ◌≡◌, ◌≢◌, refl, sym, ◌∙◌, subst, ◌⊎◌, inl, inr, Bool, true, false, not, ◌&&◌,
  Option, none, some, List, [], ◌∷◌, ◌==◌, ==_iff, if◌then◌else◌, Attempt, known, Ensures,
  Ensures-known, Ensures-bind, Ensures-if, arith,
}
use pg_table_range.Bytes.{Bytes}
use pg_table_range.Summary.{ColSummary}
use pg_table_range.Server.{Server, text_to_datum, call_overlap}
use pg_table_range.Widen.Covers.{
  ExtentOrder, OverlapOp, Orders, Encloses, Contains, BoundsCover, CoversValue,
}
use pg_table_range.Prune.{
  QualSpec, compare, null, in_list, overlap, eval_compare, eval_in_list, eval_overlap, eval_extent,
  extent_of, proves_prune,
}
use pg_table_range.Prune.Sound.{
  Proves, Satisfies, Differs, or_keep-Proves, eval_compare-Proves, eval_in_list-Proves,
}

module _ {sv : Server} {typ : ℕ} (x : ExtentOrder sv typ) (opfunc collation : ℕ) (commuted : Bool)
    (op : OverlapOp x opfunc collation commuted) where
  -- The operator's function answers true of a value and a constant.
  abbrev Overlaps : ℕ → ℕ → Type 0
  Overlaps v k = (z : ℕ) × (call_overlap sv opfunc collation commuted v k ≡ known z) × (z % 256 ≢ 0)

  eval_extent-Proves :
      (u : Bool) (mn : Option Bytes) (v k : ℕ)
      → (u ≡ false → Contains x mn v)
      → Ensures
          (Proves (¬ Overlaps v k))
          (eval_extent sv (sv.get_base_type typ) opfunc collation k commuted (extent_of u mn))
  unfolding eval_extent extent_of
  eval_extent-Proves true mn v k h = Ensures-known (Proves (¬ Overlaps v k)) false (λ e. cc)
  eval_extent-Proves false none v k h = Ensures-known (Proves (¬ Overlaps v k)) false (λ e. cc)
  eval_extent-Proves false (some e) v k h =
      or_keep-Proves (text_to_datum sv (sv.get_base_type typ) e) _ λ d read.
        Ensures-bind (call_overlap sv opfunc collation commuted d k) _ λ w call.
          Ensures-known (Proves (¬ Overlaps v k)) _ λ yes over. elim (h refl) [
            | inl empty ↦ over.2 (op.empty v k over.0 empty over.1)
            | inr within ↦
                over.2
                  (op.apart d v k w over.0 (within d read) call over.1 ((==_iff (w % 256) 0).0 yes))
          ]

module _ {sv : Server} {typ collation : ℕ} (o : Orders sv typ collation) where
  -- Equal, in the order of the column, to one of the constants of type `t`.
  abbrev pub IsListed : ℕ → List ℕ → ℕ → Type 0
  IsListed t [] v = ⊥
  IsListed t (d ∷ ds) v =
      (o.btree.Le (sv.get_base_type typ) v t d × o.btree.Le t d (sv.get_base_type typ) v)
      ⊎ IsListed t ds v

  -- The clause is true of the column's value in a row, its constants being of type `t`. Only a null
  -- test is true of NULL; on a type that is not composite it looks at nothing else.
  abbrev pub Matches : QualSpec → ℕ → Option ℕ → Type 0
  Matches (null a true) t none = Unit
  Matches (null a true) t (some v) = ⊥
  Matches (null a false) t none = ⊥
  Matches (null a false) t (some v) = Unit
  Matches (compare a strategy p f c k) t none = ⊥
  Matches (compare a strategy p f c k) t (some v) = Satisfies o.btree strategy t v k
  Matches (in_list a p f c es) t none = ⊥
  Matches (in_list a p f c es) t (some v) = IsListed t es v
  Matches (overlap a p f c k m) t none = ⊥
  Matches (overlap a p f c k m) t (some v) =
      (z : ℕ) × (call_overlap sv f c m v k ≡ known z) × (z % 256 ≢ 0)

  -- The functions that a clause was extracted with belong to the column's order: its texts are read by
  -- the clause's type, which the support function compares with constants of type `t`; an overlap
  -- operator decides overlap.
  abbrev pub IsReadAs : QualSpec → ℕ → Type 0
  IsReadAs (null a b) t = Unit
  IsReadAs (compare a strategy p f c k) t = o.btree.Parses p × o.btree.Compares f p t
  IsReadAs (in_list a p f c es) t = o.btree.Parses p × o.btree.Compares f p t
  IsReadAs (overlap a p f c k m) t = (p ≡ sv.get_base_type typ) × OverlapOp o.extent f c m

  Differs-IsListed : (t : ℕ) (ds : List ℕ) (v : ℕ) → Differs o.btree t ds v → ¬ IsListed t ds v
  Differs-IsListed t [] v h i = i
  Differs-IsListed t (d ∷ ds) v h i = elim i [
    | inl same ↦ h.0 same
    | inr later ↦ Differs-IsListed t ds v h.1 later
  ]

  null-Proves :
      (a : ℕ) (is_null : Bool) (t : ℕ) (c : ColSummary) (value : Option ℕ)
      → CoversValue o c value
      → Proves
          (¬ Matches (null a is_null) t value)
          (if is_null then not c.has_nulls else c.all_nulls)
  null-Proves a true t c none h e m = cc
  null-Proves a true t c (some v) h e m = m
  null-Proves a false t c none h e m = m
  null-Proves a false t c (some v) h e m = cc (e, h.0)

  eval_overlap-Proves :
      (c : ColSummary) (f k : ℕ) (m : Bool) (v konst : ℕ) (op : OverlapOp o.extent f k m)
      → (c.unbounded ≡ false → Contains o.extent c.min v)
      → Ensures
          (Proves (¬ Overlaps o.extent f k m op v konst))
          (eval_overlap sv c (sv.get_base_type typ) f k konst m)
  unfolding eval_overlap
  eval_overlap-Proves c f k m v konst op h =
      eval_extent-Proves o.extent f k m op c.unbounded c.min v konst h

  -- What the test of the column's kind and collation gives.
  same_order :
      (c : ColSummary) (k : ℕ)
      → (not c.overlap && c.collation == k) ≡ true
      → (c.overlap ≡ false) × (c.collation ≡ k)
  same_order c k h = ground arith

  enclosed :
      (c : ColSummary) (v : ℕ)
      → CoversValue o c (some v)
      → c.overlap ≡ false
      → c.unbounded ≡ false
      → Encloses o.btree c.min c.max v
  enclosed c v h mm u = subst (λ b. BoundsCover o b c.min c.max v) mm (h.1 u)

  contained :
      (c : ColSummary) (v : ℕ)
      → CoversValue o c (some v)
      → c.overlap ≡ true
      → c.unbounded ≡ false
      → Contains o.extent c.min v
  contained c v h ov u = subst (λ b. BoundsCover o b c.min c.max v) ov (h.1 u)

  never : {m : Attempt Bool} → Ensures (Proves (¬ ⊥)) m
  never = record { at = λ b e yes h. h }

  proves_prune-Proves :
      (c : ColSummary) (spec : QualSpec) (t : ℕ) (value : Option ℕ)
      → c.collation ≡ collation
      → IsReadAs spec t
      → CoversValue o c value
      → Ensures (Proves (¬ Matches spec t value)) (proves_prune sv spec c)
  unfolding proves_prune
  proves_prune-Proves c (null a b) t value e r h =
      Ensures-known (Proves (¬ Matches (null a b) t value)) _ (null-Proves a b t c value h)
  proves_prune-Proves c (compare a strategy p f k konst) t none e r h = never
  proves_prune-Proves c (compare a strategy p f k konst) t (some v) e r h =
      Ensures-if (not c.overlap && c.collation == k) _ _
        (λ same.
          let (mm, ck) = same_order c k same in
          subst
            (λ z.
              Ensures (Proves (¬ Satisfies o.btree strategy t v konst))
                (eval_compare sv c strategy p f z konst))
            (sym e ∙ ck)
            (eval_compare-Proves o.btree f p t r.1 c strategy v konst r.0 (enclosed c v h mm)))
        (λ other. Ensures-known (Proves (¬ Satisfies o.btree strategy t v konst)) false (λ y. cc))
  proves_prune-Proves c (in_list a p f k elems) t none e r h = never
  proves_prune-Proves c (in_list a p f k elems) t (some v) e r h =
      Ensures-if (not c.overlap && c.collation == k) _ _
        (λ same.
          let (mm, ck) = same_order c k same in
          subst (λ z. Ensures (Proves (¬ IsListed t elems v)) (eval_in_list sv c p f z elems))
            (sym e ∙ ck)
            (Ensures-imp (λ b d yes. Differs-IsListed t elems v (d yes))
              (eval_in_list-Proves o.btree f p t r.1 c elems v r.0 (enclosed c v h mm))))
        (λ other. Ensures-known (Proves (¬ IsListed t elems v)) false (λ y. cc))
  proves_prune-Proves c (overlap a p f k konst m) t none e r h = never
  proves_prune-Proves c (overlap a p f k konst m) t (some v) e r h =
      Ensures-if c.overlap _ _
        (λ ov. rw r.0 (eval_overlap-Proves c f k m v konst r.1 (contained c v h ov)))
        (λ mm. Ensures-known (Proves (¬ Overlaps o.extent f k m r.1 v konst)) false (λ y. cc))

  -- Where a clause proves, of a summary under the column's collation, that the partition can be left
  -- out, it is true of no value or NULL that the summary covers. That goes for the five comparisons, a
  -- list of constants, the two null tests and an overlap operator, whose functions belong to the
  -- column's order or extents.
  pub proves_prune-Matches :
      (c : ColSummary) (spec : QualSpec) (t : ℕ) (value : Option ℕ)
      → c.collation ≡ collation
      → IsReadAs spec t
      → CoversValue o c value
      → proves_prune sv spec c ≡ known true
      → ¬ Matches spec t value
  proves_prune-Matches c spec t value e r h run =
      (proves_prune-Proves c spec t value e r h).at true run refl
