-- ===== src/Widen/Row.antt =====
-- `widen_summary` covers the inserted row and every row that was covered (src/index_am.rs).
use pg_table_range.Base.{
  ℕ, ◌≡◌, refl, sym, ap, subst, subst₂, ◌∙◌, ◌⊎◌, inl, inr, Bool, Bool-cases, false, ◌||◌, Option,
  some, List, [], ◌∷◌, map, All, ◌==◌, ==_iff, known, Ensures, Ensures-known, Ensures-if,
  Ensures-bind,
}
use mathlib.Core.Option.{some-injective}
use pg_table_range.Summary.{ColSummary, IndexSummary, find_col, find_col-head, find_col-skip}
use pg_table_range.Codec.RoundTrip.{IsTyped}
use pg_table_range.Server.{Server}
use pg_table_range.Widen.{Attribute, widen_attribute, widen_cols, widen_summary}
use pg_table_range.Widen.Covers.{Orders, CoversValue}
use pg_table_range.Widen.Column.{or_false, WidensColumn, widen_column-WidensColumn}

-- The value of each heap attribute in a row; `none` is NULL.
abbrev pub Row : Type 0
Row = ℕ → Option ℕ

-- A table: the type and the index collation of each attribute, and what they rest on.
pub record Table (sv : Server) : Type 1 where
  pub type_of : ℕ → ℕ
  pub collation_of : ℕ → ℕ
  pub orders : (n : ℕ) → Orders sv (type_of n) (collation_of n)

abbrev pub IsIn : ℕ → List ℕ → Type 0
IsIn n [] = ⊥
IsIn n (m ∷ ms) = (n ≡ m) ⊎ IsIn n ms

module _ {sv : Server} (table : Table sv) where
  open table use {type_of, collation_of, orders}

  -- What `aminsert` is given for the index attribute on heap attribute `n`.
  abbrev pub attribute_of : Row → ℕ → Attribute
  attribute_of row n = record {
    heap_attnum = n;
    typoid = type_of n;
    collation = collation_of n;
    value = row n;
  }

  -- The column that a clause on attribute `n` is tested against covers the row's value.
  abbrev pub CoversRow : List ColSummary → Row → Type 0
  CoversRow cols row =
      (n : ℕ) (c : ColSummary) → find_col n cols ≡ some c → CoversValue (orders n) c (row n)

  -- The columns are as good as before: what was covered still is.
  pub record Keeps (cols cols' : List ColSummary) : Type 0 where
    pub keeps :
        (n : ℕ) (c' : ColSummary)
        → find_col n cols' ≡ some c'
        → (c : ColSummary) × (find_col n cols ≡ some c)
          × ((u : Option ℕ) → CoversValue (orders n) c u → CoversValue (orders n) c' u)
          × (c'.collation ≡ c.collation)
    pub typed : All IsTyped cols → All IsTyped cols'

  Keeps-refl : (cols : List ColSummary) → Keeps cols cols
  Keeps-refl cols = record { keeps = λ n c e. (c, e, λ u h. h, refl); typed = λ t. t }

  Keeps-trans : (a b c : List ColSummary) → Keeps a b → Keeps b c → Keeps a c
  Keeps-trans a b c h k = record {
    keeps = λ n z e.
        let (y, ey, fy, sy) = k.keeps n z e in
        let (x, ex, fx, sx) = h.keeps n y ey in (x, ex, λ u p. fy u (fx u p), sy ∙ sx);
    typed = λ t. k.typed (h.typed t);
  }

  pub Keeps-CoversRow :
      (a b : List ColSummary) → Keeps a b → (row : Row) → CoversRow a row → CoversRow b row
  Keeps-CoversRow a b k row h n z e = let (x, ex, f, g) = k.keeps n z e in f (row n) (h n x ex)

  -- A column put in place of the first one with its attribute number.
  Keeps-head :
      (c d : ColSummary) (cs : List ColSummary) (value : Option ℕ) (changed : Bool)
      → WidensColumn (orders c.attnum) c value changed d
      → Keeps (c ∷ cs) (d ∷ cs)
  Keeps-head c d cs value changed w = record { keeps = found; typed = λ t. (w.typed t.0, t.1) }
    where
      found :
          (m : ℕ) (c' : ColSummary)
          → find_col m (d ∷ cs) ≡ some c'
          → (x : ColSummary) × (find_col m (c ∷ cs) ≡ some x)
            × ((u : Option ℕ) → CoversValue (orders m) x u → CoversValue (orders m) c' u)
            × (c'.collation ≡ x.collation)
      found m c' q = elim (Bool-cases (c.attnum == m)) [
        | inl same ↦
            let e = (==_iff c.attnum m).0 same in
            let is_d = some-injective d c' (sym (find_col-head m d cs (w.same.attnum ∙ e)) ∙ q) in
            (
              c,
              find_col-head m c cs e,
              subst₂
                  (λ k z. (u : Option ℕ) → CoversValue (orders k) c u → CoversValue (orders k) z u)
                  e is_d w.keeps,
              subst (λ (z : ColSummary). z.collation ≡ c.collation) is_d w.same.collation,
            )
        | inr other ↦ (
          c',
          find_col-skip m c cs other ∙ sym (find_col-skip m d cs (rw w.same.attnum other)) ∙ q,
          λ u h. h,
          refl,
        )
      ]

  Keeps-tail : (c : ColSummary) (cs ds : List ColSummary) → Keeps cs ds → Keeps (c ∷ cs) (c ∷ ds)
  Keeps-tail c cs ds k = record { keeps = found; typed = λ t. (t.0, k.typed t.1) }
    where
      found :
          (m : ℕ) (c' : ColSummary)
          → find_col m (c ∷ ds) ≡ some c'
          → (x : ColSummary) × (find_col m (c ∷ cs) ≡ some x)
            × ((u : Option ℕ) → CoversValue (orders m) x u → CoversValue (orders m) c' u)
            × (c'.collation ≡ x.collation)
      found m c' q = elim (Bool-cases (c.attnum == m)) [
        | inl same ↦
            let e = (==_iff c.attnum m).0 same in
            (c', find_col-head m c cs e ∙ sym (find_col-head m c ds e) ∙ q, λ u h. h, refl)
        | inr other ↦
            let (x, ex, f, g) = k.keeps m c' (sym (find_col-skip m c ds other) ∙ q) in
            (x, find_col-skip m c cs other ∙ ex, f, g)
      ]

  -- What one attribute, or a list of them, does to the columns.
  record Absorbs (row : Row) (ns : List ℕ) (cols : List ColSummary) (changed : Bool)
      (cols' : List ColSummary) : Type 0 where
    kept : Keeps cols cols'
    adds :
        (n : ℕ) (c' : ColSummary)
        → IsIn n ns
        → find_col n cols' ≡ some c'
        → CoversValue (orders n) c' (row n)
    unchanged : changed ≡ false → cols' ≡ cols

  abbrev AbsorbsTo : Row → List ℕ → List ColSummary → Bool × List ColSummary → Type 0
  AbsorbsTo row ns cols r = Absorbs row ns cols r.0 r.1

  Absorbs-here :
      (row : Row) (n : ℕ) (c d : ColSummary) (cs : List ColSummary) (changed : Bool)
      → c.attnum ≡ n
      → WidensColumn (orders n) c (row n) changed d
      → Absorbs row (n ∷ []) (c ∷ cs) changed (d ∷ cs)
  Absorbs-here row n c d cs changed e w = record {
    kept =
        Keeps-head c d cs (row n) changed
          (subst (λ k. WidensColumn (orders k) c (row n) changed d) (sym e) w);
    adds = λ m c' i q. elim i [ inl mn ↦ added m c' mn q | inr x' ↦ elim x' [ ] ];
    unchanged = λ u. ap (λ (z : ColSummary). z ∷ cs) (w.unchanged u);
  }
    where
      added :
          (m : ℕ) (c' : ColSummary)
          → m ≡ n
          → find_col m (d ∷ cs) ≡ some c'
          → CoversValue (orders m) c' (row m)
      added m c' mn q =
          let is_d =
            some-injective d c' (sym (find_col-head m d cs (w.same.attnum ∙ e ∙ sym mn)) ∙ q) in
          subst₂ (λ k z. CoversValue (orders k) z (row k)) (sym mn) is_d w.adds

  Absorbs-later :
      (row : Row) (n : ℕ) (c : ColSummary) (cs ds : List ColSummary) (changed : Bool)
      → (c.attnum == n) ≡ false
      → Absorbs row (n ∷ []) cs changed ds
      → Absorbs row (n ∷ []) (c ∷ cs) changed (c ∷ ds)
  Absorbs-later row n c cs ds changed other a = record {
    kept = Keeps-tail c cs ds a.kept;
    adds = λ m c' i q. elim i [
      | inl mn ↦
          a.adds m c' (inl mn)
            (sym (find_col-skip m c ds (subst (λ k. (c.attnum == k) ≡ false) (sym mn) other)) ∙ q)
      | inr x' ↦ elim x' [ ]
    ];
    unchanged = λ u. ap (λ (z : List ColSummary). c ∷ z) (a.unchanged u);
  }

  Absorbs-nil : (row : Row) (cols : List ColSummary) → Absorbs row [] cols false cols
  Absorbs-nil row cols = record {
    kept = Keeps-refl cols;
    adds = λ m c' i q. absurd i;
    unchanged = λ u. refl;
  }

  Absorbs-none : (row : Row) (n : ℕ) → Absorbs row (n ∷ []) [] false []
  unfolding find_col
  Absorbs-none row n = record { kept = Keeps-refl []; adds = λ m c' i q. cc; unchanged = λ u. refl }

  Absorbs-cons :
      (row : Row) (n : ℕ) (ns : List ℕ) (a b c : List ColSummary) (x y : Bool)
      → Absorbs row (n ∷ []) a x b
      → Absorbs row ns b y c
      → Absorbs row (n ∷ ns) a (x || y) c
  Absorbs-cons row n ns a b c x y h k = record {
    kept = Keeps-trans a b c h.kept k.kept;
    adds = λ m c' i q. elim i [
      | inl mn ↦ let (z, ez, f, g) = k.kept.keeps m c' q in f (row m) (h.adds m z (inl mn) ez)
      | inr later ↦ k.adds m c' later q
    ];
    unchanged = λ u. k.unchanged (or_false x y u).1 ∙ h.unchanged (or_false x y u).0;
  }

  widen_attribute-Absorbs :
      (row : Row) (n : ℕ) (cols : List ColSummary)
      → Ensures (AbsorbsTo row (n ∷ []) cols) (widen_attribute sv (attribute_of row n) cols)
  unfolding widen_attribute
  widen_attribute-Absorbs row n [] =
      Ensures-known (AbsorbsTo row (n ∷ []) []) _ (Absorbs-none row n)
  widen_attribute-Absorbs row n (c ∷ cs) =
      Ensures-if (c.attnum == n) _ _
        (λ same.
          let e = (==_iff c.attnum n).0 same in
          Ensures-bind _ _ λ r run. Ensures-known (AbsorbsTo row (n ∷ []) (c ∷ cs)) _ (
            Absorbs-here row n c r.1 cs r.0 e
              ((widen_column-WidensColumn (orders n) c (row n)).at r run)))
        λ other. Ensures-bind (widen_attribute sv (attribute_of row n) cs) _ λ r run.
          Ensures-known (AbsorbsTo row (n ∷ []) (c ∷ cs)) _
            (Absorbs-later row n c cs r.1 r.0 other ((widen_attribute-Absorbs row n cs).at r run))

  widen_cols-Absorbs :
      (row : Row) (ns : List ℕ) (cols : List ColSummary)
      → Ensures (AbsorbsTo row ns cols) (widen_cols sv (map (attribute_of row) ns) cols)
  unfolding widen_cols
  widen_cols-Absorbs row [] cols = Ensures-known (AbsorbsTo row [] cols) _ (Absorbs-nil row cols)
  widen_cols-Absorbs row (n ∷ ns) cols =
      Ensures-bind (widen_attribute sv (attribute_of row n) cols) _ λ r1 run1.
        Ensures-bind (widen_cols sv (map (attribute_of row) ns) r1.1) _ λ r2 run2.
          Ensures-known (AbsorbsTo row (n ∷ ns) cols) _ (
            Absorbs-cons row n ns cols r1.1 r2.1 r1.0 r2.0
              ((widen_attribute-Absorbs row n cols).at r1 run1)
              ((widen_cols-Absorbs row ns r1.1).at r2 run2))

  -- What `widen_summary` promises for an inserted row, on an index on the attributes `ns`.
  pub record WidensSummary (row : Row) (ns : List ℕ) (s : IndexSummary) (changed : Bool)
      (t : IndexSummary) : Type 0 where
    -- Every row that was covered still is.
    pub keeps : (old : Row) → CoversRow s.cols old → CoversRow t.cols old
    -- The new row is covered, on each column of an indexed attribute.
    pub adds :
        (n : ℕ) (c : ColSummary)
        → IsIn n ns
        → find_col n t.cols ≡ some c
        → CoversValue (orders n) c (row n)
    pub typed : All IsTyped s.cols → All IsTyped t.cols
    -- No column is added, or gets another collation.
    pub columns :
        (n : ℕ) (c' : ColSummary)
        → find_col n t.cols ≡ some c'
        → (c : ColSummary) × (find_col n s.cols ≡ some c) × (c'.collation ≡ c.collation)
    -- Without a reported change the summary is the old one.
    pub unchanged : changed ≡ false → t ≡ s

  -- Whenever `widen_summary` gives a result for a row, of any values and NULLs, the result covers
  -- that row on every indexed attribute and every row that was covered; it is the old summary if no
  -- change is reported.
  pub widen_summary-WidensSummary :
      (row : Row) (ns : List ℕ) (s : IndexSummary) (changed : Bool) (t : IndexSummary)
      → widen_summary sv s (map (attribute_of row) ns) ≡ known (changed, t)
      → WidensSummary row ns s changed t
  unfolding widen_summary
  widen_summary-WidensSummary row ns s changed t run = holds.at (changed, t) run
    where
      holds :
          Ensures
            (λ r. WidensSummary row ns s r.0 r.1)
            (widen_summary sv s (map (attribute_of row) ns))
      holds = Ensures-bind (widen_cols sv (map (attribute_of row) ns) s.cols) _ λ r go.
          let a = (widen_cols-Absorbs row ns s.cols).at r go in
          Ensures-known (λ z. WidensSummary row ns s z.0 z.1) _
            (record {
              keeps = Keeps-CoversRow s.cols r.1 a.kept;
              adds = λ n c i q. a.adds n c i q;
              typed = a.kept.typed;
              columns = λ n c' q. let (c, ec, f, g) = a.kept.keeps n c' q in (c, ec, g);
              unchanged = λ u.
                  ap (λ (z : List ColSummary). let w : IndexSummary = record { cols = z } in w)
                    (a.unchanged u);
            })
