-- ===== src/Widen/MinMax.antt =====
-- Btree bounds are widened to enclose the new value and all that they enclosed.
use pg_table_range.Base.{
  ℕ, ◌≡◌, refl, subst, subst₂, Ordering, Bool, true, false, ◌||◌, Option, none, some, if◌then◌else◌,
  try_option, known, Ensures, Ensures-known, Ensures-unknown, Ensures-bind, try_option-known, arith,
}
use pg_table_range.Bytes.{Bytes, is_utf8}
use pg_table_range.Summary.{ColSummary}
use pg_table_range.Codec.RoundTrip.{IsText}
use pg_table_range.Server.{
  Server, is_lt, is_gt, datum_cmp, btree_cmp_proc, text_to_datum, datum_to_text,
}
use pg_table_range.Server.Laws.{datum_to_text-is_utf8}
use pg_table_range.Widen.{Widened, widen_bounds, widen_minmax}
use pg_table_range.Widen.Covers.{Agrees, BtreeOrder, Encloses, Widens}

module _ {sv : Server} {typ collation : ℕ} (o : BtreeOrder sv typ collation) where
  open o use {
    Le, le_trans, Compares, cmp_agrees, proc_compares, Parses, parses_base, parses_agree,
    round_trip,
  }

  abbrev base : ℕ
  base = sv.get_base_type typ

  abbrev Lower : Bytes → ℕ → Type 0
  Lower b v = (s d : ℕ) → Parses s → text_to_datum sv s b ≡ known d → Le s d base v

  abbrev Upper : Bytes → ℕ → Type 0
  Upper b v = (s d : ℕ) → Parses s → text_to_datum sv s b ≡ known d → Le base v s d

  -- The bounds enclose a value that both of them bound, whichever texts they are.
  encloses_if :
      (a b : Bool) (text lo hi : Bytes) (v : ℕ)
      → Lower (if a then text else lo) v
      → Upper (if b then text else hi) v
      → Encloses o (if a then some text else some lo) (if b then some text else some hi) v
  encloses_if true true text lo hi v l u = (l, u)
  encloses_if true false text lo hi v l u = (l, u)
  encloses_if false true text lo hi v l u = (l, u)
  encloses_if false false text lo hi v l u = (l, u)

  module _ (value : ℕ) (text : Bytes) (rendered : datum_to_text sv typ value ≡ known text)
      (bound : Bytes) (bound_d : ℕ) (parsed : text_to_datum sv base bound ≡ known bound_d) where
    abbrev Sign : Ordering → Type 0
    Sign sign = Agrees sign (Le base value base bound_d) (Le base bound_d base value)

    Lower-adds : (sign : Ordering) → Sign sign → Lower (if is_lt sign then text else bound) value
    Lower-adds Ordering.lt g s d p e = (round_trip s value d text p rendered e).0
    Lower-adds Ordering.eq g s d p e =
        le_trans s base base d bound_d value
          (parses_agree s base d bound_d bound p parses_base e parsed) g.1
    Lower-adds Ordering.gt g s d p e =
        le_trans s base base d bound_d value
          (parses_agree s base d bound_d bound p parses_base e parsed) g.0

    Lower-keeps :
        (sign : Ordering)
        → Sign sign
        → (v : ℕ) → Lower bound v
        → Lower (if is_lt sign then text else bound) v
    Lower-keeps Ordering.lt g v h s d p e =
        le_trans s base base d value v (round_trip s value d text p rendered e).0
          (le_trans base base base value bound_d v g.0 (h base bound_d parses_base parsed))
    Lower-keeps Ordering.eq g v h s d p e = h s d p e
    Lower-keeps Ordering.gt g v h s d p e = h s d p e

    Upper-adds : (sign : Ordering) → Sign sign → Upper (if is_gt sign then text else bound) value
    Upper-adds Ordering.lt g s d p e =
        le_trans base base s value bound_d d g.0
          (parses_agree base s bound_d d bound parses_base p parsed e)
    Upper-adds Ordering.eq g s d p e =
        le_trans base base s value bound_d d g.0
          (parses_agree base s bound_d d bound parses_base p parsed e)
    Upper-adds Ordering.gt g s d p e = (round_trip s value d text p rendered e).1

    Upper-keeps :
        (sign : Ordering)
        → Sign sign
        → (v : ℕ) → Upper bound v
        → Upper (if is_gt sign then text else bound) v
    Upper-keeps Ordering.lt g v h s d p e = h s d p e
    Upper-keeps Ordering.eq g v h s d p e = h s d p e
    Upper-keeps Ordering.gt g v h s d p e =
        le_trans base base s v value d
          (le_trans base base base v bound_d value (h base bound_d parses_base parsed) g.0)
          (round_trip s value d text p rendered e).1

  IsText-if :
      (a : Bool) (text bound : Bytes)
      → is_utf8 text ≡ true
      → is_utf8 bound ≡ true
      → IsText (if a then some text else some bound)
  IsText-if true text bound h k = h
  IsText-if false text bound h k = k

  -- The two signs known: what the code stores.
  widened :
      (c : ColSummary) (value : ℕ) (text lo hi : Bytes) (p min_d max_d : ℕ) (below above : Ordering)
      → datum_to_text sv typ value ≡ known text
      → c.min ≡ some lo
      → c.max ≡ some hi
      → btree_cmp_proc sv base ≡ some p
      → text_to_datum sv base lo ≡ known min_d
      → text_to_datum sv base hi ≡ known max_d
      → datum_cmp sv p collation value min_d ≡ known below
      → datum_cmp sv p collation value max_d ≡ known above
      → Widens (Encloses o) c value (is_lt below || is_gt above) (record c {
        min = if is_lt below then some text else some lo;
        max = if is_gt above then some text else some hi;
      })
  widened c value text lo hi p min_d max_d below above rendered cmin cmax found elo ehi ebelow
        eabove =
      record {
        adds =
            encloses_if (is_lt below) (is_gt above) text lo hi value
              (Lower-adds value text rendered lo min_d elo below low)
              (Upper-adds value text rendered hi max_d ehi above high);
        keeps = λ v h.
            let h' = subst₂ (λ a b. Encloses o a b v) cmin cmax h in
            encloses_if (is_lt below) (is_gt above) text lo hi v
              (Lower-keeps value text rendered lo min_d elo below low v h'.0)
              (Upper-keeps value text rendered hi max_d ehi above high v h'.1);
        frame = refl;
        texts = λ h k. (
          IsText-if (is_lt below) text lo utf8 (subst IsText cmin h),
          IsText-if (is_gt above) text hi utf8 (subst IsText cmax k),
        );
        unchanged = λ e. ground arith;
      }
    where
      low : Agrees below (Le base value base min_d) (Le base min_d base value)
      low = cmp_agrees p base base value min_d below (proc_compares p found) ebelow

      high : Agrees above (Le base value base max_d) (Le base max_d base value)
      high = cmp_agrees p base base value max_d above (proc_compares p found) eabove

      utf8 : is_utf8 text ≡ true
      utf8 = datum_to_text-is_utf8 sv typ value text rendered

  -- The first value of a column without bounds.
  seeded :
      (c : ColSummary) (value : ℕ) (text : Bytes)
      → datum_to_text sv typ value ≡ known text
      → c.min ≡ none
      → Widens (Encloses o) c value true (record c { min = some text; max = some text })
  seeded c value text rendered cmin = record {
    adds = (
      λ s d p e. (round_trip s value d text p rendered e).0,
      λ s d p e. (round_trip s value d text p rendered e).1,
    );
    keeps = λ v h. absurd (subst (λ a. Encloses o a c.max v) cmin h);
    frame = refl;
    texts = λ h k. (utf8, utf8);
    unchanged = λ e. cc;
  }
    where
      utf8 : is_utf8 text ≡ true
      utf8 = datum_to_text-is_utf8 sv typ value text rendered

  abbrev WidensTo : ColSummary → ℕ → Widened → Type 0
  WidensTo c value w = Widens (Encloses o) c value w.0 w.1

  -- The `match` of `widen_minmax`, with the column's own bounds.
  widen_bounds-Widens :
      (c : ColSummary) (value : ℕ) (text : Bytes) (min max : Option Bytes)
      → datum_to_text sv typ value ≡ known text
      → c.min ≡ min
      → c.max ≡ max
      → Ensures (WidensTo c value) (widen_bounds sv c base collation value text min max)
  unfolding widen_bounds
  widen_bounds-Widens c value text none (some max) rendered cmin cmax = Ensures-unknown _
  widen_bounds-Widens c value text (some min) none rendered cmin cmax = Ensures-unknown _
  widen_bounds-Widens c value text none none rendered cmin cmax =
      Ensures-known (WidensTo c value) _ (seeded c value text rendered cmin)
  widen_bounds-Widens c value text (some lo) (some hi) rendered cmin cmax =
      Ensures-bind (try_option (btree_cmp_proc sv base)) _ λ p found.
        Ensures-bind (text_to_datum sv base lo) _ λ min_d elo.
          Ensures-bind (text_to_datum sv base hi) _ λ max_d ehi.
            Ensures-bind (datum_cmp sv p collation value min_d) _ λ below ebelow.
              Ensures-bind (datum_cmp sv p collation value max_d) _ λ above eabove.
                Ensures-known (WidensTo c value) _ (
                  widened c value text lo hi p min_d max_d below above rendered cmin cmax
                    (try_option-known _ _ found) elo ehi ebelow eabove)

  -- Whatever the old bounds, a known result of `widen_minmax` encloses the value and all that was
  -- enclosed.
  pub widen_minmax-Widens :
      (c : ColSummary) (value : ℕ)
      → Ensures (WidensTo c value) (widen_minmax sv c typ collation value)
  unfolding widen_minmax
  widen_minmax-Widens c value =
      Ensures-bind (datum_to_text sv typ value) _
        λ text rendered. widen_bounds-Widens c value text c.min c.max rendered refl refl
