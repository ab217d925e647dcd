-- ===== src/Widen/Extent.antt =====
-- An extent is widened to contain the new value and all that it contained.
use pg_table_range.Base.{
  ℕ, ◌≡◌, refl, sym, subst, Bool-cases, true, false, Option, none, some, ◌⊎◌, inl, inr,
  if◌then◌else◌, bytes_eq→eq, known, Ensures, Ensures-known, Ensures-bind, Ensures-if, arith,
}
use pg_table_range.Bytes.{Bytes, is_utf8}
use pg_table_range.Summary.{ColSummary}
use pg_table_range.Server.{Server, text_to_datum, datum_to_text, spi_value}
use pg_table_range.Server.Geometry.{ends_with, dot_geometry, extent_sql}
use pg_table_range.Server.Laws.{datum_to_text-is_utf8, spi_value-IsText}
use pg_table_range.Widen.{
  Widened, merged_range, range_extent_with, geometry_extent_with, differs, store_extent,
  widen_overlap,
}
use pg_table_range.Widen.Covers.{ExtentOrder, Contains, Widens}

module _ {sv : Server} {typ : ℕ} (x : ExtentOrder sv typ) where
  open x use {
    Within, IsEmpty, within_self, round_trip, merge_left, merge_right, extent_new, extent_old,
    extent_null,
  }

  abbrev base : ℕ
  base = sv.get_base_type typ

  -- What the two ways to compute the new extent promise.
  abbrev IsExtent : ColSummary → ℕ → Option Bytes → Type 0
  IsExtent c value none = IsEmpty value
  IsExtent c value (some w) =
      Contains x (some w) value
      × ((u : ℕ) → Contains x c.min u → Contains x (some w) u)
      × (is_utf8 w ≡ true)

  merged_range-IsExtent :
      (min : Option Bytes) (value : ℕ)
      → Ensures
          (λ m. Within m value × ((u : ℕ) → Contains x min u → IsEmpty u ⊎ Within m u))
          (merged_range sv base min value)
  unfolding merged_range
  merged_range-IsExtent none value = Ensures-known _ value (within_self value, λ u h. inl h)
  merged_range-IsExtent (some e) value = Ensures-bind (text_to_datum sv base e) _ λ e_d parsed.
      record {
        at = λ m run. (
          merge_right e_d value m value run (within_self value),
          λ u h. elim h [
            | inl empty ↦ inl empty
            | inr inside ↦ inr (merge_left e_d value m u run (inside e_d parsed))
          ],
        );
      }

  IsExtent-range :
      (c : ColSummary) (value : ℕ) → Ensures (IsExtent c value) (range_extent_with sv c typ value)
  unfolding range_extent_with
  IsExtent-range c value = Ensures-bind (merged_range sv base c.min value) _ λ m merged.
      Ensures-bind (datum_to_text sv typ m) _ λ w rendered.
        let (adds, keeps) = (merged_range-IsExtent c.min value).at m merged in
        Ensures-known (IsExtent c value) (some w) (
          inr (λ d e. round_trip m value d w rendered e adds),
          λ u h. elim (keeps u h) [
            | inl empty ↦ inl empty
            | inr inside ↦ inr (λ d e. round_trip m u d w rendered e inside)
          ],
          datum_to_text-is_utf8 sv typ m w rendered,
        )

  IsExtent-geometry :
      (c : ColSummary) (value : ℕ)
      → Ensures (IsExtent c value) (geometry_extent_with sv c typ value)
  unfolding geometry_extent_with
  IsExtent-geometry c value =
      Ensures-bind (datum_to_text sv typ value) _
        λ text rendered. record { at = result text rendered }
    where
      keeps :
          (text w : Bytes) (min : Option Bytes)
          → spi_value sv (extent_sql c.type_name text min) ≡ known (some w)
          → (u : ℕ) → Contains x min u
          → Contains x (some w) u
      keeps text w none run u h = inl h
      keeps text w (some e) run u (inl empty) = inl empty
      keeps text w (some e) run u (inr inside) = inr λ d parsed.
          let (e_d, old, grows) = extent_old c.type_name text w e d run parsed in
          grows u (inside e_d old)

      result :
          (text : Bytes)
          → datum_to_text sv typ value ≡ known text
          → (r : Option Bytes) → spi_value sv (extent_sql c.type_name text c.min) ≡ known r
          → IsExtent c value r
      result text rendered none run = extent_null c.type_name text c.min value rendered run
      result text rendered (some w) run = (
        inr (λ d parsed. extent_new c.type_name text w c.min value d rendered run parsed),
        keeps text w c.min run,
        spi_value-IsText sv _ (some w) run,
      )

  differs-false : (o : Option Bytes) (w : Bytes) → differs o w ≡ false → o ≡ some w
  differs-false none w h = cc
  differs-false (some m) w h = ground (arith, bytes_eq→eq m w)

  abbrev WidensExtent : ColSummary → ℕ → Widened → Type 0
  WidensExtent c value w = Widens (λ mn mx u. Contains x mn u) c value w.0 w.1

  store_extent-Widens :
      (c : ColSummary) (value : ℕ) (r : Option Bytes)
      → IsExtent c value r
      → WidensExtent c value (store_extent c r)
  unfolding store_extent
  store_extent-Widens c value none h = record {
    adds = empty_contained c.min value h;
    keeps = λ u k. k;
    frame = refl;
    texts = λ a b. (a, b);
    unchanged = λ e. refl;
  }
    where
      empty_contained : (o : Option Bytes) (v : ℕ) → IsEmpty v → Contains x o v
      empty_contained none v e = e
      empty_contained (some t) v e = inl e
  store_extent-Widens c value (some w) h = elim (Bool-cases (differs c.min w)) [
    | inl new ↦ rw new (record {
      adds = h.0;
      keeps = h.1;
      frame = refl;
      texts = λ a b. (h.2, b);
      unchanged = λ e. cc;
    })
    | inr same ↦ rw same (record {
      adds = subst (λ o. Contains x o value) (sym (differs-false c.min w same)) h.0;
      keeps = λ u k. k;
      frame = refl;
      texts = λ a b. (a, b);
      unchanged = λ e. refl;
    })
  ]

  -- A known result of `widen_overlap`, for a range or a geometry, contains the value and all that
  -- was contained.
  pub widen_overlap-Widens :
      (c : ColSummary) (value : ℕ) → Ensures (WidensExtent c value) (widen_overlap sv c typ value)
  unfolding widen_overlap
  widen_overlap-Widens c value = Ensures-bind _ _ λ r run.
      Ensures-known (WidensExtent c value) (store_extent c r)
        (store_extent-Widens c value r (extent.at r run))
    where
      extent : Ensures (IsExtent c value) (
          if ends_with c.type_name dot_geometry
          then geometry_extent_with sv c typ value
          else range_extent_with sv c typ value)
      extent =
          Ensures-if (ends_with c.type_name dot_geometry) _ _ (λ e. IsExtent-geometry c value)
            (λ e. IsExtent-range c value)
