-- ===== src/Widen/Covers.antt =====
-- What a summary promises: it covers the rows. The orders and extents of PostgreSQL's types enter
-- as the records `BtreeOrder` and `ExtentOrder` of a column, with the laws that PostgreSQL documents.
use pg_table_range.Base.{ℕ, ◌%◌, ◌≡◌, ◌⊎◌, Ordering, Bool, true, false, Option, none, some, known}
use pg_table_range.Bytes.{Bytes}
use pg_table_range.Summary.{ColSummary}
use pg_table_range.Codec.RoundTrip.{IsText}
use pg_table_range.Server.{
  Server, invalid_oid, call_overlap, oid_function_call2, datum_cmp, btree_cmp_proc, text_to_datum,
  datum_to_text, spi_value,
}
use pg_table_range.Server.Geometry.{extent_sql}

-- What the sign of a comparison says of `a ≤ b` and `b ≤ a`.
abbrev pub Agrees : Ordering → Type 0 → Type 0 → Type 0
Agrees Ordering.lt ab ba = ab × ¬ ba
Agrees Ordering.eq ab ba = ab × ba
Agrees Ordering.gt ab ba = ba × ¬ ab

-- The btree family of a column of type `typ` under a collation. `Le s a t b` says that the Datum `a`
-- of type `s` sorts no later than the Datum `b` of type `t`.
pub record BtreeOrder (sv : Server) (typ collation : ℕ) : Type 1 where
  pub Le : ℕ → ℕ → ℕ → ℕ → Type 0
  pub le_refl : (s a : ℕ) → Le s a s a
  pub le_trans : (r s t a b c : ℕ) → Le r a s b → Le s b t c → Le r a t c
  -- `Compares p s t`: `p` is the family's support function for the types `s` and `t`.
  pub Compares : ℕ → ℕ → ℕ → Type 0
  pub cmp_agrees :
      (p s t a b : ℕ) (o : Ordering)
      → Compares p s t
      → datum_cmp sv p collation a b ≡ known o
      → Agrees o (Le s a t b) (Le t b s a)
  -- The support function of the base type's default operator class compares that type.
  pub proc_compares :
      (p : ℕ)
      → btree_cmp_proc sv (sv.get_base_type typ) ≡ some p
      → Compares p (sv.get_base_type typ) (sv.get_base_type typ)
  -- The types whose input function reads the texts of the column's values.
  pub Parses : ℕ → Type 0
  pub parses_base : Parses (sv.get_base_type typ)
  pub parses_agree :
      (s t a b : ℕ) (text : Bytes)
      → Parses s
      → Parses t
      → text_to_datum sv s text ≡ known a
      → text_to_datum sv t text ≡ known b
      → Le s a t b
  -- Under the pinned settings the text of a value is read back as an equal value.
  pub round_trip :
      (s v d : ℕ) (text : Bytes)
      → Parses s
      → datum_to_text sv typ v ≡ known text
      → text_to_datum sv s text ≡ known d
      → Le s d (sv.get_base_type typ) v × Le (sv.get_base_type typ) v s d

-- The extents of a range or geometry column of type `typ`. `Within d v` says that the extent `d`
-- contains the value `v`; the empty values are within nothing that matters.
pub record ExtentOrder (sv : Server) (typ : ℕ) : Type 1 where
  pub Within : ℕ → ℕ → Type 0
  pub IsEmpty : ℕ → Type 0
  pub within_self : (v : ℕ) → Within v v
  pub round_trip :
      (m v d : ℕ) (text : Bytes)
      → datum_to_text sv typ m ≡ known text
      → text_to_datum sv (sv.get_base_type typ) text ≡ known d
      → Within m v
      → Within d v
  -- `range_merge` contains what either of its arguments contains.
  pub merge_left :
      (x y m v : ℕ)
      → oid_function_call2 sv sv.range_merge invalid_oid x y ≡ known m
      → Within x v
      → Within m v
  pub merge_right :
      (x y m v : ℕ)
      → oid_function_call2 sv sv.range_merge invalid_oid x y ≡ known m
      → Within y v
      → Within m v
  -- `ST_Extent` of one or two literals that the type reads contains what they contain; it is NULL
  -- only for empty geometries.
  pub extent_new :
      (tn new_text w : Bytes) (ext : Option Bytes) (v d : ℕ)
      → datum_to_text sv typ v ≡ known new_text
      → spi_value sv (extent_sql tn new_text ext) ≡ known (some w)
      → text_to_datum sv (sv.get_base_type typ) w ≡ known d
      → Within d v
  pub extent_old :
      (tn new_text w e : Bytes) (d : ℕ)
      → spi_value sv (extent_sql tn new_text (some e)) ≡ known (some w)
      → text_to_datum sv (sv.get_base_type typ) w ≡ known d
      → (x : ℕ) × (text_to_datum sv (sv.get_base_type typ) e ≡ known x)
        × ((u : ℕ) → Within x u → Within d u)
  pub extent_null :
      (tn new_text : Bytes) (ext : Option Bytes) (v : ℕ)
      → datum_to_text sv typ v ≡ known new_text
      → spi_value sv (extent_sql tn new_text ext) ≡ known none
      → IsEmpty v

-- What an overlap operator's function answers, of an extent and of the values within it, with the
-- constant on the right or (commuted) on the left. The truth of the answer is its lowest byte.
pub record OverlapOp {sv : Server} {typ : ℕ} (x : ExtentOrder sv typ) (opfunc collation : ℕ)
    (commuted : Bool) : Type 0 where
  pub apart :
      (d v k w z : ℕ)
      → x.Within d v
      → call_overlap sv opfunc collation commuted d k ≡ known w
      → call_overlap sv opfunc collation commuted v k ≡ known z
      → w % 256 ≡ 0
      → z % 256 ≡ 0
  pub empty :
      (v k z : ℕ)
      → x.IsEmpty v
      → call_overlap sv opfunc collation commuted v k ≡ known z
      → z % 256 ≡ 0

module _ {sv : Server} {typ collation : ℕ} (o : BtreeOrder sv typ collation) where
  -- Read by any type that reads the column's texts, the bounds enclose the value.
  abbrev pub Encloses : Option Bytes → Option Bytes → ℕ → Type 0
  Encloses (some lo) (some hi) v =
      ((s d : ℕ) → o.Parses s → text_to_datum sv s lo ≡ known d → o.Le s d (sv.get_base_type typ) v)
      × ((s d : ℕ)
          → o.Parses s
          → text_to_datum sv s hi ≡ known d
          → o.Le (sv.get_base_type typ) v s d)
  Encloses none hi v = ⊥
  Encloses (some lo) none v = ⊥

module _ {sv : Server} {typ : ℕ} (x : ExtentOrder sv typ) where
  abbrev pub Contains : Option Bytes → ℕ → Type 0
  Contains none v = x.IsEmpty v
  Contains (some e) v =
      x.IsEmpty v ⊎ ((d : ℕ) → text_to_datum sv (sv.get_base_type typ) e ≡ known d → x.Within d v)

-- What widening a column by a value has to do, for a predicate `Cov` of its bounds: the value is
-- covered, what was covered still is, nothing but the bounds changes, the bounds stay UTF-8, and the
-- column is the old one if no change is reported.
pub record Widens (Cov : Option Bytes → Option Bytes → ℕ → Type 0) (c : ColSummary) (v : ℕ)
    (changed : Bool) (d : ColSummary) : Type 0 where
  pub adds : Cov d.min d.max v
  pub keeps : (u : ℕ) → Cov c.min c.max u → Cov d.min d.max u
  pub frame : d ≡ record c { min = d.min; max = d.max }
  pub texts : IsText c.min → IsText c.max → IsText d.min × IsText d.max
  pub unchanged : changed ≡ false → d ≡ c

-- A column with what its kind of summary rests on.
pub record Orders (sv : Server) (typ collation : ℕ) : Type 1 where
  pub btree : BtreeOrder sv typ collation
  pub extent : ExtentOrder sv typ

module _ {sv : Server} {typ collation : ℕ} (o : Orders sv typ collation) where
  -- What the bounds of a column promise, by its `overlap`.
  abbrev pub BoundsCover : Bool → Option Bytes → Option Bytes → ℕ → Type 0
  BoundsCover true mn mx v = Contains o.extent mn v
  BoundsCover false mn mx v = Encloses o.btree mn mx v

  -- The column's value of one row; `none` is NULL.
  abbrev pub CoversValue : ColSummary → Option ℕ → Type 0
  CoversValue c none = c.has_nulls ≡ true
  CoversValue c (some v) =
      (c.all_nulls ≡ false) × (c.unbounded ≡ false → BoundsCover c.overlap c.min c.max v)

-- The fields of a column that widening never touches.
pub record SameColumn (c d : ColSummary) : Type 0 where
  pub attnum : d.attnum ≡ c.attnum
  pub overlap : d.overlap ≡ c.overlap
  pub type_name : d.type_name ≡ c.type_name
  pub collation : d.collation ≡ c.collation
