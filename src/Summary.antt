-- ===== src/Summary.antt =====
-- The typed summary of an index (src/index_storage.rs, `ColSummary` and `IndexSummary`).
use pg_table_range.Base.{
  ℕ, ◌+◌, Bool, true, Option, none, some, List, [], ◌∷◌, length, ◌==◌, ==_refl, ◌≡◌, refl, false,
  if◌then◌else◌,
}
use pg_table_range.Bytes.{Bytes}

-- One column's summary. `attnum` is the bit pattern of an `i16`, an Oid is a `u32`.
pub record ColSummary : Type 0 where
  pub attnum : ℕ
  -- `true`: `min` holds a covering extent for `&&`; `false`: `min` and `max` are btree bounds.
  pub overlap : Bool
  pub type_name : Bytes
  pub collation : ℕ
  pub min : Option Bytes
  pub max : Option Bytes
  pub has_nulls : Bool
  pub all_nulls : Bool
  pub unbounded : Bool

-- `IndexSummary`, one entry for each column.
pub record IndexSummary : Type 0 where
  pub cols : List ColSummary

unfoldable pub make_unbounded : ColSummary → ColSummary
make_unbounded c = record c { unbounded = true; min = none; max = none }

-- `s.as_ref().map_or(0, String::len)`
abbrev pub text_len : Option Bytes → ℕ
text_len none = 0
text_len (some s) = length s

-- The closure `bound_len` of `encode_fitting`.
unfoldable pub bound_len : ColSummary → ℕ
bound_len c = text_len c.min + text_len c.max

-- `cols.iter().find(|c| c.attnum == attnum)`
unfoldable pub find_col : ℕ → List ColSummary → Option ColSummary
find_col attnum [] = none
find_col attnum (c ∷ cs) = if c.attnum == attnum then some c else find_col attnum cs

pub find_col-head :
    (n : ℕ) (c : ColSummary) (cs : List ColSummary) → c.attnum ≡ n → find_col n (c ∷ cs) ≡ some c
unfolding find_col
find_col-head n c cs e = rw (e, ==_refl n) refl

pub find_col-skip :
    (n : ℕ) (c : ColSummary) (cs : List ColSummary)
    → (c.attnum == n) ≡ false
    → find_col n (c ∷ cs) ≡ find_col n cs
unfolding find_col
find_col-skip n c cs e = rw e refl
