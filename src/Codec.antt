-- ===== src/Codec.antt =====
-- The byte format of a summary (src/index_storage.rs: `put_str`, `put_opt_str`, `Reader`,
-- `serialize`, `deserialize`).
pub mod Reads
pub mod Size
pub mod RoundTrip
mod Tests
use Prim.Native.Nat.{bit_and, bit_or}
use pg_table_range.Base.{
  ℕ, zero, suc, ◌+◌, Bool, true, false, not, Option, none, some, List, [], ◌∷◌, ◌++◌, length,
  get_elem?, get_range, ◌==◌, if◌then◌else◌,
}
use pg_table_range.Bytes.{
  Bytes, u16_to_le_bytes, u32_to_le_bytes, u16_from_le_bytes, u32_from_le_bytes, is_utf8,
}
use pg_table_range.Summary.{ColSummary, IndexSummary}

abbrev pub summary_version : ℕ
summary_version = 2

abbrev pub flag_has_nulls : ℕ
flag_has_nulls = 1

abbrev pub flag_all_nulls : ℕ
flag_all_nulls = 2

abbrev pub flag_unbounded : ℕ
flag_unbounded = 4

-- Each writer takes the bytes written so far, the `out` that the source extends in place.
pub put_str : Bytes → Bytes → Bytes
put_str out s = (out ++ u16_to_le_bytes (length s)) ++ s

pub put_opt_str : Bytes → Option Bytes → Bytes
put_opt_str out none = out ++ 0 ∷ []
put_opt_str out (some s) = put_str (out ++ 1 ∷ []) s

-- The bits set by the three `if`s of `serialize`.
pub flags_of : ColSummary → ℕ
flags_of c =
    let f0 : ℕ = 0 in
    let f1 = if c.has_nulls then bit_or f0 flag_has_nulls else f0 in
    let f2 = if c.all_nulls then bit_or f1 flag_all_nulls else f1 in
    if c.unbounded then bit_or f2 flag_unbounded else f2

-- The body of the loop of `serialize`.
pub put_col : Bytes → ColSummary → Bytes
put_col out c =
    let o1 = out ++ u16_to_le_bytes c.attnum in
    let o2 = o1 ++ (if c.overlap then 1 else 0) ∷ [] in
    let o3 = o2 ++ flags_of c ∷ [] in
    let o4 = o3 ++ u32_to_le_bytes c.collation in
    let o5 = put_str o4 c.type_name in let o6 = put_opt_str o5 c.min in put_opt_str o6 c.max

pub put_cols : Bytes → List ColSummary → Bytes
put_cols out [] = out
put_cols out (c ∷ cs) = put_cols (put_col out c) cs

unfoldable pub serialize : IndexSummary → Bytes
unfolding put_cols put_col put_opt_str put_str flags_of u16_to_le_bytes u32_to_le_bytes
serialize s = put_cols ((summary_version ∷ []) ++ u16_to_le_bytes (length s.cols)) s.cols

-- `struct Reader`. `pos` is below 2 ^ 17 in all that follows, so `pos + len` does not overflow.
pub record Reader : Type 0 where
  pub buf : Bytes
  pub pos : ℕ

abbrev pub start : Bytes → Reader
start buf = record { buf = buf; pos = 0 }

-- A method of `&mut Reader` that returns an `Option`.
abbrev pub Read : Type 0 → Type 0
Read A = Reader → Option (A × Reader)

abbrev pub pure : {A : Type 0} → A → Read A
pure a r = some (a, r)

infixl 5 ◌>>=◌
pub ◌>>=◌ : {A B : Type 0} → Read A → (A → Read B) → Read B
◌>>=◌ m f r = elim (m r) [ none ↦ none | some (a, r') ↦ f a r' ]

pub read_u8 : Read ℕ
read_u8 r = elim (get_elem? r.buf r.pos) [
  | none ↦ none
  | some b ↦ some (b, record r { pos = r.pos + 1 })
]

-- `self.buf.get(self.pos..self.pos + n)?; self.pos += n`
pub read_slice : ℕ → Read Bytes
read_slice n r = elim (get_range r.buf r.pos (r.pos + n)) [
  | none ↦ none
  | some bs ↦ some (bs, record r { pos = r.pos + n })
]

pub read_u16 : Read ℕ
read_u16 = do bytes ← read_slice 2; pure (u16_from_le_bytes bytes)

pub read_u32 : Read ℕ
read_u32 = do bytes ← read_slice 4; pure (u32_from_le_bytes bytes)

-- The cast `as i16` keeps the bit pattern.
pub read_i16 : Read ℕ
read_i16 = read_u16

-- `String::from_utf8(bytes.to_vec()).ok()`
pub from_utf8 : Bytes → Read Bytes
from_utf8 bs r = if is_utf8 bs then some (bs, r) else none

pub read_str : Read Bytes
read_str = do len ← read_u16; bytes ← read_slice len; from_utf8 bytes

-- The tag 0 is `None`; every other tag is followed by a string.
pub tagged_str : ℕ → Read (Option Bytes)
tagged_str zero = pure none
tagged_str (suc t) = do s ← read_str; pure (some s)

pub read_opt_str : Read (Option Bytes)
read_opt_str = do tag ← read_u8; tagged_str tag

-- `flags & FLAG != 0`
pub has_flag : ℕ → ℕ → Bool
has_flag flags flag = not (bit_and flags flag == 0)

-- The body of the loop of `deserialize`.
pub read_col : Read ColSummary
read_col = do
  attnum ← read_i16
  overlap ← read_u8
  flags ← read_u8
  collation ← read_u32
  type_name ← read_str
  min ← read_opt_str
  max ← read_opt_str
  pure (record {
    attnum = attnum;
    overlap = not (overlap == 0);
    type_name = type_name;
    collation = collation;
    min = min;
    max = max;
    has_nulls = has_flag flags flag_has_nulls;
    all_nulls = has_flag flags flag_all_nulls;
    unbounded = has_flag flags flag_unbounded;
  })

pub read_cols : ℕ → Read (List ColSummary)
read_cols zero = pure []
read_cols (suc n) = do c ← read_col; cs ← read_cols n; pure (c ∷ cs)

pub versioned : ℕ → Read (List ColSummary)
versioned version =
    if version == summary_version then (do ncols ← read_u16; read_cols ncols) else (λ r. none)

pub result_of : Option (List ColSummary × Reader) → Option IndexSummary
result_of none = none
result_of (some (cols, r)) = some (record { cols = cols })

-- Bytes behind the last column are ignored.
unfoldable pub deserialize : Bytes → Option IndexSummary
unfolding versioned read_cols read_col read_opt_str tagged_str read_str read_i16 read_u16 read_u32
    read_u8 read_slice from_utf8 has_flag result_of ◌>>=◌ get_range u16_from_le_bytes
    u32_from_le_bytes is_utf8
deserialize buf = result_of ((do version ← read_u8; versioned version) (start buf))
