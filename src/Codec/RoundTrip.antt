-- ===== src/Codec/RoundTrip.antt =====
-- `deserialize` is inverse to `serialize` (src/index_storage.rs).
use pg_table_range.Base.{
  ℕ, ◌+◌, ◌<◌, ◌^◌, ◌≡◌, refl, ap, true, not, Option, none, some, List, [], ◌∷◌, ◌++◌, length,
  length-append, arith, if◌then◌else◌, All, ◌==◌,
}
use pg_table_range.Bytes.{Bytes, u16_to_le_bytes, is_utf8}
use pg_table_range.Bytes.Laws.{length-u16_to}
use pg_table_range.Summary.{ColSummary, IndexSummary, text_len, bound_len}
use pg_table_range.Codec.{
  summary_version, flags_of, flag_has_nulls, flag_all_nulls, flag_unbounded, serialize, has_flag,
  start, read_i16, ◌>>=◌, read_u8, read_str, tagged_str, read_opt_str, read_col, read_cols,
  versioned, deserialize, result_of,
}
use pg_table_range.Codec.Size.{
  str_bytes, opt_str_bytes, col_bytes, cols_bytes, serialize_lem, length-col_bytes,
  length-cols_bytes,
}
use pg_table_range.Codec.Reads.{
  Reads, Reads-pure, Reads-bind, Reads-bind_last, Reads-u8, Reads-slice, Reads-u16, Reads-u32,
  Reads-from_utf8,
}

abbrev pub IsText : Option Bytes → Type 0
IsText none = Unit
IsText (some s) = is_utf8 s ≡ true

-- What the Rust types of the fields say.
pub record IsTyped (c : ColSummary) : Type 0 where
  pub attnum : c.attnum < 2 ^ 16
  pub collation : c.collation < 2 ^ 32
  pub type_name : is_utf8 c.type_name ≡ true
  pub min : IsText c.min
  pub max : IsText c.max

Reads-str : (s : Bytes) → is_utf8 s ≡ true → length s < 2 ^ 16 → Reads read_str (str_bytes s) s
unfolding read_str
Reads-str s u small =
    Reads-bind _ (Reads-u16 (length s) small)
      (Reads-bind_last _ (Reads-slice (length s) s refl) (Reads-from_utf8 s u))

Reads-opt_str :
    (o : Option Bytes) → IsText o → text_len o < 2 ^ 16 → Reads read_opt_str (opt_str_bytes o) o
unfolding read_opt_str tagged_str
Reads-opt_str none u small = Reads-bind_last _ (Reads-u8 0) (Reads-pure none)
Reads-opt_str (some s) u small =
    Reads-bind _ (Reads-u8 1) (Reads-bind_last _ (Reads-str s u small) (Reads-pure (some s)))

-- The three flags come back from the byte that `flags_of` packs them into.
flags-flags_of :
    (c : ColSummary)
    → (has_flag (flags_of c) flag_has_nulls ≡ c.has_nulls)
      × (has_flag (flags_of c) flag_all_nulls ≡ c.all_nulls)
      × (has_flag (flags_of c) flag_unbounded ≡ c.unbounded)
unfolding has_flag flags_of
flags-flags_of c = ground arith

-- What `read_col` makes of the values that it has read.
abbrev rebuilt : ColSummary → ColSummary
rebuilt c = record c {
  overlap = not ((if c.overlap then 1 else 0) == 0);
  has_nulls = has_flag (flags_of c) flag_has_nulls;
  all_nulls = has_flag (flags_of c) flag_all_nulls;
  unbounded = has_flag (flags_of c) flag_unbounded;
}

rebuilt_lem : (c : ColSummary) → rebuilt c ≡ c
rebuilt_lem c = ground (arith, flags-flags_of c)

Reads-col :
    (c : ColSummary) → IsTyped c → length (col_bytes c) < 2 ^ 16 → Reads read_col (col_bytes c) c
unfolding read_col col_bytes read_i16 bound_len
Reads-col c t small = Reads-bind _ (Reads-u16 c.attnum t.attnum) (
    Reads-bind _ (Reads-u8 (if c.overlap then 1 else 0)) (
      Reads-bind _ (Reads-u8 (flags_of c)) (
        Reads-bind _ (Reads-u32 c.collation t.collation) (
          Reads-bind _ (Reads-str c.type_name t.type_name (omega (arith, length-col_bytes c))) (
            Reads-bind _ (Reads-opt_str c.min t.min (omega (arith, length-col_bytes c))) (
              Reads-bind_last _ (Reads-opt_str c.max t.max (omega (arith, length-col_bytes c)))
                (rw (rebuilt_lem c) (Reads-pure c))))))))

Reads-cols :
    (cs : List ColSummary)
    → All IsTyped cs
    → length (cols_bytes cs) < 2 ^ 16
    → Reads (read_cols (length cs)) (cols_bytes cs) cs
unfolding read_cols cols_bytes
Reads-cols [] t small = Reads-pure []
Reads-cols (c ∷ cs) t small =
    Reads-bind _ (Reads-col c t.0 (omega (arith, length-append (col_bytes c) (cols_bytes cs)))) (
      Reads-bind_last _
        (Reads-cols cs t.1 (omega (arith, length-append (col_bytes c) (cols_bytes cs))))
        (Reads-pure (c ∷ cs)))

Reads-versioned :
    (s : IndexSummary)
    → All IsTyped s.cols
    → length (serialize s) < 2 ^ 16
    → Reads (read_u8 >>= versioned) (serialize s) s.cols
unfolding versioned
Reads-versioned s typed small = rw (serialize_lem s) (
    Reads-bind versioned (Reads-u8 summary_version) (
      Reads-bind _ (Reads-u16 (length s.cols) (omega (arith, size, length-cols_bytes s.cols)))
        (Reads-cols s.cols typed (omega (arith, size)))))
  where
    size : 3 + length (cols_bytes s.cols) < 2 ^ 16
    size = omega (
      arith,
      small,
      ap (length {A = ℕ}) (serialize_lem s),
      length-append (u16_to_le_bytes (length s.cols)) (cols_bytes s.cols),
      length-u16_to (length s.cols),
    )

-- A summary whose encoding is shorter than 64 KiB is read back as it was written, whatever bytes
-- follow the encoding.
pub deserialize-serialize :
    (s : IndexSummary) (rest : Bytes)
    → All IsTyped s.cols
    → length (serialize s) < 2 ^ 16
    → deserialize (serialize s ++ rest) ≡ some s
unfolding deserialize
deserialize-serialize s rest typed small =
    let (r', e, h) =
      (Reads-versioned s typed small).at (start (serialize s ++ rest)) rest (omega arith, refl) in
    rw (e, result_of) refl

-- Nothing is read from no bytes.
pub deserialize-pos : (buf : Bytes) (s : IndexSummary) → deserialize buf ≡ some s → 0 < length buf
unfolding deserialize
deserialize-pos [] s h = cc
deserialize-pos (b ∷ bs) s h = omega arith
