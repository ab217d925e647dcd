-- ===== src/Codec/Size.antt =====
-- The bytes of a summary as one concatenation, and how many there are.
use pg_table_range.Base.{
  ◌+◌, ◌*◌, ◌≤◌, ◌≡◌, refl, Option, none, some, List, [], ◌∷◌, ◌++◌, append_assoc, append-nil,
  length, length-append, arith, if◌then◌else◌, sym, ◌∙◌,
}
use pg_table_range.Bytes.{Bytes, u16_to_le_bytes, u32_to_le_bytes}
use pg_table_range.Bytes.Laws.{length-u16_to, length-u32_to}
use pg_table_range.Summary.{ColSummary, IndexSummary, text_len, bound_len}
use pg_table_range.Codec.{
  summary_version, put_str, put_opt_str, flags_of, put_col, put_cols, serialize,
}

abbrev pub str_bytes : Bytes → Bytes
str_bytes s = u16_to_le_bytes (length s) ++ s

abbrev pub opt_str_bytes : Option Bytes → Bytes
opt_str_bytes none = 0 ∷ []
opt_str_bytes (some s) = (1 ∷ []) ++ str_bytes s

-- One column, as `put_col` writes it.
unfoldable pub col_bytes : ColSummary → Bytes
col_bytes c =
    u16_to_le_bytes c.attnum
    ++ ((if c.overlap then 1 else 0) ∷ []
        ++ (flags_of c ∷ []
            ++ (u32_to_le_bytes c.collation
                ++ (str_bytes c.type_name ++ (opt_str_bytes c.min ++ opt_str_bytes c.max)))))

unfoldable pub cols_bytes : List ColSummary → Bytes
cols_bytes [] = []
cols_bytes (c ∷ cs) = col_bytes c ++ cols_bytes cs

put_str_lem : (out s : Bytes) → put_str out s ≡ out ++ str_bytes s
unfolding put_str
put_str_lem out s = append_assoc out (u16_to_le_bytes (length s)) s

put_opt_str_lem : (out : Bytes) (o : Option Bytes) → put_opt_str out o ≡ out ++ opt_str_bytes o
unfolding put_opt_str
put_opt_str_lem out none = refl
put_opt_str_lem out (some s) =
    put_str_lem (out ++ 1 ∷ []) s ∙ append_assoc out (1 ∷ []) (str_bytes s)

put_col_lem : (out : Bytes) (c : ColSummary) → put_col out c ≡ out ++ col_bytes c
unfolding put_col col_bytes
put_col_lem out c = simp (put_str_lem, put_opt_str_lem, append_assoc)

put_cols_lem : (out : Bytes) (cs : List ColSummary) → put_cols out cs ≡ out ++ cols_bytes cs
unfolding put_cols cols_bytes
put_cols_lem out [] = sym (append-nil out)
put_cols_lem out (c ∷ cs) = put_cols_lem (put_col out c) cs ∙ simp (put_col_lem, append_assoc)

-- The whole summary: version, number of columns, columns.
pub serialize_lem :
    (s : IndexSummary)
    → serialize s ≡ (summary_version ∷ []) ++ (u16_to_le_bytes (length s.cols) ++ cols_bytes s.cols)
unfolding serialize
serialize_lem s =
    put_cols_lem ((summary_version ∷ []) ++ u16_to_le_bytes (length s.cols)) s.cols
    ∙ append_assoc (summary_version ∷ []) (u16_to_le_bytes (length s.cols)) (cols_bytes s.cols)

length-opt_str_bytes :
    (o : Option Bytes)
    → (text_len o + 1 ≤ length (opt_str_bytes o)) × (length (opt_str_bytes o) ≤ text_len o + 3)
length-opt_str_bytes none = omega arith
length-opt_str_bytes (some s) =
    omega (arith, length-append (u16_to_le_bytes (length s)) s, length-u16_to (length s))

-- A column takes at least twelve bytes more than its name and bounds.
pub length-col_bytes :
    (c : ColSummary)
    → (12 + length c.type_name + bound_len c ≤ length (col_bytes c))
      × (length (col_bytes c) ≤ 16 + length c.type_name + bound_len c)
unfolding col_bytes bound_len
length-col_bytes c = omega (
  arith,
  length-append {0},
  length-u16_to,
  length-u32_to,
  length-opt_str_bytes c.min,
  length-opt_str_bytes c.max,
)

pub length-cols_bytes : (cs : List ColSummary) → 12 * length cs ≤ length (cols_bytes cs)
unfolding cols_bytes
length-cols_bytes [] = omega arith
length-cols_bytes (c ∷ cs) =
    omega
      (arith, length-append (col_bytes c) (cols_bytes cs), length-col_bytes c, length-cols_bytes cs)
