-- ===== src/Server/Geometry.antt =====
-- The SQL that computes a geometry's extent (src/index_am.rs: `geometry_extent_with`;
-- src/summary_build.rs: `geometry_schema`).
use pg_table_range.Base.{
  ◌-◌, Bool, ◌&&◌, Option, none, some, [], ◌∷◌, ◌++◌, length, take, drop, leb, ◌==◌, if◌then◌else◌,
  bytes_eq,
}
use pg_table_range.Bytes.{Bytes}
use pg_table_range.Server.{ascii}

unfoldable pub ends_with : Bytes → Bytes → Bool
ends_with s suffix =
    leb (length suffix) (length s) && bytes_eq (drop (length s - length suffix) s) suffix

unfoldable pub strip_suffix : Bytes → Bytes → Option Bytes
unfolding ends_with
strip_suffix s suffix =
    if ends_with s suffix then some (take (length s - length suffix) s) else none

abbrev pub dot_geometry : Bytes
dot_geometry = ascii ".geometry"

unfoldable pub geometry_schema : Bytes → Bytes
unfolding strip_suffix
geometry_schema type_name = elim (strip_suffix type_name dot_geometry) [
  | none ↦ ascii "public"
  | some ns ↦ ns
]

-- `s.replace('\'', "''")`
unfoldable pub double_quotes : Bytes → Bytes
double_quotes [] = []
double_quotes (b ∷ bs) = let rest = double_quotes bs in if b == 39 then 39 ∷ 39 ∷ rest else b ∷ rest

-- The closure `lit`.
unfoldable pub lit : Bytes → Bytes
unfolding double_quotes
lit s = ascii "'" ++ (double_quotes s ++ ascii "'")

unfoldable pub cast_row : Bytes → Bytes → Bytes
unfolding lit
cast_row tn s = ascii "(CAST(" ++ (lit s ++ (ascii " AS " ++ (tn ++ ascii "))")))

unfoldable pub extent_rows : Bytes → Bytes → Option Bytes → Bytes
unfolding cast_row
extent_rows tn new_text none = cast_row tn new_text
extent_rows tn new_text (some ext) = cast_row tn new_text ++ (ascii ", " ++ cast_row tn ext)

unfoldable pub extent_sql : Bytes → Bytes → Option Bytes → Bytes
unfolding extent_rows geometry_schema
extent_sql tn new_text ext =
    ascii "SELECT "
    ++ (geometry_schema tn
        ++ (ascii ".st_extent(g)::"
            ++ (tn
                ++ (ascii "::pg_catalog.text FROM (VALUES "
                    ++ (extent_rows tn new_text ext ++ ascii ") v(g)")))))

-- The query of `flush_geometry`.
unfoldable pub batch_sql : Bytes → Bytes
unfolding geometry_schema
batch_sql tn =
    ascii "SELECT "
    ++ (geometry_schema tn
        ++ (ascii ".st_extent(g)::"
            ++ (tn ++ ascii "::pg_catalog.text FROM pg_catalog.unnest($1) AS g")))
