-- ===== src/Widen/Tests.antt =====
-- Tests of widening: 25 and then a row whose second attribute is NULL, on the sample's columns.
use pg_table_range.Base.{ℕ, ◌≡◌, true, some, List, [], ◌∷◌, map, refl, known, Ensures}
use pg_table_range.Server.{datum_to_text, text_to_datum, datum_cmp, btree_cmp_proc}
use pg_table_range.Bytes.{is_utf8, has_nul}
use pg_table_range.Summary.{IndexSummary}
use pg_table_range.Widen.{widen_column, widen_summary}
use pg_table_range.Widen.Column.{WidensTo, widen_column-WidensColumn}
use pg_table_range.Widen.Row.{attribute_of, WidensSummary, widen_summary-WidensSummary}
use pg_table_range.Samples.{ten_to_twenty, no_values, two_cols}
use pg_table_range.Samples.Ints.{
  ints, int_orders, read_int, call_ints, compare_ints, int_table, row_of,
}

abbrev both : List ℕ
both = 1 ∷ 2 ∷ []

abbrev ten_to_25 : IndexSummary
ten_to_25 = record { cols = record ten_to_twenty { max = some (25 ∷ []) } ∷ no_values ∷ [] }

widen_25 :
    widen_summary ints two_cols (map (attribute_of int_table (row_of 25)) both)
    ≡ known (true, ten_to_25)
unfolding widen_summary datum_to_text text_to_datum datum_cmp btree_cmp_proc read_int call_ints
    compare_ints is_utf8 has_nul
widen_25 = refl

widen_column-WidensColumn_example :
    Ensures
      (WidensTo int_orders ten_to_twenty (some 25))
      (widen_column ints ten_to_twenty 1 0 (some 25))
widen_column-WidensColumn_example = widen_column-WidensColumn int_orders ten_to_twenty (some 25)

widen_summary-WidensSummary_example :
    WidensSummary int_table (row_of 25) both two_cols true ten_to_25
widen_summary-WidensSummary_example =
    widen_summary-WidensSummary int_table (row_of 25) both two_cols true ten_to_25 widen_25
