-- ===== src/Samples/Inserts.antt =====
-- A run of one insert, for the tests: 25 into an index whose metapage holds the sample.
use pg_table_range.Base.{
  ℕ, ◌≡◌, false, some, List, [], ◌∷◌, map, refl, arith, known, sym, inl, inr, Bool-cases, ◌==◌,
  ==_iff,
}
use pg_table_range.Bytes.{Bytes, u32_from_le_bytes, is_utf8, has_nul}
use pg_table_range.Codec.{serialize, deserialize}
use pg_table_range.Metapage.{put_blob, read_blob, read_summary, replace_blob_if, write_at}
use pg_table_range.Metapage.Blob.{page_blob-put_blob}
use pg_table_range.Server.{datum_to_text, text_to_datum, datum_cmp, btree_cmp_proc}
use pg_table_range.StableIo.{pos, Session, with_stable_io}
use pg_table_range.Fitting.{encode_fitting, max_blob_len}
use pg_table_range.Widen.{widen_summary}
use pg_table_range.Summary.{ColSummary, find_col}
use pg_table_range.Insert.Improves.{IsIndexed}
use pg_table_range.Widen.Row.{Row, attribute_of}
use pg_table_range.Insert.{swap, plan_insert, Shared, widened, swap_blob}
use pg_table_range.Insert.Concurrent.{
  outside, at_read, at_swap, System, set_pc, begin, decide, win, Covered, Reach, here, next,
}
use pg_table_range.Samples.{
  two_cols, two_cols-IsTyped, ten_to_twenty, no_values, small_blocks, small_blocks_laws, blank_page,
  init_contents, log_page,
}
use pg_table_range.Samples.Ints.{ints, int_table, row_of, read_int, call_ints, compare_ints}

abbrev pub session : Session
session = record {
  gucs = record { date_style = 3; interval_style = 2; extra_float_digits = pos 0 };
  outer = [];
  in_parallel_mode = false;
}

abbrev pub both : List ℕ
both = 1 ∷ 2 ∷ []

abbrev pub before : Bytes
before = serialize two_cols

abbrev pub after : Bytes
after = serialize (record { cols = record ten_to_twenty { max = some (25 ∷ []) } ∷ no_values ∷ [] })

-- One metapage, the sample in it; the rows are in the table already.
abbrev pub start : List Row → System
start rows = record {
  shared = record { pages = put_blob small_blocks blank_page false before ∷ []; messages = [] };
  pc = λ i. outside;
  inserted = rows;
}

pub plan_25 :
    plan_insert
      (λ g. ints)
      1024
      session
      (map (attribute_of int_table (row_of 25)) both)
      (some before)
    ≡ known (swap before after)
unfolding plan_insert serialize deserialize datum_to_text text_to_datum datum_cmp btree_cmp_proc
    read_int call_ints compare_ints is_utf8 has_nul with_stable_io widen_summary encode_fitting
plan_25 = refl

pub read_start :
    read_blob small_blocks (put_blob small_blocks blank_page false before ∷ []) ≡ some before
unfolding read_blob serialize max_blob_len
read_start =
    page_blob-put_blob small_blocks small_blocks_laws blank_page false before (omega arith)
      (omega arith)

abbrev pub reading : List Row → System
reading rows = record (start rows) { pc = set_pc (start rows).pc 0 (at_read (row_of 25)) }

abbrev pub swapping : List Row → System
swapping rows = record (reading rows) {
  pc = set_pc (reading rows).pc 0 (at_swap (row_of 25) before after);
}

pub won : Shared
won = (swap_blob 16 17 small_blocks (start []).shared before after).1

pub swap_won : swap_blob 16 17 small_blocks (start []).shared before after ≡ (widened, won)
unfolding won swap_blob serialize init_contents blank_page log_page replace_blob_if max_blob_len
    u32_from_le_bytes write_at
swap_won = refl

abbrev pub done : List Row → System
done rows = record (swapping rows) {
  shared = won;
  pc = set_pc (swapping rows).pc 0 outside;
  inserted = row_of 25 ∷ rows;
}

-- One backend inserts 25.
pub run :
    (rows : List Row)
    → Reach int_table (λ g. ints) small_blocks (λ i. session) both 16 17 (start rows) (done rows)
run rows =
    next
      (next (next here (begin 0 (row_of 25) refl))
        (decide 0 (row_of 25) before after refl (rw read_start plan_25)))
      (win 0 (row_of 25) before after won refl swap_won)

two_cols-IsIndexed : IsIndexed int_table both two_cols.cols
unfolding find_col
two_cols-IsIndexed n c h = elim (Bool-cases (1 == n)) [
  | inl e ↦ inl (sym ((==_iff 1 n).0 e))
  | inr e ↦ elim (Bool-cases (2 == n)) [ inl f ↦ inr (inl (sym ((==_iff 2 n).0 f))) | inr f ↦ cc ]
]

two_cols-collation : (n : ℕ) (c : ColSummary) → find_col n two_cols.cols ≡ some c → c.collation ≡ 0
unfolding find_col
two_cols-collation n c h = elim (Bool-cases (1 == n)) [
  | inl e ↦ ground arith
  | inr e ↦ elim (Bool-cases (2 == n)) [ inl f ↦ ground arith | inr f ↦ cc ]
]

read_summary-start : read_summary small_blocks (start []).shared.pages ≡ some two_cols
unfolding read_summary serialize deserialize is_utf8
read_summary-start = rw read_start refl

pub start-Covered :
    Covered int_table
      (λ g. ints)
      small_blocks
      (λ i. session)
      both
      16
      17
      (read_summary small_blocks (start []).shared.pages)
      []
start-Covered = rw read_summary-start (
  record {
    typed = two_cols-IsTyped;
    indexed = two_cols-IsIndexed;
    collations = two_cols-collation;
  },
  tt,
)
