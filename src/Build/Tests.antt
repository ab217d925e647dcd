-- ===== src/Build/Tests.antt =====
-- Tests of the index build: a table of two attributes, the second always NULL.
use pg_table_range.Base.{
  All, ℕ, ◌≡◌, ◌>>=◌, refl, false, some, List, [], ◌∷◌, map, arith, known, Ensures, Option,
}
use pg_table_range.Bytes.{Bytes, is_utf8, has_nul}
use pg_table_range.Codec.{serialize}
use pg_table_range.Metapage.{put_blob, read_summary, write_summary, write_blob}
use pg_table_range.Fitting.{encode_fitting, max_blob_len}
use pg_table_range.Server.{datum_to_text, i32_sign, btree_cmp_proc}
use pg_table_range.Server.Types.{with_namespace, type_name_parts, qualified, qualified_type_name}
use pg_table_range.StableIo.{with_stable_io}
use pg_table_range.Widen.Row.{Row}
use pg_table_range.Insert.Concurrent.{Covered}
use pg_table_range.Summary.{make_unbounded}
use pg_table_range.Build.{
  plan_columns, plan_column, new_accumulator, min_max_of, index_build_range_scan, build_callback,
  fold_value, add_value, add_min_max, call_cmp, extent_of_batch,
}
use pg_table_range.Build.Tight.{IsTight, index_build_range_scan-IsTight}
use pg_table_range.Build.Bounded.{AllBounded, index_build_range_scan-IsBounded}
use pg_table_range.Build.Batch.{BatchExtents}
use pg_table_range.Build.Scan.{IsTypedIndex, index_column, tuple_of}
use pg_table_range.Build.Finish.{
  finish, finish_columns, finish_column, flushed, bounds_of, render, lost_bound, summary_of,
  build_leaf_summary,
}
use pg_table_range.Build.Index.{IndexBuild, am_build}
use pg_table_range.Build.Index.Covers.{Indexed, input_of, am_build-Indexed}
use pg_table_range.Build.Ends.{Ends}
use pg_table_range.Build.Index.Lifetime.{am_build-Reach}
use pg_table_range.Samples.{small_blocks, small_blocks_laws, blank_page, two_cols}
use pg_table_range.Samples.Inserts.{session, both, before, start, done, run}
use pg_table_range.Samples.Ints.{ints, int_table, row_of, compare_ints, call_ints}

abbrev pub rows : List Row
rows = row_of 20 ∷ row_of 10 ∷ row_of 15 ∷ []

no_batch :
    (tn : Bytes) (typ : ℕ) (ds : List ℕ) (r : Option Bytes)
    → extent_of_batch ints tn typ ds ≡ known r
    → ⊥
unfolding extent_of_batch
no_batch tn typ ds r = ground arith

pub batches : (n : ℕ) → BatchExtents (int_table.orders n).extent ints.call_output ints.call_input
batches n = record {
  same_text = λ text. refl;
  contains = λ tn w ds d e v run. absurd (no_batch tn 1 ds _ run);
  null = λ tn ds e v run. absurd (no_batch tn 1 ds _ run);
}

pub index : IsTypedIndex int_table both
unfolding is_utf8
index = record {
  attnums = (omega arith, (omega arith, tt));
  collations = λ n. omega arith;
  names = λ nsp name. refl;
}

summarised :
    build_leaf_summary
      (λ g. ints)
      session
      (map (index_column int_table) both)
      (some (map (tuple_of both) rows))
    ≡ known two_cols
unfolding build_leaf_summary plan_columns plan_column new_accumulator min_max_of is_utf8 has_nul
    qualified_type_name qualified type_name_parts with_namespace btree_cmp_proc
    index_build_range_scan build_callback fold_value add_value add_min_max call_cmp i32_sign
    call_ints compare_ints finish finish_columns finish_column flushed bounds_of render lost_bound
    summary_of make_unbounded datum_to_text with_stable_io
summarised = refl

abbrev pub built : IndexBuild
built = record {
  pages = put_blob small_blocks blank_page false before ∷ [];
  heap_tuples = 3;
  index_tuples = 0;
}

pub am_build-rows :
    am_build (λ g. ints) session small_blocks (input_of int_table both rows 3) (blank_page ∷ [])
    ≡ known built
unfolding am_build write_summary write_blob encode_fitting serialize max_blob_len
am_build-rows = rw summarised refl

am_build-Indexed_example :
    Ensures
      (λ (b : IndexBuild). Indexed int_table both small_blocks rows b.pages)
      (am_build (λ g. ints) session small_blocks (input_of int_table both rows 3) (blank_page ∷ []))
am_build-Indexed_example =
    am_build-Indexed int_table both ints.call_output ints.call_input batches index (λ g. ints)
      (λ g st. refl) session refl small_blocks small_blocks_laws rows 3 (blank_page ∷ [])

am_build-Reach_example :
    Covered int_table
      (λ g. ints)
      small_blocks
      (λ i. session)
      both
      16
      17
      (read_summary small_blocks (done rows).shared.pages)
      (row_of 25 ∷ rows)
am_build-Reach_example =
    am_build-Reach int_table both ints.call_output ints.call_input batches index (λ g. ints)
      (λ g st. refl) session refl small_blocks small_blocks_laws rows 3 (blank_page ∷ []) built
      (λ i. session) 16 17 (start rows) (done rows) am_build-rows refl refl (λ i. refl) (run rows)

index_build_range_scan-IsBounded_example : Ensures (AllBounded ints) (
    plan_columns ints 0 (map (index_column int_table) both) >>= λ cs.
    index_build_range_scan ints (map (tuple_of both) rows) cs)
index_build_range_scan-IsBounded_example =
    index_build_range_scan-IsBounded ints (map (index_column int_table) both)
      (map (tuple_of both) rows)

index_build_range_scan-IsTight_example : Ensures (All (IsTight ints (map (tuple_of both) rows))) (
    plan_columns ints 0 (map (index_column int_table) both) >>= λ cs.
    index_build_range_scan ints (map (tuple_of both) rows) cs)
index_build_range_scan-IsTight_example =
    index_build_range_scan-IsTight ints (map (index_column int_table) both)
      (map (tuple_of both) rows)
