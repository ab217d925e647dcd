-- ===== src/Prune/Relation/Tests.antt =====
-- Tests of the whole way from the build to the plan: 10 to 20 are scanned, 25 is inserted, and
-- `column = 30` leaves the partition out.
use pg_table_range.Base.{◌≡◌, refl, true, false, [], ◌∷◌}
use pg_table_range.Bytes.{has_nul}
use pg_table_range.Summary.{find_col}
use pg_table_range.Metapage.{read_summary}
use pg_table_range.Server.{default_btree_family, text_to_datum, datum_cmp}
use pg_table_range.StableIo.{with_stable_io}
use pg_table_range.Prune.{attnum_of, proves_prune}
use pg_table_range.Prune.Clause.{compare_op, clause_proves_prune}
use pg_table_range.Prune.Relation.{pathlist_hook}
use pg_table_range.Prune.Relation.Rows.{NoMatch, cols_of, pathlist_hook-NoMatch}
use pg_table_range.Build.Tests.{rows, batches, index, built, am_build-rows}
use pg_table_range.Samples.{small_blocks, small_blocks_laws, blank_page}
use pg_table_range.Samples.Inserts.{session, both, start, done, run}
use pg_table_range.Samples.Plans.{part, clause-Typed, read_won}
use pg_table_range.Samples.Ints.{ints, int_table, row_of, read_int, call_ints, compare_ints}
use pg_table_range.Samples.Operators.{int_operators, expressions_of}

pruned :
    pathlist_hook
      (λ g. ints)
      session
      false
      true
      part
      (cols_of int_table int_operators (read_summary small_blocks (done rows).shared.pages))
    ≡ true
unfolding pathlist_hook with_stable_io clause_proves_prune attnum_of compare_op default_btree_family
    find_col proves_prune text_to_datum datum_cmp read_int call_ints compare_ints has_nul
pruned = rw read_won refl

pathlist_hook-NoMatch_example :
    NoMatch int_table int_operators
      (λ g. ints)
      (λ g st. refl)
      expressions_of
      part
      (row_of 25 ∷ rows)
pathlist_hook-NoMatch_example =
    pathlist_hook-NoMatch int_table int_operators (λ g. ints) (λ g st. refl) expressions_of both
      ints.call_output ints.call_input batches index session refl small_blocks small_blocks_laws
      rows 3 (blank_page ∷ []) built (λ i. session) 16 17 (start rows) (done rows) session false
      true part am_build-rows refl refl (λ i. refl) (run rows) clause-Typed pruned
