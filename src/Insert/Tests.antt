-- ===== src/Insert/Tests.antt =====
-- Tests of `aminsert`: one backend inserts 25 into an index whose metapage holds the sample.
use pg_table_range.Base.{◌≡◌, some, [], ◌∷◌, map, refl, arith, Ensures}
use pg_table_range.Codec.{serialize}
use pg_table_range.Metapage.{read_blob, read_summary}
use pg_table_range.Widen.Row.{attribute_of}
use pg_table_range.Insert.{plan_insert}
use pg_table_range.Insert.Improves.{Right, plan_insert-Right}
use pg_table_range.Widen.Decides.{Decides}
use pg_table_range.Insert.Decides.{plan_insert-Decides}
use pg_table_range.Insert.Swap.{swap_blob-widened}
use pg_table_range.Insert.Concurrent.Progress.{Ended, Reach-Ended}
use pg_table_range.Insert.Concurrent.{System, set_pc, at_read, Covered, Reach-Covered}
use pg_table_range.Samples.{small_blocks, small_blocks_laws}
use pg_table_range.Samples.Ints.{ints, int_table, row_of}
use pg_table_range.Samples.Inserts.{
  start-Covered, session, both, before, after, start, won, swap_won, done, run,
}

Reach-Covered_example :
    Covered int_table
      (λ g. ints)
      small_blocks
      (λ i. session)
      both
      16
      17
      (read_summary small_blocks (done []).shared.pages)
      (row_of 25 ∷ [])
Reach-Covered_example =
    Reach-Covered int_table (λ g. ints) small_blocks (λ i. session) both 16 17 small_blocks_laws
      (λ g st. refl) (λ i. refl) start-Covered (run [])

plan_insert-Right_example :
    Ensures
      (Right int_table
        (λ g. ints)
        (λ g st. refl)
        1024
        (omega arith)
        session
        both
        (row_of 25)
        (some before))
      (plan_insert
        (λ g. ints)
        1024
        session
        (map (attribute_of int_table (row_of 25)) both)
        (some before))
plan_insert-Right_example =
    plan_insert-Right int_table (λ g. ints) (λ g st. refl) 1024 (omega arith) session both
      (row_of 25) (some before)

swap_blob-widened_example :
    (read_blob small_blocks (start []).shared.pages ≡ some before)
    × (read_blob small_blocks won.pages ≡ some after)
unfolding serialize
swap_blob-widened_example =
    swap_blob-widened small_blocks before after small_blocks_laws 16 17 (start []).shared won
      (omega arith) swap_won

plan_insert-Decides_example : Decides (
    plan_insert
      (λ g. ints)
      1024
      session
      (map (attribute_of int_table (row_of 25)) both)
      (some before))
plan_insert-Decides_example =
    plan_insert-Decides (λ g. ints) 1024 session (map (attribute_of int_table (row_of 25)) both)
      (some before)

abbrev at_head : System
at_head = record (start []) { pc = set_pc (start []).pc 0 (at_read (row_of 25)) }

Reach-Ended_example :
    Ended int_table
      (λ g. ints)
      (λ g st. refl)
      small_blocks
      small_blocks_laws
      (λ i. session)
      both
      16
      17
      0
      (row_of 25)
      at_head
Reach-Ended_example =
    Reach-Ended int_table (λ g. ints) (λ g st. refl) small_blocks small_blocks_laws (λ i. session)
      both 16 17 0 (row_of 25) at_head refl
