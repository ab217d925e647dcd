-- ===== src/Samples/Plans.antt =====
-- A plan for the tests: a partition with a clause that its summary excludes once 25 is inserted.
use pg_table_range.Base.{◌≡◌, refl, true, some, List, [], ◌∷◌, All, arith}
use pg_table_range.Bytes.{is_utf8}
use pg_table_range.Summary.{ColSummary}
use pg_table_range.Codec.{serialize, deserialize}
use pg_table_range.Metapage.{read_blob, read_summary}
use pg_table_range.Insert.Swap.{swap_blob-widened}
use pg_table_range.Prune.Clause.{
  Node, bool_expr, op_expr, var, const, relabel, other_node, nil, cons, and_expr, strip_relabel,
}
use pg_table_range.Prune.Clause.Truth.{TypedLeaf}
use pg_table_range.Prune.Relation.{PlannedRel, other_member_rel}
use pg_table_range.Prune.Relation.Rows.{TypedClause}
use pg_table_range.Samples.{ten_to_twenty, no_values, small_blocks, small_blocks_laws}
use pg_table_range.Samples.Inserts.{before, after, start, won, swap_won}
use pg_table_range.Samples.Ints.{int_table}
use pg_table_range.Samples.Operators.{int_operators}

-- `something AND 30 = column`.
abbrev pub clause : Node
clause = bool_expr and_expr (
    cons other_node
      (cons (op_expr 3 0 (cons (const 1 (some 30)) (cons (relabel (var 1 1)) nil))) nil))

abbrev pub part : PlannedRel
part = record { kind = other_member_rel; is_table = true; relid = 17; clauses = clause ∷ [] }

pub clause-Typed : All (TypedClause int_table int_operators) part.clauses
unfolding TypedClause TypedLeaf strip_relabel int_operators
clause-Typed = (((tt, ((refl, refl), tt))), tt)

abbrev pub widened_cols : List ColSummary
widened_cols = record ten_to_twenty { max = some (25 ∷ []) } ∷ no_values ∷ []

pub read_won : read_summary small_blocks won.pages ≡ some (record { cols = widened_cols })
unfolding read_summary deserialize serialize is_utf8
read_won = rw swapped refl
  where
    swapped : read_blob small_blocks won.pages ≡ some after
    swapped =
        (swap_blob-widened small_blocks before after small_blocks_laws 16 17 (start []).shared won
          (omega arith) swap_won).1
