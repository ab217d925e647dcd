-- ===== src/Coherence/Tests.antt =====
-- Tests of the caches: backend 1 caches the old summary, backend 0 inserts 25 and commits, and backend 1
-- receives the messages and plans.
use pg_table_range.Base.{
  ◌≡◌, refl, sym, true, All, false, Option, List, none, some, [], ◌∷◌, ◌++◌, known, arith,
}
use mathlib.Core.Option.{some-injective}
use pg_table_range.Bytes.{has_nul}
use pg_table_range.Summary.{find_col}
use pg_table_range.Server.{default_btree_family, text_to_datum, datum_cmp, oid_function_call2}
use pg_table_range.StableIo.{with_stable_io}
use pg_table_range.Cache.{note_widened, relcache_callback, get, put, remove}
use pg_table_range.Cache.Laws.{deliver}
use pg_table_range.Prune.{attnum_of, proves_prune}
use pg_table_range.Prune.Clause.{
  compare_op, clause_proves_prune, Node, op_expr, cons, nil, const, var,
}
use pg_table_range.Prune.Planner.{PlanState}
use pg_table_range.Prune.Planner.Summaries.{
  IndexOptInfo, first_index, table_range_am_oid, stored_cols, read_index_summary, cols_or_empty,
}
use pg_table_range.Bytes.{Bytes}
use pg_table_range.Base.{ap, ◌∙◌, ℕ, Result, Bool}
use pg_table_range.Cache.{Cache}
use pg_table_range.Coherence.{opened}
use pg_table_range.Prune.Planner.Summaries.Reads.{load_summary-first}
use pg_table_range.Prune.Planner.Memo.{Faithful}
use pg_table_range.Prune.Planner.Evaluate.{rows_or_empty}
use pg_table_range.Prune.Planner.Hook.{hook_run, hook_run-pathlist_hook}
use pg_table_range.Prune.Relation.{PlannedRel, pathlist_hook}
use pg_table_range.Prune.Clause.Tree.{IsTrue}
use pg_table_range.Prune.Clause.Truth.{LeafTrue}
use pg_table_range.Prune.Relation.Rows.{NoMatch}
use pg_table_range.Insert.Concurrent.{System, set_pc, plan_of, outside, at_read, begin, decide, win}
use pg_table_range.Coherence.{
  Cluster, set_at, all_of, Turn, Reach, here, next, work, end_command, commit, receive, load,
  after_turn, plan_read,
}
use pg_table_range.Coherence.Planned.{
  Started, Serves, IsIndexOf, plan_read-Serves, hook_run-NoMatch,
}
use pg_table_range.Bytes.{is_utf8}
use pg_table_range.Codec.{serialize, deserialize}
use pg_table_range.Metapage.{read_blob}
use pg_table_range.Fitting.{encode_fitting}
use pg_table_range.Widen.{widen_summary}
use pg_table_range.Insert.{plan_insert, finished}
use pg_table_range.Insert.Swap.{swap_blob-widened}
use pg_table_range.Coherence.Stale.{Missed, Reach-Missed}
use pg_table_range.Server.{datum_to_text, btree_cmp_proc}
use pg_table_range.Samples.{two_cols, small_blocks, small_blocks_laws}
use pg_table_range.Samples.Inserts.{
  session, both, before, after, start, start-Covered, reading, swapping, won, swap_won, done,
  read_start, plan_25,
}
use pg_table_range.Samples.Ints.{ints, int_table, row_of, read_int, call_ints, compare_ints}
use pg_table_range.Samples.Operators.{int_operators, expressions_of, value_in}
use pg_table_range.Samples.Plans.{part, clause-Typed, widened_cols, read_won}

abbrev fresh_plan : PlanState
fresh_plan = record {
  summaries = [];
  am_oid = none;
  depth = 1;
  fmgr_memo = [];
  input_info_memo = [];
  op_memo = [];
}

-- The access method has the Oid 900, the index 16.
abbrev indexlist : List (Option IndexOptInfo)
indexlist =
    none
    ∷ some (record { indexoid = 5; relam = 403 })
    ∷ some (record { indexoid = 16; relam = 900 })
    ∷ []

abbrev cold : Cluster
cold = record {
  inserts = start [];
  current = λ k. [];
  prior = λ k. [];
  queue = λ j. [];
  cache = λ j. [];
  written = λ k. [];
  committed = [];
  exposed = λ k. [];
  uncounted = [];
  dropped = false;
}

cold-Started : Started int_table (λ g. ints) small_blocks (λ i. session) both 16 17 cold
unfolding get
cold-Started = record {
  idle = λ i. refl;
  covered = start-Covered;
  cold = λ j. refl;
  all_committed = refl;
  none_open = λ k. refl;
}

abbrev Moves : System → System → Type 0
Moves = Turn int_table (λ g. ints) small_blocks (λ i. session) both 16 17

abbrev turn_begin : Moves (start []) (reading [])
turn_begin = begin 0 (row_of 25) refl

abbrev turn_decide : Moves (reading []) (swapping [])
turn_decide = decide 0 (row_of 25) before after refl (rw read_start plan_25)

abbrev turn_win : Moves (swapping []) (done [])
turn_win = win 0 (row_of 25) before after won refl swap_won

abbrev loaded : Cluster
loaded = record cold {
  cache =
      set_at cold.cache 1
        (plan_read int_table (λ g. ints) small_blocks (λ i. session) both 16 17 900 (λ k. none) cold
          1 fresh_plan indexlist).2;
}

abbrev turned_begin : Cluster
turned_begin =
    after_turn int_table (λ g. ints) small_blocks (λ i. session) both 16 17 loaded turn_begin [] []

abbrev turned_decide : Cluster
turned_decide =
    after_turn int_table (λ g. ints) small_blocks (λ i. session) both 16 17 turned_begin turn_decide
      [] []

abbrev turned_win : Cluster
turned_win =
    after_turn int_table (λ g. ints) small_blocks (λ i. session) both 16 17 turned_decide turn_win
      (row_of 25 ∷ []) []

abbrev ended : Cluster
ended = record turned_win {
  cache = set_at turned_win.cache 0 (deliver (turned_win.current 0) (turned_win.cache 0));
  prior = set_at turned_win.prior 0 (all_of turned_win 0);
  current = set_at turned_win.current 0 [];
}

abbrev committed : Cluster
committed = record ended {
  queue = λ j. ended.queue j ++ all_of ended 0;
  prior = set_at ended.prior 0 [];
  current = set_at ended.current 0 [];
  committed = ended.written 0 ++ ended.committed;
  written = set_at ended.written 0 [];
  uncounted = ended.exposed 0 ++ ended.uncounted;
  exposed = set_at ended.exposed 0 [];
}

abbrev half : Cluster
half = record committed {
  queue = set_at committed.queue 1 (17 ∷ []);
  cache = set_at committed.cache 1 (relcache_callback 16 (committed.cache 1));
}

abbrev received : Cluster
received = record half {
  queue = set_at half.queue 1 [];
  cache = set_at half.cache 1 (relcache_callback 17 (half.cache 1));
}

history :
    Reach int_table (λ g. ints) small_blocks (λ i. session) both 16 17 900 (λ k. none) cold received
unfolding note_widened
history =
    next
      (next
        (next
          (next
            (next
              (next (next (next here (load 1 fresh_plan indexlist)) (work turn_begin tt))
                (work turn_decide tt))
              (work turn_win tt))
            (end_command 0))
          (commit 0 refl))
        (receive 1 16 (17 ∷ []) refl))
      (receive 1 17 [] refl)

only_index :
    IsIndexOf int_table
      (λ g. ints)
      small_blocks
      (λ i. session)
      both
      16
      17
      small_blocks_laws
      (λ g st. refl)
      900
      (λ k. none)
      received
      fresh_plan
      indexlist
unfolding first_index table_range_am_oid
only_index i h = some-injective i 16 (sym h)

seen :
    (plan_read int_table
      (λ g. ints)
      small_blocks
      (λ i. session)
      both
      16
      17
      900
      (λ k. none)
      received
      1
      fresh_plan
      indexlist).0
    ≡ widened_cols
unfolding read_index_summary first_index table_range_am_oid stored_cols cols_or_empty get put remove
    relcache_callback
seen = rw read_won refl

plan_read-Serves_example :
    Serves int_table
      (λ g. ints)
      small_blocks
      (λ i. session)
      both
      16
      17
      received
      1
      (plan_read int_table
        (λ g. ints)
        small_blocks
        (λ i. session)
        both
        16
        17
        900
        (λ k. none)
        received
        1
        fresh_plan
        indexlist).0
unfolding note_widened
plan_read-Serves_example =
    plan_read-Serves int_table (λ g. ints) small_blocks (λ i. session) both 16 17 small_blocks_laws
      (λ g st. refl) 900 (λ k. none) 1 fresh_plan indexlist cold-Started history refl refl
      only_index

pruned :
    pathlist_hook
      (λ g. ints)
      session
      false
      true
      part
      (plan_read int_table
        (λ g. ints)
        small_blocks
        (λ i. session)
        both
        16
        17
        900
        (λ k. none)
        received
        1
        fresh_plan
        indexlist).0
    ≡ true
unfolding pathlist_hook with_stable_io clause_proves_prune attnum_of compare_op default_btree_family
    find_col proves_prune text_to_datum datum_cmp read_int call_ints compare_ints has_nul
pruned = rw seen refl

abbrev input : ℕ → Bytes → ℕ → Result ℕ
input finfo text ioparam = read_int text

abbrev ran : Bool × PlanState × Cache
ran =
    hook_run small_blocks 900
      (opened int_table (λ g. ints) small_blocks (λ i. session) both 16 17 900 (λ k. none) received)
      indexlist (λ g. ints) (λ g. input) session false true part fresh_plan (received.cache 1)

fresh_plan-Faithful : Faithful ints input fresh_plan
fresh_plan-Faithful = record { fmgr = tt; inputs = tt; ops = tt }

nothing_loaded : get 17 fresh_plan.summaries ≡ none
unfolding get
nothing_loaded = refl

ran_prunes : ran.0 ≡ true
ran_prunes =
    (hook_run-pathlist_hook small_blocks 900
      (opened int_table (λ g. ints) small_blocks (λ i. session) both 16 17 900 (λ k. none) received)
      indexlist (λ g. ints) (λ g. input) (λ g st. (refl, refl)) (λ f p text. refl) session false
      true part fresh_plan (received.cache 1) fresh_plan-Faithful).same
    ∙ ap (λ z. pathlist_hook (λ g. ints) session false true part (rows_or_empty z))
        (load_summary-first small_blocks 900
          (opened int_table (λ g. ints) small_blocks (λ i. session) both 16 17 900 (λ k. none)
            received)
          17 indexlist fresh_plan (received.cache 1) nothing_loaded)
    ∙ pruned

hook_run-NoMatch_example :
    NoMatch int_table int_operators (λ g. ints) (λ g st. refl) expressions_of part (row_of 25 ∷ [])
hook_run-NoMatch_example =
    hook_run-NoMatch int_table (λ g. ints) small_blocks (λ i. session) both 16 17 small_blocks_laws
      (λ g st. refl) 900 (λ k. none) int_operators expressions_of (λ g. input) input (λ g st. refl)
      (λ f p text. refl) 1 fresh_plan indexlist session false true part cold-Started history refl
      refl only_index fresh_plan-Faithful nothing_loaded clause-Typed ran_prunes

-- Backend 0 has inserted 25 and is still in its transaction; backend 1 has cached the old columns, and
-- backend 2 inserts 25 as well.
abbrev before_commit : Cluster
before_commit = record cold {
  inserts = record {
    shared = won;
    pc = set_pc (λ i. outside) 2 (at_read (row_of 25));
    inserted = row_of 25 ∷ [];
  };
  current = set_at cold.current 0 (16 ∷ 17 ∷ []);
  cache = set_at cold.cache 1 ((16, two_cols.cols) ∷ []);
  written = set_at cold.written 0 (row_of 25 ∷ []);
}

read_blob-won : read_blob small_blocks won.pages ≡ some after
read_blob-won =
    (swap_blob-widened small_blocks before after small_blocks_laws 16 17 (start []).shared won
      (unfold serialize in omega arith) swap_won).1

plan_finished :
    plan_of int_table (λ g. ints) small_blocks (λ i. session) both 16 17 2 (row_of 25) won.pages
    ≡ known finished
unfolding plan_insert serialize deserialize datum_to_text text_to_datum datum_cmp btree_cmp_proc
    read_int call_ints compare_ints is_utf8 has_nul with_stable_io widen_summary encode_fitting
plan_finished = rw read_blob-won refl

-- `25 = column`.
abbrev equals_25 : Node
equals_25 = op_expr 3 0 (cons (const 1 (some 25)) (cons (var 1 1) nil))

abbrev part_25 : PlannedRel
part_25 = record part { clauses = equals_25 ∷ [] }

pruned_25 : pathlist_hook (λ g. ints) session false true part_25 two_cols.cols ≡ true
unfolding pathlist_hook with_stable_io clause_proves_prune attnum_of compare_op default_btree_family
    find_col proves_prune text_to_datum datum_cmp read_int call_ints compare_ints has_nul
pruned_25 = refl

holds_25 : All (IsTrue (LeafTrue ints (expressions_of (row_of 25)))) part_25.clauses
unfolding IsTrue LeafTrue expressions_of value_in oid_function_call2 call_ints
holds_25 = ((1, refl, λ e. cc), tt)

Reach-Missed_example :
    Missed int_table
      (λ g. ints)
      small_blocks
      (λ i. session)
      both
      16
      17
      900
      (λ k. none)
      session
      false
      true
      part_25
      expressions_of
      before_commit
      2
      1
      (row_of 25)
unfolding get
Reach-Missed_example =
    Reach-Missed int_table (λ g. ints) small_blocks (λ i. session) both 16 17 900 (λ k. none)
      session false true part_25 expressions_of before_commit 2 1 (row_of 25) two_cols.cols refl
      plan_finished refl pruned_25 holds_25 refl refl
