-- ===== src/Prune/Planner/Tests.antt =====
-- Tests of the planner hook: from stale tables, a plan that compares twice and plans a nested query.
use pg_table_range.Base.{
  ℕ, ◌+◌, Bool, Ordering, Attempt, known, ok, ◌==◌, if◌then◌else◌, ◌≡◌, refl, true, false, none,
  some, List, [], ◌∷◌, Option, from_server, Result,
}
use pg_table_range.Bytes.{Bytes}
use pg_table_range.Prune.Planner.{
  PlanState, clear_cache, find_key, fmgr_cached, cmp_cached, planner_hook, Planning, finish, fail,
  compare_step, parse_step, op_step, nested, run,
}
use pg_table_range.Server.{datum_cmp, i32_sign, oid_function_call2}
use pg_table_range.Cache.{get}
use pg_table_range.Metapage.{Page}
use pg_table_range.Prune.Planner.Summaries.{IndexOptInfo, load_summary}
use pg_table_range.Prune.Planner.Summaries.Current.{
  IsCoherent, IsCurrent, Loads, load_summary-IsCurrent,
}
use pg_table_range.Samples.{small_blocks}
use pg_table_range.Samples.Inserts.{start, session}
use pg_table_range.Samples.Plans.{part}
use pg_table_range.Prune.Relation.{pathlist_hook}
use pg_table_range.Prune.Planner.Memo.{Faithful}
use pg_table_range.Prune.Planner.Hook.{Runs, hook_run, loaded_cols, hook_run-pathlist_hook}
use pg_table_range.Prune.Planner.Nested.{NoCalls, NestsNoCalls}
use pg_table_range.Prune.Planner.Refines.{direct, planner_hook-direct}
use pg_table_range.Samples.Ints.{ints, read_int, call_ints, compare_ints, larger}

-- A table entry that is wrong for this plan.
abbrev stale : PlanState
stale = record {
  summaries = (5, []) ∷ [];
  am_oid = some 3;
  depth = 0;
  fmgr_memo = (1, 2) ∷ [];
  input_info_memo = (1, (9, 9)) ∷ [];
  op_memo = ((3, true), none) ∷ [];
}

abbrev input : ℕ → Bytes → ℕ → Result ℕ
input finfo text ioparam = read_int text

abbrev planning : Planning
planning = compare_step 1 0 5 7 λ o.
    nested (op_step 3 true λ op. nested (finish 8) λ r. fail (from_server 4))
      λ r. parse_step 1 (7 ∷ []) λ d. compare_step 1 0 7 5 λ o'. finish 9

-- A freed call record is another function's.
abbrev reuse : ℕ → ℕ
reuse p = p + 1

planning-NestsNoCalls : NestsNoCalls planning
unfolding NestsNoCalls NoCalls
planning-NestsNoCalls = λ o. ((λ op. (tt, λ r. tt)), λ r. λ d. λ o'. tt)

planner_hook-direct_example :
    planner_hook (run ints input reuse planning) stale
    ≡ (direct ints input planning, clear_cache stale)
planner_hook-direct_example =
    planner_hook-direct ints input reuse (λ f p text. refl) planning stale refl
      planning-NestsNoCalls

-- Without the condition the plan may go by what a freed block holds: a comparison after one that was
-- made within a nested invocation calls function 2 in place of function 1, and takes another branch.
abbrev is_less : Attempt Ordering → Bool
is_less (known Ordering.lt) = true
is_less _ = false

abbrev dangles : Planning
dangles =
    nested (compare_step 1 0 5 7 λ o. finish 8)
      λ r. compare_step 1 0 5 7 λ o. if is_less o then finish 9 else finish 10

direct-dangles : direct ints input dangles ≡ ok 9
unfolding direct datum_cmp oid_function_call2 i32_sign call_ints compare_ints
direct-dangles = refl

run-dangles : (planner_hook (run ints input reuse dangles) stale).0 ≡ ok 10
unfolding planner_hook run clear_cache cmp_cached fmgr_cached find_key call_ints compare_ints
    i32_sign larger
run-dangles = refl

-- Index 16 is the sample's, on relation 17.
abbrev opened : ℕ → Option (List Page)
opened i = if i == 16 then some (start []).shared.pages else none

abbrev indexes : ℕ → List (Option IndexOptInfo)
indexes relid =
    none
    ∷ some (record { indexoid = 5; relam = 403 })
    ∷ some (record { indexoid = 16; relam = 3 })
    ∷ []

fresh : PlanState
fresh = clear_cache stale

fresh-IsCurrent : IsCurrent small_blocks 3 opened indexes fresh
unfolding fresh clear_cache get
fresh-IsCurrent = record { am = λ oid q. cc; summaries = λ r cols q. cc }

empty-IsCoherent : IsCoherent small_blocks 3 opened []
unfolding get
empty-IsCoherent i cols q = cc

load_summary-IsCurrent_example :
    Loads small_blocks 3 opened indexes 17
      (load_summary small_blocks 3 opened 17 (indexes 17) fresh [])
load_summary-IsCurrent_example =
    load_summary-IsCurrent small_blocks 3 opened indexes 17 fresh [] fresh-IsCurrent
      empty-IsCoherent

-- A plan in which the comparison function was called before.
abbrev warm : PlanState
warm = record {
  summaries = [];
  am_oid = none;
  depth = 1;
  fmgr_memo = (1, 1) ∷ [];
  input_info_memo = [];
  op_memo = [];
}

warm-Faithful : Faithful ints input warm
warm-Faithful = record { fmgr = (refl, tt); inputs = tt; ops = tt }

hook_run-pathlist_hook_example :
    Runs small_blocks 3 opened
      (indexes 17)
      (λ g. ints)
      (λ g. input)
      ints
      input
      17
      (pathlist_hook
        (λ g. ints)
        session
        false
        true
        part
        (loaded_cols small_blocks 3 opened
          (indexes 17)
          (λ g. ints)
          (λ g. input)
          (λ g st. (refl, refl))
          (λ f p text. refl)
          17
          warm
          []))
      warm
      []
      (hook_run small_blocks 3 opened
        (indexes 17)
        (λ g. ints)
        (λ g. input)
        session
        false
        true
        part
        warm
        [])
hook_run-pathlist_hook_example =
    hook_run-pathlist_hook small_blocks 3 opened (indexes 17) (λ g. ints) (λ g. input)
      (λ g st. (refl, refl)) (λ f p text. refl) session false true part warm [] warm-Faithful
