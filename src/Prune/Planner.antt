-- ===== src/Prune/Planner.antt =====
-- The state of one planner invocation (src/prune_hook.rs: the thread-local tables, the memoised calls
-- and `table_range_planner_hook`). A table is an association list; the counter is far below the bound
-- of a `u32`.
pub mod Memo
pub mod Nested
pub mod Refines
pub mod Evaluate
pub mod Hook
pub mod Summaries
mod Tests
use pg_table_range.Base.{
  ℕ, zero, suc, ◌+◌, ◌-◌, length, Bool, true, false, Ordering, Option, none, some, List, ◌∷◌, ◌==◌,
  ◌&&◌, if◌then◌else◌, Error, Result, ok, err, or_raise, Attempt, known, unknown, raised, ◌>>=◌, [],
}
use pg_table_range.Bytes.{Bytes, has_nul}
use pg_table_range.Server.{Server, invalid_oid, i32_sign}
use pg_table_range.Cache.{Cache}
use pg_table_range.Prune.Clause.{CompareOp, compare_op}

-- The key of the table of operators: the operator, and whether the column is its right operand.
abbrev pub OpKey : Type 0
OpKey = ℕ × Bool

pub record PlanState : Type 0 where
  pub summaries : Cache
  pub am_oid : Option ℕ
  pub depth : ℕ
  pub fmgr_memo : List (ℕ × ℕ)
  pub input_info_memo : List (ℕ × (ℕ × ℕ))
  pub op_memo : List (OpKey × Option CompareOp)

pub find_key : {K A : Type 0} → (K → Bool) → List (K × A) → Option A
find_key test [] = none
find_key test ((k, a) ∷ rest) = if test k then some a else find_key test rest

pub clear_cache : PlanState → PlanState
clear_cache st = record {
  summaries = [];
  am_oid = none;
  depth = st.depth;
  fmgr_memo = [];
  input_info_memo = [];
  op_memo = [];
}

-- What a memoised call gives: its outcome, and the state that it leaves, on an ERROR too.
abbrev pub Answer : Type 0 → Type 0
Answer A = Attempt A × PlanState

-- The rest of a call, which touches no table.
abbrev pub and_then : {A B : Type 0} → Answer A → (A → Attempt B) → Answer B
and_then (m, st) f = (m >>= f, st)

abbrev pub same_op : ℕ → Bool → OpKey → Bool
same_op opno true (o, c) = (o == opno) && c
same_op opno false (o, c) = (o == opno) && (if c then false else true)

-- `enter`: the outermost invocation starts from empty tables.
abbrev pub enter : PlanState → PlanState
enter st =
    let entered = record st { depth = st.depth + 1 } in
    if st.depth == 0 then clear_cache entered else entered

-- The `finally` block.
abbrev pub leave : PlanState → PlanState
leave st =
    let left = record st { depth = st.depth - 1 } in
    if left.depth == 0 then clear_cache left else left

-- `planner` is the previous hook or the standard planner; it gives a plan, a pointer, or the ERROR.
pub planner_hook : (PlanState → Result ℕ × PlanState) → PlanState → Result ℕ × PlanState
unfolding clear_cache
planner_hook planner st = let (r, st') = planner (enter st) in (r, leave st')

-- What planning does with the tables: memoised calls in any order, and planner invocations within
-- it, each with what planning goes on to do for every outcome.
pub data Planning : Type 0 where
  finish : ℕ → Planning
  fail : Error → Planning
  compare_step : (cmpproc collation a b : ℕ) → (Attempt Ordering → Planning) → Planning
  parse_step : (typ : ℕ) (text : Bytes) → (Attempt ℕ → Planning) → Planning
  op_step : (opno : ℕ) (commuted : Bool) → (Option CompareOp → Planning) → Planning
  nested : Planning → (Result ℕ → Planning) → Planning

-- A call record lies in the memory of the planner invocation that has made it, and the table keeps its
-- address. Once a planner invocation within planning has ended, its memory is freed: the records that it
-- has added to the table, which come first, are then what `reuse` makes of them.
abbrev pub dangling : (ℕ → ℕ) → ℕ → List (ℕ × ℕ) → List (ℕ × ℕ)
dangling reuse zero memo = memo
dangling reuse (suc n) [] = []
dangling reuse (suc n) ((proc, p) ∷ memo) = (proc, reuse p) ∷ dangling reuse n memo

abbrev pub after_free : (ℕ → ℕ) → PlanState → PlanState → PlanState
after_free reuse before after = record after {
  fmgr_memo = dangling reuse (length after.fmgr_memo - length before.fmgr_memo) after.fmgr_memo;
}

-- `input` is `InputFunctionCall`, of a function's call record.
module _ (sv : Server) (input : ℕ → Bytes → ℕ → Result ℕ) where
  abbrev fmgr_looked_up : ℕ → PlanState → Result ℕ → Answer ℕ
  fmgr_looked_up proc st (ok p) = (known p, record st { fmgr_memo = (proc, p) ∷ st.fmgr_memo })
  fmgr_looked_up proc st (err e) = (raised e, st)

  abbrev fmgr_found : ℕ → PlanState → Option ℕ → Answer ℕ
  fmgr_found proc st (some p) = (known p, st)
  fmgr_found proc st none = fmgr_looked_up proc st (sv.fmgr_info proc)

  pub fmgr_cached : ℕ → PlanState → Answer ℕ
  unfolding find_key
  fmgr_cached proc st = fmgr_found proc st (find_key (λ k. k == proc) st.fmgr_memo)

  pub cmp_cached : ℕ → ℕ → ℕ → ℕ → PlanState → Answer Ordering
  unfolding fmgr_cached i32_sign
  cmp_cached cmpproc collation a b st =
      and_then (fmgr_cached cmpproc st)
        λ finfo. or_raise (sv.function_call2 finfo collation a b) >>= λ d. known (i32_sign d)

  abbrev input_found : ℕ → PlanState → Option (ℕ × ℕ) → (ℕ × ℕ) × PlanState
  input_found typ st (some v) = (v, st)
  input_found typ st none = (
    sv.type_input typ,
    record st { input_info_memo = (typ, sv.type_input typ) ∷ st.input_info_memo },
  )

  abbrev input_with : Bytes → (ℕ × ℕ) × PlanState → Answer ℕ
  input_with text ((infunc, ioparam), st) =
      if infunc == invalid_oid
      then (unknown, st)
      else if has_nul text
      then (unknown, st)
      else and_then (fmgr_cached infunc st) λ finfo. or_raise (input finfo text ioparam)

  pub parse_cached : ℕ → Bytes → PlanState → Answer ℕ
  unfolding fmgr_cached find_key
  parse_cached typ text st =
      input_with text (input_found typ st (find_key (λ k. k == typ) st.input_info_memo))

  abbrev op_found : ℕ → Bool → PlanState → Option (Option CompareOp) → Option CompareOp × PlanState
  op_found opno commuted st (some v) = (v, st)
  op_found opno commuted st none = (
    compare_op sv opno commuted,
    record st { op_memo = ((opno, commuted), compare_op sv opno commuted) ∷ st.op_memo },
  )

  pub compare_op_cached : ℕ → Bool → PlanState → Option CompareOp × PlanState
  unfolding compare_op find_key
  compare_op_cached opno commuted st =
      op_found opno commuted st (find_key (same_op opno commuted) st.op_memo)

  module _ (reuse : ℕ → ℕ) where
    pub run : Planning → PlanState → Result ℕ × PlanState
    unfolding planner_hook cmp_cached parse_cached compare_op_cached
    run (finish plan) st = (ok plan, st)
    run (fail e) st = (err e, st)
    run (compare_step cmpproc collation a b k) st =
        let (r, st') = cmp_cached cmpproc collation a b st in run (k r) st'
    run (parse_step typ text k) st = let (r, st') = parse_cached typ text st in run (k r) st'
    run (op_step opno commuted k) st =
        let (r, st') = compare_op_cached opno commuted st in run (k r) st'
    run (nested p k) st =
        let (r, st') = planner_hook (run p) st in run (k r) (after_free reuse st st')
