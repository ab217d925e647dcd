-- ===== src/Prune/Planner/Nested.antt =====
-- Planner invocations within planning (src/prune_hook.rs, `table_range_planner_hook`): what a nested
-- invocation does to the tables, and planning that leaves no call record behind.
use pg_table_range.Base.{
  ℕ, ◌+◌, ◌-◌, ◌≡◌, refl, sym, ap, subst, ◌∙◌, length, none, Option, Attempt, Ordering, [], Result,
  arith, ◌==◌, false,
}
use pg_table_range.Prune.Clause.{CompareOp}
use pg_table_range.Prune.Planner.{
  PlanState, clear_cache, dangling, after_free, enter, leave, planner_hook, Planning, finish, fail,
  compare_step, parse_step, op_step, nested,
}

pub enter-nested :
    (st : PlanState) → (st.depth == 0) ≡ false → enter st ≡ record st { depth = st.depth + 1 }
enter-nested st e = rw e refl

pub leave-nested :
    (st : PlanState) → (st.depth - 1 == 0) ≡ false → leave st ≡ record st { depth = st.depth - 1 }
leave-nested st e = rw e refl

abbrev pub empty_at : ℕ → PlanState
empty_at d = record {
  summaries = [];
  am_oid = none;
  depth = d;
  fmgr_memo = [];
  input_info_memo = [];
  op_memo = [];
}

pub enter-outermost : (st : PlanState) → st.depth ≡ 0 → enter st ≡ empty_at 1
unfolding clear_cache
enter-outermost st e = rw e refl

pub leave-outermost : (st : PlanState) → st.depth ≡ 1 → leave st ≡ empty_at 0
unfolding clear_cache
leave-outermost st e = rw e refl

abbrev pub left_from : Result ℕ × PlanState → Result ℕ × PlanState
left_from r = (r.0, leave r.1)

-- Planning that makes no call through a call record.
unfoldable pub NoCalls : Planning → Type 0
NoCalls (finish plan) = Unit
NoCalls (fail e) = Unit
NoCalls (compare_step cmpproc collation a b k) = ⊥
NoCalls (parse_step typ text k) = ⊥
NoCalls (op_step opno commuted k) = (o : Option CompareOp) → NoCalls (k o)
NoCalls (nested p k) = NoCalls p × ((r : Result ℕ) → NoCalls (k r))

-- Each planner invocation within it is such planning.
unfoldable pub NestsNoCalls : Planning → Type 0
NestsNoCalls (finish plan) = Unit
NestsNoCalls (fail e) = Unit
NestsNoCalls (compare_step cmpproc collation a b k) = (o : Attempt Ordering) → NestsNoCalls (k o)
NestsNoCalls (parse_step typ text k) = (d : Attempt ℕ) → NestsNoCalls (k d)
NestsNoCalls (op_step opno commuted k) = (o : Option CompareOp) → NestsNoCalls (k o)
NestsNoCalls (nested p k) = NoCalls p × ((r : Result ℕ) → NestsNoCalls (k r))

pub NoCalls-NestsNoCalls : (p : Planning) → NoCalls p → NestsNoCalls p
unfolding NoCalls NestsNoCalls
NoCalls-NestsNoCalls (finish plan) h = tt
NoCalls-NestsNoCalls (fail e) h = tt
NoCalls-NestsNoCalls (compare_step c l a b k) h = absurd h
NoCalls-NestsNoCalls (parse_step typ text k) h = absurd h
NoCalls-NestsNoCalls (op_step o c k) h = λ r. NoCalls-NestsNoCalls (k r) (h r)
NoCalls-NestsNoCalls (nested p k) h = (h.0, λ r. NoCalls-NestsNoCalls (k r) (h.1 r))

-- Nothing dangles if no call record has been added.
pub after_free-same :
    (reuse : ℕ → ℕ) (before after : PlanState)
    → after.fmgr_memo ≡ before.fmgr_memo
    → after_free reuse before after ≡ after
after_free-same reuse before after e =
    ap (λ n. record after { fmgr_memo = dangling reuse n after.fmgr_memo }) gap
  where
    gap : length after.fmgr_memo - length before.fmgr_memo ≡ 0
    gap = rw e (omega arith)

pub nested-memo :
    (planner : PlanState → Result ℕ × PlanState) (st : PlanState)
    → (st.depth == 0) ≡ false
    → (planner (record st { depth = st.depth + 1 })).1.depth ≡ st.depth + 1
    → (planner (record st { depth = st.depth + 1 })).1.fmgr_memo ≡ st.fmgr_memo
    → (planner_hook planner st).1.fmgr_memo ≡ st.fmgr_memo
unfolding planner_hook
nested-memo planner st e depth memo =
    subst (λ z. (leave (planner z).1).fmgr_memo ≡ st.fmgr_memo) (sym (enter-nested st e))
      (ap (λ (z : PlanState). z.fmgr_memo)
          (leave-nested (planner (record st { depth = st.depth + 1 })).1
            (rw depth (ground (arith, e))))
        ∙ memo)
