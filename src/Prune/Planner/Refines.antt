-- ===== src/Prune/Planner/Refines.antt =====
-- A planner invocation with its tables refines one without (src/prune_hook.rs,
-- `table_range_planner_hook`).
use pg_table_range.Base.{
  ℕ, ◌+◌, ◌-◌, ◌≡◌, refl, sym, ap, subst, ◌∙◌, none, some, Bool, Option, Result, ok, err, or_raise,
  ◌>>=◌, arith, ◌==◌, false,
}
use pg_table_range.Bytes.{Bytes}
use pg_table_range.Server.{Server, datum_cmp, text_to_datum}
use pg_table_range.Prune.Clause.{CompareOp, compare_op}
use pg_table_range.Prune.Planner.{
  PlanState, clear_cache, cmp_cached, parse_cached, compare_op_cached, find_key, same_op, op_found,
  after_free, leave, planner_hook, Planning, finish, fail, compare_step, parse_step, op_step,
  nested, run,
}
use pg_table_range.Prune.Planner.Nested.{
  enter-nested, leave-nested, enter-outermost, leave-outermost, empty_at, left_from, NoCalls,
  NestsNoCalls, NoCalls-NestsNoCalls, after_free-same, nested-memo,
}
use pg_table_range.Prune.Planner.Memo.{
  Faithful, Answers, cmp_cached-Answers, compare_op_cached-Answers, parse_cached-Answers,
}

module _ (sv : Server) (input : ℕ → Bytes → ℕ → Result ℕ) where
  -- The same planning with direct calls, and no state.
  unfoldable pub direct : Planning → Result ℕ
  direct (finish plan) = ok plan
  direct (fail e) = err e
  direct (compare_step cmpproc collation a b k) = direct (k (datum_cmp sv cmpproc collation a b))
  direct (parse_step typ text k) = direct (k (text_to_datum sv typ text))
  direct (op_step opno commuted k) = direct (k (compare_op sv opno commuted))
  direct (nested p k) = direct (k (direct p))

  Faithful-cleared : (st : PlanState) → Faithful sv input (clear_cache st)
  unfolding clear_cache
  Faithful-cleared st = record { fmgr = tt; inputs = tt; ops = tt }

  Faithful-depth :
      (st : PlanState) (d : ℕ) → Faithful sv input st → Faithful sv input (record st { depth = d })
  Faithful-depth st d f = record { fmgr = f.fmgr; inputs = f.inputs; ops = f.ops }

  -- A nested invocation keeps its caller's tables.
  nested-Answers :
      (planner : PlanState → Result ℕ × PlanState) (x : Result ℕ) (st : PlanState)
      → (st.depth == 0) ≡ false
      → Answers sv input x
          (record st { depth = st.depth + 1 })
          (planner (record st { depth = st.depth + 1 }))
      → Answers sv input x st (planner_hook planner st)
  unfolding planner_hook
  nested-Answers planner x st e a =
      subst (λ z. Answers sv input x st (left_from (planner z))) (sym (enter-nested st e))
        (record {
          same = a.same;
          faithful =
              subst (Faithful sv input) (sym left)
                (Faithful-depth inner.1 (inner.1.depth - 1) a.faithful);
          depth = ap (λ (z : PlanState). z.depth) left ∙ ap (λ z. z - 1) a.depth ∙ omega arith;
        })
    where
      inner : Result ℕ × PlanState
      inner = planner (record st { depth = st.depth + 1 })

      left : leave inner.1 ≡ record inner.1 { depth = inner.1.depth - 1 }
      left = leave-nested inner.1 (rw a.depth (ground (arith, e)))

  compare_op_cached-memo :
      (opno : ℕ) (commuted : Bool) (st : PlanState)
      → (compare_op_cached sv input opno commuted st).1.fmgr_memo ≡ st.fmgr_memo
  unfolding compare_op_cached
  compare_op_cached-memo opno commuted st = go (find_key (same_op opno commuted) st.op_memo)
    where
      go :
          (o : Option (Option CompareOp))
          → (op_found sv input opno commuted st o).1.fmgr_memo ≡ st.fmgr_memo
      go none = refl
      go (some v) = refl

  module _ (reuse : ℕ → ℕ)
      (oid_input : (infunc ioparam : ℕ) (text : Bytes)
        → or_raise (sv.call_input infunc text ioparam)
          ≡ (or_raise (sv.fmgr_info infunc) >>= λ finfo. or_raise (input finfo text ioparam))) where
    abbrev ran : Planning → PlanState → Result ℕ × PlanState
    ran p st = run sv input reuse p st

    abbrev Memo : PlanState → PlanState → Type 0
    Memo st st' = st'.fmgr_memo ≡ st.fmgr_memo

    -- Planning goes on after an answer as it does after the direct call's.
    continued :
        {A : Type 0} (x : A) (st : PlanState) (r : A × PlanState) (k : A → Planning)
        → (st.depth == 0) ≡ false
        → Answers sv input x st r
        → ((st' : PlanState)
            → (st'.depth == 0) ≡ false
            → Faithful sv input st'
            → Answers sv input (direct (k x)) st' (ran (k x) st'))
        → Answers sv input (direct (k x)) st (ran (k r.0) r.1)
    continued x st r k e a go =
        let b = go r.1 (rw a.depth e) a.faithful in
        subst (λ z. Answers sv input (direct (k x)) st (ran (k z) r.1)) (sym a.same)
          (record { same = b.same; faithful = b.faithful; depth = b.depth ∙ a.depth })

    continued_memo :
        {A : Type 0} (x : A) (st : PlanState) (r : A × PlanState) (k : A → Planning)
        → (st.depth == 0) ≡ false
        → Answers sv input x st r
        → Memo st r.1
        → ((st' : PlanState)
            → (st'.depth == 0) ≡ false
            → Faithful sv input st'
            → Memo st' (ran (k x) st').1)
        → Memo st (ran (k r.0) r.1).1
    continued_memo x st r k e a kept go =
        subst (λ z. Memo st (ran (k z) r.1).1) (sym a.same)
          (go r.1 (rw a.depth e) a.faithful ∙ kept)

    -- What is left once the memory of an invocation within planning is freed.
    abbrev after_nested : Planning → PlanState → Result ℕ × PlanState
    after_nested p st = let (r, st') = planner_hook (ran p) st in (r, after_free reuse st st')

    -- The answer of a planning, and the table of call records if it makes no call.
    record Ran (p : Planning) (st : PlanState) : Type 0 where
      answers : Answers sv input (direct p) st (ran p st)
      memo : NoCalls p → Memo st (ran p st).1

    after_nested-memo :
        (p : Planning) (st : PlanState)
        → (st.depth == 0) ≡ false
        → NoCalls p
        → Ran p (record st { depth = st.depth + 1 })
        → Memo st (planner_hook (ran p) st).1
    after_nested-memo p st e calm r = nested-memo (ran p) st e r.answers.depth (r.memo calm)

    after_nested-Answers :
        (p : Planning) (st : PlanState)
        → (st.depth == 0) ≡ false
        → NoCalls p
        → Ran p (record st { depth = st.depth + 1 })
        → Answers sv input (direct p) st (after_nested p st) × Memo st (after_nested p st).1
    after_nested-Answers p st e calm r =
        subst (λ z. Answers sv input (direct p) st ((planner_hook (ran p) st).0, z) × Memo st z)
          (sym (after_free-same reuse st (planner_hook (ran p) st).1 kept))
          (nested-Answers (ran p) (direct p) st e r.answers, kept)
      where
        kept : Memo st (planner_hook (ran p) st).1
        kept = after_nested-memo p st e calm r

    abbrev Goes : Planning → Type 0
    Goes p = (st : PlanState) → (st.depth == 0) ≡ false → Faithful sv input st → Ran p st

    op_step-Ran :
        (o : ℕ) (c : Bool) (k : Option CompareOp → Planning) (st : PlanState)
        → (st.depth == 0) ≡ false
        → Faithful sv input st
        → Goes (k (compare_op sv o c))
        → Ran (op_step o c k) st
    unfolding direct run NoCalls
    op_step-Ran o c k st e f rest = record {
      answers =
          continued (compare_op sv o c) st (compare_op_cached sv input o c st) k e looked_up
            (λ st' e' f'. (rest st' e' f').answers);
      memo = λ h.
          continued_memo (compare_op sv o c) st (compare_op_cached sv input o c st) k e looked_up
            (compare_op_cached-memo o c st)
            (λ st' e' f'. (rest st' e' f').memo (h (compare_op sv o c)));
    }
      where
        looked_up : Answers sv input (compare_op sv o c) st (compare_op_cached sv input o c st)
        looked_up = compare_op_cached-Answers sv input o c st f

    nested-Ran :
        (p : Planning) (k : Result ℕ → Planning) (st : PlanState)
        → (st.depth == 0) ≡ false
        → NoCalls p
        → Ran p (record st { depth = st.depth + 1 })
        → Goes (k (direct p))
        → Ran (nested p k) st
    unfolding direct run NoCalls
    nested-Ran p k st e calm inner rest = record {
      answers =
          continued (direct p) st (after_nested p st) k e within.0
            (λ st' e' f'. (rest st' e' f').answers);
      memo = λ h.
          continued_memo (direct p) st (after_nested p st) k e within.0 within.1
            (λ st' e' f'. (rest st' e' f').memo (h.1 (direct p)));
    }
      where
        within : Answers sv input (direct p) st (after_nested p st) × Memo st (after_nested p st).1
        within = after_nested-Answers p st e calm inner

    run-Ran :
        (p : Planning) (st : PlanState)
        → (st.depth == 0) ≡ false
        → Faithful sv input st
        → NestsNoCalls p
        → Ran p st
    unfolding direct run NoCalls NestsNoCalls
    run-Ran (finish plan) st e f calm = record {
      answers = record { same = refl; faithful = f; depth = refl };
      memo = λ h. refl;
    }
    run-Ran (fail x) st e f calm = record {
      answers = record { same = refl; faithful = f; depth = refl };
      memo = λ h. refl;
    }
    run-Ran (compare_step c l a b k) st e f calm = record {
      answers =
          continued (datum_cmp sv c l a b) st (cmp_cached sv input c l a b st) k e
            (cmp_cached-Answers sv input c l a b st f)
            (λ st' e' f'.
              (run-Ran (k (datum_cmp sv c l a b)) st' e' f' (calm (datum_cmp sv c l a b))).answers);
      memo = λ h. absurd h;
    }
    run-Ran (parse_step typ text k) st e f calm = record {
      answers =
          continued (text_to_datum sv typ text) st (parse_cached sv input typ text st) k e
            (parse_cached-Answers sv input oid_input typ text st f)
            (λ st' e' f'.
              (run-Ran (k (text_to_datum sv typ text)) st' e' f'
                (calm (text_to_datum sv typ text))).answers);
      memo = λ h. absurd h;
    }
    run-Ran (op_step o c k) st e f calm =
        op_step-Ran o c k st e f
          (λ st' e' f'. run-Ran (k (compare_op sv o c)) st' e' f' (calm (compare_op sv o c)))
    run-Ran (nested p k) st e f calm =
        nested-Ran p k st e calm.0
          (run-Ran p (record st { depth = st.depth + 1 }) (ground arith)
            (Faithful-depth st (st.depth + 1) f) (NoCalls-NestsNoCalls p calm.0))
          (λ st' e' f'. run-Ran (k (direct p)) st' e' f' (calm.1 (direct p)))

    -- Whatever tables an earlier plan has left, and whatever becomes of freed call records, a planner
    -- invocation that is not within another gives the plan or the ERROR that it would give if every call
    -- were made directly, however it compares, parses, nests and catches, and it leaves the counter at
    -- zero and the tables empty. The planner invocations within it make no call through a call record:
    -- they look up operators and nest, but neither compare nor parse.
    pub planner_hook-direct :
        (p : Planning) (st : PlanState)
        → st.depth ≡ 0
        → NestsNoCalls p
        → planner_hook (run sv input reuse p) st ≡ (direct p, clear_cache st)
    unfolding planner_hook clear_cache
    planner_hook-direct p st e calm =
        subst (λ z. left_from (ran p z) ≡ (direct p, clear_cache st)) (sym (enter-outermost st e))
          (both a.same (leave-outermost r.1 a.depth ∙ ap empty_at (sym e)))
      where
        r : Result ℕ × PlanState
        r = ran p (empty_at 1)

        a : Answers sv input (direct p) (empty_at 1) r
        a = (run-Ran p (empty_at 1) refl (Faithful-cleared (empty_at 1)) calm).answers

        both :
            {x y : Result ℕ} {u v : PlanState}
            → x ≡ y
            → u ≡ v
            → ◌≡◌ {A = Result ℕ × PlanState} (x, u) (y, v)
        both h k i = (h i, k i)
