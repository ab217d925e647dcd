-- ===== src/Prune/Planner/Memo.antt =====
-- The tables of a plan change no answer (src/prune_hook.rs).
use pg_table_range.Base.{
  ℕ, ◌≡◌, refl, sym, ap, subst, ◌∙◌, inl, inr, Bool, Bool-cases, true, false, Option, none, some,
  List, [], ◌∷◌, All, ◌==◌, ==_iff, if◌then◌else◌, Result, ok, err, or_raise, Attempt, known,
  unknown, raised, ◌>>=◌, arith,
}
use mathlib.Core.Option.{some-injective}
use pg_table_range.Bytes.{Bytes, has_nul}
use pg_table_range.Server.{Server, invalid_oid, oid_function_call2, datum_cmp, text_to_datum}
use pg_table_range.Prune.Clause.{CompareOp, compare_op}
use pg_table_range.Prune.Planner.{
  OpKey, PlanState, find_key, Answer, and_then, same_op, fmgr_looked_up, fmgr_found, fmgr_cached,
  cmp_cached, input_found, input_with, parse_cached, op_found, compare_op_cached,
}

find_key-All :
    {K A : Type 0} (P : K × A → Type 0) (test : K → Bool) (m : List (K × A))
    → All P m
    → (a : A) → find_key test m ≡ some a
    → (k : K) × (test k ≡ true) × P (k, a)
unfolding find_key
find_key-All P test [] h a e = cc
find_key-All P test ((k, b) ∷ rest) h a e = elim (Bool-cases (test k)) [
  | inl here ↦ (k, here, subst (λ z. P (k, z)) (some-injective b a (sym (rw here refl) ∙ e)) h.0)
  | inr other ↦ find_key-All P test rest h.1 a (sym (rw other refl) ∙ e)
]

same_op-true :
    (opno : ℕ) (commuted : Bool) (k : OpKey) → same_op opno commuted k ≡ true → k ≡ (opno, commuted)
same_op-true opno true (o, true) h =
    subst (λ (z : ℕ). ◌≡◌ {A = OpKey} (z, true) (opno, true))
      (sym ((==_iff o opno).0 (ground arith))) refl
same_op-true opno true (o, false) h = absurd (ground arith)
same_op-true opno false (o, true) h = absurd (ground arith)
same_op-true opno false (o, false) h =
    subst (λ (z : ℕ). ◌≡◌ {A = OpKey} (z, false) (opno, false))
      (sym ((==_iff o opno).0 (ground arith))) refl

>>=-assoc :
    {A B C : Type 0} (m : Attempt A) (f : A → Attempt B) (g : B → Attempt C)
    → (m >>= λ a. f a >>= g) ≡ (m >>= f >>= g)
>>=-assoc (known a) f g = refl
>>=-assoc unknown f g = refl
>>=-assoc (raised e) f g = refl

module _ (sv : Server) (input : ℕ → Bytes → ℕ → Result ℕ) where
  -- Every entry of the tables is what the call would give.
  pub record Faithful (st : PlanState) : Type 0 where
    pub fmgr : All (λ (e : ℕ × ℕ). sv.fmgr_info e.0 ≡ ok e.1) st.fmgr_memo
    pub inputs : All (λ (e : ℕ × (ℕ × ℕ)). sv.type_input e.0 ≡ e.1) st.input_info_memo
    pub ops : All (λ (e : OpKey × Option CompareOp). compare_op sv e.0.0 e.0.1 ≡ e.1) st.op_memo

  -- A call answers as the direct call does, and keeps the tables faithful.
  pub record Answers {A : Type 0} (direct : A) (st : PlanState) (r : A × PlanState) : Type 0 where
    pub same : r.0 ≡ direct
    pub faithful : Faithful r.1
    pub depth : r.1.depth ≡ st.depth

  pub fmgr_cached-Answers :
      (proc : ℕ) (st : PlanState)
      → Faithful st
      → Answers (or_raise (sv.fmgr_info proc)) st (fmgr_cached sv input proc st)
  unfolding fmgr_cached
  fmgr_cached-Answers proc st f = go (find_key (λ k. k == proc) st.fmgr_memo) refl
    where
      looked_up :
          (r : Result ℕ)
          → sv.fmgr_info proc ≡ r
          → Answers (or_raise r) st (fmgr_looked_up sv input proc st r)
      looked_up (ok p) e = record {
        same = refl;
        faithful = record { fmgr = (e, f.fmgr); inputs = f.inputs; ops = f.ops };
        depth = refl;
      }
      looked_up (err x) e = record { same = refl; faithful = f; depth = refl }

      go :
          (o : Option ℕ)
          → find_key (λ k. k == proc) st.fmgr_memo ≡ o
          → Answers (or_raise (sv.fmgr_info proc)) st (fmgr_found sv input proc st o)
      go (some p) e =
          let (k, at, entry) = find_key-All _ (λ k. k == proc) st.fmgr_memo f.fmgr p e in
          record {
            same =
                ap or_raise (sym (subst (λ z. sv.fmgr_info z ≡ ok p) ((==_iff k proc).0 at) entry));
            faithful = f;
            depth = refl;
          }
      go none e = looked_up (sv.fmgr_info proc) refl

  and_then-Answers :
      {A B : Type 0} (m : Attempt A) (st : PlanState) (r : Answer A) (k : A → Attempt B)
      → Answers m st r
      → Answers (m >>= k) st (and_then r k)
  and_then-Answers m st r k a = record {
    same = ap (λ z. z >>= k) a.same;
    faithful = a.faithful;
    depth = a.depth;
  }

  pub cmp_cached-Answers :
      (cmpproc collation a b : ℕ) (st : PlanState)
      → Faithful st
      → Answers
          (datum_cmp sv cmpproc collation a b)
          st
          (cmp_cached sv input cmpproc collation a b st)
  unfolding cmp_cached datum_cmp oid_function_call2
  cmp_cached-Answers cmpproc collation a b st f =
      subst (λ z. Answers z st (cmp_cached sv input cmpproc collation a b st))
        (>>=-assoc (or_raise (sv.fmgr_info cmpproc)) _ _)
        (and_then-Answers (or_raise (sv.fmgr_info cmpproc)) st (fmgr_cached sv input cmpproc st) _
          (fmgr_cached-Answers cmpproc st f))

  pub compare_op_cached-Answers :
      (opno : ℕ) (commuted : Bool) (st : PlanState)
      → Faithful st
      → Answers (compare_op sv opno commuted) st (compare_op_cached sv input opno commuted st)
  unfolding compare_op_cached
  compare_op_cached-Answers opno commuted st f =
      go (find_key (same_op opno commuted) st.op_memo) refl
    where
      go :
          (o : Option (Option CompareOp))
          → find_key (same_op opno commuted) st.op_memo ≡ o
          → Answers (compare_op sv opno commuted) st (op_found sv input opno commuted st o)
      go (some v) e =
          let (k, at, entry) = find_key-All _ (same_op opno commuted) st.op_memo f.ops v e in
          record {
            same = sym (
                subst (λ (z : OpKey). compare_op sv z.0 z.1 ≡ v) (same_op-true opno commuted k at)
                  entry);
            faithful = f;
            depth = refl;
          }
      go none e = record {
        same = refl;
        faithful = record { fmgr = f.fmgr; inputs = f.inputs; ops = (refl, f.ops) };
        depth = refl;
      }

  pub Answers-if :
      {A : Type 0} (b : Bool) (x y : A) (st : PlanState) (r s : A × PlanState)
      → Answers x st r
      → Answers y st s
      → Answers (if b then x else y) st (if b then r else s)
  Answers-if true x y st r s h k = h
  Answers-if false x y st r s h k = k

  pub Answers-depth :
      {A : Type 0} (x : A) (st st' : PlanState) (r : A × PlanState)
      → st'.depth ≡ st.depth
      → Answers x st' r
      → Answers x st r
  Answers-depth x st st' r e a = record {
    same = a.same;
    faithful = a.faithful;
    depth = a.depth ∙ e;
  }

  -- `OidInputFunctionCall` looks the function up and calls it.
  module _
      (oid_input : (infunc ioparam : ℕ) (text : Bytes)
        → or_raise (sv.call_input infunc text ioparam)
          ≡ (or_raise (sv.fmgr_info infunc) >>= λ finfo. or_raise (input finfo text ioparam))) where
    pub parse_cached-Answers :
        (typ : ℕ) (text : Bytes) (st : PlanState)
        → Faithful st
        → Answers (text_to_datum sv typ text) st (parse_cached sv input typ text st)
    unfolding parse_cached text_to_datum
    parse_cached-Answers typ text st f = go (find_key (λ k. k == typ) st.input_info_memo) refl
      where
        direct : ℕ × ℕ → Attempt ℕ
        direct (infunc, ioparam) =
            if infunc == invalid_oid
            then unknown
            else if has_nul text
            then unknown
            else or_raise (sv.call_input infunc text ioparam)

        none_read :
            (st' : PlanState)
            → Faithful st'
            → st'.depth ≡ st.depth
            → Answers {A = Attempt ℕ} unknown st (unknown, st')
        none_read st' f' e = record { same = refl; faithful = f'; depth = e }

        found :
            (v : ℕ × ℕ) (st' : PlanState)
            → Faithful st'
            → st'.depth ≡ st.depth
            → Answers (direct v) st (input_with sv input text (v, st'))
        found (infunc, ioparam) st' f' e =
            Answers-if (infunc == invalid_oid) unknown _ st (unknown, st') _ (none_read st' f' e)
              (Answers-if (has_nul text) unknown _ st (unknown, st') _ (none_read st' f' e)
                (subst
                  (λ z. Answers z st (
                    and_then (fmgr_cached sv input infunc st')
                      λ finfo. or_raise (input finfo text ioparam)))
                  (sym (oid_input infunc ioparam text))
                  (Answers-depth _ st st' _ e (
                    and_then-Answers (or_raise (sv.fmgr_info infunc)) st'
                      (fmgr_cached sv input infunc st') _ (fmgr_cached-Answers infunc st' f')))))

        go :
            (o : Option (ℕ × ℕ))
            → find_key (λ k. k == typ) st.input_info_memo ≡ o
            → Answers
                (text_to_datum sv typ text)
                st
                (input_with sv input text (input_found sv input typ st o))
        go (some v) e =
            let (k, at, entry) = find_key-All _ (λ k. k == typ) st.input_info_memo f.inputs v e in
            subst (λ z. Answers (direct z) st (input_with sv input text (v, st)))
              (sym (subst (λ z. sv.type_input z ≡ v) ((==_iff k typ).0 at) entry))
              (found v st f refl)
        go none e =
            found (sv.type_input typ)
              (record st { input_info_memo = (typ, sv.type_input typ) ∷ st.input_info_memo })
              (record { fmgr = f.fmgr; inputs = (refl, f.inputs); ops = f.ops }) refl
