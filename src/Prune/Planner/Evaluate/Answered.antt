-- ===== src/Prune/Planner/Evaluate/Answered.antt =====
-- When a call through the tables of a plan answers as the direct one, and how such calls compose
-- (src/prune_hook.rs).
use pg_table_range.Base.{
  ℕ, ◌≡◌, refl, subst, Bool, true, false, if◌then◌else◌, Attempt, known, unknown, raised, Result,
  ◌>>=◌ as bind,
}
use pg_table_range.Bytes.{Bytes}
use pg_table_range.Server.{Server}
use pg_table_range.Prune.{or_keep}
use pg_table_range.Prune.Planner.{PlanState, Answer}
use pg_table_range.Prune.Planner.Memo.{Faithful, Answers, Answers-depth}
use pg_table_range.Prune.Planner.Evaluate.{
  Memo, lift, answered, ◌>>=◌, kept, or_keep_cached, when_else,
}

module _ (sv : Server) (input : ℕ → Bytes → ℕ → Result ℕ) where
  -- Whatever the tables hold, the answer is that of the direct call.
  pub record Refines {A : Type 0} (m : Memo A) (x : Attempt A) : Type 0 where
    pub at : (st : PlanState) → Faithful sv input st → Answers sv input x st (m st)

  pub Refines-lift : {A : Type 0} (x : Attempt A) → Refines (lift x) x
  Refines-lift x = record { at = λ st f. record { same = refl; faithful = f; depth = refl } }

  answered-Answers :
      {A B : Type 0} (x : Attempt A) (st : PlanState) (r : Answer A) (k : A → Memo B)
      (f : A → Attempt B)
      → Answers sv input x st r
      → ((a : A) → Refines (k a) (f a))
      → Answers sv input (bind x f) st (answered r k)
  answered-Answers x st r k f a h =
      subst (λ z. Answers sv input (bind z f) st (answered r k)) a.same (go r a.faithful a.depth)
    where
      go :
          (r : Answer _)
          → Faithful sv input r.1
          → r.1.depth ≡ st.depth
          → Answers sv input (bind r.0 f) st (answered r k)
      go (known v, st') g d = Answers-depth sv input (f v) st st' (k v st') d ((h v).at st' g)
      go (unknown, st') g d = record { same = refl; faithful = g; depth = d }
      go (raised e, st') g d = record { same = refl; faithful = g; depth = d }

  pub Refines-bind :
      {A B : Type 0} (m : Memo A) (x : Attempt A) (k : A → Memo B) (f : A → Attempt B)
      → Refines m x
      → ((a : A) → Refines (k a) (f a))
      → Refines (m >>= k) (bind x f)
  Refines-bind m x k f p h = record { at = λ st g. answered-Answers x st (m st) k f (p.at st g) h }

  kept-Answers :
      {A : Type 0} (x : Attempt A) (st : PlanState) (r : Answer A) (k : A → Memo Bool)
      (f : A → Attempt Bool)
      → Answers sv input x st r
      → ((a : A) → Refines (k a) (f a))
      → Answers sv input (or_keep x f) st (kept r k)
  kept-Answers x st r k f a h =
      subst (λ z. Answers sv input (or_keep z f) st (kept r k)) a.same (go r a.faithful a.depth)
    where
      go :
          (r : Answer _)
          → Faithful sv input r.1
          → r.1.depth ≡ st.depth
          → Answers sv input (or_keep r.0 f) st (kept r k)
      go (known v, st') g d = Answers-depth sv input (f v) st st' (k v st') d ((h v).at st' g)
      go (unknown, st') g d = record { same = refl; faithful = g; depth = d }
      go (raised e, st') g d = record { same = refl; faithful = g; depth = d }

  pub Refines-or_keep :
      {A : Type 0} (m : Memo A) (x : Attempt A) (k : A → Memo Bool) (f : A → Attempt Bool)
      → Refines m x
      → ((a : A) → Refines (k a) (f a))
      → Refines (or_keep_cached m k) (or_keep x f)
  Refines-or_keep m x k f p h = record { at = λ st g. kept-Answers x st (m st) k f (p.at st g) h }

  pub Refines-when :
      {A : Type 0} (b : Bool) (m n : Memo A) (x y : Attempt A)
      → Refines m x
      → Refines n y
      → Refines (when_else b m n) (if b then x else y)
  Refines-when true m n x y p q = p
  Refines-when false m n x y p q = q
