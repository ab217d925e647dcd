-- ===== src/Prune/Clause/Leaves/Operands.antt =====
-- The operands and the operator of a clause (src/prune_hook.rs: `strip_relabel`, `CompareOp`), and
-- what an operator that is true says of them.
use pg_table_range.Base.{
  ℕ, zero, suc, ◌≡◌, ◌≢◌, inl, inr, refl, subst, ◌∙◌, Bool, true, false, Option, none, some, List,
  [], ◌∷◌, known, arith,
}
use pg_table_range.Summary.{ColSummary}
use pg_table_range.Server.{Server, invalid_oid}
use pg_table_range.Widen.Covers.{BtreeOrder}
use pg_table_range.Widen.Row.{Row, Table}
use pg_table_range.Prune.{compare, in_list, proves_prune}
use pg_table_range.Prune.Sound.{Satisfies}
use pg_table_range.Prune.Verdict.{IsListed}
use pg_table_range.Prune.Clause.{
  Node, null_node, bool_expr, op_expr, null_test, array_op, relabel, var, const, other_node,
  CompareOp, strip_relabel, summary_parse_type, non_null,
}
use pg_table_range.Prune.Clause.Commute.{Relates, commute_strategy-Relates}
use pg_table_range.Prune.Clause.Truth.{Operators, Expressions, BothTrue, SomeTrue}
use pg_table_range.Prune.Clause.Extracted.{column_side, const_side, InFamily}

Relates-Satisfies :
    {sv : Server} {typ collation : ℕ} (o : BtreeOrder sv typ collation) (s t v k : ℕ)
    → Relates s (o.Le (sv.get_base_type typ) v t k) (o.Le t k (sv.get_base_type typ) v)
    → Satisfies o s t v k
Relates-Satisfies o zero t v k h = h
Relates-Satisfies o (suc zero) t v k h = h
Relates-Satisfies o (suc (suc zero)) t v k h = h
Relates-Satisfies o (suc (suc (suc zero))) t v k h = h
Relates-Satisfies o (suc (suc (suc (suc zero)))) t v k h = h
Relates-Satisfies o (suc (suc (suc (suc (suc zero))))) t v k h = h
Relates-Satisfies o (suc (suc (suc (suc (suc (suc n)))))) t v k h = h

module _ {sv : Server} (table : Table sv) (ops : (n : ℕ) → Operators (table.orders n)) where
  open table use {type_of, collation_of, orders}

  -- The operator is true of the column's value and the constant, each on its side.
  abbrev pub SideTrue : Bool → ℕ → ℕ → Option ℕ → Option ℕ → Type 0
  SideTrue false opno collation v k = BothTrue sv opno collation v k
  SideTrue true opno collation v k = BothTrue sv opno collation k v

  pub compare-Satisfies :
      (n opno : ℕ) (m : Bool) (op : CompareOp) (v k : ℕ)
      → InFamily sv opno m op
      → (ops n).Takes (column_side sv opno m)
      → SideTrue m opno (collation_of n) (some v) (some k)
      → Satisfies (orders n).btree op.strategy (const_side sv opno m) v k
  compare-Satisfies n opno false op v k f takes h = rw f.strategy (
      Relates-Satisfies (orders n).btree _ (const_side sv opno false) v k (
        (ops n).relates opno (column_side sv opno false) (const_side sv opno false) f.family v k
          takes refl f.is_family f.at_least h))
  compare-Satisfies n opno true op v k f takes h = rw f.strategy (
      Relates-Satisfies (orders n).btree _ (const_side sv opno true) v k (
        (commute_strategy-Relates (sv.get_op_opfamily_strategy opno f.family) _ _ f.at_most).1 (
          (ops n).relates_commuted opno (column_side sv opno true) (const_side sv opno true)
            f.family v k takes refl f.is_family f.at_least h)))

  pub compare-IsReadAs :
      (n opno : ℕ) (m : Bool) (op : CompareOp)
      → InFamily sv opno m op
      → (ops n).Takes (column_side sv opno m)
      → (orders n).btree.Parses (summary_parse_type sv op.var_type (type_of n))
        × (orders n).btree.Compares op.cmpproc
            (summary_parse_type sv op.var_type (type_of n))
            (const_side sv opno m)
  compare-IsReadAs n opno m op f takes =
      rw (f.var_type, f.cmpproc)
        (
          (ops n).parses (column_side sv opno m) takes,
          (ops n).compares (column_side sv opno m) (const_side sv opno m) f.family takes f.is_family
              (subst (λ p. p ≢ invalid_oid) f.cmpproc f.has_proc),
        )

  pub value-strip_relabel :
      {row : Row} (ex : Expressions row) (n : Node) → ex.value n ≡ ex.value (strip_relabel sv n)
  unfolding strip_relabel
  value-strip_relabel ex (relabel n) = ex.value_relabel n ∙ value-strip_relabel ex n
  value-strip_relabel ex null_node = refl
  value-strip_relabel ex (bool_expr b ns) = refl
  value-strip_relabel ex (op_expr o c ns) = refl
  value-strip_relabel ex (null_test t n) = refl
  value-strip_relabel ex (array_op o c u ns) = refl
  value-strip_relabel ex (var a t) = refl
  value-strip_relabel ex (const t v) = refl
  value-strip_relabel ex other_node = refl

  pub same_collation :
      (a s p f collation k : ℕ) (c : ColSummary)
      → proves_prune sv (compare a s p f collation k) c ≡ known true
      → c.collation ≡ collation
  unfolding proves_prune
  same_collation a s p f collation k c run = ground arith

  pub same_collation_in :
      (a p f collation : ℕ) (es : List ℕ) (c : ColSummary)
      → proves_prune sv (in_list a p f collation es) c ≡ known true
      → c.collation ≡ collation
  unfolding proves_prune
  same_collation_in a p f collation es c run = ground arith

  -- A listed element with which the operator is true is equal to the value.
  pub some-IsListed :
      (n opno v : ℕ) (op : CompareOp)
      → InFamily sv opno false op
      → (ops n).Takes (column_side sv opno false)
      → op.strategy ≡ 3
      → (es : List (Option ℕ)) → SomeTrue sv opno (collation_of n) (some v) es
      → IsListed (orders n) (const_side sv opno false) (non_null sv es) v
  unfolding non_null
  some-IsListed n opno v op f takes eq [] h = h
  some-IsListed n opno v op f takes eq (none ∷ es) h = elim h [
    | inl no_value ↦ absurd no_value
    | inr later ↦ some-IsListed n opno v op f takes eq es later
  ]
  some-IsListed n opno v op f takes eq (some d ∷ es) h = elim h [
    | inl here ↦ inl (
        subst (λ s. Satisfies (orders n).btree s (const_side sv opno false) v d) eq
          (compare-Satisfies n opno false op v d f takes here))
    | inr later ↦ inr (some-IsListed n opno v op f takes eq es later)
  ]

  pub none-SomeTrue :
      (opno collation : ℕ) (es : List (Option ℕ)) → ¬ SomeTrue sv opno collation none es
  none-SomeTrue opno collation [] h = h
  none-SomeTrue opno collation (e ∷ es) h = elim h [
    | inl here ↦ here
    | inr later ↦ none-SomeTrue opno collation es later
  ]
