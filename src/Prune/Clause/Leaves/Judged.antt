-- ===== src/Prune/Clause/Leaves/Judged.antt =====
-- Each kind of extracted clause prunes only where the clause is not true of the row
-- (src/prune_hook.rs: `QualSpec`).
use pg_table_range.Base.{
  ℕ, ◌≡◌, ◌≢◌, inl, inr, refl, sym, ap, subst, ◌∙◌, Bool, Bool-cases, true, false, Option, none,
  some, List, ◌==◌, ==_iff, ok, or_raise, or_raise-known, known, known-injective, subst₂, Ensures,
  Ensures-known, Ensures-unknown, Ensures-bind, Ensures-if, arith,
}
use mathlib.Core.Option.{some-injective}
use pg_table_range.Summary.{ColSummary, find_col}
use pg_table_range.Server.{Server, invalid_oid, call_overlap}
use pg_table_range.Widen.Row.{Row, Table, CoversRow}
use pg_table_range.Prune.{QualSpec, compare, null, in_list, overlap, attnum_of, proves_prune}
use pg_table_range.Prune.Verdict.{Matches, IsReadAs, proves_prune-Matches}
use pg_table_range.Prune.Clause.{
  Node, null_test, var, NullTestType, is_null, is_not_null, other_test, CompareOp, is_system,
  summary_parse_type, is_trusted_overlap_op, comparison_qual, opexpr_qual, compare_op, non_null,
  array_const_datums, in_list_qual,
}
use pg_table_range.Prune.Clause.Truth.{Operators, Expressions, SomeTrue, AnyElement, LeafTrue}
use pg_table_range.Prune.Clause.Extracted.{
  NullRead, column_side, const_side, InFamily, compare_op-InFamily,
}
use pg_table_range.Prune.Clause.Leaves.Operands.{
  SideTrue, compare-Satisfies, compare-IsReadAs, same_collation, same_collation_in, some-IsListed,
  none-SomeTrue,
}

module _ {sv : Server} (table : Table sv) (ops : (n : ℕ) → Operators (table.orders n)) where
  open table use {type_of, collation_of, orders}

  module _ {row : Row} (ex : Expressions row) (cols : List ColSummary)
      (collations : (n : ℕ) (c : ColSummary)
        → find_col n cols ≡ some c
        → c.collation ≡ collation_of n)
      (covers : CoversRow table cols row) where
    judged :
        (spec : QualSpec) (t : ℕ) (c : ColSummary)
        → find_col (attnum_of spec) cols ≡ some c
        → IsReadAs (orders (attnum_of spec)) spec t
        → proves_prune sv spec c ≡ known true
        → ¬ Matches (orders (attnum_of spec)) spec t (row (attnum_of spec))
    judged spec t c at read run =
        proves_prune-Matches (orders (attnum_of spec)) c spec t (row (attnum_of spec))
          (collations (attnum_of spec) c at) read (covers (attnum_of spec) c at) run

    -- Where the extracted clause prunes, `P` does not hold of the row.
    abbrev pub Judges : QualSpec → Type 0 → Type 0
    Judges spec P =
        (c : ColSummary)
        → find_col (attnum_of spec) cols ≡ some c
        → proves_prune sv spec c ≡ known true
        → ¬ P

    compare-Judges :
        (n opno collation k : ℕ) (m : Bool) (op : CompareOp)
        → InFamily sv opno m op
        → (ops n).Takes (column_side sv opno m)
        → Judges
            (compare n op.strategy
              (summary_parse_type sv op.var_type (type_of n))
              op.cmpproc
              collation
              k)
            (SideTrue table ops m opno collation (row n) (some k))
    unfolding attnum_of
    compare-Judges n opno collation k m op f takes c at run h =
        judged
          (compare n op.strategy (summary_parse_type sv op.var_type (type_of n)) op.cmpproc
            collation k)
          (const_side sv opno m) c at (compare-IsReadAs table ops n opno m op f takes) run
          (go m f takes (row n) (
            subst (λ z. SideTrue table ops m opno z (row n) (some k))
              (sym (same_collation table ops _ _ _ _ _ _ c run) ∙ collations n c at) h))
      where
        go :
            (m : Bool) (f : InFamily sv opno m op) (takes : (ops n).Takes (column_side sv opno m))
            (u : Option ℕ)
            → SideTrue table ops m opno (collation_of n) u (some k)
            → Matches
                (orders n)
                (compare n op.strategy
                  (summary_parse_type sv op.var_type (type_of n))
                  op.cmpproc
                  collation
                  k)
                (const_side sv opno m)
                u
        go true f takes none h = h
        go false f takes none h = h
        go m f takes (some v) h = compare-Satisfies table ops n opno m op v k f takes h

    overlap-Judges :
        (n opno collation k : ℕ) (m : Bool)
        → is_trusted_overlap_op sv opno (type_of n) ≡ true
        → Judges
            (overlap n (sv.get_base_type (type_of n)) (sv.get_opcode opno) collation k m)
            (SideTrue table ops m opno collation (row n) (some k))
    unfolding attnum_of call_overlap
    overlap-Judges n opno collation k m trusted c at run h =
        judged (overlap n (sv.get_base_type (type_of n)) (sv.get_opcode opno) collation k m) 0 c at
          (refl, (ops n).overlaps opno collation m trusted) run (go m (row n) h)
      where
        go :
            (m : Bool) (u : Option ℕ)
            → SideTrue table ops m opno collation u (some k)
            → Matches
                (orders n)
                (overlap n (sv.get_base_type (type_of n)) (sv.get_opcode opno) collation k m)
                0
                u
        go false none h = h
        go true none h = h
        go false (some v) h = h
        go true (some v) h = h

    comparison_qual-Judges :
        (n opno collation k : ℕ) (m : Bool) (spec : QualSpec)
        → (ops n).Takes (column_side sv opno m)
        → (o : Option CompareOp) → compare_op sv opno m ≡ o
        → comparison_qual sv o opno collation n (type_of n) k m ≡ some spec
        → Judges spec (SideTrue table ops m opno collation (row n) (some k))
    unfolding comparison_qual
    comparison_qual-Judges n opno collation k m spec takes (some op) e h =
        subst (λ z. Judges z (SideTrue table ops m opno collation (row n) (some k)))
          (some-injective _ spec h)
          (compare-Judges n opno collation k m op (compare_op-InFamily sv opno m op e) takes)
    comparison_qual-Judges n opno collation k m spec takes none e h =
        elim (Bool-cases (is_trusted_overlap_op sv opno (type_of n))) [
          | inl trusted ↦
              subst (λ z. Judges z (SideTrue table ops m opno collation (row n) (some k)))
                (some-injective _ spec (sym (rw trusted refl) ∙ h))
                (overlap-Judges n opno collation k m trusted)
          | inr other ↦ absurd (ground arith)
        ]

    pub opexpr_qual-Judges :
        (n opno collation : ℕ) (k : Option ℕ) (m : Bool) (spec : QualSpec)
        → (ops n).Takes (column_side sv opno m)
        → opexpr_qual sv opno collation n (type_of n) k m ≡ some spec
        → Judges spec (SideTrue table ops m opno collation (row n) k)
    unfolding opexpr_qual
    opexpr_qual-Judges n opno collation none m spec takes h = cc
    opexpr_qual-Judges n opno collation (some k) m spec takes h =
        elim (Bool-cases (is_system sv n)) [
          | inl system ↦ absurd (ground arith)
          | inr user ↦
              comparison_qual-Judges n opno collation k m spec takes (compare_op sv opno m) refl
                (sym (rw user refl) ∙ h)
        ]

    in_list-Judges :
        (n opno collation typ a : ℕ) (op : CompareOp) (es : List (Option ℕ))
        → InFamily sv opno false op
        → (ops n).Takes (column_side sv opno false)
        → op.strategy ≡ 3
        → sv.deconstruct_array (sv.get_element_type typ) a ≡ ok es
        → Judges
            (in_list n
              (summary_parse_type sv op.var_type (type_of n))
              op.cmpproc
              collation
              (non_null sv es))
            (AnyElement sv opno collation (row n) typ (some a))
    unfolding attnum_of
    in_list-Judges n opno collation typ a op es f takes eq read c at run (es', read', h) =
        judged
          (in_list n (summary_parse_type sv op.var_type (type_of n)) op.cmpproc collation
            (non_null sv es))
          (const_side sv opno false) c at (compare-IsReadAs table ops n opno false op f takes) run
          (go (row n) (
            subst₂ (λ z xs. SomeTrue sv opno z (row n) xs)
              (sym (same_collation_in table ops _ _ _ _ _ c run) ∙ collations n c at)
              (known-injective es' es (ap or_raise (sym read' ∙ read))) h))
      where
        go :
            (u : Option ℕ)
            → SomeTrue sv opno (collation_of n) u es
            → Matches
                (orders n)
                (in_list n
                  (summary_parse_type sv op.var_type (type_of n))
                  op.cmpproc
                  collation
                  (non_null sv es))
                (const_side sv opno false)
                u
        go none h = none-SomeTrue table ops opno (collation_of n) es h
        go (some v) h = some-IsListed table ops n opno v op f takes eq es h

    pub in_list_qual-Judges :
        (n opno collation typ a : ℕ) (o : Option CompareOp)
        → (ops n).Takes (column_side sv opno false)
        → compare_op sv opno false ≡ o
        → Ensures
            (λ spec. Judges spec (AnyElement sv opno collation (row n) typ (some a)))
            (in_list_qual sv o collation n (type_of n) typ a)
    unfolding in_list_qual array_const_datums
    in_list_qual-Judges n opno collation typ a none takes e = Ensures-unknown _
    in_list_qual-Judges n opno collation typ a (some op) takes e =
        Ensures-if (op.strategy == 3) _ _
          (λ eq. Ensures-bind (array_const_datums sv typ a) _ λ elems listed.
            let (es, read, same) = elements.at elems listed in
            Ensures-known (λ spec. Judges spec (AnyElement sv opno collation (row n) typ (some a)))
              _
              (subst
                (λ z.
                  Judges
                    (in_list n (summary_parse_type sv op.var_type (type_of n)) op.cmpproc collation
                      z)
                    (AnyElement sv opno collation (row n) typ (some a)))
                same
                (in_list-Judges n opno collation typ a op es
                  (compare_op-InFamily sv opno false op e) takes ((==_iff op.strategy 3).0 eq)
                  read)))
          (λ other. Ensures-unknown _)
      where
        elements :
            Ensures
              (λ ds.
                (es : List (Option ℕ)) × (sv.deconstruct_array (sv.get_element_type typ) a ≡ ok es)
                × (non_null sv es ≡ ds))
              (array_const_datums sv typ a)
        elements =
            Ensures-if (sv.get_element_type typ == invalid_oid) _ _ (λ z. Ensures-unknown _)
              (λ z.
                Ensures-bind (or_raise (sv.deconstruct_array (sv.get_element_type typ) a)) _
                  λ es read. Ensures-known _ (non_null sv es) (es, or_raise-known _ es read, refl))

    pub null-Judges :
        (t : NullTestType) (arg : Node) (a typ : ℕ) (spec : QualSpec)
        → ex.value arg ≡ ex.value (var a typ)
        → NullRead sv t a spec
        → Judges spec (LeafTrue sv ex (null_test t arg))
    unfolding attnum_of LeafTrue
    null-Judges is_null arg a typ spec same e =
        subst (λ z. Judges z (ex.value arg ≡ none)) e
          (λ c at run h.
            judged (null a true) 0 c at tt run (go (row a) (sym (same ∙ ex.value_var a typ) ∙ h)))
      where
        go : (u : Option ℕ) → u ≡ none → Matches (orders a) (null a true) 0 u
        go none q = tt
        go (some v) q = cc
    null-Judges is_not_null arg a typ spec same e =
        subst (λ z. Judges z (ex.value arg ≢ none)) e
          (λ c at run h.
            judged (null a false) 0 c at tt run
              (go (row a) (λ q. h (same ∙ ex.value_var a typ ∙ q))))
      where
        go : (u : Option ℕ) → u ≢ none → Matches (orders a) (null a false) 0 u
        go none q = q refl
        go (some v) q = tt
    null-Judges other_test arg a typ spec same e = absurd e
