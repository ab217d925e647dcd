-- ===== src/Prune/Clause/Extracted.antt =====
-- What the clause extraction reads of a node (src/prune_hook.rs: `extract_opexpr`, `extract_saop`,
-- `compare_op`).
use pg_table_range.Base.{
  ℕ, ◌<◌, Bool-cases, not, ◌&&◌, subst, ◌≤◌, ◌≡◌, ◌≢◌, inl, inr, refl, sym, ◌∙◌, Bool, true, false,
  Option, none, some, ◌==◌, leb, if◌then◌else◌, known, arith,
}
use mathlib.Core.Option.{some-injective}
use pg_table_range.Server.{Server, invalid_oid, btorder_proc, default_btree_family}
use pg_table_range.Prune.{QualSpec, null}
use pg_table_range.Prune.Clause.{
  Node, null_node, bool_expr, op_expr, null_test, array_op, relabel, var, const, other_node,
  NullTestType, is_null, is_not_null, other_test, nulltest_qual, CompareOp, commute_strategy,
  compare_in_family, compare_in, compare_op, opexpr_qual, opexpr_sides, in_list_qual, saop_sides,
  is_system,
}

module _ (sv : Server) where
  -- The column's side of an operator, and the other.
  abbrev pub column_side : ℕ → Bool → ℕ
  column_side opno commuted =
      if commuted then (sv.op_input_types opno).1 else (sv.op_input_types opno).0

  abbrev pub const_side : ℕ → Bool → ℕ
  const_side opno commuted =
      if commuted then (sv.op_input_types opno).0 else (sv.op_input_types opno).1

  -- A comparison of the default btree family of the column's side.
  pub record InFamily (opno : ℕ) (commuted : Bool) (op : CompareOp) : Type 0 where
    pub family : ℕ
    pub is_family : default_btree_family sv (column_side opno commuted) ≡ some family
    pub strategy : op.strategy ≡ (
        if commuted
        then commute_strategy (sv.get_op_opfamily_strategy opno family)
        else sv.get_op_opfamily_strategy opno family)
    pub at_least : 0 < sv.get_op_opfamily_strategy opno family
    pub at_most : sv.get_op_opfamily_strategy opno family ≤ 5
    pub var_type : op.var_type ≡ column_side opno commuted
    pub cmpproc :
        op.cmpproc
        ≡ sv.get_opfamily_proc family
            (column_side opno commuted)
            (const_side opno commuted)
            btorder_proc
    pub has_proc : op.cmpproc ≢ invalid_oid

  in_family :
      {opno : ℕ} {commuted : Bool} {op : CompareOp} (family : ℕ)
      → default_btree_family sv (column_side opno commuted) ≡ some family
      → compare_in_family sv opno commuted
          (column_side opno commuted)
          (const_side opno commuted)
          family
        ≡ some op
      → InFamily opno commuted op
  unfolding compare_in_family
  in_family {opno} {commuted} {op} family e h =
      elim (Bool-cases ((leb 1 s && leb s 5) && not (proc == invalid_oid))) [
        | inl both ↦
            subst (InFamily opno commuted) (some-injective made op (sym (rw both refl) ∙ h))
              (record {
                family = family;
                is_family = e;
                strategy = refl;
                at_least = ground arith;
                at_most = ground arith;
                var_type = refl;
                cmpproc = refl;
                has_proc = λ q. ground arith;
              })
        | inr other ↦ absurd (ground arith)
      ]
    where
      s : ℕ
      s = sv.get_op_opfamily_strategy opno family

      proc : ℕ
      proc =
          sv.get_opfamily_proc family (column_side opno commuted) (const_side opno commuted)
            btorder_proc

      made : CompareOp
      made = record {
        strategy = if commuted then commute_strategy s else s;
        var_type = column_side opno commuted;
        cmpproc = proc;
      }

  pub compare_op-InFamily :
      (opno : ℕ) (commuted : Bool) (op : CompareOp)
      → compare_op sv opno commuted ≡ some op
      → InFamily opno commuted op
  unfolding compare_op compare_in
  compare_op-InFamily opno commuted op =
      go (default_btree_family sv (column_side opno commuted)) refl
    where
      go :
          (f : Option ℕ)
          → default_btree_family sv (column_side opno commuted) ≡ f
          → compare_in sv opno commuted (column_side opno commuted) (const_side opno commuted) f
            ≡ some op
          → InFamily opno commuted op
      go none e h = cc
      go (some family) e h = in_family family e h

  abbrev pub ReadSides : Bool → Node → Node → (ℕ → ℕ → Option ℕ → Type 0) → Type 0
  ReadSides false l r P = (a t u : ℕ) × (v : Option ℕ) × (l ≡ var a t) × (r ≡ const u v) × P a t v
  ReadSides true l r P = (a t u : ℕ) × (v : Option ℕ) × (l ≡ const u v) × (r ≡ var a t) × P a t v

  pub opexpr_sides-some :
      (opno collation : ℕ) (l r : Node) (spec : QualSpec)
      → opexpr_sides sv opno collation l r ≡ some spec
      → (m : Bool) × ReadSides m l r (λ a t v. opexpr_qual sv opno collation a t v m ≡ some spec)
  unfolding opexpr_sides
  opexpr_sides-some opno collation (var a t) (const u v) spec h =
      (false, (a, t, u, v, refl, refl, h))
  opexpr_sides-some opno collation (const u v) (var a t) spec h =
      (true, (a, t, u, v, refl, refl, h))
  opexpr_sides-some opno collation (var a t) null_node spec h = cc
  opexpr_sides-some opno collation (var a t) (bool_expr b ns) spec h = cc
  opexpr_sides-some opno collation (var a t) (op_expr o c ns) spec h = cc
  opexpr_sides-some opno collation (var a t) (null_test w n) spec h = cc
  opexpr_sides-some opno collation (var a t) (array_op o c z ns) spec h = cc
  opexpr_sides-some opno collation (var a t) (relabel n) spec h = cc
  opexpr_sides-some opno collation (var a t) other_node spec h = cc
  opexpr_sides-some opno collation (var a t) (var b s) spec h = cc
  opexpr_sides-some opno collation (const u v) null_node spec h = cc
  opexpr_sides-some opno collation (const u v) (bool_expr b ns) spec h = cc
  opexpr_sides-some opno collation (const u v) (op_expr o c ns) spec h = cc
  opexpr_sides-some opno collation (const u v) (null_test w n) spec h = cc
  opexpr_sides-some opno collation (const u v) (array_op o c z ns) spec h = cc
  opexpr_sides-some opno collation (const u v) (relabel n) spec h = cc
  opexpr_sides-some opno collation (const u v) other_node spec h = cc
  opexpr_sides-some opno collation (const u v) (const w x) spec h = cc
  opexpr_sides-some opno collation null_node r spec h = cc
  opexpr_sides-some opno collation (bool_expr b ns) r spec h = cc
  opexpr_sides-some opno collation (op_expr o c ns) r spec h = cc
  opexpr_sides-some opno collation (null_test w n) r spec h = cc
  opexpr_sides-some opno collation (array_op o c z ns) r spec h = cc
  opexpr_sides-some opno collation (relabel n) r spec h = cc
  opexpr_sides-some opno collation other_node r spec h = cc

  pub saop_sides-known :
      (opno collation : ℕ) (l r : Node) (spec : QualSpec)
      → saop_sides sv opno collation l r ≡ known spec
      → (a t u v : ℕ) × (l ≡ var a t)
        × (r ≡ const u (some v))
        × (is_system sv a ≡ false)
        × (in_list_qual sv (compare_op sv opno false) collation a t u v ≡ known spec)
  unfolding saop_sides
  saop_sides-known opno collation (var a t) (const u (some v)) spec h =
      (a, t, u, v, refl, refl, ground arith, ground arith)
  saop_sides-known opno collation (var a t) (const u none) spec h = cc
  saop_sides-known opno collation (var a t) null_node spec h = cc
  saop_sides-known opno collation (var a t) (bool_expr b ns) spec h = cc
  saop_sides-known opno collation (var a t) (op_expr o c ns) spec h = cc
  saop_sides-known opno collation (var a t) (null_test w n) spec h = cc
  saop_sides-known opno collation (var a t) (array_op o c z ns) spec h = cc
  saop_sides-known opno collation (var a t) (relabel n) spec h = cc
  saop_sides-known opno collation (var a t) other_node spec h = cc
  saop_sides-known opno collation (var a t) (var b s) spec h = cc
  saop_sides-known opno collation null_node r spec h = cc
  saop_sides-known opno collation (bool_expr b ns) r spec h = cc
  saop_sides-known opno collation (op_expr o c ns) r spec h = cc
  saop_sides-known opno collation (null_test w n) r spec h = cc
  saop_sides-known opno collation (array_op o c z ns) r spec h = cc
  saop_sides-known opno collation (relabel n) r spec h = cc
  saop_sides-known opno collation other_node r spec h = cc
  saop_sides-known opno collation (const u v) r spec h = cc

  -- A null test that is extracted, and what as.
  abbrev pub NullRead : NullTestType → ℕ → QualSpec → Type 0
  NullRead is_null a spec = null a true ≡ spec
  NullRead is_not_null a spec = null a false ≡ spec
  NullRead other_test a spec = ⊥

  pub nulltest_qual-some :
      (t : NullTestType) (n : Node) (spec : QualSpec)
      → nulltest_qual sv t n ≡ some spec
      → (a typ : ℕ) × (n ≡ var a typ) × NullRead t a spec
  unfolding nulltest_qual
  nulltest_qual-some is_null (var a typ) spec h =
      (a, typ, refl, some-injective (null a true) spec (user h))
    where
      user :
          (if is_system sv a then none else some (null a true)) ≡ some spec
          → some (null a true) ≡ some spec
      user e = ground arith
  nulltest_qual-some is_not_null (var a typ) spec h =
      (a, typ, refl, some-injective (null a false) spec (user h))
    where
      user :
          (if is_system sv a then none else some (null a false)) ≡ some spec
          → some (null a false) ≡ some spec
      user e = ground arith
  nulltest_qual-some other_test n spec h = cc
  nulltest_qual-some is_null null_node spec h = cc
  nulltest_qual-some is_null (bool_expr b ns) spec h = cc
  nulltest_qual-some is_null (op_expr o c ns) spec h = cc
  nulltest_qual-some is_null (null_test w n) spec h = cc
  nulltest_qual-some is_null (array_op o c z ns) spec h = cc
  nulltest_qual-some is_null (relabel n) spec h = cc
  nulltest_qual-some is_null other_node spec h = cc
  nulltest_qual-some is_null (const w x) spec h = cc
  nulltest_qual-some is_not_null null_node spec h = cc
  nulltest_qual-some is_not_null (bool_expr b ns) spec h = cc
  nulltest_qual-some is_not_null (op_expr o c ns) spec h = cc
  nulltest_qual-some is_not_null (null_test w n) spec h = cc
  nulltest_qual-some is_not_null (array_op o c z ns) spec h = cc
  nulltest_qual-some is_not_null (relabel n) spec h = cc
  nulltest_qual-some is_not_null other_node spec h = cc
  nulltest_qual-some is_not_null (const w x) spec h = cc
