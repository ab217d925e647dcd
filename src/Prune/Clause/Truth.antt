-- ===== src/Prune/Clause/Truth.antt =====
-- What a clause on one column says of a row, in SQL, and what the code relies on of operators.
use pg_table_range.Base.{
  ℕ, ◌<◌, ◌%◌, ◌≡◌, ◌≢◌, ◌⊎◌, Bool, true, Option, none, some, List, [], ◌∷◌, ok, known,
}
use pg_table_range.Server.{
  Server, invalid_oid, btorder_proc, default_btree_family, oid_function_call2,
}
use pg_table_range.Widen.Covers.{OverlapOp, Orders}
use pg_table_range.Widen.Row.{Row, Table}
use pg_table_range.Prune.Clause.{
  Node, op_expr, null_test, array_op, relabel, var, const, nil, cons, is_null, is_not_null,
  strip_relabel, summary_parse_type, is_trusted_overlap_op,
}
use pg_table_range.Prune.Clause.Commute.{Relates}

-- The operator's function answers true; the truth of a Datum is its lowest byte.
abbrev pub OperatorTrue : Server → ℕ → ℕ → ℕ → ℕ → Type 0
OperatorTrue sv opno collation x y =
    (z : ℕ) × (oid_function_call2 sv (sv.get_opcode opno) collation x y ≡ known z) × (z % 256 ≢ 0)

-- The operators on a column of type `typ`. `Takes t`: an operand of type `t` may be the column, cast
-- by nothing but a relabelling. For those of the default btree family of `t`: the parse type reads the
-- column's texts, the family's support function compares it, and an operator that is true under the
-- column's collation relates its operands as its strategy says. A trusted `&&` decides overlap.
pub record Operators {sv : Server} {typ collation : ℕ} (o : Orders sv typ collation) : Type 1 where
  pub Takes : ℕ → Type 0
  pub parses : (t : ℕ) → Takes t → o.btree.Parses (summary_parse_type sv t typ)
  pub compares :
      (t u family : ℕ)
      → Takes t
      → default_btree_family sv t ≡ some family
      → sv.get_opfamily_proc family t u btorder_proc ≢ invalid_oid
      → o.btree.Compares
          (sv.get_opfamily_proc family t u btorder_proc)
          (summary_parse_type sv t typ)
          u
  pub relates :
      (opno t u family v k : ℕ)
      → Takes t
      → sv.op_input_types opno ≡ (t, u)
      → default_btree_family sv t ≡ some family
      → 0 < sv.get_op_opfamily_strategy opno family
      → OperatorTrue sv opno collation v k
      → Relates
          (sv.get_op_opfamily_strategy opno family)
          (o.btree.Le (sv.get_base_type typ) v u k)
          (o.btree.Le u k (sv.get_base_type typ) v)
  pub relates_commuted :
      (opno t u family v k : ℕ)
      → Takes t
      → sv.op_input_types opno ≡ (u, t)
      → default_btree_family sv t ≡ some family
      → 0 < sv.get_op_opfamily_strategy opno family
      → OperatorTrue sv opno collation k v
      → Relates
          (sv.get_op_opfamily_strategy opno family)
          (o.btree.Le u k (sv.get_base_type typ) v)
          (o.btree.Le (sv.get_base_type typ) v u k)
  pub overlaps :
      (opno collid : ℕ) (commuted : Bool)
      → is_trusted_overlap_op sv opno typ ≡ true
      → OverlapOp o.extent (sv.get_opcode opno) collid commuted

-- The values of expressions in a row, `none` being NULL, and the truth of the clauses of other shapes.
pub record Expressions (row : Row) : Type 1 where
  pub value : Node → Option ℕ
  pub value_var : (attnum typ : ℕ) → value (var attnum typ) ≡ row attnum
  pub value_const : (typ : ℕ) (v : Option ℕ) → value (const typ v) ≡ v
  pub value_relabel : (n : Node) → value (relabel n) ≡ value n
  pub OtherTrue : Node → Type 0

module _ (sv : Server) where
  -- Comparison with NULL is not true.
  abbrev pub BothTrue : ℕ → ℕ → Option ℕ → Option ℕ → Type 0
  BothTrue opno collation (some x) (some y) = OperatorTrue sv opno collation x y
  BothTrue opno collation (some x) none = ⊥
  BothTrue opno collation none y = ⊥

  abbrev pub SomeTrue : ℕ → ℕ → Option ℕ → List (Option ℕ) → Type 0
  SomeTrue opno collation x [] = ⊥
  SomeTrue opno collation x (e ∷ es) = BothTrue opno collation x e ⊎ SomeTrue opno collation x es

  -- `x op ANY (array)`, of a constant array.
  abbrev pub AnyElement : ℕ → ℕ → Option ℕ → ℕ → Option ℕ → Type 0
  AnyElement opno collation x typ none = ⊥
  AnyElement opno collation x typ (some a) =
      (es : List (Option ℕ)) × (sv.deconstruct_array (sv.get_element_type typ) a ≡ ok es)
      × SomeTrue opno collation x es

  module _ {row : Row} (ex : Expressions row) where
    abbrev pub ArrayTrue : Node → ℕ → ℕ → Option ℕ → Node → Type 0
    ArrayTrue whole opno collation x (const typ a) = AnyElement opno collation x typ a
    ArrayTrue whole opno collation x _ = ex.OtherTrue whole

    unfoldable pub LeafTrue : Node → Type 0
    LeafTrue (op_expr opno collation (cons l (cons r nil))) =
        BothTrue opno collation (ex.value l) (ex.value r)
    LeafTrue (null_test is_null n) = ex.value n ≡ none
    LeafTrue (null_test is_not_null n) = ex.value n ≢ none
    LeafTrue (array_op opno collation true (cons l (cons r nil))) =
        ArrayTrue (array_op opno collation true (cons l (cons r nil))) opno collation (ex.value l)
          (strip_relabel sv r)
    LeafTrue n = ex.OtherTrue n

-- What the parser has checked: a column has its type, and an operator takes it.
module _ {sv : Server} (table : Table sv) (ops : (n : ℕ) → Operators (table.orders n)) where
  abbrev pub TypedSides : ℕ → Node → Node → Type 0
  TypedSides opno (var attnum typ) (const u v) =
      (typ ≡ table.type_of attnum) × (ops attnum).Takes (sv.op_input_types opno).0
  TypedSides opno (const u v) (var attnum typ) =
      (typ ≡ table.type_of attnum) × (ops attnum).Takes (sv.op_input_types opno).1
  TypedSides opno l r = Unit

  unfoldable pub TypedLeaf : Node → Type 0
  TypedLeaf (op_expr opno collation (cons l (cons r nil))) =
      TypedSides opno (strip_relabel sv l) (strip_relabel sv r)
  TypedLeaf (array_op opno collation true (cons l (cons r nil))) =
      TypedSides opno (strip_relabel sv l) (strip_relabel sv r)
  TypedLeaf n = Unit
