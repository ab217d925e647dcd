-- ===== src/Samples/Ints.antt =====
-- A concrete server, for the tests: one type, whose values are written as one byte.
use pg_table_range.Base.{
  ℕ, ◌+◌, ◌≤◌, Bool, leb, ◌≡◌, sym, subst, ◌∙◌, Bool-cases, inl, inr, Ordering, Option, none, some,
  [], ◌∷◌, ltb, ◌==◌, if◌then◌else◌, arith, known, known-injective, Result, ok, err, from_server,
}
use mathlib.Core.Option.{some-injective}
use pg_table_range.Bytes.{Bytes}
use pg_table_range.Server.{
  Server, i32_sign, text_of_cstr, oid_function_call2, datum_cmp, btree_cmp_proc, text_to_datum,
  datum_to_text, spi_value,
}
use pg_table_range.Widen.Covers.{Agrees, BtreeOrder, ExtentOrder, Orders}
use pg_table_range.Widen.Row.{Row, Table}

unfoldable pub compare_ints : ℕ → ℕ → ℕ
compare_ints a b = if ltb a b then 4294967295 else if a == b then 0 else 1

unfoldable pub larger : ℕ → ℕ → ℕ
larger a b = if ltb a b then b else a

abbrev answer : Bool → Result ℕ
answer b = ok (if b then 1 else 0)

-- Function 1 compares, 2 merges, 4 to 8 are the operators' functions, and any other tests whether an
-- extent reaches a constant.
unfoldable pub call_ints : ℕ → ℕ → ℕ → Result ℕ
call_ints p a b =
    if p == 1
    then ok (compare_ints a b)
    else if p == 2
    then ok (larger a b)
    else if p == 4
    then answer (ltb a b)
    else if p == 5
    then answer (leb a b)
    else if p == 6
    then answer (a == b)
    else if p == 7
    then answer (leb b a)
    else if p == 8
    then answer (ltb b a)
    else answer (leb b a)

unfoldable pub read_int : Bytes → Result ℕ
read_int (b ∷ []) = ok b
read_int _ = err (from_server 0)

-- Operators 1 to 5 are the strategies; an array constant has the elements 30 and NULL.
abbrev pub ints : Server
ints = record {
  get_base_type = λ t. t;
  type_output = λ t. 1;
  call_output = λ f d. ok (some (d ∷ []));
  type_input = λ t. (1, 0);
  call_input = λ f s p. read_int s;
  fmgr_info = λ p. ok p;
  function_call2 = λ p c a b. call_ints p a b;
  get_default_opclass = λ t. 1;
  get_opclass_family = λ o. 1;
  get_opclass_input_type = λ o. 1;
  get_opfamily_proc = λ f s t n. 1;
  op_input_types = λ o. (1, 1);
  get_op_opfamily_strategy = λ o f. if ltb o 6 then o else 0;
  get_typtype = λ t. 98;
  get_opname = λ o. none;
  get_opcode = λ o. o + 3;
  get_func_namespace = λ f. 0;
  type_namespace = λ t. some 11;
  typname = λ t. 110 ∷ [];
  get_namespace_name = λ n. some (112 ∷ []);
  quote_qualified_identifier = λ n t. 110 ∷ [];
  get_typlen = λ t. 4;
  get_array_type = λ t. 2;
  get_element_type = λ t. 1;
  deconstruct_array = λ t a. ok (some 30 ∷ none ∷ []);
  range_merge = 2;
  spi_ok_select = 5;
  spi_execute = λ sql. err (from_server 0);
  spi_execute_with_array = λ sql a t ds. err (from_server 0);
}

sign-compare_ints : (a b : ℕ) → Agrees (i32_sign (compare_ints a b)) (a ≤ b) (b ≤ a)
unfolding i32_sign compare_ints
sign-compare_ints a b = elim (Bool-cases (ltb a b)) [
  | inl less ↦ rw less (ground arith)
  | inr more ↦ elim (Bool-cases (a == b)) [
    | inl same ↦ rw (more, same) (ground arith)
    | inr other ↦ rw (more, other) (ground arith)
  ]
]

text_of : (s v : ℕ) (text : Bytes) → datum_to_text ints s v ≡ known text → text ≡ v ∷ []
unfolding datum_to_text text_of_cstr
text_of s v text h = ground arith

value_of : (t v d : ℕ) → text_to_datum ints t (v ∷ []) ≡ known d → v ≡ d
unfolding text_to_datum read_int
value_of t v d h = ground arith

pub text-value :
    (s t v d : ℕ) (text : Bytes)
    → datum_to_text ints s v ≡ known text
    → text_to_datum ints t text ≡ known d
    → v ≡ d
text-value s t v d text h k =
    value_of t v d (subst (λ z. text_to_datum ints t z ≡ known d) (text_of s v text h) k)

pub same_value :
    (s t a b : ℕ) (text : Bytes)
    → text_to_datum ints s text ≡ known a
    → text_to_datum ints t text ≡ known b
    → a ≡ b
unfolding text_to_datum
same_value s t a b text h k = known-injective a b (sym h ∙ k)

larger_le : (x y : ℕ) → (x ≤ larger x y) × (y ≤ larger x y)
unfolding larger
larger_le x y = ground arith

merged_le : (x y m : ℕ) → oid_function_call2 ints 2 0 x y ≡ known m → (x ≤ m) × (y ≤ m)
unfolding oid_function_call2 call_ints
merged_le x y m h =
    subst (λ z. (x ≤ z) × (y ≤ z)) (known-injective (larger x y) m h) (larger_le x y)

no_spi : (sql : Bytes) (r : Option Bytes) → spi_value ints sql ≡ known r → ⊥
unfolding spi_value
no_spi sql r = ground arith

pub cmp_ints :
    (a b : ℕ) (o : Ordering) → datum_cmp ints 1 0 a b ≡ known o → Agrees o (a ≤ b) (b ≤ a)
unfolding datum_cmp oid_function_call2 call_ints
cmp_ints a b o h =
    subst (λ z. Agrees z (a ≤ b) (b ≤ a)) (known-injective (i32_sign (compare_ints a b)) o h)
      (sign-compare_ints a b)

unfoldable pub int_order : BtreeOrder ints 1 0
unfolding btree_cmp_proc
int_order = record {
  Le = λ s a t b. a ≤ b;
  le_refl = λ s a. omega arith;
  le_trans = λ r s t a b c h k. omega arith;
  Compares = λ p s t. p ≡ 1;
  cmp_agrees =
      λ p s t a b o e h. cmp_ints a b o (subst (λ q. datum_cmp ints q 0 a b ≡ known o) e h);
  proc_compares = λ p h. sym (some-injective 1 p h);
  Parses = λ t. Unit;
  parses_base = tt;
  parses_agree = λ s t a b text p q h k. omega (arith, same_value s t a b text h k);
  round_trip = λ s v d text p h k.
      let e = text-value 1 s v d text h k in (omega (arith, e), omega (arith, e));
}

pub int_extent : ExtentOrder ints 1
int_extent = record {
  Within = λ d v. v ≤ d;
  IsEmpty = λ v. ⊥;
  within_self = λ v. omega arith;
  round_trip = λ m v d text h k w. omega (arith, text-value 1 1 m d text h k);
  merge_left = λ x y m v h w. omega (arith, (merged_le x y m h).0);
  merge_right = λ x y m v h w. omega (arith, (merged_le x y m h).1);
  extent_new = λ tn text w ext v d h run k. absurd (no_spi _ _ run);
  extent_old = λ tn text w e d run k. absurd (no_spi _ _ run);
  extent_null = λ tn text ext v h run. no_spi _ _ run;
}

unfoldable pub int_orders : Orders ints 1 0
int_orders = record { btree = int_order; extent = int_extent }

abbrev pub int_table : Table ints
int_table = record { type_of = λ n. 1; collation_of = λ n. 0; orders = λ n. int_orders }

-- A row whose first attribute is `v` and whose others are NULL.
abbrev pub row_of : ℕ → Row
row_of v n = if n == 1 then some v else none
