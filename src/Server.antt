-- ===== src/Server.antt =====
-- PostgreSQL's functions and catalogs, the parameter `Server` of the model, and the helpers of
-- src/prune_hook.rs and src/summary_build.rs that call them. An Oid and a Datum are numbers; the
-- invalid Oid is 0. A call that raises an ERROR is an `err`.
pub mod Geometry
pub mod Laws
pub mod Types
use Prim.Native.Char.{code}
use Prim.Native.String.{String}
use pg_table_range.Base.{
  ℕ, zero, suc, ◌+◌, ◌-◌, ◌%◌, ◌^◌, Ordering, Bool, true, false, Option, none, some, List, [], ◌∷◌,
  ltb, ◌==◌, if◌then◌else◌, Result, ok, err, or_raise, try_option, Attempt, known, unknown, raised,
  nul_in_sql, spi_failed, ◌>>=◌,
}
use pg_table_range.Bytes.{Bytes, is_utf8, has_nul}

pub record SpiResult : Type 0 where
  pub rc : ℕ
  pub processed : ℕ
  -- `SPI_getvalue` of the first column of the first row; `none` is NULL.
  pub value : Option Bytes

pub record Server : Type 0 where
  pub get_base_type : ℕ → ℕ
  pub type_output : ℕ → ℕ
  pub call_output : ℕ → ℕ → Result (Option Bytes)
  pub type_input : ℕ → ℕ × ℕ
  pub call_input : ℕ → Bytes → ℕ → Result ℕ
  -- `fmgr_info`: a function's call record.
  pub fmgr_info : ℕ → Result ℕ
  -- `FunctionCall2Coll` of a call record, a collation and two Datums.
  pub function_call2 : ℕ → ℕ → ℕ → ℕ → Result ℕ
  pub get_default_opclass : ℕ → ℕ
  pub get_opclass_family : ℕ → ℕ
  pub get_opclass_input_type : ℕ → ℕ
  pub get_opfamily_proc : ℕ → ℕ → ℕ → ℕ → ℕ
  pub op_input_types : ℕ → ℕ × ℕ
  pub get_op_opfamily_strategy : ℕ → ℕ → ℕ
  -- The byte of `pg_type.typtype`.
  pub get_typtype : ℕ → ℕ
  pub get_opname : ℕ → Option Bytes
  pub get_opcode : ℕ → ℕ
  pub get_func_namespace : ℕ → ℕ
  -- `pg_type.typnamespace`; `none` where there is no such type.
  pub type_namespace : ℕ → Option ℕ
  -- The name of a type, and that of a schema (`none` where there is none), decoded with replacement.
  pub typname : ℕ → Bytes
  pub get_namespace_name : ℕ → Option Bytes
  pub quote_qualified_identifier : Bytes → Bytes → Bytes
  -- `typlen`, the bit pattern of an `i16`.
  pub get_typlen : ℕ → ℕ
  pub get_array_type : ℕ → ℕ
  pub get_element_type : ℕ → ℕ
  -- `deconstruct_array` of an element type and a detoasted array; `none` is a NULL element.
  pub deconstruct_array : ℕ → ℕ → Result (List (Option ℕ))
  -- The Oid of `range_merge(anyrange, anyrange)`, and the result code of a SELECT.
  pub range_merge : ℕ
  pub spi_ok_select : ℕ
  pub spi_execute : Bytes → Result SpiResult
  -- `SPI_execute_with_args` with one argument: its array type, the element type and the elements.
  pub spi_execute_with_array : Bytes → ℕ → ℕ → List ℕ → Result SpiResult

abbrev pub invalid_oid : ℕ
invalid_oid = 0

abbrev pub btorder_proc : ℕ
btorder_proc = 1

-- The sign of `datum.value() as i32`.
unfoldable pub i32_sign : ℕ → Ordering
i32_sign d =
    let w = d % 2 ^ 32 in
    if w == 0 then Ordering.eq else if ltb w (2 ^ 31) then Ordering.gt else Ordering.lt

abbrev pub is_lt : Ordering → Bool
is_lt Ordering.lt = true
is_lt Ordering.eq = false
is_lt Ordering.gt = false

abbrev pub is_gt : Ordering → Bool
is_gt Ordering.lt = false
is_gt Ordering.eq = false
is_gt Ordering.gt = true

-- `CStr::from_ptr(p).to_str().ok()`, with the test for a null pointer before it.
unfoldable pub text_of_cstr : Option Bytes → Attempt Bytes
text_of_cstr none = unknown
text_of_cstr (some s) = if is_utf8 s then known s else unknown

-- `OidFunctionCall2Coll`: the lookup and the call.
unfoldable pub oid_function_call2 : Server → ℕ → ℕ → ℕ → ℕ → Attempt ℕ
oid_function_call2 sv proc collation a b = do
  finfo ← or_raise (sv.fmgr_info proc)
  or_raise (sv.function_call2 finfo collation a b)

-- `datum_cmp`, down to the sign, which is all that its callers read.
unfoldable pub datum_cmp : Server → ℕ → ℕ → ℕ → ℕ → Attempt Ordering
unfolding oid_function_call2 i32_sign
datum_cmp sv cmpproc collation a b = do
  d ← oid_function_call2 sv cmpproc collation a b
  known (i32_sign d)

unfoldable pub btree_cmp_proc : Server → ℕ → Option ℕ
btree_cmp_proc sv typ =
    let opclass = sv.get_default_opclass typ in
    let opfamily = sv.get_opclass_family opclass in
    let intype = sv.get_opclass_input_type opclass in
    let proc = sv.get_opfamily_proc opfamily intype intype btorder_proc in
    if opclass == invalid_oid then none else if proc == invalid_oid then none else some proc

unfoldable pub default_btree_family : Server → ℕ → Option ℕ
default_btree_family sv typ =
    let opclass = sv.get_default_opclass typ in
    let opfamily = sv.get_opclass_family opclass in
    if opclass == invalid_oid then none else if opfamily == invalid_oid then none else some opfamily

unfoldable pub text_to_datum : Server → ℕ → Bytes → Attempt ℕ
text_to_datum sv typ s =
    let (infunc, typioparam) = sv.type_input typ in
    if infunc == invalid_oid
    then unknown
    else if has_nul s
    then unknown
    else or_raise (sv.call_input infunc s typioparam)

unfoldable pub datum_to_text : Server → ℕ → ℕ → Attempt Bytes
unfolding text_of_cstr
datum_to_text sv typ datum =
    let outfunc = sv.type_output typ in
    if outfunc == invalid_oid
    then unknown
    else do cstr ← or_raise (sv.call_output outfunc datum); text_of_cstr cstr

-- The value of the first row; `none` for NULL, no row, or a value that is not UTF-8.
unfoldable pub first_value : SpiResult → Option Bytes
first_value r =
    if r.processed == 0
    then none
    else elim r.value [ none ↦ none | some s ↦ if is_utf8 s then some s else none ]

-- `CString::new(sql).expect(…)` panics on a NUL.
unfoldable pub spi_value : Server → Bytes → Attempt (Option Bytes)
unfolding first_value
spi_value sv sql = if has_nul sql then raised nul_in_sql else do
  r ← or_raise (sv.spi_execute sql)
  if r.rc == sv.spi_ok_select then known (first_value r) else raised spi_failed

-- The bytes of an ASCII literal of the source.
abbrev pub ascii : String → Bytes
ascii String.[] = []
ascii (String.◌∷◌ c s) = code c ∷ ascii s

-- An overlap operator's function on a column-side Datum and a constant, in the clause's order.
unfoldable pub call_overlap : Server → ℕ → ℕ → Bool → ℕ → ℕ → Attempt ℕ
unfolding oid_function_call2
call_overlap sv opfunc collation commuted d k =
    if commuted
    then oid_function_call2 sv opfunc collation k d
    else oid_function_call2 sv opfunc collation d k
