-- ===== src/Server/Types.antt =====
-- Names of types (src/summary_build.rs: `type_name_parts`, `qualified_type_name`).
use pg_table_range.Base.{
  ℕ, ◌||◌, Option, none, some, if◌then◌else◌, Attempt, known, raised, type_not_found,
  nul_in_identifier,
}
use pg_table_range.Bytes.{Bytes, has_nul}
use pg_table_range.Server.{Server}

-- The schema and the name; `None` where the type or its schema is not found.
unfoldable pub with_namespace : Server → ℕ → Option ℕ → Option (Bytes × Bytes)
with_namespace sv typ none = none
with_namespace sv typ (some nsp) = elim (sv.get_namespace_name nsp) [
  | none ↦ none
  | some name ↦ some (name, sv.typname typ)
]

unfoldable pub type_name_parts : Server → ℕ → Option (Bytes × Bytes)
unfolding with_namespace
type_name_parts sv typ = with_namespace sv typ (sv.type_namespace typ)

unfoldable pub qualified : Server → Option (Bytes × Bytes) → Attempt Bytes
qualified sv none = raised type_not_found
qualified sv (some (nsp, name)) =
    if has_nul nsp || has_nul name
    then raised nul_in_identifier
    else known (sv.quote_qualified_identifier nsp name)

unfoldable pub qualified_type_name : Server → ℕ → Attempt Bytes
unfolding qualified
qualified_type_name sv typ = qualified sv (type_name_parts sv typ)
