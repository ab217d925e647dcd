-- ===== src/Build/Scan/Planned.antt =====
-- The columns that the build plans (src/summary_build.rs: `plan_columns`).
use pg_table_range.Base.{
  ℕ, suc, ◌+◌, ◌<◌, ◌^◌, ◌≡◌, refl, inl, inr, true, Option, none, some, List, [], ◌∷◌, map, All,
  All-map, ◌==◌, ◌||◌, Result, or_raise, Ensures, Ensures-known, Ensures-bind, Ensures-if,
  Ensures-raised, subst, type_not_found, nul_in_identifier, or_raise-known, arith,
}
use pg_table_range.Bytes.{Bytes, is_utf8, has_nul}
use pg_table_range.Server.{Server, btree_cmp_proc}
use pg_table_range.Server.Types.{type_name_parts, qualified, qualified_type_name}
use pg_table_range.Widen.Row.{Row, Table, IsIn}
use pg_table_range.Build.{
  is_expression, min_max, range, geometry, unsupported, min_max_of, new_accumulator, plan_column,
  plan_columns,
}
use pg_table_range.Build.Holds.{with_text_io, IsRight}
use pg_table_range.Build.Scan.{tuple_of, index_column, IsTypedIndex, Built}

module _ {sv : Server} (table : Table sv) where
  open table use {type_of, collation_of, orders}

  module _ (out : ℕ → ℕ → Result (Option Bytes)) (inp : ℕ → Bytes → ℕ → Result ℕ) where
    abbrev run : Server
    run = with_text_io sv out inp

    min_max_of-IsRight :
        (n : ℕ) (p : Option ℕ)
        → btree_cmp_proc sv (sv.get_base_type (type_of n)) ≡ p
        → Ensures (IsRight (orders n)) (min_max_of run p)
    unfolding min_max_of
    min_max_of-IsRight n none e = Ensures-known (IsRight (orders n)) unsupported tt
    min_max_of-IsRight n (some p) e = Ensures-bind (or_raise (sv.fmgr_info p)) _ λ cmp info.
        Ensures-known (IsRight (orders n)) (min_max cmp none none) (p, e, or_raise-known _ cmp info)

    same_proc : (typ : ℕ) → btree_cmp_proc sv typ ≡ btree_cmp_proc run typ
    unfolding btree_cmp_proc
    same_proc typ = refl

    new_accumulator-IsRight :
        (n : ℕ) → Ensures (IsRight (orders n)) (new_accumulator run (type_of n))
    unfolding new_accumulator
    new_accumulator-IsRight n =
        Ensures-if (sv.get_typlen (type_of n) == 65534) _ _
          (λ e. Ensures-known (IsRight (orders n)) unsupported tt)
          λ e.
            Ensures-if (sv.get_typtype (sv.get_base_type (type_of n)) == 114) _ _
              (λ e. Ensures-bind (or_raise (sv.fmgr_info sv.range_merge)) _ λ merge info.
                Ensures-known (IsRight (orders n)) (range merge none) (or_raise-known _ merge info))
              λ e.
                Ensures-if _ _ _ (λ e. Ensures-known (IsRight (orders n)) (geometry [] none) tt)
                  (λ e.
                    min_max_of-IsRight n (btree_cmp_proc run (sv.get_base_type (type_of n)))
                      (same_proc _))

    qualified-is_utf8 :
        {ns : List ℕ} (index : IsTypedIndex table ns) (parts : Option (Bytes × Bytes))
        → Ensures (λ b. is_utf8 b ≡ true) (qualified run parts)
    unfolding qualified
    qualified-is_utf8 index none = Ensures-raised (λ b. is_utf8 b ≡ true) type_not_found
    qualified-is_utf8 index (some (nsp, name)) =
        Ensures-if (has_nul nsp || has_nul name) _ _
          (λ e. Ensures-raised (λ b. is_utf8 b ≡ true) nul_in_identifier)
          (λ e. Ensures-known (λ b. is_utf8 b ≡ true) _ (index.names nsp name))

    plan_column-Built :
        {all ns : List ℕ} (index : IsTypedIndex table ns) (pos n : ℕ)
        → ((row : Row) → tuple_of all row pos ≡ row n)
        → IsIn n ns
        → n < 2 ^ 16
        → Ensures (Built table all ns []) (plan_column run pos (index_column table n))
    unfolding plan_column qualified_type_name
    plan_column-Built {all} {ns} index pos n position i small =
        Ensures-bind (new_accumulator run (type_of n)) _ λ acc made.
          Ensures-bind (qualified_type_name run (type_of n)) _ λ name named.
            Ensures-known (Built table all ns []) _ (record {
              typ = refl;
              collation = refl;
              position = position;
              indexed = i;
              small = small;
              name = (qualified-is_utf8 index (type_name_parts run (type_of n))).at name named;
              right = (new_accumulator-IsRight n).at acc made;
              folded = tt;
            })

    plan_columns-Built :
        {all ns : List ℕ} (index : IsTypedIndex table ns) (pos : ℕ) (ms : List ℕ)
        → ((row : Row) (i : ℕ) → tuple_of all row (pos + i) ≡ tuple_of ms row i)
        → All (λ n. IsIn n ns) ms
        → All (λ n. n < 2 ^ 16) ms
        → Ensures (All (Built table all ns [])) (plan_columns run pos (map (index_column table) ms))
    unfolding plan_columns
    plan_columns-Built {all} {ns} index pos [] at i small =
        Ensures-known (All (Built table all ns [])) [] tt
    plan_columns-Built {all} {ns} index pos (n ∷ ms) at i small =
        let rest = plan_columns-Built index (suc pos) ms (later pos n ms at) i.1 small.1 in
        Ensures-if (is_expression n) _ _ (λ e. rest)
          λ e. Ensures-bind (plan_column run pos (index_column table n)) _ λ c made.
            Ensures-bind (plan_columns run (suc pos) (map (index_column table) ms)) _ λ cs rests.
              Ensures-known (All (Built table all ns [])) (c ∷ cs) (
                (plan_column-Built index pos n (first pos n ms at) i.0 small.0).at c made,
                rest.at cs rests,
              )
      where
        first :
            (pos n : ℕ) (ms : List ℕ)
            → ((row : Row) (i : ℕ) → tuple_of all row (pos + i) ≡ tuple_of (n ∷ ms) row i)
            → (row : Row) → tuple_of all row pos ≡ row n
        first pos n ms at row = subst (λ k. tuple_of all row k ≡ row n) (omega arith) (at row 0)

        later :
            (pos n : ℕ) (ms : List ℕ)
            → ((row : Row) (i : ℕ) → tuple_of all row (pos + i) ≡ tuple_of (n ∷ ms) row i)
            → (row : Row) (i : ℕ) → tuple_of all row (suc pos + i) ≡ tuple_of ms row i
        later pos n ms at row i =
            subst (λ k. tuple_of all row k ≡ tuple_of ms row i) (omega arith) (at row (suc i))

    IsIn-All : (ns : List ℕ) → All (λ n. IsIn n ns) ns
    IsIn-All [] = tt
    IsIn-All (n ∷ ns) = (inl refl, All-map (λ m h. inr h) ns (IsIn-All ns))

    -- The columns planned for an index on the attributes `ns`.
    pub plan_index-Built :
        (ns : List ℕ)
        → IsTypedIndex table ns
        → Ensures (All (Built table ns ns [])) (plan_columns run 0 (map (index_column table) ns))
    plan_index-Built ns index =
        plan_columns-Built index 0 ns
          (λ row i. subst (λ k. tuple_of ns row k ≡ tuple_of ns row i) (omega arith) refl)
          (IsIn-All ns) index.attnums
