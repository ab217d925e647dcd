-- ===== src/Build/Scan.antt =====
-- The scan folds every tuple into every column (src/summary_build.rs: `plan_columns`,
-- `build_callback`).
pub mod Planned
use pg_table_range.Base.{
  ℕ, zero, suc, ◌+◌, ◌<◌, ◌^◌, ◌≡◌, refl, sym, subst₂, inl, inr, true, Option, none, some, List, [],
  ◌∷◌, map, All, All-map, ◌==◌, ◌||◌, Result, or_raise, Ensures, Ensures-known, Ensures-bind,
  Ensures-if, Ensures-raised, subst, type_not_found, nul_in_identifier, or_raise-known, Ensures-imp,
  arith,
}
use pg_table_range.Bytes.{Bytes, is_utf8, has_nul}
use pg_table_range.Server.{Server, btree_cmp_proc}
use pg_table_range.Server.Types.{type_name_parts, qualified, qualified_type_name}
use pg_table_range.Widen.Row.{Row, Table, IsIn}
use pg_table_range.Build.{
  Accumulator, ColumnBuild, IndexColumn, is_expression, Tuple, min_max, range, geometry,
  unsupported, min_max_of, new_accumulator, plan_column, plan_columns, add_value, fold_value,
  build_callback, index_build_range_scan,
}
use pg_table_range.Build.Holds.{with_text_io, Holds, IsRight, Adds}
use pg_table_range.Build.Batch.{BatchExtents, add_value-Adds}

-- The tuple that the scan passes for a row, on an index on the attributes `ns`.
abbrev pub tuple_of : List ℕ → Row → Tuple
tuple_of [] row i = none
tuple_of (n ∷ ns) row zero = row n
tuple_of (n ∷ ns) row (suc i) = tuple_of ns row i

module _ {sv : Server} (table : Table sv) where
  open table use {type_of, collation_of, orders}

  abbrev pub index_column : ℕ → IndexColumn
  index_column n = record { heap_attnum = n; typoid = type_of n; collation = collation_of n }

  -- What the Rust types of the index's attributes and names say.
  pub record IsTypedIndex (ns : List ℕ) : Type 0 where
    pub attnums : All (λ n. n < 2 ^ 16) ns
    pub collations : (n : ℕ) → collation_of n < 2 ^ 32
    pub names : (nsp name : Bytes) → is_utf8 (sv.quote_qualified_identifier nsp name) ≡ true

  -- What a column has folded in of the value of one row.
  abbrev pub FoldedIn : ColumnBuild → Option ℕ → Type 0
  FoldedIn c none = 0 < c.nulls
  FoldedIn c (some v) = (0 < c.nonnull) × Holds (orders c.attnum) c.acc v

  pub record Built (all ns : List ℕ) (rows : List Row) (c : ColumnBuild) : Type 0 where
    pub typ : c.typ ≡ type_of c.attnum
    pub collation : c.collation ≡ collation_of c.attnum
    pub position : (row : Row) → tuple_of all row c.index_pos ≡ row c.attnum
    pub indexed : IsIn c.attnum ns
    pub small : c.attnum < 2 ^ 16
    pub name : is_utf8 c.type_name ≡ true
    pub right : IsRight (orders c.attnum) c.acc
    pub folded : All (λ (row : Row). FoldedIn c (row c.attnum)) rows

  module _ (out : ℕ → ℕ → Result (Option Bytes)) (inp : ℕ → Bytes → ℕ → Result ℕ) where
    abbrev run : Server
    run = with_text_io sv out inp

    module _ (batches : (n : ℕ) → BatchExtents (orders n).extent out inp) where
      FoldedIn-kept :
          (c : ColumnBuild) (acc : Accumulator) (u : Option ℕ)
          → ((v : ℕ) → Holds (orders c.attnum) c.acc v → Holds (orders c.attnum) acc v)
          → FoldedIn c u
          → FoldedIn (record c { nonnull = c.nonnull + 1; acc = acc }) u
      FoldedIn-kept c acc none keeps h = h
      FoldedIn-kept c acc (some v) keeps h = (omega (arith, h.0), keeps v h.1)

      FoldedIn-null :
          (c : ColumnBuild) (u : Option ℕ)
          → FoldedIn c u
          → FoldedIn (record c { nulls = c.nulls + 1 }) u
      FoldedIn-null c none h = omega (arith, h)
      FoldedIn-null c (some v) h = h

      fold_value-Built :
          (all ns : List ℕ) (rows : List Row) (row : Row) (c : ColumnBuild) (value : Option ℕ)
          → row c.attnum ≡ value
          → Built all ns rows c
          → Ensures (Built all ns (row ∷ rows)) (fold_value run c value)
      unfolding fold_value
      fold_value-Built all ns rows row c none e b =
          Ensures-known (Built all ns (row ∷ rows)) _ (record {
            typ = b.typ;
            collation = b.collation;
            position = b.position;
            indexed = b.indexed;
            small = b.small;
            name = b.name;
            right = b.right;
            folded = (
              rw e (omega arith),
              All-map (λ (r : Row). FoldedIn-null c (r c.attnum)) rows b.folded,
            );
          })
      fold_value-Built all ns rows row c (some v) e b =
          Ensures-bind (add_value run c.type_name c.typ c.collation v c.acc) _ λ acc go.
            let a = added.at acc go in
            Ensures-known (Built all ns (row ∷ rows)) _ (record {
              typ = b.typ;
              collation = b.collation;
              position = b.position;
              indexed = b.indexed;
              small = b.small;
              name = b.name;
              right = a.right;
              folded = (
                rw e (omega arith, a.adds),
                All-map (λ (r : Row). FoldedIn-kept c acc (r c.attnum) a.keeps) rows b.folded,
              );
            })
        where
          added :
              Ensures
                (Adds (orders c.attnum) c.acc v)
                (add_value run c.type_name c.typ c.collation v c.acc)
          added =
              subst₂
                (λ t k.
                  Ensures (Adds (orders c.attnum) c.acc v) (add_value run c.type_name t k v c.acc))
                (sym b.typ) (sym b.collation)
                (add_value-Adds (orders c.attnum) out inp (batches c.attnum) c.type_name v c.acc
                  b.right)

      build_callback-Built :
          (all ns : List ℕ) (rows : List Row) (row : Row) (cs : List ColumnBuild)
          → All (Built all ns rows) cs
          → Ensures (All (Built all ns (row ∷ rows))) (build_callback run (tuple_of all row) cs)
      unfolding build_callback
      build_callback-Built all ns rows row [] b =
          Ensures-known (All (Built all ns (row ∷ rows))) [] tt
      build_callback-Built all ns rows row (c ∷ cs) b =
          Ensures-bind (fold_value run c (tuple_of all row c.index_pos)) _ λ c' folded.
            Ensures-bind (build_callback run (tuple_of all row) cs) _ λ cs' rest.
              Ensures-known (All (Built all ns (row ∷ rows))) (c' ∷ cs') (
                (fold_value-Built all ns rows row c (tuple_of all row c.index_pos)
                      (sym (b.0.position row)) b.0).at
                    c' folded,
                (build_callback-Built all ns rows row cs b.1).at cs' rest,
              )

      -- The rows seen, the last one first.
      abbrev seen : List Row → List Row → List Row
      seen [] before = before
      seen (r ∷ rs) before = seen rs (r ∷ before)

      seen-All :
          (P : Row → Type 0) (rs before : List Row)
          → All P (seen rs before)
          → All P rs × All P before
      seen-All P [] before h = (tt, h)
      seen-All P (r ∷ rs) before h = let (a, b) = seen-All P rs (r ∷ before) h in ((b.0, a), b.1)

      scan-Built :
          (all ns : List ℕ) (rows before : List Row) (cs : List ColumnBuild)
          → All (Built all ns before) cs
          → Ensures
              (All (Built all ns (seen rows before)))
              (index_build_range_scan run (map (tuple_of all) rows) cs)
      unfolding index_build_range_scan
      scan-Built all ns [] before cs b = Ensures-known (All (Built all ns before)) cs b
      scan-Built all ns (r ∷ rs) before cs b =
          Ensures-bind (build_callback run (tuple_of all r) cs) _ λ cs' go.
            scan-Built all ns rs (r ∷ before) cs'
              ((build_callback-Built all ns before r cs b).at cs' go)

      seen-Built :
          (all ns : List ℕ) (rows : List Row) (c : ColumnBuild)
          → Built all ns (seen rows []) c
          → Built all ns rows c
      seen-Built all ns rows c b = record {
        typ = b.typ;
        collation = b.collation;
        position = b.position;
        indexed = b.indexed;
        small = b.small;
        name = b.name;
        right = b.right;
        folded = (seen-All _ rows [] b.folded).0;
      }

      -- After the scan every column has folded in its value of every tuple.
      pub index_build_range_scan-Built :
          (all ns : List ℕ) (rows : List Row) (cs : List ColumnBuild)
          → All (Built all ns []) cs
          → Ensures
              (All (Built all ns rows))
              (index_build_range_scan run (map (tuple_of all) rows) cs)
      index_build_range_scan-Built all ns rows cs b =
          Ensures-imp (λ cs' h. All-map (λ c. seen-Built all ns rows c) cs' h)
            (scan-Built all ns rows [] cs b)
