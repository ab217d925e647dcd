-- ===== src/Build/Index/Covers.antt =====
-- What `ambuild` stores covers the tuples of its scan (src/index_am.rs, `am_build`).
use pg_table_range.Base.{
  ℕ, ap, ◌≡◌, sym, subst, ◌∙◌, inl, inr, Bool-cases, false, Option, some, List, [], ◌∷◌, map, All,
  All-map, ◌==◌, ==_iff, Result, blob_exceeds_page, Ensures, Ensures-known, Ensures-bind,
  Ensures-raised,
}
use mathlib.Core.Option.{some-injective}
use pg_table_range.Bytes.{Bytes}
use pg_table_range.Summary.{ColSummary, IndexSummary, find_col, find_col-head, find_col-skip}
use pg_table_range.Fitting.Relaxed.{AllRelaxed-IsTyped}
use pg_table_range.Metapage.{Page, PageApi, PageLaws, read_summary, write_summary}
use pg_table_range.Metapage.Stored.{Stored, read_summary-write_summary}
use pg_table_range.Server.{Server}
use pg_table_range.StableIo.{Gucs, Session}
use pg_table_range.StableIo.Pinned.{IsStable}
use pg_table_range.Widen.Covers.{CoversValue}
use pg_table_range.Widen.Row.{Row, Table, CoversRow, IsIn}
use pg_table_range.Insert.Improves.{
  IsIndexed, IsSound, find_col-AllRelaxed, Relaxed-collation, CoversRow-AllRelaxed,
}
use pg_table_range.Build.Holds.{with_text_io}
use pg_table_range.Build.Batch.{BatchExtents}
use pg_table_range.Build.Scan.{tuple_of, index_column, IsTypedIndex}
use pg_table_range.Build.Finish.{build_leaf_summary}
use pg_table_range.Build.Finish.Covers.{Finished, build_leaf_summary-Finished}
use pg_table_range.Build.Index.{IndexBuild, written, BuildInput, am_build}

find_col-All :
    (P : ColSummary → Type 0) (n : ℕ) (cs : List ColSummary)
    → All P cs
    → (c : ColSummary) → find_col n cs ≡ some c
    → P c × (c.attnum ≡ n)
find_col-All P n [] h c q = absurd (unfold find_col in cc)
find_col-All P n (x ∷ cs) h c q = elim (Bool-cases (x.attnum == n)) [
  | inl same ↦
      let e = (==_iff x.attnum n).0 same in
      let is_c = some-injective x c (sym (find_col-head n x cs e) ∙ q) in
      (subst P is_c h.0, subst (λ (z : ColSummary). z.attnum ≡ n) is_c e)
  | inr other ↦ find_col-All P n cs h.1 c (sym (find_col-skip n x cs other) ∙ q)
]

module _ {sv : Server} (table : Table sv) (ns : List ℕ) where
  open table use {orders}

  -- `ambuild` of a whole index: the scan passes the rows and counts `n` tuples.
  abbrev pub input_of : List Row → ℕ → BuildInput
  input_of rows n = record {
    is_partial = false;
    attributes = map (index_column table) ns;
    tuples = some (map (tuple_of ns) rows);
    heap_tuples = n;
  }

  -- The blocks hold a readable summary, sound and covering the rows.
  pub record Indexed (api : PageApi) (rows : List Row) (pages : List Page) : Type 0 where
    pub summary : IndexSummary
    pub reads : read_summary api pages ≡ some summary
    pub sound : IsSound table ns summary
    pub covers : All (CoversRow table summary.cols) rows

  Finished-covers :
      (rows : List Row) (cs : List ColSummary)
      → All (Finished table ns rows) cs
      → (n : ℕ) (c : ColSummary) → find_col n cs ≡ some c
      → All (λ (row : Row). CoversValue (orders n) c (row n)) rows
  Finished-covers rows cs h n c q =
      let (f, e) = find_col-All (Finished table ns rows) n cs h c q in
      subst (λ k. All (λ (row : Row). CoversValue (orders k) c (row k)) rows) e f.covers

  Finished-IsIndexed :
      (rows : List Row) (cs : List ColSummary)
      → All (Finished table ns rows) cs
      → IsIndexed table ns cs
  Finished-IsIndexed rows cs h n c q =
      let (f, e) = find_col-All (Finished table ns rows) n cs h c q in
      subst (λ k. IsIn k ns) e f.indexed

  -- A statement on all the columns that a row's value is tested against, row by row.
  each_row :
      (rows : List Row) (cs : List ColSummary)
      → ((n : ℕ) (c : ColSummary)
          → find_col n cs ≡ some c
          → All (λ (row : Row). CoversValue (orders n) c (row n)) rows)
      → All (CoversRow table cs) rows
  each_row [] cs h = tt
  each_row (r ∷ rs) cs h = (λ n c q. (h n c q).0, each_row rs cs (λ n c q. (h n c q).1))

  Stored-Indexed :
      (api : PageApi) (laws : PageLaws api) (pages : List Page) (rows : List Row) (s : IndexSummary)
      → All (Finished table ns rows) s.cols
      → Stored api laws pages s
      → Ensures (Indexed api rows) (written (write_summary api pages s))
  unfolding written
  Stored-Indexed api laws pages rows s h (after, t, wrote, reads, relaxed) = rw wrote (
      Ensures-known (Indexed api rows) after (record {
        summary = t;
        reads = reads;
        sound = record {
          typed = AllRelaxed-IsTyped s.cols t.cols relaxed (All-map (λ c f. f.typed) s.cols h);
          indexed = λ n d q.
              let (c, ec, r) = find_col-AllRelaxed table s.cols t.cols relaxed n d q in
              Finished-IsIndexed rows s.cols h n c ec;
          collations = λ n d q.
              let (c, ec, r) = find_col-AllRelaxed table s.cols t.cols relaxed n d q in
              let (f, e) = find_col-All (Finished table ns rows) n s.cols h c ec in
              Relaxed-collation table c d r ∙ f.collation ∙ ap table.collation_of e;
        };
        covers =
            All-map (λ row k. CoversRow-AllRelaxed table s.cols t.cols row relaxed k) rows
              (each_row rows s.cols (Finished-covers rows s.cols h));
      }))

  write_summary-Indexed :
      (api : PageApi) (laws : PageLaws api) (pages : List Page) (rows : List Row) (s : IndexSummary)
      → All (Finished table ns rows) s.cols
      → Ensures (Indexed api rows) (written (write_summary api pages s))
  unfolding written
  write_summary-Indexed api laws pages rows s h =
      elim (read_summary-write_summary api laws pages s (All-map (λ c f. f.typed) s.cols h)) [
        | inl st ↦ Stored-Indexed api laws pages rows s h st
        | inr (e, encoded, refused, gone) ↦
            rw refused (Ensures-raised (Indexed api rows) blob_exceeds_page)
      ]

  module _ (out : ℕ → ℕ → Result (Option Bytes)) (inp : ℕ → Bytes → ℕ → Result ℕ)
      (batches : (n : ℕ) → BatchExtents (orders n).extent out inp) (index : IsTypedIndex table ns)
      (server_of : Gucs → Server) (stable : (g : Gucs) → IsStable g → server_of g ≡ sv)
      (session : Session) (scanning : server_of session.gucs ≡ with_text_io sv out inp)
      (api : PageApi) (laws : PageLaws api) where
    -- When `ambuild` returns, a later read of the metapage gives a summary, whose columns are of the
    -- indexed attributes and which covers every tuple of the scan, whatever the server's calls gave
    -- and however many bounds were dropped to fit the page. Geometry batches follow `batches`.
    pub am_build-Indexed :
        (rows : List Row) (n : ℕ) (pages : List Page)
        → Ensures
            (λ (b : IndexBuild). Indexed api rows b.pages)
            (am_build server_of session api (input_of rows n) pages)
    unfolding am_build
    am_build-Indexed rows n pages =
        Ensures-bind
          (build_leaf_summary server_of session (map (index_column table) ns)
            (some (map (tuple_of ns) rows)))
          _
          λ s built. Ensures-bind (written (write_summary api pages s)) _ λ pages' wrote.
            Ensures-known (λ (b : IndexBuild). Indexed api rows b.pages) _
              ((write_summary-Indexed api laws pages rows s (
                  (build_leaf_summary-Finished table out inp batches ns index rows server_of stable
                      session scanning).at
                    s built)).at
                pages' wrote)
