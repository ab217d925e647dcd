-- ===== src/Build/Index/Ends.antt =====
-- How `ambuild` ends (src/index_am.rs, `am_build`; src/summary_build.rs): with its summary written, or
-- with an ERROR that has a reason.
use pg_table_range.Base.{
  ◌<◌, ◌≡◌, true, some, List, length, All, Error, known, partial_index, blob_exceeds_page,
}
use pg_table_range.Summary.{IndexSummary, bound_len}
use pg_table_range.Fitting.{Encoded, encode_fitting, max_blob_len}
use pg_table_range.Metapage.{Page, PageApi, PageLaws, read_blob}
use pg_table_range.Server.{Server}
use pg_table_range.StableIo.{Gucs, Session}
use pg_table_range.Build.Finish.{build_leaf_summary}
use pg_table_range.Build.Finish.Ends.{LeafRaises}
use pg_table_range.Build.Index.{IndexBuild, BuildInput}
use pg_table_range.Build.Ends.{Ends}

module _ (server_of : Gucs → Server) (session : Session) (api : PageApi) (laws : PageLaws api) where
  open api use {blcksz}

  -- The reasons of `ambuild`: the index is partial, a reason of the summary's build, or a summary that
  -- exceeds the page though none of its columns has a bound left.
  pub data BuildRaises (input : BuildInput) : Error → Type 0 where
    index_is_partial : input.is_partial ≡ true → BuildRaises input partial_index
    summary_raises : {e : Error} → LeafRaises server_of session input.tuples e → BuildRaises input e
    page_is_full :
        (s : IndexSummary) (e : Encoded)
        → build_leaf_summary server_of session input.attributes input.tuples ≡ known s
        → encode_fitting blcksz s ≡ some e
        → max_blob_len blcksz < length e.bytes
        → All (λ c. bound_len c ≡ 0) e.summary.cols
        → BuildRaises input blob_exceeds_page

  -- A later read of the index returns the built summary as it was encoded to fit.
  pub record HasWritten (input : BuildInput) (b : IndexBuild) : Type 0 where
    pub built : IndexSummary
    pub encoded : Encoded
    pub is_built : build_leaf_summary server_of session input.attributes input.tuples ≡ known built
    pub is_encoded : encode_fitting blcksz built ≡ some encoded
    pub reads : read_blob api b.pages ≡ some encoded.bytes
    pub heap : b.heap_tuples ≡ input.heap_tuples
    pub index : b.index_tuples ≡ 0

  -- The blocks after the write of the summary's encoding.
  AfterWrite : Encoded → List Page → Type 0
  AfterWrite e pages' = read_blob api pages' ≡ some e.bytes
