-- ===== src/Fitting.antt =====
-- Making a summary fit the metapage (src/index_storage.rs: `max_blob_len`, `encode_fitting`).
-- `blcksz` is PostgreSQL's block size, a constant of the server's build.
pub mod Choice
pub mod Relaxed
pub mod Loop
mod Tests
use pg_table_range.Base.{
  ℕ, zero, suc, ◌+◌, ◌-◌, Bool, Option, none, some, List, [], ◌∷◌, length, modify, leb, ltb,
  if◌then◌else◌,
}
use pg_table_range.Bytes.{Bytes}
use pg_table_range.Summary.{ColSummary, IndexSummary, bound_len, make_unbounded}
use pg_table_range.Codec.{serialize}

unfoldable pub max_blob_len : ℕ → ℕ
max_blob_len blcksz = blcksz - 64

-- A candidate of `max_by_key`: the column's index and its key.
pub record Candidate : Type 0 where
  pub index : ℕ
  pub key : ℕ

-- `max_by_key` returns the last of several maxima, so an earlier column wins only if it is larger.
pub better : ℕ → Option Candidate → Option Candidate
better key none = if ltb 0 key then some (record { index = 0; key = key }) else none
better key (some c) =
    if ltb c.key key
    then some (record { index = 0; key = key })
    else some (record c { index = suc c.index })

-- `cols.iter_mut().filter(|c| bound_len(c) > 0).max_by_key(|c| bound_len(c))`
pub largest_bounds : List ColSummary → Option Candidate
unfolding better
largest_bounds [] = none
largest_bounds (c ∷ cs) = better (bound_len c) (largest_bounds cs)

-- The summary after the call, and the bytes returned.
pub record Encoded : Type 0 where
  pub summary : IndexSummary
  pub bytes : Bytes

-- The `loop`, on fuel; `none` means that the fuel ran out.
pub fitting_loop : ℕ → ℕ → IndexSummary → Option Encoded
fitting_loop blcksz zero s = none
fitting_loop blcksz (suc fuel) s =
    let bytes = serialize s in
    if leb (length bytes) (max_blob_len blcksz)
    then some (record { summary = s; bytes = bytes })
    else elim (largest_bounds s.cols) [
      | none ↦ some (record { summary = s; bytes = bytes })
      | some c ↦ fitting_loop blcksz fuel (record { cols = modify c.index make_unbounded s.cols })
    ]

-- One round for each column, and a last one that returns.
unfoldable pub encode_fitting : ℕ → IndexSummary → Option Encoded
unfolding fitting_loop largest_bounds max_blob_len serialize bound_len make_unbounded
encode_fitting blcksz s = fitting_loop blcksz (suc (length s.cols)) s
