-- ===== src/Fitting/Tests.antt =====
-- Tests of `encode_fitting`, on a page that the sample fits and on one that it does not fit.
use pg_table_range.Base.{ℕ, ◌≡◌, some, [], ◌∷◌, refl, arith, All}
use pg_table_range.Summary.{IndexSummary, make_unbounded}
use pg_table_range.Codec.{serialize, deserialize}
use pg_table_range.Codec.RoundTrip.{IsTyped}
use pg_table_range.Fitting.{Encoded, encode_fitting, max_blob_len, largest_bounds}
use pg_table_range.Fitting.Choice.{Picks, largest_bounds-Picks}
use pg_table_range.Fitting.Relaxed.{AllRelaxed}
use pg_table_range.Fitting.Loop.{Fits, encode_fitting-Fits, deserialize-encode_fitting}
use pg_table_range.Samples.{two_cols, two_cols-IsTyped, ten_to_twenty, no_values}

-- A page with room for 33 bytes, where the sample's encoding has 35.
abbrev narrow : ℕ
narrow = 97

abbrev narrowed : Encoded
narrowed =
    let s : IndexSummary = record { cols = make_unbounded ten_to_twenty ∷ no_values ∷ [] } in
    record { summary = s; bytes = serialize s }

narrow_run : encode_fitting narrow two_cols ≡ some narrowed
unfolding encode_fitting serialize make_unbounded
narrow_run = refl

encode_fitting-Fits_example :
    (e : Encoded) × (encode_fitting narrow two_cols ≡ some e) × Fits narrow two_cols.cols e
encode_fitting-Fits_example = encode_fitting-Fits narrow two_cols

deserialize-encode_fitting_example :
    (deserialize narrowed.bytes ≡ some narrowed.summary)
    × AllRelaxed two_cols.cols narrowed.summary.cols
    × All IsTyped narrowed.summary.cols
unfolding max_blob_len serialize make_unbounded
deserialize-encode_fitting_example =
    deserialize-encode_fitting narrow two_cols narrowed (omega arith) two_cols-IsTyped narrow_run
      (omega arith)

largest_bounds-Picks_example : Picks (largest_bounds two_cols.cols) two_cols.cols
largest_bounds-Picks_example = largest_bounds-Picks two_cols.cols
