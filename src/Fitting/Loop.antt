-- ===== src/Fitting/Loop.antt =====
-- `encode_fitting` ends, and what it returns (src/index_storage.rs).
use pg_table_range.Base.{
  ℕ, zero, suc, ◌≤◌, ◌<◌, ◌≡◌, refl, sym, ◌∙◌, ap, ◌⊎◌, inl, inr, Option-cases, some, List, [],
  length, modify, append-nil, All, arith, leb, leb→le, ◌^◌, subst, Bool-cases,
}
use mathlib.Core.Option.{some-injective}
use pg_table_range.Summary.{ColSummary, IndexSummary, bound_len, make_unbounded}
use pg_table_range.Codec.{serialize, deserialize}
use pg_table_range.Codec.RoundTrip.{IsTyped, deserialize-serialize}
use pg_table_range.Fitting.{largest_bounds, max_blob_len, Encoded, fitting_loop, encode_fitting}
use pg_table_range.Fitting.Choice.{
  droppable, Picks, largest_bounds-Picks, droppable-modify, droppable-le,
}
use pg_table_range.Fitting.Relaxed.{
  AllRelaxed, AllRelaxed-refl, AllRelaxed-trans, AllRelaxed-IsTyped, modify-AllRelaxed,
}

-- The result of the loop on a summary with the columns `cs`.
pub record Fits (blcksz : ℕ) (cs : List ColSummary) (e : Encoded) : Type 0 where
  -- The bytes are the encoding of the summary as the call leaves it.
  pub encoded : e.bytes ≡ serialize e.summary
  -- That summary is the given one with some columns made unbounded.
  pub relaxed : AllRelaxed cs e.summary.cols
  -- It fits, or no bound is left to drop.
  pub fits : (length e.bytes ≤ max_blob_len blcksz) ⊎ All (λ c. bound_len c ≡ 0) e.summary.cols

-- One more round: from the result on the columns left by it.
Fits-modify :
    {blcksz : ℕ} (cs : List ColSummary) (i : ℕ) (e : Encoded)
    → Fits blcksz (modify i make_unbounded cs) e
    → Fits blcksz cs e
Fits-modify cs i e f = record {
  encoded = f.encoded;
  relaxed = AllRelaxed-trans cs _ _ (modify-AllRelaxed i cs) f.relaxed;
  fits = f.fits;
}

fitting_loop-Fits :
    (blcksz fuel : ℕ) (s : IndexSummary)
    → droppable s.cols < fuel
    → (e : Encoded) × (fitting_loop blcksz fuel s ≡ some e) × Fits blcksz s.cols e
unfolding fitting_loop
fitting_loop-Fits blcksz zero s h = absurd (omega arith)
fitting_loop-Fits blcksz (suc fuel) s h =
    elim (Bool-cases (leb (length (serialize s)) (max_blob_len blcksz))) [
      | inl small ↦
          rw (small, fitting_loop)
            (
              here,
              refl,
              record {
                encoded = refl;
                relaxed = AllRelaxed-refl s.cols;
                fits = inl (leb→le _ _ small);
              },
            )
      | inr big ↦ elim (Option-cases (largest_bounds s.cols)) [
        | inl e ↦
            rw (big, e, fitting_loop)
              (
                here,
                refl,
                record {
                  encoded = refl;
                  relaxed = AllRelaxed-refl s.cols;
                  fits = inr (subst (λ o. Picks o s.cols) e (largest_bounds-Picks s.cols));
                },
              )
        | inr (p, e) ↦
            let (pos, (c, at, key), _, _) =
              subst (λ o. Picks o s.cols) e (largest_bounds-Picks s.cols) in
            let fewer = droppable-modify s.cols p.index c at (omega arith) in
            let (r, run, f) =
              fitting_loop-Fits blcksz fuel (record { cols = modify p.index make_unbounded s.cols })
                (omega arith) in
            rw (big, e, fitting_loop) (r, run, Fits-modify s.cols p.index r f)
      ]
    ]
  where
    here : Encoded
    here = record { summary = s; bytes = serialize s }

-- For every block size and summary the loop ends within one round for each column and one more.
-- The bytes it returns are the encoding of the summary that it leaves; that summary differs from
-- the given one only in columns made unbounded; and the bytes fit the page unless no column has a
-- bound left that could be dropped.
pub encode_fitting-Fits :
    (blcksz : ℕ) (s : IndexSummary)
    → (e : Encoded) × (encode_fitting blcksz s ≡ some e) × Fits blcksz s.cols e
unfolding encode_fitting
encode_fitting-Fits blcksz s =
    fitting_loop-Fits blcksz (suc (length s.cols)) s (omega (arith, droppable-le s.cols))

pub Fits-of_run :
    (blcksz : ℕ) (s : IndexSummary) (e : Encoded)
    → encode_fitting blcksz s ≡ some e
    → Fits blcksz s.cols e
Fits-of_run blcksz s e run =
    let (e', run', f) = encode_fitting-Fits blcksz s in
    subst (Fits blcksz s.cols) (some-injective e' e (sym run' ∙ run)) f

-- What `encode_fitting` returns for a page of at most 64 KiB, if it fits the page, is read back as
-- the summary that the call leaves, all of whose columns are the given ones or the given ones made
-- unbounded.
pub deserialize-encode_fitting :
    (blcksz : ℕ) (s : IndexSummary) (e : Encoded)
    → blcksz ≤ 2 ^ 16
    → All IsTyped s.cols
    → encode_fitting blcksz s ≡ some e
    → length e.bytes ≤ max_blob_len blcksz
    → (deserialize e.bytes ≡ some e.summary)
      × AllRelaxed s.cols e.summary.cols
      × All IsTyped e.summary.cols
unfolding max_blob_len
deserialize-encode_fitting blcksz s e block typed run fits = (back, f.relaxed, kept)
  where
    f : Fits blcksz s.cols e
    f = Fits-of_run blcksz s e run

    kept : All IsTyped e.summary.cols
    kept = AllRelaxed-IsTyped s.cols e.summary.cols f.relaxed typed

    small : length (serialize e.summary) < 2 ^ 16
    small = omega (arith, fits, block, ap (length {A = ℕ}) f.encoded)

    back : deserialize e.bytes ≡ some e.summary
    back =
        ap deserialize (f.encoded ∙ sym (append-nil (serialize e.summary)))
        ∙ deserialize-serialize e.summary [] kept small
