-- ===== src/Metapage/Stored.antt =====
-- What `write_blob`, `replace_blob_if`, `read_blob` and the typed summary promise together.
use pg_table_range.Base.{
  ℕ, ◌≤◌, ◌<◌, ◌≡◌, ◌≢◌, ◌↔◌, ap, ◌⊎◌, inl, inr, true, false, Option, none, some, List, [], ◌∷◌,
  length, Bool-cases, All, ltb, bytes_eq→eq, bytes_eq_refl, ok, err, blob_exceeds_page, arith,
}
use mathlib.Core.Option.{some-injective}
use pg_table_range.Bytes.{Bytes}
use pg_table_range.Summary.{IndexSummary, bound_len}
use pg_table_range.Codec.{serialize}
use pg_table_range.Codec.Size.{serialize_lem}
use pg_table_range.Codec.RoundTrip.{IsTyped}
use pg_table_range.Fitting.{max_blob_len, encode_fitting, Encoded}
use pg_table_range.Fitting.Relaxed.{AllRelaxed}
use pg_table_range.Fitting.Loop.{Fits, encode_fitting-Fits, deserialize-encode_fitting}
use pg_table_range.Metapage.{
  Page, PageApi, PageLaws, put_first, put_blob, page_blob, write_blob, read_blob, is_expected,
  replace_blob_if, read_summary, write_summary,
}
use pg_table_range.Metapage.Blob.{page_blob-put_blob}

pub is_expected_iff :
    (o : Option Bytes) (expected : Bytes) → (is_expected o expected ≡ true) ↔ (o ≡ some expected)
is_expected_iff none expected = (λ h. cc, λ h. cc)
is_expected_iff (some b) expected = (
  λ h. ap some (bytes_eq→eq b expected h),
  λ h. rw (some-injective b expected h) (bytes_eq_refl expected),
)

module _ (api : PageApi) (laws : PageLaws api) where
  open api use {blcksz}

  written :
      (pages : List Page) (bytes : Bytes)
      → 0 < length bytes
      → length bytes ≤ max_blob_len blcksz
      → (after : List Page) × (write_blob api pages bytes ≡ ok after)
        × (read_blob api after ≡ some bytes)
  unfolding write_blob read_blob
  written [] bytes pos fits =
      (put_first api [] bytes, ground arith, page_blob-put_blob api laws _ true bytes pos fits)
  written (page ∷ pages) bytes pos fits = (
    put_first api (page ∷ pages) bytes,
    ground arith,
    page_blob-put_blob api laws page false bytes pos fits,
  )

  too_large :
      (pages : List Page) (bytes : Bytes)
      → max_blob_len blcksz < length bytes
      → write_blob api pages bytes ≡ err blob_exceeds_page
  unfolding write_blob
  too_large pages bytes big = ground arith

  -- A blob that is not empty is either written, and a later read returns it, whatever the pages held
  -- before; or it exceeds the page, and the write is refused.
  pub read_blob-write_blob :
      (pages : List Page) (bytes : Bytes)
      → 0 < length bytes
      → ((after : List Page) × (write_blob api pages bytes ≡ ok after)
          × (read_blob api after ≡ some bytes)
          × (length bytes ≤ max_blob_len blcksz))
        ⊎ ((max_blob_len blcksz < length bytes)
            × (write_blob api pages bytes ≡ err blob_exceeds_page))
  read_blob-write_blob pages bytes pos =
      elim (Bool-cases (ltb (max_blob_len blcksz) (length bytes))) [
        | inl big ↦ inr (ground arith, too_large pages bytes (ground arith))
        | inr small ↦
            let (after, wrote, read) = written pages bytes pos (ground arith) in
            inl (after, wrote, read, ground arith)
      ]

  pub swapped_first :
      (pages : List Page) (expected bytes : Bytes)
      → 0 < length bytes
      → length bytes ≤ max_blob_len blcksz
      → read_blob api pages ≡ some expected
      → (after : List Page) × (replace_blob_if api pages expected bytes ≡ ok (true, after))
        × (read_blob api after ≡ some bytes)
  unfolding replace_blob_if read_blob
  swapped_first [] expected bytes pos fits e = cc
  swapped_first (page ∷ pages) expected bytes pos fits e = (
    put_blob api page false bytes ∷ pages,
    rw ((is_expected_iff (page_blob api page) expected).1 e) (ground arith),
    page_blob-put_blob api laws page false bytes pos fits,
  )

  kept_first :
      (pages : List Page) (expected bytes : Bytes)
      → length bytes ≤ max_blob_len blcksz
      → read_blob api pages ≢ some expected
      → replace_blob_if api pages expected bytes ≡ ok (false, pages)
  unfolding replace_blob_if read_blob
  kept_first [] expected bytes fits e = ground arith
  kept_first (page ∷ pages) expected bytes fits e =
      elim (Bool-cases (is_expected (page_blob api page) expected)) [
        | inl same ↦ absurd (e ((is_expected_iff (page_blob api page) expected).0 same))
        | inr other ↦ rw other (ground arith)
      ]

  not_swapped :
      (pages : List Page) (expected bytes : Bytes)
      → max_blob_len blcksz < length bytes
      → replace_blob_if api pages expected bytes ≡ err blob_exceeds_page
  unfolding replace_blob_if
  not_swapped pages expected bytes big = ground arith

  abbrev Swap : List Page → Bytes → Bytes → Type 0
  Swap pages expected bytes =
      (read_blob api pages ≡ some expected)
      × (after : List Page) × (replace_blob_if api pages expected bytes ≡ ok (true, after))
      × (read_blob api after ≡ some bytes)

  Swap-or_keep :
      (pages : List Page) (expected bytes : Bytes)
      → 0 < length bytes
      → length bytes ≤ max_blob_len blcksz
      → Swap pages expected bytes
        ⊎ ((read_blob api pages ≢ some expected)
            × (replace_blob_if api pages expected bytes ≡ ok (false, pages)))
  Swap-or_keep pages expected bytes pos fits =
      elim (Bool-cases (is_expected (read_blob api pages) expected)) [
        | inl same ↦
            let e = (is_expected_iff (read_blob api pages) expected).0 same in
            let (after, wrote, read) = swapped_first pages expected bytes pos fits e in
            inl (e, after, wrote, read)
        | inr other ↦
            let n : read_blob api pages ≢ some expected =
              λ e. cc (other, (is_expected_iff (read_blob api pages) expected).1 e) in
            inr (n, kept_first pages expected bytes fits n)
      ]

  -- The compare-and-swap, of bytes that are not empty, on each of its branches: the stored blob is
  -- the expected one, the answer is `true`, and a later read returns the new bytes; or the stored
  -- blob is not the expected one, the answer is `false`, and every block is as it was; or the bytes
  -- exceed the page and are refused.
  pub replace_blob_if_lem :
      (pages : List Page) (expected bytes : Bytes)
      → 0 < length bytes
      → ((read_blob api pages ≡ some expected)
          × (after : List Page) × (replace_blob_if api pages expected bytes ≡ ok (true, after))
          × (read_blob api after ≡ some bytes))
        ⊎ ((read_blob api pages ≢ some expected)
            × (replace_blob_if api pages expected bytes ≡ ok (false, pages)))
        ⊎ ((max_blob_len blcksz < length bytes)
            × (replace_blob_if api pages expected bytes ≡ err blob_exceeds_page))
  replace_blob_if_lem pages expected bytes pos =
      elim (Bool-cases (ltb (max_blob_len blcksz) (length bytes))) [
        | inl big ↦ inr (inr (ground arith, not_swapped pages expected bytes (ground arith)))
        | inr small ↦ elim (Swap-or_keep pages expected bytes pos (ground arith)) [
          | inl done ↦ inl done
          | inr kept ↦ inr (inl kept)
        ]
      ]

  serialize-pos : (s : IndexSummary) → 0 < length (serialize s)
  serialize-pos s = omega (arith, ap (length {A = ℕ}) (serialize_lem s))

  pub bytes-pos : (s : IndexSummary) (e : Encoded) → Fits blcksz s.cols e → 0 < length e.bytes
  bytes-pos s e f = omega (arith, ap (length {A = ℕ}) f.encoded, serialize-pos e.summary)

  abbrev pub Stored : List Page → IndexSummary → Type 0
  Stored pages s =
      (after : List Page) × (t : IndexSummary) × (write_summary api pages s ≡ some (ok after))
      × (read_summary api after ≡ some t)
      × AllRelaxed s.cols t.cols

  abbrev pub Refused : List Page → IndexSummary → Type 0
  Refused pages s =
      (e : Encoded) × (encode_fitting blcksz s ≡ some e)
      × (write_summary api pages s ≡ some (err blob_exceeds_page))
      × All (λ c. bound_len c ≡ 0) e.summary.cols

  stored :
      (pages : List Page) (s : IndexSummary) (e : Encoded)
      → All IsTyped s.cols
      → encode_fitting blcksz s ≡ some e
      → Fits blcksz s.cols e
      → length e.bytes ≤ max_blob_len blcksz
      → Stored pages s
  unfolding write_summary read_summary
  stored pages s e typed run f fits =
      let (after, wrote, read) = written pages e.bytes (bytes-pos s e f) fits in
      let (back, relaxed, _) =
        deserialize-encode_fitting blcksz s e (omega (arith, laws.block_size)) typed run fits in
      (after, e.summary, rw run (ap some wrote), rw read back, relaxed)

  refused :
      (pages : List Page) (s : IndexSummary) (e : Encoded)
      → encode_fitting blcksz s ≡ some e
      → Fits blcksz s.cols e
      → max_blob_len blcksz < length e.bytes
      → Refused pages s
  unfolding write_summary
  refused pages s e run f big = (
    e,
    run,
    rw run (ap some (too_large pages e.bytes big)),
    elim f.fits [ inl small ↦ absurd (omega arith) | inr left ↦ left ],
  )

  -- Writing a typed summary ends; either its encoding still exceeds the page with no bound left in
  -- it, and the write is refused, or a later read returns it with some columns made unbounded.
  pub read_summary-write_summary :
      (pages : List Page) (s : IndexSummary) → All IsTyped s.cols → Stored pages s ⊎ Refused pages s
  read_summary-write_summary pages s typed =
      let (e, run, f) = encode_fitting-Fits blcksz s in
      elim (Bool-cases (ltb (max_blob_len blcksz) (length e.bytes))) [
        | inl big ↦ inr (refused pages s e run f (ground arith))
        | inr small ↦ inl (stored pages s e typed run f (ground arith))
      ]
