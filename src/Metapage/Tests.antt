-- ===== src/Metapage/Tests.antt =====
-- Tests of the metapage, on the concrete page interface: the sample's encoding is written to an index
-- without blocks, and then swapped for other bytes.
use pg_table_range.Base.{
  ◌≡◌, ◌≢◌, ◌⊎◌, ◌≤◌, ◌<◌, true, false, some, List, [], ◌∷◌, arith, length, ok, err,
  blob_exceeds_page,
}
use pg_table_range.Fitting.{max_blob_len}
use pg_table_range.Bytes.{Bytes}
use pg_table_range.Metapage.{
  Page, HasRoom, page_blob, put_blob, write_blob, read_blob, replace_blob_if,
}
use pg_table_range.Metapage.Blob.{target, page_blob-put_blob, length-put_blob}
use pg_table_range.Metapage.Stored.{
  Stored, Refused, read_blob-write_blob, replace_blob_if_lem, read_summary-write_summary,
}
use pg_table_range.Samples.{two_cols, two_cols-IsTyped, small_blocks, small_blocks_laws, blank_page}

abbrev blob : Bytes
blob = 1 ∷ 2 ∷ 3 ∷ []

abbrev one_page : List Page
one_page = put_blob small_blocks blank_page false blob ∷ []

page_blob-put_blob_example :
    page_blob small_blocks (put_blob small_blocks blank_page false blob) ≡ some blob
unfolding max_blob_len
page_blob-put_blob_example =
    page_blob-put_blob small_blocks small_blocks_laws blank_page false blob (omega arith)
      (omega arith)

length-put_blob_example :
    (length (put_blob small_blocks blank_page false blob).contents
      ≡ length (target small_blocks small_blocks_laws blank_page false).contents)
    × HasRoom small_blocks (put_blob small_blocks blank_page false blob)
unfolding max_blob_len
length-put_blob_example =
    length-put_blob small_blocks small_blocks_laws blank_page false blob
      (small_blocks_laws.new_room) (omega arith)

read_blob-write_blob_example :
    ((after : List Page) × (write_blob small_blocks [] blob ≡ ok after)
      × (read_blob small_blocks after ≡ some blob)
      × (length blob ≤ max_blob_len 1024))
    ⊎ ((max_blob_len 1024 < length blob)
        × (write_blob small_blocks [] blob ≡ err blob_exceeds_page))
read_blob-write_blob_example =
    read_blob-write_blob small_blocks small_blocks_laws [] blob (omega arith)

replace_blob_if_example :
    ((read_blob small_blocks one_page ≡ some blob)
      × (after : List Page) × (replace_blob_if small_blocks one_page blob (9 ∷ [])
          ≡ ok (true, after))
      × (read_blob small_blocks after ≡ some (9 ∷ [])))
    ⊎ ((read_blob small_blocks one_page ≢ some blob)
        × (replace_blob_if small_blocks one_page blob (9 ∷ []) ≡ ok (false, one_page)))
    ⊎ ((max_blob_len 1024 < 1)
        × (replace_blob_if small_blocks one_page blob (9 ∷ []) ≡ err blob_exceeds_page))
replace_blob_if_example =
    replace_blob_if_lem small_blocks small_blocks_laws one_page blob (9 ∷ []) (omega arith)

read_summary-write_summary_example :
    Stored small_blocks small_blocks_laws [] two_cols
    ⊎ Refused small_blocks small_blocks_laws [] two_cols
read_summary-write_summary_example =
    read_summary-write_summary small_blocks small_blocks_laws [] two_cols two_cols-IsTyped
