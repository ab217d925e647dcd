-- ===== src/Metapage/Blob.antt =====
-- A blob that is written to the metapage is read back, and no write leaves the page.
use pg_table_range.Base.{
  ℕ, ◌+◌, ◌-◌, ◌≤◌, ◌<◌, ◌≡◌, ◌≢◌, refl, inl, inr, Bool, true, false, ◌||◌, some, ◌++◌, length,
  take, drop, take-append, length-append, length-drop, length-take, Bool-cases, ltb, ◌==◌,
  if◌then◌else◌, arith,
}
use pg_table_range.Bytes.{Bytes, u32_to_le_bytes, u32_from_le_bytes}
use pg_table_range.Bytes.Laws.{u32_from-u32_to, length-u32_to}
use pg_table_range.Fitting.{max_blob_len}
use pg_table_range.Metapage.{Page, PageApi, PageLaws, HasRoom, write_at, page_blob, put_blob}

length-write_at :
    (offset : ℕ) (bytes dest : Bytes)
    → offset + length bytes ≤ length dest
    → length (write_at offset bytes dest) ≡ length dest
unfolding write_at
length-write_at offset bytes dest h = omega (
  arith,
  length-append (take offset dest) (bytes ++ drop (offset + length bytes) dest),
  length-append bytes (drop (offset + length bytes) dest),
  length-take offset dest,
  length-drop (offset + length bytes) dest,
)

-- The contents as `put_blob` leaves them.
abbrev prefixed : Bytes → Bytes → Bytes
prefixed bytes dest = write_at 4 bytes (write_at 0 (u32_to_le_bytes (length bytes)) dest)

prefixed_lem :
    (bytes dest : Bytes)
    → (behind : Bytes) × (prefixed bytes dest ≡ u32_to_le_bytes (length bytes) ++ (bytes ++ behind))
unfolding write_at u32_to_le_bytes
prefixed_lem bytes dest = (_, refl)

length-prefixed :
    (bytes dest : Bytes)
    → 4 + length bytes ≤ length dest
    → length (prefixed bytes dest) ≡ length dest
length-prefixed bytes dest h = omega (
  arith,
  length-write_at 4 bytes (write_at 0 (u32_to_le_bytes (length bytes)) dest) (omega (arith, first)),
  first,
)
  where
    first : length (write_at 0 (u32_to_le_bytes (length bytes)) dest) ≡ length dest
    first =
        length-write_at 0 (u32_to_le_bytes (length bytes)) dest
          (omega (arith, length-u32_to (length bytes)))

module _ (api : PageApi) (laws : PageLaws api) where
  open api use {blcksz, page_is_new, page_init, generic_xlog_finish}

  -- A page that holds a prefix and the bytes that it counts gives these bytes.
  page_blob-prefixed :
      (page : Page) (bytes behind : Bytes)
      → page.pd_upper ≢ 0
      → page.contents ≡ u32_to_le_bytes (length bytes) ++ (bytes ++ behind)
      → 0 < length bytes
      → length bytes ≤ max_blob_len blcksz
      → page_blob api page ≡ some bytes
  unfolding page_blob max_blob_len
  page_blob-prefixed page bytes behind used e pos fits =
      rw
        (laws.is_new page, unused, e, prefix, back, nonzero, small, after, take-append bytes behind)
        refl
    where
      unused : (page.pd_upper == 0) ≡ false
      unused = ground arith

      prefix :
          take 4 (u32_to_le_bytes (length bytes) ++ (bytes ++ behind))
          ≡ u32_to_le_bytes (length bytes)
      prefix = unfold u32_to_le_bytes in refl

      after : drop 4 (u32_to_le_bytes (length bytes) ++ (bytes ++ behind)) ≡ bytes ++ behind
      after = unfold u32_to_le_bytes in refl

      back : u32_from_le_bytes (u32_to_le_bytes (length bytes)) ≡ length bytes
      back = u32_from-u32_to (length bytes) (omega (arith, laws.block_size))

      nonzero : (length bytes == 0) ≡ false
      nonzero = ground arith

      small : ltb (blcksz - 64) (length bytes) ≡ false
      small = ground arith

  -- The page that `put_blob` writes into.
  abbrev pub target : Page → Bool → Page
  target page is_new = if is_new || page_is_new page then page_init page else page

  target-used : (page : Page) (is_new : Bool) → (target page is_new).pd_upper ≢ 0
  target-used page true = laws.init_upper page
  target-used page false = elim (Bool-cases (page_is_new page)) [
    | inl e ↦ rw e (laws.init_upper page)
    | inr e ↦ rw e (ground (arith, laws.is_new page))
  ]

  target-HasRoom :
      (page : Page) (is_new : Bool) → HasRoom api page → HasRoom api (target page is_new)
  target-HasRoom page true h = laws.init_room page h
  target-HasRoom page false h = elim (Bool-cases (page_is_new page)) [
    | inl e ↦ rw e (laws.init_room page h)
    | inr e ↦ rw e h
  ]

  -- With `pd_lower` raised to `pd_upper` the log record keeps the contents.
  put_blob_lem :
      (page : Page) (is_new : Bool) (bytes : Bytes)
      → put_blob api page is_new bytes ≡ record {
        pd_lower = (target page is_new).pd_upper;
        pd_upper = (target page is_new).pd_upper;
        contents = prefixed bytes (target page is_new).contents;
      }
  unfolding put_blob
  put_blob_lem page is_new bytes = laws.finish_no_hole _ refl

  -- Whatever the page was, the blob that `put_blob` writes to it is the one `page_blob` returns.
  pub page_blob-put_blob :
      (page : Page) (is_new : Bool) (bytes : Bytes)
      → 0 < length bytes
      → length bytes ≤ max_blob_len blcksz
      → page_blob api (put_blob api page is_new bytes) ≡ some bytes
  page_blob-put_blob page is_new bytes pos fits =
      rw (put_blob_lem page is_new bytes)
        (page_blob-prefixed _ bytes behind.0 (target-used page is_new) behind.1 pos fits)
    where
      behind :
          (behind : Bytes) × (prefixed bytes (target page is_new).contents
            ≡ u32_to_le_bytes (length bytes) ++ (bytes ++ behind))
      behind = prefixed_lem bytes (target page is_new).contents

  -- The write stays on the page: the contents keep their length.
  pub length-put_blob :
      (page : Page) (is_new : Bool) (bytes : Bytes)
      → HasRoom api page
      → length bytes ≤ max_blob_len blcksz
      → (length (put_blob api page is_new bytes).contents ≡ length (target page is_new).contents)
        × HasRoom api (put_blob api page is_new bytes)
  unfolding max_blob_len
  length-put_blob page is_new bytes room fits =
      rw (put_blob_lem page is_new bytes) (same, omega (arith, same, roomy))
    where
      roomy : HasRoom api (target page is_new)
      roomy = target-HasRoom page is_new room

      same :
          length (prefixed bytes (target page is_new).contents)
          ≡ length (target page is_new).contents
      same =
          length-prefixed bytes (target page is_new).contents
            (omega (arith, roomy, fits, laws.least_block))
