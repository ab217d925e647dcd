-- ===== src/Metapage.antt =====
-- The metapage of an index and its byte blob (src/index_storage.rs: `page_blob` to `read_blob`,
-- `write_summary`, `read_summary`). PostgreSQL's page functions are parameters. A buffer's lock is
-- held from the read to the write, so each operation is one step on the blocks of the main fork.
pub mod Blob
pub mod Stored
mod Tests
use pg_table_range.Base.{
  ℕ, zero, suc, ◌+◌, ◌-◌, ◌≤◌, ◌<◌, ◌≡◌, ◌≢◌, Bool, true, false, ◌||◌, Option, none, some, List, [],
  ◌∷◌, ◌++◌, length, take, drop, ltb, ◌==◌, if◌then◌else◌, bytes_eq, Result, ok, err, Attempt,
  known, unknown, raised, blob_exceeds_page,
}
use pg_table_range.Bytes.{Bytes, u32_to_le_bytes, u32_from_le_bytes}
use pg_table_range.Summary.{IndexSummary}
use pg_table_range.Codec.{deserialize}
use pg_table_range.Fitting.{max_blob_len, encode_fitting, Encoded}

-- The header fields that the code touches, and the bytes behind the header (`PageGetContents`).
pub record Page : Type 0 where
  pub pd_lower : ℕ
  pub pd_upper : ℕ
  pub contents : Bytes

-- The server's page functions, and the page that `ReadBuffer` with `P_NEW` adds.
pub record PageApi : Type 0 where
  pub blcksz : ℕ
  pub page_is_new : Page → Bool
  pub page_init : Page → Page
  pub new_page : Page
  pub generic_xlog_finish : Page → Page

-- The contents have the block's size less a header of at most 24 bytes.
abbrev pub HasRoom : PageApi → Page → Type 0
HasRoom api p = api.blcksz ≤ length p.contents + 24

-- What PostgreSQL documents of them: a page is new while `pd_upper` is 0, and `PageInit` sets it;
-- `GenericXLogFinish` zeroes the hole between `pd_lower` and `pd_upper`, so without a hole it keeps
-- the page as it is.
pub record PageLaws (api : PageApi) : Type 0 where
  pub least_block : 1024 ≤ api.blcksz
  pub block_size : api.blcksz ≤ 32768
  pub is_new : (p : Page) → api.page_is_new p ≡ (p.pd_upper == 0)
  pub init_upper : (p : Page) → (api.page_init p).pd_upper ≢ 0
  pub init_room : (p : Page) → HasRoom api p → HasRoom api (api.page_init p)
  pub new_room : HasRoom api api.new_page
  pub finish_no_hole : (p : Page) → p.pd_lower ≡ p.pd_upper → api.generic_xlog_finish p ≡ p

-- `copy_nonoverlapping` of the data to an offset of the contents.
unfoldable pub write_at : ℕ → Bytes → Bytes → Bytes
write_at offset bytes dest = take offset dest ++ (bytes ++ drop (offset + length bytes) dest)

-- `current.as_deref() == Some(expected)`
abbrev pub is_expected : Option Bytes → Bytes → Bool
is_expected none expected = false
is_expected (some current) expected = bytes_eq current expected

abbrev pub deserialized : Option Bytes → Option IndexSummary
deserialized none = none
deserialized (some blob) = deserialize blob

module _ (api : PageApi) where
  open api use {blcksz, page_is_new, page_init, new_page, generic_xlog_finish}

  -- The length prefix is in the machine's byte order, here little-endian.
  pub page_blob : Page → Option Bytes
  page_blob page =
      if page_is_new page
      then none
      else let len = u32_from_le_bytes (take 4 page.contents) in
        if (len == 0) || ltb (max_blob_len blcksz) len
        then none
        else some (take len (drop 4 page.contents))

  pub put_blob : Page → Bool → Bytes → Page
  put_blob page is_new bytes =
      let p1 = if is_new || page_is_new page then page_init page else page in
      let c1 = write_at 0 (u32_to_le_bytes (length bytes)) p1.contents in
      let c2 = write_at 4 bytes c1 in
      let p2 = record p1 { contents = c2 } in
      generic_xlog_finish (record p2 { pd_lower = p2.pd_upper })

  -- Block 0, or a new block where there is none.
  abbrev pub put_first : List Page → Bytes → List Page
  put_first [] bytes = put_blob new_page true bytes ∷ []
  put_first (page ∷ pages) bytes = put_blob page false bytes ∷ pages

  unfoldable pub write_blob : List Page → Bytes → Result (List Page)
  unfolding put_blob write_at
  write_blob pages bytes =
      if ltb (max_blob_len blcksz) (length bytes)
      then err blob_exceeds_page
      else ok (put_first pages bytes)

  unfoldable pub read_blob : List Page → Option Bytes
  unfolding page_blob
  read_blob [] = none
  read_blob (page ∷ pages) = page_blob page

  abbrev pub replace_first : List Page → Bytes → Bytes → Bool × List Page
  replace_first [] expected bytes = (false, [])
  replace_first (page ∷ pages) expected bytes =
      if is_expected (page_blob page) expected
      then (true, put_blob page false bytes ∷ pages)
      else (false, page ∷ pages)

  unfoldable pub replace_blob_if : List Page → Bytes → Bytes → Result (Bool × List Page)
  unfolding page_blob put_blob
  replace_blob_if pages expected bytes =
      if ltb (max_blob_len blcksz) (length bytes)
      then err blob_exceeds_page
      else ok (replace_first pages expected bytes)

  unfoldable pub read_summary : List Page → Option IndexSummary
  unfolding read_blob
  read_summary pages = deserialized (read_blob pages)

  abbrev write_encoded : List Page → Option Encoded → Option (Result (List Page))
  write_encoded pages none = none
  write_encoded pages (some e) = some (write_blob pages e.bytes)

  -- `none` only if the loop of `encode_fitting` ran out of fuel, which it does not.
  unfoldable pub write_summary : List Page → IndexSummary → Option (Result (List Page))
  write_summary pages s = write_encoded pages (encode_fitting blcksz s)
