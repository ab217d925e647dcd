-- ===== src/Samples.antt =====
-- Concrete summaries and a concrete page interface, for the tests.
pub mod Ints
pub mod Inserts
pub mod Operators
pub mod Plans
use pg_table_range.Base.{
  ℕ, ◌==◌, ==_iff, replicate, length-replicate, ◌≡◌, ◌≢◌, refl, Bool, Option, none, some, List, [],
  ◌∷◌, All, length, arith, true, false, if◌then◌else◌,
}
use pg_table_range.Bytes.{Bytes, is_utf8}
use pg_table_range.Summary.{ColSummary, IndexSummary}
use pg_table_range.Codec.RoundTrip.{IsTyped}
use pg_table_range.Metapage.{Page, PageApi, PageLaws}

-- Bounds 10 to 20 of attribute 1, one byte each, of the type "n".
abbrev pub ten_to_twenty : ColSummary
ten_to_twenty = record {
  attnum = 1;
  overlap = false;
  type_name = 110 ∷ [];
  collation = 0;
  min = some (10 ∷ []);
  max = some (20 ∷ []);
  has_nulls = false;
  all_nulls = false;
  unbounded = false;
}

abbrev pub no_values : ColSummary
no_values = record ten_to_twenty {
  attnum = 2;
  min = none;
  max = none;
  has_nulls = true;
  all_nulls = true;
}

abbrev pub two_cols : IndexSummary
two_cols = record { cols = ten_to_twenty ∷ no_values ∷ [] }

pub ten_to_twenty-IsTyped : IsTyped ten_to_twenty
unfolding is_utf8
ten_to_twenty-IsTyped = record {
  attnum = omega arith;
  collation = omega arith;
  type_name = refl;
  min = refl;
  max = refl;
}

pub two_cols-IsTyped : All IsTyped (two_cols.cols)
unfolding is_utf8
two_cols-IsTyped = (
  ten_to_twenty-IsTyped,
  (
    record { attnum = omega arith; collation = omega arith; type_name = refl; min = tt; max = tt },
    tt,
  ),
)

-- Blocks of 1024 bytes, behind a header of 24.
unfoldable pub blank_page : Page
blank_page = record { pd_lower = 0; pd_upper = 0; contents = replicate 1000 0 }

-- `PageInit` of a page, its contents cleared.
unfoldable pub init_contents : Page → Page
init_contents p = record p {
  pd_lower = 24;
  pd_upper = 1024;
  contents = replicate (length p.contents) 0;
}

-- Without a hole the page is kept; otherwise the bytes behind `pd_lower` are lost.
unfoldable pub log_page : Bool → Page → Page
log_page true p = p
log_page false p = record p { contents = replicate (length p.contents) 0 }

abbrev pub small_blocks : PageApi
small_blocks = record {
  blcksz = 1024;
  page_is_new = λ p. p.pd_upper == 0;
  page_init = init_contents;
  new_page = blank_page;
  generic_xlog_finish = λ p. log_page (p.pd_lower == p.pd_upper) p;
}

pub small_blocks_laws : PageLaws small_blocks
unfolding init_contents blank_page log_page
small_blocks_laws = record {
  least_block = omega arith;
  block_size = omega arith;
  is_new = λ p. refl;
  init_upper = λ p e. omega (arith, e);
  init_room = λ p h. omega (arith, h, length-replicate {A = ℕ} (length p.contents) 0);
  new_room = omega (arith, length-replicate {A = ℕ} 1000 0);
  finish_no_hole = λ p e. rw ((==_iff p.pd_lower p.pd_upper).1 e) refl;
}
