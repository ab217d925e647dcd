-- ===== src/Insert/Swap.antt =====
-- The outcomes of the compare-and-swap of an insert.
use pg_table_range.Base.{
  ℕ, ◌<◌, ◌≤◌, ◌≡◌, ◌≢◌, sym, ap, ◌⊎◌, ◌∙◌, inl, inr, Bool, true, false, some, List, [], ◌∷◌,
  length, Error, Result, ok, err, arith,
}
use pg_table_range.Bytes.{Bytes}
use pg_table_range.Fitting.{max_blob_len}
use pg_table_range.Metapage.{
  Page, PageApi, PageLaws, read_blob, page_blob, replace_first, replace_blob_if,
}
use pg_table_range.Metapage.Stored.{swapped_first, is_expected_iff}
use pg_table_range.Insert.{Shared, Swapped, again, widened, failed, after_swap, swap_blob}

abbrev pages_of : Result (Bool × List Page) → List Page
pages_of (ok (b, pages)) = pages
pages_of (err e) = []

module _ (indexoid heapoid : ℕ) (sh sh' : Shared) where
  after_swap-widened :
      (r : Result (Bool × List Page))
      → after_swap indexoid heapoid sh r ≡ (widened, sh')
      → r ≡ ok (true, sh'.pages)
  unfolding after_swap
  after_swap-widened (ok (true, pages)) h =
      ap (λ (z : Swapped × Shared). let w : Result (Bool × List Page) = ok (true, z.1.pages) in w) h
  after_swap-widened (ok (false, pages)) h = cc
  after_swap-widened (err e) h = cc

  after_swap-again :
      (r : Result (Bool × List Page))
      → after_swap indexoid heapoid sh r ≡ (again, sh')
      → r ≡ ok (false, sh'.pages)
  unfolding after_swap
  after_swap-again (ok (true, pages)) h = cc
  after_swap-again (ok (false, pages)) h =
      ap (λ (z : Swapped × Shared). let w : Result (Bool × List Page) = ok (false, z.1.pages) in w)
        h
  after_swap-again (err e) h = cc

  after_swap-failed :
      (r : Result (Bool × List Page)) (e : Error)
      → after_swap indexoid heapoid sh r ≡ (failed e, sh')
      → sh' ≡ sh
  unfolding after_swap
  after_swap-failed (ok (true, pages)) e h = cc
  after_swap-failed (ok (false, pages)) e h = cc
  after_swap-failed (err x) e h = sym (ap (λ (z : Swapped × Shared). z.1) h)

  after_swap-kept :
      (r : Result (Bool × List Page)) (x : Swapped)
      → x ≢ widened
      → after_swap indexoid heapoid sh r ≡ (x, sh')
      → (r ≡ ok (false, sh'.pages)) ⊎ (sh'.pages ≡ sh.pages)
  unfolding after_swap
  after_swap-kept (ok (true, pages)) x n h = absurd (n (sym (ap (λ (z : Swapped × Shared). z.0) h)))
  after_swap-kept (ok (false, pages)) x n h = inl (
      ap (λ (z : Swapped × Shared). let w : Result (Bool × List Page) = ok (false, z.1.pages) in w)
        h)
  after_swap-kept (err e) x n h = inr (sym (ap (λ (z : Swapped × Shared). z.1.pages) h))

module _ (api : PageApi) (before after : Bytes) where
  open api use {blcksz}

  replace_blob_if-fits :
      (pages : List Page) (b : Bool) (pages' : List Page)
      → replace_blob_if api pages before after ≡ ok (b, pages')
      → (length after ≤ max_blob_len blcksz) × (replace_first api pages before after ≡ (b, pages'))
  unfolding replace_blob_if
  replace_blob_if-fits pages b pages' h = ground arith

  replace_first-false :
      (pages pages' : List Page)
      → replace_first api pages before after ≡ (false, pages')
      → pages' ≡ pages
  replace_first-false [] pages' h = sym (ap (λ (z : Bool × List Page). z.1) h)
  replace_first-false (page ∷ pages) pages' h = ground arith

  replace_first-true :
      (pages pages' : List Page)
      → replace_first api pages before after ≡ (true, pages')
      → read_blob api pages ≡ some before
  unfolding read_blob
  replace_first-true [] pages' h = cc
  replace_first-true (page ∷ pages) pages' h =
      (is_expected_iff (page_blob api page) before).0 (ground arith)

  changed_first :
      (pages pages' : List Page)
      → replace_first api pages before after ≡ (false, pages')
      → read_blob api pages ≢ some before
  unfolding read_blob
  changed_first [] pages' h e = cc
  changed_first (page ∷ pages) pages' h e =
      let same = (is_expected_iff (page_blob api page) before).1 e in absurd (ground (arith, same))

  -- Only a blob that has changed since it was read makes a swap lose.
  pub swap_blob-again :
      (indexoid heapoid : ℕ) (sh sh' : Shared)
      → swap_blob indexoid heapoid api sh before after ≡ (again, sh')
      → read_blob api sh.pages ≢ some before
  unfolding swap_blob
  swap_blob-again indexoid heapoid sh sh' h =
      changed_first sh.pages sh'.pages
        (replace_blob_if-fits sh.pages false sh'.pages
          (after_swap-again indexoid heapoid sh sh' _ h)).1

  -- A refused swap changes nothing, and sends no message.
  pub swap_blob-failed :
      (indexoid heapoid : ℕ) (sh sh' : Shared) (e : Error)
      → swap_blob indexoid heapoid api sh before after ≡ (failed e, sh')
      → sh' ≡ sh
  unfolding swap_blob
  swap_blob-failed indexoid heapoid sh sh' e h = after_swap-failed indexoid heapoid sh sh' _ e h

  module _ (laws : PageLaws api) (indexoid heapoid : ℕ) (sh sh' : Shared) where
    -- Only bytes that fit the page are ever swapped in.
    pub fits-of_widened :
        swap_blob indexoid heapoid api sh before after ≡ (widened, sh')
        → length after ≤ max_blob_len blcksz
    unfolding swap_blob
    fits-of_widened h =
        (replace_blob_if-fits sh.pages true sh'.pages
          (after_swap-widened indexoid heapoid sh sh' _ h)).0

    -- A swap that wins found the blob that was read before, and its bytes are the blob from then on.
    pub swap_blob-widened :
        0 < length after
        → swap_blob indexoid heapoid api sh before after ≡ (widened, sh')
        → (read_blob api sh.pages ≡ some before) × (read_blob api sh'.pages ≡ some after)
    unfolding swap_blob
    swap_blob-widened pos h = (found, rw (← same) read)
      where
        swapped : replace_blob_if api sh.pages before after ≡ ok (true, sh'.pages)
        swapped = after_swap-widened indexoid heapoid sh sh' _ h

        fits : length after ≤ max_blob_len blcksz
        fits = (replace_blob_if-fits sh.pages true sh'.pages swapped).0

        found : read_blob api sh.pages ≡ some before
        found =
            replace_first-true sh.pages sh'.pages
              (replace_blob_if-fits sh.pages true sh'.pages swapped).1

        written :
            (pages : List Page) × (replace_blob_if api sh.pages before after ≡ ok (true, pages))
            × (read_blob api pages ≡ some after)
        written = swapped_first api laws sh.pages before after pos fits found

        same : written.0 ≡ sh'.pages
        same = ap pages_of (sym written.1 ∙ swapped)

        read : read_blob api written.0 ≡ some after
        read = written.2

    -- A swap that does not win leaves the blocks as they are.
    pub swap_blob-kept :
        (r : Swapped)
        → r ≢ widened
        → swap_blob indexoid heapoid api sh before after ≡ (r, sh')
        → sh'.pages ≡ sh.pages
    unfolding swap_blob
    swap_blob-kept r n h = elim (after_swap-kept indexoid heapoid sh sh' _ r n h) [
      | inl lost ↦
          replace_first-false sh.pages sh'.pages
            (replace_blob_if-fits sh.pages false sh'.pages lost).1
      | inr same ↦ same
    ]
