-- ===== src/Cache/Tests.antt =====
-- Tests of the summary cache, with entries for the indexes 16 and 18.
use pg_table_range.Base.{ℕ, ◌≡◌, ◌≢◌, ◌⊎◌, List, [], ◌∷◌, none}
use pg_table_range.Summary.{ColSummary}
use pg_table_range.Cache.{Cache, get, note_widened, relcache_callback}
use pg_table_range.Cache.Laws.{deliver, get-relcache_callback, get-note_widened}
use pg_table_range.Samples.{ten_to_twenty, no_values}

abbrev one_index : ℕ
one_index = 16

abbrev other_index : ℕ
other_index = 18

abbrev cols : List ColSummary
cols = ten_to_twenty ∷ []

abbrev warm : Cache
warm = (one_index, cols) ∷ (other_index, no_values ∷ []) ∷ []

get-relcache_callback_example :
    (((one_index ≡ 0) ⊎ (other_index ≡ one_index))
      × (get other_index (relcache_callback one_index warm) ≡ none))
    ⊎ ((one_index ≢ 0)
        × (other_index ≢ one_index)
        × (get other_index (relcache_callback one_index warm) ≡ get other_index warm))
get-relcache_callback_example = get-relcache_callback other_index one_index warm

get-note_widened_example : get one_index (deliver (note_widened one_index 17 (3 ∷ [])) warm) ≡ none
get-note_widened_example = get-note_widened one_index 17 (3 ∷ []) warm
