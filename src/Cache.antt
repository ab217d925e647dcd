-- ===== src/Cache.antt =====
-- Relcache invalidations and the backend's summary cache (src/summary_cache.rs). The cache is an
-- association list from index Oids; a summary in it is the list of columns, empty for "no summary".
pub mod Laws
mod Tests
use pg_table_range.Base.{ℕ, Option, none, some, List, [], ◌∷◌, ◌++◌, ◌==◌, if◌then◌else◌}
use pg_table_range.Summary.{ColSummary}

abbrev pub Cache : Type 0
Cache = List (ℕ × List ColSummary)

unfoldable pub get : ℕ → Cache → Option (List ColSummary)
get indexoid [] = none
get indexoid ((key, summary) ∷ rest) = if key == indexoid then some summary else get indexoid rest

unfoldable pub remove : ℕ → Cache → Cache
remove indexoid [] = []
remove indexoid ((key, summary) ∷ rest) =
    let others = remove indexoid rest in if key == indexoid then others else (key, summary) ∷ others

unfoldable pub put : ℕ → List ColSummary → Cache → Cache
unfolding remove
put indexoid summary cache = (indexoid, summary) ∷ remove indexoid cache

-- The invalidation messages that a widening sends, one for the index and one for its heap.
unfoldable pub note_widened : ℕ → ℕ → List ℕ → List ℕ
note_widened indexoid heapoid messages = messages ++ (indexoid ∷ heapoid ∷ [])

-- The invalid Oid flushes everything.
unfoldable pub relcache_callback : ℕ → Cache → Cache
unfolding remove
relcache_callback relid cache = if relid == 0 then [] else remove relid cache
