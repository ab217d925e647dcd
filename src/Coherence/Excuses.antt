-- ===== src/Coherence/Excuses.antt =====
-- When a cached summary may be older than the stored one: an invalidation is on its way to the backend,
-- or is held back by a transaction (src/summary_cache.rs).
use pg_table_range.Base.{
  ℕ, ◌≡◌, ◌≢◌, refl, sym, ◌∙◌, ◌⊎◌, inl, inr, Bool, Bool-cases, true, false, ◌||◌, some, List, [],
  ◌∷◌, ◌++◌, ◌==◌, ==_iff, ==_refl, if◌then◌else◌, arith,
}
use pg_table_range.Summary.{ColSummary}
use pg_table_range.Cache.{Cache, get, note_widened, relcache_callback}
use pg_table_range.Cache.Laws.{deliver, get-relcache_callback}
use pg_table_range.Coherence.{Cluster, set_at, invalidates, all_of}

pub set_at-cases {ℓ} :
    {A : Type ℓ} (f : ℕ → A) (i : ℕ) (a : A) (j : ℕ)
    → ((i ≡ j) × (set_at f i a j ≡ a)) ⊎ ((i ≢ j) × (set_at f i a j ≡ f j))
set_at-cases f i a j = elim (Bool-cases (i == j)) [
  | inl same ↦ inl ((==_iff i j).0 same, rw same refl)
  | inr other ↦ inr ((λ e. ground arith), rw other refl)
]

-- The invalidations of backend `k`'s transaction that backend `j` has not been given.
abbrev pub unseen : Cluster → ℕ → ℕ → List ℕ
unseen s j k = if j == k then s.current k else all_of s k

pub or-true : (a b : Bool) → (a || b) ≡ true → (a ≡ true) ⊎ (b ≡ true)
or-true a b h = ground arith

module _ (indexoid : ℕ) where
  pub invalidates-append :
      (ms ns : List ℕ)
      → invalidates indexoid (ms ++ ns) ≡ (invalidates indexoid ms || invalidates indexoid ns)
  invalidates-append [] ns = refl
  invalidates-append (m ∷ ms) ns = ground (arith, invalidates-append ms ns)

  pub invalidates-left :
      (ms ns : List ℕ) → invalidates indexoid ms ≡ true → invalidates indexoid (ms ++ ns) ≡ true
  invalidates-left ms ns h = ground (arith, invalidates-append ms ns)

  pub invalidates-right :
      (ms ns : List ℕ) → invalidates indexoid ns ≡ true → invalidates indexoid (ms ++ ns) ≡ true
  invalidates-right ms ns h = ground (arith, invalidates-append ms ns)

  -- What is left of a cached entry was there before, and no message has named the index.
  pub callback-some :
      (m : ℕ) (cache : Cache) (cols : List ColSummary)
      → get indexoid (relcache_callback m cache) ≡ some cols
      → (get indexoid cache ≡ some cols) × ((m == 0 || m == indexoid) ≡ false)
  callback-some m cache cols h = elim (get-relcache_callback indexoid m cache) [
    | inl (hit, gone) ↦ absurd cc
    | inr (one, other, same) ↦ (sym same ∙ h, ground arith)
  ]

  pub deliver-some :
      (ms : List ℕ) (cache : Cache) (cols : List ColSummary)
      → get indexoid (deliver ms cache) ≡ some cols
      → (get indexoid cache ≡ some cols) × (invalidates indexoid ms ≡ false)
  deliver-some [] cache cols h = (h, refl)
  deliver-some (m ∷ ms) cache cols h =
      let later = deliver-some ms (relcache_callback m cache) cols h in
      let first = callback-some m cache cols later.0 in (first.0, ground (arith, later.1, first.1))

  pub invalidates-noted :
      (heapoid : ℕ) → invalidates indexoid (note_widened indexoid heapoid []) ≡ true
  unfolding note_widened
  invalidates-noted heapoid = ground (arith, ==_refl indexoid)

  -- What a backend has not seen is among what the transaction holds.
  pub unseen-all :
      (s : Cluster) (j k : ℕ)
      → invalidates indexoid (unseen s j k) ≡ true
      → invalidates indexoid (all_of s k) ≡ true
  unseen-all s j k h = elim (Bool-cases (j == k)) [
    | inl same ↦ invalidates-right (s.prior k) (s.current k) (sym (rw same refl) ∙ h)
    | inr other ↦ sym (rw other refl) ∙ h
  ]
