-- ===== src/Cache/Laws.antt =====
-- What the summary cache promises (src/summary_cache.rs): a lookup after a store, after an
-- invalidation, and after the messages of a widening.
use pg_table_range.Base.{
  ℕ, ◌≡◌, ◌≢◌, refl, sym, ◌∙◌, ◌⊎◌, inl, inr, Bool-cases, false, none, some, List, [], ◌∷◌, ◌==◌,
  ==_iff, ==_refl, arith,
}
use pg_table_range.Summary.{ColSummary}
use pg_table_range.Cache.{Cache, get, put, remove, note_widened, relcache_callback}

ne_of_test : (a b : ℕ) → (a == b) ≡ false → a ≢ b
ne_of_test a b h e = ground arith

test_of_ne : (a b : ℕ) → a ≢ b → (a == b) ≡ false
test_of_ne a b n = ground arith

get-head : (k i : ℕ) (s : List ColSummary) (c : Cache) → i ≡ k → get k ((i, s) ∷ c) ≡ some s
unfolding get
get-head k i s c e = rw (e, ==_refl k) refl

get-skip :
    (k i : ℕ) (s : List ColSummary) (c : Cache) → (i == k) ≡ false → get k ((i, s) ∷ c) ≡ get k c
unfolding get
get-skip k i s c e = rw e refl

get-remove : (i : ℕ) (c : Cache) → get i (remove i c) ≡ none
unfolding remove get
get-remove i [] = refl
get-remove i ((j, s) ∷ c) = elim (Bool-cases (j == i)) [
  | inl same ↦ rw same (get-remove i c)
  | inr other ↦ rw (other, get) (rw other (get-remove i c))
]

get-remove_other : (k i : ℕ) (c : Cache) → k ≢ i → get k (remove i c) ≡ get k c
unfolding remove
get-remove_other k i [] n = refl
get-remove_other k i ((j, s) ∷ c) n = elim (Bool-cases (j == i)) [
  | inl same ↦ rw same (
      get-remove_other k i c n
      ∙ sym (get-skip k j s c (test_of_ne j k (λ e. n (sym e ∙ (==_iff j i).0 same)))))
  | inr other ↦ rw other (elim (Bool-cases (j == k)) [
    | inl found ↦
        (get-head k j s (remove i c) ((==_iff j k).0 found)
          ∙ sym (get-head k j s c ((==_iff j k).0 found)))
    | inr later ↦
        get-skip k j s (remove i c) later ∙ get-remove_other k i c n ∙ sym (get-skip k j s c later)
  ])
]

-- A stored summary is found under its index, and no other index's entry changes.
pub get-put :
    (k i : ℕ) (s : List ColSummary) (c : Cache)
    → ((k ≡ i) × (get k (put i s c) ≡ some s)) ⊎ ((k ≢ i) × (get k (put i s c) ≡ get k c))
unfolding put
get-put k i s c = elim (Bool-cases (i == k)) [
  | inl same ↦ let e = (==_iff i k).0 same in inl (sym e, get-head k i s (remove i c) e)
  | inr other ↦
      let n : k ≢ i = λ e. ne_of_test i k other (sym e) in
      inr (n, get-skip k i s (remove i c) other ∙ get-remove_other k i c n)
]

-- After an invalidation nothing is found for its relation, or for any relation if it names none;
-- other entries stay.
pub get-relcache_callback :
    (k relid : ℕ) (c : Cache)
    → (((relid ≡ 0) ⊎ (k ≡ relid)) × (get k (relcache_callback relid c) ≡ none))
      ⊎ ((relid ≢ 0) × (k ≢ relid) × (get k (relcache_callback relid c) ≡ get k c))
unfolding relcache_callback
get-relcache_callback k relid c = elim (Bool-cases (relid == 0)) [
  | inl flush ↦ inl (inl ((==_iff relid 0).0 flush), rw flush (unfold get in refl))
  | inr one ↦ elim (Bool-cases (k == relid)) [
    | inl same ↦ let e = (==_iff k relid).0 same in inl (inr e, rw (one, e) (get-remove relid c))
    | inr other ↦ inr (
      ne_of_test relid 0 one,
      ne_of_test k relid other,
      rw one (get-remove_other k relid c (ne_of_test k relid other)),
    )
  ]
]

-- The messages as a backend receives them, each given to the callback.
abbrev pub deliver : List ℕ → Cache → Cache
deliver [] c = c
deliver (m ∷ ms) c = deliver ms (relcache_callback m c)

deliver-none : (k : ℕ) (ms : List ℕ) (c : Cache) → get k c ≡ none → get k (deliver ms c) ≡ none
deliver-none k [] c h = h
deliver-none k (m ∷ ms) c h =
    deliver-none k ms (relcache_callback m c)
      (elim (get-relcache_callback k m c) [ inl (hit, gone) ↦ gone | inr (a, b, same) ↦ same ∙ h ])

deliver-gone : (k : ℕ) (c : Cache) → get k (relcache_callback k c) ≡ none
deliver-gone k c = elim (get-relcache_callback k k c) [
  | inl (hit, gone) ↦ gone
  | inr (a, b, same) ↦ absurd (b refl)
]

-- A backend that has received the messages sent up to and with a widening, whatever was in its cache
-- before, finds no summary of the widened index: the next plan reads the stored one.
pub get-note_widened :
    (i h : ℕ) (earlier : List ℕ) (c : Cache) → get i (deliver (note_widened i h earlier) c) ≡ none
unfolding note_widened
get-note_widened i h [] c = deliver-none i (h ∷ []) (relcache_callback i c) (deliver-gone i c)
get-note_widened i h (m ∷ ms) c = get-note_widened i h ms (relcache_callback m c)
