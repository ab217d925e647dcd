-- ===== src/Prune/Planner/Summaries/Current.antt =====
-- Loading a summary puts into the plan's table what the storage holds (src/prune_hook.rs:
-- `load_summary`, `read_index_summary`).
use pg_table_range.Base.{
  ℕ, ◌≡◌, ◌≢◌, refl, sym, ap, subst, subst₂, ◌∙◌, inl, inr, Bool-cases, Option, none, some, List,
  [], ◌∷◌, ◌++◌, ◌==◌, true, All, arith,
}
use mathlib.Core.Option.{some-injective}
use pg_table_range.Summary.{ColSummary, IndexSummary}
use pg_table_range.Metapage.{Page, PageApi, read_summary}
use pg_table_range.Server.{invalid_oid}
use pg_table_range.Cache.{Cache, get, put}
use pg_table_range.Cache.Laws.{get-put}
use pg_table_range.Prune.Planner.{PlanState}
use pg_table_range.Prune.Planner.Summaries.{
  IndexOptInfo, first_index, cols_or_empty, am_found, table_range_am_oid, stored_cols, cached_cols,
  index_cols, cols_of_am, read_index_summary, loaded, load_summary,
}

==-≡ : (a b : ℕ) → (a == b) ≡ true → a ≡ b
==-≡ a b h = ground (arith, h)

module _ (api : PageApi) (get_am_oid : ℕ) (opened : ℕ → Option (List Page)) where
  -- What the blocks of an index hold: the columns of a readable summary, otherwise none.
  pub data StoredCols : Option (List Page) → List ColSummary → Type 0 where
    no_storage : StoredCols none []
    no_summary : {pages : List Page} → read_summary api pages ≡ none → StoredCols (some pages) []
    readable :
        {pages : List Page} (s : IndexSummary)
        → read_summary api pages ≡ some s
        → StoredCols (some pages) s.cols

  -- An entry of `rel->indexlist` that is null or of another access method.
  abbrev OtherAm : Option IndexOptInfo → Type 0
  OtherAm none = Unit
  OtherAm (some i) = i.relam ≢ get_am_oid

  -- What the storage holds for the relation with these indexes: the columns of the first one of the access
  -- method, and none if there is no such index or the access method is not in the catalog.
  pub data Holds (indexlist : List (Option IndexOptInfo)) : List ColSummary → Type 0 where
    no_am : get_am_oid ≡ invalid_oid → Holds indexlist []
    no_index : All OtherAm indexlist → Holds indexlist []
    first :
        (before after : List (Option IndexOptInfo)) (i : IndexOptInfo) (cols : List ColSummary)
        → get_am_oid ≢ invalid_oid
        → indexlist ≡ before ++ (some i ∷ after)
        → All OtherAm before
        → i.relam ≡ get_am_oid
        → StoredCols (opened i.indexoid) cols
        → Holds indexlist cols

  -- Every entry of the backend's cache is what its index holds.
  abbrev pub IsCoherent : Cache → Type 0
  IsCoherent cache =
      (i : ℕ) (cols : List ColSummary) → get i cache ≡ some cols → StoredCols (opened i) cols

  stored_cols-StoredCols :
      (o : Option (List Page)) → StoredCols o (stored_cols api get_am_oid opened o)
  unfolding stored_cols cols_or_empty
  stored_cols-StoredCols none = no_storage
  stored_cols-StoredCols (some pages) = go (read_summary api pages) refl
    where
      go :
          (o : Option IndexSummary)
          → read_summary api pages ≡ o
          → StoredCols (some pages) (cols_or_empty o)
      go none e = no_summary e
      go (some s) e = readable s e

  -- What is read of the index that the loop has chosen.
  abbrev FoundCols : Option ℕ → List ColSummary → Type 0
  FoundCols none cols = cols ≡ []
  FoundCols (some i) cols = StoredCols (opened i) cols

  -- What the loop has chosen.
  Chosen : List (Option IndexOptInfo) → Option ℕ → Type 0
  Chosen indexlist none = All OtherAm indexlist
  Chosen indexlist (some oid) =
      (before : List (Option IndexOptInfo)) × (after : List (Option IndexOptInfo))
      × (i : IndexOptInfo) × (indexlist ≡ before ++ (some i ∷ after))
      × All OtherAm before
      × (i.relam ≡ get_am_oid)
      × (i.indexoid ≡ oid)

  skipped-Chosen :
      (x : Option IndexOptInfo) (rest : List (Option IndexOptInfo)) (o : Option ℕ)
      → OtherAm x
      → Chosen rest o
      → Chosen (x ∷ rest) o
  unfolding Chosen
  skipped-Chosen x rest none h c = (h, c)
  skipped-Chosen x rest (some oid) h (before, after, i, e, others, am, same) =
      (x ∷ before, after, i, ap (λ z. x ∷ z) e, (h, others), am, same)

  first_index-Chosen :
      (indexlist : List (Option IndexOptInfo)) → Chosen indexlist (first_index get_am_oid indexlist)
  unfolding first_index Chosen
  first_index-Chosen [] = tt
  first_index-Chosen (none ∷ rest) =
      skipped-Chosen none rest (first_index get_am_oid rest) tt (first_index-Chosen rest)
  first_index-Chosen (some i ∷ rest) = elim (Bool-cases (i.relam == get_am_oid)) [
    | inl same ↦ rw same ([], rest, i, refl, tt, ==-≡ i.relam get_am_oid same, refl)
    | inr other ↦ rw other (
        skipped-Chosen (some i) rest (first_index get_am_oid rest) (λ e. ground (arith, other, e))
          (first_index-Chosen rest))
  ]

  Chosen-Holds :
      (indexlist : List (Option IndexOptInfo)) (o : Option ℕ) (cols : List ColSummary)
      → get_am_oid ≢ invalid_oid
      → Chosen indexlist o
      → FoundCols o cols
      → Holds indexlist cols
  unfolding Chosen
  Chosen-Holds indexlist none cols has_am c empty = subst (Holds indexlist) (sym empty) (no_index c)
  Chosen-Holds indexlist (some oid) cols has_am (before, after, i, e, others, am, same) found =
      first before after i cols has_am e others am
        (subst (λ z. StoredCols (opened z) cols) (sym same) found)

  module _ (indexlist_of : ℕ → List (Option IndexOptInfo)) where
    -- So is every entry of the plan's table, and the access method's Oid.
    pub record IsCurrent (st : PlanState) : Type 0 where
      pub am : (oid : ℕ) → st.am_oid ≡ some oid → oid ≡ get_am_oid
      pub summaries :
          (r : ℕ) (cols : List ColSummary)
          → get r st.summaries ≡ some cols
          → Holds (indexlist_of r) cols

    put-IsCoherent :
        (i : ℕ) (cols : List ColSummary) (cache : Cache)
        → IsCoherent cache
        → StoredCols (opened i) cols
        → IsCoherent (put i cols cache)
    put-IsCoherent i cols cache h e k cols' q = elim (get-put k i cols cache) [
      | inl (same, found) ↦
          subst₂ (λ z c. StoredCols (opened z) c) (sym same)
            (sym (some-injective cols' cols (sym q ∙ found))) e
      | inr (other, kept) ↦ h k cols' (sym kept ∙ q)
    ]

    put-IsCurrent :
        (relid : ℕ) (cols : List ColSummary) (st : PlanState)
        → IsCurrent st
        → Holds (indexlist_of relid) cols
        → IsCurrent (record st { summaries = put relid cols st.summaries })
    put-IsCurrent relid cols st c e = record {
      am = c.am;
      summaries = λ r cols' q. elim (get-put r relid cols st.summaries) [
        | inl (same, found) ↦
            subst₂ (λ z c. Holds (indexlist_of z) c) (sym same)
              (sym (some-injective cols' cols (sym q ∙ found))) e
        | inr (other, kept) ↦ c.summaries r cols' (sym kept ∙ q)
      ];
    }

    am_found-IsCurrent :
        (st : PlanState) (o : Option ℕ)
        → st.am_oid ≡ o
        → IsCurrent st
        → ((am_found api get_am_oid opened st o).0 ≡ get_am_oid)
          × IsCurrent (am_found api get_am_oid opened st o).1
    am_found-IsCurrent st (some oid) e c = (c.am oid e, c)
    am_found-IsCurrent st none e c = (
      refl,
      record { am = λ oid q. some-injective oid get_am_oid (sym q); summaries = c.summaries },
    )

    index_cols-IsCoherent :
        (cache : Cache) (i : Option ℕ)
        → IsCoherent cache
        → FoundCols i (index_cols api get_am_oid opened cache i).0
          × IsCoherent (index_cols api get_am_oid opened cache i).1
    index_cols-IsCoherent cache none h = (refl, h)
    index_cols-IsCoherent cache (some i) h = go (get i cache) refl
      where
        go :
            (o : Option (List ColSummary))
            → get i cache ≡ o
            → StoredCols (opened i) (cached_cols api get_am_oid opened i cache o).0
              × IsCoherent (cached_cols api get_am_oid opened i cache o).1
        go (some cols) e = (h i cols e, h)
        go none e =
            let s = stored_cols-StoredCols (opened i) in
            (s, put-IsCoherent i (stored_cols api get_am_oid opened (opened i)) cache h s)

    -- The plan's table has what the storage holds for the relation, and both tables agree with it.
    abbrev pub Loads : ℕ → PlanState × Cache → Type 0
    Loads relid r =
        (cols : List ColSummary) × (get relid r.0.summaries ≡ some cols)
        × Holds (indexlist_of relid) cols
        × IsCurrent r.0
        × IsCoherent r.1

    -- What `read_index_summary` gives, and what it leaves of the two tables.
    Reads : List (Option IndexOptInfo) → List ColSummary × PlanState × Cache → Type 0
    Reads indexlist r = Holds indexlist r.0 × IsCurrent r.1 × IsCoherent r.2

    cols_of_am-Reads :
        (indexlist : List (Option IndexOptInfo)) (cache : Cache) (r : ℕ × PlanState)
        → r.0 ≡ get_am_oid
        → IsCurrent r.1
        → IsCoherent cache
        → Reads indexlist (cols_of_am api get_am_oid opened indexlist cache r)
    unfolding Reads
    cols_of_am-Reads indexlist cache (am, st) e c h =
        elim (Bool-cases (get_am_oid == invalid_oid)) [
          | inl no_am' ↦ rw (e, no_am') (no_am (==-≡ get_am_oid invalid_oid no_am'), c, h)
          | inr has_am ↦
              let index = first_index get_am_oid indexlist in
              let (found, kept) = index_cols-IsCoherent cache index h in
              rw (e, has_am)
                (
                  Chosen-Holds indexlist index (index_cols api get_am_oid opened cache index).0
                      (λ q. ground (arith, has_am, q)) (first_index-Chosen indexlist) found,
                  c,
                  kept,
                )
        ]

    -- If the backend's cache agrees with the storage and the plan's table with both, then loading a
    -- relation puts into the plan's table what the storage holds for it, whichever of the two has it
    -- already, and both still agree. What the storage holds is the columns of the first of the relation's
    -- indexes of the access method, and none if there is no such index, the access method is not in the
    -- catalog, or the index has no storage or no readable summary.
    pub load_summary-IsCurrent :
        (relid : ℕ) (st : PlanState) (cache : Cache)
        → IsCurrent st
        → IsCoherent cache
        → Loads relid (load_summary api get_am_oid opened relid (indexlist_of relid) st cache)
    unfolding load_summary read_index_summary table_range_am_oid Reads
    load_summary-IsCurrent relid st cache c h = go (get relid st.summaries) refl
      where
        found :
            Reads
              (indexlist_of relid)
              (read_index_summary api get_am_oid opened (indexlist_of relid) st cache)
        found =
            let (same, current) = am_found-IsCurrent st st.am_oid refl c in
            cols_of_am-Reads (indexlist_of relid) cache
              (am_found api get_am_oid opened st st.am_oid) same current h

        put_found : (k : ℕ) (cols : List ColSummary) (m : Cache) → get k (put k cols m) ≡ some cols
        put_found k cols m = elim (get-put k k cols m) [
          | inl (same, q) ↦ q
          | inr (other, kept) ↦ absurd (other refl)
        ]

        go :
            (o : Option (List ColSummary))
            → get relid st.summaries ≡ o
            → Loads relid (loaded api get_am_oid opened relid (indexlist_of relid) st cache o)
        go (some cols) e = (cols, e, c.summaries relid cols e, c, h)
        go none e =
            let r = read_index_summary api get_am_oid opened (indexlist_of relid) st cache in
            (
              r.0,
              put_found relid r.0 r.1.summaries,
              found.0,
              put-IsCurrent relid r.0 r.1 found.1 found.0,
              found.2,
            )
