-- ===== src/Prune/Planner/Summaries/Reads.antt =====
-- What a read of a relation's summary leaves behind, and where its columns come from
-- (src/prune_hook.rs: `read_index_summary`, `load_summary`).
use pg_table_range.Base.{
  ℕ, ◌≡◌, refl, sym, ap, subst, ◌∙◌, ◌⊎◌, inl, inr, Bool-cases, false, Option, none, some, List, [],
  ◌==◌,
}
use pg_table_range.Summary.{ColSummary}
use pg_table_range.Metapage.{Page, PageApi}
use pg_table_range.Server.{invalid_oid}
use pg_table_range.Cache.{Cache, get, put}
use pg_table_range.Cache.Laws.{get-put}
use pg_table_range.Prune.Planner.{PlanState}
use pg_table_range.Prune.Planner.Summaries.{
  IndexOptInfo, first_index, stored_cols, am_found, cols_of_am, index_cols, cached_cols,
  read_index_summary, load_summary, loaded, remembered, table_range_am_oid,
}

module _ (api : PageApi) (get_am_oid : ℕ) (opened : ℕ → Option (List Page)) where
  -- Where the columns of a read come from: no index, the cache, or the index, which fills the cache.
  abbrev pub ReadFrom : Cache → Option ℕ → List ColSummary × PlanState × Cache → Type 0
  ReadFrom cache index r =
      ((r.0 ≡ []) × (r.2 ≡ cache))
      ⊎ ((i : ℕ) × (index ≡ some i)
          × (((get i cache ≡ some r.0) × (r.2 ≡ cache))
              ⊎ ((r.0 ≡ stored_cols api get_am_oid opened (opened i))
                  × (r.2 ≡ put i (stored_cols api get_am_oid opened (opened i)) cache))))

  index_cols-ReadFrom :
      (cache : Cache) (st : PlanState) (index : Option ℕ)
      → ReadFrom cache index (
        (index_cols api get_am_oid opened cache index).0,
        st,
        (index_cols api get_am_oid opened cache index).1,
      )
  index_cols-ReadFrom cache st none = inl (refl, refl)
  index_cols-ReadFrom cache st (some i) = inr (i, refl, go (get i cache) refl)
    where
      go :
          (o : Option (List ColSummary))
          → get i cache ≡ o
          → ((get i cache ≡ some (cached_cols api get_am_oid opened i cache o).0)
              × ((cached_cols api get_am_oid opened i cache o).1 ≡ cache))
            ⊎ (((cached_cols api get_am_oid opened i cache o).0
                  ≡ stored_cols api get_am_oid opened (opened i))
                × ((cached_cols api get_am_oid opened i cache o).1
                    ≡ put i (stored_cols api get_am_oid opened (opened i)) cache))
      go (some cols) e = inl (e, refl)
      go none e = inr (refl, refl)

  cols_of_am-ReadFrom :
      (indexlist : List (Option IndexOptInfo)) (cache : Cache) (r : ℕ × PlanState)
      → ReadFrom cache
          (first_index r.0 indexlist)
          (cols_of_am api get_am_oid opened indexlist cache r)
  cols_of_am-ReadFrom indexlist cache (am, st) = elim (Bool-cases (am == invalid_oid)) [
    | inl no_am ↦ rw no_am (inl (refl, refl))
    | inr has_am ↦ rw has_am (index_cols-ReadFrom cache st (first_index am indexlist))
  ]

  pub read_index_summary-ReadFrom :
      (indexlist : List (Option IndexOptInfo)) (st : PlanState) (cache : Cache)
      → ReadFrom cache
          (first_index (table_range_am_oid api get_am_oid opened st).0 indexlist)
          (read_index_summary api get_am_oid opened indexlist st cache)
  unfolding read_index_summary
  read_index_summary-ReadFrom indexlist st cache =
      cols_of_am-ReadFrom indexlist cache (table_range_am_oid api get_am_oid opened st)

  cols_of_am-cached :
      (indexlist : List (Option IndexOptInfo)) (cache : Cache) (r : ℕ × PlanState) (i : ℕ)
      (cols : List ColSummary)
      → (r.0 == invalid_oid) ≡ false
      → first_index r.0 indexlist ≡ some i
      → get i cache ≡ some cols
      → (cols_of_am api get_am_oid opened indexlist cache r).0 ≡ cols
  cols_of_am-cached indexlist cache (am, st) i cols has_am first found =
      rw (has_am, first, found) refl

  -- A cached entry is read without a look at the index.
  pub read_index_summary-cached :
      (indexlist : List (Option IndexOptInfo)) (st : PlanState) (cache : Cache) (i : ℕ)
      (cols : List ColSummary)
      → ((table_range_am_oid api get_am_oid opened st).0 == invalid_oid) ≡ false
      → first_index (table_range_am_oid api get_am_oid opened st).0 indexlist ≡ some i
      → get i cache ≡ some cols
      → (read_index_summary api get_am_oid opened indexlist st cache).0 ≡ cols
  unfolding read_index_summary
  read_index_summary-cached indexlist st cache =
      cols_of_am-cached indexlist cache (table_range_am_oid api get_am_oid opened st)

  -- Loading a summary touches no other table, and not the counter.
  pub record SameTables (st st' : PlanState) : Type 0 where
    pub fmgr_memo : st'.fmgr_memo ≡ st.fmgr_memo
    pub input_info_memo : st'.input_info_memo ≡ st.input_info_memo
    pub op_memo : st'.op_memo ≡ st.op_memo
    pub depth : st'.depth ≡ st.depth

  am_found-SameTables :
      (st : PlanState) (o : Option ℕ) → SameTables st (am_found api get_am_oid opened st o).1
  am_found-SameTables st none = record {
    fmgr_memo = refl;
    input_info_memo = refl;
    op_memo = refl;
    depth = refl;
  }
  am_found-SameTables st (some oid) = record {
    fmgr_memo = refl;
    input_info_memo = refl;
    op_memo = refl;
    depth = refl;
  }

  cols_of_am-state :
      (indexlist : List (Option IndexOptInfo)) (cache : Cache) (r : ℕ × PlanState)
      → (cols_of_am api get_am_oid opened indexlist cache r).1 ≡ r.1
  cols_of_am-state indexlist cache (am, st) = elim (Bool-cases (am == invalid_oid)) [
    | inl no_am ↦ rw no_am refl
    | inr has_am ↦ rw has_am refl
  ]

  remembered-SameTables :
      (relid : ℕ) (st : PlanState) (r : List ColSummary × PlanState × Cache)
      → SameTables st r.1
      → SameTables st (remembered api get_am_oid opened relid r).0
  remembered-SameTables relid st (cols, st', cache) s = record {
    fmgr_memo = s.fmgr_memo;
    input_info_memo = s.input_info_memo;
    op_memo = s.op_memo;
    depth = s.depth;
  }

  pub load_summary-SameTables :
      (relid : ℕ) (indexlist : List (Option IndexOptInfo)) (st : PlanState) (cache : Cache)
      → SameTables st (load_summary api get_am_oid opened relid indexlist st cache).0
  unfolding load_summary read_index_summary table_range_am_oid
  load_summary-SameTables relid indexlist st cache = go (get relid st.summaries)
    where
      go :
          (o : Option (List ColSummary))
          → SameTables st (loaded api get_am_oid opened relid indexlist st cache o).0
      go (some cols) = record {
        fmgr_memo = refl;
        input_info_memo = refl;
        op_memo = refl;
        depth = refl;
      }
      go none =
          remembered-SameTables relid st
            (read_index_summary api get_am_oid opened indexlist st cache)
            (subst (SameTables st)
              (sym (cols_of_am-state indexlist cache (table_range_am_oid api get_am_oid opened st)))
              (am_found-SameTables st st.am_oid))

  -- The first time in a plan that a relation is asked for, its columns are read.
  pub load_summary-first :
      (relid : ℕ) (indexlist : List (Option IndexOptInfo)) (st : PlanState) (cache : Cache)
      → get relid st.summaries ≡ none
      → get relid (load_summary api get_am_oid opened relid indexlist st cache).0.summaries
        ≡ some (read_index_summary api get_am_oid opened indexlist st cache).0
  unfolding load_summary
  load_summary-first relid indexlist st cache e =
      ap (λ o. get relid (loaded api get_am_oid opened relid indexlist st cache o).0.summaries) e
      ∙ put_found (read_index_summary api get_am_oid opened indexlist st cache)
    where
      put_found :
          (r : List ColSummary × PlanState × Cache)
          → get relid (remembered api get_am_oid opened relid r).0.summaries ≡ some r.0
      put_found (cols, st', cache') = elim (get-put relid relid cols st'.summaries) [
        | inl (same, q) ↦ q
        | inr (other, kept) ↦ absurd (other refl)
      ]
