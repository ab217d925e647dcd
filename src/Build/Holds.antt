-- ===== src/Build/Holds.antt =====
-- What an accumulator holds: every value that was added to it (src/summary_build.rs,
-- `ColumnBuild::add` for comparable and range types).
use pg_table_range.Base.{
  ℕ, ◌≡◌, refl, ◌⊎◌, Ordering, Option, none, some, List, if◌then◌else◌, Result, ok, or_raise, known,
  Ensures, Ensures-known, Ensures-bind,
}
use pg_table_range.Bytes.{Bytes}
use pg_table_range.Codec.RoundTrip.{IsText}
use pg_table_range.Server.{
  Server, invalid_oid, is_lt, is_gt, oid_function_call2, datum_cmp, btree_cmp_proc,
}
use pg_table_range.Widen.Covers.{Agrees, Orders, Contains}
use pg_table_range.Widen.Row.{IsIn}
use pg_table_range.Build.{
  Accumulator, min_max, range, geometry, unsupported, call_cmp, add_min_max, add_range,
}

-- The server under other settings: they enter the text functions of the types, and nothing else.
abbrev pub with_text_io :
    Server → (ℕ → ℕ → Result (Option Bytes)) → (ℕ → Bytes → ℕ → Result ℕ) → Server
with_text_io sv out inp = record sv { call_output = out; call_input = inp }

module _ {sv : Server} {typ collation : ℕ} (o : Orders sv typ collation) where
  abbrev base : ℕ
  base = sv.get_base_type typ

  -- A geometry of the batch contains the value.
  abbrev pub Batched : List ℕ → ℕ → Type 0
  Batched ds v = (e : ℕ) × IsIn e ds × o.extent.Within e v

  abbrev pub Holds : Accumulator → ℕ → Type 0
  Holds (min_max cmp (some lo) (some hi)) v = o.btree.Le base lo base v × o.btree.Le base v base hi
  Holds (min_max cmp (some lo) none) v = ⊥
  Holds (min_max cmp none hi) v = ⊥
  Holds (range merge (some e)) v = o.extent.Within e v
  Holds (range merge none) v = ⊥
  Holds (geometry ds e) v = Batched ds v ⊎ Contains o.extent e v
  Holds unsupported v = Unit

  -- The accumulator's function is the one of the column's type, and its text is UTF-8.
  abbrev pub IsRight : Accumulator → Type 0
  IsRight (min_max cmp mn mx) =
      (p : ℕ) × (btree_cmp_proc sv base ≡ some p) × (sv.fmgr_info p ≡ ok cmp)
  IsRight (range merge e) = sv.fmgr_info sv.range_merge ≡ ok merge
  IsRight (geometry ds e) = IsText e
  IsRight unsupported = Unit

  -- What adding a value has to do.
  pub record Adds (acc : Accumulator) (v : ℕ) (acc' : Accumulator) : Type 0 where
    pub adds : Holds acc' v
    pub keeps : (u : ℕ) → Holds acc u → Holds acc' u
    pub right : IsRight acc'

  module _ (out : ℕ → ℕ → Result (Option Bytes)) (inp : ℕ → Bytes → ℕ → Result ℕ) where
    call_cmp-Agrees :
        (cmp p a b : ℕ) (s : Ordering)
        → btree_cmp_proc sv base ≡ some p
        → sv.fmgr_info p ≡ ok cmp
        → call_cmp (with_text_io sv out inp) cmp collation a b ≡ known s
        → Agrees s (o.btree.Le base a base b) (o.btree.Le base b base a)
    unfolding call_cmp
    call_cmp-Agrees cmp p a b s proc info run =
        o.btree.cmp_agrees p base base a b s (o.btree.proc_compares p proc)
          (unfold datum_cmp in unfold oid_function_call2 in rw info run)

    lower :
        (s : Ordering) (v lo : ℕ)
        → Agrees s (o.btree.Le base v base lo) (o.btree.Le base lo base v)
        → (lo' : ℕ) × ((if is_lt s then some v else some lo) ≡ some lo')
          × o.btree.Le base lo' base v
          × ((u : ℕ) → o.btree.Le base lo base u → o.btree.Le base lo' base u)
    lower Ordering.lt v lo g =
        (v, refl, o.btree.le_refl base v, λ u h. o.btree.le_trans base base base v lo u g.0 h)
    lower Ordering.eq v lo g = (lo, refl, g.1, λ u h. h)
    lower Ordering.gt v lo g = (lo, refl, g.0, λ u h. h)

    upper :
        (s : Ordering) (v hi : ℕ)
        → Agrees s (o.btree.Le base v base hi) (o.btree.Le base hi base v)
        → (hi' : ℕ) × ((if is_gt s then some v else some hi) ≡ some hi')
          × o.btree.Le base v base hi'
          × ((u : ℕ) → o.btree.Le base u base hi → o.btree.Le base u base hi')
    upper Ordering.lt v hi g = (hi, refl, g.0, λ u h. h)
    upper Ordering.eq v hi g = (hi, refl, g.0, λ u h. h)
    upper Ordering.gt v hi g =
        (v, refl, o.btree.le_refl base v, λ u h. o.btree.le_trans base base base u hi v h g.0)

    first_value_added :
        (cmp v : ℕ) (mn mx : Option ℕ)
        → ((u : ℕ) → Holds (min_max cmp mn mx) u → ⊥)
        → IsRight (min_max cmp mn mx)
        → Adds (min_max cmp mn mx) v (min_max cmp (some v) (some v))
    first_value_added cmp v mn mx nothing r = record {
      adds = (o.btree.le_refl base v, o.btree.le_refl base v);
      keeps = λ u h. absurd (nothing u h);
      right = r;
    }

    pub add_min_max-Adds :
        (cmp v : ℕ) (mn mx : Option ℕ)
        → IsRight (min_max cmp mn mx)
        → Ensures
            (Adds (min_max cmp mn mx) v)
            (add_min_max (with_text_io sv out inp) cmp collation v mn mx)
    unfolding add_min_max
    add_min_max-Adds cmp v none mx r =
        Ensures-known (Adds (min_max cmp none mx) v) _
          (first_value_added cmp v none mx (λ u h. h) r)
    add_min_max-Adds cmp v (some lo) none r =
        Ensures-known (Adds (min_max cmp (some lo) none) v) _
          (first_value_added cmp v (some lo) none (λ u h. h) r)
    add_min_max-Adds cmp v (some lo) (some hi) r = Ensures-bind _ _ λ below run_below.
        Ensures-bind _ _ λ above run_above.
          let (lo', elo, lo_v, lo_u) =
            lower below v lo (call_cmp-Agrees cmp r.0 v lo below r.1 r.2 run_below) in
          let (hi', ehi, hi_v, hi_u) =
            upper above v hi (call_cmp-Agrees cmp r.0 v hi above r.1 r.2 run_above) in
          Ensures-known (Adds (min_max cmp (some lo) (some hi)) v) _ (
            rw (elo, ehi)
              (record { adds = (lo_v, hi_v); keeps = λ u h. (lo_u u h.0, hi_u u h.1); right = r }))

    merged :
        (merge x y m : ℕ)
        → sv.fmgr_info sv.range_merge ≡ ok merge
        → or_raise (sv.function_call2 merge invalid_oid x y) ≡ known m
        → oid_function_call2 sv sv.range_merge invalid_oid x y ≡ known m
    unfolding oid_function_call2
    merged merge x y m info run = rw info run

    pub add_range-Adds :
        (merge v : ℕ) (e : Option ℕ)
        → IsRight (range merge e)
        → Ensures (Adds (range merge e) v) (add_range (with_text_io sv out inp) merge v e)
    unfolding add_range
    add_range-Adds merge v none r =
        Ensures-known (Adds (range merge none) v) _
          (record { adds = o.extent.within_self v; keeps = λ u h. absurd h; right = r })
    add_range-Adds merge v (some old) r =
        Ensures-bind (or_raise (sv.function_call2 merge invalid_oid old v)) _ λ m run.
          let joined = merged merge old v m r run in
          Ensures-known (Adds (range merge (some old)) v) _ (record {
            adds = o.extent.merge_right old v m v joined (o.extent.within_self v);
            keeps = λ u h. o.extent.merge_left old v m u joined h;
            right = r;
          })
