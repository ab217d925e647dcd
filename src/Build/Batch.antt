-- ===== src/Build/Batch.antt =====
-- Batches of geometries (src/summary_build.rs, `flush_geometry` and `ColumnBuild::add`): a flush
-- forgets the batch and keeps what it contained.
use pg_table_range.Base.{
  ℕ, ◌≡◌, refl, sym, ◌∙◌, ◌⊎◌, inl, inr, Option, none, some, List, [], ◌∷◌, ◌++◌, length, leb, ◌==◌,
  Result, or_raise, Attempt, known, unknown, raised, Ensures, Ensures-known, Ensures-bind,
  Ensures-if, Ensures-raised, unreadable_extent, nul_in_sql, spi_failed,
}
use pg_table_range.Bytes.{Bytes, has_nul}
use pg_table_range.Codec.RoundTrip.{IsText}
use pg_table_range.Server.{Server, text_to_datum}
use pg_table_range.Server.Geometry.{batch_sql}
use pg_table_range.Server.Laws.{first_value-IsText}
use pg_table_range.Widen.Covers.{ExtentOrder, Orders, Contains}
use pg_table_range.Widen.Row.{IsIn}
use pg_table_range.Build.{
  Accumulator, geometry, min_max, range, unsupported, geometry_batch, with_extent, extent_of_batch,
  flush_batch, flush_geometry, add_geometry, add_value,
}
use pg_table_range.Build.Holds.{
  with_text_io, Batched, Holds, IsRight, Adds, add_min_max-Adds, add_range-Adds,
}

-- `ST_Extent` of the elements of an array contains what they contain, and is NULL only if they are all
-- empty. The text of a geometry does not depend on the settings.
pub record BatchExtents {sv : Server} {typ : ℕ} (x : ExtentOrder sv typ)
    (out : ℕ → ℕ → Result (Option Bytes)) (inp : ℕ → Bytes → ℕ → Result ℕ) : Type 0 where
  pub same_text :
      (text : Bytes)
      → text_to_datum (with_text_io sv out inp) (sv.get_base_type typ) text
        ≡ text_to_datum sv (sv.get_base_type typ) text
  pub contains :
      (tn w : Bytes) (ds : List ℕ) (d e v : ℕ)
      → extent_of_batch sv tn (sv.get_base_type typ) ds ≡ known (some w)
      → text_to_datum sv (sv.get_base_type typ) w ≡ known d
      → IsIn e ds
      → x.Within e v
      → x.Within d v
  pub null :
      (tn : Bytes) (ds : List ℕ) (e v : ℕ)
      → extent_of_batch sv tn (sv.get_base_type typ) ds ≡ known none
      → IsIn e ds
      → x.Within e v
      → x.IsEmpty v

-- No geometry waits for a flush.
abbrev pub IsFlushed : Accumulator → Type 0
IsFlushed (min_max cmp mn mx) = Unit
IsFlushed (range merge e) = Unit
IsFlushed (geometry ds e) = ds ≡ []
IsFlushed unsupported = Unit

IsIn-append : (e : ℕ) (ds es : List ℕ) → IsIn e ds → IsIn e (ds ++ es)
IsIn-append e [] es h = absurd h
IsIn-append e (d ∷ ds) es (inl h) = inl h
IsIn-append e (d ∷ ds) es (inr h) = inr (IsIn-append e ds es h)

IsIn-last : (e : ℕ) (ds : List ℕ) → IsIn e (ds ++ e ∷ [])
IsIn-last e [] = inl refl
IsIn-last e (d ∷ ds) = inr (IsIn-last e ds)

module _ {sv : Server} {typ collation : ℕ} (o : Orders sv typ collation)
    (out : ℕ → ℕ → Result (Option Bytes)) (inp : ℕ → Bytes → ℕ → Result ℕ)
    (batches : BatchExtents o.extent out inp) where
  abbrev base : ℕ
  base = sv.get_base_type typ

  abbrev run : Server
  run = with_text_io sv out inp

  -- The batch that is sent holds all but the empty values.
  abbrev Joined : List ℕ → Option Bytes → List ℕ → Type 0
  Joined ds e ds' = (u : ℕ) → Holds o (geometry ds e) u → o.extent.IsEmpty u ⊎ Batched o ds' u

  with_extent-Joined :
      (ds : List ℕ) (e : Option Bytes) → Ensures (Joined ds e) (with_extent run base ds e)
  unfolding with_extent
  with_extent-Joined ds none =
      Ensures-known (Joined ds none) ds
        λ u h. elim h [ inl inside ↦ inr inside | inr empty ↦ inl empty ]
  with_extent-Joined ds (some text) = joined (text_to_datum run base text) refl
    where
      joined :
          (m : Attempt ℕ)
          → text_to_datum run base text ≡ m
          → Ensures (Joined ds (some text)) (elim m [
            | known d ↦ known (ds ++ d ∷ [])
            | unknown ↦ raised unreadable_extent
            | raised e ↦ raised e
          ])
      joined (known d) read = Ensures-known (Joined ds (some text)) (ds ++ d ∷ []) λ u h. elim h [
        | inl inside ↦ inr (inside.0, IsIn-append inside.0 ds (d ∷ []) inside.1, inside.2)
        | inr extent ↦ elim extent [
          | inl empty ↦ inl empty
          | inr within ↦ inr (d, IsIn-last d ds, within d (sym (batches.same_text text) ∙ read))
        ]
      ]
      joined unknown read = Ensures-raised (Joined ds (some text)) unreadable_extent
      joined (raised e) read = Ensures-raised (Joined ds (some text)) e

  -- What a flush of a batch and an extent leaves.
  record Flushes (ds : List ℕ) (e : Option Bytes) (acc : Accumulator) : Type 0 where
    keeps : (u : ℕ) → Holds o (geometry ds e) u → Holds o acc u
    right : IsRight o acc
    empty : IsFlushed acc

  extent-IsText : (tn : Bytes) (ds : List ℕ) → Ensures IsText (extent_of_batch run tn base ds)
  unfolding extent_of_batch
  extent-IsText tn ds =
      Ensures-if (has_nul (batch_sql tn)) _ _ (λ e. Ensures-raised IsText nul_in_sql)
        λ e.
          Ensures-bind
            (or_raise (sv.spi_execute_with_array (batch_sql tn) (sv.get_array_type base) base ds)) _
            λ r q.
              Ensures-if (r.rc == sv.spi_ok_select) _ _
                (λ ok'. Ensures-known IsText _ (first_value-IsText r))
                (λ bad. Ensures-raised IsText spi_failed)

  contained :
      (tn : Bytes) (ds : List ℕ) (r : Option Bytes) (u : ℕ)
      → extent_of_batch run tn base ds ≡ known r
      → o.extent.IsEmpty u ⊎ Batched o ds u
      → Contains o.extent r u
  unfolding extent_of_batch
  contained tn ds none u q (inl empty) = empty
  contained tn ds none u q (inr (e, i, w)) = batches.null tn ds e u q i w
  contained tn ds (some w) u q (inl empty) = inl empty
  contained tn ds (some w) u q (inr (e, i, x)) =
      inr (λ d read. batches.contains tn w ds d e u q read i x)

  unsent : (e : Option Bytes) (u : ℕ) → o.extent.IsEmpty u → Contains o.extent e u
  unsent none u h = h
  unsent (some w) u h = inl h

  flush_batch-Flushes :
      (tn : Bytes) (ds : List ℕ) (e : Option Bytes) (ds' : List ℕ)
      → IsText e
      → Joined ds e ds'
      → Ensures (Flushes ds e) (flush_batch run tn base e ds')
  unfolding flush_batch
  flush_batch-Flushes tn ds e [] text j = Ensures-known (Flushes ds e) _ (record {
    keeps =
        λ u h. elim (j u h) [ inl empty ↦ inr (unsent e u empty) | inr inside ↦ absurd inside.1 ];
    right = text;
    empty = refl;
  })
  flush_batch-Flushes tn ds e (d ∷ ds') text j =
      Ensures-bind (extent_of_batch run tn base (d ∷ ds')) _ λ r q.
        Ensures-known (Flushes ds e) _ (record {
          keeps = λ u h. inr (contained tn (d ∷ ds') r u q (j u h));
          right = (extent-IsText tn (d ∷ ds')).at r q;
          empty = refl;
        })

  flush_geometry-Flushes :
      (tn : Bytes) (ds : List ℕ) (e : Option Bytes)
      → IsText e
      → Ensures (Flushes ds e) (flush_geometry run tn typ ds e)
  unfolding flush_geometry
  flush_geometry-Flushes tn ds e text =
      Ensures-bind (with_extent run base ds e) _
        λ ds' q. flush_batch-Flushes tn ds e ds' text ((with_extent-Joined ds e).at ds' q)

  -- A flush keeps all that the batch and the extent held.
  pub flush_geometry-Holds :
      (tn : Bytes) (ds : List ℕ) (e : Option Bytes) (acc : Accumulator)
      → IsText e
      → flush_geometry run tn typ ds e ≡ known acc
      → ((u : ℕ) → Holds o (geometry ds e) u → Holds o acc u) × IsRight o acc × IsFlushed acc
  flush_geometry-Holds tn ds e acc text q =
      let f = (flush_geometry-Flushes tn ds e text).at acc q in (f.keeps, f.right, f.empty)

  grown :
      (ds : List ℕ) (e : Option Bytes) (v u : ℕ)
      → Holds o (geometry ds e) u
      → Holds o (geometry (ds ++ v ∷ []) e) u
  grown ds e v u (inl (d, i, w)) = inl (d, IsIn-append d ds (v ∷ []) i, w)
  grown ds e v u (inr h) = inr h

  newest : (ds : List ℕ) (e : Option Bytes) (v : ℕ) → Holds o (geometry (ds ++ v ∷ []) e) v
  newest ds e v = inl (v, IsIn-last v ds, o.extent.within_self v)

  add_geometry-Adds :
      (tn : Bytes) (v : ℕ) (ds : List ℕ) (e : Option Bytes)
      → IsText e
      → Ensures (Adds o (geometry ds e) v) (add_geometry run tn typ v ds e)
  unfolding add_geometry
  add_geometry-Adds tn v ds e text =
      Ensures-if (leb geometry_batch (length (ds ++ v ∷ []))) _ _
        (λ full. record {
          at = λ acc q.
              let (keeps, right, empty) = flush_geometry-Holds tn (ds ++ v ∷ []) e acc text q in
              record {
                adds = keeps v (newest ds e v);
                keeps = λ u h. keeps u (grown ds e v u h);
                right = right;
              };
        })
        (λ room.
          Ensures-known (Adds o (geometry ds e) v) _
            (record { adds = newest ds e v; keeps = grown ds e v; right = text }))

  -- Whatever its kind, an accumulator holds an added value and all that it held.
  pub add_value-Adds :
      (tn : Bytes) (v : ℕ) (acc : Accumulator)
      → IsRight o acc
      → Ensures (Adds o acc v) (add_value run tn typ collation v acc)
  unfolding add_value
  add_value-Adds tn v (min_max cmp mn mx) r = add_min_max-Adds o out inp cmp v mn mx r
  add_value-Adds tn v (range merge e) r = add_range-Adds o out inp merge v e r
  add_value-Adds tn v (geometry ds e) r = add_geometry-Adds tn v ds e r
  add_value-Adds tn v unsupported r =
      Ensures-known (Adds o unsupported v) unsupported
        (record { adds = tt; keeps = λ u h. h; right = tt })
