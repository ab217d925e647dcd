-- ===== src/Insert/Improves.antt =====
-- The bytes that an insert swaps in cover its row, and all that the bytes it read covered.
use pg_table_range.Base.{
  ℕ, ◌≤◌, ◌^◌, ◌≡◌, refl, sym, ap, subst, ◌∙◌, inl, inr, Bool, Bool-cases, true, false, Option,
  none, some, List, [], ◌∷◌, length, map, All, ◌==◌, ==_iff, Attempt, known, unknown, raised,
  parallel_mode, Ensures, Ensures-known, Ensures-unknown, Ensures-raised,
}
use mathlib.Core.Option.{some-injective}
use pg_table_range.Bytes.{Bytes}
use pg_table_range.Summary.{
  ColSummary, IndexSummary, make_unbounded, find_col, find_col-head, find_col-skip,
}
use pg_table_range.Codec.{deserialize}
use pg_table_range.Codec.RoundTrip.{IsTyped}
use pg_table_range.Fitting.{Encoded, encode_fitting, max_blob_len}
use pg_table_range.Fitting.Relaxed.{Relaxed, AllRelaxed}
use pg_table_range.Fitting.Loop.{deserialize-encode_fitting}
use pg_table_range.Server.{Server}
use pg_table_range.StableIo.{Gucs, Session, with_stable_io}
use pg_table_range.StableIo.Pinned.{IsStable, with_stable_io-IsStable}
use pg_table_range.Widen.{widen_summary}
use pg_table_range.Widen.Covers.{Orders, CoversValue}
use pg_table_range.Widen.Row.{
  Row, Table, CoversRow, IsIn, attribute_of, WidensSummary, widen_summary-WidensSummary,
}
use pg_table_range.Insert.{
  Plan, finished, swap, plan_swap, plan_changed, plan_run, plan_summary, plan_insert,
}

module _ {sv : Server} (table : Table sv) where
  open table use {type_of, collation_of, orders}

  Relaxed-covers :
      {typ collation : ℕ} (o : Orders sv typ collation) (c d : ColSummary) (u : Option ℕ)
      → Relaxed c d
      → CoversValue o c u
      → CoversValue o d u
  unfolding make_unbounded
  Relaxed-covers o c d none (inl e) h = rw e h
  Relaxed-covers o c d none (inr e) h = rw e h
  Relaxed-covers o c d (some u) (inl e) h = rw e h
  Relaxed-covers o c d (some u) (inr e) h = rw e (h.0, λ q. cc)

  Relaxed-attnum : (c d : ColSummary) → Relaxed c d → d.attnum ≡ c.attnum
  unfolding make_unbounded
  Relaxed-attnum c d (inl e) = ap (λ (z : ColSummary). z.attnum) e
  Relaxed-attnum c d (inr e) = ap (λ (z : ColSummary). z.attnum) e

  pub Relaxed-collation : (c d : ColSummary) → Relaxed c d → d.collation ≡ c.collation
  unfolding make_unbounded
  Relaxed-collation c d (inl e) = ap (λ (z : ColSummary). z.collation) e
  Relaxed-collation c d (inr e) = ap (λ (z : ColSummary). z.collation) e

  pub find_col-AllRelaxed :
      (cs ds : List ColSummary)
      → AllRelaxed cs ds
      → (n : ℕ) (d : ColSummary) → find_col n ds ≡ some d
      → (c : ColSummary) × (find_col n cs ≡ some c) × Relaxed c d
  find_col-AllRelaxed [] [] h n d q = absurd (unfold find_col in cc)
  find_col-AllRelaxed [] (y ∷ ds) h n d q = absurd h
  find_col-AllRelaxed (x ∷ cs) [] h n d q = absurd h
  find_col-AllRelaxed (x ∷ cs) (y ∷ ds) h n d q = elim (Bool-cases (x.attnum == n)) [
    | inl same ↦
        let e = (==_iff x.attnum n).0 same in
        let is_d =
          some-injective y d (sym (find_col-head n y ds (Relaxed-attnum x y h.0 ∙ e)) ∙ q) in
        (x, find_col-head n x cs e, subst (Relaxed x) is_d h.0)
    | inr other ↦
        let (c, ec, r) =
          find_col-AllRelaxed cs ds h.1 n d
            (sym (find_col-skip n y ds (rw (Relaxed-attnum x y h.0) other)) ∙ q) in
        (c, find_col-skip n x cs other ∙ ec, r)
  ]

  -- Columns that lose their bounds cover what they covered.
  pub CoversRow-AllRelaxed :
      (cs ds : List ColSummary) (row : Row)
      → AllRelaxed cs ds
      → CoversRow table cs row
      → CoversRow table ds row
  CoversRow-AllRelaxed cs ds row h k n d q =
      let (c, ec, r) = find_col-AllRelaxed cs ds h n d q in
      Relaxed-covers (orders n) c d (row n) r (k n c ec)

  -- Every column is of one of the indexed attributes.
  abbrev pub IsIndexed : List ℕ → List ColSummary → Type 0
  IsIndexed ns cols = (n : ℕ) (c : ColSummary) → find_col n cols ≡ some c → IsIn n ns

  -- What a summary has to be besides covering rows.
  pub record IsSound (ns : List ℕ) (s : IndexSummary) : Type 0 where
    pub typed : All IsTyped s.cols
    pub indexed : IsIndexed ns s.cols
    pub collations :
        (n : ℕ) (c : ColSummary) → find_col n s.cols ≡ some c → c.collation ≡ collation_of n

  -- Swapping `before` for `after` is right for an insert of the row.
  pub record Improves (ns : List ℕ) (row : Row) (before after : Bytes) : Type 0 where
    pub old : IndexSummary
    pub new : IndexSummary
    pub reads_old : deserialize before ≡ some old
    pub reads_new : deserialize after ≡ some new
    pub sound : IsSound ns new
    pub keeps : (r : Row) → CoversRow table old.cols r → CoversRow table new.cols r
    pub adds : CoversRow table new.cols row

  module _ (server_of : Gucs → Server) (stable : (g : Gucs) → IsStable g → server_of g ≡ sv)
      (blcksz : ℕ) (block : blcksz ≤ 2 ^ 16) (session : Session) (ns : List ℕ) (row : Row) where
    improves :
        (before : Bytes) (s t : IndexSummary) (changed : Bool) (e : Encoded)
        → deserialize before ≡ some s
        → IsSound ns s
        → widen_summary sv s (map (attribute_of table row) ns) ≡ known (changed, t)
        → encode_fitting blcksz t ≡ some e
        → length e.bytes ≤ max_blob_len blcksz
        → Improves ns row before e.bytes
    improves before s t changed e read sound run encoded fits = record {
      old = s;
      new = e.summary;
      reads_old = read;
      reads_new = (back.0);
      sound = record { typed = back.2; indexed = indexed; collations = collations };
      keeps = λ r h. CoversRow-AllRelaxed t.cols e.summary.cols r back.1 (w.keeps r h);
      adds =
          CoversRow-AllRelaxed t.cols e.summary.cols row back.1
            (λ n c q. w.adds n c (listed n c q) q);
    }
      where
        w : WidensSummary table row ns s changed t
        w = widen_summary-WidensSummary table row ns s changed t run

        back :
            (deserialize e.bytes ≡ some e.summary)
            × AllRelaxed t.cols e.summary.cols
            × All IsTyped e.summary.cols
        back = deserialize-encode_fitting blcksz t e block (w.typed sound.typed) encoded fits

        listed : IsIndexed ns t.cols
        listed n c q = let (x, ex, same) = w.columns n c q in sound.indexed n x ex

        indexed : IsIndexed ns e.summary.cols
        indexed n d q =
            let (c, ec, r) = find_col-AllRelaxed t.cols e.summary.cols back.1 n d q in listed n c ec

        collations :
            (n : ℕ) (d : ColSummary)
            → find_col n e.summary.cols ≡ some d
            → d.collation ≡ collation_of n
        collations n d q =
            let (c, ec, r) = find_col-AllRelaxed t.cols e.summary.cols back.1 n d q in
            let (x, ex, same) = w.columns n c ec in
            Relaxed-collation c d r ∙ same ∙ sound.collations n x ex

    -- What the decision has to be, for the blob that was read.
    abbrev pub Right : Option Bytes → Plan → Type 0
    Right none finished = Unit
    Right none (swap before after) = ⊥
    Right (some b) finished =
        (s : IndexSummary) → deserialize b ≡ some s → IsSound ns s → CoversRow table s.cols row
    Right (some b) (swap before after) =
        (before ≡ b)
        × ((s : IndexSummary)
            → deserialize b ≡ some s
            → IsSound ns s
            → length after ≤ max_blob_len blcksz
            → Improves ns row before after)
        × ((s : IndexSummary) × (deserialize b ≡ some s))

    -- Only one summary is read from a blob.
    same_summary :
        (b : Bytes) (s z : IndexSummary) → deserialize b ≡ some s → deserialize b ≡ some z → s ≡ z
    same_summary b s z e f = some-injective s z (sym e ∙ f)

    swap-Right :
        (b : Bytes) (s t : IndexSummary) (changed : Bool)
        → deserialize b ≡ some s
        → widen_summary sv s (map (attribute_of table row) ns) ≡ known (changed, t)
        → (o : Option Encoded) → encode_fitting blcksz t ≡ o
        → Ensures (Right (some b)) (plan_swap b o)
    unfolding plan_swap
    swap-Right b s t changed read run none encoded = Ensures-unknown _
    swap-Right b s t changed read run (some e) encoded =
        Ensures-known (Right (some b)) (swap b e.bytes) (
          refl,
          λ z again sound fits.
              improves b s t changed e read
                (subst (IsSound ns) (sym (same_summary b s z read again)) sound) run encoded fits,
          (s, read),
        )

    finished-Right :
        (b : Bytes) (s t : IndexSummary)
        → deserialize b ≡ some s
        → widen_summary sv s (map (attribute_of table row) ns) ≡ known (false, t)
        → Right (some b) finished
    finished-Right b s t read run z again sound =
        subst (λ (x : IndexSummary). CoversRow table x.cols row) (same_summary b s z read again)
          (λ n c q.
            kept n c
              (subst (λ (x : IndexSummary). find_col n x.cols ≡ some c) (sym (w.unchanged refl)) q))
      where
        w : WidensSummary table row ns s false t
        w = widen_summary-WidensSummary table row ns s false t run

        kept : CoversRow table t.cols row
        kept n c q =
            let (x, ex, same) = w.columns n c q in
            let found =
              subst (λ (y : IndexSummary). find_col n y.cols ≡ some x)
                (same_summary b s z read again) ex in
            w.adds n c (sound.indexed n x found) q

    changed-Right :
        (b : Bytes) (s : IndexSummary)
        → deserialize b ≡ some s
        → (r : Attempt (Bool × IndexSummary))
        → widen_summary sv s (map (attribute_of table row) ns) ≡ r
        → Ensures (Right (some b)) (plan_changed blcksz b r)
    unfolding plan_changed
    changed-Right b s read unknown run = Ensures-unknown _
    changed-Right b s read (raised e) run = Ensures-raised _ e
    changed-Right b s read (known (true, t)) run =
        swap-Right b s t true read run (encode_fitting blcksz t) refl
    changed-Right b s read (known (false, t)) run =
        Ensures-known (Right (some b)) finished (finished-Right b s t read run)

    run-Right :
        (b : Bytes) (s : IndexSummary)
        → deserialize b ≡ some s
        → Ensures (Right (some b)) (
            plan_run blcksz b
              (with_stable_io
                (λ g. widen_summary (server_of g) s (map (attribute_of table row) ns))
                session).0)
    unfolding plan_run
    run-Right b s read = elim (with_stable_io-IsStable widening session) [
      | inl (g, ran, st) ↦ rw ran (
          changed-Right b s read _
            (ap (λ z. widen_summary z s (map (attribute_of table row) ns)) (sym (stable g st))))
      | inr (not_run, parallel, calm) ↦ rw not_run (Ensures-raised _ parallel_mode)
    ]
      where
        widening : Gucs → Attempt (Bool × IndexSummary)
        widening g = widen_summary (server_of g) s (map (attribute_of table row) ns)

    summary-Right :
        (b : Bytes) (o : Option IndexSummary)
        → deserialize b ≡ o
        → Ensures
            (Right (some b))
            (plan_summary server_of blcksz session (map (attribute_of table row) ns) b o)
    unfolding plan_summary
    summary-Right b none read = Ensures-known (Right (some b)) finished (λ s again sound. cc)
    summary-Right b (some s) read = run-Right b s read

    -- The decision of one turn of the loop is right, for any blob that it may have read.
    pub plan_insert-Right :
        (o : Option Bytes)
        → Ensures
            (Right o)
            (plan_insert server_of blcksz session (map (attribute_of table row) ns) o)
    unfolding plan_insert
    plan_insert-Right none = Ensures-known (Right none) finished tt
    plan_insert-Right (some b) = summary-Right b (deserialize b) refl
