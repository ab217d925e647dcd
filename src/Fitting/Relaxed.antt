-- ===== src/Fitting/Relaxed.antt =====
-- What dropping bounds does to a summary: columns are made unbounded, and nothing else changes.
use pg_table_range.Base.{ℕ, zero, suc, ◌≡◌, refl, ◌⊎◌, inl, inr, List, [], ◌∷◌, modify, All, Pairs}
use pg_table_range.Summary.{ColSummary, make_unbounded}
use pg_table_range.Codec.RoundTrip.{IsTyped}

-- A column that stays, or that loses its bounds.
abbrev pub Relaxed : ColSummary → ColSummary → Type 0
Relaxed c d = (d ≡ c) ⊎ (d ≡ make_unbounded c)

abbrev pub AllRelaxed : List ColSummary → List ColSummary → Type 0
AllRelaxed = Pairs Relaxed

pub AllRelaxed-refl : (cs : List ColSummary) → AllRelaxed cs cs
AllRelaxed-refl [] = tt
AllRelaxed-refl (c ∷ cs) = (inl refl, AllRelaxed-refl cs)

Relaxed-trans : (c d e : ColSummary) → Relaxed c d → Relaxed d e → Relaxed c e
unfolding make_unbounded
Relaxed-trans c d e (inl p) (inl q) = inl (cc)
Relaxed-trans c d e (inl p) (inr q) = inr (rw q (rw p refl))
Relaxed-trans c d e (inr p) (inl q) = inr (cc)
Relaxed-trans c d e (inr p) (inr q) = inr (rw q (rw p refl))

pub AllRelaxed-trans :
    (cs ds es : List ColSummary) → AllRelaxed cs ds → AllRelaxed ds es → AllRelaxed cs es
AllRelaxed-trans [] [] [] h k = tt
AllRelaxed-trans [] [] (e ∷ es) h k = k
AllRelaxed-trans [] (d ∷ ds) es h k = absurd h
AllRelaxed-trans (c ∷ cs) [] es h k = absurd h
AllRelaxed-trans (c ∷ cs) (d ∷ ds) [] h k = k
AllRelaxed-trans (c ∷ cs) (d ∷ ds) (e ∷ es) h k =
    (Relaxed-trans c d e h.0 k.0, AllRelaxed-trans cs ds es h.1 k.1)

pub modify-AllRelaxed : (i : ℕ) (cs : List ColSummary) → AllRelaxed cs (modify i make_unbounded cs)
modify-AllRelaxed i [] = tt
modify-AllRelaxed zero (c ∷ cs) = (inr refl, AllRelaxed-refl cs)
modify-AllRelaxed (suc i) (c ∷ cs) = (inl refl, modify-AllRelaxed i cs)

Relaxed-IsTyped : (c d : ColSummary) → Relaxed c d → IsTyped c → IsTyped d
unfolding make_unbounded
Relaxed-IsTyped c d (inl e) t = rw e t
Relaxed-IsTyped c d (inr e) t = rw e (record {
  attnum = t.attnum;
  collation = t.collation;
  type_name = t.type_name;
  min = tt;
  max = tt;
})

-- Dropping bounds keeps what the Rust types say.
pub AllRelaxed-IsTyped :
    (cs ds : List ColSummary) → AllRelaxed cs ds → All IsTyped cs → All IsTyped ds
AllRelaxed-IsTyped [] [] h t = tt
AllRelaxed-IsTyped [] (d ∷ ds) h t = absurd h
AllRelaxed-IsTyped (c ∷ cs) [] h t = tt
AllRelaxed-IsTyped (c ∷ cs) (d ∷ ds) h t =
    (Relaxed-IsTyped c d h.0 t.0, AllRelaxed-IsTyped cs ds h.1 t.1)
