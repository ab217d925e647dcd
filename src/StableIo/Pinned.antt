-- ===== src/StableIo/Pinned.antt =====
-- `with_stable_io` runs its function only under stable settings, and leaves the session as it was.
use mathlib.Core.Option
use pg_table_range.Base.{
  ◌≡◌, refl, Bool-cases, ◌⊎◌, inl, inr, Bool, true, false, ◌||◌, not, none, some, ◌==◌, arith,
}
use pg_table_range.StableIo.{
  below_one, Gucs, Session, use_iso_dates, intstyle_postgres, set_gucs, with_stable_io,
}

-- Settings under which the text of a value is read back exactly.
pub record IsStable (g : Gucs) : Type 0 where
  pub date : g.date_style ≡ use_iso_dates
  pub interval : g.interval_style ≡ intstyle_postgres
  pub float : below_one g.extra_float_digits ≡ false

-- The settings after `with_stable_io`, on every path, are those before it.
pub session-with_stable_io {ℓ} :
    {A : Type ℓ} (f : Gucs → A) (s : Session) → (with_stable_io f s).1 ≡ s
unfolding with_stable_io
session-with_stable_io f s = ground arith

-- The settings that the function sees: those of the session with the unstable ones replaced.
pub pinned : Gucs → Gucs
pinned g =
    set_gucs (not (g.date_style == use_iso_dates)) (not (g.interval_style == intstyle_postgres))
      (below_one g.extra_float_digits) g

pinned-IsStable : (g : Gucs) → IsStable (pinned g)
unfolding pinned set_gucs
pinned-IsStable g = record { date = ground arith; interval = ground arith; float = ground arith }

module _ {ℓ} {A : Type ℓ} (f : Gucs → A) (s : Session) where
  unstable : Bool
  unstable =
      not (s.gucs.date_style == use_iso_dates)
      || not (s.gucs.interval_style == intstyle_postgres)
      || below_one s.gucs.extra_float_digits

  not-IsStable : unstable ≡ true → ¬ IsStable s.gucs
  unfolding unstable
  not-IsStable u st = ground arith

  ran-stable : unstable ≡ false → (with_stable_io f s).0 ≡ some (f (pinned s.gucs))
  unfolding unstable with_stable_io pinned
  ran-stable u = ground arith

  ran-unstable :
      unstable ≡ true
      → s.in_parallel_mode ≡ false
      → (with_stable_io f s).0 ≡ some (f (pinned s.gucs))
  unfolding unstable with_stable_io pinned
  ran-unstable u p = rw (u, p) refl

  not_run : unstable ≡ true → s.in_parallel_mode ≡ true → (with_stable_io f s).0 ≡ none
  unfolding unstable with_stable_io
  not_run u p = rw (u, p) refl

  -- Either the function ran, under stable settings, or it did not run: then the session is in
  -- parallel mode and its own settings are not stable.
  pub with_stable_io-IsStable :
      ((g : Gucs) × ((with_stable_io f s).0 ≡ some (f g)) × IsStable g)
      ⊎ (((with_stable_io f s).0 ≡ none) × (s.in_parallel_mode ≡ true) × ¬ IsStable s.gucs)
  with_stable_io-IsStable = elim (Bool-cases unstable) [
    | inr calm ↦ inl (pinned s.gucs, ran-stable calm, pinned-IsStable s.gucs)
    | inl u ↦ elim (Bool-cases s.in_parallel_mode) [
      | inr alone ↦ inl (pinned s.gucs, ran-unstable u alone, pinned-IsStable s.gucs)
      | inl parallel ↦ inr (not_run u parallel, parallel, not-IsStable u)
    ]
  ]

-- The settings decide whether a function runs, not the function.
pub with_stable_io-map :
    {A : Type 0} (f : Gucs → A) (s : Session)
    → (with_stable_io f s).0 ≡ Option.map f (with_stable_io (λ g. g) s).0
unfolding with_stable_io
with_stable_io-map f s = ground arith
