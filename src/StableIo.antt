-- ===== src/StableIo.antt =====
-- Running code under pinned output settings (src/stable_io.rs). The server's stack of GUC nest
-- levels is a list of the settings to go back to.
pub mod Pinned
mod Tests
use pg_table_range.Base.{
  ℕ, suc, ◌≡◌, Bool, true, false, ◌||◌, not, Option, none, some, List, [], ◌∷◌, ◌==◌, if◌then◌else◌,
}

-- `negsuc n` is -(n + 1).
pub data ℤ : Type 0 where
  pos : ℕ → ℤ
  negsuc : ℕ → ℤ

-- `n < 1`
abbrev pub below_one : ℤ → Bool
below_one (pos n) = n == 0
below_one (negsuc n) = true

pub record Gucs : Type 0 where
  pub date_style : ℕ
  pub interval_style : ℕ
  pub extra_float_digits : ℤ

-- The settings in force, those of the outer nest levels, and `IsInParallelMode()`.
pub record Session : Type 0 where
  pub gucs : Gucs
  pub outer : List Gucs
  pub in_parallel_mode : Bool

-- `USE_ISO_DATES` and `INTSTYLE_POSTGRES`
abbrev pub use_iso_dates : ℕ
use_iso_dates = 1

abbrev pub intstyle_postgres : ℕ
intstyle_postgres = 0

pub new_guc_nest_level : Session → Session
new_guc_nest_level s = record s { outer = s.gucs ∷ s.outer }

-- `AtEOXact_GUC` at the innermost level puts back the settings saved for it.
pub pop_guc : List Gucs → Session → Session
pop_guc [] s = s
pop_guc (g ∷ gs) s = record s { gucs = g; outer = gs }

pub at_eoxact_guc : Session → Session
unfolding pop_guc
at_eoxact_guc s = pop_guc s.outer s

-- The three calls of `set_guc`, each under its test.
pub set_gucs : Bool → Bool → Bool → Gucs → Gucs
set_gucs need_date need_interval need_float g =
    let g1 = if need_date then record g { date_style = use_iso_dates } else g in
    let g2 = if need_interval then record g1 { interval_style = intstyle_postgres } else g1 in
    if need_float then record g2 { extra_float_digits = pos 1 } else g2

-- The result of `f` and the session after it. `none` means that `f` was not run. What `f` returns,
-- an ERROR included, comes back after the settings are put back.
unfoldable pub with_stable_io {ℓ} : {A : Type ℓ} → (Gucs → A) → Session → Option A × Session
unfolding new_guc_nest_level at_eoxact_guc set_gucs
with_stable_io f s =
    let need_date = not (s.gucs.date_style == use_iso_dates) in
    let need_interval = not (s.gucs.interval_style == intstyle_postgres) in
    let need_float = below_one s.gucs.extra_float_digits in
    if not (need_date || need_interval || need_float)
    then (some (f s.gucs), s)
    else if s.in_parallel_mode
    then (none, s)
    else let s1 = new_guc_nest_level s in
      let s2 = record s1 { gucs = set_gucs need_date need_interval need_float s1.gucs } in
      (some (f s2.gucs), at_eoxact_guc s2)
