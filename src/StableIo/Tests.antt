-- ===== src/StableIo/Tests.antt =====
-- Tests of `with_stable_io`: a function that reads the date style, in a session with another one.
use pg_table_range.Base.{ℕ, ◌≡◌, ◌⊎◌, true, false, some, none, []}
use pg_table_range.StableIo.{pos, Gucs, Session, with_stable_io}
use pg_table_range.StableIo.Pinned.{IsStable, session-with_stable_io, with_stable_io-IsStable}

abbrev german : Session
german = record {
  gucs = record { date_style = 3; interval_style = 2; extra_float_digits = pos 0 };
  outer = [];
  in_parallel_mode = false;
}

abbrev style : Gucs → ℕ
style g = g.date_style

session-with_stable_io_example : (with_stable_io style german).1 ≡ german
session-with_stable_io_example = session-with_stable_io style german

with_stable_io-IsStable_example :
    ((g : Gucs) × ((with_stable_io style german).0 ≡ some (style g)) × IsStable g)
    ⊎ (((with_stable_io style german).0 ≡ none)
        × (german.in_parallel_mode ≡ true)
        × ¬ IsStable german.gucs)
with_stable_io-IsStable_example = with_stable_io-IsStable style german
