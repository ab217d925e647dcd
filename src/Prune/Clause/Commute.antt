-- ===== src/Prune/Clause/Commute.antt =====
-- Swapping the sides of a comparison (src/prune_hook.rs, `commute_strategy`).
use pg_table_range.Base.{ℕ, zero, suc, ◌≤◌, ◌↔◌, arith}
use pg_table_range.Prune.Clause.{commute_strategy}

-- What a strategy says of `x` and `y`, given `x ≤ y` and `y ≤ x`.
abbrev pub Relates : ℕ → Type 0 → Type 0 → Type 0
Relates zero xy yx = ⊥
Relates (suc zero) xy yx = xy × ¬ yx
Relates (suc (suc zero)) xy yx = xy
Relates (suc (suc (suc zero))) xy yx = xy × yx
Relates (suc (suc (suc (suc zero)))) xy yx = yx
Relates (suc (suc (suc (suc (suc zero))))) xy yx = yx × ¬ xy
Relates (suc (suc (suc (suc (suc (suc n)))))) xy yx = ⊥

-- For each of the five strategies, the commuted strategy says of `y` and `x` what the strategy says of
-- `x` and `y`.
pub commute_strategy-Relates :
    (s : ℕ) (xy yx : Type 0) → s ≤ 5 → Relates (commute_strategy s) yx xy ↔ Relates s xy yx
unfolding commute_strategy
commute_strategy-Relates zero xy yx h = (λ r. r, λ r. r)
commute_strategy-Relates (suc zero) xy yx h = (λ r. r, λ r. r)
commute_strategy-Relates (suc (suc zero)) xy yx h = (λ r. r, λ r. r)
commute_strategy-Relates (suc (suc (suc zero))) xy yx h = (λ r. (r.1, r.0), λ r. (r.1, r.0))
commute_strategy-Relates (suc (suc (suc (suc zero)))) xy yx h = (λ r. r, λ r. r)
commute_strategy-Relates (suc (suc (suc (suc (suc zero))))) xy yx h = (λ r. r, λ r. r)
commute_strategy-Relates (suc (suc (suc (suc (suc (suc n)))))) xy yx h = absurd (omega arith)
