-- ===== src/Build/Ends.antt =====
-- How an attempt ends, and the reasons for which a call of the build's helpers raises an ERROR
-- (src/summary_build.rs, src/prune_hook.rs).
pub mod Scan
use pg_table_range.Base.{
  ℕ, ◌≡◌, refl, ap, Bool, true, false, ◌>>=◌, if◌then◌else◌, ◌==◌, ◌||◌, none, some, List, Result,
  ok, err, or_raise, Attempt, known, unknown, raised, Error, type_not_found, nul_in_identifier,
  nul_in_sql, spi_failed, unreadable_extent,
}
use pg_table_range.Bytes.{Bytes, has_nul}
use pg_table_range.Server.{Server, SpiResult, text_to_datum}
use pg_table_range.Server.Geometry.{batch_sql}
use pg_table_range.Server.Types.{type_name_parts}

-- The attempt gives a value of which `P` holds, or raises an ERROR with a reason; it is not `None`.
abbrev pub Ends {ℓ} : {A : Type ℓ} → (Error → Type 0) → (A → Type 0) → Attempt A → Type 0
Ends Reason P (known a) = P a
Ends Reason P unknown = ⊥
Ends Reason P (raised e) = Reason e

pub Ends-bind {ℓ κ} :
    {A : Type ℓ} {B : Type κ} (Reason : Error → Type 0) (P : A → Type 0) (Q : B → Type 0)
    (m : Attempt A) (f : A → Attempt B)
    → Ends Reason P m
    → ((a : A) → m ≡ known a → P a → Ends Reason Q (f a))
    → Ends Reason Q (m >>= f)
Ends-bind Reason P Q (known a) f h k = k a refl h
Ends-bind Reason P Q unknown f h k = h
Ends-bind Reason P Q (raised e) f h k = h

pub Ends-imp {ℓ} :
    {A : Type ℓ} (Reason Other : Error → Type 0) (P : A → Type 0) (m : Attempt A)
    → ((e : Error) → Reason e → Other e)
    → Ends Reason P m
    → Ends Other P m
Ends-imp Reason Other P (known a) f h = h
Ends-imp Reason Other P unknown f h = h
Ends-imp Reason Other P (raised e) f h = f e h

pub Ends-if {ℓ} :
    {A : Type ℓ} (Reason : Error → Type 0) (P : A → Type 0) (b : Bool) (m n : Attempt A)
    → (b ≡ true → Ends Reason P m)
    → (b ≡ false → Ends Reason P n)
    → Ends Reason P (if b then m else n)
Ends-if Reason P true m n h k = h refl
Ends-if Reason P false m n h k = k refl

-- The reasons for which a call of the build's helpers raises an ERROR: a function of the server raises
-- it, or one of the code's own checks finds what the server has answered to be unusable.
pub data CallRaises (sv : Server) : Error → Type 0 where
  lookup_raises : {e : Error} (p : ℕ) → sv.fmgr_info p ≡ err e → CallRaises sv e
  function_raises : {e : Error} (f c a b : ℕ) → sv.function_call2 f c a b ≡ err e → CallRaises sv e
  output_raises : {e : Error} (f d : ℕ) → sv.call_output f d ≡ err e → CallRaises sv e
  input_raises :
      {e : Error} (f : ℕ) (text : Bytes) (ioparam : ℕ)
      → sv.call_input f text ioparam ≡ err e
      → CallRaises sv e
  query_raises :
      {e : Error} (sql : Bytes) (array typ : ℕ) (batch : List ℕ)
      → sv.spi_execute_with_array sql array typ batch ≡ err e
      → CallRaises sv e
  query_fails :
      (sql : Bytes) (array typ : ℕ) (batch : List ℕ) (r : SpiResult)
      → sv.spi_execute_with_array sql array typ batch ≡ ok r
      → (r.rc == sv.spi_ok_select) ≡ false
      → CallRaises sv spi_failed
  query_has_nul : (name : Bytes) → has_nul (batch_sql name) ≡ true → CallRaises sv nul_in_sql
  extent_has_no_input :
      (typ : ℕ) (text : Bytes)
      → text_to_datum sv typ text ≡ unknown
      → CallRaises sv unreadable_extent
  type_is_missing : (typ : ℕ) → type_name_parts sv typ ≡ none → CallRaises sv type_not_found
  identifier_has_nul :
      (typ : ℕ) (nsp name : Bytes)
      → type_name_parts sv typ ≡ some (nsp, name)
      → (has_nul nsp || has_nul name) ≡ true
      → CallRaises sv nul_in_identifier

pub raised-injective :
    {A : Type 0} (x y : Error) → ◌≡◌ {A = Attempt A} (raised x) (raised y) → x ≡ y
raised-injective {A} x y e = ap (λ (m : Attempt A). error_or x m) e
  where
    error_or : Error → Attempt A → Error
    error_or d (raised z) = z
    error_or d _ = d

module _ (sv : Server) where
  -- The attempt gives a value, or raises an ERROR for such a reason.
  abbrev pub Answered {ℓ} : {A : Type ℓ} → Attempt A → Type 0
  Answered m = Ends (CallRaises sv) (λ a. Unit) m

  pub Answered-known {ℓ} : {A : Type ℓ} (a : A) → Answered (known a)
  Answered-known a = tt

  pub Answered-bind {ℓ κ} :
      {A : Type ℓ} {B : Type κ} (m : Attempt A) (f : A → Attempt B)
      → Answered m
      → ((a : A) → Answered (f a))
      → Answered (m >>= f)
  Answered-bind m f h k = Ends-bind (CallRaises sv) (λ a. Unit) (λ b. Unit) m f h (λ a e u. k a)

  pub Answered-if {ℓ} :
      {A : Type ℓ} (b : Bool) (m n : Attempt A)
      → (b ≡ true → Answered m)
      → (b ≡ false → Answered n)
      → Answered (if b then m else n)
  Answered-if b m n h k = Ends-if (CallRaises sv) (λ a. Unit) b m n h k

  pub Answered-or_raise {ℓ} :
      {A : Type ℓ} (r : Result A)
      → ((e : Error) → r ≡ err e → CallRaises sv e)
      → Answered (or_raise r)
  Answered-or_raise (ok a) h = tt
  Answered-or_raise (err e) h = h e refl
