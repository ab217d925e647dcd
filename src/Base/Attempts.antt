-- ===== src/Base/Attempts.antt =====
-- Calls into PostgreSQL. Rust's `Option` and an ERROR raised by the server (a panic that unwinds)
-- are the three outcomes of one type: a value, `None`, and the error.
use mathlib.Core.Path.{◌≡◌, refl, ap, subst}
use Prim.Native.Nat.{ℕ}
use mathlib.Core.Option.{Option, none, some}
use mathlib.Core.Bool.{Bool, true, false}
use pg_table_range.Base.Tests.{if◌then◌else◌}

-- The ERRORs that the code itself raises, and those of the functions that it calls.
pub data Error : Type 0 where
  blob_exceeds_page : Error
  parallel_mode : Error
  partial_index : Error
  nul_in_sql : Error
  spi_failed : Error
  unreadable_extent : Error
  type_not_found : Error
  nul_in_identifier : Error
  no_build_scan : Error
  from_server : ℕ → Error

pub data Attempt {ℓ} (A : Type ℓ) : Type ℓ where
  known : A → Attempt A
  unknown : Attempt A
  raised : Error → Attempt A

-- `Result<A, &'static str>`
pub data Result {ℓ} (A : Type ℓ) : Type ℓ where
  ok : A → Result A
  err : Error → Result A

-- `unwrap_or_else(|e| error!("{e}"))`
abbrev pub or_raise {ℓ} : {A : Type ℓ} → Result A → Attempt A
or_raise (ok a) = known a
or_raise (err e) = raised e

infixl 5 ◌>>=◌
abbrev pub ◌>>=◌ {ℓ κ} : {A : Type ℓ} {B : Type κ} → Attempt A → (A → Attempt B) → Attempt B
known a >>= f = f a
unknown >>= f = unknown
raised e >>= f = raised e

-- Rust's `?` on an `Option`.
abbrev pub try_option {ℓ} : {A : Type ℓ} → Option A → Attempt A
try_option none = unknown
try_option (some a) = known a

-- What an `and_then` gives for a value that may be missing: an ERROR still escapes.
abbrev pub optional {ℓ} : {A : Type ℓ} → Attempt A → Attempt (Option A)
optional (known a) = known (some a)
optional unknown = known none
optional (raised e) = raised e

-- Inversion of a bind that gives a value.
pub >>=-eq-known {ℓ κ} :
    {A : Type ℓ} {B : Type κ} (m : Attempt A) (f : A → Attempt B) {b : B}
    → (m >>= f) ≡ known b
    → (a : A) × (m ≡ known a) × (f a ≡ known b)
>>=-eq-known (known a) f h = (a, refl, h)
>>=-eq-known unknown f h = cc
>>=-eq-known (raised e) f h = cc

pub known-injective {ℓ} : {A : Type ℓ} (a b : A) → ◌≡◌ {A = Attempt A} (known a) (known b) → a ≡ b
known-injective {A} a b e = ap (value_or a) e
  where
    value_or : A → Attempt A → A
    value_or d (known x) = x
    value_or d _ = d

-- Every value that the attempt can give satisfies `P`.
pub record Ensures {ℓ κ} {A : Type ℓ} (P : A → Type κ) (m : Attempt A) : Type (ℓ ⊔ κ) where
  pub at : (a : A) → m ≡ known a → P a

module _ {ℓ κ} {A : Type ℓ} (P : A → Type κ) where
  pub Ensures-known : (a : A) → P a → Ensures P (known a)
  Ensures-known a h = record { at = λ b e. subst P (known-injective a b e) h }

  pub Ensures-unknown : Ensures P unknown
  Ensures-unknown = record { at = λ b e. cc }

  pub Ensures-raised : (e : Error) → Ensures P (raised e)
  Ensures-raised e = record { at = λ b q. cc }

pub Ensures-bind {ℓ κ μ} :
    {A : Type ℓ} {B : Type κ} {P : B → Type μ} (m : Attempt A) (f : A → Attempt B)
    → ((a : A) → m ≡ known a → Ensures P (f a))
    → Ensures P (m >>= f)
Ensures-bind {P} (known a) f h = h a refl
Ensures-bind {P} unknown f h = Ensures-unknown P
Ensures-bind {P} (raised e) f h = Ensures-raised P e

pub try_option-known {ℓ} : {A : Type ℓ} (o : Option A) (a : A) → try_option o ≡ known a → o ≡ some a
try_option-known none a h = cc
try_option-known (some b) a h = ap some (known-injective b a h)

pub Ensures-if {ℓ κ} :
    {A : Type ℓ} {P : A → Type κ} (b : Bool) (m n : Attempt A)
    → (b ≡ true → Ensures P m)
    → (b ≡ false → Ensures P n)
    → Ensures P (if b then m else n)
Ensures-if true m n h k = h refl
Ensures-if false m n h k = k refl

pub Ensures-or_raise {ℓ κ} :
    {A : Type ℓ} {P : A → Type κ} (r : Result A)
    → ((a : A) → r ≡ ok a → P a)
    → Ensures P (or_raise r)
Ensures-or_raise {P} (ok a) h = Ensures-known P a (h a refl)
Ensures-or_raise {P} (err e) h = Ensures-raised P e

pub or_raise-known {ℓ} : {A : Type ℓ} (r : Result A) (a : A) → or_raise r ≡ known a → r ≡ ok a
or_raise-known (ok b) a h = ap ok (known-injective b a h)
or_raise-known (err e) a h = cc

pub Ensures-imp {ℓ κ μ} :
    {A : Type ℓ} {P : A → Type κ} {Q : A → Type μ} {m : Attempt A}
    → ((a : A) → P a → Q a)
    → Ensures P m
    → Ensures Q m
Ensures-imp f h = record { at = λ a e. f a (h.at a e) }
