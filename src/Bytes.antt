-- ===== src/Bytes.antt =====
-- Machine integers as bytes, and the UTF-8 test of Rust's strings (the encodings that
-- src/index_storage.rs uses). A `u16`, a `u32` and an `i16` are their bit patterns, numbers below
-- 2 ^ 16 and 2 ^ 32; a string is its bytes.
pub mod Laws
use pg_table_range.Base.{
  ℕ, zero, suc, ◌+◌, ◌*◌, ◌/◌, ◌%◌, Bool, true, false, ◌&&◌, List, [], ◌∷◌, leb, ltb, Option, none,
  some, ◌==◌, if◌then◌else◌,
}

abbrev pub Bytes : Type 0
Bytes = List ℕ

-- `to_le_bytes` of a `u16` or an `i16`, after `as u16`: only the low two bytes are kept.
unfoldable pub u16_to_le_bytes : ℕ → Bytes
u16_to_le_bytes n = (n % 256) ∷ (n / 256 % 256) ∷ []

unfoldable pub u32_to_le_bytes : ℕ → Bytes
u32_to_le_bytes n = (n % 256) ∷ (n / 256 % 256) ∷ (n / 65536 % 256) ∷ (n / 16777216 % 256) ∷ []

-- Applied to slices of exactly two and four bytes.
unfoldable pub u16_from_le_bytes : Bytes → ℕ
u16_from_le_bytes (a ∷ b ∷ r) = a + 256 * b
u16_from_le_bytes _ = 0

unfoldable pub u32_from_le_bytes : Bytes → ℕ
u32_from_le_bytes (a ∷ b ∷ c ∷ d ∷ r) = a + 256 * b + 65536 * c + 16777216 * d
u32_from_le_bytes _ = 0

-- What a byte at the start of a character asks of the bytes behind it: how many there are, and the
-- bounds of the first of them. Rust's `from_utf8` accepts just the well-formed sequences of Unicode.
pub record Pending : Type 0 where
  pub left : ℕ
  pub low : ℕ
  pub high : ℕ

abbrev pub between : ℕ → ℕ → ℕ → Bool
between a b x = leb a x && leb x b

pub utf8_lead : ℕ → Option Pending
utf8_lead b =
    if ltb b 0x80
    then some (record { left = 0; low = 0; high = 0 })
    else if between 0xc2 0xdf b
    then some (record { left = 1; low = 0x80; high = 0xbf })
    else if b == 0xe0
    then some (record { left = 2; low = 0xa0; high = 0xbf })
    else if b == 0xed
    then some (record { left = 2; low = 0x80; high = 0x9f })
    else if between 0xe1 0xef b
    then some (record { left = 2; low = 0x80; high = 0xbf })
    else if b == 0xf0
    then some (record { left = 3; low = 0x90; high = 0xbf })
    else if between 0xf1 0xf3 b
    then some (record { left = 3; low = 0x80; high = 0xbf })
    else if b == 0xf4
    then some (record { left = 3; low = 0x80; high = 0x8f })
    else none

-- `n` bytes of the current character are still to come, the next one between `low` and `high`.
pub utf8_run : ℕ → ℕ → ℕ → Bytes → Bool
utf8_run zero low high [] = true
utf8_run (suc n) low high [] = false
utf8_run (suc n) low high (b ∷ bs) = between low high b && utf8_run n 0x80 0xbf bs
utf8_run zero low high (b ∷ bs) = elim (utf8_lead b) [
  | none ↦ false
  | some p ↦ utf8_run p.left p.low p.high bs
]

unfoldable pub is_utf8 : Bytes → Bool
unfolding utf8_run utf8_lead
is_utf8 bs = utf8_run 0 0 0 bs

-- Whether a byte string holds a NUL, which `CString::new` refuses.
unfoldable pub has_nul : Bytes → Bool
has_nul [] = false
has_nul (b ∷ bs) = let rest = has_nul bs in if b == 0 then true else rest
