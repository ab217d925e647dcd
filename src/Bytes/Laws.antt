-- ===== src/Bytes/Laws.antt =====
-- The integer encodings are inverse to one another on values that fit.
use pg_table_range.Base.{ℕ, ◌<◌, ◌^◌, ◌≡◌, refl, arith, length}
use pg_table_range.Bytes.{u16_to_le_bytes, u32_to_le_bytes, u16_from_le_bytes, u32_from_le_bytes}

pub u16_from-u16_to : (n : ℕ) → n < 2 ^ 16 → u16_from_le_bytes (u16_to_le_bytes n) ≡ n
unfolding u16_from_le_bytes u16_to_le_bytes
u16_from-u16_to n h = omega arith

pub u32_from-u32_to : (n : ℕ) → n < 2 ^ 32 → u32_from_le_bytes (u32_to_le_bytes n) ≡ n
unfolding u32_from_le_bytes u32_to_le_bytes
u32_from-u32_to n h = omega arith

pub length-u16_to : (n : ℕ) → length (u16_to_le_bytes n) ≡ 2
unfolding u16_to_le_bytes
length-u16_to n = refl

pub length-u32_to : (n : ℕ) → length (u32_to_le_bytes n) ≡ 4
unfolding u32_to_le_bytes
length-u32_to n = refl
