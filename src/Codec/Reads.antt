-- ===== src/Codec/Reads.antt =====
-- A reader that stands at the bytes written for a value reads the value and stops behind them.
use pg_table_range.Base.{
  ℕ, ◌+◌, ◌≤◌, ◌<◌, ◌^◌, ◌≡◌, refl, sym, ◌∙◌, ap, true, Option, some, [], ◌∷◌, ◌++◌, append_assoc,
  append-nil, length, length-append, length-drop, drop, drop-drop, drop-append, get_elem?,
  get_elem?-drop, get_range-drop, arith,
}
use pg_table_range.Bytes.{Bytes, u16_to_le_bytes, u32_to_le_bytes, is_utf8}
use pg_table_range.Bytes.Laws.{u16_from-u16_to, u32_from-u32_to, length-u16_to, length-u32_to}
use pg_table_range.Codec.{
  Reader, Read, pure, ◌>>=◌, read_u8, read_slice, read_u16, read_u32, from_utf8,
}

-- What is left to read.
abbrev pub At : Reader → Bytes → Type 0
At r rest = (r.pos ≤ length r.buf) × (drop r.pos r.buf ≡ rest)

-- Where a read ends.
abbrev pub Ends : {A : Type 0} → Option (A × Reader) → A → Bytes → Type 0
Ends {A} o v rest = (r' : Reader) × (◌≡◌ {A = Option (A × Reader)} o (some (v, r'))) × At r' rest

-- `m` reads `v` from the bytes `bs`, whatever follows them.
pub record Reads {A : Type 0} (m : Read A) (bs : Bytes) (v : A) : Type 0 where
  pub at : (r : Reader) (rest : Bytes) → At r (bs ++ rest) → Ends (m r) v rest

pub Reads-pure : {A : Type 0} (v : A) → Reads (pure v) [] v
Reads-pure v = record { at = λ r rest h. (r, refl, h) }

pub Reads-bind :
    {A B : Type 0} {m : Read A} (f : A → Read B) {bs cs : Bytes} {v : A} {w : B}
    → Reads m bs v
    → Reads (f v) cs w
    → Reads (m >>= f) (bs ++ cs) w
unfolding ◌>>=◌
Reads-bind f {bs} {cs} hm hf = record {
  at = λ r rest h.
      let (r', e, h') = hm.at r (cs ++ rest) (h.0, h.1 ∙ append_assoc bs cs rest) in
      rw (e, ◌>>=◌) (hf.at r' rest h');
}

-- The last step of a block, after which nothing more is read.
pub Reads-bind_last :
    {A B : Type 0} {m : Read A} (f : A → Read B) {bs : Bytes} {v : A} {w : B}
    → Reads m bs v
    → Reads (f v) [] w
    → Reads (m >>= f) bs w
Reads-bind_last f {bs} hm hf = rw (sym (append-nil bs)) (Reads-bind f hm hf)

-- The position behind `bs`, and what is left there.
At-advance :
    (r : Reader) (bs rest : Bytes)
    → At r (bs ++ rest)
    → At (record r { pos = r.pos + length bs }) rest
At-advance r bs rest h = (
  omega (arith, h.0, length-drop r.pos r.buf, ap (length {A = ℕ}) h.1, length-append bs rest),
  drop-drop r.pos (length bs) r.buf ∙ ap (drop (length bs)) h.1 ∙ drop-append bs rest,
)

pub Reads-u8 : (b : ℕ) → Reads read_u8 (b ∷ []) b
unfolding read_u8
Reads-u8 b = record {
  at = λ r rest h.
      rw (sym (get_elem?-drop r.pos r.buf) ∙ ap (λ (l : Bytes). get_elem? l 0) h.1, read_u8)
        (_, refl, At-advance r (b ∷ []) rest h);
}

Reads-slice_length : (bs : Bytes) → Reads (read_slice (length bs)) bs bs
unfolding read_slice
Reads-slice_length bs = record {
  at = λ r rest h.
      rw (get_range-drop r.buf bs rest r.pos h.0 h.1, read_slice) (_, refl, At-advance r bs rest h);
}

pub Reads-slice : (n : ℕ) (bs : Bytes) → length bs ≡ n → Reads (read_slice n) bs bs
Reads-slice n bs e = rw (sym e) (Reads-slice_length bs)

pub Reads-u16 : (n : ℕ) → n < 2 ^ 16 → Reads read_u16 (u16_to_le_bytes n) n
unfolding read_u16
Reads-u16 n h =
    Reads-bind_last _ (Reads-slice 2 _ (length-u16_to n)) (rw (u16_from-u16_to n h) (Reads-pure n))

pub Reads-u32 : (n : ℕ) → n < 2 ^ 32 → Reads read_u32 (u32_to_le_bytes n) n
unfolding read_u32
Reads-u32 n h =
    Reads-bind_last _ (Reads-slice 4 _ (length-u32_to n)) (rw (u32_from-u32_to n h) (Reads-pure n))

pub Reads-from_utf8 : (bs : Bytes) → is_utf8 bs ≡ true → Reads (from_utf8 bs) [] bs
unfolding from_utf8
Reads-from_utf8 bs h = record { at = λ r rest k. rw (h, from_utf8) (r, refl, k) }
