-- ===== src/Server/Laws.antt =====
-- What the helpers of the server model guarantee.
use pg_table_range.Base.{
  ℕ, ◌≡◌, Bool, Bool-cases, true, false, inl, inr, Option, none, some, known, ◌==◌, arith,
  if◌then◌else◌, or_raise, Ensures, Ensures-if, Ensures-bind, Ensures-known, Ensures-raised,
}
use pg_table_range.Bytes.{Bytes, is_utf8, has_nul}
use pg_table_range.Codec.RoundTrip.{IsText}
use pg_table_range.Server.{Server, SpiResult, text_of_cstr, datum_to_text, first_value, spi_value}

text_of_cstr-is_utf8 :
    (o : Option Bytes) (text : Bytes) → text_of_cstr o ≡ known text → is_utf8 text ≡ true
unfolding text_of_cstr
text_of_cstr-is_utf8 none text h = cc
text_of_cstr-is_utf8 (some s) text h = ground arith

-- A text that `datum_to_text` returns is UTF-8.
pub datum_to_text-is_utf8 :
    (sv : Server) (typ datum : ℕ) (text : Bytes)
    → datum_to_text sv typ datum ≡ known text
    → is_utf8 text ≡ true
unfolding datum_to_text
datum_to_text-is_utf8 sv typ datum text h = ground arith

value-IsText :
    (b : Bool) (o : Option Bytes)
    → IsText
        (if b then none else elim o [ none ↦ none | some s ↦ if is_utf8 s then some s else none ])
value-IsText true o = tt
value-IsText false none = tt
value-IsText false (some s) = elim (Bool-cases (is_utf8 s)) [ inl e ↦ rw e e | inr e ↦ rw e tt ]

-- The first value of a result is UTF-8.
pub first_value-IsText : (r : SpiResult) → IsText (first_value r)
unfolding first_value
first_value-IsText r = value-IsText (r.processed == 0) r.value

-- A value that `spi_value` returns is UTF-8.
pub spi_value-IsText :
    (sv : Server) (sql : Bytes) (r : Option Bytes) → spi_value sv sql ≡ known r → IsText r
unfolding spi_value
spi_value-IsText sv sql = checked.at
  where
    checked : Ensures IsText (spi_value sv sql)
    checked =
        Ensures-if (has_nul sql) _ _ (λ e. Ensures-raised _ _)
          λ e. Ensures-bind (or_raise (sv.spi_execute sql)) _ λ r run.
            Ensures-if (r.rc == sv.spi_ok_select) _ _
              (λ q. Ensures-known _ _ (first_value-IsText r)) (λ q. Ensures-raised _ _)
