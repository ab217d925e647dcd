-- ===== src/Codec/Tests.antt =====
-- Tests of the encoding.
use pg_table_range.Base.{some, [], ◌∷◌, ◌≡◌, ◌++◌, arith}
use pg_table_range.Codec.{serialize, deserialize}
use pg_table_range.Codec.RoundTrip.{deserialize-serialize}
use pg_table_range.Samples.{two_cols, two_cols-IsTyped}

deserialize-serialize_example : deserialize (serialize two_cols ++ (7 ∷ [])) ≡ some two_cols
unfolding serialize
deserialize-serialize_example =
    deserialize-serialize two_cols (7 ∷ []) two_cols-IsTyped (omega arith)
