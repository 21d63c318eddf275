-- ===== src/TmqRaw/Runs.antt =====
-- The raw TMQ message of driver/common/parser/raw.go at concrete inputs.
use taosadapter.Common.{◌^◌, ◌-◌, ◌+◌, ◌≡◌, inl, inr, [], ◌∷◌, ◌++◌, some, arith}
use taosadapter.TmqRaw.{
  TmqRawDataSchema, parse_variable_byte_integer, parse_zigzag_variable_byte_integer, parse_schema,
}
use taosadapter.TmqRaw.Schema.{encode_schema, parse_schema-encode_schema}
use taosadapter.TmqRaw.Varint.{
  encode, zigzag_encode, parse_variable_byte_integer-encode,
  parse_zigzag_variable_byte_integer-encode,
}

-- 300 takes two bytes.
parse_variable_byte_integer-encode_example :
    parse_variable_byte_integer ((7 ∷ []) ++ (encode 8 300 ++ (9 ∷ []))) 1 ≡ some (300, 1 + 2)
parse_variable_byte_integer-encode_example =
    parse_variable_byte_integer-encode 300 (7 ∷ []) (9 ∷ []) (omega arith) (omega arith)

-- -3, whose zigzag form is 5.
parse_zigzag_variable_byte_integer-encode_example :
    parse_zigzag_variable_byte_integer ((7 ∷ []) ++ (encode 8 (zigzag_encode (2 ^ 64 - 3)) ++ [])) 1
    ≡ some (2 ^ 64 - 3, 1 + 1)
parse_zigzag_variable_byte_integer-encode_example =
    parse_zigzag_variable_byte_integer-encode (2 ^ 64 - 3) (7 ∷ []) [] (omega arith)
      (inr (omega arith)) (omega arith)

-- A binary column of 22 bytes with the name `c1`.
abbrev c1 : TmqRawDataSchema
c1 = record { col_type = 8; flag = 0; bytes = 22; col_id = 2; name = 99 ∷ 49 ∷ [] }

parse_schema-encode_schema_example :
    parse_schema ((7 ∷ []) ++ (encode_schema c1 ++ (9 ∷ []))) 1 ≡ some (c1, 1 + 8)
parse_schema-encode_schema_example =
    parse_schema-encode_schema c1 (7 ∷ []) (9 ∷ [])
      (omega arith, omega arith, (omega arith, inl (omega arith)), (omega arith, inl (omega arith)))
      (omega arith)
