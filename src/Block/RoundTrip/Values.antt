-- ===== src/Block/RoundTrip/Values.antt =====
-- What a value of driver/common/serializer is after driver/common/parser has read it.
use taosadapter.Common.{ℕ, ◌*◌, ◌^◌, ◌<◌, List, [], ◌∷◌, Option, none, some, length}
use taosadapter.Block.{
  time_to_timestamp, tsdb_bool, tsdb_tinyint, tsdb_smallint, tsdb_int, tsdb_bigint, tsdb_float,
  tsdb_double, tsdb_binary, tsdb_timestamp, tsdb_nchar, tsdb_utinyint, tsdb_usmallint, tsdb_uint,
  tsdb_ubigint, tsdb_json, tsdb_varbinary, tsdb_geometry,
}
use taosadapter.Block.Serialize.{
  TaosValue, taos_bool, taos_tinyint, taos_smallint, taos_int, taos_bigint, taos_utinyint,
  taos_usmallint, taos_uint, taos_ubigint, taos_float, taos_double, taos_binary, taos_varbinary,
  taos_json, taos_geometry, taos_nchar, taos_timestamp, other, TaosType, bool_type, tinyint_type,
  smallint_type, int_type, bigint_type, utinyint_type, usmallint_type, uint_type, ubigint_type,
  float_type, double_type, binary_type, varbinary_type, geometry_type, nchar_type, timestamp_type,
  json_type, unknown_type,
}
use taosadapter.Block.Parse.{
  Value, null, bool, int8, int16, int32, int64, uint8, uint16, uint32, uint64, float32, float64,
  bytes, text, runes,
}

-- The type code of a column; `unknown_type` has none.
abbrev pub code_of : TaosType → ℕ
code_of bool_type = tsdb_bool
code_of tinyint_type = tsdb_tinyint
code_of smallint_type = tsdb_smallint
code_of int_type = tsdb_int
code_of bigint_type = tsdb_bigint
code_of utinyint_type = tsdb_utinyint
code_of usmallint_type = tsdb_usmallint
code_of uint_type = tsdb_uint
code_of ubigint_type = tsdb_ubigint
code_of float_type = tsdb_float
code_of double_type = tsdb_double
code_of binary_type = tsdb_binary
code_of varbinary_type = tsdb_varbinary
code_of geometry_type = tsdb_geometry
code_of nchar_type = tsdb_nchar
code_of timestamp_type = tsdb_timestamp
code_of json_type = tsdb_json
code_of unknown_type = 0

-- A timestamp that was written as `ts` is shown as `show ts`.
abbrev pub shown : (ℕ → Value) → Option ℕ → Value
shown show none = null
shown show (some ts) = show ts

abbrev pub value_of : (ℕ → Value) → Option TaosValue → Value
value_of show none = null
value_of show (some (taos_bool b)) = bool b
value_of show (some (taos_tinyint v)) = int8 v
value_of show (some (taos_smallint v)) = int16 v
value_of show (some (taos_int v)) = int32 v
value_of show (some (taos_bigint v)) = int64 v
value_of show (some (taos_utinyint v)) = uint8 v
value_of show (some (taos_usmallint v)) = uint16 v
value_of show (some (taos_uint v)) = uint32 v
value_of show (some (taos_ubigint v)) = uint64 v
value_of show (some (taos_float v)) = float32 v
value_of show (some (taos_double v)) = float64 v
value_of show (some (taos_binary p)) = text p
value_of show (some (taos_varbinary p)) = bytes p
value_of show (some (taos_json p)) = bytes p
value_of show (some (taos_geometry p)) = bytes p
value_of show (some (taos_nchar rs)) = runes rs
value_of show (some (taos_timestamp ns precision)) = shown show (time_to_timestamp ns precision)
value_of show (some other) = null

abbrev pub AllRunes : List ℕ → Type 0
AllRunes [] = Unit {0}
AllRunes (r ∷ rs) = (r < 2 ^ 32) × AllRunes rs

-- The range of each Go type, and for the others the length that two bytes can state.
abbrev pub IsSized : TaosValue → Type 0
IsSized (taos_bool b) = Unit {0}
IsSized (taos_tinyint v) = v < 2 ^ 8
IsSized (taos_smallint v) = v < 2 ^ 16
IsSized (taos_int v) = v < 2 ^ 32
IsSized (taos_bigint v) = v < 2 ^ 64
IsSized (taos_utinyint v) = v < 2 ^ 8
IsSized (taos_usmallint v) = v < 2 ^ 16
IsSized (taos_uint v) = v < 2 ^ 32
IsSized (taos_ubigint v) = v < 2 ^ 64
IsSized (taos_float v) = v < 2 ^ 32
IsSized (taos_double v) = v < 2 ^ 64
IsSized (taos_binary p) = length p < 2 ^ 16
IsSized (taos_varbinary p) = length p < 2 ^ 16
IsSized (taos_json p) = length p < 2 ^ 16
IsSized (taos_geometry p) = length p < 2 ^ 16
IsSized (taos_nchar rs) = (4 * length rs < 2 ^ 16) × AllRunes rs
IsSized (taos_timestamp ns precision) = ns < 2 ^ 64
IsSized other = Unit {0}

abbrev pub AllSized : List (Option TaosValue) → Type 0
AllSized [] = Unit {0}
AllSized (none ∷ vs) = AllSized vs
AllSized (some v ∷ vs) = IsSized v × AllSized vs
