-- ===== src/Block/Serialize.antt =====
-- `SerializeRawBlock` of driver/common/serializer/block.go. A value of a parameter is `none` for
-- nil. A string is its runes, since the code only ranges over `[]rune(v)`; a time.Time is the bit
-- pattern of its UnixNano.
pub mod Columns
use taosadapter.Common.{
  ◌≡◌, refl, ℕ, zero, suc, ◌+◌, ◌-◌, ◌*◌, ◌/◌, ◌%◌, ◌^◌, Bool, true, false, List, [], ◌∷◌, ◌++◌,
  Option, none, some, ◌==◌, if◌then◌else◌, length, set, get_elem?, replicate,
}
use taosadapter.Common.Bytes.{le_bytes, write_le}
use taosadapter.Block.{
  time_to_timestamp, type_length, tsdb_bool, tsdb_tinyint, tsdb_smallint, tsdb_int, tsdb_bigint,
  tsdb_float, tsdb_double, tsdb_binary, tsdb_timestamp, tsdb_nchar, tsdb_utinyint, tsdb_usmallint,
  tsdb_uint, tsdb_ubigint, tsdb_json, tsdb_varbinary, tsdb_geometry,
}
use taosadapter.Block.Bitmap.{bitmap_len, char_offset, bm_set_null}

-- The Go types of parameter values; `other` is any other type.
pub data TaosValue : Type 0 where
  taos_bool : Bool → TaosValue
  taos_tinyint taos_smallint taos_int taos_bigint : ℕ → TaosValue
  taos_utinyint taos_usmallint taos_uint taos_ubigint : ℕ → TaosValue
  taos_float taos_double : ℕ → TaosValue
  taos_binary taos_varbinary taos_json taos_geometry : List ℕ → TaosValue
  taos_nchar : List ℕ → TaosValue
  taos_timestamp : ℕ → ℕ → TaosValue
  other : TaosValue

-- The column types; `unknown_type` is any type without a case in the switch.
pub data TaosType : Type 0 where
  bool_type tinyint_type smallint_type int_type bigint_type : TaosType
  utinyint_type usmallint_type uint_type ubigint_type float_type double_type : TaosType
  binary_type varbinary_type geometry_type nchar_type timestamp_type json_type : TaosType
  unknown_type : TaosType

pub data Error : Type 0 where
  column_number_not_match data_type_wrong incomplete_column : Error

-- `panic` stands for the run-time errors: an index out of range, or an unknown precision.
pub data Result {ℓ} (A : Type ℓ) : Type ℓ where
  ok : A → Result A
  err : Error → Result A
  panic : Result A

infixl 5 ◌>>=◌
abbrev pub ◌>>=◌ {ℓ κ} : {A : Type ℓ} {B : Type κ} → Result A → (A → Result B) → Result B
ok a >>= f = f a
err e >>= f = err e
panic >>= f = panic

pub bind_ok {ℓ κ} :
    {B : Type κ} {out : B} {A : Type ℓ} (first : Result A) (next : A → Result B)
    → (first >>= next) ≡ ok out
    → (x : A) × (first ≡ ok x) × (next x ≡ ok out)
bind_ok panic next e = cc
bind_ok (err why) next e = cc
bind_ok (ok x) next e = (x, refl, e)

-- The values that a column of fixed length takes, as the bits it writes.
unfoldable pub as_bool : TaosValue → Result ℕ
as_bool (taos_bool true) = ok 1
as_bool (taos_bool false) = ok 0
as_bool _ = err data_type_wrong

unfoldable pub as_tinyint : TaosValue → Result ℕ
as_tinyint (taos_tinyint v) = ok v
as_tinyint _ = err data_type_wrong

unfoldable pub as_smallint : TaosValue → Result ℕ
as_smallint (taos_smallint v) = ok v
as_smallint _ = err data_type_wrong

unfoldable pub as_int : TaosValue → Result ℕ
as_int (taos_int v) = ok v
as_int _ = err data_type_wrong

unfoldable pub as_bigint : TaosValue → Result ℕ
as_bigint (taos_bigint v) = ok v
as_bigint _ = err data_type_wrong

unfoldable pub as_utinyint : TaosValue → Result ℕ
as_utinyint (taos_utinyint v) = ok v
as_utinyint _ = err data_type_wrong

unfoldable pub as_usmallint : TaosValue → Result ℕ
as_usmallint (taos_usmallint v) = ok v
as_usmallint _ = err data_type_wrong

unfoldable pub as_uint : TaosValue → Result ℕ
as_uint (taos_uint v) = ok v
as_uint _ = err data_type_wrong

unfoldable pub as_ubigint : TaosValue → Result ℕ
as_ubigint (taos_ubigint v) = ok v
as_ubigint _ = err data_type_wrong

unfoldable pub as_float : TaosValue → Result ℕ
as_float (taos_float v) = ok v
as_float _ = err data_type_wrong

unfoldable pub as_double : TaosValue → Result ℕ
as_double (taos_double v) = ok v
as_double _ = err data_type_wrong

abbrev or_panic {ℓ} : {A : Type ℓ} → Option A → Result A
or_panic none = panic
or_panic (some a) = ok a

unfoldable pub as_timestamp : TaosValue → Result ℕ
as_timestamp (taos_timestamp ns precision) = or_panic (time_to_timestamp ns precision)
as_timestamp _ = err data_type_wrong

-- The values that a column of variable length takes, as the bytes behind their length.
unfoldable pub as_binary : TaosValue → Result (List ℕ)
as_binary (taos_binary v) = ok v
as_binary _ = err data_type_wrong

unfoldable pub as_varbinary : TaosValue → Result (List ℕ)
as_varbinary (taos_varbinary v) = ok v
as_varbinary _ = err data_type_wrong

unfoldable pub as_geometry : TaosValue → Result (List ℕ)
as_geometry (taos_geometry v) = ok v
as_geometry _ = err data_type_wrong

unfoldable pub as_json : TaosValue → Result (List ℕ)
as_json (taos_json v) = ok v
as_json _ = err data_type_wrong

-- `for _, r := range rs { dataTmp = appendUint32(dataTmp, uint32(r)) }`
unfoldable pub append_runes : List ℕ → List ℕ
append_runes [] = []
append_runes (r ∷ rs) = le_bytes 4 r ++ append_runes rs

unfoldable pub as_nchar : TaosValue → Result (List ℕ)
as_nchar (taos_nchar rs) = ok (append_runes rs)
as_nchar _ = err data_type_wrong
