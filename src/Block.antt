-- ===== src/Block.antt =====
-- The raw block, the column format of query results: driver/common (type codes, lengths),
-- driver/common/serializer/block.go (Block/Serialize) and driver/common/parser/block.go
-- (Block/Parse). A block is its list of bytes; a pointer into it is its offset.
-- Integers and floats of w bits are their bit patterns, numbers below 2 ^ w.
pub mod Bitmap
pub mod Serialize
pub mod Parse
pub mod RoundTrip
pub mod Rows
pub mod Params
pub mod Runs
use taosadapter.Common.{
  ℕ, ◌+◌, ◌-◌, ◌*◌, ◌/◌, ◌%◌, ◌^◌, Bool, ◌||◌, ◌==◌, ltb, Option, none, some, if◌then◌else◌,
}

-- `TSDB_DATA_TYPE_…` of driver/common/datatype.go.
abbrev pub tsdb_bool : ℕ
tsdb_bool = 1

abbrev pub tsdb_tinyint : ℕ
tsdb_tinyint = 2

abbrev pub tsdb_smallint : ℕ
tsdb_smallint = 3

abbrev pub tsdb_int : ℕ
tsdb_int = 4

abbrev pub tsdb_bigint : ℕ
tsdb_bigint = 5

abbrev pub tsdb_float : ℕ
tsdb_float = 6

abbrev pub tsdb_double : ℕ
tsdb_double = 7

abbrev pub tsdb_binary : ℕ
tsdb_binary = 8

abbrev pub tsdb_timestamp : ℕ
tsdb_timestamp = 9

abbrev pub tsdb_nchar : ℕ
tsdb_nchar = 10

abbrev pub tsdb_utinyint : ℕ
tsdb_utinyint = 11

abbrev pub tsdb_usmallint : ℕ
tsdb_usmallint = 12

abbrev pub tsdb_uint : ℕ
tsdb_uint = 13

abbrev pub tsdb_ubigint : ℕ
tsdb_ubigint = 14

abbrev pub tsdb_json : ℕ
tsdb_json = 15

abbrev pub tsdb_varbinary : ℕ
tsdb_varbinary = 16

abbrev pub tsdb_geometry : ℕ
tsdb_geometry = 20

-- `TypeLengthMap` of driver/common/const.go, for the types of fixed length.
abbrev pub type_length : ℕ → ℕ
type_length t =
    if t == tsdb_smallint || t == tsdb_usmallint
    then 2
    else if t == tsdb_int || (t == tsdb_float || t == tsdb_uint)
    then 4
    else if t == tsdb_bigint || (t == tsdb_double || (t == tsdb_timestamp || t == tsdb_ubigint))
    then 8
    else if t == 0 || (t == tsdb_bool || (t == tsdb_tinyint || t == tsdb_utinyint))
    then 1
    else 0

-- `IsVarDataType`
abbrev pub is_var_data_type : ℕ → Bool
is_var_data_type t =
    t == tsdb_binary
    || (t == tsdb_nchar || (t == tsdb_json || (t == tsdb_varbinary || t == tsdb_geometry)))

-- `tools.AddPointer`
unfoldable pub add_pointer : ℕ → ℕ → ℕ
add_pointer p n = (p + n) % 2 ^ 64

-- `time.Time` as the code makes it, `time.Unix(0, ns)`: the bit pattern of its int64 nanoseconds.
abbrev precision_milli : ℕ
precision_milli = 0

abbrev precision_micro : ℕ
precision_micro = 1

abbrev precision_nano : ℕ
precision_nano = 2

-- `time.Unix(0, timestamp*1e6)` and its siblings; the int64 product wraps, and an unknown
-- precision is a panic.
pub timestamp_convert_to_time : ℕ → ℕ → Option ℕ
timestamp_convert_to_time ts precision =
    if precision == precision_milli
    then some (ts * 1000000 % 2 ^ 64)
    else if precision == precision_micro
    then some (ts * 1000 % 2 ^ 64)
    else if precision == precision_nano
    then some ts
    else none

-- int64 division by a positive constant, which rounds to zero.
pub div_int64 : ℕ → ℕ → ℕ
div_int64 x d = if ltb x (2 ^ 63) then x / d else (2 ^ 64 - (2 ^ 64 - x) / d) % 2 ^ 64

pub time_to_timestamp : ℕ → ℕ → Option ℕ
unfolding div_int64
time_to_timestamp ns precision =
    if precision == precision_milli
    then some (div_int64 ns 1000000)
    else if precision == precision_micro
    then some (div_int64 ns 1000)
    else if precision == precision_nano
    then some ns
    else none
