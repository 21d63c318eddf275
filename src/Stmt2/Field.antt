-- ===== src/Stmt2/Field.antt =====
-- driver/common/stmt/field.go: the column type of a field of a statement.
use taosadapter.Common.{ℕ, ◌≡◌, Bool, true, false, Option, none, some, arith, ◌==◌, if◌then◌else◌}
use taosadapter.Block.{
  tsdb_bool, tsdb_tinyint, tsdb_smallint, tsdb_int, tsdb_bigint, tsdb_utinyint, tsdb_usmallint,
  tsdb_uint, tsdb_ubigint, tsdb_float, tsdb_double, tsdb_binary, tsdb_varbinary, tsdb_nchar,
  tsdb_timestamp, tsdb_json, tsdb_geometry,
}
use taosadapter.Block.Serialize.{
  TaosType, bool_type, tinyint_type, smallint_type, int_type, bigint_type, utinyint_type,
  usmallint_type, uint_type, ubigint_type, float_type, double_type, binary_type, varbinary_type,
  nchar_type, timestamp_type, json_type, geometry_type,
}
use taosadapter.Stmt2.{is_bound_type}

-- `GetType`; `none` is the error of an unsupported type.
get_type : ℕ → Option TaosType
get_type t =
    if t == tsdb_bool
    then some bool_type
    else if t == tsdb_tinyint
    then some tinyint_type
    else if t == tsdb_smallint
    then some smallint_type
    else if t == tsdb_int
    then some int_type
    else if t == tsdb_bigint
    then some bigint_type
    else if t == tsdb_utinyint
    then some utinyint_type
    else if t == tsdb_usmallint
    then some usmallint_type
    else if t == tsdb_uint
    then some uint_type
    else if t == tsdb_ubigint
    then some ubigint_type
    else if t == tsdb_float
    then some float_type
    else if t == tsdb_double
    then some double_type
    else if t == tsdb_binary
    then some binary_type
    else if t == tsdb_varbinary
    then some varbinary_type
    else if t == tsdb_nchar
    then some nchar_type
    else if t == tsdb_timestamp
    then some timestamp_type
    else if t == tsdb_json
    then some json_type
    else if t == tsdb_geometry
    then some geometry_type
    else none

abbrev is_some : Option TaosType → Bool
is_some none = false
is_some (some t) = true

-- `GetType` knows exactly the column types that `generateBindColData` has a case for.
get_type-is_bound_type : (t : ℕ) → is_some (get_type t) ≡ is_bound_type t
unfolding get_type is_bound_type
get_type-is_bound_type t = ground arith
