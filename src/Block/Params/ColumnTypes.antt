-- ===== src/Block/Params/ColumnTypes.antt =====
-- `ColumnType` of driver/common/param/column.go: the types of the columns, in the order of the calls.
use taosadapter.Common.{
  ℕ, suc, List, Option, none, some, leb, ◌==◌, if◌then◌else◌, length, set, replicate,
}
use taosadapter.Block.Serialize.{
  TaosType, bool_type, tinyint_type, smallint_type, int_type, bigint_type, utinyint_type,
  usmallint_type, uint_type, ubigint_type, float_type, double_type, binary_type, varbinary_type,
  geometry_type, nchar_type, timestamp_type, json_type, Result, ok, err, incomplete_column,
}

-- `types.ColumnType`: the type and `MaxLen`, which is 0 where a call does not set it.
pub record FieldType : Type 0 where
  pub type : TaosType
  pub max_len : ℕ

pub record ColumnTypes : Type 0 where
  pub size : ℕ
  pub value : List (Option FieldType)
  pub column : ℕ

unfoldable pub new_column_type : ℕ → ColumnTypes
new_column_type size = record { size = size; value = replicate size none; column = 0 }

unfoldable new_column_type_with_value : List (Option FieldType) → ColumnTypes
new_column_type_with_value value = record {
  size = length value;
  value = value;
  column = length value;
}

-- What every `Add…` does with the type that it makes.
unfoldable pub add_type : FieldType → ColumnTypes → ColumnTypes
add_type t c =
    if leb c.size c.column
    then c
    else record c { value = set c.value c.column (some t); column = suc c.column }

unfoldable pub add_bool : ColumnTypes → ColumnTypes
unfolding add_type
add_bool c = add_type (record { type = bool_type; max_len = 0 }) c

unfoldable pub add_tinyint : ColumnTypes → ColumnTypes
unfolding add_type
add_tinyint c = add_type (record { type = tinyint_type; max_len = 0 }) c

unfoldable pub add_smallint : ColumnTypes → ColumnTypes
unfolding add_type
add_smallint c = add_type (record { type = smallint_type; max_len = 0 }) c

unfoldable pub add_int : ColumnTypes → ColumnTypes
unfolding add_type
add_int c = add_type (record { type = int_type; max_len = 0 }) c

unfoldable pub add_bigint : ColumnTypes → ColumnTypes
unfolding add_type
add_bigint c = add_type (record { type = bigint_type; max_len = 0 }) c

unfoldable pub add_utinyint : ColumnTypes → ColumnTypes
unfolding add_type
add_utinyint c = add_type (record { type = utinyint_type; max_len = 0 }) c

unfoldable pub add_usmallint : ColumnTypes → ColumnTypes
unfolding add_type
add_usmallint c = add_type (record { type = usmallint_type; max_len = 0 }) c

unfoldable pub add_uint : ColumnTypes → ColumnTypes
unfolding add_type
add_uint c = add_type (record { type = uint_type; max_len = 0 }) c

unfoldable pub add_ubigint : ColumnTypes → ColumnTypes
unfolding add_type
add_ubigint c = add_type (record { type = ubigint_type; max_len = 0 }) c

unfoldable pub add_float : ColumnTypes → ColumnTypes
unfolding add_type
add_float c = add_type (record { type = float_type; max_len = 0 }) c

unfoldable pub add_double : ColumnTypes → ColumnTypes
unfolding add_type
add_double c = add_type (record { type = double_type; max_len = 0 }) c

unfoldable pub add_binary : ℕ → ColumnTypes → ColumnTypes
unfolding add_type
add_binary str_max_len c = add_type (record { type = binary_type; max_len = str_max_len }) c

unfoldable pub add_varbinary : ℕ → ColumnTypes → ColumnTypes
unfolding add_type
add_varbinary str_max_len c = add_type (record { type = varbinary_type; max_len = str_max_len }) c

unfoldable pub add_nchar : ℕ → ColumnTypes → ColumnTypes
unfolding add_type
add_nchar str_max_len c = add_type (record { type = nchar_type; max_len = str_max_len }) c

unfoldable pub add_timestamp : ColumnTypes → ColumnTypes
unfolding add_type
add_timestamp c = add_type (record { type = timestamp_type; max_len = 0 }) c

unfoldable pub add_json : ℕ → ColumnTypes → ColumnTypes
unfolding add_type
add_json str_max_len c = add_type (record { type = json_type; max_len = str_max_len }) c

unfoldable pub add_geometry : ℕ → ColumnTypes → ColumnTypes
unfolding add_type
add_geometry str_max_len c = add_type (record { type = geometry_type; max_len = str_max_len }) c

-- `incomplete_column` is the error of `GetValue`.
unfoldable pub get_value : ColumnTypes → Result (List (Option FieldType))
get_value c = if c.size == c.column then ok c.value else err incomplete_column
