-- ===== src/Block/Params.antt =====
-- The parameters of a statement, driver/common/param: `Param` (param.go) holds the values of one
-- column, and Params/ColumnTypes `ColumnType` (column.go) the types of the columns. An int is its
-- bit pattern of 64 bits, so that a conversion to a narrower type keeps the low bits. Offsets are
-- not negative; `make` of a negative size is a panic and is left out.
pub mod ColumnTypes
pub mod Calls
pub mod SetCalls
pub mod Runs
pub mod TypeCalls
use taosadapter.Common.{
  ℕ, suc, ◌+◌, ◌%◌, ◌^◌, Bool, List, [], ◌∷◌, Option, none, some, leb, if◌then◌else◌, map, set,
  replicate,
}
use taosadapter.Block.Serialize.{
  TaosValue, taos_bool, taos_tinyint, taos_smallint, taos_int, taos_bigint, taos_utinyint,
  taos_usmallint, taos_uint, taos_ubigint, taos_float, taos_double, taos_binary, taos_varbinary,
  taos_json, taos_geometry, taos_nchar, taos_timestamp,
}

pub record Param : Type 0 where
  pub size : ℕ
  pub value : List (Option TaosValue)
  pub offset : ℕ

pub new_param : ℕ → Param
new_param size = record { size = size; value = replicate size none; offset = 0 }

-- `p.value[offset] = …` behind the test of the bound.
pub set_value : ℕ → Option TaosValue → Param → Param
set_value offset v p = if leb p.size offset then p else record p { value = set p.value offset v }

pub set_bool : ℕ → Bool → Param → Param
unfolding set_value
set_bool offset x p = set_value offset (some (taos_bool x)) p

pub set_null : ℕ → Param → Param
unfolding set_value
set_null offset p = set_value offset none p

pub set_tinyint : ℕ → ℕ → Param → Param
unfolding set_value
set_tinyint offset x p = set_value offset (some (taos_tinyint (x % 2 ^ 8))) p

pub set_smallint : ℕ → ℕ → Param → Param
unfolding set_value
set_smallint offset x p = set_value offset (some (taos_smallint (x % 2 ^ 16))) p

pub set_int : ℕ → ℕ → Param → Param
unfolding set_value
set_int offset x p = set_value offset (some (taos_int (x % 2 ^ 32))) p

pub set_bigint : ℕ → ℕ → Param → Param
unfolding set_value
set_bigint offset x p = set_value offset (some (taos_bigint x)) p

pub set_utinyint : ℕ → ℕ → Param → Param
unfolding set_value
set_utinyint offset x p = set_value offset (some (taos_utinyint (x % 2 ^ 8))) p

pub set_usmallint : ℕ → ℕ → Param → Param
unfolding set_value
set_usmallint offset x p = set_value offset (some (taos_usmallint (x % 2 ^ 16))) p

pub set_uint : ℕ → ℕ → Param → Param
unfolding set_value
set_uint offset x p = set_value offset (some (taos_uint (x % 2 ^ 32))) p

pub set_ubigint : ℕ → ℕ → Param → Param
unfolding set_value
set_ubigint offset x p = set_value offset (some (taos_ubigint x)) p

pub set_float : ℕ → ℕ → Param → Param
unfolding set_value
set_float offset x p = set_value offset (some (taos_float x)) p

pub set_double : ℕ → ℕ → Param → Param
unfolding set_value
set_double offset x p = set_value offset (some (taos_double x)) p

pub set_binary : ℕ → List ℕ → Param → Param
unfolding set_value
set_binary offset x p = set_value offset (some (taos_binary x)) p

pub set_varbinary : ℕ → List ℕ → Param → Param
unfolding set_value
set_varbinary offset x p = set_value offset (some (taos_varbinary x)) p

pub set_nchar : ℕ → List ℕ → Param → Param
unfolding set_value
set_nchar offset x p = set_value offset (some (taos_nchar x)) p

pub set_timestamp : ℕ → ℕ → ℕ → Param → Param
unfolding set_value
set_timestamp offset x precision p = set_value offset (some (taos_timestamp x precision)) p

pub set_json : ℕ → List ℕ → Param → Param
unfolding set_value
set_json offset x p = set_value offset (some (taos_json x)) p

pub set_geometry : ℕ → List ℕ → Param → Param
unfolding set_value
set_geometry offset x p = set_value offset (some (taos_geometry x)) p

-- `AddValue`
pub add_value : Option TaosValue → Param → Param
add_value v p =
    if leb p.size p.offset
    then p
    else record p { value = set p.value p.offset v; offset = suc p.offset }

pub add_bool : Bool → Param → Param
unfolding add_value
add_bool x p = add_value (some (taos_bool x)) p

pub add_null : Param → Param
unfolding add_value
add_null p = add_value none p

pub add_tinyint : ℕ → Param → Param
unfolding add_value
add_tinyint x p = add_value (some (taos_tinyint (x % 2 ^ 8))) p

pub add_smallint : ℕ → Param → Param
unfolding add_value
add_smallint x p = add_value (some (taos_smallint (x % 2 ^ 16))) p

pub add_int : ℕ → Param → Param
unfolding add_value
add_int x p = add_value (some (taos_int (x % 2 ^ 32))) p

pub add_bigint : ℕ → Param → Param
unfolding add_value
add_bigint x p = add_value (some (taos_bigint x)) p

pub add_utinyint : ℕ → Param → Param
unfolding add_value
add_utinyint x p = add_value (some (taos_utinyint (x % 2 ^ 8))) p

pub add_usmallint : ℕ → Param → Param
unfolding add_value
add_usmallint x p = add_value (some (taos_usmallint (x % 2 ^ 16))) p

pub add_uint : ℕ → Param → Param
unfolding add_value
add_uint x p = add_value (some (taos_uint (x % 2 ^ 32))) p

pub add_ubigint : ℕ → Param → Param
unfolding add_value
add_ubigint x p = add_value (some (taos_ubigint x)) p

pub add_float : ℕ → Param → Param
unfolding add_value
add_float x p = add_value (some (taos_float x)) p

pub add_double : ℕ → Param → Param
unfolding add_value
add_double x p = add_value (some (taos_double x)) p

pub add_binary : List ℕ → Param → Param
unfolding add_value
add_binary x p = add_value (some (taos_binary x)) p

pub add_varbinary : List ℕ → Param → Param
unfolding add_value
add_varbinary x p = add_value (some (taos_varbinary x)) p

pub add_nchar : List ℕ → Param → Param
unfolding add_value
add_nchar x p = add_value (some (taos_nchar x)) p

pub add_timestamp : ℕ → ℕ → Param → Param
unfolding add_value
add_timestamp x precision p = add_value (some (taos_timestamp x precision)) p

pub add_json : List ℕ → Param → Param
unfolding add_value
add_json x p = add_value (some (taos_json x)) p

pub add_geometry : List ℕ → Param → Param
unfolding add_value
add_geometry x p = add_value (some (taos_geometry x)) p

pub get_values : Param → List (Option TaosValue)
get_values p = p.value

unfoldable new_params_with_row_value : List (Option TaosValue) → List Param
unfolding new_param add_value
new_params_with_row_value = map (λ d. add_value d (new_param 1))
