-- ===== src/Stmt2.antt =====
-- driver/common/stmt/stmt2.go: the values that are bound to a statement, as the client library takes
-- them. Numbers and floats are their bit patterns, and a time its nanoseconds, as in Block. The
-- buffers are written in place, as the code does it.
pub mod Bind
pub mod Rows
pub mod Header
pub mod Expected
pub mod Column
pub mod Query
pub mod Marshal
pub mod Field
pub mod Runs
use taosadapter.Common.{
  ℕ, zero, suc, ◌+◌, ◌-◌, ◌*◌, ◌^◌, Bool, true, false, not, ◌&&◌, ◌||◌, List, [], ◌∷◌, ◌++◌, Option,
  none, some, ◌==◌, ltb, if◌then◌else◌, length, replicate,
}
use taosadapter.Common.Bytes.{le_bytes}
use taosadapter.Common.Bytes.Puts.{put_bytes}
use taosadapter.Block.{
  tsdb_bool, tsdb_tinyint, tsdb_smallint, tsdb_int, tsdb_bigint, tsdb_float, tsdb_double,
  tsdb_binary, tsdb_timestamp, tsdb_utinyint, tsdb_usmallint, tsdb_uint, tsdb_ubigint,
  is_var_data_type, type_length, time_to_timestamp,
}

-- `driver.Value` by its Go type; `other` is any type that the code does not know.
pub data Value : Type 0 where
  null other : Value
  bool : Bool → Value
  int8 int16 int32 int64 : ℕ → Value
  uint8 uint16 uint32 uint64 : ℕ → Value
  float32 float64 : ℕ → Value
  time : ℕ → Value
  bytes text : List ℕ → Value

pub data Error : Type 0 where
  data_type_not_match unsupported_type : Error
  empty_data tag_count_not_match col_count_not_match no_data table_name_too_long : Error
  query_tag_types query_col_types query_one_data query_table_name query_tag query_no_col : Error
  query_one_row : Error

-- `panic` is the panic of an unknown precision.
pub data Result (A : Type 0) : Type 0 where
  ok : A → Result A
  err : Error → Result A
  panic : Result A

infixl 5 ◌>>=◌
abbrev pub ◌>>=◌ : {A B : Type 0} → Result A → (A → Result B) → Result B
ok a >>= f = f a
err e >>= f = err e
panic >>= f = panic

-- The type assertions of the cases, each with the bytes that the case writes for the value.
abbrev as_bool : Value → Result (List ℕ)
as_bool (bool b) = ok ((if b then 1 else 0) ∷ [])
as_bool _ = err data_type_not_match

abbrev as_int8 : Value → Result (List ℕ)
as_int8 (int8 x) = ok (le_bytes 1 x)
as_int8 _ = err data_type_not_match

abbrev as_int16 : Value → Result (List ℕ)
as_int16 (int16 x) = ok (le_bytes 2 x)
as_int16 _ = err data_type_not_match

abbrev as_int32 : Value → Result (List ℕ)
as_int32 (int32 x) = ok (le_bytes 4 x)
as_int32 _ = err data_type_not_match

abbrev as_int64 : Value → Result (List ℕ)
as_int64 (int64 x) = ok (le_bytes 8 x)
as_int64 _ = err data_type_not_match

abbrev as_uint8 : Value → Result (List ℕ)
as_uint8 (uint8 x) = ok (le_bytes 1 x)
as_uint8 _ = err data_type_not_match

abbrev as_uint16 : Value → Result (List ℕ)
as_uint16 (uint16 x) = ok (le_bytes 2 x)
as_uint16 _ = err data_type_not_match

abbrev as_uint32 : Value → Result (List ℕ)
as_uint32 (uint32 x) = ok (le_bytes 4 x)
as_uint32 _ = err data_type_not_match

abbrev as_uint64 : Value → Result (List ℕ)
as_uint64 (uint64 x) = ok (le_bytes 8 x)
as_uint64 _ = err data_type_not_match

abbrev as_float32 : Value → Result (List ℕ)
as_float32 (float32 x) = ok (le_bytes 4 x)
as_float32 _ = err data_type_not_match

abbrev as_float64 : Value → Result (List ℕ)
as_float64 (float64 x) = ok (le_bytes 8 x)
as_float64 _ = err data_type_not_match

abbrev or_panic : Option ℕ → Result (List ℕ)
or_panic none = panic
or_panic (some ts) = ok (le_bytes 8 ts)

abbrev as_timestamp : ℕ → Value → Result (List ℕ)
as_timestamp precision (int64 x) = ok (le_bytes 8 x)
as_timestamp precision (time ns) = or_panic (time_to_timestamp ns precision)
as_timestamp precision _ = err data_type_not_match

abbrev as_bytes : Value → Result (List ℕ)
as_bytes (text s) = ok s
as_bytes (bytes s) = ok s
as_bytes _ = err data_type_not_match

-- `needLength`: the types of variable length, as `IsVarDataType` knows them.
pub need_length : ℕ → Bool
need_length t = is_var_data_type t

-- The cases of the switch of `generateBindColData`: whether there is one for the type, and what it
-- writes for a value that is not nil.
pub is_bound_type : ℕ → Bool
is_bound_type t = ltb 0 (type_length t) && not (t == 0) || is_var_data_type t

pub bind_value : ℕ → ℕ → Value → Result (List ℕ)
bind_value t precision v =
    if t == tsdb_bool
    then as_bool v
    else if t == tsdb_tinyint
    then as_int8 v
    else if t == tsdb_smallint
    then as_int16 v
    else if t == tsdb_int
    then as_int32 v
    else if t == tsdb_bigint
    then as_int64 v
    else if t == tsdb_float
    then as_float32 v
    else if t == tsdb_double
    then as_float64 v
    else if t == tsdb_timestamp
    then as_timestamp precision v
    else if t == tsdb_utinyint
    then as_uint8 v
    else if t == tsdb_usmallint
    then as_uint16 v
    else if t == tsdb_uint
    then as_uint32 v
    else if t == tsdb_ubigint
    then as_uint64 v
    else as_bytes v

-- `getBindDataHeaderLength`
pub header_length : ℕ → Bool → ℕ
header_length num has_length = 17 + num + (if has_length then num * 4 else 0)

-- `v == nil`
abbrev pub is_nil : Value → Bool
is_nil null = true
is_nil _ = false

-- `checkAllNull`
abbrev pub check_all_null : List Value → Bool
check_all_null [] = true
check_all_null (v ∷ values) = is_nil v && check_all_null values

-- One round of the loops over the rows: the header with `isNull` and the lengths, and `tmpBuffer`.
-- `num` counts the rows, `i` is the index.
pub bind_row : ℕ → ℕ → ℕ → ℕ → Value → List ℕ × List ℕ → Result (List ℕ × List ℕ)
unfolding bind_value need_length
bind_row t precision num i v (header, buffer) =
    if is_nil v
    then ok (put_bytes header (12 + i) (1 ∷ []), buffer ++ replicate (type_length t) 0)
    else (bind_value t precision v >>= λ p. ok (
      (if need_length t
          then put_bytes header (12 + num + 1 + i * 4) (le_bytes 4 (length p))
          else header),
      buffer ++ p,
    ))

pub bind_rows : ℕ → ℕ → ℕ → ℕ → List Value → List ℕ × List ℕ → Result (List ℕ × List ℕ)
unfolding bind_row
bind_rows t precision num i [] st = ok st
bind_rows t precision num i (v ∷ rest) st =
    bind_row t precision num i v st >>= bind_rows t precision num (suc i) rest

-- `uint32(colType.FieldType)` of an int8.
pub type_code : ℕ → ℕ
type_code t = if ltb t 128 then t else t + (2 ^ 32 - 2 ^ 8)

-- The header before the rows: type, number of rows, and whether there are lengths.
pub new_header : ℕ → ℕ → List ℕ
unfolding need_length header_length type_code
new_header t num =
    let zeros = replicate (header_length num (need_length t)) 0 in
    let header = put_bytes (put_bytes zeros 4 (le_bytes 4 (type_code t))) 8 (le_bytes 4 num) in
    if need_length t then put_bytes header (12 + num) (1 ∷ []) else header

-- The end of both functions: the lengths in the header, and the values behind it.
pub close_header : ℕ → List ℕ → List ℕ → List ℕ
close_header head_length header buffer =
    put_bytes (put_bytes header (head_length - 4) (le_bytes 4 (length buffer))) 0
      (le_bytes 4 (length buffer + head_length))
    ++ buffer

pub generate_bind_col_data : ℕ → ℕ → List Value → Result (List ℕ)
unfolding new_header close_header bind_rows is_bound_type header_length need_length
generate_bind_col_data t precision data' =
    let num = length data' in
    let header = new_header t num in
    let rows =
      if check_all_null data'
      then ok (put_bytes header 12 (replicate num 1), [])
      else if is_bound_type t
      then bind_rows t precision num 0 data' (header, [])
      else err unsupported_type in
    rows >>= λ st. ok (close_header (header_length num (need_length t)) st.0 st.1)

-- What `generateBindQueryData` binds for a value: its type, whether it has a length, and its bytes.
-- A time is a text in RFC 3339, which `format_time` makes.
abbrev pub query_form : (ℕ → List ℕ) → Value → Result (ℕ × Bool × List ℕ)
query_form format_time (text s) = ok (tsdb_binary, true, s)
query_form format_time (bytes s) = ok (tsdb_binary, true, s)
query_form format_time (int8 x) = ok (tsdb_tinyint, false, le_bytes 1 x)
query_form format_time (int16 x) = ok (tsdb_smallint, false, le_bytes 2 x)
query_form format_time (int32 x) = ok (tsdb_int, false, le_bytes 4 x)
query_form format_time (int64 x) = ok (tsdb_bigint, false, le_bytes 8 x)
query_form format_time (uint8 x) = ok (tsdb_utinyint, false, le_bytes 1 x)
query_form format_time (uint16 x) = ok (tsdb_usmallint, false, le_bytes 2 x)
query_form format_time (uint32 x) = ok (tsdb_uint, false, le_bytes 4 x)
query_form format_time (uint64 x) = ok (tsdb_ubigint, false, le_bytes 8 x)
query_form format_time (float32 x) = ok (tsdb_float, false, le_bytes 4 x)
query_form format_time (float64 x) = ok (tsdb_double, false, le_bytes 8 x)
query_form format_time (bool b) = ok (tsdb_bool, false, (if b then 1 else 0) ∷ [])
query_form format_time (time ns) = ok (tsdb_binary, true, format_time ns)
query_form format_time _ = err unsupported_type

pub query_data : ℕ → Bool → List ℕ → List ℕ
unfolding header_length
query_data t has_length buf =
    let head_length = header_length 1 has_length in
    let start =
      put_bytes (put_bytes (replicate (head_length + length buf) 0) 4 (le_bytes 4 t)) 8
        (le_bytes 4 1) in
    let marked =
      if has_length
      then put_bytes (put_bytes (put_bytes start 12 (0 ∷ [])) 13 (1 ∷ [])) 14
          (le_bytes 4 (length buf))
      else put_bytes start 12 (0 ∷ []) in
    put_bytes
      (put_bytes (put_bytes marked (head_length - 4) (le_bytes 4 (length buf))) head_length buf) 0
      (le_bytes 4 (head_length + length buf))

pub generate_bind_query_data : (ℕ → List ℕ) → Value → Result (List ℕ)
unfolding query_data
generate_bind_query_data format_time v =
    query_form format_time v >>= λ f. ok (query_data f.0 f.1 f.2)
