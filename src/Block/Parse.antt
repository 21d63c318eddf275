-- ===== src/Block/Parse.antt =====
-- driver/common/parser/block.go: reading a raw block in place. The block is the memory behind the
-- pointer, and pointers are offsets from it modulo 2 ^ 64. `none` is a fault: a read outside the
-- block, an index out of range, a nil function, or the panic of an unknown precision.
pub mod Blocks
use taosadapter.Common.{
  ℕ, zero, suc, ◌+◌, ◌-◌, ◌*◌, ◌/◌, ◌%◌, ◌^◌, Bool, true, false, not, List, [], ◌∷◌, ◌++◌, Option,
  none, some, ◌==◌, ltb, leb, if◌then◌else◌, length, get_elem?, map,
}
use taosadapter.Common.Bytes.{read_le, read_bytes}
use taosadapter.Block.{
  tsdb_bool, tsdb_tinyint, tsdb_smallint, tsdb_int, tsdb_bigint, tsdb_float, tsdb_double,
  tsdb_binary, tsdb_timestamp, tsdb_nchar, tsdb_utinyint, tsdb_usmallint, tsdb_uint, tsdb_ubigint,
  tsdb_json, tsdb_varbinary, tsdb_geometry, is_var_data_type, timestamp_convert_to_time,
  add_pointer,
}
use taosadapter.Block.Bitmap.{bitmap_len, item_is_null}

-- `driver.Value`, by its Go type; `text` is a string of bytes, `runes` one made from runes.
pub data Value : Type 0 where
  null : Value
  bool : Bool → Value
  int8 int16 int32 int64 : ℕ → Value
  uint8 uint16 uint32 uint64 : ℕ → Value
  float32 float64 : ℕ → Value
  time : ℕ → Value
  bytes text runes : List ℕ → Value

infixl 5 ◌>>=◌
abbrev pub ◌>>=◌ {ℓ κ} : {A : Type ℓ} {B : Type κ} → Option A → (A → Option B) → Option B
none >>= f = none
some a >>= f = f a

-- `uintptr(x)` of an int32: its sign is extended.
unfoldable pub sign_extend : ℕ → ℕ
sign_extend x = if ltb x (2 ^ 31) then x else x + (2 ^ 64 - 2 ^ 32)

-- The fields of the header.
unfoldable raw_block_get_version : List ℕ → Option ℕ
raw_block_get_version b = read_le 4 b 0

unfoldable pub raw_block_get_length : List ℕ → Option ℕ
raw_block_get_length b = read_le 4 b 4

unfoldable pub raw_block_get_num_of_rows : List ℕ → Option ℕ
raw_block_get_num_of_rows b = read_le 4 b 8

unfoldable pub raw_block_get_num_of_cols : List ℕ → Option ℕ
raw_block_get_num_of_cols b = read_le 4 b 12

unfoldable raw_block_get_has_column_segment : List ℕ → Option ℕ
raw_block_get_has_column_segment b = read_le 4 b 16

unfoldable raw_block_get_group_id : List ℕ → Option ℕ
raw_block_get_group_id b = read_le 8 b 20

abbrev col_info_offset : ℕ
col_info_offset = 28

abbrev col_info_size : ℕ
col_info_size = 5

-- `RawBlockGetColInfo`: type and bytes of `n` columns from column `i` on.
unfoldable pub raw_block_get_col_info : List ℕ → ℕ → ℕ → Option (List (ℕ × ℕ))
raw_block_get_col_info b i zero = some []
raw_block_get_col_info b i (suc n) = do
  let offset = col_info_offset + col_info_size * i
  t ← read_le 1 b offset
  size ← read_le 4 b (offset + 1)
  rest ← raw_block_get_col_info b (suc i) n
  some ((t, size) ∷ rest)

unfoldable pub raw_block_get_column_length_offset : ℕ → ℕ
raw_block_get_column_length_offset cols = col_info_offset + cols * col_info_size

unfoldable pub raw_block_get_col_data_offset : ℕ → ℕ
raw_block_get_col_data_offset cols = col_info_offset + cols * col_info_size + cols * 4

-- `convertF(pStart, row, …)` for the types of fixed length; the last argument converts a timestamp,
-- by the precision or by the caller's format function.
unfoldable pub raw_convert : List ℕ → ℕ → ℕ → ℕ → (ℕ → Option Value) → Option Value
raw_convert b t start row to_time =
    let at = λ (width : ℕ). read_le width b (add_pointer start (row * width)) in
    if t == tsdb_bool
    then (at 1 >>= λ v. some (bool (not (v == 0))))
    else if t == tsdb_tinyint
    then (at 1 >>= λ v. some (int8 v))
    else if t == tsdb_smallint
    then (at 2 >>= λ v. some (int16 v))
    else if t == tsdb_int
    then (at 4 >>= λ v. some (int32 v))
    else if t == tsdb_bigint
    then (at 8 >>= λ v. some (int64 v))
    else if t == tsdb_utinyint
    then (at 1 >>= λ v. some (uint8 v))
    else if t == tsdb_usmallint
    then (at 2 >>= λ v. some (uint16 v))
    else if t == tsdb_uint
    then (at 4 >>= λ v. some (uint32 v))
    else if t == tsdb_ubigint
    then (at 8 >>= λ v. some (uint64 v))
    else if t == tsdb_float
    then (at 4 >>= λ v. some (float32 v))
    else if t == tsdb_double
    then (at 8 >>= λ v. some (float64 v))
    else if t == tsdb_timestamp
    then (at 8 >>= to_time)
    else none

-- `rawGetBytes`: the offset of the row, then two bytes of length and the bytes.
unfoldable pub raw_get_bytes : List ℕ → ℕ → ℕ → ℕ → Option (Option (List ℕ))
raw_get_bytes b header start row = do
  offset ← read_le 4 b (add_pointer header (row * 4))
  let current = add_pointer start (sign_extend offset)
  if offset == 0xffff_ffff
      then some none
      else (read_le 2 b current >>= λ clen.
          read_bytes clen b (add_pointer current 2) >>= λ p. some (some p))

-- `n` runes from an offset on.
unfoldable pub read_runes : ℕ → List ℕ → ℕ → Option (List ℕ)
read_runes zero b off = some []
read_runes (suc n) b off = do r ← read_le 4 b off; rest ← read_runes n b (off + 4); some (r ∷ rest)

-- `rawConvertNchar`
unfoldable pub raw_convert_nchar : List ℕ → ℕ → ℕ → ℕ → Option Value
unfolding read_runes
raw_convert_nchar b header start row = do
  offset ← read_le 4 b (add_pointer header (row * 4))
  let current = add_pointer start (sign_extend offset)
  if offset == 0xffff_ffff
      then some null
      else (read_le 2 b current >>= λ clen.
          read_runes (clen / 4) b (add_pointer current 2) >>= λ rs. some (runes rs))

abbrev pub or_null : (List ℕ → Value) → Option (List ℕ) → Value
or_null f none = null
or_null f (some p) = f p

-- `convertF(pHeader, pStart, row)` for the types of variable length.
unfoldable pub raw_convert_var_data : List ℕ → ℕ → ℕ → ℕ → ℕ → Option Value
raw_convert_var_data b t header start row =
    if t == tsdb_nchar
    then raw_convert_nchar b header start row
    else if t == tsdb_binary
    then (raw_get_bytes b header start row >>= λ p. some (or_null text p))
    else (raw_get_bytes b header start row >>= λ p. some (or_null bytes p))

-- `rawConvertTime` with the precision alone, and with a format function.
unfoldable pub time_by_precision : ℕ → ℕ → Option Value
time_by_precision precision ts = timestamp_convert_to_time ts precision >>= λ ns. some (time ns)

-- `ItemRawBlock`: an index into `rawConvertFuncSlice`, of length 15, where the type has none.
unfoldable pub item_raw_block : List ℕ → ℕ → ℕ → ℕ → ℕ → (ℕ → Option Value) → Option Value
item_raw_block b t header start row to_time =
    if is_var_data_type t
    then raw_convert_var_data b t header start row
    else (item_is_null b header row >>= λ is_null.
        if is_null then some null else raw_convert b t start row to_time)
