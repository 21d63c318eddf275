-- ===== src/Block/Runs.antt =====
-- The raw block of driver/common/serializer and driver/common/parser at concrete inputs.
use taosadapter.Common.{
  ℕ, ◌≡◌, refl, false, List, [], ◌∷◌, Option, none, some, arith, map, replicate, get_elem?,
}
use taosadapter.Block.{add_pointer, timestamp_convert_to_time}
use taosadapter.Block.Bitmap.{bitmap_len, bm_set_null, bm_is_null, null_bit, item_is_null}
use taosadapter.Block.Serialize.{
  TaosValue, TaosType, taos_int, taos_nchar, int_type, nchar_type, ok, as_int, as_nchar,
  append_runes,
}
use taosadapter.Block.Serialize.Columns.{
  fixed_rows, fixed_column, var_rows, var_column, serialize_column, serialize_columns, block_header,
  assemble, serialize_raw_block,
}
use taosadapter.Block.Parse.{
  Value, null, time, int32, runes, raw_block_get_length, raw_block_get_num_of_rows,
  raw_block_get_num_of_cols, raw_convert, raw_convert_var_data, raw_convert_nchar, read_runes,
  item_raw_block, sign_extend, raw_block_get_column_length_offset, raw_block_get_col_data_offset,
  time_by_precision,
}
use taosadapter.Block.Parse.Blocks.{
  put_column, put_columns, read_block_with_time_format, read_block, read_block_simple, read_row,
  read_columns, read_rows, data_start, has_convert,
}
use taosadapter.Block.RoundTrip.Values.{code_of, value_of}
use taosadapter.Block.RoundTrip.Blocks.{IsTable}
use taosadapter.Block.RoundTrip.Table.{
  time_at, read_block_with_time_format-serialize_raw_block, serialize_raw_block_header,
  read_block_simple-serialize_raw_block,
}
use taosadapter.Block.Rows.{read_row-read_block}

-- An int column and a column of strings, with a nil in each.
abbrev types : List TaosType
types = int_type ∷ nchar_type ∷ []

abbrev ints : List (Option TaosValue)
ints = some (taos_int 258) ∷ none ∷ []

abbrev strings : List (Option TaosValue)
strings = none ∷ some (taos_nchar (20013 ∷ [])) ∷ []

abbrev block : List ℕ
block =
    1 ∷ 0 ∷ 0 ∷ 0 ∷ 69 ∷ 0 ∷ 0 ∷ 0 ∷ 2 ∷ 0 ∷ 0 ∷ 0 ∷ 2 ∷ 0 ∷ 0 ∷ 0 ∷ 0 ∷ 0 ∷ 0 ∷ 0 ∷ 0 ∷ 0 ∷ 0 ∷ 0
    ∷ 0 ∷ 0 ∷ 0 ∷ 0 ∷ 4 ∷ 4 ∷ 0 ∷ 0 ∷ 0 ∷ 10 ∷ 0 ∷ 0 ∷ 0 ∷ 0 ∷ 8 ∷ 0 ∷ 0 ∷ 0 ∷ 6 ∷ 0 ∷ 0 ∷ 0 ∷ 64
    ∷ 2 ∷ 1 ∷ 0 ∷ 0 ∷ 0 ∷ 0 ∷ 0 ∷ 0 ∷ 255 ∷ 255 ∷ 255 ∷ 255 ∷ 0 ∷ 0 ∷ 0 ∷ 0 ∷ 4 ∷ 0 ∷ 45 ∷ 78 ∷ 0
    ∷ 0 ∷ []

-- A format function that never fails.
abbrev to_time : ℕ → Option Value
to_time ts = some (time ts)

is_table : IsTable 2 types (ints ∷ strings ∷ [])
is_table = (tt, refl, (omega arith, tt), (tt, refl, ((omega arith, (omega arith, tt)), tt), tt))

block_lem : serialize_raw_block (ints ∷ strings ∷ []) (ok types) ≡ ok block
unfolding serialize_raw_block serialize_columns serialize_column fixed_column fixed_rows var_column
    var_rows as_int as_nchar append_runes bitmap_len bm_set_null block_header assemble
block_lem = refl

abbrev table : List (List Value)
table = (int32 258 ∷ null ∷ []) ∷ (null ∷ runes (20013 ∷ []) ∷ []) ∷ []

read_block_with_time_format-serialize_raw_block_example :
    read_block_with_time_format block 2 (map code_of types) to_time
    ≡ some (put_columns (replicate 2 []) (map (map (value_of time)) (ints ∷ strings ∷ [])))
read_block_with_time_format-serialize_raw_block_example =
    read_block_with_time_format-serialize_raw_block to_time time (λ ts. refl) types ints
      (strings ∷ []) block is_table block_lem (omega arith)

serialize_raw_block_header_example :
    (raw_block_get_length block ≡ some 69)
    × (raw_block_get_num_of_rows block ≡ some 2)
    × (raw_block_get_num_of_cols block ≡ some 2)
serialize_raw_block_header_example =
    serialize_raw_block_header types ints (strings ∷ []) block block_lem (omega arith) (omega arith)
      (omega arith)

read_block_simple-serialize_raw_block_example :
    read_block_simple block 0
    ≡ some (put_columns (replicate 2 []) (map (map (value_of (time_at 0))) (ints ∷ strings ∷ [])))
read_block_simple-serialize_raw_block_example =
    read_block_simple-serialize_raw_block types ints (strings ∷ []) block 0 is_table block_lem
      (omega arith) (omega arith) (omega arith)

-- The columns of the example, row by row.
rows_lem : put_columns (replicate 2 []) (map (map (value_of time)) (ints ∷ strings ∷ [])) ≡ table
unfolding put_columns put_column
rows_lem = refl

read_block_lem : read_block block 2 (4 ∷ 10 ∷ []) 0 ≡ some table
unfolding read_block read_block_with_time_format read_columns read_rows put_columns put_column
    data_start has_convert item_raw_block raw_convert raw_convert_var_data raw_convert_nchar
    read_runes item_is_null null_bit bm_is_null bitmap_len add_pointer sign_extend
    raw_block_get_column_length_offset raw_block_get_col_data_offset time_by_precision
    timestamp_convert_to_time
read_block_lem = refl

read_row-read_block_example : read_row block 2 1 (4 ∷ 10 ∷ []) 0 ≡ get_elem? table 1
read_row-read_block_example =
    read_row-read_block block 2 1 (4 ∷ 10 ∷ []) 0 table read_block_lem (omega arith)

clear : bm_is_null 64 0 ≡ false
unfolding bm_is_null
clear = refl
