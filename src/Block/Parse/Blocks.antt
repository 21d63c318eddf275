-- ===== src/Block/Parse/Blocks.antt =====
-- `ReadBlock`, `ReadRow` and their siblings (driver/common/parser/block.go): the loops over columns.
use taosadapter.Common.{
  ℕ, zero, suc, ◌*◌, ◌^◌, List, [], ◌∷◌, ◌++◌, Option, none, some, ltb, if◌then◌else◌, length, map,
  replicate,
}
use taosadapter.Common.Bytes.{read_le}
use taosadapter.Block.{is_var_data_type, add_pointer}
use taosadapter.Block.Bitmap.{bitmap_len}
use taosadapter.Block.Parse.{
  Value, ◌>>=◌, sign_extend, raw_block_get_num_of_rows, raw_block_get_num_of_cols,
  raw_block_get_col_info, raw_block_get_column_length_offset, raw_block_get_col_data_offset,
  item_raw_block, time_by_precision,
}

-- `pStart` of a column, behind the offsets or behind the bitmap.
unfoldable pub data_start : ℕ → ℕ → ℕ → ℕ
data_start t header rows =
    if is_var_data_type t
    then add_pointer header (4 * rows)
    else add_pointer header (bitmap_len rows)

-- The values of `n` rows of a column from row `row` on.
unfoldable pub read_rows : List ℕ → ℕ → ℕ → ℕ → (ℕ → Option Value) → ℕ → ℕ → Option (List Value)
read_rows b t header start to_time row zero = some []
read_rows b t header start to_time row (suc n) = do
  v ← item_raw_block b t header start row to_time
  rest ← read_rows b t header start to_time (suc row) n
  some (v ∷ rest)

-- `rawConvertFuncSlice[colTypes[column]]` is an index error from 15 on, whatever the rows hold.
unfoldable pub has_convert : ℕ → Option (Unit {0})
has_convert t = if is_var_data_type t then some tt else if ltb t 15 then some tt else none

-- The loop over the columns from column `col` on, whose header is at `header`.
unfoldable pub read_columns :
    List ℕ → ℕ → ℕ → (ℕ → Option Value) → ℕ → ℕ → List ℕ → Option (List (List Value))
read_columns b rows lengths to_time col header [] = some []
read_columns b rows lengths to_time col header (t ∷ ts) = do
  len ← read_le 4 b (add_pointer lengths (col * 4))
  _ ← has_convert t
  let start = data_start t header rows
  vs ← read_rows b t header start to_time 0 rows
  rest ← read_columns b rows lengths to_time (suc col) (add_pointer start (sign_extend len)) ts
  some (vs ∷ rest)

-- `r[row][column] = …` for every row: a column goes behind the columns before it.
unfoldable pub put_column : List (List Value) → List Value → List (List Value)
put_column (r ∷ rs) (v ∷ vs) = (r ++ (v ∷ [])) ∷ put_column rs vs
put_column rs vs = rs

unfoldable pub put_columns : List (List Value) → List (List Value) → List (List Value)
unfolding put_column
put_columns rows [] = rows
put_columns rows (c ∷ cs) = put_columns (put_column rows c) cs

-- `ReadBlockWithTimeFormat`; `ReadBlock` is the same loop with the precision.
unfoldable pub read_block_with_time_format :
    List ℕ → ℕ → List ℕ → (ℕ → Option Value) → Option (List (List Value))
read_block_with_time_format b rows types to_time = do
  let cols = length types
  columns ←
      read_columns b rows (raw_block_get_column_length_offset cols) to_time 0
        (raw_block_get_col_data_offset cols) types
  some (put_columns (replicate rows []) columns)

unfoldable pub read_block : List ℕ → ℕ → List ℕ → ℕ → Option (List (List Value))
read_block b rows types precision =
    read_block_with_time_format b rows types (time_by_precision precision)

-- `make` with a negative length, an int32 from 2 ^ 31 on, is a panic.
abbrev pub not_negative : ℕ → Option (Unit {0})
not_negative n = if ltb n (2 ^ 31) then some tt else none

-- `ReadBlockSimple`: rows, columns and types from the block itself.
unfoldable pub read_block_simple : List ℕ → ℕ → Option (List (List Value))
read_block_simple b precision = do
  rows ← raw_block_get_num_of_rows b
  cols ← raw_block_get_num_of_cols b
  _ ← not_negative cols
  _ ← not_negative rows
  infos ← raw_block_get_col_info b 0 cols
  read_block b rows (map (λ i. i.0) infos) precision

-- `ReadRow`: one row, with the same walk over the columns.
unfoldable pub read_row_columns :
    List ℕ → ℕ → ℕ → (ℕ → Option Value) → ℕ → ℕ → ℕ → List ℕ → Option (List Value)
read_row_columns b rows lengths to_time row col header [] = some []
read_row_columns b rows lengths to_time row col header (t ∷ ts) = do
  len ← read_le 4 b (add_pointer lengths (col * 4))
  _ ← has_convert t
  let start = data_start t header rows
  v ← item_raw_block b t header start row to_time
  rest ←
      read_row_columns b rows lengths to_time row (suc col) (add_pointer start (sign_extend len)) ts
  some (v ∷ rest)

unfoldable pub read_row : List ℕ → ℕ → ℕ → List ℕ → ℕ → Option (List Value)
read_row b rows row types precision =
    let cols = length types in
    read_row_columns b rows (raw_block_get_column_length_offset cols) (time_by_precision precision)
      row 0 (raw_block_get_col_data_offset cols) types
