-- ===== src/Block/Serialize/Columns.antt =====
-- The loops of `SerializeRawBlock` (driver/common/serializer/block.go) over rows and columns.
use taosadapter.Common.{
  ℕ, zero, suc, ◌+◌, ◌*◌, List, [], ◌∷◌, ◌++◌, Option, none, some, ◌==◌, if◌then◌else◌, length, set,
  get_or, replicate,
}
use taosadapter.Common.Bytes.{le_bytes, write_le}
use taosadapter.Block.{
  type_length, tsdb_bool, tsdb_tinyint, tsdb_smallint, tsdb_int, tsdb_bigint, tsdb_float,
  tsdb_double, tsdb_binary, tsdb_timestamp, tsdb_nchar, tsdb_utinyint, tsdb_usmallint, tsdb_uint,
  tsdb_ubigint, tsdb_json, tsdb_varbinary, tsdb_geometry,
}
use taosadapter.Block.Bitmap.{bitmap_len, char_offset, bm_set_null}
use taosadapter.Block.Serialize.{
  TaosValue, TaosType, bool_type, tinyint_type, smallint_type, int_type, bigint_type, utinyint_type,
  usmallint_type, uint_type, ubigint_type, float_type, double_type, binary_type, varbinary_type,
  geometry_type, nchar_type, timestamp_type, json_type, unknown_type, column_number_not_match,
  Result, ok, err, panic, ◌>>=◌, as_bool, as_tinyint, as_smallint, as_int, as_bigint, as_utinyint,
  as_usmallint, as_uint, as_ubigint, as_float, as_double, as_timestamp, as_binary, as_varbinary,
  as_geometry, as_json, as_nchar,
}

-- The loop over the rows of a column of fixed length: `width` bytes a row behind the bitmap.
-- Where the code writes a bool it sets the byte only for true; the byte is 0 before.
-- The first number counts the rows that are left, and a row without a value is an index error.
unfoldable pub fixed_rows :
    ℕ → (TaosValue → Result ℕ) → ℕ → ℕ → ℕ → List (Option TaosValue) → List ℕ → Result (List ℕ)
fixed_rows width take bitmap row zero vs b = ok b
fixed_rows width take bitmap row (suc n) [] b = panic
fixed_rows width take bitmap row (suc n) (none ∷ vs) b =
    let at = char_offset row in
    fixed_rows width take bitmap (suc row) n vs (set b at (bm_set_null (get_or b at 0) row))
fixed_rows width take bitmap row (suc n) (some v ∷ vs) b = take v >>= λ x.
    fixed_rows width take bitmap (suc row) n vs (write_le width b (row * width + bitmap) x)

-- What a column adds to the block: to `colInfoData`, to `lengthData` and to `data`.
pub record Column : Type 0 where
  pub info : List ℕ
  pub lengths : List ℕ
  pub body : List ℕ

unfoldable pub fixed_column :
    ℕ → (TaosValue → Result ℕ) → ℕ → List (Option TaosValue) → Result Column
fixed_column code take rows vs =
    let width = type_length code in
    fixed_rows width take (bitmap_len rows) 0 rows vs (replicate (bitmap_len rows + rows * width) 0)
    >>= λ b.
        ok
          (record { info = code ∷ le_bytes 4 width; lengths = le_bytes 4 (width * rows); body = b })

-- The loop over the rows of a column of variable length: an offset of four bytes for each row, -1
-- for nil, and behind them the values, each with its length in two bytes.
unfoldable pub var_rows :
    (TaosValue → Result (List ℕ))
    → ℕ
    → ℕ
    → List (Option TaosValue)
    → ℕ
    → List ℕ
    → Result (ℕ × List ℕ)
var_rows take row zero vs len b = ok (len, b)
var_rows take row (suc n) [] len b = panic
var_rows take row (suc n) (none ∷ vs) len b =
    var_rows take (suc row) n vs len (write_le 4 b (4 * row) 0xffff_ffff)
var_rows take row (suc n) (some v ∷ vs) len b = take v >>= λ p.
    var_rows take (suc row) n vs (len + (length p + 2))
      (write_le 4 b (4 * row) len ++ (le_bytes 2 (length p) ++ p))

unfoldable pub var_column :
    ℕ → (TaosValue → Result (List ℕ)) → ℕ → List (Option TaosValue) → Result Column
var_column code take rows vs = var_rows take 0 rows vs 0 (replicate (4 * rows) 0) >>= λ (len, b).
    ok (record { info = code ∷ le_bytes 4 0; lengths = le_bytes 4 len; body = b })

-- One case of the switch over the type of a column each.
abbrev bool_column : ℕ → List (Option TaosValue) → Result Column
bool_column = fixed_column tsdb_bool as_bool

abbrev tinyint_column : ℕ → List (Option TaosValue) → Result Column
tinyint_column = fixed_column tsdb_tinyint as_tinyint

abbrev smallint_column : ℕ → List (Option TaosValue) → Result Column
smallint_column = fixed_column tsdb_smallint as_smallint

abbrev int_column : ℕ → List (Option TaosValue) → Result Column
int_column = fixed_column tsdb_int as_int

abbrev bigint_column : ℕ → List (Option TaosValue) → Result Column
bigint_column = fixed_column tsdb_bigint as_bigint

abbrev utinyint_column : ℕ → List (Option TaosValue) → Result Column
utinyint_column = fixed_column tsdb_utinyint as_utinyint

abbrev usmallint_column : ℕ → List (Option TaosValue) → Result Column
usmallint_column = fixed_column tsdb_usmallint as_usmallint

abbrev uint_column : ℕ → List (Option TaosValue) → Result Column
uint_column = fixed_column tsdb_uint as_uint

abbrev ubigint_column : ℕ → List (Option TaosValue) → Result Column
ubigint_column = fixed_column tsdb_ubigint as_ubigint

abbrev float_column : ℕ → List (Option TaosValue) → Result Column
float_column = fixed_column tsdb_float as_float

abbrev double_column : ℕ → List (Option TaosValue) → Result Column
double_column = fixed_column tsdb_double as_double

abbrev binary_column : ℕ → List (Option TaosValue) → Result Column
binary_column = var_column tsdb_binary as_binary

abbrev varbinary_column : ℕ → List (Option TaosValue) → Result Column
varbinary_column = var_column tsdb_varbinary as_varbinary

abbrev geometry_column : ℕ → List (Option TaosValue) → Result Column
geometry_column = var_column tsdb_geometry as_geometry

abbrev nchar_column : ℕ → List (Option TaosValue) → Result Column
nchar_column = var_column tsdb_nchar as_nchar

abbrev timestamp_column : ℕ → List (Option TaosValue) → Result Column
timestamp_column = fixed_column tsdb_timestamp as_timestamp

abbrev json_column : ℕ → List (Option TaosValue) → Result Column
json_column = var_column tsdb_json as_json

-- The switch over the type of a column. A type without a case adds nothing.
unfoldable pub serialize_column : TaosType → ℕ → List (Option TaosValue) → Result Column
serialize_column bool_type = bool_column
serialize_column tinyint_type = tinyint_column
serialize_column smallint_type = smallint_column
serialize_column int_type = int_column
serialize_column bigint_type = bigint_column
serialize_column utinyint_type = utinyint_column
serialize_column usmallint_type = usmallint_column
serialize_column uint_type = uint_column
serialize_column ubigint_type = ubigint_column
serialize_column float_type = float_column
serialize_column double_type = double_column
serialize_column binary_type = binary_column
serialize_column varbinary_type = varbinary_column
serialize_column geometry_type = geometry_column
serialize_column nchar_type = nchar_column
serialize_column timestamp_type = timestamp_column
serialize_column json_type = json_column
serialize_column unknown_type = λ rows vs. ok (record { info = []; lengths = []; body = [] })

unfoldable pub serialize_columns :
    ℕ → List TaosType → List (List (Option TaosValue)) → Result Column
serialize_columns rows (t ∷ ts) (vs ∷ params) = serialize_column t rows vs >>= λ c.
    serialize_columns rows ts params >>= λ rest. ok (record {
      info = c.info ++ rest.info;
      lengths = c.lengths ++ rest.lengths;
      body = c.body ++ rest.body;
    })
serialize_columns rows ts params = ok (record { info = []; lengths = []; body = [] })

-- The six fields of the header: version, length (filled in at the end), rows, columns, flag segment
-- and group id.
unfoldable pub block_header : ℕ → ℕ → List ℕ
block_header rows columns =
    le_bytes 4 1
    ++ (le_bytes 4 0 ++ (le_bytes 4 rows ++ (le_bytes 4 columns ++ (le_bytes 4 0 ++ le_bytes 8 0))))

unfoldable pub assemble : ℕ → ℕ → Column → List ℕ
assemble rows columns c =
    let block = block_header rows columns ++ (c.info ++ (c.lengths ++ c.body)) in
    write_le 4 block 4 (length block)

-- `params[0]` of an empty list is an index error; `colType.GetValue()` is the second argument.
unfoldable pub serialize_raw_block :
    List (List (Option TaosValue)) → Result (List TaosType) → Result (List ℕ)
serialize_raw_block [] types = panic
serialize_raw_block (vs ∷ params) types = types >>= λ ts.
    if length ts == length (vs ∷ params)
    then (serialize_columns (length vs) ts (vs ∷ params) >>= λ c.
        ok (assemble (length vs) (length (vs ∷ params)) c))
    else err column_number_not_match
