-- ===== src/Json/Block.antt =====
-- tools/ctools/block.go: a cell of a raw block as JSON. The block is the memory behind the pointers,
-- as in Block/Parse: pointers are offsets from it, and `none` is a read outside it.
pub mod Cells
pub mod Values
use taosadapter.Common.{
  ℕ, zero, suc, ◌+◌, ◌*◌, ◌/◌, ◌%◌, ◌^◌, Bool, not, List, [], ◌∷◌, ◌++◌, Option, none, some, ◌==◌,
  ltb, if◌then◌else◌,
}
use taosadapter.Common.Bytes.{read_le, read_bytes}
use taosadapter.Block.{
  tsdb_bool, tsdb_tinyint, tsdb_smallint, tsdb_int, tsdb_bigint, tsdb_float, tsdb_double,
  tsdb_binary, tsdb_timestamp, tsdb_nchar, tsdb_utinyint, tsdb_usmallint, tsdb_uint, tsdb_ubigint,
  tsdb_json, tsdb_varbinary, is_var_data_type, add_pointer,
}
use taosadapter.Block.Bitmap.{item_is_null}
use taosadapter.Block.Parse.{◌>>=◌, sign_extend, read_runes}
use taosadapter.Json.Int.{
  write_uint8, write_int8, write_uint16, write_int16, write_uint32, write_int32, write_uint64,
  write_int64,
}
use taosadapter.Json.Str.{hex, write_string, write_string_byte}
use taosadapter.Json.Rune.{write_rune_string}
use taosadapter.Json.Stream.{
  Stream, on_buf, add_byte, write_raw, write_nil, write_true, write_false, AppendFloat,
  write_float32, write_float64,
}

-- What the code calls: `strconv.AppendFloat` for both widths, and the text of a timestamp of a
-- precision (`time.Unix(…).In(location).AppendFormat(…)`).
pub record Texts : Type 0 where
  pub float32_text : AppendFloat
  pub float64_text : AppendFloat
  pub time_text : ℕ → ℕ → List ℕ

-- A bool is a byte.
pub write_raw_json_bool : ℕ → Stream → Stream
write_raw_json_bool v st = if not (v == 0) then write_true st else write_false st

-- `WriteRawJsonTime`: an unknown precision is logged, and the text is empty.
pub write_raw_json_time : Texts → ℕ → ℕ → Stream → Stream
write_raw_json_time texts precision ts =
    on_buf (write_string (if ltb precision 3 then texts.time_text precision ts else []))

-- `WriteStringByte`, `WriteRuneString` and `AddByte` in the loops over a cell.
pub string_bytes : List ℕ → Stream → Stream
string_bytes [] st = st
string_bytes (c ∷ s) st = string_bytes s (on_buf (write_string_byte c) st)

pub string_runes : List ℕ → Stream → Stream
string_runes [] st = st
string_runes (r ∷ rs) st = string_runes rs (on_buf (write_rune_string r) st)

pub plain_bytes : List ℕ → Stream → Stream
unfolding add_byte
plain_bytes [] st = st
plain_bytes (c ∷ s) st = plain_bytes s (add_byte c st)

-- `strconv.FormatInt(int64(b), 16)` of a byte.
abbrev pub format_hex : ℕ → List ℕ
format_hex b = if ltb b 16 then hex b ∷ [] else hex (b / 16) ∷ hex (b % 16) ∷ []

pub hex_bytes : List ℕ → Stream → Stream
unfolding add_byte write_raw
hex_bytes [] st = st
hex_bytes (b ∷ s) st =
    let padded = if ltb b 16 then add_byte 48 st else st in
    hex_bytes s (write_raw (format_hex b) padded)

pub quoted : (Stream → Stream) → Stream → Stream
unfolding add_byte
quoted inside st = add_byte 34 (inside (add_byte 34 st))

-- The shared head of the writers of variable length: the offset of the row, where -1 is null, and
-- the length in bytes. The last argument is the rest of the writer, at the first byte of the cell.
pub var_cell : List ℕ → ℕ → ℕ → ℕ → (ℕ → ℕ → Stream → Option Stream) → Stream → Option Stream
unfolding write_nil
var_cell b header start row cell st = do
  offset ← read_le 4 b (add_pointer header (row * 4))
  let current = add_pointer start (sign_extend offset)
  if offset == 0xffff_ffff
      then some (write_nil st)
      else (read_le 2 b current >>= λ clen. cell clen (add_pointer current 2) st)

pub write_raw_json_binary : List ℕ → ℕ → ℕ → ℕ → Stream → Option Stream
unfolding var_cell quoted string_bytes
write_raw_json_binary b header start row =
    var_cell b header start row
      λ clen at st. read_bytes clen b at >>= λ p. some (quoted (string_bytes p) st)

pub write_raw_json_var_binary : List ℕ → ℕ → ℕ → ℕ → Stream → Option Stream
unfolding var_cell quoted hex_bytes
write_raw_json_var_binary b header start row =
    var_cell b header start row
      λ clen at st. read_bytes clen b at >>= λ p. some (quoted (hex_bytes p) st)

pub write_raw_json_geometry : List ℕ → ℕ → ℕ → ℕ → Stream → Option Stream
unfolding write_raw_json_var_binary
write_raw_json_geometry = write_raw_json_var_binary

pub write_raw_json_nchar : List ℕ → ℕ → ℕ → ℕ → Stream → Option Stream
unfolding var_cell quoted string_runes
write_raw_json_nchar b header start row =
    var_cell b header start row
      λ clen at st. read_runes (clen / 4) b at >>= λ rs. some (quoted (string_runes rs) st)

pub write_raw_json_json : List ℕ → ℕ → ℕ → ℕ → Stream → Option Stream
unfolding var_cell plain_bytes
write_raw_json_json b header start row =
    var_cell b header start row λ clen at st. read_bytes clen b at >>= λ p. some (plain_bytes p st)

-- The types of variable length, of which `IsVarDataType` knows no other.
pub json_var : List ℕ → ℕ → ℕ → ℕ → ℕ → Stream → Option Stream
json_var b t header start row st =
    if t == tsdb_binary
    then write_raw_json_binary b header start row st
    else if t == tsdb_nchar
    then write_raw_json_nchar b header start row st
    else if t == tsdb_json
    then write_raw_json_json b header start row st
    else if t == tsdb_varbinary
    then write_raw_json_var_binary b header start row st
    else write_raw_json_geometry b header start row st

-- The switch over the types of fixed length: `put` reads the bits of the row and writes them. An
-- unknown type writes nothing.
pub json_fixed : Texts → List ℕ → ℕ → ℕ → ℕ → ℕ → Stream → Option Stream
unfolding write_raw_json_bool write_raw_json_time write_float32 write_float64
json_fixed texts b t start row precision st =
    let put = λ (width : ℕ) (write : ℕ → Stream → Stream).
      read_le width b (add_pointer start (row * width)) >>= λ v. some (write v st) in
    if t == tsdb_bool
    then put 1 write_raw_json_bool
    else if t == tsdb_tinyint
    then put 1 (λ v. on_buf (write_int8 v))
    else if t == tsdb_smallint
    then put 2 (λ v. on_buf (write_int16 v))
    else if t == tsdb_int
    then put 4 (λ v. on_buf (write_int32 v))
    else if t == tsdb_bigint
    then put 8 (λ v. on_buf (write_int64 v))
    else if t == tsdb_utinyint
    then put 1 (λ v. on_buf (write_uint8 v))
    else if t == tsdb_usmallint
    then put 2 (λ v. on_buf (write_uint16 v))
    else if t == tsdb_uint
    then put 4 (λ v. on_buf (write_uint32 v))
    else if t == tsdb_ubigint
    then put 8 (λ v. on_buf (write_uint64 v))
    else if t == tsdb_float
    then put 4 (write_float32 texts.float32_text)
    else if t == tsdb_double
    then put 8 (write_float64 texts.float64_text)
    else if t == tsdb_timestamp
    then put 8 (write_raw_json_time texts precision)
    else some st

pub json_write_raw_block : Texts → List ℕ → ℕ → ℕ → ℕ → ℕ → ℕ → Stream → Option Stream
unfolding json_var json_fixed write_nil
json_write_raw_block texts b t header start row precision st =
    if is_var_data_type t
    then json_var b t header start row st
    else (item_is_null b header row >>= λ is_null.
        if is_null then some (write_nil st) else json_fixed texts b t start row precision st)
