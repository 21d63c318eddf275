-- ===== src/Json/Block/Values.antt =====
-- tools/ctools/block.go writes the JSON of what driver/common/parser/block.go reads.
use taosadapter.Common.{
  ℕ, ◌*◌, ◌/◌, ◌≡◌, refl, sym, ap, Bool, true, false, not, ◌&&◌, ◌||◌, List, Option, none, some,
  arith, ◌==◌, leb, if◌then◌else◌, Option-cases, Bool-cases, inl, inr,
}
use taosadapter.Common.Bytes.{read_le, read_bytes}
use taosadapter.Block.{
  tsdb_bool, tsdb_tinyint, tsdb_smallint, tsdb_int, tsdb_bigint, tsdb_float, tsdb_double,
  tsdb_timestamp, tsdb_utinyint, tsdb_usmallint, tsdb_uint, tsdb_ubigint, tsdb_json,
  is_var_data_type, add_pointer,
}
use taosadapter.Block.Bitmap.{item_is_null}
use taosadapter.Block.Parse.{
  Value, null, bool, int8, int16, int32, int64, uint8, uint16, uint32, uint64, float32, float64,
  time, bytes, text, runes, ◌>>=◌, sign_extend, read_runes, raw_convert, raw_get_bytes,
  raw_convert_nchar, or_null, raw_convert_var_data, item_raw_block,
}
use taosadapter.Json.Int.{
  write_uint8, write_int8, write_uint16, write_int16, write_uint32, write_int32, write_uint64,
  write_int64,
}
use taosadapter.Json.Str.Escape.{escape_all}
use taosadapter.Json.Stream.{Stream, on_buf, write_nil, write_float32, write_float64}
use taosadapter.Json.Block.{
  Texts, write_raw_json_bool, write_raw_json_time, string_bytes, string_runes, plain_bytes,
  hex_bytes, quoted, var_cell, write_raw_json_binary, write_raw_json_var_binary,
  write_raw_json_geometry, write_raw_json_nchar, write_raw_json_json, json_var, json_fixed,
  json_write_raw_block,
}
use taosadapter.Json.Block.Cells.{
  utf8_all, hex_all, cell_json, string_bytes_lem, string_runes_lem, plain_bytes_lem, hex_bytes_lem,
  quoted_lem,
}

-- The types that have a reader.
abbrev pub is_known : ℕ → Bool
is_known t = leb 1 t && leb t 16 || t == 20

-- One writer of each kind against the reader of its values; `out` is the JSON of a value.
module _ (b : List ℕ) (header start row : ℕ) (out : Value → Stream → Stream) (st : Stream)
    (null_out : out null st ≡ write_nil st) where
  abbrev emits : Value → Option Stream
  emits v = some (out v st)

  writer_bytes :
      (con : List ℕ → Value) (write : List ℕ → Stream → Stream)
      → ((p : List ℕ) → write p st ≡ out (con p) st)
      → var_cell b header start row
          (λ clen at st'. read_bytes clen b at >>= λ p. some (write p st'))
          st
        ≡ (raw_get_bytes b header start row >>= λ p. some (or_null con p)) >>= emits
  unfolding var_cell raw_get_bytes
  writer_bytes con write h = elim (Option-cases (read_le 4 b (add_pointer header (row * 4)))) [
    | inl e ↦ rw e refl
    | inr (offset, e) ↦ rw e (elim (Bool-cases (offset == 0xffff_ffff)) [
      | inl f ↦ rw f (ap some (sym null_out))
      | inr f ↦ rw f (elim (Option-cases (read_le 2 b (add_pointer start (sign_extend offset)))) [
        | inl g ↦ rw g refl
        | inr (clen, g) ↦
            rw g
              (elim (Option-cases
                (read_bytes clen b (add_pointer (add_pointer start (sign_extend offset)) 2))) [
                  | inl k ↦ rw k refl
                  | inr (p, k) ↦ rw k (ap some (h p))
                ])
      ])
    ])
  ]

  writer_runes :
      (write : List ℕ → Stream → Stream)
      → ((rs : List ℕ) → write rs st ≡ out (runes rs) st)
      → var_cell b header start row
          (λ clen at st'. read_runes (clen / 4) b at >>= λ rs. some (write rs st'))
          st
        ≡ raw_convert_nchar b header start row >>= emits
  unfolding var_cell raw_convert_nchar
  writer_runes write h = elim (Option-cases (read_le 4 b (add_pointer header (row * 4)))) [
    | inl e ↦ rw e refl
    | inr (offset, e) ↦ rw e (elim (Bool-cases (offset == 0xffff_ffff)) [
      | inl f ↦ rw f (ap some (sym null_out))
      | inr f ↦ rw f (elim (Option-cases (read_le 2 b (add_pointer start (sign_extend offset)))) [
        | inl g ↦ rw g refl
        | inr (clen, g) ↦
            rw g
              (elim (Option-cases (
                read_runes (clen / 4) b (add_pointer (add_pointer start (sign_extend offset)) 2))) [
                  | inl k ↦ rw k refl
                  | inr (rs, k) ↦ rw k (ap some (h rs))
                ])
      ])
    ])
  ]

-- A test that both sides make.
if_binds :
    (t : Bool) (x y : Option Stream) (x' y' : Option Value) (g : Value → Option Stream)
    → x ≡ x' >>= g
    → (t ≡ false → y ≡ y' >>= g)
    → (if t then x else y) ≡ (if t then x' else y') >>= g
if_binds true x y x' y' g h k = h
if_binds false x y x' y' g h k = k refl

-- A number that is read, and written at once or made a value first.
put_binds :
    (o : Option ℕ) (write : ℕ → Stream → Stream) (con : ℕ → Value) (out : Value → Stream → Stream)
    (st : Stream)
    → ((v : ℕ) → write v st ≡ out (con v) st)
    → (o >>= λ v. some (write v st)) ≡ (o >>= λ v. some (con v)) >>= λ v. some (out v st)
put_binds none write con out st h = refl
put_binds (some v) write con out st h = ap some (h v)

bool_json :
    (texts : Texts) (precision t v : ℕ) (st : Stream)
    → write_raw_json_bool v st ≡ cell_json texts precision t (bool (not (v == 0))) st
unfolding write_raw_json_bool
bool_json texts precision t v st = elim (Bool-cases (v == 0)) [
  | inl e ↦ rw e refl
  | inr e ↦ rw e refl
]

module _ (texts : Texts) (b : List ℕ) (t header start row precision : ℕ) (st : Stream) where
  abbrev json_of : Value → Option Stream
  json_of v = some (cell_json texts precision t v st)

  -- `x` writes the JSON of what `y` gives.
  Emits : Option Stream → Option Value → Type 0
  Emits x y = x ≡ y >>= json_of

  -- A branch of both switches.
  one :
      (code width : ℕ) (write : ℕ → Stream → Stream) (con : ℕ → Value)
      → ((v : ℕ) → write v st ≡ cell_json texts precision t (con v) st)
      → (y : Option Stream) (y' : Option Value) → ((t == code) ≡ false → Emits y y')
      → Emits
          (if t == code
            then (read_le width b (add_pointer start (row * width)) >>= λ v. some (write v st))
            else y)
          (if t == code
            then (read_le width b (add_pointer start (row * width)) >>= λ v. some (con v))
            else y')
  unfolding Emits
  one code width write con h y y' k =
      if_binds (t == code) _ y _ y' json_of
        (put_binds _ write con (cell_json texts precision t) st h) k

  fixed_json :
      is_known t ≡ true
      → is_var_data_type t ≡ false
      → Emits
          (json_fixed texts b t start row precision st)
          (raw_convert b t start row (λ ts. some (time ts)))
  unfolding json_fixed raw_convert write_raw_json_time
  fixed_json known fixed =
      one tsdb_bool 1 write_raw_json_bool (λ v. bool (not (v == 0)))
        (λ v. bool_json texts precision t v st) _ _
        λ e0.
          one tsdb_tinyint 1 (λ v. on_buf (write_int8 v)) int8 (λ v. refl) _ _
            λ e1.
              one tsdb_smallint 2 (λ v. on_buf (write_int16 v)) int16 (λ v. refl) _ _
                λ e2.
                  one tsdb_int 4 (λ v. on_buf (write_int32 v)) int32 (λ v. refl) _ _
                    λ e3.
                      one tsdb_bigint 8 (λ v. on_buf (write_int64 v)) int64 (λ v. refl) _ _
                        λ e4.
                          one tsdb_utinyint 1 (λ v. on_buf (write_uint8 v)) uint8 (λ v. refl) _ _
                            λ e5.
                              one tsdb_usmallint 2 (λ v. on_buf (write_uint16 v)) uint16 (λ v. refl)
                                _ _
                                λ e6.
                                  one tsdb_uint 4 (λ v. on_buf (write_uint32 v)) uint32 (λ v. refl)
                                    _ _
                                    λ e7.
                                      one tsdb_ubigint 8 (λ v. on_buf (write_uint64 v)) uint64
                                        (λ v. refl) _ _
                                        λ e8.
                                          one tsdb_float 4 (write_float32 texts.float32_text)
                                            float32 (λ v. refl) _ _
                                            λ e9.
                                              one tsdb_double 8 (write_float64 texts.float64_text)
                                                float64 (λ v. refl) _ _
                                                λ e10.
                                                  one tsdb_timestamp 8
                                                    (write_raw_json_time texts precision) time
                                                    (λ v. refl) _ _ λ e11. ground arith

  binary_json :
      write_raw_json_binary b header start row st
      ≡ (raw_get_bytes b header start row >>= λ p. some (or_null text p)) >>= json_of
  unfolding write_raw_json_binary
  binary_json =
      writer_bytes b header start row (cell_json texts precision t) st refl text
        (λ p. quoted (string_bytes p))
        λ p. quoted_lem (string_bytes p) (escape_all p) st (string_bytes_lem p)

  hex_json :
      (t == tsdb_json) ≡ false
      → write_raw_json_var_binary b header start row st
        ≡ (raw_get_bytes b header start row >>= λ p. some (or_null bytes p)) >>= json_of
  unfolding write_raw_json_var_binary
  hex_json e =
      writer_bytes b header start row (cell_json texts precision t) st refl bytes
        (λ p. quoted (hex_bytes p))
        λ p. rw e (quoted_lem (hex_bytes p) (hex_all p) st (hex_bytes_lem p))

  plain_json :
      (t == tsdb_json) ≡ true
      → write_raw_json_json b header start row st
        ≡ (raw_get_bytes b header start row >>= λ p. some (or_null bytes p)) >>= json_of
  unfolding write_raw_json_json
  plain_json e =
      writer_bytes b header start row (cell_json texts precision t) st refl bytes plain_bytes
        λ p. rw e (plain_bytes_lem p st)

  nchar_json :
      write_raw_json_nchar b header start row st ≡ raw_convert_nchar b header start row >>= json_of
  unfolding write_raw_json_nchar
  nchar_json =
      writer_runes b header start row (cell_json texts precision t) st refl
        (λ rs. quoted (string_runes rs))
        λ rs. quoted_lem (string_runes rs) (escape_all (utf8_all rs)) st (string_runes_lem rs)

  var_json :
      json_var b t header start row st ≡ raw_convert_var_data b t header start row >>= json_of
  unfolding json_var raw_convert_var_data write_raw_json_geometry
  var_json = ground (arith, binary_json, hex_json, plain_json, nchar_json)

  -- For a column of a known type, `JsonWriteRawBlock` writes the JSON of the value that
  -- `ItemRawBlock` gives for the same cell when a timestamp is left as its number, and it reads
  -- outside the block when `ItemRawBlock` does: strings with their escapes, the runes of an nchar
  -- as UTF-8, a JSON cell as it is, and other bytes as two hexadecimal digits each.
  pub json_write_raw_block-item_raw_block :
      is_known t ≡ true
      → json_write_raw_block texts b t header start row precision st
        ≡ item_raw_block b t header start row (λ ts. some (time ts)) >>= json_of
  unfolding json_write_raw_block item_raw_block Emits
  json_write_raw_block-item_raw_block known = elim (Bool-cases (is_var_data_type t)) [
    | inl e ↦ rw e var_json
    | inr e ↦ rw e (elim (Option-cases (item_is_null b header row)) [
      | inl f ↦ rw f refl
      | inr (true, f) ↦ rw f refl
      | inr (false, f) ↦ rw f (fixed_json known e)
    ])
  ]
