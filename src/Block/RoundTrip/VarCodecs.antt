-- ===== src/Block/RoundTrip/VarCodecs.antt =====
-- The types of variable length, one codec each: what driver/common/serializer writes for a value is
-- what driver/common/parser turns back.
use taosadapter.Common.{
  ℕ, ◌*◌, ◌/◌, ◌^◌, ◌<◌, ◌≡◌, refl, ap, true, false, List, some, arith, length, ◌==◌,
}
use taosadapter.Common.Bytes.{read_le, read_bytes}
use taosadapter.Block.{
  add_pointer, is_var_data_type, tsdb_binary, tsdb_nchar, tsdb_json, tsdb_varbinary, tsdb_geometry,
}
use taosadapter.Block.Serialize.{
  TaosValue, taos_binary, taos_varbinary, taos_json, taos_geometry, taos_nchar, Result, ok,
  as_binary, as_varbinary, as_json, as_geometry, as_nchar, append_runes,
}
use taosadapter.Block.Parse.{
  Value, null, sign_extend, raw_get_bytes, raw_convert_nchar, raw_convert_var_data,
}
use taosadapter.Block.RoundTrip.Values.{value_of, IsSized}
use taosadapter.Block.RoundTrip.Runes.{read_runes-append_runes, length-append_runes}

module _ (show : ℕ → Value) where
  -- The bytes that `take` gives are what `value_of` stands for.
  pub record VarCodec (t : ℕ) (take : TaosValue → Result (List ℕ)) : Type 0 where
    pub is_var : is_var_data_type t ≡ true
    pub short : (v : TaosValue) (p : List ℕ) → IsSized v → take v ≡ ok p → length p < 2 ^ 16
    pub nulls :
        (b : List ℕ) (header start row : ℕ)
        → read_le 4 b (add_pointer header (row * 4)) ≡ some 0xffff_ffff
        → raw_convert_var_data b t header start row ≡ some null
    pub values :
        (b : List ℕ) (header start row o : ℕ) (v : TaosValue) (p : List ℕ)
        → o < 2 ^ 31
        → IsSized v
        → take v ≡ ok p
        → read_le 4 b (add_pointer header (row * 4)) ≡ some o
        → read_le 2 b (add_pointer start (sign_extend o)) ≡ some (length p)
        → read_bytes (length p) b (add_pointer (add_pointer start (sign_extend o)) 2) ≡ some p
        → raw_convert_var_data b t header start row ≡ some (value_of show (some v))

  -- The place of a value that is not nil is not -1.
  not_nil : (o : ℕ) → o < 2 ^ 31 → (o == 0xffff_ffff) ≡ false
  not_nil o h = ground arith

  binary_value :
      (b : List ℕ) (header start row o : ℕ) (v : TaosValue) (p : List ℕ)
      → o < 2 ^ 31
      → IsSized v
      → as_binary v ≡ ok p
      → read_le 4 b (add_pointer header (row * 4)) ≡ some o
      → read_le 2 b (add_pointer start (sign_extend o)) ≡ some (length p)
      → read_bytes (length p) b (add_pointer (add_pointer start (sign_extend o)) 2) ≡ some p
      → raw_convert_var_data b tsdb_binary header start row ≡ some (value_of show (some v))
  unfolding as_binary raw_convert_var_data raw_get_bytes
  binary_value b header start row o (taos_binary q) p low sized taken offset prefix found =
      let same : p ≡ q = cc in rw (offset, not_nil o low, prefix, found, same)
  binary_value b header start row o _ p low sized taken offset prefix found = cc

  binary_short : (v : TaosValue) (p : List ℕ) → IsSized v → as_binary v ≡ ok p → length p < 2 ^ 16
  unfolding as_binary
  binary_short (taos_binary q) p sized taken = let same : p ≡ q = cc in rw same sized
  binary_short _ p sized taken = cc

  pub binary_codec : VarCodec tsdb_binary as_binary
  unfolding raw_convert_var_data raw_get_bytes
  binary_codec = record {
    is_var = refl;
    short = binary_short;
    nulls = λ b header start row e. rw e;
    values = binary_value;
  }

  varbinary_value :
      (b : List ℕ) (header start row o : ℕ) (v : TaosValue) (p : List ℕ)
      → o < 2 ^ 31
      → IsSized v
      → as_varbinary v ≡ ok p
      → read_le 4 b (add_pointer header (row * 4)) ≡ some o
      → read_le 2 b (add_pointer start (sign_extend o)) ≡ some (length p)
      → read_bytes (length p) b (add_pointer (add_pointer start (sign_extend o)) 2) ≡ some p
      → raw_convert_var_data b tsdb_varbinary header start row ≡ some (value_of show (some v))
  unfolding as_varbinary raw_convert_var_data raw_get_bytes
  varbinary_value b header start row o (taos_varbinary q) p low sized taken offset prefix found =
      let same : p ≡ q = cc in rw (offset, not_nil o low, prefix, found, same)
  varbinary_value b header start row o _ p low sized taken offset prefix found = cc

  varbinary_short :
      (v : TaosValue) (p : List ℕ) → IsSized v → as_varbinary v ≡ ok p → length p < 2 ^ 16
  unfolding as_varbinary
  varbinary_short (taos_varbinary q) p sized taken = let same : p ≡ q = cc in rw same sized
  varbinary_short _ p sized taken = cc

  pub varbinary_codec : VarCodec tsdb_varbinary as_varbinary
  unfolding raw_convert_var_data raw_get_bytes
  varbinary_codec = record {
    is_var = refl;
    short = varbinary_short;
    nulls = λ b header start row e. rw e;
    values = varbinary_value;
  }

  json_value :
      (b : List ℕ) (header start row o : ℕ) (v : TaosValue) (p : List ℕ)
      → o < 2 ^ 31
      → IsSized v
      → as_json v ≡ ok p
      → read_le 4 b (add_pointer header (row * 4)) ≡ some o
      → read_le 2 b (add_pointer start (sign_extend o)) ≡ some (length p)
      → read_bytes (length p) b (add_pointer (add_pointer start (sign_extend o)) 2) ≡ some p
      → raw_convert_var_data b tsdb_json header start row ≡ some (value_of show (some v))
  unfolding as_json raw_convert_var_data raw_get_bytes
  json_value b header start row o (taos_json q) p low sized taken offset prefix found =
      let same : p ≡ q = cc in rw (offset, not_nil o low, prefix, found, same)
  json_value b header start row o _ p low sized taken offset prefix found = cc

  json_short : (v : TaosValue) (p : List ℕ) → IsSized v → as_json v ≡ ok p → length p < 2 ^ 16
  unfolding as_json
  json_short (taos_json q) p sized taken = let same : p ≡ q = cc in rw same sized
  json_short _ p sized taken = cc

  pub json_codec : VarCodec tsdb_json as_json
  unfolding raw_convert_var_data raw_get_bytes
  json_codec = record {
    is_var = refl;
    short = json_short;
    nulls = λ b header start row e. rw e;
    values = json_value;
  }

  geometry_value :
      (b : List ℕ) (header start row o : ℕ) (v : TaosValue) (p : List ℕ)
      → o < 2 ^ 31
      → IsSized v
      → as_geometry v ≡ ok p
      → read_le 4 b (add_pointer header (row * 4)) ≡ some o
      → read_le 2 b (add_pointer start (sign_extend o)) ≡ some (length p)
      → read_bytes (length p) b (add_pointer (add_pointer start (sign_extend o)) 2) ≡ some p
      → raw_convert_var_data b tsdb_geometry header start row ≡ some (value_of show (some v))
  unfolding as_geometry raw_convert_var_data raw_get_bytes
  geometry_value b header start row o (taos_geometry q) p low sized taken offset prefix found =
      let same : p ≡ q = cc in rw (offset, not_nil o low, prefix, found, same)
  geometry_value b header start row o _ p low sized taken offset prefix found = cc

  geometry_short :
      (v : TaosValue) (p : List ℕ) → IsSized v → as_geometry v ≡ ok p → length p < 2 ^ 16
  unfolding as_geometry
  geometry_short (taos_geometry q) p sized taken = let same : p ≡ q = cc in rw same sized
  geometry_short _ p sized taken = cc

  pub geometry_codec : VarCodec tsdb_geometry as_geometry
  unfolding raw_convert_var_data raw_get_bytes
  geometry_codec = record {
    is_var = refl;
    short = geometry_short;
    nulls = λ b header start row e. rw e;
    values = geometry_value;
  }

  nchar_value :
      (b : List ℕ) (header start row o : ℕ) (v : TaosValue) (p : List ℕ)
      → o < 2 ^ 31
      → IsSized v
      → as_nchar v ≡ ok p
      → read_le 4 b (add_pointer header (row * 4)) ≡ some o
      → read_le 2 b (add_pointer start (sign_extend o)) ≡ some (length p)
      → read_bytes (length p) b (add_pointer (add_pointer start (sign_extend o)) 2) ≡ some p
      → raw_convert_var_data b tsdb_nchar header start row ≡ some (value_of show (some v))
  unfolding as_nchar raw_convert_var_data raw_convert_nchar
  nchar_value b header start row o (taos_nchar rs) p low sized taken offset prefix found =
      let same : p ≡ append_runes rs = cc in
      let count : length p / 4 ≡ length rs =
        omega (arith, length-append_runes rs, ap length same) in
      let found' =
        read_runes-append_runes b rs (add_pointer (add_pointer start (sign_extend o)) 2) sized.1
          (rw (← same) found) in
      rw (offset, not_nil o low, prefix, count, found')
  nchar_value b header start row o _ p low sized taken offset prefix found = cc

  nchar_short : (v : TaosValue) (p : List ℕ) → IsSized v → as_nchar v ≡ ok p → length p < 2 ^ 16
  unfolding as_nchar
  nchar_short (taos_nchar rs) p sized taken =
      let same : p ≡ append_runes rs = cc in
      omega (arith, length-append_runes rs, ap length same, sized.0)
  nchar_short _ p sized taken = cc

  pub nchar_codec : VarCodec tsdb_nchar as_nchar
  unfolding raw_convert_var_data raw_convert_nchar
  nchar_codec = record {
    is_var = refl;
    short = nchar_short;
    nulls = λ b header start row e. rw e;
    values = nchar_value;
  }
