-- ===== src/Block/RoundTrip/Codecs.antt =====
-- The types of fixed length, one codec each: what driver/common/serializer writes for a value is
-- what driver/common/parser turns back.
use taosadapter.Common.{
  ℕ, ◌*◌, ◌^◌, ◌<◌, ◌≡◌, refl, false, true, not, Option, some, arith, ◌==◌, List,
}
use taosadapter.Common.Bytes.{read_le}
use taosadapter.Block.{
  is_var_data_type, type_length, add_pointer, time_to_timestamp, div_int64, tsdb_bool, tsdb_tinyint,
  tsdb_smallint, tsdb_int, tsdb_bigint, tsdb_float, tsdb_double, tsdb_timestamp, tsdb_utinyint,
  tsdb_usmallint, tsdb_uint, tsdb_ubigint,
}
use taosadapter.Block.Serialize.{
  TaosValue, taos_bool, taos_tinyint, taos_smallint, taos_int, taos_bigint, taos_utinyint,
  taos_usmallint, taos_uint, taos_ubigint, taos_float, taos_double, taos_timestamp, Result, ok,
  as_bool, as_tinyint, as_smallint, as_int, as_bigint, as_utinyint, as_usmallint, as_uint,
  as_ubigint, as_float, as_double, as_timestamp,
}
use taosadapter.Block.Parse.{
  Value, bool, int8, int16, int32, int64, uint8, uint16, uint32, uint64, float32, float64,
  raw_convert,
}
use taosadapter.Block.RoundTrip.Values.{value_of, IsSized}

-- `to_time` is the conversion of timestamps that the reader is called with; it never fails, and
-- `show` is what it gives.
module _ (to_time : ℕ → Option Value) (show : ℕ → Value)
    (shows : (ts : ℕ) → to_time ts ≡ some (show ts)) where
  pub record FixedCodec (t width : ℕ) (take : TaosValue → Result ℕ) (conv : ℕ → Value)
      : Type 0 where
    pub is_fixed : is_var_data_type t ≡ false
    pub is_wide : type_length t ≡ width
    pub converts :
        (b : List ℕ) (start row x : ℕ)
        → read_le width b (add_pointer start (row * width)) ≡ some x
        → raw_convert b t start row to_time ≡ some (conv x)
    pub values :
        (v : TaosValue) (x : ℕ)
        → take v ≡ ok x
        → (value_of show (some v) ≡ conv x) × (IsSized v → x < 256 ^ width)

  tinyint_values :
      (v : TaosValue) (x : ℕ)
      → as_tinyint v ≡ ok x
      → (value_of show (some v) ≡ int8 x) × (IsSized v → x < 256 ^ 1)
  unfolding as_tinyint
  tinyint_values (taos_tinyint v) x e = ground arith
  tinyint_values _ x e = cc

  pub tinyint_codec : FixedCodec tsdb_tinyint 1 as_tinyint int8
  unfolding raw_convert
  tinyint_codec = record {
    is_fixed = refl;
    is_wide = refl;
    converts = λ b start row x e. rw e;
    values = tinyint_values;
  }

  smallint_values :
      (v : TaosValue) (x : ℕ)
      → as_smallint v ≡ ok x
      → (value_of show (some v) ≡ int16 x) × (IsSized v → x < 256 ^ 2)
  unfolding as_smallint
  smallint_values (taos_smallint v) x e = ground arith
  smallint_values _ x e = cc

  pub smallint_codec : FixedCodec tsdb_smallint 2 as_smallint int16
  unfolding raw_convert
  smallint_codec = record {
    is_fixed = refl;
    is_wide = refl;
    converts = λ b start row x e. rw e;
    values = smallint_values;
  }

  int_values :
      (v : TaosValue) (x : ℕ)
      → as_int v ≡ ok x
      → (value_of show (some v) ≡ int32 x) × (IsSized v → x < 256 ^ 4)
  unfolding as_int
  int_values (taos_int v) x e = ground arith
  int_values _ x e = cc

  pub int_codec : FixedCodec tsdb_int 4 as_int int32
  unfolding raw_convert
  int_codec = record {
    is_fixed = refl;
    is_wide = refl;
    converts = λ b start row x e. rw e;
    values = int_values;
  }

  bigint_values :
      (v : TaosValue) (x : ℕ)
      → as_bigint v ≡ ok x
      → (value_of show (some v) ≡ int64 x) × (IsSized v → x < 256 ^ 8)
  unfolding as_bigint
  bigint_values (taos_bigint v) x e = ground arith
  bigint_values _ x e = cc

  pub bigint_codec : FixedCodec tsdb_bigint 8 as_bigint int64
  unfolding raw_convert
  bigint_codec = record {
    is_fixed = refl;
    is_wide = refl;
    converts = λ b start row x e. rw e;
    values = bigint_values;
  }

  utinyint_values :
      (v : TaosValue) (x : ℕ)
      → as_utinyint v ≡ ok x
      → (value_of show (some v) ≡ uint8 x) × (IsSized v → x < 256 ^ 1)
  unfolding as_utinyint
  utinyint_values (taos_utinyint v) x e = ground arith
  utinyint_values _ x e = cc

  pub utinyint_codec : FixedCodec tsdb_utinyint 1 as_utinyint uint8
  unfolding raw_convert
  utinyint_codec = record {
    is_fixed = refl;
    is_wide = refl;
    converts = λ b start row x e. rw e;
    values = utinyint_values;
  }

  usmallint_values :
      (v : TaosValue) (x : ℕ)
      → as_usmallint v ≡ ok x
      → (value_of show (some v) ≡ uint16 x) × (IsSized v → x < 256 ^ 2)
  unfolding as_usmallint
  usmallint_values (taos_usmallint v) x e = ground arith
  usmallint_values _ x e = cc

  pub usmallint_codec : FixedCodec tsdb_usmallint 2 as_usmallint uint16
  unfolding raw_convert
  usmallint_codec = record {
    is_fixed = refl;
    is_wide = refl;
    converts = λ b start row x e. rw e;
    values = usmallint_values;
  }

  uint_values :
      (v : TaosValue) (x : ℕ)
      → as_uint v ≡ ok x
      → (value_of show (some v) ≡ uint32 x) × (IsSized v → x < 256 ^ 4)
  unfolding as_uint
  uint_values (taos_uint v) x e = ground arith
  uint_values _ x e = cc

  pub uint_codec : FixedCodec tsdb_uint 4 as_uint uint32
  unfolding raw_convert
  uint_codec = record {
    is_fixed = refl;
    is_wide = refl;
    converts = λ b start row x e. rw e;
    values = uint_values;
  }

  ubigint_values :
      (v : TaosValue) (x : ℕ)
      → as_ubigint v ≡ ok x
      → (value_of show (some v) ≡ uint64 x) × (IsSized v → x < 256 ^ 8)
  unfolding as_ubigint
  ubigint_values (taos_ubigint v) x e = ground arith
  ubigint_values _ x e = cc

  pub ubigint_codec : FixedCodec tsdb_ubigint 8 as_ubigint uint64
  unfolding raw_convert
  ubigint_codec = record {
    is_fixed = refl;
    is_wide = refl;
    converts = λ b start row x e. rw e;
    values = ubigint_values;
  }

  float_values :
      (v : TaosValue) (x : ℕ)
      → as_float v ≡ ok x
      → (value_of show (some v) ≡ float32 x) × (IsSized v → x < 256 ^ 4)
  unfolding as_float
  float_values (taos_float v) x e = ground arith
  float_values _ x e = cc

  pub float_codec : FixedCodec tsdb_float 4 as_float float32
  unfolding raw_convert
  float_codec = record {
    is_fixed = refl;
    is_wide = refl;
    converts = λ b start row x e. rw e;
    values = float_values;
  }

  double_values :
      (v : TaosValue) (x : ℕ)
      → as_double v ≡ ok x
      → (value_of show (some v) ≡ float64 x) × (IsSized v → x < 256 ^ 8)
  unfolding as_double
  double_values (taos_double v) x e = ground arith
  double_values _ x e = cc

  pub double_codec : FixedCodec tsdb_double 8 as_double float64
  unfolding raw_convert
  double_codec = record {
    is_fixed = refl;
    is_wide = refl;
    converts = λ b start row x e. rw e;
    values = double_values;
  }

  bool_values :
      (v : TaosValue) (x : ℕ)
      → as_bool v ≡ ok x
      → (value_of show (some v) ≡ bool (not (x == 0))) × (IsSized v → x < 256 ^ 1)
  unfolding as_bool
  bool_values (taos_bool true) x e = ground arith
  bool_values (taos_bool false) x e = ground arith
  bool_values _ x e = cc

  pub bool_codec : FixedCodec tsdb_bool 1 as_bool (λ x. bool (not (x == 0)))
  unfolding raw_convert
  bool_codec = record {
    is_fixed = refl;
    is_wide = refl;
    converts = λ b start row x e. rw e;
    values = bool_values;
  }

  timestamp_values :
      (v : TaosValue) (x : ℕ)
      → as_timestamp v ≡ ok x
      → (value_of show (some v) ≡ show x) × (IsSized v → x < 256 ^ 8)
  unfolding as_timestamp time_to_timestamp div_int64
  timestamp_values (taos_timestamp ns precision) x e = ground arith
  timestamp_values _ x e = cc

  pub timestamp_codec : FixedCodec tsdb_timestamp 8 as_timestamp show
  unfolding raw_convert
  timestamp_codec = record {
    is_fixed = refl;
    is_wide = refl;
    converts = λ b start row x e. rw (e, shows x);
    values = timestamp_values;
  }
