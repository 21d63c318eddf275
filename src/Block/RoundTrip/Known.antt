-- ===== src/Block/RoundTrip/Known.antt =====
-- The switch over the type of a column: `SerializeRawBlock` against the parser's loop.
use taosadapter.Common.{ℕ, ◌+◌, ◌^◌, ◌<◌, ◌≡◌, refl, arith, List, Option, some, ◌==◌, not, length}
use taosadapter.Block.{
  tsdb_bool, tsdb_tinyint, tsdb_smallint, tsdb_int, tsdb_bigint, tsdb_utinyint, tsdb_usmallint,
  tsdb_uint, tsdb_ubigint, tsdb_float, tsdb_double, tsdb_timestamp, tsdb_binary, tsdb_varbinary,
  tsdb_geometry, tsdb_nchar, tsdb_json,
}
use taosadapter.Block.Serialize.{
  TaosValue, TaosType, bool_type, tinyint_type, smallint_type, int_type, bigint_type, utinyint_type,
  usmallint_type, uint_type, ubigint_type, float_type, double_type, timestamp_type, binary_type,
  varbinary_type, geometry_type, nchar_type, json_type, unknown_type, ok, as_bool, as_tinyint,
  as_smallint, as_int, as_bigint, as_utinyint, as_usmallint, as_uint, as_ubigint, as_float,
  as_double, as_timestamp, as_binary, as_varbinary, as_geometry, as_nchar, as_json,
}
use taosadapter.Block.Serialize.Columns.{Column, serialize_column}
use taosadapter.Block.Parse.{
  Value, bool, int8, int16, int32, int64, uint8, uint16, uint32, uint64, float32, float64,
}
use taosadapter.Block.Parse.Blocks.{has_convert}
use taosadapter.Block.RoundTrip.Values.{code_of, AllSized}
use taosadapter.Block.RoundTrip.Codecs.{
  bool_codec, tinyint_codec, smallint_codec, int_codec, bigint_codec, utinyint_codec,
  usmallint_codec, uint_codec, ubigint_codec, float_codec, double_codec, timestamp_codec,
}
use taosadapter.Block.RoundTrip.VarCodecs.{
  binary_codec, varbinary_codec, geometry_codec, nchar_codec, json_codec,
}
use taosadapter.Block.RoundTrip.Column.{ReadsBack, fixed_column-ReadsBack, var_column-ReadsBack}

-- The types with a case in the switch.
abbrev pub IsKnown : TaosType → Type 0
IsKnown unknown_type = ⊥
IsKnown _ = Unit {0}

pub has_convert_known : (t : TaosType) → IsKnown t → has_convert (code_of t) ≡ some tt
unfolding has_convert
has_convert_known bool_type k = refl
has_convert_known tinyint_type k = refl
has_convert_known smallint_type k = refl
has_convert_known int_type k = refl
has_convert_known bigint_type k = refl
has_convert_known utinyint_type k = refl
has_convert_known usmallint_type k = refl
has_convert_known uint_type k = refl
has_convert_known ubigint_type k = refl
has_convert_known float_type k = refl
has_convert_known double_type k = refl
has_convert_known timestamp_type k = refl
has_convert_known binary_type k = refl
has_convert_known varbinary_type k = refl
has_convert_known geometry_type k = refl
has_convert_known nchar_type k = refl
has_convert_known json_type k = refl
has_convert_known unknown_type k = absurd k

pub code_of_small : (t : TaosType) → code_of t < 256 ^ 1
code_of_small bool_type = omega arith
code_of_small tinyint_type = omega arith
code_of_small smallint_type = omega arith
code_of_small int_type = omega arith
code_of_small bigint_type = omega arith
code_of_small utinyint_type = omega arith
code_of_small usmallint_type = omega arith
code_of_small uint_type = omega arith
code_of_small ubigint_type = omega arith
code_of_small float_type = omega arith
code_of_small double_type = omega arith
code_of_small timestamp_type = omega arith
code_of_small binary_type = omega arith
code_of_small varbinary_type = omega arith
code_of_small geometry_type = omega arith
code_of_small nchar_type = omega arith
code_of_small json_type = omega arith
code_of_small unknown_type = omega arith

module _ (to_time : ℕ → Option Value) (show : ℕ → Value)
    (shows : (ts : ℕ) → to_time ts ≡ some (show ts)) (pre post : List ℕ) (rows : ℕ)
    (vs : List (Option TaosValue)) (full : length vs ≡ rows) (sized : AllSized vs) (c : Column)
    (small : length pre + length c.body < 2 ^ 31) where
  pub serialize_column-ReadsBack :
      (t : TaosType)
      → IsKnown t
      → serialize_column t rows vs ≡ ok c
      → ReadsBack to_time show shows pre post rows vs full sized c small (code_of t)
  unfolding serialize_column
  serialize_column-ReadsBack bool_type k e =
      fixed_column-ReadsBack to_time show shows pre post rows vs full sized c small tsdb_bool 1
        as_bool (λ x. bool (not (x == 0))) (bool_codec to_time show shows) e
  serialize_column-ReadsBack tinyint_type k e =
      fixed_column-ReadsBack to_time show shows pre post rows vs full sized c small tsdb_tinyint 1
        as_tinyint int8 (tinyint_codec to_time show shows) e
  serialize_column-ReadsBack smallint_type k e =
      fixed_column-ReadsBack to_time show shows pre post rows vs full sized c small tsdb_smallint 2
        as_smallint int16 (smallint_codec to_time show shows) e
  serialize_column-ReadsBack int_type k e =
      fixed_column-ReadsBack to_time show shows pre post rows vs full sized c small tsdb_int 4
        as_int int32 (int_codec to_time show shows) e
  serialize_column-ReadsBack bigint_type k e =
      fixed_column-ReadsBack to_time show shows pre post rows vs full sized c small tsdb_bigint 8
        as_bigint int64 (bigint_codec to_time show shows) e
  serialize_column-ReadsBack utinyint_type k e =
      fixed_column-ReadsBack to_time show shows pre post rows vs full sized c small tsdb_utinyint 1
        as_utinyint uint8 (utinyint_codec to_time show shows) e
  serialize_column-ReadsBack usmallint_type k e =
      fixed_column-ReadsBack to_time show shows pre post rows vs full sized c small tsdb_usmallint 2
        as_usmallint uint16 (usmallint_codec to_time show shows) e
  serialize_column-ReadsBack uint_type k e =
      fixed_column-ReadsBack to_time show shows pre post rows vs full sized c small tsdb_uint 4
        as_uint uint32 (uint_codec to_time show shows) e
  serialize_column-ReadsBack ubigint_type k e =
      fixed_column-ReadsBack to_time show shows pre post rows vs full sized c small tsdb_ubigint 8
        as_ubigint uint64 (ubigint_codec to_time show shows) e
  serialize_column-ReadsBack float_type k e =
      fixed_column-ReadsBack to_time show shows pre post rows vs full sized c small tsdb_float 4
        as_float float32 (float_codec to_time show shows) e
  serialize_column-ReadsBack double_type k e =
      fixed_column-ReadsBack to_time show shows pre post rows vs full sized c small tsdb_double 8
        as_double float64 (double_codec to_time show shows) e
  serialize_column-ReadsBack timestamp_type k e =
      fixed_column-ReadsBack to_time show shows pre post rows vs full sized c small tsdb_timestamp 8
        as_timestamp show (timestamp_codec to_time show shows) e
  serialize_column-ReadsBack binary_type k e =
      var_column-ReadsBack to_time show shows pre post rows vs full sized c small tsdb_binary
        as_binary (binary_codec show) e
  serialize_column-ReadsBack varbinary_type k e =
      var_column-ReadsBack to_time show shows pre post rows vs full sized c small tsdb_varbinary
        as_varbinary (varbinary_codec show) e
  serialize_column-ReadsBack geometry_type k e =
      var_column-ReadsBack to_time show shows pre post rows vs full sized c small tsdb_geometry
        as_geometry (geometry_codec show) e
  serialize_column-ReadsBack nchar_type k e =
      var_column-ReadsBack to_time show shows pre post rows vs full sized c small tsdb_nchar
        as_nchar (nchar_codec show) e
  serialize_column-ReadsBack json_type k e =
      var_column-ReadsBack to_time show shows pre post rows vs full sized c small tsdb_json as_json
        (json_codec show) e
  serialize_column-ReadsBack unknown_type k e = absurd k
