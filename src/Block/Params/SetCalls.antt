-- ===== src/Block/Params/SetCalls.antt =====
-- The `Set…` calls of `Param` (driver/common/param/param.go).
use taosadapter.Common.{
  ℕ, ◌≡◌, refl, ◌&&◌, Option, some, arith, inl, inr, ltb, ◌==◌, if◌then◌else◌, length, get_elem?,
  get_elem?-set_self, get_elem?-set_ne, Bool-cases,
}
use taosadapter.Block.Serialize.{TaosValue}
use taosadapter.Block.Params.{
  Param, set_value, get_values, set_bool, set_null, set_tinyint, set_smallint, set_int, set_bigint,
  set_utinyint, set_usmallint, set_uint, set_ubigint, set_float, set_double, set_binary,
  set_varbinary, set_nchar, set_timestamp, set_json, set_geometry,
}
use taosadapter.Block.Params.Calls.{Call, meant, value}
use taosadapter.Block.Params.Calls.Call.{
  bool, null, tinyint, smallint, int, bigint, utinyint, usmallint, uint, ubigint, float, double,
  binary, varbinary, nchar, timestamp, json, geometry,
}

-- `Param` has no `SetValue`, so that a call with a value of the caller's changes nothing here.
put_at : ℕ → Call → Param → Param
put_at offset (bool x) p = set_bool offset x p
put_at offset null p = set_null offset p
put_at offset (tinyint x) p = set_tinyint offset x p
put_at offset (smallint x) p = set_smallint offset x p
put_at offset (int x) p = set_int offset x p
put_at offset (bigint x) p = set_bigint offset x p
put_at offset (utinyint x) p = set_utinyint offset x p
put_at offset (usmallint x) p = set_usmallint offset x p
put_at offset (uint x) p = set_uint offset x p
put_at offset (ubigint x) p = set_ubigint offset x p
put_at offset (float x) p = set_float offset x p
put_at offset (double x) p = set_double offset x p
put_at offset (binary x) p = set_binary offset x p
put_at offset (varbinary x) p = set_varbinary offset x p
put_at offset (nchar x) p = set_nchar offset x p
put_at offset (timestamp x precision) p = set_timestamp offset x precision p
put_at offset (json x) p = set_json offset x p
put_at offset (geometry x) p = set_geometry offset x p
put_at offset (value v) p = p

abbrev pub IsTyped : Call → Type 0
IsTyped (value v) = ⊥
IsTyped _ = Unit {0}

put_at_lem :
    (offset : ℕ) (c : Call) (p : Param)
    → IsTyped c
    → put_at offset c p ≡ set_value offset (meant c) p
unfolding put_at set_bool set_null set_tinyint set_smallint set_int set_bigint set_utinyint
    set_usmallint set_uint set_ubigint set_float set_double set_binary set_varbinary set_nchar
    set_timestamp set_json set_geometry
put_at_lem offset (bool x) p k = refl
put_at_lem offset null p k = refl
put_at_lem offset (tinyint x) p k = refl
put_at_lem offset (smallint x) p k = refl
put_at_lem offset (int x) p k = refl
put_at_lem offset (bigint x) p k = refl
put_at_lem offset (utinyint x) p k = refl
put_at_lem offset (usmallint x) p k = refl
put_at_lem offset (uint x) p k = refl
put_at_lem offset (ubigint x) p k = refl
put_at_lem offset (float x) p k = refl
put_at_lem offset (double x) p k = refl
put_at_lem offset (binary x) p k = refl
put_at_lem offset (varbinary x) p k = refl
put_at_lem offset (nchar x) p k = refl
put_at_lem offset (timestamp x precision) p k = refl
put_at_lem offset (json x) p k = refl
put_at_lem offset (geometry x) p k = refl
put_at_lem offset (value v) p k = absurd k

set_value_lem :
    (offset i : ℕ) (v : Option TaosValue) (p : Param)
    → length p.value ≡ p.size
    → get_elem? (set_value offset v p).value i
      ≡ (if offset == i && ltb i p.size then some v else get_elem? p.value i)
unfolding set_value
set_value_lem offset i v p size = elim (Bool-cases (offset == i)) [
  | inl e ↦ ground (arith, get_elem?-set_self p.value i v)
  | inr e ↦ ground (arith, get_elem?-set_ne p.value {i = offset} {j = i} v)
]

-- A `Set…` call on a `Param` with as many places as its size puts its value, converted to the Go
-- type of the call, at its offset and changes no other place, and behind the end it does nothing.
get_values-put_at :
    (offset i : ℕ) (c : Call) (p : Param)
    → IsTyped c
    → length p.value ≡ p.size
    → get_elem? (get_values (put_at offset c p)) i
      ≡ (if offset == i && ltb i p.size then some (meant c) else get_elem? (get_values p) i)
unfolding get_values
get_values-put_at offset i c p k size =
    rw (put_at_lem offset c p k) (set_value_lem offset i (meant c) p size)
