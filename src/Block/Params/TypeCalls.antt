-- ===== src/Block/Params/TypeCalls.antt =====
-- Sequences of calls on `ColumnType` (driver/common/param/column.go), and what they build.
use taosadapter.Common.{
  ℕ, zero, suc, ◌+◌, ◌≡◌, refl, ◌∙◌, ap, List, [], ◌∷◌, ◌++◌, Option, none, some, arith, leb,
  if◌then◌else◌, length, length-append, map, take, set, replicate, append_assoc,
}
use taosadapter.Block.Serialize.{
  bool_type, tinyint_type, smallint_type, int_type, bigint_type, utinyint_type, usmallint_type,
  uint_type, ubigint_type, float_type, double_type, binary_type, varbinary_type, nchar_type,
  timestamp_type, json_type, geometry_type, ok, err, incomplete_column,
}
use taosadapter.Block.Params.ColumnTypes.{
  FieldType, ColumnTypes, new_column_type, add_type, add_bool, add_tinyint, add_smallint, add_int,
  add_bigint, add_utinyint, add_usmallint, add_uint, add_ubigint, add_float, add_double, add_binary,
  add_varbinary, add_nchar, add_timestamp, add_json, add_geometry, get_value,
}

-- The `Add…` calls, with their arguments.
pub data TypeCall : Type 0 where
  bool : TypeCall
  tinyint : TypeCall
  smallint : TypeCall
  int : TypeCall
  bigint : TypeCall
  utinyint : TypeCall
  usmallint : TypeCall
  uint : TypeCall
  ubigint : TypeCall
  float : TypeCall
  double : TypeCall
  binary : ℕ → TypeCall
  varbinary : ℕ → TypeCall
  nchar : ℕ → TypeCall
  timestamp : TypeCall
  json : ℕ → TypeCall
  geometry : ℕ → TypeCall

unfoldable pub run : TypeCall → ColumnTypes → ColumnTypes
run bool c = add_bool c
run tinyint c = add_tinyint c
run smallint c = add_smallint c
run int c = add_int c
run bigint c = add_bigint c
run utinyint c = add_utinyint c
run usmallint c = add_usmallint c
run uint c = add_uint c
run ubigint c = add_ubigint c
run float c = add_float c
run double c = add_double c
run (binary n) c = add_binary n c
run (varbinary n) c = add_varbinary n c
run (nchar n) c = add_nchar n c
run timestamp c = add_timestamp c
run (json n) c = add_json n c
run (geometry n) c = add_geometry n c

-- The type that a call is for.
abbrev pub meant : TypeCall → FieldType
meant bool = record { type = bool_type; max_len = 0 }
meant tinyint = record { type = tinyint_type; max_len = 0 }
meant smallint = record { type = smallint_type; max_len = 0 }
meant int = record { type = int_type; max_len = 0 }
meant bigint = record { type = bigint_type; max_len = 0 }
meant utinyint = record { type = utinyint_type; max_len = 0 }
meant usmallint = record { type = usmallint_type; max_len = 0 }
meant uint = record { type = uint_type; max_len = 0 }
meant ubigint = record { type = ubigint_type; max_len = 0 }
meant float = record { type = float_type; max_len = 0 }
meant double = record { type = double_type; max_len = 0 }
meant (binary n) = record { type = binary_type; max_len = n }
meant (varbinary n) = record { type = varbinary_type; max_len = n }
meant (nchar n) = record { type = nchar_type; max_len = n }
meant timestamp = record { type = timestamp_type; max_len = 0 }
meant (json n) = record { type = json_type; max_len = n }
meant (geometry n) = record { type = geometry_type; max_len = n }

abbrev pub run_all : List TypeCall → ColumnTypes → ColumnTypes
run_all [] c = c
run_all (k ∷ ks) c = run_all ks (run k c)

run_lem : (k : TypeCall) (c : ColumnTypes) → run k c ≡ add_type (meant k) c
unfolding run add_bool add_tinyint add_smallint add_int add_bigint add_utinyint add_usmallint
    add_uint add_ubigint add_float add_double add_binary add_varbinary add_nchar add_timestamp
    add_json add_geometry
run_lem bool c = refl
run_lem tinyint c = refl
run_lem smallint c = refl
run_lem int c = refl
run_lem bigint c = refl
run_lem utinyint c = refl
run_lem usmallint c = refl
run_lem uint c = refl
run_lem ubigint c = refl
run_lem float c = refl
run_lem double c = refl
run_lem (binary n) c = refl
run_lem (varbinary n) c = refl
run_lem (nchar n) c = refl
run_lem timestamp c = refl
run_lem (json n) c = refl
run_lem (geometry n) c = refl

-- The next place to write, behind the types so far.
set_next :
    (front : List (Option FieldType)) (n : ℕ) (v : Option FieldType)
    → set (front ++ replicate (suc n) none) (length front) v
      ≡ (front ++ (v ∷ [])) ++ replicate n none
set_next [] n v = refl
set_next (x ∷ front) n v = ap (λ (y : List (Option FieldType)). x ∷ y) (set_next front n v)

-- The state of a list of `size` types after calls with the types `front`.
abbrev at_place : ℕ → List (Option FieldType) → ℕ → ColumnTypes
at_place size front n = record {
  size = size;
  value = front ++ replicate n none;
  column = length front;
}

add_next :
    (size : ℕ) (front : List (Option FieldType)) (n : ℕ) (t : FieldType)
    → size ≡ length front + suc n
    → add_type t (at_place size front (suc n)) ≡ at_place size (front ++ (some t ∷ [])) n
unfolding add_type
add_next size front n t e =
    ground (arith, set_next front n (some t), length-append front (some t ∷ []))

add_full :
    (size : ℕ) (front : List (Option FieldType)) (t : FieldType)
    → size ≡ length front + 0
    → add_type t (at_place size front 0) ≡ at_place size front 0
unfolding add_type
add_full size front t e = ground arith

-- The types of the first `n` calls.
abbrev first_types : ℕ → List TypeCall → List (Option FieldType)
first_types n ks = map (λ k. some (meant k)) (take n ks)

get_value-at_place :
    (size : ℕ) (front : List (Option FieldType)) (n : ℕ)
    → size ≡ length front + n
    → get_value (at_place size front n)
      ≡ (if leb n 0 then ok (front ++ []) else err incomplete_column)
unfolding get_value
get_value-at_place size front zero e = ground arith
get_value-at_place size front (suc n) e = ground arith

run_all_lem :
    (ks : List TypeCall) (size : ℕ) (front : List (Option FieldType)) (n : ℕ)
    → size ≡ length front + n
    → get_value (run_all ks (at_place size front n))
      ≡ (if leb n (length ks) then ok (front ++ first_types n ks) else err incomplete_column)
run_all_lem [] size front zero e = get_value-at_place size front zero e
run_all_lem [] size front (suc n) e = get_value-at_place size front (suc n) e
run_all_lem (k ∷ ks) size front zero e =
    ap (λ (q : ColumnTypes). get_value (run_all ks q))
      (run_lem k (at_place size front 0) ∙ add_full size front (meant k) e)
    ∙ (run_all_lem ks size front 0 e ∙ ground arith)
run_all_lem (k ∷ ks) size front (suc n) e =
    ap (λ (q : ColumnTypes). get_value (run_all ks q))
      (run_lem k (at_place size front (suc n)) ∙ add_next size front n (meant k) e)
    ∙ (run_all_lem ks size (front ++ (some (meant k) ∷ [])) n
          (omega (arith, length-append front (some (meant k) ∷ [])))
        ∙ ground (arith, append_assoc front (some (meant k) ∷ []) (first_types n ks)))

-- After any sequence of `Add…` calls on a new `ColumnType` of size `n`, `GetValue` gives an error
-- when there were fewer than `n` calls, and otherwise the types of the first `n` calls in their order.
get_value-run_all :
    (n : ℕ) (ks : List TypeCall)
    → get_value (run_all ks (new_column_type n))
      ≡ (if leb n (length ks) then ok (first_types n ks) else err incomplete_column)
unfolding new_column_type
get_value-run_all n ks = run_all_lem ks n [] n (omega arith)
