-- ===== src/Block/Params/Calls.antt =====
-- Sequences of calls on `Param` and `ColumnType` (driver/common/param), and what they build.
use taosadapter.Common.{
  ℕ, zero, suc, ◌+◌, ◌%◌, ◌^◌, ◌≡◌, refl, sym, ◌∙◌, ap, Bool, List, [], ◌∷◌, ◌++◌, Option, none,
  some, arith, length, set, replicate, append_assoc,
}
use taosadapter.Block.Serialize.{
  TaosValue, taos_bool, taos_tinyint, taos_smallint, taos_int, taos_bigint, taos_utinyint,
  taos_usmallint, taos_uint, taos_ubigint, taos_float, taos_double, taos_binary, taos_varbinary,
  taos_json, taos_geometry, taos_nchar, taos_timestamp,
}
use taosadapter.Block.Params.{
  Param, new_param, add_value, add_bool, add_null, add_tinyint, add_smallint, add_int, add_bigint,
  add_utinyint, add_usmallint, add_uint, add_ubigint, add_float, add_double, add_binary,
  add_varbinary, add_nchar, add_timestamp, add_json, add_geometry, get_values,
}

-- The `Add…` calls, with their arguments.
pub data Call : Type 0 where
  bool : Bool → Call
  null : Call
  tinyint : ℕ → Call
  smallint : ℕ → Call
  int : ℕ → Call
  bigint : ℕ → Call
  utinyint : ℕ → Call
  usmallint : ℕ → Call
  uint : ℕ → Call
  ubigint : ℕ → Call
  float : ℕ → Call
  double : ℕ → Call
  binary : List ℕ → Call
  varbinary : List ℕ → Call
  nchar : List ℕ → Call
  timestamp : ℕ → ℕ → Call
  json : List ℕ → Call
  geometry : List ℕ → Call
  value : Option TaosValue → Call

unfoldable pub run : Call → Param → Param
run (bool x) p = add_bool x p
run null p = add_null p
run (tinyint x) p = add_tinyint x p
run (smallint x) p = add_smallint x p
run (int x) p = add_int x p
run (bigint x) p = add_bigint x p
run (utinyint x) p = add_utinyint x p
run (usmallint x) p = add_usmallint x p
run (uint x) p = add_uint x p
run (ubigint x) p = add_ubigint x p
run (float x) p = add_float x p
run (double x) p = add_double x p
run (binary x) p = add_binary x p
run (varbinary x) p = add_varbinary x p
run (nchar x) p = add_nchar x p
run (timestamp x precision) p = add_timestamp x precision p
run (json x) p = add_json x p
run (geometry x) p = add_geometry x p
run (value v) p = add_value v p

-- The value that a call is for.
abbrev pub meant : Call → Option TaosValue
meant (bool x) = some (taos_bool x)
meant null = none
meant (tinyint x) = some (taos_tinyint (x % 2 ^ 8))
meant (smallint x) = some (taos_smallint (x % 2 ^ 16))
meant (int x) = some (taos_int (x % 2 ^ 32))
meant (bigint x) = some (taos_bigint x)
meant (utinyint x) = some (taos_utinyint (x % 2 ^ 8))
meant (usmallint x) = some (taos_usmallint (x % 2 ^ 16))
meant (uint x) = some (taos_uint (x % 2 ^ 32))
meant (ubigint x) = some (taos_ubigint x)
meant (float x) = some (taos_float x)
meant (double x) = some (taos_double x)
meant (binary x) = some (taos_binary x)
meant (varbinary x) = some (taos_varbinary x)
meant (nchar x) = some (taos_nchar x)
meant (timestamp x precision) = some (taos_timestamp x precision)
meant (json x) = some (taos_json x)
meant (geometry x) = some (taos_geometry x)
meant (value v) = v

abbrev pub run_all : List Call → Param → Param
run_all [] p = p
run_all (c ∷ cs) p = run_all cs (run c p)

run_lem : (c : Call) (p : Param) → run c p ≡ add_value (meant c) p
unfolding run add_bool add_null add_tinyint add_smallint add_int add_bigint add_utinyint
    add_usmallint add_uint add_ubigint add_float add_double add_binary add_varbinary add_nchar
    add_timestamp add_json add_geometry
run_lem (bool x) p = refl
run_lem null p = refl
run_lem (tinyint x) p = refl
run_lem (smallint x) p = refl
run_lem (int x) p = refl
run_lem (bigint x) p = refl
run_lem (utinyint x) p = refl
run_lem (usmallint x) p = refl
run_lem (uint x) p = refl
run_lem (ubigint x) p = refl
run_lem (float x) p = refl
run_lem (double x) p = refl
run_lem (binary x) p = refl
run_lem (varbinary x) p = refl
run_lem (nchar x) p = refl
run_lem (timestamp x precision) p = refl
run_lem (json x) p = refl
run_lem (geometry x) p = refl
run_lem (value v) p = refl

-- The first `n` of the calls' values, and nil for the places that no call reached.
abbrev pub filled : ℕ → List Call → List (Option TaosValue)
filled zero cs = []
filled (suc n) [] = none ∷ filled n []
filled (suc n) (c ∷ cs) = meant c ∷ filled n cs

filled-none : (n : ℕ) → filled n [] ≡ replicate n none
filled-none zero = refl
filled-none (suc n) = ap (λ (x : List (Option TaosValue)). none ∷ x) (filled-none n)

-- The next place to write, behind the values so far.
set_next :
    (front : List (Option TaosValue)) (n : ℕ) (v : Option TaosValue)
    → set (front ++ replicate (suc n) none) (length front) v
      ≡ (front ++ (v ∷ [])) ++ replicate n none
set_next [] n v = refl
set_next (x ∷ front) n v = ap (λ (y : List (Option TaosValue)). x ∷ y) (set_next front n v)

length-front :
    (front : List (Option TaosValue)) (v : Option TaosValue)
    → length (front ++ (v ∷ [])) ≡ suc (length front)
length-front [] v = refl
length-front (x ∷ front) v = ap suc (length-front front v)

-- The state of a parameter of size `size` after calls with the values `front`.
abbrev at_place : ℕ → List (Option TaosValue) → ℕ → Param
at_place size front n = record {
  size = size;
  value = front ++ replicate n none;
  offset = length front;
}

add_next :
    (size : ℕ) (front : List (Option TaosValue)) (n : ℕ) (v : Option TaosValue)
    → size ≡ length front + suc n
    → add_value v (at_place size front (suc n)) ≡ at_place size (front ++ (v ∷ [])) n
unfolding add_value
add_next size front n v e = ground (arith, set_next front n v, length-front front v)

add_full :
    (size : ℕ) (front : List (Option TaosValue)) (v : Option TaosValue)
    → size ≡ length front + 0
    → add_value v (at_place size front 0) ≡ at_place size front 0
unfolding add_value
add_full size front v e = ground arith

run_all_lem :
    (cs : List Call) (size : ℕ) (front : List (Option TaosValue)) (n : ℕ)
    → size ≡ length front + n
    → (run_all cs (at_place size front n)).value ≡ front ++ filled n cs
run_all_lem [] size front n e =
    ap (λ (x : List (Option TaosValue)). front ++ x) (sym (filled-none n))
run_all_lem (c ∷ cs) size front zero e =
    ap (λ (q : Param). (run_all cs q).value)
      (run_lem c (at_place size front 0) ∙ add_full size front (meant c) e)
    ∙ run_all_lem cs size front 0 e
run_all_lem (c ∷ cs) size front (suc n) e =
    ap (λ (q : Param). (run_all cs q).value)
      (run_lem c (at_place size front (suc n)) ∙ add_next size front n (meant c) e)
    ∙ (run_all_lem cs size (front ++ (meant c ∷ [])) n (omega (arith, length-front front (meant c)))
        ∙ append_assoc front (meant c ∷ []) (filled n cs))

-- Any sequence of `Add…` calls on a new `Param` of size `n` leaves, as `GetValues`, the values of
-- its first `n` calls in their order, converted to the Go type of the call, and nil behind them;
-- the calls behind the first `n` change nothing.
pub get_values-run_all :
    (n : ℕ) (cs : List Call) → get_values (run_all cs (new_param n)) ≡ filled n cs
unfolding get_values new_param
get_values-run_all n cs = run_all_lem cs n [] n (omega arith)
