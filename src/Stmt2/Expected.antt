-- ===== src/Stmt2/Expected.antt =====
-- What the client library takes for the values of a column, type by type, written down apart from
-- the switches of driver/common/stmt/stmt2.go: the numbers are those of the types of TDengine.
use taosadapter.Common.{
  ℕ, ◌+◌, ◌*◌, ◌≡◌, refl, ap, ◌∙◌, Bool, true, false, ◌&&◌, ◌||◌, List, [], ◌∷◌, ◌++◌, Option, none,
  some, arith, inl, inr, Bool-cases, ◌==◌, leb, contains, if◌then◌else◌, length, length-append,
  replicate, drop,
}
use taosadapter.Common.Bytes.{le_bytes}
use taosadapter.Block.{time_to_timestamp, type_length}
use taosadapter.Stmt2.{
  Value, null, other, bool, int8, int16, int32, int64, uint8, uint16, uint32, uint64, float32,
  float64, time, bytes, text, Result, ok, err, panic, data_type_not_match, unsupported_type, ◌>>=◌,
  is_nil, is_bound_type, bind_value, check_all_null, need_length, type_code, header_length,
}
use taosadapter.Stmt2.Bind.{cell, cells, flags, sizes, payloads}
use taosadapter.Stmt2.Header.{mark_of, layout, encode, length-flags, length-sizes}

-- Types whose values have a length of their own, and the types there are.
abbrev pub variable : ℕ → Bool
variable t = contains t (8 ∷ 10 ∷ 15 ∷ 16 ∷ 20 ∷ [])

abbrev pub known : ℕ → Bool
known t = leb 1 t && (leb t 16 || t == 20)

-- How many bytes a value of a type of fixed length has.
abbrev pub width : ℕ → ℕ
width t =
    if contains t (1 ∷ 2 ∷ 11 ∷ [])
    then 1
    else if contains t (3 ∷ 12 ∷ [])
    then 2
    else if contains t (4 ∷ 6 ∷ 13 ∷ [])
    then 4
    else if contains t (5 ∷ 7 ∷ 9 ∷ 14 ∷ [])
    then 8
    else 0

-- The type as an int32: an int8, extended by its sign.
abbrev pub code : ℕ → ℕ
code t = if leb 128 t then t + 4294967040 else t

abbrev pub only : Bool → List ℕ → Result (List ℕ)
only fits p = if fits then ok p else err data_type_not_match

abbrev pub timestamp : Option ℕ → Result (List ℕ)
timestamp none = panic
timestamp (some ts) = ok (le_bytes 8 ts)

-- The bytes of a value in a column of the type `t`, Go type by Go type.
abbrev bytes_in : ℕ → ℕ → Value → Result (List ℕ)
bytes_in t precision null = err data_type_not_match
bytes_in t precision other = err data_type_not_match
bytes_in t precision (bool b) = only (t == 1) ((if b then 1 else 0) ∷ [])
bytes_in t precision (int8 x) = only (t == 2) (le_bytes 1 x)
bytes_in t precision (int16 x) = only (t == 3) (le_bytes 2 x)
bytes_in t precision (int32 x) = only (t == 4) (le_bytes 4 x)
bytes_in t precision (int64 x) = only (contains t (5 ∷ 9 ∷ [])) (le_bytes 8 x)
bytes_in t precision (float32 x) = only (t == 6) (le_bytes 4 x)
bytes_in t precision (float64 x) = only (t == 7) (le_bytes 8 x)
bytes_in t precision (uint8 x) = only (t == 11) (le_bytes 1 x)
bytes_in t precision (uint16 x) = only (t == 12) (le_bytes 2 x)
bytes_in t precision (uint32 x) = only (t == 13) (le_bytes 4 x)
bytes_in t precision (uint64 x) = only (t == 14) (le_bytes 8 x)
bytes_in t precision (time ns) =
    if t == 9 then timestamp (time_to_timestamp ns precision) else err data_type_not_match
bytes_in t precision (bytes s) = only (variable t) s
bytes_in t precision (text s) = only (variable t) s

abbrev absent : Value → Bool
absent null = true
absent _ = false

abbrev pub cells_in : ℕ → ℕ → List Value → Result (List (Option (List ℕ)))
cells_in t precision [] = ok []
cells_in t precision (v ∷ values) =
    let present = bytes_in t precision v >>= λ p. ok (some p) in
    (if absent v then ok none else present) >>= λ c.
    cells_in t precision values >>= λ cs. ok (c ∷ cs)

abbrev pub nulls : List Value → Bool
nulls [] = true
nulls (v ∷ values) = absent v && nulls values

abbrev pub values_in : ℕ → List (Option (List ℕ)) → List ℕ
values_in t [] = []
values_in t (none ∷ cs) = replicate (width t) 0 ++ values_in t cs
values_in t (some p ∷ cs) = p ++ values_in t cs

-- The bytes of a column: the length of all of it, its type, the number of its rows, a byte for each
-- row that says whether it is null, whether the rows have lengths, those lengths, the length of the
-- values, and the values.
abbrev pub column : Bool → ℕ → List (Option (List ℕ)) → List ℕ → List ℕ
column has_lengths t cs values =
    let rest =
      le_bytes 4 t
      ++ (le_bytes 4 (length cs)
          ++ (flags cs
              ++ ((if has_lengths then 1 else 0)
                  ∷ (sizes has_lengths cs ++ (le_bytes 4 (length values) ++ values))))) in
    le_bytes 4 (4 + length rest) ++ rest

-- What is to be bound for the values of a column.
abbrev pub expected : ℕ → ℕ → List Value → Result (List ℕ)
expected t precision values =
    if nulls values
    then ok (column (variable t) (code t) (replicate (length values) none) [])
    else if known t
    then (cells_in t precision values >>= λ cs.
        ok (column (variable t) (code t) cs (values_in t cs)))
    else err unsupported_type

-- The tests and the table of the code agree with these.
absent_lem : (v : Value) → is_nil v ≡ absent v
absent_lem v = refl

pub nulls_lem : (values : List Value) → check_all_null values ≡ nulls values
nulls_lem [] = refl
nulls_lem (v ∷ values) =
    ap (λ (b : Bool). b && check_all_null values) (absent_lem v)
    ∙ ap (λ (b : Bool). absent v && b) (nulls_lem values)

pub known_lem : (t : ℕ) → is_bound_type t ≡ known t
unfolding is_bound_type
known_lem t = ground arith

variable_lem : (t : ℕ) → need_length t ≡ variable t
unfolding need_length
variable_lem t = ground arith

code_lem : (t : ℕ) → type_code t ≡ code t
unfolding type_code
code_lem t = ground arith

width_lem : (t : ℕ) → known t ≡ true → type_length t ≡ width t
width_lem t e = ground arith

bytes_in_lem :
    (t precision : ℕ) (v : Value)
    → known t ≡ true
    → is_nil v ≡ false
    → bind_value t precision v ≡ bytes_in t precision v
unfolding bind_value
bytes_in_lem t precision null k e = cc
bytes_in_lem t precision other k e = ground arith
bytes_in_lem t precision (bool b) k e = ground arith
bytes_in_lem t precision (int8 x) k e = ground arith
bytes_in_lem t precision (int16 x) k e = ground arith
bytes_in_lem t precision (int32 x) k e = ground arith
bytes_in_lem t precision (int64 x) k e = ground arith
bytes_in_lem t precision (uint8 x) k e = ground arith
bytes_in_lem t precision (uint16 x) k e = ground arith
bytes_in_lem t precision (uint32 x) k e = ground arith
bytes_in_lem t precision (uint64 x) k e = ground arith
bytes_in_lem t precision (float32 x) k e = ground arith
bytes_in_lem t precision (float64 x) k e = ground arith
bytes_in_lem t precision (time x) k e = ground arith
bytes_in_lem t precision (bytes x) k e = ground arith
bytes_in_lem t precision (text x) k e = ground arith

cell_lem :
    (t precision : ℕ) (v : Value)
    → known t ≡ true
    → cell t precision v
      ≡ (if absent v then ok none else (bytes_in t precision v >>= λ p. ok (some p)))
cell_lem t precision v k = elim (Bool-cases (is_nil v)) [
  | inl e ↦ rw e refl
  | inr e ↦ rw e (rw (bytes_in_lem t precision v k e) refl)
]

pub cells_lem :
    (t precision : ℕ) (values : List Value)
    → known t ≡ true
    → cells t precision values ≡ cells_in t precision values
cells_lem t precision [] k = refl
cells_lem t precision (v ∷ values) k =
    ap (λ r. r >>= λ c. cells t precision values >>= λ cs. ok (c ∷ cs)) (cell_lem t precision v k)
    ∙ ap
        (λ r. (if absent v then ok none else (bytes_in t precision v >>= λ p. ok (some p))) >>= λ c.
          r >>= λ cs. ok (c ∷ cs))
        (cells_lem t precision values k)

pub values_lem :
    (t : ℕ) (cs : List (Option (List ℕ))) → known t ≡ true → payloads t cs ≡ values_in t cs
values_lem t [] k = refl
values_lem t (none ∷ cs) k =
    ap (λ (n : ℕ). replicate n 0 ++ payloads t cs) (width_lem t k)
    ∙ ap (λ (xs : List ℕ). replicate (width t) 0 ++ xs) (values_lem t cs k)
values_lem t (some p ∷ cs) k = ap (λ (xs : List ℕ). p ++ xs) (values_lem t cs k)

length_column :
    (b : Bool) (cs : List (Option (List ℕ))) (x y values : List ℕ)
    → length x ≡ 4
    → length y ≡ 4
    → length values + header_length (length cs) b
      ≡ 4
        + length (
            x
            ++ (le_bytes 4 (length cs)
                ++ (flags cs ++ (mark_of b ++ (sizes b cs ++ (y ++ values))))))
unfolding header_length
length_column b cs x y values e f =
    let rest = sizes b cs ++ (y ++ values) in
    let k = if b then length cs * 4 else 0 in
    let wide : length (sizes b cs) ≡ k = length-sizes b cs in
    omega (
      arith,
      e,
      f,
      wide,
      length-flags cs,
      length-append x (le_bytes 4 (length cs) ++ (flags cs ++ (mark_of b ++ rest))),
      length-append (flags cs) (mark_of b ++ rest),
      length-append (sizes b cs) (y ++ values),
      length-append y values,
    )

pub layout_lem :
    (b : Bool) (t : ℕ) (cs : List (Option (List ℕ))) (values : List ℕ)
    → layout b t cs values ≡ column b t cs values
layout_lem b t cs values =
    ap (λ (n : ℕ). le_bytes 4 n ++ drop 4 (layout b t cs values))
      (length_column b cs (le_bytes 4 t) (le_bytes 4 (length values)) values refl refl)

pub column_lem :
    (t : ℕ) (cs : List (Option (List ℕ))) (values : List ℕ)
    → encode t cs values ≡ column (variable t) (code t) cs values
column_lem t cs values =
    ap (λ (b : Bool). layout b (type_code t) cs values) (variable_lem t)
    ∙ ap (λ (n : ℕ). layout (variable t) n cs values) (code_lem t)
    ∙ layout_lem (variable t) (code t) cs values
