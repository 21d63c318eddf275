-- ===== src/Stmt2/Query.antt =====
-- `generateBindQueryData` of driver/common/stmt/stmt2.go: one value that is bound to a query.
use taosadapter.Common.{
  ℕ, ◌+◌, ◌≡◌, refl, sym, ap, ◌∙◌, Bool, true, false, List, [], ◌∷◌, ◌++◌, append-nil, some, arith,
  length, length-replicate, replicate, drop, if◌then◌else◌,
}
use taosadapter.Common.Bytes.{le_bytes}
use taosadapter.Common.Bytes.Puts.{put_bytes, put_behind, put_over, replicate-append}
use taosadapter.Stmt2.{
  Value, null, other, bool, int8, int16, int32, int64, uint8, uint16, uint32, uint64, float32,
  float64, time, bytes, text, Result, ok, err, unsupported_type, header_length, query_data,
  generate_bind_query_data,
}
use taosadapter.Stmt2.Header.{zero4, layout}
use taosadapter.Stmt2.Expected.{variable, code, column, layout_lem}

-- The layout of one value, with its length in front of it or without.
abbrev one_value : ℕ → Bool → List ℕ → List ℕ
one_value t true buf =
    le_bytes 4 (22 + length buf)
    ++ (le_bytes 4 t
        ++ (le_bytes 4 1
            ++ (0 ∷ 1 ∷ (le_bytes 4 (length buf) ++ (le_bytes 4 (length buf) ++ buf)))))
one_value t false buf =
    le_bytes 4 (18 + length buf)
    ++ (le_bytes 4 t ++ (le_bytes 4 1 ++ (0 ∷ 0 ∷ (le_bytes 4 (length buf) ++ buf))))

put_last :
    (pre buf : List ℕ) (n j : ℕ)
    → j ≡ length pre
    → n ≡ length buf
    → put_bytes (pre ++ replicate n 0) j buf ≡ pre ++ buf
put_last pre buf n j e l =
    put_behind pre (replicate n 0) 0 j buf (omega (arith, e))
    ∙ ap (λ (xs : List ℕ). pre ++ xs)
        (ap (λ (xs : List ℕ). put_bytes xs 0 buf) (sym (append-nil (replicate n 0)))
          ∙ put_over (replicate n 0) buf [] (length-replicate {A = ℕ} n 0 ∙ l)
          ∙ append-nil buf)

query_data_lem : (t : ℕ) (b : Bool) (buf : List ℕ) → query_data t b buf ≡ one_value t b buf
unfolding query_data header_length
query_data_lem t true buf =
    let n = length buf in
    let len = le_bytes 4 n in
    let total = le_bytes 4 (22 + n) in
    let start = λ (xs : List ℕ). put_bytes (put_bytes xs 4 (le_bytes 4 t)) 8 (le_bytes 4 1) in
    let marked = λ (xs : List ℕ).
      put_bytes (put_bytes (put_bytes (start xs) 12 (0 ∷ [])) 13 (1 ∷ [])) 14 len in
    ap (λ (xs : List ℕ). put_bytes (put_bytes (put_bytes (marked xs) 18 len) 22 buf) 0 total)
      (replicate-append 22 n 0)
    ∙ ap (λ (xs : List ℕ). put_bytes xs 0 total)
        (put_last (zero4 ++ (le_bytes 4 t ++ (le_bytes 4 1 ++ (0 ∷ 1 ∷ (len ++ len))))) buf n 22
          refl refl)
query_data_lem t false buf =
    let n = length buf in
    let len = le_bytes 4 n in
    let total = le_bytes 4 (18 + n) in
    let start = λ (xs : List ℕ). put_bytes (put_bytes xs 4 (le_bytes 4 t)) 8 (le_bytes 4 1) in
    ap
      (λ (xs : List ℕ).
        put_bytes (put_bytes (put_bytes (put_bytes (start xs) 12 (0 ∷ [])) 14 len) 18 buf) 0 total)
      (replicate-append 18 n 0)
    ∙ ap (λ (xs : List ℕ). put_bytes xs 0 total)
        (put_last (zero4 ++ (le_bytes 4 t ++ (le_bytes 4 1 ++ (0 ∷ 0 ∷ len)))) buf n 18 refl refl)

one_value_lem :
    (t : ℕ) (b : Bool) (buf : List ℕ) → one_value t b buf ≡ layout b t (some buf ∷ []) buf
unfolding header_length
one_value_lem t true buf = ap (λ (n : ℕ). le_bytes 4 n ++ drop 4 (one_value t true buf)) sum
  where
    sum : 22 + length buf ≡ length buf + 22
    sum = omega arith
one_value_lem t false buf = ap (λ (n : ℕ). le_bytes 4 n ++ drop 4 (one_value t false buf)) sum
  where
    sum : 18 + length buf ≡ length buf + 18
    sum = omega arith

-- It is a column of one row, for a type that says itself whether there is a length.
row_lem :
    (t : ℕ) (b : Bool) (buf : List ℕ)
    → variable t ≡ b
    → code t ≡ t
    → query_data t b buf ≡ column (variable t) (code t) (some buf ∷ []) buf
row_lem t b buf e f =
    query_data_lem t b buf
    ∙ one_value_lem t b buf
    ∙ layout_lem b t (some buf ∷ []) buf
    ∙ ap (λ (c : Bool). column c t (some buf ∷ []) buf) (sym e)
    ∙ ap (λ (n : ℕ). column (variable t) n (some buf ∷ []) buf) (sym f)

-- A column of one row, of the type `t`.
abbrev one_row : ℕ → List ℕ → Result (List ℕ)
one_row t buf = ok (column (variable t) (code t) (some buf ∷ []) buf)

-- What the client library takes for a value, Go type by Go type, with the numbers of the types of
-- TDengine.
abbrev pub expected_query : (ℕ → List ℕ) → Value → Result (List ℕ)
expected_query format_time null = err unsupported_type
expected_query format_time other = err unsupported_type
expected_query format_time (bool x) = one_row 1 ((if x then 1 else 0) ∷ [])
expected_query format_time (int8 x) = one_row 2 (le_bytes 1 x)
expected_query format_time (int16 x) = one_row 3 (le_bytes 2 x)
expected_query format_time (int32 x) = one_row 4 (le_bytes 4 x)
expected_query format_time (int64 x) = one_row 5 (le_bytes 8 x)
expected_query format_time (float32 x) = one_row 6 (le_bytes 4 x)
expected_query format_time (float64 x) = one_row 7 (le_bytes 8 x)
expected_query format_time (uint8 x) = one_row 11 (le_bytes 1 x)
expected_query format_time (uint16 x) = one_row 12 (le_bytes 2 x)
expected_query format_time (uint32 x) = one_row 13 (le_bytes 4 x)
expected_query format_time (uint64 x) = one_row 14 (le_bytes 8 x)
expected_query format_time (time x) = one_row 8 (format_time x)
expected_query format_time (bytes x) = one_row 8 x
expected_query format_time (text x) = one_row 8 x

-- `generateBindQueryData` gives the bytes of a column of one row, without nulls, for a value of
-- every Go type that it knows: a bool is of type 1, an int8 to an int64 of 2 to 5, a float of 6 or 7,
-- a uint8 to a uint64 of 11 to 14, and a text, bytes or a time, as `time.Time.Format` writes it, are
-- binary, of type 8, with a length. For nil and for other types it gives an error.
pub generate_bind_query_data-expected :
    (format_time : ℕ → List ℕ) (v : Value)
    → generate_bind_query_data format_time v ≡ expected_query format_time v
unfolding generate_bind_query_data
generate_bind_query_data-expected format_time null = refl
generate_bind_query_data-expected format_time other = refl
generate_bind_query_data-expected format_time (bool x) =
    ap ok (row_lem 1 false ((if x then 1 else 0) ∷ []) refl refl)
generate_bind_query_data-expected format_time (int8 x) =
    ap ok (row_lem 2 false (le_bytes 1 x) refl refl)
generate_bind_query_data-expected format_time (int16 x) =
    ap ok (row_lem 3 false (le_bytes 2 x) refl refl)
generate_bind_query_data-expected format_time (int32 x) =
    ap ok (row_lem 4 false (le_bytes 4 x) refl refl)
generate_bind_query_data-expected format_time (int64 x) =
    ap ok (row_lem 5 false (le_bytes 8 x) refl refl)
generate_bind_query_data-expected format_time (float32 x) =
    ap ok (row_lem 6 false (le_bytes 4 x) refl refl)
generate_bind_query_data-expected format_time (float64 x) =
    ap ok (row_lem 7 false (le_bytes 8 x) refl refl)
generate_bind_query_data-expected format_time (uint8 x) =
    ap ok (row_lem 11 false (le_bytes 1 x) refl refl)
generate_bind_query_data-expected format_time (uint16 x) =
    ap ok (row_lem 12 false (le_bytes 2 x) refl refl)
generate_bind_query_data-expected format_time (uint32 x) =
    ap ok (row_lem 13 false (le_bytes 4 x) refl refl)
generate_bind_query_data-expected format_time (uint64 x) =
    ap ok (row_lem 14 false (le_bytes 8 x) refl refl)
generate_bind_query_data-expected format_time (time x) =
    ap ok (row_lem 8 true (format_time x) refl refl)
generate_bind_query_data-expected format_time (bytes x) = ap ok (row_lem 8 true x refl refl)
generate_bind_query_data-expected format_time (text x) = ap ok (row_lem 8 true x refl refl)
