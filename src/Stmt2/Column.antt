-- ===== src/Stmt2/Column.antt =====
-- `generateBindColData` of driver/common/stmt/stmt2.go against the layout of a bound column.
use taosadapter.Common.{
  ℕ, zero, suc, ◌*◌, ◌≡◌, refl, sym, ap, ◌∙◌, subst, Bool, true, false, List, [], ◌∷◌, ◌++◌,
  append-nil, Option, none, arith, if◌then◌else◌, length, length-replicate, replicate, Bool-cases,
  inl, inr,
}
use taosadapter.Common.Bytes.Puts.{put_bytes, put_behind, put_over}
use taosadapter.Stmt2.{
  Value, Result, ok, err, panic, unsupported_type, ◌>>=◌, need_length, is_bound_type, header_length,
  check_all_null, bind_rows, new_header, close_header, generate_bind_col_data,
}
use taosadapter.Stmt2.Expected.{
  variable, known, code, cells_in, nulls, values_in, column, expected, nulls_lem, known_lem,
  cells_lem, values_lem, column_lem,
}
use taosadapter.Stmt2.Bind.{cell, cells, flags, size, sizes, payloads, lay, no_sizes}
use taosadapter.Stmt2.Rows.{finished, bind_rows_lem}
use taosadapter.Stmt2.Header.{zero4, mark_of, front, new_header_lem, encode, close_header_lem}

-- What the code binds for a column: a column of nulls has no values at all.
abbrev bound : ℕ → ℕ → List Value → Result (List ℕ)
bound t precision values =
    if check_all_null values
    then ok (encode t (replicate (length values) none) [])
    else if is_bound_type t
    then (cells t precision values >>= λ cs. ok (encode t cs (payloads t cs)))
    else err unsupported_type

flags-replicate : (n : ℕ) → flags (replicate n none) ≡ replicate n 1
flags-replicate zero = refl
flags-replicate (suc n) = ap (λ (xs : List ℕ). 1 ∷ xs) (flags-replicate n)

sizes-replicate : (b : Bool) (n : ℕ) → sizes b (replicate n none) ≡ no_sizes b n
sizes-replicate b zero = refl
sizes-replicate b (suc n) = ap (λ (xs : List ℕ). size b none ++ xs) (sizes-replicate b n)

-- The end of the function, where the number of rows is known to be that of the cells.
closed :
    (t n : ℕ) (cs : List (Option (List ℕ))) (values : List ℕ)
    → length cs ≡ n
    → close_header
        (header_length n (need_length t))
        (lay
          (front t n)
          (flags cs)
          []
          (mark_of (need_length t))
          (sizes (need_length t) cs)
          []
          zero4)
        values
      ≡ encode t cs values
closed t n cs values e =
    subst
      (λ (m : ℕ).
        close_header (header_length m (need_length t))
          (lay (front t m) (flags cs) [] (mark_of (need_length t)) (sizes (need_length t) cs) []
            zero4)
          values
        ≡ encode t cs values)
      e (close_header_lem t cs values)

all_null_header :
    (t n : ℕ)
    → put_bytes (new_header t n) 12 (replicate n 1)
      ≡ lay
          (front t n)
          (flags (replicate n none))
          []
          (mark_of (need_length t))
          (sizes (need_length t) (replicate n none))
          []
          zero4
all_null_header t n =
    let b = need_length t in
    let rest = mark_of b ++ (no_sizes b n ++ zero4) in
    ap (λ (xs : List ℕ). put_bytes xs 12 (replicate n 1)) (new_header_lem t n)
    ∙ put_behind (front t n) (replicate n 0 ++ rest) 0 12 (replicate n 1) refl
    ∙ ap (λ (xs : List ℕ). front t n ++ xs)
        (put_over (replicate n 0) (replicate n 1) rest
          (length-replicate {A = ℕ} n 0 ∙ sym (length-replicate {A = ℕ} n 1)))
    ∙ ap (λ (xs : List ℕ). front t n ++ (xs ++ rest))
        (sym (flags-replicate n) ∙ sym (append-nil (flags (replicate n none))))
    ∙ ap
        (λ (xs : List ℕ).
          front t n ++ ((flags (replicate n none) ++ []) ++ (mark_of b ++ (xs ++ zero4))))
        (sym (sizes-replicate b n) ∙ sym (append-nil (sizes b (replicate n none))))

length_collected :
    (o : Result (Option (List ℕ))) (r : Result (List (Option (List ℕ))))
    (cs : List (Option (List ℕ))) (n : ℕ)
    → ((xs : List (Option (List ℕ))) → r ≡ ok xs → length xs ≡ n)
    → (o >>= λ c. r >>= λ xs. ok (c ∷ xs)) ≡ ok cs
    → length cs ≡ suc n
length_collected (err x) r cs n h e = cc
length_collected panic r cs n h e = cc
length_collected (ok c) (err x) cs n h e = cc
length_collected (ok c) panic cs n h e = cc
length_collected (ok c) (ok xs) cs n h e =
    let same : c ∷ xs ≡ cs = cc e in sym (ap length same) ∙ ap suc (h xs refl)

length-cells :
    (t precision : ℕ) (values : List Value) (cs : List (Option (List ℕ)))
    → cells t precision values ≡ ok cs
    → length cs ≡ length values
length-cells t precision [] cs e = let same : [] ≡ cs = cc e in sym (ap length same)
length-cells t precision (v ∷ values) cs e =
    length_collected (cell t precision v) (cells t precision values) cs (length values)
      (length-cells t precision values) e

rows_closed :
    (t n : ℕ) (r : Result (List (Option (List ℕ))))
    → ((cs : List (Option (List ℕ))) → r ≡ ok cs → length cs ≡ n)
    → ((r >>= λ cs. ok (finished t (front t n) (mark_of (need_length t)) zero4 [] [] [] cs))
        >>= λ st. ok (close_header (header_length n (need_length t)) st.0 st.1))
      ≡ r >>= λ cs. ok (encode t cs (payloads t cs))
rows_closed t n (err x) h = refl
rows_closed t n panic h = refl
rows_closed t n (ok cs) h = ap ok (closed t n cs (payloads t cs) (h cs refl))

no_row_sized : (b : Bool) → 0 ≡ (if b then 0 * 4 else 0)
no_row_sized true = omega arith
no_row_sized false = refl

generate_bind_col_data-bound :
    (t precision : ℕ) (values : List Value)
    → generate_bind_col_data t precision values ≡ bound t precision values
unfolding generate_bind_col_data
generate_bind_col_data-bound t precision values =
    let n = length values in
    let b = need_length t in
    elim (Bool-cases (check_all_null values)) [
      | inl e ↦ rw e (
          ap (λ (xs : List ℕ). ok (close_header (header_length n b) xs [])) (all_null_header t n)
          ∙ ap ok
              (closed t n (replicate n none) [] (length-replicate {A = Option (List ℕ)} n none)))
      | inr e ↦ rw e (elim (Bool-cases (is_bound_type t)) [
        | inl f ↦ rw f (
            ap (λ (xs : List ℕ). bind_rows t precision n 0 values (xs, []) >>= close n b)
              (new_header_lem t n)
            ∙ ap (λ r. r >>= close n b)
                (bind_rows_lem t precision n (front t n) (mark_of b) zero4 refl refl values 0 [] []
                  [] refl (omega arith) (no_row_sized b))
            ∙ rows_closed t n (cells t precision values) (length-cells t precision values))
        | inr f ↦ rw f refl
      ])
    ]
  where
    close : ℕ → Bool → List ℕ × List ℕ → Result (List ℕ)
    close n b st = ok (close_header (header_length n b) st.0 st.1)

-- The same, type by type.
same_column :
    (t : ℕ) (r : Result (List (Option (List ℕ))))
    → known t ≡ true
    → r >>= (λ cs. ok (encode t cs (payloads t cs)))
      ≡ r >>= (λ cs. ok (column (variable t) (code t) cs (values_in t cs)))
same_column t (err e) k = refl
same_column t panic k = refl
same_column t (ok cs) k = ap ok (
    column_lem t cs (payloads t cs)
    ∙ ap (λ (xs : List ℕ). column (variable t) (code t) cs xs) (values_lem t cs k))

same_rows :
    (t precision : ℕ) (values : List Value) (b : Bool)
    → known t ≡ b
    → (if b
        then (cells t precision values >>= λ cs. ok (encode t cs (payloads t cs)))
        else err unsupported_type)
      ≡ (if b
          then (cells_in t precision values >>= λ cs.
              ok (column (variable t) (code t) cs (values_in t cs)))
          else err unsupported_type)
same_rows t precision values false k = refl
same_rows t precision values true k =
    same_column t (cells t precision values) k
    ∙ ap (λ r. r >>= λ cs. ok (column (variable t) (code t) cs (values_in t cs)))
        (cells_lem t precision values k)

-- `generateBindColData` gives the bytes that a table of the types of TDengine, written down apart
-- from the code, has for the column, whatever the values are. A column of nulls has no values and may
-- be of any type; the type of another column has to be known, each value that is not nil has to be of
-- the Go type that goes with the column's type, and the first that is not is the error. A null has as
-- many zero bytes as a value of a fixed length has, and none for a type of variable length. A time is
-- the number that `TimeToTimestamp` gives for it, which panics for an unknown precision.
pub generate_bind_col_data-expected :
    (t precision : ℕ) (values : List Value)
    → generate_bind_col_data t precision values ≡ expected t precision values
generate_bind_col_data-expected t precision values =
    let nones = replicate (length values) none in
    let rows =
      if is_bound_type t
      then (cells t precision values >>= λ cs. ok (encode t cs (payloads t cs)))
      else err unsupported_type in
    generate_bind_col_data-bound t precision values
    ∙ ap (λ (b : Bool). if b then ok (encode t nones []) else rows) (nulls_lem values)
    ∙ ap (λ (xs : List ℕ). if nulls values then ok xs else rows) (column_lem t nones [])
    ∙ ap (λ r. if nulls values then ok (column (variable t) (code t) nones []) else r)
        (ap
            (λ (b : Bool).
              if b
              then (cells t precision values >>= λ cs. ok (encode t cs (payloads t cs)))
              else err unsupported_type)
            (known_lem t)
          ∙ same_rows t precision values (known t) refl)
