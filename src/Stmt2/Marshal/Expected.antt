-- ===== src/Stmt2/Marshal/Expected.antt =====
-- What `MarshalStmt2Binary` of driver/common/stmt/stmt2.go is to make of the tables, written down
-- apart from its loops: conditions on all tables, and the bytes of each table.
use taosadapter.Common.{
  ℕ, ◌+◌, ◌≡◌, refl, ap, ◌∙◌, Bool, true, false, not, ◌||◌, ltb, List, [], ◌∷◌, Option, none, some,
  arith, ◌==◌, if◌then◌else◌, length,
}
use taosadapter.Stmt2.{
  Value, Error, Result, ok, err, empty_data, tag_count_not_match, col_count_not_match,
  query_tag_types, query_col_types, query_one_data, query_table_name, query_tag, query_no_col,
  query_one_row, ◌>>=◌,
}
use taosadapter.Stmt2.Marshal.{
  BindData, is_empty, check_insert, one_row_each, check_query, check_data,
}

-- The first condition that holds is the error.
abbrev pub first : List (Bool × Error) → Option Error
first [] = none
first ((holds, e) ∷ faults) = if holds then some e else first faults

abbrev pub unless : {A : Type 0} → Option Error → A → Result A
unless none a = ok a
unless (some e) a = err e

abbrev any_table : (BindData → Bool) → List BindData → Bool
any_table test [] = false
any_table test (d ∷ tables) = test d || any_table test tables

abbrev is_named : BindData → Bool
is_named d = ltb 0 (length d.table_name)

abbrev insert_faults : ℕ → ℕ → List BindData → List (Bool × Error)
insert_faults tags cols [] = []
insert_faults tags cols (d ∷ tables) =
    (not (length d.tags == tags), tag_count_not_match)
    ∷ (not (length d.cols == cols), col_count_not_match)
    ∷ insert_faults tags cols tables

abbrev not_one_row : List (List Value) → Bool
not_one_row [] = false
not_one_row (col ∷ cols) = not (length col == 1) || not_one_row cols

abbrev query_faults : ℕ → ℕ → List BindData → List (Bool × Error)
query_faults tags cols tables =
    (ltb 0 tags, query_tag_types)
    ∷ (ltb 0 cols, query_col_types)
    ∷ (not (length tables == 1), query_one_data)
    ∷ (any_table is_named tables, query_table_name)
    ∷ (any_table (λ d. ltb 0 (length d.tags)) tables, query_tag)
    ∷ (any_table (λ d. length d.cols == 0) tables, query_no_col)
    ∷ (any_table (λ d. not_one_row d.cols) tables, query_one_row)
    ∷ []

abbrev pub columns : List BindData → ℕ
columns [] = 0
columns (d ∷ tables) = length d.cols + columns tables

-- The error of the checks, or whether there are names, and the number of columns.
abbrev pub checks : List BindData → Bool → ℕ → ℕ → Result (Bool × ℕ)
checks [] is_insert tags cols = err empty_data
checks (d ∷ tables) true tags cols =
    unless (first (insert_faults tags cols (d ∷ tables))) (any_table is_named (d ∷ tables), cols)
checks (d ∷ tables) false tags cols =
    unless (first (query_faults tags cols (d ∷ tables))) (false, columns (d ∷ tables))

not_empty : {A : Type 0} (xs : List A) → not (is_empty xs) ≡ ltb 0 (length xs)
not_empty [] = refl
not_empty (x ∷ xs) = ground arith

empty_length : {A : Type 0} (xs : List A) → is_empty xs ≡ (length xs == 0)
empty_length [] = refl
empty_length (x ∷ xs) = ground arith

unless-bind :
    {A B : Type 0} (o : Option Error) (a : A) (f : A → B)
    → (unless o a >>= λ x. ok (f x)) ≡ unless o (f a)
unless-bind none a f = refl
unless-bind (some e) a f = refl

insert_round :
    (b c e n : Bool) (o : Option Error)
    → (if b
        then err tag_count_not_match
        else if c
        then err col_count_not_match
        else (unless o n >>= λ m. ok (e || m)))
      ≡ unless
          (if b then some tag_count_not_match else if c then some col_count_not_match else o)
          (e || n)
insert_round true c e n o = refl
insert_round false true e n o = refl
insert_round false false e n o = unless-bind o n (λ m. e || m)

insert_lem :
    (tags cols : ℕ) (tables : List BindData)
    → check_insert tags cols tables
      ≡ unless (first (insert_faults tags cols tables)) (any_table is_named tables)
unfolding check_insert
insert_lem tags cols [] = refl
insert_lem tags cols (d ∷ tables) =
    ap
      (λ (r : Result Bool).
        if not (length d.tags == tags)
        then err tag_count_not_match
        else if not (length d.cols == cols)
        then err col_count_not_match
        else (r >>= λ named. ok (not (is_empty d.table_name) || named)))
      (insert_lem tags cols tables)
    ∙ insert_round (not (length d.tags == tags)) (not (length d.cols == cols))
        (not (is_empty d.table_name)) (any_table is_named tables)
        (first (insert_faults tags cols tables))
    ∙ ap
        (λ (b : Bool).
          unless (first (insert_faults tags cols (d ∷ tables))) (b || any_table is_named tables))
        (not_empty d.table_name)

one_row_lem :
    (cols : List (List Value))
    → one_row_each cols
      ≡ unless (if not_one_row cols then some query_one_row else none) (length cols)
one_row_lem [] = refl
one_row_lem (col ∷ cols) = ground (arith, one_row_lem cols)

query_lem :
    (tags cols : ℕ) (d : BindData) (tables : List BindData)
    → check_query tags cols (d ∷ tables)
      ≡ unless (first (query_faults tags cols (d ∷ tables))) (columns (d ∷ tables))
unfolding check_query
query_lem tags cols d [] =
    ground
      (arith, one_row_lem d.cols, not_empty d.table_name, not_empty d.tags, empty_length d.cols)
query_lem tags cols d (d' ∷ tables) = ground arith

pub checks_lem :
    (tables : List BindData) (is_insert : Bool) (tags cols : ℕ)
    → check_data tables is_insert tags cols ≡ checks tables is_insert tags cols
checks_lem [] is_insert tags cols = refl
checks_lem (d ∷ tables) true tags cols =
    let pair : Bool → Bool × ℕ = λ named. (named, cols) in
    ap (λ (r : Result Bool). r >>= λ named. ok (pair named)) (insert_lem tags cols (d ∷ tables))
    ∙ unless-bind (first (insert_faults tags cols (d ∷ tables))) (any_table is_named (d ∷ tables))
        pair
checks_lem (d ∷ tables) false tags cols =
    let pair : ℕ → Bool × ℕ = λ n. (false, n) in
    ap (λ (r : Result ℕ). r >>= λ n. ok (pair n)) (query_lem tags cols d tables)
    ∙ unless-bind (first (query_faults tags cols (d ∷ tables))) (columns (d ∷ tables)) pair
