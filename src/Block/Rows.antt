-- ===== src/Block/Rows.antt =====
-- One row or the whole block: `ReadRow` and `ReadBlock` of driver/common/parser/block.go.
use taosadapter.Common.{
  ℕ, zero, suc, ◌+◌, ◌*◌, ◌<◌, ◌≡◌, refl, sym, subst, ◌∙◌, ap, append_assoc, append-nil, List, [],
  ◌∷◌, ◌++◌, Option, none, some, arith, length, get_elem?, replicate,
}
use taosadapter.Common.Bytes.{read_le}
use taosadapter.Block.{add_pointer}
use taosadapter.Block.Parse.{
  Value, ◌>>=◌, sign_extend, item_raw_block, raw_block_get_column_length_offset,
  raw_block_get_col_data_offset, time_by_precision,
}
use taosadapter.Block.Parse.Blocks.{
  data_start, read_rows, has_convert, read_columns, put_column, put_columns,
  read_block_with_time_format, read_block, read_row_columns, read_row,
}

bind_some {ℓ κ} :
    {B : Type κ} {out : B} {A : Type ℓ} (first : Option A) (next : A → Option B)
    → (first >>= next) ≡ some out
    → (x : A) × (first ≡ some x) × (next x ≡ some out)
bind_some none next e = cc
bind_some (some x) next e = (x, refl, e)

-- The value of row `i` of a column is the item there.
read_rows_item :
    (b : List ℕ) (t header start : ℕ) (to_time : ℕ → Option Value) (row n i at : ℕ)
    (vs : List Value)
    → read_rows b t header start to_time row n ≡ some vs
    → i < n
    → at ≡ row + i
    → (v : Value) × (item_raw_block b t header start at to_time ≡ some v)
      × (get_elem? vs i ≡ some v)
unfolding read_rows
read_rows_item b t header start to_time row zero i at vs e h same = absurd (omega arith)
read_rows_item b t header start to_time row (suc n) zero at vs e h same =
    let (v, one, e1) = bind_some (item_raw_block b t header start row to_time) _ e in
    let (rest, more, e2) = bind_some (read_rows b t header start to_time (suc row) n) _ e1 in
    let whole : vs ≡ v ∷ rest = cc in
    let here : at ≡ row = omega arith in (v, rw here one, rw whole refl)
read_rows_item b t header start to_time row (suc n) (suc i) at vs e h same =
    let (v, one, e1) = bind_some (item_raw_block b t header start row to_time) _ e in
    let (rest, more, e2) = bind_some (read_rows b t header start to_time (suc row) n) _ e1 in
    let whole : vs ≡ v ∷ rest = cc in
    let (w, item, found) =
      read_rows_item b t header start to_time (suc row) n i at rest more (omega arith)
        (omega arith) in
    (w, item, rw whole found)

-- The values of row `i` of some columns.
abbrev AllAt : ℕ → List (List Value) → List Value → Type 0
AllAt i [] [] = Unit {0}
AllAt i [] (v ∷ r) = ⊥
AllAt i (c ∷ cs) [] = ⊥
AllAt i (c ∷ cs) (v ∷ r) = (get_elem? c i ≡ some v) × AllAt i cs r

row_step :
    (b : List ℕ) (rows lengths : ℕ) (to_time : ℕ → Option Value) (i col header t : ℕ) (ts : List ℕ)
    (len : ℕ) (u : Unit {0}) (v : Value) (r : List Value)
    → read_le 4 b (add_pointer lengths (col * 4)) ≡ some len
    → has_convert t ≡ some u
    → item_raw_block b t header (data_start t header rows) i to_time ≡ some v
    → read_row_columns b rows lengths to_time i
        (suc col)
        (add_pointer (data_start t header rows) (sign_extend len))
        ts
      ≡ some r
    → read_row_columns b rows lengths to_time i col header (t ∷ ts) ≡ some (v ∷ r)
unfolding read_row_columns
row_step b rows lengths to_time i col header t ts len u v r is_len known item rest =
    rw (is_len, known, item, rest)

read_row_columns_lem :
    (b : List ℕ) (rows lengths : ℕ) (to_time : ℕ → Option Value) (i col header : ℕ) (ts : List ℕ)
    (cs : List (List Value))
    → read_columns b rows lengths to_time col header ts ≡ some cs
    → i < rows
    → (r : List Value) × (read_row_columns b rows lengths to_time i col header ts ≡ some r)
      × AllAt i cs r
unfolding read_columns read_row_columns
read_row_columns_lem b rows lengths to_time i col header [] cs e h =
    let none_left : cs ≡ [] = ground arith in
    ([], refl, subst (λ (x : List (List Value)). AllAt i x []) (sym none_left) tt)
read_row_columns_lem b rows lengths to_time i col header (t ∷ ts) cs e h =
    let (len, is_len, e1) = bind_some (read_le 4 b (add_pointer lengths (col * 4))) _ e in
    let (u, known, e2) = bind_some (has_convert t) _ e1 in
    let start = data_start t header rows in
    let (vs, column, e3) = bind_some (read_rows b t header start to_time 0 rows) _ e2 in
    let next = add_pointer start (sign_extend len) in
    let (rest, columns, e4) =
      bind_some (read_columns b rows lengths to_time (suc col) next ts) _ e3 in
    let same : cs ≡ vs ∷ rest = cc in
    let (v, item, found) =
      read_rows_item b t header start to_time 0 rows i i vs column h (omega arith) in
    let (r, row, all) =
      read_row_columns_lem b rows lengths to_time i (suc col) next ts rest columns h in
    (
      v ∷ r,
      row_step b rows lengths to_time i col header t ts len u v r is_len known item row,
      subst (λ (x : List (List Value)). AllAt i x (v ∷ r)) (sym same) (found, all),
    )

put_column_lem :
    (rs : List (List Value)) (c : List Value) (i : ℕ) (acc : List Value) (v : Value)
    → get_elem? rs i ≡ some acc
    → get_elem? c i ≡ some v
    → get_elem? (put_column rs c) i ≡ some (acc ++ (v ∷ []))
unfolding put_column
put_column_lem [] c i acc v e f = cc
put_column_lem (r ∷ rs) [] i acc v e f = cc
put_column_lem (r ∷ rs) (w ∷ c) zero acc v e f =
    let a : r ≡ acc = cc in let b : w ≡ v = cc in rw (a, b) refl
put_column_lem (r ∷ rs) (w ∷ c) (suc i) acc v e f = put_column_lem rs c i acc v e f

put_columns_lem :
    (cs : List (List Value)) (rs : List (List Value)) (i : ℕ) (acc r : List Value)
    → get_elem? rs i ≡ some acc
    → AllAt i cs r
    → get_elem? (put_columns rs cs) i ≡ some (acc ++ r)
unfolding put_columns
put_columns_lem [] rs i acc [] e all = rw (append-nil acc) e
put_columns_lem [] rs i acc (v ∷ r) e all = absurd all
put_columns_lem (c ∷ cs) rs i acc [] e all = absurd all
put_columns_lem (c ∷ cs) rs i acc (v ∷ r) e (one, all) =
    put_columns_lem cs (put_column rs c) i (acc ++ (v ∷ [])) r (put_column_lem rs c i acc v e one)
      all
    ∙ ap some (append_assoc acc (v ∷ []) r)

get_elem?-replicate : (n i : ℕ) → i < n → get_elem? (replicate {A = List Value} n []) i ≡ some []
get_elem?-replicate zero i h = absurd (omega arith)
get_elem?-replicate (suc n) zero h = refl
get_elem?-replicate (suc n) (suc i) h = get_elem?-replicate n i (omega arith)

-- On any block, types, row count and precision for which `ReadBlock` gives a table, `ReadRow` of a
-- row below the row count gives that row of the table.
pub read_row-read_block :
    (b : List ℕ) (rows i : ℕ) (types : List ℕ) (precision : ℕ) (table : List (List Value))
    → read_block b rows types precision ≡ some table
    → i < rows
    → read_row b rows i types precision ≡ get_elem? table i
unfolding read_block read_block_with_time_format read_row
read_row-read_block b rows i types precision table e h =
    let cols = length types in
    let lengths = raw_block_get_column_length_offset cols in
    let header = raw_block_get_col_data_offset cols in
    let (cs, columns, e1) =
      bind_some (read_columns b rows lengths (time_by_precision precision) 0 header types) _ e in
    let (r, row, all) =
      read_row_columns_lem b rows lengths (time_by_precision precision) i 0 header types cs columns
        h in
    let same : table ≡ put_columns (replicate rows []) cs = cc in
    row
    ∙ sym (
        ap (λ (x : List (List Value)). get_elem? x i) same
        ∙ put_columns_lem cs (replicate rows []) i [] r (get_elem?-replicate rows i h) all)
