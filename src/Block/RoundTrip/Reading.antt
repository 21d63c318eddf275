-- ===== src/Block/RoundTrip/Reading.antt =====
-- Reading a column (driver/common/parser/block.go) out of a block that holds it.
use taosadapter.Common.{
  ℕ, suc, ◌+◌, ◌*◌, ◌/◌, ◌^◌, ◌≤◌, ◌<◌, ◌≡◌, refl, ap, true, false, List, [], ◌∷◌, ◌++◌, Option,
  none, some, arith, length, map,
}
use taosadapter.Common.Bytes.{read_le, read_bytes}
use taosadapter.Common.Bytes.Reads.{Agree-part, read_le_part, read_bytes_part}
use taosadapter.Block.{add_pointer, is_var_data_type}
use taosadapter.Block.Bitmap.{bitmap_len, item_is_null, null_bit}
use taosadapter.Block.Serialize.{TaosValue, Result, ok}
use taosadapter.Block.Parse.{
  Value, null, sign_extend, raw_convert, raw_convert_var_data, item_raw_block,
}
use taosadapter.Block.Parse.Blocks.{data_start, read_rows}
use taosadapter.Block.RoundTrip.Fixed.{RowsHold}
use taosadapter.Block.RoundTrip.Marked.{null_at}
use taosadapter.Block.RoundTrip.Values.{IsSized, AllSized}
use taosadapter.Block.RoundTrip.Var.{VarHolds, ValueAt}

pub add_pointer_small : (p n : ℕ) → p + n < 2 ^ 64 → add_pointer p n ≡ p + n
unfolding add_pointer
add_pointer_small p n h = omega arith

row_inside : (width row rows : ℕ) → row < rows → row * width + width ≤ rows * width
row_inside width row rows h = grind arith

-- A column `body` behind `pre`, in a block that is too short for a pointer to wrap.
module _ (pre body post : List ℕ) (small : length pre + length body < 2 ^ 63)
    (to_time : ℕ → Option Value) (value : Option TaosValue → Value)
    (value_null : value none ≡ null) where
  abbrev mem : List ℕ
  mem = pre ++ (body ++ post)

  -- The type `t` of fixed length: `conv` turns the bits of a row into its value.
  module _ (t width rows : ℕ) (take : TaosValue → Result ℕ) (conv : ℕ → Value)
      (fixed : is_var_data_type t ≡ false)
      (size : length body ≡ bitmap_len rows + rows * width) where
    abbrev start : ℕ
    start = data_start t (length pre) rows

    start_lem : start ≡ length pre + bitmap_len rows
    unfolding data_start
    start_lem = rw fixed (add_pointer_small (length pre) (bitmap_len rows) (omega arith))

    is_null_lem : (row : ℕ) → row < rows → item_is_null mem (length pre) row ≡ null_at body row
    unfolding item_is_null bitmap_len
    is_null_lem row h =
        let p = add_pointer_small (length pre) (row / 8) (omega arith) in
        rw p (
          ap (λ o. null_bit o row)
            ((Agree-part 1 pre body post (length pre + row / 8) (row / 8) refl (omega arith)).0))

    value_lem :
        (row x : ℕ)
        → row < rows
        → read_le width body (row * width + bitmap_len rows) ≡ some x
        → read_le width mem (add_pointer start (row * width)) ≡ some x
    value_lem row x h e =
        let inside = row_inside width row rows h in
        let at = start_lem in
        let p = add_pointer_small start (row * width) (omega arith) in
        rw p (read_le_part pre body post width (row * width + bitmap_len rows) _ x (omega arith) e)

    pub read_fixed :
        ((row x : ℕ)
          → read_le width mem (add_pointer start (row * width)) ≡ some x
          → raw_convert mem t start row to_time ≡ some (conv x))
        → ((v : TaosValue) (x : ℕ) → take v ≡ ok x → value (some v) ≡ conv x)
        → (row : ℕ) (vs : List (Option TaosValue)) → row + length vs ≤ rows
        → RowsHold width (bitmap_len rows) take body row vs
        → read_rows mem t (length pre) start to_time row (length vs) ≡ some (map value vs)
    unfolding read_rows item_raw_block
    read_fixed converts values row [] fit has = refl
    read_fixed converts values row (none ∷ vs) fit has = rw (
      fixed,
      is_null_lem row (omega arith),
      has.0,
      read_fixed converts values (suc row) vs (omega arith) has.1,
      value_null,
    )
    read_fixed converts values row (some v ∷ vs) fit (clear, (x, taken, read), has) = rw (
      fixed,
      is_null_lem row (omega arith),
      clear,
      converts row x (value_lem row x (omega arith) read),
      read_fixed converts values (suc row) vs (omega arith) has,
      values v x taken,
    )

  -- The type `t` of variable length.
  module _ (t rows : ℕ) (take : TaosValue → Result (List ℕ)) (var : is_var_data_type t ≡ true)
      (room : 4 * rows ≤ length body) where
    var_start_lem : data_start t (length pre) rows ≡ length pre + 4 * rows
    unfolding data_start
    var_start_lem = rw var (add_pointer_small (length pre) (4 * rows) (omega arith))

    -- The bytes of a value lie in the column.
    abbrev FoundAt : ℕ → List ℕ → Type 0
    FoundAt o p =
        (read_le 2 mem (add_pointer (data_start t (length pre) rows) (sign_extend o))
          ≡ some (length p))
        × (read_bytes (length p) mem
              (add_pointer (add_pointer (data_start t (length pre) rows) (sign_extend o)) 2)
            ≡ some p)

    found_lem : (o : ℕ) (p : List ℕ) → ValueAt rows take body o p → FoundAt o p
    unfolding sign_extend
    found_lem o p (small_o, prefix, found) =
        let at = var_start_lem in
        let here : sign_extend o ≡ o = ground arith in
        let there = add_pointer_small (data_start t (length pre) rows) o (omega arith) in
        let after = add_pointer_small (data_start t (length pre) rows + o) 2 (omega arith) in
        rw (here, there, after)
          (
            read_le_part pre body post 2 (4 * rows + o) _ (length p) (omega arith) prefix,
            read_bytes_part pre body post (length p) (4 * rows + o + 2) _ p (omega arith) found,
          )

    offset_lem :
        (row x : ℕ)
        → row < rows
        → read_le 4 body (4 * row) ≡ some x
        → read_le 4 mem (add_pointer (length pre) (row * 4)) ≡ some x
    offset_lem row x h e =
        let p = add_pointer_small (length pre) (row * 4) (omega arith) in
        rw p (read_le_part pre body post 4 (4 * row) _ x (omega arith) e)

    pub read_var :
        ((row : ℕ)
          → read_le 4 mem (add_pointer (length pre) (row * 4)) ≡ some 0xffff_ffff
          → raw_convert_var_data mem t (length pre) (data_start t (length pre) rows) row
            ≡ some null)
        → ((row o : ℕ) (v : TaosValue) (p : List ℕ)
            → o < 2 ^ 31
            → IsSized v
            → take v ≡ ok p
            → read_le 4 mem (add_pointer (length pre) (row * 4)) ≡ some o
            → FoundAt o p
            → raw_convert_var_data mem t (length pre) (data_start t (length pre) rows) row
              ≡ some (value (some v)))
        → (row : ℕ) (vs : List (Option TaosValue)) → row + length vs ≤ rows
        → AllSized vs
        → VarHolds rows take body row vs
        → read_rows mem t (length pre) (data_start t (length pre) rows) to_time row (length vs)
          ≡ some (map value vs)
    unfolding read_rows item_raw_block
    read_var nulls values row [] fit sized has = refl
    read_var nulls values row (none ∷ vs) fit sized has = rw (
      var,
      nulls row (offset_lem row 0xffff_ffff (omega arith) has.0),
      read_var nulls values (suc row) vs (omega arith) sized has.1,
      value_null,
    )
    read_var nulls values row (some v ∷ vs) fit sized ((p, o, taken, offset, found), has) = rw (
      var,
      values row o v p found.0 sized.0 taken (offset_lem row o (omega arith) offset)
          (found_lem o p found),
      read_var nulls values (suc row) vs (omega arith) sized.1 has,
    )
