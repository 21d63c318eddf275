-- ===== src/Block/RoundTrip/Column.antt =====
-- One column: what `SerializeRawBlock` writes for it, and what the parser's loop reads there.
use taosadapter.Common.{
  ℕ, ◌+◌, ◌*◌, ◌^◌, ◌≤◌, ◌<◌, ◌≡◌, refl, subst, ◌∙◌, List, [], ◌∷◌, ◌++◌, Option, none, some, arith,
  length, map, replicate, length-replicate,
}
use taosadapter.Common.Bytes.{le_bytes}
use taosadapter.Block.{add_pointer, type_length}
use taosadapter.Block.Bitmap.{bitmap_len}
use taosadapter.Block.Serialize.{TaosValue, Result, ok, bind_ok}
use taosadapter.Block.Serialize.Columns.{Column, fixed_rows, fixed_column, var_rows, var_column}
use taosadapter.Block.Parse.{Value, sign_extend}
use taosadapter.Block.Parse.Blocks.{data_start, read_rows}
use taosadapter.Block.RoundTrip.Fixed.{Fits, fixed_rows-RowsHold}
use taosadapter.Block.RoundTrip.Var.{VarFits, var_rows-VarHolds, var_rows_size}
use taosadapter.Block.RoundTrip.Values.{value_of, AllSized}
use taosadapter.Block.RoundTrip.Reading.{read_fixed, read_var, add_pointer_small}
use taosadapter.Block.RoundTrip.Codecs.{FixedCodec}
use taosadapter.Block.RoundTrip.VarCodecs.{VarCodec}

advance : (s d total : ℕ) → s + d ≡ total → total < 2 ^ 31 → add_pointer s (sign_extend d) ≡ total
unfolding sign_extend add_pointer
advance s d total e h = ground arith

module _ (to_time : ℕ → Option Value) (show : ℕ → Value)
    (shows : (ts : ℕ) → to_time ts ≡ some (show ts)) (pre post : List ℕ) (rows : ℕ)
    (vs : List (Option TaosValue)) (full : length vs ≡ rows) (sized : AllSized vs) (c : Column)
    (small : length pre + length c.body < 2 ^ 31) where
  -- The reader finds the values at the column's place, and its length leads to the next column.
  abbrev pub ReadsBack : ℕ → Type 0
  ReadsBack t =
      (read_rows (pre ++ (c.body ++ post)) t (length pre) (data_start t (length pre) rows) to_time 0
          rows
        ≡ some (map (value_of show) vs))
      × ((d : ℕ) × (c.lengths ≡ le_bytes 4 d)
          × (d < 2 ^ 31)
          × (add_pointer (data_start t (length pre) rows) (sign_extend d)
              ≡ length pre + length c.body))
      × ((w : ℕ) × (c.info ≡ t ∷ le_bytes 4 w))

  widths_hold :
      (t width : ℕ) (take : TaosValue → Result ℕ) (conv : ℕ → Value) (us : List (Option TaosValue))
      → FixedCodec to_time show shows t width take conv
      → AllSized us
      → Fits width (bitmap_len rows) take us
  widths_hold t width take conv [] k s = tt
  widths_hold t width take conv (none ∷ us) k s = widths_hold t width take conv us k s
  widths_hold t width take conv (some v ∷ us) k s =
      (λ x e. (k.values v x e).1 s.0, widths_hold t width take conv us k s.1)

  fixed_column_parts :
      (t width : ℕ) (take : TaosValue → Result ℕ)
      → type_length t ≡ width
      → fixed_column t take rows vs ≡ ok c
      → (fixed_rows width take
            (bitmap_len rows)
            0
            rows
            vs
            (replicate (bitmap_len rows + rows * width) 0)
          ≡ ok c.body)
        × (c.info ≡ t ∷ le_bytes 4 width)
        × (c.lengths ≡ le_bytes 4 (width * rows))
  unfolding fixed_column
  fixed_column_parts t width take w e =
      let (b, made, e') =
        bind_ok
          (fixed_rows (type_length t) take (bitmap_len rows) 0 rows vs
            (replicate (bitmap_len rows + rows * type_length t) 0))
          _ e in
      (rw (← w) (made ∙ cc), rw (← w) (cc), rw (← w) (cc))

  bitmap_covers : rows ≤ 8 * bitmap_len rows
  unfolding bitmap_len
  bitmap_covers = omega arith

  pub fixed_column-ReadsBack :
      (t width : ℕ) (take : TaosValue → Result ℕ) (conv : ℕ → Value)
      → FixedCodec to_time show shows t width take conv
      → fixed_column t take rows vs ≡ ok c
      → ReadsBack t
  unfolding data_start
  fixed_column-ReadsBack t width take conv k e =
      let (made, info, lengths) = fixed_column_parts t width take k.is_wide e in
      let (holds, size) =
        fixed_rows-RowsHold width (bitmap_len rows) take rows vs c.body full bitmap_covers
          (widths_hold t width take conv vs k sized) made in
      let at = add_pointer_small (length pre) (bitmap_len rows) (omega arith) in
      (
        subst
            (λ (n : ℕ).
              read_rows (pre ++ (c.body ++ post)) t (length pre) (data_start t (length pre) rows)
                to_time 0 n
              ≡ some (map (value_of show) vs))
            full
            (read_fixed pre c.body post (omega arith) to_time (value_of show) refl t width rows take
              conv k.is_fixed size (k.converts (pre ++ (c.body ++ post)) _)
              (λ v x taken. (k.values v x taken).0) 0 vs (omega arith) holds),
        (
          width * rows,
          lengths,
          omega arith,
          rw (k.is_fixed, at)
              (advance (length pre + bitmap_len rows) (width * rows) _ (omega arith) small),
        ),
        (width, info),
      )

  var_column_parts :
      (t : ℕ) (take : TaosValue → Result (List ℕ))
      → var_column t take rows vs ≡ ok c
      → (len : ℕ) × (var_rows take 0 rows vs 0 (replicate (4 * rows) 0) ≡ ok (len, c.body))
        × (c.info ≡ t ∷ le_bytes 4 0)
        × (c.lengths ≡ le_bytes 4 len)
  unfolding var_column
  var_column_parts t take e =
      let ((len, b), made, e') = bind_ok (var_rows take 0 rows vs 0 (replicate (4 * rows) 0)) _ e in
      (len, made ∙ cc, cc, cc)

  short_all :
      (t : ℕ) (take : TaosValue → Result (List ℕ)) (us : List (Option TaosValue))
      → VarCodec show t take
      → AllSized us
      → VarFits rows take us
  short_all t take [] k s = tt
  short_all t take (none ∷ us) k s = short_all t take us k s
  short_all t take (some v ∷ us) k s = (λ p e. k.short v p s.0 e, short_all t take us k s.1)

  pub var_column-ReadsBack :
      (t : ℕ) (take : TaosValue → Result (List ℕ))
      → VarCodec show t take
      → var_column t take rows vs ≡ ok c
      → ReadsBack t
  unfolding data_start
  var_column-ReadsBack t take k e =
      let (len, made, info, lengths) = var_column_parts t take e in
      let sum = var_rows_size rows take 0 rows vs 0 len (replicate (4 * rows) 0) c.body made in
      let zeros = length-replicate {A = ℕ} (4 * rows) 0 in
      let (holds, size) =
        var_rows-VarHolds rows take vs len c.body full (omega arith) (short_all t take vs k sized)
          made in
      let at = add_pointer_small (length pre) (4 * rows) (omega arith) in
      (
        subst
            (λ (n : ℕ).
              read_rows (pre ++ (c.body ++ post)) t (length pre) (data_start t (length pre) rows)
                to_time 0 n
              ≡ some (map (value_of show) vs))
            full
            (read_var pre c.body post (omega arith) to_time (value_of show) refl t rows take
              k.is_var (omega arith)
              (λ row off. k.nulls (pre ++ (c.body ++ post)) (length pre) _ row off)
              (λ row o v p small_o sz taken off found.
                k.values (pre ++ (c.body ++ post)) (length pre) _ row o v p small_o sz taken off
                  found.0 found.1)
              0 vs (omega arith) sized holds),
        (
          len,
          lengths,
          omega arith,
          rw (k.is_var, at) (advance (length pre + 4 * rows) len _ (omega arith) small),
        ),
        (0, info),
      )
