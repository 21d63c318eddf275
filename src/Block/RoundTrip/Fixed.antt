-- ===== src/Block/RoundTrip/Fixed.antt =====
-- The column of fixed length that driver/common/serializer/block.go writes: bitmap and rows.
use taosadapter.Common.{
  ℕ, zero, suc, ◌+◌, ◌*◌, ◌/◌, ◌^◌, ◌≤◌, ◌<◌, ◌≡◌, refl, ◌∙◌, true, false, List, [], ◌∷◌, Option,
  none, some, arith, inl, length, length-set, set, get_elem?, get_or, ap, replicate,
  length-replicate,
}
use taosadapter.Common.Bytes.{read_le, write_le}
use taosadapter.Common.Bytes.Reads.{
  Agree-set, Agree-write_le, read_le-Agree, read_le-write_le, length-write_le,
}
use taosadapter.Block.Bitmap.{bm_set_null, null_bit, bm_is_null_zero}
use taosadapter.Block.Serialize.{TaosValue, Result, ok, bind_ok}
use taosadapter.Block.Serialize.Columns.{fixed_rows}
use taosadapter.Block.RoundTrip.Marked.{
  AllBytes, write_le-AllBytes, null_at, marked_self, marked_ne, marked-AllBytes,
}

-- The loop over the rows from `row` on. `bitmap` bytes of bits stand before the values.
module _ (width bitmap : ℕ) (take : TaosValue → Result ℕ) where
  -- What a reader finds for the rows from `row` on.
  abbrev pub RowsHold : List ℕ → ℕ → List (Option TaosValue) → Type 0
  RowsHold b row [] = Unit {0}
  RowsHold b row (none ∷ vs) = (null_at b row ≡ some true) × RowsHold b (suc row) vs
  RowsHold b row (some v ∷ vs) =
      (null_at b row ≡ some false)
      × ((x : ℕ) × (take v ≡ ok x) × (read_le width b (row * width + bitmap) ≡ some x))
      × RowsHold b (suc row) vs

  abbrev pub Fits : List (Option TaosValue) → Type 0
  Fits [] = Unit {0}
  Fits (none ∷ vs) = Fits vs
  Fits (some v ∷ vs) = ((x : ℕ) → take v ≡ ok x → x < 256 ^ width) × Fits vs

  -- The buffer when the loop comes to row `row` with `n` rows to go.
  record Ready (b : List ℕ) (row n : ℕ) : Type 0 where
    clear : (j : ℕ) → row ≤ j → j < row + n → null_at b j ≡ some false
    bytes : AllBytes b
    room : (row + n) * width + bitmap ≤ length b
    bits : row + n ≤ 8 * bitmap

  -- The rows before `row` stay as they are.
  record Same (b c : List ℕ) (row : ℕ) : Type 0 where
    nulls : (j : ℕ) → j < row → null_at c j ≡ null_at b j
    values :
        (j : ℕ)
        → j < row
        → read_le width c (j * width + bitmap) ≡ read_le width b (j * width + bitmap)

  row_before : (j row : ℕ) → j < row → j * width + width ≤ row * width
  row_before j row h = grind arith

  Ready-marked :
      (b : List ℕ) (row n : ℕ)
      → Ready b row (suc n)
      → Ready (set b (row / 8) (bm_set_null (get_or b (row / 8) 0) row)) (suc row) n
  Ready-marked b row n r = record {
    clear = λ j lo hi.
        marked_ne b row r.bytes now j (omega arith) ∙ r.clear j (omega arith) (omega arith);
    bytes = marked-AllBytes b row r.bytes now;
    room = omega (arith, r.room, length-set b (row / 8) (bm_set_null (get_or b (row / 8) 0) row));
    bits = omega (arith, r.bits);
  }
    where
      now : null_at b row ≡ some false
      now = r.clear row (omega arith) (omega arith)

  Same-marked :
      (b : List ℕ) (row n : ℕ)
      → Ready b row (suc n)
      → Same b (set b (row / 8) (bm_set_null (get_or b (row / 8) 0) row)) row
  Same-marked b row n r = record {
    nulls =
        λ j h. marked_ne b row r.bytes (r.clear row (omega arith) (omega arith)) j (omega arith);
    values = λ j h.
        read_le-Agree width _ (j * width + bitmap) b (j * width + bitmap)
          (Agree-set width b (j * width + bitmap) (row / 8) _ (inl (omega (arith, r.bits))));
  }

  null_at-write :
      (b : List ℕ) (row x j : ℕ)
      → j < 8 * bitmap
      → null_at (write_le width b (row * width + bitmap) x) j ≡ null_at b j
  unfolding null_bit
  null_at-write b row x j h =
      rw ((Agree-write_le 1 width b (j / 8) (row * width + bitmap) x (inl (omega arith))).0)

  Ready-write :
      (b : List ℕ) (row n x : ℕ)
      → Ready b row (suc n)
      → Ready (write_le width b (row * width + bitmap) x) (suc row) n
  Ready-write b row n x r = record {
    clear = λ j lo hi.
        null_at-write b row x j (omega (arith, r.bits)) ∙ r.clear j (omega arith) (omega arith);
    bytes = write_le-AllBytes width b (row * width + bitmap) x r.bytes;
    room = omega (arith, r.room, length-write_le width b (row * width + bitmap) x);
    bits = omega (arith, r.bits);
  }

  Same-write :
      (b : List ℕ) (row n x : ℕ)
      → Ready b row (suc n)
      → Same b (write_le width b (row * width + bitmap) x) row
  Same-write b row n x r = record {
    nulls = λ j h. null_at-write b row x j (omega (arith, r.bits));
    values = λ j h. read_le-Agree width _ (j * width + bitmap) b (j * width + bitmap) (
        Agree-write_le width width b (j * width + bitmap) (row * width + bitmap) x
          (inl (omega (arith, row_before j row h))));
  }

  Same-trans : (b c d : List ℕ) (row : ℕ) → Same b c row → Same c d (suc row) → Same b d row
  Same-trans b c d row s t = record {
    nulls = λ j h. t.nulls j (omega arith) ∙ s.nulls j h;
    values = λ j h. t.values j (omega arith) ∙ s.values j h;
  }

  -- The loop keeps the rows that it has written, and leaves every row readable.
  fixed_rows_lem :
      (row : ℕ) (vs : List (Option TaosValue)) (b c : List ℕ)
      → Ready b row (length vs)
      → Fits vs
      → fixed_rows width take bitmap row (length vs) vs b ≡ ok c
      → RowsHold c row vs × Same b c row × (length c ≡ length b)
  unfolding fixed_rows
  fixed_rows_lem row [] b c r f e =
      let same : c ≡ b = ground arith in
      (tt, record { nulls = λ j h. rw same; values = λ j h. rw same }, rw same)
  fixed_rows_lem row (none ∷ vs) b c r f e =
      let b' = set b (row / 8) (bm_set_null (get_or b (row / 8) 0) row) in
      let (has, same, len) =
        fixed_rows_lem (suc row) vs b' c (Ready-marked b row (length vs) r) f e in
      (
        (
          same.nulls row (omega arith)
              ∙ marked_self b row r.bytes (r.clear row (omega arith) (omega arith)),
          has,
        ),
        Same-trans b b' c row (Same-marked b row (length vs) r) same,
        len ∙ length-set b (row / 8) _,
      )
  fixed_rows_lem row (some v ∷ vs) b c r f e =
      let (x, taken, e') = bind_ok (take v) _ e in
      let b' = write_le width b (row * width + bitmap) x in
      let (has, same, len) =
        fixed_rows_lem (suc row) vs b' c (Ready-write b row (length vs) x r) f.1 e' in
      (
        (
          same.nulls row (omega arith)
              ∙ null_at-write b row x row (omega (arith, r.bits))
              ∙ r.clear row (omega arith) (omega arith),
          (
            x,
            taken,
            same.values row (omega arith)
                ∙ read_le-write_le width b (row * width + bitmap) x (f.0 x taken)
                    (omega (arith, r.room)),
          ),
          has,
        ),
        Same-trans b b' c row (Same-write b row (length vs) x r) same,
        len ∙ length-write_le width b (row * width + bitmap) x,
      )

  zeros_byte : (k i : ℕ) → i < k → get_elem? {A = ℕ} (replicate k 0) i ≡ some 0
  zeros_byte zero i h = absurd (omega arith)
  zeros_byte (suc k) zero h = refl
  zeros_byte (suc k) (suc i) h = zeros_byte k i (omega arith)

  zeros-AllBytes : (k : ℕ) → AllBytes (replicate k 0)
  zeros-AllBytes zero = tt
  zeros-AllBytes (suc k) = (omega arith, zeros-AllBytes k)

  null_at_zeros : (k j : ℕ) → j / 8 < k → null_at (replicate k 0) j ≡ some false
  unfolding null_bit
  null_at_zeros k j h = rw (zeros_byte k (j / 8) h) (ap some (bm_is_null_zero j))

  -- The whole loop, on the buffer that the code makes for it.
  pub fixed_rows-RowsHold :
      (rows : ℕ) (vs : List (Option TaosValue)) (c : List ℕ)
      → length vs ≡ rows
      → rows ≤ 8 * bitmap
      → Fits vs
      → fixed_rows width take bitmap 0 rows vs (replicate (bitmap + rows * width) 0) ≡ ok c
      → RowsHold c 0 vs × (length c ≡ bitmap + rows * width)
  fixed_rows-RowsHold rows vs c len fit f e =
      let size = length-replicate {A = ℕ} (bitmap + rows * width) 0 in
      let ready : Ready (replicate (bitmap + rows * width) 0) 0 (length vs) = record {
        clear = λ j lo hi. null_at_zeros (bitmap + rows * width) j (omega arith);
        bytes = zeros-AllBytes (bitmap + rows * width);
        room = omega (arith, size, ap (λ (t : ℕ). t * width) len);
        bits = omega arith;
      } in
      let (has, same, l) =
        fixed_rows_lem 0 vs (replicate (bitmap + rows * width) 0) c ready f (rw len e) in
      (has, l ∙ size)
