-- ===== src/Block/RoundTrip/Var.antt =====
-- The column of variable length that driver/common/serializer/block.go writes: offsets and values.
use taosadapter.Common.{
  ℕ, zero, suc, ◌+◌, ◌*◌, ◌^◌, ◌≤◌, ◌<◌, ◌≡◌, ◌⊎◌, ◌∙◌, List, [], ◌∷◌, ◌++◌, append_assoc, Option,
  none, some, arith, inl, inr, length, length-append, replicate, length-replicate,
}
use taosadapter.Common.Bytes.{read_le, read_bytes, write_le, le_bytes}
use taosadapter.Common.Bytes.Reads.{
  Agree, Agree-refl, Agree-trans, Agree-append, Agree-write_le, read_le-Agree, read_bytes-Agree,
  read_le-write_le, read_le-le_bytes, read_bytes_last, length-write_le, length-le_bytes,
}
use taosadapter.Block.Serialize.{TaosValue, Result, ok, bind_ok}
use taosadapter.Block.Serialize.Columns.{var_rows}

module _ (rows : ℕ) (take : TaosValue → Result (List ℕ)) where
  -- A value at offset `o` of the data of a column, behind its length.
  abbrev pub ValueAt : List ℕ → ℕ → List ℕ → Type 0
  ValueAt b o p =
      (o < 2 ^ 31)
      × (read_le 2 b (4 * rows + o) ≡ some (length p))
      × (read_bytes (length p) b (4 * rows + o + 2) ≡ some p)

  -- What a reader finds for the rows from `row` on.
  abbrev pub VarHolds : List ℕ → ℕ → List (Option TaosValue) → Type 0
  VarHolds b row [] = Unit {0}
  VarHolds b row (none ∷ vs) = (read_le 4 b (4 * row) ≡ some 0xffff_ffff) × VarHolds b (suc row) vs
  VarHolds b row (some v ∷ vs) =
      ((p : List ℕ) × (o : ℕ) × (take v ≡ ok p) × (read_le 4 b (4 * row) ≡ some o) × ValueAt b o p)
      × VarHolds b (suc row) vs

  abbrev pub VarFits : List (Option TaosValue) → Type 0
  VarFits [] = Unit {0}
  VarFits (none ∷ vs) = VarFits vs
  VarFits (some v ∷ vs) = ((p : List ℕ) → take v ≡ ok p → length p < 2 ^ 16) × VarFits vs

  -- The offsets before `row` and the values so far stay as they are.
  abbrev Keeps : List ℕ → List ℕ → ℕ → Type 0
  Keeps b c row =
      (k i : ℕ) → (i + k ≤ 4 * row) ⊎ (4 * rows ≤ i) → i + k ≤ length b → Agree k c i b i

  -- The buffer after a row with a value.
  abbrev grown : List ℕ → ℕ → ℕ → List ℕ → List ℕ
  grown b row len p = write_le 4 b (4 * row) len ++ (le_bytes 2 (length p) ++ p)

  length-grown :
      (b : List ℕ) (row len : ℕ) (p : List ℕ)
      → length (grown b row len p) ≡ length b + (length p + 2)
  length-grown b row len p = omega (
    arith,
    length-append (write_le 4 b (4 * row) len) (le_bytes 2 (length p) ++ p),
    length-append (le_bytes 2 (length p)) p,
    length-le_bytes 2 (length p),
    length-write_le 4 b (4 * row) len,
  )

  grown-Keeps :
      (b : List ℕ) (row len : ℕ) (p : List ℕ) → row < rows → Keeps b (grown b row len p) row
  grown-Keeps b row len p inside k i where' fits =
      let w = write_le 4 b (4 * row) len in
      Agree-trans k (grown b row len p) i w i b i
        (Agree-append k w (le_bytes 2 (length p) ++ p) i
          (omega (arith, length-write_le 4 b (4 * row) len)))
        (Agree-write_le k 4 b i (4 * row) len (omega arith))

  grown_offset :
      (b : List ℕ) (row len : ℕ) (p : List ℕ)
      → 4 * row + 4 ≤ length b
      → len < 2 ^ 31
      → read_le 4 (grown b row len p) (4 * row) ≡ some len
  grown_offset b row len p fits small =
      let w = write_le 4 b (4 * row) len in
      read_le-Agree 4 (grown b row len p) (4 * row) w (4 * row) (
        Agree-append 4 w (le_bytes 2 (length p) ++ p) (4 * row)
          (omega (arith, length-write_le 4 b (4 * row) len)))
      ∙ read_le-write_le 4 b (4 * row) len (omega arith) fits

  grown_value :
      (b : List ℕ) (row len : ℕ) (p : List ℕ)
      → length b ≡ 4 * rows + len
      → len < 2 ^ 31
      → length p < 2 ^ 16
      → ValueAt (grown b row len p) len p
  grown_value b row len p size small short =
      let w = write_le 4 b (4 * row) len in
      let lw = length-write_le 4 b (4 * row) len in
      (
        small,
        read_le-le_bytes 2 (length p) w p (4 * rows + len) (omega arith) (omega (arith, lw)),
        rw (← append_assoc w (le_bytes 2 (length p)) p) (
            read_bytes_last p (w ++ le_bytes 2 (length p)) (4 * rows + len + 2) (
              omega (
                arith,
                lw,
                length-append w (le_bytes 2 (length p)),
                length-le_bytes 2 (length p),
              ))),
      )

  -- The loop keeps what it has written, and leaves every row readable.
  var_rows_lem :
      (row : ℕ) (vs : List (Option TaosValue)) (len len' : ℕ) (b c : List ℕ)
      → row + length vs ≤ rows
      → length b ≡ 4 * rows + len
      → len' < 2 ^ 31
      → VarFits vs
      → var_rows take row (length vs) vs len b ≡ ok (len', c)
      → VarHolds c row vs × Keeps b c row × (length c ≡ 4 * rows + len') × (len ≤ len')
  unfolding var_rows
  var_rows_lem row [] len len' b c fit size small f e =
      let same : c ≡ b = ground arith in
      let done : len' ≡ len = ground arith in
      (tt, λ k i where' fits. rw same (Agree-refl k b i), rw (same, done) size, omega arith)
  var_rows_lem row (none ∷ vs) len len' b c fit size small f e =
      let w = write_le 4 b (4 * row) 0xffff_ffff in
      let lw = length-write_le 4 b (4 * row) 0xffff_ffff in
      let (has, keeps, size', le) =
        var_rows_lem (suc row) vs len len' w c (omega arith) (lw ∙ size) small f e in
      (
        (
          read_le-Agree 4 c (4 * row) w (4 * row)
                (keeps 4 (4 * row) (inl (omega arith)) (omega (arith, lw)))
              ∙ read_le-write_le 4 b (4 * row) 0xffff_ffff (omega arith) (omega arith),
          has,
        ),
        λ k i where' fits.
            Agree-trans k c i w i b i (keeps k i (omega arith) (omega (arith, lw)))
              (Agree-write_le k 4 b i (4 * row) 0xffff_ffff (omega arith)),
        size',
        le,
      )
  var_rows_lem row (some v ∷ vs) len len' b c fit size small f e =
      let (p, taken, e') = bind_ok (take v) _ e in
      let g = grown b row len p in
      let lg = length-grown b row len p in
      let (has, keeps, size', le) =
        var_rows_lem (suc row) vs (len + (length p + 2)) len' g c (omega arith) (omega arith) small
          f.1 e' in
      let (low, prefix, value) = grown_value b row len p size (omega arith) (f.0 p taken) in
      (
        (
          (
            p,
            len,
            taken,
            read_le-Agree 4 c (4 * row) g (4 * row)
                  (keeps 4 (4 * row) (inl (omega arith)) (omega arith))
                ∙ grown_offset b row len p (omega arith) (omega arith),
            (
              low,
              read_le-Agree 2 c (4 * rows + len) g (4 * rows + len)
                    (keeps 2 (4 * rows + len) (inr (omega arith)) (omega arith))
                  ∙ prefix,
              read_bytes-Agree (length p) c (4 * rows + len + 2) g (4 * rows + len + 2)
                    (keeps (length p) (4 * rows + len + 2) (inr (omega arith)) (omega arith))
                  ∙ value,
            ),
          ),
          has,
        ),
        λ k i where' fits.
            Agree-trans k c i g i b i (keeps k i (omega arith) (omega arith))
              (grown-Keeps b row len p (omega arith) k i where' fits),
        size',
        omega arith,
      )

  -- The whole loop, on the buffer that the code makes for it.
  pub var_rows-VarHolds :
      (vs : List (Option TaosValue)) (len : ℕ) (c : List ℕ)
      → length vs ≡ rows
      → len < 2 ^ 31
      → VarFits vs
      → var_rows take 0 rows vs 0 (replicate (4 * rows) 0) ≡ ok (len, c)
      → VarHolds c 0 vs × (length c ≡ 4 * rows + len)
  var_rows-VarHolds vs len c l small f e =
      let size = length-replicate {A = ℕ} (4 * rows) 0 in
      let (has, keeps, l', le) =
        var_rows_lem 0 vs 0 len (replicate (4 * rows) 0) c (omega arith) (omega (arith, size)) small
          f (rw l e) in
      (has, l')

  -- The length that the loop reports is what it appended.
  pub var_rows_size :
      (row n : ℕ) (vs : List (Option TaosValue)) (len len' : ℕ) (b c : List ℕ)
      → var_rows take row n vs len b ≡ ok (len', c)
      → length c + len ≡ length b + len'
  unfolding var_rows
  var_rows_size row zero vs len len' b c e = ground arith
  var_rows_size row (suc n) [] len len' b c e = cc
  var_rows_size row (suc n) (none ∷ vs) len len' b c e = omega (
    arith,
    var_rows_size (suc row) n vs len len' (write_le 4 b (4 * row) 0xffff_ffff) c e,
    length-write_le 4 b (4 * row) 0xffff_ffff,
  )
  var_rows_size row (suc n) (some v ∷ vs) len len' b c e =
      let (p, taken, e') = bind_ok (take v) _ e in
      omega (
        arith,
        var_rows_size (suc row) n vs (len + (length p + 2)) len' (grown b row len p) c e',
        length-grown b row len p,
      )
