-- ===== src/Block/RoundTrip/Infos.antt =====
-- What the columns add to a block besides their values: the types and the sizes of the parts.
use taosadapter.Common.{
  ℕ, suc, ◌+◌, ◌*◌, ◌/◌, ◌%◌, ◌^◌, ◌<◌, ◌≡◌, refl, sym, ◌∙◌, ap, subst, List, [], ◌∷◌, ◌++◌,
  append_assoc, Option, some, arith, length, length-append, map,
}
use taosadapter.Common.Bytes.{le_bytes, read_le}
use taosadapter.Common.Bytes.Reads.{read_le-le_bytes, length-le_bytes}
use taosadapter.Block.Serialize.{TaosValue, TaosType, ok}
use taosadapter.Block.Serialize.Columns.{Column, serialize_columns}
use taosadapter.Block.Parse.{Value, raw_block_get_col_info}
use taosadapter.Block.RoundTrip.Values.{code_of}
use taosadapter.Block.RoundTrip.Known.{code_of_small, serialize_column-ReadsBack}
use taosadapter.Block.RoundTrip.Blocks.{IsTable, serialize_columns_parts, first_part, later_part}

-- Four bytes hold a number modulo 2 ^ 32.
le_bytes_mod : (w : ℕ) → le_bytes 4 w ≡ le_bytes 4 (w % 2 ^ 32)
le_bytes_mod w =
    let a : w % 256 ≡ w % 2 ^ 32 % 256 = omega arith in
    let b : w / 256 % 256 ≡ w % 2 ^ 32 / 256 % 256 = omega arith in
    let c : w / 256 / 256 % 256 ≡ w % 2 ^ 32 / 256 / 256 % 256 = omega arith in
    let d : w / 256 / 256 / 256 % 256 ≡ w % 2 ^ 32 / 256 / 256 / 256 % 256 = omega arith in cc

read_info :
    (q s : List ℕ) (t w off : ℕ)
    → t < 256 ^ 1
    → off ≡ length q
    → (read_le 1 (q ++ ((t ∷ le_bytes 4 w) ++ s)) off ≡ some t)
      × (read_le 4 (q ++ ((t ∷ le_bytes 4 w) ++ s)) (off + 1) ≡ some (w % 2 ^ 32))
read_info q s t w off low at =
    let one : t % 256 ≡ t = omega arith in
    let kind = read_le-le_bytes 1 t q (le_bytes 4 w ++ s) off low at in
    let width =
      read_le-le_bytes 4 (w % 2 ^ 32) (q ++ (t ∷ [])) s (off + 1) (omega arith)
        (omega (arith, length-append q (t ∷ []))) in
    (
      subst (λ (x : ℕ). read_le 1 (q ++ (x ∷ (le_bytes 4 w ++ s))) off ≡ some t) one kind,
      subst (λ (x : List ℕ). read_le 4 x (off + 1) ≡ some (w % 2 ^ 32))
          (append_assoc q (t ∷ []) (le_bytes 4 (w % 2 ^ 32) ++ s)
            ∙ ap (λ (x : List ℕ). q ++ (t ∷ (x ++ s))) (sym (le_bytes_mod w)))
          width,
    )

module _ (to_time : ℕ → Option Value) (show : ℕ → Value)
    (shows : (ts : ℕ) → to_time ts ≡ some (show ts)) where
  -- What the columns add has the size that the readers' offsets count on.
  pub length-serialize_columns :
      (rows : ℕ) (ts : List TaosType) (params : List (List (Option TaosValue))) (acc : Column)
      → IsTable rows ts params
      → serialize_columns rows ts params ≡ ok acc
      → length acc.body < 2 ^ 31
      → (length acc.info ≡ length ts * 5) × (length acc.lengths ≡ length ts * 4)
  unfolding serialize_columns
  length-serialize_columns rows [] [] acc table e small =
      let same : acc ≡ record { info = []; lengths = []; body = [] } = cc in
      (ap (λ (c : Column). length c.info) same, ap (λ (c : Column). length c.lengths) same)
  length-serialize_columns rows [] (vs ∷ params) acc table e small = absurd table
  length-serialize_columns rows (t ∷ ts) [] acc table e small = absurd table
  length-serialize_columns rows (t ∷ ts) (vs ∷ params) acc (known, full, sized, table) e small =
      let (c, rest, one, more, ei, el, eb) = serialize_columns_parts rows t ts vs params acc e in
      let size = ap length eb ∙ length-append c.body rest.body in
      let (read, (d, is_d, low, next), (w, is_w)) =
        serialize_column-ReadsBack to_time show shows [] [] rows vs full sized c (omega arith) t
          known one in
      let (li, ll) = length-serialize_columns rows ts params rest table more (omega arith) in
      (
        omega (
          arith,
          ap length ei,
          length-append c.info rest.info,
          ap length is_w,
          length-le_bytes 4 w,
        ),
        omega (
          arith,
          ap length el,
          length-append c.lengths rest.lengths,
          ap length is_d,
          length-le_bytes 4 d,
        ),
      )

  -- The type codes that `RawBlockGetColInfo` finds.
  pub raw_block_get_col_info-serialize_columns :
      (rows : ℕ) (ts : List TaosType) (params : List (List (Option TaosValue))) (acc : Column)
      (b q s : List ℕ) (i : ℕ)
      → IsTable rows ts params
      → serialize_columns rows ts params ≡ ok acc
      → length acc.body < 2 ^ 31
      → b ≡ q ++ (acc.info ++ s)
      → length q ≡ 28 + 5 * i
      → (infos : List (ℕ × ℕ)) × (raw_block_get_col_info b i (length ts) ≡ some infos)
        × (map (λ x. x.0) infos ≡ map code_of ts)
  unfolding raw_block_get_col_info
  raw_block_get_col_info-serialize_columns rows [] [] acc b q s i table e small in_info at =
      ([], refl, refl)
  raw_block_get_col_info-serialize_columns rows [] (vs ∷ params) acc b q s i table e small in_info
        at =
      absurd table
  raw_block_get_col_info-serialize_columns rows (t ∷ ts) [] acc b q s i table e small in_info at =
      absurd table
  raw_block_get_col_info-serialize_columns rows (t ∷ ts) (vs ∷ params) acc b q s i
        (known, full, sized, table) e small in_info at =
      let (c, rest, one, more, ei, el, eb) = serialize_columns_parts rows t ts vs params acc e in
      let size = ap length eb ∙ length-append c.body rest.body in
      let (read, (d, is_d, low, next), (w, is_w)) =
        serialize_column-ReadsBack to_time show shows [] [] rows vs full sized c (omega arith) t
          known one in
      let info' : b ≡ q ++ ((c.info ++ rest.info) ++ s) =
        in_info ∙ ap (λ (x : List ℕ). q ++ (x ++ s)) ei in
      let here : b ≡ q ++ ((code_of t ∷ le_bytes 4 w) ++ (rest.info ++ s)) =
        info'
        ∙ first_part q c.info rest.info s
        ∙ ap (λ (x : List ℕ). q ++ (x ++ (rest.info ++ s))) is_w in
      let (kind, width) =
        read_info q (rest.info ++ s) (code_of t) w (28 + 5 * i) (code_of_small t) (sym at) in
      let (infos, found, codes) =
        raw_block_get_col_info-serialize_columns rows ts params rest b (q ++ c.info) s (suc i) table
          more (omega arith) (info' ∙ later_part q c.info rest.info s)
          (omega (arith, length-append q c.info, ap length is_w, length-le_bytes 4 w)) in
      let kind' : read_le 1 b (28 + 5 * i) ≡ some (code_of t) =
        subst (λ (x : List ℕ). read_le 1 x (28 + 5 * i) ≡ some (code_of t)) (sym here) kind in
      let width' : read_le 4 b (28 + 5 * i + 1) ≡ some (w % 2 ^ 32) =
        subst (λ (x : List ℕ). read_le 4 x (28 + 5 * i + 1) ≡ some (w % 2 ^ 32)) (sym here) width in
      (
        (code_of t, w % 2 ^ 32) ∷ infos,
        rw (kind', width', found),
        ap (λ (x : List ℕ). code_of t ∷ x) codes,
      )
