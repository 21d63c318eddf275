-- ===== src/Block/RoundTrip/Table.antt =====
-- The whole round trip: `SerializeRawBlock` (driver/common/serializer/block.go), then the readers of
-- driver/common/parser/block.go.
use taosadapter.Common.{
  ℕ, ◌+◌, ◌*◌, ◌^◌, ◌<◌, ◌≡◌, refl, sym, ◌∙◌, ap, subst, List, [], ◌∷◌, ◌++◌, append_assoc, Option,
  none, some, arith, length, length-append, length-map, map, replicate, ◌==◌, Bool, true, false,
  if◌then◌else◌,
}
use taosadapter.Common.Bytes.{le_bytes, read_le}
use taosadapter.Block.{timestamp_convert_to_time}
use taosadapter.Block.Serialize.{
  TaosValue, TaosType, Result, ok, err, bind_ok, column_number_not_match,
}
use taosadapter.Block.Serialize.Columns.{
  Column, serialize_columns, assemble, block_header, serialize_raw_block,
}
use taosadapter.Block.Parse.{
  Value, raw_block_get_col_info, raw_block_get_length, raw_block_get_num_of_rows,
  raw_block_get_num_of_cols, raw_block_get_column_length_offset, raw_block_get_col_data_offset,
  time_by_precision, null,
}
use taosadapter.Block.Parse.Blocks.{
  not_negative, put_columns, read_block_with_time_format, read_block, read_block_simple,
}
use taosadapter.Block.RoundTrip.Values.{code_of, value_of}
use taosadapter.Block.RoundTrip.Blocks.{IsTable, read_columns-serialize_columns}
use taosadapter.Block.RoundTrip.Infos.{
  length-serialize_columns, raw_block_get_col_info-serialize_columns,
}

-- The header once its length is filled in.
abbrev head_of : ℕ → ℕ → ℕ → List ℕ
head_of rows columns len =
    le_bytes 4 1
    ++ (le_bytes 4 len
        ++ (le_bytes 4 rows ++ (le_bytes 4 columns ++ (le_bytes 4 0 ++ le_bytes 8 0))))

length-head_of :
    (rows columns len : ℕ) (parts : List ℕ)
    → length (head_of rows columns len ++ parts) ≡ 28 + length parts
length-head_of rows columns len parts = omega arith

assemble_lem :
    (rows columns : ℕ) (c : Column)
    → assemble rows columns c
      ≡ head_of rows columns (28 + length (c.info ++ (c.lengths ++ c.body)))
        ++ (c.info ++ (c.lengths ++ c.body))
unfolding assemble block_header
assemble_lem rows columns c =
    let parts = c.info ++ (c.lengths ++ c.body) in
    ap (λ (n : ℕ). head_of rows columns n ++ parts) (length-head_of rows columns 0 parts)

if_ok :
    (t : Bool) (m : Result (List ℕ)) (b : List ℕ)
    → (if t then m else err column_number_not_match) ≡ ok b
    → (t ≡ true) × (m ≡ ok b)
if_ok true m b e = (refl, e)
if_ok false m b e = cc

-- A block that was made is the header and the parts of the columns.
serialize_raw_block_parts :
    (ts : List TaosType) (vs : List (Option TaosValue)) (params : List (List (Option TaosValue)))
    (b : List ℕ)
    → serialize_raw_block (vs ∷ params) (ok ts) ≡ ok b
    → (c : Column) × (serialize_columns (length vs) ts (vs ∷ params) ≡ ok c)
      × (assemble (length vs) (length (vs ∷ params)) c ≡ b)
      × (length ts ≡ length (vs ∷ params))
unfolding serialize_raw_block
serialize_raw_block_parts ts vs params b e =
    let (same, e1) = if_ok (length ts == length (vs ∷ params)) _ b e in
    let (c, made, e2) = bind_ok (serialize_columns (length vs) ts (vs ∷ params)) _ e1 in
    (c, made, cc, ground arith)

-- The same with the header's fields in their places and the bounds that readers need.
abbrev Laid : ℕ → List TaosType → List (List (Option TaosValue)) → List ℕ → Column → Type 0
Laid rows ts params b c =
    (serialize_columns rows ts params ≡ ok c)
    × (b ≡ head_of rows (length ts) (length b) ++ (c.info ++ (c.lengths ++ c.body)))
    × (length b ≡ 28 + length (c.info ++ (c.lengths ++ c.body)))
    × (length ts ≡ length params)

serialize_raw_block-Laid :
    (ts : List TaosType) (vs : List (Option TaosValue)) (params : List (List (Option TaosValue)))
    (b : List ℕ)
    → serialize_raw_block (vs ∷ params) (ok ts) ≡ ok b
    → (c : Column) × Laid (length vs) ts (vs ∷ params) b c
serialize_raw_block-Laid ts vs params b e =
    let (c, made, whole, same) = serialize_raw_block_parts ts vs params b e in
    let laid = sym whole ∙ assemble_lem (length vs) (length (vs ∷ params)) c in
    let size : length b ≡ 28 + length (c.info ++ (c.lengths ++ c.body)) =
      ap length laid
      ∙ length-head_of (length vs) (length (vs ∷ params))
          (28 + length (c.info ++ (c.lengths ++ c.body))) (c.info ++ (c.lengths ++ c.body)) in
    (c, (made, rw (size, same) laid, size, same))

module _ (to_time : ℕ → Option Value) (show : ℕ → Value)
    (shows : (ts : ℕ) → to_time ts ≡ some (show ts)) where
  Laid-read :
      (rows : ℕ) (ts : List TaosType) (params : List (List (Option TaosValue))) (b : List ℕ)
      (c : Column)
      → IsTable rows ts params
      → Laid rows ts params b c
      → length b < 2 ^ 31
      → read_block_with_time_format b rows (map code_of ts) to_time
        ≡ some (put_columns (replicate rows []) (map (map (value_of show)) params))
  unfolding read_block_with_time_format raw_block_get_column_length_offset
      raw_block_get_col_data_offset
  Laid-read rows ts params b c table (made, laid, size, same) small =
      let h = head_of rows (length ts) (length b) in
      let l1 = length-append c.info (c.lengths ++ c.body) in
      let l2 = length-append c.lengths c.body in
      let (li, ll) =
        length-serialize_columns to_time show shows rows ts params c table made (omega arith) in
      let infos_end = length-append h c.info in
      let lengths_end = length-append (h ++ c.info) c.lengths in
      let at_lengths : b ≡ (h ++ c.info) ++ (c.lengths ++ c.body) =
        laid ∙ sym (append_assoc h c.info (c.lengths ++ c.body)) in
      let at_body : b ≡ ((h ++ c.info) ++ c.lengths) ++ c.body =
        at_lengths ∙ sym (append_assoc (h ++ c.info) c.lengths c.body) in
      let cols : length (map code_of ts) ≡ length ts = length-map ts code_of in
      let read =
        read_columns-serialize_columns to_time show shows rows ts params c b
          ((h ++ c.info) ++ c.lengths) (h ++ c.info) c.body (28 + length ts * 5) 0 table made
          at_body at_lengths small (omega arith) in
      let place : 28 + length ts * 5 + length ts * 4 ≡ length ((h ++ c.info) ++ c.lengths) =
        omega arith in
      rw (cols, place, read)

  -- What `SerializeRawBlock` makes of a table, `ReadBlockWithTimeFormat` reads back, row by row:
  -- for a table (every column has as many values as the first, each in the range of its Go type
  -- and at most 65535 bytes long, and every type has a case in the switch), when the block that it
  -- returns is shorter than 2 ^ 31 bytes. `to_time` is a format function that never fails.
  pub read_block_with_time_format-serialize_raw_block :
      (ts : List TaosType) (vs : List (Option TaosValue)) (params : List (List (Option TaosValue)))
      (b : List ℕ)
      → IsTable (length vs) ts (vs ∷ params)
      → serialize_raw_block (vs ∷ params) (ok ts) ≡ ok b
      → length b < 2 ^ 31
      → read_block_with_time_format b (length vs) (map code_of ts) to_time
        ≡ some (put_columns (replicate (length vs) []) (map (map (value_of show)) (vs ∷ params)))
  read_block_with_time_format-serialize_raw_block ts vs params b table e small =
      let (c, laid) = serialize_raw_block-Laid ts vs params b e in
      Laid-read (length vs) ts (vs ∷ params) b c table laid small

-- A timestamp as the readers without a format function show it.
abbrev pub value_or_null : Option Value → Value
value_or_null none = null
value_or_null (some v) = v

abbrev pub time_at : ℕ → ℕ → Value
time_at precision ts = value_or_null (time_by_precision precision ts)

time_by_precision_lem :
    (precision ts : ℕ)
    → precision < 3
    → time_by_precision precision ts ≡ some (time_at precision ts)
unfolding time_by_precision timestamp_convert_to_time
time_by_precision_lem precision ts h = ground arith

not_negative_lem : (n : ℕ) → n < 2 ^ 31 → not_negative n ≡ some tt
not_negative_lem n h = ground arith

head_fields :
    (rows columns len : ℕ) (parts : List ℕ)
    → rows < 2 ^ 31
    → columns < 2 ^ 31
    → len < 2 ^ 31
    → (read_le 4 (head_of rows columns len ++ parts) 4 ≡ some len)
      × (read_le 4 (head_of rows columns len ++ parts) 8 ≡ some rows)
      × (read_le 4 (head_of rows columns len ++ parts) 12 ≡ some columns)
head_fields rows columns len parts r k n =
    (ap some (omega arith), ap some (omega arith), ap some (omega arith))

-- The header of a block that `SerializeRawBlock` returns states the length of the block, its rows
-- and its columns, when each is below 2 ^ 31.
pub serialize_raw_block_header :
    (ts : List TaosType) (vs : List (Option TaosValue)) (params : List (List (Option TaosValue)))
    (b : List ℕ)
    → serialize_raw_block (vs ∷ params) (ok ts) ≡ ok b
    → length b < 2 ^ 31
    → length vs < 2 ^ 31
    → length ts < 2 ^ 31
    → (raw_block_get_length b ≡ some (length b))
      × (raw_block_get_num_of_rows b ≡ some (length vs))
      × (raw_block_get_num_of_cols b ≡ some (length (vs ∷ params)))
unfolding raw_block_get_length raw_block_get_num_of_rows raw_block_get_num_of_cols
serialize_raw_block_header ts vs params b e small rows cols =
    let (c, (made, laid, size, same)) = serialize_raw_block-Laid ts vs params b e in
    let parts = c.info ++ (c.lengths ++ c.body) in
    let (l, r, k) = head_fields (length vs) (length ts) (length b) parts rows cols small in
    subst
      (λ (x : List ℕ).
        (read_le 4 x 4 ≡ some (length b))
        × (read_le 4 x 8 ≡ some (length vs))
        × (read_le 4 x 12 ≡ some (length (vs ∷ params))))
      (sym laid) (l, r, k ∙ ap some same)

-- What `SerializeRawBlock` makes of a table, `ReadBlockSimple` reads back from the block alone: the
-- conditions are those of `ReadBlockWithTimeFormat`, fewer than 2 ^ 31 rows, and one of the three
-- precisions, by which the timestamps are shown.
pub read_block_simple-serialize_raw_block :
    (ts : List TaosType) (vs : List (Option TaosValue)) (params : List (List (Option TaosValue)))
    (b : List ℕ) (precision : ℕ)
    → IsTable (length vs) ts (vs ∷ params)
    → serialize_raw_block (vs ∷ params) (ok ts) ≡ ok b
    → length b < 2 ^ 31
    → length vs < 2 ^ 31
    → precision < 3
    → read_block_simple b precision
      ≡ some (
          put_columns
            (replicate (length vs) [])
            (map (map (value_of (time_at precision))) (vs ∷ params)))
unfolding read_block_simple read_block
read_block_simple-serialize_raw_block ts vs params b precision table e small rows valid =
    let (c, (made, laid, size, same)) = serialize_raw_block-Laid ts vs params b e in
    let parts = c.info ++ (c.lengths ++ c.body) in
    let shows = λ (x : ℕ). time_by_precision_lem precision x valid in
    let l1 = length-append c.info (c.lengths ++ c.body) in
    let l2 = length-append c.lengths c.body in
    let (li, ll) =
      length-serialize_columns (time_by_precision precision) (time_at precision) shows (length vs)
        ts (vs ∷ params) c table made (omega arith) in
    let (l, r, k) = serialize_raw_block_header ts vs params b e small rows (omega arith) in
    let (infos, found, codes) =
      raw_block_get_col_info-serialize_columns (time_by_precision precision) (time_at precision)
        shows (length vs) ts (vs ∷ params) c b (head_of (length vs) (length ts) (length b))
        (c.lengths ++ c.body) 0 table made (omega arith) laid refl in
    let found' : raw_block_get_col_info b 0 (length (vs ∷ params)) ≡ some infos =
      subst (λ (n : ℕ). raw_block_get_col_info b 0 n ≡ some infos) same found in
    let read =
      read_block_with_time_format-serialize_raw_block (time_by_precision precision)
        (time_at precision) shows ts vs params b table e small in
    let few_cols = not_negative_lem (length (vs ∷ params)) (omega arith) in
    let few_rows = not_negative_lem (length vs) rows in
    rw (r, k, few_cols, few_rows, found', codes, read)
