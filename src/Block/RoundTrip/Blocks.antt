-- ===== src/Block/RoundTrip/Blocks.antt =====
-- The loops over the columns: `SerializeRawBlock` (driver/common/serializer/block.go) against
-- `ReadBlock` and its siblings (driver/common/parser/block.go).
use taosadapter.Common.{
  ℕ, suc, ◌+◌, ◌*◌, ◌^◌, ◌<◌, ◌≡◌, refl, sym, ◌∙◌, ap, subst, List, [], ◌∷◌, ◌++◌, append_assoc,
  Option, some, arith, length, length-append, map,
}
use taosadapter.Common.Bytes.{read_le}
use taosadapter.Common.Bytes.Reads.{read_le-le_bytes, length-le_bytes}
use taosadapter.Block.{add_pointer}
use taosadapter.Block.Serialize.{TaosValue, TaosType, ok, bind_ok}
use taosadapter.Block.Serialize.Columns.{Column, serialize_column, serialize_columns}
use taosadapter.Block.Parse.{Value}
use taosadapter.Block.Parse.Blocks.{data_start, read_rows, read_columns}
use taosadapter.Block.RoundTrip.Values.{code_of, value_of, AllSized}
use taosadapter.Block.RoundTrip.Reading.{add_pointer_small}
use taosadapter.Block.RoundTrip.Known.{IsKnown, has_convert_known, serialize_column-ReadsBack}

-- A table: for every type a column of `rows` values, each in the range of its Go type.
abbrev pub IsTable : ℕ → List TaosType → List (List (Option TaosValue)) → Type 0
IsTable rows [] [] = Unit {0}
IsTable rows [] (vs ∷ params) = ⊥
IsTable rows (t ∷ ts) [] = ⊥
IsTable rows (t ∷ ts) (vs ∷ params) =
    IsKnown t × (length vs ≡ rows) × AllSized vs × IsTable rows ts params

-- The three parts of the columns' contribution are taken apart at the first column.
first_body : (p a r : List ℕ) → p ++ (a ++ r) ≡ (p ++ a) ++ r
first_body p a r = sym (append_assoc p a r)

pub first_part : (q a r s : List ℕ) → q ++ ((a ++ r) ++ s) ≡ q ++ (a ++ (r ++ s))
first_part q a r s = ap (λ (x : List ℕ). q ++ x) (append_assoc a r s)

pub later_part : (q a r s : List ℕ) → q ++ ((a ++ r) ++ s) ≡ (q ++ a) ++ (r ++ s)
later_part q a r s = first_part q a r s ∙ sym (append_assoc q a (r ++ s))

-- Two steps of `serialize_columns`.
pub serialize_columns_parts :
    (rows : ℕ) (t : TaosType) (ts : List TaosType) (vs : List (Option TaosValue))
    (params : List (List (Option TaosValue))) (acc : Column)
    → serialize_columns rows (t ∷ ts) (vs ∷ params) ≡ ok acc
    → (c : Column) × (rest : Column) × (serialize_column t rows vs ≡ ok c)
      × (serialize_columns rows ts params ≡ ok rest)
      × (acc.info ≡ c.info ++ rest.info)
      × (acc.lengths ≡ c.lengths ++ rest.lengths)
      × (acc.body ≡ c.body ++ rest.body)
unfolding serialize_columns
serialize_columns_parts rows t ts vs params acc e =
    let (c, one, e1) = bind_ok (serialize_column t rows vs) _ e in
    let (rest, more, e2) = bind_ok (serialize_columns rows ts params) _ e1 in
    (c, rest, one, more, cc, cc, cc)

module _ (to_time : ℕ → Option Value) (show : ℕ → Value)
    (shows : (ts : ℕ) → to_time ts ≡ some (show ts)) where
  -- The reader's loop over the columns, wherever in the block it is.
  pub read_columns-serialize_columns :
      (rows : ℕ) (ts : List TaosType) (params : List (List (Option TaosValue))) (acc : Column)
      (b p q s : List ℕ) (lengths col : ℕ)
      → IsTable rows ts params
      → serialize_columns rows ts params ≡ ok acc
      → b ≡ p ++ acc.body
      → b ≡ q ++ (acc.lengths ++ s)
      → length b < 2 ^ 31
      → length q ≡ lengths + col * 4
      → read_columns b rows lengths to_time col (length p) (map code_of ts)
        ≡ some (map (map (value_of show)) params)
  unfolding read_columns
  read_columns-serialize_columns rows [] [] acc b p q s lengths col table e in_body in_lengths small
        at =
      refl
  read_columns-serialize_columns rows [] (vs ∷ params) acc b p q s lengths col table e in_body
        in_lengths small at =
      absurd table
  read_columns-serialize_columns rows (t ∷ ts) [] acc b p q s lengths col table e in_body in_lengths
        small at =
      absurd table
  read_columns-serialize_columns rows (t ∷ ts) (vs ∷ params) acc b p q s lengths col
        (known, full, sized, table) e in_body in_lengths small at =
      let (c, rest, one, more, ei, el, eb) = serialize_columns_parts rows t ts vs params acc e in
      let total : length b ≡ length p + (length c.body + length rest.body) =
        ap length in_body
        ∙ omega (arith, length-append p acc.body, ap length eb, length-append c.body rest.body) in
      let block : b ≡ p ++ (c.body ++ rest.body) = in_body ∙ ap (λ (x : List ℕ). p ++ x) eb in
      let lengths' : b ≡ q ++ ((c.lengths ++ rest.lengths) ++ s) =
        in_lengths ∙ ap (λ (x : List ℕ). q ++ (x ++ s)) el in
      let (read, (d, is_d, low, next), _) =
        serialize_column-ReadsBack to_time show shows p rest.body rows vs full sized c (omega arith)
          t known one in
      let here : add_pointer lengths (col * 4) ≡ length q =
        add_pointer_small lengths (col * 4)
          (omega (arith, ap length in_lengths, length-append q (acc.lengths ++ s)))
        ∙ sym at in
      let len : read_le 4 b (length q) ≡ some d =
        rw (lengths', first_part q c.lengths rest.lengths s, is_d)
          (read_le-le_bytes 4 d q (rest.lengths ++ s) (length q) (omega arith) refl) in
      let rest_read =
        read_columns-serialize_columns rows ts params rest b (p ++ c.body) (q ++ c.lengths) s
          lengths (suc col) table more (block ∙ first_body p c.body rest.body)
          (lengths' ∙ later_part q c.lengths rest.lengths s) small
          (omega (arith, length-append q c.lengths, ap length is_d, length-le_bytes 4 d)) in
      let read' =
        subst
          (λ (x : List ℕ).
            read_rows x (code_of t) (length p) (data_start (code_of t) (length p) rows) to_time 0
              rows
            ≡ some (map (value_of show) vs))
          (sym block) read in
      let after = next ∙ sym (length-append p c.body) in
      rw (here, len, has_convert_known t known, read', after, rest_read)
