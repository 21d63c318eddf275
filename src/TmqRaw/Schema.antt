-- ===== src/TmqRaw/Schema.antt =====
-- Names and column schemas in a raw TMQ message (driver/common/parser/raw.go) against an encoder.
use taosadapter.Common.{
  ℕ, ◌+◌, ◌-◌, ◌^◌, ◌≤◌, ◌<◌, ◌≡◌, ◌⊎◌, refl, sym, ◌∙◌, ap, subst, true, false, List, [], ◌∷◌, ◌++◌,
  append_assoc, some, arith, ◌==◌, ltb, length, length-append,
}
use taosadapter.Common.Bytes.{read_bytes}
use taosadapter.Common.Bytes.Reads.{read_bytes-append}
use taosadapter.Block.{add_pointer}
use taosadapter.Block.RoundTrip.Reading.{add_pointer_small}
use taosadapter.TmqRaw.{
  skip, parse_uint8, parse_int8, parse_name, parse_schema, TmqRawDataSchema,
  parse_variable_byte_integer, parse_zigzag_variable_byte_integer,
}
use taosadapter.TmqRaw.Varint.{
  encode, zigzag_encode, parse_uint8_here, parse_variable_byte_integer-encode,
  parse_zigzag_variable_byte_integer-encode,
}

-- A name is written with its length, which counts the zero behind it.
abbrev pub encode_name : List ℕ → List ℕ
encode_name name = encode 8 (length name + 1) ++ (name ++ (0 ∷ []))

name_place :
    (pre e name post : List ℕ)
    → pre ++ ((e ++ (name ++ (0 ∷ []))) ++ post) ≡ (pre ++ e) ++ (name ++ (0 ∷ post))
name_place pre e name post =
    ap (λ (x : List ℕ). pre ++ x)
      (append_assoc e (name ++ (0 ∷ [])) post
        ∙ ap (λ (x : List ℕ). e ++ x) (append_assoc name (0 ∷ []) post))
    ∙ sym (append_assoc pre e (name ++ (0 ∷ post)))

-- Wherever a name stands in this form in memory of less than 2 ^ 62 bytes, `parseName` reads it
-- and stops behind its zero.
parse_name-encode_name :
    (name pre post : List ℕ)
    → length (pre ++ (encode_name name ++ post)) < 2 ^ 62
    → parse_name (pre ++ (encode_name name ++ post)) (length pre)
      ≡ some (name, length pre + length (encode_name name))
unfolding parse_name skip
parse_name-encode_name name pre post small =
    let n = length name + 1 in
    let e = encode 8 n in
    let b = pre ++ (encode_name name ++ post) in
    let l1 = length-append pre (encode_name name ++ post) in
    let l2 = length-append (encode_name name) post in
    let l3 = length-append e (name ++ (0 ∷ [])) in
    let l4 = length-append name (0 ∷ []) in
    let l5 = length-append pre e in
    let place : b ≡ pre ++ (e ++ ((name ++ (0 ∷ [])) ++ post)) =
      ap (λ (x : List ℕ). pre ++ x) (append_assoc e (name ++ (0 ∷ [])) post) in
    let count : parse_variable_byte_integer b (length pre) ≡ some (n, length pre + length e) =
      subst
        (λ (x : List ℕ).
          parse_variable_byte_integer x (length pre) ≡ some (n, length pre + length e))
        (sym place)
        (parse_variable_byte_integer-encode n pre ((name ++ (0 ∷ [])) ++ post) (omega arith)
          (omega (arith, ap length place))) in
    let found : read_bytes (n - 1) b (length pre + length e) ≡ some name =
      let less : n - 1 ≡ length name = omega arith in
      rw (less, name_place pre e name post)
        (read_bytes-append name (pre ++ e) (0 ∷ post) (length pre + length e) (omega arith)) in
    let positive : (n == 0) ≡ false = ground arith in
    let short : ltb n (2 ^ 63) ≡ true = ground (arith) in
    let end : add_pointer (length pre + length e) n ≡ length pre + length (encode_name name) =
      add_pointer_small (length pre + length e) n (omega arith) ∙ omega arith in
    rw (count, positive, short, found, end) refl

abbrev pub encode_schema : TmqRawDataSchema → List ℕ
encode_schema s =
    s.col_type
    ∷ s.flag
    ∷ (encode 8 (zigzag_encode s.bytes)
        ++ (encode 8 (zigzag_encode s.col_id) ++ encode_name s.name))

-- The ints whose zigzag form is not negative.
abbrev pub IsNear : ℕ → Type 0
IsNear x = (x < 2 ^ 64) × ((x < 2 ^ 62) ⊎ (2 ^ 64 - 2 ^ 62 ≤ x))

abbrev pub IsSchema : TmqRawDataSchema → Type 0
IsSchema s = (s.col_type < 256) × (s.flag < 256) × IsNear s.bytes × IsNear s.col_id

byte_at :
    (b pre post : List ℕ) (x : ℕ)
    → b ≡ pre ++ (x ∷ post)
    → x < 256
    → length b < 2 ^ 62
    → parse_uint8 b (length pre) ≡ some (x, length (pre ++ (x ∷ [])))
byte_at b pre post x place small near =
    ap (λ (y : List ℕ). parse_uint8 y (length pre)) place
    ∙ (parse_uint8_here pre post x small
          (omega (arith, ap length place, length-append pre (x ∷ post)))
        ∙ ap (λ (k : ℕ). some (x, k)) (sym (length-append pre (x ∷ []))))

int_at :
    (b pre post : List ℕ) (x : ℕ)
    → b ≡ pre ++ (encode 8 (zigzag_encode x) ++ post)
    → IsNear x
    → length b < 2 ^ 62
    → parse_zigzag_variable_byte_integer b (length pre)
      ≡ some (x, length (pre ++ encode 8 (zigzag_encode x)))
int_at b pre post x place near small =
    ap (λ (y : List ℕ). parse_zigzag_variable_byte_integer y (length pre)) place
    ∙ (parse_zigzag_variable_byte_integer-encode x pre post near.0 near.1
          (omega (arith, ap length place))
        ∙ ap (λ (k : ℕ). some (x, k)) (sym (length-append pre (encode 8 (zigzag_encode x)))))

name_at :
    (b pre post name : List ℕ)
    → b ≡ pre ++ (encode_name name ++ post)
    → length b < 2 ^ 62
    → parse_name b (length pre) ≡ some (name, length (pre ++ encode_name name))
name_at b pre post name place small =
    ap (λ (y : List ℕ). parse_name y (length pre)) place
    ∙ (parse_name-encode_name name pre post (omega (arith, ap length place))
        ∙ ap (λ (k : ℕ). some (name, k)) (sym (length-append pre (encode_name name))))

schema_steps :
    (b : List ℕ) (o0 o1 o2 o3 o4 o5 : ℕ) (s : TmqRawDataSchema)
    → parse_uint8 b o0 ≡ some (s.col_type, o1)
    → parse_int8 b o1 ≡ some (s.flag, o2)
    → parse_zigzag_variable_byte_integer b o2 ≡ some (s.bytes, o3)
    → parse_zigzag_variable_byte_integer b o3 ≡ some (s.col_id, o4)
    → parse_name b o4 ≡ some (s.name, o5)
    → parse_schema b o0 ≡ some (s, o5)
unfolding parse_schema
schema_steps b o0 o1 o2 o3 o4 o5 s t f w i n = rw (t, f, w, i, n) refl

same_byte : (b : List ℕ) (off : ℕ) → parse_int8 b off ≡ parse_uint8 b off
unfolding parse_int8 parse_uint8
same_byte b off = refl

-- Wherever a column's schema stands in the memory in this form, `parseSchema` reads it and stops
-- behind it: for memory of less than 2 ^ 62 bytes, a type and a flag of one byte each, and a width
-- and an identifier from -2 ^ 62 to 2 ^ 62 - 1.
pub parse_schema-encode_schema :
    (s : TmqRawDataSchema) (pre post : List ℕ)
    → IsSchema s
    → length (pre ++ (encode_schema s ++ post)) < 2 ^ 62
    → parse_schema (pre ++ (encode_schema s ++ post)) (length pre)
      ≡ some (s, length pre + length (encode_schema s))
parse_schema-encode_schema s pre post (low_type, low_flag, near_bytes, near_id) small =
    let e1 = encode 8 (zigzag_encode s.bytes) in
    let e2 = encode 8 (zigzag_encode s.col_id) in
    let en = encode_name s.name in
    let b = pre ++ (encode_schema s ++ post) in
    let p1 = pre ++ (s.col_type ∷ []) in
    let p2 = p1 ++ (s.flag ∷ []) in
    let b1 = sym (append_assoc pre (s.col_type ∷ []) (s.flag ∷ ((e1 ++ (e2 ++ en)) ++ post))) in
    let b2 = b1 ∙ sym (append_assoc p1 (s.flag ∷ []) ((e1 ++ (e2 ++ en)) ++ post)) in
    let b2' = b2 ∙ ap (λ (x : List ℕ). p2 ++ x) (append_assoc e1 (e2 ++ en) post) in
    let b3 = b2' ∙ sym (append_assoc p2 e1 ((e2 ++ en) ++ post)) in
    let b3' = b3 ∙ ap (λ (x : List ℕ). (p2 ++ e1) ++ x) (append_assoc e2 en post) in
    let b4 = b3' ∙ sym (append_assoc (p2 ++ e1) e2 (en ++ post)) in
    let steps =
      schema_steps b (length pre) (length p1) (length p2) (length (p2 ++ e1))
        (length ((p2 ++ e1) ++ e2)) (length (((p2 ++ e1) ++ e2) ++ en)) s
        (byte_at b pre (s.flag ∷ ((e1 ++ (e2 ++ en)) ++ post)) s.col_type refl low_type small)
        (same_byte b (length p1)
          ∙ byte_at b p1 ((e1 ++ (e2 ++ en)) ++ post) s.flag b1 low_flag small)
        (int_at b p2 ((e2 ++ en) ++ post) s.bytes b2' near_bytes small)
        (int_at b (p2 ++ e1) (en ++ post) s.col_id b3' near_id small)
        (name_at b ((p2 ++ e1) ++ e2) post s.name b4 small) in
    steps
    ∙ ap (λ (k : ℕ). some (s, k))
        (omega (
          arith,
          length-append ((p2 ++ e1) ++ e2) en,
          length-append (p2 ++ e1) e2,
          length-append p2 e1,
          length-append p1 (s.flag ∷ []),
          length-append pre (s.col_type ∷ []),
          length-append e1 (e2 ++ en),
          length-append e2 en,
        ))
