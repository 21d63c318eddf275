-- ===== src/Json/Block/Cells.antt =====
-- The JSON of tools/ctools/block.go against the values of driver/common/parser/block.go.
use taosadapter.Common.{
  ℕ, ◌/◌, ◌%◌, ◌<◌, ◌≡◌, refl, sym, ◌∙◌, ap, true, false, List, [], ◌∷◌, ◌++◌, append_assoc,
  append-nil, arith, ◌==◌, ltb, if◌then◌else◌, Bool-cases, inl, inr,
}
use taosadapter.Block.{tsdb_json}
use taosadapter.Block.Parse.{
  Value, null, bool, int8, int16, int32, int64, uint8, uint16, uint32, uint64, float32, float64,
  time, bytes, text, runes,
}
use taosadapter.Json.Int.{
  write_uint8, write_int8, write_uint16, write_int16, write_uint32, write_int32, write_uint64,
  write_int64,
}
use taosadapter.Json.Str.{hex, write_string, write_string_byte}
use taosadapter.Json.Str.Escape.{escaped, escape_all, write_bytes, write_bytes-escape_all}
use taosadapter.Json.Rune.{write_rune_string}
use taosadapter.Json.Rune.Utf8.{utf8, write_rune_string-utf8}
use taosadapter.Json.Stream.{
  Stream, on_buf, add_byte, write_raw, write_nil, write_true, write_false, write_float32,
  write_float64,
}
use taosadapter.Json.Block.{
  Texts, string_bytes, string_runes, plain_bytes, format_hex, hex_bytes, quoted,
}

abbrev pub utf8_all : List ℕ → List ℕ
utf8_all [] = []
utf8_all (r ∷ rs) = utf8 r ++ utf8_all rs

abbrev pub hex_all : List ℕ → List ℕ
hex_all [] = []
hex_all (b ∷ s) = hex (b / 16) ∷ hex (b % 16) ∷ hex_all s

-- A text behind what is in the buffer, plainly and in quotes.
abbrev pub appended : List ℕ → Stream → Stream
appended s = on_buf (λ buf. buf ++ s)

abbrev pub in_quotes : List ℕ → List ℕ
in_quotes s = 34 ∷ (s ++ (34 ∷ []))

-- The JSON of a value of a column of type `t`.
abbrev pub cell_json : Texts → ℕ → ℕ → Value → Stream → Stream
cell_json texts precision t null = write_nil
cell_json texts precision t (bool true) = write_true
cell_json texts precision t (bool false) = write_false
cell_json texts precision t (int8 x) = on_buf (write_int8 x)
cell_json texts precision t (int16 x) = on_buf (write_int16 x)
cell_json texts precision t (int32 x) = on_buf (write_int32 x)
cell_json texts precision t (int64 x) = on_buf (write_int64 x)
cell_json texts precision t (uint8 x) = on_buf (write_uint8 x)
cell_json texts precision t (uint16 x) = on_buf (write_uint16 x)
cell_json texts precision t (uint32 x) = on_buf (write_uint32 x)
cell_json texts precision t (uint64 x) = on_buf (write_uint64 x)
cell_json texts precision t (float32 x) = write_float32 texts.float32_text x
cell_json texts precision t (float64 x) = write_float64 texts.float64_text x
cell_json texts precision t (time ts) =
    on_buf (write_string (if ltb precision 3 then texts.time_text precision ts else []))
cell_json texts precision t (bytes s) =
    appended (if t == tsdb_json then s else in_quotes (hex_all s))
cell_json texts precision t (text s) = appended (in_quotes (escape_all s))
cell_json texts precision t (runes rs) = appended (in_quotes (escape_all (utf8_all rs)))

pub string_bytes_lem : (s : List ℕ) (st : Stream) → string_bytes s st ≡ appended (escape_all s) st
unfolding string_bytes
string_bytes_lem s st =
    steps s st ∙ ap (λ (buf : List ℕ). record st { buf = buf }) (write_bytes-escape_all s st.buf)
  where
    steps : (s : List ℕ) (st : Stream) → string_bytes s st ≡ on_buf (write_bytes s) st
    steps [] st = refl
    steps (c ∷ s) st = steps s (on_buf (write_string_byte c) st)

escape_all-append : (s s' : List ℕ) → escape_all (s ++ s') ≡ escape_all s ++ escape_all s'
escape_all-append [] s' = refl
escape_all-append (c ∷ s) s' =
    ap (λ (x : List ℕ). escaped c ++ x) (escape_all-append s s')
    ∙ sym (append_assoc (escaped c) (escape_all s) (escape_all s'))

pub string_runes_lem :
    (rs : List ℕ) (st : Stream) → string_runes rs st ≡ appended (escape_all (utf8_all rs)) st
unfolding string_runes
string_runes_lem [] st = ap (λ (buf : List ℕ). record st { buf = buf }) (sym (append-nil st.buf))
string_runes_lem (r ∷ rs) st =
    string_runes_lem rs (on_buf (write_rune_string r) st)
    ∙ ap (λ (buf : List ℕ). record st { buf = buf })
        (ap (λ (x : List ℕ). x ++ escape_all (utf8_all rs))
            (write_rune_string-utf8 r st.buf ∙ write_bytes-escape_all (utf8 r) st.buf)
          ∙ (append_assoc st.buf (escape_all (utf8 r)) (escape_all (utf8_all rs))
              ∙ ap (λ (x : List ℕ). st.buf ++ x) (sym (escape_all-append (utf8 r) (utf8_all rs)))))

pub plain_bytes_lem : (s : List ℕ) (st : Stream) → plain_bytes s st ≡ appended s st
unfolding plain_bytes add_byte
plain_bytes_lem [] st = ap (λ (buf : List ℕ). record st { buf = buf }) (sym (append-nil st.buf))
plain_bytes_lem (c ∷ s) st =
    plain_bytes_lem s (add_byte c st)
    ∙ ap (λ (buf : List ℕ). record st { buf = buf }) (append_assoc st.buf (c ∷ []) s)

hex_byte :
    (b : ℕ) (st : Stream)
    → write_raw (format_hex b) (if ltb b 16 then add_byte 48 st else st)
      ≡ appended (hex (b / 16) ∷ hex (b % 16) ∷ []) st
unfolding add_byte write_raw
hex_byte b st = elim (Bool-cases (ltb b 16)) [
  | inl e ↦ rw e (
      ap (λ (buf : List ℕ). record st { buf = buf })
        (append_assoc st.buf (48 ∷ []) (hex b ∷ []) ∙ low (ground arith)))
  | inr e ↦ rw e refl
]
  where
    low : b < 16 → st.buf ++ (48 ∷ hex b ∷ []) ≡ st.buf ++ (hex (b / 16) ∷ hex (b % 16) ∷ [])
    low h = ground arith

pub hex_bytes_lem : (s : List ℕ) (st : Stream) → hex_bytes s st ≡ appended (hex_all s) st
unfolding hex_bytes
hex_bytes_lem [] st = ap (λ (buf : List ℕ). record st { buf = buf }) (sym (append-nil st.buf))
hex_bytes_lem (b ∷ s) st =
    hex_bytes_lem s (write_raw (format_hex b) (if ltb b 16 then add_byte 48 st else st))
    ∙ (ap (appended (hex_all s)) (hex_byte b st)
        ∙ ap (λ (buf : List ℕ). record st { buf = buf })
            (append_assoc st.buf (hex (b / 16) ∷ hex (b % 16) ∷ []) (hex_all s)))

pub quoted_lem :
    (inside : Stream → Stream) (s : List ℕ) (st : Stream)
    → ((st' : Stream) → inside st' ≡ appended s st')
    → quoted inside st ≡ appended (in_quotes s) st
unfolding quoted add_byte
quoted_lem inside s st h =
    ap (add_byte 34) (h (add_byte 34 st))
    ∙ ap (λ (buf : List ℕ). record st { buf = buf })
        (append_assoc (st.buf ++ (34 ∷ [])) s (34 ∷ [])
          ∙ append_assoc st.buf (34 ∷ []) (s ++ (34 ∷ [])))
