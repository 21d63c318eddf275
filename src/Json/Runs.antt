-- ===== src/Json/Runs.antt =====
-- Runs of tools/jsonbuilder and tools/ctools/block.go.
use taosadapter.Common.{ℕ, ◌^◌, ◌≡◌, refl, false, List, [], ◌∷◌, ◌++◌, some, arith}
use taosadapter.Block.{add_pointer}
use taosadapter.Block.{add_pointer}
use taosadapter.Block.Parse.{sign_extend, raw_get_bytes, raw_convert_var_data, item_raw_block}
use taosadapter.Json.Int.{write_int8, write_int16, write_int32, write_int64}
use taosadapter.Json.Int.Decimal.{PrintedInt, write_int-IsDecimal}
use taosadapter.Json.Str.{write_string}
use taosadapter.Json.Str.Escape.{escape_all}
use taosadapter.Json.Str.Reader.{plain, read_string, read_string-write_string}
use taosadapter.Json.Rune.{write_rune, write_rune_string}
use taosadapter.Json.Rune.Utf8.{decode, decode-write_rune}
use taosadapter.Json.Stream.{
  Stream, write_object_start, write_object_end, write_array_start, write_array_end,
}
use taosadapter.Json.Stream.Balance.{indention_restored}
use taosadapter.Json.Block.{Texts, json_write_raw_block}
use taosadapter.Json.Block.Values.{json_write_raw_block-item_raw_block}

write_int-IsDecimal_example :
    PrintedInt 7 128 [] (write_int8 128 [])
    × PrintedInt 15 7 [] (write_int16 7 [])
    × PrintedInt 31 (4294967295) [] (write_int32 (4294967295) [])
    × PrintedInt 63 (2 ^ 63) [] (write_int64 (2 ^ 63) [])
write_int-IsDecimal_example =
    write_int-IsDecimal 128 7 (4294967295) (2 ^ 63) [] (omega arith) (omega arith) (omega arith)
      (omega arith)

-- `a"` and a line break, in front of a comma.
read_string-write_string_example :
    (text : List ℕ) × (write_string (97 ∷ 34 ∷ 10 ∷ []) (91 ∷ []) ≡ (91 ∷ []) ++ (34 ∷ text))
    × (read_string plain (text ++ (44 ∷ [])) ≡ some (97 ∷ 34 ∷ 10 ∷ [], 44 ∷ []))
read_string-write_string_example = read_string-write_string (97 ∷ 34 ∷ 10 ∷ []) (91 ∷ []) (44 ∷ [])

decode-write_rune_example :
    (bs : List ℕ) × (write_rune 0x4e2d [] ≡ [] ++ bs)
    × (write_rune_string 0x4e2d [] ≡ [] ++ escape_all bs)
    × (decode (bs ++ (65 ∷ [])) ≡ some (0x4e2d, 65 ∷ []))
decode-write_rune_example = decode-write_rune 0x4e2d [] (65 ∷ [])

abbrev indented : Stream
indented = record { indention_step = 2; buf = []; error = false; indention = 4 }

-- An object with the name of a field.
abbrev one_field : Stream → Stream
one_field st = record st { buf = st.buf ++ (34 ∷ 97 ∷ 34 ∷ 58 ∷ []) }

indention_restored_example :
    ((write_object_end (one_field (write_object_start indented))).indention ≡ 4)
    × ((write_array_end (one_field (write_array_start indented))).indention ≡ 4)
indention_restored_example =
    indention_restored indented one_field (omega arith) (omega arith) (λ s. refl) (λ s. refl)

abbrev no_texts : Texts
no_texts = record {
  float32_text = λ e bits. [];
  float64_text = λ e bits. [];
  time_text = λ precision ts. [];
}

-- One cell `a"` of type binary, at offset 0.
abbrev one_cell : List ℕ
one_cell = 0 ∷ 0 ∷ 0 ∷ 0 ∷ 2 ∷ 0 ∷ 97 ∷ 34 ∷ []

json_write_raw_block-item_raw_block_example :
    json_write_raw_block no_texts one_cell 8 0 4 0 0 indented
    ≡ some (record {
      indention_step = 2;
      buf = 34 ∷ 97 ∷ 92 ∷ 34 ∷ 34 ∷ [];
      error = false;
      indention = 4;
    })
unfolding item_raw_block raw_convert_var_data raw_get_bytes sign_extend add_pointer
json_write_raw_block-item_raw_block_example =
    json_write_raw_block-item_raw_block no_texts one_cell 8 0 4 0 0 indented refl
