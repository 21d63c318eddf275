-- ===== src/Json/Rune.antt =====
-- tools/jsonbuilder/stream_rune.go: a rune, an int32 given as its bit pattern, as UTF-8. The masks
-- have no bit in common, so that `|` is a sum. The functions take and give `stream.buf`.
pub mod Utf8
use taosadapter.Common.{
  ℕ, ◌+◌, ◌/◌, ◌%◌, Bool, ◌&&◌, ◌||◌, List, [], ◌∷◌, ◌++◌, ltb, leb, if◌then◌else◌,
}
use taosadapter.Json.Str.{write_string_byte}

-- `i > MaxRune`, or a surrogate.
abbrev is_bad : ℕ → Bool
is_bad r = ltb 0x10_ffff r || (leb 0xd800 r && leb r 0xdfff)

three_bytes : ℕ → List ℕ → List ℕ
three_bytes r buf =
    ((buf ++ ((224 + r / 4096) ∷ [])) ++ ((128 + r / 64 % 64) ∷ [])) ++ ((128 + r % 64) ∷ [])

pub write_rune : ℕ → List ℕ → List ℕ
unfolding three_bytes
write_rune r buf =
    if leb r 0x7f
    then buf ++ (r ∷ [])
    else if leb r 0x7ff
    then (buf ++ ((192 + r / 64) ∷ [])) ++ ((128 + r % 64) ∷ [])
    else if is_bad r
    then three_bytes 0xfffd buf
    else if leb r 0xffff
    then three_bytes r buf
    else (((buf ++ ((240 + r / 262144) ∷ [])) ++ ((128 + r / 4096 % 64) ∷ []))
        ++ ((128 + r / 64 % 64) ∷ []))
      ++ ((128 + r % 64) ∷ [])

three_string_bytes : ℕ → List ℕ → List ℕ
three_string_bytes r buf =
    write_string_byte (128 + r % 64)
      (write_string_byte (128 + r / 64 % 64) (write_string_byte (224 + r / 4096) buf))

pub write_rune_string : ℕ → List ℕ → List ℕ
unfolding three_string_bytes
write_rune_string r buf =
    if leb r 0x7f
    then write_string_byte r buf
    else if leb r 0x7ff
    then write_string_byte (128 + r % 64) (write_string_byte (192 + r / 64) buf)
    else if is_bad r
    then three_string_bytes 0xfffd buf
    else if leb r 0xffff
    then three_string_bytes r buf
    else write_string_byte (128 + r % 64) (
        write_string_byte (128 + r / 64 % 64)
          (write_string_byte (128 + r / 4096 % 64) (write_string_byte (240 + r / 262144) buf)))
