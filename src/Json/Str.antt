-- ===== src/Json/Str.antt =====
-- tools/jsonbuilder/stream_str.go: strings, given as their bytes, with JSON's escapes. The
-- functions take and give `stream.buf`.
pub mod Escape
pub mod Reader
use taosadapter.Common.{
  ℕ, ◌+◌, ◌/◌, ◌%◌, ◌≡◌, Bool, true, false, not, ◌&&◌, ◌||◌, List, [], ◌∷◌, ◌++◌, ltb, ◌==◌,
  if◌then◌else◌,
}

-- The table `safeSet`, below 128.
abbrev safe_set : ℕ → Bool
safe_set b = not (ltb b 32 || (b == 34 || b == 92))

-- `hex[d]`
abbrev pub hex : ℕ → ℕ
hex d = if ltb d 10 then d + 48 else d + 87

-- The switch over a byte that needs an escape.
pub escape_byte : ℕ → List ℕ → List ℕ
escape_byte b buf =
    if b == 92 || b == 34
    then buf ++ (92 ∷ b ∷ [])
    else if b == 10
    then buf ++ (92 ∷ 110 ∷ [])
    else if b == 13
    then buf ++ (92 ∷ 114 ∷ [])
    else if b == 9
    then buf ++ (92 ∷ 116 ∷ [])
    else (buf ++ (92 ∷ 117 ∷ 48 ∷ 48 ∷ [])) ++ (hex (b / 16) ∷ hex (b % 16) ∷ [])

-- One round of `writeStringSlowPath`: `pending` is `s[start:i]`.
unfoldable slow_round : ℕ → List ℕ × List ℕ → List ℕ × List ℕ
unfolding escape_byte
slow_round b (pending, buf) =
    if ltb b 128
    then (if safe_set b then (pending ++ (b ∷ []), buf) else ([], escape_byte b (buf ++ pending)))
    else (pending ++ (b ∷ []), buf)

slow_end : List ℕ × List ℕ → List ℕ
slow_end (pending, buf) = (buf ++ pending) ++ (34 ∷ [])

unfoldable slow_path : List ℕ → List ℕ × List ℕ → List ℕ
unfolding slow_round slow_end
slow_path [] st = slow_end st
slow_path (b ∷ rest) st = slow_path rest (slow_round b st)

-- The loop of the fast path, which hands what is left over to the slow path.
unfoldable fast_path : List ℕ → List ℕ → List ℕ
unfolding slow_path
fast_path [] buf = buf ++ (34 ∷ [])
fast_path (c ∷ rest) buf =
    let more = fast_path rest (buf ++ (c ∷ [])) in
    if ltb 31 c && (not (c == 34) && not (c == 92)) then more else slow_path (c ∷ rest) ([], buf)

unfoldable pub write_string : List ℕ → List ℕ → List ℕ
unfolding fast_path
write_string s buf = fast_path s (buf ++ (34 ∷ []))

pub write_string_byte : ℕ → List ℕ → List ℕ
unfolding escape_byte
write_string_byte c buf =
    if ltb 31 c && (not (c == 34) && not (c == 92))
    then buf ++ (c ∷ [])
    else if ltb c 128
    then (if safe_set c then buf ++ (c ∷ []) else escape_byte c buf)
    else buf
