-- ===== src/Json/Rune/Utf8.antt =====
-- The runes of tools/jsonbuilder/stream_rune.go against a decoder of UTF-8.
use taosadapter.Common.{
  ℕ, ◌+◌, ◌-◌, ◌*◌, ◌/◌, ◌%◌, ◌≤◌, ◌≡◌, refl, sym, ◌∙◌, ap, Bool, true, false, ◌&&◌, ◌||◌, List, [],
  ◌∷◌, ◌++◌, append_assoc, Option, none, some, arith, ltb, leb, if◌then◌else◌, if_both,
}
use taosadapter.Json.Str.Escape.{escape_all, write_bytes, write_bytes-escape_all}
use taosadapter.Json.Rune.{is_bad, three_bytes, three_string_bytes, write_rune, write_rune_string}

-- The rune that stands for `r`: itself, or the replacement character.
abbrev pub valid : ℕ → ℕ
valid r = if is_bad r then 0xfffd else r

abbrev is_more : ℕ → Bool
is_more c = leb 128 c && ltb c 192

abbrev keep_if : Bool → ℕ → List ℕ → Option (ℕ × List ℕ)
keep_if true r rest = some (r, rest)
keep_if false r rest = none

abbrev decode_two : ℕ → List ℕ → Option (ℕ × List ℕ)
decode_two a [] = none
decode_two a (b ∷ rest) =
    let r = (a - 192) * 64 + (b - 128) in keep_if (is_more b && leb 0x80 r) r rest

abbrev decode_three : ℕ → List ℕ → Option (ℕ × List ℕ)
decode_three a [] = none
decode_three a (b ∷ []) = none
decode_three a (b ∷ c ∷ rest) =
    let r = (a - 224) * 4096 + (b - 128) * 64 + (c - 128) in
    keep_if (is_more b && (is_more c && (leb 0x800 r && (ltb r 0xd800 || ltb 0xdfff r)))) r rest

abbrev decode_four : ℕ → List ℕ → Option (ℕ × List ℕ)
decode_four a [] = none
decode_four a (b ∷ []) = none
decode_four a (b ∷ c ∷ []) = none
decode_four a (b ∷ c ∷ d ∷ rest) =
    let r = (a - 240) * 262144 + (b - 128) * 4096 + (c - 128) * 64 + (d - 128) in
    keep_if (is_more b && (is_more c && (is_more d && (leb 0x1_0000 r && leb r 0x10_ffff)))) r rest

-- The first rune of a text and what follows it: no longer form than needed, and no surrogate.
pub decode : List ℕ → Option (ℕ × List ℕ)
decode [] = none
decode (a ∷ rest) =
    if ltb a 128
    then some (a, rest)
    else if ltb a 192
    then none
    else if ltb a 224
    then decode_two a rest
    else if ltb a 240
    then decode_three a rest
    else if ltb a 248
    then decode_four a rest
    else none

-- The bytes of a rune.
abbrev pub utf8 : ℕ → List ℕ
utf8 r =
    if leb r 0x7f
    then r ∷ []
    else if leb r 0x7ff
    then (192 + r / 64) ∷ (128 + r % 64) ∷ []
    else if is_bad r
    then 239 ∷ 191 ∷ 189 ∷ []
    else if leb r 0xffff
    then (224 + r / 4096) ∷ (128 + r / 64 % 64) ∷ (128 + r % 64) ∷ []
    else (240 + r / 262144) ∷ (128 + r / 4096 % 64) ∷ (128 + r / 64 % 64) ∷ (128 + r % 64) ∷ []

snoc_two : (buf : List ℕ) (a b : ℕ) → (buf ++ (a ∷ [])) ++ (b ∷ []) ≡ buf ++ (a ∷ b ∷ [])
snoc_two buf a b = append_assoc buf (a ∷ []) (b ∷ [])

snoc_three :
    (buf : List ℕ) (a b c : ℕ)
    → ((buf ++ (a ∷ [])) ++ (b ∷ [])) ++ (c ∷ []) ≡ buf ++ (a ∷ b ∷ c ∷ [])
snoc_three buf a b c =
    ap (λ (x : List ℕ). x ++ (c ∷ [])) (snoc_two buf a b) ∙ append_assoc buf (a ∷ b ∷ []) (c ∷ [])

snoc_four :
    (buf : List ℕ) (a b c d : ℕ)
    → (((buf ++ (a ∷ [])) ++ (b ∷ [])) ++ (c ∷ [])) ++ (d ∷ []) ≡ buf ++ (a ∷ b ∷ c ∷ d ∷ [])
snoc_four buf a b c d =
    ap (λ (x : List ℕ). x ++ (d ∷ [])) (snoc_three buf a b c)
    ∙ append_assoc buf (a ∷ b ∷ c ∷ []) (d ∷ [])

write_rune-utf8 : (r : ℕ) (buf : List ℕ) → write_rune r buf ≡ buf ++ utf8 r
unfolding write_rune three_bytes
write_rune-utf8 r buf = ground (
  arith,
  snoc_two buf (192 + r / 64) (128 + r % 64),
  snoc_three buf 239 191 189,
  snoc_three buf (224 + r / 4096) (128 + r / 64 % 64) (128 + r % 64),
  snoc_four buf (240 + r / 262144) (128 + r / 4096 % 64) (128 + r / 64 % 64) (128 + r % 64),
)

pub write_rune_string-utf8 :
    (r : ℕ) (buf : List ℕ) → write_rune_string r buf ≡ write_bytes (utf8 r) buf
unfolding write_rune_string three_string_bytes
write_rune_string-utf8 r buf = ground arith

abbrev Decodes : ℕ → List ℕ → List ℕ → Type 0
Decodes r rest x = decode (x ++ rest) ≡ some (valid r, rest)

decode_two_lem :
    (r : ℕ) (rest : List ℕ)
    → 0x80 ≤ r
    → r ≤ 0x7ff
    → decode ((192 + r / 64) ∷ (128 + r % 64) ∷ rest) ≡ some (r, rest)
unfolding decode
decode_two_lem r rest h k =
    let back : (192 + r / 64 - 192) * 64 + (128 + r % 64 - 128) ≡ r = omega arith in
    rw back (ground arith)

decode_three_lem :
    (r : ℕ) (rest : List ℕ)
    → 0x800 ≤ r
    → r ≤ 0xffff
    → is_bad r ≡ false
    → decode ((224 + r / 4096) ∷ (128 + r / 64 % 64) ∷ (128 + r % 64) ∷ rest) ≡ some (r, rest)
unfolding decode
decode_three_lem r rest h k e =
    let back : (224 + r / 4096 - 224) * 4096 + (128 + r / 64 % 64 - 128) * 64 + (128 + r % 64 - 128)
        ≡ r =
      omega arith in
    rw back (ground arith)

decode_four_lem :
    (r : ℕ) (rest : List ℕ)
    → 0x1_0000 ≤ r
    → is_bad r ≡ false
    → decode
        ((240 + r / 262144) ∷ (128 + r / 4096 % 64) ∷ (128 + r / 64 % 64) ∷ (128 + r % 64) ∷ rest)
      ≡ some (r, rest)
unfolding decode
decode_four_lem r rest h e =
    let back : (240 + r / 262144 - 240) * 262144
          + (128 + r / 4096 % 64 - 128) * 4096
          + (128 + r / 64 % 64 - 128) * 64
          + (128 + r % 64 - 128)
        ≡ r =
      omega arith in
    rw back (ground arith)

valid_small : (r : ℕ) → is_bad r ≡ false → valid r ≡ r
valid_small r e = rw e refl

decode_one : (r : ℕ) (rest : List ℕ) → r ≤ 0x7f → decode (r ∷ rest) ≡ some (r, rest)
unfolding decode
decode_one r rest h = ground arith

decode_bad : (rest : List ℕ) → decode (239 ∷ 191 ∷ 189 ∷ rest) ≡ some (0xfffd, rest)
unfolding decode
decode_bad rest = refl

-- The value that is decoded, as the rune that stands for `r`.
as_valid :
    (r v : ℕ) (x rest : List ℕ)
    → decode x ≡ some (v, rest)
    → valid r ≡ v
    → decode x ≡ some (valid r, rest)
as_valid r v x rest e f = e ∙ ap (λ (n : ℕ). some (n, rest)) (sym f)

decode-utf8 : (r : ℕ) (rest : List ℕ) → Decodes r rest (utf8 r)
decode-utf8 r rest =
    if_both (Decodes r rest) (leb r 0x7f) _ _
      (λ e. as_valid r r _ rest (decode_one r rest (ground arith)) (ground arith))
      λ e.
        if_both (Decodes r rest) (leb r 0x7ff) _ _
          (λ e1.
            as_valid r r _ rest (decode_two_lem r rest (ground arith) (ground arith))
              (ground arith))
          λ e1.
            if_both (Decodes r rest) (is_bad r) _ _
              (λ e2. as_valid r 0xfffd _ rest (decode_bad rest) (rw e2 refl))
              λ e2.
                if_both (Decodes r rest) (leb r 0xffff) _ _
                  (λ e3.
                    as_valid r r _ rest (decode_three_lem r rest (ground arith) (ground arith) e2)
                      (rw e2 refl))
                  λ e3. as_valid r r _ rest (decode_four_lem r rest (ground arith) e2) (rw e2 refl)

-- `WriteRune` puts the UTF-8 form of the rune behind what is in the buffer, where a decoder finds
-- the rune again, or the replacement character for a number that is no rune; and
-- `WriteRuneString` puts the same bytes there with the escapes of a JSON string.
pub decode-write_rune :
    (r : ℕ) (buf rest : List ℕ)
    → (bs : List ℕ) × (write_rune r buf ≡ buf ++ bs)
      × (write_rune_string r buf ≡ buf ++ escape_all bs)
      × (decode (bs ++ rest) ≡ some (valid r, rest))
decode-write_rune r buf rest = (
  utf8 r,
  write_rune-utf8 r buf,
  write_rune_string-utf8 r buf ∙ write_bytes-escape_all (utf8 r) buf,
  decode-utf8 r rest,
)
