-- ===== src/Json/Str/Reader.antt =====
-- What tools/jsonbuilder/stream_str.go writes for a string, against a reader of JSON strings.
use taosadapter.Common.{
  ℕ, zero, suc, ◌+◌, ◌-◌, ◌*◌, ◌/◌, ◌%◌, ◌<◌, ◌≡◌, ◌⊎◌, refl, ◌∙◌, ap, true, false, ◌&&◌, ◌||◌,
  List, [], ◌∷◌, ◌++◌, append_assoc, Option, none, some, arith, ltb, leb, ◌==◌, if◌then◌else◌,
  if_both, inl, inr,
}
use taosadapter.Json.Str.{hex, write_string}
use taosadapter.Json.Str.Escape.{escaped, escape_all, write_string_lem}

-- A reader of JSON strings, behind the opening quote. Of the escapes by number it knows those
-- below 128, which stand for one byte.
pub data Reader : Type 0 where
  plain slash : Reader
  unicode : ℕ → ℕ → Reader

pub data Move : Type 0 where
  bad closes : Move
  goes : List ℕ → Reader → Move

abbrev unhex : ℕ → Option ℕ
unhex c =
    if leb 48 c && leb c 57
    then some (c - 48)
    else if leb 97 c && leb c 102
    then some (c - 87)
    else if leb 65 c && leb c 70
    then some (c - 55)
    else none

abbrev unicode_move : ℕ → ℕ → Option ℕ → Move
unicode_move left acc none = bad
unicode_move zero acc (some d) =
    if ltb (acc * 16 + d) 128 then goes ((acc * 16 + d) ∷ []) plain else bad
unicode_move (suc left) acc (some d) = goes [] (unicode left (acc * 16 + d))

pub move : Reader → ℕ → Move
move plain c =
    if c == 34
    then closes
    else if c == 92
    then goes [] slash
    else if ltb c 32
    then bad
    else goes (c ∷ []) plain
move slash c =
    if c == 34 || (c == 92 || c == 47)
    then goes (c ∷ []) plain
    else if c == 110
    then goes (10 ∷ []) plain
    else if c == 114
    then goes (13 ∷ []) plain
    else if c == 116
    then goes (9 ∷ []) plain
    else if c == 98
    then goes (8 ∷ []) plain
    else if c == 102
    then goes (12 ∷ []) plain
    else if c == 117
    then goes [] (unicode 3 0)
    else bad
move (unicode left acc) c = unicode_move left acc (unhex c)

abbrev prepend : List ℕ → Option (List ℕ × List ℕ) → Option (List ℕ × List ℕ)
prepend out none = none
prepend out (some (s, rest)) = some (out ++ s, rest)

-- The string up to the closing quote, and what follows it.
abbrev pub read_string : Reader → List ℕ → Option (List ℕ × List ℕ)
read_string r [] = none
read_string r (c ∷ s) = elim (move r c) [
  | bad ↦ none
  | closes ↦ some ([], s)
  | goes out r' ↦ prepend out (read_string r' s)
]

prepend_nil : (o : Option (List ℕ × List ℕ)) → prepend [] o ≡ o
prepend_nil none = refl
prepend_nil (some (s, rest)) = refl

unhex-hex : (d : ℕ) → d < 16 → unhex (hex d) ≡ some d
unhex-hex d h = ground arith

read_goes :
    (r r' : Reader) (c : ℕ) (s out : List ℕ)
    → move r c ≡ goes out r'
    → read_string r (c ∷ s) ≡ prepend out (read_string r' s)
read_goes r r' c s out e = rw (e, read_string) refl

-- A step that gives no byte.
read_on :
    (r r' : Reader) (c : ℕ) (s : List ℕ)
    → move r c ≡ goes [] r'
    → read_string r (c ∷ s) ≡ read_string r' s
read_on r r' c s e = read_goes r r' c s [] e ∙ prepend_nil (read_string r' s)

move-hex :
    (left acc d : ℕ)
    → d < 16
    → move (unicode (suc left) acc) (hex d) ≡ goes [] (unicode left (acc * 16 + d))
unfolding move
move-hex left acc d h = rw (unhex-hex d h) refl

move_last :
    (acc d : ℕ)
    → d < 16
    → acc * 16 + d < 128
    → move (unicode 0 acc) (hex d) ≡ goes ((acc * 16 + d) ∷ []) plain
unfolding move
move_last acc d h k = rw (unhex-hex d h) (ground arith)

move_zero : (left : ℕ) → move (unicode (suc left) 0) 48 ≡ goes [] (unicode left 0)
unfolding move
move_zero left = refl

move_slash : move plain 92 ≡ goes [] slash
unfolding move
move_slash = refl

move_unicode : move slash 117 ≡ goes [] (unicode 3 0)
unfolding move
move_unicode = refl

-- The escape of a control byte by its number.
read_control :
    (b : ℕ) (t : List ℕ)
    → b < 32
    → read_string plain (92 ∷ 117 ∷ 48 ∷ 48 ∷ hex (b / 16) ∷ hex (b % 16) ∷ t)
      ≡ prepend (b ∷ []) (read_string plain t)
read_control b t h =
    read_on plain slash 92 _ move_slash
    ∙ (read_on slash (unicode 3 0) 117 _ move_unicode
        ∙ (read_on (unicode 3 0) (unicode 2 0) 48 _ (move_zero 2)
            ∙ (read_on (unicode 2 0) (unicode 1 0) 48 _ (move_zero 1)
                ∙ (read_on (unicode 1 0) (unicode 0 (0 * 16 + b / 16)) (hex (b / 16)) _
                      (move-hex 0 0 (b / 16) (omega arith))
                    ∙ (read_goes (unicode 0 (0 * 16 + b / 16)) plain (hex (b % 16)) t
                          (((0 * 16 + b / 16) * 16 + b % 16) ∷ [])
                          (move_last (0 * 16 + b / 16) (b % 16) (omega arith) (omega arith))
                        ∙ ap (λ (x : ℕ). prepend (x ∷ []) (read_string plain t)) (omega arith))))))

-- A short escape.
read_short :
    (b c : ℕ) (t : List ℕ)
    → move slash c ≡ goes (b ∷ []) plain
    → read_string plain (92 ∷ c ∷ t) ≡ prepend (b ∷ []) (read_string plain t)
read_short b c t e =
    read_on plain slash 92 (c ∷ t) move_slash ∙ read_goes slash plain c t (b ∷ []) e

move_self : (b : ℕ) → (b == 92 || b == 34) ≡ true → move slash b ≡ goes (b ∷ []) plain
unfolding move
move_self b e = ground arith

move_letter :
    (b c : ℕ)
    → (b ≡ 10) × (c ≡ 110) ⊎ ((b ≡ 13) × (c ≡ 114)) ⊎ ((b ≡ 9) × (c ≡ 116))
    → move slash c ≡ goes (b ∷ []) plain
unfolding move
move_letter b c (inl h) = ground arith
move_letter b c (inr (inl h)) = ground arith
move_letter b c (inr (inr h)) = ground arith

move_plain :
    (b : ℕ) → (b == 92 || b == 34) ≡ false → ltb b 32 ≡ false → move plain b ≡ goes (b ∷ []) plain
unfolding move
move_plain b e f = ground arith

abbrev ReadsByte : ℕ → List ℕ → List ℕ → Type 0
ReadsByte b t x = read_string plain (x ++ t) ≡ prepend (b ∷ []) (read_string plain t)

read_escaped : (b : ℕ) (t : List ℕ) → ReadsByte b t (escaped b)
read_escaped b t =
    if_both (ReadsByte b t) (b == 92 || b == 34) _ _ (λ e. read_short b b t (move_self b e))
      λ e.
        if_both (ReadsByte b t) (b == 10) _ _
          (λ e1. read_short b 110 t (move_letter b 110 (ground arith)))
          λ e1.
            if_both (ReadsByte b t) (b == 13) _ _
              (λ e2. read_short b 114 t (move_letter b 114 (ground arith)))
              λ e2.
                if_both (ReadsByte b t) (b == 9) _ _
                  (λ e3. read_short b 116 t (move_letter b 116 (ground arith)))
                  λ e3.
                    if_both (ReadsByte b t) (ltb b 32) _ _ (λ e4. read_control b t (ground arith))
                      λ e4. read_goes plain plain b t (b ∷ []) (move_plain b e e4)

read_string-escape_all :
    (s rest : List ℕ) → read_string plain (escape_all s ++ (34 ∷ rest)) ≡ some (s, rest)
unfolding move
read_string-escape_all [] rest = refl
read_string-escape_all (b ∷ s) rest =
    ap (read_string plain) (append_assoc (escaped b) (escape_all s) (34 ∷ rest))
    ∙ read_escaped b (escape_all s ++ (34 ∷ rest))
    ∙ ap (prepend (b ∷ [])) (read_string-escape_all s rest)

-- `WriteString` puts a JSON string behind what is in the buffer: an opening quote and a text from
-- which a JSON reader gets back the bytes of the string, up to the closing quote that ends it.
pub read_string-write_string :
    (s buf rest : List ℕ)
    → (text : List ℕ) × (write_string s buf ≡ buf ++ (34 ∷ text))
      × (read_string plain (text ++ rest) ≡ some (s, rest))
read_string-write_string s buf rest = (
  escape_all s ++ (34 ∷ []),
  write_string_lem s buf,
  ap (read_string plain) (append_assoc (escape_all s) (34 ∷ []) rest)
      ∙ read_string-escape_all s rest,
)
