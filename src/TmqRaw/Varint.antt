-- ===== src/TmqRaw/Varint.antt =====
-- The variable-length integers of driver/common/parser/raw.go against an encoder: seven bits a
-- byte, the lowest first, and the eighth bit on all bytes but the last.
use taosadapter.Common.{
  Bool-cases, inl, inr, ℕ, zero, suc, ◌+◌, ◌-◌, ◌*◌, ◌/◌, ◌%◌, ◌^◌, ◌≤◌, ◌<◌, ◌≡◌, ◌⊎◌, refl, sym,
  ◌∙◌, ap, subst, true, false, List, [], ◌∷◌, ◌++◌, append_assoc, some, arith, ◌==◌, ltb,
  if◌then◌else◌, length, length-append,
}
use taosadapter.Common.Bytes.{read_le}
use taosadapter.Common.Bytes.Reads.{read_le-le_bytes}
use taosadapter.Block.RoundTrip.Reading.{add_pointer_small}
use taosadapter.TmqRaw.{
  skip, parse_uint8, variable_rounds, parse_variable_byte_integer, zigzag_decode,
  parse_zigzag_variable_byte_integer,
}

-- `more` is how many bytes may follow the first.
abbrev pub encode : ℕ → ℕ → List ℕ
encode zero n = n % 128 ∷ []
encode (suc more) n = if ltb n 128 then n ∷ [] else (n % 128 + 128) ∷ encode more (n / 128)

-- One byte at a known place.
pub parse_uint8_here :
    (pre post : List ℕ) (x : ℕ)
    → x < 256
    → length pre < 2 ^ 63
    → parse_uint8 (pre ++ (x ∷ post)) (length pre) ≡ some (x, length pre + 1)
unfolding parse_uint8 skip
parse_uint8_here pre post x small near =
    let byte : x % 256 ≡ x = omega arith in
    let read =
      subst (λ (y : ℕ). read_le 1 (pre ++ (y ∷ post)) (length pre) ≡ some x) byte
        (read_le-le_bytes 1 x pre post (length pre) (omega arith) refl) in
    rw (read, add_pointer_small (length pre) 1 (omega arith)) refl

-- The last round, and a round that goes on.
last_round :
    (fuel : ℕ) (pre post : List ℕ) (x multiplier value : ℕ)
    → x < 128
    → length pre < 2 ^ 63
    → value + x * multiplier < 2 ^ 64
    → variable_rounds (suc fuel) (pre ++ (x ∷ post)) (length pre) multiplier value
      ≡ some (value + x * multiplier, length pre + 1)
unfolding variable_rounds
last_round fuel pre post x multiplier value small near fits =
    let low : x % 128 ≡ x = omega arith in
    let stop : (x / 128 % 2 == 0) ≡ true = ground arith in
    let sum : (value + x * multiplier) % 2 ^ 64 ≡ value + x * multiplier = omega arith in
    rw (parse_uint8_here pre post x (omega arith) near, low, stop, sum) refl

next_round :
    (fuel : ℕ) (pre post : List ℕ) (x multiplier value : ℕ)
    → x < 128
    → length pre < 2 ^ 63
    → value + x * multiplier < 2 ^ 64
    → multiplier * 128 < 2 ^ 64
    → variable_rounds (suc fuel) (pre ++ ((x + 128) ∷ post)) (length pre) multiplier value
      ≡ variable_rounds fuel
          (pre ++ ((x + 128) ∷ post))
          (length pre + 1)
          (multiplier * 128)
          (value + x * multiplier)
unfolding variable_rounds
next_round fuel pre post x multiplier value small near fits scale =
    let low : (x + 128) % 128 ≡ x = omega arith in
    let on : ((x + 128) / 128 % 2 == 0) ≡ false = ground arith in
    let sum : (value + x * multiplier) % 2 ^ 64 ≡ value + x * multiplier = omega arith in
    let scaled : multiplier * 128 % 2 ^ 64 ≡ multiplier * 128 = omega arith in
    rw (parse_uint8_here pre post (x + 128) (omega arith) near, low, on, sum, scaled) refl

split_product : (q r n m : ℕ) → n ≡ 128 * q + r → n * m ≡ r * m + q * (m * 128)
split_product q r n m e = rw e (grind arith)

times_least : (q m : ℕ) → 1 ≤ q → m * 128 ≤ q * (m * 128)
times_least q m h = grind arith

-- The number fits in that many bytes.
abbrev Fits : ℕ → ℕ → Type 0
Fits zero n = n < 128
Fits (suc more) n = Fits more (n / 128)

head_place :
    (pre post rest : List ℕ) (x : ℕ)
    → pre ++ ((x ∷ rest) ++ post) ≡ (pre ++ (x ∷ [])) ++ (rest ++ post)
head_place pre post rest x = sym (append_assoc pre (x ∷ []) (rest ++ post))

abbrev ReadsAs : ℕ → List ℕ → List ℕ → List ℕ → ℕ → ℕ → ℕ → Type 0
ReadsAs fuel pre e post m v n =
    variable_rounds fuel (pre ++ (e ++ post)) (length pre) m v
    ≡ some (v + n * m, length pre + length e)

encode_last : (more n : ℕ) → ltb n 128 ≡ true → encode (suc more) n ≡ n ∷ []
encode_last more n e = rw e refl

encode_more :
    (more n : ℕ) → ltb n 128 ≡ false → encode (suc more) n ≡ (n % 128 + 128) ∷ encode more (n / 128)
encode_more more n e = rw e refl

encode_some : (more n : ℕ) → 1 ≤ length (encode more n)
encode_some zero n = omega arith
encode_some (suc more) n = elim (Bool-cases (ltb n 128)) [
  | inl e ↦ omega (arith, ap length (encode_last more n e))
  | inr e ↦ omega (arith, ap length (encode_more more n e))
]

variable_rounds-encode :
    (more n fuel : ℕ) (pre post : List ℕ) (m v : ℕ)
    → Fits more n
    → length (encode more n) ≤ fuel
    → length pre + length (encode more n) < 2 ^ 63
    → v + n * m < 2 ^ 64
    → ReadsAs fuel pre (encode more n) post m v n
variable_rounds-encode more n zero pre post m v small enough near fits =
    absurd (omega (arith, encode_some more n))
variable_rounds-encode zero n (suc fuel) pre post m v small enough near fits =
    let low : n % 128 ≡ n = omega arith in
    subst (λ (x : ℕ). ReadsAs (suc fuel) pre (x ∷ []) post m v n) (sym low)
      (last_round fuel pre post n m v small (omega arith) fits)
variable_rounds-encode (suc more) n (suc fuel) pre post m v small enough near fits =
    elim (Bool-cases (ltb n 128)) [
      | inl e ↦
          let is = encode_last more n e in
          let l = ap length is in
          subst (λ (x : List ℕ). ReadsAs (suc fuel) pre x post m v n) (sym is)
            (last_round fuel pre post n m v (ground arith) (omega arith) fits)
      | inr e ↦
          let is = encode_more more n e in
          let l = ap length is in
          let x = n % 128 in
          let q = n / 128 in
          let product = split_product q x n m (omega arith) in
          let least = times_least q m (ground arith) in
          let one = length-append pre ((x + 128) ∷ []) in
          let rest =
            variable_rounds-encode more q fuel (pre ++ ((x + 128) ∷ [])) post (m * 128) (v + x * m)
              small (omega arith) (omega arith) (omega arith) in
          subst (λ (y : List ℕ). ReadsAs (suc fuel) pre y post m v n) (sym is)
            (next_round fuel pre (encode more q ++ post) x m v (omega arith) (omega arith)
                (omega arith) (omega arith)
              ∙ (ap (λ (b : List ℕ). variable_rounds fuel b (length pre + 1) (m * 128) (v + x * m))
                    (head_place pre post (encode more q) (x + 128))
                  ∙ (ap
                        (λ (o : ℕ).
                          variable_rounds fuel
                            ((pre ++ ((x + 128) ∷ [])) ++ (encode more q ++ post)) o (m * 128)
                            (v + x * m))
                        (sym one)
                      ∙ (rest
                          ∙ (ap
                                (λ (k : ℕ).
                                  some
                                    (k, length (pre ++ ((x + 128) ∷ [])) + length (encode more q)))
                                (omega arith)
                              ∙ ap (λ (k : ℕ). some (v + n * m, k)) (omega arith))))))
    ]

-- Wherever a number below 2 ^ 63 stands in the memory in this form (nine bytes at most),
-- `parseVariableByteInteger` reads it and stops behind it, in memory of less than 2 ^ 63 bytes.
pub parse_variable_byte_integer-encode :
    (n : ℕ) (pre post : List ℕ)
    → n < 2 ^ 63
    → length (pre ++ (encode 8 n ++ post)) < 2 ^ 63
    → parse_variable_byte_integer (pre ++ (encode 8 n ++ post)) (length pre)
      ≡ some (n, length pre + length (encode 8 n))
unfolding parse_variable_byte_integer
parse_variable_byte_integer-encode n pre post small near =
    let l1 = length-append pre (encode 8 n ++ post) in
    let l2 = length-append (encode 8 n) post in
    let read =
      variable_rounds-encode 8 n (length (pre ++ (encode 8 n ++ post))) pre post 1 0 (omega arith)
        (omega arith) (omega arith) (omega arith) in
    read ∙ ap (λ (k : ℕ). some (k, length pre + length (encode 8 n))) (omega arith)

-- The zigzag form of an int, given as its bit pattern.
abbrev pub zigzag_encode : ℕ → ℕ
zigzag_encode x = if ltb x (2 ^ 63) then 2 * x else 2 * (2 ^ 64 - x) - 1

zigzag_decode-zigzag_encode :
    (x : ℕ)
    → x < 2 ^ 64
    → (x < 2 ^ 62) ⊎ (2 ^ 64 - 2 ^ 62 ≤ x)
    → zigzag_decode (zigzag_encode x) ≡ x
unfolding zigzag_decode
zigzag_decode-zigzag_encode x small near = ground arith

-- Wherever an int from -2 ^ 62 to 2 ^ 62 - 1 stands in the memory in zigzag form,
-- `parseZigzagVariableByteInteger` reads it and stops behind it, in memory of less than 2 ^ 63 bytes.
pub parse_zigzag_variable_byte_integer-encode :
    (x : ℕ) (pre post : List ℕ)
    → x < 2 ^ 64
    → (x < 2 ^ 62) ⊎ (2 ^ 64 - 2 ^ 62 ≤ x)
    → length (pre ++ (encode 8 (zigzag_encode x) ++ post)) < 2 ^ 63
    → parse_zigzag_variable_byte_integer (pre ++ (encode 8 (zigzag_encode x) ++ post)) (length pre)
      ≡ some (x, length pre + length (encode 8 (zigzag_encode x)))
unfolding parse_zigzag_variable_byte_integer
parse_zigzag_variable_byte_integer-encode x pre post small near fits =
    let read = parse_variable_byte_integer-encode (zigzag_encode x) pre post (ground arith) fits in
    let back = zigzag_decode-zigzag_encode x small near in rw (read, back) refl
