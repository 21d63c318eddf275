-- ===== src/Json/Int/Decimal.antt =====
-- The numbers that tools/jsonbuilder/stream_int.go writes, against the value of decimal digits.
use taosadapter.Common.{
  ℕ, ◌+◌, ◌-◌, ◌*◌, ◌/◌, ◌%◌, ◌^◌, ◌≤◌, ◌<◌, ◌≡◌, refl, ◌∙◌, ap, ◌⊎◌, inl, inr, true, false, List,
  [], ◌∷◌, ◌++◌, append_assoc, arith, ltb, ◌==◌, if◌then◌else◌, if_both,
}
use taosadapter.Json.Int.{
  digits, write_first_buf, write_buf, write_uint8, write_int8, write_uint16, write_int16,
  write_uint32, write_int32, write_uint64, write_int64,
}

-- The number that digits stand for, behind those that were read before.
abbrev pub value : ℕ → List ℕ → ℕ
value acc [] = acc
value acc (c ∷ cs) = value (acc * 10 + (c - 48)) cs

abbrev pub AllDigits : List ℕ → Type 0
AllDigits [] = Unit {0}
AllDigits (c ∷ cs) = (48 ≤ c) × (c ≤ 57) × AllDigits cs

-- No zero leads, but a lone zero stands for 0.
abbrev pub Leads : List ℕ → Type 0
Leads [] = ⊥
Leads (c ∷ []) = Unit {0}
Leads (c ∷ d ∷ cs) = 48 < c

abbrev pub IsDecimal : ℕ → List ℕ → Type 0
IsDecimal n ds = (value 0 ds ≡ n) × AllDigits ds × Leads ds

-- What was put behind `buf` is the number `n`.
abbrev pub Printed : ℕ → List ℕ → List ℕ → Type 0
Printed n buf out = (ds : List ℕ) × (out ≡ buf ++ ds) × IsDecimal n ds

value-append : (acc : ℕ) (xs ys : List ℕ) → value acc (xs ++ ys) ≡ value (value acc xs) ys
value-append acc [] ys = refl
value-append acc (x ∷ xs) ys = value-append (acc * 10 + (x - 48)) xs ys

AllDigits-append : (xs ys : List ℕ) → AllDigits xs → AllDigits ys → AllDigits (xs ++ ys)
AllDigits-append [] ys h k = k
AllDigits-append (x ∷ xs) ys h k = (h.0, h.1, AllDigits-append xs ys h.2 k)

-- A number above 0 has no leading zero, whatever follows.
Leads-append : (n : ℕ) (xs ys : List ℕ) → IsDecimal n xs → 0 < n → Leads (xs ++ ys)
Leads-append n [] ys h pos = absurd h.2
Leads-append n (x ∷ []) [] h pos = tt
Leads-append n (x ∷ []) (y ∷ ys) h pos = omega (arith, h.0, h.1.0)
Leads-append n (x ∷ z ∷ xs) ys h pos = h.2

-- The parts of an entry of the table.
digits_low :
    (i : ℕ)
    → i < 1000
    → (digits i / 2 ^ 16 % 256 ≡ i / 100 + 48)
      × (digits i / 2 ^ 8 % 256 ≡ i / 10 % 10 + 48)
      × (digits i % 256 ≡ i % 10 + 48)
unfolding digits
digits_low i h = ground arith

start : ℕ → ℕ
start i = if ltb i 10 then 2 else if ltb i 100 then 1 else 0

digits-start : (i : ℕ) → i < 1000 → digits i / 2 ^ 24 ≡ start i
unfolding digits start
digits-start i h = ground arith

-- The digits without the leading zeros.
abbrev first : ℕ → List ℕ
first q =
    if ltb q 10
    then (q + 48) ∷ []
    else if ltb q 100
    then (q / 10 + 48) ∷ (q % 10 + 48) ∷ []
    else (q / 100 + 48) ∷ (q / 10 % 10 + 48) ∷ (q % 10 + 48) ∷ []

write_first_buf_lem :
    (q : ℕ) (buf : List ℕ) → q < 1000 → write_first_buf buf (digits q) ≡ buf ++ first q
unfolding write_first_buf start
write_first_buf_lem q buf h =
    let (a, b, c) = digits_low q h in
    ground (
      arith,
      digits-start q h,
      append_assoc buf ((q / 100 + 48) ∷ (q / 10 % 10 + 48) ∷ []) ((q % 10 + 48) ∷ []),
      append_assoc buf ((q / 10 % 10 + 48) ∷ []) ((q % 10 + 48) ∷ []),
    )

first-IsDecimal : (q : ℕ) → q < 1000 → IsDecimal q (first q)
first-IsDecimal q h = ground arith

Printed-first : (q : ℕ) (buf : List ℕ) → q < 1000 → Printed q buf (write_first_buf buf (digits q))
Printed-first q buf h = (first q, write_first_buf_lem q buf h, first-IsDecimal q h)

-- Three more digits.
abbrev three : ℕ → List ℕ
three r = (r / 100 + 48) ∷ (r / 10 % 10 + 48) ∷ (r % 10 + 48) ∷ []

write_buf_lem : (r : ℕ) (out : List ℕ) → r < 1000 → write_buf out (digits r) ≡ out ++ three r
unfolding write_buf
write_buf_lem r out h = let (a, b, c) = digits_low r h in rw (a, b, c) refl

Printed-more :
    (n r m : ℕ) (buf out : List ℕ)
    → Printed n buf out
    → 0 < n
    → r < 1000
    → m ≡ n * 1000 + r
    → Printed m buf (write_buf out (digits r))
Printed-more n r m buf out (ds, e, d) pos h s = (
  ds ++ three r,
  write_buf_lem r out h ∙ (ap (λ (x : List ℕ). x ++ three r) e ∙ append_assoc buf ds (three r)),
  (
    value-append 0 ds (three r) ∙ omega (arith, d.0),
    AllDigits-append ds (three r) d.1
        (omega arith, omega arith, (omega arith, omega arith, (omega arith, omega arith, tt))),
    Leads-append n ds (three r) d pos,
  ),
)

-- One group of three digits behind what leads.
Printed-group :
    (n : ℕ) (buf out : List ℕ)
    → Printed (n / 1000) buf out
    → (n / 1000 == 0) ≡ false
    → Printed n buf (write_buf out (digits (n - n / 1000 * 1000)))
Printed-group n buf out p e =
    Printed-more (n / 1000) (n - n / 1000 * 1000) n buf out p (ground arith) (omega arith)
      (omega arith)

last_group :
    (n : ℕ) (buf : List ℕ) → (n / 1000 == 0) ≡ true → Printed n buf (write_first_buf buf (digits n))
last_group n buf e = Printed-first n buf (ground arith)

Printed-uint16 : (val : ℕ) (buf : List ℕ) → val < 2 ^ 16 → Printed val buf (write_uint16 val buf)
unfolding write_uint16
Printed-uint16 val buf h =
    if_both (Printed val buf) (val / 1000 == 0) _ _ (last_group val buf)
      (Printed-group val buf _ (Printed-first (val / 1000) buf (omega arith)))

Printed-uint32 : (val : ℕ) (buf : List ℕ) → val < 2 ^ 32 → Printed val buf (write_uint32 val buf)
unfolding write_uint32
Printed-uint32 val buf h =
    let q1 = val / 1000 in
    let q2 = q1 / 1000 in
    let q3 = q2 / 1000 in
    if_both (Printed val buf) (q1 == 0) _ _ (last_group val buf) λ e1.
      if_both (Printed val buf) (q2 == 0) _ _
        (λ e2. Printed-group val buf _ (last_group q1 buf e2) e1)
        λ e2.
          Printed-group val buf _
            (Printed-group q1 buf _
              (if_both (Printed q2 buf) (q3 == 0) _ _ (last_group q2 buf)
                λ e3. Printed-group q2 buf _ (one_digit q3 buf (omega arith)) e3)
              e2)
            e1
  where
    one_digit : (q : ℕ) (out : List ℕ) → q < 10 → Printed q out (out ++ ((q + 48) % 256 ∷ []))
    one_digit q out small =
        ((q + 48) % 256 ∷ [], refl, (omega arith, (omega arith, omega arith, tt), tt))

Printed-uint64 : (val : ℕ) (buf : List ℕ) → val < 2 ^ 64 → Printed val buf (write_uint64 val buf)
unfolding write_uint64
Printed-uint64 val buf h =
    let q1 = val / 1000 in
    let q2 = q1 / 1000 in
    let q3 = q2 / 1000 in
    let q4 = q3 / 1000 in
    let q5 = q4 / 1000 in
    let q6 = q5 / 1000 in
    if_both (Printed val buf) (q1 == 0) _ _ (last_group val buf) λ e1.
      if_both (Printed val buf) (q2 == 0) _ _
        (λ e2. Printed-group val buf _ (last_group q1 buf e2) e1)
        λ e2.
          let up2 = λ (out : List ℕ) (p : Printed q2 buf out).
            Printed-group val buf _ (Printed-group q1 buf _ p e2) e1 in
          if_both (Printed val buf) (q3 == 0) _ _ (λ e3. up2 _ (last_group q2 buf e3))
            λ e3.
              let up3 =
                λ (out : List ℕ) (p : Printed q3 buf out). up2 _ (Printed-group q2 buf out p e3) in
              if_both (Printed val buf) (q4 == 0) _ _ (λ e4. up3 _ (last_group q3 buf e4))
                λ e4.
                  let up4 = λ (out : List ℕ) (p : Printed q4 buf out).
                    up3 _ (Printed-group q3 buf out p e4) in
                  if_both (Printed val buf) (q5 == 0) _ _ (λ e5. up4 _ (last_group q4 buf e5))
                    λ e5. up4 _ (
                      Printed-group q4 buf _
                        (if_both (Printed q5 buf) (q6 == 0) _ _ (last_group q5 buf)
                          λ e6. Printed-group q5 buf _ (Printed-first q6 buf (omega arith)) e6)
                        e5)

-- A signed number is its magnitude, behind a minus sign when it is negative.
abbrev pub PrintedInt : ℕ → ℕ → List ℕ → List ℕ → Type 0
PrintedInt w x buf out =
    ((x < 2 ^ w) × Printed x buf out)
    ⊎ ((2 ^ w ≤ x) × Printed (2 ^ (w + 1) - x) (buf ++ (45 ∷ [])) out)

-- The writers of the unsigned types put the decimal digits of a number of their width behind what
-- is in the buffer: digits whose value is the number, with no leading zero.
write_uint-IsDecimal :
    (a b c d : ℕ) (buf : List ℕ)
    → a < 2 ^ 8
    → b < 2 ^ 16
    → c < 2 ^ 32
    → d < 2 ^ 64
    → Printed a buf (write_uint8 a buf)
      × Printed b buf (write_uint16 b buf)
      × Printed c buf (write_uint32 c buf)
      × Printed d buf (write_uint64 d buf)
unfolding write_uint8
write_uint-IsDecimal a b c d buf ha hb hc hd = (
  Printed-first a buf (omega arith),
  Printed-uint16 b buf hb,
  Printed-uint32 c buf hc,
  Printed-uint64 d buf hd,
)

signed :
    (w x : ℕ) (buf : List ℕ) (write : ℕ → List ℕ → List ℕ)
    → ((n : ℕ) (out : List ℕ) → n ≤ 2 ^ w → Printed n out (write n out))
    → x < 2 ^ (w + 1)
    → 2 ^ (w + 1) ≡ 2 * 2 ^ w
    → PrintedInt w x buf
        (if ltb x (2 ^ w) then write x buf else write (2 ^ (w + 1) - x) (buf ++ (45 ∷ [])))
signed w x buf write prints small twice =
    if_both (PrintedInt w x buf) (ltb x (2 ^ w)) _ _
      (λ e. let below : x < 2 ^ w = ground arith in inl (below, prints x buf (omega arith)))
      λ e.
        let above : 2 ^ w ≤ x = ground arith in
        inr (above, prints (2 ^ (w + 1) - x) (buf ++ (45 ∷ [])) (omega arith))

-- The writers of the signed types put the decimal digits of a number that is not negative behind
-- what is in the buffer, and a minus sign and the digits of its magnitude for a negative one, the
-- least number of the type included. A number is given as its bit pattern.
pub write_int-IsDecimal :
    (a b c d : ℕ) (buf : List ℕ)
    → a < 2 ^ 8
    → b < 2 ^ 16
    → c < 2 ^ 32
    → d < 2 ^ 64
    → PrintedInt 7 a buf (write_int8 a buf)
      × PrintedInt 15 b buf (write_int16 b buf)
      × PrintedInt 31 c buf (write_int32 c buf)
      × PrintedInt 63 d buf (write_int64 d buf)
unfolding write_int8 write_int16 write_int32 write_int64
write_int-IsDecimal a b c d buf ha hb hc hd = (
  signed 7 a buf (λ n out. write_first_buf out (digits n))
      (λ n out h. Printed-first n out (omega arith)) ha refl,
  signed 15 b buf write_uint16 (λ n out h. Printed-uint16 n out (omega arith)) hb refl,
  signed 31 c buf write_uint32 (λ n out h. Printed-uint32 n out (omega arith)) hc refl,
  signed 63 d buf write_uint64 (λ n out h. Printed-uint64 n out (omega arith)) hd refl,
)
