-- ===== src/Json/Str/Escape.antt =====
-- What tools/jsonbuilder/stream_str.go writes for a string: the escapes of its bytes.
use taosadapter.Common.{
  ℕ, ◌/◌, ◌%◌, ◌≡◌, sym, ◌∙◌, ap, true, not, ◌&&◌, ◌||◌, List, [], ◌∷◌, ◌++◌, append_assoc,
  append-nil, arith, ltb, ◌==◌, if◌then◌else◌, Bool-cases, inl, inr,
}
use taosadapter.Json.Str.{
  hex, escape_byte, slow_round, slow_end, slow_path, fast_path, write_string, write_string_byte,
}

-- What stands in a JSON string for a byte.
abbrev pub escaped : ℕ → List ℕ
escaped b =
    if b == 92 || b == 34
    then 92 ∷ b ∷ []
    else if b == 10
    then 92 ∷ 110 ∷ []
    else if b == 13
    then 92 ∷ 114 ∷ []
    else if b == 9
    then 92 ∷ 116 ∷ []
    else if ltb b 32
    then 92 ∷ 117 ∷ 48 ∷ 48 ∷ hex (b / 16) ∷ hex (b % 16) ∷ []
    else b ∷ []

abbrev pub escape_all : List ℕ → List ℕ
escape_all [] = []
escape_all (b ∷ s) = escaped b ++ escape_all s

write_string_byte-escaped : (c : ℕ) (buf : List ℕ) → write_string_byte c buf ≡ buf ++ escaped c
unfolding write_string_byte escape_byte
write_string_byte-escaped c buf =
    ground (arith, append_assoc buf (92 ∷ 117 ∷ 48 ∷ 48 ∷ []) (hex (c / 16) ∷ hex (c % 16) ∷ []))

-- The bytes of a string one after the other.
abbrev pub write_bytes : List ℕ → List ℕ → List ℕ
write_bytes [] buf = buf
write_bytes (c ∷ s) buf = write_bytes s (write_string_byte c buf)

pub write_bytes-escape_all : (s buf : List ℕ) → write_bytes s buf ≡ buf ++ escape_all s
write_bytes-escape_all [] buf = sym (append-nil buf)
write_bytes-escape_all (c ∷ s) buf =
    write_bytes-escape_all s (write_string_byte c buf)
    ∙ (ap (λ (x : List ℕ). x ++ escape_all s) (write_string_byte-escaped c buf)
        ∙ append_assoc buf (escaped c) (escape_all s))

-- The buffer of a state of the slow path, with what is pending.
slow_round_lem :
    (b : ℕ) (pending buf : List ℕ)
    → (slow_round b (pending, buf)).1 ++ (slow_round b (pending, buf)).0
      ≡ (buf ++ pending) ++ escaped b
unfolding slow_round escape_byte
slow_round_lem b pending buf = ground (
  arith,
  append_assoc buf pending (b ∷ []),
  append-nil (buf ++ pending),
  append-nil (escape_byte b (buf ++ pending)),
  append_assoc (buf ++ pending) (92 ∷ 117 ∷ 48 ∷ 48 ∷ []) (hex (b / 16) ∷ hex (b % 16) ∷ []),
)

slow_path_lem :
    (s : List ℕ) (st : List ℕ × List ℕ)
    → slow_path s st ≡ ((st.1 ++ st.0) ++ escape_all s) ++ (34 ∷ [])
unfolding slow_path slow_end
slow_path_lem [] st = ap (λ (x : List ℕ). x ++ (34 ∷ [])) (sym (append-nil (st.1 ++ st.0)))
slow_path_lem (b ∷ s) st =
    slow_path_lem s (slow_round b st)
    ∙ ap (λ (x : List ℕ). x ++ (34 ∷ []))
        (ap (λ (x : List ℕ). x ++ escape_all s) (slow_round_lem b st.0 st.1)
          ∙ append_assoc (st.1 ++ st.0) (escaped b) (escape_all s))

-- A byte that the fast path copies needs no escape.
fast_byte : (c : ℕ) → (ltb 31 c && (not (c == 34) && not (c == 92))) ≡ true → escaped c ≡ c ∷ []
fast_byte c e = ground arith

fast_path_lem : (s buf : List ℕ) → fast_path s buf ≡ (buf ++ escape_all s) ++ (34 ∷ [])
unfolding fast_path
fast_path_lem [] buf = ap (λ (x : List ℕ). x ++ (34 ∷ [])) (sym (append-nil buf))
fast_path_lem (c ∷ s) buf =
    let copies = ltb 31 c && (not (c == 34) && not (c == 92)) in
    elim (Bool-cases copies) [
      | inl e ↦
          rw (e, fast_byte c e)
            (fast_path_lem s (buf ++ (c ∷ []))
              ∙ ap (λ (x : List ℕ). x ++ (34 ∷ [])) (append_assoc buf (c ∷ []) (escape_all s)))
      | inr e ↦ rw e (
          slow_path_lem (c ∷ s) ([], buf)
          ∙ ap (λ (x : List ℕ). (x ++ escape_all (c ∷ s)) ++ (34 ∷ [])) (append-nil buf))
    ]

pub write_string_lem :
    (s buf : List ℕ) → write_string s buf ≡ buf ++ (34 ∷ (escape_all s ++ (34 ∷ [])))
unfolding write_string
write_string_lem s buf =
    fast_path_lem s (buf ++ (34 ∷ []))
    ∙ (append_assoc (buf ++ (34 ∷ [])) (escape_all s) (34 ∷ [])
        ∙ append_assoc buf (34 ∷ []) (escape_all s ++ (34 ∷ [])))
