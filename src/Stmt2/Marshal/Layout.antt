-- ===== src/Stmt2/Marshal/Layout.antt =====
-- Where `MarshalStmt2Binary` of driver/common/stmt/stmt2.go puts what it gathered.
use taosadapter.Common.{
  ℕ, suc, ◌+◌, ◌*◌, ◌≡◌, refl, sym, ap, ◌∙◌, Bool, true, false, List, [], ◌∷◌, ◌++◌, append-nil,
  append_assoc, arith, if◌then◌else◌, length, length-append, length-replicate, replicate, set,
}
use taosadapter.Common.Bytes.{le_bytes}
use taosadapter.Common.Bytes.Reads.{length-le_bytes}
use taosadapter.Common.Bytes.Puts.{put_bytes, put_over, put_part, replicate-append}
use taosadapter.Stmt2.Marshal.{Sections, put_lengths, put_section, put_if, write_all}

abbrev numbers : ℕ → List ℕ → List ℕ
numbers k [] = []
numbers k (n ∷ ns) = le_bytes k n ++ numbers k ns

length-numbers : (k : ℕ) (ns : List ℕ) → length (numbers k ns) ≡ length ns * k
length-numbers k [] = omega arith
length-numbers k (n ∷ ns) =
    length-append (le_bytes k n) (numbers k ns) ∙ sum (length-le_bytes k n) (length-numbers k ns)
  where
    sum : {a b : ℕ} → a ≡ k → b ≡ length ns * k → a + b ≡ suc (length ns) * k
    sum e f = grind (arith, e, f)

put_bytes-append :
    (b : List ℕ) (off : ℕ) (xs ys : List ℕ)
    → put_bytes b off (xs ++ ys) ≡ put_bytes (put_bytes b off xs) (off + length xs) ys
put_bytes-append b off [] ys = ap (λ (n : ℕ). put_bytes b n ys) same
  where
    same : off ≡ off + 0
    same = omega arith
put_bytes-append b off (x ∷ xs) ys =
    let same : suc off + length xs ≡ off + suc (length xs) = omega arith in
    put_bytes-append (set b off x) (suc off) xs ys
    ∙ ap (λ (n : ℕ). put_bytes (put_bytes (set b off x) (suc off) xs) n ys) same

put_lengths_lem :
    (k : ℕ) (ns : List ℕ) (b : List ℕ) (off : ℕ)
    → put_lengths k b off ns ≡ put_bytes b off (numbers k ns)
unfolding put_lengths
put_lengths_lem k [] b off = refl
put_lengths_lem k (n ∷ ns) b off =
    put_lengths_lem k ns (put_bytes b off (le_bytes k n)) (off + k)
    ∙ ap (λ (m : ℕ). put_bytes (put_bytes b off (le_bytes k n)) (off + m) (numbers k ns))
        (sym (length-le_bytes k n))
    ∙ sym (put_bytes-append b off (le_bytes k n) (numbers k ns))

-- A section: the lengths and the bytes.
abbrev pub section : ℕ → List ℕ → List ℕ → List ℕ
section k lengths bytes = numbers k lengths ++ bytes

section_nil :
    (k : ℕ) (lengths bytes : List ℕ) → (lengths ≡ []) × (bytes ≡ []) → section k lengths bytes ≡ []
section_nil k lengths bytes (e, f) = ap (λ (xs : List ℕ). numbers k xs ++ bytes) e ∙ f

put_section_lem :
    (b : Bool) (k : ℕ) (lengths bytes pre post : List ℕ) (m off : ℕ)
    → (b ≡ false → (lengths ≡ []) × (bytes ≡ []))
    → m ≡ length bytes + length lengths * k
    → off ≡ length pre
    → put_section b k lengths bytes (pre ++ (replicate m 0 ++ post)) off
      ≡ pre ++ (section k lengths bytes ++ post)
unfolding put_section
put_section_lem false k lengths bytes pre post m off empty size at =
    let none = section_nil k lengths bytes (empty refl) in
    let nothing : m ≡ 0 = omega (
      arith,
      size,
      ap length none,
      length-append (numbers k lengths) bytes,
      length-numbers k lengths,
    ) in
    ap (λ (n : ℕ). pre ++ (replicate n 0 ++ post)) nothing
    ∙ ap (λ (xs : List ℕ). pre ++ (xs ++ post)) (sym none)
put_section_lem true k lengths bytes pre post m off none size at =
    let all = pre ++ (replicate m 0 ++ post) in
    ap (λ (xs : List ℕ). put_bytes xs (off + length lengths * k) bytes)
      (put_lengths_lem k lengths all off)
    ∙ ap (λ (n : ℕ). put_bytes (put_bytes all off (numbers k lengths)) (off + n) bytes)
        (sym (length-numbers k lengths))
    ∙ sym (put_bytes-append all off (numbers k lengths) bytes)
    ∙ put_part pre (replicate m 0) (section k lengths bytes) post off at (
        length-replicate {A = ℕ} m 0
        ∙ omega (arith, size, length-append (numbers k lengths) bytes, length-numbers k lengths))

abbrev or_zero : Bool → ℕ → ℕ
or_zero b n = if b then n else 0

-- The header: the length of all, the counts, and the offsets of the sections.
abbrev pub header : ℕ → ℕ → ℕ → ℕ → Bool → Bool → Bool → ℕ → ℕ → List ℕ
header total count tag_count col_count named tagged columned tag_offset col_offset =
    le_bytes 4 total
    ++ (le_bytes 4 count
        ++ (le_bytes 4 (or_zero tagged tag_count)
            ++ (le_bytes 4 (or_zero columned col_count)
                ++ (le_bytes 4 (or_zero named 28)
                    ++ (le_bytes 4 (or_zero tagged tag_offset)
                        ++ le_bytes 4 (or_zero columned col_offset))))))

header_lem :
    (total count tag_count col_count : ℕ) (named tagged columned : Bool) (tag_offset col_offset : ℕ)
    → put_bytes
        (put_if columned 24 col_offset (
          put_if tagged 20 tag_offset (
            put_if named 16 28 (
              put_if columned 12 col_count
                (put_if tagged 8 tag_count (put_bytes (replicate 28 0) 4 (le_bytes 4 count)))))))
        0
        (le_bytes 4 total)
      ≡ header total count tag_count col_count named tagged columned tag_offset col_offset
header_lem total count tag_count col_count true true true tag_offset col_offset = refl
header_lem total count tag_count col_count true true false tag_offset col_offset = refl
header_lem total count tag_count col_count true false true tag_offset col_offset = refl
header_lem total count tag_count col_count true false false tag_offset col_offset = refl
header_lem total count tag_count col_count false true true tag_offset col_offset = refl
header_lem total count tag_count col_count false true false tag_offset col_offset = refl
header_lem total count tag_count col_count false false true tag_offset col_offset = refl
header_lem total count tag_count col_count false false false tag_offset col_offset = refl

abbrev pub tags_from : Sections → ℕ
tags_from s = 28 + length s.names + length s.name_lengths * 2

abbrev pub cols_from : Sections → ℕ
cols_from s = tags_from s + length s.tags + length s.tag_lengths * 4

abbrev pub full_length : Sections → ℕ
full_length s = cols_from s + length s.cols + length s.col_lengths * 4

-- The layout of the whole: the header, and the sections in the order of their offsets.
abbrev pub layout : ℕ → ℕ → ℕ → Bool → Bool → Bool → Sections → List ℕ
layout count tag_count col_count named tagged columned s =
    header (full_length s) count tag_count col_count named tagged columned (tags_from s)
      (cols_from s)
    ++ (section 2 s.name_lengths s.names
        ++ (section 4 s.tag_lengths s.tags ++ section 4 s.col_lengths s.cols))

-- A section that is not needed is empty.
abbrev pub Fits : Bool → Bool → Bool → Sections → Type 0
Fits named tagged columned s =
    (named ≡ false → (s.name_lengths ≡ []) × (s.names ≡ []))
    × (tagged ≡ false → (s.tag_lengths ≡ []) × (s.tags ≡ []))
    × (columned ≡ false → (s.col_lengths ≡ []) × (s.cols ≡ []))

length-section :
    (k : ℕ) (lengths bytes : List ℕ)
    → length (section k lengths bytes) ≡ length bytes + length lengths * k
length-section k lengths bytes =
    omega (arith, length-append (numbers k lengths) bytes, length-numbers k lengths)

zeros :
    (a b c : ℕ)
    → replicate {A = ℕ} (28 + a + b + c) 0
      ≡ replicate 28 0 ++ (replicate a 0 ++ (replicate b 0 ++ (replicate c 0 ++ [])))
zeros a b c =
    ap (λ (n : ℕ). replicate {A = ℕ} n 0) sum
    ∙ (replicate-append 28 (a + (b + c)) 0
        ∙ ap (λ (xs : List ℕ). replicate {A = ℕ} 28 0 ++ xs)
            (replicate-append a (b + c) 0
              ∙ ap (λ (xs : List ℕ). replicate {A = ℕ} a 0 ++ xs)
                  (replicate-append b c 0
                    ∙ ap (λ (xs : List ℕ). replicate {A = ℕ} b 0 ++ xs)
                        (sym (append-nil (replicate {A = ℕ} c 0))))))
  where
    sum : 28 + a + b + c ≡ 28 + (a + (b + c))
    sum = omega arith

pub write_all_lem :
    (count tag_count col_count : ℕ) (named tagged columned : Bool) (s : Sections)
    → Fits named tagged columned s
    → write_all count tag_count col_count named tagged columned s
      ≡ layout count tag_count col_count named tagged columned s
unfolding write_all
write_all_lem count tag_count col_count named tagged columned s (fn, ft, fc) =
    let a = length s.names + length s.name_lengths * 2 in
    let b = length s.tags + length s.tag_lengths * 4 in
    let c = length s.cols + length s.col_lengths * 4 in
    let sn = section 2 s.name_lengths s.names in
    let st = section 4 s.tag_lengths s.tags in
    let sc = section 4 s.col_lengths s.cols in
    let h =
      header (full_length s) count tag_count col_count named tagged columned (tags_from s)
        (cols_from s) in
    let to = tags_from s in
    let co = cols_from s in
    let put_names = λ (xs : List ℕ). put_section named 2 s.name_lengths s.names xs 28 in
    let put_tags = λ (xs : List ℕ). put_section tagged 4 s.tag_lengths s.tags xs to in
    let put_cols = λ (xs : List ℕ). put_section columned 4 s.col_lengths s.cols xs co in
    let whole : full_length s ≡ 28 + a + b + c = omega arith in
    let rest : List ℕ = replicate b 0 ++ (replicate c 0 ++ []) in
    ap
      (λ (xs : List ℕ).
        put_cols (put_tags (put_names (put_bytes (replicate (full_length s) 0) 0 xs))))
      (header_lem (full_length s) count tag_count col_count named tagged columned to co)
    ∙ ap (λ (xs : List ℕ). put_cols (put_tags (put_names (put_bytes xs 0 h))))
        (ap (λ (n : ℕ). replicate {A = ℕ} n 0) whole ∙ zeros a b c)
    ∙ ap (λ (xs : List ℕ). put_cols (put_tags (put_names xs)))
        (put_over (replicate 28 0) h (replicate a 0 ++ rest) refl)
    ∙ ap (λ (xs : List ℕ). put_cols (put_tags xs))
        (put_section_lem named 2 s.name_lengths s.names h rest a 28 fn refl refl
          ∙ sym (append_assoc h sn rest))
    ∙ ap put_cols (
        put_section_lem tagged 4 s.tag_lengths s.tags (h ++ sn) (replicate c 0 ++ []) b to ft refl
          (omega (arith, length-append h sn, length-section 2 s.name_lengths s.names))
        ∙ sym (append_assoc (h ++ sn) st (replicate c 0 ++ [])))
    ∙ put_section_lem columned 4 s.col_lengths s.cols ((h ++ sn) ++ st) [] c co fc refl (
        omega (
          arith,
          length-append (h ++ sn) st,
          length-append h sn,
          length-section 2 s.name_lengths s.names,
          length-section 4 s.tag_lengths s.tags,
        ))
    ∙ ap (λ (xs : List ℕ). ((h ++ sn) ++ st) ++ xs) (append-nil sc)
    ∙ append_assoc (h ++ sn) st sc
    ∙ append_assoc h sn (st ++ sc)
