-- ===== src/Stmt2/Header.antt =====
-- The header of a bound column in driver/common/stmt/stmt2.go, before and after its rows.
use taosadapter.Common.{
  ℕ, zero, suc, ◌+◌, ◌-◌, ◌*◌, ◌≡◌, refl, sym, ap, ◌∙◌, Bool, true, false, List, [], ◌∷◌, ◌++◌,
  append-nil, append_assoc, Option, none, some, arith, if◌then◌else◌, length, length-replicate,
  replicate,
}
use taosadapter.Common.Bytes.{le_bytes}
use taosadapter.Common.Bytes.Puts.{put_bytes, put_behind, put_part, replicate-append}
use taosadapter.Stmt2.{need_length, header_length, type_code, new_header, close_header}
use taosadapter.Stmt2.Bind.{flags, sizes, lay, no_sizes}

abbrev pub zero4 : List ℕ
zero4 = 0 ∷ 0 ∷ 0 ∷ 0 ∷ []

abbrev pub mark_of : Bool → List ℕ
mark_of b = (if b then 1 else 0) ∷ []

zero_sizes : (n : ℕ) → replicate (n * 4) 0 ≡ no_sizes true n
zero_sizes zero = ap (λ (k : ℕ). replicate {A = ℕ} k 0) none_of
  where
    none_of : 0 * 4 ≡ 0
    none_of = omega arith
zero_sizes (suc n) =
    ap (λ (k : ℕ). replicate {A = ℕ} k 0) four ∙ ap (λ (xs : List ℕ). zero4 ++ xs) (zero_sizes n)
  where
    four : suc n * 4 ≡ suc (suc (suc (suc (n * 4))))
    four = omega arith

gap : (b : Bool) (n : ℕ) → replicate (if b then n * 4 else 0) 0 ≡ no_sizes b n
gap true n = zero_sizes n
gap false zero = refl
gap false (suc n) = gap false n

tail_zeros :
    (b : Bool) (n : ℕ)
    → replicate (n + (1 + ((if b then n * 4 else 0) + 4))) 0
      ≡ replicate n 0 ++ ((0 ∷ []) ++ (no_sizes b n ++ zero4))
tail_zeros b n =
    let k = if b then n * 4 else 0 in
    replicate-append n (1 + (k + 4)) 0
    ∙ ap (λ (xs : List ℕ). replicate {A = ℕ} n 0 ++ xs)
        (replicate-append 1 (k + 4) 0
          ∙ ap (λ (xs : List ℕ). (0 ∷ []) ++ xs)
              (replicate-append k 4 0 ∙ ap (λ (xs : List ℕ). xs ++ zero4) (gap b n)))

zeros :
    (b : Bool) (n : ℕ)
    → replicate (header_length n b) 0
      ≡ zero4 ++ (zero4 ++ (zero4 ++ (replicate n 0 ++ ((0 ∷ []) ++ (no_sizes b n ++ zero4)))))
unfolding header_length
zeros b n =
    let k = if b then n * 4 else 0 in
    let same : 17 + n + k ≡ 12 + (n + (1 + (k + 4))) = omega arith in
    ap (λ (j : ℕ). replicate {A = ℕ} j 0) same
    ∙ (replicate-append 12 (n + (1 + (k + 4))) 0
        ∙ ap (λ (xs : List ℕ). zero4 ++ (zero4 ++ (zero4 ++ xs))) (tail_zeros b n))

-- The first twelve bytes, before the length is known.
abbrev pub front : ℕ → ℕ → List ℕ
front t n = zero4 ++ (le_bytes 4 (type_code t) ++ le_bytes 4 n)

marked :
    (b : Bool) (t n : ℕ) (rest : List ℕ)
    → (if b
        then put_bytes (front t n ++ (replicate n 0 ++ ((0 ∷ []) ++ rest))) (12 + n) (1 ∷ [])
        else front t n ++ (replicate n 0 ++ ((0 ∷ []) ++ rest)))
      ≡ front t n ++ (replicate n 0 ++ (mark_of b ++ rest))
marked false t n rest = refl
marked true t n rest =
    put_behind (front t n) (replicate n 0 ++ ((0 ∷ []) ++ rest)) n (12 + n) (1 ∷ []) refl
    ∙ ap (λ (xs : List ℕ). front t n ++ xs)
        (put_part (replicate n 0) (0 ∷ []) (1 ∷ []) rest n (sym (length-replicate {A = ℕ} n 0))
          refl)

pub new_header_lem :
    (t n : ℕ)
    → new_header t n
      ≡ lay
          (front t n)
          []
          (replicate n 0)
          (mark_of (need_length t))
          []
          (no_sizes (need_length t) n)
          zero4
unfolding new_header
new_header_lem t n =
    let b = need_length t in
    let write = λ (xs : List ℕ).
      let header = put_bytes (put_bytes xs 4 (le_bytes 4 (type_code t))) 8 (le_bytes 4 n) in
      if b then put_bytes header (12 + n) (1 ∷ []) else header in
    ap write (zeros b n) ∙ marked b t n (no_sizes b n ++ zero4)

-- The layout of a bound column: its length in bytes, its type, the number of its rows, a byte for
-- each row that says whether it is null, whether the rows have lengths, those lengths, the length of
-- the values, and the values.
abbrev pub layout : Bool → ℕ → List (Option (List ℕ)) → List ℕ → List ℕ
layout b code cs values =
    le_bytes 4 (length values + header_length (length cs) b)
    ++ (le_bytes 4 code
        ++ (le_bytes 4 (length cs)
            ++ (flags cs ++ (mark_of b ++ (sizes b cs ++ (le_bytes 4 (length values) ++ values))))))

abbrev pub encode : ℕ → List (Option (List ℕ)) → List ℕ → List ℕ
encode t = layout (need_length t) (type_code t)

pub length-flags : (cs : List (Option (List ℕ))) → length (flags cs) ≡ length cs
length-flags [] = refl
length-flags (c ∷ cs) = ap suc (length-flags cs)

pub length-sizes :
    (b : Bool) (cs : List (Option (List ℕ)))
    → length (sizes b cs) ≡ (if b then length cs * 4 else 0)
length-sizes true [] = omega arith
length-sizes false [] = refl
length-sizes false (c ∷ cs) = length-sizes false cs
length-sizes true (none ∷ cs) = omega (arith, length-sizes true cs)
length-sizes true (some p ∷ cs) = omega (arith, length-sizes true cs)

-- Where the length of the values stands.
length_at :
    (b : Bool) (cs : List (Option (List ℕ)))
    → header_length (length cs) b - 4 ≡ 12 + (length (flags cs) + (1 + length (sizes b cs)))
unfolding header_length
length_at b cs =
    let k = if b then length cs * 4 else 0 in
    let w : length (sizes b cs) ≡ k = length-sizes b cs in omega (arith, length-flags cs, w)

put_length :
    (fr fs mark ss new : List ℕ) (j : ℕ)
    → j ≡ length fr + (length fs + (length mark + length ss))
    → length new ≡ 4
    → put_bytes (fr ++ (fs ++ (mark ++ (ss ++ zero4)))) j new
      ≡ fr ++ (fs ++ (mark ++ (ss ++ (new ++ []))))
put_length fr fs mark ss new j e l =
    let k1 = length fs + (length mark + length ss) in
    let k2 = length mark + length ss in
    put_behind fr (fs ++ (mark ++ (ss ++ zero4))) k1 j new e
    ∙ ap (λ (xs : List ℕ). fr ++ xs)
        (put_behind fs (mark ++ (ss ++ zero4)) k2 k1 new refl
          ∙ ap (λ (xs : List ℕ). fs ++ xs)
              (put_behind mark (ss ++ zero4) (length ss) k2 new refl
                ∙ ap (λ (xs : List ℕ). mark ++ xs)
                    (put_part ss zero4 new [] (length ss) refl (sym l))))

pub close_header_lem :
    (t : ℕ) (cs : List (Option (List ℕ))) (values : List ℕ)
    → close_header
        (header_length (length cs) (need_length t))
        (lay
          (front t (length cs))
          (flags cs)
          []
          (mark_of (need_length t))
          (sizes (need_length t) cs)
          []
          zero4)
        values
      ≡ encode t cs values
unfolding close_header
close_header_lem t cs values =
    let b = need_length t in
    let fr = front t (length cs) in
    let hl = header_length (length cs) b in
    let new = le_bytes 4 (length values) in
    let total = le_bytes 4 (length values + hl) in
    let close = λ (xs : List ℕ). put_bytes (put_bytes xs (hl - 4) new) 0 total ++ values in
    ap (λ (xs : List ℕ). close (fr ++ (xs ++ (mark_of b ++ ((sizes b cs ++ []) ++ zero4)))))
      (append-nil (flags cs))
    ∙ ap (λ (xs : List ℕ). close (fr ++ (flags cs ++ (mark_of b ++ (xs ++ zero4)))))
        (append-nil (sizes b cs))
    ∙ ap (λ (xs : List ℕ). put_bytes xs 0 total ++ values)
        (put_length fr (flags cs) (mark_of b) (sizes b cs) new (hl - 4) (length_at b cs) refl)
    ∙ ap (λ (xs : List ℕ). front_with total t (length cs) ++ xs)
        (append_assoc (flags cs) (mark_of b ++ (sizes b cs ++ new)) values
          ∙ ap (λ (xs : List ℕ). flags cs ++ (mark_of b ++ xs))
              (append_assoc (sizes b cs) new values))
  where
    front_with : List ℕ → ℕ → ℕ → List ℕ
    front_with total t n = total ++ (le_bytes 4 (type_code t) ++ le_bytes 4 n)
