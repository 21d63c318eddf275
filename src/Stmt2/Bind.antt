-- ===== src/Stmt2/Bind.antt =====
-- One row of a bound column in driver/common/stmt/stmt2.go.
use taosadapter.Common.{
  ℕ, zero, suc, ◌+◌, ◌*◌, ◌≡◌, refl, sym, ap, ◌∙◌, Bool, true, false, List, [], ◌∷◌, ◌++◌,
  append_assoc, append-nil, arith, ◌⊎◌, if◌then◌else◌, length, length-append, replicate, Bool-cases,
  inl, inr,
}
use taosadapter.Common.Bytes.{le_bytes}
use taosadapter.Common.Bytes.Reads.{length-le_bytes}
use taosadapter.Common.Bytes.Puts.{put_bytes, put_behind, put_part}
use taosadapter.Block.{type_length}
use taosadapter.Stmt2.{Value, Result, ok, err, panic, ◌>>=◌, bind_value, is_nil}
use taosadapter.Common.{Option, none, some}

-- The cell of a row: its bytes, or nothing for nil.
abbrev pub cell : ℕ → ℕ → Value → Result (Option (List ℕ))
cell t precision v = if is_nil v then ok none else (bind_value t precision v >>= λ p. ok (some p))

abbrev pub cells : ℕ → ℕ → List Value → Result (List (Option (List ℕ)))
cells t precision [] = ok []
cells t precision (v ∷ values) =
    cell t precision v >>= λ c. cells t precision values >>= λ cs. ok (c ∷ cs)

abbrev pub flag : Option (List ℕ) → ℕ
flag none = 1
flag (some p) = 0

abbrev pub flags : List (Option (List ℕ)) → List ℕ
flags [] = []
flags (c ∷ cs) = flag c ∷ flags cs

-- The length of a cell, in a column that has lengths.
abbrev pub size : Bool → Option (List ℕ) → List ℕ
size false c = []
size true none = 0 ∷ 0 ∷ 0 ∷ 0 ∷ []
size true (some p) = le_bytes 4 (length p)

abbrev pub sizes : Bool → List (Option (List ℕ)) → List ℕ
sizes need [] = []
sizes need (c ∷ cs) = size need c ++ sizes need cs

abbrev pub payload : ℕ → Option (List ℕ) → List ℕ
payload t none = replicate (type_length t) 0
payload t (some p) = p

abbrev pub payloads : ℕ → List (Option (List ℕ)) → List ℕ
payloads t [] = []
payloads t (c ∷ cs) = payload t c ++ payloads t cs

-- A header, with the flags and the lengths of the rows that are done, and the zeros of the others.
abbrev pub lay : List ℕ → List ℕ → List ℕ → List ℕ → List ℕ → List ℕ → List ℕ → List ℕ
lay front done todo mark done_sizes todo_sizes back =
    front ++ ((done ++ todo) ++ (mark ++ ((done_sizes ++ todo_sizes) ++ back)))

abbrev pub no_sizes : Bool → ℕ → List ℕ
no_sizes need zero = []
no_sizes need (suc n) = size need none ++ no_sizes need n

-- Replacing a part in the middle of a part.
put_in :
    (front done old new todo rest : List ℕ) (j : ℕ)
    → j ≡ length front + length done
    → length old ≡ length new
    → put_bytes (front ++ ((done ++ (old ++ todo)) ++ rest)) j new
      ≡ front ++ (((done ++ new) ++ todo) ++ rest)
put_in front done old new todo rest j e l =
    put_behind front _ (length done) j new e
    ∙ ap (λ xs. front ++ xs)
        (ap (λ xs. put_bytes xs (length done) new)
            (append_assoc done (old ++ todo) rest
              ∙ ap (λ xs. done ++ xs) (append_assoc old todo rest))
          ∙ put_part done old new (todo ++ rest) (length done) refl l
          ∙ sym (append_assoc done new (todo ++ rest))
          ∙ sym (append_assoc (done ++ new) todo rest))

module _ (need : Bool) (front mark back : List ℕ) (num i : ℕ) (done todo ds ts : List ℕ)
    (twelve : length front ≡ 12) (one : length mark ≡ 1) (index : length done ≡ i)
    (rows : i + 1 + length todo ≡ num) (sized : length ds ≡ (if need then i * 4 else 0)) where
  -- Before and after the row `i`.
  abbrev before : List ℕ
  before = lay front done (0 ∷ todo) mark ds (size need none ++ ts) back

  abbrev next : Option (List ℕ) → List ℕ
  next c = lay front (done ++ (flag c ∷ [])) todo mark (ds ++ size need c) ts back

  moved_sizes :
      (c : Option (List ℕ))
      → (ds ++ (size need c ++ ts)) ++ back ≡ ((ds ++ size need c) ++ ts) ++ back
  moved_sizes c = ap (λ xs. xs ++ back) (sym (append_assoc ds (size need c) ts))

  flag_put : put_bytes before (12 + i) (1 ∷ []) ≡ next none
  flag_put =
      put_in front done (0 ∷ []) (1 ∷ []) todo _ (12 + i) (omega (arith, twelve, index)) refl
      ∙ ap (λ xs. front ++ (((done ++ (1 ∷ [])) ++ todo) ++ (mark ++ xs))) (moved_sizes none)

  flag_kept :
      (xs : List ℕ)
      → front ++ ((done ++ (0 ∷ todo)) ++ xs) ≡ front ++ (((done ++ (0 ∷ [])) ++ todo) ++ xs)
  flag_kept xs = ap (λ ys. front ++ (ys ++ xs)) (sym (append_assoc done (0 ∷ []) todo))

  size_put :
      (p : List ℕ)
      → need ≡ true
      → put_bytes before (12 + num + 1 + i * 4) (le_bytes 4 (length p)) ≡ next (some p)
  size_put p e =
      let flags' = done ++ (0 ∷ todo) in
      let tail = mark ++ ((ds ++ (size need none ++ ts)) ++ back) in
      let many : length flags' ≡ num = omega (arith, length-append done (0 ∷ todo), index, rows) in
      let bytes : size need (some p) ≡ le_bytes 4 (length p) = rw e refl in
      let at : length ds ≡ i * 4 = sized ∙ ap (λ b. if b then i * 4 else 0) e in
      let wide : length (size need none) ≡ 4 = ap (λ b. length (size b none)) e in
      put_behind front (flags' ++ tail) (num + 1 + i * 4) (12 + num + 1 + i * 4)
        (le_bytes 4 (length p)) (omega (arith, twelve))
      ∙ ap (λ xs. front ++ xs)
          (put_behind flags' tail (1 + i * 4) (num + 1 + i * 4) (le_bytes 4 (length p))
              (omega (arith, many))
            ∙ ap (λ xs. flags' ++ xs)
                (put_in mark ds (size need none) (le_bytes 4 (length p)) ts back (1 + i * 4)
                    (omega (arith, one, at)) (omega (arith, wide, length-le_bytes 4 (length p)))
                  ∙ ap (λ xs. mark ++ (((ds ++ xs) ++ ts) ++ back)) (sym bytes)))
      ∙ flag_kept _

  size_skipped : (p : List ℕ) → need ≡ false → before ≡ next (some p)
  size_skipped p e =
      flag_kept _
      ∙ ap (λ xs. front ++ (((done ++ (0 ∷ [])) ++ todo) ++ (mark ++ (xs ++ back)))) unsized
    where
      unsized : ds ++ (size need none ++ ts) ≡ (ds ++ size need (some p)) ++ ts
      unsized = rw e (ap (λ xs. xs ++ ts) (sym (append-nil ds)))

  -- One round of the loop, whatever the value of the row is.
  pub row_step :
      (nil : Bool) (r : Result (List ℕ)) (t : ℕ) (buffer : List ℕ)
      → if◌then◌else◌ {A = Result (List ℕ × List ℕ)} nil
          (ok (put_bytes before (12 + i) (1 ∷ []), buffer ++ replicate (type_length t) 0))
          (r >>= λ p. ok (
            (if need
                then put_bytes before (12 + num + 1 + i * 4) (le_bytes 4 (length p))
                else before),
            buffer ++ p,
          ))
        ≡ (if nil then ok none else (r >>= λ p. ok (some p))) >>= λ c.
            ok (next c, buffer ++ payload t c)
  row_step true r t buffer = ap (λ xs. ok (xs, buffer ++ replicate (type_length t) 0)) flag_put
  row_step false (err e) t buffer = refl
  row_step false panic t buffer = refl
  row_step false (ok p) t buffer = ap (λ xs. ok (xs, buffer ++ p)) (sized_by (Bool-cases need))
    where
      sized_by :
          (need ≡ true) ⊎ (need ≡ false)
          → (if need
              then put_bytes before (12 + num + 1 + i * 4) (le_bytes 4 (length p))
              else before)
            ≡ next (some p)
      sized_by (inl e) =
          ap
            (λ b.
              if b then put_bytes before (12 + num + 1 + i * 4) (le_bytes 4 (length p)) else before)
            e
          ∙ size_put p e
      sized_by (inr e) =
          ap
            (λ b.
              if b then put_bytes before (12 + num + 1 + i * 4) (le_bytes 4 (length p)) else before)
            e
          ∙ size_skipped p e
