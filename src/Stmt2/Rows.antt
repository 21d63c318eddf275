-- ===== src/Stmt2/Rows.antt =====
-- The rows of a bound column in driver/common/stmt/stmt2.go, one after the other.
use taosadapter.Common.{
  ℕ, suc, ◌+◌, ◌*◌, ◌≡◌, refl, sym, ap, ◌∙◌, Bool, true, false, List, [], ◌∷◌, ◌++◌, append_assoc,
  append-nil, arith, if◌then◌else◌, length, length-append, length-replicate, replicate,
}
use taosadapter.Common.Bytes.Reads.{length-le_bytes}
use taosadapter.Stmt2.{
  Value, Result, ok, err, panic, ◌>>=◌, bind_value, need_length, is_nil, bind_row, bind_rows,
}
use taosadapter.Common.{Option, none, some}
use taosadapter.Stmt2.Bind.{
  cell, cells, flag, flags, size, sizes, payload, payloads, lay, no_sizes, row_step,
}

-- A loop that collects what its rounds give.
rounds :
    {A B C : Type 0} (o : Result A) (rest : Result (List A)) (next : A → B) (go : B → Result C)
    (fin : A → List A → C) (fin' : List A → C)
    → ((a : A) → go (next a) ≡ rest >>= λ xs. ok (fin a xs))
    → ((a : A) (xs : List A) → fin a xs ≡ fin' (a ∷ xs))
    → (o >>= λ a. ok (next a)) >>= go
      ≡ (o >>= λ a. rest >>= λ xs. ok (a ∷ xs)) >>= λ xs. ok (fin' xs)
rounds (err e) rest next go fin fin' h k = refl
rounds panic rest next go fin fin' h k = refl
rounds (ok a) (err e) next go fin fin' h k = h a
rounds (ok a) panic next go fin fin' h k = h a
rounds (ok a) (ok xs) next go fin fin' h k = h a ∙ ap ok (k a xs)

-- The header and the values behind all rows.
abbrev pub finished :
    ℕ
    → List ℕ
    → List ℕ
    → List ℕ
    → List ℕ
    → List ℕ
    → List ℕ
    → List (Option (List ℕ))
    → List ℕ × List ℕ
finished t front mark back done ds buffer cs = (
  lay front (done ++ flags cs) [] mark (ds ++ sizes (need_length t) cs) [] back,
  buffer ++ payloads t cs,
)

module _ (t precision num : ℕ) (front mark back : List ℕ) (twelve : length front ≡ 12)
    (one : length mark ≡ 1) where
  abbrev need : Bool
  need = need_length t

  more :
      (done ds buffer : List ℕ) (c : Option (List ℕ)) (cs : List (Option (List ℕ)))
      → finished t front mark back
          (done ++ (flag c ∷ []))
          (ds ++ size need c)
          (buffer ++ payload t c)
          cs
        ≡ finished t front mark back done ds buffer (c ∷ cs)
  more done ds buffer c cs =
      ap
        (λ xs. (
          lay front xs [] mark ((ds ++ size need c) ++ sizes need cs) [] back,
          (buffer ++ payload t c) ++ payloads t cs,
        ))
        (append_assoc done (flag c ∷ []) (flags cs))
      ∙ ap
          (λ xs. (
            lay front (done ++ flags (c ∷ cs)) [] mark xs [] back,
            (buffer ++ payload t c) ++ payloads t cs,
          ))
          (append_assoc ds (size need c) (sizes need cs))
      ∙ ap
          (λ xs.
            (lay front (done ++ flags (c ∷ cs)) [] mark (ds ++ sizes need (c ∷ cs)) [] back, xs))
          (append_assoc buffer (payload t c) (payloads t cs))

  none_left :
      (done ds buffer : List ℕ)
      → (lay front done [] mark ds [] back, buffer) ≡ finished t front mark back done ds buffer []
  none_left done ds buffer =
      ap (λ xs. (lay front xs [] mark ds [] back, buffer)) (sym (append-nil done))
      ∙ ap (λ xs. (lay front (done ++ []) [] mark xs [] back, buffer)) (sym (append-nil ds))
      ∙ ap (λ xs. (lay front (done ++ []) [] mark (ds ++ []) [] back, xs)) (sym (append-nil buffer))

  size_of_sizes : (c : Option (List ℕ)) → length (size need c) ≡ (if need then 4 else 0)
  size_of_sizes c = go need c
    where
      go : (b : Bool) (c : Option (List ℕ)) → length (size b c) ≡ (if b then 4 else 0)
      go false c = refl
      go true none = refl
      go true (some p) = length-le_bytes 4 (length p)

  bind_row_lem :
      (i : ℕ) (v : Value) (done todo ds ts buffer : List ℕ)
      → length done ≡ i
      → i + 1 + length todo ≡ num
      → length ds ≡ (if need then i * 4 else 0)
      → bind_row t precision num i v
          (lay front done (0 ∷ todo) mark ds (size need none ++ ts) back, buffer)
        ≡ cell t precision v >>= λ c. ok (
          lay front (done ++ (flag c ∷ [])) todo mark (ds ++ size need c) ts back,
          buffer ++ payload t c,
        )
  unfolding bind_row
  bind_row_lem i v done todo ds ts buffer index rows sized =
      row_step need front mark back num i done todo ds ts twelve one index rows sized (is_nil v)
        (bind_value t precision v) t buffer

  grown :
      (d d' i : ℕ) (b : Bool)
      → d ≡ (if b then i * 4 else 0)
      → d' ≡ d + (if b then 4 else 0)
      → d' ≡ (if b then suc i * 4 else 0)
  grown d d' i true e f = omega (arith, e, f)
  grown d d' i false e f = omega (arith, e, f)

  pub bind_rows_lem :
      (values : List Value) (i : ℕ) (done ds buffer : List ℕ)
      → length done ≡ i
      → i + length values ≡ num
      → length ds ≡ (if need then i * 4 else 0)
      → bind_rows t precision num i values (
        lay front done (replicate (length values) 0) mark ds (no_sizes need (length values)) back,
        buffer,
      )
        ≡ cells t precision values >>= λ cs. ok (finished t front mark back done ds buffer cs)
  unfolding bind_rows
  bind_rows_lem [] i done ds buffer index rows sized = ap ok (none_left done ds buffer)
  bind_rows_lem (v ∷ values) i done ds buffer index rows sized =
      let todo = replicate {A = ℕ} (length values) 0 in
      let ts = no_sizes need (length values) in
      let left : i + 1 + length todo ≡ num =
        omega (arith, rows, length-replicate {A = ℕ} (length values) 0) in
      ap (λ r. r >>= bind_rows t precision num (suc i) values)
        (bind_row_lem i v done todo ds ts buffer index left sized)
      ∙ rounds (cell t precision v) (cells t precision values)
          (λ c. (
            lay front (done ++ (flag c ∷ [])) todo mark (ds ++ size need c) ts back,
            buffer ++ payload t c,
          ))
          (bind_rows t precision num (suc i) values)
          (λ c cs.
            finished t front mark back (done ++ (flag c ∷ [])) (ds ++ size need c)
              (buffer ++ payload t c) cs)
          (λ cs. finished t front mark back done ds buffer cs)
          (λ c.
            bind_rows_lem values (suc i) (done ++ (flag c ∷ [])) (ds ++ size need c)
              (buffer ++ payload t c) (omega (arith, index, length-append done (flag c ∷ [])))
              (omega (arith, rows))
              (grown (length ds) (length (ds ++ size need c)) i need sized
                (length-append ds (size need c) ∙ ap (λ n. length ds + n) (size_of_sizes c))))
          (more done ds buffer)
