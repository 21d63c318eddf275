-- ===== src/Common/Bytes/Puts.antt =====
-- Bytes put into a buffer in place.
use Prim.Native.Nat.{ℕ, zero, suc, ◌+◌}
use mathlib.Core.Path.{◌≡◌, refl, ap, ◌∙◌}
use mathlib.Core.List.{List, [], ◌∷◌, ◌++◌}
use native.Mathlib.Omega.{arith}
use taosadapter.Common.Lists.{length, set, replicate}

-- `copy(b[off:], bytes)` where there is room, and the writes of single bytes.
abbrev pub put_bytes : List ℕ → ℕ → List ℕ → List ℕ
put_bytes b off [] = b
put_bytes b off (x ∷ xs) = put_bytes (set b off x) (suc off) xs

-- A write behind a part leaves the part alone.
set_behind :
    (pre b : List ℕ) (i j x : ℕ) → j ≡ length pre + i → set (pre ++ b) j x ≡ pre ++ set b i x
set_behind [] b i j x e = ap (λ (n : ℕ). set b n x) (omega (arith, e))
set_behind (y ∷ pre) b i zero x e = absurd (omega (arith, e))
set_behind (y ∷ pre) b i (suc j) x e =
    ap (λ (xs : List ℕ). y ∷ xs) (set_behind pre b i j x (omega (arith, e)))

pub put_behind :
    (pre b : List ℕ) (i j : ℕ) (new : List ℕ)
    → j ≡ length pre + i
    → put_bytes (pre ++ b) j new ≡ pre ++ put_bytes b i new
put_behind pre b i j [] e = refl
put_behind pre b i j (x ∷ new) e =
    ap (λ (xs : List ℕ). put_bytes xs (suc j) new) (set_behind pre b i j x e)
    ∙ put_behind pre (set b i x) (suc i) (suc j) new (omega (arith, e))

-- What was there before is replaced.
pub put_over :
    (old new post : List ℕ) → length old ≡ length new → put_bytes (old ++ post) 0 new ≡ new ++ post
put_over [] [] post e = refl
put_over [] (x ∷ new) post e = absurd (omega (arith, e))
put_over (y ∷ old) [] post e = absurd (omega (arith, e))
put_over (y ∷ old) (x ∷ new) post e =
    put_behind (x ∷ []) (old ++ post) 0 1 new refl
    ∙ ap (λ (xs : List ℕ). x ∷ xs) (put_over old new post (omega (arith, e)))

-- The same behind a part.
pub put_part :
    (pre old new post : List ℕ) (j : ℕ)
    → j ≡ length pre
    → length old ≡ length new
    → put_bytes (pre ++ (old ++ post)) j new ≡ pre ++ (new ++ post)
put_part pre old new post j e l =
    put_behind pre (old ++ post) 0 j new (omega (arith, e))
    ∙ ap (λ (xs : List ℕ). pre ++ xs) (put_over old new post l)

nothing : (n : ℕ) → 0 + n ≡ n
nothing n = omega arith

pub replicate-append : (m n x : ℕ) → replicate (m + n) x ≡ replicate m x ++ replicate n x
replicate-append zero n x = ap (λ (k : ℕ). replicate k x) (nothing n)
replicate-append (suc m) n x =
    ap (λ (k : ℕ). replicate k x) same ∙ ap (λ (xs : List ℕ). x ∷ xs) (replicate-append m n x)
  where
    same : suc m + n ≡ suc (m + n)
    same = omega arith
