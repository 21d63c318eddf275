-- ===== src/Common/Counts.antt =====
-- How often a number stands in a list, and membership as a test.
use Prim.Native.Nat.{ℕ, ◌+◌}
use mathlib.Core.Path.{◌≡◌}
use mathlib.Core.Logic.{◌≢◌}
use mathlib.Core.Bool.{Bool, false, ◌||◌}
use mathlib.Core.List.{List, [], ◌∷◌, ◌++◌}
use native.Mathlib.Omega.{arith}
use taosadapter.Common.Tests.{◌==◌, if◌then◌else◌}

abbrev pub count : ℕ → List ℕ → ℕ
count a [] = 0
count a (x ∷ xs) = (if x == a then 1 else 0) + count a xs

abbrev pub contains : ℕ → List ℕ → Bool
contains a [] = false
contains a (x ∷ xs) = x == a || contains a xs

pub count-append :
    (k : ℕ) (front back : List ℕ) → count k (front ++ back) ≡ count k front + count k back
count-append k [] back = omega arith
count-append k (v ∷ front) back = omega (arith, count-append k front back)

pub contains-append :
    (a b : ℕ) (xs : List ℕ) → contains a xs ≡ false → b ≢ a → contains a (xs ++ (b ∷ [])) ≡ false
contains-append a b [] h n = ground arith
contains-append a b (x ∷ xs) h n = ground (arith, contains-append a b xs)
