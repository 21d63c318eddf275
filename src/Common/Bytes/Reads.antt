-- ===== src/Common/Bytes/Reads.antt =====
-- What a read finds after a write, an append, or in a part of a larger buffer.
use Prim.Native.Nat.{ℕ, zero, suc, ◌+◌, ◌/◌, ◌%◌, ◌^◌, ◌<◌, ◌≤◌}
use mathlib.Core.Path.{◌≡◌, refl, ap, ap₂, subst, ◌∙◌}
use mathlib.Core.Logic.{◌≢◌, ◌⊎◌}
use mathlib.Core.List.{List, [], ◌∷◌, ◌++◌, append-nil}
use mathlib.Core.Option.{Option, none, some}
use native.Mathlib.Omega.{arith}
use native.Mathlib.Nat.{pow-suc}
use taosadapter.Common.Lists.{
  length, get_elem?, set, length-set, get_elem?-set_self, get_elem?-set_ne,
}
use taosadapter.Common.Bytes.{le_bytes, write_le, read_bytes, read_le, add_byte, cons_byte}

pub length-le_bytes : (k v : ℕ) → length (le_bytes k v) ≡ k
length-le_bytes zero v = refl
length-le_bytes (suc k) v = ap suc (length-le_bytes k (v / 256))

get_elem?-append_left :
    (xs ys : List ℕ) (i : ℕ) → i < length xs → get_elem? (xs ++ ys) i ≡ get_elem? xs i
get_elem?-append_left [] ys i h = absurd (omega arith)
get_elem?-append_left (x ∷ xs) ys zero h = refl
get_elem?-append_left (x ∷ xs) ys (suc i) h = get_elem?-append_left xs ys i (omega arith)

get_elem?-append_right :
    (xs ys : List ℕ) (i j : ℕ) → i ≡ length xs + j → get_elem? (xs ++ ys) i ≡ get_elem? ys j
get_elem?-append_right [] ys i j h = ap (get_elem? ys) (omega arith)
get_elem?-append_right (x ∷ xs) ys zero j h = absurd (omega arith)
get_elem?-append_right (x ∷ xs) ys (suc i) j h = get_elem?-append_right xs ys i j (omega arith)

-- Two buffers agree on `k` bytes.
abbrev pub Agree : ℕ → List ℕ → ℕ → List ℕ → ℕ → Type 0
Agree zero b i c j = Unit {0}
Agree (suc k) b i c j = (get_elem? b i ≡ get_elem? c j) × Agree k b (suc i) c (suc j)

pub read_le-Agree :
    (k : ℕ) (b : List ℕ) (i : ℕ) (c : List ℕ) (j : ℕ)
    → Agree k b i c j
    → read_le k b i ≡ read_le k c j
read_le-Agree zero b i c j h = refl
read_le-Agree (suc k) b i c j h = ap₂ add_byte h.0 (read_le-Agree k b (suc i) c (suc j) h.1)

pub read_bytes-Agree :
    (k : ℕ) (b : List ℕ) (i : ℕ) (c : List ℕ) (j : ℕ)
    → Agree k b i c j
    → read_bytes k b i ≡ read_bytes k c j
read_bytes-Agree zero b i c j h = refl
read_bytes-Agree (suc k) b i c j h = ap₂ cons_byte h.0 (read_bytes-Agree k b (suc i) c (suc j) h.1)

pub Agree-refl : (k : ℕ) (b : List ℕ) (i : ℕ) → Agree k b i b i
Agree-refl zero b i = tt
Agree-refl (suc k) b i = (refl, Agree-refl k b (suc i))

-- A part of a larger buffer.
pub Agree-part :
    (k : ℕ) (pre b post : List ℕ) (i j : ℕ)
    → i ≡ length pre + j
    → j + k ≤ length b
    → Agree k (pre ++ (b ++ post)) i b j
Agree-part zero pre b post i j e h = tt
Agree-part (suc k) pre b post i j e h = (
  get_elem?-append_right pre (b ++ post) i j e ∙ get_elem?-append_left b post j (omega arith),
  Agree-part k pre b post (suc i) (suc j) (omega arith) (omega arith),
)

pub Agree-append : (k : ℕ) (b post : List ℕ) (i : ℕ) → i + k ≤ length b → Agree k (b ++ post) i b i
Agree-append k b post i h = Agree-part k [] b post i i (omega arith) h

pub Agree-set : (k : ℕ) (b : List ℕ) (i j x : ℕ) → (j < i) ⊎ (i + k ≤ j) → Agree k (set b j x) i b i
Agree-set zero b i j x h = tt
Agree-set (suc k) b i j x h =
    (get_elem?-set_ne b x (omega arith), Agree-set k b (suc i) j x (omega arith))

pub Agree-trans :
    (k : ℕ) (b : List ℕ) (i : ℕ) (c : List ℕ) (j : ℕ) (d : List ℕ) (l : ℕ)
    → Agree k b i c j
    → Agree k c j d l
    → Agree k b i d l
Agree-trans zero b i c j d l h g = tt
Agree-trans (suc k) b i c j d l h g =
    (h.0 ∙ g.0, Agree-trans k b (suc i) c (suc j) d (suc l) h.1 g.1)

pub length-write_le : (k : ℕ) (b : List ℕ) (off v : ℕ) → length (write_le k b off v) ≡ length b
length-write_le zero b off v = refl
length-write_le (suc k) b off v =
    length-write_le k (set b off (v % 256)) (suc off) (v / 256) ∙ length-set b off (v % 256)

-- A write touches its own bytes only.
pub Agree-write_le :
    (k m : ℕ) (b : List ℕ) (i off v : ℕ)
    → (i + k ≤ off) ⊎ (off + m ≤ i)
    → Agree k (write_le m b off v) i b i
Agree-write_le k zero b i off v h = Agree-refl k b i
Agree-write_le k (suc m) b i off v h =
    Agree-trans k (write_le m (set b off (v % 256)) (suc off) (v / 256)) i (set b off (v % 256)) i b
      i (Agree-write_le k m (set b off (v % 256)) i (suc off) (v / 256) (omega arith))
      (Agree-set k b i off (v % 256) (omega arith))

Agree-cons : (k : ℕ) (x : ℕ) (b : List ℕ) (i : ℕ) → Agree k (x ∷ b) (suc i) b i
Agree-cons zero x b i = tt
Agree-cons (suc k) x b i = (refl, Agree-cons k x b (suc i))

div_pow : (k v : ℕ) → v < 256 ^ suc k → v / 256 < 256 ^ k
div_pow k v h = let e = pow-suc 256 k in omega arith

read_first : (k v : ℕ) → v < 256 ^ k → read_le k (le_bytes k v) 0 ≡ some v
read_first zero v h = ap some (omega arith)
read_first (suc k) v h =
    let e =
      read_le-Agree k (v % 256 ∷ le_bytes k (v / 256)) 1 (le_bytes k (v / 256)) 0
        (Agree-cons k (v % 256) (le_bytes k (v / 256)) 0) in
    rw (e, read_first k (v / 256) (div_pow k v h)) (ap some (omega arith))

-- The bytes of a number, wherever they stand, are read as the number.
pub read_le-le_bytes :
    (k v : ℕ) (pre post : List ℕ) (i : ℕ)
    → v < 256 ^ k
    → i ≡ length pre
    → read_le k (pre ++ (le_bytes k v ++ post)) i ≡ some v
read_le-le_bytes k v pre post i h e =
    read_le-Agree k (pre ++ (le_bytes k v ++ post)) i (le_bytes k v) 0
      (Agree-part k pre (le_bytes k v) post i 0 (omega arith) (omega (arith, length-le_bytes k v)))
    ∙ read_first k v h

read_all : (p : List ℕ) → read_bytes (length p) p 0 ≡ some p
read_all [] = refl
read_all (x ∷ p) =
    let e = read_bytes-Agree (length p) (x ∷ p) 1 p 0 (Agree-cons (length p) x p 0) in
    rw (e, read_all p)

pub read_bytes-append :
    (p pre post : List ℕ) (i : ℕ)
    → i ≡ length pre
    → read_bytes (length p) (pre ++ (p ++ post)) i ≡ some p
read_bytes-append p pre post i e =
    read_bytes-Agree (length p) (pre ++ (p ++ post)) i p 0
      (Agree-part (length p) pre p post i 0 (omega arith) (omega arith))
    ∙ read_all p

-- A number that was written is read back.
pub read_le-write_le :
    (k : ℕ) (b : List ℕ) (off v : ℕ)
    → v < 256 ^ k
    → off + k ≤ length b
    → read_le k (write_le k b off v) off ≡ some v
read_le-write_le zero b off v h r = ap some (omega arith)
read_le-write_le (suc k) b off v h r =
    let b' = set b off (v % 256) in
    let head = (Agree-write_le 1 k b' off (suc off) (v / 256) (omega arith)).0 in
    rw
      (
        head,
        get_elem?-set_self b off (v % 256) (omega arith),
        read_le-write_le k b' (suc off) (v / 256) (div_pow k v h)
            (omega (arith, length-set b off (v % 256))),
      )
      (ap some (omega arith))

pub read_bytes_last :
    (p pre : List ℕ) (i : ℕ) → i ≡ length pre → read_bytes (length p) (pre ++ p) i ≡ some p
read_bytes_last p pre i e =
    subst (λ (q : List ℕ). read_bytes (length p) (pre ++ q) i ≡ some p) (append-nil p)
      (read_bytes-append p pre [] i e)

pub get_elem?-lt : (b : List ℕ) (i c : ℕ) → get_elem? b i ≡ some c → i < length b
get_elem?-lt [] i c e = cc
get_elem?-lt (x ∷ b) zero c e = omega arith
get_elem?-lt (x ∷ b) (suc i) c e = omega (arith, get_elem?-lt b i c e)

add_byte-some :
    (o r : Option ℕ) (v : ℕ)
    → add_byte o r ≡ some v
    → ((x : ℕ) × (o ≡ some x)) × ((w : ℕ) × (r ≡ some w))
add_byte-some none r v e = cc
add_byte-some (some x) none v e = cc
add_byte-some (some x) (some w) v e = ((x, refl), (w, refl))

pub cons_byte-some :
    (o : Option ℕ) (r : Option (List ℕ)) (x : ℕ) (xs : List ℕ)
    → cons_byte o r ≡ some (x ∷ xs)
    → (o ≡ some x) × (r ≡ some xs)
cons_byte-some none r x xs e = cc
cons_byte-some (some y) none x xs e = cc
cons_byte-some (some y) (some ys) x xs e = (cc, cc)

-- A read that succeeds in a part succeeds in the larger buffer.
module _ (pre b post : List ℕ) where
  byte_part :
      (j x : ℕ) → get_elem? b j ≡ some x → get_elem? (pre ++ (b ++ post)) (length pre + j) ≡ some x
  byte_part j x e =
      get_elem?-append_right pre (b ++ post) (length pre + j) j refl
      ∙ get_elem?-append_left b post j (get_elem?-lt b j x e)
      ∙ e

  pub read_le_part :
      (k j i v : ℕ)
      → i ≡ length pre + j
      → read_le k b j ≡ some v
      → read_le k (pre ++ (b ++ post)) i ≡ some v
  read_le_part zero j i v at e = e
  read_le_part (suc k) j i v at e =
      let ((x, ex), (w, ew)) = add_byte-some (get_elem? b j) (read_le k b (suc j)) v e in
      rw (at, byte_part j x ex)
        (rw (read_le_part k (suc j) (suc (length pre + j)) w (omega arith) ew) (rw (ex, ew) at e))

  pub read_bytes_part :
      (k j i : ℕ) (p : List ℕ)
      → i ≡ length pre + j
      → read_bytes k b j ≡ some p
      → read_bytes k (pre ++ (b ++ post)) i ≡ some p
  read_bytes_part zero j i p at e = e
  read_bytes_part (suc k) j i [] at e = absurd (never (get_elem? b j) (read_bytes k b (suc j)) e)
    where
      never : (o : Option ℕ) (r : Option (List ℕ)) → cons_byte o r ≢ some []
      never none r h = cc
      never (some y) none h = cc
      never (some y) (some ys) h = cc
  read_bytes_part (suc k) j i (x ∷ p) at e =
      let (ex, ep) = cons_byte-some (get_elem? b j) (read_bytes k b (suc j)) x p e in
      rw (at, byte_part j x ex)
        (rw (read_bytes_part k (suc j) (suc (length pre + j)) p (omega arith) ep))
