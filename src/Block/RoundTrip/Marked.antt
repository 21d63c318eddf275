-- ===== src/Block/RoundTrip/Marked.antt =====
-- Setting one bit of a bitmap at the front of a buffer (`BMSetNull` of driver/common/serializer).
use taosadapter.Common.{
  ℕ, zero, suc, ◌/◌, ◌%◌, ◌<◌, ◌≡◌, refl, ◌≢◌, ◌∙◌, Bool, true, false, List, [], ◌∷◌, Option, none,
  some, arith, set, get_elem?, get_elem?-set_self, get_elem?-set_ne, get_or, ap,
}
use native.Mathlib.Decide.{ℕ_discrete}
use taosadapter.Common.Bytes.Reads.{get_elem?-lt}
use taosadapter.Common.Bytes.{write_le}
use taosadapter.Block.Bitmap.{
  bm_is_null, bm_set_null, null_bit, bm_is_null-bm_set_null, bm_set_null-lt,
}

abbrev pub AllBytes : List ℕ → Type 0
AllBytes [] = Unit {0}
AllBytes (x ∷ xs) = (x < 256) × AllBytes xs

set-AllBytes : (b : List ℕ) (i x : ℕ) → x < 256 → AllBytes b → AllBytes (set b i x)
set-AllBytes [] i x h a = tt
set-AllBytes (y ∷ b) zero x h a = (h, a.1)
set-AllBytes (y ∷ b) (suc i) x h a = (a.0, set-AllBytes b i x h a.1)

pub write_le-AllBytes :
    (k : ℕ) (b : List ℕ) (off v : ℕ) → AllBytes b → AllBytes (write_le k b off v)
write_le-AllBytes zero b off v a = a
write_le-AllBytes (suc k) b off v a =
    write_le-AllBytes k (set b off (v % 256)) (suc off) (v / 256)
      (set-AllBytes b off (v % 256) (omega arith) a)

get_elem?-AllBytes : (b : List ℕ) (i c : ℕ) → AllBytes b → get_elem? b i ≡ some c → c < 256
get_elem?-AllBytes [] i c a e = cc
get_elem?-AllBytes (x ∷ b) zero c a e = ground arith
get_elem?-AllBytes (x ∷ b) (suc i) c a e = get_elem?-AllBytes b i c a.1 e

get_or_of_some : (b : List ℕ) (i c : ℕ) → get_elem? b i ≡ some c → get_or b i 0 ≡ c
get_or_of_some [] i c e = cc
get_or_of_some (x ∷ b) zero c e = cc
get_or_of_some (x ∷ b) (suc i) c e = get_or_of_some b i c e

-- The bit of a row in a bitmap that begins the buffer.
abbrev pub null_at : List ℕ → ℕ → Option Bool
null_at b row = null_bit (get_elem? b (row / 8)) row

null_at_byte :
    (b : List ℕ) (row : ℕ) (x : Bool)
    → null_at b row ≡ some x
    → (c : ℕ) × (get_elem? b (row / 8) ≡ some c) × (bm_is_null c row ≡ x)
null_at_byte b row x e = go (get_elem? b (row / 8)) e
  where
    go : (o : Option ℕ) → null_bit o row ≡ some x → (c : ℕ) × (o ≡ some c) × (bm_is_null c row ≡ x)
    go none h = unfold null_bit in cc
    go (some c) h = (c, refl, unfold null_bit in cc)

-- `BMSetNull` at a row whose bit is clear: the bit is set, and the bits of other rows stay.
module _ (b : List ℕ) (row : ℕ) (all : AllBytes b) (clear : null_at b row ≡ some false) where
  abbrev pub marked : List ℕ
  marked = set b (row / 8) (bm_set_null (get_or b (row / 8) 0) row)

  marked_byte :
      (c : ℕ) × (c < 256)
      × (get_elem? b (row / 8) ≡ some c)
      × (bm_is_null c row ≡ false)
      × (get_elem? marked (row / 8) ≡ some (bm_set_null c row))
  marked_byte =
      let (c, e, h) = null_at_byte b row false clear in
      (
        c,
        get_elem?-AllBytes b (row / 8) c all e,
        e,
        h,
        rw (get_or_of_some b (row / 8) c e)
            (get_elem?-set_self b (row / 8) (bm_set_null c row) (get_elem?-lt b (row / 8) c e)),
      )

  pub marked_self : null_at marked row ≡ some true
  unfolding null_bit
  marked_self =
      let (c, small, e, h, e') = marked_byte in
      rw e' (ground (arith, bm_is_null-bm_set_null c row row small h))

  pub marked_ne : (j : ℕ) → j ≢ row → null_at marked j ≡ null_at b j
  unfolding null_bit
  marked_ne j ne = elim (ℕ_discrete (row / 8) (j / 8)) [
    | yes same ↦
        let (c, small, e, h, e') = marked_byte in
        rw (← same, e', e) (ap some (bm_is_null-bm_set_null c row j small h ∙ ground arith))
    | no other ↦ rw (get_elem?-set_ne b (bm_set_null (get_or b (row / 8) 0) row) other)
  ]

  pub marked-AllBytes : AllBytes marked
  marked-AllBytes = set-AllBytes b (row / 8) _ (bm_set_null-lt (get_or b (row / 8) 0) row) all
