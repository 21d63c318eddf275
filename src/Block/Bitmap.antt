-- ===== src/Block/Bitmap.antt =====
-- The null bitmap: `BitmapLen`, `BitPos`, `CharOffset`, `BMSetNull` of driver/common/serializer and
-- `BMIsNull`, `ItemIsNull` of driver/common/parser.
use taosadapter.Common.{
  ℕ, zero, suc, ◌+◌, ◌-◌, ◌/◌, ◌%◌, ◌^◌, ◌<◌, ◌≡◌, refl, bit_and, Bool, true, false, not, ◌&&◌,
  ◌||◌, List, Option, none, some, arith, ◌==◌, get_elem?,
}
use taosadapter.Block.{add_pointer}

unfoldable pub bitmap_len : ℕ → ℕ
bitmap_len n = (n + 7) / 8

abbrev bit_pos : ℕ → ℕ
bit_pos n = n % 8

abbrev pub char_offset : ℕ → ℕ
char_offset n = n / 8

-- `c + (1 << (7 - BitPos(n)))` on a byte.
unfoldable pub bm_set_null : ℕ → ℕ → ℕ
bm_set_null c n = (c + 2 ^ (7 - bit_pos n)) % 256

unfoldable pub bm_is_null : ℕ → ℕ → Bool
bm_is_null c n = bit_and c (2 ^ (7 - bit_pos n)) == 2 ^ (7 - bit_pos n)

unfoldable pub null_bit : Option ℕ → ℕ → Option Bool
null_bit none n = none
null_bit (some c) n = some (bm_is_null c n)

-- `ItemIsNull`, with the header at an offset in the block.
unfoldable pub item_is_null : List ℕ → ℕ → ℕ → Option Bool
item_is_null b header row = null_bit (get_elem? b (add_pointer header (char_offset row))) row

-- A test on all the numbers below a bound, from the last down.
passes : ℕ → (ℕ → Bool) → Bool
passes zero test = true
passes (suc n) test = passes n test && test n

passes_at : (n : ℕ) (test : ℕ → Bool) → passes n test ≡ true → (i : ℕ) → i < n → test i ≡ true
unfolding passes
passes_at zero test ok i inside = absurd (omega arith)
passes_at (suc n) test ok i inside = ground (arith, passes_at n test (ground arith) i)

-- Setting bit `p` of `c`, and then testing bit `q`.
test_bit : ℕ → ℕ → Bool
test_bit c p = bit_and c (2 ^ (7 - p)) == 2 ^ (7 - p)

same : Bool → Bool → Bool
same true b = b
same false b = not b

set_table_row : ℕ → ℕ → ℕ → Bool
set_table_row p q c =
    test_bit c p || same (test_bit ((c + 2 ^ (7 - p)) % 256) q) (p == q || test_bit c q)

set_table : passes 8 (λ p. passes 8 (λ q. passes 256 (set_table_row p q))) ≡ true
unfolding passes set_table_row test_bit same
set_table = refl

set_table_at : (p q c : ℕ) → p < 8 → q < 8 → c < 256 → set_table_row p q c ≡ true
set_table_at p q c hp hq hc =
    let first = passes_at 8 (λ p. passes 8 (λ q. passes 256 (set_table_row p q))) set_table p hp in
    let second = passes_at 8 (λ q. passes 256 (set_table_row p q)) first q hq in
    passes_at 256 (set_table_row p q) second c hc

-- On a byte whose bit of row `n` is clear, `BMSetNull` sets this bit and no other.
pub bm_is_null-bm_set_null :
    (c n m : ℕ)
    → c < 256
    → bm_is_null c n ≡ false
    → bm_is_null (bm_set_null c n) m ≡ (n % 8 == m % 8 || bm_is_null c m)
unfolding bm_is_null bm_set_null
bm_is_null-bm_set_null c n m hc h =
    unfold set_table_row test_bit same in
    ground (arith, set_table_at (n % 8) (m % 8) c (omega arith) (omega arith) hc)

pub bm_set_null-lt : (c n : ℕ) → bm_set_null c n < 256
unfolding bm_set_null
bm_set_null-lt c n = omega arith

zero_table : passes 8 (λ p. not (test_bit 0 p)) ≡ true
unfolding passes test_bit
zero_table = refl

pub bm_is_null_zero : (n : ℕ) → bm_is_null 0 n ≡ false
unfolding bm_is_null
bm_is_null_zero n =
    unfold test_bit in
    ground (arith, passes_at 8 (λ p. not (test_bit 0 p)) zero_table (n % 8) (omega arith))
