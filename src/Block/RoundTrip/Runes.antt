-- ===== src/Block/RoundTrip/Runes.antt =====
-- Strings of runes: `appendUint32` of each rune (driver/common/serializer) against the loop of
-- `rawConvertNchar` (driver/common/parser).
use taosadapter.Common.{
  ℕ, suc, ◌+◌, ◌*◌, ◌^◌, ◌<◌, ◌≡◌, refl, ap, List, [], ◌∷◌, ◌++◌, some, arith, length, get_elem?,
}
use taosadapter.Common.Bytes.{le_bytes, read_le, read_bytes}
use taosadapter.Common.Bytes.Reads.{cons_byte-some}
use taosadapter.Block.Serialize.{append_runes}
use taosadapter.Block.Parse.{read_runes}
use taosadapter.Block.RoundTrip.Values.{AllRunes}

pub length-append_runes : (rs : List ℕ) → length (append_runes rs) ≡ 4 * length rs
unfolding append_runes
length-append_runes [] = refl
length-append_runes (r ∷ rs) = omega (arith, length-append_runes rs)

-- Four bytes of a rune that were read, and the number that they are.
read_rune :
    (b : List ℕ) (off r k : ℕ) (p : List ℕ)
    → r < 2 ^ 32
    → read_bytes (suc (suc (suc (suc k)))) b off ≡ some (le_bytes 4 r ++ p)
    → (read_le 4 b off ≡ some r) × (read_bytes k b (off + 4) ≡ some p)
read_rune b off r k p small e =
    let (e0, r0) =
      cons_byte-some (get_elem? b off) (read_bytes (suc (suc (suc k))) b (suc off)) _ _ e in
    let (e1, r1) =
      cons_byte-some (get_elem? b (suc off)) (read_bytes (suc (suc k)) b (suc (suc off))) _ _ r0 in
    let (e2, r2) =
      cons_byte-some (get_elem? b (suc (suc off))) (read_bytes (suc k) b (suc (suc (suc off)))) _ _
        r1 in
    let (e3, r3) =
      cons_byte-some (get_elem? b (suc (suc (suc off))))
        (read_bytes k b (suc (suc (suc (suc off))))) _ _ r2 in
    let same : off + 4 ≡ suc (suc (suc (suc off))) = omega arith in
    (rw (e0, e1, e2, e3) (ap some (omega arith)), rw same r3)

-- The runes of a string are read back from its bytes.
pub read_runes-append_runes :
    (b : List ℕ) (rs : List ℕ) (off : ℕ)
    → AllRunes rs
    → read_bytes (length (append_runes rs)) b off ≡ some (append_runes rs)
    → read_runes (length rs) b off ≡ some rs
unfolding read_runes append_runes
read_runes-append_runes b [] off all e = refl
read_runes-append_runes b (r ∷ rs) off all e =
    let (now, rest) = read_rune b off r (length (append_runes rs)) (append_runes rs) all.0 e in
    rw (now, read_runes-append_runes b rs (off + 4) all.1 rest)
