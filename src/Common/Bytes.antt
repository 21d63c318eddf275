-- ===== src/Common/Bytes.antt =====
-- Little-endian numbers in a buffer of bytes. An index out of the buffer gives `none`.
pub mod Reads
pub mod Puts
use Prim.Native.Nat.{ℕ, zero, suc, ◌+◌, ◌*◌, ◌/◌, ◌%◌}
use mathlib.Core.List.{List, [], ◌∷◌}
use mathlib.Core.Option.{Option, none, some}
use taosadapter.Common.Lists.{get_elem?, set}

-- A byte cast, and the `k` bytes of a number, lowest first: `byte(v), byte(v>>8), …`.
abbrev pub le_bytes : ℕ → ℕ → List ℕ
le_bytes zero v = []
le_bytes (suc k) v = v % 256 ∷ le_bytes k (v / 256)

-- `b[off] = byte(v); b[off+1] = byte(v>>8); …`
abbrev pub write_le : ℕ → List ℕ → ℕ → ℕ → List ℕ
write_le zero b off v = b
write_le (suc k) b off v = write_le k (set b off (v % 256)) (suc off) (v / 256)

abbrev pub cons_byte : Option ℕ → Option (List ℕ) → Option (List ℕ)
cons_byte none r = none
cons_byte (some x) none = none
cons_byte (some x) (some xs) = some (x ∷ xs)

-- The `k` bytes at `off`, and the number that they stand for.
abbrev pub read_bytes : ℕ → List ℕ → ℕ → Option (List ℕ)
read_bytes zero b off = some []
read_bytes (suc k) b off = cons_byte (get_elem? b off) (read_bytes k b (suc off))

abbrev pub add_byte : Option ℕ → Option ℕ → Option ℕ
add_byte none r = none
add_byte (some x) none = none
add_byte (some x) (some v) = some (x + 256 * v)

abbrev pub read_le : ℕ → List ℕ → ℕ → Option ℕ
read_le zero b off = some 0
read_le (suc k) b off = add_byte (get_elem? b off) (read_le k b (suc off))
