-- ===== src/Json/Int.antt =====
-- tools/jsonbuilder/stream_int.go: whole numbers in groups of three digits. The functions take and
-- give `stream.buf`. A signed number is its bit pattern.
pub mod Decimal
use taosadapter.Common.{
  ℕ, ◌+◌, ◌-◌, ◌*◌, ◌/◌, ◌%◌, ◌^◌, List, [], ◌∷◌, ◌++◌, ltb, ◌==◌, if◌then◌else◌,
}

-- The entry `i` of the table `digits`: three digits, and above them how many zeros lead.
unfoldable digits : ℕ → ℕ
digits i =
    (i / 100 + 48) * 2 ^ 16
    + (i / 10 % 10 + 48) * 2 ^ 8
    + i % 10
    + 48
    + (if ltb i 10 then 2 * 2 ^ 24 else if ltb i 100 then 2 ^ 24 else 0)

-- `writeFirstBuf`
unfoldable write_first_buf : List ℕ → ℕ → List ℕ
write_first_buf space v =
    let start = v / 2 ^ 24 in
    (if start == 0
      then space ++ (v / 2 ^ 16 % 256 ∷ v / 2 ^ 8 % 256 ∷ [])
      else if start == 1
      then space ++ (v / 2 ^ 8 % 256 ∷ [])
      else space)
    ++ (v % 256 ∷ [])

-- `writeBuf`
unfoldable write_buf : List ℕ → ℕ → List ℕ
write_buf buf v = buf ++ (v / 2 ^ 16 % 256 ∷ v / 2 ^ 8 % 256 ∷ v % 256 ∷ [])

pub write_uint8 : ℕ → List ℕ → List ℕ
unfolding write_first_buf digits
write_uint8 val buf = write_first_buf buf (digits val)

pub write_int8 : ℕ → List ℕ → List ℕ
unfolding write_first_buf digits
write_int8 nval buf =
    if ltb nval (2 ^ 7)
    then write_first_buf buf (digits nval)
    else write_first_buf (buf ++ (45 ∷ [])) (digits (2 ^ 8 - nval))

pub write_uint16 : ℕ → List ℕ → List ℕ
unfolding write_first_buf write_buf digits
write_uint16 val buf =
    let q1 = val / 1000 in
    let r1 = val - q1 * 1000 in
    if q1 == 0
    then write_first_buf buf (digits val)
    else write_buf (write_first_buf buf (digits q1)) (digits r1)

pub write_int16 : ℕ → List ℕ → List ℕ
unfolding write_uint16
write_int16 nval buf =
    if ltb nval (2 ^ 15)
    then write_uint16 nval buf
    else write_uint16 (2 ^ 16 - nval) (buf ++ (45 ∷ []))

pub write_uint32 : ℕ → List ℕ → List ℕ
unfolding write_first_buf write_buf digits
write_uint32 val buf =
    let q1 = val / 1000 in
    let r1 = val - q1 * 1000 in
    let q2 = q1 / 1000 in
    let r2 = q1 - q2 * 1000 in
    let q3 = q2 / 1000 in
    let r3 = q2 - q3 * 1000 in
    if q1 == 0
    then write_first_buf buf (digits val)
    else if q2 == 0
    then write_buf (write_first_buf buf (digits q1)) (digits r1)
    else write_buf
        (write_buf
          (if q3 == 0
            then write_first_buf buf (digits q2)
            else write_buf (buf ++ ((q3 + 48) % 256 ∷ [])) (digits r3))
          (digits r2))
        (digits r1)

pub write_int32 : ℕ → List ℕ → List ℕ
unfolding write_uint32
write_int32 nval buf =
    if ltb nval (2 ^ 31)
    then write_uint32 nval buf
    else write_uint32 (2 ^ 32 - nval) (buf ++ (45 ∷ []))

pub write_uint64 : ℕ → List ℕ → List ℕ
unfolding write_first_buf write_buf digits
write_uint64 val buf =
    let q1 = val / 1000 in
    let r1 = val - q1 * 1000 in
    let q2 = q1 / 1000 in
    let r2 = q1 - q2 * 1000 in
    let q3 = q2 / 1000 in
    let r3 = q2 - q3 * 1000 in
    let q4 = q3 / 1000 in
    let r4 = q3 - q4 * 1000 in
    let q5 = q4 / 1000 in
    let r5 = q4 - q5 * 1000 in
    let q6 = q5 / 1000 in
    let r6 = q5 - q6 * 1000 in
    let group = λ (out : List ℕ) (r : ℕ). write_buf out (digits r) in
    if q1 == 0
    then write_first_buf buf (digits val)
    else if q2 == 0
    then group (write_first_buf buf (digits q1)) r1
    else if q3 == 0
    then group (group (write_first_buf buf (digits q2)) r2) r1
    else if q4 == 0
    then group (group (group (write_first_buf buf (digits q3)) r3) r2) r1
    else if q5 == 0
    then group (group (group (group (write_first_buf buf (digits q4)) r4) r3) r2) r1
    else group
        (group
          (group
            (group
              (group
                (if q6 == 0
                  then write_first_buf buf (digits q5)
                  else group (write_first_buf buf (digits q6)) r6)
                r5)
              r4)
            r3)
          r2)
        r1

pub write_int64 : ℕ → List ℕ → List ℕ
unfolding write_uint64
write_int64 nval buf =
    if ltb nval (2 ^ 63)
    then write_uint64 nval buf
    else write_uint64 (2 ^ 64 - nval) (buf ++ (45 ∷ []))

-- An `int` and a `uint` have 64 bits.
unfoldable write_int : ℕ → List ℕ → List ℕ
unfolding write_int64
write_int = write_int64

unfoldable write_uint : ℕ → List ℕ → List ℕ
unfolding write_uint64
write_uint = write_uint64
