-- ===== src/Json/Stream.antt =====
-- `Stream` of tools/jsonbuilder/stream.go and stream_float.go. An int is its bit pattern of 64 bits.
-- `error` says that `stream.Error` is set; `out` is left to the arguments of `write` and `flush`,
-- which stand for what the writer answers.
pub mod Balance
use taosadapter.Common.{
  ℕ, ◌+◌, ◌-◌, ◌/◌, ◌%◌, ◌^◌, Bool, true, false, ◌&&◌, ◌||◌, List, [], ◌∷◌, ◌++◌, Option, none,
  some, ltb, leb, ◌==◌, if◌then◌else◌, length, drop, replicate,
}
use taosadapter.Json.Str.{write_string}

pub record Stream : Type 0 where
  pub indention_step : ℕ
  pub buf : List ℕ
  pub error : Bool
  pub indention : ℕ

unfoldable new_stream : ℕ → Stream
new_stream step = record { indention_step = step; buf = []; error = false; indention = 0 }

unfoldable reset : Stream → Stream
reset st = record st { buf = [] }

-- A function that only changes `stream.buf`.
abbrev pub on_buf : (List ℕ → List ℕ) → Stream → Stream
on_buf f st = record st { buf = f st.buf }

unfoldable write_pure : List ℕ → Stream → Stream
write_pure p = on_buf (λ buf. buf ++ p)

unfoldable pub add_byte : ℕ → Stream → Stream
add_byte c = on_buf (λ buf. buf ++ (c ∷ []))

unfoldable pub write_raw : List ℕ → Stream → Stream
write_raw s = on_buf (λ buf. buf ++ s)

-- `Write`: the answer of a writer is how many bytes it took and whether it failed. Without a writer
-- the bytes stay in the buffer.
unfoldable write : Option (ℕ × Bool) → List ℕ → Stream → Stream × (ℕ × Bool)
write none p st = (record st { buf = st.buf ++ p }, (length p, false))
write (some (taken, failed)) p st = (record st { buf = drop taken (st.buf ++ p) }, (taken, failed))

-- `Flush`; the second part says that it returns an error.
unfoldable flush : Option (ℕ × Bool) → Stream → Stream × Bool
flush none st = (st, false)
flush (some (taken, failed)) st =
    if st.error
    then (st, true)
    else if failed
    then (record st { error = true }, true)
    else (record st { buf = [] }, false)

unfoldable pub write_nil : Stream → Stream
write_nil = on_buf (λ buf. buf ++ (110 ∷ 117 ∷ 108 ∷ 108 ∷ []))

pub write_true : Stream → Stream
write_true = on_buf (λ buf. buf ++ (116 ∷ 114 ∷ 117 ∷ 101 ∷ []))

pub write_false : Stream → Stream
write_false = on_buf (λ buf. buf ++ (102 ∷ 97 ∷ 108 ∷ 115 ∷ 101 ∷ []))

unfoldable write_bool : Bool → Stream → Stream
unfolding write_true write_false
write_bool true st = write_true st
write_bool false st = write_false st

-- `toWrite` spaces, none when it is not positive.
unfoldable spaces : ℕ → List ℕ
spaces to_write = if ltb to_write (2 ^ 63) then replicate to_write 32 else []

unfoldable write_indention : ℕ → Stream → Stream
unfolding spaces
write_indention delta st =
    if st.indention == 0
    then st
    else on_buf (λ buf. (buf ++ (10 ∷ [])) ++ spaces ((st.indention + 2 ^ 64 - delta) % 2 ^ 64)) st

abbrev deeper : Stream → Stream
deeper st = record st { indention = (st.indention + st.indention_step) % 2 ^ 64 }

abbrev shallower : Stream → Stream
shallower st = record st { indention = (st.indention + 2 ^ 64 - st.indention_step) % 2 ^ 64 }

pub write_object_start : Stream → Stream
unfolding write_indention add_byte
write_object_start st = write_indention 0 (add_byte 123 (deeper st))

unfoldable write_object_field : List ℕ → Stream → Stream
unfolding write_string
write_object_field field st =
    let st' = on_buf (write_string field) st in
    if ltb 0 st'.indention && ltb st'.indention (2 ^ 63)
    then on_buf (λ buf. buf ++ (58 ∷ 32 ∷ [])) st'
    else on_buf (λ buf. buf ++ (58 ∷ [])) st'

pub write_object_end : Stream → Stream
unfolding write_indention add_byte
write_object_end st = add_byte 125 (shallower (write_indention st.indention_step st))

unfoldable write_empty_object : Stream → Stream
unfolding add_byte
write_empty_object st = add_byte 125 (add_byte 123 st)

unfoldable write_more : Stream → Stream
unfolding write_indention add_byte
write_more st = write_indention 0 (add_byte 44 st)

pub write_array_start : Stream → Stream
unfolding write_indention add_byte
write_array_start st = write_indention 0 (add_byte 91 (deeper st))

unfoldable write_empty_array : Stream → Stream
write_empty_array = on_buf (λ buf. buf ++ (91 ∷ 93 ∷ []))

pub write_array_end : Stream → Stream
unfolding write_indention add_byte
write_array_end st = add_byte 93 (shallower (write_indention st.indention_step st))

-- What `strconv.AppendFloat` writes for the bits of a number, in the form `e` or `f`.
abbrev pub AppendFloat : Type 0
AppendFloat = Bool → ℕ → List ℕ

-- A NaN or an infinity sets the error. The cut-offs 1e-6 and 1e21 are compared as bit patterns,
-- which are in the order of the numbers when these are not negative.
unfoldable pub write_float32 : AppendFloat → ℕ → Stream → Stream
write_float32 text bits st =
    let abs = bits % 2 ^ 31 in
    if abs / 2 ^ 23 == 255
    then record st { error = true }
    else on_buf
        (λ buf. buf ++ text (ltb 0 abs && (ltb abs 0x3586_37bd || leb 0x6258_d727 abs)) bits) st

unfoldable pub write_float64 : AppendFloat → ℕ → Stream → Stream
write_float64 text bits st =
    let abs = bits % 2 ^ 63 in
    if abs / 2 ^ 52 == 2047
    then record st { error = true }
    else on_buf
        (λ buf.
          buf
          ++ text (ltb 0 abs && (ltb abs 0x3eb0_c6f7_a0b5_ed8d || leb 0x444b_1ae4_d6e2_ef50 abs))
              bits)
        st
