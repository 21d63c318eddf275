-- ===== src/Json/Stream/Balance.antt =====
-- Objects and arrays of tools/jsonbuilder/stream.go: the indention at their ends.
use taosadapter.Common.{ℕ, ◌+◌, ◌-◌, ◌%◌, ◌^◌, ◌<◌, ◌≡◌, ◌∙◌, arith}
use taosadapter.Json.Stream.{
  Stream, add_byte, write_indention, write_object_start, write_object_end, write_array_start,
  write_array_end,
}

indention-write_indention :
    (delta : ℕ) (st : Stream) → (write_indention delta st).indention ≡ st.indention
unfolding write_indention
indention-write_indention delta st = ground arith

step-write_indention :
    (delta : ℕ) (st : Stream) → (write_indention delta st).indention_step ≡ st.indention_step
unfolding write_indention
step-write_indention delta st = ground arith

-- What the end of an object or of an array makes of the indention.
abbrev ended : Stream → ℕ
ended s =
    ((write_indention s.indention_step s).indention
      + 2 ^ 64
      - (write_indention s.indention_step s).indention_step)
    % 2 ^ 64

-- What its start does to a stream.
StartedFrom : Stream → Stream → Type 0
StartedFrom st s =
    (s.indention ≡ (st.indention + st.indention_step) % 2 ^ 64)
    × (s.indention_step ≡ st.indention_step)

object-StartedFrom : (st : Stream) → StartedFrom st (write_object_start st)
unfolding StartedFrom write_object_start add_byte
object-StartedFrom st = (indention-write_indention 0 _, step-write_indention 0 _)

array-StartedFrom : (st : Stream) → StartedFrom st (write_array_start st)
unfolding StartedFrom write_array_start add_byte
array-StartedFrom st = (indention-write_indention 0 _, step-write_indention 0 _)

ended_lem :
    (st s : Stream)
    → st.indention < 2 ^ 64
    → st.indention_step < 2 ^ 64
    → StartedFrom st s
    → ended s ≡ st.indention
unfolding StartedFrom
ended_lem st s small low from = omega (
  arith,
  indention-write_indention s.indention_step s,
  step-write_indention s.indention_step s,
  from.0,
  from.1,
)

-- An object or an array ends with the indention that it began with, whatever is written in between,
-- as long as this ends with the indention and the step that it began with.
pub indention_restored :
    (st : Stream) (body : Stream → Stream)
    → st.indention < 2 ^ 64
    → st.indention_step < 2 ^ 64
    → ((s : Stream) → (body s).indention ≡ s.indention)
    → ((s : Stream) → (body s).indention_step ≡ s.indention_step)
    → ((write_object_end (body (write_object_start st))).indention ≡ st.indention)
      × ((write_array_end (body (write_array_start st))).indention ≡ st.indention)
unfolding write_object_end write_array_end add_byte StartedFrom
indention_restored st body small low keeps steps = (
  ended_lem st (body (write_object_start st)) small low
      (kept (write_object_start st) (object-StartedFrom st)),
  ended_lem st (body (write_array_start st)) small low
      (kept (write_array_start st) (array-StartedFrom st)),
)
  where
    kept : (s : Stream) → StartedFrom st s → StartedFrom st (body s)
    kept s from = (keeps s ∙ from.0, steps s ∙ from.1)
