-- ===== src/TmqSession/Blocks.antt =====
-- `fetch_block` of controller/ws/tmq/tmq.go after `fetch`, and after another `poll`.
use taosadapter.Common.{
  ℕ, ◌≡◌, ◌≢◌, refl, true, false, List, [], ◌∷◌, ◌==◌, length, Bool-cases, inl, inr, arith,
}
use taosadapter.Common.Bytes.{le_bytes}
use taosadapter.TmqSession.State.{Tmq, Answers, sends}
use taosadapter.TmqSession.Poll.{keep_message, message_type_is_valid, next_message}
use taosadapter.TmqSession.Fetch.{can_get_data, block_buffer, fetch_message, fetch_block}
use taosadapter.TmqSession.Buffers.{joined, block_buffer-layout, HasData, fetched-buffer}

-- A block with the time, the request that fetched it and the message that it is of.
abbrev pub block_answer : ℕ → ℕ → ℕ → List ℕ → List ℕ
block_answer elapsed req_id id block =
    joined (le_bytes 8 elapsed ∷ le_bytes 8 req_id ∷ le_bytes 8 id ∷ block ∷ [])

stored_answer :
    (a : Answers) (req_id id req_id' id' : ℕ) (block : List ℕ) (s : Tmq)
    → HasData id s
    → s.message.buffer ≡ block_answer 0 req_id' id' block
    → (fetch_block a req_id id s).1 ≡ sends (block_answer a.elapsed req_id' id' block) ∷ []
unfolding fetch_block
stored_answer a req_id id req_id' id' block s (c, p, i, t) b =
    let c' : s.consumer == 0 ≡ false = ground arith in
    let p' : s.message.pointer == 0 ≡ false = ground arith in
    let i' : s.message.index == id ≡ true = ground arith in
    let n' : length (block_answer 0 req_id' id' block) == 0 ≡ false = ground arith in
    rw (c', p', i', t, b, n') refl

-- When `fetch` of the session's message, which is data, has given rows, the next `fetch_block` of the
-- message sends the block, behind the time that it took itself, the number of the request that
-- fetched the block and the number of the message.
pub fetch_block-fetch :
    (a b : Answers) (req_id req_id' id : ℕ) (s : Tmq)
    → HasData id s
    → s.closed ≡ false
    → a.code ≡ 0
    → a.rows ≢ 0
    → (fetch_block b req_id' id (fetch_message a req_id id s).0).1
      ≡ sends (block_answer b.elapsed req_id id a.block) ∷ []
fetch_block-fetch a b req_id req_id' id s has live ok some_rows =
    rw (fetched-buffer a req_id id s has live ok some_rows) (
      stored_answer b req_id' id req_id id a.block _ has
        (block_buffer-layout req_id id a.block s.message.buffer))

kept-message :
    (a : Answers) (req_id m : ℕ) (s : Tmq)
    → s.closed ≡ false
    → message_type_is_valid a.type ≡ true
    → (keep_message a req_id m s).0 ≡ record s { message = next_message a m s.message }
unfolding keep_message
kept-message a req_id m s live valid = elim (Bool-cases (s.message.pointer == 0)) [
  | inl z ↦ rw (valid, live, z) refl
  | inr z ↦ rw (valid, live, z) refl
]

-- When `fetch` has given rows and `poll` then keeps another message, also of data, `fetch_block` of
-- the new message, with none of the other fetches in between, is no error: it sends the block of the
-- message before, with the number of that message.
pub fetch_block-keep_message :
    (a b c : Answers) (req_id req_id' poll_id id m : ℕ) (s : Tmq)
    → HasData id s
    → s.closed ≡ false
    → a.code ≡ 0
    → a.rows ≢ 0
    → m ≢ 0
    → can_get_data b.type ≡ true
    → (let s' = (keep_message b poll_id m (fetch_message a req_id id s).0).0 in
        (fetch_block c req_id' s'.message.index s').1
        ≡ sends (block_answer c.elapsed req_id id a.block) ∷ [])
fetch_block-keep_message a b c req_id req_id' poll_id id m s has live ok some_rows new is_data =
    let fetched = record s {
      message = record s.message { buffer = block_buffer req_id id a.block s.message.buffer };
    } in
    let e = fetched-buffer a req_id id s has live ok some_rows in
    let e' = kept-message b poll_id m fetched live (ground arith) in
    rw (e, e')
      (stored_answer c req_id' _ req_id id a.block
        (record fetched { message = next_message b m fetched.message }) (has.0, new, refl, is_data)
        (block_buffer-layout req_id id a.block s.message.buffer))
