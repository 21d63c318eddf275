-- ===== src/TmqSession/Buffers.antt =====
-- The binary answers of controller/ws/tmq/tmq.go, against their layouts.
use taosadapter.Common.{
  ℕ, zero, suc, ◌+◌, ◌-◌, ◌%◌, ◌^◌, ◌≡◌, ◌≢◌, ◌≤◌, refl, sym, ap, ◌∙◌, true, false, List, [], ◌∷◌,
  ◌++◌, ◌==◌, length, length-append, append-nil, append_assoc, arith,
}
use taosadapter.Common.Bytes.{le_bytes}
use taosadapter.Common.Bytes.Puts.{put_bytes, put_part}
use taosadapter.TmqSession.State.{Text, Tmq, Answers}
use taosadapter.TmqSession.Fetch.{
  resize, can_get_data, block_buffer, fetch_message, raw_buffer, ws_fetch_raw_block_message,
  tmq_fetch_raw_block_error_msg,
}

-- Parts put one after the other.
abbrev put_all : List ℕ → ℕ → List (List ℕ) → List ℕ
put_all b off [] = b
put_all b off (p ∷ ps) = put_all (put_bytes b off p) (off + length p) ps

abbrev pub joined : List (List ℕ) → List ℕ
joined [] = []
joined (p ∷ ps) = p ++ joined ps

resize-length : (n : ℕ) (b : List ℕ) → length (resize n b) ≡ n
resize-length zero b = refl
resize-length (suc n) [] = ap suc (resize-length n [])
resize-length (suc n) (x ∷ b) = ap suc (resize-length n b)

split_at :
    (k : ℕ) (b : List ℕ)
    → k ≤ length b
    → (front : List ℕ) × (back : List ℕ) × (b ≡ front ++ back) × (length front ≡ k)
split_at zero b h = ([], b, refl, refl)
split_at (suc k) [] h = absurd (omega arith)
split_at (suc k) (x ∷ b) h =
    let (front, back, e, n) = split_at k b (omega arith) in
    (x ∷ front, back, ap (λ (xs : List ℕ). x ∷ xs) e, omega (arith, n))

put_all-joined :
    (ps : List (List ℕ)) (pre b : List ℕ) (off : ℕ)
    → off ≡ length pre
    → length b ≡ length (joined ps)
    → put_all (pre ++ b) off ps ≡ pre ++ joined ps
put_all-joined [] pre [] off o h = refl
put_all-joined [] pre (x ∷ b) off o h = absurd (omega (arith, h))
put_all-joined (p ∷ ps) pre b off o h =
    let (front, back, e, n) =
      split_at (length p) b (omega (arith, h, length-append p (joined ps))) in
    let placed = put_part pre front p back off o n in
    ap (λ xs. put_all (put_bytes (pre ++ xs) off p) (off + length p) ps) e
    ∙ ap (λ xs. put_all xs (off + length p) ps) (placed ∙ sym (append_assoc pre p back))
    ∙ put_all-joined ps (pre ++ p) back (off + length p) (omega (arith, o, length-append pre p))
        (omega (arith, h, n, ap length e, length-append front back, length-append p (joined ps)))
    ∙ append_assoc pre p (joined ps)

-- A buffer that is written from one end to the other, whatever it held.
filled :
    (ps : List (List ℕ)) (n : ℕ) (old : List ℕ)
    → n ≡ length (joined ps)
    → put_all (resize n old) 0 ps ≡ joined ps
filled ps n old e = put_all-joined ps [] (resize n old) 0 refl (resize-length n old ∙ e)

pub block_buffer-layout :
    (req_id id : ℕ) (block old : List ℕ)
    → block_buffer req_id id block old
      ≡ joined (le_bytes 8 0 ∷ le_bytes 8 req_id ∷ le_bytes 8 id ∷ block ∷ [])
block_buffer-layout req_id id block old =
    filled (le_bytes 8 0 ∷ le_bytes 8 req_id ∷ le_bytes 8 id ∷ block ∷ []) (length block + 24) old
      (omega (arith, ap length (append-nil block)))

-- The head of an answer to `fetch_raw_data`, as the comment in the source lays it out: a flag, the
-- action 8, the version 1, the time, the request, a code, a text with its length, and the message.
abbrev pub raw_head : ℕ → ℕ → ℕ → Text → ℕ → List (List ℕ)
raw_head elapsed req_id code text id =
    le_bytes 8 (2 ^ 64 - 1)
    ∷ le_bytes 8 8
    ∷ le_bytes 2 1
    ∷ le_bytes 8 elapsed
    ∷ le_bytes 8 req_id
    ∷ le_bytes 4 code
    ∷ le_bytes 4 (length text)
    ∷ text
    ∷ le_bytes 8 id
    ∷ []

-- The type of the meta data and the data with its length.
abbrev pub raw_body : ℕ → List ℕ → List (List ℕ)
raw_body meta_type raw = le_bytes 2 meta_type ∷ le_bytes 4 (length raw) ∷ raw ∷ []

raw_buffer-layout :
    (a : Answers) (req_id id : ℕ) (old : List ℕ)
    → raw_buffer a req_id id old
      ≡ joined (
          le_bytes 8 a.elapsed
          ∷ le_bytes 8 req_id
          ∷ le_bytes 8 id
          ∷ le_bytes 8 3
          ∷ le_bytes 4 (length a.raw)
          ∷ le_bytes 2 a.meta_type
          ∷ a.raw
          ∷ [])
raw_buffer-layout a req_id id old =
    filled
      (le_bytes 8 a.elapsed
        ∷ le_bytes 8 req_id
        ∷ le_bytes 8 id
        ∷ le_bytes 8 3
        ∷ le_bytes 4 (length a.raw)
        ∷ le_bytes 2 a.meta_type
        ∷ a.raw
        ∷ [])
      (length a.raw + 38) old (omega (arith, ap length (append-nil a.raw)))

message-layout :
    (a : Answers) (req_id id : ℕ) (old : List ℕ)
    → ws_fetch_raw_block_message a req_id id old
      ≡ joined (raw_head a.elapsed req_id 0 [] id) ++ joined (raw_body a.meta_type a.raw)
message-layout a req_id id old =
    filled (raw_head a.elapsed req_id 0 [] id ++ raw_body a.meta_type a.raw) (length a.raw + 56) old
      (omega (arith, ap length (append-nil a.raw)))

error-layout :
    (a : Answers) (code : ℕ) (text : Text) (req_id id : ℕ)
    → tmq_fetch_raw_block_error_msg a code text req_id id
      ≡ joined (raw_head a.elapsed req_id (code % 2 ^ 16) text id)
error-layout a code text req_id id =
    filled (raw_head a.elapsed req_id (code % 2 ^ 16) text id) (length text + 50) []
      (omega (arith, length-append text (le_bytes 8 id)))

-- What `fetch_raw_data` sends has one head, for data and for errors: data has the code 0 and no text
-- in it, and the type of the meta data, the length and the data behind it; an error has the lower 16
-- bits of its code and its text, and nothing behind it. It does not depend on what the buffer held.
pub raw_answers-layout :
    (a : Answers) (req_id id : ℕ) (old : List ℕ) (code : ℕ) (text : Text)
    → (ws_fetch_raw_block_message a req_id id old
        ≡ joined (raw_head a.elapsed req_id 0 [] id) ++ joined (raw_body a.meta_type a.raw))
      × (tmq_fetch_raw_block_error_msg a code text req_id id
          ≡ joined (raw_head a.elapsed req_id (code % 2 ^ 16) text id))
raw_answers-layout a req_id id old code text =
    (message-layout a req_id id old, error-layout a code text req_id id)

-- The session has a message of data with this number.
abbrev pub HasData : ℕ → Tmq → Type 0
HasData id s =
    (s.consumer ≢ 0)
    × (s.message.pointer ≢ 0)
    × (s.message.index ≡ id)
    × (can_get_data s.message.type ≡ true)

-- What the fetch of a block leaves in the buffer.
pub fetched-buffer :
    (a : Answers) (req_id id : ℕ) (s : Tmq)
    → HasData id s
    → s.closed ≡ false
    → a.code ≡ 0
    → a.rows ≢ 0
    → (fetch_message a req_id id s).0 ≡ record s {
      message = record s.message { buffer = block_buffer req_id id a.block s.message.buffer };
    }
unfolding fetch_message
fetched-buffer a req_id id s (c, p, i, t) live ok some_rows =
    let c' : s.consumer == 0 ≡ false = ground arith in
    let p' : s.message.pointer == 0 ≡ false = ground arith in
    let i' : s.message.index == id ≡ true = ground arith in
    let r' : a.rows == 0 ≡ false = ground arith in rw (c', p', i', t, live, ok, r') refl
