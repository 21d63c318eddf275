-- ===== src/TmqSession/Fetch.antt =====
-- `fetch`, `fetchBlock`, `fetchRawBlock`, `fetchRawBlockNew` and `fetchJsonMeta` of
-- controller/ws/tmq/tmq.go. Each holds the lock of the message from its check of the pointer to its
-- end, and makes at most one call under `asyncLocker`.
use taosadapter.Common.{
  ℕ, zero, suc, ◌+◌, ◌-◌, ◌%◌, ◌^◌, Bool, ◌||◌, List, [], ◌∷◌, ◌++◌, Option, none, some, ◌==◌,
  if◌then◌else◌, length,
}
use taosadapter.Common.Bytes.{le_bytes}
use taosadapter.Common.Bytes.Puts.{put_bytes}
use taosadapter.TmqSession.State.{
  Text, Tmq, Answers, Event, Read, fetch_raw_block, columns, get_raw, get_json_meta, Reason,
  not_init, message_freed, ids_not_equal, id_not_equal, message_nil, not_data, no_fetch_data, lib,
  fetch_completed, fetched, json_meta, reads, answers, sends,
}
use taosadapter.TmqSession.Subscribe.{error_msg}

-- `canGetData`
abbrev pub can_get_data : ℕ → Bool
can_get_data type = type == 1 || type == 3

-- The first `n` bytes of a slice that is grown or cut to a length. All bytes are written over
-- afterwards, so that it does not matter what a new or a longer array holds.
abbrev pub resize : ℕ → List ℕ → List ℕ
resize zero b = []
resize (suc n) [] = 0 ∷ resize n []
resize (suc n) (x ∷ b) = x ∷ resize n b

-- One call on the message, with its answer; `none` from a closed session.
abbrev pub wrapper_message {ℓ} : {A : Type ℓ} → Tmq → Read → A → Option A × List Event
wrapper_message s r answer =
    if s.closed then (none, []) else (some answer, reads s.message.pointer r ∷ [])

-- The checks that the handlers begin with: the reason why a request is refused.
abbrev pub refusal : Reason → ℕ → Tmq → Option Reason
refusal other_id message_id s =
    if s.consumer == 0
    then some not_init
    else if s.message.pointer == 0
    then some message_freed
    else if s.message.index == message_id
    then none
    else some other_id

abbrev keep_buffer : List ℕ → Tmq → Tmq
keep_buffer b s = record s { message = record s.message { buffer = b } }

-- `fetch` writes the answer to the next `fetch_block` into the buffer.
abbrev pub block_buffer : ℕ → ℕ → List ℕ → List ℕ → List ℕ
block_buffer req_id message_id block old =
    let b = resize (length block + 24) old in
    let b = put_bytes b 0 (le_bytes 8 0) in
    let b = put_bytes b 8 (le_bytes 8 req_id) in
    let b = put_bytes b 16 (le_bytes 8 message_id) in put_bytes b 24 block

abbrev pub fetch_answer : Answers → ℕ → ℕ → Tmq → Option ℕ → Tmq × List Event
fetch_answer a req_id message_id s none = (s, [])
fetch_answer a req_id message_id s (some code) =
    if code == 0
    then (if a.rows == 0 then (s, answers req_id (fetch_completed message_id) ∷ []) else (
      keep_buffer (block_buffer req_id message_id a.block s.message.buffer) s,
      reads s.message.pointer columns
          ∷ answers req_id (fetched message_id a.table_name a.rows)
          ∷ [],
    ))
    else (s, error_msg req_id code (lib (a.tmq_err2str (code % 2 ^ 32))) (some message_id) ∷ [])

abbrev pub fetch_data : Answers → ℕ → ℕ → Tmq → Option Reason → Tmq × List Event
fetch_data a req_id message_id s (some reason) =
    (s, error_msg req_id 65535 reason (some message_id) ∷ [])
fetch_data a req_id message_id s none =
    let (r, es) = wrapper_message s fetch_raw_block a.code in
    let (s', es') = fetch_answer a req_id message_id s r in
    if can_get_data s.message.type
    then (s', es ++ es')
    else (s, error_msg req_id 65535 not_data (some message_id) ∷ [])

-- `fetch`
unfoldable pub fetch_message : Answers → ℕ → ℕ → Tmq → Tmq × List Event
fetch_message a req_id message_id s =
    fetch_data a req_id message_id s (refusal ids_not_equal message_id s)

abbrev pub send_block : Answers → ℕ → ℕ → Tmq → Option Reason → Tmq × List Event
send_block a req_id message_id s (some reason) =
    (s, error_msg req_id 65535 reason (some message_id) ∷ [])
send_block a req_id message_id s none =
    let buffer = put_bytes s.message.buffer 0 (le_bytes 8 a.elapsed) in
    if can_get_data s.message.type
    then (if length s.message.buffer == 0
        then (s, error_msg req_id 65535 no_fetch_data (some message_id) ∷ [])
        else (keep_buffer buffer s, sends buffer ∷ []))
    else (s, error_msg req_id 65535 not_data (some message_id) ∷ [])

-- `fetchBlock`
unfoldable pub fetch_block : Answers → ℕ → ℕ → Tmq → Tmq × List Event
fetch_block a req_id message_id s =
    send_block a req_id message_id s (refusal message_nil message_id s)

-- The answer of `fetchRawBlock`.
abbrev pub raw_buffer : Answers → ℕ → ℕ → List ℕ → List ℕ
raw_buffer a req_id message_id old =
    let b = resize (length a.raw + 38) old in
    let b = put_bytes b 0 (le_bytes 8 a.elapsed) in
    let b = put_bytes b 8 (le_bytes 8 req_id) in
    let b = put_bytes b 16 (le_bytes 8 message_id) in
    let b = put_bytes b 24 (le_bytes 8 3) in
    let b = put_bytes b 32 (le_bytes 4 (length a.raw)) in
    let b = put_bytes b 36 (le_bytes 2 a.meta_type) in put_bytes b 38 a.raw

-- `wsFetchRawBlockMessage`
abbrev pub ws_fetch_raw_block_message : Answers → ℕ → ℕ → List ℕ → List ℕ
ws_fetch_raw_block_message a req_id message_id old =
    let b = resize (length a.raw + 56) old in
    let b = put_bytes b 0 (le_bytes 8 (2 ^ 64 - 1)) in
    let b = put_bytes b 8 (le_bytes 8 8) in
    let b = put_bytes b 16 (le_bytes 2 1) in
    let b = put_bytes b 18 (le_bytes 8 a.elapsed) in
    let b = put_bytes b 26 (le_bytes 8 req_id) in
    let b = put_bytes b 34 (le_bytes 4 0) in
    let b = put_bytes b 38 (le_bytes 4 0) in
    let b = put_bytes b 42 (le_bytes 8 message_id) in
    let b = put_bytes b 50 (le_bytes 2 a.meta_type) in
    let b = put_bytes b 52 (le_bytes 4 (length a.raw)) in put_bytes b 56 a.raw

-- The text of an error of `fetchRawBlockNew`.
abbrev reason_text : Reason → Text
reason_text (lib text) = text
reason_text not_init = 116 ∷ 109 ∷ 113 ∷ 32 ∷ 110 ∷ 111 ∷ 116 ∷ 32 ∷ 105 ∷ 110 ∷ 105 ∷ 116 ∷ []
reason_text message_freed =
    109 ∷ 101 ∷ 115 ∷ 115 ∷ 97 ∷ 103 ∷ 101 ∷ 32 ∷ 104 ∷ 97 ∷ 115 ∷ 32 ∷ 98 ∷ 101 ∷ 101 ∷ 110 ∷ 32
    ∷ 102 ∷ 114 ∷ 101 ∷ 101 ∷ 100 ∷ []
reason_text _ =
    109 ∷ 101 ∷ 115 ∷ 115 ∷ 97 ∷ 103 ∷ 101 ∷ 32 ∷ 73 ∷ 68 ∷ 32 ∷ 105 ∷ 115 ∷ 32 ∷ 110 ∷ 111 ∷ 116
    ∷ 32 ∷ 101 ∷ 113 ∷ 117 ∷ 97 ∷ 108 ∷ []

-- `tmqFetchRawBlockErrorMsg`
abbrev pub tmq_fetch_raw_block_error_msg : Answers → ℕ → Text → ℕ → ℕ → List ℕ
tmq_fetch_raw_block_error_msg a code text req_id message_id =
    let b = resize (length text + 50) [] in
    let b = put_bytes b 0 (le_bytes 8 (2 ^ 64 - 1)) in
    let b = put_bytes b 8 (le_bytes 8 8) in
    let b = put_bytes b 16 (le_bytes 2 1) in
    let b = put_bytes b 18 (le_bytes 8 a.elapsed) in
    let b = put_bytes b 26 (le_bytes 8 req_id) in
    let b = put_bytes b 34 (le_bytes 4 (code % 2 ^ 16)) in
    let b = put_bytes b 38 (le_bytes 4 (length text)) in
    let b = put_bytes b 42 text in put_bytes b (42 + length text) (le_bytes 8 message_id)

-- What `fetchRawBlock` and `fetchRawBlockNew` do with the answer of `tmq_get_raw`: they keep what
-- they send.
abbrev pub send_raw : List ℕ → (ℕ → Event) → Tmq → Option ℕ → Tmq × List Event
send_raw buffer error s none = (s, [])
send_raw buffer error s (some code) =
    if code == 0 then (keep_buffer buffer s, sends buffer ∷ []) else (s, error code ∷ [])

abbrev pub raw_error : Answers → ℕ → ℕ → ℕ → Event
raw_error a req_id message_id code =
    error_msg req_id code (lib (a.tmq_err2str code)) (some message_id)

abbrev pub raw_data : Answers → ℕ → ℕ → Tmq → Option Reason → Tmq × List Event
raw_data a req_id message_id s (some reason) =
    (s, error_msg req_id 65535 reason (some message_id) ∷ [])
raw_data a req_id message_id s none =
    let (r, es) = wrapper_message s get_raw a.code in
    let buffer = raw_buffer a req_id message_id s.message.buffer in
    let (s', es') = send_raw buffer (raw_error a req_id message_id) s r in (s', es ++ es')

-- `fetchRawBlock`
unfoldable pub fetch_raw : Answers → ℕ → ℕ → Tmq → Tmq × List Event
fetch_raw a req_id message_id s = raw_data a req_id message_id s (refusal id_not_equal message_id s)

abbrev pub raw_error_new : Answers → ℕ → ℕ → ℕ → Event
raw_error_new a req_id message_id code =
    sends (tmq_fetch_raw_block_error_msg a code (a.tmq_err2str code) req_id message_id)

abbrev pub raw_data_new : Answers → ℕ → ℕ → Tmq → Option Reason → Tmq × List Event
raw_data_new a req_id message_id s (some reason) =
    (s, sends (tmq_fetch_raw_block_error_msg a 65535 (reason_text reason) req_id message_id) ∷ [])
raw_data_new a req_id message_id s none =
    let (r, es) = wrapper_message s get_raw a.code in
    let buffer = ws_fetch_raw_block_message a req_id message_id s.message.buffer in
    let (s', es') = send_raw buffer (raw_error_new a req_id message_id) s r in (s', es ++ es')

-- `fetchRawBlockNew`
unfoldable pub fetch_raw_new : Answers → ℕ → ℕ → Tmq → Tmq × List Event
fetch_raw_new a req_id message_id s =
    raw_data_new a req_id message_id s (refusal id_not_equal message_id s)

-- The bytes of a C string before its end.
abbrev c_string : List ℕ → Text
c_string [] = []
c_string (c ∷ cs) = let rest = c_string cs in if c == 0 then [] else c ∷ rest

abbrev meta_text : Option (List ℕ) → Option Text
meta_text none = none
meta_text (some cs) = some (c_string cs)

abbrev pub meta_answer : ℕ → ℕ → Option (Option (List ℕ)) → List Event
meta_answer req_id message_id none = []
meta_answer req_id message_id (some meta) =
    answers req_id (json_meta message_id (meta_text meta)) ∷ []

abbrev pub meta_data : Answers → ℕ → ℕ → Tmq → Option Reason → List Event
meta_data a req_id message_id s (some reason) = error_msg req_id 65535 reason (some message_id) ∷ []
meta_data a req_id message_id s none =
    let (r, es) = wrapper_message s get_json_meta a.json_meta in
    es ++ meta_answer req_id message_id r

-- `fetchJsonMeta`
unfoldable pub fetch_json_meta : Answers → ℕ → ℕ → Tmq → List Event
fetch_json_meta a req_id message_id s =
    meta_data a req_id message_id s (refusal id_not_equal message_id s)
