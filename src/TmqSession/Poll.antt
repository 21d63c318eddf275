-- ===== src/TmqSession/Poll.antt =====
-- `poll`, `commit` and the calls that they make, of controller/ws/tmq/tmq.go. A call of the client
-- library is made under `asyncLocker`, after a look at `closed`; `none` is the answer of a session
-- that is closed.
use taosadapter.Common.{
  ℕ, ◌+◌, ◌%◌, ◌^◌, Bool, true, false, ◌&&◌, ◌||◌, List, [], ◌∷◌, ◌++◌, Option, none, some, ◌==◌,
  ltb, if◌then◌else◌,
}
use taosadapter.TmqSession.State.{
  Tmq, Message, Answers, Event, Use, commit, poll, res_type, properties, not_init, unavailable_type,
  lib, committed_message, new_message, calls, polled, reads, frees, answers,
}
use taosadapter.TmqSession.Subscribe.{error_msg}

-- One call on the consumer, with its answer.
abbrev pub wrapper : Tmq → Use → ℕ → Option ℕ × List Event
wrapper s u answer = if s.closed then (none, []) else (some answer, calls s.consumer u ∷ [])

abbrev wrapper_commit : Answers → Tmq → Option ℕ × List Event
wrapper_commit a s = wrapper s commit a.code

-- The answer of a handler that waits for an error code: nothing from a closed session.
abbrev pub code_answer : Answers → ℕ → Event → Option ℕ → List Event
code_answer a req_id ok_answer none = []
code_answer a req_id ok_answer (some code) =
    if code == 0 then ok_answer ∷ [] else error_msg req_id code (lib (a.tmq_err2str code)) none ∷ []

unfoldable pub commit_all : Answers → ℕ → ℕ → Tmq → List Event
commit_all a req_id message_id s =
    let (r, es) = wrapper_commit a s in
    if s.consumer == 0
    then error_msg req_id 65535 not_init none ∷ []
    else es ++ code_answer a req_id (answers req_id (committed_message message_id)) r

-- The first half of `poll`: `some` is a session that goes on to `tmq_poll`. An error of the commit
-- is only logged.
abbrev auto_committed : Answers → Tmq → Option ℕ → Option Tmq
auto_committed a s none = none
auto_committed a s (some code) =
    some (record s { next_time = (a.now + s.autocommit_interval) % 2 ^ 64 })

abbrev pub auto_commit_needed : Answers → Tmq → Bool
auto_commit_needed a s = s.is_auto_commit && ltb s.next_time a.now

unfoldable pub poll_commit : Answers → ℕ → Tmq → Option Tmq × List Event
poll_commit a req_id s =
    let (r, es) = wrapper_commit a s in
    if s.consumer == 0
    then (none, error_msg req_id 65535 not_init none ∷ [])
    else if auto_commit_needed a s
    then (auto_committed a s r, es)
    else (some s, [])

abbrev polled_event : ℕ → List Event
polled_event m = if m == 0 then [] else polled m ∷ []

-- `wrapperPoll`: the message, nil from a closed session.
unfoldable pub wrapper_poll : Answers → ℕ → Tmq → ℕ × List Event
wrapper_poll a blocking_time s =
    if s.closed
    then (0, [])
    else (a.message, calls s.consumer (poll blocking_time) ∷ polled_event a.message)

-- `messageTypeIsValid`
abbrev pub message_type_is_valid : ℕ → Bool
message_type_is_valid type = type == 1 || type == 2 || type == 3

-- `wrapperFreeResult`, for a message that is not nil: whether the session is closed.
abbrev wrapper_free_result : Tmq → Bool × List Event
wrapper_free_result s = if s.closed then (true, []) else (false, frees s.message.pointer ∷ [])

-- The message that takes the place of the old one; its buffer stays.
abbrev pub next_message : Answers → ℕ → Message → Message
next_message a m old = record old {
  index = (old.index + 1) % 2 ^ 64;
  topic = a.topic;
  vgroup = a.vgroup;
  offset = a.offset;
  type = a.type;
  pointer = m;
}

-- The second half of `poll`, for a message that `tmq_poll` gave.
unfoldable pub keep_message : Answers → ℕ → ℕ → Tmq → Tmq × List Event
keep_message a req_id m s =
    let message = next_message a m s.message in
    let kept = record s { message = message } in
    let answer = reads m properties ∷ answers req_id (new_message message a.database) ∷ [] in
    let (closed, es) = wrapper_free_result s in
    if message_type_is_valid a.type
    then (if s.message.pointer == 0
        then (kept, reads m res_type ∷ answer)
        else if closed
        then (s, reads m res_type ∷ frees m ∷ [])
        else (kept, reads m res_type ∷ es ++ answer))
    else (
      s,
      reads m res_type ∷ frees m ∷ error_msg req_id 65535 (unavailable_type a.type) none ∷ [],
    )
