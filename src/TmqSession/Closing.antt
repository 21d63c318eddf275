-- ===== src/TmqSession/Closing.antt =====
-- `unsubscribe`, `freeMessage` and `Close` of controller/ws/tmq/tmq.go.
use taosadapter.Common.{
  ℕ, Bool, true, false, not, ◌&&◌, List, [], ◌∷◌, ◌++◌, Option, none, some, ◌==◌, if◌then◌else◌,
}
use taosadapter.TmqSession.State.{
  Tmq, Answers, Event, unsubscribe, not_init, lib, done, closes, frees, answers,
}
use taosadapter.TmqSession.Subscribe.{error_msg}
use taosadapter.TmqSession.Poll.{wrapper}

abbrev drop_pointer : Tmq → Tmq
drop_pointer s = record s { message = record s.message { pointer = 0; buffer = [] } }

abbrev drop_buffer : Tmq → Tmq
drop_buffer s = record s { message = record s.message { buffer = [] } }

-- `freeMessage`
unfoldable pub free_message : Bool → Tmq → Tmq × List Event
free_message closing s =
    if s.message.pointer == 0
    then (drop_buffer s, [])
    else if not closing && s.closed
    then (s, [])
    else (drop_pointer s, frees s.message.pointer ∷ [])

-- `unsubscribe` until the client has answered, and whether it goes on to free the message.
abbrev unsubscribe_answer : Answers → ℕ → Option ℕ → Bool × List Event
unsubscribe_answer a req_id none = (false, [])
unsubscribe_answer a req_id (some code) =
    if code == 0
    then (true, [])
    else (false, error_msg req_id code (lib (a.tmq_err2str code)) none ∷ [])

unfoldable pub unsubscribe_session : Answers → ℕ → Tmq → Bool × List Event
unsubscribe_session a req_id s =
    let (r, es) = wrapper s unsubscribe a.code in
    let (goes_on, es') = unsubscribe_answer a req_id r in
    if s.closed
    then (false, [])
    else if s.consumer == 0
    then (false, error_msg req_id 65535 not_init none ∷ [])
    else (goes_on, es ++ es')

-- The rest of it.
unfoldable pub finish_unsubscribe : ℕ → Tmq → Tmq × List Event
unfolding free_message
finish_unsubscribe req_id s =
    let (s', es) = free_message false s in
    (record s' { unsubscribed = true }, es ++ (answers req_id done ∷ []))

-- The deferred functions of `Close`: the code asks the wrapper of `tmq_unsubscribe`, which looks at
-- `closed`.
abbrev close_consumer : Answers → Tmq → List Event
close_consumer a s =
    let (r, es) = wrapper s unsubscribe a.code in
    if s.consumer == 0
    then []
    else if s.unsubscribed
    then closes s.consumer ∷ []
    else es ++ (closes s.consumer ∷ [])

-- `Close` before it waits for the handlers, and after. It holds the mutex in between.
unfoldable pub begin_close : Tmq → Tmq
begin_close s = record s { closed = true; locked = true }

unfoldable pub finish_close : Answers → Tmq → Tmq × List Event
unfolding free_message
finish_close a s =
    let (s', es) = free_message true s in
    (record s' { finished = true; locked = false }, es ++ close_consumer a s')
