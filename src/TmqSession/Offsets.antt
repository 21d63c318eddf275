-- ===== src/TmqSession/Offsets.antt =====
-- `assignment`, `offsetSeek`, `committed`, `position`, `listTopics` and `commitOffset` of
-- controller/ws/tmq/tmq.go.
use taosadapter.Common.{
  ℕ, ◌-◌, ◌%◌, ◌^◌, Bool, true, false, ◌&&◌, not, List, [], ◌∷◌, ◌++◌, Option, none, some, ◌==◌,
  leb, if◌then◌else◌,
}
use taosadapter.TmqSession.State.{
  Text, Tmq, TopicVgroup, Answers, Event, Use, get_topic_assignment, offset_seek, commit_offset,
  committed, position, subscription, not_init, lib, done, assignments, topics, offset_committed,
  answers,
}
use taosadapter.TmqSession.Subscribe.{error_msg}
use taosadapter.TmqSession.Poll.{wrapper, code_answer}

-- The shape of a handler that makes one call on the consumer.
abbrev pub one_call : Answers → ℕ → Use → Event → Tmq → List Event
one_call a req_id u ok_answer s =
    let (r, es) = wrapper s u a.code in
    if s.consumer == 0
    then error_msg req_id 65535 not_init none ∷ []
    else es ++ code_answer a req_id ok_answer r

unfoldable pub assign : Answers → ℕ → Text → Tmq → List Event
assign a req_id topic s =
    one_call a req_id (get_topic_assignment topic) (answers req_id (assignments a.assignment)) s

unfoldable pub seek_offset : Answers → ℕ → Text → ℕ → ℕ → Tmq → List Event
seek_offset a req_id topic vgroup offset s =
    one_call a req_id (offset_seek topic vgroup offset) (answers req_id done) s

unfoldable pub commit_one_offset : Answers → ℕ → Text → ℕ → ℕ → Tmq → List Event
commit_one_offset a req_id topic vgroup offset s =
    one_call a req_id (commit_offset topic vgroup offset)
      (answers req_id (offset_committed topic vgroup offset)) s

-- The call is made under the lock of `thread.SyncLocker`.
unfoldable pub list_topics : Answers → ℕ → Tmq → List Event
list_topics a req_id s = one_call a req_id subscription (answers req_id (topics a.topics)) s

-- `OffsetInvalid`, and the results that are errors: those below 0 but this.
abbrev offset_invalid : ℕ
offset_invalid = 2 ^ 64 - 2147467247

abbrev is_offset_error : ℕ → Bool
is_offset_error res = leb (2 ^ 63) res && not (res == offset_invalid)

-- One round of the loop of `committed` and of `position`, which differ in the call that they make:
-- `some` is the offsets so far of a loop that goes on.
abbrev pub offset_round : Answers → ℕ → List ℕ → Option ℕ → Option (List ℕ) × List Event
offset_round a req_id found none = (none, [])
offset_round a req_id found (some res) =
    if is_offset_error res
    then (none, error_msg req_id res (lib (a.tmq_err2str (res % 2 ^ 32))) none ∷ [])
    else (some (found ++ (res ∷ [])), [])

abbrev pub asks : Bool → Text → ℕ → Use
asks true = committed
asks false = position

unfoldable pub ask_offset :
    Bool → Answers → ℕ → TopicVgroup → List ℕ → Tmq → Option (List ℕ) × List Event
ask_offset of_commit a req_id tv found s =
    let (r, es) = wrapper s (asks of_commit tv.topic tv.vgroup) a.code in
    let (found', es') = offset_round a req_id found r in (found', es ++ es')
