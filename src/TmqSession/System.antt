-- ===== src/TmqSession/System.antt =====
-- The handlers of a session of controller/ws/tmq/tmq.go with each other and with `Close`, as
-- sequences of critical sections. Melody's `HandleMessage` runs each request on a goroutine of its
-- own.
use taosadapter.Common.{
  ℕ, Bool, true, false, ◌≡◌, ◌⊎◌, List, [], ◌∷◌, ◌++◌, Option, none, some, ◌==◌, if◌then◌else◌,
}
use taosadapter.TmqSession.State.{
  Tmq, TopicVgroup, Request, subscribe_req, poll_req, fetch_req, fetch_block_req, fetch_raw_req,
  fetch_raw_new_req, fetch_json_meta_req, commit_req, unsubscribe_req, list_topics_req,
  assignment_req, seek_req, commit_offset_req, committed_req, position_req, not_init,
  no_new_message, offsets, Event, answers, Answers, new_taos_tmq,
}
use taosadapter.TmqSession.Subscribe.{error_msg, subscribe_session}
use taosadapter.TmqSession.Poll.{commit_all, poll_commit, wrapper_poll, keep_message}
use taosadapter.TmqSession.Fetch.{
  fetch_message, fetch_block, fetch_raw, fetch_raw_new, fetch_json_meta,
}
use taosadapter.TmqSession.Offsets.{assign, seek_offset, commit_one_offset, list_topics, ask_offset}
use taosadapter.TmqSession.Closing.{
  unsubscribe_session, finish_unsubscribe, begin_close, finish_close,
}

-- A handler between two of its critical sections.
pub data Job : Type 0 where
  starts : Request → Job
  polls : ℕ → ℕ → Job
  keeps : ℕ → ℕ → Job
  asks_offsets : Bool → ℕ → List TopicVgroup → List ℕ → Job
  ends_unsubscribe : ℕ → Job

-- The mutex of the session: the sections that take it, and the one that holds it from before.
abbrev pub takes_mutex : Job → Bool
takes_mutex (starts (subscribe_req req)) = true
takes_mutex (starts (unsubscribe_req req_id)) = true
takes_mutex _ = false

-- What a section leaves: the session, what it did, and what is left of its handler.
abbrev Left : Type 0
Left = Tmq × List Event × List Job

abbrev pub ends : Tmq × List Event → Left
ends (s, es) = (s, es, [])

abbrev pub says : Tmq → List Event → Left
says s es = (s, es, [])

abbrev pub goes_on_poll : ℕ → ℕ → Tmq → Option Tmq × List Event → Left
goes_on_poll req_id blocking_time s (none, es) = (s, es, [])
goes_on_poll req_id blocking_time s (some s', es) = (s', es, polls req_id blocking_time ∷ [])

-- The answer of `poll` when there is no message, also when the session is closed.
abbrev pub goes_on_message : ℕ → Tmq → ℕ × List Event → Left
goes_on_message req_id s (m, es) =
    if m == 0
    then (s, es ++ (answers req_id no_new_message ∷ []), [])
    else (s, es, keeps req_id m ∷ [])

abbrev pub starts_offsets : Bool → ℕ → List TopicVgroup → Tmq → Left
starts_offsets of_commit req_id tvs s =
    if s.consumer == 0
    then (s, error_msg req_id 65535 not_init none ∷ [], [])
    else (s, [], asks_offsets of_commit req_id tvs [] ∷ [])

abbrev pub goes_on_offsets : Bool → ℕ → List TopicVgroup → Tmq → Option (List ℕ) × List Event → Left
goes_on_offsets of_commit req_id tvs s (none, es) = (s, es, [])
goes_on_offsets of_commit req_id tvs s (some found, es) =
    (s, es, asks_offsets of_commit req_id tvs found ∷ [])

abbrev pub goes_on_unsubscribe : ℕ → Tmq → Bool × List Event → Left
goes_on_unsubscribe req_id s (goes_on, es) =
    if goes_on then (record s { locked = true }, es, ends_unsubscribe req_id ∷ []) else (s, es, [])

abbrev pub unlocks : Tmq × List Event → Left
unlocks (s, es) = (record s { locked = false }, es, [])

-- The next critical section of a handler.
unfoldable pub run_section : Answers → Job → Tmq → Left
run_section a (starts (subscribe_req req)) s = ends (subscribe_session a req s)
run_section a (starts (poll_req req_id blocking_time)) s =
    goes_on_poll req_id blocking_time s (poll_commit a req_id s)
run_section a (starts (fetch_req req_id id)) s = ends (fetch_message a req_id id s)
run_section a (starts (fetch_block_req req_id id)) s = ends (fetch_block a req_id id s)
run_section a (starts (fetch_raw_req req_id id)) s = ends (fetch_raw a req_id id s)
run_section a (starts (fetch_raw_new_req req_id id)) s = ends (fetch_raw_new a req_id id s)
run_section a (starts (fetch_json_meta_req req_id id)) s = says s (fetch_json_meta a req_id id s)
run_section a (starts (commit_req req_id id)) s = says s (commit_all a req_id id s)
run_section a (starts (unsubscribe_req req_id)) s =
    goes_on_unsubscribe req_id s (unsubscribe_session a req_id s)
run_section a (starts (list_topics_req req_id)) s = says s (list_topics a req_id s)
run_section a (starts (assignment_req req_id topic)) s = says s (assign a req_id topic s)
run_section a (starts (seek_req req_id topic vgroup offset)) s =
    says s (seek_offset a req_id topic vgroup offset s)
run_section a (starts (commit_offset_req req_id topic vgroup offset)) s =
    says s (commit_one_offset a req_id topic vgroup offset s)
run_section a (starts (committed_req req_id tvs)) s = starts_offsets true req_id tvs s
run_section a (starts (position_req req_id tvs)) s = starts_offsets false req_id tvs s
run_section a (polls req_id blocking_time) s =
    goes_on_message req_id s (wrapper_poll a blocking_time s)
run_section a (keeps req_id m) s = ends (keep_message a req_id m s)
run_section a (asks_offsets of_commit req_id [] found) s =
    says s (answers req_id (offsets found) ∷ [])
run_section a (asks_offsets of_commit req_id (tv ∷ tvs) found) s =
    goes_on_offsets of_commit req_id tvs s (ask_offset of_commit a req_id tv found s)
run_section a (ends_unsubscribe req_id) s = unlocks (finish_unsubscribe req_id s)

-- A session, the handlers that are running, which `wg` counts, and all that was done.
pub record System : Type 0 where
  pub session : Tmq
  pub jobs : List Job
  pub log : List Event

abbrev pub start : System
start = record { session = new_taos_tmq; jobs = []; log = [] }

abbrev pub section : Answers → List Job → Job → List Job → System → System
section a before j after w =
    let (s, es, left) = run_section a j w.session in
    record { session = s; jobs = before ++ (left ++ after); log = w.log ++ es }

abbrev pub accepted : Request → System → System
accepted r w = record w { jobs = w.jobs ++ (starts r ∷ []) }

abbrev pub closing : System → System
closing w = record w { session = begin_close w.session }

abbrev pub ended : Answers → System → System
ended a w = let (s, es) = finish_close a w.session in record w { session = s; log = w.log ++ es }

-- The client library gives no consumer together with an error.
abbrev pub Sound : Answers → Type 0
Sound a = (a.err_str ≡ []) ⊎ (a.consumer ≡ 0)

-- What can happen next. A message is taken when the session is not closed; any handler runs a
-- section, if it need not wait for the mutex; `Close` takes the mutex when it is free, and ends when
-- `wg` is at 0.
pub data Step : System → System → Type 0 where
  accept : (r : Request) (w : System) → w.session.closed ≡ false → Step w (accepted r w)
  run :
      (a : Answers) (before : List Job) (j : Job) (after : List Job) (w : System)
      → Sound a
      → w.jobs ≡ before ++ (j ∷ after)
      → (takes_mutex j ≡ false) ⊎ (w.session.locked ≡ false)
      → Step w (section a before j after w)
  close_begins :
      (w : System) → w.session.locked ≡ false → w.session.closed ≡ false → Step w (closing w)
  close_ends :
      (a : Answers) (w : System)
      → w.jobs ≡ []
      → w.session.closed ≡ true
      → w.session.finished ≡ false
      → Step w (ended a w)

-- What follows a system, in any number of steps.
pub data Reach (v : System) : System → Type 0 where
  begins : Reach v v
  then_step : {w w' : System} → Reach v w → Step w w' → Reach v w'
