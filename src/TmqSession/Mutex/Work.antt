-- ===== src/TmqSession/Mutex/Work.antt =====
-- How many sections the handlers of controller/ws/tmq/tmq.go have left.
use taosadapter.Common.{
  ℕ, ◌+◌, ◌≡◌, ◌<◌, refl, Bool, true, false, List, [], ◌∷◌, ◌++◌, Option, none, some, length, ◌==◌,
  if_both, arith,
}
use taosadapter.TmqSession.State.{
  Tmq, Event, TopicVgroup, Request, subscribe_req, poll_req, fetch_req, fetch_block_req,
  fetch_raw_req, fetch_raw_new_req, fetch_json_meta_req, commit_req, unsubscribe_req,
  list_topics_req, assignment_req, seek_req, commit_offset_req, committed_req, position_req,
  Answers,
}
use taosadapter.TmqSession.Poll.{poll_commit, wrapper_poll}
use taosadapter.TmqSession.Offsets.{ask_offset}
use taosadapter.TmqSession.Closing.{unsubscribe_session}
use taosadapter.TmqSession.System.{
  Job, starts, polls, keeps, asks_offsets, ends_unsubscribe, run_section, goes_on_poll,
  goes_on_message, goes_on_offsets, goes_on_unsubscribe, starts_offsets,
}
use taosadapter.TmqSession.Mutex.Deadlock.{waiting}

-- How many sections a handler has left at most.
abbrev request_work : Request → ℕ
request_work (committed_req req_id tvs) = 2 + length tvs
request_work (position_req req_id tvs) = 2 + length tvs
request_work _ = 3

abbrev work : Job → ℕ
work (starts r) = request_work r
work (polls req_id t) = 2
work (keeps req_id m) = 1
work (asks_offsets b req_id tvs found) = 1 + length tvs
work (ends_unsubscribe req_id) = 1

abbrev pub works : List Job → ℕ
works [] = 0
works (j ∷ js) = work j + works js

pub works-append : (js js' : List Job) → works (js ++ js') ≡ works js + works js'
works-append [] js' = omega arith
works-append (j ∷ js) js' = omega (arith, works-append js js')

-- What a section leaves is less than its handler was, and does not ask for the mutex.
abbrev Less : Job → List Job → Type 0
Less j left = (works left < work j) × (waiting left ≡ 0)

goes_on_poll-Less :
    (req_id t : ℕ) (s : Tmq) (x : Option Tmq × List Event)
    → Less (starts (poll_req req_id t)) (goes_on_poll req_id t s x).2
goes_on_poll-Less req_id t s (none, es) = (omega arith, refl)
goes_on_poll-Less req_id t s (some s', es) = (omega arith, refl)

goes_on_message-Less :
    (req_id t : ℕ) (s : Tmq) (x : ℕ × List Event)
    → Less (polls req_id t) (goes_on_message req_id s x).2
goes_on_message-Less req_id t s (m, es) =
    if_both (λ (r : Tmq × List Event × List Job). Less (polls req_id t) r.2) (m == 0) _ _
      (λ z. (omega arith, refl)) λ z. (omega arith, refl)

goes_on_unsubscribe-Less :
    (req_id : ℕ) (s : Tmq) (x : Bool × List Event)
    → Less (starts (unsubscribe_req req_id)) (goes_on_unsubscribe req_id s x).2
goes_on_unsubscribe-Less req_id s (true, es) = (omega arith, refl)
goes_on_unsubscribe-Less req_id s (false, es) = (omega arith, refl)

goes_on_offsets-Less :
    (b : Bool) (req_id : ℕ) (tv : TopicVgroup) (tvs : List TopicVgroup) (found : List ℕ) (s : Tmq)
    (x : Option (List ℕ) × List Event)
    → Less (asks_offsets b req_id (tv ∷ tvs) found) (goes_on_offsets b req_id tvs s x).2
goes_on_offsets-Less b req_id tv tvs found s (none, es) = (omega arith, refl)
goes_on_offsets-Less b req_id tv tvs found s (some x, es) = (omega arith, refl)

starts_offsets-Less :
    (b : Bool) (req_id : ℕ) (tvs : List TopicVgroup) (s : Tmq)
    → (works (starts_offsets b req_id tvs s).2 < 2 + length tvs)
      × (waiting (starts_offsets b req_id tvs s).2 ≡ 0)
starts_offsets-Less b req_id tvs s =
    if_both (λ (r : Tmq × List Event × List Job). (works r.2 < 2 + length tvs) × (waiting r.2 ≡ 0))
      (s.consumer == 0) _ _ (λ z. (omega arith, refl)) λ z. (omega arith, refl)

pub run_section-Less : (a : Answers) (j : Job) (s : Tmq) → Less j (run_section a j s).2
unfolding run_section
run_section-Less a (starts (subscribe_req req)) s = (omega arith, refl)
run_section-Less a (starts (poll_req req_id t)) s =
    goes_on_poll-Less req_id t s (poll_commit a req_id s)
run_section-Less a (starts (fetch_req req_id id)) s = (omega arith, refl)
run_section-Less a (starts (fetch_block_req req_id id)) s = (omega arith, refl)
run_section-Less a (starts (fetch_raw_req req_id id)) s = (omega arith, refl)
run_section-Less a (starts (fetch_raw_new_req req_id id)) s = (omega arith, refl)
run_section-Less a (starts (fetch_json_meta_req req_id id)) s = (omega arith, refl)
run_section-Less a (starts (commit_req req_id id)) s = (omega arith, refl)
run_section-Less a (starts (unsubscribe_req req_id)) s =
    goes_on_unsubscribe-Less req_id s (unsubscribe_session a req_id s)
run_section-Less a (starts (list_topics_req req_id)) s = (omega arith, refl)
run_section-Less a (starts (assignment_req req_id topic)) s = (omega arith, refl)
run_section-Less a (starts (seek_req req_id topic vgroup offset)) s = (omega arith, refl)
run_section-Less a (starts (commit_offset_req req_id topic vgroup offset)) s = (omega arith, refl)
run_section-Less a (starts (committed_req req_id tvs)) s = starts_offsets-Less true req_id tvs s
run_section-Less a (starts (position_req req_id tvs)) s = starts_offsets-Less false req_id tvs s
run_section-Less a (polls req_id t) s = goes_on_message-Less req_id t s (wrapper_poll a t s)
run_section-Less a (keeps req_id m) s = (omega arith, refl)
run_section-Less a (asks_offsets b req_id [] found) s = (omega arith, refl)
run_section-Less a (asks_offsets b req_id (tv ∷ tvs) found) s =
    goes_on_offsets-Less b req_id tv tvs found s (ask_offset b a req_id tv found s)
run_section-Less a (ends_unsubscribe req_id) s = (omega arith, refl)
