-- ===== src/TmqSession/Mutex/Sections.antt =====
-- Every section gives the mutex up exactly when its handler had it, and takes it when it goes on to
-- hold it.
use taosadapter.Common.{
  ℕ, ◌+◌, ◌≡◌, ◌⊎◌, inl, inr, refl, Bool, true, false, List, [], ◌∷◌, Option, none, some, ◌==◌,
  if_both, Bool-cases, arith,
}
use taosadapter.TmqSession.State.{
  Tmq, Event, TopicVgroup, subscribe_req, poll_req, fetch_req, fetch_block_req, fetch_raw_req,
  fetch_raw_new_req, fetch_json_meta_req, commit_req, unsubscribe_req, list_topics_req,
  assignment_req, seek_req, commit_offset_req, committed_req, position_req, Answers,
}
use taosadapter.TmqSession.Poll.{
  poll_commit, auto_commit_needed, wrapper_poll, keep_message, message_type_is_valid,
}
use taosadapter.TmqSession.Subscribe.{subscribe_session}
use taosadapter.TmqSession.Fetch.{fetch_message, fetch_block, fetch_raw, fetch_raw_new}
use taosadapter.TmqSession.Offsets.{ask_offset}
use taosadapter.TmqSession.Closing.{unsubscribe_session, finish_unsubscribe, free_message}
use taosadapter.TmqSession.System.{
  Job, starts, polls, keeps, asks_offsets, ends_unsubscribe, run_section, takes_mutex, ends,
  goes_on_poll, goes_on_offsets, goes_on_unsubscribe, unlocks,
}
use taosadapter.TmqSession.Live.Fetches.{
  Calm, fetch_message-Calm, fetch_block-Calm, fetch_raw-Calm, fetch_raw_new-Calm,
}
use taosadapter.TmqSession.Mutex.{Frame, holds_mutex, bit, holders}
use taosadapter.TmqSession.Mutex.Subscribes.{subscribe_session-Frame}

-- What a section of a handler does with the mutex.
abbrev Turn : Job → Tmq → Tmq × List Event × List Job → Type 0
Turn j s (s', es, left) =
    (holders left + bit s.locked ≡ bit (holds_mutex j) + bit s'.locked)
    × (s'.closed ≡ s.closed)
    × (s'.finished ≡ s.finished)

Frame-Turn :
    (j : Job) (s : Tmq) (x : Tmq × List Event)
    → holds_mutex j ≡ false
    → Frame s x.0
    → Turn j s (ends x)
Frame-Turn j s x h (l, c, f) = (ground arith, c, f)

Calm-Turn :
    (j : Job) (s : Tmq) (x : Tmq × List Event)
    → holds_mutex j ≡ false
    → Calm s x
    → Turn j s (ends x)
Calm-Turn j s x h (q, (c, p, f, l, d)) = Frame-Turn j s x h (l, d, f)

poll_commit-Turn :
    (a : Answers) (req_id t : ℕ) (s : Tmq)
    → Turn (starts (poll_req req_id t)) s (goes_on_poll req_id t s (poll_commit a req_id s))
unfolding poll_commit
poll_commit-Turn a req_id t s =
    let P = λ (r : Option Tmq × List Event).
      Turn (starts (poll_req req_id t)) s (goes_on_poll req_id t s r) in
    if_both P (s.consumer == 0) _ _ (λ z. (refl, refl, refl))
      λ z.
        if_both P (auto_commit_needed a s) _ _
          (λ n. elim (Bool-cases s.closed) [
            | inl c ↦ rw c (refl, refl, refl)
            | inr c ↦ rw c (refl, refl, refl)
          ])
          λ n. (refl, refl, refl)

keep_message-Frame : (a : Answers) (req_id m : ℕ) (s : Tmq) → Frame s (keep_message a req_id m s).0
unfolding keep_message
keep_message-Frame a req_id m s =
    let P = λ (r : Tmq × List Event). Frame s r.0 in
    if_both P (message_type_is_valid a.type) _ _
      (λ v.
        if_both P (s.message.pointer == 0) _ _ (λ z. (refl, refl, refl))
          λ z. elim (Bool-cases s.closed) [
            | inl c ↦ rw c (refl, refl, refl)
            | inr c ↦ rw c (refl, refl, refl)
          ])
      λ v. (refl, refl, refl)

goes_on_unsubscribe-Turn :
    (req_id : ℕ) (s : Tmq) (x : Bool × List Event)
    → s.locked ≡ false
    → Turn (starts (unsubscribe_req req_id)) s (goes_on_unsubscribe req_id s x)
goes_on_unsubscribe-Turn req_id s (true, es) free = (ground arith, refl, refl)
goes_on_unsubscribe-Turn req_id s (false, es) free = (refl, refl, refl)

goes_on_offsets-Turn :
    (b : Bool) (req_id : ℕ) (tv : TopicVgroup) (tvs : List TopicVgroup) (found : List ℕ) (s : Tmq)
    (x : Option (List ℕ) × List Event)
    → Turn (asks_offsets b req_id (tv ∷ tvs) found) s (goes_on_offsets b req_id tvs s x)
goes_on_offsets-Turn b req_id tv tvs found s (none, es) = (refl, refl, refl)
goes_on_offsets-Turn b req_id tv tvs found s (some x, es) = (refl, refl, refl)

finish_unsubscribe-Turn :
    (req_id : ℕ) (s : Tmq)
    → s.locked ≡ true
    → Turn (ends_unsubscribe req_id) s (unlocks (finish_unsubscribe req_id s))
unfolding finish_unsubscribe free_message
finish_unsubscribe-Turn req_id s own = elim (Bool-cases (s.message.pointer == 0)) [
  | inl z ↦ rw z (ground arith, refl, refl)
  | inr z ↦ rw z elim (Bool-cases s.closed) [
    | inl c ↦ rw c (ground arith, refl, refl)
    | inr c ↦ rw c (ground arith, refl, refl)
  ]
]

unlocked : (s : Tmq) → (true ≡ false) ⊎ (s.locked ≡ false) → s.locked ≡ false
unlocked s (inl e) = absurd (ground arith)
unlocked s (inr e) = e

pub run_section-Turn :
    (a : Answers) (j : Job) (s : Tmq)
    → (takes_mutex j ≡ false) ⊎ (s.locked ≡ false)
    → (holds_mutex j ≡ true → s.locked ≡ true)
    → Turn j s (run_section a j s)
unfolding run_section
run_section-Turn a (starts (subscribe_req req)) s free own =
    Frame-Turn (starts (subscribe_req req)) s (subscribe_session a req s) refl
      (subscribe_session-Frame a req s)
run_section-Turn a (starts (poll_req req_id t)) s free own = poll_commit-Turn a req_id t s
run_section-Turn a (starts (fetch_req req_id id)) s free own =
    Calm-Turn (starts (fetch_req req_id id)) s (fetch_message a req_id id s) refl
      (fetch_message-Calm a req_id id s)
run_section-Turn a (starts (fetch_block_req req_id id)) s free own =
    Calm-Turn (starts (fetch_block_req req_id id)) s (fetch_block a req_id id s) refl
      (fetch_block-Calm a req_id id s)
run_section-Turn a (starts (fetch_raw_req req_id id)) s free own =
    Calm-Turn (starts (fetch_raw_req req_id id)) s (fetch_raw a req_id id s) refl
      (fetch_raw-Calm a req_id id s)
run_section-Turn a (starts (fetch_raw_new_req req_id id)) s free own =
    Calm-Turn (starts (fetch_raw_new_req req_id id)) s (fetch_raw_new a req_id id s) refl
      (fetch_raw_new-Calm a req_id id s)
run_section-Turn a (starts (fetch_json_meta_req req_id id)) s free own = (refl, refl, refl)
run_section-Turn a (starts (commit_req req_id id)) s free own = (refl, refl, refl)
run_section-Turn a (starts (unsubscribe_req req_id)) s free own =
    goes_on_unsubscribe-Turn req_id s (unsubscribe_session a req_id s) (unlocked s free)
run_section-Turn a (starts (list_topics_req req_id)) s free own = (refl, refl, refl)
run_section-Turn a (starts (assignment_req req_id topic)) s free own = (refl, refl, refl)
run_section-Turn a (starts (seek_req req_id topic vgroup offset)) s free own = (refl, refl, refl)
run_section-Turn a (starts (commit_offset_req req_id topic vgroup offset)) s free own =
    (refl, refl, refl)
run_section-Turn a (starts (committed_req req_id tvs)) s free own =
    if_both (Turn (starts (committed_req req_id tvs)) s) (s.consumer == 0) _ _
      (λ z. (refl, refl, refl)) λ z. (refl, refl, refl)
run_section-Turn a (starts (position_req req_id tvs)) s free own =
    if_both (Turn (starts (position_req req_id tvs)) s) (s.consumer == 0) _ _
      (λ z. (refl, refl, refl)) λ z. (refl, refl, refl)
run_section-Turn a (polls req_id t) s free own =
    if_both (Turn (polls req_id t) s) ((wrapper_poll a t s).0 == 0) _ _ (λ z. (refl, refl, refl))
      λ z. (refl, refl, refl)
run_section-Turn a (keeps req_id m) s free own =
    Frame-Turn (keeps req_id m) s (keep_message a req_id m s) refl (keep_message-Frame a req_id m s)
run_section-Turn a (asks_offsets b req_id [] found) s free own = (refl, refl, refl)
run_section-Turn a (asks_offsets b req_id (tv ∷ tvs) found) s free own =
    goes_on_offsets-Turn b req_id tv tvs found s (ask_offset b a req_id tv found s)
run_section-Turn a (ends_unsubscribe req_id) s free own =
    finish_unsubscribe-Turn req_id s (own refl)
