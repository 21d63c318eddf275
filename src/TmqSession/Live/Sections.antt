-- ===== src/TmqSession/Live/Sections.antt =====
-- Every critical section of a handler does what the client library allows.
use taosadapter.Common.{
  ℕ, ◌+◌, ◌≡◌, ◌≢◌, inl, inr, refl, Bool, true, false, List, [], ◌∷◌, Option, none, some, ◌==◌,
  if_both, Bool-cases, count, arith,
}
use taosadapter.TmqSession.State.{
  Tmq, Event, TopicVgroup, subscribe_req, poll_req, fetch_req, fetch_block_req, fetch_raw_req,
  fetch_raw_new_req, fetch_json_meta_req, commit_req, unsubscribe_req, list_topics_req,
  assignment_req, seek_req, commit_offset_req, committed_req, position_req, not_init, lib, commit,
  unsubscribe, offsets, calls, answers, Answers,
}
use taosadapter.TmqSession.Subscribe.{error_msg}
use taosadapter.TmqSession.Poll.{poll_commit, auto_commit_needed, commit_all}
use taosadapter.TmqSession.Offsets.{ask_offset, assign, seek_offset, commit_one_offset, list_topics}
use taosadapter.TmqSession.Closing.{unsubscribe_session}
use taosadapter.TmqSession.Fetch.{
  fetch_message, fetch_block, fetch_raw, fetch_raw_new, fetch_json_meta,
}
use taosadapter.TmqSession.System.{
  Job, starts, polls, keeps, asks_offsets, ends_unsubscribe, run_section, Sound, goes_on_poll,
  goes_on_offsets, goes_on_unsubscribe, starts_offsets, ends,
}
use taosadapter.TmqSession.Live.{Library, Fits, pending}
use taosadapter.TmqSession.Live.Quiet.{all_quiet}
use taosadapter.TmqSession.Live.Good.{Good, ready, quiet-Good}
use taosadapter.TmqSession.Live.Calls.{
  commit_all-quiet, assign-quiet, seek_offset-quiet, commit_one_offset-quiet, list_topics-quiet,
  ask_offset-quiet,
}
use taosadapter.TmqSession.Live.Fetches.{
  Calm, fetch_message-Calm, fetch_block-Calm, fetch_raw-Calm, fetch_raw_new-Calm,
  fetch_json_meta-quiet,
}
use taosadapter.TmqSession.Live.Gains.{
  keep_message-Good, goes_on_message-Good, finish_unsubscribe-Good,
}
use taosadapter.TmqSession.Live.Subscribes.{subscribe_session-Good}

module _ (l : Library) (rest : ℕ → ℕ) (s : Tmq) where
  no_more : Fits l s (λ i. 0 + rest i) → Fits l s rest
  no_more (f, g) = (λ i. omega (arith, f i), g)

  calm :
      (left : Tmq × List Event)
      → s.finished ≡ false
      → Fits l s rest
      → Calm s left
      → Good l rest s (ends left)
  calm left live fits (q, same) = quiet-Good l rest s left.0 left.1 [] fits live q same refl refl

  says_quiet :
      (es : List Event)
      → s.finished ≡ false
      → Fits l s rest
      → all_quiet s es ≡ true
      → Good l rest s (s, es, [])
  says_quiet es live fits q = calm (s, es) live fits (q, (refl, refl, refl, refl, refl))

  -- The sections that leave the rest of their handler.
  poll_commit-Good :
      (a : Answers) (req_id t : ℕ)
      → s.finished ≡ false
      → Fits l s rest
      → Good l rest s (goes_on_poll req_id t s (poll_commit a req_id s))
  unfolding poll_commit
  poll_commit-Good a req_id t live fits =
      let own = fits.1 s.consumer in
      if_both (λ r. Good l rest s (goes_on_poll req_id t s r)) (s.consumer == 0) _ _
        (λ z. says_quiet (error_msg req_id 65535 not_init none ∷ []) live fits refl)
        λ z.
          if_both (λ r. Good l rest s (goes_on_poll req_id t s r)) (auto_commit_needed a s) _ _
            (λ n. elim (Bool-cases s.closed) [
              | inl c ↦ rw c (says_quiet [] live fits refl)
              | inr c ↦ rw c (
                  quiet-Good l rest s s (calls s.consumer commit ∷ []) (polls req_id t ∷ []) fits
                    live (ground arith) (refl, refl, refl, refl, refl) refl (ground arith))
            ])
            λ n.
              quiet-Good l rest s s [] (polls req_id t ∷ []) fits live refl
                (refl, refl, refl, refl, refl) refl (ground arith)

  starts_offsets-Good :
      (b : Bool) (req_id : ℕ) (tvs : List TopicVgroup)
      → s.finished ≡ false
      → Fits l s rest
      → Good l rest s (starts_offsets b req_id tvs s)
  starts_offsets-Good b req_id tvs live fits =
      if_both (Good l rest s) (s.consumer == 0) _ _
        (λ z. says_quiet (error_msg req_id 65535 not_init none ∷ []) live fits refl)
        λ z.
          quiet-Good l rest s s [] (asks_offsets b req_id tvs [] ∷ []) fits live refl
            (refl, refl, refl, refl, refl) refl (ground arith)

  goes_on_offsets-Good :
      (b : Bool) (req_id : ℕ) (tvs : List TopicVgroup) (x : Option (List ℕ) × List Event)
      → s.consumer ≢ 0
      → s.finished ≡ false
      → Fits l s rest
      → all_quiet s x.1 ≡ true
      → Good l rest s (goes_on_offsets b req_id tvs s x)
  goes_on_offsets-Good b req_id tvs (none, es) h live fits q = says_quiet es live fits q
  goes_on_offsets-Good b req_id tvs (some found, es) h live fits q =
      quiet-Good l rest s s es (asks_offsets b req_id tvs found ∷ []) fits live q
        (refl, refl, refl, refl, refl) refl (ground arith)

  unsubscribe-Good :
      (a : Answers) (req_id : ℕ)
      → s.finished ≡ false
      → Fits l s rest
      → Good l rest s (goes_on_unsubscribe req_id s (unsubscribe_session a req_id s))
  unfolding unsubscribe_session
  unsubscribe-Good a req_id live fits =
      if_both (λ r. Good l rest s (goes_on_unsubscribe req_id s r)) s.closed _ _
        (λ c. says_quiet [] live fits refl)
        λ c.
          if_both (λ r. Good l rest s (goes_on_unsubscribe req_id s r)) (s.consumer == 0) _ _
            (λ z. says_quiet (error_msg req_id 65535 not_init none ∷ []) live fits refl)
            λ z. rw c elim (Bool-cases (a.code == 0)) [
              | inl e ↦ rw e (
                  quiet-Good l rest s s (calls s.consumer unsubscribe ∷ [])
                    (ends_unsubscribe req_id ∷ []) fits live (ground arith)
                    (refl, refl, refl, refl, refl) refl refl)
              | inr e ↦ rw e (
                  says_quiet
                    (calls s.consumer unsubscribe
                      ∷ error_msg req_id a.code (lib (a.tmq_err2str a.code)) none
                      ∷ [])
                    live fits (ground arith))
            ]

pub run_section-Good :
    (a : Answers) (j : Job) (s : Tmq) (l : Library) (rest : ℕ → ℕ)
    → Sound a
    → ready s.consumer j ≡ true
    → s.finished ≡ false
    → Fits l s (λ i. count i (pending (j ∷ [])) + rest i)
    → Good l rest s (run_section a j s)
unfolding run_section
run_section-Good a (starts (subscribe_req req)) s l rest sound r live fits =
    subscribe_session-Good a req s l rest sound live (no_more l rest s fits)
run_section-Good a (starts (poll_req req_id t)) s l rest sound r live fits =
    poll_commit-Good l rest s a req_id t live (no_more l rest s fits)
run_section-Good a (starts (fetch_req req_id id)) s l rest sound r live fits =
    calm l rest s (fetch_message a req_id id s) live (no_more l rest s fits)
      (fetch_message-Calm a req_id id s)
run_section-Good a (starts (fetch_block_req req_id id)) s l rest sound r live fits =
    calm l rest s (fetch_block a req_id id s) live (no_more l rest s fits)
      (fetch_block-Calm a req_id id s)
run_section-Good a (starts (fetch_raw_req req_id id)) s l rest sound r live fits =
    calm l rest s (fetch_raw a req_id id s) live (no_more l rest s fits)
      (fetch_raw-Calm a req_id id s)
run_section-Good a (starts (fetch_raw_new_req req_id id)) s l rest sound r live fits =
    calm l rest s (fetch_raw_new a req_id id s) live (no_more l rest s fits)
      (fetch_raw_new-Calm a req_id id s)
run_section-Good a (starts (fetch_json_meta_req req_id id)) s l rest sound r live fits =
    says_quiet l rest s (fetch_json_meta a req_id id s) live (no_more l rest s fits)
      (fetch_json_meta-quiet a req_id id s)
run_section-Good a (starts (commit_req req_id id)) s l rest sound r live fits =
    says_quiet l rest s (commit_all a req_id id s) live (no_more l rest s fits)
      (commit_all-quiet a req_id id s)
run_section-Good a (starts (unsubscribe_req req_id)) s l rest sound r live fits =
    unsubscribe-Good l rest s a req_id live (no_more l rest s fits)
run_section-Good a (starts (list_topics_req req_id)) s l rest sound r live fits =
    says_quiet l rest s (list_topics a req_id s) live (no_more l rest s fits)
      (list_topics-quiet a req_id s)
run_section-Good a (starts (assignment_req req_id topic)) s l rest sound r live fits =
    says_quiet l rest s (assign a req_id topic s) live (no_more l rest s fits)
      (assign-quiet a req_id topic s)
run_section-Good a (starts (seek_req req_id topic vgroup offset)) s l rest sound r live fits =
    says_quiet l rest s (seek_offset a req_id topic vgroup offset s) live (no_more l rest s fits)
      (seek_offset-quiet a req_id topic vgroup offset s)
run_section-Good a (starts (commit_offset_req req_id topic vgroup offset)) s l rest sound r live
      fits =
    says_quiet l rest s (commit_one_offset a req_id topic vgroup offset s) live
      (no_more l rest s fits) (commit_one_offset-quiet a req_id topic vgroup offset s)
run_section-Good a (starts (committed_req req_id tvs)) s l rest sound r live fits =
    starts_offsets-Good l rest s true req_id tvs live (no_more l rest s fits)
run_section-Good a (starts (position_req req_id tvs)) s l rest sound r live fits =
    starts_offsets-Good l rest s false req_id tvs live (no_more l rest s fits)
run_section-Good a (polls req_id t) s l rest sound r live fits =
    goes_on_message-Good a req_id t s l rest (ground arith) live (no_more l rest s fits)
run_section-Good a (keeps req_id m) s l rest sound r live fits =
    keep_message-Good a req_id m s l rest (ground arith) live fits
run_section-Good a (asks_offsets b req_id [] found) s l rest sound r live fits =
    says_quiet l rest s (answers req_id (offsets found) ∷ []) live (no_more l rest s fits) refl
run_section-Good a (asks_offsets b req_id (tv ∷ tvs) found) s l rest sound r live fits =
    goes_on_offsets-Good l rest s b req_id tvs (ask_offset b a req_id tv found s) (ground arith)
      live (no_more l rest s fits) (ask_offset-quiet b a req_id tv found s (ground arith))
run_section-Good a (ends_unsubscribe req_id) s l rest sound r live fits =
    finish_unsubscribe-Good req_id s l rest live (no_more l rest s fits)
