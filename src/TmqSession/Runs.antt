-- ===== src/TmqSession/Runs.antt =====
-- Runs of a session of controller/ws/tmq/tmq.go.
use taosadapter.Common.{
  ℕ, ◌+◌, ◌≡◌, ◌<◌, ◌≤◌, ◌⊎◌, refl, inl, inr, true, false, [], ◌∷◌, ◌++◌, none, count, arith,
}
use taosadapter.TmqSession.State.{
  Tmq, SubscribeReq, subscribe_req, poll_req, unsubscribe_req, commit_req, Answers, sends, frees,
  closes,
}
use taosadapter.TmqSession.Subscribe.{subscribe_session}
use taosadapter.TmqSession.Poll.{poll_commit, wrapper_poll, keep_message}
use taosadapter.TmqSession.Fetch.{
  fetch_message, fetch_block, ws_fetch_raw_block_message, tmq_fetch_raw_block_error_msg,
}
use taosadapter.TmqSession.Closing.{begin_close, finish_close, free_message}
use taosadapter.TmqSession.System.{
  starts, polls, keeps, run_section, System, start, section, accepted, closing, ended, Sound, Step,
  accept, run, close_begins, close_ends, Reach, begins, then_step,
}
use taosadapter.TmqSession.Buffers.{joined, raw_head, raw_body, raw_answers-layout, HasData}
use taosadapter.TmqSession.Blocks.{block_answer, fetch_block-fetch, fetch_block-keep_message}
use taosadapter.TmqSession.Ends.{given_back, finish_close-given_back}
use taosadapter.TmqSession.Live.{nothing_live, all_allowed, message_of, consumer_of, pending}
use taosadapter.TmqSession.Live.Reached.{live, reached-allowed, finished-released}
use taosadapter.TmqSession.Mutex.Deadlock.{waiting, close_waits_for_ever}
use taosadapter.TmqSession.Mutex.Progress.{steps, close_comes_to_end}

abbrev request : SubscribeReq
request = record {
  req_id = 1;
  user = 114 ∷ [];
  password = 116 ∷ [];
  db = [];
  group_id = 103 ∷ [];
  client_id = [];
  offset_rest = [];
  offset_reset = [];
  topics = (116 ∷ []) ∷ [];
  auto_commit = [];
  auto_commit_interval_ms = [];
  snapshot_enable = [];
  with_table_name = [];
  enable_batch_meta = [];
  msg_consume_excluded = [];
  session_timeout_ms = [];
  max_poll_interval_ms = [];
  tz = [];
  app = [];
  ip = [];
}

-- A client library that does what it is asked: its consumer is at 70 and its message at 50.
abbrev library : Answers
library = record {
  now = 9;
  elapsed = 4;
  code = 0;
  tmq_err2str = λ c. [];
  consumer = 70;
  err_str = [];
  connection = 71;
  conf_set = λ k v. 0;
  in_map_order = λ options. options;
  list_append = λ t. 0;
  bool_of_text = λ t. (true, []);
  int_of_text = λ t. (1, []);
  whitelist_err = none;
  check_whitelist = true;
  register_whitelist_err = none;
  register_drop_user_err = none;
  options_connection = λ o v. 0;
  options_err = [];
  client_ip = 49 ∷ [];
  message = 50;
  type = 1;
  topic = 116 ∷ [];
  database = 100 ∷ [];
  table_name = 98 ∷ [];
  vgroup = 2;
  offset = 6;
  rows = 1;
  block = 8 ∷ 9 ∷ [];
  precision = 0;
  meta_type = 3;
  raw = 5 ∷ 6 ∷ 7 ∷ [];
  json_meta = none;
  assignment = [];
  topics = [];
}

-- `subscribe`, then `poll` as far as its message, then the end.
abbrev subscribed : System
subscribed =
    section library [] (starts (subscribe_req request)) [] (accepted (subscribe_req request) start)

abbrev committed : System
committed = section library [] (starts (poll_req 2 100)) [] (accepted (poll_req 2 100) subscribed)

abbrev polled_one : System
polled_one = section library [] (polls 2 100) [] committed

abbrev kept : System
kept = section library [] (keeps 2 50) [] polled_one

abbrev shut : System
shut = ended library (closing kept)

subscribed-Reach : Reach start subscribed
unfolding run_section subscribe_session
subscribed-Reach = then_step (then_step begins (accept (subscribe_req request) start refl)) (
    run library [] (starts (subscribe_req request)) [] (accepted (subscribe_req request) start)
      (inl refl) refl (inr refl))

polled_one-Reach : Reach start polled_one
unfolding run_section subscribe_session poll_commit wrapper_poll
polled_one-Reach =
    then_step
      (then_step (then_step subscribed-Reach (accept (poll_req 2 100) subscribed refl)) (
        run library [] (starts (poll_req 2 100)) [] (accepted (poll_req 2 100) subscribed)
          (inl refl) refl (inl refl)))
      (run library [] (polls 2 100) [] committed (inl refl) refl (inl refl))

shut-Reach : Reach start shut
unfolding run_section subscribe_session poll_commit wrapper_poll keep_message begin_close
shut-Reach =
    then_step
      (then_step
        (then_step polled_one-Reach
          (run library [] (keeps 2 50) [] polled_one (inl refl) refl (inl refl)))
        (close_begins kept refl refl))
      (close_ends library (closing kept) refl refl refl)

reached-allowed_example :
    (all_allowed polled_one.log nothing_live ≡ true)
    × ((m : ℕ)
        → (live polled_one).messages m
          ≡ count m (message_of polled_one.session) + count m (pending polled_one.jobs))
    × ((c : ℕ) → (live polled_one).consumers c ≡ count c (consumer_of polled_one.session))
reached-allowed_example = reached-allowed polled_one-Reach

finished-released_example :
    ((m : ℕ) → (live shut).messages m ≡ 0)
    × ((c : ℕ) → (live shut).consumers c ≡ 0)
    × (shut.jobs ≡ [])
unfolding finish_close
finished-released_example = finished-released shut-Reach refl

-- All that the run does, the last two by `Close`.
shut_events : shut.log ≡ kept.log ++ (frees 50 ∷ closes 70 ∷ [])
unfolding run_section subscribe_session poll_commit wrapper_poll keep_message begin_close
    finish_close free_message
shut_events = refl

finish_close-given_back_example :
    ((finish_close library (begin_close kept.session)).1 ≡ given_back (begin_close kept.session))
    × ((finish_close library (begin_close kept.session)).0.message.pointer ≡ 0)
    × ((finish_close library (begin_close kept.session)).0.closed ≡ true)
    × ((finish_close library (begin_close kept.session)).0.finished ≡ true)
    × ((finish_close library (begin_close kept.session)).0.locked ≡ false)
unfolding begin_close
finish_close-given_back_example = finish_close-given_back library (begin_close kept.session) refl

-- `unsubscribe` and `commit` are accepted, and then `Close` begins.
abbrev waiting_for_mutex : System
waiting_for_mutex = closing (accepted (commit_req 4 0) (accepted (unsubscribe_req 3) subscribed))

waiting-Reach : Reach start waiting_for_mutex
unfolding run_section subscribe_session
waiting-Reach =
    then_step
      (then_step (then_step subscribed-Reach (accept (unsubscribe_req 3) subscribed refl))
        (accept (commit_req 4 0) (accepted (unsubscribe_req 3) subscribed) refl))
      (close_begins (accepted (commit_req 4 0) (accepted (unsubscribe_req 3) subscribed)) refl refl)

abbrev still_waiting : System
still_waiting =
    section library (starts (unsubscribe_req 3) ∷ []) (starts (commit_req 4 0)) [] waiting_for_mutex

still_waiting-Reach : Reach waiting_for_mutex still_waiting
unfolding run_section subscribe_session
still_waiting-Reach = then_step begins (
    run library (starts (unsubscribe_req 3) ∷ []) (starts (commit_req 4 0)) [] waiting_for_mutex
      (inl refl) refl (inl refl))

close_waits_for_ever_example :
    (still_waiting.session.finished ≡ false) × (0 < waiting still_waiting.jobs)
unfolding run_section subscribe_session begin_close
close_waits_for_ever_example =
    close_waits_for_ever waiting-Reach refl refl (omega arith) still_waiting still_waiting-Reach

-- `poll` has its message when `Close` begins.
abbrev closing_poll : System
closing_poll = closing polled_one

closing_poll-Reach : Reach start closing_poll
unfolding run_section subscribe_session poll_commit wrapper_poll
closing_poll-Reach = then_step polled_one-Reach (close_begins polled_one refl refl)

close_comes_to_end_example :
    (n : ℕ) × ((w' : System) (r : Reach closing_poll w')
      → (steps r ≤ n)
        × ((w'.session.finished ≡ true) ⊎ ((a : Answers) → Sound a → (w'' : System) × Step w' w'')))
unfolding run_section subscribe_session poll_commit wrapper_poll begin_close
close_comes_to_end_example = close_comes_to_end closing_poll-Reach refl refl refl

kept-HasData : HasData 1 kept.session
unfolding run_section subscribe_session poll_commit wrapper_poll keep_message
kept-HasData = (λ e. absurd (omega (arith, e)), λ e. absurd (omega (arith, e)), refl, refl)

fetch_block-fetch_example :
    (fetch_block library 6 1 (fetch_message library 5 1 kept.session).0).1
    ≡ sends (block_answer 4 5 1 (8 ∷ 9 ∷ [])) ∷ []
unfolding run_section subscribe_session poll_commit wrapper_poll keep_message
fetch_block-fetch_example =
    fetch_block-fetch library library 5 6 1 kept.session kept-HasData refl refl
      (λ e. absurd (omega (arith, e)))

abbrev next_kept : Tmq
next_kept = (keep_message library 7 51 (fetch_message library 5 1 kept.session).0).0

fetch_block-keep_message_example :
    (fetch_block library 8 next_kept.message.index next_kept).1
    ≡ sends (block_answer 4 5 1 (8 ∷ 9 ∷ [])) ∷ []
unfolding run_section subscribe_session poll_commit wrapper_poll keep_message
fetch_block-keep_message_example =
    fetch_block-keep_message library library library 5 8 7 1 51 kept.session kept-HasData refl refl
      (λ e. absurd (omega (arith, e))) (λ e. absurd (omega (arith, e))) refl

raw_answers-layout_example :
    (ws_fetch_raw_block_message library 5 1 (1 ∷ 2 ∷ [])
      ≡ joined (raw_head 4 5 0 [] 1) ++ joined (raw_body 3 (5 ∷ 6 ∷ 7 ∷ [])))
    × (tmq_fetch_raw_block_error_msg library 65535 (110 ∷ []) 5 1
        ≡ joined (raw_head 4 5 65535 (110 ∷ []) 1))
raw_answers-layout_example = raw_answers-layout library 5 1 (1 ∷ 2 ∷ []) 65535 (110 ∷ [])
