-- ===== src/TmqSession/Live/Calls.antt =====
-- The handlers that call the consumer or read the message do nothing else.
use taosadapter.Common.{
  ℕ, ◌≡◌, ◌≢◌, refl, Bool, true, List, Option, none, some, ◌==◌, if_both, arith,
}
use taosadapter.TmqSession.State.{Text, Tmq, TopicVgroup, Use, Event, Answers}
use taosadapter.TmqSession.Poll.{wrapper, code_answer, commit_all, poll_commit}
use taosadapter.TmqSession.Offsets.{
  one_call, assign, seek_offset, commit_one_offset, list_topics, ask_offset, offset_round, asks,
}
use taosadapter.TmqSession.Live.Quiet.{quiet, all_quiet, all_quiet-append}

wrapper-quiet : (s : Tmq) (u : Use) (x : ℕ) → s.consumer ≢ 0 → all_quiet s (wrapper s u x).1 ≡ true
wrapper-quiet s u x h = ground arith

code_answer-quiet :
    (a : Answers) (s : Tmq) (req_id : ℕ) (e : Event) (r : Option ℕ)
    → quiet s e ≡ true
    → all_quiet s (code_answer a req_id e r) ≡ true
code_answer-quiet a s req_id e none h = refl
code_answer-quiet a s req_id e (some code) h = ground arith

one_call-quiet :
    (a : Answers) (req_id : ℕ) (u : Use) (e : Event) (s : Tmq)
    → quiet s e ≡ true
    → all_quiet s (one_call a req_id u e s) ≡ true
one_call-quiet a req_id u e s h =
    if_both (λ es. all_quiet s es ≡ true) (s.consumer == 0) _ _ (λ z. refl)
      λ z.
        all_quiet-append s (wrapper s u a.code).1 _ (wrapper-quiet s u a.code (ground arith))
          (code_answer-quiet a s req_id e (wrapper s u a.code).0 h)

pub commit_all-quiet :
    (a : Answers) (req_id id : ℕ) (s : Tmq) → all_quiet s (commit_all a req_id id s) ≡ true
unfolding commit_all
commit_all-quiet a req_id id s = one_call-quiet a req_id _ _ s refl

poll_commit-quiet :
    (a : Answers) (req_id : ℕ) (s : Tmq) → all_quiet s (poll_commit a req_id s).1 ≡ true
unfolding poll_commit
poll_commit-quiet a req_id s = ground arith

pub assign-quiet :
    (a : Answers) (req_id : ℕ) (topic : Text) (s : Tmq)
    → all_quiet s (assign a req_id topic s) ≡ true
unfolding assign
assign-quiet a req_id topic s = one_call-quiet a req_id _ _ s refl

pub seek_offset-quiet :
    (a : Answers) (req_id : ℕ) (topic : Text) (vgroup offset : ℕ) (s : Tmq)
    → all_quiet s (seek_offset a req_id topic vgroup offset s) ≡ true
unfolding seek_offset
seek_offset-quiet a req_id topic vgroup offset s = one_call-quiet a req_id _ _ s refl

pub commit_one_offset-quiet :
    (a : Answers) (req_id : ℕ) (topic : Text) (vgroup offset : ℕ) (s : Tmq)
    → all_quiet s (commit_one_offset a req_id topic vgroup offset s) ≡ true
unfolding commit_one_offset
commit_one_offset-quiet a req_id topic vgroup offset s = one_call-quiet a req_id _ _ s refl

pub list_topics-quiet :
    (a : Answers) (req_id : ℕ) (s : Tmq) → all_quiet s (list_topics a req_id s) ≡ true
unfolding list_topics
list_topics-quiet a req_id s = one_call-quiet a req_id _ _ s refl

offset_round-quiet :
    (a : Answers) (req_id : ℕ) (found : List ℕ) (s : Tmq) (r : Option ℕ)
    → all_quiet s (offset_round a req_id found r).1 ≡ true
offset_round-quiet a req_id found s none = refl
offset_round-quiet a req_id found s (some x) = ground arith

asks_call :
    (s : Tmq) (of_commit : Bool) (tv : TopicVgroup) (x : ℕ)
    → s.consumer ≢ 0
    → all_quiet s (wrapper s (asks of_commit tv.topic tv.vgroup) x).1 ≡ true
asks_call s of_commit tv x h = wrapper-quiet s (asks of_commit tv.topic tv.vgroup) x h

pub ask_offset-quiet :
    (b : Bool) (a : Answers) (req_id : ℕ) (tv : TopicVgroup) (found : List ℕ) (s : Tmq)
    → s.consumer ≢ 0
    → all_quiet s (ask_offset b a req_id tv found s).1 ≡ true
unfolding ask_offset
ask_offset-quiet b a req_id tv found s h =
    let (r, es) = wrapper s (asks b tv.topic tv.vgroup) a.code in
    all_quiet-append s es (offset_round a req_id found r).1 (asks_call s b tv a.code h)
      (offset_round-quiet a req_id found s r)
