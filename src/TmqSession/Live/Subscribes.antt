-- ===== src/TmqSession/Live/Subscribes.antt =====
-- `subscribe` gets a consumer, and gives it back unless the session keeps it.
use taosadapter.Common.{
  ℕ, ◌+◌, ◌≡◌, ◌≢◌, inl, inr, refl, ap, true, false, [], ◌∷◌, Option, none, some, ◌==◌,
  if◌then◌else◌, if_both, Bool-cases, count, arith,
}
use taosadapter.TmqSession.State.{
  Tmq, subscribe, get_connect, created, calls, Reason, SubscribeReq, Answers,
}
use taosadapter.TmqSession.Subscribe.{
  after_subscribe, call_subscribe, append_topics, with_consumer, set_conf, parse_interval,
  new_subscription, resubscribed, resubscribe, subscribe_session, subscribe_error, append_error,
  connection_error, close_consumer_with_err_log, wrapper_consumer_new, is_empty,
}
use taosadapter.TmqSession.System.{ends, Sound}
use taosadapter.TmqSession.Live.{Library, after_event, Fits, message_of}
use taosadapter.TmqSession.Live.Good.{Good}
use taosadapter.TmqSession.Live.Gains.{first-Good}

-- A new consumer, which the session does not have yet.
abbrev Taken : ℕ → Library → Tmq → (ℕ → ℕ) → Type 0
Taken c l s rest =
    ((m : ℕ) → l.messages m ≡ count m (message_of s) + rest m)
    × ((i : ℕ) → l.consumers i ≡ (if c == i then 1 else 0))

given_up :
    (c req_id : ℕ) (s : Tmq) (l : Library) (rest : ℕ → ℕ) (e : ℕ × Reason)
    → s.consumer ≡ 0
    → s.finished ≡ false
    → Taken c l s rest
    → Good l rest s (ends (s, close_consumer_with_err_log c req_id e))
given_up c req_id s l rest (code, reason) nil live (f, g) =
    let own = g c in
    (ground arith, (λ i. ground (arith, f i), λ i. ground (arith, g i)), live, (λ n. n), refl)

after_subscribe-Good :
    (a : Answers) (req : SubscribeReq) (c : ℕ) (s : Tmq) (l : Library) (rest : ℕ → ℕ)
    (e : Option (ℕ × Reason))
    → c ≢ 0
    → s.consumer ≡ 0
    → s.finished ≡ false
    → Taken c l s rest
    → Good l rest s (ends (after_subscribe a req c s e))
after_subscribe-Good a req c s l rest (some e) h nil live taken =
    given_up c req.req_id s l rest e nil live taken
after_subscribe-Good a req c s l rest none h nil live (f, g) =
    (refl, (λ i. ground (arith, f i), λ i. ground (arith, g i)), live, (λ n. h), refl)

call_subscribe-Good :
    (a : Answers) (req : SubscribeReq) (c : ℕ) (s : Tmq) (l : Library) (rest : ℕ → ℕ)
    (e : Option (ℕ × Reason))
    → c ≢ 0
    → s.consumer ≡ 0
    → s.finished ≡ false
    → Taken c l s rest
    → Good l rest s (ends (call_subscribe a req c s e))
call_subscribe-Good a req c s l rest (some e) h nil live taken =
    let own = taken.1 c in
    first-Good l rest s s (calls c (subscribe req.topics))
      (close_consumer_with_err_log c req.req_id e) [] (ground arith)
      (given_up c req.req_id s l rest e nil live taken)
call_subscribe-Good a req c s l rest none h nil live taken =
    let own = taken.1 c in
    let (s', es) = after_subscribe a req c s (connection_error a req) in
    first-Good l rest s s' (calls c (subscribe req.topics)) (calls c get_connect ∷ es) []
      (ground arith)
      (first-Good l rest s s' (calls c get_connect) es [] (ground arith)
        (after_subscribe-Good a req c s l rest _ h nil live taken))

append_topics-Good :
    (a : Answers) (req : SubscribeReq) (c : ℕ) (s : Tmq) (l : Library) (rest : ℕ → ℕ)
    (e : Option (ℕ × Reason))
    → c ≢ 0
    → s.consumer ≡ 0
    → s.finished ≡ false
    → Taken c l s rest
    → Good l rest s (ends (append_topics a req c s e))
append_topics-Good a req c s l rest (some e) h nil live taken =
    given_up c req.req_id s l rest e nil live taken
append_topics-Good a req c s l rest none h nil live taken =
    call_subscribe-Good a req c s l rest _ h nil live taken

with_consumer-Good :
    (a : Answers) (req : SubscribeReq) (s : Tmq) (l : Library) (rest : ℕ → ℕ)
    → Sound a
    → s.consumer ≡ 0
    → s.finished ≡ false
    → Fits l s rest
    → Good l rest s (ends (with_consumer a req s (wrapper_consumer_new a)))
with_consumer-Good a req s l rest sound nil live (f, g) = elim (Bool-cases (is_empty a.err_str)) [
  | inl e ↦ rw e elim (Bool-cases (a.consumer == 0)) [
    | inl z ↦ rw z (refl, (λ i. ground (arith, f i), g), live, (λ n. n), refl)
    | inr z ↦
        rw z
          let (s', es) = append_topics a req a.consumer s (append_error a req) in
            first-Good l rest s s' (created a.consumer) es [] refl (
              append_topics-Good a req a.consumer s (after_event (created a.consumer) l) rest _
                (ground arith) nil live (f, λ i. ground (arith, g i)))
  ]
  | inr e ↦ elim sound [
    | inl no_text ↦
        let empty : is_empty a.err_str ≡ true = ap is_empty no_text in absurd (ground arith)
    | inr z ↦ rw (e, z) (refl, (λ i. ground (arith, f i), g), live, (λ n. n), refl)
  ]
]

set_conf-Good :
    (a : Answers) (req : SubscribeReq) (s : Tmq) (l : Library) (rest : ℕ → ℕ)
    → Sound a
    → s.consumer ≡ 0
    → s.finished ≡ false
    → Fits l s rest
    → Good l rest s (ends (set_conf a req s))
set_conf-Good a req s l rest sound nil live fits =
    if_both (λ r. Good l rest s (ends r)) _ _ _
      (λ z. with_consumer-Good a req s l rest sound nil live fits)
      λ z. (refl, (λ i. ground (arith, fits.0 i), fits.1), live, (λ n. n), refl)

parse_interval-Good :
    (a : Answers) (req : SubscribeReq) (s : Tmq) (l : Library) (rest : ℕ → ℕ)
    → Sound a
    → s.consumer ≡ 0
    → s.finished ≡ false
    → Fits l s rest
    → Good l rest s (ends (parse_interval a req s))
parse_interval-Good a req s l rest sound nil live fits =
    if_both (λ r. Good l rest s (ends r)) (is_empty req.auto_commit_interval_ms) _ _
      (λ z. set_conf-Good a req s l rest sound nil live fits)
      λ z.
        if_both (λ r. Good l rest s (ends r))
          (is_empty (a.int_of_text req.auto_commit_interval_ms).1) _ _
          (λ z. set_conf-Good a req _ l rest sound nil live fits)
          λ z. (refl, (λ i. ground (arith, fits.0 i), fits.1), live, (λ n. n), refl)

new_subscription-Good :
    (a : Answers) (req : SubscribeReq) (s : Tmq) (l : Library) (rest : ℕ → ℕ)
    → Sound a
    → s.consumer ≡ 0
    → s.finished ≡ false
    → Fits l s rest
    → Good l rest s (ends (new_subscription a req s))
new_subscription-Good a req s l rest sound nil live fits =
    if_both (λ r. Good l rest s (ends r)) (is_empty req.auto_commit) _ _
      (λ z. parse_interval-Good a req s l rest sound nil live fits)
      λ z.
        if_both (λ r. Good l rest s (ends r)) (is_empty (a.bool_of_text req.auto_commit).1) _ _
          (λ z. parse_interval-Good a req _ l rest sound nil live fits)
          λ z. (refl, (λ i. ground (arith, fits.0 i), fits.1), live, (λ n. n), refl)

resubscribed-Good :
    (req : SubscribeReq) (s : Tmq) (l : Library) (rest : ℕ → ℕ) (e : Option (ℕ × Reason))
    → s.finished ≡ false
    → Fits l s rest
    → Good l rest s (ends (resubscribed req s e))
resubscribed-Good req s l rest (some (code, reason)) live (f, g) =
    (refl, (λ i. ground (arith, f i), g), live, (λ n. n), refl)
resubscribed-Good req s l rest none live (f, g) =
    (refl, (λ i. ground (arith, f i), g), live, (λ n. n), refl)

resubscribe-Good :
    (a : Answers) (req : SubscribeReq) (s : Tmq) (l : Library) (rest : ℕ → ℕ)
    (e : Option (ℕ × Reason))
    → s.consumer ≢ 0
    → s.finished ≡ false
    → Fits l s rest
    → Good l rest s (ends (resubscribe a req s e))
resubscribe-Good a req s l rest (some (code, reason)) h live (f, g) =
    (refl, (λ i. ground (arith, f i), g), live, (λ n. n), refl)
resubscribe-Good a req s l rest none h live (f, g) =
    let own = g s.consumer in
    let (s', es) = resubscribed req s (subscribe_error a) in
    first-Good l rest s s' (calls s.consumer (subscribe req.topics)) es [] (ground arith)
      (resubscribed-Good req s l rest _ live (f, g))

pub subscribe_session-Good :
    (a : Answers) (req : SubscribeReq) (s : Tmq) (l : Library) (rest : ℕ → ℕ)
    → Sound a
    → s.finished ≡ false
    → Fits l s rest
    → Good l rest s (ends (subscribe_session a req s))
unfolding subscribe_session
subscribe_session-Good a req s l rest sound live fits =
    if_both (λ r. Good l rest s (ends r)) s.closed _ _
      (λ z. (refl, (λ i. ground (arith, fits.0 i), fits.1), live, (λ n. n), refl))
      λ z.
        if_both (λ r. Good l rest s (ends r)) (s.consumer == 0) _ _
          (λ z. new_subscription-Good a req s l rest sound (ground arith) live fits)
          λ z.
            if_both (λ r. Good l rest s (ends r)) s.unsubscribed _ _
              (λ u. resubscribe-Good a req s l rest (append_error a req) (ground arith) live fits)
              λ u. (refl, (λ i. ground (arith, fits.0 i), fits.1), live, (λ n. n), refl)
