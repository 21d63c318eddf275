-- ===== src/TmqSession/Mutex/Subscribes.antt =====
-- `subscribe` holds the mutex to its end, so that it leaves it as it was.
use taosadapter.Common.{ℕ, refl, List, Option, none, some, if_both, ◌==◌}
use taosadapter.TmqSession.State.{Tmq, Event, Reason, SubscribeReq, Answers}
use taosadapter.TmqSession.Subscribe.{
  after_subscribe, call_subscribe, append_topics, with_consumer, set_conf, parse_interval,
  new_subscription, resubscribed, resubscribe, subscribe_session, subscribe_error, append_error,
  connection_error, wrapper_consumer_new, is_empty,
}
use taosadapter.TmqSession.Mutex.{Frame}

after_subscribe-Frame :
    (a : Answers) (req : SubscribeReq) (c : ℕ) (s : Tmq) (e : Option (ℕ × Reason))
    → Frame s (after_subscribe a req c s e).0
after_subscribe-Frame a req c s none = (refl, refl, refl)
after_subscribe-Frame a req c s (some e) = (refl, refl, refl)

call_subscribe-Frame :
    (a : Answers) (req : SubscribeReq) (c : ℕ) (s : Tmq) (e : Option (ℕ × Reason))
    → Frame s (call_subscribe a req c s e).0
call_subscribe-Frame a req c s none = after_subscribe-Frame a req c s (connection_error a req)
call_subscribe-Frame a req c s (some e) = (refl, refl, refl)

append_topics-Frame :
    (a : Answers) (req : SubscribeReq) (c : ℕ) (s : Tmq) (e : Option (ℕ × Reason))
    → Frame s (append_topics a req c s e).0
append_topics-Frame a req c s none = call_subscribe-Frame a req c s (subscribe_error a)
append_topics-Frame a req c s (some e) = (refl, refl, refl)

with_consumer-Frame :
    (a : Answers) (req : SubscribeReq) (s : Tmq) (x : ℕ × Option Reason)
    → Frame s (with_consumer a req s x).0
with_consumer-Frame a req s (c, none) = append_topics-Frame a req c s (append_error a req)
with_consumer-Frame a req s (c, some e) = (refl, refl, refl)

set_conf-Frame : (a : Answers) (req : SubscribeReq) (s : Tmq) → Frame s (set_conf a req s).0
set_conf-Frame a req s =
    if_both (λ (r : Tmq × List Event). Frame s r.0) _ _ _
      (λ z. with_consumer-Frame a req s (wrapper_consumer_new a)) λ z. (refl, refl, refl)

parse_interval-Frame :
    (a : Answers) (req : SubscribeReq) (s : Tmq) → Frame s (parse_interval a req s).0
parse_interval-Frame a req s =
    if_both (λ (r : Tmq × List Event). Frame s r.0) (is_empty req.auto_commit_interval_ms) _ _
      (λ z. set_conf-Frame a req s)
      λ z.
        if_both (λ (r : Tmq × List Event). Frame s r.0)
          (is_empty (a.int_of_text req.auto_commit_interval_ms).1) _ _ (λ z. set_conf-Frame a req _)
          λ z. (refl, refl, refl)

new_subscription-Frame :
    (a : Answers) (req : SubscribeReq) (s : Tmq) → Frame s (new_subscription a req s).0
new_subscription-Frame a req s =
    if_both (λ (r : Tmq × List Event). Frame s r.0) (is_empty req.auto_commit) _ _
      (λ z. parse_interval-Frame a req s)
      λ z.
        if_both (λ (r : Tmq × List Event). Frame s r.0)
          (is_empty (a.bool_of_text req.auto_commit).1) _ _ (λ z. parse_interval-Frame a req _)
          λ z. (refl, refl, refl)

resubscribed-Frame :
    (req : SubscribeReq) (s : Tmq) (e : Option (ℕ × Reason)) → Frame s (resubscribed req s e).0
resubscribed-Frame req s none = (refl, refl, refl)
resubscribed-Frame req s (some e) = (refl, refl, refl)

resubscribe-Frame :
    (a : Answers) (req : SubscribeReq) (s : Tmq) (e : Option (ℕ × Reason))
    → Frame s (resubscribe a req s e).0
resubscribe-Frame a req s none = resubscribed-Frame req s (subscribe_error a)
resubscribe-Frame a req s (some e) = (refl, refl, refl)

pub subscribe_session-Frame :
    (a : Answers) (req : SubscribeReq) (s : Tmq) → Frame s (subscribe_session a req s).0
unfolding subscribe_session
subscribe_session-Frame a req s =
    if_both (λ (r : Tmq × List Event). Frame s r.0) s.closed _ _ (λ z. (refl, refl, refl))
      λ z.
        if_both (λ (r : Tmq × List Event). Frame s r.0) (s.consumer == 0) _ _
          (λ z. new_subscription-Frame a req s)
          λ z.
            if_both (λ (r : Tmq × List Event). Frame s r.0) s.unsubscribed _ _
              (λ u. resubscribe-Frame a req s (append_error a req)) λ u. (refl, refl, refl)
