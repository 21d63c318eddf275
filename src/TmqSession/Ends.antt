-- ===== src/TmqSession/Ends.antt =====
-- What `Close` of controller/ws/tmq/tmq.go does once it has waited for the handlers.
use taosadapter.Common.{
  ◌≡◌, refl, true, false, List, [], ◌∷◌, ◌++◌, ◌==◌, if◌then◌else◌, inl, inr, Bool-cases, arith,
}
use taosadapter.TmqSession.State.{Tmq, Event, closes, frees, Answers}
use taosadapter.TmqSession.Closing.{finish_close, free_message}

-- The message is freed and the consumer closed, as far as the session has them.
abbrev pub given_back : Tmq → List Event
given_back s =
    (if s.message.pointer == 0 then [] else frees s.message.pointer ∷ [])
    ++ (if s.consumer == 0 then [] else closes s.consumer ∷ [])

-- When `Close` has waited for the handlers, it frees the message that the session still has, then
-- closes its consumer, and makes no other call: in particular none of `tmq_unsubscribe`, for a
-- consumer that is still subscribed either. It leaves the session without a message, and the mutex
-- free.
pub finish_close-given_back :
    (a : Answers) (s : Tmq)
    → s.closed ≡ true
    → ((finish_close a s).1 ≡ given_back s)
      × ((finish_close a s).0.message.pointer ≡ 0)
      × ((finish_close a s).0.closed ≡ true)
      × ((finish_close a s).0.finished ≡ true)
      × ((finish_close a s).0.locked ≡ false)
unfolding finish_close free_message
finish_close-given_back a s shut = rw shut elim (Bool-cases (s.message.pointer == 0)) [
  | inl z ↦ rw z elim (Bool-cases s.unsubscribed) [
    | inl u ↦ rw u (refl, ground arith, refl, refl, refl)
    | inr u ↦ rw u (refl, ground arith, refl, refl, refl)
  ]
  | inr z ↦ rw z elim (Bool-cases s.unsubscribed) [
    | inl u ↦ rw u (refl, refl, refl, refl, refl)
    | inr u ↦ rw u (refl, refl, refl, refl, refl)
  ]
]
