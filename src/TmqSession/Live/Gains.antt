-- ===== src/TmqSession/Live/Gains.antt =====
-- The sections that get and give back messages.
use taosadapter.Common.{
  ℕ, ◌+◌, ◌≡◌, ◌≢◌, inl, inr, refl, true, false, List, [], ◌∷◌, ◌==◌, if_both, Bool-cases, count,
  arith,
}
use taosadapter.TmqSession.State.{Tmq, Event, Answers}
use taosadapter.TmqSession.Poll.{wrapper_poll, keep_message, message_type_is_valid}
use taosadapter.TmqSession.Closing.{free_message, finish_unsubscribe}
use taosadapter.TmqSession.System.{Job, goes_on_message, unlocks, ends}
use taosadapter.TmqSession.Live.{Library, after_event, allowed, Fits}
use taosadapter.TmqSession.Live.Good.{Good}

-- One event before a section.
pub first-Good :
    (l : Library) (rest : ℕ → ℕ) (s s' : Tmq) (e : Event) (es : List Event) (left : List Job)
    → allowed e l ≡ true
    → Good (after_event e l) rest s (s', es, left)
    → Good l rest s (s', e ∷ es, left)
first-Good l rest s s' e es left h (ok, fits, live, kept, r) = (ground arith, fits, live, kept, r)

pub keep_message-Good :
    (a : Answers) (req_id m : ℕ) (s : Tmq) (l : Library) (rest : ℕ → ℕ)
    → m ≢ 0
    → s.finished ≡ false
    → Fits l s (λ i. count i (m ∷ []) + rest i)
    → Good l rest s (ends (keep_message a req_id m s))
unfolding keep_message
keep_message-Good a req_id m s l rest h live (f, g) =
    let here = f m in
    let old = f s.message.pointer in
    if_both (λ r. Good l rest s (ends r)) (message_type_is_valid a.type) _ _
      (λ v.
        if_both (λ r. Good l rest s (ends r)) (s.message.pointer == 0) _ _
          (λ z. (ground arith, (λ i. ground (arith, f i), g), live, (λ n. n), refl))
          λ z. elim (Bool-cases s.closed) [
            | inl c ↦ rw c (ground arith, (λ i. ground (arith, f i), g), live, (λ n. n), refl)
            | inr c ↦ rw c (ground arith, (λ i. ground (arith, f i, old), g), live, (λ n. n), refl)
          ])
      λ v. (ground arith, (λ i. ground (arith, f i), g), live, (λ n. n), refl)

pub goes_on_message-Good :
    (a : Answers) (req_id t : ℕ) (s : Tmq) (l : Library) (rest : ℕ → ℕ)
    → s.consumer ≢ 0
    → s.finished ≡ false
    → Fits l s rest
    → Good l rest s (goes_on_message req_id s (wrapper_poll a t s))
unfolding wrapper_poll
goes_on_message-Good a req_id t s l rest h live (f, g) =
    let consumer = g s.consumer in
    elim (Bool-cases s.closed) [
      | inl c ↦ rw c (refl, (λ i. ground (arith, f i), g), live, (λ n. n), refl)
      | inr c ↦ rw c elim (Bool-cases (a.message == 0)) [
        | inl z ↦ rw z (ground arith, (λ i. ground (arith, f i), g), live, (λ n. n), refl)
        | inr z ↦ rw z (ground arith, (λ i. ground (arith, f i), g), live, (λ n. n), ground arith)
      ]
    ]

pub finish_unsubscribe-Good :
    (req_id : ℕ) (s : Tmq) (l : Library) (rest : ℕ → ℕ)
    → s.finished ≡ false
    → Fits l s rest
    → Good l rest s (unlocks (finish_unsubscribe req_id s))
unfolding finish_unsubscribe free_message
finish_unsubscribe-Good req_id s l rest live (f, g) =
    let old = f s.message.pointer in
    elim (Bool-cases (s.message.pointer == 0)) [
      | inl z ↦ rw z (refl, (λ i. ground (arith, f i), g), live, (λ n. n), refl)
      | inr z ↦ rw z elim (Bool-cases s.closed) [
        | inl c ↦ rw c (refl, (λ i. ground (arith, f i), g), live, (λ n. n), refl)
        | inr c ↦ rw c (ground arith, (λ i. ground (arith, f i, old), g), live, (λ n. n), refl)
      ]
    ]
