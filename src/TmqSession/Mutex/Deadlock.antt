-- ===== src/TmqSession/Mutex/Deadlock.antt =====
-- The mutex has one holder at most, so that `Close` can wait for ever.
use taosadapter.Common.{
  ℕ, ◌+◌, ◌<◌, ◌≡◌, ◌⊎◌, inl, inr, refl, sym, ap, ◌∙◌, true, false, List, [], ◌∷◌, ◌++◌, arith,
}
use taosadapter.TmqSession.State.{Answers}
use taosadapter.TmqSession.Closing.{begin_close}
use taosadapter.TmqSession.System.{
  Job, starts, takes_mutex, run_section, System, start, section, Step, accept, run, close_begins,
  close_ends, Reach, begins, then_step,
}
use taosadapter.TmqSession.Ends.{finish_close-given_back}
use taosadapter.TmqSession.Mutex.{holds_mutex, bit, holders, close_holds}
use taosadapter.TmqSession.Mutex.Sections.{run_section-Turn}

holders-append : (js js' : List Job) → holders (js ++ js') ≡ holders js + holders js'
holders-append [] js' = omega arith
holders-append (j ∷ js) js' = omega (arith, holders-append js js')

-- The handlers that wait for the mutex, or will.
abbrev pub waiting : List Job → ℕ
waiting [] = 0
waiting (j ∷ js) = bit (takes_mutex j) + waiting js

pub waiting-append : (js js' : List Job) → waiting (js ++ js') ≡ waiting js + waiting js'
waiting-append [] js' = omega arith
waiting-append (j ∷ js) js' = omega (arith, waiting-append js js')

abbrev One : System → Type 0
One w =
    (holders w.jobs + bit (close_holds w.session) ≡ bit w.session.locked)
    × (w.session.finished ≡ true → w.session.closed ≡ true)

run-One :
    (a : Answers) (before : List Job) (j : Job) (after : List Job) (w : System)
    → w.jobs ≡ before ++ (j ∷ after)
    → (takes_mutex j ≡ false) ⊎ (w.session.locked ≡ false)
    → One w
    → One (section a before j after w)
run-One a before j after w e free (one, fin) =
    let all = ap holders e ∙ holders-append before (j ∷ after) in
    let own : holds_mutex j ≡ true → w.session.locked ≡ true = λ h. ground (arith, all, one) in
    let (turn, c, f) = run_section-Turn a j w.session free own in
    let left = (run_section a j w.session).2 in
    let count1 = holders-append before (left ++ after) in
    let count2 = holders-append left after in
    (ground (arith, one, all, turn), λ done. c ∙ fin (sym f ∙ done))

step-One : {w w' : System} → Step w w' → One w → One w'
unfolding begin_close
step-One (accept r w c) (one, fin) = (omega (arith, holders-append w.jobs (starts r ∷ [])), fin)
step-One (run a before j after w sound e free) held = run-One a before j after w e free held
step-One (close_begins w free shut) (one, fin) = (ground arith, λ done. refl)
step-One (close_ends a w e shut running) (one, fin) =
    let (es, p, c, d, free) = finish_close-given_back a w.session shut in
    (ground (arith, ap holders e, c, d, free), λ done. c)

reached-One : {w : System} → Reach start w → One w
reached-One begins = (refl, λ done. absurd (ground arith))
reached-One (then_step r st) = step-One st (reached-One r)

-- In every interleaving at most one of the running handlers and `Close` holds the mutex, and it is
-- locked exactly when one of them does.
mutex_holders :
    {w : System}
    → Reach start w
    → holders w.jobs + bit (close_holds w.session) ≡ bit w.session.locked
mutex_holders r = (reached-One r).0

-- A handler that holds the mutex finds it locked.
pub handler_owns :
    (before : List Job) (j : Job) (after : List Job) (w : System)
    → Reach start w
    → w.jobs ≡ before ++ (j ∷ after)
    → holds_mutex j ≡ true
    → w.session.locked ≡ true
handler_owns before j after w r e h =
    let one = mutex_holders r in
    ground (arith, ap holders e, holders-append before (j ∷ after), one)

-- `Close` waits, and a handler waits for the mutex that `Close` holds.
abbrev Stuck : System → Type 0
Stuck w =
    (w.session.closed ≡ true)
    × (w.session.finished ≡ false)
    × (w.session.locked ≡ true)
    × (holders w.jobs ≡ 0)
    × (0 < waiting w.jobs)

run-Stuck :
    (a : Answers) (before : List Job) (j : Job) (after : List Job) (w : System)
    → w.jobs ≡ before ++ (j ∷ after)
    → (takes_mutex j ≡ false) ⊎ (w.session.locked ≡ false)
    → Stuck w
    → Stuck (section a before j after w)
run-Stuck a before j after w e free (shut, running, locked, none_holds, some_waits) =
    let no_one = ap holders e ∙ holders-append before (j ∷ after) in
    let waiters = ap waiting e ∙ waiting-append before (j ∷ after) in
    let own : holds_mutex j ≡ true → w.session.locked ≡ true = λ h. locked in
    let (turn, c, f) = run_section-Turn a j w.session free own in
    let left = (run_section a j w.session).2 in
    let count1 = holders-append before (left ++ after) in
    let count2 = holders-append left after in
    let wait1 = waiting-append before (left ++ after) in
    let wait2 = waiting-append left after in
    (
      c ∙ shut,
      f ∙ running,
      ground (arith, turn, no_one),
      ground (arith, turn, no_one, count1, count2),
      elim free [
        | inl t ↦ omega (arith, waiters, wait1, wait2, ap bit t)
        | inr u ↦ absurd (ground arith)
      ],
    )

step-Stuck : {w w' : System} → Step w w' → Stuck w → Stuck w'
step-Stuck (accept r w c) (shut, running, locked, none_holds, some_waits) = absurd (ground arith)
step-Stuck (run a before j after w sound e free) stuck = run-Stuck a before j after w e free stuck
step-Stuck (close_begins w free c) (shut, running, locked, none_holds, some_waits) =
    absurd (ground arith)
step-Stuck (close_ends a w e c f) (shut, running, locked, none_holds, some_waits) =
    let empty = ap waiting e in absurd (omega arith)

reached-Stuck : {w w' : System} → Reach w w' → Stuck w → Stuck w'
reached-Stuck begins stuck = stuck
reached-Stuck (then_step r st) stuck = step-Stuck st (reached-Stuck r stuck)

-- When `Close` has begun while a handler of `subscribe` or `unsubscribe` is waiting for the mutex or
-- is still to ask for it, then whatever happens, `Close` never ends and that handler never runs:
-- `Close` holds the mutex while it waits for the handlers.
pub close_waits_for_ever :
    {w : System}
    → Reach start w
    → w.session.closed ≡ true
    → w.session.finished ≡ false
    → 0 < waiting w.jobs
    → (w' : System) → Reach w w'
    → (w'.session.finished ≡ false) × (0 < waiting w'.jobs)
close_waits_for_ever r shut running some_waits w' r' =
    let one = mutex_holders r in
    let stuck =
      reached-Stuck r' (shut, running, ground (arith, one), ground (arith, one), some_waits) in
    (stuck.1, stuck.4)
