-- ===== src/TmqSession/Mutex/Progress.antt =====
-- `Close` comes to its end when no handler waits for the mutex.
use taosadapter.Common.{
  ℕ, suc, ◌+◌, ◌≡◌, ◌≤◌, ◌<◌, inl, inr, refl, sym, ap, ◌∙◌, ◌≢◌, ◌⊎◌, true, false, List, [], ◌∷◌,
  ◌++◌, arith,
}
use taosadapter.TmqSession.State.{Answers}
use taosadapter.TmqSession.System.{
  Job, run_section, takes_mutex, Sound, System, start, section, ended, Step, accept, run,
  close_begins, close_ends, Reach, begins, then_step,
}
use taosadapter.TmqSession.Ends.{finish_close-given_back}
use taosadapter.TmqSession.Mutex.Sections.{run_section-Turn}
use taosadapter.TmqSession.Mutex.Deadlock.{waiting, waiting-append, handler_owns}
use taosadapter.TmqSession.Mutex.Work.{works, works-append, run_section-Less}

-- `Close` waits, and nobody waits for it.
abbrev Waits : System → Type 0
Waits w = (w.session.closed ≡ true) × (w.session.finished ≡ false) × (waiting w.jobs ≡ 0)

run-Waits :
    (a : Answers) (before : List Job) (j : Job) (after : List Job) (w : System)
    → Reach start w
    → w.jobs ≡ before ++ (j ∷ after)
    → Waits w
    → Waits (section a before j after w) × (works (section a before j after w).jobs < works w.jobs)
run-Waits a before j after w r e (shut, running, nobody) =
    let waiters = ap waiting e ∙ waiting-append before (j ∷ after) in
    let free : takes_mutex j ≡ false = ground (arith, waiters) in
    let (turn, c, f) =
      run_section-Turn a j w.session (inl free) (handler_owns before j after w r e) in
    let (less, calm) = run_section-Less a j w.session in
    let left = (run_section a j w.session).2 in
    (
      (
        c ∙ shut,
        f ∙ running,
        omega (arith, waiters, waiting-append before (left ++ after), waiting-append left after),
      ),
      omega (
        arith,
        less,
        works-append before (left ++ after),
        works-append left after,
        ap works e,
        works-append before (j ∷ after),
      ),
    )

-- The number of steps of a history.
abbrev pub steps : {u v : System} → Reach u v → ℕ
steps begins = 0
steps (then_step r st) = suc (steps r)

followed : {u v w : System} → Reach u v → Reach v w → Reach u w
followed r begins = r
followed r (then_step r' st) = then_step (followed r r') st

-- After `taken` steps of a session whose handlers had `n` sections left.
abbrev Ending : ℕ → ℕ → System → Type 0
Ending n taken w =
    (Waits w × (taken + works w.jobs ≤ n))
    ⊎ ((w.session.closed ≡ true) × (w.session.finished ≡ true) × (w.jobs ≡ []) × (taken ≤ suc n))

no_job : (before : List Job) (j : Job) (after : List Job) → before ++ (j ∷ after) ≢ []
no_job [] j after e = cc
no_job (x ∷ before) j after e = cc

step-Ending :
    {w w' : System} (n taken : ℕ)
    → Step w w'
    → Reach start w
    → Ending n taken w
    → Ending n (suc taken) w'
step-Ending n taken (accept q w c) r (inl (waits, small)) = absurd (cc (c, waits.0))
step-Ending n taken (accept q w c) r (inr (shut, fin, none_left, small)) = absurd (cc (c, shut))
step-Ending n taken (run a before j after w sound e free) r (inl (waits, small)) =
    let (waits', less) = run-Waits a before j after w r e waits in inl (waits', omega arith)
step-Ending n taken (run a before j after w sound e free) r (inr (shut, fin, none_left, small)) =
    absurd (no_job before j after (sym e ∙ none_left))
step-Ending n taken (close_begins w free c) r (inl (waits, small)) = absurd (cc (c, waits.0))
step-Ending n taken (close_begins w free c) r (inr (shut, fin, none_left, small)) =
    absurd (cc (c, shut))
step-Ending n taken (close_ends a w e c f) r (inl (waits, small)) =
    let done = finish_close-given_back a w.session c in inr (done.2, done.3, e, omega arith)
step-Ending n taken (close_ends a w e c f) r (inr (shut, fin, none_left, small)) =
    absurd (cc (f, fin))

reached-Ending :
    {w w' : System} (n : ℕ)
    → Reach start w
    → Ending n 0 w
    → (r : Reach w w') → Ending n (steps r) w'
reached-Ending n from ends begins = ends
reached-Ending n from ends (then_step r st) =
    step-Ending n (steps r) st (followed from r) (reached-Ending n from ends r)

-- As long as `Close` waits, the first handler can go on, or `Close` can.
goes_on :
    (w : System) (js : List Job)
    → w.jobs ≡ js
    → Waits w
    → (a : Answers) → Sound a
    → (w' : System) × Step w w'
goes_on w [] e (shut, running, nobody) a sound = (ended a w, close_ends a w e shut running)
goes_on w (j ∷ js) e (shut, running, nobody) a sound =
    let waiters = ap waiting e in
    (section a [] j js w, run a [] j js w sound e (inl (ground (arith, waiters))))

-- When `Close` has begun and no running handler is one of `subscribe` or `unsubscribe` that still
-- needs the mutex, then `Close` comes to its end. There is a bound on the number of steps of every
-- history from there on, in whatever order the handlers run and whatever the client library, which
-- answers every call, answers to each of them; and in every state of such a history `Close` has
-- ended, or a step is possible whatever the library answers. It is assumed that the library gives no
-- consumer together with an error.
pub close_comes_to_end :
    {w : System}
    → Reach start w
    → w.session.closed ≡ true
    → w.session.finished ≡ false
    → waiting w.jobs ≡ 0
    → (n : ℕ) × ((w' : System) (r : Reach w w')
        → (steps r ≤ n)
          × ((w'.session.finished ≡ true)
              ⊎ ((a : Answers) → Sound a → (w'' : System) × Step w' w'')))
close_comes_to_end {w} from shut running nobody = (
  suc (works w.jobs),
  λ w' r. elim (reached-Ending (works w.jobs) from (inl ((shut, running, nobody), omega arith)) r) [
    | inl (waits, small) ↦ (omega arith, inr (goes_on w' w'.jobs refl waits))
    | inr (c, fin, none_left, small) ↦ (small, inl fin)
  ],
)
