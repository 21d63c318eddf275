-- ===== src/TmqSession/Live/Reached.antt =====
-- Every interleaving of the handlers and of `Close` does what the client library allows.
use taosadapter.Common.{
  ℕ, ◌+◌, ◌≡◌, ◌≢◌, inl, inr, refl, sym, ap, ◌∙◌, Bool, true, false, List, [], ◌∷◌, ◌++◌, length,
  ◌==◌, if◌then◌else◌, Bool-cases, count, count-append, arith,
}
use taosadapter.TmqSession.State.{Tmq, Answers}
use taosadapter.TmqSession.Closing.{finish_close, begin_close}
use taosadapter.TmqSession.System.{
  Job, starts, polls, keeps, asks_offsets, ends_unsubscribe, run_section, Sound, System, start,
  section, Step, accept, run, close_begins, close_ends, ended, Reach, begins, then_step,
}
use taosadapter.TmqSession.Ends.{given_back, finish_close-given_back}
use taosadapter.TmqSession.Live.{
  Library, nothing_live, after_events, after_events-append, all_allowed, all_allowed-append, Fits,
  held, pending, message_of, consumer_of, present,
}
use taosadapter.TmqSession.Live.Good.{ready, all_ready}
use taosadapter.TmqSession.Live.Sections.{run_section-Good}

-- What is live for the client library when all of a log has been done.
abbrev pub live : System → Library
live w = after_events w.log nothing_live

abbrev Held : System → Type 0
Held w =
    (all_allowed w.log nothing_live ≡ true)
    × Fits (live w) w.session (λ m. count m (pending w.jobs))
    × (all_ready w.session.consumer w.jobs ≡ true)
    × (w.session.finished ≡ true
        → (w.jobs ≡ []) × (w.session.closed ≡ true) × (w.session.message.pointer ≡ 0))

pending-append :
    (i : ℕ) (js js' : List Job)
    → count i (pending (js ++ js')) ≡ count i (pending js) + count i (pending js')
pending-append i [] js' = omega arith
pending-append i (j ∷ js) js' = omega (
  arith,
  pending-append i js js',
  count-append i (held j) (pending (js ++ js')),
  count-append i (held j) (pending js),
)

all_ready-append :
    (c : ℕ) (js js' : List Job)
    → all_ready c (js ++ js') ≡ true
    → (all_ready c js ≡ true) × (all_ready c js' ≡ true)
all_ready-append c [] js' h = (refl, h)
all_ready-append c (j ∷ js) js' h =
    let (r, r') = all_ready-append c js js' (ground arith) in (ground arith, r')

append-all_ready :
    (c : ℕ) (js js' : List Job)
    → all_ready c js ≡ true
    → all_ready c js' ≡ true
    → all_ready c (js ++ js') ≡ true
append-all_ready c [] js' h h' = h'
append-all_ready c (j ∷ js) js' h h' =
    let rest = append-all_ready c js js' (ground arith) h' in ground arith

ready_still : (c c' : ℕ) (j : Job) → (c ≢ 0 → c' ≢ 0) → ready c j ≡ true → ready c' j ≡ true
ready_still c c' (starts r) k h = refl
ready_still c c' (polls i t) k h = let n = k (ground arith) in ground arith
ready_still c c' (keeps i m) k h = h
ready_still c c' (asks_offsets b i tvs found) k h = let n = k (ground arith) in ground arith
ready_still c c' (ends_unsubscribe i) k h = refl

all_ready_still :
    (c c' : ℕ) (js : List Job) → (c ≢ 0 → c' ≢ 0) → all_ready c js ≡ true → all_ready c' js ≡ true
all_ready_still c c' [] k h = refl
all_ready_still c c' (j ∷ js) k h =
    let here = ready_still c c' j k (ground arith) in
    let rest = all_ready_still c c' js k (ground arith) in ground arith

nobody_left : (before : List Job) (j : Job) (after : List Job) → before ++ (j ∷ after) ≢ []
nobody_left [] j after e = let n = ap length e in absurd (omega arith)
nobody_left (x ∷ before) j after e = let n = ap length e in absurd (omega arith)

-- What the other handlers hold while one runs.
abbrev others : List Job → List Job → ℕ → ℕ
others before after i = count i (pending before) + count i (pending after)

run-Held :
    (a : Answers) (before : List Job) (j : Job) (after : List Job) (w : System)
    → Sound a
    → w.jobs ≡ before ++ (j ∷ after)
    → Held w
    → w.session.finished ≡ false
    → Held (section a before j after w)
run-Held a before j after w sound e (ok, (f, g), r, fin) running =
    let s = w.session in
    let r' : all_ready s.consumer (before ++ (j ∷ after)) ≡ true =
      ap (all_ready s.consumer) (sym e) ∙ r in
    let (r1, r2) = all_ready-append s.consumer before (j ∷ after) r' in
    let f' : (m : ℕ)
        → (live w).messages m
          ≡ count m (message_of s) + (count m (pending (j ∷ [])) + others before after m) =
      λ m. omega (
        arith,
        f m,
        ap (λ js. count m (pending js)) e,
        pending-append m before (j ∷ after),
        pending-append m (j ∷ []) after,
      ) in
    let (s', es, left) = run_section a j s in
    let (ok', (f2, g2), live', kept, r3) =
      run_section-Good a j s (live w) (others before after) sound (ground arith) running (f', g) in
    let e' = after_events-append w.log es nothing_live in
    (
      all_allowed-append w.log es nothing_live ok ok',
      (
        λ m. omega (
          arith,
          ap (λ (x : Library). x.messages m) e',
          f2 m,
          pending-append m before (left ++ after),
          pending-append m left after,
        ),
        λ c. ap (λ (x : Library). x.consumers c) e' ∙ g2 c,
      ),
      append-all_ready s'.consumer before (left ++ after)
          (all_ready_still s.consumer s'.consumer before kept r1)
          (append-all_ready s'.consumer left after r3
            (all_ready_still s.consumer s'.consumer after kept (ground arith))),
      λ done. absurd (ground arith),
    )

given_back-allowed :
    (s : Tmq) (l : Library)
    → Fits l s (λ m. 0)
    → s.finished ≡ false
    → (all_allowed (given_back s) l ≡ true)
      × ((i : ℕ) → (after_events (given_back s) l).messages i ≡ 0)
      × ((i : ℕ) → (after_events (given_back s) l).consumers i ≡ 0)
given_back-allowed s l (f, g) running =
    let message = f s.message.pointer in
    let consumer = g s.consumer in
    elim (Bool-cases (s.message.pointer == 0)) [
      | inl z ↦ rw z elim (Bool-cases (s.consumer == 0)) [
        | inl n ↦ rw n (refl, λ i. ground (arith, f i), λ i. ground (arith, g i))
        | inr n ↦ rw n (ground arith, λ i. ground (arith, f i), λ i. ground (arith, g i))
      ]
      | inr z ↦ rw z elim (Bool-cases (s.consumer == 0)) [
        | inl n ↦ rw n (ground arith, λ i. ground (arith, f i), λ i. ground (arith, g i))
        | inr n ↦ rw n (ground arith, λ i. ground (arith, f i), λ i. ground (arith, g i))
      ]
    ]

ended-Held :
    (a : Answers) (w : System)
    → w.jobs ≡ []
    → w.session.closed ≡ true
    → w.session.finished ≡ false
    → Held w
    → Held (ended a w)
ended-Held a w e shut running (ok, (f, g), r, fin) =
    let (es, p, c, d, free) = finish_close-given_back a w.session shut in
    let fits : Fits (live w) w.session (λ m. 0) =
      (λ m. omega (arith, f m, ap (λ js. count m (pending js)) e), g) in
    let (ok', none_left, none_open) = given_back-allowed w.session (live w) fits running in
    let e' : live (ended a w) ≡ after_events (given_back w.session) (live w) =
      after_events-append w.log (finish_close a w.session).1 nothing_live
      ∙ ap (λ xs. after_events xs (live w)) es in
    (
      all_allowed-append w.log (finish_close a w.session).1 nothing_live ok
          (ap (λ xs. all_allowed xs (live w)) es ∙ ok'),
      (
        λ m.
            ap (λ (x : Library). x.messages m) e'
            ∙ none_left m
            ∙ omega (arith, ap (λ x. count m (present x)) p, ap (λ js. count m (pending js)) e),
        λ i.
            ap (λ (x : Library). x.consumers i) e'
            ∙ none_open i
            ∙ sym (
                ap
                  (λ (b : Bool).
                    count i (if b then [] else present (finish_close a w.session).0.consumer))
                  d),
      ),
      ap (all_ready _) e,
      λ done. (e, c, p),
    )

step-Held : {w w' : System} → Step w w' → Held w → Held w'
unfolding begin_close
step-Held (accept req w c) (ok, (f, g), r, fin) = (
  ok,
  (λ m. omega (arith, f m, pending-append m w.jobs (starts req ∷ [])), g),
  append-all_ready w.session.consumer w.jobs (starts req ∷ []) r refl,
  λ done. let shut = (fin done).1 in absurd (ground arith),
)
step-Held (run a before j after w sound e free) held' = elim (Bool-cases w.session.finished) [
  | inl done ↦ absurd (nobody_left before j after (sym e ∙ (held'.3 done).0))
  | inr running ↦ run-Held a before j after w sound e held' running
]
step-Held (close_begins w free shut) (ok, fits, r, fin) =
    (ok, fits, r, λ done. let (none_left, c, p) = fin done in (none_left, refl, p))
step-Held (close_ends a w e shut running) held' = ended-Held a w e shut running held'

Reach-Held : {w : System} → Reach start w → Held w
Reach-Held begins = (refl, (λ m. refl, λ c. refl), refl, λ done. absurd (ground arith))
Reach-Held (then_step r st) = step-Held st (Reach-Held r)

-- In every interleaving of the handlers of a session with each other and with `Close`, the client
-- library is only used as it allows: a consumer is called only after it was got and before it is
-- closed, a message is read only after it was got and before it is freed, and nothing is closed or
-- freed twice. What is live at any time is what the session has: its message, its consumer until
-- `Close` has ended, and the messages that a handler of `poll` is about to keep. It is assumed that
-- the library gives no consumer together with an error.
pub reached-allowed :
    {w : System}
    → Reach start w
    → (all_allowed w.log nothing_live ≡ true)
      × ((m : ℕ) → (live w).messages m ≡ count m (message_of w.session) + count m (pending w.jobs))
      × ((c : ℕ) → (live w).consumers c ≡ count c (consumer_of w.session))
reached-allowed r = let (ok, (f, g), r', fin) = Reach-Held r in (ok, f, g)

-- When `Close` has ended, every message and every consumer that the session got from the client
-- library has been given back, and no handler is running; it is assumed that the library gives no
-- consumer together with an error.
pub finished-released :
    {w : System}
    → Reach start w
    → w.session.finished ≡ true
    → ((m : ℕ) → (live w).messages m ≡ 0) × ((c : ℕ) → (live w).consumers c ≡ 0) × (w.jobs ≡ [])
finished-released {w} r done =
    let (ok, (f, g), r', fin) = Reach-Held r in
    let (none_left, shut, no_pointer) = fin done in
    (
      λ m. omega (
        arith,
        f m,
        ap (λ x. count m (present x)) no_pointer,
        ap (λ js. count m (pending js)) none_left,
      ),
      λ c. g c ∙ ap (λ (b : Bool). count c (if b then [] else present w.session.consumer)) done,
      none_left,
    )
