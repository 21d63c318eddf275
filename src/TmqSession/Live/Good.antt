-- ===== src/TmqSession/Live/Good.antt =====
-- What one critical section leaves of the fit between the client library and the session.
use taosadapter.Common.{
  ℕ, ◌+◌, ◌≡◌, ◌≢◌, sym, ap, ◌∙◌, Bool, true, false, not, ◌&&◌, List, [], ◌∷◌, ◌==◌, if◌then◌else◌,
  count, arith,
}
use taosadapter.TmqSession.State.{Tmq, Event}
use taosadapter.TmqSession.System.{Job, starts, polls, keeps, asks_offsets, ends_unsubscribe}
use taosadapter.TmqSession.Live.{Library, after_events, all_allowed, present, pending, Fits}
use taosadapter.TmqSession.Live.Quiet.{all_quiet, all_quiet-allowed}

-- A handler that goes on to call the consumer needs one, and one that holds a message has it.
abbrev pub ready : ℕ → Job → Bool
ready c (polls req_id t) = not (c == 0)
ready c (asks_offsets b req_id tvs found) = not (c == 0)
ready c (keeps req_id m) = not (m == 0)
ready c (starts r) = true
ready c (ends_unsubscribe req_id) = true

abbrev pub all_ready : ℕ → List Job → Bool
all_ready c [] = true
all_ready c (j ∷ js) = let rest = all_ready c js in ready c j && rest

-- The section does what is allowed, and the library fits what is left; `rest` is what the other
-- handlers hold.
abbrev pub Good : Library → (ℕ → ℕ) → Tmq → Tmq × List Event × List Job → Type 0
Good l rest s (s', es, left) =
    (all_allowed es l ≡ true)
    × Fits (after_events es l) s' (λ m. count m (pending left) + rest m)
    × (s'.finished ≡ false)
    × (s.consumer ≢ 0 → s'.consumer ≢ 0)
    × (all_ready s'.consumer left ≡ true)

-- The parts of a session that the fit is about, and its mutex.
abbrev pub Same : Tmq → Tmq → Type 0
Same s s' =
    (s'.consumer ≡ s.consumer)
    × (s'.message.pointer ≡ s.message.pointer)
    × (s'.finished ≡ s.finished)
    × (s'.locked ≡ s.locked)
    × (s'.closed ≡ s.closed)

Same-Fits : (l : Library) (s s' : Tmq) (rest : ℕ → ℕ) → Same s s' → Fits l s rest → Fits l s' rest
Same-Fits l s s' rest (c, p, e, k, d) (f, g) = (
  λ m. f m ∙ ap (λ x. count m (present x) + rest m) (sym p),
  λ i.
      g i
      ∙ ap (λ x. count i (if s.finished then [] else present x)) (sym c)
      ∙ ap (λ (b : Bool). count i (if b then [] else present s'.consumer)) (sym e),
)

-- A section that is quiet leaves the library as it is.
pub quiet-Good :
    (l : Library) (rest : ℕ → ℕ) (s s' : Tmq) (es : List Event) (left : List Job)
    → Fits l s rest
    → s.finished ≡ false
    → all_quiet s es ≡ true
    → Same s s'
    → pending left ≡ []
    → all_ready s.consumer left ≡ true
    → Good l rest s (s', es, left)
quiet-Good l rest s s' es left fits live q same none r =
    let (ok, e) = all_quiet-allowed es l s rest fits live q in
    let (f, g) = Same-Fits l s s' rest same fits in
    (
      ok,
      (rw (e, none) (λ m. omega (arith, f m)), rw e g),
      same.2 ∙ live,
      λ h z. h (sym same.0 ∙ z),
      ap (λ c. all_ready c left) same.0 ∙ r,
    )
