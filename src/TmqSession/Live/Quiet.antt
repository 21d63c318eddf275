-- ===== src/TmqSession/Live/Quiet.antt =====
-- Sections that get and give back nothing.
use taosadapter.Common.{
  ℕ, ◌≡◌, refl, Bool, true, false, not, ◌&&◌, List, [], ◌∷◌, ◌++◌, ◌==◌, arith,
}
use taosadapter.TmqSession.State.{
  Tmq, Event, created, calls, closes, polled, reads, frees, answers, sends,
}
use taosadapter.TmqSession.Live.{Library, after_event, after_events, allowed, all_allowed, Fits}

-- Only calls on the session's consumer and reads of its message, when it has one.
abbrev pub quiet : Tmq → Event → Bool
quiet s (calls c u) = c == s.consumer && not (c == 0)
quiet s (reads m r) = m == s.message.pointer && not (m == 0)
quiet s (answers i b) = true
quiet s (sends b) = true
quiet s (created c) = false
quiet s (closes c) = false
quiet s (polled m) = false
quiet s (frees m) = false

abbrev pub all_quiet : Tmq → List Event → Bool
all_quiet s [] = true
all_quiet s (e ∷ es) = let rest = all_quiet s es in quiet s e && rest

pub all_quiet-append :
    (s : Tmq) (es es' : List Event)
    → all_quiet s es ≡ true
    → all_quiet s es' ≡ true
    → all_quiet s (es ++ es') ≡ true
all_quiet-append s [] es' h h' = h'
all_quiet-append s (e ∷ es) es' h h' =
    let rest = all_quiet-append s es es' (ground arith) h' in ground arith

quiet-allowed :
    (e : Event) (l : Library) (s : Tmq) (rest : ℕ → ℕ)
    → Fits l s rest
    → s.finished ≡ false
    → quiet s e ≡ true
    → (allowed e l ≡ true) × (after_event e l ≡ l)
quiet-allowed (calls c u) l s rest (f, g) live q = (ground (arith, g c), refl)
quiet-allowed (reads m r) l s rest (f, g) live q = (ground (arith, f m), refl)
quiet-allowed (answers i b) l s rest (f, g) live q = (refl, refl)
quiet-allowed (sends b) l s rest (f, g) live q = (refl, refl)
quiet-allowed (created c) l s rest (f, g) live q = ground arith
quiet-allowed (closes c) l s rest (f, g) live q = ground arith
quiet-allowed (polled m) l s rest (f, g) live q = ground arith
quiet-allowed (frees m) l s rest (f, g) live q = ground arith

pub all_quiet-allowed :
    (es : List Event) (l : Library) (s : Tmq) (rest : ℕ → ℕ)
    → Fits l s rest
    → s.finished ≡ false
    → all_quiet s es ≡ true
    → (all_allowed es l ≡ true) × (after_events es l ≡ l)
all_quiet-allowed [] l s rest fits live q = (refl, refl)
all_quiet-allowed (e ∷ es) l s rest fits live q =
    let (here, same) = quiet-allowed e l s rest fits live (ground arith) in
    let (there, same') = all_quiet-allowed es l s rest fits live (ground arith) in
    rw same (ground arith, same')
