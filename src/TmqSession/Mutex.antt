-- ===== src/TmqSession/Mutex.antt =====
-- Who holds the mutex of a session of controller/ws/tmq/tmq.go.
pub mod Subscribes
pub mod Sections
pub mod Deadlock
pub mod Work
pub mod Progress
use taosadapter.Common.{ℕ, ◌+◌, ◌≡◌, Bool, true, false, not, ◌&&◌, List, [], ◌∷◌, if◌then◌else◌}
use taosadapter.TmqSession.State.{Tmq, Event}
use taosadapter.TmqSession.System.{Job, ends_unsubscribe, System}

-- A section that neither takes nor gives up the mutex.
abbrev pub Frame : Tmq → Tmq → Type 0
Frame s s' = (s'.locked ≡ s.locked) × (s'.closed ≡ s.closed) × (s'.finished ≡ s.finished)

-- The handlers that hold it between two sections: `unsubscribe`, until it has freed the message.
abbrev pub holds_mutex : Job → Bool
holds_mutex (ends_unsubscribe req_id) = true
holds_mutex _ = false

abbrev pub bit : Bool → ℕ
bit b = if b then 1 else 0

abbrev pub holders : List Job → ℕ
holders [] = 0
holders (j ∷ js) = bit (holds_mutex j) + holders js

-- `Close` holds it while it waits.
abbrev pub close_holds : Tmq → Bool
close_holds s = s.closed && not s.finished
