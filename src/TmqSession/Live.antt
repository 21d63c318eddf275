-- ===== src/TmqSession/Live.antt =====
-- What the client library asks of its user: a consumer is called and a message is read only while it
-- is live, that is, got and not yet given back, and neither is given back twice.
pub mod Quiet
pub mod Good
pub mod Calls
pub mod Gains
pub mod Subscribes
pub mod Sections
pub mod Reached
pub mod Fetches
use taosadapter.Common.{
  ℕ, suc, ◌+◌, ◌-◌, ◌≡◌, refl, Bool, true, false, ◌&&◌, List, [], ◌∷◌, ◌++◌, ◌==◌, ltb,
  if◌then◌else◌, count, arith,
}
use taosadapter.TmqSession.State.{
  Tmq, Event, created, calls, closes, polled, reads, frees, answers, sends,
}
use taosadapter.TmqSession.System.{Job, starts, polls, keeps, asks_offsets, ends_unsubscribe}

-- How often each address is live; an address may be given out again when it was given back.
pub record Library : Type 0 where
  pub consumers : ℕ → ℕ
  pub messages : ℕ → ℕ

abbrev pub nothing_live : Library
nothing_live = record { consumers = λ c. 0; messages = λ m. 0 }

abbrev gain : ℕ → (ℕ → ℕ) → ℕ → ℕ
gain x f i = (if x == i then 1 else 0) + f i

abbrev lose : ℕ → (ℕ → ℕ) → ℕ → ℕ
lose x f i = if x == i then f i - 1 else f i

abbrev pub after_event : Event → Library → Library
after_event (created c) l = record l { consumers = gain c l.consumers }
after_event (closes c) l = record l { consumers = lose c l.consumers }
after_event (polled m) l = record l { messages = gain m l.messages }
after_event (frees m) l = record l { messages = lose m l.messages }
after_event (calls c u) l = l
after_event (reads m r) l = l
after_event (answers i b) l = l
after_event (sends b) l = l

abbrev pub allowed : Event → Library → Bool
allowed (created c) l = true
allowed (closes c) l = ltb 0 (l.consumers c)
allowed (polled m) l = true
allowed (frees m) l = ltb 0 (l.messages m)
allowed (calls c u) l = ltb 0 (l.consumers c)
allowed (reads m r) l = ltb 0 (l.messages m)
allowed (answers i b) l = true
allowed (sends b) l = true

abbrev pub after_events : List Event → Library → Library
after_events [] l = l
after_events (e ∷ es) l = after_events es (after_event e l)

abbrev pub all_allowed : List Event → Library → Bool
all_allowed [] l = true
all_allowed (e ∷ es) l = let rest = all_allowed es (after_event e l) in allowed e l && rest

pub after_events-append :
    (es es' : List Event) (l : Library)
    → after_events (es ++ es') l ≡ after_events es' (after_events es l)
after_events-append [] es' l = refl
after_events-append (e ∷ es) es' l = after_events-append es es' (after_event e l)

pub all_allowed-append :
    (es es' : List Event) (l : Library)
    → all_allowed es l ≡ true
    → all_allowed es' (after_events es l) ≡ true
    → all_allowed (es ++ es') l ≡ true
all_allowed-append [] es' l h h' = h'
all_allowed-append (e ∷ es) es' l h h' =
    let rest = all_allowed-append es es' (after_event e l) (ground arith) h' in ground arith

-- What a session and its handlers hold.
abbrev pub present : ℕ → List ℕ
present x = if x == 0 then [] else x ∷ []

abbrev pub message_of : Tmq → List ℕ
message_of s = present s.message.pointer

abbrev pub consumer_of : Tmq → List ℕ
consumer_of s = if s.finished then [] else present s.consumer

abbrev pub held : Job → List ℕ
held (keeps req_id m) = m ∷ []
held _ = []

abbrev pub pending : List Job → List ℕ
pending [] = []
pending (j ∷ js) = held j ++ pending js

-- A library fits a session, with `rest` for the messages that handlers hold.
abbrev pub Fits : Library → Tmq → (ℕ → ℕ) → Type 0
Fits l s rest =
    ((m : ℕ) → l.messages m ≡ count m (message_of s) + rest m)
    × ((c : ℕ) → l.consumers c ≡ count c (consumer_of s))
