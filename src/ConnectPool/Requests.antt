-- ===== src/ConnectPool/Requests.antt =====
-- The request channels of the pool: `make(chan connReq, 1)` for each `Get` that waits.
pub mod Keys
pub mod Queue
pub mod Shut
use taosadapter.Common.{ℕ, suc, ◌≤◌, List, [], ◌∷◌, Option, none, some, ◌==◌, if◌then◌else◌}

pub data Slot : Type 0 where
  empty : Slot
  holds : ℕ → Slot
  shut : Slot

unfoldable pub find : ℕ → List (ℕ × Slot) → Option Slot
find r [] = none
find r ((k, s) ∷ chs) = if k == r then some s else find r chs

-- The waiter's frame ends, and its channel with it.
pub drop_channel : ℕ → List (ℕ × Slot) → List (ℕ × Slot)
drop_channel r [] = []
drop_channel r ((k, s) ∷ chs) = if k == r then chs else (k, s) ∷ drop_channel r chs

-- `req <- connReq{idleConn: conn}`
unfoldable pub deliver : ℕ → ℕ → List (ℕ × Slot) → List (ℕ × Slot)
deliver r c [] = []
deliver r c ((k, s) ∷ chs) = if k == r then (k, holds c) ∷ chs else (k, s) ∷ deliver r c chs

-- `close(c.connReqs[i])` on every queued request: those are the empty channels of the queue.
pub shut_one : ℕ → List (ℕ × Slot) → List (ℕ × Slot)
shut_one r [] = []
shut_one r ((k, s) ∷ chs) = if k == r then (k, shut) ∷ chs else (k, s) ∷ shut_one r chs

pub shut_all : List ℕ → List (ℕ × Slot) → List (ℕ × Slot)
unfolding shut_one
shut_all [] chs = chs
shut_all (r ∷ rs) chs = shut_all rs (shut_one r chs)

-- `copy(c.connReqs[i:], c.connReqs[i+1:])` at the first match.
pub erase : ℕ → List ℕ → List ℕ
erase r [] = []
erase r (k ∷ ks) = if k == r then ks else k ∷ erase r ks

-- Two views of the channels: the requests nobody served, and the connections on their way.
abbrev pub pending : List (ℕ × Slot) → List ℕ
pending [] = []
pending ((k, empty) ∷ chs) = k ∷ pending chs
pending ((k, holds c) ∷ chs) = pending chs
pending ((k, shut) ∷ chs) = pending chs

abbrev pub mailed : List (ℕ × Slot) → List ℕ
mailed [] = []
mailed ((k, empty) ∷ chs) = mailed chs
mailed ((k, holds c) ∷ chs) = c ∷ mailed chs
mailed ((k, shut) ∷ chs) = mailed chs

-- The requests are numbered upwards from `lo`, and below `hi`.
abbrev pub KeysIn : ℕ → ℕ → List (ℕ × Slot) → Type 0
KeysIn lo hi [] = lo ≤ hi
KeysIn lo hi ((k, s) ∷ chs) = (lo ≤ k) × KeysIn (suc k) hi chs
