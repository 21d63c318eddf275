-- ===== src/ConnectPool/Service.antt =====
-- Who gets a connection that comes back, and how a wait ends, in tools/connectpool/pool.go.
use taosadapter.Common.{
  ℕ, ◌≡◌, refl, ◌≢◌, ◌∙◌, ◌++◌, List, [], ◌∷◌, Option, none, some, arith, inl, inr, length-append,
  Option-cases,
}
use taosadapter.ConnectPool.{Pool, blocked, done, receive, receive_slot, expire, put, put_live}
use taosadapter.ConnectPool.System.{Sys}
use taosadapter.ConnectPool.Requests.{Slot, empty, holds, shut, find, deliver}
use taosadapter.ConnectPool.Requests.Queue.{find-deliver, find_empty}
use taosadapter.ConnectPool.Invariant.{Live, Inv}

-- `Put` of a connection on a pool that is not released, where calls wait: the oldest of them gets
-- the connection in its channel, and no other field than the queue and the channels changes.
pub put_serves_oldest :
    (s : Sys) (c r : ℕ) (rest : List ℕ)
    → Live s
    → c ≢ 0
    → s.pool.conn_reqs ≡ r ∷ rest
    → let q = (put c s.pool).0 in
      (q ≡ record s.pool { conn_reqs = rest; channels = deliver r c s.pool.channels })
      × (find r q.channels ≡ some (holds c))
unfolding put put_live
put_serves_oldest s c r rest v nz e =
    ground (arith, find-deliver r c rest 0 s.pool.next_req s.pool.channels v.keys (v.queue ∙ e))

-- Before the release, and where no call waits, `Put` of a connection that a caller holds appends
-- it to the channel: the channel has room for it, so the branch that closes it is not taken.
pub put_keeps_open :
    (s : Sys) (front : List ℕ) (c : ℕ) (back : List ℕ)
    → Live s
    → c ≢ 0
    → s.lent ≡ front ++ (c ∷ back)
    → s.pool.conn_reqs ≡ []
    → put c s.pool ≡ (record s.pool { conns = s.pool.conns ++ (c ∷ []) }, done)
unfolding put put_live
put_keeps_open s front c back v nz e q = ground (arith, length-append front (c ∷ back))

receive_slot-ne-blocked :
    (r : ℕ) (p : Pool) (o : Option Slot)
    → o ≢ none
    → o ≢ some empty
    → (receive_slot r p o).1 ≢ blocked
unfolding receive_slot
receive_slot-ne-blocked r p none h k e = h refl
receive_slot-ne-blocked r p (some empty) h k e = k refl
receive_slot-ne-blocked r p (some (holds c)) h k e = cc
receive_slot-ne-blocked r p (some shut) h k e = cc

-- In a state that has the invariant of the pool, a call that has a channel and whose wait ends by its
-- deadline returns at once: it does not block, also where it is no longer in the queue and receives
-- from its channel without a deadline.
pub expire-ne-blocked :
    (s : Sys) (r : ℕ) → Inv s → find r s.pool.channels ≢ none → (expire r s.pool).1 ≢ blocked
unfolding expire receive
expire-ne-blocked s r (inl v) waits = elim (Option-cases (find r s.pool.channels)) [
  | inl e ↦ absurd (waits e)
  | inr (x, e) ↦ λ b. ground (
    arith,
    find_empty r s.pool.channels,
    receive_slot-ne-blocked r s.pool (find r s.pool.channels) waits,
  )
]
expire-ne-blocked s r (inr v) waits = ground arith
