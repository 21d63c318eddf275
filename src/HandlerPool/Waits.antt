-- ===== src/HandlerPool/Waits.antt =====
-- Who waits in db/async/handlerpool.go, and for what.
use taosadapter.Common.{
  ℕ, ◌+◌, ◌≤◌, ◌<◌, ◌≡◌, refl, subst, ◌++◌, List, [], ◌∷◌, map, none, some, true, arith, length,
  length-append, lt→ltb,
}
use taosadapter.ConnectPool.{Pool, blocked, built, new_pool, receive_slot}
use taosadapter.ConnectPool.{receive as conn_receive}
use taosadapter.ConnectPool.Callers.{Callers, Reach as ConnReach, start as conn_start}
use taosadapter.ConnectPool.Requests.{empty, find}
use taosadapter.HandlerPool.{HandlerPool, send, new_handler_pool, get_idle, queue_up, receive, put}
use taosadapter.HandlerPool.System.{Calls, takes, misses, queues, puts, Reach, here, next, start}
use taosadapter.HandlerPool.Refines.{as_callers, full_pool, new_handler_pool_lem}
use taosadapter.HandlerPool.Reached.{NonNil, refines_connect_pool}

module _ (made : List ℕ) where
  -- Before any call waits.
  abbrev quiet : List ℕ → List ℕ → ℕ → Calls
  quiet handlers lent missed = record {
    pool = record (full_pool made) { handlers = handlers };
    lent = lent;
    missed = missed;
  }

  take_all :
      (hs lent : List ℕ)
      → Reach (start (full_pool made)) (quiet hs lent 0)
      → (lent' : List ℕ) × (length lent' ≡ length hs + length lent)
        × Reach (start (full_pool made)) (quiet [] lent' 0)
  unfolding get_idle
  take_all [] lent r = (lent, omega arith, r)
  take_all (h ∷ hs) lent r =
      let (lent', e, r') = take_all hs (h ∷ lent) (next r (takes (quiet (h ∷ hs) lent 0) h refl)) in
      (lent', omega (arith, e), r')

  put_all :
      (lent hs : List ℕ)
      → length hs + length lent ≤ length made
      → Reach (start (full_pool made)) (quiet hs lent 1)
      → (hs' : List ℕ) × (length hs' ≡ length hs + length lent)
        × Reach (start (full_pool made)) (quiet hs' [] 1)
  unfolding put send
  put_all [] hs room r = (hs, omega arith, r)
  put_all (h ∷ lent) hs room r =
      let grown = length-append hs (h ∷ []) in
      let has_room : put h (quiet hs (h ∷ lent) 1).pool
          ≡ some (quiet (hs ++ (h ∷ [])) lent 1).pool =
        rw (lt→ltb (length hs) (length made) (omega arith)) refl in
      let (hs', e, r') =
        put_all lent (hs ++ (h ∷ [])) (omega (arith, grown))
          (next r (puts (quiet hs (h ∷ lent) 1) [] h lent _ refl has_room)) in
      (hs', omega (arith, e, grown), r')

  -- The state at the end: every handler idle, and one call in the queue.
  abbrev stalled : List ℕ → Calls
  stalled hs = record {
    pool = record (full_pool made) {
      handlers = hs;
      req_list = 0 ∷ [];
      channels = (0, empty) ∷ [];
      next_req = 1;
    };
    lent = [];
    missed = 0;
  }

  stall : (hs : List ℕ) × (length hs ≡ length made) × Reach (start (full_pool made)) (stalled hs)
  unfolding get_idle queue_up
  stall =
      let (lent, l, r) = take_all made [] here in
      let (hs, k, r') =
        put_all lent [] (omega (arith, l)) (next r (misses (quiet [] lent 0) refl)) in
      (hs, omega (arith, k, l), next r' (queues (quiet hs [] 1) 0 refl))

-- A wakeup that is lost: callers of a new pool can reach a state in which every handler is idle and
-- nobody holds one, while a call that had found none waits on its channel, which is empty, and is
-- the only one that `reqList` knows.
pub waits_while_idle :
    (made : List ℕ) (p : HandlerPool)
    → new_handler_pool made ≡ some p
    → (t : Calls) × Reach (start p) t
      × (length t.pool.handlers ≡ length made)
      × (t.lent ≡ [])
      × (t.missed ≡ 0)
      × (t.pool.req_list ≡ 0 ∷ [])
      × ((receive 0 t.pool).1 ≡ none)
unfolding receive find
waits_while_idle made p e =
    let same : full_pool made ≡ p = cc (e, new_handler_pool_lem made) in
    let (hs, l, r) = stall made in
    (
      stalled made hs,
      subst (λ (x : HandlerPool). Reach (start x) (stalled made hs)) same r,
      l,
      refl,
      refl,
      refl,
      refl,
    )

-- A wakeup that is lost in tools/connectpool/pool.go, for a pool that lets any number of calls wait
-- and whose factory made all its connections, at least one and none of them nil: callers, who take
-- the lock only after they found the channel empty, can reach a state in which every connection is
-- idle, nobody holds one and no other call is on its way to the lock, while a call waits for one,
-- and its receive blocks.
pub get_waits_while_idle :
    (made : List ℕ)
    → 0 < length made
    → NonNil made
    → (q : Pool) × (new_pool true true (length made) 0 (map some made) ≡ built q)
      × (t : Callers) × ConnReach (conn_start q) t
      × (length t.sys.pool.conns ≡ length made)
      × (t.sys.lent ≡ [])
      × (t.missed ≡ 0)
      × (t.sys.pool.conn_reqs ≡ 0 ∷ [])
      × ((conn_receive 0 t.sys.pool).1 ≡ blocked)
unfolding conn_receive receive_slot find
get_waits_while_idle made some_made nz =
    let (hs, l, r) = stall made in
    let (q, e, c) =
      refines_connect_pool made (full_pool made) (stalled made hs) some_made nz
        (new_handler_pool_lem made) r in
    (q, e, as_callers made (stalled made hs), c, l, refl, refl, refl, refl)
