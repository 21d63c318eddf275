-- ===== src/HandlerPool/Reached.antt =====
-- The states of db/async/handlerpool.go that its callers can reach.
use taosadapter.Common.{
  ℕ, ◌+◌, ◌<◌, ◌≡◌, ◌≢◌, refl, sym, ap, subst, ◌++◌, List, [], ◌∷◌, map, none, some, arith, true,
  inl, inr, length, length-append, count, count-append,
}
use taosadapter.ConnectPool.{Pool, built, new_pool, take_conn}
use taosadapter.ConnectPool.{receive as conn_receive}
use taosadapter.ConnectPool.Requests.{find, pending, mailed}
use taosadapter.ConnectPool.System.{Sys}
use taosadapter.ConnectPool.System.{
  takes as conn_takes, queues as conn_queues, receives as conn_receives, puts as conn_puts,
}
use taosadapter.ConnectPool.Callers.{Callers, Reach-Sys}
use taosadapter.ConnectPool.Callers.{
  Step as ConnStep, misses as conn_misses, enters, goes, Reach as ConnReach, here as conn_here,
  next as conn_next, start as conn_start,
}
use taosadapter.ConnectPool.Invariant.{Live}
use taosadapter.ConnectPool.Invariant.Reached.{AllMade, new_pool-Live, Reach-Inv}
use taosadapter.ConnectPool.Conserved.{placed}
use taosadapter.ConnectPool.Conserved.History.{Reach-placed}
use taosadapter.HandlerPool.{HandlerPool, send, new_handler_pool, get_idle, receive, put, hand_over}
use taosadapter.HandlerPool.System.{
  Calls, Step, takes, misses, queues, receives, puts, Reach, here, next, start,
}
use taosadapter.HandlerPool.Refines.{
  as_pool, as_sys, as_callers, full_pool, take_lem, queue_lem, miss_lem, receive_slot_lem,
  conn_put_lem, new_pool_lem, new_handler_pool_lem,
}

abbrev pub NonNil : List ℕ → Type 0
NonNil [] = Unit {0}
NonNil (h ∷ hs) = (h ≢ 0) × NonNil hs

AllMade-NonNil : (hs : List ℕ) → NonNil hs → AllMade (map some hs)
AllMade-NonNil [] nz = tt
AllMade-NonNil (h ∷ hs) nz = (nz.0, AllMade-NonNil hs nz.1)

count-NonNil : (hs : List ℕ) → NonNil hs → count 0 hs ≡ 0
count-NonNil [] nz = refl
count-NonNil (h ∷ hs) nz = ground (arith, nz.0, count-NonNil hs nz.1)

module _ (made : List ℕ) (some_made : 0 < length made) (nz : NonNil made) where
  abbrev from : Callers
  from = conn_start (as_pool (full_pool made))

  Live-reached : (s : Calls) → ConnReach from (as_callers made s) → Live (as_sys made s)
  Live-reached s r =
      elim (Reach-Inv
        (inl
          (new_pool-Live true true (length made) 0 (map some made) _ (AllMade-NonNil made nz)
            (new_pool_lem made some_made)).0)
        (Reach-Sys r)) [ inl v ↦ v | inr w ↦ absurd (cc (w.is_released)) ]

  placed_reached :
      (s : Calls) (a : ℕ)
      → ConnReach from (as_callers made s)
      → count a made ≡ placed a (as_sys made s)
  placed_reached s a r =
      Reach-placed true true (length made) 0 (map some made) _ (as_sys made s) a
        (AllMade-NonNil made nz) (new_pool_lem made some_made) (Reach-Sys r)

  lent-ne-nil :
      (s : Calls) (front : List ℕ) (h : ℕ) (back : List ℕ)
      → ConnReach from (as_callers made s)
      → s.lent ≡ front ++ (h ∷ back)
      → h ≢ 0
  lent-ne-nil s front h back r e z =
      ground (arith, placed_reached s 0 r, count-NonNil made nz, count-append 0 front (h ∷ back))

  moved :
      (s : Calls) {x y : Sys}
      → x ≡ y
      → ConnStep (as_callers made s) (record (as_callers made s) { sys = x })
      → ConnStep (as_callers made s) (record (as_callers made s) { sys = y })
  moved s e =
      subst (λ (x : Sys). ConnStep (as_callers made s) (record (as_callers made s) { sys = x })) e

  -- A step of the handlers' callers is a step of the connections' callers.
  Step-Reach :
      {s t : Calls}
      → Step s t
      → ConnReach from (as_callers made s)
      → ConnReach from (as_callers made t)
  unfolding take_conn get_idle conn_receive receive
  Step-Reach (takes s h e) r = conn_next r (
      moved s (take_lem made s h s.pool.handlers (Live-reached s r).no_nil e)
        (goes (as_callers made s) (conn_takes (as_sys made s)) refl))
  Step-Reach (misses s e) r =
      conn_next r (conn_misses (as_callers made s) (miss_lem s.pool s.pool.handlers e))
  Step-Reach (queues s m e) r = conn_next r (
      subst (λ (x : Sys). ConnStep (as_callers made s) (record { sys = x; missed = m }))
        (queue_lem made s m) (enters (as_callers made s) m (conn_queues (as_sys made s)) refl e))
  Step-Reach (receives s c) r = conn_next r (
      moved s (receive_slot_lem c made s (find c s.pool.channels))
        (goes (as_callers made s) (conn_receives (as_sys made s) c) refl))
  Step-Reach (puts s front h back q e f) r =
      let nonzero = lent-ne-nil s front h back r e in
      conn_next r (
        moved s
          (ap (λ (p : Pool). record (as_sys made s) { pool = p; lent = front ++ back })
            (conn_put_lem h s.pool q nonzero f))
          (goes (as_callers made s) (conn_puts (as_sys made s) front h back nonzero e) refl))

  Reach-ConnReach :
      {t : Calls} → Reach (start (full_pool made)) t → ConnReach from (as_callers made t)
  Reach-ConnReach here = conn_here
  Reach-ConnReach (next r st) = Step-Reach st (Reach-ConnReach r)

-- In every state that callers can reach from a new pool of at least one handler, none of them nil,
-- the pool and its callers are in a state that the callers of a connection pool, who take the lock
-- only after they found the channel empty, can reach: a pool that was made with as many
-- connections, has no limit on the calls that wait, and opened all its connections.
pub refines_connect_pool :
    (made : List ℕ) (p : HandlerPool) (t : Calls)
    → 0 < length made
    → NonNil made
    → new_handler_pool made ≡ some p
    → Reach (start p) t
    → (q : Pool) × (new_pool true true (length made) 0 (map some made) ≡ built q)
      × ConnReach (conn_start q) (as_callers made t)
refines_connect_pool made p t some_made nz e r =
    let same : full_pool made ≡ p = cc (e, new_handler_pool_lem made) in
    (
      as_pool (full_pool made),
      new_pool_lem made some_made,
      Reach-ConnReach made some_made nz
          (subst (λ (x : HandlerPool). Reach (start x) t) (sym same) r),
    )

-- In every state that callers can reach from a new pool of at least one handler, none of them nil:
-- each handler is idle, held by one caller, or on its way to one waiter, as often as it was made; `reqList` lists
-- the calls that wait and that nobody served; and `Put` of a handler that a caller holds returns,
-- since its send to the channel has room.
pub handlers_kept :
    (made : List ℕ) (p : HandlerPool) (t : Calls) (front : List ℕ) (h : ℕ) (back : List ℕ)
    → 0 < length made
    → NonNil made
    → new_handler_pool made ≡ some p
    → Reach (start p) t
    → ((a : ℕ)
        → count a made
          ≡ count a t.pool.handlers + count a t.lent + count a (mailed t.pool.channels))
      × (pending t.pool.channels ≡ t.pool.req_list)
      × (t.lent ≡ front ++ (h ∷ back) → put h t.pool ≢ none)
unfolding put send
handlers_kept made p t front h back some_made nz e r =
    let same : full_pool made ≡ p = cc (e, new_handler_pool_lem made) in
    let c =
      Reach-ConnReach made some_made nz
        (subst (λ (x : HandlerPool). Reach (start x) t) (sym same) r) in
    let v = Live-reached made some_made nz t c in
    (
      λ a. omega (arith, placed_reached made some_made nz t a c),
      v.queue,
      λ f.
          returns h t.pool t.pool.req_list
            (omega (arith, v.within, ap length f, length-append front (h ∷ back))),
    )
  where
    returns :
        (h : ℕ) (p : HandlerPool) (reqs : List ℕ)
        → length p.handlers < p.count
        → hand_over h p reqs ≢ none
    returns h p [] room = ground arith
    returns h p (r ∷ reqs) room = cc
