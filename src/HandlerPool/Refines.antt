-- ===== src/HandlerPool/Refines.antt =====
-- The handlers' pool of db/async/handlerpool.go as a connection pool of tools/connectpool/pool.go
-- that has opened all its connections, is never released, and lets any number of calls wait.
use taosadapter.Common.{
  ℕ, suc, ◌+◌, ◌≤◌, ◌<◌, ◌≡◌, ◌≢◌, refl, sym, ap, ◌∙◌, true, false, ◌++◌, append_assoc, append-nil,
  List, [], ◌∷◌, map, Option, none, some, arith, length, length-append, contains, leb, lt→ltb, ◌==◌,
}
use taosadapter.Common.Int.{ℤ, pos, increment}
use taosadapter.ConnectPool.{
  Pool, missed, built, new_pool, empty_pool, fill, take_from, get_slow, enqueue, put_live,
}
use taosadapter.ConnectPool.{put as conn_put, receive_slot as conn_receive_slot}
use taosadapter.ConnectPool.Requests.{Slot, empty, holds, shut}
use taosadapter.ConnectPool.System.{Sys, after}
use taosadapter.ConnectPool.Callers.{Callers}
use taosadapter.HandlerPool.{
  HandlerPool, send, send_all, new_handler_pool, queue_up, put, first_of, receive_slot, hand_over,
}
use taosadapter.HandlerPool.System.{lend, Calls}

-- A pool of handlers as a pool of connections.
abbrev pub as_pool : HandlerPool → Pool
as_pool p = record {
  conns = p.handlers;
  conns_closed = false;
  has_factory = true;
  has_close = true;
  max_active = p.count;
  opening_conns = pos p.count;
  max_wait_len = 0;
  conn_reqs = p.req_list;
  released = false;
  channels = p.channels;
  next_req = p.next_req;
  destroyed = [];
}

abbrev pub as_sys : List ℕ → Calls → Sys
as_sys made s = record { pool = as_pool s.pool; lent = s.lent; lost = []; created = made }

-- The callers of handlers as the callers of connections.
abbrev pub as_callers : List ℕ → Calls → Callers
as_callers made s = record { sys = as_sys made s; missed = s.missed }

-- A `Get` that finds no handler is one that finds the channel of connections empty.
pub miss_lem :
    (p : HandlerPool) (hs : List ℕ)
    → (first_of p hs).1 ≡ none
    → (take_from (as_pool p) hs).1 ≡ missed
unfolding take_from
miss_lem p [] e = refl
miss_lem p (h ∷ hs) e = cc

pub receive_slot_lem :
    (r : ℕ) (made : List ℕ) (s : Calls) (o : Option Slot)
    → after (as_sys made s) (conn_receive_slot r (as_pool s.pool) o)
      ≡ as_sys made (record s {
        pool = (receive_slot r s.pool o).0;
        lent = lend (receive_slot r s.pool o).1 s.lent;
      })
unfolding conn_receive_slot
receive_slot_lem r made s none = refl
receive_slot_lem r made s (some empty) = refl
receive_slot_lem r made s (some (holds h)) = refl
receive_slot_lem r made s (some shut) = refl

pub take_lem :
    (made : List ℕ) (s : Calls) (h : ℕ) (hs : List ℕ)
    → contains 0 hs ≡ false
    → (first_of s.pool hs).1 ≡ some h
    → after (as_sys made s) (take_from (as_pool s.pool) hs)
      ≡ as_sys made (record s { pool = (first_of s.pool hs).0; lent = h ∷ s.lent })
unfolding take_from
take_lem made s h [] n e = cc
take_lem made s h (x ∷ hs) n e = ground arith

pub queue_lem :
    (made : List ℕ) (s : Calls) (m : ℕ)
    → after (as_sys made s) (get_slow none (as_pool s.pool))
      ≡ as_sys made (record s { pool = (queue_up s.pool).0; missed = m })
unfolding get_slow enqueue queue_up
queue_lem made s m = let full : leb s.pool.count s.pool.count ≡ true = ground arith in rw full refl

put_lem :
    (h : ℕ) (p q : HandlerPool) (reqs : List ℕ)
    → hand_over h p reqs ≡ some q
    → (put_live h (as_pool p) reqs).0 ≡ as_pool q
unfolding put_live send
put_lem h p q [] e = ground arith
put_lem h p q (r ∷ reqs) e = ground arith

not_zero : (n : ℕ) → 0 < n → (n == 0) ≡ false
not_zero n h = ground arith

pub conn_put_lem :
    (h : ℕ) (p q : HandlerPool) → h ≢ 0 → put h p ≡ some q → (conn_put h (as_pool p)).0 ≡ as_pool q
unfolding conn_put put
conn_put_lem h p q nz e = rw (not_zero h (omega arith)) (put_lem h p q p.req_list e)

-- The first handlers.
sent : List ℕ → HandlerPool → HandlerPool
sent hs p = record p { handlers = p.handlers ++ hs }

send_lem :
    (h : ℕ) (p : HandlerPool) → length p.handlers < p.count → send h p ≡ some (sent (h ∷ []) p)
unfolding send sent
send_lem h p room = rw (lt→ltb (length p.handlers) p.count room) refl

send_all_lem :
    (hs : List ℕ) (p : HandlerPool)
    → length p.handlers + length hs ≤ p.count
    → send_all hs p ≡ some (sent hs p)
unfolding send_all sent
send_all_lem [] p room =
    ap (λ (xs : List ℕ). some (record p { handlers = xs })) (sym (append-nil p.handlers))
send_all_lem (h ∷ hs) p room =
    let grown = length-append p.handlers (h ∷ []) in
    rw (send_lem h p (omega arith), send_all)
      (send_all_lem hs (record p { handlers = p.handlers ++ (h ∷ []) }) (omega (arith, grown))
        ∙ ap (λ (xs : List ℕ). some (record p { handlers = xs }))
            (append_assoc p.handlers (h ∷ []) hs))

abbrev pub full_pool : List ℕ → HandlerPool
full_pool made = record {
  count = length made;
  handlers = made;
  req_list = [];
  channels = [];
  next_req = 0;
}

pub new_handler_pool_lem : (made : List ℕ) → new_handler_pool made ≡ some (full_pool made)
unfolding new_handler_pool sent
new_handler_pool_lem made = send_all_lem made _ (omega arith)

opened :
    (p : Pool) {z z' : ℤ} {xs xs' : List ℕ}
    → z ≡ z'
    → xs ≡ xs'
    → built (record p { opening_conns = z; conns = xs })
      ≡ built (record p { opening_conns = z'; conns = xs' })
opened p {z} {z'} {xs} {xs'} e f =
    ap (λ (y : ℤ). built (record p { opening_conns = y; conns = xs })) e
    ∙ ap (λ (ys : List ℕ). built (record p { opening_conns = z'; conns = ys })) f

fill_lem :
    (hs : List ℕ) (n : ℕ) (p : Pool)
    → p.opening_conns ≡ pos n
    → length p.conns + length hs ≤ p.max_active
    → fill (map some hs) p
      ≡ built (record p { opening_conns = pos (n + length hs); conns = p.conns ++ hs })
unfolding fill
fill_lem [] n p e room = opened p (e ∙ ap pos (omega arith)) (sym (append-nil p.conns))
fill_lem (h ∷ hs) n p e room =
    let grown = length-append p.conns (h ∷ []) in
    rw (lt→ltb (length p.conns) p.max_active (omega arith)) (
      fill_lem hs (suc n)
        (record p { opening_conns = increment p.opening_conns; conns = p.conns ++ (h ∷ []) })
        (ap increment e) (omega (arith, grown))
      ∙ opened p (ap pos (omega arith)) (append_assoc p.conns (h ∷ []) hs))

pub new_pool_lem :
    (made : List ℕ)
    → 0 < length made
    → new_pool true true (length made) 0 (map some made) ≡ built (as_pool (full_pool made))
unfolding new_pool empty_pool
new_pool_lem made some_made =
    let no : (length made == 0) ≡ false = not_zero (length made) some_made in
    rw no (
      fill_lem made 0 (empty_pool (length made) 0) refl (omega arith)
      ∙ opened (as_pool (full_pool made)) (ap pos (omega arith)) refl)
