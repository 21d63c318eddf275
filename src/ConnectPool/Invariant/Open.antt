-- ===== src/ConnectPool/Invariant/Open.antt =====
-- The sections of tools/connectpool/pool.go on a pool that is not released.
use taosadapter.Common.{
  ℕ, ◌≡◌, refl, ◌≢◌, ◌∙◌, ◌++◌, List, [], ◌∷◌, Option, none, some, arith, inl, inr, length-append,
  contains, contains-append, Bool-cases,
}
use taosadapter.ConnectPool.{
  got, take_from, take_conn, get_slow, receive, receive_slot, expire, put, put_live, close_conn,
}
use taosadapter.ConnectPool.System.{Sys, after}
use taosadapter.ConnectPool.Requests.{Slot, empty, holds, shut, find}
use taosadapter.ConnectPool.Requests.Keys.{KeysIn-append, drop_channel-KeysIn, deliver-KeysIn}
use taosadapter.ConnectPool.Requests.Queue.{
  pending-deliver, mailed-deliver, drop_served, drop_shut, drop_pending, pending-append,
}
use taosadapter.ConnectPool.Invariant.{Live}

take_from-Live :
    (s : Sys) (cs : List ℕ) → s.pool.conns ≡ cs → Live s → Live (after s (take_from s.pool cs))
unfolding take_from
take_from-Live s [] e v = ground arith
take_from-Live s (c ∷ rest) e v = ground arith

pub take_conn-Live : (s : Sys) → Live s → Live (after s (take_conn s.pool))
unfolding take_conn
take_conn-Live s v = take_from-Live s s.pool.conns refl v

pub queues-Live : (s : Sys) → Live s → Live (after s (get_slow none s.pool))
unfolding get_slow
queues-Live s v = ground (
  arith,
  pending-append s.pool.next_req s.pool.channels,
  KeysIn-append 0 s.pool.next_req empty s.pool.channels,
)

pub opens-Live :
    (s : Sys) (c : ℕ)
    → (get_slow (some c) s.pool).1 ≡ got c
    → Live s
    → Live (record s {
      pool = (get_slow (some c) s.pool).0;
      lent = c ∷ s.lent;
      created = c ∷ s.created;
    })
unfolding get_slow
opens-Live s c e v = ground arith

receive_slot-Live :
    (s : Sys) (r : ℕ) (o : Option Slot)
    → find r s.pool.channels ≡ o
    → Live s
    → Live (after s (receive_slot r s.pool o))
unfolding receive_slot
receive_slot-Live s r none e v = ground arith
receive_slot-Live s r (some empty) e v = ground arith
receive_slot-Live s r (some (holds c)) e v = ground (
  arith,
  drop_served r c 0 s.pool.next_req 0 s.pool.channels v.keys e,
  drop_channel-KeysIn r 0 s.pool.next_req s.pool.channels v.keys,
)
receive_slot-Live s r (some shut) e v = ground (
  arith,
  drop_shut r 0 s.pool.next_req s.pool.channels v.keys e,
  drop_channel-KeysIn r 0 s.pool.next_req s.pool.channels v.keys,
)

pub receive-Live : (s : Sys) (r : ℕ) → Live s → Live (after s (receive r s.pool))
unfolding receive
receive-Live s r v = receive_slot-Live s r (find r s.pool.channels) refl v

pub expire-Live : (s : Sys) (r : ℕ) → Live s → Live (after s (expire r s.pool))
unfolding expire
expire-Live s r v = elim (Bool-cases (contains r s.pool.conn_reqs)) [
  | inl waiting ↦ ground (
    arith,
    drop_pending r 0 s.pool.next_req s.pool.channels v.keys (rw v.queue waiting),
    drop_channel-KeysIn r 0 s.pool.next_req s.pool.channels v.keys,
  )
  | inr served ↦ ground (arith, receive-Live s r v)
]

put_live-Live :
    (s : Sys) (c : ℕ) (front back rs : List ℕ)
    → c ≢ 0
    → s.lent ≡ front ++ (c ∷ back)
    → s.pool.conn_reqs ≡ rs
    → Live s
    → Live (record s { pool = (put_live c s.pool rs).0; lent = front ++ back })
unfolding put_live
put_live-Live s c front back (r ∷ rest) nz e q v = ground (
  arith,
  length-append front (c ∷ back),
  length-append front back,
  pending-deliver r c rest 0 s.pool.next_req s.pool.channels v.keys (v.queue ∙ q),
  mailed-deliver r c rest 0 s.pool.next_req 0 s.pool.channels v.keys (v.queue ∙ q),
  deliver-KeysIn r c 0 s.pool.next_req s.pool.channels v.keys,
)
put_live-Live s c front back [] nz e q v = ground (
  arith,
  length-append front (c ∷ back),
  length-append front back,
  length-append s.pool.conns (c ∷ []),
  contains-append 0 c s.pool.conns v.no_nil nz,
)

pub put-Live :
    (s : Sys) (c : ℕ) (front back : List ℕ)
    → c ≢ 0
    → s.lent ≡ front ++ (c ∷ back)
    → Live s
    → Live (record s { pool = (put c s.pool).0; lent = front ++ back })
unfolding put
put-Live s c front back nz e v =
    ground (arith, put_live-Live s c front back s.pool.conn_reqs nz e refl v)

pub close_conn-Live :
    (s : Sys) (c : ℕ) (front back : List ℕ)
    → c ≢ 0
    → s.lent ≡ front ++ (c ∷ back)
    → Live s
    → Live (record s { pool = (close_conn c s.pool).0; lent = front ++ back })
unfolding close_conn
close_conn-Live s c front back nz e v =
    ground (arith, length-append front (c ∷ back), length-append front back)
