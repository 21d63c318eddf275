-- ===== src/ConnectPool/Invariant/Released.antt =====
-- `Release` of tools/connectpool/pool.go, and the sections of the calls that come after it.
use taosadapter.Common.{
  ℕ, ◌+◌, ◌≡◌, refl, ◌≢◌, ◌++◌, List, [], ◌∷◌, Option, none, some, arith, length, length-append,
}
use taosadapter.Common.Int.{pos}
use taosadapter.ConnectPool.{
  Pool, fail, closed, take_from, take_conn, get_slow, receive, receive_slot, expire, put,
  close_conn, forget_close, drain, do_release, shutting, release,
}
use taosadapter.ConnectPool.System.{Sys, after, abandoned, abandoned_slot}
use taosadapter.ConnectPool.Requests.{Slot, empty, holds, shut, find, mailed, drop_channel}
use taosadapter.ConnectPool.Requests.Keys.{drop_channel-KeysIn, shut_all-KeysIn}
use taosadapter.ConnectPool.Requests.Queue.{
  drop_served, drop_shut, drop_none, shut_all_queue, find_empty,
}
use taosadapter.ConnectPool.Invariant.{Live, Dead}

-- The loop of `doRelease` closes what is in the channel, and leaves the other fields.
drain_lem :
    (cs : List ℕ) (p : Pool) (n : ℕ)
    → p.opening_conns ≡ pos (length cs + n)
    → ((drain cs p).opening_conns ≡ pos n)
      × ((drain cs p).released ≡ p.released)
      × ((drain cs p).has_close ≡ p.has_close)
      × ((drain cs p).conn_reqs ≡ p.conn_reqs)
      × ((drain cs p).channels ≡ p.channels)
      × ((drain cs p).next_req ≡ p.next_req)
unfolding drain
drain_lem [] p n e = (ground arith, refl, refl, refl, refl, refl)
drain_lem (c ∷ rest) p n e = drain_lem rest _ n (ground arith)

pub release-Dead : (s : Sys) → Live s → Dead (record s { pool = release s.pool })
unfolding release do_release
release-Dead s v = ground (
  arith,
  shut_all_queue s.pool.conn_reqs 0 s.pool.next_req s.pool.channels v.keys v.queue,
  shut_all-KeysIn s.pool.conn_reqs 0 s.pool.next_req s.pool.channels v.keys,
  drain_lem s.pool.conns (shutting s.pool)
      (length s.lent + length (mailed s.pool.channels) + length s.lost) (ground arith),
)

pub take_conn-Dead : (s : Sys) → Dead s → Dead (after s (take_conn s.pool))
unfolding take_conn take_from
take_conn-Dead s v = ground arith

pub get_slow-Dead :
    (s : Sys) (made : Option ℕ) → Dead s → get_slow made s.pool ≡ (s.pool, fail closed)
unfolding get_slow
get_slow-Dead s made v = rw v.is_released

receive_slot-Dead :
    (s : Sys) (r : ℕ) (o : Option Slot)
    → find r s.pool.channels ≡ o
    → Dead s
    → Dead (after s (receive_slot r s.pool o))
unfolding receive_slot
receive_slot-Dead s r none e v = ground arith
receive_slot-Dead s r (some empty) e v = ground arith
receive_slot-Dead s r (some (holds c)) e v = ground (
  arith,
  drop_served r c 0 s.pool.next_req 0 s.pool.channels v.keys e,
  drop_channel-KeysIn r 0 s.pool.next_req s.pool.channels v.keys,
)
receive_slot-Dead s r (some shut) e v = ground (
  arith,
  drop_shut r 0 s.pool.next_req s.pool.channels v.keys e,
  drop_channel-KeysIn r 0 s.pool.next_req s.pool.channels v.keys,
)

pub receive-Dead : (s : Sys) (r : ℕ) → Dead s → Dead (after s (receive r s.pool))
unfolding receive
receive-Dead s r v = receive_slot-Dead s r (find r s.pool.channels) refl v

gives_up_slot :
    (s : Sys) (r : ℕ) (o : Option Slot)
    → find r s.pool.channels ≡ o
    → Dead s
    → Dead (record s {
      pool = record s.pool { channels = drop_channel r s.pool.channels };
      lost = abandoned_slot o ++ s.lost;
    })
gives_up_slot s r none e v = rw (drop_none r s.pool.channels e) (ground arith)
gives_up_slot s r (some empty) e v = ground (arith, find_empty r s.pool.channels e)
gives_up_slot s r (some (holds c)) e v = ground (
  arith,
  drop_served r c 0 s.pool.next_req 0 s.pool.channels v.keys e,
  drop_channel-KeysIn r 0 s.pool.next_req s.pool.channels v.keys,
)
gives_up_slot s r (some shut) e v = ground (
  arith,
  drop_shut r 0 s.pool.next_req s.pool.channels v.keys e,
  drop_channel-KeysIn r 0 s.pool.next_req s.pool.channels v.keys,
)

pub gives_up-Dead :
    (s : Sys) (r : ℕ)
    → Dead s
    → Dead (record s { pool = (expire r s.pool).0; lost = abandoned r s.pool ++ s.lost })
unfolding expire abandoned
gives_up-Dead s r v = ground (arith, gives_up_slot s r (find r s.pool.channels) refl v)

module _ (s : Sys) (c : ℕ) (front back : List ℕ) (nz : c ≢ 0)
    (e : s.lent ≡ front ++ (c ∷ back)) where
  pub close_conn-Dead :
      Dead s → Dead (record s { pool = (close_conn c s.pool).0; lent = front ++ back })
  unfolding close_conn
  close_conn-Dead v = ground (arith, length-append front (c ∷ back), length-append front back)

  pub put-Dead : Dead s → Dead (record s { pool = (put c s.pool).0; lent = front ++ back })
  unfolding put close_conn forget_close
  put-Dead v = ground (arith, length-append front (c ∷ back), length-append front back)

-- `Release` after the first does nothing.
pub release_again-Dead : (s : Sys) → Dead s → Dead (record s { pool = release s.pool })
unfolding release
release_again-Dead s v = ground arith
