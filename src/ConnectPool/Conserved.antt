-- ===== src/ConnectPool/Conserved.antt =====
-- No connection of tools/connectpool/pool.go is held twice, and none is closed twice.
pub mod History
use taosadapter.Common.{
  ℕ, ◌+◌, ◌≡◌, refl, ◌≢◌, ◌∙◌, ◌++◌, List, [], ◌∷◌, Option, none, some, true, false, arith, inl,
  inr, count, count-append, length, length-append, contains, Bool-cases,
}
use taosadapter.Common.Int.{decrement}
use taosadapter.ConnectPool.{
  Pool, take_from, take_conn, get_slow, got, receive_slot, receive, expire, close_conn,
  forget_close, put_live, put, drain, do_release, shutting, release,
}
use taosadapter.ConnectPool.System.{
  Sys, Step, Reach, here, next, start, after, abandoned, abandoned_slot,
}
use taosadapter.ConnectPool.System.Step.{
  takes, opens, queues, receives, expires, gives_up, puts, closes, releases,
}
use taosadapter.ConnectPool.Requests.{
  Slot, empty, holds, shut, find, mailed, pending, drop_channel, KeysIn,
}
use taosadapter.ConnectPool.Requests.Queue.{
  mailed-deliver, drop_served, drop_shut, drop_pending, drop_none, pending-append, shut_all_queue,
  find_empty,
}
use taosadapter.ConnectPool.Invariant.{Live, Dead, Inv}
use taosadapter.ConnectPool.Invariant.Reached.{Step-Inv}

-- Where the connections with the pointer `a` are.
abbrev pub placed : ℕ → Sys → ℕ
placed a s =
    count a s.pool.conns
    + count a s.lent
    + count a (mailed s.pool.channels)
    + count a s.lost
    + count a s.pool.destroyed

module _ (a : ℕ) where
  take_from-placed :
      (s : Sys) (cs : List ℕ)
      → s.pool.conns ≡ cs
      → contains 0 cs ≡ false
      → placed a (after s (take_from s.pool cs)) ≡ placed a s
  unfolding take_from
  take_from-placed s [] e z = ground arith
  take_from-placed s (c ∷ rest) e z = ground arith

  pub take_conn-placed : (s : Sys) → Inv s → placed a (after s (take_conn s.pool)) ≡ placed a s
  unfolding take_conn
  take_conn-placed s (inl v) = take_from-placed s s.pool.conns refl v.no_nil
  take_conn-placed s (inr v) = take_from-placed s s.pool.conns refl (rw v.conns_drained)

  pub get_slow-placed : (s : Sys) → placed a (after s (get_slow none s.pool)) ≡ placed a s
  unfolding get_slow
  get_slow-placed s = ground (arith, pending-append s.pool.next_req s.pool.channels)

  pub opens-placed :
      (s : Sys) (c : ℕ)
      → (get_slow (some c) s.pool).1 ≡ got c
      → placed a (record s {
        pool = (get_slow (some c) s.pool).0;
        lent = c ∷ s.lent;
        created = c ∷ s.created;
      })
        ≡ count a (c ∷ []) + placed a s
  unfolding get_slow
  opens-placed s c e = ground arith

  receive_slot-placed :
      (s : Sys) (r lo hi : ℕ) (o : Option Slot)
      → KeysIn lo hi s.pool.channels
      → find r s.pool.channels ≡ o
      → placed a (after s (receive_slot r s.pool o)) ≡ placed a s
  unfolding receive_slot
  receive_slot-placed s r lo hi none k e = refl
  receive_slot-placed s r lo hi (some empty) k e = refl
  receive_slot-placed s r lo hi (some (holds c)) k e =
      ground (arith, drop_served r c lo hi a s.pool.channels k e)
  receive_slot-placed s r lo hi (some shut) k e =
      ground (arith, drop_shut r lo hi s.pool.channels k e)

  pub receive-placed :
      (s : Sys) (r lo hi : ℕ)
      → KeysIn lo hi s.pool.channels
      → placed a (after s (receive r s.pool)) ≡ placed a s
  unfolding receive
  receive-placed s r lo hi k = receive_slot-placed s r lo hi (find r s.pool.channels) k refl

  pub expire-placed : (s : Sys) (r : ℕ) → Live s → placed a (after s (expire r s.pool)) ≡ placed a s
  unfolding expire
  expire-placed s r v = elim (Bool-cases (contains r s.pool.conn_reqs)) [
    | inl waiting ↦
        ground (arith, drop_pending r 0 s.pool.next_req s.pool.channels v.keys (rw v.queue waiting))
    | inr served ↦ ground (arith, receive-placed s r 0 s.pool.next_req v.keys)
  ]

  gives_up_slot-placed :
      (s : Sys) (r lo hi : ℕ) (o : Option Slot)
      → KeysIn lo hi s.pool.channels
      → pending s.pool.channels ≡ []
      → find r s.pool.channels ≡ o
      → count a (mailed (drop_channel r s.pool.channels)) + count a (abandoned_slot o ++ s.lost)
        ≡ count a (mailed s.pool.channels) + count a s.lost
  gives_up_slot-placed s r lo hi none k q e = rw (drop_none r s.pool.channels e)
  gives_up_slot-placed s r lo hi (some empty) k q e = ground (arith, find_empty r s.pool.channels e)
  gives_up_slot-placed s r lo hi (some (holds c)) k q e =
      ground (arith, drop_served r c lo hi a s.pool.channels k e)
  gives_up_slot-placed s r lo hi (some shut) k q e =
      ground (arith, drop_shut r lo hi s.pool.channels k e)

  pub gives_up-placed :
      (s : Sys) (r : ℕ)
      → Dead s
      → placed a (record s { pool = (expire r s.pool).0; lost = abandoned r s.pool ++ s.lost })
        ≡ placed a s
  unfolding expire abandoned
  gives_up-placed s r v = ground (
    arith,
    gives_up_slot-placed s r 0 s.pool.next_req (find r s.pool.channels) v.keys v.queue refl,
  )

  module _ (s : Sys) (c : ℕ) (front back : List ℕ) (nz : c ≢ 0)
      (e : s.lent ≡ front ++ (c ∷ back)) where
    pub close_conn-placed :
        s.pool.has_close ≡ true
        → placed a (record s { pool = (close_conn c s.pool).0; lent = front ++ back }) ≡ placed a s
    unfolding close_conn
    close_conn-placed h = ground (arith, count-append a front (c ∷ back), count-append a front back)

    put_live-placed :
        (rs : List ℕ)
        → s.pool.conn_reqs ≡ rs
        → Live s
        → placed a (record s { pool = (put_live c s.pool rs).0; lent = front ++ back }) ≡ placed a s
    unfolding put_live
    put_live-placed [] q v = ground (
      arith,
      count-append a front (c ∷ back),
      count-append a front back,
      count-append a s.pool.conns (c ∷ []),
      close_conn-placed v.has_close,
    )
    put_live-placed (r ∷ rest) q v = ground (
      arith,
      count-append a front (c ∷ back),
      count-append a front back,
      mailed-deliver r c rest 0 s.pool.next_req a s.pool.channels v.keys (v.queue ∙ q),
    )

    pub put-placed-Live :
        Live s → placed a (record s { pool = (put c s.pool).0; lent = front ++ back }) ≡ placed a s
    unfolding put
    put-placed-Live v = ground (arith, put_live-placed s.pool.conn_reqs refl v)

    -- A caller still holds the connection, so the close function was not dropped yet.
    pub has_close_of_lent : Dead s → s.pool.has_close ≡ true
    has_close_of_lent v = ground (arith, length-append front (c ∷ back))

    pub put-placed-Dead :
        Dead s → placed a (record s { pool = (put c s.pool).0; lent = front ++ back }) ≡ placed a s
    unfolding put forget_close close_conn
    put-placed-Dead v =
        ground
          (arith, has_close_of_lent v, count-append a front (c ∷ back), count-append a front back)
