-- ===== src/ConnectPool/Runs.antt =====
-- The pool of tools/connectpool/pool.go at concrete inputs.
use taosadapter.Common.{
  ℕ, ◌≡◌, ◌≢◌, refl, ◌++◌, [], ◌∷◌, some, true, false, arith, inl, length, count, ◌≤◌, ◌<◌, ◌⊎◌,
}
use taosadapter.Common.Int.{pos}
use taosadapter.ConnectPool.{
  Pool, fail, closed, blocked, done, built, new_pool, put, put_live, expire, release, empty_pool,
  fill, take_conn, get_slow,
}
use taosadapter.ConnectPool.Requests.{empty, holds, find, deliver, pending}
use taosadapter.ConnectPool.System.{Sys, after}
use taosadapter.ConnectPool.System.{
  Reach as SysReach, here as sys_here, next as sys_next, start as sys_start,
}
use taosadapter.ConnectPool.System.Step.{takes, queues, puts}
use taosadapter.ConnectPool.Callers.{Callers, misses, enters, goes, Step, Reach, here, next, start}
use taosadapter.ConnectPool.Lost.{release_loses}
use taosadapter.ConnectPool.Invariant.{Live, open_count}
use taosadapter.ConnectPool.Invariant.Reached.{Reach-counts, new_pool_builds}
use taosadapter.ConnectPool.Conserved.{placed}
use taosadapter.ConnectPool.Conserved.History.{Reach-placed}
use taosadapter.ConnectPool.Service.{put_serves_oldest, put_keeps_open, expire-ne-blocked}

-- A pool for two connections that was made with one.
abbrev two_place : Pool
two_place = record {
  conns = 7 ∷ [];
  conns_closed = false;
  has_factory = true;
  has_close = true;
  max_active = 2;
  opening_conns = pos 1;
  max_wait_len = 0;
  conn_reqs = [];
  released = false;
  channels = [];
  next_req = 0;
  destroyed = [];
}

two_place_lem : new_pool true true 2 0 (some 7 ∷ []) ≡ built two_place
unfolding new_pool fill empty_pool
two_place_lem = refl

taken : SysReach (sys_start two_place) (after (sys_start two_place) (take_conn two_place))
taken = sys_next sys_here (takes (sys_start two_place))

seven : ◌≢◌ {A = ℕ} 7 0
seven e = omega arith

Reach-counts_example :
    ((after (sys_start two_place) (take_conn two_place)).pool.opening_conns
      ≡ pos (open_count (after (sys_start two_place) (take_conn two_place))))
    × (pending (after (sys_start two_place) (take_conn two_place)).pool.channels
        ≡ (after (sys_start two_place) (take_conn two_place)).pool.conn_reqs)
    × (((after (sys_start two_place) (take_conn two_place)).pool.released ≡ true)
        ⊎ ((open_count (after (sys_start two_place) (take_conn two_place)) ≤ 2)
            × ((after (sys_start two_place) (take_conn two_place)).lost ≡ [])))
Reach-counts_example =
    Reach-counts true true 2 0 (some 7 ∷ []) two_place
      (after (sys_start two_place) (take_conn two_place)) (seven, tt) two_place_lem taken

Reach-placed_example :
    count 7 (after (sys_start two_place) (take_conn two_place)).created
    ≡ placed 7 (after (sys_start two_place) (take_conn two_place))
Reach-placed_example =
    Reach-placed true true 2 0 (some 7 ∷ []) two_place
      (after (sys_start two_place) (take_conn two_place)) 7 (seven, tt) two_place_lem taken

new_pool_builds_example :
    (q : Pool) × (new_pool true true 2 0 (some 7 ∷ []) ≡ built q) × (length q.conns ≡ 1)
new_pool_builds_example = new_pool_builds 2 0 (some 7 ∷ []) (omega arith) (omega arith) (seven, tt)

-- One connection, which a caller holds while another call waits.
abbrev busy : Sys
busy = record {
  pool = record two_place {
    conns = [];
    max_active = 1;
    conn_reqs = 0 ∷ [];
    channels = (0, empty) ∷ [];
    next_req = 1;
  };
  lent = 7 ∷ [];
  lost = [];
  created = 7 ∷ [];
}

busy-Live : Live busy
busy-Live = record {
  not_released = refl;
  has_factory = refl;
  has_close = refl;
  conns_open = refl;
  none_lost = refl;
  counted = refl;
  within = omega arith;
  no_nil = refl;
  queue = refl;
  keys = (omega arith, omega arith);
}

put_serves_oldest_example :
    let q = (put 7 busy.pool).0 in
    (q ≡ record busy.pool { conn_reqs = []; channels = deliver 0 7 busy.pool.channels })
    × (find 0 q.channels ≡ some (holds 7))
put_serves_oldest_example = put_serves_oldest busy 7 0 [] busy-Live seven refl

expire-ne-blocked_example : (expire 0 busy.pool).1 ≢ blocked
unfolding find
expire-ne-blocked_example = expire-ne-blocked busy 0 (inl busy-Live) (λ e. cc)

abbrev idle : Sys
idle = record busy { pool = record two_place { conns = []; max_active = 1 } }

idle-Live : Live idle
idle-Live = record {
  not_released = refl;
  has_factory = refl;
  has_close = refl;
  conns_open = refl;
  none_lost = refl;
  counted = refl;
  within = omega arith;
  no_nil = refl;
  queue = refl;
  keys = omega arith;
}

put_keeps_open_example :
    put 7 idle.pool ≡ (record idle.pool { conns = idle.pool.conns ++ (7 ∷ []) }, done)
put_keeps_open_example = put_keeps_open idle [] 7 [] idle-Live seven refl refl

-- A pool of one connection: a caller takes it, another finds none and waits, and the first puts it
-- back into the channel of the second.
abbrev one_place : Pool
one_place = record two_place { max_active = 1 }

one_place_lem : new_pool true true 1 0 (some 7 ∷ []) ≡ built one_place
unfolding new_pool fill empty_pool
one_place_lem = refl

abbrev served : Callers
served = record {
  sys = record busy {
    pool = record busy.pool { conn_reqs = []; channels = (0, holds 7) ∷ [] };
    lent = [];
  };
  missed = 0;
}

abbrev lent_out : Callers
lent_out = record { sys = record idle { pool = record one_place { conns = [] } }; missed = 0 }

served_reached : Reach (start one_place) served
unfolding take_conn get_slow put put_live deliver
served_reached =
    let took : Step (start one_place) lent_out =
      goes (start one_place) (takes (sys_start one_place)) refl in
    let missing = record lent_out { missed = 1 } in
    let missed_one : Step lent_out missing = misses lent_out refl in
    let waiting = record lent_out { sys = busy } in
    let queued : Step missing waiting = enters missing 0 (queues lent_out.sys) refl refl in
    let back : Step waiting served = goes waiting (puts busy [] 7 [] seven refl) refl in
    next (next (next (next here took) missed_one) queued) back

release_loses_example :
    ((expire 0 (release served.sys.pool)).1 ≡ fail closed)
    × (x : Callers) × Reach served x
    × (x.sys.pool ≡ (expire 0 (release served.sys.pool)).0)
    × (x.sys.lost ≡ 7 ∷ [])
    × ((u : Sys)
        → SysReach x.sys u
        → (1 ≤ count 7 u.lost)
          × (count 7 u.pool.destroyed < count 7 u.created)
          × (u.pool.opening_conns ≢ pos 0))
unfolding find
release_loses_example =
    release_loses true true 1 0 (some 7 ∷ []) one_place served 0 7 (seven, tt) one_place_lem
      served_reached refl refl
