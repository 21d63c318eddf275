-- ===== src/ConnectPool.antt =====
-- tools/connectpool/pool.go: the bounded pool of native connections.
-- Each function is one critical section of the code, or one receive from a channel, so that a
-- history of calls is a sequence of such steps. A connection is its pointer; 0 is nil.
-- A request channel has one place: `empty`, `holds` a connection, or `shut`.
pub mod Requests
pub mod System
pub mod Callers
pub mod Lost
pub mod Invariant
pub mod Conserved
pub mod Service
pub mod Runs
use taosadapter.Common.{
  ℕ, zero, suc, ◌+◌, ◌≡◌, Bool, true, false, not, ◌&&◌, ◌++◌, List, [], ◌∷◌, Option, none, some,
  ltb, leb, ◌==◌, if◌then◌else◌, length, contains,
}
use taosadapter.Common.Int.{ℤ, pos, negsuc, increment, decrement, reaches}
use Requests.{Slot, empty, holds, shut, find, deliver, drop_channel, erase, shut_all}

pub data Error : Type 0 where
  closed timeout exceeded_max_wait nil_conn factory_failed : Error
  bad_max_cap bad_factory bad_close : Error

pub record Pool : Type 0 where
  pub conns : List ℕ
  pub conns_closed : Bool
  pub has_factory : Bool
  pub has_close : Bool
  pub max_active : ℕ
  pub opening_conns : ℤ
  pub max_wait_len : ℕ
  pub conn_reqs : List ℕ
  pub released : Bool
  pub channels : List (ℕ × Slot)
  pub next_req : ℕ
  pub destroyed : List ℕ

-- What a section of a call gives: a connection, an error, a request to wait on, the end of a call
-- without a value, a receive that would block, or the `default` of a select.
pub data Outcome : Type 0 where
  got : ℕ → Outcome
  fail : Error → Outcome
  waits : ℕ → Outcome
  done blocked missed : Outcome

-- The pool that `NewConnectPool` builds before its loop, for a positive `MaxCap`.
unfoldable pub empty_pool : ℕ → ℕ → Pool
empty_pool max_cap max_wait = record {
  conns = [];
  conns_closed = false;
  has_factory = true;
  has_close = true;
  max_active = max_cap;
  opening_conns = pos 0;
  max_wait_len = max_wait;
  conn_reqs = [];
  released = false;
  channels = [];
  next_req = 0;
  destroyed = [];
}

-- `getConns`: the channel is there until the pool is released.
unfoldable get_conns : Pool → Bool
get_conns p = not p.released

-- `case wrapConn := <-conns` and `default` of `GetWithContext`.
unfoldable pub take_from : Pool → List ℕ → Pool × Outcome
take_from p [] = (p, if p.conns_closed then fail closed else missed)
take_from p (c ∷ rest) = (record p { conns = rest }, if c == 0 then fail closed else got c)

unfoldable pub take_conn : Pool → Pool × Outcome
unfolding take_from
take_conn p = take_from p p.conns

unfoldable pub enqueue : Pool → Pool × Outcome
enqueue p =
    if ltb 0 p.max_wait_len && leb p.max_wait_len (length p.conn_reqs)
    then (p, fail exceeded_max_wait)
    else (
      record p {
        conn_reqs = p.conn_reqs ++ (p.next_req ∷ []);
        channels = p.channels ++ ((p.next_req, empty) ∷ []);
        next_req = suc p.next_req;
      },
      waits p.next_req,
    )

-- `conn, err := c.factory()`: the argument is what the factory answers, `none` for its error.
open_conn : Option ℕ → Pool → Pool × Outcome
open_conn none p = (p, fail factory_failed)
open_conn (some c) p = (record p { opening_conns = increment p.opening_conns }, got c)

-- The section under the lock that follows `default`.
unfoldable pub get_slow : Option ℕ → Pool → Pool × Outcome
unfolding enqueue open_conn
get_slow made p =
    if p.released
    then (p, fail closed)
    else if reaches p.opening_conns p.max_active
    then enqueue p
    else if p.has_factory
    then open_conn made p
    else (p, fail closed)

-- `ret, ok := <-req`: the request ends with what the channel holds.
unfoldable pub receive_slot : ℕ → Pool → Option Slot → Pool × Outcome
receive_slot r p none = (p, blocked)
receive_slot r p (some empty) = (p, blocked)
receive_slot r p (some (holds c)) = (record p { channels = drop_channel r p.channels }, got c)
receive_slot r p (some shut) = (record p { channels = drop_channel r p.channels }, fail closed)

unfoldable pub receive : ℕ → Pool → Pool × Outcome
unfolding receive_slot
receive r p = receive_slot r p (find r p.channels)

-- `case <-ctx.Done()`: the request leaves the queue, or takes what was already sent to it.
pub expire : ℕ → Pool → Pool × Outcome
expire r p =
    if p.released
    then (record p { channels = drop_channel r p.channels }, fail closed)
    else if contains r p.conn_reqs
    then (
      record p { conn_reqs = erase r p.conn_reqs; channels = drop_channel r p.channels },
      fail timeout,
    )
    else receive r p

pub close_conn : ℕ → Pool → Pool × Outcome
close_conn c p =
    if c == 0
    then (p, fail nil_conn)
    else if p.has_close
    then (record p { opening_conns = decrement p.opening_conns; destroyed = c ∷ p.destroyed }, done)
    else (p, done)

-- `if c.openingConns == 0 { c.close = nil }`
forget_close : ℤ → Pool → Pool
forget_close (pos zero) p = record p { has_close = false }
forget_close _ p = p

unfoldable pub put_live : ℕ → Pool → List ℕ → Pool × Outcome
put_live c p (r ∷ rest) = (record p { conn_reqs = rest; channels = deliver r c p.channels }, done)
put_live c p [] =
    if ltb (length p.conns) p.max_active
    then (record p { conns = p.conns ++ (c ∷ []) }, done)
    else close_conn c p

-- `Put`: a closed pool closes the connection, a waiting request is served before the channel.
unfoldable pub put : ℕ → Pool → Pool × Outcome
unfolding close_conn forget_close put_live
put c p =
    if c == 0
    then (p, fail nil_conn)
    else if p.released
    then (let q = (close_conn c p).0 in forget_close q.opening_conns q, done)
    else put_live c p p.conn_reqs

-- `for conn := range c.conns { c.openingConns--; c.close(conn) }`
pub drain : List ℕ → Pool → Pool
drain [] p = p
drain (c ∷ rest) p =
    drain rest (record p { opening_conns = decrement p.opening_conns; destroyed = c ∷ p.destroyed })

-- `doRelease`; its `sync.Once` is the `released` test of the one caller.
do_release : Pool → Pool
do_release p = record (drain p.conns p) { has_factory = false; conns_closed = true; conns = [] }

-- `Release` up to `doRelease`: every queued request channel is closed.
abbrev pub shutting : Pool → Pool
shutting p = record p {
  released = true;
  channels = shut_all p.conn_reqs p.channels;
  conn_reqs = [];
}

pub release : Pool → Pool
unfolding do_release
release p = if p.released then p else do_release (shutting p)

-- `NewConnectPool`: `stuck` is the send to a full channel, which never returns.
pub data Built : Type 0 where
  built : Pool → Built
  refused : Error → Built
  released_with : Error → Pool → Built
  stuck : Built

-- One answer of the factory for each round of `i < poolConfig.InitialCap`.
unfoldable pub fill : List (Option ℕ) → Pool → Built
unfolding release
fill [] p = built p
fill (none ∷ made) p = released_with factory_failed (release p)
fill (some c ∷ made) p =
    let rest =
      fill made
        (record p { opening_conns = increment p.opening_conns; conns = p.conns ++ (c ∷ []) }) in
    if ltb (length p.conns) p.max_active then rest else stuck

-- Whether the configuration has a `Factory` and a `Close`, its `MaxCap` and its `MaxWait`, and the
-- answers of the factory.
unfoldable pub new_pool : Bool → Bool → ℕ → ℕ → List (Option ℕ) → Built
unfolding empty_pool fill
new_pool has_factory has_close max_cap max_wait made =
    let filled = fill made (empty_pool max_cap max_wait) in
    if max_cap == 0
    then refused bad_max_cap
    else if not has_factory
    then refused bad_factory
    else if not has_close
    then refused bad_close
    else filled
