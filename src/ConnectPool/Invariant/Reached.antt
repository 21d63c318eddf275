-- ===== src/ConnectPool/Invariant/Reached.antt =====
-- Every history of calls on a pool of tools/connectpool/pool.go, from `NewConnectPool` on.
use taosadapter.Common.{
  ℕ, ◌+◌, ◌≤◌, ◌<◌, ◌≡◌, refl, sym, ◌∙◌, ◌≢◌, ◌⊎◌, ◌++◌, List, [], ◌∷◌, Option, none, some, true,
  arith, inl, inr, length, length-append, contains-append, lt→ltb, Bool,
}
use taosadapter.Common.Int.{pos, increment}
use taosadapter.ConnectPool.{Pool, built, empty_pool, fill, new_pool}
use taosadapter.ConnectPool.System.{Sys, Step, Reach, here, next, start}
use taosadapter.ConnectPool.System.Step.{
  takes, opens, queues, receives, expires, gives_up, puts, closes, releases,
}
use taosadapter.ConnectPool.Invariant.{Live, Inv, open_count}
use taosadapter.ConnectPool.Invariant.Bound.{
  take_conn-max_active, get_slow-max_active, receive-max_active, expire-max_active, put-max_active,
  close_conn-max_active, release-max_active,
}
use taosadapter.ConnectPool.Requests.{pending}
use taosadapter.ConnectPool.Invariant.Open.{
  take_conn-Live, queues-Live, opens-Live, receive-Live, expire-Live, put-Live, close_conn-Live,
}
use taosadapter.ConnectPool.Invariant.Released.{
  release-Dead, release_again-Dead, take_conn-Dead, get_slow-Dead, receive-Dead, gives_up-Dead,
  close_conn-Dead, put-Dead,
}

-- Every section of every call keeps the count of open connections, the bound on it and the queue.
pub Step-Inv : {s t : Sys} → Step s t → Inv s → Inv t
Step-Inv (takes s) (inl v) = inl (take_conn-Live s v)
Step-Inv (takes s) (inr v) = inr (take_conn-Dead s v)
Step-Inv (opens s c nz e) (inl v) = inl (opens-Live s c e v)
Step-Inv (opens s c nz e) (inr v) = cc (get_slow-Dead s (some c) v)
Step-Inv (queues s) (inl v) = inl (queues-Live s v)
Step-Inv (queues s) (inr v) = inr (rw (get_slow-Dead s none v) v)
Step-Inv (receives s r) (inl v) = inl (receive-Live s r v)
Step-Inv (receives s r) (inr v) = inr (receive-Dead s r v)
Step-Inv (expires s r e) (inl v) = inl (expire-Live s r v)
Step-Inv (expires s r e) (inr v) = cc (v.is_released)
Step-Inv (gives_up s r ne) (inl v) = absurd (ne v.not_released)
Step-Inv (gives_up s r ne) (inr v) = inr (gives_up-Dead s r v)
Step-Inv (puts s front c back nz e) (inl v) = inl (put-Live s c front back nz e v)
Step-Inv (puts s front c back nz e) (inr v) = inr (put-Dead s c front back nz e v)
Step-Inv (closes s front c back nz e) (inl v) = inl (close_conn-Live s c front back nz e v)
Step-Inv (closes s front c back nz e) (inr v) = inr (close_conn-Dead s c front back nz e v)
Step-Inv (releases s) (inl v) = inr (release-Dead s v)
Step-Inv (releases s) (inr v) = inr (release_again-Dead s v)

pub Reach-Inv : {s t : Sys} → Inv s → Reach s t → Inv t
Reach-Inv v here = v
Reach-Inv v (next r st) = Step-Inv st (Reach-Inv v r)

-- The factory made a connection in each round, and never nil.
abbrev pub AllMade : List (Option ℕ) → Type 0
AllMade [] = Unit {0}
AllMade (none ∷ made) = ⊥
AllMade (some c ∷ made) = (c ≢ 0) × AllMade made

-- One more round of the loop of `NewConnectPool`.
abbrev pub grow : ℕ → Pool → Pool
grow c p = record p { opening_conns = increment p.opening_conns; conns = p.conns ++ (c ∷ []) }

grow-Live :
    (c : ℕ) (p : Pool)
    → c ≢ 0
    → length p.conns < p.max_active
    → p.channels ≡ []
    → Live (start p)
    → Live (start (grow c p))
grow-Live c p nz room quiet v =
    ground (arith, length-append p.conns (c ∷ []), contains-append 0 c p.conns v.no_nil nz)

fill-Live :
    (made : List (Option ℕ)) (p q : Pool)
    → AllMade made
    → p.channels ≡ []
    → Live (start p)
    → fill made p ≡ built q
    → Live (start q) × (q.max_active ≡ p.max_active)
unfolding fill
fill-Live [] p q ok quiet v e = ground arith
fill-Live (none ∷ made) p q ok quiet v e = absurd ok
fill-Live (some c ∷ made) p q ok quiet v e =
    ground (arith, grow-Live c p ok.0, fill-Live made (grow c p) q ok.1 quiet)

pub new_pool-Live :
    (with_factory with_close : Bool) (max_cap max_wait : ℕ) (made : List (Option ℕ)) (q : Pool)
    → AllMade made
    → new_pool with_factory with_close max_cap max_wait made ≡ built q
    → Live (start q) × (q.max_active ≡ max_cap)
unfolding new_pool empty_pool
new_pool-Live with_factory with_close max_cap max_wait made q ok e =
    ground (arith, fill-Live made (empty_pool max_cap max_wait) q ok refl (ground arith))

fill_builds :
    (made : List (Option ℕ)) (p : Pool)
    → AllMade made
    → length p.conns + length made ≤ p.max_active
    → (q : Pool) × (fill made p ≡ built q) × (length q.conns ≡ length p.conns + length made)
unfolding fill
fill_builds [] p ok room = (p, refl, omega arith)
fill_builds (none ∷ made) p ok room = absurd ok
fill_builds (some c ∷ made) p ok room =
    let grown = length-append p.conns (c ∷ []) in
    let (q, e, l) = fill_builds made (grow c p) ok.1 (omega (arith, grown)) in
    (q, rw (lt→ltb (length p.conns) p.max_active (omega arith)) e, omega (arith, grown))

-- `NewConnectPool` with a positive `MaxCap`, a `Close` function, and a `Factory` that makes a connection in each of at
-- most `MaxCap` rounds, returns a pool whose channel holds one connection for each round.
pub new_pool_builds :
    (max_cap max_wait : ℕ) (made : List (Option ℕ))
    → 0 < max_cap
    → length made ≤ max_cap
    → AllMade made
    → (q : Pool) × (new_pool true true max_cap max_wait made ≡ built q)
      × (length q.conns ≡ length made)
unfolding new_pool empty_pool
new_pool_builds max_cap max_wait made h room ok =
    let (q, e, l) = fill_builds made (empty_pool max_cap max_wait) ok (omega arith) in
    (q, ground arith, omega arith)

Step-max_active : {s t : Sys} → Step s t → t.pool.max_active ≡ s.pool.max_active
Step-max_active (takes s) = take_conn-max_active s.pool
Step-max_active (opens s c nz e) = get_slow-max_active (some c) s.pool
Step-max_active (queues s) = get_slow-max_active none s.pool
Step-max_active (receives s r) = receive-max_active r s.pool
Step-max_active (expires s r e) = expire-max_active r s.pool
Step-max_active (gives_up s r ne) = expire-max_active r s.pool
Step-max_active (puts s front c back nz e) = put-max_active c s.pool
Step-max_active (closes s front c back nz e) = close_conn-max_active c s.pool
Step-max_active (releases s) = release-max_active s.pool

Reach-max_active : {s t : Sys} → Reach s t → t.pool.max_active ≡ s.pool.max_active
Reach-max_active here = refl
Reach-max_active (next r st) = Step-max_active st ∙ Reach-max_active r

-- In every state that calls can reach from a new pool whose factory made its first connections,
-- `openingConns` is the number of connections that are idle, held by callers, on their way to a
-- waiter or lost, `connReqs` lists the waiters that nobody served, oldest first, and before the
-- release there are at most `MaxCap` open connections and none is lost.
pub Reach-counts :
    (with_factory with_close : Bool) (max_cap max_wait : ℕ) (made : List (Option ℕ)) (q : Pool)
    (t : Sys)
    → AllMade made
    → new_pool with_factory with_close max_cap max_wait made ≡ built q
    → Reach (start q) t
    → (t.pool.opening_conns ≡ pos (open_count t))
      × (pending t.pool.channels ≡ t.pool.conn_reqs)
      × ((t.pool.released ≡ true) ⊎ ((open_count t ≤ max_cap) × (t.lost ≡ [])))
Reach-counts with_factory with_close max_cap max_wait made q t ok e r =
    let (v, cap) = new_pool-Live with_factory with_close max_cap max_wait made q ok e in
    let same = Reach-max_active r in
    elim (Reach-Inv (inl v) r) [
      | inl w ↦ (w.counted, w.queue, inr (omega arith, w.none_lost))
      | inr w ↦ (w.counted, w.queue ∙ sym w.no_queue, inl w.is_released)
    ]
