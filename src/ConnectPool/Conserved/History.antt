-- ===== src/ConnectPool/Conserved/History.antt =====
-- Where the connections of tools/connectpool/pool.go are after any history of calls.
use taosadapter.Common.{
  ℕ, ◌+◌, ◌≡◌, refl, Bool, List, [], ◌∷◌, Option, none, some, arith, inl, inr, count,
}
use taosadapter.Common.Int.{decrement}
use taosadapter.ConnectPool.{
  Pool, built, drain, do_release, shutting, release, empty_pool, fill, new_pool,
}
use taosadapter.ConnectPool.System.{Sys, Step, Reach, here, next, start}
use taosadapter.ConnectPool.System.Step.{
  takes, opens, queues, receives, expires, gives_up, puts, closes, releases,
}
use taosadapter.ConnectPool.Requests.Queue.{shut_all_queue}
use taosadapter.ConnectPool.Invariant.{Inv}
use taosadapter.ConnectPool.Invariant.Reached.{Reach-Inv, AllMade, new_pool-Live, grow}
use taosadapter.ConnectPool.Conserved.{
  placed, take_conn-placed, get_slow-placed, opens-placed, receive-placed, expire-placed,
  gives_up-placed, close_conn-placed, put-placed-Live, has_close_of_lent, put-placed-Dead,
}

module _ (a : ℕ) where
  drain-placed :
      (cs : List ℕ) (p : Pool)
      → (count a (drain cs p).destroyed ≡ count a cs + count a p.destroyed)
        × ((drain cs p).channels ≡ p.channels)
  unfolding drain
  drain-placed [] p = (omega arith, refl)
  drain-placed (c ∷ rest) p = ground (
    arith,
    drain-placed rest
        (record p { opening_conns = decrement p.opening_conns; destroyed = c ∷ p.destroyed }),
  )

  release-placed : (s : Sys) → Inv s → placed a (record s { pool = release s.pool }) ≡ placed a s
  unfolding release do_release
  release-placed s (inl v) = ground (
    arith,
    shut_all_queue s.pool.conn_reqs 0 s.pool.next_req s.pool.channels v.keys v.queue,
    drain-placed s.pool.conns (shutting s.pool),
  )
  release-placed s (inr v) = ground arith

  -- `NewConnectPool` closes nothing of what it returns.
  fill_fresh :
      (made : List (Option ℕ)) (p q : Pool)
      → fill made p ≡ built q
      → (q.destroyed ≡ p.destroyed) × (q.channels ≡ p.channels)
  unfolding fill
  fill_fresh [] p q e = ground arith
  fill_fresh (none ∷ made) p q e = cc
  fill_fresh (some c ∷ made) p q e = ground (arith, fill_fresh made (grow c p) q)

  new_pool_fresh :
      (with_factory with_close : Bool) (max_cap max_wait : ℕ) (made : List (Option ℕ)) (q : Pool)
      → new_pool with_factory with_close max_cap max_wait made ≡ built q
      → placed a (start q) ≡ count a q.conns
  unfolding new_pool empty_pool
  new_pool_fresh with_factory with_close max_cap max_wait made q e =
      ground (arith, fill_fresh made (empty_pool max_cap max_wait) q)

  -- What the factory made in one step.
  abbrev Kept : Sys → Sys → Type 0
  Kept s t = count a t.created + placed a s ≡ count a s.created + placed a t

  Step-Kept : {s t : Sys} → Step s t → Inv s → Kept s t
  Step-Kept (takes s) i = omega (arith, take_conn-placed a s i)
  Step-Kept (opens s c nz e) i = omega (arith, opens-placed a s c e)
  Step-Kept (queues s) i = omega (arith, get_slow-placed a s)
  Step-Kept (receives s r) (inl v) = omega (arith, receive-placed a s r 0 s.pool.next_req v.keys)
  Step-Kept (receives s r) (inr v) = omega (arith, receive-placed a s r 0 s.pool.next_req v.keys)
  Step-Kept (expires s r e) (inl v) = omega (arith, expire-placed a s r v)
  Step-Kept (expires s r e) (inr v) = cc (v.is_released)
  Step-Kept (gives_up s r ne) (inl v) = absurd (ne v.not_released)
  Step-Kept (gives_up s r ne) (inr v) = omega (arith, gives_up-placed a s r v)
  Step-Kept (puts s front c back nz e) (inl v) =
      omega (arith, put-placed-Live a s c front back nz e v)
  Step-Kept (puts s front c back nz e) (inr v) =
      omega (arith, put-placed-Dead a s c front back nz e v)
  Step-Kept (closes s front c back nz e) (inl v) =
      omega (arith, close_conn-placed a s c front back nz e v.has_close)
  Step-Kept (closes s front c back nz e) (inr v) =
      omega
        (arith, close_conn-placed a s c front back nz e (has_close_of_lent a s c front back nz e v))
  Step-Kept (releases s) i = omega (arith, release-placed s i)

  Reach-Kept : {s t : Sys} → Inv s → Reach s t → Kept s t
  Reach-Kept v here = refl
  Reach-Kept v (next r st) = omega (arith, Reach-Kept v r, Step-Kept st (Reach-Inv v r))

-- In every state that calls can reach from a new pool whose factory made its first connections,
-- each connection that the factory made is in exactly one place, as often as it was made: idle,
-- held by a caller, on its way to a waiter, lost, or closed. So none is held twice or closed twice.
pub Reach-placed :
    (with_factory with_close : Bool) (max_cap max_wait : ℕ) (made : List (Option ℕ)) (q : Pool)
    (t : Sys) (a : ℕ)
    → AllMade made
    → new_pool with_factory with_close max_cap max_wait made ≡ built q
    → Reach (start q) t
    → count a t.created ≡ placed a t
Reach-placed with_factory with_close max_cap max_wait made q t a ok e r = omega (
  arith,
  Reach-Kept a (inl (new_pool-Live with_factory with_close max_cap max_wait made q ok e).0) r,
  new_pool_fresh a with_factory with_close max_cap max_wait made q e,
)
