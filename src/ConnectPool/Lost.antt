-- ===== src/ConnectPool/Lost.antt =====
-- A connection that nobody holds any more, in tools/connectpool/pool.go: a `Put` serves a call,
-- `Release` follows, and then the wait of the call ends.
use taosadapter.Common.{
  ℕ, ◌≤◌, ◌<◌, ◌≡◌, ◌≢◌, refl, ap, ◌∙◌, false, true, Bool, List, [], ◌∷◌, ◌++◌, Option, some, arith,
  inl, inr, length, count, count-append,
}
use taosadapter.Common.Int.{pos}
use taosadapter.ConnectPool.{
  Pool, built, new_pool, fail, closed, do_release, drain, shutting, release, expire,
}
use taosadapter.ConnectPool.Requests.{holds, find}
use taosadapter.ConnectPool.Requests.Shut.{find-shut_all}
use taosadapter.ConnectPool.System.{Sys, abandoned}
use taosadapter.ConnectPool.System.{
  Step as SysStep, Reach as SysReach, here as sys_here, next as sys_next,
}
use taosadapter.ConnectPool.System.Step.{
  takes, opens, queues, receives, expires, gives_up, puts, closes, releases,
}
use taosadapter.ConnectPool.Invariant.{Live, Inv}
use taosadapter.ConnectPool.Invariant.Reached.{AllMade, new_pool-Live, Reach-Inv}
use taosadapter.ConnectPool.Conserved.{placed}
use taosadapter.ConnectPool.Conserved.History.{Reach-placed}
use taosadapter.ConnectPool.Callers.{Callers, Step, goes, Reach, here, next, start, Reach-Sys}

drain_fields :
    (cs : List ℕ) (p : Pool)
    → ((drain cs p).channels ≡ p.channels) × ((drain cs p).released ≡ p.released)
unfolding drain
drain_fields [] p = (refl, refl)
drain_fields (c ∷ cs) p = drain_fields cs _

-- After the release, the call that was served still has its connection in its channel.
release_lem :
    (s : Sys) (r c : ℕ)
    → Live s
    → find r s.pool.channels ≡ some (holds c)
    → ((release s.pool).released ≡ true) × (find r (release s.pool).channels ≡ some (holds c))
unfolding release do_release
release_lem s r c v e = ground (
  arith,
  drain_fields s.pool.conns (shutting s.pool),
  find-shut_all r c s.pool.conn_reqs 0 s.pool.next_req s.pool.channels v.keys v.queue e,
)

expire_lem :
    (s : Sys) (r c : ℕ)
    → s.pool.released ≡ true
    → find r s.pool.channels ≡ some (holds c)
    → ((expire r s.pool).1 ≡ fail closed) × (abandoned r s.pool ≡ c ∷ [])
unfolding expire abandoned
expire_lem s r c v e = ground arith

-- What is lost stays lost.
Step-lost : {s t : Sys} (c : ℕ) → SysStep s t → count c s.lost ≤ count c t.lost
Step-lost c (takes s) = omega arith
Step-lost c (opens s d nz e) = omega arith
Step-lost c (queues s) = omega arith
Step-lost c (receives s r) = omega arith
Step-lost c (expires s r e) = omega arith
Step-lost c (gives_up s r ne) = omega (arith, count-append c (abandoned r s.pool) s.lost)
Step-lost c (puts s front d back nz e) = omega arith
Step-lost c (closes s front d back nz e) = omega arith
Step-lost c (releases s) = omega arith

Reach-lost : {s t : Sys} (c : ℕ) → SysReach s t → count c s.lost ≤ count c t.lost
Reach-lost c sys_here = omega arith
Reach-lost c (sys_next r st) = omega (arith, Reach-lost c r, Step-lost c st)

count-le-length : (c : ℕ) (xs : List ℕ) → count c xs ≤ length xs
count-le-length c [] = omega arith
count-le-length c (x ∷ xs) = ground (arith, count-le-length c xs)

-- A lost connection is open, and counted, for ever.
lost_for_ever :
    (s u : Sys) (c : ℕ)
    → Inv s
    → ((t : Sys) → SysReach s t → count c t.created ≡ placed c t)
    → 1 ≤ count c s.lost
    → SysReach s u
    → (1 ≤ count c u.lost)
      × (count c u.pool.destroyed < count c u.created)
      × (u.pool.opening_conns ≢ pos 0)
lost_for_ever s u c v kept h r =
    let lost = Reach-lost c r in
    let many = count-le-length c u.lost in
    (
      omega arith,
      omega (arith, kept u r),
      elim (Reach-Inv v r) [
        | inl w ↦ ground (arith, w.counted)
        | inr w ↦ ground (arith, w.counted)
      ],
    )

followed : {s t u : Sys} → SysReach s t → SysReach t u → SysReach s u
followed r sys_here = r
followed r (sys_next r' st) = sys_next (followed r r') st

module _ (w : Callers) (r : ℕ) where
  abbrev released : Callers
  released = record w { sys = record w.sys { pool = release w.sys.pool } }

  abbrev gave_up : Callers
  gave_up = record w {
    sys = record w.sys {
      pool = (expire r released.sys.pool).0;
      lost = abandoned r released.sys.pool ++ w.sys.lost;
    };
  }

-- A connection is leaked by a release: from every state, before the release, that the callers of a
-- new pool can reach and in which the channel of a call that waits holds a connection, they can
-- reach one in which that call ended with `ErrClosed` and nobody has the connection; in every later
-- state it still is lost, not every connection with its pointer is closed, and `openingConns` is not
-- zero.
pub release_loses :
    (with_factory with_close : Bool) (max_cap max_wait : ℕ) (made : List (Option ℕ)) (q : Pool)
    (w : Callers) (r c : ℕ)
    → AllMade made
    → new_pool with_factory with_close max_cap max_wait made ≡ built q
    → Reach (start q) w
    → w.sys.pool.released ≡ false
    → find r w.sys.pool.channels ≡ some (holds c)
    → ((expire r (release w.sys.pool)).1 ≡ fail closed)
      × (x : Callers) × Reach w x
      × (x.sys.pool ≡ (expire r (release w.sys.pool)).0)
      × (x.sys.lost ≡ c ∷ [])
      × ((u : Sys)
          → SysReach x.sys u
          → (1 ≤ count c u.lost)
            × (count c u.pool.destroyed < count c u.created)
            × (u.pool.opening_conns ≢ pos 0))
release_loses with_factory with_close max_cap max_wait made q w r c ok e reached fresh f =
    let (live, cap) = new_pool-Live with_factory with_close max_cap max_wait made q ok e in
    elim (Reach-Inv (inl live) (Reach-Sys reached)) [
      | inr v ↦ absurd (cc (v.is_released))
      | inl v ↦
          let (shut_now, kept) = release_lem w.sys r c v f in
          let s = (released w r).sys in
          let (answer, mine) = expire_lem s r c shut_now kept in
          let first : Step w (released w r) = goes w (releases w.sys) refl in
          let second : Step (released w r) (gave_up w r) =
            goes (released w r) (gives_up s r (λ z. cc)) refl in
          let path : Reach w (gave_up w r) = next (next here first) second in
          let whole = Reach-Sys (next (next reached first) second) in
          let gone : abandoned r s.pool ++ w.sys.lost ≡ c ∷ [] =
            ap (λ (xs : List ℕ). xs ++ w.sys.lost) mine
            ∙ ap (λ (xs : List ℕ). c ∷ xs) (v.none_lost) in
          (
            answer,
            gave_up w r,
            path,
            refl,
            gone,
            λ u later.
                lost_for_ever (gave_up w r).sys u c (Reach-Inv (inl live) whole)
                  (λ t l.
                    Reach-placed with_factory with_close max_cap max_wait made q t c ok e
                      (followed whole l))
                  (ground (arith, gone)) later,
          )
    ]
