-- ===== src/ConnectPool/Callers.antt =====
-- The callers of `GetWithContext` in tools/connectpool/pool.go, one by one: a call takes the lock
-- only after it found the channel empty, and once. So every state that is reached here is one that
-- real callers reach.
use taosadapter.Common.{ℕ, suc, ◌≡◌, Bool, true, false}
use taosadapter.ConnectPool.{Pool, missed, take_conn}
use taosadapter.ConnectPool.System.{Sys}
use taosadapter.ConnectPool.System.{
  Step as SysStep, Reach as SysReach, here as sys_here, next as sys_next, start as sys_start,
}
use taosadapter.ConnectPool.System.Step.{
  takes, opens, queues, receives, expires, gives_up, puts, closes, releases,
}

-- `missed` counts the calls that found the channel empty and have not taken the lock yet.
pub record Callers : Type 0 where
  pub sys : Sys
  pub missed : ℕ

-- The section under the lock of `GetWithContext`.
abbrev after_miss : {s t : Sys} → SysStep s t → Bool
after_miss (takes s) = false
after_miss (opens s c nz e) = true
after_miss (queues s) = true
after_miss (receives s r) = false
after_miss (expires s r e) = false
after_miss (gives_up s r ne) = false
after_miss (puts s front c back nz e) = false
after_miss (closes s front c back nz e) = false
after_miss (releases s) = false

pub data Step : Callers → Callers → Type 0 where
  misses :
      (w : Callers)
      → (take_conn w.sys.pool).1 ≡ missed
      → Step w (record w { missed = suc w.missed })
  enters :
      (w : Callers) (m : ℕ) {t : Sys} (st : SysStep w.sys t)
      → after_miss st ≡ true
      → w.missed ≡ suc m
      → Step w (record { sys = t; missed = m })
  goes :
      (w : Callers) {t : Sys} (st : SysStep w.sys t)
      → after_miss st ≡ false
      → Step w (record w { sys = t })

pub data Reach (v : Callers) : Callers → Type 0 where
  here : Reach v v
  next : {w x : Callers} → Reach v w → Step w x → Reach v x

abbrev pub start : Pool → Callers
start p = record { sys = sys_start p; missed = 0 }

Step-Sys : {u : Sys} {w x : Callers} → Step w x → SysReach u w.sys → SysReach u x.sys
Step-Sys (misses w e) r = r
Step-Sys (enters w m st a e) r = sys_next r st
Step-Sys (goes w st a) r = sys_next r st

-- What these callers reach, the callers of System reach.
pub Reach-Sys : {v w : Callers} → Reach v w → SysReach v.sys w.sys
Reach-Sys here = sys_here
Reach-Sys (next r st) = Step-Sys st (Reach-Sys r)
