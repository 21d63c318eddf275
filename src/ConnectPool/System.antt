-- ===== src/ConnectPool/System.antt =====
-- The pool of tools/connectpool/pool.go with its callers: every interleaving of their critical
-- sections is a sequence of steps.
use taosadapter.Common.{ℕ, ◌≡◌, ◌≢◌, false, ◌++◌, List, [], ◌∷◌, Option, none, some}
use taosadapter.ConnectPool.{
  Pool, Outcome, got, fail, waits, done, blocked, missed, take_conn, get_slow, receive, expire, put,
  close_conn, release,
}
use taosadapter.ConnectPool.Requests.{Slot, empty, holds, shut, find}

-- `lent` are the connections that callers hold, `lost` those that nobody holds any more although
-- they are open, and `created` all that the factory made.
pub record Sys : Type 0 where
  pub pool : Pool
  pub lent : List ℕ
  pub lost : List ℕ
  pub created : List ℕ

abbrev pub lend : Outcome → List ℕ → List ℕ
lend (got c) lent = c ∷ lent
lend (fail e) lent = lent
lend (waits r) lent = lent
lend done lent = lent
lend blocked lent = lent
lend missed lent = lent

abbrev pub after : Sys → Pool × Outcome → Sys
after s (p, o) = record s { pool = p; lent = lend o s.lent }

-- A caller whose wait ends after the release drops its channel, with what it holds.
abbrev pub abandoned_slot : Option Slot → List ℕ
abandoned_slot none = []
abandoned_slot (some empty) = []
abandoned_slot (some (holds c)) = c ∷ []
abandoned_slot (some shut) = []

unfoldable pub abandoned : ℕ → Pool → List ℕ
abandoned r p = abandoned_slot (find r p.channels)

-- A caller puts back and closes only what it holds, and the factory makes no nil.
pub data Step : Sys → Sys → Type 0 where
  takes : (s : Sys) → Step s (after s (take_conn s.pool))
  opens :
      (s : Sys) (c : ℕ)
      → c ≢ 0
      → (get_slow (some c) s.pool).1 ≡ got c
      → Step s (record s {
        pool = (get_slow (some c) s.pool).0;
        lent = c ∷ s.lent;
        created = c ∷ s.created;
      })
  queues : (s : Sys) → Step s (after s (get_slow none s.pool))
  receives : (s : Sys) (r : ℕ) → Step s (after s (receive r s.pool))
  expires : (s : Sys) (r : ℕ) → s.pool.released ≡ false → Step s (after s (expire r s.pool))
  gives_up :
      (s : Sys) (r : ℕ)
      → s.pool.released ≢ false
      → Step s (record s { pool = (expire r s.pool).0; lost = abandoned r s.pool ++ s.lost })
  puts :
      (s : Sys) (front : List ℕ) (c : ℕ) (back : List ℕ)
      → c ≢ 0
      → s.lent ≡ front ++ (c ∷ back)
      → Step s (record s { pool = (put c s.pool).0; lent = front ++ back })
  closes :
      (s : Sys) (front : List ℕ) (c : ℕ) (back : List ℕ)
      → c ≢ 0
      → s.lent ≡ front ++ (c ∷ back)
      → Step s (record s { pool = (close_conn c s.pool).0; lent = front ++ back })
  releases : (s : Sys) → Step s (record s { pool = release s.pool })

pub data Reach (s : Sys) : Sys → Type 0 where
  here : Reach s s
  next : {t u : Sys} → Reach s t → Step t u → Reach s u

-- The callers of a pool that was just made, with its first connections in it.
abbrev pub start : Pool → Sys
start p = record { pool = p; lent = []; lost = []; created = p.conns }
