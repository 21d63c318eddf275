-- ===== src/HandlerPool/System.antt =====
-- The pool of db/async/handlerpool.go with its callers: every interleaving of their sections is a
-- sequence of steps.
use taosadapter.Common.{ℕ, suc, ◌≡◌, ◌++◌, List, [], ◌∷◌, Option, none, some}
use taosadapter.HandlerPool.{HandlerPool, get_idle, queue_up, receive, put}

-- `lent` are the handlers that callers hold; `missed` counts the calls of `Get` that found no
-- handler and have not taken the lock yet.
pub record Calls : Type 0 where
  pub pool : HandlerPool
  pub lent : List ℕ
  pub missed : ℕ

abbrev pub lend : Option ℕ → List ℕ → List ℕ
lend none lent = lent
lend (some handler) lent = handler ∷ lent

pub data Step : Calls → Calls → Type 0 where
  takes :
      (s : Calls) (handler : ℕ)
      → (get_idle s.pool).1 ≡ some handler
      → Step s (record s { pool = (get_idle s.pool).0; lent = handler ∷ s.lent })
  misses : (s : Calls) → (get_idle s.pool).1 ≡ none → Step s (record s { missed = suc s.missed })
  queues :
      (s : Calls) (m : ℕ)
      → s.missed ≡ suc m
      → Step s (record s { pool = (queue_up s.pool).0; missed = m })
  receives :
      (s : Calls) (r : ℕ)
      → Step s (record s { pool = (receive r s.pool).0; lent = lend (receive r s.pool).1 s.lent })
  puts :
      (s : Calls) (front : List ℕ) (handler : ℕ) (back : List ℕ) (q : HandlerPool)
      → s.lent ≡ front ++ (handler ∷ back)
      → put handler s.pool ≡ some q
      → Step s (record s { pool = q; lent = front ++ back })

pub data Reach (s : Calls) : Calls → Type 0 where
  here : Reach s s
  next : {t u : Calls} → Reach s t → Step t u → Reach s u

abbrev pub start : HandlerPool → Calls
start p = record { pool = p; lent = []; missed = 0 }
