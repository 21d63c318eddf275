-- ===== src/HandlerPool/Runs.antt =====
-- Runs of db/async/handlerpool.go: a pool of two handlers, at 16 and 32.
use taosadapter.Common.{
  ℕ, ◌+◌, ◌≡◌, ◌≢◌, refl, ◌++◌, List, [], ◌∷◌, none, some, true, arith, length, count,
}
use taosadapter.ConnectPool.{Pool, built, blocked, new_pool}
use taosadapter.ConnectPool.{receive as conn_receive}
use taosadapter.ConnectPool.Callers.{Callers, Reach as ConnReach, start as conn_start}
use taosadapter.ConnectPool.Requests.{pending}
use taosadapter.HandlerPool.{HandlerPool, get_idle, receive, put}
use taosadapter.HandlerPool.System.{Calls, takes, Reach, here, next, start}
use taosadapter.HandlerPool.Refines.{as_callers, full_pool, new_handler_pool_lem}
use taosadapter.HandlerPool.Reached.{refines_connect_pool, handlers_kept}
use taosadapter.HandlerPool.Waits.{waits_while_idle, get_waits_while_idle}

abbrev two : List ℕ
two = 16 ∷ 32 ∷ []

abbrev both : HandlerPool
both = full_pool two

-- A caller has taken the first.
abbrev one_lent : Calls
one_lent = record { pool = record both { handlers = 32 ∷ [] }; lent = 16 ∷ []; missed = 0 }

one_taken : Reach (start both) one_lent
unfolding get_idle
one_taken = next here (takes (start both) 16 refl)

refines_connect_pool_example :
    (q : Pool) × (new_pool true true 2 0 (some 16 ∷ some 32 ∷ []) ≡ built q)
    × ConnReach (conn_start q) (as_callers two one_lent)
refines_connect_pool_example =
    refines_connect_pool two both one_lent (omega arith) (omega arith, (omega arith, tt))
      (new_handler_pool_lem two) one_taken

handlers_kept_example :
    ((a : ℕ) → count a two ≡ count a (32 ∷ []) + count a (16 ∷ []) + count a [])
    × (pending [] ≡ one_lent.pool.req_list)
    × (one_lent.lent ≡ [] ++ (16 ∷ []) → put 16 one_lent.pool ≢ none)
handlers_kept_example =
    handlers_kept two both one_lent [] 16 [] (omega arith) (omega arith, (omega arith, tt))
      (new_handler_pool_lem two) one_taken

waits_while_idle_example :
    (t : Calls) × Reach (start both) t
    × (length t.pool.handlers ≡ 2)
    × (t.lent ≡ [])
    × (t.missed ≡ 0)
    × (t.pool.req_list ≡ 0 ∷ [])
    × ((receive 0 t.pool).1 ≡ none)
waits_while_idle_example = waits_while_idle two both (new_handler_pool_lem two)

get_waits_while_idle_example :
    (q : Pool) × (new_pool true true 2 0 (some 16 ∷ some 32 ∷ []) ≡ built q)
    × (t : Callers) × ConnReach (conn_start q) t
    × (length t.sys.pool.conns ≡ 2)
    × (t.sys.lent ≡ [])
    × (t.missed ≡ 0)
    × (t.sys.pool.conn_reqs ≡ 0 ∷ [])
    × ((conn_receive 0 t.sys.pool).1 ≡ blocked)
get_waits_while_idle_example =
    get_waits_while_idle two (omega arith) (omega arith, (omega arith, tt))
