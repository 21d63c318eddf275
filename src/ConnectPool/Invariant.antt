-- ===== src/ConnectPool/Invariant.antt =====
-- What holds in every state of the pool of tools/connectpool/pool.go, before and after its release.
pub mod Open
pub mod Released
pub mod Bound
pub mod Reached
use taosadapter.Common.{ℕ, ◌+◌, ◌≤◌, ◌≡◌, ◌⊎◌, true, false, List, [], length, contains}
use taosadapter.Common.Int.{pos}
use taosadapter.ConnectPool.System.{Sys}
use taosadapter.ConnectPool.Requests.{pending, mailed, KeysIn}

-- The connections that are open: in the channel, at callers, on their way to a waiter, or lost.
abbrev pub open_count : Sys → ℕ
open_count s = length s.pool.conns + length s.lent + length (mailed s.pool.channels) + length s.lost

pub record Live (s : Sys) : Type 0 where
  pub not_released : s.pool.released ≡ false
  pub has_factory : s.pool.has_factory ≡ true
  pub has_close : s.pool.has_close ≡ true
  pub conns_open : s.pool.conns_closed ≡ false
  pub none_lost : s.lost ≡ []
  pub counted : s.pool.opening_conns ≡ pos (open_count s)
  pub within : open_count s ≤ s.pool.max_active
  pub no_nil : contains 0 s.pool.conns ≡ false
  pub queue : pending s.pool.channels ≡ s.pool.conn_reqs
  pub keys : KeysIn 0 s.pool.next_req s.pool.channels

pub record Dead (s : Sys) : Type 0 where
  pub is_released : s.pool.released ≡ true
  pub conns_drained : s.pool.conns ≡ []
  pub conns_shut : s.pool.conns_closed ≡ true
  pub no_queue : s.pool.conn_reqs ≡ []
  pub can_close : (s.pool.has_close ≡ true) ⊎ (open_count s ≡ 0)
  pub counted : s.pool.opening_conns ≡ pos (open_count s)
  pub queue : pending s.pool.channels ≡ []
  pub keys : KeysIn 0 s.pool.next_req s.pool.channels

abbrev pub Inv : Sys → Type 0
Inv s = Live s ⊎ Dead s
