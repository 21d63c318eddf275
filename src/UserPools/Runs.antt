-- ===== src/UserPools/Runs.antt =====
-- Runs of the pools of db/commonpool/pool.go.
use taosadapter.Common.{ℕ, ◌≡◌, ◌↔◌, refl, true, false, [], ◌∷◌, Option, none, some, ◌==◌, arith}
use taosadapter.UserPools.{
  Text, Registry, empty_registry, get_connector_pool_safe, get_connection_pool, get_connection,
  release, store_new, verify_client_ip, any_contains, gets, Reach, begins, then_step,
}
use taosadapter.UserPools.Registered.{registered_while_open}
use taosadapter.UserPools.Granted.{get_connection-granted}

abbrev root : Text
root = 114 ∷ []

abbrev old_password : Text
old_password = 49 ∷ []

abbrev new_password : Text
new_password = 50 ∷ []

-- A pool for the old password, and then one for the new password.
abbrev first : Registry
first = (get_connector_pool_safe (some (7 ∷ [])) root old_password empty_registry).1

abbrev second : Registry
second = (get_connector_pool_safe (some (8 ∷ [])) root new_password first).1

second-Reach : Reach second
second-Reach =
    then_step (then_step begins (gets (some (7 ∷ [])) root old_password empty_registry))
      (gets (some (8 ∷ [])) root new_password first)

registered_while_open_example :
    ((second.pools 1).released ≡ false) ↔ (second.connection_map (second.pools 1).user ≡ some 1)
unfolding get_connector_pool_safe release store_new
registered_while_open_example = registered_while_open second-Reach 1 (omega arith)

-- The old pool is released and gone.
old_pool : ((second.pools 0).released ≡ true) × (second.connection_map root ≡ some 1)
unfolding get_connector_pool_safe release store_new
old_pool = (refl, refl)

-- The old password does not verify any more, and another address is not allowed.
verify_old :
    (verify_client_ip (λ net ip. net == ip) root old_password 8 second ≡ (false, false, true))
    × (verify_client_ip (λ net ip. net == ip) root new_password 7 second ≡ (true, false, true))
unfolding get_connector_pool_safe release store_new verify_client_ip
verify_old = (refl, refl)

abbrev after_get : Registry
after_get = (get_connection_pool none root new_password second).1

-- What `Get` of the pool answers.
abbrev lent : Option ℕ
lent = some 30

get_connection-granted_example :
    (((after_get.pools 1).user ≡ root)
      × ((after_get.pools 1).password ≡ new_password)
      × ((after_get.pools 1).released ≡ false)
      × (after_get.connection_map root ≡ some 1))
    × (lent ≡ some 30)
    × (any_contains (λ net ip. net == ip) (after_get.pools 1).ip_nets 8 ≡ true)
unfolding get_connector_pool_safe release store_new get_connection get_connection_pool
get_connection-granted_example =
    get_connection-granted (λ net ip. net == ip) none lent root new_password 8 second 1 30
      second-Reach refl
