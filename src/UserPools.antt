-- ===== src/UserPools.antt =====
-- db/commonpool/pool.go: the connection pools of the users. A pool is the number under which it was
-- made; a net of its whitelist and a client's address are numbers too.
pub mod Registered
pub mod Granted
pub mod Runs
use taosadapter.Common.{
  ℕ, suc, ◌≡◌, Bool, true, false, ◌&&◌, ◌||◌, List, [], ◌∷◌, Option, none, some, ◌==◌,
  if◌then◌else◌,
}

abbrev pub Text : Type 0
Text = List ℕ

-- `==` on strings.
abbrev pub same_text : Text → Text → Bool
same_text [] [] = true
same_text [] (y ∷ ys) = false
same_text (x ∷ xs) [] = false
same_text (x ∷ xs) (y ∷ ys) = let rest = same_text xs ys in x == y && rest

-- `ConnectorPool`; `released` is set by its `once`.
pub record ConnectorPool : Type 0 where
  pub user : Text
  pub password : Text
  pub ip_nets : List ℕ
  pub released : Bool

-- The pools that were made, and `connectionMap`.
pub record Registry : Type 0 where
  pub made : ℕ
  pub pools : ℕ → ConnectorPool
  pub connection_map : Text → Option ℕ

abbrev pub empty_registry : Registry
empty_registry = record {
  made = 0;
  pools = λ i. record { user = []; password = []; ip_nets = []; released = true };
  connection_map = λ u. none;
}

abbrev pub verify_password : ConnectorPool → Text → Bool
verify_password p password = same_text password p.password

abbrev pub is_pool : ℕ → Option ℕ → Bool
is_pool i none = false
is_pool i (some j) = j == i

-- `ConnectorPool.Release`, which is done once.
abbrev released_pool : ℕ → Registry → Registry
released_pool i r =
    let user = (r.pools i).user in
    let here = is_pool i (r.connection_map user) in
    record r {
      pools = λ j. if j == i then record (r.pools j) { released = true } else r.pools j;
      connection_map = λ u. if same_text u user && here then none else r.connection_map u;
    }

pub release : ℕ → Registry → Registry
release i r = if (r.pools i).released then r else released_pool i r

-- `NewConnectorPool` and `connectionMap.Store`; the library gives the whitelist.
pub store_new : Text → Text → List ℕ → Registry → Registry
store_new user password nets r = record {
  made = suc r.made;
  pools = λ j.
      if j == r.made
      then record { user = user; password = password; ip_nets = nets; released = false }
      else r.pools j;
  connection_map = λ u. if same_text u user then some r.made else r.connection_map u;
}

-- A new pool, or its error, after the old one was released.
abbrev pub replaced : Option (List ℕ) → Text → Text → Registry → Registry → Option ℕ × Registry
replaced none user password r r' = (none, r)
replaced (some nets) user password r r' = (some r'.made, store_new user password nets r')

abbrev pub pool_safe : Option (List ℕ) → Text → Text → Registry → Option ℕ → Option ℕ × Registry
pool_safe opened user password r none = replaced opened user password r r
pool_safe opened user password r (some i) =
    if verify_password (r.pools i) password
    then (some i, r)
    else replaced opened user password r (release i r)

-- `getConnectorPoolSafe`, which holds `connectionLocker`; `opened` is what `NewConnectorPool` answers.
pub get_connector_pool_safe : Option (List ℕ) → Text → Text → Registry → Option ℕ × Registry
get_connector_pool_safe opened user password r =
    pool_safe opened user password r (r.connection_map user)

abbrev pub known_pool : Option (List ℕ) → Text → Text → Registry → Option ℕ → Option ℕ × Registry
known_pool opened user password r none = get_connector_pool_safe opened user password r
known_pool opened user password r (some i) =
    if verify_password (r.pools i) password
    then (some i, r)
    else get_connector_pool_safe opened user password r

-- `getConnectionPool`, when no other call is under way with the same key.
pub get_connection_pool : Option (List ℕ) → Text → Text → Registry → Option ℕ × Registry
get_connection_pool opened user password r =
    known_pool opened user password r (r.connection_map user)

-- The watcher of a pool: a change of the whitelist, with its error as `none`. A change of the
-- password and a drop of the user release the pool.
pub whitelist_changed : Option (List ℕ) → ℕ → Registry → Registry
whitelist_changed none i r = release i r
whitelist_changed (some nets) i r = record r {
  pools = λ j. if j == i then record (r.pools j) { ip_nets = nets } else r.pools j;
}

-- `contains` is `net.IPNet.Contains`.
module _ (contains : ℕ → ℕ → Bool) where
  abbrev pub any_contains : List ℕ → ℕ → Bool
  any_contains [] ip = false
  any_contains (n ∷ nets) ip = let rest = any_contains nets ip in contains n ip || rest

  abbrev pub verify_ip : ConnectorPool → ℕ → Bool
  verify_ip p ip = any_contains p.ip_nets ip

  abbrev connect_direct : ℕ → Option ℕ → Option ℕ × Registry → Option (ℕ × ℕ) × Registry
  connect_direct ip got (none, r) = (none, r)
  connect_direct ip none (some i, r) = (none, r)
  connect_direct ip (some conn) (some i, r) =
      (if verify_ip (r.pools i) ip then some (i, conn) else none, r)

  -- `GetConnection`: the pool and the connection; `got` is what the pool's `Get` answers.
  pub get_connection :
      Option (List ℕ) → Option ℕ → Text → Text → ℕ → Registry → Option (ℕ × ℕ) × Registry
  get_connection opened got user password ip r =
      connect_direct ip got (get_connection_pool opened user password r)

  abbrev verified : Text → ℕ → Registry → Option ℕ → Bool × Bool × Bool
  verified password ip r none = (false, false, false)
  verified password ip r (some i) =
      let authed = verify_password (r.pools i) password in
      let valid = verify_ip (r.pools i) ip in (authed, authed && valid, true)

  -- `VerifyClientIP`: whether the client is authorised, whether its address is allowed, and whether
  -- there is a pool.
  pub verify_client_ip : Text → Text → ℕ → Registry → Bool × Bool × Bool
  verify_client_ip user password ip r = verified password ip r (r.connection_map user)

-- What happens to the pools, one critical section at a time.
pub data Step : Registry → Registry → Type 0 where
  gets :
      (opened : Option (List ℕ)) (user password : Text) (r : Registry)
      → Step r (get_connector_pool_safe opened user password r).1
  releases : (i : ℕ) (r : Registry) → Step r (release i r)
  changes :
      (opened : Option (List ℕ)) (i : ℕ) (r : Registry) → Step r (whitelist_changed opened i r)

pub data Reach : Registry → Type 0 where
  begins : Reach empty_registry
  then_step : {r r' : Registry} → Reach r → Step r r' → Reach r'
