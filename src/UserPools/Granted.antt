-- ===== src/UserPools/Granted.antt =====
-- To whom db/commonpool/pool.go gives a connection.
use taosadapter.Common.{
  ℕ, ◌≡◌, refl, sym, subst, ap, ◌∙◌, Bool, true, false, List, Option, none, some, ◌==◌,
  if◌then◌else◌, if_both, Bool-cases, inl, inr, arith,
}
use taosadapter.UserPools.{
  Text, Registry, verify_password, release, replaced, pool_safe, known_pool, store_new,
  get_connector_pool_safe, get_connection_pool, any_contains, verify_ip, connect_direct,
  get_connection, Reach,
}
use taosadapter.UserPools.Registered.{same_text-eq, same_text_refl, Registered, reached-Registered}

-- An answer is none, or a pool of the map that is open and of this user and password.
abbrev pub Granted : Text → Text → Option ℕ × Registry → Type 0
Granted user password (o, r) =
    (i : ℕ)
    → o ≡ some i
    → ((r.pools i).user ≡ user)
      × ((r.pools i).password ≡ password)
      × ((r.pools i).released ≡ false)
      × (r.connection_map user ≡ some i)

replaced-Granted :
    (opened : Option (List ℕ)) (user password : Text) (r r' : Registry)
    → Granted user password (replaced opened user password r r')
unfolding store_new
replaced-Granted none user password r r' i e = absurd (ground arith)
replaced-Granted (some nets) user password r r' i e =
    let c : i == r'.made ≡ true = ground arith in rw (c, same_text_refl user) (refl, refl, refl, e)

found-Granted :
    (user password : Text) (r : Registry) (i : ℕ)
    → Registered r
    → r.connection_map user ≡ some i
    → verify_password (r.pools i) password ≡ true
    → Granted user password (some i, r)
found-Granted user password r i (there, here) e v j f =
    let same : i ≡ j = ground arith in
    let (h, owner, live) = there user i e in
    subst
      (λ k.
        ((r.pools k).user ≡ user)
        × ((r.pools k).password ≡ password)
        × ((r.pools k).released ≡ false)
        × (r.connection_map user ≡ some k))
      same (owner, sym (same_text-eq password (r.pools i).password v), live, e)

pool_safe-Granted :
    (opened : Option (List ℕ)) (user password : Text) (r : Registry) (o : Option ℕ)
    → Registered r
    → r.connection_map user ≡ o
    → Granted user password (pool_safe opened user password r o)
pool_safe-Granted opened user password r none reg e = replaced-Granted opened user password r r
pool_safe-Granted opened user password r (some i) reg e =
    if_both (Granted user password) (verify_password (r.pools i) password) _ _
      (λ v. found-Granted user password r i reg e v)
      λ v. replaced-Granted opened user password r (release i r)

known_pool-Granted :
    (opened : Option (List ℕ)) (user password : Text) (r : Registry) (o : Option ℕ)
    → Registered r
    → r.connection_map user ≡ o
    → Granted user password (known_pool opened user password r o)
unfolding get_connector_pool_safe
known_pool-Granted opened user password r none reg e =
    pool_safe-Granted opened user password r (r.connection_map user) reg refl
known_pool-Granted opened user password r (some i) reg e =
    if_both (Granted user password) (verify_password (r.pools i) password) _ _
      (λ v. found-Granted user password r i reg e v)
      λ v. pool_safe-Granted opened user password r (r.connection_map user) reg refl

abbrev pool_number : Option (ℕ × ℕ) → ℕ
pool_number none = 0
pool_number (some (i, c)) = i

abbrev connection : Option (ℕ × ℕ) → ℕ
connection none = 0
connection (some (i, c)) = c

connect_direct-Granted :
    (contains : ℕ → ℕ → Bool) (user password : Text) (ip : ℕ) (got : Option ℕ)
    (x : Option ℕ × Registry) (i conn : ℕ)
    → Granted user password x
    → (connect_direct contains ip got x).0 ≡ some (i, conn)
    → (x.0 ≡ some i) × (got ≡ some conn) × (any_contains contains (x.1.pools i).ip_nets ip ≡ true)
connect_direct-Granted contains user password ip got (none, r) i conn granted e =
    absurd (ground arith)
connect_direct-Granted contains user password ip none (some j, r) i conn granted e =
    absurd (ground arith)
connect_direct-Granted contains user password ip (some c) (some j, r) i conn granted e =
    elim (Bool-cases (verify_ip contains (r.pools j) ip)) [
      | inl v ↦
          let e1 : some (j, c) ≡ some (i, conn) =
            ap (λ b. if b then some (j, c) else none) (sym v) ∙ e in
          let same : j ≡ i = ap pool_number e1 in
          (
            ap some same,
            ap some (ap connection e1),
            subst (λ k. any_contains contains (r.pools k).ip_nets ip ≡ true) same v,
          )
      | inr v ↦
          let e1 : none ≡ some (i, conn) = ap (λ b. if b then some (j, c) else none) (sym v) ∙ e in
          absurd (ground arith)
    ]

-- When `GetConnection` gives a client a connection, whatever happened to the pools before, it is one
-- that `Get` of a pool gave, the pool is the one that the map has for the client's user, it is not
-- released, it was made with just the user and the password that the client gives, and its whitelist
-- has a net with the client's address. It is assumed that no other call with the same key is under
-- way, and that the pools do not change in the call.
pub get_connection-granted :
    (contains : ℕ → ℕ → Bool) (opened : Option (List ℕ)) (got : Option ℕ) (user password : Text)
    (ip : ℕ) (r : Registry) (i conn : ℕ)
    → Reach r
    → (get_connection contains opened got user password ip r).0 ≡ some (i, conn)
    → (let r' = (get_connection_pool opened user password r).1 in
        (((r'.pools i).user ≡ user)
          × ((r'.pools i).password ≡ password)
          × ((r'.pools i).released ≡ false)
          × (r'.connection_map user ≡ some i))
        × (got ≡ some conn)
        × (any_contains contains (r'.pools i).ip_nets ip ≡ true))
unfolding get_connection get_connection_pool
get_connection-granted contains opened got user password ip r i conn reached e =
    let found = known_pool opened user password r (r.connection_map user) in
    let granted =
      known_pool-Granted opened user password r (r.connection_map user) (reached-Registered reached)
        refl in
    let (which, given, allowed) =
      connect_direct-Granted contains user password ip got found i conn granted e in
    (granted i which, given, allowed)
