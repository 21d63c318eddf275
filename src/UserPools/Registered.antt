-- ===== src/UserPools/Registered.antt =====
-- A pool of db/commonpool/pool.go is in the map as long as it is not released.
use taosadapter.Common.{
  ℕ, ◌≡◌, ◌<◌, ◌↔◌, refl, sym, ap, ◌∙◌, Bool, true, false, ◌&&◌, List, [], ◌∷◌, Option, none, some,
  ◌==◌, if◌then◌else◌, if_both, Bool-cases, inl, inr, arith,
}
use taosadapter.UserPools.{
  Text, same_text, ConnectorPool, Registry, verify_password, is_pool, release, replaced, pool_safe,
  store_new, get_connector_pool_safe, whitelist_changed, Step, gets, releases, changes, Reach,
  begins, then_step,
}

pub same_text-eq : (xs ys : Text) → same_text xs ys ≡ true → xs ≡ ys
same_text-eq [] [] h = refl
same_text-eq [] (y ∷ ys) h = absurd (ground arith)
same_text-eq (x ∷ xs) [] h = absurd (ground arith)
same_text-eq (x ∷ xs) (y ∷ ys) h =
    let rest = same_text-eq xs ys (ground arith) in
    let here : x ≡ y = ground arith in ap (λ z. z ∷ xs) here ∙ ap (λ (zs : Text). y ∷ zs) rest

pub same_text_refl : (xs : Text) → same_text xs xs ≡ true
same_text_refl [] = refl
same_text_refl (x ∷ xs) = let rest = same_text_refl xs in ground arith

-- The map has a pool under its user exactly when it was made and is not released.
abbrev pub Registered : Registry → Type 0
Registered r =
    ((u : Text) (i : ℕ)
      → r.connection_map u ≡ some i
      → (i < r.made) × ((r.pools i).user ≡ u) × ((r.pools i).released ≡ false))
    × ((i : ℕ)
        → i < r.made
        → (r.pools i).released ≡ false
        → r.connection_map (r.pools i).user ≡ some i)

store_new-Registered :
    (user password : Text) (nets : List ℕ) (r : Registry)
    → r.connection_map user ≡ none
    → Registered r
    → Registered (store_new user password nets r)
unfolding store_new
store_new-Registered user password nets r free (there, here) = (
  λ u i e. elim (Bool-cases (same_text u user)) [
    | inl s ↦
        let e1 : some r.made ≡ some i =
          ap (λ b. if b then some r.made else r.connection_map u) (sym s) ∙ e in
        let c : i == r.made ≡ true = ground arith in
        rw c (ground arith, sym (same_text-eq u user s), refl)
    | inr s ↦
        let e1 : r.connection_map u ≡ some i =
          ap (λ b. if b then some r.made else r.connection_map u) (sym s) ∙ e in
        let (h, owner, live) = there u i e1 in
        let c : i == r.made ≡ false = ground arith in rw c (omega arith, owner, live)
  ],
  λ i h live. elim (Bool-cases (i == r.made)) [
    | inl c ↦ rw (c, same_text_refl user) (ap some (ground arith))
    | inr c ↦
        let live1 : (r.pools i).released ≡ false =
          ap
            (λ b.
              (if b
                then record { user = user; password = password; ip_nets = nets; released = false }
                else r.pools i).released)
            (sym c)
          ∙ live in
        let found = here i (ground arith) live1 in
        rw c elim (Bool-cases (same_text (r.pools i).user user)) [
          | inl s ↦
              let twice : none ≡ some i =
                sym free ∙ ap r.connection_map (sym (same_text-eq _ user s)) ∙ found in
              absurd (ground arith)
          | inr s ↦ rw s found
        ]
  ],
)

is_pool-found : (i j : ℕ) (o : Option ℕ) → is_pool i o ≡ true → o ≡ some j → i ≡ j
is_pool-found i j none h e = absurd (ground arith)
is_pool-found i j (some k) h e = ground arith

abbrev gone : Bool → ConnectorPool → ConnectorPool
gone b p = if b then record p { released = true } else p

release-Registered : (i : ℕ) (r : Registry) → Registered r → Registered (release i r)
unfolding release
release-Registered i r (there, here) =
    if_both Registered (r.pools i).released _ _ (λ z. (there, here))
      λ z. (
        λ u j e.
            elim (Bool-cases
              (same_text u (r.pools i).user && is_pool i (r.connection_map (r.pools i).user))) [
                | inl s ↦
                    let e1 : none ≡ some j =
                      ap (λ b. if b then none else r.connection_map u) (sym s) ∙ e in
                    absurd (ground arith)
                | inr s ↦
                    let e1 : r.connection_map u ≡ some j =
                      ap (λ b. if b then none else r.connection_map u) (sym s) ∙ e in
                    let (h, owner, live) = there u j e1 in
                    elim (Bool-cases (j == i)) [
                      | inl c ↦
                          let same : i ≡ j = ground arith in
                          let owner1 : (r.pools i).user ≡ u =
                            ap (λ k. (r.pools k).user) same ∙ owner in
                          let t = ap (λ v. same_text u v) owner1 ∙ same_text_refl u in
                          let t1 : is_pool i (r.connection_map (r.pools i).user) ≡ true =
                            ap (λ v. is_pool i (r.connection_map v)) owner1
                            ∙ ap (is_pool i) e1
                            ∙ c in
                          absurd (ground arith)
                      | inr c ↦ rw c (h, owner, live)
                    ]
              ],
        λ j h live. elim (Bool-cases (j == i)) [
          | inl c ↦
              let dead = ap (λ b. (gone b (r.pools j)).released) (sym c) ∙ live in
              absurd (ground arith)
          | inr c ↦
              let live1 : (r.pools j).released ≡ false =
                ap (λ b. (gone b (r.pools j)).released) (sym c) ∙ live in
              let found = here j h live1 in
              rw c
                elim (Bool-cases (
                  same_text (r.pools j).user (r.pools i).user
                  && is_pool i (r.connection_map (r.pools i).user))) [
                    | inl s ↦
                        let owner = same_text-eq (r.pools j).user (r.pools i).user (ground arith) in
                        let other =
                          is_pool-found i j (r.connection_map (r.pools i).user) (ground arith)
                            (ap r.connection_map (sym owner) ∙ found) in
                        absurd (ground arith)
                    | inr s ↦ rw s found
                  ]
        ],
      )

-- After a release the map has nothing under the pool's user.
release-free :
    (i : ℕ) (u : Text) (r : Registry)
    → Registered r
    → r.connection_map u ≡ some i
    → (release i r).connection_map u ≡ none
unfolding release
release-free i u r (there, here) e =
    let (h, owner, live) = there u i e in
    let t = ap (λ v. same_text u v) owner ∙ same_text_refl u in
    let t1 : is_pool i (r.connection_map (r.pools i).user) ≡ true =
      ap (λ v. is_pool i (r.connection_map v)) owner ∙ ap (is_pool i) e ∙ ground arith in
    rw (live, t, t1) refl

replaced-Registered :
    (opened : Option (List ℕ)) (user password : Text) (r r' : Registry)
    → Registered r
    → Registered r'
    → r'.connection_map user ≡ none
    → Registered (replaced opened user password r r').1
replaced-Registered none user password r r' old new free = old
replaced-Registered (some nets) user password r r' old new free =
    store_new-Registered user password nets r' free new

pool_safe-Registered :
    (opened : Option (List ℕ)) (user password : Text) (r : Registry) (o : Option ℕ)
    → r.connection_map user ≡ o
    → Registered r
    → Registered (pool_safe opened user password r o).1
pool_safe-Registered opened user password r none e reg =
    replaced-Registered opened user password r r reg reg e
pool_safe-Registered opened user password r (some i) e reg =
    if_both (λ (x : Option ℕ × Registry). Registered x.1) (verify_password (r.pools i) password) _ _
      (λ v. reg)
      λ v.
        replaced-Registered opened user password r (release i r) reg (release-Registered i r reg)
          (release-free i user r reg e)

abbrev renewed : List ℕ → Bool → ConnectorPool → ConnectorPool
renewed nets b p = if b then record p { ip_nets = nets } else p

whitelist_changed-Registered :
    (opened : Option (List ℕ)) (i : ℕ) (r : Registry)
    → Registered r
    → Registered (whitelist_changed opened i r)
unfolding whitelist_changed
whitelist_changed-Registered none i r reg = release-Registered i r reg
whitelist_changed-Registered (some nets) i r (there, here) = (
  λ u j e. elim (Bool-cases (j == i)) [ inl c ↦ rw c (there u j e) | inr c ↦ rw c (there u j e) ],
  λ j h live. elim (Bool-cases (j == i)) [
    | inl c ↦ rw c (here j h (ap (λ b. (renewed nets b (r.pools j)).released) (sym c) ∙ live))
    | inr c ↦ rw c (here j h (ap (λ b. (renewed nets b (r.pools j)).released) (sym c) ∙ live))
  ],
)

step-Registered : {r r' : Registry} → Step r r' → Registered r → Registered r'
unfolding get_connector_pool_safe
step-Registered (gets opened user password r) reg =
    pool_safe-Registered opened user password r (r.connection_map user) refl reg
step-Registered (releases i r) reg = release-Registered i r reg
step-Registered (changes opened i r) reg = whitelist_changed-Registered opened i r reg

pub reached-Registered : {r : Registry} → Reach r → Registered r
reached-Registered begins = (λ u i e. absurd (ground arith), λ i h. absurd (omega arith))
reached-Registered (then_step reached st) = step-Registered st (reached-Registered reached)

-- In every sequence of calls of `getConnectorPoolSafe`, releases and changes of whitelists, a pool
-- that was made is the one that the map has for its user exactly as long as it is not released, so
-- that no pool is left open outside of the map, and no pool of the map is released.
pub registered_while_open :
    {r : Registry}
    → Reach r
    → (i : ℕ) → i < r.made
    → ((r.pools i).released ≡ false) ↔ (r.connection_map (r.pools i).user ≡ some i)
registered_while_open {r} reached i h =
    let (there, here) = reached-Registered reached in
    (λ live. here i h live, λ e. (there (r.pools i).user i e).2)
