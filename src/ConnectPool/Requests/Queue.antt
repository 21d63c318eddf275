-- ===== src/ConnectPool/Requests/Queue.antt =====
-- The queue `connReqs` of tools/connectpool/pool.go against the channels of the waiting calls.
use taosadapter.Common.{
  ℕ, suc, ◌≤◌, ◌≡◌, refl, ap, ◌∙◌, true, ◌++◌, List, [], ◌∷◌, none, some, arith, length, contains,
  count,
}
use taosadapter.ConnectPool.Requests.{
  Slot, empty, holds, shut, find, drop_channel, deliver, shut_one, shut_all, erase, pending, mailed,
  KeysIn,
}
use taosadapter.ConnectPool.Requests.Keys.{pending_above, shut_one-KeysIn}

pending_head_above :
    (r lo hi : ℕ) (rest : List ℕ) (chs : List (ℕ × Slot))
    → KeysIn lo hi chs
    → pending chs ≡ r ∷ rest
    → lo ≤ r
pending_head_above r lo hi rest chs b e = pending_above r lo hi chs b (rw e (ground arith))

-- The head of the queue is the first empty channel; serving it leaves the others as they were.
module _ (r c : ℕ) (rest : List ℕ) where
  pub pending-deliver :
      (lo hi : ℕ) (chs : List (ℕ × Slot))
      → KeysIn lo hi chs
      → pending chs ≡ r ∷ rest
      → pending (deliver r c chs) ≡ rest
  unfolding deliver
  pending-deliver lo hi [] b e = cc
  pending-deliver lo hi ((k, empty) ∷ chs) b e = ground arith
  pending-deliver lo hi ((k, holds x) ∷ chs) b e =
      ground (
        arith,
        pending-deliver (suc k) hi chs b.1 e,
        pending_head_above r (suc k) hi rest chs b.1 e,
      )
  pending-deliver lo hi ((k, shut) ∷ chs) b e =
      ground (
        arith,
        pending-deliver (suc k) hi chs b.1 e,
        pending_head_above r (suc k) hi rest chs b.1 e,
      )

  pub mailed-deliver :
      (lo hi a : ℕ) (chs : List (ℕ × Slot))
      → KeysIn lo hi chs
      → pending chs ≡ r ∷ rest
      → (count a (mailed (deliver r c chs)) ≡ count a (c ∷ mailed chs))
        × (length (mailed (deliver r c chs)) ≡ suc (length (mailed chs)))
  unfolding deliver
  mailed-deliver lo hi a [] b e = cc
  mailed-deliver lo hi a ((k, empty) ∷ chs) b e = ground arith
  mailed-deliver lo hi a ((k, holds x) ∷ chs) b e =
      ground (
        arith,
        mailed-deliver (suc k) hi a chs b.1 e,
        pending_head_above r (suc k) hi rest chs b.1 e,
      )
  mailed-deliver lo hi a ((k, shut) ∷ chs) b e =
      ground (
        arith,
        mailed-deliver (suc k) hi a chs b.1 e,
        pending_head_above r (suc k) hi rest chs b.1 e,
      )

  pub find-deliver :
      (lo hi : ℕ) (chs : List (ℕ × Slot))
      → KeysIn lo hi chs
      → pending chs ≡ r ∷ rest
      → find r (deliver r c chs) ≡ some (holds c)
  unfolding deliver find
  find-deliver lo hi [] b e = cc
  find-deliver lo hi ((k, empty) ∷ chs) b e = ground arith
  find-deliver lo hi ((k, holds x) ∷ chs) b e =
      ground
        (arith, find-deliver (suc k) hi chs b.1 e, pending_head_above r (suc k) hi rest chs b.1 e)
  find-deliver lo hi ((k, shut) ∷ chs) b e =
      ground
        (arith, find-deliver (suc k) hi chs b.1 e, pending_head_above r (suc k) hi rest chs b.1 e)

-- Closing every queued request empties the queue and touches no connection on its way.
pub shut_one_head :
    (r lo hi : ℕ) (rest : List ℕ) (chs : List (ℕ × Slot))
    → KeysIn lo hi chs
    → pending chs ≡ r ∷ rest
    → (pending (shut_one r chs) ≡ rest) × (mailed (shut_one r chs) ≡ mailed chs)
unfolding shut_one
shut_one_head r lo hi rest [] b e = cc
shut_one_head r lo hi rest ((k, empty) ∷ chs) b e = ground arith
shut_one_head r lo hi rest ((k, holds x) ∷ chs) b e = ground (
  arith,
  shut_one_head r (suc k) hi rest chs b.1 e,
  pending_head_above r (suc k) hi rest chs b.1 e,
)
shut_one_head r lo hi rest ((k, shut) ∷ chs) b e = ground (
  arith,
  shut_one_head r (suc k) hi rest chs b.1 e,
  pending_head_above r (suc k) hi rest chs b.1 e,
)

pub shut_all_queue :
    (rs : List ℕ) (lo hi : ℕ) (chs : List (ℕ × Slot))
    → KeysIn lo hi chs
    → pending chs ≡ rs
    → (pending (shut_all rs chs) ≡ []) × (mailed (shut_all rs chs) ≡ mailed chs)
unfolding shut_all
shut_all_queue [] lo hi chs b e = (e, refl)
shut_all_queue (r ∷ rs) lo hi chs b e =
    let (p, m) = shut_one_head r lo hi rs chs b e in
    let (p', m') = shut_all_queue rs lo hi (shut_one r chs) (shut_one-KeysIn r lo hi chs b) p in
    (p', m' ∙ m)

-- A waiter that finds its channel empty is still in the queue.
pub find_empty :
    (r : ℕ) (chs : List (ℕ × Slot)) → find r chs ≡ some empty → contains r (pending chs) ≡ true
unfolding find
find_empty r [] e = cc
find_empty r ((k, empty) ∷ chs) e = ground (arith, find_empty r chs)
find_empty r ((k, holds c) ∷ chs) e = ground (arith, find_empty r chs)
find_empty r ((k, shut) ∷ chs) e = ground (arith, find_empty r chs)

-- What a request's channel holds leaves the mail with the channel; the queue stays.
pub drop_served :
    (r c lo hi a : ℕ) (chs : List (ℕ × Slot))
    → KeysIn lo hi chs
    → find r chs ≡ some (holds c)
    → (pending (drop_channel r chs) ≡ pending chs)
      × (count a (c ∷ mailed (drop_channel r chs)) ≡ count a (mailed chs))
      × (suc (length (mailed (drop_channel r chs))) ≡ length (mailed chs))
unfolding drop_channel find
drop_served r c lo hi a [] b e = cc
drop_served r c lo hi a ((k, empty) ∷ chs) b e =
    ground (arith, drop_served r c (suc k) hi a chs b.1)
drop_served r c lo hi a ((k, holds x) ∷ chs) b e =
    ground (arith, drop_served r c (suc k) hi a chs b.1)
drop_served r c lo hi a ((k, shut) ∷ chs) b e = ground (arith, drop_served r c (suc k) hi a chs b.1)

pub drop_shut :
    (r lo hi : ℕ) (chs : List (ℕ × Slot))
    → KeysIn lo hi chs
    → find r chs ≡ some shut
    → (pending (drop_channel r chs) ≡ pending chs) × (mailed (drop_channel r chs) ≡ mailed chs)
unfolding drop_channel find
drop_shut r lo hi [] b e = cc
drop_shut r lo hi ((k, empty) ∷ chs) b e = ground (arith, drop_shut r (suc k) hi chs b.1)
drop_shut r lo hi ((k, holds x) ∷ chs) b e = ground (arith, drop_shut r (suc k) hi chs b.1)
drop_shut r lo hi ((k, shut) ∷ chs) b e = ground (arith, drop_shut r (suc k) hi chs b.1)

-- A queued request that gives up leaves the queue, and no connection goes with it.
pub drop_pending :
    (r lo hi : ℕ) (chs : List (ℕ × Slot))
    → KeysIn lo hi chs
    → contains r (pending chs) ≡ true
    → (pending (drop_channel r chs) ≡ erase r (pending chs))
      × (mailed (drop_channel r chs) ≡ mailed chs)
unfolding drop_channel erase
drop_pending r lo hi [] b e = cc
drop_pending r lo hi ((k, empty) ∷ chs) b e =
    ground (arith, drop_pending r (suc k) hi chs b.1, pending_above r (suc k) hi chs b.1)
drop_pending r lo hi ((k, holds x) ∷ chs) b e =
    ground (arith, drop_pending r (suc k) hi chs b.1, pending_above r (suc k) hi chs b.1)
drop_pending r lo hi ((k, shut) ∷ chs) b e =
    ground (arith, drop_pending r (suc k) hi chs b.1, pending_above r (suc k) hi chs b.1)

-- A new request is the last of the queue.
pub pending-append :
    (n : ℕ) (chs : List (ℕ × Slot))
    → (pending (chs ++ ((n, empty) ∷ [])) ≡ pending chs ++ (n ∷ []))
      × (mailed (chs ++ ((n, empty) ∷ [])) ≡ mailed chs)
pending-append n [] = (refl, refl)
pending-append n ((k, empty) ∷ chs) =
    (ap (◌∷◌ k) (pending-append n chs).0, (pending-append n chs).1)
pending-append n ((k, holds c) ∷ chs) =
    ((pending-append n chs).0, ap (◌∷◌ c) (pending-append n chs).1)
pending-append n ((k, shut) ∷ chs) = pending-append n chs

pub drop_none : (r : ℕ) (chs : List (ℕ × Slot)) → find r chs ≡ none → drop_channel r chs ≡ chs
unfolding drop_channel find
drop_none r [] e = refl
drop_none r ((k, s) ∷ chs) e = ground (arith, drop_none r chs)
