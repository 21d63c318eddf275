-- ===== src/ConnectPool/Requests/Keys.antt =====
-- The numbering of the request channels of tools/connectpool/pool.go under every change of them.
use taosadapter.Common.{ℕ, suc, ◌≤◌, ◌≡◌, true, ◌++◌, List, [], ◌∷◌, arith, contains}
use taosadapter.ConnectPool.Requests.{
  Slot, empty, holds, shut, drop_channel, deliver, shut_one, shut_all, pending, KeysIn,
}

KeysIn-mono :
    (lo lo' hi : ℕ) (chs : List (ℕ × Slot)) → lo' ≤ lo → KeysIn lo hi chs → KeysIn lo' hi chs
KeysIn-mono lo lo' hi [] h b = omega arith
KeysIn-mono lo lo' hi ((k, s) ∷ chs) h b = (omega arith, b.1)

pub KeysIn-append :
    (lo hi : ℕ) (s : Slot) (chs : List (ℕ × Slot))
    → KeysIn lo hi chs
    → KeysIn lo (suc hi) (chs ++ ((hi, s) ∷ []))
KeysIn-append lo hi s [] b = (b, omega arith)
KeysIn-append lo hi s ((k, _) ∷ chs) b = (b.0, KeysIn-append (suc k) hi s chs b.1)

pub drop_channel-KeysIn :
    (r lo hi : ℕ) (chs : List (ℕ × Slot)) → KeysIn lo hi chs → KeysIn lo hi (drop_channel r chs)
unfolding drop_channel
drop_channel-KeysIn r lo hi [] b = b
drop_channel-KeysIn r lo hi ((k, s) ∷ chs) b =
    ground (arith, drop_channel-KeysIn r (suc k) hi chs b.1, KeysIn-mono (suc k) lo hi chs)

pub deliver-KeysIn :
    (r c lo hi : ℕ) (chs : List (ℕ × Slot)) → KeysIn lo hi chs → KeysIn lo hi (deliver r c chs)
unfolding deliver
deliver-KeysIn r c lo hi [] b = b
deliver-KeysIn r c lo hi ((k, s) ∷ chs) b = ground (arith, deliver-KeysIn r c (suc k) hi chs b.1)

pub shut_one-KeysIn :
    (r lo hi : ℕ) (chs : List (ℕ × Slot)) → KeysIn lo hi chs → KeysIn lo hi (shut_one r chs)
unfolding shut_one
shut_one-KeysIn r lo hi [] b = b
shut_one-KeysIn r lo hi ((k, s) ∷ chs) b = ground (arith, shut_one-KeysIn r (suc k) hi chs b.1)

pub shut_all-KeysIn :
    (rs : List ℕ) (lo hi : ℕ) (chs : List (ℕ × Slot))
    → KeysIn lo hi chs
    → KeysIn lo hi (shut_all rs chs)
unfolding shut_all
shut_all-KeysIn [] lo hi chs b = b
shut_all-KeysIn (r ∷ rs) lo hi chs b =
    shut_all-KeysIn rs lo hi (shut_one r chs) (shut_one-KeysIn r lo hi chs b)

-- A request in the queue is not below the smallest number.
pub pending_above :
    (r lo hi : ℕ) (chs : List (ℕ × Slot))
    → KeysIn lo hi chs
    → contains r (pending chs) ≡ true
    → lo ≤ r
pending_above r lo hi [] b h = cc
pending_above r lo hi ((k, empty) ∷ chs) b h = ground (arith, pending_above r (suc k) hi chs b.1)
pending_above r lo hi ((k, holds c) ∷ chs) b h = omega (arith, pending_above r (suc k) hi chs b.1 h)
pending_above r lo hi ((k, shut) ∷ chs) b h = omega (arith, pending_above r (suc k) hi chs b.1 h)
