-- ===== src/ConnectPool/Requests/Shut.antt =====
-- What the release of tools/connectpool/pool.go leaves in the channels of the calls that wait.
use taosadapter.Common.{ℕ, suc, ◌≡◌, List, [], ◌∷◌, some, arith}
use taosadapter.ConnectPool.Requests.{
  Slot, empty, holds, shut, find, pending, shut_one, shut_all, KeysIn,
}
use taosadapter.ConnectPool.Requests.Keys.{pending_above, shut_one-KeysIn}
use taosadapter.ConnectPool.Requests.Queue.{shut_one_head}

-- Closing the channels of the queue leaves a channel with a connection as it is.
find-shut_one :
    (q x r lo hi : ℕ) (rest : List ℕ) (chs : List (ℕ × Slot))
    → KeysIn lo hi chs
    → pending chs ≡ r ∷ rest
    → find q chs ≡ some (holds x)
    → find q (shut_one r chs) ≡ some (holds x)
unfolding find shut_one
find-shut_one q x r lo hi rest [] b e f = cc
find-shut_one q x r lo hi rest ((k, empty) ∷ chs) b e f = ground arith
find-shut_one q x r lo hi rest ((k, holds y) ∷ chs) b e f = ground (
  arith,
  find-shut_one q x r (suc k) hi rest chs b.1 e,
  pending_above r (suc k) hi chs b.1 (rw e (ground arith)),
)
find-shut_one q x r lo hi rest ((k, shut) ∷ chs) b e f = ground (
  arith,
  find-shut_one q x r (suc k) hi rest chs b.1 e,
  pending_above r (suc k) hi chs b.1 (rw e (ground arith)),
)

pub find-shut_all :
    (q x : ℕ) (rs : List ℕ) (lo hi : ℕ) (chs : List (ℕ × Slot))
    → KeysIn lo hi chs
    → pending chs ≡ rs
    → find q chs ≡ some (holds x)
    → find q (shut_all rs chs) ≡ some (holds x)
unfolding shut_all
find-shut_all q x [] lo hi chs b e f = f
find-shut_all q x (r ∷ rs) lo hi chs b e f =
    find-shut_all q x rs lo hi (shut_one r chs) (shut_one-KeysIn r lo hi chs b)
      (shut_one_head r lo hi rs chs b e).0 (find-shut_one q x r lo hi rs chs b e f)
