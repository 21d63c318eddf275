-- ===== src/ConnectPool/Invariant/Bound.antt =====
-- No section of tools/connectpool/pool.go changes `maxActive`.
use taosadapter.Common.{ℕ, ◌≡◌, refl, List, [], ◌∷◌, Option, none, some, arith}
use taosadapter.Common.Int.{ℤ}
use taosadapter.ConnectPool.{
  Pool, take_from, take_conn, get_slow, receive_slot, receive, expire, forget_close, close_conn,
  put, drain, do_release, shutting, release,
}
use taosadapter.ConnectPool.Requests.{Slot, empty, holds, shut, find}

take_from-max_active : (p : Pool) (cs : List ℕ) → (take_from p cs).0.max_active ≡ p.max_active
unfolding take_from
take_from-max_active p [] = refl
take_from-max_active p (c ∷ rest) = refl

pub take_conn-max_active : (p : Pool) → (take_conn p).0.max_active ≡ p.max_active
unfolding take_conn
take_conn-max_active p = take_from-max_active p p.conns

pub get_slow-max_active :
    (made : Option ℕ) (p : Pool) → (get_slow made p).0.max_active ≡ p.max_active
unfolding get_slow
get_slow-max_active none p = ground arith
get_slow-max_active (some c) p = ground arith

receive_slot-max_active :
    (r : ℕ) (p : Pool) (o : Option Slot) → (receive_slot r p o).0.max_active ≡ p.max_active
unfolding receive_slot
receive_slot-max_active r p none = refl
receive_slot-max_active r p (some empty) = refl
receive_slot-max_active r p (some (holds c)) = refl
receive_slot-max_active r p (some shut) = refl

pub receive-max_active : (r : ℕ) (p : Pool) → (receive r p).0.max_active ≡ p.max_active
unfolding receive
receive-max_active r p = receive_slot-max_active r p (find r p.channels)

pub expire-max_active : (r : ℕ) (p : Pool) → (expire r p).0.max_active ≡ p.max_active
unfolding expire
expire-max_active r p = ground (arith, receive-max_active r p)

pub close_conn-max_active : (c : ℕ) (p : Pool) → (close_conn c p).0.max_active ≡ p.max_active
unfolding close_conn
close_conn-max_active c p = ground arith

forget_close-max_active : (z : ℤ) (p : Pool) → (forget_close z p).max_active ≡ p.max_active
unfolding forget_close
forget_close-max_active z p = ground arith

pub put-max_active : (c : ℕ) (p : Pool) → (put c p).0.max_active ≡ p.max_active
unfolding put
put-max_active c p = ground arith

drain-max_active : (cs : List ℕ) (p : Pool) → (drain cs p).max_active ≡ p.max_active
unfolding drain
drain-max_active [] p = refl
drain-max_active (c ∷ rest) p = drain-max_active rest _

pub release-max_active : (p : Pool) → (release p).max_active ≡ p.max_active
unfolding release do_release
release-max_active p = ground (arith, drain-max_active p.conns (shutting p))
