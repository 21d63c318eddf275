-- ===== src/HandlerPool.antt =====
-- db/async/handlerpool.go: the pool of the handlers that asynchronous calls of the client library
-- use. Each function is a critical section of the code or a receive from a channel. A handler is its
-- pointer. A request channel is that of ConnectPool/Requests; nobody closes one here.
pub mod System
pub mod Refines
pub mod Reached
pub mod Waits
pub mod Runs
use taosadapter.Common.{
  ℕ, zero, suc, ◌+◌, ◌++◌, List, [], ◌∷◌, Option, none, some, ltb, if◌then◌else◌, length,
}
use taosadapter.ConnectPool.Requests.{Slot, empty, holds, shut, find, deliver, drop_channel}

pub record HandlerPool : Type 0 where
  pub count : ℕ
  pub handlers : List ℕ
  pub req_list : List ℕ
  pub channels : List (ℕ × Slot)
  pub next_req : ℕ

-- `c.handlers <- handler`; `none` is a send to the full channel, which waits.
pub send : ℕ → HandlerPool → Option HandlerPool
send handler p =
    if ltb (length p.handlers) p.count
    then some (record p { handlers = p.handlers ++ (handler ∷ []) })
    else none

-- `NewHandlerPool`; the list holds the pointers of the handlers that the rounds make.
pub send_all : List ℕ → HandlerPool → Option HandlerPool
send_all [] p = some p
send_all (handler ∷ rest) p = elim (send handler p) [ none ↦ none | some q ↦ send_all rest q ]

pub new_handler_pool : List ℕ → Option HandlerPool
unfolding send_all
new_handler_pool made =
    send_all made
      (record { count = length made; handlers = []; req_list = []; channels = []; next_req = 0 })

-- The `select` of `Get`; `none` is its `default`.
abbrev pub first_of : HandlerPool → List ℕ → HandlerPool × Option ℕ
first_of p [] = (p, none)
first_of p (handler ∷ rest) = (record p { handlers = rest }, some handler)

pub get_idle : HandlerPool → HandlerPool × Option ℕ
get_idle p = first_of p p.handlers

-- The section under the lock that follows `default`, with the request that the call waits on.
pub queue_up : HandlerPool → HandlerPool × ℕ
queue_up p = (
  record p {
    req_list = p.req_list ++ (p.next_req ∷ []);
    channels = p.channels ++ ((p.next_req, empty) ∷ []);
    next_req = suc p.next_req;
  },
  p.next_req,
)

-- `ret := <-req`; `none` as long as the channel is empty, and for the nil of a closed channel.
abbrev pub receive_slot : ℕ → HandlerPool → Option Slot → HandlerPool × Option ℕ
receive_slot r p (some (holds handler)) =
    (record p { channels = drop_channel r p.channels }, some handler)
receive_slot r p none = (p, none)
receive_slot r p (some empty) = (p, none)
receive_slot r p (some shut) = (record p { channels = drop_channel r p.channels }, none)

unfoldable pub receive : ℕ → HandlerPool → HandlerPool × Option ℕ
receive r p = receive_slot r p (find r p.channels)

abbrev pub hand_over : ℕ → HandlerPool → List ℕ → Option HandlerPool
hand_over handler p [] = send handler p
hand_over handler p (r ∷ rest) =
    some (record p { req_list = rest; channels = deliver r handler p.channels })

-- `Put`
unfoldable pub put : ℕ → HandlerPool → Option HandlerPool
put handler p = hand_over handler p p.req_list
