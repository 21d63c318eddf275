-- ===== src/TmqSession/Subscribe.antt =====
-- `subscribe` and `closeConsumerWithErrLog` of controller/ws/tmq/tmq.go. The handler holds the mutex
-- from its first line to its end.
use taosadapter.Common.{
  ℕ, ◌*◌, ◌%◌, ◌^◌, Bool, true, false, List, [], ◌∷◌, ◌++◌, Option, none, some, ◌==◌, if◌then◌else◌,
}
use taosadapter.TmqSession.State.{
  Text, Tmq, SubscribeReq, ConfKey, group_id, client_id, td_connect_db, auto_offset_reset,
  td_connect_user, td_connect_pass, msg_with_table_name, msg_consume_excluded, enable_auto_commit,
  experimental_snapshot_enable, msg_enable_batchmeta, session_timeout_ms, max_poll_interval_ms,
  user_ip, timezone, user_app, subscribe, get_connect, Reason, new_consumer_nil,
  whitelist_prohibits, unsubscribe_first, lib, fails, done, Event, created, calls, closes, answers,
  Answers,
}

-- `len(s) == 0`
abbrev pub is_empty : Text → Bool
is_empty [] = true
is_empty (x ∷ s) = false

-- `wsTMQErrorMsg` and `WSError`
abbrev pub error_msg : ℕ → ℕ → Reason → Option ℕ → Event
error_msg req_id code reason message_id = answers req_id (fails (code % 2 ^ 16) reason message_id)

abbrev false_text : Text
false_text = 102 ∷ 97 ∷ 108 ∷ 115 ∷ 101 ∷ []

-- `if len(v) != 0 { tmqOptions[k] = v }`
abbrev option : ConfKey → Text → List (ConfKey × Text)
option k v = if is_empty v then [] else (k, v) ∷ []

abbrev offset_option : SubscribeReq → List (ConfKey × Text)
offset_option req =
    option auto_offset_reset
      (if is_empty req.offset_reset then req.offset_rest else req.offset_reset)

abbrev join {ℓ} : {A : Type ℓ} → List (List A) → List A
join [] = []
join (xs ∷ xss) = xs ++ join xss

-- `tmqOptions`: the keys are all different.
abbrev tmq_options : SubscribeReq → List (ConfKey × Text)
tmq_options req = join (
    option group_id req.group_id
    ∷ option client_id req.client_id
    ∷ option td_connect_db req.db
    ∷ offset_option req
    ∷ ((td_connect_user, req.user) ∷ (td_connect_pass, req.password) ∷ [])
    ∷ option msg_with_table_name req.with_table_name
    ∷ option msg_consume_excluded req.msg_consume_excluded
    ∷ ((enable_auto_commit, false_text) ∷ [])
    ∷ option experimental_snapshot_enable req.snapshot_enable
    ∷ option msg_enable_batchmeta req.enable_batch_meta
    ∷ option session_timeout_ms req.session_timeout_ms
    ∷ option max_poll_interval_ms req.max_poll_interval_ms
    ∷ [])

-- The first error code of a loop of calls, or 0.
abbrev first_error {ℓ} : {A : Type ℓ} → (A → ℕ) → List A → ℕ
first_error call [] = 0
first_error call (x ∷ xs) = let rest = first_error call xs in if call x == 0 then rest else call x

-- `wrapperConsumerNew`: the consumer, and the text of an error.
abbrev pub wrapper_consumer_new : Answers → ℕ × Option Reason
wrapper_consumer_new a =
    if is_empty a.err_str
    then (if a.consumer == 0 then (0, some new_consumer_nil) else (a.consumer, none))
    else (a.consumer, some (lib a.err_str))

abbrev earlier_of {ℓ} : {A : Type ℓ} → Option A → Option A → Option A
earlier_of none e = e
earlier_of (some e) _ = some e

abbrev check_error : Option (ℕ × Text) → Option (ℕ × Reason)
check_error none = none
check_error (some (code, text)) = some (code, lib text)

-- The checks of the connection of a new consumer, in their order.
abbrev whitelist_error : Answers → Option (ℕ × Reason)
whitelist_error a = earlier_of (check_error a.whitelist_err) (
    earlier_of (if a.check_whitelist then none else some (65535, whitelist_prohibits))
      (earlier_of (check_error a.register_whitelist_err) (check_error a.register_drop_user_err)))

-- `if v != "" { code = TaosOptionsConnection(conn, option, &v) }`
abbrev set_option : Answers → (Text → ℕ) → Text → ℕ
set_option a set v = if is_empty v then 0 else set v

abbrev option_code : Answers → SubscribeReq → ℕ
option_code a req =
    let client_ip = if is_empty req.ip then a.client_ip else req.ip in
    let ip_code = a.options_connection user_ip client_ip in
    let tz_code = set_option a (a.options_connection timezone) req.tz in
    let app_code = set_option a (a.options_connection user_app) req.app in
    if ip_code == 0 then (if tz_code == 0 then app_code else tz_code) else ip_code

abbrev code_error : ℕ → Text → Option (ℕ × Reason)
code_error code text = if code == 0 then none else some (code, lib text)

-- The loop over the topics.
abbrev pub append_error : Answers → SubscribeReq → Option (ℕ × Reason)
append_error a req =
    let code = first_error a.list_append req.topics in code_error code (a.tmq_err2str code)

abbrev pub subscribe_error : Answers → Option (ℕ × Reason)
subscribe_error a = code_error a.code (a.tmq_err2str a.code)

abbrev pub connection_error : Answers → SubscribeReq → Option (ℕ × Reason)
connection_error a req =
    earlier_of (whitelist_error a) (code_error (option_code a req) a.options_err)

-- `closeConsumerWithErrLog`
abbrev pub close_consumer_with_err_log : ℕ → ℕ → ℕ × Reason → List Event
close_consumer_with_err_log c req_id (code, reason) =
    closes c ∷ error_msg req_id code reason none ∷ []

abbrev pub after_subscribe :
    Answers → SubscribeReq → ℕ → Tmq → Option (ℕ × Reason) → Tmq × List Event
after_subscribe a req c s (some e) = (s, close_consumer_with_err_log c req.req_id e)
after_subscribe a req c s none =
    (record s { conn = a.connection; consumer = c }, answers req.req_id done ∷ [])

abbrev pub call_subscribe :
    Answers → SubscribeReq → ℕ → Tmq → Option (ℕ × Reason) → Tmq × List Event
call_subscribe a req c s (some e) =
    (s, calls c (subscribe req.topics) ∷ close_consumer_with_err_log c req.req_id e)
call_subscribe a req c s none =
    let (s', es) = after_subscribe a req c s (connection_error a req) in
    (s', calls c (subscribe req.topics) ∷ calls c get_connect ∷ es)

abbrev pub append_topics : Answers → SubscribeReq → ℕ → Tmq → Option (ℕ × Reason) → Tmq × List Event
append_topics a req c s (some e) = (s, close_consumer_with_err_log c req.req_id e)
append_topics a req c s none = call_subscribe a req c s (subscribe_error a)

-- A consumer that comes with an error is not closed.
abbrev created_event : ℕ → List Event
created_event c = if c == 0 then [] else created c ∷ []

abbrev pub with_consumer : Answers → SubscribeReq → Tmq → ℕ × Option Reason → Tmq × List Event
with_consumer a req s (c, some reason) =
    (s, created_event c ++ (error_msg req.req_id 65535 reason none ∷ []))
with_consumer a req s (c, none) =
    let (s', es) = append_topics a req c s (append_error a req) in (s', created c ∷ es)

abbrev pub set_conf : Answers → SubscribeReq → Tmq → Tmq × List Event
set_conf a req s =
    let set = λ (o : ConfKey × Text). a.conf_set o.0 o.1 in
    let code = first_error set (a.in_map_order (tmq_options req)) in
    if code == 0
    then with_consumer a req s (wrapper_consumer_new a)
    else (s, error_msg req.req_id code (lib (a.tmq_err2str code)) none ∷ [])

-- `req.AutoCommitIntervalMS`, in milliseconds, and then the rest.
abbrev pub parse_interval : Answers → SubscribeReq → Tmq → Tmq × List Event
parse_interval a req s =
    let (ms, err) = a.int_of_text req.auto_commit_interval_ms in
    let interval = ms * 1000000 % 2 ^ 64 in
    if is_empty req.auto_commit_interval_ms
    then set_conf a req s
    else if is_empty err
    then set_conf a req (record s { autocommit_interval = interval })
    else (s, error_msg req.req_id 65535 (lib err) none ∷ [])

-- `req.AutoCommit`: the flag is assigned also when there is an error.
abbrev pub new_subscription : Answers → SubscribeReq → Tmq → Tmq × List Event
new_subscription a req s =
    let (flag, err) = a.bool_of_text req.auto_commit in
    let s' = record s { is_auto_commit = flag } in
    if is_empty req.auto_commit
    then parse_interval a req s
    else if is_empty err
    then parse_interval a req s'
    else (s', error_msg req.req_id 65535 (lib err) none ∷ [])

abbrev pub resubscribed : SubscribeReq → Tmq → Option (ℕ × Reason) → Tmq × List Event
resubscribed req s (some (code, reason)) = (s, error_msg req.req_id code reason none ∷ [])
resubscribed req s none = (record s { unsubscribed = false }, answers req.req_id done ∷ [])

abbrev pub resubscribe : Answers → SubscribeReq → Tmq → Option (ℕ × Reason) → Tmq × List Event
resubscribe a req s (some (code, reason)) = (s, error_msg req.req_id code reason none ∷ [])
resubscribe a req s none =
    let (s', es) = resubscribed req s (subscribe_error a) in
    (s', calls s.consumer (subscribe req.topics) ∷ es)

-- `subscribe`
unfoldable pub subscribe_session : Answers → SubscribeReq → Tmq → Tmq × List Event
subscribe_session a req s =
    if s.closed
    then (s, [])
    else if s.consumer == 0
    then new_subscription a req s
    else if s.unsubscribed
    then resubscribe a req s (append_error a req)
    else (s, error_msg req.req_id 65535 unsubscribe_first none ∷ [])
