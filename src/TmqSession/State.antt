-- ===== src/TmqSession/State.antt =====
-- The state of a session of controller/ws/tmq/tmq.go, what its requests, its calls of the client
-- library and its answers are. A pointer is its address, and 0 is nil. A number of w bits is its bit
-- pattern. Texts are their bytes, and those that the code itself writes are constructors.
use taosadapter.Common.{ℕ, Bool, true, false, List, [], Option}

abbrev pub Text : Type 0
Text = List ℕ

-- `Message`
pub record Message : Type 0 where
  pub index : ℕ
  pub topic : Text
  pub vgroup : ℕ
  pub offset : ℕ
  pub type : ℕ
  pub pointer : ℕ
  pub buffer : List ℕ

-- `TMQ`. `locked` is its mutex. `finished` is set when `Close` closes the channel `exit` and gives
-- back the thread and the handler. Times are nanoseconds.
pub record Tmq : Type 0 where
  pub consumer : ℕ
  pub conn : ℕ
  pub message : Message
  pub is_auto_commit : Bool
  pub unsubscribed : Bool
  pub closed : Bool
  pub autocommit_interval : ℕ
  pub next_time : ℕ
  pub locked : Bool
  pub finished : Bool

-- `NewTaosTMQ`
abbrev no_message : Message
no_message = record {
  index = 0;
  topic = [];
  vgroup = 0;
  offset = 0;
  type = 0;
  pointer = 0;
  buffer = [];
}

abbrev pub new_taos_tmq : Tmq
new_taos_tmq = record {
  consumer = 0;
  conn = 0;
  message = no_message;
  is_auto_commit = true;
  unsubscribed = false;
  closed = false;
  autocommit_interval = 5000000000;
  next_time = 0;
  locked = false;
  finished = false;
}

pub record TopicVgroup : Type 0 where
  pub topic : Text
  pub vgroup : ℕ

-- `TMQSubscribeReq`; a field that the client leaves out is empty.
pub record SubscribeReq : Type 0 where
  pub req_id : ℕ
  pub user : Text
  pub password : Text
  pub db : Text
  pub group_id : Text
  pub client_id : Text
  pub offset_rest : Text
  pub offset_reset : Text
  pub topics : List Text
  pub auto_commit : Text
  pub auto_commit_interval_ms : Text
  pub snapshot_enable : Text
  pub with_table_name : Text
  pub enable_batch_meta : Text
  pub msg_consume_excluded : Text
  pub session_timeout_ms : Text
  pub max_poll_interval_ms : Text
  pub tz : Text
  pub app : Text
  pub ip : Text

-- The requests of a client: the identifier of the request first, then that of a message.
pub data Request : Type 0 where
  subscribe_req : SubscribeReq → Request
  poll_req : ℕ → ℕ → Request
  fetch_req fetch_block_req fetch_raw_req fetch_raw_new_req fetch_json_meta_req : ℕ → ℕ → Request
  commit_req : ℕ → ℕ → Request
  unsubscribe_req list_topics_req : ℕ → Request
  assignment_req : ℕ → Text → Request
  seek_req commit_offset_req : ℕ → Text → ℕ → ℕ → Request
  committed_req position_req : ℕ → List TopicVgroup → Request

-- The keys of `tmqOptions`.
pub data ConfKey : Type 0 where
  group_id client_id td_connect_db auto_offset_reset td_connect_user td_connect_pass : ConfKey
  msg_with_table_name msg_consume_excluded enable_auto_commit : ConfKey
  experimental_snapshot_enable msg_enable_batchmeta : ConfKey
  session_timeout_ms max_poll_interval_ms : ConfKey

pub data ConnOption : Type 0 where
  user_ip timezone user_app : ConnOption

-- The calls on a consumer and on a message.
pub data Use : Type 0 where
  subscribe : List Text → Use
  unsubscribe commit subscription get_connect : Use
  poll : ℕ → Use
  get_topic_assignment : Text → Use
  offset_seek commit_offset : Text → ℕ → ℕ → Use
  committed position : Text → ℕ → Use

pub data Read : Type 0 where
  res_type properties fetch_raw_block columns get_raw get_json_meta : Read

-- The texts of error answers; `lib` is one that the client library or a parser of Go gives.
pub data Reason : Type 0 where
  not_init message_freed ids_not_equal id_not_equal message_nil not_data no_fetch_data : Reason
  unsubscribe_first new_consumer_nil whitelist_prohibits : Reason
  unavailable_type : ℕ → Reason
  lib : Text → Reason

-- What an answer holds besides the identifier of its request; the time it took is left out. `fails`
-- has the code, the text and the message that the request is about.
pub data Body : Type 0 where
  fails : ℕ → Reason → Option ℕ → Body
  done : Body
  committed_message : ℕ → Body
  no_new_message : Body
  new_message : Message → Text → Body
  fetch_completed : ℕ → Body
  fetched : ℕ → Text → ℕ → Body
  json_meta : ℕ → Option Text → Body
  assignments : List ℕ → Body
  offsets : List ℕ → Body
  topics : List Text → Body
  offset_committed : Text → ℕ → ℕ → Body

-- What a session does, in the order in which it does it: the consumers and messages that it gets,
-- calls and gives back, and its answers.
pub data Event : Type 0 where
  created : ℕ → Event
  calls : ℕ → Use → Event
  closes : ℕ → Event
  polled : ℕ → Event
  reads : ℕ → Read → Event
  frees : ℕ → Event
  answers : ℕ → Body → Event
  sends : List ℕ → Event

-- What the client library, the clock, the parsers of Go and the checks of db/tool answer while a
-- handler runs. The error of a check has its code, 0xffff where the error has none. A parser gives a
-- value and the text of an error, empty when there is none.
pub record Answers : Type 0 where
  pub now : ℕ
  pub elapsed : ℕ
  pub code : ℕ
  pub tmq_err2str : ℕ → Text
  pub consumer : ℕ
  pub err_str : Text
  pub connection : ℕ
  pub conf_set : ConfKey → Text → ℕ
  pub in_map_order : List (ConfKey × Text) → List (ConfKey × Text)
  pub list_append : Text → ℕ
  pub bool_of_text : Text → Bool × Text
  pub int_of_text : Text → ℕ × Text
  pub whitelist_err : Option (ℕ × Text)
  pub check_whitelist : Bool
  pub register_whitelist_err : Option (ℕ × Text)
  pub register_drop_user_err : Option (ℕ × Text)
  pub options_connection : ConnOption → Text → ℕ
  pub options_err : Text
  pub client_ip : Text
  pub message : ℕ
  pub type : ℕ
  pub topic : Text
  pub database : Text
  pub table_name : Text
  pub vgroup : ℕ
  pub offset : ℕ
  pub rows : ℕ
  pub block : List ℕ
  pub precision : ℕ
  pub meta_type : ℕ
  pub raw : List ℕ
  pub json_meta : Option Text
  pub assignment : List ℕ
  pub topics : List Text
