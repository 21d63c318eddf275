-- ===== src/Lib.antt =====
-- taosAdapter in front of TDengine: the parts of the server that keep their own state or define
-- their own data formats.
--
-- ConnectPool (ConnectPool.antt and below): tools/connectpool/pool.go, the bounded pool of native
--   connections. `Pool` is the struct, and each function is one critical section under the pool's
--   mutex or one receive from a channel: `take_conn`, `get_slow`, `receive` and `expire` are the
--   parts of `GetWithContext`, `put`, `close_conn` and `release` are `Put`, `Close` and `Release`,
--   `new_pool` is `NewConnectPool`. A request channel is a `Slot`. ConnectPool/System.antt puts the
--   sections together: `Step` is one section of some caller, and `Reach` any sequence of them, so that
--   every interleaving is covered. Callers put back only what they hold, and the factory makes no nil.
--   There a call can take the lock at any time, which is more than the code allows; in
--   ConnectPool/Callers.antt it takes the lock only after it found the channel empty, and what is said
--   to be reachable is reachable there.
--   ConnectPool/Invariant.antt has the invariant before and after the release, Invariant/* is about it
--   step by step, Conserved.antt about where each connection is, Service.antt about who is served,
--   Lost.antt about a release while a call waits.
-- Block (Block.antt and below): the raw block, the column format of rows.
--   Block/Params.antt is driver/common/param (`Param`, and `ColumnType` in Params/ColumnTypes.antt),
--   Block/Serialize.antt and Serialize/Columns.antt are `SerializeRawBlock` of
--   driver/common/serializer/block.go, Block/Parse.antt and Parse/Blocks.antt the readers of
--   driver/common/parser/block.go, Block/Bitmap.antt the null bitmap of both. Block/RoundTrip/*
--   relates the writer and the readers; Block/Rows.antt relates the readers of a row and of a block.
-- TmqRaw (TmqRaw.antt and below): driver/common/parser/raw.go, the raw TMQ message. The offset of
--   the parser is threaded through the functions; TmqRaw/Varint.antt is about its variable-length
--   integers, TmqRaw/Schema.antt about names and schemas. The integers' loop is given as many rounds
--   as the memory has bytes, since a round reads one.
-- HandlerPool (HandlerPool.antt and below): db/async/handlerpool.go, the pool of the handlers of
--   asynchronous calls. `get_idle`, `queue_up` and `receive` are the parts of `Get`, `put` is `Put`.
--   HandlerPool/System.antt has the steps of its callers; a call that found no handler is counted
--   until it takes the lock. HandlerPool/Refines.antt reads the pool as a connection pool, Reached.antt
--   takes over what the connection pool's callers can reach, Waits.antt is about a call that waits.
-- Holders (Holders.antt and below): controller/ws/ws/query_result.go and free.go, the results and
--   statements of a websocket connection under their numbers. Holders/Items.antt is what a holder
--   promises, Keyed.antt is about the lists, ResultCalls.antt and StmtCalls.antt are about sequences
--   of calls.
-- Json (Json.antt and below): tools/jsonbuilder, with Json/Int.antt, Str.antt, Rune.antt and
--   Stream.antt for its files (floats are in Stream), and Json/Block.antt for tools/ctools/block.go,
--   a cell of a raw block as JSON. Json/Int/Decimal.antt, Str/Reader.antt and Rune/Utf8.antt have the
--   decimal digits, the reader of JSON strings and the decoder of UTF-8 that the texts are held
--   against; Block/Values.antt relates the JSON of a cell to the readers of Block/Parse.antt.
--   `strconv.AppendFloat` and the text of a time are parameters.
-- Stmt2 (Stmt2.antt and below): driver/common/stmt, the values that are bound to a statement.
--   Stmt2.antt is about one column (`generate_bind_col_data`, `generate_bind_query_data`),
--   Stmt2/Marshal.antt is `MarshalStmt2Binary`, Stmt2/Field.antt is `GetType` of field.go. The buffers
--   are written in place. Stmt2/Expected.antt has what the client library takes for each type, and
--   Marshal/Expected.antt and Marshal/Tables.antt what is to be made of the tables, both apart from the
--   code; Stmt2/Bind.antt, Rows.antt, Header.antt, Column.antt, Query.antt, Marshal/Layout.antt,
--   Marshal/Gathered.antt and Marshal/Whole.antt relate the code to them. The text of a time is a
--   parameter. `MarshalStmt2Binary` gathers the bytes of the tables one behind the other; its counts
--   and offsets are put as uint32, which keeps them below 2 ^ 32 only.
-- TmqSession (TmqSession.antt and below): controller/ws/tmq/tmq.go, the consumer of a websocket
--   session. TmqSession/State.antt has the session, the requests and what a handler does, as a list of
--   events; what the client library, the clock and the checks of db/tool answer is a record that every
--   section is given anew. Subscribe.antt, Poll.antt, Fetch.antt, Offsets.antt and Closing.antt have
--   the handlers, each cut where it gives up its locks: `poll` is `poll_commit`, `wrapper_poll` and
--   `keep_message`, `unsubscribe` is `unsubscribe_session` and `finish_unsubscribe`, `Close` is
--   `begin_close` and `finish_close`, and `committed` and `position` make a section of each round of
--   their loop. System.antt lets them interleave: `Job` is a handler between two sections, `Step` one
--   section of some handler or of `Close`. Live.antt is what the client library asks of its user, with
--   Live/* about the sections; Mutex.antt and below are about the mutex of the session, Ends.antt about
--   the end of `Close`, Buffers.antt and Blocks.antt about the binary answers. `closed` is read once
--   in a section, when `asyncLocker` is held; `waitSignal` is `Close` at any time.
-- UserPools (UserPools.antt and below): db/commonpool/pool.go, the connection pools of the users. A
--   pool is known by its number, `connection_map` is `connectionMap`, and `Step` is what happens under
--   `connectionLocker`: `get_connector_pool_safe`, a release, or a change of a whitelist. What the
--   client library answers to `NewConnectorPool`, and what `Get` of a pool answers, are arguments, and
--   `net.IPNet.Contains` is a parameter. UserPools/Registered.antt is about the map, Granted.antt about
--   who gets a connection. A call that is given the answer of another one with the same key
--   (singleflight) is not modelled.
-- ReqId (ReqId.antt and below): tools/generator/reqid.go, the identifiers of requests, in calls that
--   follow one another.
-- Common: lists, Boolean tests, integers and little-endian bytes over the native numbers.
--
-- Integers of w bits are their bit patterns, numbers below 2 ^ w, with `% 2 ^ w` where the code
-- converts; floats are their bits. A block is the list of its bytes, a pointer its offset modulo
-- 2 ^ 64, and a read outside the block is `none`. Loops are structural recursion on the rows, the
-- columns or the requests that are left; only the variable-length integers have fuel.
--
-- Bounds: the round trips need blocks below 2 ^ 31 bytes, since the format has int32 lengths, and
-- values of at most 65535 bytes, since a value's length is written as uint16 (driver/common/serializer/block.go).
--
-- Numbers of results and statements are given out below 2 ^ 64, since a uint64 counts them.
--
-- Not modelled: the client library behind cgo (driver/wrapper, db/syncinterface), the HTTP and the
-- other websocket handlers (the rest of controller), the plugins, monitoring and configuration;
-- tools/melody and tools/csv are copies of other projects' libraries. Of the handlers' callers, the
-- channels for the results of their calls are left out. The section of `Put`
-- after the release is one step, though the code reads `openingConns` there without the lock. Time
-- passes only as the end of a call's wait. A nil entry of a `ColumnType` is left out of
-- `SerializeRawBlock`.
pub mod Common
pub mod ConnectPool
pub mod Block
pub mod TmqRaw
pub mod Json
pub mod HandlerPool
pub mod Holders
pub mod Stmt2
pub mod ReqId
pub mod TmqSession
pub mod UserPools
