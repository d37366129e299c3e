-- ===== src/Lib.antt =====
-- ShellSync: a daemon records terminals and serves them to apps, directly or through a relay. This library
-- models the relay server and the parts of the daemon that keep state.
--
-- How the parts interact. A phone and a daemon each hold a websocket to the relay. The daemon registers
-- under a device id and reports pairing codes; the phone claims a code, which is rate limited, and opens
-- streams to the daemon, which the daemon's tunnel client connects to its own HTTP port. Over that port an app
-- pairs, subscribes to terminals and replays their log.
--
-- Base: lists over the native numbers, Boolean tests, the association list that stands for a Go map, and
--   numbered resources that stand in a map until they are released.
-- Wire (server/relay/frame.go, daemon/internal/transport/relay/client.go): control and data frames of the
--   relay in Wire.Control and Wire.Data, the daemon's copy of the data frames in Wire.Mirror.
-- Relay.Limiter (server/relay/limiter.go): allow and blacklisted.
-- Relay.Hub (server/relay/hub.go, session.go): the state in Relay.Hub, sessions, writes and closing in
--   Relay.Hub.Net, handleReg, handleCode, handleClaim, handleOpen, handleAccept, handleClose, onData and
--   the read loop in Relay.Hub.Handlers. A session is a number.
-- Relay.Endpoint (server/relay/endpoint.go): ServeWS and readControlFrame.
-- Log (daemon/internal/logstore/store.go, aggregator.go): Register, Append, SetPendingResize,
--   FlushResizeMarker, flushChunk, Close and Aggregator.run for one terminal. The events of Log.Conserve are the
--   calls and the timers in the order in which they take effect.
-- Pair (daemon/internal/service/pair.go): Init, Verify, checkCode, purge and qrPayload.
-- Ws (daemon/internal/transport/ws/conn.go, daemon/internal/repository/log_repo.go): handleSubscribe,
--   replayHistory, sendHistory, handleResize, handleMirror, unsubscribe and close of one app connection, and
--   ReadRange.
-- Client (daemon/internal/transport/relay/client.go): openStream, closeStream, handleData, handleControl,
--   pumpLocal, runOnce and Run.
-- Store (daemon/internal/repository): the tables and their keys, after migrations/0001_init.sql. The statements of
--   device_repo.go, task_repo.go, todo_repo.go, terminal_repo.go, settings_repo.go and log_repo.go in
--   Store.Devices, Store.Tasks, Store.Todos, Store.Terminals, Store.Settings and Store.Logs; Store.Archive is
--   ArchiveOlderThan of logstore/archive.go over them; Store.Links says
--   what the references between the tables owe to each other, and runs any statements in a row.
-- Auth (daemon/internal/auth/auth.go, transport/http/middleware.go): Verify over the device table, the gate before
--   the routes, and pairing (Pair) composed with the device table.
-- Service (daemon/internal/service): task.go, todo.go, device.go and the row of terminal.go, each over Store,
--   with the events that they publish; Service.Requests puts the requests in a row, and says which writes of settings fail.
-- Terminal (daemon/internal/terminal/session.go, manager.go, service/terminal.go): Session and its handlers in
--   Terminal.Sessions, Create, Restart, Stop, RecoverOnStartup, CloseAll and the deletion in Terminal.Managing.
--   It composes Store.Terminals with Log: what the log hands to OnFlush goes to the session that the map names.
--   A session is an object under a handle, so that two objects can exist for one terminal.
-- Lifecycle (daemon/internal/lifecycle/lock.go, alive_unix.go): Acquire, SetPort and Release of several processes over
--   one file, and processAlive, with the permission to signal as a parameter. A Lock stays with its process after
--   Release.
--
-- Conventions. Every Go method that holds its mutex is one step. Times are natural numbers of nanoseconds, texts
-- are native strings, bytes are numbers. A Go int that may be negative but is tested by `<= 0` or a positive
-- lower bound only is 0 there; the size of a terminal, which is stored as it came unless it is 0, is an integer. What
-- the sources import is a parameter: JSON, base64, random texts, clocks, dials and writes of the network, signals, and
-- whether the database takes a chunk or a setting. In the hub, `up` says which of its writes arrive.
--
-- Fuel. Log.drain runs on the length of the buffer, since each round cuts off a positive slice;
-- Ws.replay runs on the number of the rows and one, since each full page takes at least one row.
--
-- Not modelled: HTTP routing, a database that fails elsewhere, pseudo terminals and the screen mirror, configuration,
-- process set-up, heartbeats, and the goroutines themselves: a race inside what is one step here is not seen, such
-- as an append that meets a log that is closing, a subscription in the middle of finalize, or a full send queue of
-- an app connection; of conn.go also dispatch and handleInput. Restart is two steps, so
-- that its race is seen, and Acquire of the lock can be run as two.
pub mod Base
pub mod Auth
pub mod Service
pub mod Pair
pub mod Wire
pub mod Relay
pub mod Client
pub mod Log
pub mod Store
pub mod Lifecycle
pub mod Terminal
pub mod Ws
