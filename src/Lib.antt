-- ===== src/Lib.antt =====
-- Verification of Qt_chat: a chat server on muduo, MySQL and Redis, and its Qt client.
--
-- The program. Client and server send JSON objects over TCP, each behind four bytes of length. The
-- server (ChatServer) reads them in `ChatServer::onMessage`, looks the handler up in
-- `ChatService`, and answers from its maps of connections and the tables of MySQL. A user who is
-- connected to another server process is reached by a Redis channel; one who is offline has the
-- message stored. The models take a MySQL connection from a pool for each statement. The Qt client
-- (QtClient/Client) holds one connection, with timers for login, heartbeat and reconnection.
--
-- The files.
--   Base      shared names, tests on numbers, lists by native length, integers, maps as
--             association lists with `lookup`, `insert` and `erase`.
--   Wire      the packet (`sendJson`) and the read loop (`onMessage` of
--             ChatServer/src/server/chatserver.cpp, `onReadyRead` of
--             QtClient/Client/chatclient.cpp): `next_frame` is one round, `serve` the loop,
--             `deliver` a sequence of deliveries of the network. Bodies has the types of bodies and of
--             whole packets.
--   Server    ChatServer/src/server/chatservice.cpp and the models. Api has what comes from
--             libraries; State the state of `ChatService` and the monad of the handlers, state
--             with C++ exceptions; Models the functions of ChatServer/src/server/model;
--             Replies the json objects; Service, Account and Chat the handlers, by the source's
--             names in snake case; Dispatch the handler table, the `try` of `onMessage`, the
--             connection callback and the heartbeat check. The other modules are about messages
--             (Routing, Spread, Crossing, Notices, Offline), sessions (Sessions, Takeover, Silence)
--             and errors (Returns, Atomic). Heartbeat has the timer of the heartbeat check, Threads
--             logins, logouts, closes and chat messages as threads of locked regions.
--   Pool      ChatServer/src/server/db/dbpool.cpp: `DbPool` and `PooledMySQL`. A stretch under
--             the lock is a function; Pool/Steps is the relation of the threads' steps.
--   Mysql     ChatServer/src/server/db/db.cpp, the wrapper of the MySQL client library. Statements
--             has the texts that ChatServer/src/server/model sends, Escape the buffer of
--             `MySQL::escape`, Fits the buffers of the statements.
--   Redis     ChatServer/src/server/redis/redis.cpp: the link, its channels, and the rounds of the
--             observer thread. `pubsub` fills the server's interface `Pubsub`.
--   Client    QtClient/Client/chatclient.cpp: the requests (Calls), the slots (Events), the messages
--             (Messages), Reconnect the events of its socket and timers, Quiet a client that is
--             logged out.
--   Dialog    QtClient/Client/logindialog.cpp: the slots of the login dialog, over the Client.
--   Window    QtClient/Client/widget.cpp: the chat window over the Client. Tree has the friends and
--             groups, Chat the histories and the bubbles, Actions what the user does, Slots the
--             signals and the constructor, Runs sequences of events and the log beside the
--             code, Unread the unread counts.
--   Session   QtClient/Client/main.cpp: dialogs and windows in turn, over one client.
--   Logging   ChatServer/src/asynclog/AsyncLog.cpp: Lines makes and writes a line, Thread has the
--             calls and the steps of the log's thread, Runs their interleavings, Drain the end of the
--             thread, Lost a request to exit that it misses, Dump the hex dump.
--   Config    ChatServer/src/config/ConfigFileReader.cpp: the file's lines, `key=value` pairs, and the
--             two accessors.
--   Terminal  ChatServer/src/client/main.cpp: the command line client. Requests has what it sends,
--             Commands its menus, Replies the thread that reads.
--   Startup   ChatServer/src/server/main.cpp: `main` up to its loop, over Config, Logging and Pool,
--             and the way out (Ending).
--   Journey   a chat message from one window to another, through all parts.
--   Tests     concrete libraries and states, and the theorems at them.
--
-- What is taken from outside. Json libraries, MySQL, Redis (hiredis), muduo and Qt are parameters:
-- records of operations, with named hypotheses where a theorem needs them (`Serving`, `Progress`,
-- `Logged`, `Carried`, `Escapes`). The clock is an argument.
--
-- Bounds and fuel. The read loop has fuel for each byte of the buffer, and takes at least five in a
-- round; the loop over a configuration file has as much. The loop on `redisBufferWrite` has fuel for
-- one more round than bytes that wait, and so has the loop on `fwrite`. Lengths are 32-bit with the
-- wrap written out. Ids are integers; `int` overflow does not occur, since ids are only compared and
-- printed. `_activeCount` is a natural number: it is never counted down at 0. Unread counts and the
-- sizes of log files are unbounded.
--
-- What is not modelled. Outside Server/Threads a handler is one action: other handlers do not run
-- between its locked regions. `unordered_map` is walked in the order of the list. Log calls are
-- left out, except what the leak scan reports. `dump` is taken to succeed, the buffers of 1024
-- bytes for `sprintf` to be large enough in the models (Mysql/Fits has how much they hold), and
-- columns not to be NULL. Of the windows of the Qt client the layout and the styles are left out.
-- Vendored files are not modelled.
pub mod Base
pub mod Wire
pub mod Server
pub mod Pool
pub mod Mysql
pub mod Redis
pub mod Client
pub mod Config
pub mod Dialog
pub mod Logging
pub mod Window
pub mod Terminal
pub mod Startup
pub mod Session
pub mod Journey
pub mod Tests
