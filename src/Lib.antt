-- ===== src/Lib.antt =====
-- sman-server: the server of the sman clients. It keeps an account ledger, rooms with agents, tasks
-- that agents evaluate and run, and the instant messages of its clients, who reach it over
-- WebSockets and over HTTP. This library models the ledger with its routes, the tasks, the rooms, the
-- scheduler, the reports and broadcasts, the messages, the certificates and the WebSocket server,
-- function by function, and proves what their callers rely on.
--
-- Base holds what the components share: tables as lists of rows with the SELECT, UPDATE, COUNT and
-- DELETE statements that the stores run on them (Base/Rows), sorting by a column (Base/Sort), sums
-- (Base/Sum), JavaScript's maps (Base/Maps), keys (Base/Keys, Base/Unique),
-- sets and texts (Base/Sets, Base/Texts), Boolean tests (Base/Compare) and integers (Base/Int).
--
-- Accounts is the ledger of src/account-types.ts, src/db-accounts.ts, src/ledger-engine.ts and the
-- modules that these call.
--   Accounts/Types     src/account-types.ts: the rows; Accounts/Faults: what the code throws.
--   Accounts/Rejects   src/reject-codes.ts: reject, getRejectInfo, formatLimitReason.
--   Accounts/Flags     src/control-flags.ts: parseFlags, canDebit, canCredit, isFrozen, setFlag.
--   Accounts/Breaker   src/circuit-breaker.ts: the class as a record with its methods.
--   Accounts/Store     src/db-accounts.ts: the tables (Tables), a monad of calls that may throw
--                      (Monad), and the methods on each table (Rows, Txns, Controls, Limits,
--                      Identities). CHECK, PRIMARY KEY and UNIQUE refuse a write as in SQLite.
--   Accounts/Control   src/control-engine.ts; Accounts/LimitCheck src/limit-engine.ts.
--   Accounts/Ledger    src/ledger-engine.ts: recordEntry is record_entry of Ledger/Entry, and the
--                      body of its transaction is transaction_body of Ledger/Pipeline, stage by
--                      stage. A body that throws is rolled back whole.
--   Accounts/Engine    src/account-engine.ts: open, freeze, unfreeze, close, updateControlFlags.
--   Accounts/Routes    src/routes/accounts.ts: the middleware (authenticate) and the routes, escrow
--                      included; Accounts/Ledger/Moves and Accounts/Routes/Escrow: the proofs.
--   Accounts/History   calls of all of these in any order, from an empty database on.
-- The proofs stand in the children of each module, the runs in Accounts/Tests and Accounts/Checks.
--
-- Tasks is src/db-tasks.ts, src/task-engine.ts and the task records of src/types.ts.
--   Tasks/Types        the rows, and a monad in which a call that throws keeps what it wrote: the
--                      statements of this database commit one by one.
--   Tasks/Machine      VALID_TRANSITIONS and transitionStatus.
--   Tasks/Store        the other methods on tasks, events, reports, and getStats.
--   Tasks/Assignments  the assignments and claimTask.
--   Tasks/Engine       the engine's methods; Tasks/Dispatch: tryAutoConfirmAndDispatch.
--   Tasks/Turns        the calls, and the moves of a status that each may make, as a table apart.
--   Tasks/Keeps, Tasks/Moves, Tasks/Methods, Tasks/History, Tasks/Effects and
--                      Tasks/Dispatch/Claims: the proofs.
--
-- Rooms is src/db-rooms.ts and the room and agent records of src/types.ts: Rooms/Types has the
-- rows, Rooms/Store the methods on rooms and members, Rooms/Agents those on agents; the proofs
-- stand in the children of Rooms/Store and in Rooms/History. Rooms/Routes is src/routes/rooms.ts,
-- and Tasks/Routes is src/routes/tasks.ts. The task engine counts the agents of a room by a
-- function that its caller gives: getRoomAgents of the rooms.
--
-- Scheduler is src/skill-scheduler.ts: its state as a record, the daily tick and the commands that
-- a client fetches. What HubDB finds (getActiveWorkspaces) and the project's name in a path are
-- arguments; start and stop only set a timer.
--
-- Im is src/db-im.ts (Im/Store), src/im-crypto.ts (Im/Cipher) and encrypt and decrypt of
-- src/crypto.ts (Im/Crypto), over Node's AES-256-GCM, base64 and JSON, whose documented laws are the
-- record IsSound; the nonces are an argument. Certs is src/db-certs.ts
-- (Certs/Store) and verifyClientCert of src/ca.ts with extractPeerCert of src/ws-server.ts
-- (Certs/Verify); Im/Sync, Im/Upserts and Certs/Revocation hold their proofs.
--
-- Hub is src/ws-server.ts and src/ws-task-handler.ts, over Rooms, Tasks, Im and Certs.
--   Hub/Types          the messages that come in and go out.
--   Hub/State          the fields of WsHub, a monad of handlers that may throw, and the helpers that
--                      send, subscribe and unsubscribe.
--   Hub/AutoDispatch   createTaskHandler: the automatic dispatch with its timers;
--                      Hub/TaskMessages and Hub/ReportMessages: the messages task.* and evaluation.*.
--   Hub/RoomMessages   the messages room.* and agent.*, and checkStaleAgents.
--   Hub/ImMessages     the messages im.*; Hub/Search: im.clients.search; Hub/Presence: who is online,
--                      and the invitations of a client that connects.
--   Hub/Connection     connections, authentication, route and handleDisconnect; `step` is what one
--                      event (a connection, a message, an end, a timer) does, and `run_hub` a
--                      sequence of them.
-- The proofs stand in Hub/Still (what sending leaves alone), Hub/ImStill, Hub/Calls and
-- Hub/Engine (the handlers as calls of the task engine), Hub/Sound, Hub/Subscriptions,
-- Hub/Lifetimes, Hub/RoomSound and Hub/Handlers, Hub/Admissions, Hub/Departures and Hub/History
-- (every event); Hub/Delivery, Hub/Reach and Hub/Joins are about im.send, Hub/Syncs about im.sync, and Hub/Goodbyes about
-- handleDisconnect. A message is a constructor with the fields that its handler reads, of the
-- types to which the handler casts them; a text that the handler tests for truth or looks up is
-- empty where the message has none. A socket is a number, a new one for each connection. Which
-- sockets are open, the cipher, JSON, LIKE and the hash of an agent's name are arguments. A
-- handler that throws keeps what it did before. handle, route and the timers run one after the
-- other, as in Node.
--
-- HubDb is src/db.ts with src/routes/broadcast.ts and src/routes/report.ts.
--   HubDb/Broadcasts   the broadcasts, what each client has read, and the routes /broadcasts and /ack.
--   HubDb/Clients      clients, reports, and workspaces; getActiveWorkspaces gives the scheduler its
--                      argument.
--   HubDb/Leaderboard  the leaderboard of achievements with its log.
--   HubDb/Logs         settings, error reports and feedback.
--   HubDb/Reports      the routes of routes/report.ts over these and over Scheduler.
--   HubDb/Unread       the proof.
--
-- What comes from outside is an argument: the clock, the random ids (by the number of the draw) and
-- SQLite's date arithmetic, in the record Env of each component. Amounts are whole milli-credits in
-- a signed integer type without bounds: the code refuses what is above 1e12, far inside the safe
-- integers of JavaScript. Numbers of seconds stand for times. No function here runs on fuel: the
-- loops are over the rows of a table or the elements of a list. In the tasks, the number of agents
-- of a room is an argument of the automatic dispatch, JSON columns that the code itself wrote are
-- lists, and isInfraError folds the case of the ASCII letters only, where toLowerCase also maps the
-- Kelvin sign and the dotted capital I.
--
-- The amounts of the account routes are milli-credits already, and the fee of an escrow,
-- Math.round(amount * 0.15), is an argument.
--
-- Not modelled: the counts of getStats and the tables of page views and downloads in src/db.ts; the
-- other HTTP routes (admin-accounts.ts, admin.ts, auth.ts and hub-api.ts in src/routes), which are
-- login, files, pages and calls of the modelled engines; the keys, signing requests and revocation
-- lists of src/ca.ts, which openssl makes; broadcastToAll of src/ws-server.ts, which nothing calls;
-- src/index.ts, which starts processes; loadPsk of src/crypto.ts, which reads the key, here an
-- argument; and the web client.
pub mod Accounts
pub mod Base
pub mod Certs
pub mod Hub
pub mod HubDb
pub mod Im
pub mod Rooms
pub mod Scheduler
pub mod Tasks
