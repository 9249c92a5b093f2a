-- ===== src/Lib.antt =====
-- kle-ng-api: a server that queues the generation of KiCad projects for keyboard layouts, and the
-- worker that generates them.
--
-- The server (backend/cmd/server) takes a layout over HTTP and enqueues a task (asynq on Redis). A
-- worker (backend/internal/worker) takes the task, lets backend/internal/kicad build the project
-- with kbplacer and kicad-cli, uploads a zip and SVG renders to the Filer (backend/internal/storage,
-- each request under backend/internal/retry), and publishes the build log to a Redis stream
-- (backend/internal/logstream). The server tells the task's status, passes files on from the Filer,
-- tails the stream over a WebSocket, and forgets tasks that no client asks for any more.
--
-- The files and what they model:
--   Common         backend/internal/common: the types that both programs share (progress.go), and
--                  the reading of environment variables (env.go).
--   Retry          backend/internal/retry/retry.go: `do_retry` is `Do`; `attempt_loop` its loop.
--                  Its children say what it returns, how often it calls and what it waits.
--   Storage        backend/internal/storage/filer.go: `upload_to_storage`, `upload_file`,
--                  `send_upload` and what they call, on a `Net` of replies to come. Zip is
--                  backend/internal/storage/zip.go.
--   Logstream      backend/internal/logstream/logstream.go: LineWriter (`write`, `close`),
--                  Publisher (`publish_line`, `publish_end`, `ensure_expire`, with `xadd` and its
--                  MAXLEN) and Writer, which joins the two as `RunKBPlacer` uses them.
--   Server         backend/cmd/server: Startup is `NewApp` and `getEnvInt`, Routes what `Serve`
--                  installs, Tracker is TaskAccessTracker, Queue the interface of asynq, Tasks the
--                  endpoints that create, show and cancel a task, Abandonment one round of the
--                  detector, Detector the events of a running server, Workers, Cors and Filer
--                  further handlers of main.go, and Logs the frames and the pump of logs.go. In
--                  Logs, Socket is `KicadGetTaskLogs`: a step relation between its goroutines.
--   Worker         backend/internal/worker: Startup is config.go and worker.go; TaskHandler is
--                  task_handler.go, `handle_generate_kicad_project` with its deferred functions,
--                  and below it Verdict a short account of how a task ends; Handover is `NewPCB`
--                  and then the upload of what it has left.
--   Kicad          backend/internal/kicad: Names (paths.go), Slug (`slugifySheet`), Options
--                  (`buildKBPlacerArgs`), Preset (preset.go), Request (`NewPCB` as far as it reads
--                  the settings), Project (the rest of `NewPCB`: the files it writes and the
--                  programs it runs), Sheets (`GenerateSchematicImage`), Bundle (the footprint
--                  libraries). Json and Result are decoded JSON and errors.go.
--   Go             What these use of Go's standard library: strings, strconv, path/filepath, os.
--   Examples       Each theorem at a concrete input.
--
-- State is passed from call to call: a function that changes the network, Redis, the files, the
-- tracker or the queue takes the state and returns it. A deferred function is the end of a run.
--
-- Loops recur on their list. `attempt_loop` recurs on the rounds left, which start as the number of
-- attempts. `drain` has as much fuel as the buffer has bytes; a round takes at least one. The pump
-- recurs on a list of turns, what happens from one XREAD to the next, and says with `running` that
-- the list is over before it has ended. `digits_fuel` has more fuel than its number has digits.
--
-- The pump stands here twice. In Logs, `pump_log_stream` runs alone against turns and tells which
-- frames it sends; in Logs.Socket its steps interleave with those of the handler that takes the
-- frames from a channel of 64, with the end of the context, and with the worker that appends to the
-- log. Both read with `xread` and encode with `encode_frame`.
--
-- Parameters: the asynq queue, the router, the HTTP clients' replies, kbplacer and kicad-cli, the
-- listings of directories, what the file system refuses, the encoding of an archive, float64
-- (Kicad.Floats).
-- Not modelled: the times at which tickers and deadlines fire (they are events, at any time), the
-- listening HTTP server and its test of the host name, the upgrade of a connection beyond the
-- test of its origin, the asynq server inside the worker. What Storage says of stored files is said of
-- the requests that were acknowledged: a server may also have stored what it did not acknowledge.
-- Redis keeps apart all that was ever added to a stream (`entries`) and what MAXLEN has trimmed off,
-- as many old entries as Redis wishes down to 2000; `held` is the rest. Logs reads a stream that is
-- not trimmed.
pub mod Prelude
pub mod Go
pub mod Common
pub mod Retry
pub mod Logstream
pub mod Storage
pub mod Server
pub mod Worker
pub mod Kicad
pub mod Examples
