-- ===== src/Lib.antt =====
-- WeSync: a verification library.
--
-- WeSync is a Go program that runs Syncthing for its user: it finds devices on the local network,
-- pairs with them over a wire of its own, offers folders to them, and on Android decides when
-- Syncthing may run. The library models the parts that carry its own logic.
--
-- `Mobile`: the power gate (mobile/gate_decision.go, gate.go, gate_reconcile.go, gate_settings.go,
-- events.go). `Mobile.Decision` has the pure decisions, `Mobile.Gate` the gate's record and its
-- small operations, `Mobile.Events` the entry points that Android calls, `Mobile.Reconcile` the
-- reconciler, whose parts that run under one hold of the lock are functions of their own, and
-- `Mobile.Calls` any sequence of calls; `Mobile.Poll` is the watcher of the folders' directory
-- times (mobile/poll_watcher.go), and `Mobile.Start` has the calls that start and stop the app,
-- with the steps of the goroutine between them (mobile/wesync.go). `Mobile.Migration` is the
-- migration of the folders that an older gate left paused (mobile/gate_settings.go), and
-- `Mobile.Status` what the app is told of the gate (mobile/events.go). The other files prove what
-- they are named for.
--
-- `Node`: what a node knows of its peers (internal/node/state.go) and the state of a folder that is
-- shown for a peer (internal/node/derive.go). `Node.TrustSpec` is the abstract view of the trust
-- sets: for each device an automaton on three flags.
--
-- `Discovery`: the announce packet, the listener's filter and the service
-- (internal/discovery/packet.go, announcer.go, listener.go, service.go), with the runtime's timers,
-- channels and goroutines as parts of the state.
--
-- `Peerwire`: the wire between two nodes (internal/peerwire/message.go, hub.go, conn.go).
-- `Peerwire.Message` has the messages and the callbacks that each sets off, `Peerwire.Inbound` and
-- `Peerwire.Outbound` the two read loops, `Peerwire.Offers` the queue of folder offers and the
-- Hello that flushes it, `Peerwire.Hub` the table of outbound connections, where a handle stands
-- for the goroutine of a connection, `Peerwire.Lifecycle` that goroutine itself, with those that
-- write and ping and with the close, interleaved by statement, `Peerwire.Backoff` the wait between
-- two dials, and `Peerwire.Egress` the source addresses of a dial (internal/peerwire/egress.go).
-- `Peerwire.Serve` has the inbound connections, with the goroutines of `ServeWS`, `readInbound` and
-- `SetAccepting` interleaved, and `Peerwire.Sending` what a hub sends of its own accord.
--
-- `Api`: the handlers of a node (internal/api). `Api.Completion` has the refresh of the acceptance
-- and the completion of folders (folder_state.go), with Syncthing's answers as arguments.
-- `Api.Backend` is Syncthing as an interface (internal/syncthing/interface.go): a state of its own,
-- the calls that change it, and as hypotheses what it documents of them. Over it `Api.App` has the
-- state of the handlers and their helpers (handlers.go, folder_state.go), `Api.Pairing` the trust
-- pipeline and the calls on pairing (pairing.go, peers.go, pipeline.go), `Api.FolderCalls` and
-- `Api.FolderMoves` the requests and the calls of peers on folders (folders.go, handlers.go), and
-- `Api.Shown` and `Api.FolderView` the devices and the folders that the user interface is shown
-- (push.go, handlers.go), and `Api.Wire` what the wire is asked to do (handlers.go).
-- `Api.NodeEvents` leads the events of the wire to the handlers that `NewHandlers` sets, and
-- `Api.Strangers` follows a connection from its frames to what the handlers change; `Api.Greeting`
-- puts the two ends of a connection together. `Api.UiHub` has the windows of the user interface
-- (hub.go), their goroutines interleaved, `Api.Server` what a request passes before a handler
-- (server.go), with the limiter of `RateLimit`, and `Api.Conflicts` the conflict files and the
-- ignore patterns (folder_extras.go). `Api.Memory` is a Syncthing in memory for the tests.
--
-- `Syncthing`: the client of Syncthing's REST interface (internal/syncthing): the walks over
-- folders and devices, the connectivity profiles as the requests that are sent, the status of
-- relays and of global discovery, and the loop over the events. Answers are arguments, none for an
-- error.
--
-- `Stmanager`: the process manager (internal/stmanager/manager.go). Threads in `Start` and `Stop`,
-- the ends of processes and the reapers interleave one locked section at a time; `Stmanager.Wait`
-- has the loops that wait for the port, as rounds of one thread.
--
-- `Store`: the settings row (internal/store/store.go), in `Store.PowerEvents` the events of the
-- power gate (internal/store/power_events.go), and in `Store.Power` and `Store.Level` the requests
-- that write it (internal/api/handlers.go).
--
-- `Startup`: main.go, with the acts of the service in their order and every error, and in
-- `Startup.Server` the start of the backend (internal/backend/backend.go).
--
-- `Desktop`: the desktop shell (cmd/app/app.go): the window, and what the backend is told of it.
--
-- `Certid`: the device ID of a certificate's hash (internal/certid/certid.go), with base32 as a
-- parameter and a text as the list of its ASCII bytes.
--
-- `RateLimit`: the limiter (internal/ratelimit/ratelimit.go).
--
-- A method that takes a lock is a function from the state to the new state. A Go map is an
-- association list, a time a count of nanoseconds (the zero time is 0), and a clock that is read is
-- an argument. A message of the wire stands for its JSON text. Parameters stand for the code of
-- other packages: `fold` for the case folding of `strings.EqualFold`, `parse_ip` for `net.ParseIP`,
-- `encode` and `decode` for base32, `hostname` and `split_host` for `net/url` and `net`, a record
-- for `path/filepath`, and arguments for what Syncthing, the database and the file system answer.
-- The two loops of `Stmanager.Wait` are on fuel, which is the number of rounds: a round sleeps half
-- a second, so 62 rounds are past the deadline of 30 seconds and 12 past that of 5. The loop of
-- `SendSync` is on the rounds that it is given answers for; a timeout of `n` waits of 10
-- milliseconds is over within `n + 1` of them. The loops with a count of tries in the source (30
-- for Syncthing's status, 100 for the port, 20 for the migration) recurse on it. Every other loop
-- is a structural recursion. A goroutine whose end depends on the others, as in
-- `Peerwire.Lifecycle`, is a step relation without fuel.
--
-- Not modelled: the web frontend, the platform wrappers, the vendored go-webview2, logging, and
-- what only calls the system (sockets, the kills of processes, HTTP routing, the deadlines of a
-- connection).
pub mod Base
pub mod Mobile
pub mod Node
pub mod RateLimit
pub mod Discovery
pub mod Peerwire
pub mod Api
pub mod Certid
pub mod Syncthing
pub mod Store
pub mod Stmanager
pub mod Startup
pub mod Desktop
