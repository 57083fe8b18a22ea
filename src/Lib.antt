-- ===== src/Lib.antt =====
-- The adapter runs agents' commands in microVM sandboxes. Over HTTP a client creates a sandbox (a
-- pod with a guest agent), starts execs in it, and reads their output while they run or later.
-- Four parts keep state, and this library models them:
--
-- * adapter/internal/exec/record.go, one exec: its captured output as numbered chunks under a
--   byte limit, its end, and the channels of its live readers. Exec/Chunk has the enumerations,
--   Exec/Channel a reader's channel, Exec/Record the type `ExecRecord` and its methods (`append` is
--   Append, `finish`, `complete` and `fail` are finish, Complete and Errored, `subscribe` and
--   `cancel` are Subscribe and the function it returns, `output` is Output), Exec/Load the type
--   `Snapshot` and the record that NewExecRecordFromDB rebuilds.
-- * adapter/internal/exec/registry.go, the execs of all sandboxes: two maps in memory over the
--   execs table of adapter/internal/db/schema.sql. Exec/Table has the rows and the SQL statements,
--   and Exec/Registry the operations (Register, Complete, Errored, Get, DeleteBySandbox,
--   Reconcile).
-- * adapter/internal/sandbox/manager.go, the sandboxes: Sandbox/Table has the types, the rows and
--   the SQL statements, Sandbox/Manager the operations (Create, Get, Delete) and their helpers, and
--   Sandbox/Manager/Reconcile the last one, Reconcile.
-- * guest-agent/server.go, the server inside a sandbox: Guest has its registry of running execs
--   and the handlers Exec, StdinWrite and Signal, with the frames that the pumps send, Guest/Files
--   the handlers FileRead, FileWrite and Watch; Guest/Frames joins the frames to the adapter.
--
-- The HTTP handlers tie them together. Api/Types has the bodies of adapter/internal/api/types.go,
-- Api/Http the answers of adapter/internal/api/errors.go and what a panic becomes in
-- adapter/internal/api/middleware.go, Api/Execs the handlers of adapter/internal/api/exec.go that
-- look an exec up (Get, GetOutput, List, Stdin, Signal), Api/Execs/Start its Create, with the
-- writing of the initial stdin, Api/Sandboxes the handlers of adapter/internal/api/sandboxes.go.
-- Api/Drain is the loop that writes the agent's frames (adapter/internal/agent/client.go) into a
-- record and ends it through the registry, Api/Ping the Ping of the same client, Api/Signal reads
-- the signal of a request, Api/Base64 is the encoding that stdin may have. Exec/Listing is the
-- registry's List, Exec/Waiting the record's Wait. Api/Stream is the event stream,
-- GetOutputStream, and Api/Middleware the middlewares of adapter/internal/api/middleware.go with
-- the stack that adapter/internal/api/router.go puts round the routes.
--
-- Round these stand the connections and the entry points. Agent is the rest of the agent's client
-- (Exec, StdinWrite, Signal of adapter/internal/agent/client.go), and Agent/Guests joins it to the
-- handlers of the guest agent, so that Agent/Running and Agent/Stdin follow an exec and its stdin
-- from the HTTP handler to the child and back. Cluster is adapter/internal/k8s/client.go over an
-- interface to the API server of Kubernetes, with the laws that are relied on in Cluster/Laws;
-- Cluster/Replies is how the manager reads its answers, and Cluster/Runs carries the manager's
-- effects out on it. Database is adapter/internal/db/db.go, Startup the `main` of adapter/main.go,
-- and Cli the `main` of agent-client/main.go. Exec/Record/Moves has the pieces that the lock makes
-- of the methods of a record, and Exec/Registry/Actions the sequences of what goroutines do on one
-- registry: the locked part of Register and its INSERT, the pieces of the calls on a record, the
-- UPDATE of Complete and Errored, DeleteBySandbox.
--
-- How the code is rendered. A method of a record is one step under the lock (`append_locked`,
-- `finish_locked`), followed by one send for each channel that the map held; Exec/Record/Steps
-- lists the steps that goroutines make, in any order, and `Reach` their sequences. Records are
-- shared by pointer, so the registry works on a heap. An error is a value (`Reply`, `Result`,
-- `Option`). The manager notes each call to the outside in its order, a pod's creation with what
-- came of it; a deletion is noted as asked for. A time is in nanoseconds, and a row keeps of the
-- adapter's times the microseconds (`stored_time`, `stored_instant`). What the database, the
-- cluster, the guest agent and the JSON codec say is an argument of the operation that asks them;
-- where two parts are joined, the one's answers are the other's.
--
-- Bounds. `next_seq` is a uint64 and wraps at 2^64. Byte counts are int64 in the code; they stay
-- below the hard limit of 100 MiB, so no wrap-around is written. Loops are structural recursion
-- over what they walk through (chunks, rows, ids, the answers that arrive before a deadline), but
-- for the digits of a number n, which has at most n + 1 of them, the fuel given.
--
-- A handler ends in `go` or `stop` with its answer, or in `panics`. A sandbox without a dialed
-- agent has no client, and a call on that is the panic of a nil pointer. The `select` of a loop is
-- a list of what its rounds meet.
--
-- Not modelled: what only calls a library or the operating system: the transport of gRPC, with
-- Dial and Close, the pool of pgx, the routes' patterns, the listener and the draining of the
-- server, the `main` of the guest agent, which only listens, and a send of output by the guest
-- agent that fails. What `json.Decode` makes of a body, the random identifiers, the texts of
-- errors from outside, the sort of the standard library and the time are arguments, and the JSON
-- of a body is kept as its fields. strings.TrimSpace and strings.ToUpper are arguments.
-- Agent/Guests lets an exec of the guest agent run with nothing else called while it runs.
pub mod Prelude
pub mod Exec
pub mod Api
pub mod Sandbox
pub mod Guest
pub mod Cluster
pub mod Database
pub mod Agent
pub mod Startup
pub mod Cli
pub mod Tests
