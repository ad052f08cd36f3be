-- ===== src/Lib.antt =====
-- myTemp, a small durable workflow engine: clients start workflows and signal them, workers poll
-- tasks and report results over gRPC, and the engine keeps every run as a history of events in
-- Postgres, from which a worker replays it.
--
-- The engine. The handlers of internal/frontend/grpc/handler.go call the operations of
-- internal/history/history.go, which open a transaction, call the methods of
-- internal/persistence/persistence.go, commit, and count what they have done in
-- internal/metrics/metrics.go. Two loops of cmd/engine/main.go take back expired leases and fire due
-- timers. The parts share one database and no memory but the counters.
--
--   Common: library names, tests, lists, integers, UTF-8. Errors: the sentinel errors and `%w` chains.
--   Float: the float64 operations, which are arguments. Metrics: the counters.
--   Persistence/Types: the rows. Persistence/Tables: the four tables, and each SQL statement as a
--   function on them. Persistence/Session: the state of an engine process (`World`: committed tables,
--   open transaction, counters), and the actions on it. Persistence: the methods (`PollTask` is
--   `poll_task`, and so on). Persistence/Quiet, Ends, Calls, Methods: rules to reason
--   about actions, which the proofs about operations search.
--   History/Start, WorkflowTask, ActivityTask, Timers, Signal: `StartWorkflow`,
--   `CompleteWorkflowTask`, `CompleteActivityTask` and `FailActivityTask`, `ScanTimers`,
--   `SignalWorkflow`. History/Rows: the struct literals. History/Retry: internal/history/retry.go.
--   Proto, Frontend, Frontend/Errors: the messages, the RPC handlers, and `toStatus`.
--   Engine: the calls that an engine serves (RPCs and ticks of the loops), and `run`, a life of the
--   engine as a sequence of calls. Each call comes with its own environment.
--   Spec: for each operation the tables that it leaves, as a function of the tables that it found,
--   without transactions and failures, and the reasons for which it refuses; in Polling/Rows,
--   Polling/Freed, Timers/Chosen, Timers/Rows, ActivityTask/Rows and ActivityTask/Reports what this means for the rows, written
--   out without the functions of the code.
--   Invariant, Counters, TaskLife, TimerLife, RunLife: what holds over whole lives of an engine.
--   Sdk/Context, Workflow, Worker: sdk/workflow/context.go; a workflow function as the calls of the SDK
--   that it makes, and its replay; `executeWorkflowTask` and `executeActivityTask` of sdk/worker.go.
--   Sdk/Steps, Lookups, Earlier, Idempotent, Asks, Fresh, Worker/Paused: what a replay asks for.
--   Sdk/Client: sdk/client.go over the generated stub, which is an argument; `connected` is the stub of a
--   connection that delivers to Frontend. Sdk/Registry: `NewWorker` and the registrations. Sdk/Loops:
--   `Run` and the two poll loops, as an interleaving of turns.
--   Cmd: `main`, `reclaimLoop` and `scanTimers` of cmd/engine/main.go, and `Start` of
--   internal/frontend/server.go. Frontend/Logging: internal/frontend/grpc/logging.go.
--   Pizza: the workflow functions and activities of examples/worker/main.go; Pizza/Api: the handlers of
--   examples/api/main.go; Pizza/Shipping, Pizza/Orders: what they do; Pizza/Main: `main` of
--   examples/worker/main.go, with Pizza/Main/Served on its worker.
--   Journal: the history of a run as a log (Order: the ORDER BY; Grown, Rows: one more event; Effects,
--   Commands, Started, Calls: what the calls add; Asked: what a waiting worker's commands leave).
--   System: the programs together. Reaches: calls over a connection; Polls, Recorded, Round: polls and
--   answers of a worker; Workers: the turns of its loops as calls of the engine, and when `Run` returns;
--   Input, Ready: from a client to a worker.
--   Examples: concrete inputs, runs and uses of the theorems.
--
-- What the outside world answers is the `Env` of a call: whether each database call fails, the clocks
-- of Postgres and of the process, fresh ids, random numbers, and which rows other transactions have
-- locked. A theorem over all environments covers every failure. Calls are taken one after the other:
-- two operations of different engine processes that interleave are not modelled, and a commit that
-- fails is taken not to have been applied. A row locked by another transaction is passed over by the
-- two statements that say SKIP LOCKED.
--
-- Numbers are natural numbers: an int32 or int64 is its bits, and sums wrap around; instants and
-- durations are integers of nanoseconds, without the bounds of time.Duration. The counters, float64
-- in the source, are numbers. The ids of the tables' sequences start at 1, and the gap that a rollback
-- leaves in a sequence is not kept. Texts are compared as texts, also where the column is a UUID.
--
-- The SQL gives no order to events with one event id, nor to due timers; the model keeps the order of the
-- table. One function stands for the errors of json.Unmarshal in a replay, whatever the type that is
-- decoded to. A registered activity function keeps no state between calls: `ChargeCard` is registered at
-- one value of its counter of attempts.
--
-- No function of the model needs fuel: loops run over lists of commands and of timers, and the loops
-- that have no end (the two of the engine, the two of a worker) over the list of what their `select`
-- finds; their result is `none` while they go on.
--
-- Not modelled: the server for the metrics and their registration with Prometheus; the listener, the
-- interceptor chain and the graceful stop of the gRPC server; log lines; reflection and encoding/json,
-- which are arguments; the `main` of examples/api/main.go; the migration runner; the container for
-- the tests; generated protobuf code beyond the fields of the messages and the methods of the stub.
pub mod Common
pub mod Errors
pub mod Float
pub mod Metrics
pub mod Persistence
pub mod History
pub mod Proto
pub mod Frontend
pub mod Engine
pub mod Sdk
pub mod Journal
pub mod System
pub mod Cmd
pub mod Pizza
pub mod Invariant
pub mod Counters
pub mod TaskLife
pub mod TimerLife
pub mod RunLife
pub mod Examples
pub mod Spec
