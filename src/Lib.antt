-- ===== src/Lib.antt =====
-- Verification of the task orchestrator: a manager that spreads tasks over workers, and the
-- workers that run them as Docker containers.
--
-- A client posts task events to the manager's endpoints (internal/manager/api.go), which queue
-- them. The manager's loops (internal/manager/manager.go) take one event after another, choose a
-- worker with a scheduler (internal/scheduler), post the event to it, poll the workers for what
-- became of their tasks, and restart tasks that fail their health checks. A worker
-- (internal/worker) queues what is posted to it, starts and stops containers through the Docker
-- API (internal/task/docker.go), and reports its tasks. Both keep their tasks in a store
-- (internal/store), and guard their state with one mutex, behind the helpers of their state.go.
--
-- The files and what they model:
--   Task: internal/task/task.go (states, transitions, Task, TaskEvent). Task/Graph: the diagram
--     of states that the table of transitions is compared with.
--   Docker: internal/task/docker.go. Errors: the error structs of internal/*/errors.go.
--   HttpApi: internal/httpapi/httpapi.go. HttpApi/Retry: HTTPWithRetry. HttpApi/Router: chi and
--     the server of net/http as parameters; HttpApi/TaskRoutes: the routes that both api.go
--     files have.
--   Node: internal/node/node.go. Stats: internal/worker/stats.go. Float64: the float64 of the
--     scores.
--   Scheduler: the round-robin scheduler and the choice of a winner; Scheduler/MarginalCost: the
--     other scheduler; Scheduler/Interface: the interface and GetScheduler; Cursor, Pick, Turns,
--     Slots and Offers: their theorems.
--   Queue: internal/queue/queue.go. Store: the contract of internal/store/store.go;
--     Store/InMemory: internal/store/in_memory.go; Store/Laws: its theorems. Store/Bolt: bbolt
--     as a parameter; Store/Persistent: internal/store/persistent_store.go; Store/Durable and
--     Store/Opening: its contract, and what it keeps. Store/Choice: GetDBs of
--     internal/store/store.go; Store/Chosen: the stores that it opens.
--   Manager: the manager's state. Manager/Pure: internal/manager/pure.go. Manager/State:
--     internal/manager/state.go, a function for each helper. Manager/Setup, Manager/Send,
--     Manager/Health, Manager/Loops and Manager/Checking: internal/manager/manager.go. Manager/Api and
--     Manager/Routes: internal/manager/api.go. Merge, Reports, Routing, Frames, Delivery,
--     Dispatch, Restart, Budget, Pass, Limit, Passing, Operations, Ready, Draining and Unplaced: their
--     theorems.
--   Worker: the worker's state. Worker/State: internal/worker/state.go. Worker/Container,
--     Worker/Run, Worker/Watch and Worker/Setup: internal/worker/worker.go. Worker/Api and
--     Worker/Routes: internal/worker/api.go. Fields,
--     Running, Watching, Rerunning, Restarting and Stopping: their theorems.
--   Cli: internal/cli/root.go and the exit status of cmd/orchestrator/main.go. Cli/Commands: the
--     commands and flags of internal/cli, declared to cobra; Cli/Shortcuts: how they are found.
--     Cli/Workers: parseWorkers of internal/cli/manager.go, over Cli/Decimal; Cli/Client:
--     internal/cli/taskio.go, task.go and stats.go; Cli/Servers: how manager.go and worker.go of
--     internal/cli build a server; Cli/Running: how manager.go runs it. Cli/Specs and Cli/Starting:
--     their theorems.
--   Wire: what one program writes and another reads (internal/httpapi/httpapi.go). Wire/Routed:
--     a request from its path to the response of a worker; Wire/Managed: of the manager.
--     Wire/Delivering and Wire/Polling: a manager with a worker; Wire/Commands: the command line
--     with a manager.
--   System: a manager and one of its workers, with what is under way between them, and the steps
--     that either takes (internal/manager and internal/worker): one locked call, one request handled
--     or one outcome of a delivery each, so that every window between two of them is open to the
--     other goroutines. System/Presence and Running: the worker alone; Routed and Stopping: both.
--   Examples: the theorems at concrete inputs.
--
-- State is a record that each function takes and returns. A call that fails returns a Result or an
-- option, and an error that the code only logs leaves no trace. A store, the queue of
-- golang-collections, Docker, bbolt, encoding/json, yaml.v3, url.Parse, uuid printing, gopsutil
-- and the network are parameters: records of operations, with records of laws where a theorem
-- needs them. A request is a function from its URL to a reply, a Docker call a function of the
-- daemon's state. What other goroutines do is a sequence of calls of locked helpers
-- (Manager/Routing), a step between two calls (System, Manager/Checking), the order in which
-- goroutines end (Scheduler/MarginalCost), or a function that changes the worker's state during a
-- Docker call (Worker/Run, Worker/Watch).
--
-- Go's int is an integer that wraps at 64 bits, and uint64 a natural number below 2^64. float64 is
-- an abstract type, ordered as IEEE 754 says where a theorem needs it. A uuid and a time are
-- natural numbers. The loops are recursions on the lists that they range over; the loop of
-- HTTPWithRetry recurs on the rounds that its limit leaves, so that no fuel is needed.
--
-- The background loops are runs over the list of their wakes, up to the one after which the
-- program shuts down; the list holds what the other goroutines did before each wake.
-- Manager/Loops takes a turn of the manager's loops as one step; the health checks are also taken
-- call by call (Manager/Checking), and so are deliveries (System). Worker/Setup and Worker/Watch
-- take Shutdown as run when the worker's loops have ended, which its comment asks for. The digits
-- of a number are printed on fuel, and as much fuel as the number is enough (Cli/Decimal).
--
-- Not modelled: the end of the run function of workerCmd (internal/cli/worker.go), where Shutdown
-- runs beside the goroutines of RunTasks and CollectStats, which the command does not join, so
-- that a task may still change then; what other goroutines do while doHealthChecks is one call
-- (Manager/Health) and not the steps of Manager/Checking; cobra's own parsing of flags, help
-- texts, the sockets of the HTTP servers, signals, which only end a run, log output, durations,
-- the alignment of tables and the messages of errors.
pub mod Prelude
pub mod Task
pub mod HttpApi
pub mod Errors
pub mod Float64
pub mod Node
pub mod Stats
pub mod Scheduler
pub mod Queue
pub mod Store
pub mod Manager
pub mod Cli
pub mod Docker
pub mod Worker
pub mod Wire
pub mod System
pub mod Examples
