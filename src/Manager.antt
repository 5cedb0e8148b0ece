-- ===== src/Manager.antt =====
-- internal/manager: the manager's state, what it is built on, and what it exchanges with workers.
pub mod Pure
pub mod State
pub mod Send
pub mod Health
pub mod Api
pub mod Routes
pub mod Merge
pub mod Reports
pub mod Routing
pub mod Frames
pub mod Delivery
pub mod Dispatch
pub mod Restart
pub mod Budget
pub mod Pass
pub mod Limit
pub mod Checking
pub mod Passing
pub mod Operations
pub mod Setup
pub mod Ready
pub mod Loops
pub mod Draining
pub mod Unplaced
use task_orchestrator.Prelude.{ℕ, Option, List, String}
use task_orchestrator.Prelude.Assoc.{Assoc}
use task_orchestrator.Errors.{Error, Result}
use task_orchestrator.Float64.{Float64}
use task_orchestrator.HttpApi.{Response, ErrorResponse}
use task_orchestrator.Node.{Node}
use task_orchestrator.Queue.{Inner, Queue}
use task_orchestrator.Scheduler.Interface.{Scheduler}
use task_orchestrator.Store.{Store}
use task_orchestrator.Task.{Task, TaskEvent, Uuid}

-- encoding/json, as far as the manager calls it. `none` is an error.
pub record Codec : Type 0 where
  pub encode_event : TaskEvent → Option String
  pub decode_event : String → Option TaskEvent
  pub encode_task : Task → Option String
  pub decode_task : String → Option Task
  pub decode_tasks : String → Option (List Task)
  pub decode_error : String → Option ErrorResponse

-- What the manager is put together from: its stores, the queue under its pending events, its
-- scheduler, and the libraries that print a uuid and parse a URL (into scheme and host name).
pub record Parts : Type 1 where
  pub fl : Float64
  pub tasks : Store Task
  pub events : Store TaskEvent
  pub pending : Inner TaskEvent
  pub scheduler : Scheduler fl
  pub codec : Codec
  pub uuid_string : Uuid → String
  pub parse_url : String → Option (String × String)

-- What `Manager` guards with its mutex, with the nodes that are never written. The logger, the
-- HTTP client and the intervals are left out.
pub record Manager (p : Parts) : Type 0 where
  pub pending : Queue p.pending
  pub task_db : p.tasks.S
  pub event_db : p.events.S
  pub worker_task_map : Assoc String (List Uuid)
  pub task_worker_map : Assoc Uuid String
  pub worker_nodes : List Node
  pub scheduler : p.scheduler.S

-- How a request ends: it cannot be built or sent, or it is answered.
pub data Reply : Type 0 where
  unreachable : Error → Reply
  answered : Response → Reply

-- The answers to the requests of one step: `post` has a URL and a body.
pub record Net : Type 0 where
  pub get : String → Reply
  pub post : String → String → Reply
  pub delete : String → Reply
