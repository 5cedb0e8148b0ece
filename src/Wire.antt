-- ===== src/Wire.antt =====
-- The programs talk to each other over HTTP: what a handler writes, as the client reads it, and the
-- requests that reach a worker's and a manager's handlers (the routes of both api.go files).
pub mod Routed
pub mod Managed
pub mod Delivering
pub mod Polling
pub mod Commands
use task_orchestrator.Prelude.{ℕ, ◌≡◌, Option, none, some, List, String, str_append}
use task_orchestrator.HttpApi.{Response, ErrorResponse, Written, json, error_json, header_only}
use task_orchestrator.Task.{Task, TaskEvent, Uuid, Time}
use task_orchestrator.Manager.{Codec, Parts, Manager, Net, answered}
use task_orchestrator.Manager.Pure.{worker_tasks_url}
use task_orchestrator.Manager.Api as ManagerApi
use task_orchestrator.Worker as Worker
use task_orchestrator.Worker.Api as WorkerApi
use task_orchestrator.Cli.Client.{Formats, Target, Http, Answer, Exchange, tasks_url}
use task_orchestrator.Cli.Client as Client

-- encoding/json where only the handlers call it. `none` is an error.
pub record Encoders : Type 0 where
  pub encode_task : Task → Option String
  pub encode_event : TaskEvent → Option String
  pub encode_tasks : List Task → Option String
  pub encode_error : ErrorResponse → Option String

-- The value is encoded, as a text that decodes to it.
abbrev pub Travels : {B : Type 0} → (B → Option String) → (String → Option B) → B → Type 0
Travels encode decode b = (text : String) × (encode b ≡ some text) × (decode text ≡ some b)

-- An encoding that fails leaves the body empty.
abbrev body_of : Option String → String
body_of none = ""
body_of (some text) = text

-- The response of `WriteJSON`, `WriteError` and `WriteHeader`.
unfoldable pub respond : {B : Type 0} → Encoders → (B → Option String) → Written B → Response
respond e encode (json status b) = record { status = status; body = body_of (encode b) }
respond e encode (error_json status x) = record {
  status = status;
  body = body_of (e.encode_error x);
}
respond e encode (header_only status) = record { status = status; body = "" }

-- The requests that the manager sends to an address reach the handlers of a worker in this state.
pub record Serves {q : Worker.Parts} (e : Encoders) (parse : String → Option Uuid)
    (uuid_string : Uuid → String) (addr : String) (w : Worker.Worker q) (net : Net) : Type 0 where
  pub posted :
      (body : String)
      → net.post (worker_tasks_url addr) body
        ≡ answered (respond e e.encode_task (WorkerApi.start_task_handler body w).1)
  pub listed :
      net.get (worker_tasks_url addr)
      ≡ answered (respond e e.encode_tasks (WorkerApi.get_tasks_handler w))
  pub deleted :
      (id : Uuid)
      → net.delete (str_append (worker_tasks_url addr) (str_append "/" (uuid_string id)))
        ≡ answered
            (respond e e.encode_task (WorkerApi.stop_task_handler parse (uuid_string id) w).1)

-- The requests that a command sends reach the handlers of a manager in this state. `fresh_id` and
-- `now` are the uuid and the time that its stop handler takes.
pub record Manages {p : Parts} (e : Encoders) (f : Formats) (fresh_id : Uuid) (now : Time)
    (tgt : Target) (m : Manager p) (http : Http) : Type 0 where
  pub posted :
      (body : String)
      → (a : Answer) × (http.post (tasks_url tgt) body ≡ Client.answered a)
        × (a.response ≡ respond e e.encode_event (ManagerApi.start_task_handler body m).1)
  pub listed :
      (a : Answer) × (http.get (tasks_url tgt) ≡ Client.answered a)
      × (a.response ≡ respond e e.encode_tasks (ManagerApi.get_tasks_handler m))
  pub deleted :
      (id : Uuid)
      → (a : Answer) × (http.delete (str_append (tasks_url tgt) (str_append "/" (f.uuid_string id)))
          ≡ Client.answered a)
        × (a.response
            ≡ respond e e.encode_event
                (ManagerApi.stop_task_handler f.parse_uuid fresh_id now (f.uuid_string id) m).1)
