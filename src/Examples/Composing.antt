-- ===== src/Examples/Composing.antt =====
-- A command line, a manager and a worker that talk to each other about one task.
use task_orchestrator.Prelude.{
  ℕ, ◌≡◌, refl, ap, subst, ◌⊎◌, inl, inr, Option, none, some, List, [], ◌∷◌, ◌++◌, map, String,
  str_eq, str_append, if◌then◌else◌, ◌==◌, Bool-cases, In,
}
use task_orchestrator.Prelude.Int.{pos}
use task_orchestrator.Prelude.Assoc.{String-Eq}
use task_orchestrator.Errors.{Error, ok, err}
use task_orchestrator.HttpApi.{Response}
use task_orchestrator.Queue.{InnerLaws}
use task_orchestrator.Store.InMemory.{in_memory, put, list}
use task_orchestrator.Store.Laws.{in_memory-StoreLaws}
use task_orchestrator.Task.{Task, TaskEvent, Uuid, scheduled, running, completed}
use task_orchestrator.Manager.{Codec, Parts, Manager, Net, answered}
use task_orchestrator.Manager.Pure.{worker_tasks_url}
use task_orchestrator.Manager.State.{worker_for_task, retire_task}
use task_orchestrator.Manager.Send.{
  address_in, worker_address, require_worker_address, deliver, apply_reports,
  update_tasks_from_worker,
}
use task_orchestrator.Manager.Send as Send
use task_orchestrator.Manager.Frames.{pending_events}
use task_orchestrator.Manager.Loops.{process_tasks}
use task_orchestrator.Manager.Draining.{Answering, quiet, process_tasks-drains}
use task_orchestrator.Worker as Worker
use task_orchestrator.Worker.State as WorkerState
use task_orchestrator.Worker.Run.{get_tasks}
use task_orchestrator.Worker.Api as WorkerApi
use task_orchestrator.Wire.{Encoders, respond, Serves}
use task_orchestrator.Wire.Delivering.{waiting, deliver-both, stop_task-both}
use task_orchestrator.Wire.Polling.{update_tasks_from_worker-both}
use task_orchestrator.Examples.{
  whole, list_queue, list_queue-InnerLaws, job, request, nodes, first_node, fresh, up, reply,
}
use task_orchestrator.Examples as Examples
use task_orchestrator.Examples.Working.{docker}

-- Each kind of value has one text.
abbrev pub codec : Codec
codec = record {
  encode_event = λ te. some "event";
  decode_event = λ body. if str_eq body "event" then some (request 7 scheduled) else none;
  encode_task = λ t. some "task";
  decode_task = λ body. if str_eq body "task" then some (job 7 scheduled) else none;
  decode_tasks = λ body. if str_eq body "tasks" then some (job 7 running ∷ []) else none;
  decode_error = λ body. none;
}

abbrev pub encoders : Encoders
encoders = record {
  encode_task = λ t. some "task";
  encode_event = λ te. some "event";
  encode_tasks = λ ts. some "tasks";
  encode_error = λ e. some "error";
}

abbrev pub printed : Uuid → String
printed id = if id == 7 then "7" else "other"

abbrev pub parsed : String → Option Uuid
parsed s = if str_eq s "7" then some 7 else none

abbrev pub manager_parts : Parts
manager_parts = record Examples.parts { codec = codec; uuid_string = printed }

abbrev pub manager : List (String × Task) → Manager manager_parts
manager tasks = record {
  pending = record { inner_queue = [] };
  task_db = record { db = tasks };
  event_db = record { db = [] };
  worker_task_map = [];
  task_worker_map = [];
  worker_nodes = nodes;
  scheduler = record { name = "round-robin"; last_worker = pos 0 };
}

abbrev pub worker_parts : Worker.Parts
worker_parts = record {
  fl = whole;
  tasks = in_memory Task;
  queue = list_queue Task;
  docker = docker;
  codec = codec;
  uuid_string = printed;
}

abbrev pub worker : List (String × Task) → Worker.Worker worker_parts
worker tasks = record {
  db = record { db = tasks };
  queue = record { inner_queue = [] };
  stats = none;
}

abbrev stopping : String → Worker.Worker worker_parts → Response
stopping id w = respond encoders encoders.encode_task (WorkerApi.stop_task_handler parsed id w).1

abbrev pub serving : Worker.Worker worker_parts → Net
serving w = record {
  post = λ url body.
      answered (respond encoders encoders.encode_task (WorkerApi.start_task_handler body w).1);
  get = λ url. answered (respond encoders encoders.encode_tasks (WorkerApi.get_tasks_handler w));
  delete = λ url.
      if str_eq url "http://first/tasks/7"
      then answered (stopping "7" w)
      else answered (stopping "other" w);
}

pub serving-Serves :
    (w : Worker.Worker worker_parts) → Serves encoders parsed printed "http://first" w (serving w)
unfolding worker_tasks_url
serving-Serves w = record { posted = λ body. refl; listed = refl; deleted = deleted }
  where
    deleted :
        (id : Uuid)
        → (serving w).delete
            (str_append (worker_tasks_url "http://first") (str_append "/" (printed id)))
          ≡ answered (stopping (printed id) w)
    deleted id = elim (Bool-cases (id == 7)) [ inl e ↦ rw e refl | inr e ↦ rw e refl ]

abbrev pub task_queue : InnerLaws (list_queue Task)
task_queue = list_queue-InnerLaws Task

abbrev pub event_queue : InnerLaws (list_queue TaskEvent)
event_queue = list_queue-InnerLaws TaskEvent

taken : (put "7" (job 7 scheduled) ((manager []).task_db)).1 ≡ none
unfolding put
taken = refl

deliver-both_example :
    (body : String) × (codec.encode_event (request 7 scheduled) ≡ some body)
    × (pending_events event_queue
          (deliver first_node (request 7 scheduled) (serving (worker [])) (manager []))
        ≡ pending_events event_queue (manager []))
    × (worker_for_task 7
          (deliver first_node (request 7 scheduled) (serving (worker [])) (manager []))
        ≡ some "first")
    × ((k : String)
        → in_memory-StoreLaws.view
            (deliver first_node (request 7 scheduled) (serving (worker [])) (manager [])).task_db
            k
          ≡ (if str_eq "7" k
              then some (job 7 scheduled)
              else in_memory-StoreLaws.view (manager []).task_db k))
    × (waiting task_queue (WorkerApi.start_task_handler body (worker [])).0
        ≡ waiting task_queue (worker []) ++ job 7 scheduled ∷ [])
    × ((WorkerApi.start_task_handler body (worker [])).0.db ≡ (worker []).db)
deliver-both_example =
    deliver-both encoders parsed event_queue task_queue in_memory-StoreLaws first_node
      (request 7 scheduled) (serving (worker [])) (manager []) (worker []) ("event", refl, refl)
      ("task", refl, refl) (serving-Serves (worker [])) taken

abbrev running_worker : Worker.Worker worker_parts
running_worker = worker (("7", job 7 running) ∷ [])

abbrev pub busy_manager : Manager manager_parts
busy_manager = manager (("7", job 7 scheduled) ∷ [])

found_first : require_worker_address "manager.stopTask" "first" busy_manager ≡ ok "http://first"
unfolding require_worker_address worker_address address_in
found_first = refl

stop_task-both_example :
    ((t : Task) × (WorkerState.lookup_task 7 running_worker ≡ some t)
      × (Send.stop_task "first" 7 (serving running_worker) busy_manager
          ≡ retire_task "first" 7 busy_manager)
      × (waiting task_queue (WorkerApi.stop_task_handler parsed "7" running_worker).0
          ≡ waiting task_queue running_worker ++ record t { state = completed } ∷ []))
    ⊎ ((WorkerState.lookup_task 7 running_worker ≡ none)
        × (Send.stop_task "first" 7 (serving running_worker) busy_manager ≡ busy_manager)
        × ((WorkerApi.stop_task_handler parsed "7" running_worker).0 ≡ running_worker))
stop_task-both_example =
    stop_task-both encoders parsed event_queue task_queue "first" "http://first" 7
      (serving running_worker) busy_manager running_worker found_first
      (serving-Serves running_worker) refl refl

heard :
    (ts : List Task)
    → get_tasks running_worker ≡ ok ts
    → (text : String) × (encoders.encode_tasks ts ≡ some text) × (codec.decode_tasks text ≡ some ts)
unfolding get_tasks WorkerState.list_tasks list
heard ts e = let same : job 7 running ∷ [] ≡ ts = cc in ("tasks", refl, ap some same)

address : worker_address "first" busy_manager ≡ some "http://first"
unfolding worker_address address_in
address = refl

update_tasks_from_worker-both_example :
    ((ts : List Task) × (get_tasks running_worker ≡ ok ts)
      × (update_tasks_from_worker "first" (serving running_worker) busy_manager
          ≡ apply_reports ts busy_manager))
    ⊎ ((x : Error) × (get_tasks running_worker ≡ err x)
        × (update_tasks_from_worker "first" (serving running_worker) busy_manager ≡ busy_manager))
update_tasks_from_worker-both_example =
    update_tasks_from_worker-both encoders parsed "first" "http://first" (serving running_worker)
      busy_manager running_worker heard address (serving-Serves running_worker)

answers_always : (status : ℕ) → Answering (up status)
answers_always status url body = (reply status, refl)

process_tasks-drains_example :
    pending_events event_queue (process_tasks (map quiet (up 201 ∷ up 500 ∷ [])) fresh) ≡ []
process_tasks-drains_example =
    process_tasks-drains event_queue (up 201 ∷ up 500 ∷ []) fresh
      (request 7 scheduled ∷ request 8 scheduled ∷ []) refl refl answering
  where
    answering : (net : Net) → In net (up 201 ∷ up 500 ∷ []) → Answering net
    answering net (inl e) = subst Answering e (answers_always 201)
    answering net (inr (inl e)) = subst Answering e (answers_always 500)
    answering net (inr (inr h)) = elim h [ ]
