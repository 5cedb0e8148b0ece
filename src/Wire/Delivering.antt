-- ===== src/Wire/Delivering.antt =====
-- The manager sends a task to a worker, and stops one there: internal/manager/manager.go with
-- internal/worker/api.go.
use task_orchestrator.Prelude.{
  ◌≡◌, refl, ap, ◌∙◌, ◌⊎◌, inl, inr, false, Option, none, some, List, [], ◌∷◌, ◌++◌, String, str_eq,
  if◌then◌else◌, Option-cases,
}
use task_orchestrator.Errors.{ok}
use task_orchestrator.HttpApi.{Written, write_json, write_error, status_created}
use task_orchestrator.Node.{Node}
use task_orchestrator.Queue.{InnerLaws, enqueue}
use task_orchestrator.Store.{StoreLaws}
use task_orchestrator.Task.{Task, TaskEvent, Uuid, completed}
use task_orchestrator.Manager.{Parts, Manager, Net, answered}
use task_orchestrator.Manager.State.{worker_for_task, retire_task}
use task_orchestrator.Manager.Frames.{pending_events}
use task_orchestrator.Manager.Delivery.{deliver-created}
use task_orchestrator.Manager.Send.{deliver, stop_task, require_worker_address}
use task_orchestrator.Worker as Worker
use task_orchestrator.Worker.State as WorkerState
use task_orchestrator.Worker.Api.{start_task_handler, stop_task_handler}
use task_orchestrator.Worker.Run.{add_task}
use task_orchestrator.Wire.{Encoders, Travels, respond, Serves}

-- The tasks that wait at a worker.
abbrev pub waiting : {q : Worker.Parts} → InnerLaws q.queue → Worker.Worker q → List Task
waiting laws w = laws.items w.queue.inner_queue

pub start_task_handler-decoded :
    {q : Worker.Parts} (body : String) (te : TaskEvent) (w : Worker.Worker q)
    → q.codec.decode_event body ≡ some te
    → start_task_handler body w ≡ (add_task te.task w, write_json status_created te.task)
unfolding start_task_handler
start_task_handler-decoded body te w h = rw (h, start_task_handler) refl

module _ {q : Worker.Parts} (tasks_laws : InnerLaws q.queue) where
  pub waiting-add_task :
      (t : Task) (w : Worker.Worker q)
      → waiting tasks_laws (add_task t w) ≡ waiting tasks_laws w ++ t ∷ []
  unfolding add_task WorkerState.enqueue_task enqueue
  waiting-add_task t w = tasks_laws.items-enqueue t w.queue.inner_queue

module _ {p : Parts} {q : Worker.Parts} (e : Encoders) (parse : String → Option Uuid)
    (queue_laws : InnerLaws p.pending) (tasks_laws : InnerLaws q.queue) where
  -- When the event and its task are encoded as they are decoded, and the POST reaches the handlers of a worker:
  -- after the delivery of an event the manager routes its task to the worker, and has stored the
  -- task as it was sent (if its store takes the write) and queued nothing again; and the worker has
  -- the same task at the end of its queue, and its stored tasks are as they were.
  pub deliver-both :
      (laws : StoreLaws p.tasks) (n : Node) (te : TaskEvent) (net : Net) (m : Manager p)
      (w : Worker.Worker q)
      → Travels p.codec.encode_event q.codec.decode_event te
      → Travels e.encode_task p.codec.decode_task te.task
      → Serves e parse p.uuid_string n.api w net
      → (p.tasks.put (p.uuid_string te.task.id) te.task m.task_db).1 ≡ none
      → (body : String) × (p.codec.encode_event te ≡ some body)
        × (pending_events queue_laws (deliver n te net m) ≡ pending_events queue_laws m)
        × (worker_for_task te.task.id (deliver n te net m) ≡ some n.name)
        × ((k : String)
            → laws.view (deliver n te net m).task_db k ≡ (
                if str_eq (p.uuid_string te.task.id) k
                then some te.task
                else laws.view m.task_db k))
        × (waiting tasks_laws (start_task_handler body w).0 ≡ waiting tasks_laws w ++ te.task ∷ [])
        × ((start_task_handler body w).0.db ≡ w.db)
  unfolding respond write_json add_task WorkerState.enqueue_task
  deliver-both laws n te net m w events tasks serves put =
      let (body, encoded, decoded) = events in
      let (text, written, read) = tasks in
      let handled = start_task_handler-decoded body te w decoded in
      let reply : net.post _ body ≡ answered (record { status = status_created; body = text }) =
        serves.posted body
        ∙ ap (λ (r : Worker.Worker q × Written Task). answered (respond e e.encode_task r.1))
            handled
        ∙ (rw written refl) in
      let (queued, routed, stored) =
        deliver-created n te net m queue_laws laws (record { status = status_created; body = text })
          te.task (body, encoded, reply) refl read put in
      (
        body,
        encoded,
        queued,
        routed,
        stored,
        ap (λ (r : Worker.Worker q × Written Task). waiting tasks_laws r.0) handled
            ∙ waiting-add_task tasks_laws te.task w,
        ap (λ (r : Worker.Worker q × Written Task). r.0.db) handled,
      )

  -- When the DELETE reaches the handlers of a worker that prints and parses the uuid of the task,
  -- which is not printed as the empty text: if the worker has the task, the worker gets it once
  -- more, as completed, at the end of its queue, and the manager retires it; if not, neither
  -- changes.
  pub stop_task-both :
      (worker addr : String) (id : Uuid) (net : Net) (m : Manager p) (w : Worker.Worker q)
      → require_worker_address "manager.stopTask" worker m ≡ ok addr
      → Serves e parse p.uuid_string addr w net
      → parse (p.uuid_string id) ≡ some id
      → str_eq (p.uuid_string id) "" ≡ false
      → ((t : Task) × (WorkerState.lookup_task id w ≡ some t)
          × (stop_task worker id net m ≡ retire_task worker id m)
          × (waiting tasks_laws (stop_task_handler parse (p.uuid_string id) w).0
              ≡ waiting tasks_laws w ++ record t { state = completed } ∷ []))
        ⊎ ((WorkerState.lookup_task id w ≡ none)
            × (stop_task worker id net m ≡ m)
            × ((stop_task_handler parse (p.uuid_string id) w).0 ≡ w))
  unfolding stop_task stop_task_handler respond write_error
  stop_task-both worker addr id net m w at serves parsed printed =
      elim (Option-cases (WorkerState.lookup_task id w)) [
        | inl missing ↦
            let reply = serves.deleted id in
            inr (
              missing,
              rw (at, reply, printed, parsed, missing, stop_task) refl,
              rw (printed, parsed, missing, stop_task_handler) refl,
            )
        | inr (t, found) ↦
            let reply = serves.deleted id in
            inl (
              t,
              found,
              rw (at, reply, printed, parsed, found, stop_task) refl,
              (let handled : (stop_task_handler parse (p.uuid_string id) w).0
                      ≡ add_task (record t { state = completed }) w =
                    rw (printed, parsed, found, stop_task_handler) refl in
                  ap (waiting tasks_laws) handled
                  ∙ waiting-add_task tasks_laws (record t { state = completed }) w),
            )
      ]
