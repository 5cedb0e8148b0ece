-- ===== src/System.antt =====
-- A manager and one of its workers at work together: internal/manager and internal/worker, with the
-- requests between them. A step is one call under a lock, one request that the worker handles, or
-- one outcome of a request, so that between any two of them any steps of the other program, and of
-- the other goroutines of the same one, may come.
pub mod Presence
pub mod Routed
pub mod Running
pub mod Stopping
use task_orchestrator.Prelude.{◌≡◌, ◌≢◌, Option, none, some, List, ◌∷◌, ◌++◌, String}
use task_orchestrator.Task.{Task, TaskEvent, Uuid}
use task_orchestrator.Manager.{Parts, Manager}
use task_orchestrator.Manager.Routing.{
  Helper, puts, enqueues, dequeues, assigns, unassigns, reports, restarts, retires, picks,
}
use task_orchestrator.Manager.State.{assign_task, unassign_task}
use task_orchestrator.Worker as Worker
use task_orchestrator.Worker.Api.{start_task_handler, stop_task_handler}
use task_orchestrator.Worker.State.{dequeue_task, lookup_task, put_task, upsert_task}

-- The worker that a call of a locked helper routes a task to.
abbrev pub routes_to : {p : Parts} {m u : Manager p} → Helper m u → Option String
routes_to (assigns worker te e) = some worker
routes_to (puts t e) = none
routes_to (enqueues te e) = none
routes_to (dequeues e) = none
routes_to (unassigns worker id e) = none
routes_to (reports t e) = none
routes_to (restarts id e) = none
routes_to (retires worker id e) = none
routes_to (picks t e) = none

-- Both programs, and what is under way: the tasks that `RunTask` has dequeued and neither found in
-- the store nor stored yet; the events that are assigned to the worker and whose POST it has not
-- handled; and those whose delivery ended without the worker queueing the task and without the
-- manager taking the assignment back.
pub record System (p : Parts) (q : Worker.Parts) : Type 0 where
  pub manager : Manager p
  pub worker : Worker.Worker q
  pub hand : List Task
  pub sending : List TaskEvent
  pub refused : List TaskEvent

-- A step of the manager and of the worker that it knows as `name`. The worker handles a request of
-- anyone; `RunTask` dequeues a task, finds it in the store, or stores it; a task is rewritten under
-- the lock, which leaves its uuid alone. The manager calls a locked helper that routes no task to
-- the worker; or it assigns an event to the worker, and later the worker handles its POST, or the
-- manager takes the assignment back since no answer came, or it gives up: the event does not encode,
-- or the answer is not the one that it expects.
pub data Step {p : Parts} {q : Worker.Parts} (parse : String → Option Uuid) (name : String)
    (s : System p q) : System p q → Type 0 where
  posts :
      (body : String)
      → Step parse name s (record s { worker = (start_task_handler body s.worker).0 })
  deletes :
      (task_id : String)
      → Step parse name s (record s { worker = (stop_task_handler parse task_id s.worker).0 })
  takes :
      (t : Task)
      → (dequeue_task s.worker).0 ≡ some t
      → Step parse name s (record s { worker = (dequeue_task s.worker).1; hand = t ∷ s.hand })
  finds :
      (before after : List Task) (t found : Task)
      → s.hand ≡ before ++ t ∷ after
      → lookup_task t.id s.worker ≡ some found
      → Step parse name s (record s { hand = before ++ after })
  stores :
      (before after : List Task) (t : Task)
      → s.hand ≡ before ++ t ∷ after
      → Step parse name s (record s { worker = put_task t s.worker; hand = before ++ after })
  upserts :
      (base : Task) (apply : Task → Task)
      → ((t : Task) → (apply t).id ≡ t.id)
      → Step parse name s (record s { worker = upsert_task base apply s.worker })
  helps :
      {m : Manager p} (h : Helper s.manager m)
      → routes_to h ≢ some name
      → Step parse name s (record s { manager = m })
  sends :
      (te : TaskEvent)
      → Step parse name s
          (record s { manager = assign_task name te s.manager; sending = te ∷ s.sending })
  handles :
      (before after : List TaskEvent) (te : TaskEvent) (body : String)
      → s.sending ≡ before ++ te ∷ after
      → p.codec.encode_event te ≡ some body
      → q.codec.decode_event body ≡ some te
      → Step parse name s
          (record s { worker = (start_task_handler body s.worker).0; sending = before ++ after })
  misses :
      (before after : List TaskEvent) (te : TaskEvent)
      → s.sending ≡ before ++ te ∷ after
      → Step parse name s (record s {
        manager = unassign_task name te.task.id s.manager;
        sending = before ++ after;
      })
  gives_up :
      (before after : List TaskEvent) (te : TaskEvent)
      → s.sending ≡ before ++ te ∷ after
      → Step parse name s (record s { sending = before ++ after; refused = te ∷ s.refused })

pub data Steps {p : Parts} {q : Worker.Parts} (parse : String → Option Uuid) (name : String)
    (s : System p q) : System p q → Type 0 where
  start : Steps parse name s s
  later : {t u : System p q} → Steps parse name s t → Step parse name t u → Steps parse name s u
