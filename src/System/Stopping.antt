-- ===== src/System/Stopping.antt =====
-- A stop of a task that the manager has routed to a worker: internal/manager/manager.go with
-- internal/worker.
use task_orchestrator.Prelude.{
  ◌≢◌, sym, ◌∙◌, inl, inr, false, Option, none, some, List, map, length, String, str_eq, [], In,
  subst, ◌≡◌,
}
use task_orchestrator.Queue.{InnerLaws}
use task_orchestrator.Store.{StoreLaws, IsReliable}
use task_orchestrator.Task.{Uuid, Time}
use task_orchestrator.Worker.{Parts}
use task_orchestrator.Worker.Setup.{run_tasks}
use task_orchestrator.Worker.Run.{World}
use task_orchestrator.Wire.Delivering.{waiting}
use task_orchestrator.Errors.{ok}
use task_orchestrator.Manager.{Parts as ManagerParts, Net}
use task_orchestrator.Manager.Send.{stop_task, require_worker_address}
use task_orchestrator.Manager.State.{worker_for_task, retire_task}
use task_orchestrator.Wire.{Encoders, Serves}
use task_orchestrator.Wire.Delivering.{stop_task-both}
use task_orchestrator.System.Routed.{Asked, Steps-RoutedIsThere}
use task_orchestrator.System.Presence.{Has}
use task_orchestrator.System.{System, Steps}
use task_orchestrator.System.Running.{alone, run_tasks-stored}

-- When steps of the system lead from a state in which the manager routes no task to the worker to
-- one in which `RunTask` holds no task, and the worker then runs undisturbed for as many turns as
-- tasks wait, over a reliable store: a task that is routed to the worker, and whose delivery is
-- neither under way nor was given up, is retired by the next stop that reaches the worker, which has
-- it.
pub run_tasks-stoppable :
    {p : ManagerParts} {q : Parts} (e : Encoders) (parse : String → Option Uuid)
    (name addr : String) (events_laws : InnerLaws p.pending) (queue_laws : InnerLaws q.queue)
    (laws : StoreLaws q.tasks) (reliable : IsReliable q.tasks) (s u : System p q)
    (daemon : q.docker.D) (nows : List Time) (id : Uuid) (net : Net)
    → ((j : Uuid) → worker_for_task j s.manager ≢ some name)
    → Steps parse name s u
    → worker_for_task id u.manager ≡ some name
    → u.hand ≡ []
    → ¬ Asked id u.sending
    → ¬ Asked id u.refused
    → length nows ≡ length (waiting queue_laws u.worker)
    → require_worker_address "manager.stopTask" name u.manager ≡ ok addr
    → Serves e parse p.uuid_string addr
        (run_tasks (map alone nows) (record { worker = u.worker; daemon = daemon })).worker
        net
    → parse (p.uuid_string id) ≡ some id
    → str_eq (p.uuid_string id) "" ≡ false
    → stop_task name id net u.manager ≡ retire_task name id u.manager
run_tasks-stoppable {p} {q} e parse name addr events_laws queue_laws laws reliable s u daemon nows
      id net none_routed steps routed free sent kept l at serves parsed printed =
    let world : World q = record { worker = u.worker; daemon = daemon } in
    let there : Has queue_laws laws reliable id u.worker =
      elim (Steps-RoutedIsThere parse name queue_laws laws reliable s u steps
        (λ j r. absurd (none_routed j r)) id routed) [
          | inl has ↦ has
          | inr (inl (t, m, _)) ↦ absurd (subst (In t) free m)
          | inr (inr (inl asked)) ↦ absurd (sent asked)
          | inr (inr (inr asked)) ↦ absurd (kept asked)
        ] in
    let (t, found) = run_tasks-stored queue_laws laws reliable nows world id l there in
    elim (stop_task-both e parse events_laws queue_laws name addr id net u.manager
      (run_tasks (map alone nows) world).worker at serves parsed printed) [
        | inl (x, _, retired, _) ↦ retired
        | inr (missing, _, _) ↦ let no_task : some t ≡ none = sym found ∙ missing in cc no_task
      ]
