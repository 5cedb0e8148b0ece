-- ===== src/Wire/Polling.antt =====
-- The manager polls a worker: internal/manager/manager.go with internal/worker/api.go.
use task_orchestrator.Prelude.{◌≡◌, refl, ◌∙◌, ◌⊎◌, inl, inr, Option, some, List, String}
use task_orchestrator.Errors.{Error, ok, err, Result-cases}
use task_orchestrator.HttpApi.{write_json, write_error, status_ok}
use task_orchestrator.Task.{Task, Uuid}
use task_orchestrator.Manager.{Parts, Manager, Net, answered}
use task_orchestrator.Manager.Send.{
  worker_address, reports_from_worker, apply_reports, update_tasks_from_worker,
}
use task_orchestrator.Worker as Worker
use task_orchestrator.Worker.Api.{get_tasks_handler}
use task_orchestrator.Worker.Run.{get_tasks}
use task_orchestrator.Wire.{Encoders, Travels, respond, Serves}

module _ {p : Parts} {q : Worker.Parts} (e : Encoders) (parse : String → Option Uuid) where
  -- When what the worker lists is decoded as it was encoded, and the GET reaches the handlers of a worker
  -- whose address is known: one poll merges exactly the tasks that the worker lists, in its order,
  -- into the manager's; if the worker cannot list them, the poll changes nothing.
  pub update_tasks_from_worker-both :
      (name addr : String) (net : Net) (m : Manager p) (w : Worker.Worker q)
      → ((ts : List Task) → get_tasks w ≡ ok ts → Travels e.encode_tasks p.codec.decode_tasks ts)
      → worker_address name m ≡ some addr
      → Serves e parse p.uuid_string addr w net
      → ((ts : List Task) × (get_tasks w ≡ ok ts)
          × (update_tasks_from_worker name net m ≡ apply_reports ts m))
        ⊎ ((x : Error) × (get_tasks w ≡ err x) × (update_tasks_from_worker name net m ≡ m))
  unfolding update_tasks_from_worker reports_from_worker apply_reports respond get_tasks_handler
      write_json write_error
  update_tasks_from_worker-both name addr net m w tasks at serves =
      elim (Result-cases (get_tasks w)) [
        | inl (ts, listed) ↦
            let (text, written, read) = tasks ts listed in
            let reply : net.get _ ≡ answered (record { status = status_ok; body = text }) =
              serves.listed ∙ (rw (listed, written, get_tasks_handler) refl) in
            inl (ts, listed, rw (at, reply, read, reports_from_worker) refl)
        | inr (x, failed) ↦
            inr (
              x,
              failed,
              rw (at, serves.listed, failed, get_tasks_handler, reports_from_worker) refl,
            )
      ]
