-- ===== src/Worker/Api.antt =====
-- internal/worker/api.go: the handlers of the worker's HTTP endpoints, from a request to what is
-- written and the new state.
use task_orchestrator.Prelude.{Option, none, some, List, String, str_eq, if◌then◌else◌}
use task_orchestrator.Errors.{ok, err}
use task_orchestrator.HttpApi.{
  Written, header_only, write_json, write_error, status_ok, status_created, status_no_content,
  status_bad_request, status_not_found, status_internal_error, status_unavailable,
}
use task_orchestrator.Stats.{Stats}
use task_orchestrator.Task.{Task, Uuid, completed}
use task_orchestrator.Worker.{Parts, Worker}
use task_orchestrator.Worker.State.{lookup_task, snapshot_stats}
use task_orchestrator.Worker.Run.{add_task, get_tasks}

module _ {p : Parts} where
  unfoldable pub start_task_handler : String → Worker p → Worker p × Written Task
  start_task_handler body w = elim (p.codec.decode_event body) [
    | none ↦ (w, write_error status_bad_request "error unmarshalling body")
    | some te ↦ (add_task te.task w, write_json status_created te.task)
  ]

  unfoldable pub get_tasks_handler : Worker p → Written (List Task)
  get_tasks_handler w = elim (get_tasks w) [
    | err e ↦ write_error status_internal_error "could not list tasks"
    | ok tasks ↦ write_json status_ok tasks
  ]

  -- `parse` is `uuid.Parse`.
  unfoldable pub stop_task_handler :
      (String → Option Uuid) → String → Worker p → Worker p × Written Task
  stop_task_handler parse task_id w =
      if str_eq task_id ""
      then (w, write_error status_bad_request "no taskID passed in request")
      else elim (parse task_id) [
        | none ↦ (w, write_error status_bad_request "taskID is not a valid uuid")
        | some id ↦ elim (lookup_task id w) [
          | none ↦ (w, write_error status_not_found "task does not exist on worker")
          | some t ↦ (add_task (record t { state = completed }) w, header_only status_no_content)
        ]
      ]

  unfoldable pub get_stats_handler : Worker p → Written (Stats p.fl.F)
  get_stats_handler w = elim (snapshot_stats w) [
    | none ↦ write_error status_unavailable "stats not collected yet"
    | some s ↦ write_json status_ok s
  ]
