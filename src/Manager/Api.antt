-- ===== src/Manager/Api.antt =====
-- internal/manager/api.go: the handlers of the manager's HTTP endpoints, from a request to what is
-- written and the new state.
use task_orchestrator.Prelude.{Option, none, some, List, String, str_eq, if◌then◌else◌}
use task_orchestrator.Errors.{ok, err}
use task_orchestrator.HttpApi.{
  Written, header_only, write_json, write_error, status_ok, status_created, status_no_content,
  status_bad_request, status_not_found, status_internal_error,
}
use task_orchestrator.Task.{Task, TaskEvent, Uuid, Time, completed}
use task_orchestrator.Manager.{Parts, Manager}
use task_orchestrator.Manager.State.{lookup_task}
use task_orchestrator.Manager.Send.{add_task, get_tasks}

module _ {p : Parts} where
  -- A body that does not decode strictly is refused.
  unfoldable pub start_task_handler : String → Manager p → Manager p × Written TaskEvent
  start_task_handler body m = elim (p.codec.decode_event body) [
    | none ↦ (m, write_error status_bad_request "error unmarshalling body")
    | some te ↦ (add_task te m, write_json status_created te)
  ]

  -- `parse` is `uuid.Parse`; the event gets a fresh uuid and the time.
  unfoldable pub stop_task_handler :
      (String → Option Uuid) → Uuid → Time → String → Manager p → Manager p × Written TaskEvent
  stop_task_handler parse fresh_id now task_id m =
      if str_eq task_id ""
      then (m, write_error status_bad_request "no taskID passed in request")
      else elim (parse task_id) [
        | none ↦ (m, write_error status_bad_request "taskID is not a valid uuid")
        | some id ↦ elim (lookup_task id m) [
          | none ↦ (m, write_error status_not_found "task does not exist on manager")
          | some t ↦ (
            add_task
                (record {
                  id = fresh_id;
                  state = completed;
                  timestamp = now;
                  task = record t { state = completed };
                })
                m,
            header_only status_no_content,
          )
        ]
      ]

  unfoldable pub get_tasks_handler : Manager p → Written (List Task)
  get_tasks_handler m = elim (get_tasks m) [
    | err e ↦ write_error status_internal_error "could not list tasks"
    | ok tasks ↦ write_json status_ok tasks
  ]
