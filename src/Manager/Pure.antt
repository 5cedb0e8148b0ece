-- ===== src/Manager/Pure.antt =====
-- internal/manager/pure.go: URLs, the merge of a worker's report, and the choice of what a health
-- check does with a task.
use task_orchestrator.Prelude.{
  ◌&&◌, ◌||◌, not, Option, none, some, [], ◌∷◌, String, str_append, str_eq, if◌then◌else◌,
}
use task_orchestrator.Prelude.Int.{ℤ, pos, leb_ℤ}
use task_orchestrator.Errors.{foreign, Result, ok, err}
use task_orchestrator.Task.{
  Task, running, failed, state_eq, new_state_machine, is_valid_transition, PortMap,
}

unfoldable pub worker_tasks_url : String → String
worker_tasks_url worker_addr = str_append worker_addr "/tasks"

-- `url.Parse` is a parameter: scheme and host name, or an error.
unfoldable pub health_check_url :
    (String → Option (String × String)) → String → String → String → Result String
health_check_url parse_url worker_addr host_port health_check_path = elim (parse_url worker_addr) [
  | none ↦ err foreign
  | some (scheme, hostname) ↦
      if str_eq scheme "" || str_eq hostname ""
      then err foreign
      else if str_eq host_port ""
      then err foreign
      else ok (
          str_append scheme (
            str_append "://"
              (str_append hostname (str_append ":" (str_append host_port health_check_path)))))
]

unfoldable pub merge_task_update : Task → Task → Task
merge_task_update persisted incoming =
    let sm = new_state_machine in
    if not (state_eq persisted.state incoming.state)
      && not (is_valid_transition sm persisted.state incoming.state)
    then persisted
    else record persisted {
      state = incoming.state;
      start_time = incoming.start_time;
      finish_time = incoming.finish_time;
      container_id = incoming.container_id;
      exposed_ports = incoming.exposed_ports;
      host_ports = incoming.host_ports;
    }

pub data HealthAction : Type 0 where
  skip_not_eligible skip_restart_max action_check action_restart : HealthAction

abbrev pub task_restart_max : ℤ
task_restart_max = pos 3

unfoldable pub decide_health_action : Task → HealthAction
decide_health_action t =
    if not (state_eq t.state running) && not (state_eq t.state failed)
    then skip_not_eligible
    else if leb_ℤ task_restart_max t.restart_count
    then skip_restart_max
    else if state_eq t.state running
    then action_check
    else action_restart

-- `panics` is the index fault on an entry with no binding.
pub data HostPort : Type 0 where
  no_host_port panics : HostPort
  host_port : String → HostPort

-- The first entry that the iteration yields: the entries are listed in its order.
unfoldable pub get_host_port : PortMap → HostPort
get_host_port none = no_host_port
get_host_port (some []) = no_host_port
get_host_port (some ((k, []) ∷ rest)) = panics
get_host_port (some ((k, b ∷ bs) ∷ rest)) = host_port b.host_port
