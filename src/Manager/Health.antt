-- ===== src/Manager/Health.antt =====
-- internal/manager/manager.go: the health checks, which restart tasks that fail them.
use task_orchestrator.Prelude.{
  ℕ, suc, not, Option, none, some, List, [], ◌∷◌, String, ◌==◌, if◌then◌else◌,
}
use task_orchestrator.Errors.{Error, origin, origin_of, worker_unreachable, errors_is, ok, err}
use task_orchestrator.HttpApi.{status_ok}
use task_orchestrator.Task.{Task, TaskEvent, Uuid, Time, running}
use task_orchestrator.Manager.{Parts, Manager, Net, unreachable, answered}
use task_orchestrator.Manager.Pure.{
  skip_not_eligible, skip_restart_max, action_check, action_restart, decide_health_action,
  get_host_port, no_host_port, panics, host_port, health_check_url,
}
use task_orchestrator.Manager.State.{worker_for_task, enqueue_event, begin_restart}
use task_orchestrator.Manager.Send.{require_worker_address, post_task_event, get_tasks}

-- The outcome of a probe; `probe_panics` ends the process.
pub data Probe : Type 0 where
  healthy probe_panics : Probe
  unhealthy : Error → Probe

-- What one round brings to the handling of one task: the answers to its requests, the uuid that
-- `uuid.New` makes and the time.
pub record Moment : Type 0 where
  pub net : Net
  pub fresh_id : Uuid
  pub now : Time

-- The request to the container.
unfoldable pub probe_url : String → Net → Probe
probe_url url net = elim (net.get url) [
  | unreachable cause ↦ unhealthy (origin_of "manager.checkTaskHealth" cause)
  | answered resp ↦
      if not (resp.status == status_ok)
      then unhealthy (origin "manager.checkTaskHealth")
      else healthy
]

unfoldable pub restart_event : Moment → Task → TaskEvent
restart_event at t = record { id = at.fresh_id; state = running; timestamp = at.now; task = t }

module _ {p : Parts} where
  unfoldable pub check_task_health : Task → Net → Manager p → Probe
  unfolding probe_url
  check_task_health t net m = elim (worker_for_task t.id m) [
    | none ↦ unhealthy (origin "manager.checkTaskHealth")
    | some worker_name ↦ elim (get_host_port t.host_ports) [
      | no_host_port ↦ unhealthy (origin "manager.checkTaskHealth")
      | panics ↦ probe_panics
      | host_port port ↦ elim (require_worker_address "manager.checkTaskHealth" worker_name m) [
        | err e ↦ unhealthy e
        | ok addr ↦ elim (health_check_url p.parse_url addr port t.health_check) [
          | err e ↦ unhealthy (origin_of "manager.checkTaskHealth" e)
          | ok url ↦ probe_url url net
        ]
      ]
    ]
  ]

  unfoldable pub restart_task : Moment → Task → Manager p → Manager p
  unfolding restart_event
  restart_task at t m = elim (worker_for_task t.id m) [
    | none ↦ m
    | some w ↦ elim (require_worker_address "manager.restartTask" w m) [
      | err e ↦ m
      | ok addr ↦
          let (m', bumped) = begin_restart t.id m in
          elim bumped [
            | none ↦ m'
            | some t' ↦
                let te = restart_event at t' in
                elim (post_task_event p.codec "manager.restartTask" addr te at.net) [
                  | err e ↦ if errors_is e worker_unreachable then enqueue_event te m' else m'
                  | ok new_task ↦ m'
                ]
          ]
    ]
  ]

  -- One turn of the loop of `doHealthChecks`; `none` is a panic.
  unfoldable pub check_one : Moment → Task → Manager p → Option (Manager p)
  unfolding decide_health_action
  check_one at t m = elim (decide_health_action t) [
    | skip_not_eligible ↦ some m
    | skip_restart_max ↦ some m
    | action_check ↦ elim (check_task_health t at.net m) [
      | healthy ↦ some m
      | unhealthy e ↦ some (restart_task at t m)
      | probe_panics ↦ none
    ]
    | action_restart ↦ some (restart_task at t m)
  ]

  -- The i-th task of the snapshot is handled at the i-th moment.
  unfoldable pub check_each : (ℕ → Moment) → ℕ → List Task → Manager p → Option (Manager p)
  check_each at i [] m = some m
  check_each at i (t ∷ ts) m = elim (check_one (at i) t m) [
    | none ↦ none
    | some m' ↦ check_each at (suc i) ts m'
  ]

  unfoldable pub do_health_checks : (ℕ → Moment) → Manager p → Option (Manager p)
  unfolding check_each
  do_health_checks at m = elim (get_tasks m) [ err e ↦ some m | ok tasks ↦ check_each at 0 tasks m ]
