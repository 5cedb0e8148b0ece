-- ===== src/Worker/Run.antt =====
-- internal/worker/worker.go: how a queued task is started or stopped. The Docker calls take time, so
-- an argument `during` stands for what other goroutines do to the worker's state before the write
-- that follows them.
use task_orchestrator.Prelude.{not, none, some, List, String, ◌==◌, if◌then◌else◌}
use task_orchestrator.Docker.{DockerResult, failure, new_config, new_docker, docker_stop}
use task_orchestrator.Errors.{origin, wrapped, Result, ok, err}
use task_orchestrator.Task.{
  Task, State, scheduled, running, completed, failed, new_state_machine, is_valid_transition, Time,
  PortMap,
}
use task_orchestrator.Worker.{Parts, Worker}
use task_orchestrator.Worker.State.{
  lookup_task, list_tasks, put_task, upsert_task, enqueue_task, dequeue_task, queue_len,
}
use task_orchestrator.Worker.Container.{not_started, started, start_container}

-- The writes that `StartTask` makes: after a failure, and after a success.
abbrev pub mark_failed : Time → Task → Task
mark_failed now t = record t { start_time = now; state = failed }

abbrev pub mark_running : Time → String → PortMap → Task → Task
mark_running now id ports t = record t {
  start_time = now;
  container_id = id;
  host_ports = ports;
  state = running;
}

-- The write that `StopTask` makes.
abbrev pub mark_completed : Time → Task → Task
mark_completed now t = record t { finish_time = now; state = completed }

-- A worker with the Docker daemon that it drives.
pub record World (p : Parts) : Type 0 where
  pub worker : Worker p
  pub daemon : p.docker.D

module _ {p : Parts} where
  unfoldable pub start_task : Time → (Worker p → Worker p) → Task → World p → World p × DockerResult
  start_task now during t world =
      let (d, outcome) = start_container p.docker t world.daemon in
      let w = during world.worker in
      elim outcome [
        | not_started r ↦ (record { worker = upsert_task t (mark_failed now) w; daemon = d }, r)
        | started r ports ↦ (
          record { worker = upsert_task t (mark_running now r.container_id ports) w; daemon = d },
          r,
        )
      ]

  unfoldable pub stop_task : Time → (Worker p → Worker p) → Task → World p → World p × DockerResult
  stop_task now during t world = elim (new_docker p.docker (new_config t) world.daemon) [
    | err e ↦ (record world { worker = during world.worker }, failure (wrapped "worker.StopTask" e))
    | ok _ ↦
        let (d, r) = docker_stop p.docker t.container_id world.daemon in
        let w = during world.worker in
        elim r.error [
          | some e ↦ (
            record { worker = w; daemon = d },
            record r { error = some (wrapped "worker.StopTask" e) },
          )
          | none ↦ (record { worker = upsert_task t (mark_completed now) w; daemon = d }, r)
        ]
  ]

  -- `RunTask` on a task that came off the queue, in a state that the machine accepts.
  unfoldable pub dispatch :
      Time → (Worker p → Worker p) → Task → State → World p → World p × DockerResult
  unfolding start_task stop_task
  dispatch now during t scheduled world = start_task now during t world
  dispatch now during t completed world = stop_task now during t world
  dispatch now during t _ world = (world, failure (origin "worker.RunTask"))

  -- `RunTask` on a task that came off the queue. A task that the store has never seen is stored
  -- as it is.
  unfoldable pub run_dequeued :
      Time → (Worker p → Worker p) → Task → World p → World p × DockerResult
  unfolding dispatch
  run_dequeued now during queued world =
      let found = lookup_task queued.id world.worker in
      let persisted : Task = elim found [ none ↦ queued | some t ↦ t ] in
      let stored : Worker p = elim found [
        | none ↦ put_task queued world.worker
        | some t ↦ world.worker
      ] in
      let world' : World p = record world { worker = stored } in
      if not (is_valid_transition new_state_machine persisted.state queued.state)
      then (world', failure (origin "worker.RunTask"))
      else dispatch now during queued queued.state world'

  unfoldable pub run_task : Time → (Worker p → Worker p) → World p → World p × DockerResult
  unfolding run_dequeued
  run_task now during world =
      let (next, rest) = dequeue_task world.worker in
      let world' : World p = record world { worker = rest } in
      elim next [
        | none ↦ (world', failure (origin "worker.RunTask"))
        | some queued ↦ run_dequeued now during queued world'
      ]

  -- One round of `RunTasks`.
  unfoldable pub run_tasks_round : Time → (Worker p → Worker p) → World p → World p
  run_tasks_round now during world =
      if not (queue_len world.worker == 0) then (run_task now during world).0 else world

  unfoldable pub add_task : Task → Worker p → Worker p
  add_task t w = enqueue_task t w

  unfoldable pub get_tasks : Worker p → Result (List Task)
  get_tasks w = list_tasks w
