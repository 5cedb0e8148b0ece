-- ===== src/Worker/Container.antt =====
-- internal/worker/worker.go: what `StartTask` and `InspectTask` do with Docker, before anything is
-- written to the worker's state.
use task_orchestrator.Prelude.{none, some, str_eq, if◌then◌else◌}
use task_orchestrator.Docker.{
  DockerClient, DockerResult, DockerInspectResponse, failure, new_config, new_docker, docker_run,
  docker_stop, docker_inspect,
}
use task_orchestrator.Errors.{wrapped, ok, err}
use task_orchestrator.Task.{Task, PortMap}

-- What the Docker part of `StartTask` comes to.
pub data Started : Type 0 where
  not_started : DockerResult → Started
  started : DockerResult → PortMap → Started

module _ (c : DockerClient) where
  -- After `Run` succeeded: the published ports replace the task's, unless there are none.
  inspect_started : Task → DockerResult → c.D → Started
  inspect_started t r d =
      let inspected = docker_inspect c r.container_id d in
      elim inspected.error [
        | some e ↦ not_started (record r { error = some (wrapped "worker.StartTask" e) })
        | none ↦ elim inspected.container [
          | none ↦ started r t.host_ports
          | some found ↦ elim found.ports [
            | none ↦ started r t.host_ports
            | some ports ↦ started r (some ports)
          ]
        ]
      ]

  -- What follows the call of `Run`.
  unfoldable pub after_run : Task → c.D × DockerResult → c.D × Started
  unfolding inspect_started
  after_run t (d', r) = elim r.error [
    | some e ↦ (d', not_started (record r { error = some (wrapped "worker.StartTask" e) }))
    | none ↦
        if str_eq r.result "success"
        then (d', inspect_started t r d')
        else (d', started r t.host_ports)
  ]

  run_container : Task → c.D → c.D × Started
  run_container t d = after_run t (docker_run c (new_config t) d)

  unfoldable pub start_container : Task → c.D → c.D × Started
  unfolding run_container
  start_container t d = elim (new_docker c (new_config t) d) [
    | err e ↦ (d, not_started (failure (wrapped "worker.StartTask" e)))
    | ok _ ↦
        let (d', stopped) = docker_stop c t.container_id d in
        if str_eq t.container_id "" then run_container t d else elim stopped.error [
          | some e ↦ (d', not_started (failure (wrapped "worker.StartTask" e)))
          | none ↦ run_container t d'
        ]
  ]

  unfoldable pub inspect_task : Task → c.D → DockerInspectResponse
  inspect_task t d = elim (new_docker c (new_config t) d) [
    | err e ↦ record { error = some (wrapped "worker.InspectTask" e); container = none }
    | ok _ ↦ docker_inspect c t.container_id d
  ]
