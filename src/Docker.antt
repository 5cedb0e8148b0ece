-- ===== src/Docker.antt =====
-- internal/task/docker.go: containers of tasks, over the client of the Docker API, which is a
-- parameter.
use task_orchestrator.Prelude.{Option, none, some, String}
use task_orchestrator.Prelude.Int.{ℤ}
use task_orchestrator.Errors.{Error, origin_of, Result, ok, err}
use task_orchestrator.Task.{Task, PortSet, PortMap}

-- The fields that `NewConfig` sets; the others stay zero.
pub record Config : Type 0 where
  pub name : String
  pub exposed_ports : PortSet
  pub image : String
  pub memory : ℤ
  pub disk : ℤ
  pub restart_policy : String

-- What the code reads of an inspected container.
pub record Inspection : Type 0 where
  pub status : String
  pub ports : PortMap

-- The daemon D behind the client. A call returns the daemon after it, and an error or nil.
pub record DockerClient : Type 1 where
  pub D : Type 0
  pub new : D → Option Error
  pub image_pull : String → D → D × Option Error
  pub container_create : Config → D → D × Result String
  pub container_start : String → D → D × Option Error
  pub container_logs : String → D → Option Error
  pub container_stop : String → D → D × Option Error
  pub container_remove : String → D → D × Option Error
  pub container_inspect : String → D → Result Inspection

pub record DockerResult : Type 0 where
  pub error : Option Error
  pub action : String
  pub container_id : String
  pub result : String

pub record DockerInspectResponse : Type 0 where
  pub error : Option Error
  pub container : Option Inspection

unfoldable pub new_config : Task → Config
new_config t = record {
  name = t.name;
  exposed_ports = t.exposed_ports;
  image = t.image;
  memory = t.memory;
  disk = t.disk;
  restart_policy = t.restart_policy;
}

abbrev pub new_docker_result : Option Error → String → String → String → DockerResult
new_docker_result e action container_id result = record {
  error = e;
  action = action;
  container_id = container_id;
  result = result;
}

-- `NewDockerResult(err, "", "", "")`
abbrev pub failure : Error → DockerResult
failure e = new_docker_result (some e) "" "" ""

module _ (c : DockerClient) where
  -- `NewDocker`, whose handle is the configuration.
  unfoldable pub new_docker : Config → c.D → Result Config
  new_docker config d = elim (c.new d) [
    | some e ↦ err (origin_of "task.NewDocker" e)
    | none ↦ ok config
  ]

  -- From the created container on.
  start_created : String → c.D → c.D × DockerResult
  start_created id d =
      let (d', e) = c.container_start id d in
      elim e [
        | some e ↦ (d', failure (origin_of "task.Docker.Run" e))
        | none ↦ elim (c.container_logs id d') [
          | some e ↦ (d', failure (origin_of "task.Docker.Run" e))
          | none ↦ (d', new_docker_result none "start" id "success")
        ]
      ]

  create_and_start : Config → c.D → c.D × DockerResult
  unfolding start_created
  create_and_start config d =
      let (d', created) = c.container_create config d in
      elim created [
        | err e ↦ (d', failure (origin_of "task.Docker.Run" e))
        | ok id ↦ start_created id d'
      ]

  unfoldable pub docker_run : Config → c.D → c.D × DockerResult
  unfolding create_and_start
  docker_run config d =
      let (d', e) = c.image_pull config.image d in
      elim e [
        | some e ↦ (d', failure (origin_of "task.Docker.Run" e))
        | none ↦ create_and_start config d'
      ]

  unfoldable pub docker_stop : String → c.D → c.D × DockerResult
  docker_stop id d =
      let (d', e) = c.container_stop id d in
      let (d'', e') = c.container_remove id d' in
      elim e [
        | some e ↦ (d', failure (origin_of "task.Docker.Stop" e))
        | none ↦ elim e' [
          | some e ↦ (d'', failure (origin_of "task.Docker.Stop" e))
          | none ↦ (d'', new_docker_result none "stop" id "success")
        ]
      ]

  unfoldable pub docker_inspect : String → c.D → DockerInspectResponse
  docker_inspect id d = elim (c.container_inspect id d) [
    | err e ↦ record { error = some (origin_of "task.Docker.Inspect" e); container = none }
    | ok resp ↦ record { error = none; container = some resp }
  ]
