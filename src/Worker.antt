-- ===== src/Worker.antt =====
-- internal/worker: the worker's state and what it is built on.
pub mod State
pub mod Container
pub mod Run
pub mod Watch
pub mod Fields
pub mod Watching
pub mod Running
pub mod Api
pub mod Routes
pub mod Setup
pub mod Restarting
pub mod Stopping
pub mod Rerunning
use task_orchestrator.Prelude.{ℕ, Option, String}
use task_orchestrator.Docker.{DockerClient}
use task_orchestrator.Float64.{Float64}
use task_orchestrator.Manager.{Codec}
use task_orchestrator.Queue.{Inner, Queue}
use task_orchestrator.Stats.{Stats}
use task_orchestrator.Store.{Store}
use task_orchestrator.Task.{Task, Uuid}

-- What a worker is put together from.
pub record Parts : Type 1 where
  pub fl : Float64
  pub tasks : Store Task
  pub queue : Inner Task
  pub docker : DockerClient
  pub codec : Codec
  pub uuid_string : Uuid → String

-- What `Worker` guards with its mutex. The name, the number and the logger are left out.
pub record Worker (p : Parts) : Type 0 where
  pub db : p.tasks.S
  pub queue : Queue p.queue
  pub stats : Option (Stats p.fl.F)
