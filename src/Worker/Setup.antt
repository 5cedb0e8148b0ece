-- ===== src/Worker/Setup.antt =====
-- internal/worker/worker.go: `NewWorker`, `Close`, and the background loops over their wakes.
use task_orchestrator.Prelude.{ℕ, Bool, Option, none, some, List, [], ◌∷◌, String}
use task_orchestrator.Docker.{DockerClient}
use task_orchestrator.Errors.{Error, wrapped, Result, ok, err}
use task_orchestrator.Float64.{Float64}
use task_orchestrator.Manager.{Codec}
use task_orchestrator.Queue.{Inner, new}
use task_orchestrator.Stats.{Readings}
use task_orchestrator.Store.Bolt.{Bolt}
use task_orchestrator.Store.Persistent.{Json}
use task_orchestrator.Store.Choice.{Opened, get_dbs}
use task_orchestrator.Task.{Task, TaskEvent, Uuid, Time}
use task_orchestrator.Worker.{Parts, Worker}
use task_orchestrator.Worker.Run.{World, run_tasks_round}
use task_orchestrator.Worker.Watch.{collect_stats, update_tasks}

-- The libraries and the surroundings that a worker is built over.
pub record Libraries : Type 1 where
  pub fl : Float64
  pub queue : Inner Task
  pub docker : DockerClient
  pub codec : Codec
  pub uuid_string : Uuid → String
  pub bolt : Bolt
  pub task_json : Json Task
  pub event_json : Json TaskEvent

pub record Built : Type 1 where
  pub parts : Parts
  pub worker : Worker parts

module _ (libs : Libraries) where
  abbrev pub assemble : Opened Task → Built
  assemble task_db = record {
    parts = record {
      fl = libs.fl;
      tasks = task_db.store;
      queue = libs.queue;
      docker = libs.docker;
      codec = libs.codec;
      uuid_string = libs.uuid_string;
    };
    worker = record { db = task_db.state; queue = new libs.queue; stats = none };
  }

  -- The event store that `GetDBs` opened too is not kept.
  unfoldable pub new_worker :
      String → String → Bool → libs.bolt.Files → libs.bolt.Files × Result Built
  new_worker name db_type fresh_start fs =
      let (fs', opened) =
        get_dbs libs.bolt libs.task_json libs.event_json db_type name fresh_start fs in
      elim opened [
        | err e ↦ (fs', err (wrapped "worker.NewWorker" e))
        | ok dbs ↦ (fs', ok (assemble dbs.task_db))
      ]

module _ {p : Parts} where
  unfoldable pub close : Worker p → Worker p × Option Error
  close w =
      let (db, e) = p.tasks.close w.db in
      (record w { db = db }, elim e [ none ↦ none | some x ↦ some (wrapped "worker.Close" x) ])

  -- `RunTasks`, up to the wake after which `done` is closed. Each wake comes with what happened
  -- since the last, the time, and what happens during the Docker calls.
  unfoldable pub run_tasks :
      List ((World p → World p) × Time × (Worker p → Worker p)) → World p → World p
  run_tasks [] world = world
  run_tasks ((others, now, during) ∷ wakes) world =
      run_tasks wakes (run_tasks_round now during (others world))

  -- `CollectStats`, which collects before it waits.
  unfoldable pub collect_stats_loop :
      List ((Worker p → Worker p) × Readings p.fl.F) → Worker p → Worker p
  collect_stats_loop [] w = w
  collect_stats_loop ((others, readings) ∷ wakes) w =
      collect_stats_loop wakes (collect_stats readings (others w))

  -- `UpdateTasks` for some rounds; it never ends by itself.
  unfoldable pub update_tasks_loop :
      List ((Worker p → Worker p) × (ℕ → p.docker.D) × (ℕ → Worker p → Worker p))
      → Worker p
      → Worker p
  update_tasks_loop [] w = w
  update_tasks_loop ((others, d, during) ∷ rounds) w =
      update_tasks_loop rounds (update_tasks d during (others w))
