-- ===== src/Cli/Servers.antt =====
-- internal/cli/manager.go and worker.go: how a server is put together from its flags. What follows
-- is the loops, the HTTP server and, at the end, the close.
use task_orchestrator.Prelude.{Bool, List, String}
use task_orchestrator.Errors.{ok, err}
use task_orchestrator.Cli.{creating_manager, creating_worker, Outcome, done, failed, new_logger}
use task_orchestrator.Cli.Workers.{parse_workers}
use task_orchestrator.Manager.Setup.{new_manager}
use task_orchestrator.Manager.Setup as Manager
use task_orchestrator.Worker.Setup.{new_worker}
use task_orchestrator.Worker.Setup as Worker

-- The run function of `managerCmd`, up to the manager that it starts.
unfoldable pub manager_command :
    (libs : Manager.Libraries)
    → (String → String)
    → List String
    → String
    → String
    → String
    → libs.bolt.Files
    → libs.bolt.Files × Outcome Manager.Built
manager_command libs lower worker_specs log_level scheduler_type db_type fs =
    elim (parse_workers worker_specs) [
      | failed e ↦ (fs, failed e)
      | done workers ↦ elim (new_logger lower log_level) [
        | failed e ↦ (fs, failed e)
        | done _ ↦
            let (fs', made) = new_manager libs workers scheduler_type db_type fs in
            (fs', elim made [ err e ↦ failed (creating_manager e) | ok b ↦ done b ])
      ]
    ]

-- The run function of `workerCmd`, up to the worker that it starts.
unfoldable pub worker_command :
    (libs : Worker.Libraries)
    → (String → String)
    → String
    → String
    → String
    → Bool
    → libs.bolt.Files
    → libs.bolt.Files × Outcome Worker.Built
worker_command libs lower log_level name db_type fresh_start fs =
    elim (new_logger lower log_level) [
      | failed e ↦ (fs, failed e)
      | done _ ↦
          let (fs', made) = new_worker libs name db_type fresh_start fs in
          (fs', elim made [ err e ↦ failed (creating_worker e) | ok b ↦ done b ])
    ]
