-- ===== src/Examples/Checking.antt =====
-- The theorems on the health checks, with one task that is running and publishes no port.
use task_orchestrator.Prelude.{◌≡◌, refl, ◌⊎◌, none, some, [], ◌∷◌}
use task_orchestrator.Prelude.Assoc.{lookup, String-Eq, ℕ-Eq}
use task_orchestrator.Errors.{ok}
use task_orchestrator.Store.InMemory.{get, list}
use task_orchestrator.Store.Laws.{in_memory-StoreLaws}
use task_orchestrator.Task.{running}
use task_orchestrator.Manager.{Manager}
use task_orchestrator.Manager.Pure.{decide_health_action, get_host_port}
use task_orchestrator.Manager.State.{worker_for_task, snapshot_tasks}
use task_orchestrator.Manager.Send.{get_tasks}
use task_orchestrator.Manager.Health.{
  Moment, check_task_health, restart_task, check_one, check_each, do_health_checks,
}
use task_orchestrator.Manager.Reports.{stored}
use task_orchestrator.Manager.Pass.{
  HasBinding, do_health_checks-total, RestartedOnce, do_health_checks-RestartedOnce,
}
use task_orchestrator.Examples.{job, parts, busy, down}

abbrev moment : Moment
moment = record { net = down; fresh_id = 200; now = 9 }

abbrev after : Manager parts
after = restart_task moment (job 7 running) (busy running)

in_store : stored in_memory-StoreLaws (busy running) "7" ≡ some (job 7 running)
unfolding get lookup
in_store = in_memory-StoreLaws.get_found "7" (job 7 running) ((busy running).task_db) refl

one_check : check_one moment (job 7 running) (busy running) ≡ some after
unfolding check_one decide_health_action check_task_health worker_for_task lookup get_host_port
one_check = refl

pub listed : get_tasks (busy running) ≡ ok (job 7 running ∷ [])
unfolding get_tasks snapshot_tasks list
listed = refl

one_pass : do_health_checks (λ i. moment) (busy running) ≡ some after
unfolding do_health_checks check_each get_tasks snapshot_tasks list
one_pass = rw (one_check, check_each)

do_health_checks-RestartedOnce_example :
    (stored in_memory-StoreLaws after "7" ≡ stored in_memory-StoreLaws (busy running) "7")
    ⊎ RestartedOnce in_memory-StoreLaws (job 7 running ∷ []) after "7"
do_health_checks-RestartedOnce_example =
    do_health_checks-RestartedOnce in_memory-StoreLaws (λ i. moment) (busy running) after
      (job 7 running ∷ []) listed (in_store, tt) (tt, tt) one_pass "7"

no_port : HasBinding (job 7 running)
no_port ports e = cc (let missing : none ≡ some ports = e in missing)

do_health_checks-total_example :
    (next : Manager parts) × (do_health_checks (λ i. moment) (busy running) ≡ some next)
do_health_checks-total_example =
    do_health_checks-total (λ i. moment) (busy running) (job 7 running ∷ []) listed (no_port, tt)
