-- ===== src/Manager/Loops.antt =====
-- internal/manager/manager.go: the background loops. A loop is run over its wakes, up to the one
-- after which `done` is closed; each wake comes with what the other goroutines did since the last.
use task_orchestrator.Prelude.{List, [], ◌∷◌}
use task_orchestrator.Task.{Task}
use task_orchestrator.Manager.{Parts, Manager, Net}
use task_orchestrator.Manager.Send.{send_work, update_tasks}

-- One wake of a loop: what came before it, and what the turn itself is given.
pub record Wake (p : Parts) (A : Type 0) : Type 0 where
  pub others : Manager p → Manager p
  pub given : A

module _ {p : Parts} where
  unfoldable pub process_tasks : List (Wake p Net) → Manager p → Manager p
  process_tasks [] m = m
  process_tasks (w ∷ ws) m = process_tasks ws (send_work w.given (w.others m))

  -- `UpdateTasks`, whose wakes come with the order in which the reports are merged.
  unfoldable pub update_tasks_loop :
      List (Wake p ((List (List Task) → List Task) × Net)) → Manager p → Manager p
  update_tasks_loop [] m = m
  update_tasks_loop (w ∷ ws) m =
      update_tasks_loop ws (update_tasks w.given.0 w.given.1 (w.others m))
