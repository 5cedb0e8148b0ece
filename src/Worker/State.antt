-- ===== src/Worker/State.antt =====
-- internal/worker/state.go: every read and write of the worker's state, each under one lock.
use task_orchestrator.Prelude.{ℕ, Option, none, some, List}
use task_orchestrator.Errors.{Result, ok, err, or_wrap}
use task_orchestrator.Queue.{enqueue, dequeue, len}
use task_orchestrator.Stats.{Stats}
use task_orchestrator.Task.{Task, Uuid}
use task_orchestrator.Worker.{Parts, Worker}

module _ {p : Parts} where
  -- A failing store is logged, and reads as a missing task.
  unfoldable pub lookup_task : Uuid → Worker p → Option Task
  lookup_task id w = elim (p.tasks.get (p.uuid_string id) w.db) [ ok t ↦ some t | err e ↦ none ]

  unfoldable pub list_tasks : Worker p → Result (List Task)
  list_tasks w = or_wrap "worker.listTasks" (p.tasks.list w.db)

  -- A failed write is only logged.
  unfoldable pub put_task : Task → Worker p → Worker p
  put_task t w = record w { db = (p.tasks.put (p.uuid_string t.id) t w.db).0 }

  unfoldable pub upsert_task : Task → (Task → Task) → Worker p → Worker p
  unfolding lookup_task put_task
  upsert_task base apply w = elim (lookup_task base.id w) [
    | none ↦ put_task (apply base) w
    | some t ↦ put_task (apply t) w
  ]

  unfoldable pub enqueue_task : Task → Worker p → Worker p
  enqueue_task t w = record w { queue = enqueue p.queue t w.queue }

  unfoldable pub dequeue_task : Worker p → Option Task × Worker p
  dequeue_task w = let (t, rest) = dequeue p.queue w.queue in (t, record w { queue = rest })

  unfoldable pub queue_len : Worker p → ℕ
  queue_len w = len p.queue w.queue

  unfoldable pub set_stats : Stats p.fl.F → Worker p → Worker p
  set_stats s w = record w { stats = some s }

  unfoldable pub snapshot_stats : Worker p → Option (Stats p.fl.F)
  snapshot_stats w = w.stats

  unfoldable pub task_count : Worker p → ℕ
  task_count w = elim (p.tasks.count w.db) [ ok n ↦ n | err e ↦ 0 ]
