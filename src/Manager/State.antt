-- ===== src/Manager/State.antt =====
-- internal/manager/state.go: every read and write of the manager's state, each under one lock. A
-- failure that the code only logs leaves no trace but what it does to the state.
use task_orchestrator.Prelude.{
  Bool, true, false, Option, none, some, List, [], ◌∷◌, ◌++◌, String, length, ◌==◌, if◌then◌else◌,
}
use task_orchestrator.Prelude.Assoc.{Assoc, lookup, insert, erase, ℕ-Eq, String-Eq}
use task_orchestrator.Prelude.Int.{pos, ◌+64◌}
use task_orchestrator.Prelude.Slices.{delete_first}
use task_orchestrator.Errors.{Error, wrapped, Result, ok, err, or_wrap}
use task_orchestrator.Node.{Node}
use task_orchestrator.Queue.{enqueue, dequeue}
use task_orchestrator.Task.{Task, TaskEvent, Uuid, scheduled, completed}
use task_orchestrator.Manager.{Parts, Manager}
use task_orchestrator.Manager.Pure.{merge_task_update}

-- `append(m[k], id)`, where a missing key reads as the empty slice.
abbrev pub assigned_to : Assoc String (List Uuid) → String → List Uuid
assigned_to m k = elim (lookup k m) [ none ↦ [] | some ids ↦ ids ]

module _ {p : Parts} where
  unfoldable pub task_locked : String → Uuid → Manager p → Result Task
  task_locked op id m = or_wrap op (p.tasks.get (p.uuid_string id) m.task_db)

  unfoldable pub put_task : Task → Manager p → Manager p × Option Error
  put_task t m =
      let (db, e) = p.tasks.put (p.uuid_string t.id) t m.task_db in
      (
        record m { task_db = db },
        elim e [ none ↦ none | some cause ↦ some (wrapped "manager.putTask" cause) ],
      )

  unfoldable pub snapshot_tasks : Manager p → Result (List Task)
  snapshot_tasks m = or_wrap "manager.snapshotTasks" (p.tasks.list m.task_db)

  unfoldable pub lookup_task : Uuid → Manager p → Option Task
  unfolding task_locked
  lookup_task id m = elim (task_locked "manager.LookupTask" id m) [ ok t ↦ some t | err e ↦ none ]

  unfoldable pub worker_for_task : Uuid → Manager p → Option String
  worker_for_task id m = lookup id m.task_worker_map

  unfoldable pub assignment_for : Uuid → Manager p → Option (String × Task)
  unfolding task_locked
  assignment_for id m = elim (lookup id m.task_worker_map) [
    | none ↦ none
    | some worker ↦ elim (task_locked "manager.assignmentFor" id m) [
      | err e ↦ none
      | ok t ↦ some (worker, t)
    ]
  ]

  unfoldable pub enqueue_event : TaskEvent → Manager p → Manager p
  enqueue_event te m = record m { pending = enqueue p.pending te m.pending }

  unfoldable pub next_pending_event : Manager p → Option TaskEvent × Manager p
  next_pending_event m =
      let (te, rest) = dequeue p.pending m.pending in (te, record m { pending = rest })

  -- A failed write of the event is only logged.
  unfoldable pub assign_task : String → TaskEvent → Manager p → Manager p
  assign_task worker_name te m = record m {
    event_db = (p.events.put (p.uuid_string te.id) te m.event_db).0;
    worker_task_map =
        insert worker_name (assigned_to m.worker_task_map worker_name ++ te.task.id ∷ [])
          m.worker_task_map;
    task_worker_map = insert te.task.id worker_name m.task_worker_map;
  }

  -- The end of `unassignTask` and of `retireTask`.
  unfoldable pub drop_routing : String → Uuid → Manager p → Manager p
  drop_routing worker task_id m =
      let routed = record m { task_worker_map = erase task_id m.task_worker_map } in
      elim (lookup worker m.worker_task_map) [
        | none ↦ routed
        | some assigned ↦ record routed {
          worker_task_map = insert worker (delete_first assigned task_id) m.worker_task_map;
        }
      ]

  unfoldable pub unassign_task : String → Uuid → Manager p → Manager p
  unassign_task worker_name task_id m = drop_routing worker_name task_id m

  -- The flag tells whether the task is known; a merge that cannot be written is lost.
  unfoldable pub apply_worker_report : Task → Manager p → Manager p × Bool
  unfolding task_locked
  apply_worker_report reported m = elim (task_locked "manager.applyWorkerReport" reported.id m) [
    | err e ↦ (m, false)
    | ok persisted ↦
        let merged = merge_task_update persisted reported in
        (record m { task_db = (p.tasks.put (p.uuid_string reported.id) merged m.task_db).0 }, true)
  ]

  unfoldable pub begin_restart : Uuid → Manager p → Manager p × Option Task
  unfolding task_locked
  begin_restart uid m = elim (task_locked "manager.beginRestart" uid m) [
    | err e ↦ (m, none)
    | ok t ↦
        let bumped = record t { state = scheduled; restart_count = t.restart_count +64 pos 1 } in
        let (db, failure) = p.tasks.put (p.uuid_string uid) bumped m.task_db in
        (record m { task_db = db }, elim failure [ none ↦ some bumped | some e ↦ none ])
  ]

  -- The first half of `retireTask`: the task is marked, if it can be read.
  unfoldable pub close_task : Uuid → Manager p → Manager p
  unfolding task_locked
  close_task task_uid m = elim (task_locked "manager.retireTask" task_uid m) [
    | err e ↦ m
    | ok t ↦ record m {
      task_db = (p.tasks.put (p.uuid_string task_uid) (record t { state = completed }) m.task_db).0;
    }
  ]

  unfoldable pub retire_task : String → Uuid → Manager p → Manager p
  retire_task worker task_uid m = drop_routing worker task_uid (close_task task_uid m)

  -- `pickWorker`, with the scheduler's own state.
  unfoldable pub pick_worker : Task → Manager p → Manager p × Option Node
  pick_worker t m =
      let candidates = p.scheduler.select_candidate_nodes t m.worker_nodes in
      let (st, result) = p.scheduler.score m.scheduler t candidates in
      let scored_m = record m { scheduler = st } in
      if length candidates == 0 then (m, none) else elim result [
        | err e ↦ (scored_m, none)
        | ok scored ↦
            if length scored == 0
            then (scored_m, none)
            else (scored_m, some (p.scheduler.pick scored))
      ]
