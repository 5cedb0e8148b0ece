-- ===== src/Manager/Frames.antt =====
-- What a helper of state.go leaves alone, and what it does to one field.
use task_orchestrator.Prelude.{
  ◌≡◌, refl, ◌∙◌, none, some, List, [], ◌∷◌, ◌++◌, String, arith, ◌==◌, if◌then◌else◌,
}
use task_orchestrator.Prelude.Assoc.{lookup-insert, lookup-erase, ℕ-Eq, String-Eq}
use task_orchestrator.Queue.{InnerLaws, enqueue}
use task_orchestrator.Task.{Task, TaskEvent, Uuid}
use task_orchestrator.Manager.{Parts, Manager}
use task_orchestrator.Manager.State.{
  enqueue_event, assign_task, drop_routing, worker_for_task, close_task, retire_task, put_task,
  pick_worker,
}

module _ {p : Parts} where
  pub routes-drop_routing :
      (w : String) (task_id id : Uuid) (m : Manager p)
      → worker_for_task id (drop_routing w task_id m)
        ≡ (if task_id == id then none else worker_for_task id m)
  unfolding drop_routing worker_for_task
  routes-drop_routing w task_id id m = ground (arith, lookup-erase task_id id m.task_worker_map)

  pub pending-drop_routing :
      (w : String) (id : Uuid) (m : Manager p) → (drop_routing w id m).pending ≡ m.pending
  unfolding drop_routing
  pending-drop_routing w id m = ground arith

  pub task_db-drop_routing :
      (w : String) (id : Uuid) (m : Manager p) → (drop_routing w id m).task_db ≡ m.task_db
  unfolding drop_routing
  task_db-drop_routing w id m = ground arith

  pub routes-assign_task :
      (w : String) (te : TaskEvent) (id : Uuid) (m : Manager p)
      → worker_for_task id (assign_task w te m)
        ≡ (if te.task.id == id then some w else worker_for_task id m)
  unfolding assign_task worker_for_task
  routes-assign_task w te id m = lookup-insert te.task.id id w m.task_worker_map

  pub pending-assign_task :
      (w : String) (te : TaskEvent) (m : Manager p) → (assign_task w te m).pending ≡ m.pending
  unfolding assign_task
  pending-assign_task w te m = refl

  pub task_db-assign_task :
      (w : String) (te : TaskEvent) (m : Manager p) → (assign_task w te m).task_db ≡ m.task_db
  unfolding assign_task
  task_db-assign_task w te m = refl

  pub routes-enqueue_event :
      (te : TaskEvent) (id : Uuid) (m : Manager p)
      → worker_for_task id (enqueue_event te m) ≡ worker_for_task id m
  unfolding enqueue_event worker_for_task
  routes-enqueue_event te id m = refl

  pub task_db-enqueue_event :
      (te : TaskEvent) (m : Manager p) → (enqueue_event te m).task_db ≡ m.task_db
  unfolding enqueue_event
  task_db-enqueue_event te m = refl

  pub pending-close_task : (id : Uuid) (m : Manager p) → (close_task id m).pending ≡ m.pending
  unfolding close_task
  pending-close_task id m = ground arith

  pub routes-close_task :
      (id j : Uuid) (m : Manager p) → worker_for_task j (close_task id m) ≡ worker_for_task j m
  unfolding close_task worker_for_task
  routes-close_task id j m = ground arith

  pub pending-retire_task :
      (w : String) (id : Uuid) (m : Manager p) → (retire_task w id m).pending ≡ m.pending
  unfolding retire_task
  pending-retire_task w id m = pending-drop_routing w id (close_task id m) ∙ pending-close_task id m

  pub pending-put_task : (t : Task) (m : Manager p) → (put_task t m).0.pending ≡ m.pending
  unfolding put_task
  pending-put_task t m = refl

  pub pending-pick_worker : (t : Task) (m : Manager p) → (pick_worker t m).0.pending ≡ m.pending
  unfolding pick_worker
  pending-pick_worker t m = ground arith

module _ {p : Parts} (queue_laws : InnerLaws p.pending) where
  -- The pending events, oldest first.
  abbrev pub pending_events : Manager p → List TaskEvent
  pending_events m = queue_laws.items (m.pending).inner_queue

  pub pending_events-enqueue_event :
      (te : TaskEvent) (m : Manager p)
      → pending_events (enqueue_event te m) ≡ pending_events m ++ te ∷ []
  unfolding enqueue_event enqueue
  pending_events-enqueue_event te m = queue_laws.items-enqueue te (m.pending).inner_queue
