-- ===== src/Manager/Routing.antt =====
-- The two routing maps under any interleaving of the locked helpers of state.go.
use task_orchestrator.Prelude.{
  ◌≡◌, sym, ap, subst, ◌∙◌, inl, inr, true, some, List, [], ◌∷◌, ◌++◌, String, str_eq, str_eq_iff,
  arith, Option-cases, if◌then◌else◌, ==_iff,
}
use task_orchestrator.Prelude.Assoc.{
  Assoc, lookup, insert, erase, lookup-insert, lookup-erase, ℕ-Eq, String-Eq,
}
use task_orchestrator.Prelude.Slices.{
  contains, delete_first, contains-append, contains-delete_first_other,
}
use task_orchestrator.Task.{Task, TaskEvent, Uuid}
use task_orchestrator.Manager.{Parts, Manager}
use task_orchestrator.Manager.State.{
  assigned_to, put_task, enqueue_event, next_pending_event, assign_task, unassign_task,
  drop_routing, apply_worker_report, begin_restart, retire_task, close_task, pick_worker,
}

abbrev pub WorkerTasks : Type 0
WorkerTasks = Assoc String (List Uuid)

assigned_to-insert :
    (k j : String) (ids : List Uuid) (m : WorkerTasks)
    → assigned_to (insert k ids m) j ≡ (if str_eq k j then ids else assigned_to m j)
assigned_to-insert k j ids m = ground (arith, lookup-insert k j ids m)

-- Every routed task is listed by the worker that it is routed to.
abbrev pub IsListed : Assoc Uuid String → WorkerTasks → Type 0
IsListed routes lists =
    (id : Uuid) (w : String) → lookup id routes ≡ some w → contains (assigned_to lists w) id ≡ true

assign-IsListed :
    (routes : Assoc Uuid String) (lists : WorkerTasks) (worker : String) (task_id : Uuid)
    → IsListed routes lists
    → IsListed
        (insert task_id worker routes)
        (insert worker (assigned_to lists worker ++ task_id ∷ []) lists)
assign-IsListed routes lists worker task_id h id w e = ground (
  arith,
  h id w,
  lookup-insert task_id id worker routes,
  assigned_to-insert worker w (assigned_to lists worker ++ task_id ∷ []) lists,
  contains-append (assigned_to lists worker) id task_id,
  ==_iff task_id id,
  str_eq_iff worker w,
)

drop-IsListed :
    (routes : Assoc Uuid String) (lists : WorkerTasks) (worker : String) (task_id : Uuid)
    (ids : List Uuid)
    → IsListed routes lists
    → IsListed (erase task_id routes) lists
      × (lookup worker lists ≡ some ids
          → IsListed (erase task_id routes) (insert worker (delete_first ids task_id) lists))
drop-IsListed routes lists worker task_id ids h = (
  (λ id w e. ground (arith, h id w, lookup-erase task_id id routes)),
  (λ l id w e. ground (
    arith,
    h id w,
    lookup-erase task_id id routes,
    assigned_to-insert worker w (delete_first ids task_id) lists,
    contains-delete_first_other ids task_id id,
    str_eq_iff worker w,
  )),
)

-- One call of a locked helper, by whichever goroutine: `t` becomes `u`.
pub data Helper {p : Parts} (t u : Manager p) : Type 0 where
  puts : (task : Task) → u ≡ (put_task task t).0 → Helper t u
  enqueues : (te : TaskEvent) → u ≡ enqueue_event te t → Helper t u
  dequeues : u ≡ (next_pending_event t).1 → Helper t u
  assigns : (worker : String) (te : TaskEvent) → u ≡ assign_task worker te t → Helper t u
  unassigns : (worker : String) (id : Uuid) → u ≡ unassign_task worker id t → Helper t u
  reports : (task : Task) → u ≡ (apply_worker_report task t).0 → Helper t u
  restarts : (id : Uuid) → u ≡ (begin_restart id t).0 → Helper t u
  retires : (worker : String) (id : Uuid) → u ≡ retire_task worker id t → Helper t u
  picks : (task : Task) → u ≡ (pick_worker task t).0 → Helper t u

pub data Calls {p : Parts} (s : Manager p) : Manager p → Type 0 where
  none_yet : Calls s s
  and_then : {t u : Manager p} → Calls s t → Helper t u → Calls s u

module _ {p : Parts} where
  abbrev pub RoutesListed : Manager p → Type 0
  RoutesListed m = IsListed m.task_worker_map m.worker_task_map

  drop_routing-RoutesListed :
      (worker : String) (id : Uuid) (m : Manager p)
      → RoutesListed m
      → RoutesListed (drop_routing worker id m)
  unfolding drop_routing
  drop_routing-RoutesListed worker id m h = elim (Option-cases (lookup worker m.worker_task_map)) [
    | inl e ↦
        rw (e, drop_routing) (drop-IsListed m.task_worker_map m.worker_task_map worker id [] h).0
    | inr (ids, e) ↦
        rw (e, drop_routing)
          ((drop-IsListed m.task_worker_map m.worker_task_map worker id ids h).1 e)
  ]

  -- The maps of a state after a helper that does not touch them.
  same-RoutesListed :
      (m u : Manager p)
      → u.task_worker_map ≡ m.task_worker_map
      → u.worker_task_map ≡ m.worker_task_map
      → RoutesListed m
      → RoutesListed u
  same-RoutesListed m u r l h id w e =
      subst (λ x. contains (assigned_to x w) id ≡ true) (sym l)
        (h id w (ap (lookup id) (sym r) ∙ e))

  close_task-RoutesListed :
      (id : Uuid) (m : Manager p) → RoutesListed m → RoutesListed (close_task id m)
  unfolding close_task
  close_task-RoutesListed id m h =
      same-RoutesListed m (close_task id m) (ground arith) (ground arith) h

  retire_task-RoutesListed :
      (worker : String) (id : Uuid) (m : Manager p)
      → RoutesListed m
      → RoutesListed (retire_task worker id m)
  unfolding retire_task
  retire_task-RoutesListed worker id m h =
      drop_routing-RoutesListed worker id (close_task id m) (close_task-RoutesListed id m h)

  Helper-RoutesListed : (m u : Manager p) → Helper m u → RoutesListed m → RoutesListed u
  unfolding put_task enqueue_event next_pending_event assign_task unassign_task apply_worker_report
      begin_restart pick_worker
  Helper-RoutesListed m u (puts t e) h = same-RoutesListed m u (ground arith) (ground arith) h
  Helper-RoutesListed m u (enqueues te e) h = same-RoutesListed m u (ground arith) (ground arith) h
  Helper-RoutesListed m u (dequeues e) h = same-RoutesListed m u (ground arith) (ground arith) h
  Helper-RoutesListed m u (assigns w te e) h =
      rw e (assign-IsListed m.task_worker_map m.worker_task_map w te.task.id h)
  Helper-RoutesListed m u (unassigns w id e) h = rw e (drop_routing-RoutesListed w id m h)
  Helper-RoutesListed m u (reports t e) h = same-RoutesListed m u (ground arith) (ground arith) h
  Helper-RoutesListed m u (restarts id e) h = same-RoutesListed m u (ground arith) (ground arith) h
  Helper-RoutesListed m u (retires w id e) h = rw e (retire_task-RoutesListed w id m h)
  Helper-RoutesListed m u (picks t e) h = same-RoutesListed m u (ground arith) (ground arith) h

  -- Whatever the goroutines do, in any interleaving of locked helpers: a task that is routed to a
  -- worker is listed by that worker, if this held at first.
  pub Calls-RoutesListed : {m u : Manager p} → Calls m u → RoutesListed m → RoutesListed u
  Calls-RoutesListed none_yet h = h
  Calls-RoutesListed (and_then c s) h = Helper-RoutesListed _ _ s (Calls-RoutesListed c h)
