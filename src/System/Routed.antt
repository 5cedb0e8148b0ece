-- ===== src/System/Routed.antt =====
-- What the manager believes of a worker against what the worker has: the routes of
-- internal/manager/state.go and the queue and the store of internal/worker.
use task_orchestrator.Prelude.{
  ◌≡◌, refl, sym, ap, subst, ◌∙◌, ◌≢◌, ◌⊎◌, inl, inr, Option, none, some, List, String, Bool-cases,
  ◌==◌, ==_iff, arith, In, In-middle,
}
use task_orchestrator.Prelude.Assoc.{ℕ-Eq}
use task_orchestrator.Queue.{InnerLaws}
use task_orchestrator.Store.{StoreLaws, IsReliable}
use task_orchestrator.Task.{Task, TaskEvent, Uuid}
use task_orchestrator.Manager.{Parts, Manager}
use task_orchestrator.Manager.Frames.{routes-assign_task, routes-drop_routing, routes-close_task}
use task_orchestrator.Manager.Routing.{
  Helper, puts, enqueues, dequeues, assigns, unassigns, reports, restarts, retires, picks,
}
use task_orchestrator.Manager.State.{
  worker_for_task, put_task as manager_put_task, enqueue_event, next_pending_event, assign_task,
  unassign_task, apply_worker_report, begin_restart, retire_task, close_task, drop_routing,
  pick_worker,
}
use task_orchestrator.Worker as Worker
use task_orchestrator.Worker.Api.{start_task_handler, stop_task_handler}
use task_orchestrator.Worker.Run.{add_task}
use task_orchestrator.Worker.State.{put_task, upsert_task}
use task_orchestrator.Wire.Delivering.{start_task_handler-decoded}
use task_orchestrator.System.{
  System, routes_to, Step, posts, deletes, takes, finds, stores, upserts, helps, sends, handles,
  misses, gives_up, Steps, start, later,
}
use task_orchestrator.System.Presence.{
  Has, IsStored, add_task-Has_new, start_task_handler-Has, stop_task_handler-Has, dequeue_task-Has,
  put_task-Has, put_task-IsStored_new, upsert_task-Has, lookup_task-IsStored,
}

module _ {p : Parts} (name : String) where
  -- A task that is routed to the worker now was routed there before.
  abbrev NoNewRoute : Manager p → Manager p → Type 0
  NoNewRoute m u = (id : Uuid) → worker_for_task id u ≡ some name → worker_for_task id m ≡ some name

  dropped-NoNewRoute : (w : String) (j : Uuid) (m : Manager p) → NoNewRoute m (drop_routing w j m)
  dropped-NoNewRoute w j m id h = elim (Bool-cases (j == id)) [
    | inl b ↦
        let gone : none ≡ some name = sym (routes-drop_routing w j id m ∙ (rw b refl)) ∙ h in
        cc gone
    | inr b ↦ sym (routes-drop_routing w j id m ∙ (rw b refl)) ∙ h
  ]

  assigned-NoNewRoute :
      (w : String) (te : TaskEvent) (m : Manager p) (id : Uuid)
      → worker_for_task id (assign_task w te m) ≡ some name
      → ((te.task.id ≡ id) × (w ≡ name)) ⊎ (worker_for_task id m ≡ some name)
  assigned-NoNewRoute w te m id h = elim (Bool-cases (te.task.id == id)) [
    | inl b ↦
        let same : some w ≡ some name = sym (routes-assign_task w te id m ∙ (rw b refl)) ∙ h in
        inl ((==_iff te.task.id id).0 b, cc)
    | inr b ↦ inr (sym (routes-assign_task w te id m ∙ (rw b refl)) ∙ h)
  ]

  unassigned :
      (j id : Uuid) (m : Manager p)
      → j ≡ id
      → worker_for_task id (unassign_task name j m) ≢ some name
  unfolding unassign_task
  unassigned j id m same r =
      let gone : none ≡ some name =
        sym (routes-drop_routing name j id m ∙ (rw ((==_iff j id).1 same) refl)) ∙ r in
      cc gone

  Helper-NoNewRoute : (m u : Manager p) (h : Helper m u) → routes_to h ≢ some name → NoNewRoute m u
  unfolding worker_for_task manager_put_task enqueue_event next_pending_event apply_worker_report
      begin_restart pick_worker unassign_task retire_task
  Helper-NoNewRoute m u (puts t e) n id h = ground arith
  Helper-NoNewRoute m u (enqueues te e) n id h = ground arith
  Helper-NoNewRoute m u (dequeues e) n id h = ground arith
  Helper-NoNewRoute m u (assigns w te e) n id h =
      elim (assigned-NoNewRoute w te m id (subst (λ x. worker_for_task id x ≡ some name) e h)) [
        | inl (_, same) ↦ absurd (n (ap some same))
        | inr before ↦ before
      ]
  Helper-NoNewRoute m u (unassigns w j e) n id h =
      dropped-NoNewRoute w j m id (subst (λ x. worker_for_task id x ≡ some name) e h)
  Helper-NoNewRoute m u (reports t e) n id h = ground arith
  Helper-NoNewRoute m u (restarts j e) n id h = ground arith
  Helper-NoNewRoute m u (retires w j e) n id h =
      sym (routes-close_task j id m)
      ∙ dropped-NoNewRoute w j (close_task j m) id
          (subst (λ x. worker_for_task id x ≡ some name) e h)
  Helper-NoNewRoute m u (picks t e) n id h = ground arith

-- One of the events is for the task.
abbrev pub Asked : Uuid → List TaskEvent → Type 0
Asked id tes = (te : TaskEvent) × In te tes × (te.task.id ≡ id)

module _ {p : Parts} {q : Worker.Parts} (parse : String → Option Uuid) (name : String)
    (queue_laws : InnerLaws q.queue) (laws : StoreLaws q.tasks)
    (reliable : IsReliable q.tasks) where
  -- The worker has the task in its queue or its store, or `RunTask` holds it; or its delivery is
  -- under way, or was given up.
  abbrev pub Located : Uuid → System p q → Type 0
  Located id s =
      Has queue_laws laws reliable id s.worker
      ⊎ ((t : Task) × In t s.hand × (t.id ≡ id))
      ⊎ Asked id s.sending
      ⊎ Asked id s.refused

  -- Every task that the manager routes to the worker is there, on its way or given up.
  abbrev pub RoutedIsThere : System p q → Type 0
  RoutedIsThere s = (id : Uuid) → worker_for_task id s.manager ≡ some name → Located id s

  -- The worker did something that loses nothing.
  worker-Located :
      (s : System p q) (w : Worker.Worker q) (id : Uuid)
      → (Has queue_laws laws reliable id s.worker → Has queue_laws laws reliable id w)
      → Located id s
      → Located id (record s { worker = w })
  worker-Located s w id keeps (inl h) = inl (keeps h)
  worker-Located s w id keeps (inr h) = inr h

  Step-Located :
      (s u : System p q) (id : Uuid)
      → Step parse name s u
      → (worker_for_task id s.manager ≡ some name → Located id s)
      → worker_for_task id u.manager ≡ some name
      → Located id u
  Step-Located s u id (posts body) there r =
      worker-Located s (start_task_handler body s.worker).0 id
        (start_task_handler-Has queue_laws laws reliable body id s.worker) (there r)
  Step-Located s u id (deletes task_id) there r =
      worker-Located s (stop_task_handler parse task_id s.worker).0 id
        (stop_task_handler-Has queue_laws laws reliable parse task_id id s.worker) (there r)
  Step-Located s u id (takes t taken) there r = elim (there r) [
    | inl h ↦ elim (dequeue_task-Has queue_laws laws reliable t id s.worker taken h) [
      | inl same ↦ inr (inl (t, inl refl, same))
      | inr still ↦ inl still
    ]
    | inr (inl (x, m, same)) ↦ inr (inl (x, inr m, same))
    | inr (inr h) ↦ inr (inr h)
  ]
  Step-Located s u id (finds before after t found held e) there r = elim (there r) [
    | inl h ↦ inl h
    | inr (inl (x, m, same)) ↦ elim (In-middle x t before after (subst (In x) held m)) [
      | inl this ↦ inl (
          inr (
            subst (λ i. IsStored queue_laws laws reliable i s.worker)
              (ap (λ (y : Task). y.id) this ∙ same)
              (lookup_task-IsStored queue_laws laws reliable found t.id s.worker e)))
      | inr other ↦ inr (inl (x, other, same))
    ]
    | inr (inr h) ↦ inr (inr h)
  ]
  Step-Located s u id (stores before after t held) there r = elim (there r) [
    | inl h ↦ inl (put_task-Has queue_laws laws reliable t id s.worker h)
    | inr (inl (x, m, same)) ↦ elim (In-middle x t before after (subst (In x) held m)) [
      | inl this ↦ inl (
          subst (λ i. Has queue_laws laws reliable i (put_task t s.worker))
            (ap (λ (y : Task). y.id) this ∙ same)
            (inr (put_task-IsStored_new queue_laws laws reliable t s.worker)))
      | inr other ↦ inr (inl (x, other, same))
    ]
    | inr (inr h) ↦ inr (inr h)
  ]
  Step-Located s u id (upserts base apply same) there r =
      worker-Located s (upsert_task base apply s.worker) id
        (upsert_task-Has queue_laws laws reliable base apply id s.worker) (there r)
  Step-Located s u id (helps h other) there r =
      there (Helper-NoNewRoute name s.manager u.manager h other id r)
  Step-Located s u id (sends te) there r = elim (assigned-NoNewRoute name name te s.manager id r) [
    | inl (same, _) ↦ inr (inr (inl (te, inl refl, same)))
    | inr before ↦ elim (there before) [
      | inl h ↦ inl h
      | inr (inl h) ↦ inr (inl h)
      | inr (inr (inl (x, m, same))) ↦ inr (inr (inl (x, inr m, same)))
      | inr (inr (inr h)) ↦ inr (inr (inr h))
    ]
  ]
  Step-Located s u id (handles before after te body under encoded decoded) there r =
      elim (there r) [
        | inl h ↦ inl (start_task_handler-Has queue_laws laws reliable body id s.worker h)
        | inr (inl h) ↦ inr (inl h)
        | inr (inr (inl (x, m, same))) ↦ elim (In-middle x te before after (subst (In x) under m)) [
          | inl this ↦
              let handled : (start_task_handler body s.worker).0 ≡ add_task te.task s.worker =
                ap (λ x. x.0) (start_task_handler-decoded body te s.worker decoded) in
              inl (
                rw handled (
                  subst (λ i. Has queue_laws laws reliable i (add_task te.task s.worker))
                    (ap (λ (y : TaskEvent). y.task.id) this ∙ same)
                    (add_task-Has_new queue_laws laws reliable te.task s.worker)))
          | inr other ↦ inr (inr (inl (x, other, same)))
        ]
        | inr (inr (inr h)) ↦ inr (inr (inr h))
      ]
  Step-Located s u id (misses before after te under) there r =
      let still =
        dropped-NoNewRoute name name te.task.id s.manager id (unfold unassign_task in r) in
      elim (there still) [
        | inl h ↦ inl h
        | inr (inl h) ↦ inr (inl h)
        | inr (inr (inl (x, m, same))) ↦ elim (In-middle x te before after (subst (In x) under m)) [
          | inl this ↦ absurd (
              unassigned name te.task.id id s.manager
                (ap (λ (y : TaskEvent). y.task.id) this ∙ same) r)
          | inr other ↦ inr (inr (inl (x, other, same)))
        ]
        | inr (inr (inr h)) ↦ inr (inr (inr h))
      ]
  Step-Located s u id (gives_up before after te under) there r = elim (there r) [
    | inl h ↦ inl h
    | inr (inl h) ↦ inr (inl h)
    | inr (inr (inl (x, m, same))) ↦ elim (In-middle x te before after (subst (In x) under m)) [
      | inl this ↦ inr (inr (inr (te, inl refl, ap (λ (y : TaskEvent). y.task.id) this ∙ same)))
      | inr other ↦ inr (inr (inl (x, other, same)))
    ]
    | inr (inr (inr (x, m, same))) ↦ inr (inr (inr (x, inr m, same)))
  ]

  pub Steps-RoutedIsThere :
      (s u : System p q) → Steps parse name s u → RoutedIsThere s → RoutedIsThere u
  Steps-RoutedIsThere s u start there id r = there id r
  Steps-RoutedIsThere s u (later {t} before x) there id r =
      Step-Located t u id x (Steps-RoutedIsThere s t before there id) r
