-- ===== src/Manager/Delivery.antt =====
-- What becomes of a pending event: `SendWork` on every path.
use task_orchestrator.Prelude.{
  ◌≡◌, ap, ◌∙◌, ◌≢◌, ◌⊎◌, inl, inr, none, some, [], ◌∷◌, ◌++◌, String, str_eq, arith, Bool-cases,
  if◌then◌else◌, ◌==◌,
}
use task_orchestrator.Prelude.Assoc.{lookup-insert, ℕ-Eq, String-Eq}
use task_orchestrator.Errors.{Error, errors_is, worker_unreachable, Result-cases}
use task_orchestrator.HttpApi.{Response, status_created}
use task_orchestrator.Node.{Node}
use task_orchestrator.Queue.{InnerLaws}
use task_orchestrator.Store.{StoreLaws}
use task_orchestrator.Task.{Task, TaskEvent, Uuid}
use task_orchestrator.Manager.{Parts, Manager, Net, Reply, unreachable, answered}
use task_orchestrator.Manager.Pure.{worker_tasks_url}
use task_orchestrator.Manager.State.{
  put_task, enqueue_event, assign_task, unassign_task, worker_for_task,
}
use task_orchestrator.Manager.Frames.{
  pending_events, pending_events-enqueue_event, routes-drop_routing, pending-drop_routing,
  task_db-drop_routing, routes-assign_task, pending-assign_task, task_db-assign_task,
  routes-enqueue_event, task_db-enqueue_event,
}
use task_orchestrator.Manager.Send.{post_task_event, deliver}

module _ {p : Parts} (n : Node) (te : TaskEvent) (net : Net) (m : Manager p) where
  -- The event encodes, and the worker's answer to the POST is this.
  abbrev pub Answers : Reply → Type 0
  Answers reply =
      (body : String) × (p.codec.encode_event te ≡ some body)
      × (net.post (worker_tasks_url n.api) body ≡ reply)

  -- The three ways in which the state may come out of `deliver`.
  pub deliver-cases :
      (deliver n te net m
        ≡ enqueue_event te (unassign_task n.name te.task.id (assign_task n.name te m)))
      ⊎ (deliver n te net m ≡ assign_task n.name te m)
      ⊎ ((t : Task) × (deliver n te net m ≡ (put_task t (assign_task n.name te m)).0))
  unfolding deliver
  deliver-cases = elim (Result-cases (post_task_event p.codec "manager.SendWork" n.api te net)) [
    | inl (t, e) ↦ inr (inr (t, rw (e, deliver)))
    | inr (x, e) ↦ elim (Bool-cases (errors_is x worker_unreachable)) [
      | inl y ↦ inl (rw (e, deliver) (rw y))
      | inr y ↦ inr (inl (rw (e, deliver) (rw y)))
    ]
  ]

  deliver-back :
      (cause : Error)
      → Answers (unreachable cause)
      → deliver n te net m
        ≡ enqueue_event te (unassign_task n.name te.task.id (assign_task n.name te m))
  unfolding deliver errors_is post_task_event
  deliver-back cause (body, e, r) = ground arith

  -- When the event encodes and the worker cannot be reached: the event is back at the end of the
  -- queue, its task is routed nowhere, so that the event is not taken for a duplicate later, and
  -- neither the other routes nor the stored tasks have changed.
  pub deliver-unreachable :
      (queue_laws : InnerLaws p.pending) (cause : Error)
      → Answers (unreachable cause)
      → (pending_events queue_laws (deliver n te net m) ≡ pending_events queue_laws m ++ te ∷ [])
        × ((id : Uuid)
            → worker_for_task id (deliver n te net m)
              ≡ (if te.task.id == id then none else worker_for_task id m))
        × ((deliver n te net m).task_db ≡ m.task_db)
  unfolding unassign_task
  deliver-unreachable queue_laws cause r = rw (deliver-back cause r) (queued, routed, kept)
    where
      assigned : Manager p
      assigned = assign_task n.name te m

      undone : Manager p
      undone = unassign_task n.name te.task.id assigned

      same_queue : undone.pending ≡ m.pending
      same_queue = pending-drop_routing n.name te.task.id assigned ∙ pending-assign_task n.name te m

      queued :
          pending_events queue_laws (enqueue_event te undone)
          ≡ pending_events queue_laws m ++ te ∷ []
      queued =
          pending_events-enqueue_event queue_laws te undone
          ∙ ap (λ q. queue_laws.items q.inner_queue ++ te ∷ []) same_queue

      routed :
          (id : Uuid)
          → worker_for_task id (enqueue_event te undone)
            ≡ (if te.task.id == id then none else worker_for_task id m)
      routed id =
          routes-enqueue_event te id undone
          ∙ (ground (
            arith,
            routes-drop_routing n.name te.task.id id assigned,
            routes-assign_task n.name te id m,
          ))

      kept : (enqueue_event te undone).task_db ≡ m.task_db
      kept =
          task_db-enqueue_event te undone
          ∙ task_db-drop_routing n.name te.task.id assigned
          ∙ task_db-assign_task n.name te m

  -- When the event encodes and the worker answers, but not with 201 Created: nothing is queued
  -- again and no task is stored, and yet the task stays routed to the worker that refused it.
  pub deliver-rejected :
      (queue_laws : InnerLaws p.pending) (resp : Response)
      → Answers (answered resp)
      → resp.status ≢ status_created
      → (pending_events queue_laws (deliver n te net m) ≡ pending_events queue_laws m)
        × (worker_for_task te.task.id (deliver n te net m) ≡ some n.name)
        × ((deliver n te net m).task_db ≡ m.task_db)
  deliver-rejected queue_laws resp r ne = rw (rejected r) (
    ap (λ q. queue_laws.items q.inner_queue) (pending-assign_task n.name te m),
    routes-assign_task n.name te te.task.id m ∙ ground arith,
    task_db-assign_task n.name te m,
  )
    where
      rejected : Answers (answered resp) → deliver n te net m ≡ assign_task n.name te m
      rejected (body, e, r) = unfold deliver errors_is post_task_event in ground arith

  -- When the event encodes and the worker answers 201 Created with a body that decodes to a task,
  -- and the store takes the write: the event is used up, the task of the event is routed to the
  -- worker, and what the worker returned is stored under its uuid, and under every other key what
  -- was there before.
  pub deliver-created :
      (queue_laws : InnerLaws p.pending) (laws : StoreLaws p.tasks) (resp : Response)
      (created : Task)
      → Answers (answered resp)
      → resp.status ≡ status_created
      → p.codec.decode_task resp.body ≡ some created
      → (p.tasks.put (p.uuid_string created.id) created m.task_db).1 ≡ none
      → (pending_events queue_laws (deliver n te net m) ≡ pending_events queue_laws m)
        × (worker_for_task te.task.id (deliver n te net m) ≡ some n.name)
        × ((k : String)
            → laws.view (deliver n te net m).task_db k ≡ (
                if str_eq (p.uuid_string created.id) k
                then some created
                else laws.view m.task_db k))
  deliver-created queue_laws laws resp created r s d w = rw (accepted r) (
    (unfold put_task in ap (λ q. queue_laws.items q.inner_queue) (pending-assign_task n.name te m)),
    (unfold put_task worker_for_task assign_task in
        (lookup-insert te.task.id te.task.id n.name m.task_worker_map ∙ ground arith)),
    (λ k.
        unfold put_task assign_task in
        laws.put_stored (p.uuid_string created.id) k created m.task_db w),
  )
    where
      accepted :
          Answers (answered resp)
          → deliver n te net m ≡ (put_task created (assign_task n.name te m)).0
      accepted (body, e, r) = unfold deliver errors_is post_task_event in ground arith
