-- ===== src/Manager/Unplaced.antt =====
-- What becomes of a new task when no worker can be selected for it.
use task_orchestrator.Prelude.{
  ◌≡◌, refl, ap, ◌∙◌, ◌⊎◌, inl, inr, none, List, [], ◌∷◌, length, arith, ◌==◌, Bool-cases,
}
use task_orchestrator.Prelude.Assoc.{ℕ-Eq}
use task_orchestrator.Errors.{Error, err}
use task_orchestrator.Queue.{InnerLaws, dequeue}
use task_orchestrator.Task.{Task, TaskEvent}
use task_orchestrator.Manager.{Parts, Manager, Net}
use task_orchestrator.Manager.State.{
  assignment_for, next_pending_event, pick_worker, worker_for_task,
}
use task_orchestrator.Manager.Frames.{pending_events}
use task_orchestrator.Manager.Send.{select_worker, handle_event, send_work}

module _ {p : Parts} where
  -- No node is a candidate for the task, or the candidates cannot be scored.
  abbrev pub HasNoPlace : Task → Manager p → Type 0
  HasNoPlace t m =
      let candidates = p.scheduler.select_candidate_nodes t m.worker_nodes in
      (candidates ≡ []) ⊎ ((x : Error) × ((p.scheduler.score m.scheduler t candidates).1 ≡ err x))

  -- The two managers differ at most in the state of the scheduler.
  abbrev Agrees : Manager p → Manager p → Type 0
  Agrees m u =
      (u.pending ≡ m.pending)
      × (u.task_worker_map ≡ m.task_worker_map)
      × (u.worker_task_map ≡ m.worker_task_map)
      × (u.task_db ≡ m.task_db)
      × (u.event_db ≡ m.event_db)

  pick_worker-unplaced :
      (t : Task) (m : Manager p)
      → HasNoPlace t m
      → ((pick_worker t m).1 ≡ none) × Agrees m (pick_worker t m).0
  unfolding pick_worker
  pick_worker-unplaced t m (inl e) = rw (e, pick_worker) (refl, (refl, refl, refl, refl, refl))
  pick_worker-unplaced t m (inr (x, e)) =
      elim (Bool-cases (length (p.scheduler.select_candidate_nodes t m.worker_nodes) == 0)) [
        | inl z ↦ rw (z, pick_worker) (refl, (refl, refl, refl, refl, refl))
        | inr z ↦ rw (z, e, pick_worker) (refl, (refl, refl, refl, refl, refl))
      ]

  handle_event-unplaced :
      (te : TaskEvent) (net : Net) (m : Manager p)
      → assignment_for te.task.id m ≡ none
      → HasNoPlace te.task m
      → Agrees m (handle_event te net m)
  unfolding handle_event select_worker
  handle_event-unplaced te net m e h =
      let (lost, same) = pick_worker-unplaced te.task m h in
      rw (e, lost, handle_event, select_worker) same

  -- The first pending event is about a task that is routed nowhere, and no worker can be selected
  -- for it, as no node is a candidate or the candidates cannot be scored. Then one turn forgets the
  -- event: it is not pending any more, and the routes, the tasks and the events that are stored are
  -- as they were.
  pub send_work-unplaced :
      (queue_laws : InnerLaws p.pending) (net : Net) (m : Manager p) (te : TaskEvent)
      (rest : List TaskEvent)
      → pending_events queue_laws m ≡ te ∷ rest
      → worker_for_task te.task.id m ≡ none
      → HasNoPlace te.task m
      → (pending_events queue_laws (send_work net m) ≡ rest)
        × ((send_work net m).task_worker_map ≡ m.task_worker_map)
        × ((send_work net m).worker_task_map ≡ m.worker_task_map)
        × ((send_work net m).task_db ≡ m.task_db)
        × ((send_work net m).event_db ≡ m.event_db)
  unfolding send_work next_pending_event dequeue assignment_for worker_for_task
  send_work-unplaced queue_laws net m te rest first unrouted h =
      let q : p.pending.Q = (m.pending).inner_queue in
      let next = queue_laws.dequeue-cons q te rest first in
      let others = queue_laws.items-dequeue_cons q te rest first in
      let m' = (next_pending_event m).1 in
      let free : assignment_for te.task.id m' ≡ none = rw (unrouted, assignment_for) refl in
      let (pend, routes, lists, tasks, events) = handle_event-unplaced te net m' free h in
      let handled : send_work net m ≡ handle_event te net m' = ground arith in
      rw handled
        (ap (λ r. queue_laws.items r.inner_queue) pend ∙ others, routes, lists, tasks, events)
