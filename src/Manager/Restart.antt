-- ===== src/Manager/Restart.antt =====
-- A restart that `restartTask` queues again, and what `SendWork` makes of it.
use task_orchestrator.Prelude.{
  ◌≡◌, refl, sym, ap, ◌∙◌, inl, inr, none, some, [], ◌∷◌, ◌++◌, String, arith, Option-cases,
  str_eq_iff,
}
use task_orchestrator.Errors.{Error, ok, errors_is, Result-cases}
use task_orchestrator.Queue.{InnerLaws, dequeue}
use task_orchestrator.Store.{StoreLaws, IsReliable}
use task_orchestrator.Task.{Task, TaskEvent, Uuid, scheduled}
use task_orchestrator.Manager.{Parts, Manager, Net, unreachable}
use task_orchestrator.Manager.Budget.{restarted}
use task_orchestrator.Manager.Pure.{worker_tasks_url}
use task_orchestrator.Manager.State.{
  worker_for_task, assignment_for, begin_restart, enqueue_event, task_locked, next_pending_event,
}
use task_orchestrator.Manager.Frames.{pending_events, pending_events-enqueue_event}
use task_orchestrator.Manager.Send.{
  post_task_event, require_worker_address, handle_event, send_work,
}
use task_orchestrator.Manager.Health.{Moment, restart_event, restart_task}
use task_orchestrator.Manager.Reports.{stored}
use task_orchestrator.Manager.Dispatch.{handle_event-duplicate}

module _ {p : Parts} (at : Moment) (t bumped : Task) (m : Manager p) where
  pending-begin_restart : (id : Uuid) → (begin_restart id m).0.pending ≡ m.pending
  unfolding begin_restart
  pending-begin_restart id = ground arith

  state-begin_restart :
      (id : Uuid) → (begin_restart id m).1 ≡ some bumped → bumped.state ≡ scheduled
  unfolding begin_restart
  state-begin_restart id e = ground arith

  routed-begin_restart :
      (id : Uuid) (worker : String)
      → worker_for_task id m ≡ some worker
      → worker_for_task id
          (next_pending_event (enqueue_event (restart_event at bumped) (begin_restart id m).0)).1
        ≡ some worker
  unfolding begin_restart worker_for_task enqueue_event next_pending_event
  routed-begin_restart id worker r = ground arith

  restart_task-requeues :
      (worker addr body : String) (cause : Error)
      → worker_for_task t.id m ≡ some worker
      → require_worker_address "manager.restartTask" worker m ≡ ok addr
      → (begin_restart t.id m).1 ≡ some bumped
      → p.codec.encode_event (restart_event at bumped) ≡ some body
      → at.net.post (worker_tasks_url addr) body ≡ unreachable cause
      → restart_task at t m ≡ enqueue_event (restart_event at bumped) (begin_restart t.id m).0
  unfolding restart_task post_task_event errors_is
  restart_task-requeues worker addr body cause r a b e u = ground arith

module _ {p : Parts} (laws : StoreLaws p.tasks) (reliable : IsReliable p.tasks) where
  -- A restart that was written is what the store then gives for the task.
  stored-begin_restart :
      (id : Uuid) (bumped : Task) (m : Manager p)
      → (begin_restart id m).1 ≡ some bumped
      → stored laws (begin_restart id m).0 (p.uuid_string id) ≡ some bumped
  unfolding begin_restart task_locked
  stored-begin_restart id bumped m e =
      elim (Result-cases (p.tasks.get (p.uuid_string id) m.task_db)) [
        | inr (x, g) ↦ absurd (ground arith)
        | inl (s, g) ↦
            let key = p.uuid_string id in
            elim (Option-cases (p.tasks.put key (restarted s) m.task_db).1) [
              | inr (x, w) ↦ absurd (ground arith)
              | inl w ↦
                  let same : restarted s ≡ bumped = ground arith in
                  rw (g, begin_restart, task_locked)
                    (laws.put_stored key key (restarted s) m.task_db w
                      ∙ (rw ((str_eq_iff key key).1 refl) (ap some same)))
            ]
      ]

  -- A task that is routed and stored is assigned.
  assignment_for-stored :
      (id : Uuid) (worker : String) (t : Task) (m : Manager p)
      → worker_for_task id m ≡ some worker
      → stored laws m (p.uuid_string id) ≡ some t
      → assignment_for id m ≡ some (worker, t)
  unfolding assignment_for worker_for_task task_locked
  assignment_for-stored id worker t m r s =
      elim (Result-cases (p.tasks.get (p.uuid_string id) m.task_db)) [
        | inl (x, g) ↦
            let same : x ≡ t = cc (laws.get_found (p.uuid_string id) x m.task_db g, s) in
            ground arith
        | inr (x, g) ↦
            let missing =
              laws.get_missing (p.uuid_string id) x m.task_db g
                (reliable.get_err (p.uuid_string id) x m.task_db g) in
            let no_task : none ≡ some t = sym missing ∙ s in cc no_task
      ]

  -- Over a reliable store, when a task is restarted whose worker has a known address, its restart
  -- could be written and its event encodes, but the worker cannot be reached: with nothing else
  -- pending, its event is then the only one that waits, and the next pass of `SendWork` takes it and
  -- loses the restart, whatever the network answers by then: no event waits, and the task is still
  -- routed to its worker, and still stored as scheduled with the count one higher.
  pub restart_task-dropped :
      (queue_laws : InnerLaws p.pending) (at : Moment) (t bumped : Task) (m : Manager p)
      (worker addr body : String) (cause : Error) (net : Net)
      → worker_for_task t.id m ≡ some worker
      → require_worker_address "manager.restartTask" worker m ≡ ok addr
      → (begin_restart t.id m).1 ≡ some bumped
      → bumped.id ≡ t.id
      → p.codec.encode_event (restart_event at bumped) ≡ some body
      → at.net.post (worker_tasks_url addr) body ≡ unreachable cause
      → pending_events queue_laws m ≡ []
      → (pending_events queue_laws (restart_task at t m) ≡ restart_event at bumped ∷ [])
        × (pending_events queue_laws (send_work net (restart_task at t m)) ≡ [])
        × (worker_for_task t.id (send_work net (restart_task at t m)) ≡ some worker)
        × (stored laws (send_work net (restart_task at t m)) (p.uuid_string t.id) ≡ some bumped)
  unfolding next_pending_event dequeue send_work
  restart_task-dropped queue_laws at t bumped m worker addr body cause net r a b i e u none_waits =
      (
        waits,
        ap (pending_events queue_laws) passed
            ∙ queue_laws.items-dequeue_cons queued.pending.inner_queue te [] one,
        ap (worker_for_task t.id) passed ∙ routed,
        ap (λ (n : Manager p). stored laws n (p.uuid_string t.id)) passed ∙ kept,
      )
    where
      te : TaskEvent
      te = restart_event at bumped

      queued : Manager p
      queued = enqueue_event te (begin_restart t.id m).0

      taken : Manager p
      taken = (next_pending_event queued).1

      requeued : restart_task at t m ≡ queued
      requeued = restart_task-requeues at t bumped m worker addr body cause r a b e u

      one : pending_events queue_laws queued ≡ te ∷ []
      one =
          pending_events-enqueue_event queue_laws te (begin_restart t.id m).0
          ∙ ap (λ q. queue_laws.items q.inner_queue ++ te ∷ [])
              (pending-begin_restart at t bumped m t.id)
          ∙ ap (λ ts. ts ++ te ∷ []) none_waits

      waits : pending_events queue_laws (restart_task at t m) ≡ te ∷ []
      waits = ap (pending_events queue_laws) requeued ∙ one

      first : (next_pending_event queued).0 ≡ some te
      first = let out = queue_laws.dequeue-cons queued.pending.inner_queue te [] one in rw out refl

      routed : worker_for_task t.id taken ≡ some worker
      routed = routed-begin_restart at t bumped m t.id worker r

      kept : stored laws taken (p.uuid_string t.id) ≡ some bumped
      kept = (unfold enqueue_event in stored-begin_restart t.id bumped m b)

      asked : te.task.id ≡ t.id
      asked = (unfold restart_event in i)

      assigned : assignment_for te.task.id taken ≡ some (worker, bumped)
      assigned =
          ap (λ j. assignment_for j taken) asked
          ∙ assignment_for-stored t.id worker bumped taken routed kept

      handled : handle_event te net taken ≡ taken
      handled =
          handle_event-duplicate te net taken worker bumped assigned
            (inl (unfold restart_event in (λ h. cc (state-begin_restart at t bumped m t.id b))))

      passed : send_work net (restart_task at t m) ≡ taken
      passed = ap (send_work net) requeued ∙ (ground (arith, first, handled))
