-- ===== src/Manager/Dispatch.antt =====
-- Which way `SendWork` takes an event, and how the queue of pending events is used up.
use task_orchestrator.Prelude.{
  ◌≡◌, refl, sym, ap, subst, ◌∙◌, ◌≢◌, ◌⊎◌, inl, inr, ◌&&◌, true, false, none, some, List, [], ◌∷◌,
  ◌++◌, String, str_append, arith, Bool-cases, Option-cases, ◌==◌, ==_iff,
}
use task_orchestrator.Errors.{Error, ok, err, Result-cases}
use task_orchestrator.HttpApi.{Response, status_no_content}
use task_orchestrator.Node.{Node}
use task_orchestrator.Queue.{InnerLaws, dequeue}
use task_orchestrator.Task.{
  Task, TaskEvent, completed, running, state_eq, state_eq_iff, new_state_machine,
  is_valid_transition,
}
use task_orchestrator.Task.Graph.{complete, into_completed, is_valid_transition_iff}
use task_orchestrator.Manager.{Parts, Manager, Net, Reply, unreachable, answered}
use task_orchestrator.Manager.Pure.{worker_tasks_url}
use task_orchestrator.Manager.State.{
  assign_task, put_task, unassign_task, next_pending_event, retire_task, assignment_for,
}
use task_orchestrator.Manager.Frames.{
  pending_events, pending_events-enqueue_event, pending-drop_routing, pending-assign_task,
  pending-retire_task, pending-put_task, pending-pick_worker,
}
use task_orchestrator.Manager.Delivery.{deliver-cases}
use task_orchestrator.Manager.Send.{
  deliver, handle_event, send_work, stop_task, select_worker, require_worker_address,
}

Reply-cases :
    (r : Reply) → ((e : Error) × (r ≡ unreachable e)) ⊎ ((resp : Response) × (r ≡ answered resp))
Reply-cases (unreachable e) = inl (e, refl)
Reply-cases (answered resp) = inr (resp, refl)

module _ {p : Parts} (te : TaskEvent) (net : Net) where
  -- An event for a task that is routed and stored is dropped without a trace, unless it asks to
  -- complete a task that runs.
  pub handle_event-duplicate :
      (m : Manager p) (worker : String) (t : Task)
      → assignment_for te.task.id m ≡ some (worker, t)
      → (te.task.state ≢ completed) ⊎ (t.state ≢ running)
      → handle_event te net m ≡ m
  unfolding handle_event
  handle_event-duplicate m worker t e h = elim (Bool-cases (state_eq te.task.state completed)) [
    | inl c ↦
        let done : te.task.state ≡ completed = (state_eq_iff te.task.state completed).0 c in
        elim (Bool-cases (is_valid_transition new_state_machine t.state te.task.state)) [
          | inl v ↦
              let runs : t.state ≡ running =
                into_completed ((is_valid_transition_iff t.state te.task.state).0 v) done in
              elim h [ inl ne ↦ absurd (ne done) | inr ne ↦ absurd (ne runs) ]
          | inr v ↦ ground arith
        ]
    | inr c ↦ ground arith
  ]

  -- An event that asks to complete a task that runs is a stop on the worker that has it, if the
  -- worker's address is known: either the worker answers 204, and the task is retired; or it cannot
  -- be reached or answers anything else, and nothing changes.
  pub handle_event-stop :
      (m : Manager p) (worker addr : String) (t : Task)
      → assignment_for te.task.id m ≡ some (worker, t)
      → te.task.state ≡ completed
      → t.state ≡ running
      → require_worker_address "manager.stopTask" worker m ≡ ok addr
      → let reply =
          net.delete
            (str_append (worker_tasks_url addr) (str_append "/" (p.uuid_string te.task.id))) in
        ((resp : Response) × (reply ≡ answered resp)
          × (resp.status ≡ status_no_content)
          × (handle_event te net m ≡ retire_task worker te.task.id m))
        ⊎ (((resp : Response) × (reply ≡ answered resp) × (resp.status ≢ status_no_content))
            × (handle_event te net m ≡ m))
        ⊎ (((cause : Error) × (reply ≡ unreachable cause)) × (handle_event te net m ≡ m))
  unfolding handle_event stop_task
  handle_event-stop m worker addr t e done runs a =
      let url = str_append (worker_tasks_url addr) (str_append "/" (p.uuid_string te.task.id)) in
      let v : is_valid_transition new_state_machine t.state te.task.state ≡ true =
        rw (done, runs) ((is_valid_transition_iff running completed).1 complete) in
      let c : state_eq te.task.state completed ≡ true = rw done in
      elim (Reply-cases (net.delete url)) [
        | inl (cause, r) ↦ inr (inr ((cause, r), ground arith))
        | inr (resp, r) ↦ elim (Bool-cases (resp.status == status_no_content)) [
          | inl s ↦ inl (resp, r, (==_iff resp.status status_no_content).0 s, ground arith)
          | inr s ↦
              inr (
                inl ((resp, r, λ q. cc ((==_iff resp.status status_no_content).1 q)), ground arith))
        ]
      ]

module _ {p : Parts} (queue_laws : InnerLaws p.pending) (te : TaskEvent) (net : Net) where
  abbrev events : Manager p → List TaskEvent
  events = pending_events queue_laws

  -- The event is used up, or back at the end of the queue.
  abbrev pub UsedUp : Manager p → Manager p → Type 0
  UsedUp m u = (events u ≡ events m) ⊎ (events u ≡ events m ++ te ∷ [])

  of_queue : (m u : Manager p) → u.pending ≡ m.pending → UsedUp m u
  of_queue m u e = inl (ap (λ q. queue_laws.items q.inner_queue) e)

  deliver-UsedUp : (n : Node) (m : Manager p) → UsedUp m (deliver n te net m)
  unfolding unassign_task
  deliver-UsedUp n m = elim (deliver-cases n te net m) [
    | inl e ↦ subst (UsedUp m) (sym e) (
        inr (
          pending_events-enqueue_event queue_laws te (unassign_task n.name te.task.id assigned)
          ∙ ap (λ q. queue_laws.items q.inner_queue ++ te ∷ [])
              (pending-drop_routing n.name te.task.id assigned ∙ same)))
    | inr (inl e) ↦ subst (UsedUp m) (sym e) (of_queue m assigned same)
    | inr (inr (t, e)) ↦
        subst (UsedUp m) (sym e)
          (of_queue m (put_task t assigned).0 (pending-put_task t assigned ∙ same))
  ]
    where
      assigned : Manager p
      assigned = assign_task n.name te m

      same : assigned.pending ≡ m.pending
      same = pending-assign_task n.name te m

  stop_task-UsedUp :
      (worker : String) (m : Manager p) → UsedUp m (stop_task worker te.task.id net m)
  unfolding stop_task
  stop_task-UsedUp worker m =
      of_queue m (stop_task worker te.task.id net m)
        (ground (arith, pending-retire_task worker te.task.id m))

  handle_event-UsedUp : (m : Manager p) → UsedUp m (handle_event te net m)
  unfolding handle_event
  handle_event-UsedUp m = elim (Option-cases (assignment_for te.task.id m)) [
    | inr ((w, t), e) ↦
        elim (Bool-cases (
          state_eq te.task.state completed
          && is_valid_transition new_state_machine t.state te.task.state)) [
            | inl b ↦ subst (UsedUp m) (sym (stopped w t e b)) (stop_task-UsedUp w m)
            | inr b ↦ subst (UsedUp m) (sym (dropped w t e b)) (inl refl)
          ]
    | inl e ↦ elim (Result-cases (select_worker te.task m).1) [
      | inl (n, s) ↦ subst (UsedUp m) (sym (selected e n s)) (
          subst
            (λ es.
              (events (deliver n te net picked) ≡ es)
              ⊎ (events (deliver n te net picked) ≡ es ++ te ∷ []))
            same_events (deliver-UsedUp n picked))
      | inr (x, s) ↦ subst (UsedUp m) (sym (unselected e x s)) (inl same_events)
    ]
  ]
    where
      picked : Manager p
      picked = (select_worker te.task m).0

      same_events : events picked ≡ events m
      same_events =
          ap (λ q. queue_laws.items q.inner_queue)
            (unfold select_worker in pending-pick_worker te.task m)

      stopped :
          (w : String) (t : Task)
          → assignment_for te.task.id m ≡ some (w, t)
          → (state_eq te.task.state completed
              && is_valid_transition new_state_machine t.state te.task.state)
            ≡ true
          → handle_event te net m ≡ stop_task w te.task.id net m
      stopped w t e b = ground arith

      dropped :
          (w : String) (t : Task)
          → assignment_for te.task.id m ≡ some (w, t)
          → (state_eq te.task.state completed
              && is_valid_transition new_state_machine t.state te.task.state)
            ≡ false
          → handle_event te net m ≡ m
      dropped w t e b = ground arith

      selected :
          assignment_for te.task.id m ≡ none
          → (n : Node) → (select_worker te.task m).1 ≡ ok n
          → handle_event te net m ≡ deliver n te net (select_worker te.task m).0
      selected e n s = ground arith

      unselected :
          assignment_for te.task.id m ≡ none
          → (x : Error) → (select_worker te.task m).1 ≡ err x
          → handle_event te net m ≡ (select_worker te.task m).0
      unselected e x s = ground arith

-- Whatever the network answers: `SendWork` takes the oldest event, and it is used up or put back
-- once, at the end of the queue; the other events stay in their order.
pub send_work-queue :
    {p : Parts} (queue_laws : InnerLaws p.pending) (net : Net) (m : Manager p)
    → (te : TaskEvent) (rest : List TaskEvent) → pending_events queue_laws m ≡ te ∷ rest
    → (pending_events queue_laws (send_work net m) ≡ rest)
      ⊎ (pending_events queue_laws (send_work net m) ≡ rest ++ te ∷ [])
unfolding send_work next_pending_event dequeue
send_work-queue {p} queue_laws net m te rest h =
    let q : p.pending.Q = (m.pending).inner_queue in
    let first = queue_laws.dequeue-cons q te rest h in
    let others = queue_laws.items-dequeue_cons q te rest h in
    let used = handle_event-UsedUp queue_laws te net (next_pending_event m).1 in
    let taken : send_work net m ≡ handle_event te net (next_pending_event m).1 = ground arith in
    elim used [
      | inl e ↦ inl (ap (pending_events queue_laws) taken ∙ e ∙ others)
      | inr e ↦ inr (ap (pending_events queue_laws) taken ∙ e ∙ ap (λ es. es ++ te ∷ []) others)
    ]
