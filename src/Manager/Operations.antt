-- ===== src/Manager/Operations.antt =====
-- The manager's operations as sequences of the locked helpers of state.go.
use task_orchestrator.Prelude.{
  ℕ, suc, ◌≡◌, refl, sym, subst, ◌⊎◌, inl, inr, ◌&&◌, none, some, List, [], ◌∷◌, map, String, arith,
  Bool-cases, Option-cases,
}
use task_orchestrator.Errors.{Result-cases}
use task_orchestrator.Node.{Node}
use task_orchestrator.Task.{
  Task, TaskEvent, Uuid, completed, state_eq, new_state_machine, is_valid_transition,
}
use task_orchestrator.Manager.{Parts, Manager, Net}
use task_orchestrator.Manager.State.{
  assignment_for, begin_restart, enqueue_event, next_pending_event, pick_worker, retire_task,
}
use task_orchestrator.Manager.Send.{
  reports_from_worker, stop_task, deliver, handle_event, send_work, add_task, apply_reports,
  update_tasks, select_worker, get_tasks,
}
use task_orchestrator.Manager.Health.{
  Moment, restart_event, restart_task, check_one, check_each, do_health_checks,
}
use task_orchestrator.Manager.Delivery.{deliver-cases}
use task_orchestrator.Manager.Budget.{check_one-cases}
use task_orchestrator.Manager.Routing.{
  Calls, none_yet, and_then, puts, enqueues, dequeues, assigns, unassigns, reports, restarts,
  retires, picks, RoutesListed, Calls-RoutesListed,
}

-- A turn of one of the manager's loops, or a request to add a task.
pub data Operation {p : Parts} (m u : Manager p) : Type 0 where
  sends : (net : Net) → u ≡ send_work net m → Operation m u
  adds : (te : TaskEvent) → u ≡ add_task te m → Operation m u
  polls :
      (interleave : List (List Task) → List Task) (net : Net)
      → u ≡ update_tasks interleave net m
      → Operation m u
  checks : (at : ℕ → Moment) → do_health_checks at m ≡ some u → Operation m u

module _ {p : Parts} where
  no_call : {m u : Manager p} → u ≡ m → Calls m u
  no_call {m} e = subst (Calls m) (sym e) none_yet

  Calls-append : {m t u : Manager p} → Calls m t → Calls t u → Calls m u
  Calls-append c none_yet = c
  Calls-append c (and_then d h) = and_then (Calls-append c d) h

  pub stop_task-cases :
      (w : String) (id : Uuid) (net : Net) (m : Manager p)
      → (stop_task w id net m ≡ m) ⊎ (stop_task w id net m ≡ retire_task w id m)
  unfolding stop_task
  stop_task-cases w id net m = ground arith

  stop_task-Calls :
      (w : String) (id : Uuid) (net : Net) (m : Manager p) → Calls m (stop_task w id net m)
  stop_task-Calls w id net m = elim (stop_task-cases w id net m) [
    | inl e ↦ no_call e
    | inr e ↦ and_then none_yet (retires w id e)
  ]

  deliver-Calls :
      (n : Node) (te : TaskEvent) (net : Net) (m : Manager p) → Calls m (deliver n te net m)
  deliver-Calls n te net m =
      let assigned = and_then none_yet (assigns n.name te refl) in
      elim (deliver-cases n te net m) [
        | inl e ↦ and_then (and_then assigned (unassigns n.name te.task.id refl)) (enqueues te e)
        | inr (inl e) ↦ and_then none_yet (assigns n.name te e)
        | inr (inr (t, e)) ↦ and_then assigned (puts t e)
      ]

  pub handle_event-cases :
      (te : TaskEvent) (net : Net) (m : Manager p)
      → (handle_event te net m ≡ m)
        ⊎ ((w : String) × (handle_event te net m ≡ stop_task w te.task.id net m))
        ⊎ (handle_event te net m ≡ (pick_worker te.task m).0)
        ⊎ ((n : Node) × ((pick_worker te.task m).1 ≡ some n)
            × (handle_event te net m ≡ deliver n te net (pick_worker te.task m).0))
  unfolding handle_event select_worker
  handle_event-cases te net m = elim (Option-cases (assignment_for te.task.id m)) [
    | inr ((w, t), e) ↦
        elim (Bool-cases (
          state_eq te.task.state completed
          && is_valid_transition new_state_machine t.state te.task.state)) [
            | inl b ↦ inr (inl (w, ground arith))
            | inr b ↦ inl (ground arith)
          ]
    | inl e ↦ elim (Option-cases (pick_worker te.task m).1) [
      | inl s ↦ inr (inr (inl (ground arith)))
      | inr (n, s) ↦ inr (inr (inr (n, s, ground arith)))
    ]
  ]

  handle_event-Calls :
      (te : TaskEvent) (net : Net) (m : Manager p) → Calls m (handle_event te net m)
  handle_event-Calls te net m = elim (handle_event-cases te net m) [
    | inl e ↦ no_call e
    | inr (inl (w, e)) ↦ subst (Calls m) (sym e) (stop_task-Calls w te.task.id net m)
    | inr (inr (inl e)) ↦ and_then none_yet (picks te.task e)
    | inr (inr (inr (n, _, e))) ↦ subst (Calls m) (sym e) (
        Calls-append (and_then none_yet (picks te.task refl))
          (deliver-Calls n te net (pick_worker te.task m).0))
  ]

  send_work-Calls : (net : Net) (m : Manager p) → Calls m (send_work net m)
  unfolding send_work
  send_work-Calls net m = elim (Option-cases (next_pending_event m).0) [
    | inl e ↦ and_then none_yet (dequeues (ground arith))
    | inr (te, e) ↦
        let rest = (next_pending_event m).1 in
        let handled : send_work net m ≡ handle_event te net rest = ground arith in
        subst (Calls m) (sym handled)
          (Calls-append (and_then none_yet (dequeues refl)) (handle_event-Calls te net rest))
  ]

  apply_reports-Calls : (ts : List Task) (m : Manager p) → Calls m (apply_reports ts m)
  unfolding apply_reports
  apply_reports-Calls [] m = none_yet
  apply_reports-Calls (t ∷ ts) m =
      Calls-append (and_then none_yet (reports t refl)) (apply_reports-Calls ts _)

  -- A restart may stop at once, after its write, or when the event is back in the queue.
  pub restart_task-ways :
      (at : Moment) (t : Task) (m : Manager p)
      → (restart_task at t m ≡ m)
        ⊎ (restart_task at t m ≡ (begin_restart t.id m).0)
        ⊎ ((te : TaskEvent) × (restart_task at t m ≡ enqueue_event te (begin_restart t.id m).0))
  restart_task-ways at t m = elim (Option-cases (begin_restart t.id m).1) [
    | inl b ↦
        let two : (restart_task at t m ≡ m) ⊎ (restart_task at t m ≡ (begin_restart t.id m).0) =
          unfold restart_task in ground arith in
        elim two [ inl e ↦ inl e | inr e ↦ inr (inl e) ]
    | inr (t', b) ↦
        let te = restart_event at t' in
        let three : (restart_task at t m ≡ m)
            ⊎ (restart_task at t m ≡ (begin_restart t.id m).0)
            ⊎ (restart_task at t m ≡ enqueue_event te (begin_restart t.id m).0) =
          unfold restart_task in ground arith in
        elim three [ inl e ↦ inl e | inr (inl e) ↦ inr (inl e) | inr (inr e) ↦ inr (inr (te, e)) ]
  ]

  restart_task-Calls : (at : Moment) (t : Task) (m : Manager p) → Calls m (restart_task at t m)
  restart_task-Calls at t m = elim (restart_task-ways at t m) [
    | inl e ↦ no_call e
    | inr (inl e) ↦ and_then none_yet (restarts t.id e)
    | inr (inr (te, e)) ↦ and_then (and_then none_yet (restarts t.id refl)) (enqueues te e)
  ]

  check_each-Calls :
      (at : ℕ → Moment) (i : ℕ) (ts : List Task) (m u : Manager p)
      → check_each at i ts m ≡ some u
      → Calls m u
  unfolding check_each
  check_each-Calls at i [] m u e = no_call (cc e)
  check_each-Calls at i (t ∷ ts) m u e = elim (Option-cases (check_one (at i) t m)) [
    | inl q ↦ cc (let n : none ≡ some u = rw (q, check_each) at e in n)
    | inr (next, q) ↦
        let rest = check_each-Calls at (suc i) ts next u (rw (q, check_each) at e) in
        elim (check_one-cases (at i) t m next q) [
          | inl s ↦ Calls-append (no_call s) rest
          | inr (may, s) ↦
              Calls-append (subst (Calls m) (sym s) (restart_task-Calls (at i) t m)) rest
        ]
  ]

  -- Every operation of the manager is a sequence of calls of locked helpers, with nothing between
  -- them that touches the state, whatever the network answers.
  pub Operation-Calls : {m u : Manager p} → Operation m u → Calls m u
  unfolding update_tasks add_task do_health_checks
  Operation-Calls {m} (sends net e) = subst (Calls m) (sym e) (send_work-Calls net m)
  Operation-Calls {m} (adds te e) = and_then none_yet (enqueues te e)
  Operation-Calls {m} (polls interleave net e) = subst (Calls m) (sym e) (
      apply_reports-Calls (interleave (map (λ n. reports_from_worker n.name net m) m.worker_nodes))
        m)
  Operation-Calls {m} {u} (checks at e) = elim (Result-cases (get_tasks m)) [
    | inr (x, g) ↦ no_call (ground arith)
    | inl (ts, g) ↦ check_each-Calls at 0 ts m u (rw (g, do_health_checks) at e)
  ]

  -- If every routed task is listed by the worker that it is routed to, this still holds after any
  -- operation of the manager, whatever the network answers.
  pub Operation-RoutesListed : {m u : Manager p} → Operation m u → RoutesListed m → RoutesListed u
  Operation-RoutesListed op h = Calls-RoutesListed (Operation-Calls op) h
