-- ===== src/Manager/Draining.antt =====
-- The loop `ProcessTasks` of internal/manager/manager.go and the queue that it takes events from.
use task_orchestrator.Prelude.{
  ◌≡◌, refl, ap, ◌∙◌, inl, inr, false, List, [], ◌∷◌, map, String, length, In, arith, Bool-cases,
  Option-cases, ◌==◌,
}
use task_orchestrator.Errors.{Error, err, errors_is, worker_unreachable, Result-cases}
use task_orchestrator.HttpApi.{Response, status_created}
use task_orchestrator.Node.{Node}
use task_orchestrator.Queue.{InnerLaws, dequeue}
use task_orchestrator.Task.{TaskEvent}
use task_orchestrator.Manager.{Codec, Parts, Manager, Net, answered}
use task_orchestrator.Manager.Pure.{worker_tasks_url}
use task_orchestrator.Manager.State.{assign_task, next_pending_event, pick_worker}
use task_orchestrator.Manager.Frames.{
  pending_events, pending-assign_task, pending-put_task, pending-pick_worker, pending-retire_task,
}
use task_orchestrator.Manager.Send.{post_task_event, deliver, handle_event, send_work, stop_task}
use task_orchestrator.Manager.Operations.{handle_event-cases}
use task_orchestrator.Manager.Loops.{Wake, process_tasks}

-- Every POST is answered, whatever the answer.
abbrev pub Answering : Net → Type 0
Answering net = (url body : String) → (resp : Response) × (net.post url body ≡ answered resp)

-- A wake before which no other goroutine did anything.
abbrev pub quiet : {p : Parts} → Net → Wake p Net
quiet net = record { others = λ m. m; given = net }

post-reachable :
    (c : Codec) (op addr : String) (te : TaskEvent) (net : Net) (x : Error)
    → Answering net
    → post_task_event c op addr te net ≡ err x
    → errors_is x worker_unreachable ≡ false
unfolding post_task_event errors_is
post-reachable c op addr te net x a h = elim (Option-cases (c.encode_event te)) [
  | inl e ↦ ground arith
  | inr (body, e) ↦
      let (resp, r) = a (worker_tasks_url addr) body in
      elim (Bool-cases (resp.status == status_created)) [
        | inl s ↦ elim (Option-cases (c.decode_task resp.body)) [
          | inl q ↦ ground arith
          | inr (t, q) ↦ ground arith
        ]
        | inr s ↦ elim (Option-cases (c.decode_error resp.body)) [
          | inl q ↦ ground arith
          | inr (t, q) ↦ ground arith
        ]
      ]
]

module _ {p : Parts} (te : TaskEvent) (net : Net) (answers : Answering net) where
  pending-deliver : (n : Node) (m : Manager p) → (deliver n te net m).pending ≡ m.pending
  unfolding deliver
  pending-deliver n m =
      let assigned = assign_task n.name te m in
      let same = pending-assign_task n.name te m in
      elim (Result-cases (post_task_event p.codec "manager.SendWork" n.api te net)) [
        | inl (t, e) ↦ rw (e, deliver) (pending-put_task t assigned ∙ same)
        | inr (x, e) ↦
            let far = post-reachable p.codec "manager.SendWork" n.api te net x answers e in
            rw (e, deliver) (rw far same)
      ]

  pending-stop_task :
      (w : String) (m : Manager p) → (stop_task w te.task.id net m).pending ≡ m.pending
  unfolding stop_task
  pending-stop_task w m = ground (arith, pending-retire_task w te.task.id m)

  pending-handle_event : (m : Manager p) → (handle_event te net m).pending ≡ m.pending
  pending-handle_event m = elim (handle_event-cases te net m) [
    | inl e ↦ ap (λ (n : Manager p). n.pending) e
    | inr (inl (w, e)) ↦ ap (λ (n : Manager p). n.pending) e ∙ pending-stop_task w m
    | inr (inr (inl e)) ↦ ap (λ (n : Manager p). n.pending) e ∙ pending-pick_worker te.task m
    | inr (inr (inr (n, _, e))) ↦
        ap (λ (n : Manager p). n.pending) e
        ∙ pending-deliver n (pick_worker te.task m).0
        ∙ pending-pick_worker te.task m
  ]

module _ {p : Parts} (queue_laws : InnerLaws p.pending) where
  send_work-rest :
      (net : Net) (m : Manager p) (te : TaskEvent) (rest : List TaskEvent)
      → Answering net
      → pending_events queue_laws m ≡ te ∷ rest
      → pending_events queue_laws (send_work net m) ≡ rest
  unfolding send_work next_pending_event dequeue
  send_work-rest net m te rest a h =
      let q : p.pending.Q = (m.pending).inner_queue in
      let first = queue_laws.dequeue-cons q te rest h in
      let others = queue_laws.items-dequeue_cons q te rest h in
      let taken : send_work net m ≡ handle_event te net (next_pending_event m).1 = ground arith in
      ap (pending_events queue_laws) taken
      ∙ ap (λ r. queue_laws.items r.inner_queue)
          (pending-handle_event te net a (next_pending_event m).1)
      ∙ others

  -- While every worker answers, whatever it answers, and nothing else happens: after as many turns
  -- of `ProcessTasks` as events are pending, none is.
  pub process_tasks-drains :
      (nets : List Net) (m : Manager p) (es : List TaskEvent)
      → pending_events queue_laws m ≡ es
      → length nets ≡ length es
      → ((net : Net) → In net nets → Answering net)
      → pending_events queue_laws (process_tasks (map quiet nets) m) ≡ []
  unfolding process_tasks
  process_tasks-drains [] m [] h l a = h
  process_tasks-drains [] m (e ∷ es) h l a = absurd (omega arith)
  process_tasks-drains (n ∷ ns) m [] h l a = absurd (omega arith)
  process_tasks-drains (n ∷ ns) m (e ∷ es) h l a =
      process_tasks-drains ns (send_work n m) es (send_work-rest n m e es (a n (inl refl)) h)
        (omega arith) (λ net i. a net (inr i))
