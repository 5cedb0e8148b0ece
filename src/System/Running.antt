-- ===== src/System/Running.antt =====
-- The loop of the worker against the routes of the manager: internal/worker/worker.go with
-- internal/manager/state.go.
use task_orchestrator.Prelude.{
  ◌≡◌, refl, ap, subst, ◌∙◌, ◌⊎◌, inl, inr, false, some, List, [], ◌∷◌, map, length, In,
  Option-cases, Bool-cases, not, if◌then◌else◌, ◌==◌, ==_iff, arith,
}
use task_orchestrator.Docker.{failure}
use task_orchestrator.Errors.{origin}
use task_orchestrator.Queue.{InnerLaws, len}
use task_orchestrator.Store.{StoreLaws, IsReliable}
use task_orchestrator.Task.{
  Task, Uuid, State, Time, pending, scheduled, running, completed, failed, unknown,
  new_state_machine, is_valid_transition,
}
use task_orchestrator.Worker.{Parts, Worker}
use task_orchestrator.Worker.Setup.{run_tasks}
use task_orchestrator.Worker.Run.{
  World, mark_failed, mark_running, mark_completed, dispatch, run_dequeued, run_task,
  run_tasks_round,
}
use task_orchestrator.Worker.Running.{start_task-cases, stop_task-cases}
use task_orchestrator.Worker.State.{dequeue_task, queue_len, lookup_task, put_task, upsert_task}
use task_orchestrator.Wire.Delivering.{waiting}
use task_orchestrator.Worker.Fields.{lookup_task_lem}
use task_orchestrator.System.Presence.{
  take_alone, Has, take_alone_cons, take_alone-Has, upsert_task-Has,
}

module _ {p : Parts} (now : Time) (during : Worker p → Worker p) where
  -- What a turn makes of the worker once the task is taken: nothing, or nothing but what came in
  -- between, or a mark after that.
  abbrev pub Marked : Worker p → Worker p → Type 0
  Marked w after =
      (after ≡ w)
      ⊎ (after ≡ during w)
      ⊎ ((base : Task) × (apply : Task → Task) × ((t : Task) → (apply t).id ≡ t.id)
          × (after ≡ upsert_task base apply (during w)))

  dispatch-Marked :
      (t : Task) (st : State) (world : World p)
      → Marked world.worker (dispatch now during t st world).0.worker
  unfolding dispatch
  dispatch-Marked t scheduled world = elim (start_task-cases now during t world) [
    | inl e ↦ inr (inr (t, mark_failed now, (λ x. refl), e))
    | inr (id, ports, e) ↦ inr (inr (t, mark_running now id ports, (λ x. refl), e))
  ]
  dispatch-Marked t completed world = elim (stop_task-cases now during t world) [
    | inl e ↦ inr (inl e)
    | inr e ↦ inr (inr (t, mark_completed now, (λ x. refl), e))
  ]
  dispatch-Marked t pending world = inl refl
  dispatch-Marked t running world = inl refl
  dispatch-Marked t failed world = inl refl
  dispatch-Marked t (unknown n) world = inl refl

  -- From the point where the task is stored, in a state that the queued task may follow or not.
  dispatch_valid-Marked :
      (t : Task) (from : State) (world : World p)
      → Marked world.worker
          (if not (is_valid_transition new_state_machine from t.state)
            then (world, failure (origin "worker.RunTask"))
            else dispatch now during t t.state world).0.worker
  dispatch_valid-Marked t from world =
      elim (Bool-cases (is_valid_transition new_state_machine from t.state)) [
        | inl b ↦ rw b (dispatch-Marked t t.state world)
        | inr b ↦ rw b (inl refl)
      ]

  run_task-Marked :
      (world : World p) → Marked (take_alone world.worker) (run_task now during world).0.worker
  unfolding run_task run_dequeued take_alone
  run_task-Marked world = elim (Option-cases (dequeue_task world.worker).0) [
    | inl e ↦ inl (rw (e, take_alone, run_task) refl)
    | inr (t, e) ↦
        let rest : Worker p = (dequeue_task world.worker).1 in
        elim (Option-cases (lookup_task t.id rest)) [
          | inl l ↦
              rw (e, l, take_alone, run_task, run_dequeued)
                (dispatch_valid-Marked t t.state (record world { worker = put_task t rest }))
          | inr (x, l) ↦
              rw (e, l, take_alone, run_task, run_dequeued)
                (dispatch_valid-Marked t x.state (record world { worker = rest }))
        ]
  ]

-- A wake between which nothing else happens.
abbrev pub alone : {p : Parts} → Time → (World p → World p) × Time × (Worker p → Worker p)
alone now = ((λ world. world), now, (λ w. w))

module _ {p : Parts} (queue_laws : InnerLaws p.queue) where
  waiting-upsert_task :
      (base : Task) (apply : Task → Task) (w : Worker p)
      → waiting queue_laws (upsert_task base apply w) ≡ waiting queue_laws w
  unfolding upsert_task put_task
  waiting-upsert_task base apply w = elim (Option-cases (lookup_task base.id w)) [
    | inl e ↦ rw (e, upsert_task) refl
    | inr (t, e) ↦ rw (e, upsert_task) refl
  ]

  waiting-run_task :
      (now : Time) (world : World p)
      → waiting queue_laws (run_task now (λ w. w) world).0.worker
        ≡ waiting queue_laws (take_alone world.worker)
  waiting-run_task now world = elim (run_task-Marked now (λ w. w) world) [
    | inl e ↦ ap (waiting queue_laws) e
    | inr (inl e) ↦ ap (waiting queue_laws) e
    | inr (inr (base, apply, same, e)) ↦
        ap (waiting queue_laws) e ∙ waiting-upsert_task base apply (take_alone world.worker)
  ]

module _ {p : Parts} (queue_laws : InnerLaws p.queue) (laws : StoreLaws p.tasks)
    (reliable : IsReliable p.tasks) where
  run_tasks_round-busy :
      (now : Time) (world : World p) (t : Task) (ts : List Task)
      → waiting queue_laws world.worker ≡ t ∷ ts
      → run_tasks_round now (λ w. w) world ≡ (run_task now (λ w. w) world).0
  unfolding run_tasks_round queue_len len
  run_tasks_round-busy now world t ts h =
      let long = queue_laws.len-items world.worker.queue.inner_queue ∙ ap length h in
      let busy : (queue_len world.worker == 0) ≡ false =
        ground (arith, long, ==_iff (queue_len world.worker) 0) in
      rw (busy, run_tasks_round) refl

  waiting-run_tasks_round :
      (now : Time) (world : World p) (t : Task) (ts : List Task)
      → waiting queue_laws world.worker ≡ t ∷ ts
      → waiting queue_laws (run_tasks_round now (λ w. w) world).worker ≡ ts
  waiting-run_tasks_round now world t ts h =
      ap (λ (x : World p). waiting queue_laws x.worker) (run_tasks_round-busy now world t ts h)
      ∙ waiting-run_task queue_laws now world
      ∙ (take_alone_cons queue_laws laws reliable t ts world.worker h).0

  -- After as many undisturbed turns of `RunTasks` as tasks wait, none does.
  run_tasks-empties :
      (nows : List Time) (world : World p) (ts : List Task)
      → waiting queue_laws world.worker ≡ ts
      → length nows ≡ length ts
      → waiting queue_laws (run_tasks (map alone nows) world).worker ≡ []
  unfolding run_tasks
  run_tasks-empties [] world [] h l = h
  run_tasks-empties [] world (t ∷ ts) h l = absurd (omega arith)
  run_tasks-empties (n ∷ ns) world [] h l = absurd (omega arith)
  run_tasks-empties (n ∷ ns) world (t ∷ ts) h l =
      run_tasks-empties ns (run_tasks_round n (λ w. w) world) ts
        (waiting-run_tasks_round n world t ts h) (omega arith)

  run_tasks_round-Has :
      (now : Time) (world : World p) (id : Uuid)
      → Has queue_laws laws reliable id world.worker
      → Has queue_laws laws reliable id (run_tasks_round now (λ w. w) world).worker
  unfolding run_tasks_round
  run_tasks_round-Has now world id h = elim (Bool-cases (queue_len world.worker == 0)) [
    | inl b ↦ rw (b, run_tasks_round) h
    | inr b ↦
        rw (b, run_tasks_round)
          (elim (run_task-Marked now (λ w. w) world) [
            | inl e ↦ rw e taken
            | inr (inl e) ↦ rw e taken
            | inr (inr (base, apply, same, e)) ↦ rw e (
                upsert_task-Has queue_laws laws reliable base apply id (take_alone world.worker)
                  taken)
          ])
  ]
    where
      taken : Has queue_laws laws reliable id (take_alone world.worker)
      taken = take_alone-Has queue_laws laws reliable id world.worker h

  run_tasks-Has :
      (nows : List Time) (world : World p) (id : Uuid)
      → Has queue_laws laws reliable id world.worker
      → Has queue_laws laws reliable id (run_tasks (map alone nows) world).worker
  unfolding run_tasks
  run_tasks-Has [] world id h = h
  run_tasks-Has (n ∷ ns) world id h =
      run_tasks-Has ns (run_tasks_round n (λ w. w) world) id (run_tasks_round-Has n world id h)

  -- A task that the worker has is stored once no task waits.
  pub run_tasks-stored :
      (nows : List Time) (world : World p) (id : Uuid)
      → length nows ≡ length (waiting queue_laws world.worker)
      → Has queue_laws laws reliable id world.worker
      → (t : Task) × (lookup_task id (run_tasks (map alone nows) world).worker ≡ some t)
  run_tasks-stored nows world id l h =
      let after = (run_tasks (map alone nows) world).worker in
      elim (run_tasks-Has nows world id h) [
        | inl (x, m, _) ↦
            absurd (
              subst (In x) (run_tasks-empties nows world (waiting queue_laws world.worker) refl l)
                m)
        | inr (t, e) ↦ (t, lookup_task_lem laws reliable id after ∙ e)
      ]
