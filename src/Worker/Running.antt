-- ===== src/Worker/Running.antt =====
-- What `RunTask` makes of a task that came off the queue.
use task_orchestrator.Prelude.{
  ◌≡◌, refl, sym, ap, subst, ◌∙◌, ◌⊎◌, inl, inr, some, String, str_eq, str_eq_iff, if◌then◌else◌,
  Bool-cases, Option-cases,
}
use task_orchestrator.Docker.{DockerResult, failure, new_docker, new_config, docker_stop}
use task_orchestrator.Errors.{origin, Result-cases}
use task_orchestrator.Store.{StoreLaws, IsReliable}
use task_orchestrator.Task.{
  Task, State, Time, PortMap, pending, scheduled, running, completed, failed, unknown,
  new_state_machine, is_valid_transition,
}
use task_orchestrator.Task.Graph.{◌⟶◌, here, step, start, fail_to_start, is_valid_transition_iff}
use task_orchestrator.Manager.Merge.{Follows, Follows-refl}
use task_orchestrator.Worker.{Parts, Worker}
use task_orchestrator.Worker.State.{lookup_task, upsert_task}
use task_orchestrator.Worker.Container.{Started, not_started, started, start_container}
use task_orchestrator.Worker.Run.{
  World, mark_failed, mark_running, mark_completed, start_task, stop_task, dispatch, run_dequeued,
}
use task_orchestrator.Worker.Fields.{stored, IsKeyed, stored-upsert_task, lookup_task_lem}

module _ {p : Parts} (now : Time) (during : Worker p → Worker p) (t : Task) where
  -- The daemon apart, a started task is marked failed or running.
  pub start_task-cases :
      (world : World p)
      → ((start_task now during t world).0.worker
          ≡ upsert_task t (mark_failed now) (during world.worker))
        ⊎ ((id : String) × (ports : PortMap) × ((start_task now during t world).0.worker
              ≡ upsert_task t (mark_running now id ports) (during world.worker)))
  unfolding start_task
  start_task-cases world = elim (Started-cases (start_container p.docker t world.daemon).1) [
    | inl (r, e) ↦ inl (rw (e, start_task))
    | inr (r, ports, e) ↦ inr (r.container_id, ports, rw (e, start_task))
  ]
    where
      Started-cases :
          (s : Started)
          → ((r : DockerResult) × (s ≡ not_started r))
            ⊎ ((r : DockerResult) × (ports : PortMap) × (s ≡ started r ports))
      Started-cases (not_started r) = inl (r, refl)
      Started-cases (started r ports) = inr (r, ports, refl)

  -- A stopped task is marked completed, or left as it is after a failure.
  pub stop_task-cases :
      (world : World p)
      → ((stop_task now during t world).0.worker ≡ during world.worker)
        ⊎ ((stop_task now during t world).0.worker
            ≡ upsert_task t (mark_completed now) (during world.worker))
  unfolding stop_task
  stop_task-cases world = elim (Result-cases (new_docker p.docker (new_config t) world.daemon)) [
    | inr (e, q) ↦ inl (rw (q, stop_task))
    | inl (c, q) ↦ elim (Option-cases (docker_stop p.docker t.container_id world.daemon).1.error) [
      | inl r ↦ inr (rw (q, r, stop_task))
      | inr (e, r) ↦ inl (rw (q, r, stop_task))
    ]
  ]

module _ {p : Parts} (laws : StoreLaws p.tasks) (reliable : IsReliable p.tasks) where
  -- Under one key the task is now u, and all else is as it was.
  abbrev pub Stores : String → Task → Worker p → Worker p → Type 0
  Stores key u w after =
      (k : String)
      → stored laws reliable after k ≡ (if str_eq key k then some u else stored laws reliable w k)

  pub upsert-Stores :
      (base s : Task) (apply : Task → Task) (w w' : Worker p)
      → IsKeyed laws reliable w
      → ((x : Task) → (apply x).id ≡ x.id)
      → stored laws reliable w (p.uuid_string base.id) ≡ some s
      → w'.db ≡ w.db
      → Stores (p.uuid_string base.id) (apply s) w (upsert_task base apply w')
  upsert-Stores base s apply w w' keyed same e eq k =
      let view : (j : String) → stored laws reliable w' j ≡ stored laws reliable w j =
        λ j. ap (λ db. laws.view db j) eq in
      let keyed' : IsKeyed laws reliable w' = λ j t h. keyed j t (sym (view j) ∙ h) in
      let at : stored laws reliable w' (p.uuid_string base.id) ≡ some s =
        view (p.uuid_string base.id) ∙ e in
      stored-upsert_task laws reliable base apply w' k keyed' same ∙ (rw (at, view k))

  same-Stores :
      (key : String) (s : Task) (w w' : Worker p)
      → stored laws reliable w key ≡ some s
      → w'.db ≡ w.db
      → Stores key s w w'
  same-Stores key s w w' e eq k = elim (Bool-cases (str_eq key k)) [
    | inl q ↦
        ap (λ db. laws.view db k) eq
        ∙ ap (stored laws reliable w) (sym ((str_eq_iff key k).0 q))
        ∙ e
        ∙ (rw q)
    | inr q ↦ ap (λ db. laws.view db k) eq ∙ (rw q)
  ]

  module _ (now : Time) (during : Worker p → Worker p) (queued s : Task) (world : World p)
      (quiet : (w : Worker p) → (during w).db ≡ w.db) (keyed : IsKeyed laws reliable world.worker)
      (e : stored laws reliable world.worker (p.uuid_string queued.id) ≡ some s) where
    -- The outcome of a task that came off the queue.
    abbrev Outcome : World p → Type 0
    Outcome after =
        (u : Task) × Follows s u × Stores (p.uuid_string queued.id) u world.worker after.worker

    marks :
        (apply : Task → Task) (after : Worker p)
        → ((x : Task) → (apply x).id ≡ x.id)
        → after ≡ upsert_task queued apply (during world.worker)
        → Stores (p.uuid_string queued.id) (apply s) world.worker after
    marks apply after same q =
        subst (Stores (p.uuid_string queued.id) (apply s) world.worker) (sym q) (
          upsert-Stores queued s apply world.worker (during world.worker) keyed same e
            (quiet world.worker))

    unchanged : (after : World p) → (after.worker).db ≡ (world.worker).db → Outcome after
    unchanged after eq =
        (s, Follows-refl s, same-Stores (p.uuid_string queued.id) s world.worker after.worker e eq)

    dispatch-Outcome : (st : State) → s.state ⟶ st → Outcome (dispatch now during queued st world).0
    unfolding dispatch
    dispatch-Outcome scheduled v = elim (start_task-cases now during queued world) [
      | inl q ↦ (
        mark_failed now s,
        record { moves = step v (step fail_to_start here); keeps = refl },
        marks (mark_failed now) _ (λ x. refl) q,
      )
      | inr (id, ports, q) ↦ (
        mark_running now id ports s,
        record { moves = step v (step start here); keeps = refl },
        marks (mark_running now id ports) _ (λ x. refl) q,
      )
    ]
    dispatch-Outcome completed v = elim (stop_task-cases now during queued world) [
      | inl q ↦
          unchanged (stop_task now during queued world).0
            (ap (λ (w : Worker p). w.db) q ∙ quiet world.worker)
      | inr q ↦ (
        mark_completed now s,
        record { moves = step v here; keeps = refl },
        marks (mark_completed now) _ (λ x. refl) q,
      )
    ]
    dispatch-Outcome pending v = unchanged world refl
    dispatch-Outcome running v = unchanged world refl
    dispatch-Outcome failed v = unchanged world refl
    dispatch-Outcome (unknown n) v = unchanged world refl

  pub run_dequeued-cases :
      (now : Time) (during : Worker p → Worker p) (queued s : Task) (world : World p)
      → stored laws reliable world.worker (p.uuid_string queued.id) ≡ some s
      → ((s.state ⟶ queued.state)
          × (run_dequeued now during queued world ≡ dispatch now during queued queued.state world))
        ⊎ ((¬ (s.state ⟶ queued.state))
            × (run_dequeued now during queued world ≡ (world, failure (origin "worker.RunTask"))))
  unfolding run_dequeued
  run_dequeued-cases now during queued s world e =
      let l : lookup_task queued.id world.worker ≡ some s =
        lookup_task_lem laws reliable queued.id world.worker ∙ e in
      elim (Bool-cases (is_valid_transition new_state_machine s.state queued.state)) [
        | inl v ↦ inl ((is_valid_transition_iff s.state queued.state).0 v, rw (l, v, run_dequeued))
        | inr v ↦ inr (
          (λ m. cc ((is_valid_transition_iff s.state queued.state).1 m)),
          rw (l, v, run_dequeued),
        )
      ]

  -- Over a reliable store that holds each task under its own uuid, with nothing but the queue touched
  -- during the Docker calls: if the task that came off the queue is stored, then afterwards a task
  -- is stored under its key whose state has followed the diagram of task states and of which only
  -- the fields that a worker owns have changed, and nothing else in the store has changed; whatever
  -- Docker answers.
  pub run_dequeued-Follows :
      (now : Time) (during : Worker p → Worker p) (queued s : Task) (world : World p)
      → ((w : Worker p) → (during w).db ≡ w.db)
      → IsKeyed laws reliable world.worker
      → stored laws reliable world.worker (p.uuid_string queued.id) ≡ some s
      → (u : Task) × Follows s u
        × Stores
            (p.uuid_string queued.id)
            u
            world.worker
            (run_dequeued now during queued world).0.worker
  run_dequeued-Follows now during queued s world quiet keyed e =
      elim (run_dequeued-cases now during queued s world e) [
        | inl (v, q) ↦
            rw q (dispatch-Outcome now during queued s world quiet keyed e queued.state v)
        | inr (_, q) ↦ rw q (unchanged now during queued s world quiet keyed e world refl)
      ]

  -- Over a reliable store: a stored task that came off the queue for a state that the diagram does
  -- not lead to changes neither the worker nor Docker, and is reported as a failure.
  pub run_dequeued-rejects :
      (now : Time) (during : Worker p → Worker p) (queued s : Task) (world : World p)
      → stored laws reliable world.worker (p.uuid_string queued.id) ≡ some s
      → ¬ (s.state ⟶ queued.state)
      → run_dequeued now during queued world ≡ (world, failure (origin "worker.RunTask"))
  run_dequeued-rejects now during queued s world e n =
      elim (run_dequeued-cases now during queued s world e) [
        | inl (v, q) ↦ absurd (n v)
        | inr (_, q) ↦ q
      ]
