-- ===== src/System/Presence.antt =====
-- A worker keeps every task that it has, in its queue or in its store: internal/worker.
use task_orchestrator.Prelude.{
  ◌≡◌, refl, sym, ap, subst, ◌∙◌, ◌⊎◌, inl, inr, Option, none, some, List, [], ◌∷◌, String, In,
  In-append_left, In-append_right, Option-cases, List-cases, Bool-cases, str_eq, str_eq_iff, arith,
}
use task_orchestrator.Queue.{InnerLaws, dequeue}
use task_orchestrator.Store.{StoreLaws, IsReliable}
use task_orchestrator.Task.{Task, Uuid, completed}
use task_orchestrator.Worker.{Parts, Worker}
use task_orchestrator.Worker.Api.{start_task_handler, stop_task_handler}
use task_orchestrator.Worker.Fields.{stored, stored-put_task, lookup_task_lem}
use task_orchestrator.Worker.Run.{add_task}
use task_orchestrator.Worker.State.{dequeue_task, enqueue_task, lookup_task, put_task, upsert_task}
use task_orchestrator.Wire.Delivering.{waiting, waiting-add_task}

-- The start of `RunTask` in a worker that does nothing else meanwhile: a task comes off the queue,
-- and is stored if the store has never seen it.
unfoldable pub take_alone : {q : Parts} → Worker q → Worker q
take_alone w =
    let (next, rest) = dequeue_task w in
    elim next [
      | none ↦ rest
      | some queued ↦ elim (lookup_task queued.id rest) [
        | none ↦ put_task queued rest
        | some t ↦ rest
      ]
    ]

-- A worker drops a stop, or queues the task once more.
pub stop_task_handler-cases :
    {q : Parts} (parse : String → Option Uuid) (task_id : String) (w : Worker q)
    → ((stop_task_handler parse task_id w).0 ≡ w)
      ⊎ ((t : Task) × ((stop_task_handler parse task_id w).0 ≡ add_task t w))
unfolding stop_task_handler
stop_task_handler-cases parse task_id w = elim (Bool-cases (str_eq task_id "")) [
  | inl b ↦ inl (rw (b, stop_task_handler) refl)
  | inr b ↦ elim (Option-cases (parse task_id)) [
    | inl e ↦ inl (rw (b, e, stop_task_handler) refl)
    | inr (id, e) ↦ elim (Option-cases (lookup_task id w)) [
      | inl l ↦ inl (rw (b, e, l, stop_task_handler) refl)
      | inr (t, l) ↦ inr (record t { state = completed }, rw (b, e, l, stop_task_handler) refl)
    ]
  ]
]

module _ {q : Parts} (queue_laws : InnerLaws q.queue) (laws : StoreLaws q.tasks)
    (reliable : IsReliable q.tasks) where
  -- The worker has the task: it waits in the queue, or it is stored under its uuid.
  abbrev pub Has : Uuid → Worker q → Type 0
  Has id w =
      ((t : Task) × In t (waiting queue_laws w) × (t.id ≡ id))
      ⊎ ((t : Task) × (stored laws reliable w (q.uuid_string id) ≡ some t))

  -- What is stored, if anything, under the uuid.
  abbrev pub IsStored : Uuid → Worker q → Type 0
  IsStored id w = (t : Task) × (stored laws reliable w (q.uuid_string id) ≡ some t)

  pub add_task-Has : (t : Task) (id : Uuid) (w : Worker q) → Has id w → Has id (add_task t w)
  unfolding add_task enqueue_task
  add_task-Has t id w (inl (x, m, e)) = inl (
    x,
    subst (In x) (sym (waiting-add_task queue_laws t w))
        (In-append_left x (waiting queue_laws w) (t ∷ []) m),
    e,
  )
  add_task-Has t id w (inr (x, e)) = inr (x, e)

  -- A task that a worker accepts is there.
  pub add_task-Has_new : (t : Task) (w : Worker q) → Has t.id (add_task t w)
  add_task-Has_new t w = inl (
    t,
    subst (In t) (sym (waiting-add_task queue_laws t w))
        (In-append_right t (waiting queue_laws w) (t ∷ []) (inl refl)),
    refl,
  )

  put_task-IsStored :
      (t : Task) (id : Uuid) (w : Worker q) → IsStored id w → IsStored id (put_task t w)
  put_task-IsStored t id w (x, e) =
      elim (Bool-cases (str_eq (q.uuid_string t.id) (q.uuid_string id))) [
        | inl b ↦ (t, stored-put_task laws reliable t w (q.uuid_string id) ∙ (rw b))
        | inr b ↦ (x, stored-put_task laws reliable t w (q.uuid_string id) ∙ (rw (b, e)))
      ]

  pub put_task-IsStored_new : (t : Task) (w : Worker q) → IsStored t.id (put_task t w)
  put_task-IsStored_new t w = (
    t,
    stored-put_task laws reliable t w (q.uuid_string t.id)
        ∙ (rw ((str_eq_iff (q.uuid_string t.id) (q.uuid_string t.id)).1 refl)),
  )

  pub put_task-Has : (t : Task) (id : Uuid) (w : Worker q) → Has id w → Has id (put_task t w)
  put_task-Has t id w (inl (x, m, e)) = inl (x, (unfold put_task in m), e)
  put_task-Has t id w (inr h) = inr (put_task-IsStored t id w h)

  pub upsert_task-Has :
      (base : Task) (apply : Task → Task) (id : Uuid) (w : Worker q)
      → Has id w
      → Has id (upsert_task base apply w)
  unfolding upsert_task
  upsert_task-Has base apply id w h = elim (Option-cases (lookup_task base.id w)) [
    | inl e ↦ rw (e, upsert_task) (put_task-Has (apply base) id w h)
    | inr (t, e) ↦ rw (e, upsert_task) (put_task-Has (apply t) id w h)
  ]

  upsert_task-IsStored :
      (base : Task) (apply : Task → Task) (id : Uuid) (w : Worker q)
      → IsStored id w
      → IsStored id (upsert_task base apply w)
  unfolding upsert_task
  upsert_task-IsStored base apply id w h = elim (Option-cases (lookup_task base.id w)) [
    | inl e ↦ rw (e, upsert_task) (put_task-IsStored (apply base) id w h)
    | inr (t, e) ↦ rw (e, upsert_task) (put_task-IsStored (apply t) id w h)
  ]

  -- What `take_alone` leaves in the queue, and that it stores what it takes.
  pub take_alone_nil :
      (w : Worker q)
      → waiting queue_laws w ≡ []
      → (waiting queue_laws (take_alone w) ≡ []) × ((take_alone w).db ≡ w.db)
  unfolding take_alone dequeue_task dequeue
  take_alone_nil w h =
      let none_left = queue_laws.dequeue-nil w.queue.inner_queue h in
      rw (none_left, take_alone) (queue_laws.items-dequeue_nil w.queue.inner_queue h, refl)

  pub take_alone_cons :
      (t : Task) (ts : List Task) (w : Worker q)
      → waiting queue_laws w ≡ t ∷ ts
      → (waiting queue_laws (take_alone w) ≡ ts)
        × IsStored t.id (take_alone w)
        × ((id : Uuid) → IsStored id w → IsStored id (take_alone w))
  unfolding take_alone dequeue_task dequeue
  take_alone_cons t ts w h =
      let first = queue_laws.dequeue-cons w.queue.inner_queue t ts h in
      let left = queue_laws.items-dequeue_cons w.queue.inner_queue t ts h in
      let rest : Worker q = (dequeue_task w).1 in
      elim (Option-cases (lookup_task t.id rest)) [
        | inl e ↦
            let taken : take_alone w ≡ put_task t rest = rw (first, e, take_alone) refl in
            rw taken (
              (unfold put_task in left),
              put_task-IsStored_new t rest,
              λ id h. put_task-IsStored t id rest h,
            )
        | inr (x, e) ↦
            let taken : take_alone w ≡ rest = rw (first, e, take_alone) refl in
            rw taken (left, (x, sym (lookup_task_lem laws reliable t.id rest) ∙ e), λ id h. h)
      ]

  pub take_alone-Has : (id : Uuid) (w : Worker q) → Has id w → Has id (take_alone w)
  take_alone-Has id w h = elim (List-cases (waiting queue_laws w)) [
    | inl e ↦
        let (none_left, same) = take_alone_nil w e in
        elim h [
          | inl (x, m, _) ↦ absurd (subst (In x) e m)
          | inr (x, there) ↦ inr (x, ap (λ db. laws.view db (q.uuid_string id)) same ∙ there)
        ]
    | inr (t, ts, e) ↦
        let (left, new, old) = take_alone_cons t ts w e in
        elim h [
          | inr there ↦ inr (old id there)
          | inl (x, m, same) ↦ elim (subst (In x) e m) [
            | inl first ↦
                inr (
                  subst (λ i. IsStored i (take_alone w)) (ap (λ (y : Task). y.id) first ∙ same) new)
            | inr later ↦ inl (x, subst (In x) (sym left) later, same)
          ]
        ]
  ]

  -- A request of anyone leaves what the worker has.
  pub start_task_handler-Has :
      (body : String) (id : Uuid) (w : Worker q) → Has id w → Has id (start_task_handler body w).0
  unfolding start_task_handler
  start_task_handler-Has body id w h = elim (Option-cases (q.codec.decode_event body)) [
    | inl e ↦ rw (e, start_task_handler) h
    | inr (te, e) ↦ rw (e, start_task_handler) (add_task-Has te.task id w h)
  ]

  pub stop_task_handler-Has :
      (parse : String → Option Uuid) (task_id : String) (id : Uuid) (w : Worker q)
      → Has id w
      → Has id (stop_task_handler parse task_id w).0
  stop_task_handler-Has parse task_id id w h = elim (stop_task_handler-cases parse task_id w) [
    | inl e ↦ rw e h
    | inr (t, e) ↦ rw e (add_task-Has t id w h)
  ]

  -- A task that comes off the queue is the only one that the worker may lose.
  pub dequeue_task-Has :
      (t : Task) (id : Uuid) (w : Worker q)
      → (dequeue_task w).0 ≡ some t
      → Has id w
      → (t.id ≡ id) ⊎ Has id (dequeue_task w).1
  unfolding dequeue_task dequeue
  dequeue_task-Has t id w taken (inr there) = inr (inr there)
  dequeue_task-Has t id w taken (inl (x, m, same)) = elim (List-cases (waiting queue_laws w)) [
    | inl e ↦ absurd (subst (In x) e m)
    | inr (y, ys, e) ↦
        let first = queue_laws.dequeue-cons w.queue.inner_queue y ys e in
        let left = queue_laws.items-dequeue_cons w.queue.inner_queue y ys e in
        elim (subst (In x) e m) [
          | inl here ↦
              let at : y ≡ t = ground arith in inl (ap (λ (z : Task). z.id) (sym at ∙ here) ∙ same)
          | inr later ↦ inr (inl (x, subst (In x) (sym left) later, same))
        ]
  ]

  pub lookup_task-IsStored :
      (t : Task) (id : Uuid) (w : Worker q) → lookup_task id w ≡ some t → IsStored id w
  lookup_task-IsStored t id w e = (t, sym (lookup_task_lem laws reliable id w) ∙ e)
