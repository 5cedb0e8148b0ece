-- ===== src/Manager/Budget.antt =====
-- What a health check may do to the stored tasks.
use task_orchestrator.Prelude.{
  ◌≡◌, refl, ap, ◌∙◌, ◌⊎◌, inl, inr, false, some, String, str_eq, str_eq_iff, arith, Bool-cases,
  Option-cases,
}
use task_orchestrator.Prelude.Int.{pos, leb_ℤ, ◌+64◌}
use task_orchestrator.Errors.{Error, Result-cases}
use task_orchestrator.Store.{StoreLaws}
use task_orchestrator.Task.{Task, Uuid, scheduled, running, failed, state_eq, state_eq_iff}
use task_orchestrator.Manager.{Parts, Manager}
use task_orchestrator.Manager.Pure.{
  skip_not_eligible, skip_restart_max, action_check, action_restart, task_restart_max,
  decide_health_action,
}
use task_orchestrator.Manager.State.{task_locked, begin_restart, enqueue_event}
use task_orchestrator.Manager.Health.{
  Moment, Probe, healthy, unhealthy, probe_panics, check_task_health, restart_task, check_one,
}
use task_orchestrator.Manager.Reports.{stored}

-- A task that a health check may restart.
abbrev pub MayRestart : Task → Type 0
MayRestart t =
    ((t.state ≡ running) ⊎ (t.state ≡ failed)) × (leb_ℤ task_restart_max t.restart_count ≡ false)

-- The stored task after a restart.
abbrev pub restarted : Task → Task
restarted t = record t { state = scheduled; restart_count = t.restart_count +64 pos 1 }

pub decide-MayRestart :
    (t : Task)
    → (decide_health_action t ≡ skip_not_eligible)
      ⊎ (decide_health_action t ≡ skip_restart_max)
      ⊎ (MayRestart t
          × ((decide_health_action t ≡ action_check) ⊎ (decide_health_action t ≡ action_restart)))
unfolding decide_health_action
decide-MayRestart t = elim (Bool-cases (state_eq t.state running)) [
  | inl r ↦ elim (Bool-cases (leb_ℤ task_restart_max t.restart_count)) [
    | inl b ↦ inr (inl (rw (r, b)))
    | inr b ↦ inr (inr ((inl ((state_eq_iff t.state running).0 r), b), inl (rw (r, b))))
  ]
  | inr r ↦ elim (Bool-cases (state_eq t.state failed)) [
    | inr f ↦ inl (rw (r, f))
    | inl f ↦ elim (Bool-cases (leb_ℤ task_restart_max t.restart_count)) [
      | inl b ↦ inr (inl (rw (r, f, b)))
      | inr b ↦ inr (inr ((inr ((state_eq_iff t.state failed).0 f), b), inr (rw (r, f, b))))
    ]
  ]
]

module _ {p : Parts} (at : Moment) (t : Task) (m : Manager p) where
  pub restart_task-cases :
      ((restart_task at t m).task_db ≡ m.task_db)
      ⊎ ((restart_task at t m).task_db ≡ (begin_restart t.id m).0.task_db)
  unfolding restart_task enqueue_event
  restart_task-cases = ground arith

  pub check_one-cases :
      (after : Manager p)
      → check_one at t m ≡ some after
      → (after ≡ m) ⊎ (MayRestart t × (after ≡ restart_task at t m))
  unfolding check_one
  check_one-cases after e = elim (decide-MayRestart t) [
    | inl q ↦ inl (ground arith)
    | inr (inl q) ↦ inl (ground arith)
    | inr (inr (may, inr q)) ↦ inr (may, ground arith)
    | inr (inr (may, inl q)) ↦ elim (Probe-cases (check_task_health t at.net m)) [
      | inl h ↦ inl (ground arith)
      | inr (inl h) ↦ inl (ground arith)
      | inr (inr (x, h)) ↦ inr (may, ground arith)
    ]
  ]
    where
      Probe-cases :
          (r : Probe) → (r ≡ healthy) ⊎ (r ≡ probe_panics) ⊎ ((x : Error) × (r ≡ unhealthy x))
      Probe-cases healthy = inl refl
      Probe-cases probe_panics = inr (inl refl)
      Probe-cases (unhealthy x) = inr (inr (x, refl))

module _ {p : Parts} (laws : StoreLaws p.tasks) where
  -- One stored task may be restarted, and the others stay.
  abbrev pub RestartsOnly : Task → Manager p → Manager p → Type 0
  RestartsOnly t m after =
      (k : String)
      → (stored laws after k ≡ stored laws m k)
        ⊎ (MayRestart t × (p.uuid_string t.id ≡ k) × (stored laws after k ≡ some (restarted t)))

  pub begin_restart-view :
      (id : Uuid) (t : Task) (m : Manager p) (k : String)
      → stored laws m (p.uuid_string id) ≡ some t
      → (stored laws (begin_restart id m).0 k ≡ stored laws m k)
        ⊎ ((p.uuid_string id ≡ k) × (stored laws (begin_restart id m).0 k ≡ some (restarted t)))
  unfolding begin_restart task_locked
  begin_restart-view id t m k e =
      let key = p.uuid_string id in
      elim (Result-cases (p.tasks.get key m.task_db)) [
        | inr (x, g) ↦ inl (rw (g, begin_restart, task_locked))
        | inl (s, g) ↦
            let same : s ≡ t = cc (laws.get_found key s m.task_db g, e) in
            elim (Option-cases (p.tasks.put key (restarted s) m.task_db).1) [
              | inr (x, w) ↦ inl (
                  rw (g, begin_restart, task_locked)
                    (laws.put_failed key k (restarted s) m.task_db w))
              | inl w ↦
                  let out = laws.put_stored key k (restarted s) m.task_db w in
                  elim (Bool-cases (str_eq key k)) [
                    | inr n ↦ inl (rw (g, begin_restart, task_locked) (out ∙ (rw n)))
                    | inl y ↦ inr (
                      (str_eq_iff key k).0 y,
                      rw (g, begin_restart, task_locked) (out ∙ (rw (y, same))),
                    )
                  ]
            ]
      ]

  -- Whatever the network answers, and whether writes fail or not: when a task is checked as it is
  -- stored, and the check does not panic, every stored task stays as it was, but for the checked
  -- one: it may be marked scheduled with its restart count one higher, and this only if it was
  -- running or failed and its restart count was below the limit of three.
  pub check_one-RestartsOnly :
      (at : Moment) (t : Task) (m after : Manager p)
      → stored laws m (p.uuid_string t.id) ≡ some t
      → check_one at t m ≡ some after
      → RestartsOnly t m after
  check_one-RestartsOnly at t m after e c k = elim (check_one-cases at t m after c) [
    | inl q ↦ inl (ap (λ (n : Manager p). stored laws n k) q)
    | inr (may, q) ↦ elim (restart_task-cases at t m) [
      | inl r ↦ inl (ap (λ (n : Manager p). stored laws n k) q ∙ ap (λ db. laws.view db k) r)
      | inr r ↦
          let moved = ap (λ (n : Manager p). stored laws n k) q ∙ ap (λ db. laws.view db k) r in
          elim (begin_restart-view t.id t m k e) [
            | inl s ↦ inl (moved ∙ s)
            | inr (key, s) ↦ inr (may, key, moved ∙ s)
          ]
    ]
  ]
