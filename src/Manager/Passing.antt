-- ===== src/Manager/Passing.antt =====
-- internal/manager/manager.go: a call of `doHealthChecks` that nothing interrupts, as steps of the
-- health checks among the other goroutines.
use task_orchestrator.Prelude.{
  ℕ, suc, ◌≡◌, refl, sym, ap, subst, ◌∙◌, ◌⊎◌, inl, inr, some, List, [], ◌∷◌, arith, Option-cases,
}
use task_orchestrator.Errors.{Result-cases}
use task_orchestrator.Store.{StoreLaws}
use task_orchestrator.Task.{Task, state_eq_iff, running, failed}
use task_orchestrator.Manager.{Parts, Manager}
use task_orchestrator.Manager.Budget.{MayRestart, check_one-cases}
use task_orchestrator.Manager.Checking.{
  IsWithin, RaisesNone, Checking, Tick, lists, passes, begins, others, Ticks, none_yet, and_then,
}
use task_orchestrator.Manager.Frames.{task_db-enqueue_event}
use task_orchestrator.Manager.Health.{Moment, restart_task, check_one, check_each, do_health_checks}
use task_orchestrator.Manager.Limit.{ListsOnce, Guarded, Tick-Guarded, Ticks-Guarded}
use task_orchestrator.Manager.Operations.{restart_task-ways}
use task_orchestrator.Manager.Pure.{decide_health_action, action_check, action_restart}
use task_orchestrator.Manager.Reports.{stored}
use task_orchestrator.Manager.Send.{get_tasks}
use task_orchestrator.Manager.State.{begin_restart, enqueue_event}

MayRestart-acts :
    (t : Task)
    → MayRestart t
    → (decide_health_action t ≡ action_check) ⊎ (decide_health_action t ≡ action_restart)
unfolding decide_health_action
MayRestart-acts t (st, low) =
    ground (arith, state_eq_iff t.state running, state_eq_iff t.state failed)

module _ {p : Parts} (laws : StoreLaws p.tasks) where
  same_db-RaisesNone :
      (m u : Manager p) → u.task_db ≡ m.task_db → IsWithin laws m → RaisesNone laws m u
  same_db-RaisesNone m u same (sound, within) = (
    subst laws.IsSound (sym same) sound,
    λ k s here.
        let (key, limit) = within k s here in
        let (n, count, l) = limit in
        (s, ap (λ db. laws.view db k) same ∙ here, (n, n, count, count, omega arith)),
    λ k t here.
        let before : stored laws m k ≡ some t = ap (λ db. laws.view db k) (sym same) ∙ here in
        ((within k t before).0, inl (t, before)),
  )

  -- One task of the snapshot, handled by itself.
  restart_task-Ticks :
      (at : Moment) (t : Task) (ts : List Task) (c : Checking p) (m : Manager p)
      → ListsOnce p laws
      → MayRestart t
      → Guarded laws (record { manager = m; todo = t ∷ ts })
      → Ticks laws c (record { manager = m; todo = t ∷ ts })
      → Ticks laws c (record { manager = restart_task at t m; todo = ts })
  restart_task-Ticks at t ts c m once may guarded before = elim (restart_task-ways at t m) [
    | inl e ↦ subst Handled (sym e) (and_then before (passes t ts refl))
    | inr (inl e) ↦ subst Handled (sym e) (and_then before step)
    | inr (inr (te, e)) ↦ subst Handled (sym e) (
        and_then (and_then before step) (
          others (enqueue_event te begun) (
            same_db-RaisesNone begun (enqueue_event te begun) (task_db-enqueue_event te begun)
              (Tick-Guarded laws _ _ once step guarded).0)))
  ]
    where
      begun : Manager p
      begun = (begin_restart t.id m).0

      Handled : Manager p → Type 0
      Handled u = Ticks laws c (record { manager = u; todo = ts })

      step :
          Tick laws (record { manager = m; todo = t ∷ ts }) (record { manager = begun; todo = ts })
      step = begins t ts refl (MayRestart-acts t may)

  -- From any steps that have come to the rest of the snapshot.
  check_each-Ticks :
      (at : ℕ → Moment) (i : ℕ) (ts : List Task) (c : Checking p) (m after : Manager p)
      → ListsOnce p laws
      → Guarded laws c
      → check_each at i ts m ≡ some after
      → Ticks laws c (record { manager = m; todo = ts })
      → Ticks laws c (record { manager = after; todo = [] })
  unfolding check_each
  check_each-Ticks at i [] c m after once guarded e before =
      let same : m ≡ after = cc e in
      subst (λ (u : Manager p). Ticks laws c (record { manager = u; todo = [] })) same before
  check_each-Ticks at i (t ∷ ts) c m after once guarded e before =
      elim (Option-cases (check_one (at i) t m)) [
        | inl q ↦ cc (rw (q, check_each) at e)
        | inr (next, q) ↦
            let rest : check_each at (suc i) ts next ≡ some after = rw (q, check_each) at e in
            let here : Guarded laws (record { manager = m; todo = t ∷ ts }) =
              Ticks-Guarded laws c (record { manager = m; todo = t ∷ ts }) once before guarded in
            check_each-Ticks at (suc i) ts c next after once guarded rest
              (elim (check_one-cases (at i) t m next q) [
                | inl same ↦
                    subst (λ (u : Manager p). Ticks laws c (record { manager = u; todo = ts }))
                      (sym same) (and_then before (passes t ts refl))
                | inr (may, same) ↦
                    subst (λ (u : Manager p). Ticks laws c (record { manager = u; todo = ts }))
                      (sym same) (restart_task-Ticks (at i) t ts c m once may here before)
              ])
      ]

  -- When the store lists each task once, and holds each under its own uuid with a restart count from
  -- zero to three: a pass of the health checks that nothing interrupts and that does not panic,
  -- whatever the network answers, is steps that leave no listed task to handle.
  pub do_health_checks-Ticks :
      (at : ℕ → Moment) (m after : Manager p)
      → ListsOnce p laws
      → IsWithin laws m
      → do_health_checks at m ≡ some after
      → Ticks laws (record { manager = m; todo = [] }) (record { manager = after; todo = [] })
  unfolding do_health_checks
  do_health_checks-Ticks at m after once within e = elim (Result-cases (get_tasks m)) [
    | inr (x, g) ↦
        let same : m ≡ after = cc (rw (g, do_health_checks) at e) in
        subst
          (λ (u : Manager p).
            Ticks laws (record { manager = m; todo = [] }) (record { manager = u; todo = [] }))
          same none_yet
    | inl (ts, g) ↦
        check_each-Ticks at 0 ts (record { manager = m; todo = [] }) m after once (within, tt, tt)
          (rw (g, do_health_checks) at e) (and_then none_yet (lists ts refl g))
  ]
