-- ===== src/Manager/Reports.antt =====
-- The workers' reports, in any order and interleaving, over a store that may fail.
use task_orchestrator.Prelude.{
  ◌≡◌, refl, sym, ap, subst, ◌∙◌, inl, inr, Option, none, some, List, [], ◌∷◌, String, str_eq,
  str_eq_iff, Bool-cases, Option-cases,
}
use task_orchestrator.Errors.{Result-cases}
use task_orchestrator.Store.{StoreLaws}
use task_orchestrator.Task.{Task, completed}
use task_orchestrator.Task.Graph.{completed_stays}
use task_orchestrator.Manager.{Parts, Manager}
use task_orchestrator.Manager.Pure.{merge_task_update}
use task_orchestrator.Manager.State.{apply_worker_report}
use task_orchestrator.Manager.Send.{apply_reports}
use task_orchestrator.Manager.Merge.{Follows, Follows-refl, Follows-trans, merge-Follows}

-- What is stored under a key may follow by reports, and nothing appears where nothing was.
abbrev pub FollowsOption : Option Task → Option Task → Type 0
FollowsOption none after = after ≡ none
FollowsOption (some t) after = (u : Task) × (after ≡ some u) × Follows t u

FollowsOption-refl : (o : Option Task) → FollowsOption o o
FollowsOption-refl none = refl
FollowsOption-refl (some t) = (t, refl, Follows-refl t)

FollowsOption-trans :
    (a b c : Option Task) → FollowsOption a b → FollowsOption b c → FollowsOption a c
FollowsOption-trans none b c e f = subst (λ o. FollowsOption o c) e f
FollowsOption-trans (some t) b c (u, e, f) g =
    let (v, e', f') =
      (let h : FollowsOption (some u) c = subst (λ o. FollowsOption o c) e g in h) in
    (v, e', Follows-trans f f')

FollowsOption-some :
    (o after : Option Task) (t u : Task)
    → o ≡ some t
    → after ≡ some u
    → Follows t u
    → FollowsOption o after
FollowsOption-some o after t u e f h = subst (λ x. FollowsOption x after) (sym e) (u, f, h)

module _ {p : Parts} (laws : StoreLaws p.tasks) where
  -- What is stored under a key.
  abbrev pub stored : Manager p → String → Option Task
  stored m k = laws.view m.task_db k

  put-FollowsOption :
      (m : Manager p) (key k : String) (t r : Task)
      → stored m key ≡ some t
      → FollowsOption
          (stored m k)
          (laws.view (p.tasks.put key (merge_task_update t r) m.task_db).0 k)
  put-FollowsOption m key k t r e =
      elim (Option-cases (p.tasks.put key (merge_task_update t r) m.task_db).1) [
        | inl good ↦
            let w = laws.put_stored key k (merge_task_update t r) m.task_db good in
            elim (Bool-cases (str_eq key k)) [
              | inl same ↦
                  let at : stored m k ≡ some t =
                    ap (stored m) (sym ((str_eq_iff key k).0 same)) ∙ e in
                  FollowsOption-some _ _ t (merge_task_update t r) at (w ∙ (rw same))
                    (merge-Follows t r)
              | inr other ↦
                  subst (FollowsOption (stored m k)) (sym (w ∙ (rw other)))
                    (FollowsOption-refl (stored m k))
            ]
        | inr (x, bad) ↦
            subst (FollowsOption (stored m k))
              (sym (laws.put_failed key k (merge_task_update t r) m.task_db bad))
              (FollowsOption-refl (stored m k))
      ]

  report-FollowsOption :
      (r : Task) (m : Manager p) (k : String)
      → FollowsOption (stored m k) (stored (apply_worker_report r m).0 k)
  unfolding apply_worker_report
  report-FollowsOption r m k = elim (Result-cases (p.tasks.get (p.uuid_string r.id) m.task_db)) [
    | inl (t, found) ↦
        rw (found, apply_worker_report)
          (put-FollowsOption m (p.uuid_string r.id) k t r
            (laws.get_found (p.uuid_string r.id) t m.task_db found))
    | inr (e, missing) ↦ rw (missing, apply_worker_report) (FollowsOption-refl (stored m k))
  ]

  -- Whatever the workers report, in any order and number, and whichever writes are lost: under
  -- every key a stored task stays stored, its state has moved along the diagram of task states,
  -- and only the fields that a worker owns have changed; and no report makes a task appear.
  pub apply_reports-FollowsOption :
      (rs : List Task) (m : Manager p) (k : String)
      → FollowsOption (stored m k) (stored (apply_reports rs m) k)
  unfolding apply_reports
  apply_reports-FollowsOption [] m k = FollowsOption-refl (stored m k)
  apply_reports-FollowsOption (r ∷ rs) m k =
      FollowsOption-trans (stored m k) (stored (apply_worker_report r m).0 k) _
        (report-FollowsOption r m k) (apply_reports-FollowsOption rs (apply_worker_report r m).0 k)

  -- A task that is stored as completed is still stored as completed after any reports, with the
  -- restart count that it had.
  pub apply_reports-completed :
      (rs : List Task) (m : Manager p) (k : String) (t : Task)
      → stored m k ≡ some t
      → t.state ≡ completed
      → (u : Task) × (stored (apply_reports rs m) k ≡ some u)
        × (u.state ≡ completed)
        × (u.restart_count ≡ t.restart_count)
  apply_reports-completed rs m k t e c =
      let (u, at, f) =
        (let h : FollowsOption (some t) (stored (apply_reports rs m) k) =
            subst (λ o. FollowsOption o (stored (apply_reports rs m) k)) e
              (apply_reports-FollowsOption rs m k) in
          h) in
      (u, at, completed_stays (rw (← c) f.moves), ap (λ (x : Task). x.restart_count) f.keeps)
