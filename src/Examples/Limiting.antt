-- ===== src/Examples/Limiting.antt =====
-- A round of health checks over one task that publishes no port, with another goroutine at work.
use task_orchestrator.Prelude.{
  ◌≡◌, refl, sym, subst, ◌∙◌, inl, inr, none, some, [], ◌∷◌, String, str_eq_iff, str_eq, arith,
  Bool-cases,
}
use task_orchestrator.Prelude.Assoc.{lookup, String-Eq}
use task_orchestrator.Store.Laws.{map_laws, list-DistinctBy, view-map_laws, single-IsSound}
use task_orchestrator.Task.{Task, running}
use task_orchestrator.Manager.Checking.{
  IsWithinLimit, IsWithin, RaisesNone, Checking, Ticks, none_yet, and_then, lists, begins, others,
}
use task_orchestrator.Manager.Limit.{ListsOnce, Ticks-IsWithin}
use task_orchestrator.Manager.Pure.{decide_health_action, action_check}
use task_orchestrator.Manager.State.{begin_restart}
use task_orchestrator.Examples.{parts, busy, job}
use task_orchestrator.Examples.Checking.{listed}

once : ListsOnce parts map_laws
once db ts sound keyed h =
    list-DistinctBy (λ (t : Task). parts.uuid_string t.id) db ts sound keyed h

kept : IsWithin map_laws (busy running)
unfolding lookup
kept = (single-IsSound "7" (job 7 running), only)
  where
    only :
        (k : String) (t : Task)
        → map_laws.view ((busy running).task_db) k ≡ some t
        → (parts.uuid_string t.id ≡ k) × IsWithinLimit t.restart_count
    only k t here = elim (Bool-cases (str_eq "7" k)) [
      | inl b ↦
          let found : some (job 7 running) ≡ some t =
            sym (view-map_laws ((busy running).task_db) k ∙ (rw b refl)) ∙ here in
          let same : job 7 running ≡ t = cc in
          subst (λ (x : Task). (parts.uuid_string x.id ≡ k) × IsWithinLimit x.restart_count) same
            ((str_eq_iff "7" k).0 b, (0, refl, omega arith))
      | inr b ↦
          let missing : none ≡ some t =
            sym (view-map_laws ((busy running).task_db) k ∙ (rw b refl)) ∙ here in
          cc missing
    ]

-- The pass writes the restart of the task while another goroutine only looks on.
abbrev listed_one : Checking parts
listed_one = record { manager = busy running; todo = job 7 running ∷ [] }

abbrev restarted_one : Checking parts
restarted_one = record { manager = (begin_restart 7 (busy running)).0; todo = [] }

looks_on : RaisesNone map_laws (busy running) (busy running)
looks_on = (
  kept.0,
  λ k s here.
      let (key, limit) = kept.1 k s here in
      let (n, count, l) = limit in (s, here, (n, n, count, count, omega arith)),
  λ k t here. ((kept.1 k t here).0, inr (kept.1 k t here).1),
)

is_checked : decide_health_action (job 7 running) ≡ action_check
unfolding decide_health_action
is_checked = refl

one_pass : Ticks map_laws (record { manager = busy running; todo = [] }) restarted_one
one_pass =
    and_then
      (and_then (and_then none_yet (lists (job 7 running ∷ []) refl listed))
        (others (busy running) looks_on))
      (begins (job 7 running) [] refl (inl is_checked))

Ticks-IsWithin_example : IsWithin map_laws (begin_restart 7 (busy running)).0
Ticks-IsWithin_example = Ticks-IsWithin map_laws (busy running) restarted_one once kept one_pass
