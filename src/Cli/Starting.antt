-- ===== src/Cli/Starting.antt =====
-- The manager that the command line starts.
use task_orchestrator.Prelude.{◌≡◌, refl, ap, ◌∙◌, ◌⊎◌, inl, inr, List, String, map, In}
use task_orchestrator.Errors.{ok, Result-cases}
use task_orchestrator.Cli.{Failure, Outcome, done, failed, new_logger}
use task_orchestrator.Cli.Specs.{Spec, written, meant_from, IsClear, parse_workers-written}
use task_orchestrator.Cli.Servers.{manager_command}
use task_orchestrator.Manager.Setup.{Libraries, Built, new_manager}
use task_orchestrator.Manager.Ready.{IsReady, new_manager-IsReady}
use task_orchestrator.Store.Bolt.{BoltLaws}
use task_orchestrator.Store.Durable.{RoundTrips}

Outcome-cases {ℓ} :
    {A : Type ℓ} (r : Outcome A) → ((a : A) × (r ≡ done a)) ⊎ ((e : Failure) × (r ≡ failed e))
Outcome-cases (done a) = inl (a, refl)
Outcome-cases (failed e) = inr (e, refl)

failed-ne-done {ℓ} : {A : Type ℓ} {e : Failure} {a : A} → failed e ≡ done a → ⊥
failed-ne-done h = cc

done_inj {ℓ} : {A : Type ℓ} {a b : A} → done a ≡ done b → a ≡ b
done_inj h = cc

module _ (libs : Libraries) (bolt_laws : BoltLaws libs.bolt) (task_json : RoundTrips libs.task_json)
    (event_json : RoundTrips libs.event_json) where
  -- Over bbolt as it documents itself and JSON that decodes what it encoded, with worker specs that
  -- are clear: a manager that the command starts has lawful empty stores, a scheduler that offers
  -- only given nodes, every routed task listed, and each worker of the specs known by its name and
  -- under an address that a spec gives that name.
  pub manager_command-IsReady :
      (lower : String → String) (ss : List Spec) (log_level scheduler_type db_type : String)
      (fs : libs.bolt.Files) (b : Built)
      → ((s : Spec) → In s ss → IsClear s)
      → (manager_command libs lower (map written ss) log_level scheduler_type db_type fs).1 ≡ done b
      → IsReady libs (meant_from 0 ss) b
  unfolding manager_command
  manager_command-IsReady lower ss log_level scheduler_type db_type fs b clear h =
      let parsed = parse_workers-written ss clear in
      elim (Outcome-cases (new_logger lower log_level)) [
        | inr (e, l) ↦ absurd (failed-ne-done (rw (parsed, l, manager_command) at h))
        | inl (v, l) ↦
            elim (Result-cases (new_manager libs (meant_from 0 ss) scheduler_type db_type fs).1) [
              | inr (e, m) ↦ absurd (failed-ne-done (rw (parsed, l, m, manager_command) at h))
              | inl (b', m) ↦
                  new_manager-IsReady libs bolt_laws task_json event_json (meant_from 0 ss)
                    scheduler_type db_type fs b
                    (m ∙ ap ok (done_inj (rw (parsed, l, m, manager_command) at h)))
            ]
      ]
