-- ===== src/Worker/Fields.antt =====
-- What a helper of state.go makes of the worker's store, when the store is reliable.
use task_orchestrator.Prelude.{
  ◌≡◌, sym, ap, ◌∙◌, inl, inr, Option, none, some, String, str_eq, if◌then◌else◌, Option-cases,
}
use task_orchestrator.Errors.{Result-cases}
use task_orchestrator.Store.{StoreLaws, IsReliable}
use task_orchestrator.Task.{Task, Uuid}
use task_orchestrator.Worker.{Parts, Worker}
use task_orchestrator.Worker.State.{lookup_task, put_task, upsert_task}

-- What is stored, or what the caller brings.
abbrev pub current : Task → Option Task → Task
current base none = base
current base (some t) = t

module _ {p : Parts} (laws : StoreLaws p.tasks) (reliable : IsReliable p.tasks) where
  -- What is stored under a key.
  abbrev pub stored : Worker p → String → Option Task
  stored w k = laws.view w.db k

  -- Every task is stored under its own uuid.
  abbrev pub IsKeyed : Worker p → Type 0
  IsKeyed w = (k : String) (t : Task) → stored w k ≡ some t → p.uuid_string t.id ≡ k

  pub stored-put_task :
      (t : Task) (w : Worker p) (k : String)
      → stored (put_task t w) k ≡ (if str_eq (p.uuid_string t.id) k then some t else stored w k)
  unfolding put_task
  stored-put_task t w k =
      laws.put_stored (p.uuid_string t.id) k t w.db (reliable.put_ok (p.uuid_string t.id) t w.db)

  pub lookup_task_lem : (id : Uuid) (w : Worker p) → lookup_task id w ≡ stored w (p.uuid_string id)
  unfolding lookup_task
  lookup_task_lem id w = elim (Result-cases (p.tasks.get (p.uuid_string id) w.db)) [
    | inl (t, e) ↦ (rw (e, lookup_task)) ∙ sym (laws.get_found (p.uuid_string id) t w.db e)
    | inr (x, e) ↦
        (rw (e, lookup_task))
        ∙ sym (
            laws.get_missing (p.uuid_string id) x w.db e
              (reliable.get_err (p.uuid_string id) x w.db e))
  ]

  -- A read-modify-write applies to what is stored now, or to what the caller brings.
  pub stored-upsert_task :
      (base : Task) (apply : Task → Task) (w : Worker p) (k : String)
      → IsKeyed w
      → ((t : Task) → (apply t).id ≡ t.id)
      → stored (upsert_task base apply w) k ≡ (
          if str_eq (p.uuid_string base.id) k
          then some (apply (current base (stored w (p.uuid_string base.id))))
          else stored w k)
  unfolding upsert_task
  stored-upsert_task base apply w k keyed same =
      elim (Option-cases (stored w (p.uuid_string base.id))) [
        | inl e ↦
            let l : lookup_task base.id w ≡ none = lookup_task_lem base.id w ∙ e in
            rw (l, e, upsert_task) (stored-put_task (apply base) w k ∙ (rw (same base)))
        | inr (t, e) ↦
            let l : lookup_task base.id w ≡ some t = lookup_task_lem base.id w ∙ e in
            let key : p.uuid_string (apply t).id ≡ p.uuid_string base.id =
              ap p.uuid_string (same t) ∙ keyed (p.uuid_string base.id) t e in
            rw (l, e, upsert_task) (stored-put_task (apply t) w k ∙ (rw key))
      ]
