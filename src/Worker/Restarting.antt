-- ===== src/Worker/Restarting.antt =====
-- A worker that keeps its tasks in a file, closed and started again.
use task_orchestrator.Prelude.{◌≡◌, ap, subst, ◌∙◌, inl, inr, false, String, str_append}
use task_orchestrator.Errors.{ok_inj, err-ne-ok, ok, Result-cases}
use task_orchestrator.Store.Bolt.{BoltLaws}
use task_orchestrator.Store.Persistent.{persistent, new_persistent_store}
use task_orchestrator.Store.Persistent as Persistent
use task_orchestrator.Store.Durable.{RoundTrips, stored, HasBucket, persistent-view}
use task_orchestrator.Store.Opening.{new_persistent_store-HasBucket, new_persistent_store-reopened}
use task_orchestrator.Store.Choice.{Dbs, persistent_db, get_dbs, get_persistent_dbs}
use task_orchestrator.Store.Chosen.{IsLawful, persistent_dbs-cases}
use task_orchestrator.Worker.Setup.{Libraries, Built, assemble, new_worker}

module _ (libs : Libraries) (bolt_laws : BoltLaws libs.bolt)
    (task_json : RoundTrips libs.task_json) where
  -- The worker's store honours the contract, is in a sound state, and holds what d held.
  pub record Keeps (d : libs.bolt.D) (b : Built) : Type 1 where
    pub lawful : IsLawful false (record { store = b.parts.tasks; state = b.worker.db })
    pub kept :
        (k : String) → lawful.laws.view b.worker.db k ≡ stored bolt_laws libs.task_json "tasks" d k

  -- Over bbolt as it documents itself and JSON that decodes what it encoded: a worker is closed
  -- whose tasks stand in its file, and one of the same name is started on the same files without a
  -- fresh start. If it starts, its store honours the contract and holds what was held, under
  -- every key.
  pub new_worker-Keeps :
      (name : String) (fs : libs.bolt.Files) (d : libs.bolt.D) (b : Built)
      → HasBucket bolt_laws libs.task_json "tasks" d
      → bolt_laws.path d ≡ str_append name "-tasks.db"
      → (new_worker libs name persistent_db false
          (libs.bolt.release (Persistent.close libs.bolt d).0 fs)).1
        ≡ ok b
      → Keeps d b
  unfolding new_worker get_dbs
  new_worker-Keeps name fs d b there at h =
      let fs' = libs.bolt.release (Persistent.close libs.bolt d).0 fs in
      elim (Result-cases
        (get_persistent_dbs libs.bolt libs.task_json libs.event_json name false fs').1) [
          | inr (e, q) ↦ absurd (err-ne-ok (rw (q, new_worker) at h))
          | inl (dbs, q) ↦
              let (t, e, at_t, at_e, same) =
                persistent_dbs-cases bolt_laws libs.task_json libs.event_json name false fs' dbs
                  q in
              subst (Keeps d)
                (ap (λ (x : Dbs). assemble libs x.task_db) same ∙ ok_inj (rw (q, new_worker) at h))
                (keeps t at_t)
        ]
    where
      keeps :
          (t : libs.bolt.D)
          → (new_persistent_store libs.bolt
              (str_append name "-tasks.db")
              384
              "tasks"
              false
              (libs.bolt.release (Persistent.close libs.bolt d).0 fs)).1
            ≡ ok t
          → Keeps d (
              assemble libs
                (record { store = persistent libs.bolt libs.task_json "tasks"; state = t }))
      keeps t at_t =
          let (laws, sound, view) = persistent-view bolt_laws libs.task_json "tasks" task_json in
          record {
            lawful = record {
              laws = laws;
              sound = sound t (
                  new_persistent_store-HasBucket bolt_laws libs.task_json "tasks" _ 384 false _ t
                    at_t);
              empty = λ f. cc;
            };
            kept = λ k.
                view t k
                ∙ new_persistent_store-reopened bolt_laws libs.task_json "tasks"
                    (str_append name "-tasks.db") 384 fs d t there at at_t k;
          }
