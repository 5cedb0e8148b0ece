-- ===== src/Manager/Ready.antt =====
-- The manager that `NewManager` of internal/manager/manager.go returns.
use task_orchestrator.Prelude.{
  ◌≡◌, refl, subst, inl, inr, true, some, List, [], ◌∷◌, map, String, str_eq, str_eq_iff, arith,
  Bool-cases, In,
}
use task_orchestrator.Prelude.Assoc.{lookup, String-Eq, ℕ-Eq}
use task_orchestrator.Errors.{ok_inj, err-ne-ok, ok, Result-cases}
use task_orchestrator.Node.{new_node}
use task_orchestrator.Scheduler.Interface.{SchedulerLaws, Chosen, get_scheduler}
use task_orchestrator.Scheduler.Offers.{get_scheduler-SchedulerLaws}
use task_orchestrator.Store.Bolt.{BoltLaws}
use task_orchestrator.Store.Durable.{RoundTrips}
use task_orchestrator.Store.Choice.{Dbs, get_dbs}
use task_orchestrator.Store.Chosen.{IsLawful, get_dbs-IsLawful}
use task_orchestrator.Task.{Uuid}
use task_orchestrator.Manager.{Parts, Manager}
use task_orchestrator.Manager.Send.{address_in, worker_address}
use task_orchestrator.Manager.Routing.{RoutesListed}
use task_orchestrator.Manager.Setup.{
  WorkerMetadata, Libraries, Built, node_of, assemble, new_manager,
}

-- Every worker of the list is known by its name, under the address of a worker of that name.
abbrev pub KnowsWorkers : {p : Parts} → List WorkerMetadata → Manager p → Type 0
KnowsWorkers ws m =
    (w : WorkerMetadata)
    → In w ws
    → (v : WorkerMetadata) × In v ws
      × (v.name ≡ w.name)
      × (worker_address w.name m ≡ some v.address)

pub record IsReady (libs : Libraries) (ws : List WorkerMetadata) (b : Built) : Type 1 where
  pub tasks : IsLawful true (record { store = b.parts.tasks; state = b.manager.task_db })
  pub events : IsLawful true (record { store = b.parts.events; state = b.manager.event_db })
  pub scheduler : SchedulerLaws b.parts.scheduler
  pub routes : RoutesListed b.manager
  pub workers : KnowsWorkers ws b.manager

address_in-known :
    (ws : List WorkerMetadata) (w : WorkerMetadata)
    → In w ws
    → (v : WorkerMetadata) × In v ws
      × (v.name ≡ w.name)
      × (address_in (map node_of ws) w.name ≡ some v.address)
unfolding address_in new_node
address_in-known [] w h = absurd h
address_in-known (x ∷ ws) w h = elim (Bool-cases (str_eq x.name w.name)) [
  | inl e ↦ (x, inl refl, (str_eq_iff x.name w.name).0 e, rw e)
  | inr e ↦ elim h [
    | inl same ↦ absurd (ground (arith, str_eq_iff x.name w.name))
    | inr m ↦ let (v, at, name, found) = address_in-known ws w m in (v, inr at, name, rw e found)
  ]
]

module _ (libs : Libraries) (bolt_laws : BoltLaws libs.bolt) (task_json : RoundTrips libs.task_json)
    (event_json : RoundTrips libs.event_json) where
  -- Over bbolt as it documents itself and JSON that decodes what it encoded: whatever kinds of
  -- scheduler and store were asked for, a manager that `NewManager` returns has stores that honour
  -- the contract and hold nothing, a scheduler that offers only nodes that it was given, no task
  -- routed that its worker does not list, and an address for each of its workers.
  pub new_manager-IsReady :
      (ws : List WorkerMetadata) (scheduler_type db_type : String) (fs : libs.bolt.Files)
      (b : Built)
      → (new_manager libs ws scheduler_type db_type fs).1 ≡ ok b
      → IsReady libs ws b
  unfolding new_manager worker_address lookup
  new_manager-IsReady ws scheduler_type db_type fs b h =
      elim (Result-cases (get_scheduler libs.fl libs.pass scheduler_type)) [
        | inr (e, s) ↦ absurd (err-ne-ok (rw (s, new_manager) at h))
        | inl (c, s) ↦
            elim (Result-cases
              (get_dbs libs.bolt libs.task_json libs.event_json db_type "manager" true fs).1) [
                | inr (e, q) ↦ absurd (err-ne-ok (rw (s, q, new_manager) at h))
                | inl (dbs, q) ↦
                    subst (IsReady libs ws) (ok_inj (rw (s, q, new_manager) at h)) (ready c s dbs q)
              ]
      ]
    where
      nowhere : (id : Uuid) (w : String) → lookup {V = String} id [] ≡ some w → ⊥
      nowhere id w r = cc

      ready :
          (c : Chosen libs.fl)
          → get_scheduler libs.fl libs.pass scheduler_type ≡ ok c
          → (dbs : Dbs)
          → (get_dbs libs.bolt libs.task_json libs.event_json db_type "manager" true fs).1 ≡ ok dbs
          → IsReady libs ws (assemble libs ws c dbs)
      ready c s dbs q =
          let (t, e) =
            get_dbs-IsLawful bolt_laws libs.task_json libs.event_json "manager" true fs db_type dbs
              task_json event_json q in
          record {
            tasks = t;
            events = e;
            scheduler = get_scheduler-SchedulerLaws libs.fl libs.pass scheduler_type c s;
            routes = λ id w r. absurd (nowhere id w r);
            workers = λ w m. address_in-known ws w m;
          }
