-- ===== src/Store/Chosen.antt =====
-- The stores that `GetDBs` hands out, whichever kind was asked for.
use task_orchestrator.Prelude.{
  ℕ, ◌≡◌, sym, ap, subst, ◌∙◌, inl, inr, Bool, true, none, String, str_eq, str_append, Bool-cases,
}
use task_orchestrator.Errors.{ok_inj, err-ne-ok, Result, ok, Result-cases}
use task_orchestrator.Store.{StoreLaws}
use task_orchestrator.Store.Bolt.{Bolt, BoltLaws}
use task_orchestrator.Store.Laws.{new_in_memory-StoreLaws}
use task_orchestrator.Store.Persistent.{Json, persistent, new_persistent_store}
use task_orchestrator.Store.Durable.{RoundTrips, persistent-view}
use task_orchestrator.Store.Opening.{new_persistent_store-fresh, new_persistent_store-HasBucket}
use task_orchestrator.Store.Choice.{
  Opened, Dbs, in_memory_db, persistent_db, opened_in_memory, get_in_memory_dbs, get_persistent_dbs,
  get_dbs,
}
use task_orchestrator.Task.{Task, TaskEvent}

-- A store that honours the contract, in a sound state, that holds nothing after a fresh start.
pub record IsLawful {T : Type 0} (fresh : Bool) (o : Opened T) : Type 1 where
  pub laws : StoreLaws o.store
  pub sound : laws.IsSound o.state
  pub empty : fresh ≡ true → (k : String) → laws.view o.state k ≡ none

opened_in_memory-IsLawful : (T : Type 0) (fresh : Bool) → IsLawful fresh (opened_in_memory T)
opened_in_memory-IsLawful T fresh =
    let (laws, sound, empty) = new_in_memory-StoreLaws {T = T} in
    record { laws = laws; sound = sound; empty = λ _. empty }

module _ {bolt : Bolt} (bolt_laws : BoltLaws bolt) where
  opened_persistent-IsLawful :
      {T : Type 0} (json : Json T) (bucket name : String) (mode : ℕ) (fresh : Bool)
      (fs : bolt.Files) (d : bolt.D)
      → RoundTrips json
      → (new_persistent_store bolt name mode bucket fresh fs).1 ≡ ok d
      → IsLawful fresh (record { store = persistent bolt json bucket; state = d })
  opened_persistent-IsLawful json bucket name mode fresh fs d rt h =
      let (laws, sound, view) = persistent-view bolt_laws json bucket rt in
      record {
        laws = laws;
        sound =
            sound d (new_persistent_store-HasBucket bolt_laws json bucket name mode fresh fs d h);
        empty = λ f k.
            view d k
            ∙ (new_persistent_store-fresh bolt_laws json bucket name mode fs d
                  (ap (λ b. (new_persistent_store bolt name mode bucket b fs).1) (sym f) ∙ h)).1
                k;
      }

  module _ (task_json : Json Task) (event_json : Json TaskEvent) (id : String) (fresh : Bool)
      (fs : bolt.Files) where
    abbrev pub tasks : bolt.Files × Result bolt.D
    tasks = new_persistent_store bolt (str_append id "-tasks.db") 384 "tasks" fresh fs

    abbrev pub events : bolt.Files × Result bolt.D
    events = new_persistent_store bolt (str_append id "-events.db") 384 "events" fresh tasks.0

    pub persistent_dbs-cases :
        (dbs : Dbs)
        → (get_persistent_dbs bolt task_json event_json id fresh fs).1 ≡ ok dbs
        → (t e : bolt.D) × (tasks.1 ≡ ok t)
          × (events.1 ≡ ok e)
          × (record {
            task_db = record { store = persistent bolt task_json "tasks"; state = t };
            task_event_db = record { store = persistent bolt event_json "events"; state = e };
          }
              ≡ dbs)
    unfolding get_persistent_dbs
    persistent_dbs-cases dbs h = elim (Bool-cases (str_eq id "")) [
      | inl m ↦ absurd (err-ne-ok (rw m at h))
      | inr m ↦ elim (Result-cases tasks.1) [
        | inr (x, p) ↦ absurd (err-ne-ok (rw (m, p) at h))
        | inl (t, p) ↦ elim (Result-cases events.1) [
          | inr (x, q) ↦ absurd (err-ne-ok (rw (m, p, q) at h))
          | inl (e, q) ↦ (t, e, p, q, ok_inj (rw (m, p, q) at h))
        ]
      ]
    ]

    -- Whatever kind of store is asked for: over bbolt as it documents itself and JSON that decodes
    -- what it encoded, the stores that `GetDBs` returns honour the contract of a store and are in
    -- a sound state, and after a fresh start they hold nothing.
    pub get_dbs-IsLawful :
        (db_type : String) (dbs : Dbs)
        → RoundTrips task_json
        → RoundTrips event_json
        → (get_dbs bolt task_json event_json db_type id fresh fs).1 ≡ ok dbs
        → IsLawful fresh dbs.task_db × IsLawful fresh dbs.task_event_db
    unfolding get_dbs get_in_memory_dbs
    get_dbs-IsLawful db_type dbs rt re h = elim (Bool-cases (str_eq db_type in_memory_db)) [
      | inl m ↦
          let same : get_in_memory_dbs ≡ dbs = ok_inj (rw m at h) in
          subst (λ (x : Dbs). IsLawful fresh x.task_db × IsLawful fresh x.task_event_db) same
            (opened_in_memory-IsLawful Task fresh, opened_in_memory-IsLawful TaskEvent fresh)
      | inr m ↦ elim (Bool-cases (str_eq db_type persistent_db)) [
        | inl q ↦
            let (t, e, at_t, at_e, same) = persistent_dbs-cases dbs (rw (m, q) at h) in
            subst (λ (x : Dbs). IsLawful fresh x.task_db × IsLawful fresh x.task_event_db) same
              (
                opened_persistent-IsLawful task_json "tasks" _ 384 fresh fs t rt at_t,
                opened_persistent-IsLawful event_json "events" _ 384 fresh tasks.0 e re at_e,
              )
        | inr q ↦ absurd (err-ne-ok (rw (m, q) at h))
      ]
    ]
