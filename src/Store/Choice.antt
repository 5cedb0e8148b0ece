-- ===== src/Store/Choice.antt =====
-- internal/store/store.go: `GetDBs`, which opens the stores that a manager or a worker keeps.
use task_orchestrator.Prelude.{Bool, String, str_eq, str_append, if◌then◌else◌}
use task_orchestrator.Errors.{origin, wrapped, Result, ok, err}
use task_orchestrator.Store.{Store}
use task_orchestrator.Store.Bolt.{Bolt}
use task_orchestrator.Store.InMemory.{in_memory, new_in_memory}
use task_orchestrator.Store.Persistent.{Json, new_persistent_store, persistent, close}
use task_orchestrator.Task.{Task, TaskEvent}

-- A store with its state.
pub record Opened (T : Type 0) : Type 1 where
  pub store : Store T
  pub state : store.S

pub record Dbs : Type 1 where
  pub task_db : Opened Task
  pub task_event_db : Opened TaskEvent

abbrev pub in_memory_db : String
in_memory_db = "IN_MEMORY"

abbrev pub persistent_db : String
persistent_db = "PERSISTENT"

abbrev pub opened_in_memory : (T : Type 0) → Opened T
opened_in_memory T = record { store = in_memory T; state = new_in_memory }

unfoldable pub get_in_memory_dbs : Dbs
get_in_memory_dbs = record {
  task_db = opened_in_memory Task;
  task_event_db = opened_in_memory TaskEvent;
}

module _ (bolt : Bolt) (task_json : Json Task) (event_json : Json TaskEvent) where
  abbrev pub opened_persistent : {T : Type 0} → Json T → String → bolt.D → Opened T
  opened_persistent json bucket d = record { store = persistent bolt json bucket; state = d }

  -- Files that are opened with mode 0600.
  unfoldable pub get_persistent_dbs : String → Bool → bolt.Files → bolt.Files × Result Dbs
  get_persistent_dbs id fresh_start fs =
      let op : String = "store.GetPersistentDbs" in
      let (fs', tasks) =
        new_persistent_store bolt (str_append id "-tasks.db") 384 "tasks" fresh_start fs in
      let (fs'', events) =
        new_persistent_store bolt (str_append id "-events.db") 384 "events" fresh_start fs' in
      if str_eq id "" then (fs, err (origin op)) else elim tasks [
        | err e ↦ (fs', err (wrapped op e))
        | ok t_db ↦ elim events [
          | err e ↦ (bolt.release (close bolt t_db).0 fs'', err (wrapped op e))
          | ok t_event_db ↦ (
            fs'',
            ok (record {
              task_db = opened_persistent task_json "tasks" t_db;
              task_event_db = opened_persistent event_json "events" t_event_db;
            }),
          )
        ]
      ]

  unfoldable pub get_dbs : String → String → Bool → bolt.Files → bolt.Files × Result Dbs
  unfolding get_in_memory_dbs
  get_dbs db_type id fresh_start fs =
      if str_eq db_type in_memory_db
      then (fs, ok get_in_memory_dbs)
      else if str_eq db_type persistent_db
      then get_persistent_dbs id fresh_start fs
      else (fs, err (origin "store.GetDBs"))
