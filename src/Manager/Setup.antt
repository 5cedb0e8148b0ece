-- ===== src/Manager/Setup.antt =====
-- internal/manager/manager.go: `NewManager` and `Close`.
use task_orchestrator.Prelude.{ℕ, true, Option, none, some, List, [], ◌∷◌, map, String}
use task_orchestrator.Prelude.Assoc.{Assoc, insert, String-Eq}
use task_orchestrator.Errors.{Error, joined, wrapped, Result, ok, err}
use task_orchestrator.Float64.{Float64}
use task_orchestrator.Node.{Node, new_node}
use task_orchestrator.Queue.{Inner, new}
use task_orchestrator.Scheduler.Interface.{Chosen, Pass, get_scheduler}
use task_orchestrator.Store.Bolt.{Bolt}
use task_orchestrator.Store.Persistent.{Json}
use task_orchestrator.Store.Choice.{Dbs, get_dbs}
use task_orchestrator.Task.{Task, TaskEvent, Uuid}
use task_orchestrator.Manager.{Codec, Parts, Manager}

pub record WorkerMetadata : Type 0 where
  pub name : String
  pub address : String

-- The libraries and the surroundings that a manager is built over.
pub record Libraries : Type 1 where
  pub fl : Float64
  pub pass : ℕ → Pass fl
  pub pending : Inner TaskEvent
  pub codec : Codec
  pub uuid_string : Uuid → String
  pub parse_url : String → Option (String × String)
  pub bolt : Bolt
  pub task_json : Json Task
  pub event_json : Json TaskEvent

-- The parts that were chosen, with the manager put together from them.
pub record Built : Type 1 where
  pub parts : Parts
  pub manager : Manager parts

-- The map that the loop of `NewManager` makes, an empty slice for each name.
unfoldable pub empty_assignments :
    List WorkerMetadata → Assoc String (List Uuid) → Assoc String (List Uuid)
empty_assignments [] m = m
empty_assignments (w ∷ ws) m = empty_assignments ws (insert w.name [] m)

abbrev pub node_of : WorkerMetadata → Node
node_of w = new_node w.name w.address "worker"

module _ (libs : Libraries) where
  abbrev pub assemble : List WorkerMetadata → Chosen libs.fl → Dbs → Built
  assemble workers s dbs = record {
    parts = record {
      fl = libs.fl;
      tasks = dbs.task_db.store;
      events = dbs.task_event_db.store;
      pending = libs.pending;
      scheduler = s.scheduler;
      codec = libs.codec;
      uuid_string = libs.uuid_string;
      parse_url = libs.parse_url;
    };
    manager = record {
      pending = new libs.pending;
      task_db = dbs.task_db.state;
      event_db = dbs.task_event_db.state;
      worker_task_map = empty_assignments workers [];
      task_worker_map = [];
      worker_nodes = map node_of workers;
      scheduler = s.state;
    };
  }

  unfoldable pub new_manager :
      List WorkerMetadata → String → String → libs.bolt.Files → libs.bolt.Files × Result Built
  new_manager workers scheduler_type db_type fs =
      let op : String = "manager.NewManager" in
      let (fs', opened) =
        get_dbs libs.bolt libs.task_json libs.event_json db_type "manager" true fs in
      elim (get_scheduler libs.fl libs.pass scheduler_type) [
        | err e ↦ (fs, err (wrapped op e))
        | ok s ↦ elim opened [
          | err e ↦ (fs', err (wrapped op e))
          | ok dbs ↦ (fs', ok (assemble workers s dbs))
        ]
      ]

-- `errors.Join` of two errors, either of which may be nil.
abbrev pub join_two : Option Error → Option Error → Option Error
join_two none e = e
join_two (some a) none = some a
join_two (some a) (some b) = some (joined a b)

module _ {p : Parts} where
  unfoldable pub close : Manager p → Manager p × Option Error
  close m =
      let (tasks, e) = p.tasks.close m.task_db in
      let (events, e') = p.events.close m.event_db in
      (
        record m { task_db = tasks; event_db = events },
        elim (join_two e e') [ none ↦ none | some x ↦ some (wrapped "manager.Close" x) ],
      )
