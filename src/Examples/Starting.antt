-- ===== src/Examples/Starting.antt =====
-- Stores, a manager and a worker that are opened, closed and opened again.
use task_orchestrator.Prelude.{
  ℕ, ◌≡◌, refl, sym, ap, subst, inl, inr, Bool, true, false, ◌&&◌, Option, none, some, List, [],
  ◌∷◌, String, str_eq, str_eq_iff, In, arith, if◌then◌else◌, ◌==◌, Bool-cases,
}
use task_orchestrator.Prelude.Int.{ℤ, pos, negsuc}
use task_orchestrator.Prelude.Assoc.{lookup, insert, erase, String-Eq}
use task_orchestrator.Errors.{foreign, err, errors_is}
use task_orchestrator.Cli.{done}
use task_orchestrator.Cli.Decimal.{decimal}
use task_orchestrator.Cli.Workers.{parse_workers}
use task_orchestrator.Cli.Specs.{Spec, named, bare, IsClear, parse_workers-written}
use task_orchestrator.Scheduler.Interface.{round_robin, get_scheduler}
use task_orchestrator.Store.Persistent.{
  Json, persistent, new_persistent_store, create_bucket, create_bucket_tx, create_if_missing, close,
}
use task_orchestrator.Store.Durable.{RoundTrips, stored}
use task_orchestrator.Store.Opening.{new_persistent_store-reopened}
use task_orchestrator.Store.Choice.{get_dbs, get_persistent_dbs}
use task_orchestrator.Manager.Setup as Manager
use task_orchestrator.Manager.Setup.{new_manager}
use task_orchestrator.Manager.Ready.{IsReady, new_manager-IsReady}
use task_orchestrator.Worker.Setup as Worker
use task_orchestrator.Worker.Setup.{new_worker}
use task_orchestrator.Worker.Restarting.{Keeps, new_worker-Keeps}
use task_orchestrator.Task.{Task, TaskEvent, running, state_eq, state_eq_iff}
use task_orchestrator.Examples.{job, request, whole, list_queue, codec}
use task_orchestrator.Examples.Storing.{Database, bolt}
use task_orchestrator.Examples.StoringLaws.{bolt-BoltLaws, kept, kept-HasBucket, kept-path}
use task_orchestrator.Examples.Working.{docker}

abbrev is_pos : ℕ → ℤ → Bool
is_pos n (pos m) = m == n
is_pos n (negsuc m) = false

is_pos_iff : (n : ℕ) (z : ℤ) → is_pos n z ≡ true → z ≡ pos n
is_pos_iff n (pos m) h = ground arith
is_pos_iff n (negsuc m) h = cc h

abbrev is_none {ℓ} : {A : Type ℓ} → Option A → Bool
is_none none = true
is_none (some _) = false

is_none_iff {ℓ} : {A : Type ℓ} (o : Option A) → is_none o ≡ true → o ≡ none
is_none_iff none h = refl
is_none_iff (some a) h = cc h

abbrev is_job : Task → Bool
is_job t =
    str_eq t.name "job"
    && t.id == 7
    && state_eq t.state running
    && str_eq t.image "alpine"
    && is_pos 1 t.memory
    && is_pos 1 t.disk
    && is_none t.exposed_ports
    && is_none t.host_ports
    && str_eq t.restart_policy ""
    && t.start_time == 0
    && t.finish_time == 0
    && str_eq t.container_id ""
    && str_eq t.health_check "/health"
    && is_pos 0 t.restart_count

and_parts : (a b : Bool) → (a && b) ≡ true → (a ≡ true) × (b ≡ true)
and_parts true b h = (refl, h)
and_parts false b h = cc h

is_job_iff : (t : Task) → is_job t ≡ true → job 7 running ≡ t
is_job_iff t h = ground (
  arith,
  str_eq_iff t.name "job",
  str_eq_iff t.image "alpine",
  str_eq_iff t.restart_policy "",
  str_eq_iff t.container_id "",
  str_eq_iff t.health_check "/health",
  state_eq_iff t.state running,
  is_pos_iff 1 t.memory,
  is_pos_iff 1 t.disk,
  is_pos_iff 0 t.restart_count,
  is_none_iff t.exposed_ports,
  is_none_iff t.host_ports,
)

-- Only one task is encoded, and only one event.
abbrev task_json : Json Task
task_json = record {
  encode = λ t. if is_job t then some "job" else none;
  decode = λ s. if str_eq s "job" then some (job 7 running) else none;
}

abbrev is_request : TaskEvent → Bool
is_request te = te.id == 107 && state_eq te.state running && te.timestamp == 0 && is_job te.task

abbrev event_json : Json TaskEvent
event_json = record {
  encode = λ te. if is_request te then some "request" else none;
  decode = λ s. if str_eq s "request" then some (request 7 running) else none;
}

is_request_iff : (te : TaskEvent) → is_request te ≡ true → request 7 running ≡ te
is_request_iff te h = ground (arith, state_eq_iff te.state running, is_job_iff te.task)

task_json-RoundTrips : RoundTrips task_json
task_json-RoundTrips t s h = elim (Bool-cases (is_job t)) [
  | inl e ↦
      let same : "job" ≡ s = ground arith in
      let known = is_job_iff t e in rw ((str_eq_iff s "job").1 (sym same)) (ap some known)
  | inr e ↦ absurd (ground arith)
]

event_json-RoundTrips : RoundTrips event_json
event_json-RoundTrips t s h = elim (Bool-cases (is_request t)) [
  | inl e ↦
      let same : "request" ≡ s = ground arith in
      let known = is_request_iff t e in rw ((str_eq_iff s "request").1 (sym same)) (ap some known)
  | inr e ↦ absurd (ground arith)
]

new_persistent_store-reopened_example :
    stored bolt-BoltLaws task_json "tasks" kept "7"
    ≡ stored bolt-BoltLaws task_json "tasks" kept "7"
unfolding new_persistent_store create_bucket create_bucket_tx create_if_missing close lookup insert
new_persistent_store-reopened_example =
    new_persistent_store-reopened bolt-BoltLaws task_json "tasks" "worker-tasks.db" 384 [] kept kept
      kept-HasBucket kept-path refl "7"

abbrev manager_libraries : Manager.Libraries
manager_libraries = record {
  fl = whole;
  pass = λ k. record { fetch = λ n. err foreign; order = λ k. [] };
  pending = list_queue TaskEvent;
  codec = codec;
  uuid_string = λ id. if id == 7 then "7" else "other";
  parse_url = λ u. none;
  bolt = bolt;
  task_json = task_json;
  event_json = event_json;
}

abbrev two_workers : List Manager.WorkerMetadata
two_workers =
    record { name = "first"; address = "http://first" }
    ∷ record { name = "second"; address = "http://second" }
    ∷ []

abbrev empty_file : String → String → Database
empty_file path bucket = record { path = path; buckets = (bucket, []) ∷ [] }

abbrev started : Manager.Built
started =
    Manager.assemble manager_libraries two_workers
      (record {
        scheduler = round_robin whole;
        state = record { name = "round-robin"; last_worker = pos 0 };
      })
      (record {
        task_db = record {
          store = persistent bolt task_json "tasks";
          state = empty_file "manager-tasks.db" "tasks";
        };
        task_event_db = record {
          store = persistent bolt event_json "events";
          state = empty_file "manager-events.db" "events";
        };
      })

-- The file of an earlier run is wiped.
new_manager-IsReady_example : IsReady manager_libraries two_workers started
unfolding new_manager get_scheduler get_dbs get_persistent_dbs new_persistent_store create_bucket
    create_bucket_tx create_if_missing lookup insert erase errors_is
new_manager-IsReady_example =
    new_manager-IsReady manager_libraries bolt-BoltLaws task_json-RoundTrips event_json-RoundTrips
      two_workers "round-robin" "PERSISTENT"
      (("manager-tasks.db", ("tasks", ("7", "job") ∷ []) ∷ []) ∷ []) started refl

abbrev worker_libraries : Worker.Libraries
worker_libraries = record {
  fl = whole;
  queue = list_queue Task;
  docker = docker;
  codec = codec;
  uuid_string = λ id. if id == 7 then "7" else "other";
  bolt = bolt;
  task_json = task_json;
  event_json = event_json;
}

abbrev restarted : Worker.Built
restarted =
    Worker.assemble worker_libraries
      (record { store = persistent bolt task_json "tasks"; state = kept })

new_worker-Keeps_example : Keeps worker_libraries bolt-BoltLaws task_json-RoundTrips kept restarted
unfolding new_worker get_dbs get_persistent_dbs new_persistent_store create_bucket create_bucket_tx
    create_if_missing close lookup insert
new_worker-Keeps_example =
    new_worker-Keeps worker_libraries bolt-BoltLaws task_json-RoundTrips "worker" [] kept restarted
      kept-HasBucket kept-path refl

specs-IsClear :
    (s : Spec) → In s (named "first" "http://first" ∷ bare "http://second" ∷ []) → IsClear s
specs-IsClear s (inl e) = subst IsClear e (refl, refl)
specs-IsClear s (inr (inl e)) = subst IsClear e (refl, refl)
specs-IsClear s (inr (inr h)) = elim h [ ]

parse_workers-written_example :
    parse_workers ("first=http://first" ∷ "http://second" ∷ [])
    ≡ done (
        record { name = "first"; address = "http://first" }
        ∷ record { name = "worker-2"; address = "http://second" }
        ∷ [])
unfolding decimal
parse_workers-written_example =
    parse_workers-written (named "first" "http://first" ∷ bare "http://second" ∷ []) specs-IsClear
