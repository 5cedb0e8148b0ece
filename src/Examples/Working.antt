-- ===== src/Examples/Working.antt =====
-- The theorems on a worker, with one task and a daemon that counts its calls.
use task_orchestrator.Prelude.{
  ◌≡◌, refl, true, sym, ap, ◌∙◌, inl, inr, ℕ, suc, none, some, false, [], ◌∷◌, String, str_eq,
  str_eq_iff, if◌then◌else◌, ◌==◌, arith, Bool-cases,
}
use task_orchestrator.Prelude.Assoc.{lookup, insert, String-Eq}
use task_orchestrator.Docker.{DockerClient, docker_run, docker_inspect}
use task_orchestrator.Errors.{Error, sentinel, origin_of, ok, err, errors_is, not_found}
use task_orchestrator.Store.{StoreLaws, IsReliable}
use task_orchestrator.Store.InMemory.{InMemory, in_memory, new_in_memory, put, get, list}
use task_orchestrator.Store.Laws.{in_memory-StoreLaws, new_in_memory-StoreLaws}
use task_orchestrator.Task.{Task, State, scheduled, running, completed}
use task_orchestrator.Task.Graph.{◌⟶◌}
use task_orchestrator.Manager.Merge.{Follows}
use task_orchestrator.Worker.{Parts, Worker}
use task_orchestrator.Worker.Run.{World, run_dequeued}
use task_orchestrator.Worker.Watch.{watch_one, stop_all}
use task_orchestrator.Worker.Rerunning.{Runs, run_dequeued-rerun}
use task_orchestrator.Worker.Stopping.{IsObliging, Downed, stop_all-Downed}
use task_orchestrator.Worker.Fields.{stored, IsKeyed}
use task_orchestrator.Worker.Watching.{Watched, watch_one-Watched}
use task_orchestrator.Worker.Running.{Stores, run_dequeued-Follows}
use task_orchestrator.Examples.{whole, list_queue, job, codec}

-- A miss is the only error of the map.
missing :
    (k : String) (e : Error) (i : InMemory Task) → get k i ≡ err e → errors_is e not_found ≡ true
unfolding get errors_is
missing k e i h = ground arith

pub reliable : IsReliable (in_memory Task)
unfolding put get list errors_is
reliable = record { put_ok = λ k v s. refl; get_err = missing; list_ok = λ s. (_, refl) }

-- Every container runs, and publishes no port.
abbrev pub docker : DockerClient
docker = record {
  D = ℕ;
  new = λ d. none;
  image_pull = λ i d. (suc d, none);
  container_create = λ c d. (suc d, ok "container");
  container_start = λ i d. (suc d, none);
  container_logs = λ i d. none;
  container_stop = λ i d. (suc d, none);
  container_remove = λ i d. (suc d, none);
  container_inspect = λ i d. ok (record { status = "exited"; ports = none });
}

abbrev pub parts : Parts
parts = record {
  fl = whole;
  tasks = in_memory Task;
  queue = list_queue Task;
  docker = docker;
  codec = codec;
  uuid_string = λ id. if id == 7 then "7" else "other";
}

abbrev pub holding_task : Task → Worker parts
holding_task t = record {
  db = record { db = ("7", t) ∷ [] };
  queue = record { inner_queue = [] };
  stats = none;
}

abbrev holding : State → Worker parts
holding s = holding_task (job 7 s)

abbrev world : State → World parts
world s = record { worker = holding s; daemon = 0 }

-- What is stored, by any contract of the store.
module _ (laws : StoreLaws (in_memory Task)) where
  task_at : (t : Task) → stored laws reliable (holding_task t) "7" ≡ some t
  unfolding get lookup
  task_at t = laws.get_found "7" t ((holding_task t).db) refl

  nowhere_else :
      (t : Task) (k : String)
      → str_eq "7" k ≡ false
      → stored laws reliable (holding_task t) k ≡ none
  unfolding get lookup errors_is
  nowhere_else t k q =
      laws.get_missing k (origin_of "store.InMemory.Get" (sentinel not_found)) ((holding_task t).db)
        (rw (q, get, lookup)) refl

  pub task-IsKeyed : (t : Task) → t.id ≡ 7 → IsKeyed laws reliable (holding_task t)
  task-IsKeyed t seven k u e = elim (Bool-cases (str_eq "7" k)) [
    | inl q ↦
        let same : "7" ≡ k = (str_eq_iff "7" k).0 q in
        let at : stored laws reliable (holding_task t) "7" ≡ some u =
          ap (stored laws reliable (holding_task t)) same ∙ e in
        let task : t ≡ u = cc (task_at t, at) in
        ap (λ (x : Task). parts.uuid_string x.id) (sym task) ∙ ap parts.uuid_string seven ∙ same
    | inr q ↦ cc (nowhere_else t k q, e)
  ]

stored_at : (s : State) → stored in_memory-StoreLaws reliable (holding s) "7" ≡ some (job 7 s)
stored_at s = task_at in_memory-StoreLaws (job 7 s)

keyed : (s : State) → IsKeyed in_memory-StoreLaws reliable (holding s)
keyed s = task-IsKeyed in_memory-StoreLaws (job 7 s) refl

-- Meanwhile a stop marks the task.
watch_one-Watched_example : Watched (job 7 completed) (
    stored in_memory-StoreLaws reliable
      (watch_one 0 (λ w. holding completed) (job 7 running) (holding running))
      "7")
watch_one-Watched_example =
    watch_one-Watched in_memory-StoreLaws reliable 0 (λ w. holding completed) (job 7 running)
      (holding running) "7" (job 7 completed) refl (keyed completed) (stored_at completed)

run_dequeued-Follows_example :
    (u : Task) × Follows (job 7 scheduled) u
    × Stores in_memory-StoreLaws reliable "7" u
        (holding scheduled)
        (run_dequeued 5 (λ w. w) (job 7 scheduled) (world scheduled)).0.worker
run_dequeued-Follows_example =
    run_dequeued-Follows in_memory-StoreLaws reliable 5 (λ w. w) (job 7 scheduled) (job 7 scheduled)
      (world scheduled) (λ w. refl) (keyed scheduled) (stored_at scheduled)

not_revived : ¬ (completed ⟶ scheduled)
not_revived m = elim m [ ]

-- A task that runs in a container when the worker shuts down.
abbrev pub deployed : Task
deployed = record (job 7 running) { container_id = "container" }

abbrev pub last_world : World parts
last_world = record { worker = holding_task deployed; daemon = 0 }

pub obliging : IsObliging docker
obliging = record { connects = λ d. refl; stops = λ id d. refl; removes = λ id d. refl }

abbrev pub map_laws : StoreLaws (in_memory Task)
map_laws = new_in_memory-StoreLaws.0

pub sound : map_laws.IsSound (holding_task deployed).db
unfolding put insert new_in_memory
sound = map_laws.put-IsSound "7" deployed new_in_memory new_in_memory-StoreLaws.1

stop_all-Downed_example :
    Downed
      (stored map_laws reliable last_world.worker "7")
      (stored map_laws reliable (stop_all (λ i. i) last_world).worker "7")
stop_all-Downed_example =
    stop_all-Downed map_laws reliable (λ i. i) last_world obliging sound
      (task-IsKeyed map_laws deployed refl) "7"

-- The same task comes again, while a container of it runs.
abbrev old : Task
old = record (job 7 running) { container_id = "old" }

abbrev old_world : World parts
old_world = record { worker = holding_task old; daemon = 0 }

runs : Runs docker (job 7 scheduled) 0 "container" 3
unfolding docker_run docker_inspect
runs = record { connects = refl; runs = refl; inspects = refl }

run_dequeued-rerun_example :
    let after = (run_dequeued 5 (λ w. w) (job 7 scheduled) old_world).0 in
    (after.daemon ≡ 3)
    × (u : Task) × (stored in_memory-StoreLaws reliable after.worker "7" ≡ some u)
    × (u.container_id ≡ "container")
    × (u.state ≡ running)
run_dequeued-rerun_example =
    run_dequeued-rerun in_memory-StoreLaws reliable 5 (λ w. w) (job 7 scheduled) old old_world
      "container" 3 (λ w. refl) (task-IsKeyed in_memory-StoreLaws old refl)
      (task_at in_memory-StoreLaws old) refl refl refl runs
