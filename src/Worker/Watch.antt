-- ===== src/Worker/Watch.antt =====
-- internal/worker/worker.go: how running tasks are watched, the shutdown, and the statistics. An
-- argument `during` stands for what other goroutines do while Docker is asked.
use task_orchestrator.Prelude.{
  ℕ, suc, Bool, ◌||◌, not, none, some, List, [], ◌∷◌, str_eq, if◌then◌else◌,
}
use task_orchestrator.Prelude.Int.{pos}
use task_orchestrator.Errors.{ok, err}
use task_orchestrator.Stats.{Readings, new_stats}
use task_orchestrator.Task.{Task, running, completed, failed, state_eq, Time, PortMap}
use task_orchestrator.Worker.{Parts, Worker}
use task_orchestrator.Worker.State.{list_tasks, upsert_task, set_stats, task_count}
use task_orchestrator.Worker.Container.{inspect_task}
use task_orchestrator.Worker.Run.{World, stop_task, get_tasks}

-- The writes of the watching pass: after an inspection, and with no container.
abbrev pub mark_watched : PortMap → Bool → Task → Task
mark_watched ports exited t =
    if not (state_eq t.state running)
    then t
    else if exited
    then record t { host_ports = ports; state = failed }
    else record t { host_ports = ports }

module _ {p : Parts} where
  -- One turn of the loop of `updateTasks`; `during` is what happens while the container is
  -- inspected.
  unfoldable pub watch_one : p.docker.D → (Worker p → Worker p) → Task → Worker p → Worker p
  watch_one d during t w =
      let resp = inspect_task p.docker t d in
      let w' = during w in
      if not (state_eq t.state running) then w else elim resp.error [
        | some e ↦ w'
        | none ↦ elim resp.container [
          | none ↦ upsert_task t (λ s. record s { state = failed }) w'
          | some found ↦ upsert_task t (mark_watched found.ports (str_eq found.status "exited")) w'
        ]
      ]

  -- The i-th task of the snapshot meets the i-th daemon and the i-th interference.
  unfoldable pub watch_each :
      (ℕ → p.docker.D) → (ℕ → Worker p → Worker p) → ℕ → List Task → Worker p → Worker p
  watch_each d during i [] w = w
  watch_each d during i (t ∷ ts) w = watch_each d during (suc i) ts (watch_one (d i) (during i) t w)

  unfoldable pub update_tasks : (ℕ → p.docker.D) → (ℕ → Worker p → Worker p) → Worker p → Worker p
  unfolding watch_each
  update_tasks d during w = elim (list_tasks w) [
    | err e ↦ w
    | ok tasks ↦ watch_each d during 0 tasks w
  ]

  -- The body of the loop of `Shutdown`: nothing else runs any more.
  unfoldable pub stop_one : Time → Task → World p → World p
  stop_one now t world =
      if str_eq t.container_id "" || state_eq t.state completed
      then world
      else (stop_task now (λ w. w) (record t { state = completed }) world).0

  -- The loop of `Shutdown`. The i-th stop is at the i-th time.
  unfoldable pub stop_each : (ℕ → Time) → ℕ → List Task → World p → World p
  unfolding stop_one
  stop_each at i [] world = world
  stop_each at i (t ∷ ts) world = stop_each at (suc i) ts (stop_one (at i) t world)

  -- `Shutdown` up to its call of `Close`.
  unfoldable pub stop_all : (ℕ → Time) → World p → World p
  unfolding stop_each
  stop_all at world = elim (get_tasks world.worker) [
    | err e ↦ world
    | ok tasks ↦ stop_each at 0 tasks world
  ]

  unfoldable pub shutdown : (ℕ → Time) → World p → World p
  unfolding stop_all
  shutdown at world =
      let stopped : World p = stop_all at world in
      let closed : Worker p = record (stopped.worker) {
        db = (p.tasks.close (stopped.worker).db).0;
      } in
      record stopped { worker = closed }

  -- One round of `CollectStats`.
  unfoldable pub collect_stats : Readings p.fl.F → Worker p → Worker p
  collect_stats r w = set_stats (record (new_stats p.fl r) { task_count = pos (task_count w) }) w
