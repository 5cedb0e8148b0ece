-- ===== src/Worker/Rerunning.antt =====
-- What `RunTask` of internal/worker/worker.go does to a task that is started again.
use task_orchestrator.Prelude.{
  ◌≡◌, refl, sym, ap, subst, ◌∙◌, inl, inr, true, none, some, String, str_eq, str_eq_iff, arith,
  Option-cases,
}
use task_orchestrator.Docker.{
  DockerClient, DockerResult, new_docker_result, new_docker, new_config, docker_run, docker_inspect,
}
use task_orchestrator.Store.{StoreLaws, IsReliable}
use task_orchestrator.Task.{Task, Time, PortMap, scheduled, running}
use task_orchestrator.Task.Graph.{◌⟶◌, restart}
use task_orchestrator.Worker.{Parts, Worker}
use task_orchestrator.Worker.State.{upsert_task}
use task_orchestrator.Worker.Container.{Started, started, after_run, start_container}
use task_orchestrator.Worker.Run.{World, mark_running, start_task, dispatch, run_dequeued}
use task_orchestrator.Worker.Fields.{stored, IsKeyed}
use task_orchestrator.Worker.Running.{upsert-Stores, run_dequeued-cases}

module _ (c : DockerClient) (t : Task) (d : c.D) (id : String) (d' : c.D) where
  -- The daemon can be reached, it starts a container of this name for the task, from d to d', and the
  -- container can be inspected.
  pub record Runs : Type 0 where
    pub connects : c.new d ≡ none
    pub runs : docker_run c (new_config t) d ≡ (d', new_docker_result none "start" id "success")
    pub inspects : (docker_inspect c id d').error ≡ none

  start_container-Runs :
      str_eq t.container_id "" ≡ true
      → Runs
      → (ports : PortMap) × (start_container c t d
          ≡ (d', started (new_docker_result none "start" id "success") ports))
  unfolding start_container new_docker after_run
  start_container-Runs h r =
      let inspected = docker_inspect c id d' in
      let success = (str_eq_iff "success" "success").1 refl in
      let run : start_container c t d
          ≡ after_run c t (d', new_docker_result none "start" id "success") =
        rw (r.connects, h, r.runs, start_container) refl in
      elim (Option-cases inspected.container) [
        | inl n ↦ (t.host_ports, run ∙ (ground (arith, r.inspects, n, success)))
        | inr (found, n) ↦ elim (Option-cases found.ports) [
          | inl q ↦ (t.host_ports, run ∙ (ground (arith, r.inspects, n, q, success)))
          | inr (ports, q) ↦ (some ports, run ∙ (ground (arith, r.inspects, n, q, success)))
        ]
      ]

module _ {p : Parts} (laws : StoreLaws p.tasks) (reliable : IsReliable p.tasks) where
  -- Over a reliable store that holds each task under its own uuid, with nothing but the queue touched
  -- during the Docker calls: a task comes off the queue to be started, without a container, that is
  -- stored as running already. When Docker starts it, Docker is asked for the new container alone,
  -- so that the one that the stored task had is not stopped, and the task is stored with the new
  -- container in its place.
  pub run_dequeued-rerun :
      (now : Time) (during : Worker p → Worker p) (queued s : Task) (world : World p) (id : String)
      (daemon' : p.docker.D)
      → ((w : Worker p) → (during w).db ≡ w.db)
      → IsKeyed laws reliable world.worker
      → stored laws reliable world.worker (p.uuid_string queued.id) ≡ some s
      → s.state ≡ running
      → queued.state ≡ scheduled
      → queued.container_id ≡ ""
      → Runs p.docker queued world.daemon id daemon'
      → let after = (run_dequeued now during queued world).0 in
        (after.daemon ≡ daemon')
        × (u : Task) × (stored laws reliable after.worker (p.uuid_string queued.id) ≡ some u)
        × (u.container_id ≡ id)
        × (u.state ≡ running)
  unfolding start_task dispatch
  run_dequeued-rerun now during queued s world id daemon' quiet keyed e live wanted bare r =
      elim (run_dequeued-cases laws reliable now during queued s world e) [
        | inr (n, q) ↦ absurd (
            n (
              subst (λ x. x ⟶ queued.state) (sym live)
                (subst (λ x. running ⟶ x) (sym wanted) restart)))
        | inl (v, q) ↦
            let (ports, up) =
              start_container-Runs p.docker queued world.daemon id daemon'
                ((str_eq_iff queued.container_id "").1 bare) r in
            let outcome = ap (λ (x : p.docker.D × Started). x.1) up in
            let dispatched : run_dequeued now during queued world
                ≡ start_task now during queued world =
              q ∙ ap (λ x. dispatch now during queued x world) wanted in
            let daemon : (start_task now during queued world).0.daemon ≡ daemon' =
              rw (outcome, start_task) (ap (λ (x : p.docker.D × Started). x.0) up) in
            let worker : (start_task now during queued world).0.worker
                ≡ upsert_task queued (mark_running now id ports) (during world.worker) =
              rw (outcome, start_task) refl in
            let view =
              upsert-Stores laws reliable queued s (mark_running now id ports) world.worker
                (during world.worker) keyed (λ x. refl) e (quiet world.worker)
                (p.uuid_string queued.id) in
            (
              ap (λ (x : World p × DockerResult). x.0.daemon) dispatched ∙ daemon,
              mark_running now id ports s,
              ap
                    (λ (x : World p × DockerResult).
                      stored laws reliable x.0.worker (p.uuid_string queued.id))
                    dispatched
                  ∙ ap (λ (w : Worker p). stored laws reliable w (p.uuid_string queued.id)) worker
                  ∙ view
                  ∙ (rw ((str_eq_iff (p.uuid_string queued.id) (p.uuid_string queued.id)).1 refl)
                      refl),
              refl,
              refl,
            )
      ]
