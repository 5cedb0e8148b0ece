-- ===== src/Worker/Watching.antt =====
-- The watching pass against what other goroutines write while a container is inspected.
use task_orchestrator.Prelude.{
  ◌≡◌, sym, ap, subst, ◌∙◌, ◌⊎◌, inl, inr, true, Bool, Option, none, some, String, str_eq,
  str_eq_iff, arith, Bool-cases,
}
use task_orchestrator.Docker.{DockerClient, Inspection, new_docker, new_config, docker_inspect}
use task_orchestrator.Errors.{Error, wrapped, origin_of, Result-cases}
use task_orchestrator.Store.{StoreLaws, IsReliable}
use task_orchestrator.Task.{Task, PortMap, running, failed, state_eq, state_eq_iff}
use task_orchestrator.Worker.{Parts, Worker}
use task_orchestrator.Worker.State.{upsert_task}
use task_orchestrator.Worker.Container.{inspect_task}
use task_orchestrator.Worker.Watch.{mark_watched, watch_one}
use task_orchestrator.Worker.Fields.{stored, IsKeyed, stored-upsert_task}

-- An inspection fails or finds a container.
inspect_task-cases :
    (c : DockerClient) (t : Task) (d : c.D)
    → ((e : Error) × ((inspect_task c t d).error ≡ some e))
      ⊎ ((found : Inspection) × ((inspect_task c t d).error ≡ none)
          × ((inspect_task c t d).container ≡ some found))
unfolding inspect_task docker_inspect
inspect_task-cases c t d = elim (Result-cases (new_docker c (new_config t) d)) [
  | inr (e, q) ↦ inl (wrapped "worker.InspectTask" e, rw (q, inspect_task))
  | inl (h, q) ↦ elim (Result-cases (c.container_inspect t.container_id d)) [
    | inr (e, r) ↦ inl (origin_of "task.Docker.Inspect" e, rw (q, r, inspect_task, docker_inspect))
    | inl (found, r) ↦
        inr
          (found, rw (q, r, inspect_task, docker_inspect), rw (q, r, inspect_task, docker_inspect))
  ]
]

module _ {p : Parts} (t : Task) (d : p.docker.D) where
  watch_one-cases :
      (during : Worker p → Worker p) (w : Worker p)
      → t.state ≡ running
      → (watch_one d during t w ≡ during w)
        ⊎ ((ports : PortMap) × (exited : Bool) × (watch_one d during t w
              ≡ upsert_task t (mark_watched ports exited) (during w)))
  unfolding watch_one
  watch_one-cases during w r =
      let s : state_eq t.state running ≡ true = (state_eq_iff t.state running).1 r in
      elim (inspect_task-cases p.docker t d) [
        | inl (e, q) ↦ inl (rw (s, q))
        | inr (found, q, c) ↦ inr (found.ports, str_eq found.status "exited", rw (s, q, c))
      ]

-- What the pass makes of a stored task: nothing unless it runs, and then new ports, and perhaps the
-- mark that it failed.
abbrev pub Watched : Task → Option Task → Type 0
Watched u after =
    (after ≡ some u)
    ⊎ ((u.state ≡ running)
        × (ports : PortMap) × ((after ≡ some (record u { host_ports = ports }))
            ⊎ (after ≡ some (record u { host_ports = ports; state = failed }))))

pub mark_watched-id :
    (ports : PortMap) (exited : Bool) (t : Task) → (mark_watched ports exited t).id ≡ t.id
mark_watched-id ports exited t = ground arith

mark_watched-Watched :
    (ports : PortMap) (exited : Bool) (u : Task) → Watched u (some (mark_watched ports exited u))
mark_watched-Watched ports exited u = elim (Bool-cases (state_eq u.state running)) [
  | inr e ↦ inl (rw e)
  | inl e ↦ elim (Bool-cases exited) [
    | inl x ↦ inr ((state_eq_iff u.state running).0 e, ports, inr (rw (e, x)))
    | inr x ↦ inr ((state_eq_iff u.state running).0 e, ports, inl (rw (e, x)))
  ]
]

module _ {p : Parts} (laws : StoreLaws p.tasks) (reliable : IsReliable p.tasks) where
  -- Over a reliable store, whatever other goroutines have written by the end of the inspection of
  -- a running task, if each task is then stored under its own uuid: every task stored then either
  -- stays as it is, or runs then and gets new ports, or new ports and the mark that it failed.
  pub watch_one-Watched :
      (d : p.docker.D) (during : Worker p → Worker p) (t : Task) (w : Worker p) (k : String)
      (u : Task)
      → t.state ≡ running
      → IsKeyed laws reliable (during w)
      → stored laws reliable (during w) k ≡ some u
      → Watched u (stored laws reliable (watch_one d during t w) k)
  watch_one-Watched d during t w k u r keyed e = elim (watch_one-cases t d during w r) [
    | inl q ↦ inl (rw q e)
    | inr (ports, exited, q) ↦
        let key = p.uuid_string t.id in
        let out =
          stored-upsert_task laws reliable t (mark_watched ports exited) (during w) k keyed
            (mark_watched-id ports exited) in
        elim (Bool-cases (str_eq key k)) [
          | inr ne ↦ inl (rw q (out ∙ (rw ne e)))
          | inl same ↦
              let at : stored laws reliable (during w) key ≡ some u =
                ap (stored laws reliable (during w)) ((str_eq_iff key k).0 same) ∙ e in
              let after : stored laws reliable (watch_one d during t w) k
                  ≡ some (mark_watched ports exited u) =
                rw q (out ∙ (rw (same, at))) in
              subst (Watched u) (sym after) (mark_watched-Watched ports exited u)
        ]
  ]
