-- ===== src/Manager/Merge.antt =====
-- What a worker's report may change in the manager's copy of a task.
use task_orchestrator.Prelude.{◌≡◌, refl, ap, ◌∙◌, ◌≢◌, ◌⊎◌, inl, inr, String, Bool-cases}
use task_orchestrator.Task.{
  Task, State, state_eq, state_eq_iff, new_state_machine, is_valid_transition, PortSet, PortMap,
  Time,
}
use task_orchestrator.Task.Graph.{◌⟶◌, ◌⟶*◌, here, step, is_valid_transition_iff}
use task_orchestrator.Manager.Pure.{merge_task_update}

-- The fields that the worker owns.
abbrev pub WorkerFields : Type 0
WorkerFields = State × Time × Time × String × PortSet × PortMap

abbrev pub worker_fields : Task → WorkerFields
worker_fields t =
    (t.state, t.start_time, t.finish_time, t.container_id, t.exposed_ports, t.host_ports)

-- A task with its worker's fields replaced.
abbrev pub with_worker_fields : WorkerFields → Task → Task
with_worker_fields f t = record t {
  state = f.0;
  start_time = f.1;
  finish_time = f.2;
  container_id = f.3;
  exposed_ports = f.4;
  host_ports = f.5;
}

-- Either a report is in the same state, or in one that the diagram of task states leads to at once,
-- and then it replaces the fields that the worker owns and no other; or it is in neither, and
-- changes nothing.
pub merge_task_update_lem :
    (t r : Task)
    → (((t.state ≡ r.state) ⊎ (t.state ⟶ r.state))
        × (merge_task_update t r ≡ with_worker_fields (worker_fields r) t))
      ⊎ ((t.state ≢ r.state) × (¬ (t.state ⟶ r.state)) × (merge_task_update t r ≡ t))
unfolding merge_task_update
merge_task_update_lem t r = elim (Bool-cases (state_eq t.state r.state)) [
  | inl e ↦ inl (inl ((state_eq_iff t.state r.state).0 e), rw e)
  | inr e ↦
      let ne : t.state ≢ r.state = λ q. cc ((state_eq_iff t.state r.state).1 q) in
      elim (Bool-cases (is_valid_transition new_state_machine t.state r.state)) [
        | inl v ↦ inl (inr ((is_valid_transition_iff t.state r.state).0 v), rw (e, v))
        | inr v ↦
            let nm : ¬ (t.state ⟶ r.state) =
              λ k. cc ((is_valid_transition_iff t.state r.state).1 k) in
            inr (ne, nm, rw (e, v))
      ]
]

-- What a task may become by reports: its state moves along the diagram, and what the manager owns
-- stays.
pub record Follows (t u : Task) : Type 0 where
  pub moves : t.state ⟶* u.state
  pub keeps : u ≡ with_worker_fields (worker_fields u) t

pub Follows-refl : (t : Task) → Follows t t
Follows-refl t = record { moves = here; keeps = refl }

⟶*-append : {s t u : State} → s ⟶* t → t ⟶* u → s ⟶* u
⟶*-append here q = q
⟶*-append (step m p) q = step m (⟶*-append p q)

pub Follows-trans : {t u v : Task} → Follows t u → Follows u v → Follows t v
Follows-trans f g = record {
  moves = ⟶*-append f.moves g.moves;
  keeps = g.keeps ∙ ap (with_worker_fields _) f.keeps;
}

pub merge-Follows : (t r : Task) → Follows t (merge_task_update t r)
unfolding merge_task_update
merge-Follows t r = elim (Bool-cases (state_eq t.state r.state)) [
  | inl e ↦
      let same : t.state ≡ r.state = (state_eq_iff t.state r.state).0 e in
      rw e (record { moves = rw same here; keeps = refl })
  | inr e ↦ elim (Bool-cases (is_valid_transition new_state_machine t.state r.state)) [
    | inl v ↦
        rw (e, v)
          (record {
            moves = step ((is_valid_transition_iff t.state r.state).0 v) here;
            keeps = refl;
          })
    | inr v ↦ rw (e, v) (Follows-refl t)
  ]
]
