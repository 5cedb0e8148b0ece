-- ===== src/Worker/Stopping.antt =====
-- What `Shutdown` leaves behind.
use task_orchestrator.Prelude.{
  ℕ, suc, ◌≡◌, refl, sym, ap, subst, ◌∙◌, ◌⊎◌, inl, inr, true, ◌||◌, Option, none, some, List, [],
  ◌∷◌, String, str_eq, str_eq_iff, In, Bool-cases, Option-cases,
}
use task_orchestrator.Docker.{DockerClient, new_docker, docker_stop}
use task_orchestrator.Store.{StoreLaws, IsReliable}
use task_orchestrator.Task.{Task, Time, completed, state_eq}
use task_orchestrator.Worker.{Parts, Worker}
use task_orchestrator.Worker.State.{upsert_task, list_tasks}
use task_orchestrator.Worker.Run.{World, mark_completed, stop_task, get_tasks}
use task_orchestrator.Worker.Watch.{stop_one, stop_each, stop_all}
use task_orchestrator.Worker.Fields.{stored, IsKeyed, stored-upsert_task}

-- A task that shutdown passes over: it has no container, or was stopped.
abbrev pub IsDown : Task → Type 0
IsDown t = (str_eq t.container_id "" || state_eq t.state completed) ≡ true

-- A daemon that can be reached, and that stops and removes every container.
pub record IsObliging (c : DockerClient) : Type 0 where
  pub connects : (d : c.D) → c.new d ≡ none
  pub stops : (id : String) (d : c.D) → (c.container_stop id d).1 ≡ none
  pub removes : (id : String) (d : c.D) → (c.container_remove id d).1 ≡ none

-- What becomes of what was stored under a key: a task that is down stays as it was, and any other is
-- completed, with some finish time.
abbrev pub Downed : Option Task → Option Task → Type 0
Downed none after = after ≡ none
Downed (some t) after =
    (IsDown t × (after ≡ some t))
    ⊎ ((¬ (IsDown t)) × (z : Time) × (after ≡ some (mark_completed z t)))

stop_task-obliged :
    {p : Parts} (now : Time) (t : Task) (world : World p)
    → IsObliging p.docker
    → (stop_task now (λ w. w) t world).0.worker ≡ upsert_task t (mark_completed now) world.worker
unfolding stop_task new_docker docker_stop
stop_task-obliged {p} now t world obliging =
    let a = obliging.connects world.daemon in
    let b = obliging.stops t.container_id world.daemon in
    let c =
      obliging.removes t.container_id (p.docker.container_stop t.container_id world.daemon).0 in
    rw (a, b, c, stop_task, new_docker, docker_stop) refl

-- A task is down, or its turn is still to come.
abbrev Progress : List Task → Option Task → Option Task → Type 0
Progress ts b after = Downed b after ⊎ ((t : Task) × In t ts × (b ≡ some t) × (after ≡ some t))

Downed-id :
    (b : Option Task) (u : Task) → Downed b (some u) → (t : Task) × (b ≡ some t) × (t.id ≡ u.id)
Downed-id none u h = cc h
Downed-id (some t) u (inl (d, e)) = (t, refl, ap (λ (x : Task). x.id) (let s : t ≡ u = cc in s))
Downed-id (some t) u (inr (d, z, e)) =
    (t, refl, ap (λ (x : Task). x.id) (let s : mark_completed z t ≡ u = cc in s))

module _ {p : Parts} (laws : StoreLaws p.tasks) (reliable : IsReliable p.tasks)
    (obliging : IsObliging p.docker) (before : String → Option Task)
    (keyed : (k : String) (t : Task) → before k ≡ some t → p.uuid_string t.id ≡ k) where
  abbrev Underway : List Task → Worker p → Type 0
  Underway ts w = (k : String) → Progress ts (before k) (stored laws reliable w k)

  Underway-IsKeyed : (ts : List Task) (w : Worker p) → Underway ts w → IsKeyed laws reliable w
  Underway-IsKeyed ts w under k u e = elim (under k) [
    | inl d ↦
        let (t, b, same) = Downed-id (before k) u (subst (Downed (before k)) e d) in
        ap p.uuid_string (sym same) ∙ keyed k t b
    | inr (t, m, b, a) ↦
        let same : t ≡ u = cc in ap (λ (x : Task). p.uuid_string x.id) (sym same) ∙ keyed k t b
  ]

  skip-Underway :
      (t : Task) (ts : List Task) (w : Worker p) → IsDown t → Underway (t ∷ ts) w → Underway ts w
  skip-Underway t ts w down under k = elim (under k) [
    | inl d ↦ inl d
    | inr (u, inr m, b, a) ↦ inr (u, m, b, a)
    | inr (u, inl same, b, a) ↦
        inl (
          subst (λ o. Downed o (stored laws reliable w k)) (sym b)
            (inl (subst IsDown same down, a)))
  ]

  -- What is stored under the key of a task that is stopped now.
  stored-due :
      (t : Task) (ts : List Task) (w : Worker p) (z : Time)
      → (¬ (IsDown t))
      → before (p.uuid_string t.id) ≡ some t
      → Underway ts w
      → (u : Task) × (stored laws reliable w (p.uuid_string t.id) ≡ some u)
        × (mark_completed z u ≡ mark_completed z t)
  stored-due t ts w z up listed under = elim (under (p.uuid_string t.id)) [
    | inr (u, m, b, a) ↦ let same : u ≡ t = cc in (u, a, ap (mark_completed z) same)
    | inl d ↦ elim (subst (λ o. Downed o (stored laws reliable w (p.uuid_string t.id))) listed d) [
      | inl (down, e) ↦ absurd (up down)
      | inr (n, y, e) ↦ (mark_completed y t, e, refl)
    ]
  ]

  stop-Underway :
      (t : Task) (ts : List Task) (w : Worker p) (z : Time)
      → (¬ (IsDown t))
      → before (p.uuid_string t.id) ≡ some t
      → Underway (t ∷ ts) w
      → Underway ts (upsert_task (record t { state = completed }) (mark_completed z) w)
  stop-Underway t ts w z up listed under k =
      let view =
        stored-upsert_task laws reliable (record t { state = completed }) (mark_completed z) w k
          (Underway-IsKeyed (t ∷ ts) w under) (λ x. refl) in
      let (u, now, same) = stored-due t (t ∷ ts) w z up listed under in
      elim (Bool-cases (str_eq (p.uuid_string t.id) k)) [
        | inl q ↦
            let key : p.uuid_string t.id ≡ k = (str_eq_iff (p.uuid_string t.id) k).0 q in
            let after = view ∙ (rw (q, now) (ap some same)) in
            inl (
              subst
                (λ o. Downed o (
                  stored laws reliable
                    (upsert_task (record t { state = completed }) (mark_completed z) w) k))
                (sym (ap before (sym key) ∙ listed)) (inr (up, z, after)))
        | inr q ↦
            let after : stored laws reliable
                  (upsert_task (record t { state = completed }) (mark_completed z) w) k
                ≡ stored laws reliable w k =
              view ∙ (rw q refl) in
            subst (Progress ts (before k)) (sym after) (elim (under k) [
              | inl d ↦ inl d
              | inr (x, inr m, b, a) ↦ inr (x, m, b, a)
              | inr (x, inl e, b, a) ↦
                  let key : p.uuid_string t.id ≡ k =
                    ap (λ (y : Task). p.uuid_string y.id) e ∙ keyed k x b in
                  absurd (cc (q, (str_eq_iff (p.uuid_string t.id) k).1 key))
            ])
      ]

  stop_one-Underway :
      (z : Time) (t : Task) (ts : List Task) (world : World p)
      → before (p.uuid_string t.id) ≡ some t
      → Underway (t ∷ ts) world.worker
      → Underway ts (stop_one z t world).worker
  unfolding stop_one
  stop_one-Underway z t ts world listed under =
      elim (Bool-cases (str_eq t.container_id "" || state_eq t.state completed)) [
        | inl down ↦ rw (down, stop_one) (skip-Underway t ts world.worker down under)
        | inr up ↦
            let worker = stop_task-obliged z (record t { state = completed }) world obliging in
            rw (up, stop_one)
              (subst (Underway ts) (sym worker)
                (stop-Underway t ts world.worker z (λ d. cc (d, up)) listed under))
      ]

  stop_each-Underway :
      (at : ℕ → Time) (i : ℕ) (ts : List Task) (world : World p)
      → ((t : Task) → In t ts → before (p.uuid_string t.id) ≡ some t)
      → Underway ts world.worker
      → Underway [] (stop_each at i ts world).worker
  unfolding stop_each stop_one
  stop_each-Underway at i [] world listed under = under
  stop_each-Underway at i (t ∷ ts) world listed under =
      stop_each-Underway at (suc i) ts (stop_one (at i) t world) (λ u m. listed u (inr m))
        (stop_one-Underway (at i) t ts world (listed t (inl refl)) under)

module _ {p : Parts} (laws : StoreLaws p.tasks) (reliable : IsReliable p.tasks) where
  -- With a reliable store in a sound state, every task under its own uuid, and a daemon that does as
  -- it is told: when `Shutdown` comes to close the store, every stored task that has a container and
  -- was not completed is completed, every other one is as it was, and no other task is stored.
  pub stop_all-Downed :
      (at : ℕ → Time) (world : World p)
      → IsObliging p.docker
      → laws.IsSound world.worker.db
      → IsKeyed laws reliable world.worker
      → (k : String)
      → Downed
          (stored laws reliable world.worker k)
          (stored laws reliable (stop_all at world).worker k)
  unfolding stop_all get_tasks list_tasks
  stop_all-Downed at world obliging sound keyed k =
      let (ts, e) = reliable.list_ok world.worker.db in
      let before : String → Option Task = stored laws reliable world.worker in
      let listed = λ (t : Task) (m : In t ts).
        let (j, there) = laws.list_stored ts world.worker.db sound e t m in
        ap before (keyed j t there) ∙ there in
      let done =
        stop_each-Underway laws reliable obliging before keyed at 0 ts world listed
          (λ j. start before ts j (λ t b. laws.list_complete ts world.worker.db e j t b)) k in
      rw (e, stop_all) (elim done [ inl d ↦ d | inr (t, m, b, a) ↦ absurd m ])
    where
      start :
          (before : String → Option Task) (ts : List Task) (j : String)
          → ((t : Task) → before j ≡ some t → In t ts)
          → Progress ts (before j) (before j)
      start before ts j all = elim (Option-cases (before j)) [
        | inl b ↦ inl (subst (λ o. Downed o o) (sym b) refl)
        | inr (t, b) ↦ inr (t, all t b, b, b)
      ]
