-- ===== src/Manager/Pass.antt =====
-- One pass of the health checks over all tasks.
use task_orchestrator.Prelude.{
  arith, ℕ, suc, ◌≡◌, refl, sym, ap, ◌∙◌, ◌≢◌, ◌⊎◌, inl, inr, none, some, List, [], ◌∷◌, String,
  All, DistinctBy, In, Option-cases,
}
use task_orchestrator.Errors.{ok}
use task_orchestrator.Store.{StoreLaws}
use task_orchestrator.Task.{Task, Uuid, PortMap, PortBinding}
use task_orchestrator.Manager.{Parts, Manager, Net}
use task_orchestrator.Manager.Pure.{get_host_port, panics}
use task_orchestrator.Manager.Send.{get_tasks}
use task_orchestrator.Manager.Health.{
  Moment, check_task_health, probe_panics, probe_url, check_one, check_each, do_health_checks,
}
use task_orchestrator.Manager.Reports.{stored}
use task_orchestrator.Manager.Budget.{MayRestart, restarted, RestartsOnly, check_one-RestartsOnly}

-- No two tasks of a snapshot have the same key.
abbrev pub DistinctKeys : (Uuid → String) → List Task → Type 0
DistinctKeys key ts = DistinctBy (λ (t : Task). key t.id) ts

-- Every port that the task publishes has a binding, as Docker reports the ports of a container that
-- runs: a task that publishes none qualifies.
abbrev pub HasBinding : Task → Type 0
HasBinding t =
    (ports : List (String × List PortBinding))
    → t.host_ports ≡ some ports
    → All (λ (e : String × List PortBinding). e.1 ≢ []) ports

get_host_port-ne_panics :
    (ports : PortMap)
    → ((entries : List (String × List PortBinding))
        → ports ≡ some entries
        → All (λ (e : String × List PortBinding). e.1 ≢ []) entries)
    → get_host_port ports ≢ panics
unfolding get_host_port
get_host_port-ne_panics none bound e = cc
get_host_port-ne_panics (some []) bound e = cc
get_host_port-ne_panics (some ((k, []) ∷ rest)) bound e = (bound ((k, []) ∷ rest) refl).0 refl
get_host_port-ne_panics (some ((k, b ∷ bs) ∷ rest)) bound e = cc

module _ {p : Parts} where
  check_task_health-ne_panics :
      (t : Task) (net : Net) (m : Manager p)
      → HasBinding t
      → check_task_health t net m ≢ probe_panics
  unfolding check_task_health probe_url
  check_task_health-ne_panics t net m h e = ground (arith, get_host_port-ne_panics t.host_ports h)

  check_one-total :
      (at : Moment) (t : Task) (m : Manager p)
      → HasBinding t
      → (after : Manager p) × (check_one at t m ≡ some after)
  unfolding check_one
  check_one-total at t m h = elim (Option-cases (check_one at t m)) [
    | inr found ↦ found
    | inl e ↦ absurd (ground (arith, check_task_health-ne_panics t at.net m h))
  ]

  check_each-total :
      (at : ℕ → Moment) (i : ℕ) (ts : List Task) (m : Manager p)
      → All HasBinding ts
      → (after : Manager p) × (check_each at i ts m ≡ some after)
  unfolding check_each
  check_each-total at i [] m h = (m, refl)
  check_each-total at i (t ∷ ts) m h =
      let (next, q) = check_one-total (at i) t m h.0 in
      let (after, r) = check_each-total at (suc i) ts next h.1 in (after, rw (q, check_each) r)

  -- Whatever the network answers: a pass of the health checks ends without a panic, if each task
  -- that it lists publishes no port, or only ports that have a binding each.
  pub do_health_checks-total :
      (at : ℕ → Moment) (m : Manager p) (ts : List Task)
      → get_tasks m ≡ ok ts
      → All HasBinding ts
      → (after : Manager p) × (do_health_checks at m ≡ some after)
  unfolding do_health_checks
  do_health_checks-total at m ts g h =
      let (after, r) = check_each-total at 0 ts m h in (after, rw (g, do_health_checks) r)

module _ {p : Parts} (laws : StoreLaws p.tasks) where
  -- Every task of a snapshot is stored as it is there, under its uuid.
  abbrev pub AllStored : Manager p → List Task → Type 0
  AllStored m ts = All (λ t. stored laws m (p.uuid_string t.id) ≡ some t) ts

  -- A task of the snapshot that may be restarted was, once.
  abbrev pub RestartedOnce : List Task → Manager p → String → Type 0
  RestartedOnce ts after k =
      (t : Task) × In t ts
      × MayRestart t
      × (p.uuid_string t.id ≡ k)
      × (stored laws after k ≡ some (restarted t))

  kept-AllStored :
      (t : Task) (m after : Manager p) (ts : List Task)
      → RestartsOnly laws t m after
      → All (λ s. p.uuid_string t.id ≢ p.uuid_string s.id) ts
      → AllStored m ts
      → AllStored after ts
  kept-AllStored t m after [] r d h = tt
  kept-AllStored t m after (s ∷ ts) r d h = (here, kept-AllStored t m after ts r d.1 h.1)
    where
      here : stored laws after (p.uuid_string s.id) ≡ some s
      here = elim (r (p.uuid_string s.id)) [
        | inl e ↦ e ∙ h.0
        | inr (may, key, e) ↦ absurd (d.0 key)
      ]

  check_each-RestartedOnce :
      (at : ℕ → Moment) (i : ℕ) (ts : List Task) (m after : Manager p)
      → AllStored m ts
      → DistinctKeys p.uuid_string ts
      → check_each at i ts m ≡ some after
      → (k : String) → (stored laws after k ≡ stored laws m k) ⊎ RestartedOnce ts after k
  unfolding check_each
  check_each-RestartedOnce at i [] m after h d e k =
      let same : m ≡ after = cc e in inl (ap (λ (n : Manager p). stored laws n k) (sym same))
  check_each-RestartedOnce at i (t ∷ ts) m after h d e k =
      elim (Option-cases (check_one (at i) t m)) [
        | inl q ↦ cc (rw (q, check_each) at e)
        | inr (next, q) ↦
            let only = check_one-RestartsOnly laws (at i) t m next h.0 q in
            let rest =
              check_each-RestartedOnce at (suc i) ts next after
                (kept-AllStored t m next ts only d.0 h.1) d.1 (rw (q, check_each) at e) k in
            elim rest [
              | inr (s, at_s, may, key, r) ↦ inr (s, inr at_s, may, key, r)
              | inl same ↦ elim (only k) [
                | inl r ↦ inl (same ∙ r)
                | inr (may, key, r) ↦ inr (t, inl refl, may, key, same ∙ r)
              ]
            ]
      ]

  -- Whatever the network answers, and whether writes fail or not: when the tasks that a pass of
  -- the health checks lists are the stored ones, each under its own key, and the pass does not
  -- panic, then under every key the pass changes nothing, or it restarts a listed task once, which
  -- was running or failed with a restart count below the limit of three.
  pub do_health_checks-RestartedOnce :
      (at : ℕ → Moment) (m after : Manager p) (ts : List Task)
      → get_tasks m ≡ ok ts
      → AllStored m ts
      → DistinctKeys p.uuid_string ts
      → do_health_checks at m ≡ some after
      → (k : String) → (stored laws after k ≡ stored laws m k) ⊎ RestartedOnce ts after k
  unfolding do_health_checks
  do_health_checks-RestartedOnce at m after ts g h d e k =
      check_each-RestartedOnce at 0 ts m after h d (rw (g, do_health_checks) at e) k
