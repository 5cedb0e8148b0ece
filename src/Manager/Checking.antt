-- ===== src/Manager/Checking.antt =====
-- internal/manager/manager.go: `DoHealthChecks` among the other goroutines, which act between any two
-- locked calls that a pass makes.
use task_orchestrator.Prelude.{ℕ, ◌≤◌, ◌≡◌, ◌⊎◌, some, List, [], ◌∷◌, String}
use task_orchestrator.Prelude.Int.{ℤ, pos}
use task_orchestrator.Errors.{ok}
use task_orchestrator.Store.{StoreLaws}
use task_orchestrator.Task.{Task}
use task_orchestrator.Manager.{Parts, Manager}
use task_orchestrator.Manager.Pure.{action_check, action_restart, decide_health_action}
use task_orchestrator.Manager.State.{begin_restart}
use task_orchestrator.Manager.Send.{get_tasks}
use task_orchestrator.Manager.Reports.{stored}

-- A restart count from zero up to the limit.
abbrev pub IsWithinLimit : ℤ → Type 0
IsWithinLimit c = (n : ℕ) × (c ≡ pos n) × (n ≤ 3)

-- One restart count is at most another, both from zero on.
abbrev pub AtMost : ℤ → ℤ → Type 0
AtMost c d = (n m : ℕ) × (c ≡ pos n) × (d ≡ pos m) × (n ≤ m)

module _ {p : Parts} (laws : StoreLaws p.tasks) where
  -- The store is sound, and each task is stored under its own uuid with a restart count within the
  -- limit.
  abbrev pub IsWithin : Manager p → Type 0
  IsWithin m =
      laws.IsSound m.task_db
      × ((k : String) (t : Task)
          → stored laws m k ≡ some t
          → (p.uuid_string t.id ≡ k) × IsWithinLimit t.restart_count)

  -- What the other goroutines do while a pass runs: the tasks that are stored stay, with counts that
  -- do not rise, and a new one comes with a count within the limit, each under its own uuid.
  abbrev pub RaisesNone : Manager p → Manager p → Type 0
  RaisesNone m u =
      laws.IsSound u.task_db
      × ((k : String) (s : Task)
          → stored laws m k ≡ some s
          → (t : Task) × (stored laws u k ≡ some t) × AtMost t.restart_count s.restart_count)
      × ((k : String) (t : Task)
          → stored laws u k ≡ some t
          → (p.uuid_string t.id ≡ k)
            × (((s : Task) × (stored laws m k ≡ some s)) ⊎ IsWithinLimit t.restart_count))

-- The manager, and the tasks that the pass has listed and not handled yet.
pub record Checking (p : Parts) : Type 0 where
  pub manager : Manager p
  pub todo : List Task

-- A pass lists the tasks; it is done with one, as it is skipped, or healthy, or cannot be restarted;
-- it writes the restart of one that `decideHealthAction` has checked or restarted; or other
-- goroutines act, and raise no count.
pub data Tick {p : Parts} (laws : StoreLaws p.tasks) (c : Checking p) : Checking p → Type 0 where
  lists :
      (ts : List Task)
      → c.todo ≡ []
      → get_tasks c.manager ≡ ok ts
      → Tick laws c (record c { todo = ts })
  passes : (t : Task) (ts : List Task) → c.todo ≡ t ∷ ts → Tick laws c (record c { todo = ts })
  begins :
      (t : Task) (ts : List Task)
      → c.todo ≡ t ∷ ts
      → (decide_health_action t ≡ action_check) ⊎ (decide_health_action t ≡ action_restart)
      → Tick laws c (record { manager = (begin_restart t.id c.manager).0; todo = ts })
  others : (u : Manager p) → RaisesNone laws c.manager u → Tick laws c (record c { manager = u })

pub data Ticks {p : Parts} (laws : StoreLaws p.tasks) (c : Checking p) : Checking p → Type 0 where
  none_yet : Ticks laws c c
  and_then : {mid d : Checking p} → Ticks laws c mid → Tick laws mid d → Ticks laws c d
