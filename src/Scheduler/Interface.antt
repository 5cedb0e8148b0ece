-- ===== src/Scheduler/Interface.antt =====
-- The interface `Scheduler` of internal/scheduler/scheduler.go, what a client relies on, and
-- `GetScheduler`.
use task_orchestrator.Prelude.{
  ℕ, suc, ◌≡◌, ◌≢◌, List, [], String, str_eq, length, if◌then◌else◌, In,
}
use task_orchestrator.Prelude.Int.{pos}
use task_orchestrator.Errors.{foreign, Result, ok, err}
use task_orchestrator.Float64.{Float64}
use task_orchestrator.Node.{Node}
use task_orchestrator.Stats.{Stats}
use task_orchestrator.Task.{Task}
use task_orchestrator.Scheduler.{ScoredNode, RoundRobinScheduler}
use task_orchestrator.Scheduler as RoundRobin
use task_orchestrator.Scheduler.MarginalCost

-- A scheduler with the state that its mutex guards.
pub record Scheduler (fl : Float64) : Type 1 where
  pub S : Type 0
  pub select_candidate_nodes : Task → List Node → List Node
  pub score : S → Task → List Node → S × Result (List (ScoredNode fl.F))
  pub pick : List (ScoredNode fl.F) → Node

-- A scheduler that the manager holds: the implementation with its state.
pub record Chosen (fl : Float64) : Type 1 where
  pub scheduler : Scheduler fl
  pub state : scheduler.S

-- Candidates, scored nodes and the winner come from the nodes that are offered.
pub record SchedulerLaws {fl : Float64} (s : Scheduler fl) : Type 0 where
  pub selects :
      (t : Task) (ns : List Node) (n : Node) → In n (s.select_candidate_nodes t ns) → In n ns
  pub scores :
      (st : s.S) (t : Task) (ns : List Node) (scored : List (ScoredNode fl.F))
      → (s.score st t ns).1 ≡ ok scored
      → (x : ScoredNode fl.F) → In x scored
      → In x.node ns
  pub picks :
      (scored : List (ScoredNode fl.F))
      → scored ≢ []
      → (x : ScoredNode fl.F) × In x scored × (s.pick scored ≡ x.node)

-- What the network and the runtime bring to one scoring pass of the marginal-cost scheduler: the
-- statistics of each node, and the order in which the goroutines end.
pub record Pass (fl : Float64) : Type 0 where
  pub fetch : Node → Result (Stats fl.F)
  pub order : ℕ → List ℕ

abbrev pub round_robin_name : String
round_robin_name = "round-robin"

abbrev pub marginal_cost_name : String
marginal_cost_name = "marginal-cost"

module _ (fl : Float64) where
  abbrev pub round_robin : Scheduler fl
  round_robin = record {
    S = RoundRobinScheduler;
    select_candidate_nodes = RoundRobin.select_candidate_nodes;
    score = λ r t ns. ((RoundRobin.score fl r t ns).0, ok (RoundRobin.score fl r t ns).1);
    pick = RoundRobin.pick fl;
  }

  -- The state counts the passes, of which each has its own surroundings.
  abbrev pub marginal_cost : (ℕ → Pass fl) → Scheduler fl
  marginal_cost pass = record {
    S = ℕ;
    select_candidate_nodes = MarginalCost.select_candidate_nodes;
    score =
        λ k t ns. (suc k, MarginalCost.score fl (pass k).fetch t ns ((pass k).order (length ns)));
    pick = MarginalCost.pick fl;
  }

  unfoldable pub get_scheduler : (ℕ → Pass fl) → String → Result (Chosen fl)
  get_scheduler pass scheduler_type =
      if str_eq scheduler_type marginal_cost_name
      then ok (record { scheduler = marginal_cost pass; state = 0 })
      else if str_eq scheduler_type round_robin_name
      then ok (record {
        scheduler = round_robin;
        state = record { name = round_robin_name; last_worker = pos 0 };
      })
      else err foreign
