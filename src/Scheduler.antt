-- ===== src/Scheduler.antt =====
-- internal/scheduler/scheduler.go, pure.go and roundrobin.go: scored nodes, how a winner is picked,
-- and the round-robin scheduler.
pub mod Cursor
pub mod Pick
pub mod Turns
pub mod MarginalCost
pub mod Slots
pub mod Interface
pub mod Offers
use task_orchestrator.Prelude.{
  ℕ, suc, ◌+◌, Bool, true, false, List, [], ◌∷◌, String, length, ◌==◌, if◌then◌else◌,
}
use task_orchestrator.Prelude.Int.{ℤ, pos, negsuc, ◌+64◌, rem, leb_ℤ, ltb_ℤ, pos_part, neg_part}
use task_orchestrator.Float64.{Float64}
use task_orchestrator.Node.{Node, zero_node}
use task_orchestrator.Task.{Task}

pub record ScoredNode (F : Type 0) : Type 0 where
  pub node : Node
  pub score : F

-- `if next < 0 { next += nodeCount }`
unfoldable pub wrap_negative : ℤ → ℤ → ℤ
wrap_negative next node_count = if ltb_ℤ next (pos 0) then next +64 node_count else next

unfoldable pub next_worker_index : ℤ → ℤ → ℤ
next_worker_index last_worker node_count =
    if leb_ℤ node_count (pos 0)
    then negsuc 0
    else wrap_negative (rem (last_worker +64 pos 1) node_count) node_count

-- An `int` used as an index equals the index i.
abbrev pub is_index : ℤ → ℕ → Bool
is_index (pos n) i = n == i
is_index (negsuc n) i = false

module _ (fl : Float64) where
  -- The loop of `scoreNodes` from index idx on.
  score_nodes_from : ℕ → List Node → ℤ → List (ScoredNode fl.F)
  score_nodes_from idx [] selected = []
  score_nodes_from idx (n ∷ ns) selected =
      let score = if is_index selected idx then fl.of_int (pos 1) else fl.of_int (pos 0) in
      record { node = n; score = score } ∷ score_nodes_from (suc idx) ns selected

  unfoldable pub score_nodes : List Node → ℤ → List (ScoredNode fl.F)
  unfolding score_nodes_from
  score_nodes nodes selected = score_nodes_from 0 nodes selected

  -- `for _, s := range scored[1:]`, with the test that makes s the new best.
  unfoldable pub best_of :
      (fl.F → fl.F → Bool) → ScoredNode fl.F → List (ScoredNode fl.F) → ScoredNode fl.F
  best_of beats best [] = best
  best_of beats best (s ∷ ss) = best_of beats (if beats s.score best.score then s else best) ss

  unfoldable pub highest_scoring_node : List (ScoredNode fl.F) → Node × Bool
  unfolding best_of
  highest_scoring_node [] = (zero_node, false)
  highest_scoring_node (s ∷ ss) = ((best_of (λ a b. fl.lt b a) s ss).node, true)

  unfoldable pub lowest_scoring_node : List (ScoredNode fl.F) → Node × Bool
  unfolding best_of
  lowest_scoring_node [] = (zero_node, false)
  lowest_scoring_node (s ∷ ss) = ((best_of fl.lt s ss).node, true)

-- The scheduler's state is its cursor.
pub record RoundRobinScheduler : Type 0 where
  pub name : String
  pub last_worker : ℤ

unfoldable pub select_candidate_nodes : Task → List Node → List Node
select_candidate_nodes t nodes = nodes

module _ (fl : Float64) where
  -- `Score`, whose error is always nil.
  unfoldable pub score :
      RoundRobinScheduler → Task → List Node → RoundRobinScheduler × List (ScoredNode fl.F)
  score r t nodes =
      let next = next_worker_index r.last_worker (pos (length nodes)) in
      if ltb_ℤ next (pos 0)
      then (r, [])
      else (record r { last_worker = next }, score_nodes fl nodes next)

  unfoldable pub pick : List (ScoredNode fl.F) → Node
  unfolding highest_scoring_node
  pick scored = (highest_scoring_node fl scored).0
