-- ===== src/Scheduler/MarginalCost.antt =====
-- internal/scheduler/marginalcost.go and the cost formula of pure.go. A node is scored in a
-- goroutine of its own, and the goroutines end in any order.
use task_orchestrator.Prelude.{
  ℕ, Bool, true, false, not, Option, none, some, List, [], ◌∷◌, ◌++◌, String, length, get_elem?,
  set, replicate, keep_somes, ◌==◌, if◌then◌else◌,
}
use task_orchestrator.Prelude.Int.{ℤ, pos, leb_ℤ, ◌-64◌}
use task_orchestrator.Errors.{Error, foreign, join, Result, ok, err, ◌>>=◌, or_wrap, or_origin}
use task_orchestrator.Float64.{Float64}
use task_orchestrator.Node.{Node}
use task_orchestrator.Stats.{Stats, mem_total_kb, mem_used_kb, cpu_usage}
use task_orchestrator.Task.{Task}
use task_orchestrator.Scheduler.{ScoredNode, lowest_scoring_node}

unfoldable pub has_disk_room : ℤ → ℤ → ℤ → Bool
has_disk_room task_disk node_disk node_disk_allocated =
    leb_ℤ task_disk (node_disk -64 node_disk_allocated)

unfoldable pub select_candidate_nodes : Task → List Node → List Node
select_candidate_nodes t [] = []
select_candidate_nodes t (n ∷ ns) =
    let rest = select_candidate_nodes t ns in
    if not (has_disk_room t.disk n.disk n.disk_allocated) then rest else n ∷ rest

abbrev score_op : String
score_op = "scheduler.MarginalCostScheduler.Score"

module _ (fl : Float64) where
  unfoldable pub normalize_cpu_usage : fl.F → fl.F × Bool
  normalize_cpu_usage percent =
      if fl.lt percent (fl.of_int (pos 0))
      then (fl.of_int (pos 0), false)
      else (fl.div percent (fl.of_int (pos 100)), true)

  unfoldable pub calculate_load : fl.F → fl.F → fl.F
  calculate_load usage capacity = fl.div usage capacity

  unfoldable pub power_cost : fl.F → fl.F
  power_cost load = fl.pow fl.lieb load

  pub record NodeLoad : Type 0 where
    pub mem_used : fl.F
    pub mem_total : fl.F
    pub cpu_load : fl.F
    pub task_count : fl.F

  abbrev pub max_jobs_per_node : fl.F
  max_jobs_per_node = fl.of_int (pos 4)

  unfoldable pub node_score : NodeLoad → fl.F → Result fl.F
  unfolding calculate_load power_cost
  node_score l task_memory =
      let one = fl.of_int (pos 1) in
      let mem_now = calculate_load l.mem_used l.mem_total in
      let mem_new = calculate_load (fl.add l.mem_used task_memory) l.mem_total in
      let mem_cost = fl.sub (power_cost mem_new) (power_cost mem_now) in
      let job_cost =
        fl.sub (power_cost (fl.div (fl.add l.task_count one) max_jobs_per_node))
          (power_cost (fl.div l.task_count max_jobs_per_node)) in
      let cpu_cost = fl.sub (power_cost l.cpu_load) one in
      if fl.le l.mem_total (fl.of_int (pos 0))
      then err foreign
      else ok (fl.add (fl.add mem_cost job_cost) cpu_cost)

  -- An unknown reading counts as fully busy.
  unfoldable pub cpu_load : Stats fl.F → fl.F
  unfolding normalize_cpu_usage
  cpu_load stats =
      let (load, usable) = normalize_cpu_usage (cpu_usage stats) in
      if not usable then fl.of_int (pos 1) else load

  unfoldable pub load_of : Node → Stats fl.F → NodeLoad
  unfolding cpu_load
  load_of n stats = record {
    mem_used = fl.add (fl.of_uint (mem_used_kb stats)) (fl.of_int n.memory_allocated);
    mem_total = fl.of_uint (mem_total_kb stats);
    cpu_load = cpu_load stats;
    task_count = fl.of_int stats.task_count;
  }

  -- What the goroutines share: a slot for each candidate, where `some` stands for a set flag in
  -- `scored`, and the stream of errors.
  pub record Shared : Type 0 where
    pub results : List (Option (ScoredNode fl.F))
    pub errs : List Error

  module _ (fetch : Node → Result (Stats fl.F)) (t : Task) where
    -- The body of a goroutine: a score or an error.
    unfoldable pub score_node : Node → Result fl.F
    unfolding load_of node_score
    score_node n = do
      stats ← or_wrap score_op (fetch n)
      or_origin score_op (node_score (load_of n stats) (fl.of_int t.memory))

    -- The goroutine of candidate i leaves what it found.
    unfoldable pub finish : List Node → Shared → ℕ → Shared
    finish candidates sh i = elim (get_elem? candidates i) [
      | none ↦ sh
      | some n ↦ elim (score_node n) [
        | err e ↦ record sh { errs = sh.errs ++ e ∷ [] }
        | ok score ↦ record sh {
          results = set sh.results i (some (record { node = n; score = score }));
        }
      ]
    ]

    unfoldable pub run : List Node → Shared → List ℕ → Shared
    run candidates sh [] = sh
    run candidates sh (i ∷ order) = run candidates (finish candidates sh i) order

    -- What `Score` makes of the slots and the errors after `wg.Wait()`.
    unfoldable pub collect : Shared → Result (List (ScoredNode fl.F))
    collect sh = elim sh.errs [
      | [] ↦ ok (keep_somes sh.results)
      | e ∷ es ↦
          if length (keep_somes sh.results) == 0
          then err (join e es)
          else ok (keep_somes sh.results)
    ]

    -- `order` is the order in which the goroutines end.
    unfoldable pub score : List Node → List ℕ → Result (List (ScoredNode fl.F))
    unfolding run collect
    score candidates order =
        let start : Shared = record { results = replicate (length candidates) none; errs = [] } in
        collect (run candidates start order)

  unfoldable pub pick : List (ScoredNode fl.F) → Node
  unfolding lowest_scoring_node
  pick scored = (lowest_scoring_node fl scored).0
