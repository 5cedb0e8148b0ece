-- ===== src/Examples/Scheduling.antt =====
-- The theorems on the schedulers, on two nodes.
use task_orchestrator.Prelude.{
  ℕ, suc, ◌≡◌, ◌≢◌, refl, ap, inl, ◌<◌, some, [], ◌∷◌, zero, str_eq, if◌then◌else◌, true, arith, In,
  get_elem?, length,
}
use task_orchestrator.Prelude.Slices.{contains}
use task_orchestrator.Prelude.Assoc.{ℕ-Eq}
use task_orchestrator.Prelude.Int.{pos}
use task_orchestrator.Errors.{foreign, Result, ok, err}
use task_orchestrator.Node.{Node}
use task_orchestrator.Stats.{Stats, mem_total_kb}
use task_orchestrator.Task.{scheduled}
use task_orchestrator.Scheduler.{ScoredNode, RoundRobinScheduler, score, pick}
use task_orchestrator.Scheduler.MarginalCost
use task_orchestrator.Scheduler.MarginalCost.{select_candidate_nodes, has_disk_room}
use task_orchestrator.Scheduler.Turns.{turn_after, after_scores, pick-turn_after}
use task_orchestrator.Scheduler.Slots.{slot, scored_of, score-order}
use task_orchestrator.Scheduler.Interface.{
  Pass, SchedulerLaws, Chosen, round_robin, round_robin_name, get_scheduler,
}
use task_orchestrator.Scheduler.Offers.{get_scheduler-SchedulerLaws}
use task_orchestrator.Examples.{whole, whole-FloatOrder, job, nodes, first_node}

-- The cursor stands on the second of two nodes, so that it wraps round.
abbrev on_second : RoundRobinScheduler
on_second = record { name = "round-robin"; last_worker = pos 1 }

pick-turn_after_example :
    get_elem? nodes (turn_after 1 2 2)
    ≡ some (
        pick whole
          (score whole
            (after_scores whole 2 on_second (job 7 scheduled) nodes)
            (job 7 scheduled)
            nodes).1)
pick-turn_after_example =
    pick-turn_after whole whole-FloatOrder refl 2 1 on_second (job 7 scheduled) nodes refl
      (omega arith) (omega arith)

abbrev scored : ℕ → Node → ScoredNode ℕ
scored s n = record { node = n; score = s }

-- The first node's statistics arrive, and those of no other node.
abbrev readings : Stats ℕ
readings = record {
  mem_stats = record { total = 8; available = 4 };
  disk_stats = record { total = 8; free = 4; used = 4 };
  load_stats = record { load1 = 0; load5 = 0; load15 = 0 };
  cpu_usage_percentage = 1;
  task_count = pos 0;
}

abbrev only_first : Node → Result (Stats ℕ)
only_first n = if str_eq n.name "first" then ok readings else err foreign

abbrev no_stats : Node → Result (Stats ℕ)
no_stats n = err foreign

-- Both goroutines end, the second first.
both_end : (i : ℕ) → i < 2 → contains (1 ∷ 0 ∷ []) i ≡ true
unfolding contains
both_end zero h = refl
both_end (suc zero) h = refl
both_end (suc (suc i)) h = absurd (omega arith)

one_scored : length (scored_of whole only_first (job 7 scheduled) nodes nodes) ≡ 1
unfolding scored_of slot MarginalCost.score_node MarginalCost.node_score MarginalCost.load_of
    mem_total_kb
one_scored = refl

first_scores : scored_of whole only_first (job 7 scheduled) nodes nodes ≢ []
first_scores e = omega (arith, one_scored, ap length e)

none_scores : scored_of whole no_stats (job 7 scheduled) nodes nodes ≡ []
unfolding scored_of slot MarginalCost.score_node
none_scores = refl

score-order_example :
    MarginalCost.score whole only_first (job 7 scheduled) nodes (1 ∷ 0 ∷ [])
    ≡ ok (scored_of whole only_first (job 7 scheduled) nodes nodes)
score-order_example =
    score-order whole only_first (job 7 scheduled) nodes (1 ∷ 0 ∷ []) both_end first_scores

abbrev passes : ℕ → Pass whole
passes k = record { fetch = no_stats; order = λ n. [] }

abbrev chosen : Chosen whole
chosen = record {
  scheduler = round_robin whole;
  state = record { name = round_robin_name; last_worker = pos 0 };
}

asked : get_scheduler whole passes "round-robin" ≡ ok chosen
unfolding get_scheduler
asked = refl

get_scheduler-SchedulerLaws_example : SchedulerLaws (round_robin whole)
get_scheduler-SchedulerLaws_example =
    get_scheduler-SchedulerLaws whole passes "round-robin" chosen asked

first_selected : In first_node (select_candidate_nodes (job 7 scheduled) nodes)
unfolding select_candidate_nodes has_disk_room
first_selected = inl refl
