-- ===== src/Scheduler/Offers.antt =====
-- internal/scheduler/scheduler.go: the schedulers that `GetScheduler` returns, and their contract.
use task_orchestrator.Prelude.{
  ℕ, zero, suc, ◌≡◌, refl, ap, sym, subst, ◌∙◌, ◌≢◌, ◌⊎◌, inl, inr, Bool, true, Option, none, some,
  List, [], ◌∷◌, String, str_eq, arith, length, get_elem?, set, replicate, keep_somes, In,
  Bool-cases, Option-cases,
}
use task_orchestrator.Prelude.Int.{ℤ, pos, ltb_ℤ}
use task_orchestrator.Errors.{ok_inj, err-ne-ok, Result, ok, err}
use task_orchestrator.Float64.{Float64}
use task_orchestrator.Node.{Node}
use task_orchestrator.Stats.{Stats}
use task_orchestrator.Task.{Task}
use task_orchestrator.Scheduler.{
  ScoredNode, best_of, score_nodes_from, score_nodes, highest_scoring_node, lowest_scoring_node,
  next_worker_index, RoundRobinScheduler,
}
use task_orchestrator.Scheduler as RoundRobin
use task_orchestrator.Scheduler.MarginalCost
use task_orchestrator.Scheduler.MarginalCost.{Shared, finish, run, collect}
use task_orchestrator.Scheduler.Slots.{step-results, step-results_none, node-slot}
use task_orchestrator.Scheduler.Interface.{
  SchedulerLaws, Chosen, Pass, round_robin, marginal_cost, marginal_cost_name, round_robin_name,
  get_scheduler,
}

module _ (fl : Float64) where
  In-best_of :
      (beats : fl.F → fl.F → Bool) (b x : ScoredNode fl.F) (ss : List (ScoredNode fl.F))
      → best_of fl beats b ss ≡ x
      → In x (b ∷ ss)
  unfolding best_of
  In-best_of beats b x [] h = inl h
  In-best_of beats b x (s ∷ ss) h = elim (Bool-cases (beats s.score b.score)) [
    | inl e ↦ inr (In-best_of beats s x ss (rw e at h))
    | inr e ↦ elim (In-best_of beats b x ss (rw e at h)) [ inl q ↦ inl q | inr q ↦ inr (inr q) ]
  ]

  In-score_nodes_from :
      (i : ℕ) (ns : List Node) (selected : ℤ) (x : ScoredNode fl.F)
      → In x (score_nodes_from fl i ns selected)
      → In x.node ns
  unfolding score_nodes_from
  In-score_nodes_from i [] selected x h = h
  In-score_nodes_from i (n ∷ ns) selected x (inl e) = inl (ap (λ s. s.node) e)
  In-score_nodes_from i (n ∷ ns) selected x (inr h) =
      inr (In-score_nodes_from (suc i) ns selected x h)

  In-score :
      (r : RoundRobinScheduler) (t : Task) (ns : List Node) (x : ScoredNode fl.F)
      → In x (RoundRobin.score fl r t ns).1
      → In x.node ns
  unfolding RoundRobin.score score_nodes
  In-score r t ns x m =
      elim (Bool-cases (ltb_ℤ (next_worker_index r.last_worker (pos (length ns))) (pos 0))) [
        | inl e ↦ absurd (rw e at m)
        | inr e ↦ In-score_nodes_from 0 ns _ x (rw e at m)
      ]

  round_robin-SchedulerLaws : SchedulerLaws (round_robin fl)
  unfolding RoundRobin.select_candidate_nodes
  round_robin-SchedulerLaws = record {
    selects = λ t ns n h. h;
    scores = λ r t ns scored e x m. In-score r t ns x (subst (In x) (sym (ok_inj e)) m);
    picks = picks;
  }
    where
      picks :
          (scored : List (ScoredNode fl.F))
          → scored ≢ []
          → (x : ScoredNode fl.F) × In x scored × (RoundRobin.pick fl scored ≡ x.node)
      picks [] ne = absurd (ne refl)
      picks (s ∷ ss) ne =
          let beats : fl.F → fl.F → Bool = λ a b. fl.lt b a in
          (
            best_of fl beats s ss,
            In-best_of beats s _ ss refl,
            unfold RoundRobin.pick highest_scoring_node in refl,
          )

  In-get_elem? : {A : Type 0} (xs : List A) (i : ℕ) {x : A} → get_elem? xs i ≡ some x → In x xs
  In-get_elem? [] i e = cc
  In-get_elem? (x ∷ xs) zero e = inl (ground arith)
  In-get_elem? (x ∷ xs) (suc i) e = inr (In-get_elem? xs i e)

  -- A node that the marginal-cost scheduler selects was offered, and has room for the task on its
  -- disk.
  pub In-select_candidate_nodes :
      (t : Task) (ns : List Node) (n : Node)
      → In n (MarginalCost.select_candidate_nodes t ns)
      → In n ns × (MarginalCost.has_disk_room t.disk n.disk n.disk_allocated ≡ true)
  unfolding MarginalCost.select_candidate_nodes
  In-select_candidate_nodes t [] n h = absurd h
  In-select_candidate_nodes t (m ∷ ms) n h =
      elim (Bool-cases (MarginalCost.has_disk_room t.disk m.disk m.disk_allocated)) [
        | inl e ↦
            elim (let k : In n (m ∷ MarginalCost.select_candidate_nodes t ms) = rw e at h in k) [
              | inl q ↦ (inl q, ground arith)
              | inr q ↦ let (i, r) = In-select_candidate_nodes t ms n q in (inr i, r)
            ]
        | inr e ↦ let (i, r) = In-select_candidate_nodes t ms n (rw e at h) in (inr i, r)
      ]

  -- A slot is empty or holds one of the candidates.
  abbrev Holds : List Node → List (Option (ScoredNode fl.F)) → Type 0
  Holds ns rs = (x : ScoredNode fl.F) → In (some x) rs → In x.node ns

  In-set : {A : Type 0} (xs : List A) (i : ℕ) (v x : A) → In x (set xs i v) → (v ≡ x) ⊎ In x xs
  In-set [] i v x h = absurd h
  In-set (y ∷ ys) zero v x (inl e) = inl e
  In-set (y ∷ ys) zero v x (inr h) = inr (inr h)
  In-set (y ∷ ys) (suc i) v x (inl e) = inr (inl e)
  In-set (y ∷ ys) (suc i) v x (inr h) = elim (In-set ys i v x h) [
    | inl e ↦ inl e
    | inr m ↦ inr (inr m)
  ]

  In-keep_somes :
      (rs : List (Option (ScoredNode fl.F))) (x : ScoredNode fl.F)
      → In x (keep_somes rs)
      → In (some x) rs
  In-keep_somes [] x h = absurd h
  In-keep_somes (none ∷ rs) x h = inr (In-keep_somes rs x h)
  In-keep_somes (some y ∷ rs) x (inl e) = inl (ap some e)
  In-keep_somes (some y ∷ rs) x (inr h) = inr (In-keep_somes rs x h)

  not-In-replicate : (n : ℕ) (x : ScoredNode fl.F) → In (some x) (replicate n none) → ⊥
  not-In-replicate zero x h = h
  not-In-replicate (suc n) x (inl e) = cc
  not-In-replicate (suc n) x (inr h) = not-In-replicate n x h

  module _ (fetch : Node → Result (Stats fl.F)) (t : Task) (ns : List Node) where
    finish-Holds :
        (sh : Shared fl) (i : ℕ)
        → Holds ns sh.results
        → Holds ns (finish fl fetch t ns sh i).results
    finish-Holds sh i h x m = elim (Option-cases (get_elem? ns i)) [
      | inl e ↦ h x (
          subst (λ (s : Shared fl). In (some x) s.results) (step-results_none fl fetch t ns sh i e)
            m)
      | inr (n, e) ↦ elim (step-results fl fetch t ns sh i n e) [
        | inl (_, r) ↦ h x (subst (In (some x)) r m)
        | inr (s, q, r) ↦ elim (In-set sh.results i (some s) (some x) (subst (In (some x)) r m)) [
          | inl k ↦
              let same : s ≡ x = cc in
              let at : n ≡ x.node = node-slot fl fetch t ns n s q ∙ ap (λ y. y.node) same in
              subst (λ y. In y ns) at (In-get_elem? ns i e)
          | inr k ↦ h x k
        ]
      ]
    ]

    run-Holds :
        (order : List ℕ) (sh : Shared fl)
        → Holds ns sh.results
        → Holds ns (run fl fetch t ns sh order).results
    unfolding run
    run-Holds [] sh h = h
    run-Holds (i ∷ order) sh h = run-Holds order (finish fl fetch t ns sh i) (finish-Holds sh i h)

    In-score_marginal :
        (order : List ℕ) (scored : List (ScoredNode fl.F)) (x : ScoredNode fl.F)
        → MarginalCost.score fl fetch t ns order ≡ ok scored
        → In x scored
        → In x.node ns
    unfolding MarginalCost.score
    In-score_marginal order scored x e m =
        let start : Shared fl = record { results = replicate (length ns) none; errs = [] } in
        let out : Shared fl = run fl fetch t ns start order in
        run-Holds order start (λ y k. absurd (not-In-replicate (length ns) y k)) x
          (In-keep_somes out.results x (subst (In x) (sym (collected out scored e)) m))
      where
        collected :
            (sh : Shared fl) (scored : List (ScoredNode fl.F))
            → collect fl fetch t sh ≡ ok scored
            → keep_somes sh.results ≡ scored
        collected sh scored e = unfold collect in ground arith

  marginal_cost-SchedulerLaws : (pass : ℕ → Pass fl) → SchedulerLaws (marginal_cost fl pass)
  marginal_cost-SchedulerLaws pass = record {
    selects = λ t ns n h. (In-select_candidate_nodes t ns n h).0;
    scores = λ k t ns scored e x m. In-score_marginal (pass k).fetch t ns _ scored x e m;
    picks = picks;
  }
    where
      picks :
          (scored : List (ScoredNode fl.F))
          → scored ≢ []
          → (x : ScoredNode fl.F) × In x scored × (MarginalCost.pick fl scored ≡ x.node)
      picks [] ne = absurd (ne refl)
      picks (s ∷ ss) ne = (
        best_of fl fl.lt s ss,
        In-best_of fl.lt s _ ss refl,
        unfold MarginalCost.pick lowest_scoring_node in refl,
      )

  chosen_of : Chosen fl → Result (Chosen fl) → Chosen fl
  chosen_of d (ok c) = c
  chosen_of d (err e) = d

  -- Whatever name is asked for: a scheduler that `GetScheduler` returns selects, scores and picks
  -- only nodes that it was given, and picks one of what was scored whenever anything was.
  pub get_scheduler-SchedulerLaws :
      (pass : ℕ → Pass fl) (name : String) (c : Chosen fl)
      → get_scheduler fl pass name ≡ ok c
      → SchedulerLaws c.scheduler
  unfolding get_scheduler chosen_of
  get_scheduler-SchedulerLaws pass name c e = elim (Bool-cases (str_eq name marginal_cost_name)) [
    | inl m ↦
        subst (λ (d : Chosen fl). SchedulerLaws d.scheduler) (ap (chosen_of c) (rw m at e))
          (marginal_cost-SchedulerLaws pass)
    | inr m ↦ elim (Bool-cases (str_eq name round_robin_name)) [
      | inl r ↦
          subst (λ (d : Chosen fl). SchedulerLaws d.scheduler) (ap (chosen_of c) (rw (m, r) at e))
            round_robin-SchedulerLaws
      | inr r ↦ absurd (err-ne-ok (rw (m, r) at e))
    ]
  ]
