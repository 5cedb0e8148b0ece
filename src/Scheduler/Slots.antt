-- ===== src/Scheduler/Slots.antt =====
-- `Score` of internal/scheduler/marginalcost.go: the slots that its goroutines write.
use task_orchestrator.Prelude.{
  ℕ, ◌≤◌, ◌<◌, ◌≡◌, refl, ◌∙◌, ◌≢◌, ◌⊎◌, inl, inr, true, false, Option, none, some, List, [], ◌∷◌,
  map, arith, length, length-append, get_elem?, set, replicate, keep_somes, Bool-cases,
  Option-cases, ◌==◌, ==_iff, if◌then◌else◌,
}
use task_orchestrator.Prelude.Assoc.{ℕ-Eq}
use task_orchestrator.Prelude.Places.{
  length-set, get_elem?-set, get_elem?-replicate, get_elem?-lt, length-replicate, map-ext,
}
use task_orchestrator.Prelude.Slices.{contains}
use task_orchestrator.Errors.{Error, join, Result, ok, err}
use task_orchestrator.Float64.{Float64}
use task_orchestrator.Node.{Node}
use task_orchestrator.Stats.{Stats}
use task_orchestrator.Task.{Task}
use task_orchestrator.Scheduler.{ScoredNode}
use task_orchestrator.Scheduler.MarginalCost.{Shared, score_node, finish, run, collect, score}

module _ (fl : Float64) (fetch : Node → Result (Stats fl.F)) (t : Task)
    (candidates : List Node) where
  -- What candidate n's slot holds in the end.
  unfoldable pub slot : Node → Option (ScoredNode fl.F)
  slot n = elim (score_node fl fetch t n) [
    | ok score ↦ some (record { node = n; score = score })
    | err e ↦ none
  ]

  abbrev pub at : Shared fl → ℕ → Option (Option (ScoredNode fl.F))
  at sh i = get_elem? sh.results i

  abbrev pub step : Shared fl → ℕ → Shared fl
  step sh i = finish fl fetch t candidates sh i

  pub step-results :
      (sh : Shared fl) (j : ℕ) (n : Node)
      → get_elem? candidates j ≡ some n
      → (((slot n ≡ none) × ((step sh j).results ≡ sh.results))
          ⊎ ((s : ScoredNode fl.F) × (slot n ≡ some s)
              × ((step sh j).results ≡ set sh.results j (some s))))
  unfolding finish slot
  step-results sh j n g = go (score_node fl fetch t n) refl
    where
      go :
          (r : Result fl.F)
          → score_node fl fetch t n ≡ r
          → (((slot n ≡ none) × ((step sh j).results ≡ sh.results))
              ⊎ ((s : ScoredNode fl.F) × (slot n ≡ some s)
                  × ((step sh j).results ≡ set sh.results j (some s))))
      go (ok v) e = inr (record { node = n; score = v }, ground arith, ground arith)
      go (err x) e = inl (ground arith, ground arith)

  pub step-results_none : (sh : Shared fl) (j : ℕ) → get_elem? candidates j ≡ none → step sh j ≡ sh
  unfolding finish
  step-results_none sh j g = ground arith

  pub node-slot : (n : Node) (s : ScoredNode fl.F) → slot n ≡ some s → n ≡ s.node
  unfolding slot
  node-slot n s e = ground arith

  -- The goroutine of another candidate leaves the slot alone.
  step_other : (sh : Shared fl) (i j : ℕ) → (j == i) ≡ false → at (step sh j) i ≡ at sh i
  step_other sh i j ne = elim (Option-cases (get_elem? candidates j)) [
    | inl e ↦ rw (step-results_none sh j e)
    | inr (m, e) ↦ elim (step-results sh j m e) [
      | inl (_, r) ↦ rw r
      | inr (s, _, r) ↦ ground (arith, get_elem?-set sh.results i j (some s))
    ]
  ]

  step_sets :
      (sh : Shared fl) (i : ℕ) (n : Node)
      → get_elem? candidates i ≡ some n
      → (at sh i ≡ some none) ⊎ (at sh i ≡ some (slot n))
      → at (step sh i) i ≡ some (slot n)
  step_sets sh i n g h = elim (step-results sh i n g) [
    | inl (e, r) ↦ ground arith
    | inr (s, e, r) ↦ ground (arith, get_elem?-set sh.results i i (some s))
  ]

  step_stays :
      (sh : Shared fl) (i j : ℕ) (n : Node)
      → get_elem? candidates i ≡ some n
      → at sh i ≡ some (slot n)
      → at (step sh j) i ≡ some (slot n)
  step_stays sh i j n g h = elim (Bool-cases (j == i)) [
    | inl e ↦ let same : j ≡ i = (==_iff j i).0 e in rw same (step_sets sh i n g (inr h))
    | inr e ↦ step_other sh i j e ∙ h
  ]

  run_stays :
      (order : List ℕ) (sh : Shared fl) (i : ℕ) (n : Node)
      → get_elem? candidates i ≡ some n
      → at sh i ≡ some (slot n)
      → at (run fl fetch t candidates sh order) i ≡ some (slot n)
  unfolding run
  run_stays [] sh i n g h = h
  run_stays (j ∷ order) sh i n g h = run_stays order (step sh j) i n g (step_stays sh i j n g h)

  -- Once its goroutine has ended a candidate's slot is filled, for good.
  run_sets :
      (order : List ℕ) (sh : Shared fl) (i : ℕ) (n : Node)
      → get_elem? candidates i ≡ some n
      → at sh i ≡ some none
      → contains order i ≡ true
      → at (run fl fetch t candidates sh order) i ≡ some (slot n)
  unfolding run contains
  run_sets [] sh i n g h c = cc
  run_sets (j ∷ order) sh i n g h c = elim (Bool-cases (j == i)) [
    | inl e ↦
        let same : j ≡ i = (==_iff j i).0 e in
        rw same (run_stays order (step sh i) i n g (step_sets sh i n g (inl h)))
    | inr e ↦ run_sets order (step sh j) i n g (step_other sh i j e ∙ h) (rw e at c)
  ]

  length-run :
      (order : List ℕ) (sh : Shared fl)
      → length (run fl fetch t candidates sh order).results ≡ length sh.results
  unfolding run
  length-run [] sh = refl
  length-run (j ∷ order) sh =
      length-run order (step sh j) ∙ (elim (Option-cases (get_elem? candidates j)) [
        | inl e ↦ rw (step-results_none sh j e)
        | inr (m, e) ↦ elim (step-results sh j m e) [
          | inl (_, r) ↦ rw r
          | inr (s, _, r) ↦ rw r (length-set sh.results j (some s))
        ]
      ])

  abbrev start : Shared fl
  start = record { results = replicate (length candidates) none; errs = [] }

  -- In whatever order the goroutines end, the slots end up as the candidates' scores.
  results-run :
      (order : List ℕ)
      → ((i : ℕ) → i < length candidates → contains order i ≡ true)
      → (run fl fetch t candidates start order).results ≡ map slot candidates
  results-run order h =
      map-ext slot candidates _ (length-run order start ∙ length-replicate _ none) λ i n g.
        let l : i < length candidates = get_elem?-lt candidates i g in
        run_sets order start i n g (get_elem?-replicate (length candidates) i none l) (h i l)

  -- The candidates that could be scored, in their order.
  unfoldable pub scored_of : List Node → List (ScoredNode fl.F)
  scored_of ns = keep_somes (map slot ns)

  length-errs_step : (sh : Shared fl) (j : ℕ) → length sh.errs ≤ length (step sh j).errs
  unfolding finish
  length-errs_step sh j = grind (arith, length-append)

  errs-step :
      (sh : Shared fl) (j : ℕ) (n : Node)
      → get_elem? candidates j ≡ some n
      → slot n ≡ none
      → 0 < length (step sh j).errs
  unfolding finish slot
  errs-step sh j n g e = grind (arith, length-append)

  length-errs_run :
      (order : List ℕ) (sh : Shared fl)
      → length sh.errs ≤ length (run fl fetch t candidates sh order).errs
  unfolding run
  length-errs_run [] sh = omega arith
  length-errs_run (j ∷ order) sh =
      omega (arith, length-errs_step sh j, length-errs_run order (step sh j))

  -- A candidate that could not be scored leaves an error.
  errs-run :
      (order : List ℕ) (sh : Shared fl) (i : ℕ) (n : Node)
      → get_elem? candidates i ≡ some n
      → slot n ≡ none
      → contains order i ≡ true
      → 0 < length (run fl fetch t candidates sh order).errs
  unfolding run contains
  errs-run [] sh i n g s c = cc
  errs-run (j ∷ order) sh i n g s c = elim (Bool-cases (j == i)) [
    | inl e ↦
        let same : j ≡ i = (==_iff j i).0 e in
        omega (arith, errs-step sh j n (rw same g) s, length-errs_run order (step sh j))
    | inr e ↦ errs-run order (step sh j) i n g s (rw e at c)
  ]

  none-slot :
      (ns : List Node) (n : Node) → get_elem? ns 0 ≡ some n → scored_of ns ≡ [] → slot n ≡ none
  unfolding scored_of
  none-slot [] n g e = cc
  none-slot (m ∷ ms) n g e = elim (Option-cases (slot m)) [
    | inl z ↦ ground arith
    | inr (s, z) ↦ cc (rw z at e)
  ]

  collect-ok :
      (rs : List (Option (ScoredNode fl.F))) (es : List Error)
      → keep_somes rs ≢ []
      → collect fl fetch t (record { results = rs; errs = es }) ≡ ok (keep_somes rs)
  unfolding collect
  collect-ok rs [] h = refl
  collect-ok rs (e ∷ es) h =
      elim (keep_somes rs)
          as (λ l. l ≢ [] → (if length l == 0 then err (join e es) else ok l) ≡ ok l) [
            | [] ↦ λ h. absurd (h refl)
            | x ∷ xs ↦ λ h. ground arith
          ]
        h

  collect-err :
      (rs : List (Option (ScoredNode fl.F))) (es : List Error)
      → keep_somes rs ≡ []
      → 0 < length es
      → (e : Error) × (collect fl fetch t (record { results = rs; errs = es }) ≡ err e)
  unfolding collect
  collect-err rs [] h l = absurd (omega arith)
  collect-err rs (e ∷ es) h l = (join e es, rw h)

  start-out : List ℕ → Shared fl
  start-out order = run fl fetch t candidates start order

  -- If every candidate's goroutine ends, in whatever order, and some candidate could be scored,
  -- then `Score` returns the candidates that could be scored, in their own order.
  pub score-order :
      (order : List ℕ)
      → ((i : ℕ) → i < length candidates → contains order i ≡ true)
      → scored_of candidates ≢ []
      → score fl fetch t candidates order ≡ ok (scored_of candidates)
  unfolding score scored_of start-out
  score-order order h ne =
      let results : (start-out order).results ≡ map slot candidates = results-run order h in
      collect-ok (start-out order).results (start-out order).errs (rw results ne) ∙ rw results

  -- If every candidate's goroutine ends, in whatever order, there is a candidate, and none could be
  -- scored, then `Score` fails.
  pub score-fails :
      (order : List ℕ) (n : Node)
      → ((i : ℕ) → i < length candidates → contains order i ≡ true)
      → get_elem? candidates 0 ≡ some n
      → scored_of candidates ≡ []
      → (e : Error) × (score fl fetch t candidates order ≡ err e)
  unfolding score scored_of start-out
  score-fails order n h g e =
      let results : (start-out order).results ≡ map slot candidates = results-run order h in
      collect-err (start-out order).results (start-out order).errs (rw results e) (
        errs-run order start 0 n g (none-slot candidates n g e) (h 0 (get_elem?-lt candidates 0 g)))
