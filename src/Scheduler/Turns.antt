-- ===== src/Scheduler/Turns.antt =====
-- Round-robin scheduling: `Score` and `Pick` of internal/scheduler/roundrobin.go together.
use native.Mathlib.Nat.{mod-add-mod, add-mod_right, mod-eq_of_lt}
use task_orchestrator.Prelude.{
  ℕ, zero, suc, ◌+◌, ◌-◌, ◌%◌, ◌≤◌, ◌<◌, ◌≡◌, refl, sym, ap, ◌∙◌, ◌⊎◌, inl, inr, List, [], ◌∷◌,
  Bool, true, false, some, arith, length, get_elem?, Bool-cases, if◌then◌else◌, ◌==◌, ltb, ltb→lt,
}
use task_orchestrator.Prelude.Int.{ℤ, pos, max_int}
use task_orchestrator.Float64.{Float64, FloatOrder}
use task_orchestrator.Node.{Node}
use task_orchestrator.Task.{Task}
use task_orchestrator.Scheduler.{
  ScoredNode, RoundRobinScheduler, best_of, score_nodes_from, score_nodes, highest_scoring_node,
  next_worker_index, score, pick,
}
use task_orchestrator.Scheduler.Cursor.{next_worker_index-pos}

-- The scores that round-robin gives are ordered as numbers.
abbrev pub ZeroBelowOne : Float64 → Type 0
ZeroBelowOne fl = fl.lt (fl.of_int (pos 0)) (fl.of_int (pos 1)) ≡ true

module _ (fl : Float64) (o : FloatOrder fl) (zero_lt_one : ZeroBelowOne fl) where
  abbrev zero_score : fl.F
  zero_score = fl.of_int (pos 0)

  abbrev one_score : fl.F
  one_score = fl.of_int (pos 1)

  one-not-lt-zero : fl.lt one_score zero_score ≡ false
  one-not-lt-zero = elim (Bool-cases (fl.lt one_score zero_score)) [
    | inl e ↦ cc (o.lt_irrefl one_score, o.lt_trans one_score zero_score one_score e zero_lt_one)
    | inr e ↦ e
  ]

  abbrev higher : fl.F → fl.F → Bool
  higher a b = fl.lt b a

  -- An entry that scored one stays the best.
  best_of-one :
      (b : ScoredNode fl.F) (ns : List Node) (i : ℕ) (selected : ℤ)
      → b.score ≡ one_score
      → best_of fl higher b (score_nodes_from fl i ns selected) ≡ b
  unfolding best_of score_nodes_from
  best_of-one b [] i selected e = refl
  best_of-one b (n ∷ ns) i selected e =
      ground (arith, one-not-lt-zero, o.lt_irrefl one_score, best_of-one b ns (suc i) selected e)

  -- An entry that scored zero gives way to the selected one.
  best_of-zero :
      (b : ScoredNode fl.F) (ns : List Node) (i k selected : ℕ) (x : Node)
      → selected ≡ i + k
      → b.score ≡ zero_score
      → get_elem? ns k ≡ some x
      → (best_of fl higher b (score_nodes_from fl i ns (pos selected))).node ≡ x
  unfolding best_of score_nodes_from
  best_of-zero b [] i k sel x s e g = cc
  best_of-zero b (n ∷ ns) i zero sel x s e g =
      let entry : ScoredNode fl.F = record { node = n; score = one_score } in
      ground (arith, zero_lt_one, best_of-one entry ns (suc i) (pos sel) refl)
  best_of-zero b (n ∷ ns) i (suc k) sel x s e g =
      let other : (sel == i) ≡ false = ground arith in
      let not_better : fl.lt b.score zero_score ≡ false = rw e (o.lt_irrefl zero_score) in
      ground (arith, other, not_better, best_of-zero b ns (suc i) k sel x (omega arith) e g)

  -- The selected node is picked.
  pub pick-score_nodes :
      (nodes : List Node) (i : ℕ) (x : Node)
      → get_elem? nodes i ≡ some x
      → pick fl (score_nodes fl nodes (pos i)) ≡ x
  unfolding pick score_nodes highest_scoring_node score_nodes_from
  pick-score_nodes [] i x g = cc
  pick-score_nodes (n ∷ ns) zero x g =
      let entry : ScoredNode fl.F = record { node = n; score = one_score } in
      ground (arith, best_of-one entry ns 1 (pos 0) refl)
  pick-score_nodes (n ∷ ns) (suc i) x g =
      let entry : ScoredNode fl.F = record { node = n; score = zero_score } in
      let other : (suc i == 0) ≡ false = ground arith in
      rw other (best_of-zero entry ns 1 i (suc i) x (omega arith) refl g)

-- The `turn`th node after the one at c, in a ring of n.
abbrev pub turn_after : ℕ → ℕ → ℕ → ℕ
turn_after c n k = (c + suc k) % n

module _ (fl : Float64) where
  -- The scheduler after k calls of `Score` with the same nodes.
  unfoldable pub after_scores : ℕ → RoundRobinScheduler → Task → List Node → RoundRobinScheduler
  after_scores zero r t nodes = r
  after_scores (suc k) r t nodes = after_scores k (score fl r t nodes).0 t nodes

  score-pos :
      (r : RoundRobinScheduler) (t : Task) (nodes : List Node) (c : ℕ)
      → r.last_worker ≡ pos c
      → length nodes ≤ max_int
      → c < length nodes
      → score fl r t nodes ≡ (
        record r { last_worker = pos ((c + 1) % length nodes) },
        score_nodes fl nodes (pos ((c + 1) % length nodes)),
      )
  unfolding score
  score-pos r t nodes c e h l =
      let next : next_worker_index r.last_worker (pos (length nodes))
          ≡ pos ((c + 1) % length nodes) =
        rw e (next_worker_index-pos c (length nodes) h l) in
      rw next (ground arith)

  after_scores-pos :
      (k : ℕ) (r : RoundRobinScheduler) (t : Task) (nodes : List Node) (c : ℕ)
      → r.last_worker ≡ pos c
      → length nodes ≤ max_int
      → c < length nodes
      → (after_scores k r t nodes).last_worker ≡ pos ((c + k) % length nodes)
  unfolding after_scores
  after_scores-pos zero r t nodes c e h l =
      e ∙ ap pos (let m : c ≡ (c + 0) % length nodes = grind arith in m)
  after_scores-pos (suc k) r t nodes c e h l =
      let in_range : (c + 1) % length nodes < length nodes = grind arith in
      let moved : c + 1 + k ≡ c + suc k = omega arith in
      rw (score-pos r t nodes c e h l, after_scores)
        (after_scores-pos k _ t nodes ((c + 1) % length nodes) refl h in_range
          ∙ ap pos (mod-add-mod (c + 1) (length nodes) k ∙ ap (λ (m : ℕ). m % length nodes) moved))

get_elem?-lt :
    (nodes : List Node) (i : ℕ) → i < length nodes → (x : Node) × (get_elem? nodes i ≡ some x)
get_elem?-lt [] i h = elim h [ ]
get_elem?-lt (n ∷ ns) zero h = (n, refl)
get_elem?-lt (n ∷ ns) (suc i) h = get_elem?-lt ns i (omega arith)

module _ (fl : Float64) (o : FloatOrder fl) (zero_lt_one : ZeroBelowOne fl) where
  -- If zero scores below one, the nodes are no more than the largest `int`, the cursor stands on
  -- node c of them, and every call is given the same nodes and task: the winner of the call after k
  -- others is the node that stands k + 1 places after c in the ring.
  pub pick-turn_after :
      (k c : ℕ) (r : RoundRobinScheduler) (t : Task) (nodes : List Node)
      → r.last_worker ≡ pos c
      → length nodes ≤ max_int
      → c < length nodes
      → get_elem? nodes (turn_after c (length nodes) k)
        ≡ some (pick fl (score fl (after_scores fl k r t nodes) t nodes).1)
  pick-turn_after k c r t nodes e h l =
      let n : ℕ = length nodes in
      let at : ℕ = (c + k) % n in
      let before : at < n = grind arith in
      let here : (at + 1) % n < n = grind arith in
      let same : (at + 1) % n ≡ turn_after c n k =
        mod-add-mod (c + k) n 1
        ∙ ap (λ (m : ℕ). m % n) (let m : c + k + 1 ≡ c + suc k = omega arith in m) in
      let (x, found) = get_elem?-lt nodes ((at + 1) % n) here in
      ap (get_elem? nodes) (sym same)
      ∙ found
      ∙ ap some (
          sym (
            rw
              (score-pos fl (after_scores fl k r t nodes) t nodes at
                (after_scores-pos fl k r t nodes c e h l) h before)
              (pick-score_nodes fl o zero_lt_one nodes ((at + 1) % n) x found)))

mod-eq-sub : (m n : ℕ) → n ≤ m → m < n + n → m % n ≡ m - n
mod-eq-sub m n h l =
    let e : m - n + n ≡ m = omega arith in
    ap (λ (x : ℕ). x % n) (sym e) ∙ add-mod_right (m - n) n ∙ mod-eq_of_lt (omega arith)

-- Without a division.
turn_after-cases :
    (c n k : ℕ)
    → c < n
    → k < n
    → ((c + suc k < n) × (turn_after c n k ≡ c + suc k))
      ⊎ ((n ≤ c + suc k) × (turn_after c n k ≡ c + suc k - n))
turn_after-cases c n k h l = elim (Bool-cases (ltb (c + suc k) n)) [
  | inl e ↦ inl (ltb→lt _ _ e, mod-eq_of_lt (ltb→lt _ _ e))
  | inr e ↦
      let le : n ≤ c + suc k = ground arith in inr (le, mod-eq-sub (c + suc k) n le (omega arith))
]

turn_to : ℕ → ℕ → ℕ → ℕ
turn_to c n i = if ltb c i then i - c - 1 else i + n - c - 1

-- In n consecutive turns every one of n nodes has exactly one.
pub turn_after_unique :
    (c n i : ℕ)
    → c < n
    → i < n
    → (k : ℕ) × (k < n) × (turn_after c n k ≡ i) × ((j : ℕ) → j < n → turn_after c n j ≡ i → j ≡ k)
unfolding turn_to
turn_after_unique c n i h l =
    let k : ℕ = turn_to c n i in
    let small : k < n = ground arith in
    (
      k,
      small,
      ground (arith, turn_after-cases c n k h small),
      λ j s e. ground (arith, turn_after-cases c n j h s),
    )
