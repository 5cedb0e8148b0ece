-- ===== src/Scheduler/Pick.antt =====
-- internal/scheduler/pure.go: which node wins.
use task_orchestrator.Prelude.{
  ◌≡◌, refl, sym, ap, ◌∙◌, inl, inr, List, [], ◌∷◌, ◌++◌, Bool, true, false, Bool-cases, All,
  All-append,
}
use mathlib.Core.List.{append-nil, append_assoc}
use task_orchestrator.Float64.{Float64, FloatOrder}
use task_orchestrator.Scheduler.{ScoredNode, best_of, highest_scoring_node, lowest_scoring_node}

module _ (fl : Float64) where
  -- `b` stands in `xs`, beats every entry before it, and no entry after it beats it.
  pub record IsEarliestBest (beats : fl.F → fl.F → Bool) (xs : List (ScoredNode fl.F))
      (b : ScoredNode fl.F) : Type 0 where
    pub before : List (ScoredNode fl.F)
    pub after : List (ScoredNode fl.F)
    pub splits : xs ≡ before ++ b ∷ after
    pub beats_before : All (λ s. beats b.score s.score ≡ true) before
    pub unbeaten_after : All (λ s. beats s.score b.score ≡ false) after

-- What the scan needs of its test.
record IsOrder {F : Type 0} (beats : F → F → Bool) (is_number : F → Bool) : Type 0 where
  trans : (a b c : F) → beats a b ≡ true → beats b c ≡ true → beats a c ≡ true
  ge_trans :
      (a b c : F) → is_number b ≡ true → beats a b ≡ false → beats b c ≡ false → beats a c ≡ false

module _ (fl : Float64) (o : FloatOrder fl) where
  abbrev Scored : Type 0
  Scored = List (ScoredNode fl.F)

  abbrev pub AllNumbers : Scored → Type 0
  AllNumbers = All (λ s. o.is_number s.score ≡ true)

  lowest-IsOrder : IsOrder fl.lt o.is_number
  lowest-IsOrder = record { trans = o.lt_trans; ge_trans = o.ge_trans }

  highest-IsOrder : IsOrder (λ a b. fl.lt b a) o.is_number
  highest-IsOrder = record {
    trans = λ a b c p q. o.lt_trans c b a q p;
    ge_trans = λ a b c n p q. o.ge_trans c b a n q p;
  }

module _ (fl : Float64) (beats : fl.F → fl.F → Bool) (is_number : fl.F → Bool)
    (ord : IsOrder beats is_number) where
  abbrev Scores : Type 0
  Scores = List (ScoredNode fl.F)

  abbrev Numbers : Scores → Type 0
  Numbers = All (λ s. is_number s.score ≡ true)

  -- A new best beats what the old one beat, and what did not beat the old one.
  beats_old :
      (x b : ScoredNode fl.F) (xs : Scores)
      → beats x.score b.score ≡ true
      → All (λ s. beats b.score s.score ≡ true) xs
      → All (λ s. beats x.score s.score ≡ true) xs
  beats_old x b [] e p = tt
  beats_old x b (y ∷ ys) e p = (ord.trans x.score b.score y.score e p.0, beats_old x b ys e p.1)

  beats_passed :
      (x b : ScoredNode fl.F) (xs : Scores)
      → beats x.score b.score ≡ true
      → Numbers xs
      → All (λ s. beats s.score b.score ≡ false) xs
      → All (λ s. beats x.score s.score ≡ true) xs
  beats_passed x b [] e n p = tt
  beats_passed x b (y ∷ ys) e n p = (here, beats_passed x b ys e n.1 p.1)
    where
      here : beats x.score y.score ≡ true
      here = elim (Bool-cases (beats x.score y.score)) [
        | inl t ↦ t
        | inr f ↦ cc (ord.ge_trans x.score y.score b.score n.0 f p.0)
      ]

  best_of-IsEarliestBest :
      (all before mid : Scores) (b : ScoredNode fl.F) (xs : Scores)
      → all ≡ before ++ b ∷ (mid ++ xs)
      → Numbers mid
      → Numbers xs
      → All (λ s. beats b.score s.score ≡ true) before
      → All (λ s. beats s.score b.score ≡ false) mid
      → IsEarliestBest fl beats all (best_of fl beats b xs)
  unfolding best_of
  best_of-IsEarliestBest all before mid b [] e m n p q = record {
    before = before;
    after = mid;
    splits = e ∙ ap (λ l. before ++ b ∷ l) (append-nil mid);
    beats_before = p;
    unbeaten_after = q;
  }
  best_of-IsEarliestBest all before mid b (x ∷ xs) e m n p q =
      elim (Bool-cases (beats x.score b.score)) [
        | inl t ↦ rw t (
            best_of-IsEarliestBest all (before ++ b ∷ mid) [] x xs
              (e ∙ sym (append_assoc before (b ∷ mid) (x ∷ xs))) tt n.1
              (All-append _ before _ (beats_old x b before t p) (t, beats_passed x b mid t m q)) tt)
        | inr f ↦ rw f (
            best_of-IsEarliestBest all before (mid ++ x ∷ []) b xs
              (e ∙ ap (λ l. before ++ b ∷ l) (sym (append_assoc mid (x ∷ []) xs)))
              (All-append _ mid _ m (n.0, tt)) n.1 p (All-append _ mid _ q (f, tt)))
      ]

module _ (fl : Float64) (o : FloatOrder fl) where
  -- Among scores that are numbers, `lowestScoringNode` finds a winner in every list but the empty
  -- one: the node of an entry that scores lower than every entry before it and no higher than any
  -- after it.
  pub lowest_scoring_node-IsEarliestBest :
      (s : ScoredNode fl.F) (ss : List (ScoredNode fl.F))
      → All (λ x. o.is_number x.score ≡ true) (s ∷ ss)
      → (b : ScoredNode fl.F) × (lowest_scoring_node fl (s ∷ ss) ≡ (b.node, true))
        × IsEarliestBest fl fl.lt (s ∷ ss) b
  unfolding lowest_scoring_node
  lowest_scoring_node-IsEarliestBest s ss n = (
    best_of fl fl.lt s ss,
    refl,
    best_of-IsEarliestBest fl fl.lt o.is_number (lowest-IsOrder fl o) (s ∷ ss) [] [] s ss refl tt
        n.1 tt tt,
  )

  -- Among scores that are numbers, `highestScoringNode` finds a winner in every list but the empty
  -- one: the node of an entry that scores higher than every entry before it and no lower than any
  -- after it.
  pub highest_scoring_node-IsEarliestBest :
      (s : ScoredNode fl.F) (ss : List (ScoredNode fl.F))
      → All (λ x. o.is_number x.score ≡ true) (s ∷ ss)
      → (b : ScoredNode fl.F) × (highest_scoring_node fl (s ∷ ss) ≡ (b.node, true))
        × IsEarliestBest fl (λ x y. fl.lt y x) (s ∷ ss) b
  unfolding highest_scoring_node
  highest_scoring_node-IsEarliestBest s ss n = (
    best_of fl (λ x y. fl.lt y x) s ss,
    refl,
    best_of-IsEarliestBest fl (λ x y. fl.lt y x) o.is_number (highest-IsOrder fl o) (s ∷ ss) [] [] s
        ss refl tt n.1 tt tt,
  )
