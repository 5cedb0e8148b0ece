-- ===== src/Queue.antt =====
-- internal/queue/queue.go: the typed wrapper round the queue of golang-collections, which is a
-- parameter. Its items of any type are here the items of one type, as the wrapper makes sure.
use task_orchestrator.Prelude.{ℕ, ◌≡◌, Option, none, some, List, [], ◌∷◌, ◌++◌, length}

-- collections/queue: `Dequeue` returns nil on an empty queue.
pub record Inner (T : Type 0) : Type 1 where
  pub Q : Type 0
  pub new : Q
  pub enqueue : T → Q → Q
  pub dequeue : Q → Option T × Q
  pub len : Q → ℕ

-- Its documented behaviour: first in, first out.
pub record InnerLaws {T : Type 0} (inner : Inner T) : Type 0 where
  pub items : inner.Q → List T
  pub items-new : items inner.new ≡ []
  pub items-enqueue : (v : T) (q : inner.Q) → items (inner.enqueue v q) ≡ items q ++ v ∷ []
  pub dequeue-nil : (q : inner.Q) → items q ≡ [] → (inner.dequeue q).0 ≡ none
  pub items-dequeue_nil : (q : inner.Q) → items q ≡ [] → items (inner.dequeue q).1 ≡ []
  pub dequeue-cons :
      (q : inner.Q) (v : T) (vs : List T) → items q ≡ v ∷ vs → (inner.dequeue q).0 ≡ some v
  pub items-dequeue_cons :
      (q : inner.Q) (v : T) (vs : List T) → items q ≡ v ∷ vs → items (inner.dequeue q).1 ≡ vs
  pub len-items : (q : inner.Q) → inner.len q ≡ length (items q)

module _ {T : Type 0} (inner : Inner T) where
  pub record Queue : Type 0 where
    pub inner_queue : inner.Q

  unfoldable pub new : Queue
  new = record { inner_queue = inner.new }

  unfoldable pub enqueue : T → Queue → Queue
  enqueue v q = record q { inner_queue = inner.enqueue v q.inner_queue }

  -- The item and a true flag are `some`; the zero value and a false flag are `none`.
  unfoldable pub dequeue : Queue → Option T × Queue
  dequeue q =
      let (v, rest) = inner.dequeue q.inner_queue in
      (elim v [ none ↦ none | some item ↦ some item ], record q { inner_queue = rest })

  unfoldable pub len : Queue → ℕ
  len q = inner.len q.inner_queue
