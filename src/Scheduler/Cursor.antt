-- ===== src/Scheduler/Cursor.antt =====
-- The cursor of the round-robin scheduler, through wrap-around and a changing number of nodes.
use task_orchestrator.Prelude.{
  ◌⊎◌, ℕ, suc, ◌+◌, ◌%◌, ◌≤◌, ◌<◌, ◌≡◌, arith, leb, Bool-cases, inl, inr,
}
use task_orchestrator.Prelude.Int.{ℤ, pos, negsuc, ◌≤ℤ◌, ◌<ℤ◌, max_int, rem, ◌+64◌}
use task_orchestrator.Scheduler.{wrap_negative, next_worker_index}

abbrev InRange : ℕ → ℤ → Type 0
InRange n i = (pos 0 ≤ℤ i) × (i <ℤ pos n)

wrap_negative-InRange :
    (m : ℤ) (n : ℕ) → 0 < n → n ≤ max_int → InRange n (wrap_negative (rem m (pos n)) (pos n))
unfolding wrap_negative
wrap_negative-InRange (pos a) n p h = let l : a % (n + 0) < n = grind arith in ground arith
wrap_negative-InRange (negsuc a) n p h = let l : suc a % (n + 0) < n = grind arith in ground arith

-- Whatever the cursor holds, a negative or the largest `int` included, and for no more nodes than the
-- largest `int`: either there are nodes, and the next index lies in their range; or there are none,
-- and it is -1.
pub next_worker_index_bounds :
    (last : ℤ) (n : ℕ)
    → n ≤ max_int
    → ((0 < n)
        × (pos 0 ≤ℤ next_worker_index last (pos n))
        × (next_worker_index last (pos n) <ℤ pos n))
      ⊎ ((n ≡ 0) × (next_worker_index last (pos n) ≡ negsuc 0))
unfolding next_worker_index
next_worker_index_bounds last n h = elim (Bool-cases (leb (n + 0) 0)) [
  | inl e ↦ inr (ground arith, ground arith)
  | inr e ↦
      let p : 0 < n = ground arith in
      let w : InRange n (next_worker_index last (pos n)) =
        rw e (wrap_negative-InRange (last +64 pos 1) n p h) in
      inl (p, w.0, w.1)
]

pub next_worker_index-pos :
    (c n : ℕ) → n ≤ max_int → c < n → next_worker_index (pos c) (pos n) ≡ pos ((c + 1) % n)
unfolding next_worker_index wrap_negative
next_worker_index-pos c n h l =
    let e : pos c +64 pos 1 ≡ pos (c + 1) = ground arith in
    let z : n + 0 ≡ n = omega arith in rw e (rw z (ground arith))
