-- ===== src/Task/Graph.antt =====
-- The diagram of task states, and what the table of transitions says of it.
use task_orchestrator.Prelude.{ℕ, ◌≡◌, refl, ◌↔◌, ◌⊎◌, inl, inr, Bool, true, arith}
use task_orchestrator.Task.{
  State, pending, scheduled, running, completed, failed, unknown, new_state_machine,
  is_valid_transition,
}

-- The moves that a task may make.
infix 40 ◌⟶◌ ◌⟶*◌
pub data ◌⟶◌ : State → State → Type 0 where
  place : pending ⟶ scheduled
  place_again : scheduled ⟶ scheduled
  start : scheduled ⟶ running
  fail_to_start : scheduled ⟶ failed
  keep_running : running ⟶ running
  complete : running ⟶ completed
  crash : running ⟶ failed
  restart : running ⟶ scheduled
  retry : failed ⟶ scheduled

pub data ◌⟶*◌ : State → State → Type 0 where
  here : {s : State} → s ⟶* s
  step : {s t u : State} → s ⟶ t → t ⟶* u → s ⟶* u

ruleset moves =
    (place, place_again, start, fail_to_start, keep_running, complete, crash, restart, retry)

abbrev valid : State → State → Bool
valid s t = is_valid_transition new_state_machine s t

valid_sound : (s t : State) → valid s t ≡ true → s ⟶ t
unfolding is_valid_transition new_state_machine
valid_sound s t h = grind (arith, moves)

valid_complete : {s t : State} → s ⟶ t → valid s t ≡ true
unfolding is_valid_transition new_state_machine
valid_complete place = refl
valid_complete place_again = refl
valid_complete start = refl
valid_complete fail_to_start = refl
valid_complete keep_running = refl
valid_complete complete = refl
valid_complete crash = refl
valid_complete restart = refl
valid_complete retry = refl

-- For every two states, an unlisted one included, the table accepts the transition exactly when
-- the diagram has that move.
pub is_valid_transition_iff :
    (s t : State) → (is_valid_transition new_state_machine s t ≡ true) ↔ (s ⟶ t)
is_valid_transition_iff s t = (valid_sound s t, valid_complete)

-- From `completed` the accepted transitions lead nowhere else.
pub completed_stays : {t : State} → completed ⟶* t → t ≡ completed
completed_stays here = refl
completed_stays (step m p) = elim m [ ]

-- From every state that has a constant the accepted transitions lead to `completed`.
pub to_completed : (s : State) → (s ⟶* completed) ⊎ ((n : ℕ) × (s ≡ unknown n))
to_completed pending = inl (step place (step start (step complete here)))
to_completed scheduled = inl (step start (step complete here))
to_completed running = inl (step complete here)
to_completed completed = inl here
to_completed failed = inl (step retry (step start (step complete here)))
to_completed (unknown n) = inr (n, refl)

-- `completed` is entered from `running` only.
pub into_completed : {s t : State} → s ⟶ t → t ≡ completed → s ≡ running
into_completed place e = cc
into_completed place_again e = cc
into_completed start e = cc
into_completed fail_to_start e = cc
into_completed keep_running e = cc
into_completed complete e = refl
into_completed crash e = cc
into_completed restart e = cc
into_completed retry e = cc
