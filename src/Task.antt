-- ===== src/Task.antt =====
-- internal/task/task.go: the states of a task, the table of transitions, and the records that
-- travel between the manager and its workers.
pub mod Graph
use task_orchestrator.Prelude.{
  ℕ, ◌+◌, ◌≡◌, ◌↔◌, Bool, true, false, ◌&&◌, Option, none, some, List, [], ◌∷◌, String, arith, ◌==◌,
  if◌then◌else◌,
}
use task_orchestrator.Prelude.Int.{ℤ}
use task_orchestrator.Prelude.Assoc.{Eq, Assoc, lookup}
use task_orchestrator.Prelude.Slices.{contains}

-- `State` is an `int`, and a decoded task may hold any. `unknown` stands for the integers that
-- have no constant, in some enumeration.
pub data State : Type 0 where
  pending scheduled running completed failed : State
  unknown : ℕ → State

abbrev pub code : State → ℕ
code pending = 0
code scheduled = 1
code running = 2
code completed = 3
code failed = 4
code (unknown n) = n + 5

abbrev pub state_eq : State → State → Bool
state_eq s t = code s == code t

pub state_eq_iff : (s t : State) → (state_eq s t ≡ true) ↔ (s ≡ t)
state_eq_iff s t = ground arith

instance abbrev pub State-Eq : Eq State
State-Eq = record { beq = state_eq; beq_iff = state_eq_iff }

abbrev pub StateMachine : Type 0
StateMachine = Assoc State (List State)

unfoldable pub new_state_machine : StateMachine
new_state_machine =
    (pending, scheduled ∷ [])
    ∷ (scheduled, scheduled ∷ running ∷ failed ∷ [])
    ∷ (running, running ∷ completed ∷ failed ∷ scheduled ∷ [])
    ∷ (completed, [])
    ∷ (failed, scheduled ∷ [])
    ∷ []

unfoldable pub is_valid_transition : StateMachine → State → State → Bool
unfolding lookup contains
is_valid_transition machine cur next = elim (lookup cur machine) [
  | some valid_states ↦ if contains valid_states next then true else false
  | none ↦ false
]

pub state_string : State → String
state_string pending = "Pending"
state_string scheduled = "Scheduled"
state_string running = "Running"
state_string completed = "Completed"
state_string failed = "Failed"
state_string (unknown n) = ""

-- A uuid.UUID is its 128-bit value, which the code only compares and prints.
abbrev pub Uuid : Type 0
Uuid = ℕ

-- A time.Time is an instant, which the code only copies.
abbrev pub Time : Type 0
Time = ℕ

pub record PortBinding : Type 0 where
  pub host_ip : String
  pub host_port : String

-- network.PortSet and network.PortMap are maps, and `none` is the nil map.
abbrev pub PortSet : Type 0
PortSet = Option (List String)

abbrev pub PortMap : Type 0
PortMap = Option (Assoc String (List PortBinding))

pub record Task : Type 0 where
  pub name : String
  pub id : Uuid
  pub state : State
  pub image : String
  pub memory : ℤ
  pub disk : ℤ
  pub exposed_ports : PortSet
  pub host_ports : PortMap
  pub restart_policy : String
  pub start_time : Time
  pub finish_time : Time
  pub container_id : String
  pub health_check : String
  pub restart_count : ℤ

pub record TaskEvent : Type 0 where
  pub id : Uuid
  pub state : State
  pub timestamp : Time
  pub task : Task
