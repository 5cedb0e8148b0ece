-- ===== src/Cli.antt =====
-- internal/cli: what the commands compute and send. What a command prints is a list of lines, and
-- its failure says which message it ends with.
pub mod Decimal
pub mod Workers
pub mod Client
pub mod Specs
pub mod Servers
pub mod Starting
pub mod Running
pub mod Commands
pub mod Shortcuts
use task_orchestrator.Prelude.{
  ℕ, Option, none, some, List, String, str_append, str_eq, if◌then◌else◌,
}
use task_orchestrator.Prelude.Int.{ℤ, pos, negsuc}
use task_orchestrator.Errors.{Error}
use task_orchestrator.HttpApi.{Response}

-- The errors that `fmt.Errorf` makes, with what their text tells apart.
pub data Failure : Type 0 where
  empty_address : String → Failure
  invalid_log_level : String → Failure
  creating_manager : Error → Failure
  creating_worker : Error → Failure
  task_file_required : Failure
  reading_event parsing_event normalizing_event decoding_event encoding_event : Failure
  building_request sending : String → Failure
  task_rejected : String → Failure
  invalid_task_id : String → Failure
  task_not_found : String → Failure
  stop_rejected : String → Failure
  could_not_list : String → Failure
  decoding_list : Failure
  could_not_get_stats : String → Failure
  formatting_stats : Failure

pub data Outcome {ℓ} (A : Type ℓ) : Type ℓ where
  done : A → Outcome A
  failed : Failure → Outcome A

infixl 5 ◌>>=◌
abbrev pub ◌>>=◌ {ℓ κ} : {A : Type ℓ} {B : Type κ} → Outcome A → (A → Outcome B) → Outcome B
done a >>= f = f a
failed e >>= f = failed e

pub data Level : Type 0 where
  debug info warn error : Level

-- The level of the logger that `newLogger` makes. `lower` is `strings.ToLower`.
unfoldable pub new_logger : (String → String) → String → Outcome Level
new_logger lower log_level =
    if str_eq (lower log_level) "debug"
    then done debug
    else if str_eq (lower log_level) "info"
    then done info
    else if str_eq (lower log_level) "warn"
    then done warn
    else if str_eq (lower log_level) "error"
    then done error
    else failed (invalid_log_level log_level)

-- `main`: a command that fails ends the process with status 1.
unfoldable pub exit_status {ℓ} : {A : Type ℓ} → Outcome A → ℕ
exit_status (done a) = 0
exit_status (failed e) = 1
