-- ===== src/Cli/Commands.antt =====
-- internal/cli: the tree of commands with their flags, as it is declared to cobra. Help texts are left
-- out, and the variable that a flag is bound to is its name.
use task_orchestrator.Prelude.{
  ℕ, Bool, true, false, Option, none, some, List, [], ◌∷◌, ◌++◌, String,
}
use task_orchestrator.Prelude.Int.{ℤ, pos}
use task_orchestrator.Scheduler.Interface.{marginal_cost_name}
use task_orchestrator.Store.Choice.{in_memory_db}

-- The default of a flag, which gives its type.
pub data Default : Type 0 where
  text : String → Default
  number : ℤ → Default
  switch : Bool → Default
  no_texts : Default

-- A flag with its shorthand, if it has one.
pub record Flag : Type 0 where
  pub name : String
  pub shorthand : Option String
  pub default_value : Default

-- `cobra.NoArgs`, `cobra.ExactArgs`, and no rule.
pub data ArgsRule : Type 0 where
  no_args any_args : ArgsRule
  exact_args : ℕ → ArgsRule

-- The run functions.
pub data Run : Type 0 where
  worker_run manager_run start_run stop_run status_run stats_run : Run

-- What a command does when it is found: its rule, its flags and its run function, if it has one.
pub record Behaviour : Type 0 where
  pub args : ArgsRule
  pub flags : List Flag
  pub run : Option Run

-- A command with its name, which is the first word of its `Use`, its aliases, and its subcommands.
mutual
  pub data Command : Type 0 where
    command : String → List String → Behaviour → Commands → Command

  pub data Commands : Type 0 where
    no_commands : Commands
    with_command : Command → Commands → Commands

-- The flags of `addTargetFlags`.
unfoldable pub target_flags : List Flag
target_flags =
    record { name = "host"; shorthand = none; default_value = text "localhost" }
    ∷ record { name = "port"; shorthand = some "p"; default_value = number (pos 5555) }
    ∷ []

unfoldable pub new_start_command : String → Command
unfolding target_flags
new_start_command verb =
    command verb []
      (record {
        args = no_args;
        flags =
            target_flags
            ++ record { name = "file"; shorthand = some "f"; default_value = text "" }
              ∷ record { name = "dry-run"; shorthand = none; default_value = switch false }
              ∷ [];
        run = some start_run;
      })
      no_commands

unfoldable pub new_stop_command : String → Command
unfolding target_flags
new_stop_command verb =
    command verb [] (record { args = exact_args 1; flags = target_flags; run = some stop_run })
      no_commands

unfoldable pub new_status_command : String → Command
unfolding target_flags
new_status_command verb =
    command verb ("list" ∷ "ls" ∷ [])
      (record { args = no_args; flags = target_flags; run = some status_run }) no_commands

unfoldable pub task_cmd : Command
unfolding new_start_command new_stop_command new_status_command
task_cmd =
    command "task" [] (record { args = any_args; flags = []; run = none })
      (with_command (new_start_command "start") (
        with_command (new_stop_command "stop")
          (with_command (new_status_command "status") no_commands)))

unfoldable pub stats_cmd : Command
stats_cmd =
    command "stats" []
      (record {
        args = no_args;
        flags =
            record { name = "host"; shorthand = none; default_value = text "localhost" }
            ∷ record { name = "port"; shorthand = some "p"; default_value = number (pos 5556) }
            ∷ [];
        run = some stats_run;
      })
      no_commands

unfoldable pub worker_cmd : Command
worker_cmd =
    command "worker" []
      (record {
        args = no_args;
        flags =
            record { name = "host"; shorthand = none; default_value = text "localhost" }
            ∷ record { name = "port"; shorthand = some "p"; default_value = number (pos 5556) }
            ∷ record { name = "name"; shorthand = some "n"; default_value = text "worker-1" }
            ∷ record { name = "id"; shorthand = none; default_value = number (pos 1) }
            ∷ record { name = "db-type"; shorthand = none; default_value = text in_memory_db }
            ∷ record { name = "fresh-start"; shorthand = none; default_value = switch true }
            ∷ [];
        run = some worker_run;
      })
      no_commands

unfoldable pub manager_cmd : Command
manager_cmd =
    command "manager" []
      (record {
        args = no_args;
        flags =
            record { name = "host"; shorthand = none; default_value = text "localhost" }
            ∷ record { name = "port"; shorthand = some "p"; default_value = number (pos 5555) }
            ∷ record { name = "worker"; shorthand = some "w"; default_value = no_texts }
            ∷ record {
              name = "scheduler";
              shorthand = some "s";
              default_value = text marginal_cost_name;
            }
            ∷ record { name = "db-type"; shorthand = none; default_value = text in_memory_db }
            ∷ [];
        run = some manager_run;
      })
      no_commands

-- The flag that every command takes.
unfoldable pub persistent_flag : Flag
persistent_flag = record { name = "log-level"; shorthand = none; default_value = text "info" }

unfoldable pub root_cmd : Command
unfolding persistent_flag worker_cmd manager_cmd task_cmd new_start_command new_stop_command
    new_status_command stats_cmd
root_cmd =
    command "orchestrator" [] (record { args = any_args; flags = persistent_flag ∷ []; run = none })
      (with_command worker_cmd (
        with_command manager_cmd (
          with_command task_cmd (
            with_command (new_start_command "run") (
              with_command (new_stop_command "stop") (
                with_command (new_status_command "status")
                  (with_command stats_cmd no_commands)))))))
