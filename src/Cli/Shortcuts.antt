-- ===== src/Cli/Shortcuts.antt =====
-- The verbs of internal/cli/root.go that stand for commands of internal/cli/task.go, over cobra as a
-- parameter.
use task_orchestrator.Prelude.{
  ◌≡◌, refl, sym, ap, ◌∙◌, ◌||◌, Bool, false, Option, none, some, List, [], ◌∷◌, String, In, inl,
  inr, str_eq, if◌then◌else◌,
}
use task_orchestrator.Cli.Commands.{
  Command, command, Commands, no_commands, with_command, Behaviour, root_cmd, task_cmd,
  new_start_command, new_stop_command, new_status_command, Run, start_run, stop_run, status_run,
}

abbrev one_of : String → List String → Bool
one_of word [] = false
one_of word (name ∷ names) = str_eq name word || one_of word names

-- The subcommand of this name or alias.
unfoldable pub child_named : String → Commands → Option Command
child_named word no_commands = none
child_named word (with_command (command name aliases b subs) rest) =
    if one_of word (name ∷ aliases)
    then some (command name aliases b subs)
    else child_named word rest

-- The command that cobra finds for the arguments, with the arguments that are left for it.
pub record Cobra : Type 0 where
  pub find : Command → List String → Command × List String

-- A word that names a subcommand leads to it, and a command with no subcommands takes everything.
pub record CobraLaws (c : Cobra) : Type 0 where
  pub find-child :
      (name word : String) (aliases args : List String) (b : Behaviour) (subs : Commands)
      (sub : Command)
      → child_named word subs ≡ some sub
      → c.find (command name aliases b subs) (word ∷ args) ≡ c.find sub args
  pub find-leaf :
      (name : String) (aliases args : List String) (b : Behaviour)
      → c.find (command name aliases b no_commands) args
        ≡ (command name aliases b no_commands, args)

abbrev pub behaviour : Command → Behaviour
behaviour (command name aliases b subs) = b

-- What is found does the same with the same arguments, by this run function.
abbrev pub BothRun : Run → Command × List String → Command × List String → Type 0
BothRun run x y = (behaviour x.0 ≡ behaviour y.0) × ((behaviour x.0).run ≡ some run) × (x.1 ≡ y.1)

abbrev pub subs_of : Command → Commands
subs_of (command name aliases b subs) = subs

module _ (c : Cobra) (laws : CobraLaws c) where
  -- A leaf below a command is found by its word.
  find-leaf_below :
      (above : Command) (word name : String) (aliases args : List String) (b : Behaviour)
      → child_named word (subs_of above) ≡ some (command name aliases b no_commands)
      → c.find above (word ∷ args) ≡ (command name aliases b no_commands, args)
  find-leaf_below (command top others behave subs) word name aliases args b here =
      laws.find-child top word others args behave subs (command name aliases b no_commands) here
      ∙ laws.find-leaf name aliases args b

  find-task :
      (word name : String) (aliases args : List String) (b : Behaviour)
      → child_named word (subs_of task_cmd) ≡ some (command name aliases b no_commands)
      → c.find root_cmd ("task" ∷ word ∷ args) ≡ (command name aliases b no_commands, args)
  unfolding root_cmd child_named
  find-task word name aliases args b here =
      laws.find-child _ "task" _ (word ∷ args) _ _ task_cmd refl
      ∙ find-leaf_below task_cmd word name aliases args b here

  -- When cobra finds a command by its names, as it documents: for any arguments, "run" starts a task
  -- as "task start" does, "stop" stops one as "task stop" does, and "status" and its aliases "list"
  -- and "ls" list the tasks as "task status" does: with the same rule for arguments, flags, defaults
  -- and run function, on the same arguments.
  pub find-shortcuts :
      (args : List String)
      → BothRun start_run
          (c.find root_cmd ("run" ∷ args))
          (c.find root_cmd ("task" ∷ "start" ∷ args))
        × BothRun stop_run
            (c.find root_cmd ("stop" ∷ args))
            (c.find root_cmd ("task" ∷ "stop" ∷ args))
        × ((word : String)
            → In word ("status" ∷ "list" ∷ "ls" ∷ [])
            → BothRun status_run
                (c.find root_cmd (word ∷ args))
                (c.find root_cmd ("task" ∷ "status" ∷ args)))
  unfolding root_cmd task_cmd child_named new_start_command new_stop_command new_status_command
  find-shortcuts args = (
    rw
        (
          find-leaf_below root_cmd "run" "run" [] args _ refl,
          find-task "start" "start" [] args _ refl,
        )
        (refl, refl, refl),
    rw
        (
          find-leaf_below root_cmd "stop" "stop" [] args _ refl,
          find-task "stop" "stop" [] args _ refl,
        )
        (refl, refl, refl),
    status,
  )
    where
      aliases : List String
      aliases = "list" ∷ "ls" ∷ []

      listing : Behaviour
      listing = behaviour (new_status_command "status")

      lists :
          (word : String)
          → child_named word (subs_of root_cmd)
            ≡ some (command "status" aliases listing no_commands)
          → BothRun status_run
              (c.find root_cmd (word ∷ args))
              (c.find root_cmd ("task" ∷ "status" ∷ args))
      lists word here =
          rw
            (
              find-leaf_below root_cmd word "status" aliases args listing here,
              find-task "status" "status" aliases args listing refl,
            )
            (refl, refl, refl)

      status :
          (word : String)
          → In word ("status" ∷ "list" ∷ "ls" ∷ [])
          → BothRun status_run
              (c.find root_cmd (word ∷ args))
              (c.find root_cmd ("task" ∷ "status" ∷ args))
      status word (inl e) = lists word (ap (λ w. child_named w (subs_of root_cmd)) (sym e))
      status word (inr (inl e)) = lists word (ap (λ w. child_named w (subs_of root_cmd)) (sym e))
      status word (inr (inr (inl e))) =
          lists word (ap (λ w. child_named w (subs_of root_cmd)) (sym e))
      status word (inr (inr (inr h))) = absurd h
