-- ===== src/Examples/Finding.antt =====
-- A search for commands as cobra documents it, and the shortcuts found by it.
use task_orchestrator.Prelude.{◌≡◌, refl, none, some, List, [], ◌∷◌, String, In}
use task_orchestrator.Cli.Commands.{
  Command, command, no_commands, Behaviour, root_cmd, start_run, stop_run, status_run,
}
use task_orchestrator.Cli.Shortcuts.{
  child_named, subs_of, Cobra, CobraLaws, BothRun, find-shortcuts,
}

-- The words are followed down the tree, as long as they name subcommands.
find_from : List String → Command → Command × List String
find_from [] c = (c, [])
find_from (word ∷ args) c = elim (child_named word (subs_of c)) [
  | none ↦ (c, word ∷ args)
  | some sub ↦ find_from args sub
]

abbrev plain_cobra : Cobra
plain_cobra = record { find = λ c args. find_from args c }

plain_laws : CobraLaws plain_cobra
unfolding find_from child_named
plain_laws = record {
  find-child = λ name word aliases args b subs sub here. rw (here, find_from) refl;
  find-leaf = leaf;
}
  where
    leaf :
        (name : String) (aliases args : List String) (b : Behaviour)
        → find_from args (command name aliases b no_commands)
          ≡ (command name aliases b no_commands, args)
    leaf name aliases [] b = refl
    leaf name aliases (word ∷ args) b = refl

find-shortcuts_example :
    BothRun start_run
      (plain_cobra.find root_cmd ("run" ∷ "-f" ∷ "task.json" ∷ []))
      (plain_cobra.find root_cmd ("task" ∷ "start" ∷ "-f" ∷ "task.json" ∷ []))
    × BothRun stop_run
        (plain_cobra.find root_cmd ("stop" ∷ "-f" ∷ "task.json" ∷ []))
        (plain_cobra.find root_cmd ("task" ∷ "stop" ∷ "-f" ∷ "task.json" ∷ []))
    × ((word : String)
        → In word ("status" ∷ "list" ∷ "ls" ∷ [])
        → BothRun status_run
            (plain_cobra.find root_cmd (word ∷ "-f" ∷ "task.json" ∷ []))
            (plain_cobra.find root_cmd ("task" ∷ "status" ∷ "-f" ∷ "task.json" ∷ [])))
find-shortcuts_example = find-shortcuts plain_cobra plain_laws ("-f" ∷ "task.json" ∷ [])
