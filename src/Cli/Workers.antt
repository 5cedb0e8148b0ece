-- ===== src/Cli/Workers.antt =====
-- internal/cli/manager.go: the workers that the flags of the manager command name.
use Prim.Native.Char.{code}
use task_orchestrator.Prelude.{
  ℕ, ◌+◌, Bool, true, false, not, List, [], ◌∷◌, String, str_append, str_eq, ◌==◌, if◌then◌else◌,
}
use task_orchestrator.Cli.{Outcome, done, failed, empty_address, ◌>>=◌}
use task_orchestrator.Cli.Decimal.{decimal}
use task_orchestrator.Manager.Setup.{WorkerMetadata}

-- `strings.Cut` at the first "=".
unfoldable pub cut : String → String × String × Bool
cut String.[] = ("", "", false)
cut (String.◌∷◌ c s) =
    let (before, after, found) = cut s in
    if code c == b'=' then ("", s, true) else (String.◌∷◌ c before, after, found)

-- The body of the loop of `parseWorkers`, for the spec at position i.
unfoldable pub parse_worker : ℕ → String → Outcome WorkerMetadata
unfolding cut
parse_worker i spec =
    let (before, after, has_name) = cut spec in
    let name = if not has_name then str_append "worker-" (decimal (i + 1)) else before in
    let addr = if not has_name then spec else after in
    if str_eq addr ""
    then failed (empty_address spec)
    else done (record { name = name; address = addr })

unfoldable pub parse_workers_from : ℕ → List String → Outcome (List WorkerMetadata)
unfolding parse_worker
parse_workers_from i [] = done []
parse_workers_from i (spec ∷ specs) =
    let rest = parse_workers_from (i + 1) specs in
    do w ← parse_worker i spec; ws ← rest; done (w ∷ ws)

unfoldable pub parse_workers : List String → Outcome (List WorkerMetadata)
unfolding parse_workers_from
parse_workers specs = parse_workers_from 0 specs
