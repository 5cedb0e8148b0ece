-- ===== src/Cli/Running.antt =====
-- internal/cli/manager.go: the server from the moment when it is built until its command returns.
use task_orchestrator.Prelude.{String}
use task_orchestrator.Prelude.Int.{ℤ}
use task_orchestrator.HttpApi.Router.{Router, Listening}
use task_orchestrator.Manager as Manager
use task_orchestrator.Manager.Routes as ManagerRoutes
use task_orchestrator.Manager.Setup as ManagerSetup

-- The rest of the run function of `managerCmd`. An error of `Close` is only logged.
unfoldable pub run_manager :
    {p : Manager.Parts} (r : Router ManagerRoutes.Endpoint) (net : Listening r)
    → String
    → ℤ
    → (ManagerRoutes.Api r p × net.L → ManagerRoutes.Api r p × net.L)
    → Manager.Manager p
    → net.L
    → Manager.Manager p × net.L
run_manager r net host port meanwhile m l =
    let (a, l') = ManagerRoutes.start r net meanwhile (ManagerRoutes.new_api r host port m) l in
    ((ManagerSetup.close a.manager).0, l')
