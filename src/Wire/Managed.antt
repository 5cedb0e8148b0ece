-- ===== src/Wire/Managed.antt =====
-- What a request that reaches the server of the manager is answered, from its path to the response:
-- the router and the handlers of internal/manager/api.go.
use task_orchestrator.Prelude.{
  ◌≡◌, refl, ◌∙◌, Option, none, some, List, [], ◌∷◌, String, str_append,
}
use task_orchestrator.Prelude.Assoc.{lookup, String-Eq}
use task_orchestrator.HttpApi.{Response}
use task_orchestrator.HttpApi.Router.{Method, get, post, delete, Found, Router, RouterLaws}
use task_orchestrator.HttpApi.TaskRoutes.{task_endpoint}
use task_orchestrator.Cli.Client.{Formats, Target, Http, Answer, Exchange, tasks_url, answered}
use task_orchestrator.Manager.{Parts, Manager}
use task_orchestrator.Manager.Api.{start_task_handler, get_tasks_handler, stop_task_handler}
use task_orchestrator.Manager.Routes.{
  Endpoint, start_task, get_tasks, stop_task, manager_routes, endpoint_at, serve-manager_routes,
}
use task_orchestrator.Task.{Uuid, Time}
use task_orchestrator.Wire.{Encoders, respond, Manages}
use task_orchestrator.Wire.Routed.{url_param}

-- A request is answered with the response of the server, under some status line.
abbrev pub EndsWith : Exchange → Response → Type 0
EndsWith x response = (a : Answer) × (x ≡ answered a) × (a.response ≡ response)

module _ {p : Parts} (e : Encoders) (f : Formats) (fresh_id : Uuid) (now : Time)
    (missing : Response) where
  -- What the handler that was found makes of a request; `missing` is chi's answer where none was.
  unfoldable pub handled : Found Endpoint → String → Manager p → Manager p × Response
  handled none body m = (m, missing)
  handled (some (start_task, params)) body m =
      let (m', written) = start_task_handler body m in (m', respond e e.encode_event written)
  handled (some (get_tasks, params)) body m = (m, respond e e.encode_tasks (get_tasks_handler m))
  handled (some (stop_task, params)) body m =
      let (m', written) =
        stop_task_handler f.parse_uuid fresh_id now (url_param "taskID" params) m in
      (m', respond e e.encode_event written)

  unfoldable pub answer :
      (r : Router Endpoint) → Method → List String → String → Manager p → Manager p × Response
  unfolding handled
  answer r k path body m = handled (r.serve k path (manager_routes r)) body m

  -- The requests whose URL leads to the server of the manager end there.
  pub record Reaches (r : Router Endpoint) (path_of : String → Option (List String)) (m : Manager p)
      (http : Http) : Type 0 where
    pub gets :
        (url : String) (path : List String)
        → path_of url ≡ some path
        → EndsWith (http.get url) (answer r get path "" m).1
    pub posts :
        (url : String) (path : List String) (body : String)
        → path_of url ≡ some path
        → EndsWith (http.post url body) (answer r post path body m).1
    pub deletes :
        (url : String) (path : List String)
        → path_of url ≡ some path
        → EndsWith (http.delete url) (answer r delete path "" m).1

  -- When the requests to a manager's URL end at its server, whose router is as chi documents it, and
  -- the URLs of the tasks and of one task have the paths that they are written with: what the command
  -- line requests of the manager is answered by its handlers that start, list and stop tasks.
  pub Reaches-Manages :
      (r : Router Endpoint) (laws : RouterLaws r) (path_of : String → Option (List String))
      (tgt : Target) (m : Manager p) (http : Http)
      → path_of (tasks_url tgt) ≡ some ("tasks" ∷ [])
      → ((id : Uuid)
          → path_of (str_append (tasks_url tgt) (str_append "/" (f.uuid_string id)))
            ≡ some ("tasks" ∷ f.uuid_string id ∷ []))
      → Reaches r path_of m http
      → Manages e f fresh_id now tgt m http
  unfolding answer handled endpoint_at task_endpoint lookup
  Reaches-Manages r laws path_of tgt m http tasks task reaches = record {
    posted = λ body.
        let (a, sent, same) = reaches.posts (tasks_url tgt) ("tasks" ∷ []) body tasks in
        (a, sent, same ∙ (rw (serve-manager_routes r laws post ("tasks" ∷ [])) refl));
    listed =
        let (a, sent, same) = reaches.gets (tasks_url tgt) ("tasks" ∷ []) tasks in
        (a, sent, same ∙ (rw (serve-manager_routes r laws get ("tasks" ∷ [])) refl));
    deleted = λ id.
        let (a, sent, same) =
          reaches.deletes (str_append (tasks_url tgt) (str_append "/" (f.uuid_string id)))
            ("tasks" ∷ f.uuid_string id ∷ []) (task id) in
        (
          a,
          sent,
          same ∙ (rw (serve-manager_routes r laws delete ("tasks" ∷ f.uuid_string id ∷ [])) refl),
        );
  }
