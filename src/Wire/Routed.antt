-- ===== src/Wire/Routed.antt =====
-- What a request that reaches the server of a worker is answered, from its path to the response: the
-- router and the handlers of internal/worker/api.go.
use task_orchestrator.Prelude.{
  ◌≡◌, refl, ◌∙◌, Option, none, some, List, [], ◌∷◌, String, str_append,
}
use task_orchestrator.Prelude.Assoc.{Assoc, lookup, String-Eq}
use task_orchestrator.HttpApi.{Response}
use task_orchestrator.HttpApi.Router.{Method, get, post, delete, Found, Router, RouterLaws}
use task_orchestrator.HttpApi.TaskRoutes.{task_endpoint}
use task_orchestrator.Stats.{Stats}
use task_orchestrator.Task.{Uuid}
use task_orchestrator.Manager.{Net, answered}
use task_orchestrator.Manager.Pure.{worker_tasks_url}
use task_orchestrator.Worker as Worker
use task_orchestrator.Worker.Api.{
  start_task_handler, get_tasks_handler, stop_task_handler, get_stats_handler,
}
use task_orchestrator.Worker.Routes.{
  Endpoint, start_task, get_tasks, stop_task, get_stats, worker_routes, endpoint_at,
  serve-worker_routes,
}
use task_orchestrator.Wire.{Encoders, respond, Serves}

-- `chi.URLParam`, which is empty where the path has no such parameter.
abbrev pub url_param : String → Assoc String String → String
url_param name params = elim (lookup name params) [ none ↦ "" | some value ↦ value ]

module _ {q : Worker.Parts} (e : Encoders) (encode_stats : Stats q.fl.F → Option String)
    (parse : String → Option Uuid) (missing : Response) where
  -- What the handler that was found makes of a request; `missing` is chi's answer where none was.
  unfoldable pub handled : Found Endpoint → String → Worker.Worker q → Worker.Worker q × Response
  handled none body w = (w, missing)
  handled (some (start_task, params)) body w =
      let (w', written) = start_task_handler body w in (w', respond e e.encode_task written)
  handled (some (get_tasks, params)) body w = (w, respond e e.encode_tasks (get_tasks_handler w))
  handled (some (stop_task, params)) body w =
      let (w', written) = stop_task_handler parse (url_param "taskID" params) w in
      (w', respond e e.encode_task written)
  handled (some (get_stats, params)) body w = (w, respond e encode_stats (get_stats_handler w))

  unfoldable pub answer :
      (r : Router Endpoint)
      → Method
      → List String
      → String
      → Worker.Worker q
      → Worker.Worker q × Response
  unfolding handled
  answer r k path body w = handled (r.serve k path (worker_routes r)) body w

  -- The requests whose URL leads to the server of the worker end there. `path_of` is the path of
  -- such a URL, as net/http and chi split it at the slashes, and `none` for another URL.
  pub record Reaches (r : Router Endpoint) (path_of : String → Option (List String))
      (w : Worker.Worker q) (net : Net) : Type 0 where
    pub gets :
        (url : String) (path : List String)
        → path_of url ≡ some path
        → net.get url ≡ answered (answer r get path "" w).1
    pub posts :
        (url : String) (path : List String) (body : String)
        → path_of url ≡ some path
        → net.post url body ≡ answered (answer r post path body w).1
    pub deletes :
        (url : String) (path : List String)
        → path_of url ≡ some path
        → net.delete url ≡ answered (answer r delete path "" w).1

  -- When the requests to a worker's URL end at its server, whose router is as chi documents it, and
  -- the URLs of the tasks and of one task have the paths that they are written with: what the manager
  -- requests of the worker is answered by its handlers that start, list and stop tasks.
  pub Reaches-Serves :
      (r : Router Endpoint) (laws : RouterLaws r) (path_of : String → Option (List String))
      (uuid_string : Uuid → String) (addr : String) (w : Worker.Worker q) (net : Net)
      → path_of (worker_tasks_url addr) ≡ some ("tasks" ∷ [])
      → ((id : Uuid)
          → path_of (str_append (worker_tasks_url addr) (str_append "/" (uuid_string id)))
            ≡ some ("tasks" ∷ uuid_string id ∷ []))
      → Reaches r path_of w net
      → Serves e parse uuid_string addr w net
  unfolding answer handled endpoint_at task_endpoint lookup
  Reaches-Serves r laws path_of uuid_string addr w net tasks task reaches = record {
    posted = λ body.
        reaches.posts (worker_tasks_url addr) ("tasks" ∷ []) body tasks
        ∙ (rw (serve-worker_routes r laws post ("tasks" ∷ [])) refl);
    listed =
        reaches.gets (worker_tasks_url addr) ("tasks" ∷ []) tasks
        ∙ (rw (serve-worker_routes r laws get ("tasks" ∷ [])) refl);
    deleted = λ id.
        reaches.deletes (str_append (worker_tasks_url addr) (str_append "/" (uuid_string id)))
          ("tasks" ∷ uuid_string id ∷ []) (task id)
        ∙ (rw (serve-worker_routes r laws delete ("tasks" ∷ uuid_string id ∷ [])) refl);
  }
