-- ===== src/HttpApi/TaskRoutes.antt =====
-- The routes below "/tasks" of both api.go files, over the handlers that start, list and stop tasks.
use task_orchestrator.Prelude.{◌≡◌, ap, ◌∙◌, none, some, List, [], ◌∷◌, String, if◌then◌else◌}
use task_orchestrator.HttpApi.Router.{
  Method, get, post, delete, same_method, param, Found, with_param, Router, RouterLaws,
}

module _ {H : Type 0} (start_handler get_handler stop_handler : H) where
  unfoldable pub task_routes : (r : Router H) → r.Mux → r.Mux
  task_routes r m =
      r.route (param "taskID" ∷ []) (λ sub. r.handle delete [] stop_handler sub)
        (r.handle get [] get_handler (r.handle post [] start_handler m))

  -- What is found below "/tasks".
  unfoldable pub task_endpoint : Method → List String → Found H
  task_endpoint get [] = some (get_handler, [])
  task_endpoint post [] = some (start_handler, [])
  task_endpoint delete [] = none
  task_endpoint delete (id ∷ []) = some (stop_handler, ("taskID", id) ∷ [])
  task_endpoint get (id ∷ []) = none
  task_endpoint post (id ∷ []) = none
  task_endpoint k (id ∷ part ∷ path) = none

  module _ (r : Router H) (laws : RouterLaws r) where
    serve-list_and_start :
        (k : Method) (part : String) (path : List String)
        → r.serve k
            (part ∷ path)
            (r.handle get [] get_handler (r.handle post [] start_handler r.new))
          ≡ none
    serve-list_and_start k part path =
        laws.serve-handle_below k get get_handler (r.handle post [] start_handler r.new) part path
        ∙ laws.serve-handle_below k post start_handler r.new part path
        ∙ laws.serve-new k (part ∷ path)

    above :
        (k : Method)
        → r.serve k [] (task_routes r r.new)
          ≡ r.serve k [] (r.handle get [] get_handler (r.handle post [] start_handler r.new))
    unfolding task_routes
    above k =
        laws.serve-route_above k (param "taskID") (λ sub. r.handle delete [] stop_handler sub)
          (r.handle get [] get_handler (r.handle post [] start_handler r.new))

    below :
        (k : Method) (id : String) (path : List String)
        → r.serve k (id ∷ path) (task_routes r r.new)
          ≡ with_param "taskID" id (r.serve k path (r.handle delete [] stop_handler r.new))
    unfolding task_routes
    below k id path =
        laws.serve-route_param k "taskID" (λ sub. r.handle delete [] stop_handler sub)
          (r.handle get [] get_handler (r.handle post [] start_handler r.new)) id path
          (serve-list_and_start k id path)

    stop_only :
        (k : Method)
        → r.serve k [] (r.handle delete [] stop_handler r.new)
          ≡ (if same_method delete k then some (stop_handler, []) else none)
    stop_only k =
        laws.serve-handle k delete stop_handler r.new
        ∙ ap (λ rest. if same_method delete k then some (stop_handler, []) else rest)
            (laws.serve-new k [])

    pub serve-task_routes :
        (k : Method) (path : List String)
        → r.serve k path (task_routes r r.new) ≡ task_endpoint k path
    unfolding task_endpoint
    serve-task_routes get [] =
        above get ∙ laws.serve-handle get get get_handler (r.handle post [] start_handler r.new)
    serve-task_routes post [] =
        above post
        ∙ laws.serve-handle post get get_handler (r.handle post [] start_handler r.new)
        ∙ laws.serve-handle post post start_handler r.new
    serve-task_routes delete [] =
        above delete
        ∙ laws.serve-handle delete get get_handler (r.handle post [] start_handler r.new)
        ∙ laws.serve-handle delete post start_handler r.new
        ∙ laws.serve-new delete []
    serve-task_routes get (id ∷ []) = below get id [] ∙ ap (with_param "taskID" id) (stop_only get)
    serve-task_routes post (id ∷ []) =
        below post id [] ∙ ap (with_param "taskID" id) (stop_only post)
    serve-task_routes delete (id ∷ []) =
        below delete id [] ∙ ap (with_param "taskID" id) (stop_only delete)
    serve-task_routes k (id ∷ part ∷ path) =
        below k id (part ∷ path)
        ∙ ap (with_param "taskID" id) (
            laws.serve-handle_below k delete stop_handler r.new part path
            ∙ laws.serve-new k (part ∷ path))
