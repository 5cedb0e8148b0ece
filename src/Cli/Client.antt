-- ===== src/Cli/Client.antt =====
-- internal/cli/taskio.go, task.go and stats.go: the commands that are one request to a manager or a
-- worker.
use task_orchestrator.Prelude.{
  Bool, not, Option, none, some, List, [], ◌∷◌, map, String, str_append, str_eq, ◌==◌,
  if◌then◌else◌,
}
use task_orchestrator.Prelude.Int.{ℤ}
use task_orchestrator.HttpApi.{
  ErrorResponse, Response, status_ok, status_created, status_no_content, status_not_found,
}
use task_orchestrator.Task.{Task, TaskEvent, Uuid, Time, state_string}
use task_orchestrator.Cli.{
  task_file_required, reading_event, parsing_event, normalizing_event, decoding_event,
  encoding_event, building_request, sending, task_rejected, invalid_task_id, task_not_found,
  stop_rejected, could_not_list, decoding_list, could_not_get_stats, formatting_stats, Outcome,
  done, failed,
}
use task_orchestrator.Cli.Decimal.{decimal, int_string}

-- The libraries that the commands call: encoding/json, yaml.v3 (whose generic values are G) and
-- uuid. `none` is an error.
pub record Formats : Type 1 where
  pub G : Type 0
  pub yaml_unmarshal : String → Option G
  pub json_marshal : G → Option String
  -- Strictly: a field that is not known is an error.
  pub decode_event : String → Option TaskEvent
  pub marshal_indent : TaskEvent → Option String
  pub decode_tasks : String → Option (List Task)
  pub decode_error : String → Option ErrorResponse
  pub indent : String → Option String
  pub uuid_string : Uuid → String
  pub parse_uuid : String → Option Uuid

-- A response with its status line, and how a request ends.
pub record Answer : Type 0 where
  pub response : Response
  pub status : String

pub data Exchange : Type 0 where
  not_built not_sent : Exchange
  answered : Answer → Exchange

-- The HTTP client: the answers to the requests.
pub record Http : Type 0 where
  pub get : String → Exchange
  pub post : String → String → Exchange
  pub delete : String → Exchange

-- `uuid.Nil`, and the instant of which `IsZero` is true.
abbrev pub nil_uuid : Uuid
nil_uuid = 0

abbrev pub zero_time : Time
zero_time = 0

pub record Target : Type 0 where
  pub host : String
  pub port : ℤ

unfoldable pub tasks_url : Target → String
tasks_url t =
    str_append "http://"
      (str_append t.host (str_append ":" (str_append (int_string t.port) "/tasks")))

-- The end of `loadTaskEvent`, over the two uuids that `uuid.New` would return and the time.
unfoldable pub fill_in : Uuid → Uuid → Time → TaskEvent → TaskEvent
fill_in event_id task_id now te =
    let named = if te.id == nil_uuid then record te { id = event_id } else te in
    let task : Task =
      if (named.task).id == nil_uuid then record (named.task) { id = task_id } else named.task in
    let tasked : TaskEvent = record named { task = task } in
    if tasked.timestamp == zero_time then record tasked { timestamp = now } else tasked

module _ (f : Formats) where
  -- `contents` is what reading the path gives, or what standard input holds when the path is "-".
  unfoldable pub load_task_event : Option String → Uuid → Uuid → Time → Outcome TaskEvent
  unfolding fill_in
  load_task_event contents event_id task_id now = elim contents [
    | none ↦ failed reading_event
    | some text ↦ elim (f.yaml_unmarshal text) [
      | none ↦ failed parsing_event
      | some generic ↦ elim (f.json_marshal generic) [
        | none ↦ failed normalizing_event
        | some json_bytes ↦ elim (f.decode_event json_bytes) [
          | none ↦ failed decoding_event
          | some te ↦ done (fill_in event_id task_id now te)
        ]
      ]
    ]
  ]

  unfoldable pub read_api_error : Answer → String
  read_api_error a = elim (f.decode_error (a.response).body) [
    | none ↦ a.status
    | some e ↦
        if not (str_eq e.message "")
        then str_append e.message (str_append " (" (str_append (decimal (a.response).status) ")"))
        else a.status
  ]

  abbrev pub submitted : TaskEvent → String
  submitted te = str_append "task submitted: id=" (
      str_append (f.uuid_string (te.task).id) (
        str_append " name="
          (str_append (te.task).name (str_append " state=" (state_string (te.task).state)))))

  unfoldable pub submit_task_event : Target → TaskEvent → Bool → Http → Outcome (List String)
  unfolding read_api_error
  submit_task_event tgt te dry_run http = elim (f.marshal_indent te) [
    | none ↦ failed encoding_event
    | some body ↦
        let sent : Outcome (List String) = elim (http.post (tasks_url tgt) body) [
          | not_built ↦ failed (sending (tasks_url tgt))
          | not_sent ↦ failed (sending (tasks_url tgt))
          | answered a ↦
              if not ((a.response).status == status_created)
              then failed (task_rejected (read_api_error a))
              else done (submitted te ∷ [])
        ] in
        if dry_run then done (body ∷ []) else sent
  ]

  -- The run function of `newStartCommand`.
  unfoldable pub start_command :
      String → Option String → Uuid → Uuid → Time → Target → Bool → Http → Outcome (List String)
  start_command file contents event_id task_id now tgt dry_run http =
      if str_eq file ""
      then failed task_file_required
      else elim (load_task_event contents event_id task_id now) [
        | failed e ↦ failed e
        | done te ↦ submit_task_event tgt te dry_run http
      ]

  unfoldable pub stop_task : Target → Uuid → Http → Outcome (List String)
  unfolding read_api_error
  stop_task tgt id http =
      let url = str_append (tasks_url tgt) (str_append "/" (f.uuid_string id)) in
      elim (http.delete url) [
        | not_built ↦ failed (building_request url)
        | not_sent ↦ failed (sending url)
        | answered a ↦
            if (a.response).status == status_no_content
            then done (str_append "task " (str_append (f.uuid_string id) " scheduled to stop") ∷ [])
            else if (a.response).status == status_not_found
            then failed (task_not_found (f.uuid_string id))
            else failed (stop_rejected (read_api_error a))
      ]

  -- The run function of `newStopCommand`.
  unfoldable pub stop_command : String → Target → Http → Outcome (List String)
  stop_command arg tgt http = elim (f.parse_uuid arg) [
    | none ↦ failed (invalid_task_id arg)
    | some id ↦ stop_task tgt id http
  ]

  -- The cells of one row of the table.
  unfoldable pub status_row : Task → List String
  status_row t =
      let container = if str_eq t.container_id "" then "-" else t.container_id in
      f.uuid_string t.id ∷ t.name ∷ state_string t.state ∷ t.image ∷ container ∷ []

  -- The lines as lists of cells, which tabwriter aligns.
  unfoldable pub print_task_status : Target → Http → Outcome (List (List String))
  unfolding read_api_error status_row
  print_task_status tgt http = elim (http.get (tasks_url tgt)) [
    | not_built ↦ failed (sending (tasks_url tgt))
    | not_sent ↦ failed (sending (tasks_url tgt))
    | answered a ↦
        if not ((a.response).status == status_ok)
        then failed (could_not_list (read_api_error a))
        else elim (f.decode_tasks (a.response).body) [
          | none ↦ failed decoding_list
          | some [] ↦ done (("no tasks" ∷ []) ∷ [])
          | some (t ∷ ts) ↦
              done
                (("ID" ∷ "NAME" ∷ "STATE" ∷ "IMAGE" ∷ "CONTAINER" ∷ []) ∷ map status_row (t ∷ ts))
        ]
  ]

  -- The run function of `statsCmd`.
  unfoldable pub stats_command : Target → Http → Outcome (List String)
  unfolding read_api_error
  stats_command tgt http =
      let url =
        str_append "http://"
          (str_append tgt.host (str_append ":" (str_append (int_string tgt.port) "/stats"))) in
      elim (http.get url) [
        | not_built ↦ failed (sending url)
        | not_sent ↦ failed (sending url)
        | answered a ↦
            if not ((a.response).status == status_ok)
            then failed (could_not_get_stats (read_api_error a))
            else elim (f.indent (a.response).body) [
              | none ↦ failed formatting_stats
              | some pretty ↦ done (pretty ∷ [])
            ]
      ]
