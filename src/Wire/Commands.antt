-- ===== src/Wire/Commands.antt =====
-- The commands of internal/cli with the handlers of internal/manager/api.go.
use task_orchestrator.Prelude.{
  ◌≡◌, refl, ap, ◌∙◌, ◌⊎◌, inl, inr, false, none, some, [], ◌∷◌, ◌++◌, String, str_eq, str_append,
  Option-cases,
}
use task_orchestrator.HttpApi.{
  Response, write_json, write_error, status_created, status_no_content, status_not_found,
}
use task_orchestrator.Queue.{InnerLaws}
use task_orchestrator.Task.{Task, TaskEvent, Uuid, Time, completed}
use task_orchestrator.Manager.{Parts, Manager}
use task_orchestrator.Manager.State.{lookup_task}
use task_orchestrator.Manager.Send.{add_task}
use task_orchestrator.Manager.Frames.{pending_events, pending_events-enqueue_event}
use task_orchestrator.Manager.Api.{start_task_handler, stop_task_handler}
use task_orchestrator.Cli.{done, failed, task_not_found}
use task_orchestrator.Cli.Client.{
  Formats, Target, Http, submitted, submit_task_event, stop_task, stop_command,
}
use task_orchestrator.Wire.{Encoders, Travels, respond, Manages}

module _ {p : Parts} (e : Encoders) (f : Formats) (fresh_id : Uuid) (now : Time)
    (queue_laws : InnerLaws p.pending) where
  -- When the event is decoded as it was encoded and the request reaches the handlers of a manager: the
  -- submission succeeds, and the event, as the user wrote it, is the last one pending at the manager.
  pub submit_task_event-both :
      (tgt : Target) (te : TaskEvent) (http : Http) (m : Manager p)
      → Travels f.marshal_indent p.codec.decode_event te
      → Manages e f fresh_id now tgt m http
      → (body : String) × (f.marshal_indent te ≡ some body)
        × (submit_task_event f tgt te false http ≡ done (submitted f te ∷ []))
        × (pending_events queue_laws (start_task_handler body m).0
            ≡ pending_events queue_laws m ++ te ∷ [])
  unfolding submit_task_event respond write_json start_task_handler add_task
  submit_task_event-both tgt te http m events manages =
      let (body, encoded, decoded) = events in
      let (a, reply, response) = manages.posted body in
      (
        body,
        encoded,
        (let status : a.response.status ≡ status_created =
              ap (λ (r : Response). r.status) response ∙ (rw (decoded, start_task_handler) refl) in
            rw (encoded, reply, status, submit_task_event) refl),
        rw (decoded, start_task_handler) (pending_events-enqueue_event queue_laws te m),
      )

  -- When the request reaches the handlers of a manager, and the uuid of the task is parsed as it is
  -- printed, not as the empty text: if the manager has the task, the user is told that it will stop,
  -- and the last pending event asks to complete that task; if not, the user is told that it is not
  -- there, and the manager is as it was.
  pub stop_command-both :
      (tgt : Target) (id : Uuid) (http : Http) (m : Manager p)
      → Manages e f fresh_id now tgt m http
      → f.parse_uuid (f.uuid_string id) ≡ some id
      → str_eq (f.uuid_string id) "" ≡ false
      → let after = (stop_task_handler f.parse_uuid fresh_id now (f.uuid_string id) m).0 in
        ((t : Task) × (lookup_task id m ≡ some t)
          × (stop_command f (f.uuid_string id) tgt http
              ≡ done (str_append "task " (str_append (f.uuid_string id) " scheduled to stop") ∷ []))
          × (pending_events queue_laws after
              ≡ pending_events queue_laws m
                ++ record {
                  id = fresh_id;
                  state = completed;
                  timestamp = now;
                  task = record t { state = completed };
                }
                  ∷ []))
        ⊎ ((lookup_task id m ≡ none)
            × (stop_command f (f.uuid_string id) tgt http
                ≡ failed (task_not_found (f.uuid_string id)))
            × (after ≡ m))
  unfolding stop_command stop_task respond write_error stop_task_handler add_task
  stop_command-both tgt id http m manages parsed printed =
      let (a, reply, response) = manages.deleted id in
      elim (Option-cases (lookup_task id m)) [
        | inl missing ↦
            let status : a.response.status ≡ status_not_found =
              ap (λ (r : Response). r.status) response
              ∙ (rw (printed, parsed, missing, stop_task_handler) refl) in
            inr (
              missing,
              rw (parsed, stop_command) (rw (reply, status, stop_task) refl),
              rw (printed, parsed, missing, stop_task_handler) refl,
            )
        | inr (t, found) ↦
            let status : a.response.status ≡ status_no_content =
              ap (λ (r : Response). r.status) response
              ∙ (rw (printed, parsed, found, stop_task_handler) refl) in
            inl (
              t,
              found,
              rw (parsed, stop_command) (rw (reply, status, stop_task) refl),
              rw (printed, parsed, found, stop_task_handler)
                  (pending_events-enqueue_event queue_laws
                    (record {
                      id = fresh_id;
                      state = completed;
                      timestamp = now;
                      task = record t { state = completed };
                    })
                    m),
            )
      ]
