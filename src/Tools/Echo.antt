-- ===== src/Tools/Echo.antt =====
-- Every answer to a request carries the request's id, whatever its handler finds.
use systemd_monitoring_mcp.Base.{
  ◌≡◌, ◌∙◌, ap, Option, none, some, Result, ok, err, Bool-cases, Option-cases, Result-cases, inl,
  inr, if◌then◌else◌, true, false, Bool, unwrap_or, List,
}
use systemd_monitoring_mcp.Text.{Text, text, text_eq}
use systemd_monitoring_mcp.Json.{Json, Fields, end, get_key}
use systemd_monitoring_mcp.Errors.{AppError}
use systemd_monitoring_mcp.Rpc.{
  RequestId, value_to_request_id, SdkLaws, json_rpc_invalid_params, json_rpc_error,
  json_rpc_method_not_found_with_data, app_error_to_json_rpc, json_rpc_result,
}
use systemd_monitoring_mcp.Rpc.Shape.{
  echoed, error_with_data_id, result_shape, app_error_shape, request_id_round_trip,
}
use systemd_monitoring_mcp.Responses.{tool_success_response}
use systemd_monitoring_mcp.Env.{Env}
use systemd_monitoring_mcp.Services
use systemd_monitoring_mcp.Services.{
  handle_list_services, services_answer, normalize_services_query, NormalizedServicesQuery,
}
use systemd_monitoring_mcp.Units.{UnitStatus, TimerStatus, LogQueryResult}
use systemd_monitoring_mcp.Timers.Params.{normalize_timers_query}
use systemd_monitoring_mcp.Timers.Handler.{handle_list_timers, timers_answer}
use systemd_monitoring_mcp.Logs.Handler.{handle_list_logs, query_logs, logs_answer, resolve_start}
use systemd_monitoring_mcp.Logs.Query
use systemd_monitoring_mcp.Timers.Params.{NormalizedTimersQuery}
use systemd_monitoring_mcp.Tools.{call_tool, handle_tools_call}
use systemd_monitoring_mcp.Tools.Inspect.{
  handle_unit_status, handle_container, handle_pod, answer_with, inspect_unit,
}

module _ (env : Env) (laws : SdkLaws env.sdk) (id : Json) (r : RequestId)
    (usable : value_to_request_id id ≡ some r) where
  -- The response is one to this request.
  abbrev pub Echoes : Json → Type 0
  Echoes response = get_key response (text "id") ≡ some id

  pub own_id : some (echoed (some id)) ≡ some id
  own_id = rw usable (ap some (request_id_round_trip id r usable))

  pub error-Echoes : (error : AppError) → Echoes (app_error_to_json_rpc env.sdk (some id) error)
  error-Echoes error = (app_error_shape env.sdk laws (some id) error).0 ∙ own_id

  pub invalid_params-Echoes : Echoes (json_rpc_invalid_params env.sdk (some id))
  unfolding json_rpc_invalid_params json_rpc_error
  invalid_params-Echoes = error_with_data_id env.sdk laws (some id) _ _ _ ∙ own_id

  pub not_found-Echoes :
      (more : Json) → Echoes (json_rpc_method_not_found_with_data env.sdk (some id) more)
  unfolding json_rpc_method_not_found_with_data
  not_found-Echoes more = error_with_data_id env.sdk laws (some id) _ _ _ ∙ own_id

  pub result-Echoes : (result : Json) → Echoes (json_rpc_result env.sdk (some id) result)
  result-Echoes result = (result_shape env.sdk laws id result r usable).0

  pub success-Echoes :
      (message : Text) (content : Fields)
      → Echoes (tool_success_response env.sdk (some id) message content)
  unfolding tool_success_response
  success-Echoes message content = result-Echoes _

  pub answer_with-Echoes :
      (message name : Text) (result : Result Json AppError)
      → Echoes (answer_with env (some id) message name result)
  unfolding answer_with
  answer_with-Echoes message name (ok status) = success-Echoes message _
  answer_with-Echoes message name (err error) = error-Echoes error

  -- A dispatch echoes if both its arms do.
  pub if-Echoes : (b : Bool) (x y : Json) → Echoes x → Echoes y → Echoes (if b then x else y)
  if-Echoes true x y p q = p
  if-Echoes false x y p q = q

  unit_status-Echoes :
      (arguments : Option Fields) → Echoes (handle_unit_status env (some id) arguments)
  unfolding handle_unit_status
  unit_status-Echoes arguments =
      elim (Option-cases (env.decode.unit_status_params (unwrap_or arguments end))) [
        | inl e ↦ rw (e, handle_unit_status) invalid_params-Echoes
        | inr (params, e) ↦
            rw (e, handle_unit_status) (answer_with-Echoes _ _ (inspect_unit env params))
      ]

  container-Echoes : (arguments : Option Fields) → Echoes (handle_container env (some id) arguments)
  unfolding handle_container
  container-Echoes arguments =
      elim (Option-cases (env.decode.container_params (unwrap_or arguments end))) [
        | inl e ↦ rw (e, handle_container) invalid_params-Echoes
        | inr (name, e) ↦
            rw (e, handle_container) (answer_with-Echoes _ _ (env.podman.container_status name))
      ]

  pod-Echoes : (arguments : Option Fields) → Echoes (handle_pod env (some id) arguments)
  unfolding handle_pod
  pod-Echoes arguments = elim (Option-cases (env.decode.pod_params (unwrap_or arguments end))) [
    | inl e ↦ rw (e, handle_pod) invalid_params-Echoes
    | inr (name, e) ↦ rw (e, handle_pod) (answer_with-Echoes _ _ (env.podman.pod_status name))
  ]

  services_answer-Echoes :
      (query : NormalizedServicesQuery) (services : List UnitStatus)
      → Echoes (services_answer env (some id) query services)
  unfolding services_answer
  services_answer-Echoes query services = elim (Bool-cases query.summary_enabled) [
    | inl e ↦ rw (e, services_answer) (success-Echoes _ _)
    | inr e ↦ rw (e, services_answer) (success-Echoes _ _)
  ]

  list_services-Echoes :
      (arguments : Option Fields) → Echoes (handle_list_services env (some id) arguments)
  unfolding handle_list_services
  list_services-Echoes arguments = elim (Result-cases (normalize_services_query env arguments)) [
    | inr (Services.invalid_params, e) ↦ rw (e, handle_list_services) invalid_params-Echoes
    | inr (Services.domain error, e) ↦ rw (e, handle_list_services) (error-Echoes error)
    | inl (query, e) ↦ elim (Result-cases (env.units.list_service_units query.scope)) [
      | inr (error, f) ↦ rw (e, handle_list_services, f) (error-Echoes error)
      | inl (services, f) ↦ rw (e, handle_list_services, f) (services_answer-Echoes query services)
    ]
  ]

  timers_answer-Echoes :
      (query : NormalizedTimersQuery) (timers : List TimerStatus)
      → Echoes (timers_answer env (some id) query timers)
  unfolding timers_answer
  timers_answer-Echoes query timers = elim (Bool-cases query.summary_enabled) [
    | inl e ↦ rw (e, timers_answer) (success-Echoes _ _)
    | inr e ↦ rw (e, timers_answer) (success-Echoes _ _)
  ]

  list_timers-Echoes :
      (arguments : Option Fields) → Echoes (handle_list_timers env (some id) arguments)
  unfolding handle_list_timers
  list_timers-Echoes arguments = elim (Result-cases (normalize_timers_query arguments)) [
    | inr (error, e) ↦ rw (e, handle_list_timers) (error-Echoes error)
    | inl (query, e) ↦ elim (Result-cases (env.units.list_timer_units query.scope)) [
      | inr (error, f) ↦ rw (e, handle_list_timers, f) (error-Echoes error)
      | inl (timers, f) ↦ rw (e, handle_list_timers, f) (timers_answer-Echoes query timers)
    ]
  ]

  logs_answer-Echoes :
      (query : Query.NormalizedLogsQuery) (found : LogQueryResult)
      → Echoes (logs_answer env (some id) query found)
  unfolding logs_answer
  logs_answer-Echoes query found = elim (Bool-cases query.summary_enabled) [
    | inl e ↦ rw (e, logs_answer) (success-Echoes _ _)
    | inr e ↦ rw (e, logs_answer) (success-Echoes _ _)
  ]

  query_logs-Echoes : (arguments : Fields) → Echoes (query_logs env (some id) arguments)
  unfolding query_logs
  query_logs-Echoes arguments =
      elim (Result-cases (Query.normalize_logs_query env (some arguments))) [
        | inr (Query.invalid_params, e) ↦ rw (e, query_logs) invalid_params-Echoes
        | inr (Query.domain error, e) ↦ rw (e, query_logs) (error-Echoes error)
        | inl (query, e) ↦ elim (Result-cases (env.units.list_journal_logs query.query)) [
          | inr (error, f) ↦ rw (e, query_logs, f) (error-Echoes error)
          | inl (found, f) ↦ rw (e, query_logs, f) (logs_answer-Echoes query found)
        ]
      ]

  list_logs-Echoes : (arguments : Option Fields) → Echoes (handle_list_logs env (some id) arguments)
  unfolding handle_list_logs
  list_logs-Echoes arguments = elim (Result-cases (resolve_start env (unwrap_or arguments end))) [
    | inr (error, e) ↦ rw (e, handle_list_logs) (error-Echoes error)
    | inl (resolved, e) ↦ rw (e, handle_list_logs) (query_logs-Echoes resolved)
  ]

  call_tool-Echoes :
      (name : Text) (arguments : Option Fields) → Echoes (call_tool env (some id) name arguments)
  unfolding call_tool
  call_tool-Echoes name arguments =
      if-Echoes (text_eq name (text "list_services")) _ _ (list_services-Echoes arguments) (
        if-Echoes (text_eq name (text "get_unit_status")) _ _ (unit_status-Echoes arguments) (
          if-Echoes (text_eq name (text "get_container_status")) _ _ (container-Echoes arguments) (
            if-Echoes (text_eq name (text "get_pod_status")) _ _ (pod-Echoes arguments) (
              if-Echoes (text_eq name (text "list_timers")) _ _ (list_timers-Echoes arguments) (
                if-Echoes (text_eq name (text "list_logs")) _ _ (list_logs-Echoes arguments)
                  (not_found-Echoes _))))))

  pub tools_call-Echoes : (params : Option Json) → Echoes (handle_tools_call env (some id) params)
  unfolding handle_tools_call
  tools_call-Echoes none = invalid_params-Echoes
  tools_call-Echoes (some raw) = elim (Option-cases (env.decode.call_tool_params raw)) [
    | inl e ↦ rw (e, handle_tools_call) invalid_params-Echoes
    | inr ((name, arguments), e) ↦ rw (e, handle_tools_call) (call_tool-Echoes name arguments)
  ]
