-- ===== src/Tools/Inspect.antt =====
-- domain/tools/unit_status.rs and domain/tools/podman.rs: the tools that inspect one unit, container
-- or pod.
use systemd_monitoring_mcp.Base.{
  ℕ, not, ◌&&◌, Option, none, some, [], ◌∷◌, leb, if◌then◌else◌, unwrap_or, Result, ok, err, ◌>>=◌,
}
use systemd_monitoring_mcp.Text.{Text, text, ends_with}
use systemd_monitoring_mcp.Json.{Json, Fields, end, fields}
use systemd_monitoring_mcp.Errors.{AppError, bad_request}
use systemd_monitoring_mcp.Units.{UnitScope, system, user}
use systemd_monitoring_mcp.Utils.{normalize_unit, normalize_scope}
use systemd_monitoring_mcp.Rpc.{json_rpc_invalid_params, app_error_to_json_rpc}
use systemd_monitoring_mcp.Responses.{tool_success_response}
use systemd_monitoring_mcp.Env.{Env, UnitStatusParams}

abbrev not_a_service : AppError
not_a_service = bad_request "invalid_unit" "unit must be a valid .service name"

unfoldable pub service_unit : Text → Result Text AppError
unfolding ends_with
service_unit value = elim (normalize_unit (some value)) [
  | ok (some unit) ↦ if ends_with unit (text ".service") then ok unit else err not_a_service
  | _ ↦ err not_a_service
]

unfoldable pub single_scope : Option Text → Result UnitScope AppError
single_scope value = elim (normalize_scope value) [
  | ok system ↦ ok system
  | ok user ↦ ok user
  | _ ↦ err (bad_request "invalid_scope" "scope must be system or user")
]

unfoldable pub transition_limit_of : Option ℕ → Result ℕ AppError
transition_limit_of value =
    let limit = unwrap_or value 20 in
    if not (leb 1 limit && leb limit 100)
    then err (bad_request "invalid_transition_limit" "transition_limit must be between 1 and 100")
    else ok limit

module _ (env : Env) where
  unfoldable pub inspect_unit : UnitStatusParams → Result Json AppError
  inspect_unit params = do
    unit ← service_unit params.unit
    scope ← single_scope params.scope
    limit ← transition_limit_of params.transition_limit
    env.units.get_unit_status unit scope limit

  -- Every handler's last `match`: a status or an error.
  unfoldable pub answer_with : Option Json → Text → Text → Result Json AppError → Json
  answer_with id message name (ok status) =
      tool_success_response env.sdk id message (fields ((name, status) ∷ []))
  answer_with id message name (err error) = app_error_to_json_rpc env.sdk id error

  unfoldable pub handle_unit_status : Option Json → Option Fields → Json
  unfolding answer_with
  handle_unit_status id arguments = elim (env.decode.unit_status_params (unwrap_or arguments end)) [
    | none ↦ json_rpc_invalid_params env.sdk id
    | some params ↦
        answer_with id (text "Returned unit status") (text "status") (inspect_unit params)
  ]

  unfoldable pub handle_container : Option Json → Option Fields → Json
  unfolding answer_with
  handle_container id arguments = elim (env.decode.container_params (unwrap_or arguments end)) [
    | none ↦ json_rpc_invalid_params env.sdk id
    | some container ↦
        answer_with id (text "Returned container status") (text "container")
          (env.podman.container_status container)
  ]

  unfoldable pub handle_pod : Option Json → Option Fields → Json
  unfolding answer_with
  handle_pod id arguments = elim (env.decode.pod_params (unwrap_or arguments end)) [
    | none ↦ json_rpc_invalid_params env.sdk id
    | some pod ↦
        answer_with id (text "Returned pod status") (text "pod") (env.podman.pod_status pod)
  ]
